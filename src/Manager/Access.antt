-- ===== src/Manager/Access.antt =====
-- manager/auth.go and the traffic and log streams of manager/manager.go.
use target_lib.Base.{
  ◌≡◌, refl, sym, ap, ◌∙◌, ℕ, ◌*◌, ◌≤◌, Bool, true, false, not, ◌||◌, List, [], ◌∷◌, ◌++◌, Option,
  none, some, arith, cut_prefix, Text, text, ◌==◌, eq_iff, eq_refl, nat_eq, ltb, len, trim_space,
  contains, Result, ok, err, refuse_if, if◌then◌else◌, ◌↔◌, Bool-cases, inl, inr,
}
use target_lib.Subscriptions.Maps.{some-injective}
use target_lib.Manager.{Code, invalid_argument, unauthenticated}

-- validateToken; none for its error.
unfoldable pub validate_token : Text → Option Text
validate_token token =
    if ltb (len (trim_space token)) 32 || ltb 512 (len (trim_space token))
    then none
    else some (trim_space token)

-- path.Base of a method's full name, which does not end in a slash: what stands behind the last.
abbrev pub base_from : Text → Text → Text
base_from seen [] = seen
base_from seen (c ∷ s) = if nat_eq c b'/' then base_from s s else base_from seen s

abbrev pub intent_methods : List Text
unfolding text
intent_methods =
    text "UpdateRuntimeConfig"
    ∷ text "UpsertRoute"
    ∷ text "DeleteRoute"
    ∷ text "SelectRouteNode"
    ∷ []

-- intentMethod.
unfoldable pub intent_method : Text → Bool
intent_method method = contains intent_methods (base_from method method)

abbrev pub bearer : Text
unfolding text
bearer = text "Bearer "

-- authenticate, on the values of the header "authorization".
abbrev pub compare_token : Text → Option Text → Result Code (Unit {0})
compare_token token none = err unauthenticated
compare_token token (some provided) = refuse_if (not (provided == token)) unauthenticated

abbrev pub check_header : Text → List Text → Result Code (Unit {0})
check_header token (value ∷ []) = compare_token token (cut_prefix bearer value)
check_header token _ = err unauthenticated

unfoldable pub authenticate : (token : Text) → (method : Text) → List Text → Result Code (Unit {0})
authenticate token method values = elim (intent_method method) [
  | false ↦ ok tt
  | true ↦ check_header token values
]

nat_eq_refl : (n : ℕ) → nat_eq n n ≡ true
nat_eq_refl n = ground arith

nat_eq-to_eq : (a b : ℕ) → nat_eq a b ≡ true → a ≡ b
nat_eq-to_eq a b h = ground arith

cut_prefix-append : (p s : Text) → cut_prefix p (p ++ s) ≡ some s
unfolding cut_prefix
cut_prefix-append [] s = refl
cut_prefix-append (c ∷ p) s = rw (cut_prefix, nat_eq_refl c) (cut_prefix-append p s)

module _ (q c : ℕ) (p v : Text) where
  cut_prefix_same : nat_eq q c ≡ true → cut_prefix (q ∷ p) (c ∷ v) ≡ cut_prefix p v
  unfolding cut_prefix
  cut_prefix_same b = rw (cut_prefix, b) refl

  cut_prefix_other : nat_eq q c ≡ false → cut_prefix (q ∷ p) (c ∷ v) ≡ none
  unfolding cut_prefix
  cut_prefix_other b = rw (cut_prefix, b) refl

append_of_cut_prefix : (p v : Text) {s : Text} → cut_prefix p v ≡ some s → v ≡ p ++ s
unfolding cut_prefix
append_of_cut_prefix [] v e = some-injective e
append_of_cut_prefix (q ∷ p) [] e = cc
append_of_cut_prefix (q ∷ p) (c ∷ v) e = elim (Bool-cases (nat_eq q c)) [
  | inl b ↦ cc (nat_eq-to_eq q c b, append_of_cut_prefix p v (sym (cut_prefix_same q c p v b) ∙ e))
  | inr b ↦ cc (cut_prefix_other q c p v b, e)
]

compare_token-ok : (token : Text) (o : Option Text) → compare_token token o ≡ ok tt → o ≡ some token
compare_token-ok token none h = cc
compare_token-ok token (some provided) h = elim (Bool-cases (provided == token)) [
  | inl e ↦ ap some ((eq_iff provided token).0 e)
  | inr e ↦ cc (sym (ap (λ b. refuse_if (not b) unauthenticated) e) ∙ h)
]

check_header-ok :
    (token : Text) (values : List Text)
    → check_header token values ≡ ok tt
    → values ≡ (bearer ++ token) ∷ []
check_header-ok token [] h = cc
check_header-ok token (v ∷ []) h =
    ap (λ x. x ∷ [])
      (append_of_cut_prefix bearer v (compare_token-ok token (cut_prefix bearer v) h))
check_header-ok token (v ∷ w ∷ more) h = cc

check_header-bearer : (token : Text) → check_header token ((bearer ++ token) ∷ []) ≡ ok tt
check_header-bearer token = rw (cut_prefix-append bearer token, eq_refl token) refl

-- A method that expresses an intent is let through exactly if the authorization header has one
-- value, which is "Bearer " and the control token.
pub authenticate_iff :
    (token method : Text) (values : List Text)
    → intent_method method ≡ true
    → (authenticate token method values ≡ ok tt) ↔ (values ≡ (bearer ++ token) ∷ [])
unfolding authenticate
authenticate_iff token method values h =
    rw (authenticate, h)
      (check_header-ok token values, λ e. ap (check_header token) e ∙ check_header-bearer token)

-- trafficInterval: milliseconds in uint32, the interval in nanoseconds.
unfoldable pub traffic_interval : ℕ → Result Code ℕ
traffic_interval ms =
    if nat_eq ms 0
    then ok 1000000000
    else if ltb (ms * 1000000) 250000000 || ltb 5000000000 (ms * 1000000)
    then err invalid_argument
    else ok (ms * 1000000)

-- SubscribeTraffic never asks the daemon for an interval outside 250 milliseconds to 5 seconds.
pub traffic_interval-bounds :
    (ms : ℕ) {interval : ℕ}
    → traffic_interval ms ≡ ok interval
    → (250000000 ≤ interval) × (interval ≤ 5000000000)
unfolding traffic_interval
traffic_interval-bounds ms h = (ground arith, ground arith)
