-- ===== src/Subscriptions/Fetching/Fetched.antt =====
-- What Fetch of subscriptions/fetcher.go returns, and the interval that a server suggests.
use target_lib.Base.{
  List, [], ◌∷◌, Option, none, some, ℕ, zero, suc, Text, text, Bool, true, false, not, ok, pos, ltb,
  leb, is_empty, ◌*◌, ◌<◌, ◌≤◌, trim_space, nat_eq, ◌≡◌, refl, ◌⊎◌, inl, inr, length, take,
  refuse_if, ◌>>=◌, ◌>>◌, arith, >>-eq-ok, >>=-eq-ok, refuse_if-eq-ok, ok-injective, ap, subst, sym,
  ◌∙◌, ◌&&◌,
}
use target_lib.Subscriptions.Model.{Subscription}
use target_lib.Subscriptions.Fetching.{FetchResponse}
use target_lib.Subscriptions.Fetching.Http.{
  Http, HttpResponse, HttpFetcher, FetchError, fetch, accept_response, accept_when, checked_body,
  read_body, check_url, allowed_scheme, request_for, answered, is_success, hours_of,
  parse_suggested_interval, fetch_header_metadata,
}

-- A list that is no longer than n keeps all its elements when n + 1 are taken.
take-all : (n : ℕ) (xs : List ℕ) → ltb n (length (take (suc n) xs)) ≡ false → take (suc n) xs ≡ xs
take-all n [] h = refl
take-all zero (x ∷ xs) h = ground arith
take-all (suc n) (x ∷ xs) h = ap (λ t. x ∷ t) (take-all n xs (ground arith))

le_of_ltb : {m n : ℕ} → ltb m n ≡ false → n ≤ m
le_of_ltb h = ground arith

and-left : (b : Bool) {m n : ℕ} → (b && leb m n) ≡ false → m ≤ n → b ≡ false
and-left true h k = ground arith
and-left false h k = refl

not-false : (b : Bool) → not b ≡ false → b ≡ true
not-false true h = refl
not-false false h = cc

success-range : (n : ℕ) → not (is_success n) ≡ false → (200 ≤ n) × (n < 300)
unfolding is_success
success-range n h = ground arith

hours-exact : (n : ℕ) → n ≤ 2562047 → hours_of (some (pos n)) ≡ pos (n * 3600000000000)
unfolding hours_of
hours-exact n h = ground arith

-- A value behind two guards is had only if both let it pass.
two_guards {ℓ κ} :
    {E : Type ℓ} {A : Type κ} (b c : Bool) (e f : E) (x : A) {out : A}
    → (refuse_if b e >> refuse_if c f >> ok x) ≡ ok out
    → (b ≡ false) × (c ≡ false) × (x ≡ out)
two_guards true c e f x h = cc
two_guards false true e f x h = cc
two_guards false false e f x h = (refl, refl, ok-injective h)

module _ (H : Http) where
  -- What a response has to be for a result.
  pub FromResponse : ℕ → HttpResponse → FetchResponse → Type 0
  FromResponse limit r out =
      ((r.status ≡ 304) × (out.not_modified ≡ true) × (out.body ≡ []))
      ⊎ ((200 ≤ r.status)
          × (r.status < 300)
          × (out.not_modified ≡ false)
          × (out.body ≡ r.received)
          × (r.broken ≡ false)
          × (length r.received ≤ limit)
          × (is_empty (trim_space (H.string_of r.received)) ≡ false))

  pub IsFetched : HttpFetcher → Subscription → FetchResponse → Type 0
  IsFetched f s out =
      (target : Text × Text) × (H.parse_request_uri s.url ≡ some target)
      × (is_empty target.1 ≡ false)
      × (allowed_scheme H f.allow_insecure_http target.0 ≡ true)
      × (r : HttpResponse) × (H.get (request_for H s) ≡ some r)
      × FromResponse f.max_body_bytes r out

  checked_body-ok :
      (limit : ℕ) (r : HttpResponse) (bytes : List ℕ) {out : FetchResponse}
      → checked_body H limit r bytes ≡ ok out
      → (ltb limit (length bytes) ≡ false)
        × (is_empty (trim_space (H.string_of bytes)) ≡ false)
        × (record (fetch_header_metadata H r.header) { body = bytes } ≡ out)
  unfolding checked_body
  checked_body-ok limit r bytes h =
      two_guards (ltb limit (length bytes)) (is_empty (trim_space (H.string_of bytes)))
        FetchError.too_large FetchError.empty_body _ h

  read_body-ok :
      (limit : ℕ) (r : HttpResponse) {bytes : List ℕ}
      → read_body H limit r ≡ ok bytes
      → ((r.broken && leb (length r.received) limit) ≡ false)
        × (take (suc limit) r.received ≡ bytes)
  unfolding read_body
  read_body-ok limit r h =
      let guarded =
        >>-eq-ok (r.broken && leb (length r.received) limit) FetchError.read_failed _ h in
      (guarded.0, ok-injective guarded.1)

  body-whole :
      (limit : ℕ) (r : HttpResponse) {out : FetchResponse}
      → (read_body H limit r >>= checked_body H limit r) ≡ ok out
      → (out.not_modified ≡ false)
        × (out.body ≡ r.received)
        × (r.broken ≡ false)
        × (length r.received ≤ limit)
        × (is_empty (trim_space (H.string_of r.received)) ≡ false)
  unfolding fetch_header_metadata
  body-whole limit r h =
      let step = >>=-eq-ok (read_body H limit r) (checked_body H limit r) h in
      let read = read_body-ok limit r step.1 in
      let checked = checked_body-ok limit r step.0 step.2 in
      let fits = subst (λ xs. ltb limit (length xs) ≡ false) (sym read.1) checked.0 in
      let whole = sym read.1 ∙ take-all limit r.received fits in
      let short = le_of_ltb (subst (λ xs. ltb limit (length xs) ≡ false) whole checked.0) in
      (
        subst (λ o. o.not_modified ≡ false) checked.2 refl,
        sym (ap (λ o. o.body) checked.2) ∙ whole,
        and-left r.broken read.0 short,
        short,
        subst (λ xs. is_empty (trim_space (H.string_of xs)) ≡ false) whole checked.1,
      )

  response-taken :
      (b : Bool) (limit : ℕ) (r : HttpResponse) {out : FetchResponse}
      → nat_eq r.status 304 ≡ b
      → accept_when H b limit r ≡ ok out
      → FromResponse limit r out
  unfolding accept_when FromResponse fetch_header_metadata
  response-taken true limit r e h = inl (
    ground arith,
    subst (λ o. o.not_modified ≡ true) (ok-injective h) refl,
    subst (λ o. o.body ≡ []) (ok-injective h) refl,
  )
  response-taken false limit r e h =
      let guarded = >>-eq-ok (not (is_success r.status)) (FetchError.bad_status r.status) _ h in
      let range = success-range r.status guarded.0 in
      let w = body-whole limit r guarded.1 in inr (range.0, range.1, w.0, w.1, w.2, w.3, w.4)

  url-checked :
      (insecure : Bool) (parsed : Option (Text × Text)) {u : Unit {0}}
      → check_url H insecure parsed ≡ ok u
      → (target : Text × Text) × (parsed ≡ some target)
        × (is_empty target.1 ≡ false)
        × (allowed_scheme H insecure target.0 ≡ true)
  unfolding check_url
  url-checked insecure none h = cc
  url-checked insecure (some (scheme, host)) h =
      let hosted = >>-eq-ok (is_empty host) FetchError.invalid_url _ h in
      let allowed = refuse_if-eq-ok _ FetchError.https_required hosted.1 in
      ((scheme, host), refl, hosted.0, not-false _ allowed)

  answered-ok : (o : Option HttpResponse) {r : HttpResponse} → answered H o ≡ ok r → o ≡ some r
  answered-ok none h = cc
  answered-ok (some r) h = ap some (ok-injective h)

  -- If Fetch returns a result, the URL parses with a host and an allowed scheme, and the answer to
  -- the request was 304, with no body taken, or a status from 200 to 299, with a body that came
  -- whole, is not blank and is no longer than the limit; that body is the result's.
  pub fetch-IsFetched :
      (f : HttpFetcher) (s : Subscription) {out : FetchResponse}
      → fetch H f s ≡ ok out
      → IsFetched f s out
  unfolding fetch accept_response IsFetched
  fetch-IsFetched f s h =
      let sent = >>=-eq-ok (check_url H f.allow_insecure_http (H.parse_request_uri s.url)) _ h in
      let got = >>=-eq-ok (answered H (H.get (request_for H s))) _ sent.2 in
      let (target, parsed, hosted, allowed) = url-checked f.allow_insecure_http _ sent.1 in
      (
        target,
        parsed,
        hosted,
        allowed,
        got.0,
        answered-ok _ got.1,
        response-taken _ f.max_body_bytes got.0 refl got.2,
      )

  -- A server that suggests an interval of 1 to 2562047 hours is given that interval exactly.
  pub parse_suggested_interval-exact :
      (header : Text → Text) (n : ℕ)
      → is_empty (trim_space (header (text "Profile-Update-Interval"))) ≡ false
      → H.parse_int (trim_space (header (text "Profile-Update-Interval"))) ≡ some (pos n)
      → n ≤ 2562047
      → parse_suggested_interval H header ≡ pos (n * 3600000000000)
  unfolding parse_suggested_interval
  parse_suggested_interval-exact header n given read few = rw (given, read) (hours-exact n few)
