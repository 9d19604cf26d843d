-- ===== src/Base/Lists.antt =====
-- Lists, sets as lists of strings, and predicates over lists.
use Prim.Native.Nat.{ℕ, zero, suc, ◌≤◌}
use mathlib.Core.Path.{◌≡◌, refl, subst, ap}
use mathlib.Core.Logic.{inl, inr}
use mathlib.Core.Bool.{Bool, true, false, ◌||◌}
use mathlib.Core.List.{List, [], ◌∷◌, ◌++◌, map}
use native.Mathlib.Omega.{arith}
use target_lib.Base.Logic.{if◌then◌else◌, Bool-cases}
use target_lib.Base.Texts.{Text, ◌==◌, eq_iff}

module _ {ℓ} {A : Type ℓ} where
  abbrev pub length : List A → ℕ
  length [] = 0
  length (x ∷ xs) = suc (length xs)

  abbrev pub is_empty : List A → Bool
  is_empty [] = true
  is_empty (x ∷ xs) = false

  abbrev pub take : ℕ → List A → List A
  take zero xs = []
  take (suc n) [] = []
  take (suc n) (x ∷ xs) = x ∷ take n xs

  abbrev pub drop : ℕ → List A → List A
  drop zero xs = xs
  drop (suc n) [] = []
  drop (suc n) (x ∷ xs) = drop n xs

  -- The first element of a slice, which the source takes only where there is one.
  abbrev pub head_or : A → List A → A
  head_or d [] = d
  head_or d (x ∷ xs) = x

  -- A `for` loop that keeps the elements that pass a test.
  unfoldable pub keep : (A → Bool) → List A → List A
  keep p [] = []
  keep p (x ∷ xs) = let rest = keep p xs in if p x then x ∷ rest else rest

pub length-take {ℓ} : {A : Type ℓ} (n : ℕ) (xs : List A) → n ≤ length xs → length (take n xs) ≡ n
length-take zero xs h = refl
length-take (suc n) [] h = absurd (omega arith)
length-take (suc n) (x ∷ xs) h = ap suc (length-take n xs (omega arith))

-- What follows two beginnings of one length is the same if the whole is.
pub append-cancel {ℓ} :
    {A : Type ℓ} (xs ys s t : List A)
    → length xs ≡ length ys
    → xs ++ s ≡ ys ++ t
    → (xs ≡ ys) × (s ≡ t)
append-cancel [] [] s t h e = (refl, e)
append-cancel [] (y ∷ ys) s t h e = absurd (omega arith)
append-cancel (x ∷ xs) [] s t h e = absurd (omega arith)
append-cancel (x ∷ xs) (y ∷ ys) s t h e =
    let rest = append-cancel xs ys s t (omega arith) (cc) in (cc (rest.0), rest.1)

module _ {ℓ κ} {A : Type ℓ} (P : A → Type κ) where
  abbrev pub All : List A → Type κ
  All [] = Unit
  All (x ∷ xs) = P x × All xs

  pub All-append : (xs ys : List A) → All xs → All ys → All (xs ++ ys)
  All-append [] ys h k = k
  All-append (x ∷ xs) ys h k = (h.0, All-append xs ys h.1 k)

  pub All-keep : (p : A → Bool) (xs : List A) → All xs → All (keep p xs)
  unfolding keep
  All-keep p [] h = tt
  All-keep p (x ∷ xs) h = elim (Bool-cases (p x)) [
    | inl e ↦ rw e (h.0, All-keep p xs h.1)
    | inr e ↦ rw e (All-keep p xs h.1)
  ]

pub All-map {ℓ κ ι} :
    {A : Type ℓ} (P : A → Type κ) (Q : A → Type ι) (xs : List A)
    → ((a : A) → P a → Q a)
    → All P xs
    → All Q xs
All-map P Q [] f h = tt
All-map P Q (x ∷ xs) f h = (f x h.0, All-map P Q xs f h.1)

-- set[a], for a set that is held as a list.
unfoldable pub contains : List Text → Text → Bool
contains [] a = false
contains (x ∷ xs) a = (x == a) || contains xs a

pub contains-append :
    (xs ys : List Text) (a : Text) → contains (xs ++ ys) a ≡ (contains xs a || contains ys a)
unfolding contains
contains-append [] ys a = refl
contains-append (x ∷ xs) ys a = ground (arith, contains-append xs ys a)

pub contains_of_All :
    (xs ys : List Text) (a : Text)
    → All (λ x. contains ys x ≡ true) xs
    → contains xs a ≡ true
    → contains ys a ≡ true
unfolding contains
contains_of_All [] ys a h k = ground arith
contains_of_All (x ∷ xs) ys a h k = ground (arith, eq_iff x a, contains_of_All xs ys a h.1)

-- No string stands twice.
abbrev pub Distinct : List Text → Type 0
Distinct [] = Unit
Distinct (x ∷ xs) = (contains xs x ≡ false) × Distinct xs

-- No string stands in both.
abbrev pub Disjoint : List Text → List Text → Type 0
Disjoint xs ys = All (λ x. contains ys x ≡ false) xs

pub Distinct-append :
    (xs ys : List Text) → Distinct xs → Distinct ys → Disjoint xs ys → Distinct (xs ++ ys)
Distinct-append [] ys h k d = k
Distinct-append (x ∷ xs) ys h k d =
    (ground (arith, contains-append xs ys x), Distinct-append xs ys h.1 k d.1)

pub not-contains_of_Disjoint :
    (xs ys : List Text) (a : Text) → Disjoint xs (a ∷ ys) → contains xs a ≡ false
unfolding contains
not-contains_of_Disjoint [] ys a h = refl
not-contains_of_Disjoint (x ∷ xs) ys a h =
    ground (arith, eq_iff x a, eq_iff a x, not-contains_of_Disjoint xs ys a h.1)

pub Disjoint-weaken :
    (xs ys zs : List Text)
    → ((a : Text) → contains ys a ≡ true → contains zs a ≡ true)
    → Disjoint xs zs
    → Disjoint xs ys
Disjoint-weaken [] ys zs f h = tt
Disjoint-weaken (x ∷ xs) ys zs f h = (
  elim (Bool-cases (contains ys x)) [ inl e ↦ cc (f x e, h.0) | inr e ↦ e ],
  Disjoint-weaken xs ys zs f h.1,
)

pub Disjoint-tail : (xs ids : List Text) (a : Text) → Disjoint xs (a ∷ ids) → Disjoint xs ids
unfolding contains
Disjoint-tail xs ids a = Disjoint-weaken xs ids (a ∷ ids) (λ b h. ground arith)

pub Disjoint-cons_right :
    (ys xs : List Text) (x : Text) → contains ys x ≡ false → Disjoint ys xs → Disjoint ys (x ∷ xs)
unfolding contains
Disjoint-cons_right [] xs x h d = tt
Disjoint-cons_right (y ∷ ys) xs x h d =
    (ground (arith, eq_iff x y, eq_iff y x), Disjoint-cons_right ys xs x (ground arith) d.1)

pub Disjoint-nil : (ys : List Text) → Disjoint ys []
unfolding contains
Disjoint-nil [] = tt
Disjoint-nil (y ∷ ys) = (refl, Disjoint-nil ys)

pub Disjoint-symm : (xs ys : List Text) → Disjoint xs ys → Disjoint ys xs
Disjoint-symm [] ys h = Disjoint-nil ys
Disjoint-symm (x ∷ xs) ys h = Disjoint-cons_right ys xs x h.0 (Disjoint-symm xs ys h.1)

pub All-of_contains {ℓ} :
    (P : Text → Type ℓ) (xs : List Text) (a : Text) → All P xs → contains xs a ≡ true → P a
unfolding contains
All-of_contains P [] a h k = cc
All-of_contains P (x ∷ xs) a h k = elim (Bool-cases (x == a)) [
  | inl e ↦ subst P ((eq_iff x a).0 e) h.0
  | inr e ↦ All-of_contains P xs a h.1 (ground arith)
]

-- The relation holds from each element to every later one.
abbrev pub EachPair {ℓ κ} : {A : Type ℓ} → (A → A → Type κ) → List A → Type κ
EachPair R [] = Unit
EachPair R (x ∷ xs) = All (R x) xs × EachPair R xs

module _ {ℓ} {A : Type ℓ} (p : A → Bool) where
  pub keep-All : (xs : List A) → All (λ x. p x ≡ true) xs → keep p xs ≡ xs
  unfolding keep
  keep-All [] h = refl
  keep-All (x ∷ xs) h = rw (h.0, keep-All xs h.1)

  module _ (f : A → Text) where
    pub not-contains-keep :
        (xs : List A) (a : Text)
        → contains (map f xs) a ≡ false
        → contains (map f (keep p xs)) a ≡ false
    unfolding keep contains
    not-contains-keep [] a h = refl
    not-contains-keep (x ∷ xs) a h = ground (arith, not-contains-keep xs a)

    pub Distinct-keep : (xs : List A) → Distinct (map f xs) → Distinct (map f (keep p xs))
    unfolding keep
    Distinct-keep [] h = tt
    Distinct-keep (x ∷ xs) h = elim (Bool-cases (p x)) [
      | inl e ↦ rw e (not-contains-keep xs (f x) h.0, Distinct-keep xs h.1)
      | inr e ↦ rw e (Distinct-keep xs h.1)
    ]

    pub All-keep-map {κ} :
        (P : Text → Type κ) (xs : List A) → All P (map f xs) → All P (map f (keep p xs))
    unfolding keep
    All-keep-map P [] h = tt
    All-keep-map P (x ∷ xs) h = elim (Bool-cases (p x)) [
      | inl e ↦ rw e (h.0, All-keep-map P xs h.1)
      | inr e ↦ rw e (All-keep-map P xs h.1)
    ]

pub Disjoint-append_right :
    (xs ys zs : List Text) → Disjoint xs ys → Disjoint xs zs → Disjoint xs (ys ++ zs)
Disjoint-append_right [] ys zs h k = tt
Disjoint-append_right (x ∷ xs) ys zs h k =
    (ground (arith, contains-append ys zs x), Disjoint-append_right xs ys zs h.1 k.1)

pub All-contains_self : (xs : List Text) → All (λ x. contains xs x ≡ true) xs
unfolding contains
All-contains_self [] = tt
All-contains_self (x ∷ xs) = (
  ground (arith, eq_iff x x),
  All-map (λ y. contains xs y ≡ true) _ xs (λ y h. ground (arith, eq_iff x y))
      (All-contains_self xs),
)

pub All-of_map {ℓ κ} :
    {A : Type ℓ} (f : A → Text) (P : Text → Type κ) (xs : List A)
    → All P (map f xs)
    → All (λ x. P (f x)) xs
All-of_map f P [] h = tt
All-of_map f P (x ∷ xs) h = (h.0, All-of_map f P xs h.1)

module _ {ℓ κ} {A : Type ℓ} (P : A → Type κ) where
  pub All-take : (n : ℕ) (xs : List A) → All P xs → All P (take n xs)
  All-take zero xs h = tt
  All-take (suc n) [] h = tt
  All-take (suc n) (x ∷ xs) h = (h.0, All-take n xs h.1)

  pub All-drop : (n : ℕ) (xs : List A) → All P xs → All P (drop n xs)
  All-drop zero xs h = h
  All-drop (suc n) [] h = tt
  All-drop (suc n) (x ∷ xs) h = All-drop n xs h.1

pub EachPair-map {ℓ ι μ} :
    {A : Type ℓ} (R : A → A → Type ι) (S : A → A → Type μ) (xs : List A)
    → ((a b : A) → R a b → S a b)
    → EachPair R xs
    → EachPair S xs
EachPair-map R S [] f h = tt
EachPair-map R S (x ∷ xs) f h =
    (All-map (R x) (S x) xs (λ y k. f x y k) h.0, EachPair-map R S xs f h.1)

pub All-to_map {ℓ κ} :
    {A : Type ℓ} (f : A → Text) (P : Text → Type κ) (xs : List A)
    → All (λ x. P (f x)) xs
    → All P (map f xs)
All-to_map f P [] h = tt
All-to_map f P (x ∷ xs) h = (h.0, All-to_map f P xs h.1)

pub not-contains_of_All :
    (xs : List Text) (a : Text) → All (λ x. (x == a) ≡ false) xs → contains xs a ≡ false
unfolding contains
not-contains_of_All [] a h = refl
not-contains_of_All (x ∷ xs) a h = rw (h.0, not-contains_of_All xs a h.1)

pub All-of_each {ℓ} :
    (P : Text → Type ℓ) (xs : List Text) → ((a : Text) → contains xs a ≡ true → P a) → All P xs
unfolding contains
All-of_each P [] h = tt
All-of_each P (x ∷ xs) h =
    (h x (ground (arith, eq_iff x x)), All-of_each P xs (λ a k. h a (ground (arith, k))))
