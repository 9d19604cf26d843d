-- ===== src/Base/Sorting.antt =====
-- slices.Sort and slices.SortFunc as insertion by an order. Where keys repeat, the library leaves
-- their order open and the model keeps the order of the input.
use mathlib.Core.Path.{◌≡◌, refl, sym, ap, subst}
use mathlib.Core.Logic.{inl, inr}
use mathlib.Core.Bool.{Bool, true, false, ◌||◌}
use mathlib.Core.List.{List, [], ◌∷◌, map, Perm}
use mathlib.Core.List.Perm
use native.Mathlib.Omega.{arith}
use target_lib.Base.Logic.{if◌then◌else◌, Bool-cases}
use target_lib.Base.Texts.{Text, ◌==◌, eq_iff, text_le}
use target_lib.Base.Lists.{All, All-map, EachPair, contains, Distinct}

module _ {ℓ} {A : Type ℓ} (le : A → A → Bool) where
  unfoldable pub insert_by : A → List A → List A
  insert_by x [] = x ∷ []
  insert_by x (y ∷ ys) = if le x y then x ∷ y ∷ ys else y ∷ insert_by x ys

  unfoldable pub sort_by : List A → List A
  unfolding insert_by
  sort_by [] = []
  sort_by (x ∷ xs) = insert_by x (sort_by xs)

  insert_by-perm : (x : A) (ys : List A) → Perm (insert_by x ys) (x ∷ ys)
  unfolding insert_by
  insert_by-perm x [] = Perm.refl (x ∷ [])
  insert_by-perm x (y ∷ ys) = elim (Bool-cases (le x y)) [
    | inl e ↦ rw e (Perm.refl (x ∷ y ∷ ys))
    | inr e ↦ rw e (Perm.trans (Perm.cons y (insert_by-perm x ys)) (Perm.swap x y ys))
  ]

  -- Sorting loses nothing and makes nothing up.
  pub sort_by-perm : (xs : List A) → Perm (sort_by xs) xs
  unfolding sort_by
  sort_by-perm [] = Perm.refl []
  sort_by-perm (x ∷ xs) = Perm.trans (insert_by-perm x (sort_by xs)) (Perm.cons x (sort_by-perm xs))

  insert_by-All {κ} :
      (P : A → Type κ) (x : A) (ys : List A) → P x → All P ys → All P (insert_by x ys)
  unfolding insert_by
  insert_by-All P x [] h k = (h, tt)
  insert_by-All P x (y ∷ ys) h k = elim (Bool-cases (le x y)) [
    | inl e ↦ rw e (h, k)
    | inr e ↦ rw e (k.0, insert_by-All P x ys h k.1)
  ]

  pub sort_by-All {κ} : (P : A → Type κ) (xs : List A) → All P xs → All P (sort_by xs)
  unfolding sort_by
  sort_by-All P [] h = tt
  sort_by-All P (x ∷ xs) h = insert_by-All P x (sort_by xs) h.0 (sort_by-All P xs h.1)

  insert_by-EachPair {κ} :
      (R : A → A → Type κ) (x : A) (ys : List A)
      → ((a b : A) → R a b → R b a)
      → All (R x) ys
      → EachPair R ys
      → EachPair R (insert_by x ys)
  unfolding insert_by
  insert_by-EachPair R x [] symm h k = (tt, tt)
  insert_by-EachPair R x (y ∷ ys) symm h k = elim (Bool-cases (le x y)) [
    | inl e ↦ rw e (h, k)
    | inr e ↦
        rw e (insert_by-All (R y) x ys (symm x y h.0) k.0, insert_by-EachPair R x ys symm h.1 k.1)
  ]

  pub sort_by-EachPair {κ} :
      (R : A → A → Type κ) (xs : List A)
      → ((a b : A) → R a b → R b a)
      → EachPair R xs
      → EachPair R (sort_by xs)
  unfolding sort_by
  sort_by-EachPair R [] symm h = tt
  sort_by-EachPair R (x ∷ xs) symm h =
      insert_by-EachPair R x (sort_by xs) symm (sort_by-All (R x) xs h.0)
        (sort_by-EachPair R xs symm h.1)

  -- Sorting leaves a sorted slice as it is.
  pub sort_by-of_sorted : (xs : List A) → EachPair (λ a b. le a b ≡ true) xs → sort_by xs ≡ xs
  unfolding sort_by insert_by
  sort_by-of_sorted [] h = refl
  sort_by-of_sorted (x ∷ []) h = refl
  sort_by-of_sorted (x ∷ y ∷ ys) h = rw (sort_by-of_sorted (y ∷ ys) h.1, h.0.0) refl

  module _ (total : (a b : A) → le a b ≡ false → le b a ≡ true)
      (trans : (a b c : A) → le a b ≡ true → le b c ≡ true → le a c ≡ true) where
    insert_by-sorted :
        (x : A) (ys : List A)
        → EachPair (λ a b. le a b ≡ true) ys
        → EachPair (λ a b. le a b ≡ true) (insert_by x ys)
    unfolding insert_by
    insert_by-sorted x [] h = (tt, tt)
    insert_by-sorted x (y ∷ ys) h = elim (Bool-cases (le x y)) [
      | inl e ↦ rw e ((e, All-map _ _ ys (λ z k. trans x y z e k) h.0), h)
      | inr e ↦
          rw e
            (insert_by-All (λ z. le y z ≡ true) x ys (total x y e) h.0, insert_by-sorted x ys h.1)
    ]

    -- Under a total, transitive order each element of the result precedes all later ones.
    pub sort_by-sorted : (xs : List A) → EachPair (λ a b. le a b ≡ true) (sort_by xs)
    unfolding sort_by
    sort_by-sorted [] = tt
    sort_by-sorted (x ∷ xs) = insert_by-sorted x (sort_by xs) (sort_by-sorted xs)

  module _ (f : A → Text) where
    insert_by-contains :
        (x : A) (ys : List A) (a : Text)
        → contains (map f (insert_by x ys)) a ≡ ((f x == a) || contains (map f ys) a)
    unfolding insert_by contains
    insert_by-contains x [] a = refl
    insert_by-contains x (y ∷ ys) a = ground (arith, insert_by-contains x ys a)

    pub sort_by-contains :
        (xs : List A) (a : Text) → contains (map f (sort_by xs)) a ≡ contains (map f xs) a
    unfolding sort_by contains
    sort_by-contains [] a = refl
    sort_by-contains (x ∷ xs) a =
        ground (arith, insert_by-contains x (sort_by xs) a, sort_by-contains xs a)

    insert_by-Distinct :
        (x : A) (ys : List A)
        → contains (map f ys) (f x) ≡ false
        → Distinct (map f ys)
        → Distinct (map f (insert_by x ys))
    unfolding insert_by contains
    insert_by-Distinct x [] h k = (refl, tt)
    insert_by-Distinct x (y ∷ ys) h k = elim (Bool-cases (le x y)) [
      | inl e ↦ rw e (h, k)
      | inr e ↦ rw e (
        ground (arith, insert_by-contains x ys (f y), eq_iff (f x) (f y), eq_iff (f y) (f x)),
        insert_by-Distinct x ys (ground arith) k.1,
      )
    ]

    pub sort_by-Distinct : (xs : List A) → Distinct (map f xs) → Distinct (map f (sort_by xs))
    unfolding sort_by
    sort_by-Distinct [] h = tt
    sort_by-Distinct (x ∷ xs) h =
        insert_by-Distinct x (sort_by xs) (rw (sort_by-contains xs (f x)) h.0)
          (sort_by-Distinct xs h.1)

-- The order of a key, strings.Compare(key(a), key(b)) <= 0.
abbrev pub by_key {ℓ} : {A : Type ℓ} → (A → Text) → A → A → Bool
by_key key a b = text_le (key a) (key b)

map_self : (xs : List Text) → map (λ x. x) xs ≡ xs
map_self [] = refl
map_self (x ∷ xs) = ap (◌∷◌ x) (map_self xs)

module _ (le : Text → Text → Bool) where
  pub sort_by-contains_self :
      (xs : List Text) (a : Text) → contains (sort_by le xs) a ≡ contains xs a
  sort_by-contains_self xs a =
      subst (λ ys. contains ys a ≡ contains xs a) (map_self (sort_by le xs))
        (subst (λ ys. contains (map (λ x. x) (sort_by le xs)) a ≡ contains ys a) (map_self xs)
          (sort_by-contains le (λ x. x) xs a))

  pub sort_by-Distinct_self : (xs : List Text) → Distinct xs → Distinct (sort_by le xs)
  sort_by-Distinct_self xs h =
      subst Distinct (map_self (sort_by le xs))
        (sort_by-Distinct le (λ x. x) xs (subst Distinct (sym (map_self xs)) h))
