-- ===== src/Base/Subsequences.antt =====
-- Subsequences of lists: what is left when some members are dropped.
use mathlib.Core.Path.{subst, sym}
use mathlib.Core.List.{List, [], ◌∷◌, ◌++◌, append_assoc}

pub data IsSubsequence {ℓ} {A : Type ℓ} : List A → List A → Type ℓ where
  nothing : IsSubsequence [] []
  kept : (x : A) {xs ys : List A} → IsSubsequence xs ys → IsSubsequence (x ∷ xs) (x ∷ ys)
  dropped : (y : A) {xs ys : List A} → IsSubsequence xs ys → IsSubsequence xs (y ∷ ys)

module _ {ℓ} {A : Type ℓ} where
  pub IsSubsequence-refl : (xs : List A) → IsSubsequence xs xs
  IsSubsequence-refl [] = nothing
  IsSubsequence-refl (x ∷ xs) = kept x (IsSubsequence-refl xs)

  pub IsSubsequence-[] : (xs : List A) → IsSubsequence [] xs
  IsSubsequence-[] [] = nothing
  IsSubsequence-[] (x ∷ xs) = dropped x (IsSubsequence-[] xs)

  pub IsSubsequence-append :
      {xs ys us vs : List A}
      → IsSubsequence xs ys
      → IsSubsequence us vs
      → IsSubsequence (xs ++ us) (ys ++ vs)
  IsSubsequence-append nothing k = k
  IsSubsequence-append (kept x h) k = kept x (IsSubsequence-append h k)
  IsSubsequence-append (dropped y h) k = dropped y (IsSubsequence-append h k)

  pub IsSubsequence-trans :
      {ys zs : List A}
      → IsSubsequence ys zs
      → {xs : List A} → IsSubsequence xs ys
      → IsSubsequence xs zs
  IsSubsequence-trans nothing h = h
  IsSubsequence-trans (kept _ k) (kept x h) = kept x (IsSubsequence-trans k h)
  IsSubsequence-trans (kept _ k) (dropped y h) = dropped y (IsSubsequence-trans k h)
  IsSubsequence-trans (dropped y k) h = dropped y (IsSubsequence-trans k h)

  pub IsSubsequence-append_left :
      {xs ys : List A} (zs : List A) → IsSubsequence xs ys → IsSubsequence xs (ys ++ zs)
  IsSubsequence-append_left zs nothing = IsSubsequence-[] zs
  IsSubsequence-append_left zs (kept x h) = kept x (IsSubsequence-append_left zs h)
  IsSubsequence-append_left zs (dropped y h) = dropped y (IsSubsequence-append_left zs h)

  -- Two steps that each hand on what they leave.
  pub IsSubsequence-chain :
      (first more left middle old new later : List A)
      → IsSubsequence (first ++ middle) (old ++ new)
      → IsSubsequence (more ++ left) (middle ++ later)
      → IsSubsequence (first ++ more ++ left) (old ++ (new ++ later))
  IsSubsequence-chain first more left middle old new later h k =
      let one =
        subst (λ xs. IsSubsequence xs (old ++ new ++ later)) (append_assoc first middle later)
          (IsSubsequence-append h (IsSubsequence-refl later)) in
      let two = IsSubsequence-trans one (IsSubsequence-append (IsSubsequence-refl first) k) in
      subst (IsSubsequence (first ++ more ++ left)) (append_assoc old new later) (
        subst (λ xs. IsSubsequence xs (old ++ new ++ later)) (sym (append_assoc first more left))
          two)
