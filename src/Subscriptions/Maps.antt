-- ===== src/Subscriptions/Maps.antt =====
-- The laws of the map from IDs to subscriptions.
use target_lib.Base.{
  All, subst, sym, ◌∙◌, Bool-cases, inl, inr, ◌≡◌, true, false, Option, refl, List, [], ◌∷◌, none,
  some, arith, Text, ◌==◌, eq_iff, if◌then◌else◌,
}
use target_lib.Subscriptions.Model.{Subscription, lookup, insert, delete}

pub lookup-insert :
    (m : List (Text × Subscription)) (id j : Text) (s : Subscription)
    → lookup (insert id s m) j ≡ (if id == j then some s else lookup m j)
unfolding lookup insert
lookup-insert [] id j s = refl
lookup-insert ((k, t) ∷ m) id j s =
    ground (arith, eq_iff k id, eq_iff id j, eq_iff k j, lookup-insert m id j s)

pub lookup-delete :
    (m : List (Text × Subscription)) (id j : Text)
    → lookup (delete id m) j ≡ (if id == j then none else lookup m j)
unfolding lookup delete
lookup-delete [] id j = ground arith
lookup-delete ((k, t) ∷ m) id j =
    ground (arith, eq_iff k id, eq_iff id j, eq_iff k j, lookup-delete m id j)

module _ (m : List (Text × Subscription)) (id j : Text) where
  pub lookup-insert_here : (s : Subscription) → (id == j) ≡ true → lookup (insert id s m) j ≡ some s
  lookup-insert_here s b = rw (lookup-insert m id j s, b) refl

  pub lookup-insert_other :
      (s : Subscription) → (id == j) ≡ false → lookup (insert id s m) j ≡ lookup m j
  lookup-insert_other s b = rw (lookup-insert m id j s, b) refl

  pub lookup-delete_here : (id == j) ≡ true → lookup (delete id m) j ≡ none
  lookup-delete_here b = rw (lookup-delete m id j, b) refl

  pub lookup-delete_other : (id == j) ≡ false → lookup (delete id m) j ≡ lookup m j
  lookup-delete_other b = rw (lookup-delete m id j, b) refl

pub some-injective {ℓ} : {A : Type ℓ} {a b : A} → ◌≡◌ {A = Option A} (some a) (some b) → a ≡ b
some-injective h = cc

module _ (k : Text) (t : Subscription) (m : List (Text × Subscription)) (id : Text) where
  lookup_here : (k == id) ≡ true → lookup ((k, t) ∷ m) id ≡ some t
  unfolding lookup
  lookup_here b = rw b refl

  lookup_there : (k == id) ≡ false → lookup ((k, t) ∷ m) id ≡ lookup m id
  unfolding lookup
  lookup_there b = rw b refl

-- A property of keys and items that every entry has.
module _ (P : Text → Subscription → Type 0) where
  abbrev pub AllItems : List (Text × Subscription) → Type 0
  AllItems = All λ p. P p.0 p.1

  pub AllItems-insert :
      (m : List (Text × Subscription)) (id : Text) (s : Subscription)
      → P id s
      → AllItems m
      → AllItems (insert id s m)
  unfolding insert
  AllItems-insert [] id s h k = (h, tt)
  AllItems-insert ((j, t) ∷ m) id s h k = elim (Bool-cases (j == id)) [
    | inl e ↦ rw (insert, e) (h, k.1)
    | inr e ↦ rw (insert, e) (k.0, AllItems-insert m id s h k.1)
  ]

  pub AllItems-delete :
      (m : List (Text × Subscription)) (id : Text) → AllItems m → AllItems (delete id m)
  unfolding delete
  AllItems-delete [] id k = tt
  AllItems-delete ((j, t) ∷ m) id k = elim (Bool-cases (j == id)) [
    | inl e ↦ rw (delete, e) (AllItems-delete m id k.1)
    | inr e ↦ rw (delete, e) (k.0, AllItems-delete m id k.1)
  ]

  pub AllItems-lookup :
      (m : List (Text × Subscription)) (id : Text) (s : Subscription)
      → AllItems m
      → lookup m id ≡ some s
      → P id s
  unfolding lookup
  AllItems-lookup [] id s k e = cc
  AllItems-lookup ((j, t) ∷ m) id s k e = elim (Bool-cases (j == id)) [
    | inl b ↦
        subst (λ i. P i s) ((eq_iff j id).0 b)
          (subst (P j) (some-injective (sym (lookup_here j t m id b) ∙ e)) k.0)
    | inr b ↦ AllItems-lookup m id s k.1 (sym (lookup_there j t m id b) ∙ e)
  ]
