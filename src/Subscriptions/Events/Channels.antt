-- ===== src/Subscriptions/Events/Channels.antt =====
-- What publish of subscriptions/manager.go does to the channels.
use target_lib.Base.{
  ◌≡◌, refl, ap, subst, ◌∙◌, ℕ, ◌<◌, true, false, List, [], ◌∷◌, none, some, nat_eq, if◌then◌else◌,
  All, Bool-cases, inl, inr, arith,
}
use target_lib.Subscriptions.Events.{Event, Channel, with_channel, has, offer, send, publish_to}

-- Each number is below those before it.
abbrev pub Falling : List ℕ → Type 0
Falling [] = Unit
Falling (i ∷ is) = All (λ j. j < i) is × Falling is

abbrev pub AreOpen : (ℕ → Channel) → List ℕ → Type 0
AreOpen channels = All (λ i. (channels i).closed ≡ false)

pub nat_eq_refl : (i : ℕ) → nat_eq i i ≡ true
nat_eq_refl i = ground arith

pub nat_eq_to : (i j : ℕ) → nat_eq i j ≡ true → i ≡ j
nat_eq_to i j h = ground arith

not-has_below : (i : ℕ) (is : List ℕ) → All (λ j. j < i) is → has is i ≡ false
not-has_below i [] h = refl
not-has_below i (j ∷ is) h = ground (arith, not-has_below i is h.1)

-- A channel that is not below the first number is not among the others.
pub AreOpen-with_channel :
    (i : ℕ) (c : Channel) (channels : ℕ → Channel) (is : List ℕ)
    → All (λ j. j < i) is
    → AreOpen channels is
    → AreOpen (with_channel i c channels) is
AreOpen-with_channel i c channels [] h k = tt
AreOpen-with_channel i c channels (j ∷ is) h k =
    (ground arith, AreOpen-with_channel i c channels is h.1 k.1)

send-open : (e : Event) (c : Channel) → c.closed ≡ false → send e c ≡ some (offer e c)
unfolding send
send-open e c o = ap (λ b. if b then none else some (offer e c)) o

publish_to-open :
    (e : Event) (i : ℕ) (is : List ℕ) (channels : ℕ → Channel)
    → (channels i).closed ≡ false
    → publish_to e (i ∷ is) channels
      ≡ publish_to e is (with_channel i (offer e (channels i)) channels)
unfolding publish_to
publish_to-open e i is channels o =
    ap (λ r. elim r [ none ↦ none | some c ↦ publish_to e is (with_channel i c channels) ])
      (send-open e (channels i) o)

abbrev Offered : Event → List ℕ → (ℕ → Channel) → (ℕ → Channel) → Type 0
Offered e is channels after =
    (j : ℕ) → after j ≡ (if has is j then offer e (channels j) else channels j)

Offered-more :
    (e : Event) (i : ℕ) (is : List ℕ) (channels after : ℕ → Channel)
    → All (λ j. j < i) is
    → Offered e is (with_channel i (offer e (channels i)) channels) after
    → Offered e (i ∷ is) channels after
Offered-more e i is channels after h each j = elim (Bool-cases (nat_eq i j)) [
  | inl same ↦
      subst (λ k. after k ≡ (if has (i ∷ is) k then offer e (channels k) else channels k))
        (nat_eq_to i j same) (rw (each i, not-has_below i is h, nat_eq_refl i) refl)
  | inr other ↦ rw (each j, other) refl
]

-- To channels that are open publish does not panic, and offers the event to each of them once.
pub publish_to-offers :
    (e : Event) (is : List ℕ) (channels : ℕ → Channel)
    → Falling is
    → AreOpen channels is
    → (after : ℕ → Channel) × (publish_to e is channels ≡ some after)
      × ((j : ℕ) → after j ≡ (if has is j then offer e (channels j) else channels j))
unfolding publish_to
publish_to-offers e [] channels f o = (channels, refl, λ j. refl)
publish_to-offers e (i ∷ is) channels f o =
    let (after, run, each) =
      publish_to-offers e is (with_channel i (offer e (channels i)) channels) f.1
        (AreOpen-with_channel i _ channels is f.0 o.1) in
    (after, publish_to-open e i is channels o.0 ∙ run, Offered-more e i is channels after f.0 each)
