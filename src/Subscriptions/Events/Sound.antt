-- ===== src/Subscriptions/Events/Sound.antt =====
-- The channels of subscriptions/manager.go stay within their buffers, and open while they are subscribed.
use target_lib.Base.{
  ◌≡◌, refl, sym, ap, subst, ◌∙◌, ℕ, suc, ◌<◌, ◌≤◌, Bool, true, false, not, List, [], ◌∷◌, ◌++◌,
  some, ltb, nat_eq, length, keep, if◌then◌else◌, All-keep, All-map, Bool-cases, inl, inr, ◌⊎◌,
  arith, IsSubsequence, IsSubsequence-refl, IsSubsequence-append_left,
}
use target_lib.Subscriptions.Events.{
  Event, Channel, Broker, no_broker, with_channel, with_channels, has, offer, publish, subscribe,
  unsubscribe, receive, first_of, rest_of, run,
}
use target_lib.Subscriptions.Events.Channels.{
  Falling, AreOpen, AreOpen-with_channel, publish_to-offers, nat_eq_to, nat_eq_refl,
}

-- A buffer holds an event at least, and no more than it is made for.
abbrev pub Fits : Channel → Type 0
Fits c = (1 ≤ c.buffer) × (length c.queue ≤ c.buffer)

pub record IsSound (b : Broker) : Type 0 where
  pub falling : Falling (b.next ∷ b.subscribers)
  pub running : AreOpen b.channels b.subscribers
  pub fits : (i : ℕ) → Fits (b.channels i)

-- What an operation does: it does not panic, the broker stays sound, and for each subscriber what is
-- taken and left comes in order from what was there and what is sent.
abbrev pub Hears : (gone : ℕ → List Event) (new : List Event) → Broker → Broker → Type 0
Hears gone new b after =
    (j : ℕ) → IsSubsequence (gone j ++ (after.channels j).queue) ((b.channels j).queue ++ new)

with_channel-Fits :
    (i : ℕ) (c : Channel) (channels : ℕ → Channel)
    → Fits c
    → ((j : ℕ) → Fits (channels j))
    → (j : ℕ) → Fits (with_channel i c channels j)
with_channel-Fits i c channels h k j = elim (Bool-cases (nat_eq i j)) [
  | inl e ↦ rw e h
  | inr e ↦ rw e (k j)
]

length_snoc : {A : Type 0} (xs : List A) (x : A) → length (xs ++ x ∷ []) ≡ suc (length xs)
length_snoc [] x = refl
length_snoc (y ∷ xs) x = ap suc (length_snoc xs x)

-- What an offer does to the parts of a channel.
module _ (e : Event) (c : Channel) where
  offer-cases :
      ((ltb (length c.queue) c.buffer ≡ true)
        × (offer e c ≡ record c { queue = c.queue ++ e ∷ [] }))
      ⊎ (offer e c ≡ c)
  unfolding offer
  offer-cases = elim (Bool-cases (ltb (length c.queue) c.buffer)) [
    | inl l ↦ inl (l, ap (λ b. if b then record c { queue = c.queue ++ e ∷ [] } else c) l)
    | inr l ↦ inr (ap (λ b. if b then record c { queue = c.queue ++ e ∷ [] } else c) l)
  ]

  offer-Fits : Fits c → Fits (offer e c)
  offer-Fits h = elim offer-cases [
    | inl (l, k) ↦ subst Fits (sym k) (h.0, ground (arith, length_snoc c.queue e))
    | inr k ↦ subst Fits (sym k) h
  ]

  offer-queue : IsSubsequence (offer e c).queue (c.queue ++ e ∷ [])
  offer-queue = elim offer-cases [
    | inl (l, k) ↦
        subst (λ d. IsSubsequence d.queue (c.queue ++ e ∷ [])) (sym k) (IsSubsequence-refl _)
    | inr k ↦
        subst (λ d. IsSubsequence d.queue (c.queue ++ e ∷ [])) (sym k)
          (IsSubsequence-append_left (e ∷ []) (IsSubsequence-refl _))
  ]

  offer-closed : (offer e c).closed ≡ c.closed
  offer-closed = elim offer-cases [
    | inl (l, k) ↦ ap (λ d. d.closed) k
    | inr k ↦ ap (λ d. d.closed) k
  ]

pub subscribe-IsSound : (n : ℕ) (b : Broker) → IsSound b → IsSound (subscribe n b)
unfolding subscribe
subscribe-IsSound n b s = record {
  falling = (
    (
      ground arith,
      All-map (λ j. j < b.next) (λ j. j < suc b.next) b.subscribers (λ j h. omega arith)
          s.falling.0,
    ),
    s.falling,
  );
  running = (
    rw (nat_eq_refl b.next) refl,
    AreOpen-with_channel b.next _ b.channels b.subscribers s.falling.0 s.running,
  );
  fits = with_channel-Fits b.next _ b.channels (ground arith) s.fits;
}

Falling-keep : (p : ℕ → Bool) (is : List ℕ) → Falling is → Falling (keep p is)
unfolding keep
Falling-keep p [] f = tt
Falling-keep p (i ∷ is) f = elim (Bool-cases (p i)) [
  | inl e ↦ rw e (All-keep _ p is f.0, Falling-keep p is f.1)
  | inr e ↦ rw e (Falling-keep p is f.1)
]

AreOpen-others :
    (i : ℕ) (c : Channel) (channels : ℕ → Channel) (is : List ℕ)
    → AreOpen channels is
    → AreOpen (with_channel i c channels) (keep (λ j. not (nat_eq i j)) is)
unfolding keep
AreOpen-others i c channels [] h = tt
AreOpen-others i c channels (j ∷ is) h = elim (Bool-cases (nat_eq i j)) [
  | inl e ↦ rw e (AreOpen-others i c channels is h.1)
  | inr e ↦ rw (e, e) (h.0, AreOpen-others i c channels is h.1)
]

pub unsubscribe-IsSound : (i : ℕ) (b : Broker) → IsSound b → IsSound (unsubscribe i b)
unfolding unsubscribe
unsubscribe-IsSound i b s = elim (Bool-cases (has b.subscribers i)) [
  | inl h ↦ rw h (record {
    falling = (All-keep _ _ b.subscribers s.falling.0, Falling-keep _ b.subscribers s.falling.1);
    running = AreOpen-others i _ b.channels b.subscribers s.running;
    fits = with_channel-Fits i _ b.channels (s.fits i) s.fits;
  })
  | inr h ↦ rw h s
]

first_rest : (queue : List Event) → first_of queue ++ rest_of queue ≡ queue
first_rest [] = refl
first_rest (e ∷ queue) = refl

rest_of-length : (queue : List Event) → length (rest_of queue) ≤ length queue
rest_of-length [] = omega arith
rest_of-length (e ∷ queue) = omega arith

-- An operation on one channel that leaves it open.
with_channel-AreOpen :
    (i : ℕ) (c : Channel) (channels : ℕ → Channel) (is : List ℕ)
    → c.closed ≡ (channels i).closed
    → AreOpen channels is
    → AreOpen (with_channel i c channels) is
with_channel-AreOpen i c channels [] e h = tt
with_channel-AreOpen i c channels (j ∷ is) e h = (
  elim (Bool-cases (nat_eq i j)) [
    | inl k ↦ rw k (e ∙ subst (λ m. (channels m).closed ≡ false) (sym (nat_eq_to i j k)) h.0)
    | inr k ↦ rw k h.0
  ],
  with_channel-AreOpen i c channels is e h.1,
)

pub receive-IsSound : (i : ℕ) (b : Broker) → IsSound b → IsSound (receive i b)
unfolding receive
receive-IsSound i b s = record {
  falling = s.falling;
  running = with_channel-AreOpen i _ b.channels b.subscribers refl s.running;
  fits =
      with_channel-Fits i _ b.channels
        ((s.fits i).0, ground (arith, rest_of-length (b.channels i).queue, (s.fits i).1)) s.fits;
}

AreOpen-same :
    (channels after : ℕ → Channel) (is : List ℕ)
    → ((j : ℕ) → (after j).closed ≡ (channels j).closed)
    → AreOpen channels is
    → AreOpen after is
AreOpen-same channels after [] h k = tt
AreOpen-same channels after (i ∷ is) h k = (h i ∙ k.0, AreOpen-same channels after is h k.1)

-- What holds of the channel as it was and as it is with the event holds of it afterwards.
offered {ℓ} :
    (P : Channel → Type ℓ) (e : Event) (b : Bool) (c after : Channel)
    → after ≡ (if b then offer e c else c)
    → P (offer e c)
    → P c
    → P after
offered P e true c after h k l = subst P (sym h) k
offered P e false c after h k l = subst P (sym h) l

-- publish succeeds, and each subscriber is offered the event.
pub publish-IsSound :
    (e : Event) (b : Broker)
    → IsSound b
    → (after : Broker) × (publish e b ≡ some after)
      × IsSound after
      × Hears (λ j. []) (e ∷ []) b after
unfolding publish
publish-IsSound e b s =
    let (channels, run, each) =
      publish_to-offers e b.subscribers b.channels s.falling.1 s.running in
    (
      record b { channels = channels },
      ap (with_channels b) run,
      record {
        falling = s.falling;
        running =
            AreOpen-same b.channels channels b.subscribers
              (λ j.
                offered (λ c. c.closed ≡ (b.channels j).closed) e _ _ _ (each j)
                  (offer-closed e (b.channels j)) refl)
              s.running;
        fits =
            λ j. offered Fits e _ _ _ (each j) (offer-Fits e (b.channels j) (s.fits j)) (s.fits j);
      },
      λ j.
          offered (λ c. IsSubsequence c.queue ((b.channels j).queue ++ e ∷ [])) e _ _ _ (each j)
            (offer-queue e (b.channels j))
            (IsSubsequence-append_left (e ∷ []) (IsSubsequence-refl _)),
    )

pub no_broker-IsSound : IsSound no_broker
no_broker-IsSound = record {
  falling = (tt, tt);
  running = tt;
  fits = λ i. (ground arith, ground arith);
}
