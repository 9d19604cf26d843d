-- ===== src/Subscriptions/Events/Order.antt =====
-- What subscribers of subscriptions/manager.go hear, and in which order.
use target_lib.Base.{
  ◌≡◌, refl, sym, ap, subst, ◌∙◌, ℕ, List, [], ◌∷◌, ◌++◌, none, some, nat_eq, if◌then◌else◌,
  Bool-cases, inl, inr, IsSubsequence, IsSubsequence-refl, IsSubsequence-[],
  IsSubsequence-append_left, IsSubsequence-chain,
}
use target_lib.Subscriptions.Events.{
  Event, Channel, Broker, with_channel, has, subscribe, unsubscribe, receive, first_of, rest_of,
  Action, subscribed, unsubscribed, published, received, act, run, gets, taken, sends, sent,
}
use target_lib.Subscriptions.Events.Channels.{nat_eq_to}
use target_lib.Subscriptions.Events.Sound.{
  IsSound, Hears, subscribe-IsSound, unsubscribe-IsSound, receive-IsSound, publish-IsSound,
}

first_rest : (queue : List Event) → first_of queue ++ rest_of queue ≡ queue
first_rest [] = refl
first_rest (e ∷ queue) = refl

-- A change of one channel that drops events, or hands them over.
with_channel-queue :
    (i j : ℕ) (c : Channel) (channels : ℕ → Channel)
    → IsSubsequence c.queue (channels i).queue
    → IsSubsequence (with_channel i c channels j).queue ((channels j).queue ++ [])
with_channel-queue i j c channels h = elim (Bool-cases (nat_eq i j)) [
  | inl e ↦ rw e (
      IsSubsequence-append_left []
        (subst (λ k. IsSubsequence c.queue (channels k).queue) (nat_eq_to i j e) h))
  | inr e ↦ rw e (IsSubsequence-append_left [] (IsSubsequence-refl _))
]

receive-queue :
    (i j : ℕ) (c : Channel) (channels : ℕ → Channel) (gone : List Event)
    → gone ++ c.queue ≡ (channels i).queue
    → IsSubsequence
        ((if nat_eq i j then gone else []) ++ (with_channel i c channels j).queue)
        ((channels j).queue ++ [])
receive-queue i j c channels gone h = elim (Bool-cases (nat_eq i j)) [
  | inl e ↦ rw e (
      IsSubsequence-append_left [] (
        subst (IsSubsequence (gone ++ c.queue)) (h ∙ ap (λ k. (channels k).queue) (nat_eq_to i j e))
          (IsSubsequence-refl _)))
  | inr e ↦ rw e (IsSubsequence-append_left [] (IsSubsequence-refl _))
]

unsubscribe-Hears : (i : ℕ) (b : Broker) → Hears (λ j. []) [] b (unsubscribe i b)
unfolding unsubscribe
unsubscribe-Hears i b j = elim (Bool-cases (has b.subscribers i)) [
  | inl h ↦ rw h (with_channel-queue i j _ b.channels (IsSubsequence-refl _))
  | inr h ↦ rw h (IsSubsequence-append_left [] (IsSubsequence-refl _))
]

-- One action: it does not panic, and is heard in order.
abbrev Acts : Action → Broker → Type 0
Acts a b =
    (after : Broker) × (act a b ≡ some after)
    × IsSound after
    × Hears (λ j. gets j a b) (sends a) b after

act-Acts : (a : Action) (b : Broker) → IsSound b → Acts a b
unfolding act sends gets subscribe receive
act-Acts (subscribed n) b s = (
  subscribe n b,
  refl,
  subscribe-IsSound n b s,
  λ j. with_channel-queue b.next j _ b.channels (IsSubsequence-[] _),
)
act-Acts (unsubscribed i) b s =
    (unsubscribe i b, refl, unsubscribe-IsSound i b s, unsubscribe-Hears i b)
act-Acts (published e) b s = publish-IsSound e b s
act-Acts (received i) b s = (
  receive i b,
  refl,
  receive-IsSound i b s,
  λ j. receive-queue i j _ b.channels _ (first_rest (b.channels i).queue),
)

-- Whatever is done after a sound state, in whatever order, nothing is sent to a closed channel, no
-- buffer holds more than it is made for, and what a subscriber gets, and what it still can, was
-- waiting for it or was published, in this order and each event at most once.
pub run-Hears :
    (actions : List Action) (b : Broker)
    → IsSound b
    → (after : Broker) × (run actions b ≡ some after)
      × IsSound after
      × ((j : ℕ)
          → IsSubsequence
              (taken j actions b ++ (after.channels j).queue)
              ((b.channels j).queue ++ sent actions))
unfolding run taken sent
run-Hears [] b s = (b, refl, s, λ j. IsSubsequence-append_left [] (IsSubsequence-refl _))
run-Hears (a ∷ more) b s =
    let (next, e, t, hears) = act-Acts a b s in
    let (after, ends, u, rest) = run-Hears more next t in
    (
      after,
      ap (λ r. elim r [ none ↦ none | some b ↦ run more b ]) e ∙ ends,
      u,
      λ j.
          IsSubsequence-chain (gets j a b) _ _ (next.channels j).queue (b.channels j).queue
            (sends a) _ (hears j)
            (subst
              (λ r.
                IsSubsequence
                  ((elim r [ none ↦ [] | some b ↦ taken j more b ]) ++ (after.channels j).queue)
                  ((next.channels j).queue ++ sent more))
              (sym e) (rest j)),
    )
