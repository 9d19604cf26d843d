-- ===== src/Subscriptions/Events.antt =====
-- Subscribe and publish of subscriptions/manager.go: the channels by which clients hear of changes.
pub mod Channels
pub mod Sound
pub mod Order
use target_lib.Base.{
  ◌≡◌, ℕ, suc, Bool, true, false, ◌||◌, not, List, [], ◌∷◌, ◌++◌, Option, none, some, ltb, nat_eq,
  length, keep, Text, if◌then◌else◌,
}
use target_lib.Subscriptions.Model.{EventType, PendingEvent, Time}
use target_lib.Subscriptions.Normalize.{Urls}
use target_lib.Subscriptions.View.{View, subscription_view}

pub record Event : Type 0 where
  pub type : EventType
  pub subscription : View
  pub at : Time

-- What publish makes of an event of the coordinator.
abbrev pub event_of : Urls → Time → PendingEvent → Event
event_of L now e = record { type = e.type; subscription = subscription_view L e.item; at = now }

-- A channel with a buffer. The events that are in it are received also after it is closed.
pub record Channel : Type 0 where
  pub buffer : ℕ
  pub queue : List Event
  pub closed : Bool

-- nextSubscriber, the keys of the map subscribers, and the channel that each number was given,
-- which the one who subscribed still holds when it is no longer in the map.
pub record Broker : Type 0 where
  pub next : ℕ
  pub subscribers : List ℕ
  pub channels : ℕ → Channel

abbrev pub with_channel : ℕ → Channel → (ℕ → Channel) → ℕ → Channel
with_channel i c channels j = if nat_eq i j then c else channels j

abbrev pub has : List ℕ → ℕ → Bool
has [] j = false
has (i ∷ is) j = nat_eq i j || has is j

abbrev pub no_broker : Broker
no_broker = record {
  next = 0;
  subscribers = [];
  channels = λ i. record { buffer = 1; queue = []; closed = false };
}

-- Subscribe. The number of the subscriber is `next`.
unfoldable pub subscribe : ℕ → Broker → Broker
subscribe buffer b = record {
  next = suc b.next;
  subscribers = b.next ∷ b.subscribers;
  channels =
      with_channel b.next
        (record { buffer = if ltb buffer 1 then 1 else buffer; queue = []; closed = false })
        b.channels;
}

-- The function that Subscribe returns.
unfoldable pub unsubscribe : ℕ → Broker → Broker
unsubscribe i b =
    if has b.subscribers i
    then record b {
      subscribers = keep (λ j. not (nat_eq i j)) b.subscribers;
      channels = with_channel i (record (b.channels i) { closed = true }) b.channels;
    }
    else b

-- `select { case channel <- event: default: }`
unfoldable pub offer : Event → Channel → Channel
offer e c = if ltb (length c.queue) c.buffer then record c { queue = c.queue ++ e ∷ [] } else c

-- A send to a closed channel panics, which is none.
unfoldable pub send : Event → Channel → Option Channel
send e c = if c.closed then none else some (offer e c)

-- The loop of publish. Go visits the subscribers in any order.
unfoldable pub publish_to : Event → List ℕ → (ℕ → Channel) → Option (ℕ → Channel)
publish_to e [] channels = some channels
publish_to e (i ∷ is) channels = elim (send e (channels i)) [
  | none ↦ none
  | some c ↦ publish_to e is (with_channel i c channels)
]

abbrev pub with_channels : Broker → Option (ℕ → Channel) → Option Broker
with_channels b none = none
with_channels b (some channels) = some (record b { channels = channels })

unfoldable pub publish : Event → Broker → Option Broker
publish e b = with_channels b (publish_to e b.subscribers b.channels)

-- A receive from a channel: what is left in it. The event is the first of the queue.
abbrev pub rest_of : List Event → List Event
rest_of [] = []
rest_of (e ∷ queue) = queue

abbrev pub first_of : List Event → List Event
first_of [] = []
first_of (e ∷ queue) = e ∷ []

unfoldable pub receive : ℕ → Broker → Broker
receive i b = record b {
  channels =
      with_channel i (record (b.channels i) { queue = rest_of (b.channels i).queue }) b.channels;
}

-- What can be done, in any order, since each holds the lock.
pub data Action : Type 0 where
  subscribed : (buffer : ℕ) → Action
  unsubscribed : (i : ℕ) → Action
  published : (e : Event) → Action
  received : (i : ℕ) → Action

unfoldable pub act : Action → Broker → Option Broker
act (subscribed buffer) b = some (subscribe buffer b)
act (unsubscribed i) b = some (unsubscribe i b)
act (published e) b = publish e b
act (received i) b = some (receive i b)

unfoldable pub run : List Action → Broker → Option Broker
run [] b = some b
run (a ∷ more) b = elim (act a b) [ none ↦ none | some after ↦ run more after ]

-- The events that a subscriber gets by one action, and by a run.
unfoldable pub gets : ℕ → Action → Broker → List Event
gets j (received i) b = if nat_eq i j then first_of (b.channels i).queue else []
gets j a b = []

unfoldable pub taken : ℕ → List Action → Broker → List Event
taken j [] b = []
taken j (a ∷ more) b =
    gets j a b ++ (elim (act a b) [ none ↦ [] | some after ↦ taken j more after ])

-- The events that are published.
unfoldable pub sends : Action → List Event
sends (published e) = e ∷ []
sends a = []

unfoldable pub sent : List Action → List Event
sent [] = []
sent (a ∷ more) = sends a ++ sent more
