-- ===== src/Subscriptions/Handler/Stream.antt =====
-- SubscribeSubscriptionEvents of subscriptions/grpc.go: the events of a channel go to a client.
use target_lib.Base.{ℤ, ℕ, List, [], ◌∷◌, Option, none, some, Result, ok, err}
use target_lib.Subscriptions.Events.{Event, Broker, subscribe}
use target_lib.Subscriptions.Handler.Messages.{
  StatusCode, SubscriptionView, grpc_subscription_view, subscription_event_type, unix_milliseconds,
}

pub record SubscriptionEvent : Type 0 where
  pub type : ℕ
  pub subscription : SubscriptionView
  pub occurred_at_unix_ms : ℤ

unfoldable pub subscription_event : Event → SubscriptionEvent
subscription_event e = record {
  type = subscription_event_type e.type;
  subscription = grpc_subscription_view e.subscription;
  occurred_at_unix_ms = unix_milliseconds e.at;
}

-- A call starts with a channel for 32 events.
abbrev pub opened : Broker → Broker
opened = subscribe 32

-- What a select gives: the code of the stream's context, the end of the channel, or an event and the
-- error of its sending.
pub data Heard : Type 0 where
  context_ended : StatusCode → Heard
  channel_closed : Heard
  event_received : Event → Option StatusCode → Heard

-- The messages that are sent, and how the call ends, if it does.
abbrev pub Relayed : Type 0
Relayed = List SubscriptionEvent × Option (Result StatusCode (Unit {0}))

abbrev pub after_send : Option StatusCode → Event → Relayed → Relayed
after_send (some code) e rest = ([], some (err code))
after_send none e rest = (subscription_event e ∷ rest.0, rest.1)

unfoldable pub relay : List Heard → Relayed
relay [] = ([], none)
relay (context_ended code ∷ more) = ([], some (err code))
relay (channel_closed ∷ more) = ([], some (ok tt))
relay (event_received e failed ∷ more) = after_send failed e (relay more)
