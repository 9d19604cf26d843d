-- ===== src/Tests/Broadcasts.antt =====
-- Examples for Subscribe and publish of subscriptions/manager.go.
use target_lib.Base.{
  ◌≡◌, refl, ℕ, List, [], ◌∷◌, ◌++◌, keep, map, some, pos, text, Text, IsSubsequence,
}
use target_lib.Subscriptions.Model.{EventType}
use target_lib.Subscriptions.Events.{
  Event, Broker, Action, subscribed, unsubscribed, published, received, event_of, no_broker, run,
  taken, sent, subscribe, unsubscribe, publish, publish_to, send, offer, receive, act, gets,
}
use target_lib.Subscriptions.Events.Sound.{IsSound, no_broker-IsSound}
use target_lib.Subscriptions.Events.Order.{run-Hears}
use target_lib.Subscriptions.View.{subscription_view}
use target_lib.Tests.Updates.{item}
use target_lib.Tests.Requests.{urls}

abbrev event : Text → Event
event name =
    event_of urls (pos 1) (record { type = EventType.updated; item = record item { name = name } })

-- A slow subscriber with room for one event, and then nobody.
abbrev actions : List Action
actions =
    subscribed 0
    ∷ published (event (text "A"))
    ∷ published (event (text "B"))
    ∷ received 0
    ∷ published (event (text "C"))
    ∷ unsubscribed 0
    ∷ published (event (text "D"))
    ∷ received 0
    ∷ []

run-Hears_example :
    (after : Broker) × (run actions no_broker ≡ some after)
    × IsSound after
    × ((j : ℕ)
        → IsSubsequence
            (taken j actions no_broker ++ (after.channels j).queue)
            ((no_broker.channels j).queue ++ sent actions))
run-Hears_example = run-Hears actions no_broker no_broker-IsSound

-- The second event found no room, and the last no subscriber.
two_heard : map (λ e. e.subscription.name) (taken 0 actions no_broker) ≡ text "A" ∷ text "C" ∷ []
unfolding taken subscribe unsubscribe publish publish_to send offer receive act gets text
    subscription_view keep
two_heard = refl
