-- ===== src/Tests/Handlers.antt =====
-- Examples for the calls of subscriptions/grpc.go.
use target_lib.Base.{◌≡◌, refl, true, [], none, some, text, ◌==◌, ok, err, pos, trim_space}
use target_lib.Subscriptions.Model.{Subscription, cancelled, lookup, insert, delete}
use target_lib.Subscriptions.Store.Memory.{memory_store, update, tx_put, tx_delete, apply_write}
use target_lib.Subscriptions.Coordinator.{delivered, submit, run_command, apply_mutation}
use target_lib.Subscriptions.Coordinator.Commands.{add, remove, modify, updates_configured}
use target_lib.Subscriptions.Manager.{
  add_request, remove_subscription, checked_request, configure_updates,
}
use target_lib.Subscriptions.Normalize.{
  normalize_subscription_url, normalize, normalize_trimmed, is_http_url, validate_url,
}
use target_lib.Subscriptions.Handler.{
  Course, AddSubscriptionRequest, add_subscription, configure_subscription_updates,
  subscription_error, code_of,
}
use target_lib.Subscriptions.Handler.Messages.{
  StatusCode, SubscriptionView, subscription_duration, grpc_subscription_view,
}
use target_lib.Subscriptions.Handler.Intervals.{configure_subscription_updates-shown}
use target_lib.Subscriptions.View.{subscription_view, view}
use target_lib.Subscriptions.Handler.Adding.{Answers, add_subscription-Answers}
use target_lib.Subscriptions.Fetching.{default_interval}
use target_lib.Tests.Updates.{path, world, item}
use target_lib.Tests.Requests.{urls}

-- The caller leaves before the update that it asked for has ended.
abbrev course : Course memory_store
unfolding text
course = record {
  urls = urls;
  sentinel = λ cause. none;
  fresh = text "fresh";
  default = default_interval;
  now = pos 7;
  context = none;
  submitted = delivered;
  removed = delivered;
  path = path (λ stage w. w);
  left = some cancelled;
  meanwhile = λ w. w;
}

abbrev request : AddSubscriptionRequest
unfolding text
request = record {
  id = [];
  name = text "B";
  url = text "https://a.example";
  enabled = none;
  auto_update = none;
  update_interval_seconds = pos 3600;
  headers = [];
  update_now = true;
}

add_subscription-Answers_example :
    Answers memory_store course request world
      (add_subscription memory_store course (some request) world)
unfolding text trim_space
add_subscription-Answers_example = add_subscription-Answers memory_store course request world

-- It was added and is gone again.
taken_back :
    ((add_subscription memory_store course (some request) world).1 ≡ err StatusCode.internal)
    × (lookup (add_subscription memory_store course (some request) world).0.items (text "fresh")
        ≡ none)
unfolding add_subscription text subscription_duration add_request checked_request
    normalize_subscription_url normalize normalize_trimmed is_http_url validate_url submit
    run_command add remove remove_subscription apply_mutation update apply_write tx_put tx_delete
    lookup insert delete ◌==◌ trim_space subscription_error code_of
taken_back = (refl, refl)

-- An hour is set for the updates.
abbrev hourly : SubscriptionView
unfolding text
hourly =
    grpc_subscription_view
      (subscription_view urls (updates_configured true (pos 3600000000000) (pos 7) item))

hourly_set :
    (configure_subscription_updates memory_store course (text "s") true (pos 3600) world).1
    ≡ ok hourly
unfolding configure_subscription_updates text subscription_duration configure_updates submit
    run_command modify apply_mutation update apply_write tx_put lookup insert delete ◌==◌ trim_space
    view
hourly_set = refl

configure_subscription_updates-shown_example :
    (old : Subscription) × (lookup world.items (text "s") ≡ some old)
    × (hourly.name ≡ old.name)
    × (hourly.auto_update ≡ true)
    × (hourly.update_interval_seconds ≡ pos 3600)
configure_subscription_updates-shown_example =
    configure_subscription_updates-shown memory_store course (text "s") true 3599 world hourly_set
