-- ===== src/Subscriptions/Handler.antt =====
-- subscriptions/grpc.go: the calls of the gRPC service on the subscriptions, and their messages.
pub mod Messages
pub mod Adding
pub mod Intervals
pub mod Stream
use target_lib.Base.{
  Bool, true, false, not, ◌&&◌, ◌||◌, List, [], ◌∷◌, map, Option, none, some, Text, text, ◌==◌, ℤ,
  pos, negsuc, is_empty, trim_space, Result, ok, err, ltb, if◌then◌else◌, ◌*◌,
}
use target_lib.Subscriptions.Model.{
  Subscription, AddRequest, Error, not_found, already_exists, id_required, name_required,
  invalid_url, https_required, interval_too_short, manager_closed, no_state, cancelled,
  store_failed, fetch_failed, parse_failed, UpdateResult, Time, Duration, lookup,
}
use target_lib.Subscriptions.Store.{Store}
use target_lib.Subscriptions.Coordinator.{Items, World, Delivery}
use target_lib.Subscriptions.Normalize.{Urls}
use target_lib.Subscriptions.Update.{PathTaken, Outcome, no_result}
use target_lib.Subscriptions.Update
use target_lib.Subscriptions.Manager.{
  id_or, add_request, remove_subscription, rename, configure_updates, set_enabled,
  resolved_endpoints,
}
use target_lib.Subscriptions.View.{View, no_view, view, views}
use target_lib.Subscriptions.Handler.Messages.{
  StatusCode, SubscriptionView, grpc_subscription_view, subscription_duration,
}

-- AddSubscriptionRequest; the optional fields are none if they are not set.
pub record AddSubscriptionRequest : Type 0 where
  pub id : Text
  pub name : Text
  pub url : Text
  pub enabled : Option Bool
  pub auto_update : Option Bool
  pub update_interval_seconds : ℤ
  pub headers : List (Text × Text)
  pub update_now : Bool

-- SubscriptionUpdateResult, without the duration.
pub record UpdateAnswer : Type 0 where
  pub subscription : SubscriptionView
  pub changed : Bool
  pub not_modified : Bool
  pub original_config : Text

abbrev pub or_true : Option Bool → Bool
or_true none = true
or_true (some b) = b

abbrev pub request_of : AddSubscriptionRequest → Duration → AddRequest
request_of r interval = record {
  id = r.id;
  name = r.name;
  url = r.url;
  enabled = or_true r.enabled;
  auto_update = or_true r.auto_update;
  update_interval = interval;
  headers = r.headers;
}

-- The package's own error that errors.Is finds in a cause from outside, if there is one.
module _ (sentinel : Text → Option Error) where
  -- The case of subscriptionError that fits one of the package's own errors.
  abbrev pub own_code : Error → StatusCode
  own_code (not_found _) = StatusCode.not_found
  own_code (already_exists _) = StatusCode.already_exists
  own_code id_required = StatusCode.invalid_argument
  own_code name_required = StatusCode.invalid_argument
  own_code invalid_url = StatusCode.invalid_argument
  own_code https_required = StatusCode.invalid_argument
  own_code interval_too_short = StatusCode.invalid_argument
  own_code _ = StatusCode.internal

  abbrev pub wrapped_code : Option Error → StatusCode
  wrapped_code none = StatusCode.internal
  wrapped_code (some e) = own_code e

  unfoldable pub code_of : Error → StatusCode
  code_of (store_failed cause) = wrapped_code (sentinel cause)
  code_of (fetch_failed cause) = wrapped_code (sentinel cause)
  code_of (parse_failed cause) = wrapped_code (sentinel cause)
  code_of e = own_code e

  -- Of joined errors the case that stands first in the switch counts.
  abbrev pub stronger : StatusCode → StatusCode → StatusCode
  stronger StatusCode.not_found c = StatusCode.not_found
  stronger c StatusCode.not_found = StatusCode.not_found
  stronger StatusCode.already_exists c = StatusCode.already_exists
  stronger c StatusCode.already_exists = StatusCode.already_exists
  stronger StatusCode.invalid_argument c = StatusCode.invalid_argument
  stronger c StatusCode.invalid_argument = StatusCode.invalid_argument
  stronger c d = StatusCode.internal

  -- subscriptionError.
  unfoldable pub subscription_error : List Error → StatusCode
  subscription_error [] = StatusCode.internal
  subscription_error (e ∷ es) = stronger (code_of e) (subscription_error es)

abbrev pub is_blank : Text → Bool
is_blank id = is_empty (trim_space id)

module _ (S : Store) where
  -- How the calls of a handler go: the ID that uuid gives, the manager's default interval, the clock,
  -- the context of the store, the two selects of each submit, and an update. If the context ends
  -- before the update does, `left` is its error and `meanwhile` what has been done by then.
  pub record Course : Type 0 where
    pub urls : Urls
    pub sentinel : Text → Option Error
    pub fresh : Text
    pub default : Duration
    pub now : Time
    pub context : Option Error
    pub submitted : Delivery
    pub removed : Delivery
    pub path : PathTaken S
    pub left : Option Error
    pub meanwhile : World S → World S

  module _ (C : Course) where
    -- The view that a client gets of what is under an ID, View{} if there is nothing.
    abbrev pub view_or_empty : Option View → View
    view_or_empty none = no_view C.urls
    view_or_empty (some v) = v

    unfoldable pub shown : Items → Text → SubscriptionView
    shown items id = grpc_subscription_view (view_or_empty (view C.urls items id))

    unfoldable pub list_subscriptions : World S → List SubscriptionView
    list_subscriptions w = map grpc_subscription_view (views C.urls w.items)

    -- Handler.view.
    abbrev pub view_or_not_found : Option View → Result StatusCode SubscriptionView
    view_or_not_found none = err StatusCode.not_found
    view_or_not_found (some v) = ok (grpc_subscription_view v)

    unfoldable pub get_subscription : Option Text → World S → Result StatusCode SubscriptionView
    get_subscription none w = err StatusCode.invalid_argument
    get_subscription (some id) w =
        if is_blank id
        then err StatusCode.invalid_argument
        else view_or_not_found (view C.urls w.items id)

    -- What the select of Update gives the caller. The update itself goes on if the caller leaves.
    abbrev pub heard : Option Error → Text → World S → World S × Outcome
    heard none id w = Update.update S C.path id w
    heard (some e) id w = (C.meanwhile w, (no_result, e ∷ []))

    -- AddSubscription from Update on.
    abbrev pub rolled_back :
        List Error → World S × Option Error → World S × Result StatusCode SubscriptionView
    rolled_back errors (w, none) = (w, err (subscription_error C.sentinel errors))
    rolled_back errors (w, some e) = (w, err StatusCode.internal)

    abbrev pub after_update :
        Text → World S × Outcome → World S × Result StatusCode SubscriptionView
    after_update id (w, (result, [])) = (w, ok (shown w.items id))
    after_update id (w, (result, e ∷ es)) =
        rolled_back (e ∷ es) (remove_subscription S C.removed none id w)

    abbrev pub after_add :
        Text → Bool → World S × Option Error → World S × Result StatusCode SubscriptionView
    after_add id now (w, some e) = (w, err (subscription_error C.sentinel (e ∷ [])))
    after_add id false (w, none) = (w, ok (shown w.items id))
    after_add id true (w, none) = after_update id (heard C.left id w)

    abbrev pub add_with :
        AddSubscriptionRequest
        → Result StatusCode Duration
        → World S
        → World S × Result StatusCode SubscriptionView
    add_with r (err code) w = (w, err code)
    add_with r (ok interval) w = after_add (id_or C.fresh (request_of r interval)) r.update_now (
        add_request S C.submitted C.context C.urls C.fresh C.default C.now (request_of r interval)
          w)

    unfoldable pub add_subscription :
        Option AddSubscriptionRequest → World S → World S × Result StatusCode SubscriptionView
    add_subscription none w = (w, err StatusCode.invalid_argument)
    add_subscription (some r) w = add_with r (subscription_duration r.update_interval_seconds) w

    -- The calls that change one subscription and show it.
    abbrev pub answered :
        Text → World S × Option Error → World S × Result StatusCode SubscriptionView
    answered id (w, some e) = (w, err (subscription_error C.sentinel (e ∷ [])))
    answered id (w, none) = (w, view_or_not_found (view C.urls w.items id))

    unfoldable pub rename_subscription :
        (id name : Text) → World S → World S × Result StatusCode SubscriptionView
    rename_subscription id name w =
        if is_blank id
        then (w, err StatusCode.invalid_argument)
        else answered id (rename S C.submitted C.context id name w)

    unfoldable pub set_subscription_enabled :
        (id : Text) (enabled : Bool) → World S → World S × Result StatusCode SubscriptionView
    set_subscription_enabled id enabled w =
        if is_blank id
        then (w, err StatusCode.invalid_argument)
        else answered id (set_enabled S C.submitted C.context id enabled w)

    abbrev pub configure_with :
        (id : Text) (enabled : Bool)
        → Result StatusCode Duration
        → World S
        → World S × Result StatusCode SubscriptionView
    configure_with id enabled (err code) w = (w, err code)
    configure_with id enabled (ok interval) w =
        answered id (configure_updates S C.submitted C.context id enabled interval C.now w)

    unfoldable pub configure_subscription_updates :
        (id : Text) (enabled : Bool) (seconds : ℤ)
        → World S
        → World S × Result StatusCode SubscriptionView
    configure_subscription_updates id enabled seconds w =
        if is_blank id
        then (w, err StatusCode.invalid_argument)
        else configure_with id enabled (subscription_duration seconds) w

    abbrev pub removal : World S × Option Error → World S × Result StatusCode (Unit {0})
    removal (w, some e) = (w, err (subscription_error C.sentinel (e ∷ [])))
    removal (w, none) = (w, ok tt)

    abbrev pub remove_seen : Text → Option View → World S → World S × Result StatusCode (Unit {0})
    remove_seen id none w = (w, err StatusCode.not_found)
    remove_seen id (some v) w = removal (remove_subscription S C.submitted C.context id w)

    unfoldable pub remove_subscription_call :
        Text → World S → World S × Result StatusCode (Unit {0})
    remove_subscription_call id w =
        if is_blank id
        then (w, err StatusCode.invalid_argument)
        else remove_seen id (view C.urls w.items id) w

    -- UpdateSubscription; `ended` is the code of the context if it has ended by then.
    abbrev pub update_answer : UpdateResult → Option View → Result StatusCode UpdateAnswer
    update_answer result none = err StatusCode.not_found
    update_answer result (some v) = ok (record {
      subscription = grpc_subscription_view v;
      changed = result.changed;
      not_modified = result.not_modified;
      original_config = result.original_config;
    })

    abbrev pub updated :
        Option StatusCode → Text → World S × Outcome → World S × Result StatusCode UpdateAnswer
    updated (some code) id (w, outcome) = (w, err code)
    updated none id (w, (result, [])) = (w, update_answer result (view C.urls w.items id))
    updated none id (w, (result, e ∷ es)) =
        if is_empty result.subscription.id
        then (w, err (subscription_error C.sentinel (e ∷ es)))
        else (w, update_answer result (view C.urls w.items id))

    unfoldable pub update_subscription :
        Option StatusCode → Text → World S → World S × Result StatusCode UpdateAnswer
    update_subscription ended id w =
        if is_blank id
        then (w, err StatusCode.invalid_argument)
        else updated ended id (heard C.left id w)

    unfoldable pub get_resolved_endpoints : Option Bool → World S → List Text
    get_resolved_endpoints none w = resolved_endpoints false w.items
    get_resolved_endpoints (some enabled_only) w = resolved_endpoints enabled_only w.items
