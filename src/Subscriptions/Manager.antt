-- ===== src/Subscriptions/Manager.antt =====
-- subscriptions/manager.go and node_pool.go: the operations that a client calls on the manager.
pub mod Requests
pub mod Views
use target_lib.Base.{
  List, [], ◌∷◌, ◌++◌, map, Option, none, some, ℕ, zero, suc, Text, text, ◌==◌, Bool, true, false,
  not, ◌&&◌, ◌||◌, is_empty, trim_space, Result, ok, err, ◌>>=◌, ◌>>◌, refuse_if, if◌then◌else◌, ℤ,
  pos, ltb_ℤ, leb_ℤ, sort_by, by_key, text_le, contains, keep,
}
use target_lib.Profile.{Node, NodePhase, Profile}
use target_lib.Subscriptions.Model.{
  Subscription, AddRequest, Error, name_required, interval_too_short, Status, UpdateStage, Time,
  Duration, lookup,
}
use target_lib.Subscriptions.Store.{Store}
use target_lib.Subscriptions.Coordinator.{Items, Built, World, Delivery, submit}
use target_lib.Subscriptions.Coordinator.Commands.{
  add, remove, modify, renamed, updates_configured, enabled_set, load,
}
use target_lib.Subscriptions.Normalize.{Urls, normalize_subscription_url, validate_url}
use target_lib.Subscriptions.Update.{no_subscription}
use target_lib.Subscriptions.Fetching.{minimum_interval, include_all, Services}

-- The checks and defaults of AddRequest; `fresh` is uuid.NewString's, `default` the manager's.
abbrev pub id_or : Text → AddRequest → Text
id_or fresh r = if is_empty (trim_space r.id) then fresh else r.id

abbrev pub name_or : Text → AddRequest → Text
name_or id r = if is_empty (trim_space r.name) then id else r.name

abbrev pub interval_or : Duration → Duration → Duration
interval_or default interval = if leb_ℤ interval (pos 0) then default else interval

-- The subscription that AddRequest submits.
abbrev pub requested_item : Text → Text → Duration → Time → AddRequest → Subscription
requested_item id url interval now r = record no_subscription {
  id = id;
  name = trim_space (name_or id r);
  url = url;
  enabled = r.enabled;
  auto_update = r.auto_update;
  update_interval = interval;
  headers = r.headers;
  next_update_at = now;
}

unfoldable pub checked_request :
    Urls → (fresh : Text) (default : Duration) (now : Time) → AddRequest → Result Error Subscription
checked_request L fresh default now r = normalize_subscription_url L r.url >>= λ url.
    validate_url L url
    >> refuse_if (ltb_ℤ (interval_or default r.update_interval) minimum_interval) interval_too_short
    >> ok (requested_item (id_or fresh r) url (interval_or default r.update_interval) now r)

-- The guards of Rename and ConfigureUpdates.
abbrev pub checked_name : Text → Result Error Text
checked_name name = refuse_if (is_empty (trim_space name)) name_required >> ok (trim_space name)

abbrev pub checked_updates : Bool → Duration → Result Error (Unit {0})
checked_updates enabled interval =
    refuse_if (enabled && ltb_ℤ interval minimum_interval) interval_too_short

module _ (S : Store) where
  -- `if err != nil { return err }` before a submit.
  abbrev pub submit_checked {ℓ} :
      {A : Type ℓ}
      → Result Error A
      → (A → World S → World S × Option Error)
      → World S
      → World S × Option Error
  submit_checked (err e) k w = (w, some e)
  submit_checked (ok a) k w = k a w

  module _ (d : Delivery) (ctx : Option Error) where
    unfoldable pub add_request :
        Urls
        → (fresh : Text) (default : Duration) (now : Time) → AddRequest
        → World S
        → World S × Option Error
    add_request L fresh default now r =
        submit_checked (checked_request L fresh default now r) λ item. submit S d ctx (add item)

    unfoldable pub remove_subscription : Text → World S → World S × Option Error
    remove_subscription id = submit S d ctx (remove id)

    unfoldable pub rename : (id name : Text) → World S → World S × Option Error
    rename id name = submit_checked (checked_name name) λ n. submit S d ctx (modify id (renamed n))

    unfoldable pub configure_updates :
        (id : Text) (enabled : Bool) (interval : Duration) (now : Time)
        → World S
        → World S × Option Error
    configure_updates id enabled interval now =
        submit_checked (checked_updates enabled interval)
          λ _. submit S d ctx (modify id (updates_configured enabled interval now))

    unfoldable pub set_enabled : (id : Text) (enabled : Bool) → World S → World S × Option Error
    set_enabled id enabled = submit S d ctx (modify id (enabled_set enabled))

-- The items of a snapshot; Go visits a map in any order, and here they come in that of the list.
abbrev pub values : Items → List Subscription
values = map λ p. p.1

-- List.
unfoldable pub list : Items → List Subscription
list items = sort_by (by_key λ s. s.name) (values items)

-- The subscriptions that updateDue starts updates for.
abbrev pub is_due : Time → Subscription → Bool
is_due now s = s.enabled && s.auto_update && leb_ℤ s.next_update_at now

unfoldable pub due : Time → Items → List Text
due now items = map (λ s. s.id) (keep (is_due now) (list items))

-- ResolvedEndpoints.
unfoldable pub endpoints_of : Bool → List Text → List Subscription → List Text
endpoints_of enabled_only set [] = set
endpoints_of enabled_only set (s ∷ ss) =
    endpoints_of enabled_only
      (elim (enabled_only && not s.enabled) [ true ↦ set | false ↦ set ++ s.resolved_endpoints ]) ss

abbrev pub once : List Text → List Text
once [] = []
once (a ∷ more) = let rest = once more in if contains rest a then rest else a ∷ rest

unfoldable pub resolved_endpoints : Bool → Items → List Text
resolved_endpoints enabled_only items =
    sort_by text_le (once (endpoints_of enabled_only [] (list items)))

-- NodePool's nodes; the revision is their digest.
unfoldable pub enabled_nodes : List Subscription → List Node
enabled_nodes [] = []
enabled_nodes (s ∷ ss) = elim s.enabled [
  | true ↦ s.profile.nodes ++ enabled_nodes ss
  | false ↦ enabled_nodes ss
]

unfoldable pub node_pool : Items → List Node
node_pool items = sort_by (by_key λ n. n.id) (enabled_nodes (values items))

-- View, without what a client is not to see: headers, the profile's settings and the validators.
pub record NodeView : Type 0 where
  pub subscription_id : Text
  pub tag : Text
  pub name : Text
  pub type : Text
  pub country_code : Text
  pub server : Text
  pub port : ℤ
  pub phase : NodePhase
  pub error : Text

abbrev pub node_view : Node → NodeView
node_view n = record {
  subscription_id = n.subscription_id;
  tag = n.id;
  name = n.name;
  type = n.type;
  country_code = n.country_code;
  server = n.server;
  port = n.port;
  phase = n.phase;
  error = n.error;
}

-- The comparison of profileView, as "a does not come after b".
unfoldable pub view_le : NodeView → NodeView → Bool
view_le a b =
    if not (a.name == b.name)
    then text_le a.name b.name
    else if not (a.type == b.type)
    then text_le a.type b.type
    else if not (a.server == b.server)
    then text_le a.server b.server
    else leb_ℤ a.port b.port

unfoldable pub profile_view : Profile → List NodeView
profile_view p = sort_by view_le (map node_view p.nodes)
