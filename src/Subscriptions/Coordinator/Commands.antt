-- ===== src/Subscriptions/Coordinator/Commands.antt =====
-- The build functions that subscriptions/manager.go submits to the coordinator.
-- The mutations name the stored item as the source does; WithSource is that of Profile/Identity.
use target_lib.Base.{
  List, [], ◌∷◌, none, some, Text, Bool, true, false, if◌then◌else◌, pos, ltb_ℤ, is_empty,
}
use target_lib.Profile.Identity.{Digest, with_source}
use target_lib.Subscriptions.Model.{
  Subscription, Error, not_found, already_exists, Status, UpdateStage, PendingEvent, EventType,
  Time, Duration, lookup, insert, delete,
}
use target_lib.Subscriptions.Store.{Write}
use target_lib.Subscriptions.Coordinator.{Items, Built, unchanged}

abbrev pub refuse : Items → Error → Built
refuse items e = (unchanged items, some e)

abbrev pub show : EventType → Subscription → List PendingEvent
show type item = (record { type = type; item = item }) ∷ []

-- The mutation that puts an item into the map and into the store.
abbrev pub saving : Items → EventType → Subscription → Built
saving items type item = (
  record {
    next = some (insert item.id item items);
    failure = none;
    persist = some (Write.put item);
    events = show type item;
  },
  none,
)

-- AddRequest's build.
unfoldable pub add : Subscription → Items → Built
add item items = elim (lookup items item.id) [
  | some _ ↦ refuse items (already_exists item.id)
  | none ↦ saving items EventType.added item
]

-- Remove's build.
unfoldable pub remove : Text → Items → Built
remove id items = elim (lookup items id) [
  | none ↦ refuse items (not_found id)
  | some item ↦ (
    record {
      next = some (delete id items);
      failure = none;
      persist = some (Write.delete id);
      events = show EventType.removed item;
    },
    none,
  )
]

-- The item that modify puts back stands under the requested key.
unfoldable pub modify : Text → (Subscription → Subscription) → Items → Built
modify id change items = elim (lookup items id) [
  | none ↦ refuse items (not_found id)
  | some item ↦ (
    record {
      next = some (insert id (change item) items);
      failure = none;
      persist = some (Write.put (change item));
      events = show EventType.updated (change item);
    },
    none,
  )
]

-- A change that is not saved: the stage of an update.
abbrev pub noting : Items → Text → Subscription → Built
noting items id item = (
  record {
    next = some (insert id item items);
    failure = none;
    persist = none;
    events = show EventType.stage item;
  },
  none,
)

-- beginUpdate's build.
unfoldable pub begin_update : Text → Items → Built
begin_update id items = elim (lookup items id) [
  | none ↦ refuse items (not_found id)
  | some item ↦
      noting items id
        (record item { status = Status.updating; stage = UpdateStage.fetching; error = [] })
]

-- setStage's build.
unfoldable pub set_stage : Text → UpdateStage → Items → Built
set_stage id stage items = elim (lookup items id) [
  | none ↦ (unchanged items, none)
  | some item ↦ noting items id (record item { stage = stage })
]

-- commit's build: if the store refuses, the item as it was before the update is put back.
unfoldable pub commit : Digest → Subscription → Subscription → Items → Built
commit D item persisted items = (
  record {
    next = some (insert item.id sourced items);
    failure = some (insert item.id persisted items);
    persist = some (Write.put sourced);
    events = show EventType.updated sourced;
  },
  none,
)
  where
    sourced : Subscription
    sourced = record item { profile = with_source D item.id item.profile }

abbrev pub interrupted : Status → UpdateStage → Status × UpdateStage
interrupted Status.updating stage = (Status.idle, UpdateStage.idle)
interrupted status stage = (status, stage)

-- Load's loop body: an update that was running is over, and the nodes get their identities.
unfoldable pub loaded : Digest → Subscription → Subscription
loaded D item = record item {
  status = (interrupted item.status item.stage).0;
  stage = (interrupted item.status item.stage).1;
  profile = with_source D item.id item.profile;
}

-- Load's loop: items without an ID are left out; a later item replaces an earlier one.
unfoldable pub load_items : Digest → Items → List Subscription → Items
load_items D next [] = next
load_items D next (s ∷ ss) = elim (is_empty s.id) [
  | true ↦ load_items D next ss
  | false ↦ load_items D (insert s.id (loaded D s) next) ss
]

unfoldable pub load : Digest → List Subscription → Items → Built
load D stored items = (
  record { next = some (load_items D [] stored); failure = none; persist = none; events = [] },
  none,
)

-- What Rename, ConfigureUpdates and SetEnabled change.
abbrev pub renamed : Text → Subscription → Subscription
renamed name item = record item { name = name }

abbrev pub next_update : Bool → Time → Subscription → Time
next_update enabled now item = if enabled then now else item.next_update_at

unfoldable pub updates_configured : Bool → Duration → Time → Subscription → Subscription
updates_configured enabled interval now item = record item {
  auto_update = enabled;
  update_interval = if ltb_ℤ (pos 0) interval then interval else item.update_interval;
  next_update_at = next_update enabled now item;
}

abbrev pub enabled_set : Bool → Subscription → Subscription
enabled_set enabled item = record item { enabled = enabled }

-- The commands that a manager submits after loading.
pub data Command : Type 0 where
  add_item : Subscription → Command
  remove_item : Text → Command
  rename_item : (id name : Text) → Command
  configure_item : (id : Text) (enabled : Bool) (interval : Duration) (now : Time) → Command
  enable_item : (id : Text) (enabled : Bool) → Command
  begin_item : Text → Command
  stage_item : Text → UpdateStage → Command
  commit_item : (item persisted : Subscription) → Command

abbrev pub build_of : Digest → Command → Items → Built
build_of D (add_item item) = add item
build_of D (remove_item id) = remove id
build_of D (rename_item id name) = modify id (renamed name)
build_of D (configure_item id enabled interval now) =
    modify id (updates_configured enabled interval now)
build_of D (enable_item id enabled) = modify id (enabled_set enabled)
build_of D (begin_item id) = begin_update id
build_of D (stage_item id stage) = set_stage id stage
build_of D (commit_item item persisted) = commit D item persisted
