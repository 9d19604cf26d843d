-- ===== src/Tests/Runtimes.antt =====
-- Examples for package manager: a daemon that takes any content, and a store that can be full.
use target_lib.Base.{
  ◌≡◌, ◌↔◌, refl, true, false, List, [], ◌∷◌, ◌++◌, Option, none, some, Text, text, ◌==◌, pos,
  Result, ok, err, sort_by, keep, contains, trim_space,
}
use target_lib.Profile.{Node, NodePhase, provider, is_available}
use target_lib.Config.Settings.{Settings, validate, has_line_break}
use target_lib.Config.Model.{RuntimeModel}
use target_lib.Config.Plan.{Host, Blueprint, plan_runtime_model}
use target_lib.Config.Plan.Laws.{IsClosed}
use target_lib.Config.Normalize.{
  normalize_runtime_model, check_nodes, check_selectors, check_selector, check_members,
  check_routes,
}
use target_lib.Manager.{
  Code, internal, RuntimeSettings, RuntimeConfig, SelectorConfig, default_runtime_config,
  build_settings, find_selector,
}
use target_lib.Manager.Desired.{
  reconcile_runtime_selections, reconcile_selector, normalize_desired, taken_over, with_proxy,
  runtime_model, find_node_by_id,
}
use target_lib.Manager.Desired.Reconciled.{accepted-IsClosed}
use target_lib.Manager.Machine.{
  Daemon, ConfigStore, Machine, ServiceStatus, apply_snapshot, activate_snapshot, save_snapshot,
  rollback,
}
use target_lib.Manager.Machine.Snapshot.{Applied, apply_snapshot-Applied}
use target_lib.Manager.Edits.{Surroundings}
use target_lib.Manager.Operations.Choices.{Chosen, proxy_target, select, select_nodes-Chosen}
use target_lib.Manager.Access.{authenticate, bearer, intent_method, authenticate_iff}
use target_lib.Manager.Reports.{ProxyStatus, StateType, get_proxy_status, manager_state}

abbrev host : Host
host = record { windows = false; mobile = false; abs_path = some; parse_addr = some }

abbrev daemon : Daemon
daemon = record {
  State = Option Text;
  status = λ s. ok (elim s [ none ↦ ServiceStatus.idle | some _ ↦ ServiceStatus.started ]);
  check = λ c. true;
  apply = λ c s. (some c, none);
  close = λ s. (none, none);
  select = λ tag node s. (s, none);
  loaded = λ s. s;
  apply-loaded = λ c s e. refl;
  close-loaded = λ s e. refl;
}

full_store_law :
    (r : RuntimeConfig) (s t : Option RuntimeConfig)
    → ◌≡◌ {A = Result Code (Option RuntimeConfig)} (err internal) (ok t)
    → t ≡ some r
full_store_law r s t e = cc

-- A store that refuses everything.
abbrev full_store : ConfigStore
full_store = record {
  State = Option RuntimeConfig;
  save = λ r s. err internal;
  saved = λ s. s;
  save-saved = full_store_law;
}

abbrev default_config : RuntimeConfig
default_config = record {
  settings = some (record {
    listen_address = text "127.0.0.1";
    mixed_port = 2080;
    ipv6 = false;
    proxy_mode = target_lib.Manager.ProxyMode.mixed;
    route_mode = target_lib.Manager.RouteMode.rule;
  });
  node_pool_revision = [];
  selectors = [];
  service_routes = [];
}

abbrev empty_model : RuntimeModel
empty_model = record {
  node_pool = record { nodes = [] };
  selectors =
      record {
        tag = text "proxy";
        node_ids = text "direct" ∷ [];
        selected = text "direct";
        selected_at_unix_ms = pos 0;
      }
      ∷ [];
  service_routes = [];
}

abbrev built : Settings
built = record {
  probe_only = false;
  listen_address = text "127.0.0.1";
  mixed_port = pos 2080;
  proxy_mode = target_lib.Config.Settings.ProxyMode.mixed;
  ipv6 = false;
  cache_file_path = [];
  route_mode = target_lib.Config.Settings.RouteMode.rule;
}

abbrev machine : Machine daemon full_store
machine = record {
  runtime_config = default_config;
  config = text "old";
  daemon = some (text "old");
  store = none;
}

apply_snapshot-Applied_example :
    Applied daemon full_store default_config
      (text "new")
      true
      true
      machine
      (apply_snapshot daemon full_store none default_config (text "new") true true machine)
apply_snapshot-Applied_example =
    apply_snapshot-Applied daemon full_store default_config (text "new") true machine none true refl

-- The store refuses, so the old content is loaded again.
rolled_back :
    apply_snapshot daemon full_store none default_config (text "new") true true machine
    ≡ (machine, some internal)
unfolding apply_snapshot activate_snapshot save_snapshot rollback
rolled_back = refl

abbrev node_of : Text → Node
node_of id = record {
  id = id;
  subscription_id = text "s";
  name = id;
  type = text "trojan";
  country_code = text "HK";
  server = text "a.example";
  port = pos 443;
  phase = NodePhase.ready;
  error = [];
  outbound_json = text "{}";
  outbound = some (record { type = text "trojan"; tag = id; options = provider (text "t") });
}

abbrev nodes : List Node
nodes = node_of (text "n1") ∷ []

abbrev around : Surroundings
around = record {
  emit = λ s m. ok (text "new");
  mobile = false;
  nodes = nodes;
  revision = text "r";
  now_ms = pos 5;
  ctx = none;
  readings = ok ServiceStatus.starting ∷ ok ServiceStatus.started ∷ [];
}

select_nodes-Chosen_example :
    Chosen daemon full_store around machine proxy_target
      (text "n1")
      (select daemon full_store around machine proxy_target (text "n1"))
select_nodes-Chosen_example =
    select_nodes-Chosen daemon full_store around machine proxy_target (text "n1")

abbrev stale : RuntimeConfig
stale = record default_config {
  selectors =
      record {
        tag = text "video";
        node_ids = text "gone" ∷ text "n1" ∷ [];
        selected_node_id = text "gone";
        selected_at_unix_ms = pos 1;
      }
      ∷ [];
}

default_normalizes :
    normalize_desired default_config [] ≡ ok (taken_over default_config empty_model, empty_model)
unfolding normalize_desired normalize_runtime_model check_nodes runtime_model check_selectors
    reconcile_runtime_selections with_proxy check_selector ◌==◌ reconcile_selector text trim_space
    contains check_members sort_by keep check_routes
default_normalizes = refl

default_builds : build_settings false default_config.settings ≡ ok built
unfolding build_settings validate ◌==◌ trim_space text has_line_break
default_builds = refl

accepted-IsClosed_example :
    (b : Blueprint) × (plan_runtime_model host built empty_model ≡ ok b) × IsClosed b
accepted-IsClosed_example =
    accepted-IsClosed host false default_config.settings built default_config [] default_builds
      default_normalizes refl tt

delete_is_intent : intent_method (text "/TargetLib.TargetLib/DeleteRoute") ≡ true
unfolding intent_method contains ◌==◌ text
delete_is_intent = refl

authenticate_iff_example :
    (authenticate (text "secret") (text "/TargetLib.TargetLib/DeleteRoute") (text "secret" ∷ [])
      ≡ ok tt)
    ↔ (text "secret" ∷ [] ≡ (bearer ++ text "secret") ∷ [])
authenticate_iff_example =
    authenticate_iff (text "secret") (text "/TargetLib.TargetLib/DeleteRoute") (text "secret" ∷ [])
      delete_is_intent

abbrev proxied : RuntimeConfig
proxied = record default_config {
  selectors =
      record {
        tag = text "proxy";
        node_ids = [];
        selected_node_id = text "n1";
        selected_at_unix_ms = pos 1;
      }
      ∷ [];
}

abbrev told : ProxyStatus
told = record {
  service_state = StateType.running;
  selected_node_id = text "n1";
  selected_node_name = text "n1";
  actual_node_id = text "n1";
  effective = true;
  selected_at_unix_ms = pos 1;
  node_available = true;
  unavailable_reason = [];
}

status_told : get_proxy_status proxied nodes (ok ServiceStatus.started) ≡ ok told
unfolding get_proxy_status find_selector ◌==◌ text manager_state find_node_by_id is_available
status_told = refl
