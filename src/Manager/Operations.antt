-- ===== src/Manager/Operations.antt =====
-- manager/routes.go, node_selection.go, runtime_config.go and manager.go: the operations of the
-- service, on the manager's state. Each holds the operation lock from start to end.
pub mod Effects
pub mod Choices
use target_lib.Base.{
  ◌≡◌, Bool, true, false, not, ◌&&◌, ◌||◌, List, [], ◌∷◌, ◌++◌, map, Option, none, some, Text, text,
  ◌==◌, ℤ, Result, ok, err, ◌>>=◌, ◌>>◌, refuse_if, is_empty, trim_space, if◌then◌else◌,
}
use target_lib.Profile.{Node, is_available}
use target_lib.Config.Settings.{Settings}
use target_lib.Config.Model.{RuntimeModel, direct_tag, proxy_tag, default_service_id}
use target_lib.Manager.{
  Code, invalid_argument, not_found, internal, failed_precondition, data_loss, RuntimeSettings,
  RuntimeConfig, SelectorConfig, RouteConfig, RouteMode, build_settings, canonical_runtime_settings,
  find_selector, find_route,
}
use target_lib.Manager.Desired.{
  find_node_by_id, ready_node_ids, build_runtime_content, prepare_runtime_content,
}
use target_lib.Manager.Machine.{
  ServiceStatus, Daemon, ConfigStore, Machine, apply_snapshot, commit_live_selector, swap_runtime,
}
use target_lib.Manager.Edits.{
  Surroundings, UpsertRoute, is_changing, is_down, is_running_or_starting, is_started, remove_route,
  remove_selector, selector_tag_for, set_route, set_selector, stable_status, upserted, usable,
  without_route,
}

module _ (D : Daemon) (C : ConfigStore) (V : Surroundings) where
  -- `if err != nil { return err }` before the state is touched.
  unfoldable pub given {ℓ} :
      {A : Type ℓ}
      → Result Code A
      → (A → Machine D C → Machine D C × Option Code)
      → Machine D C
      → Machine D C × Option Code
  given (err e) k m = (m, some e)
  given (ok a) k m = k a m

  -- applyDesired.
  abbrev pub apply_built :
      RuntimeConfig × Text → ServiceStatus → Machine D C → Machine D C × Option Code
  apply_built (normal, content) s =
      apply_snapshot D C V.ctx normal content (is_started s) (is_started s)

  unfoldable pub apply_desired : RuntimeConfig → Machine D C → Machine D C × Option Code
  apply_desired next m =
      given (build_settings V.mobile next.settings)
        (λ settings.
          given
            (build_runtime_content V.emit V.mobile (record next { node_pool_revision = V.revision })
              V.nodes settings)
            λ built. given (stable_status V.readings) (apply_built built))
        m

  -- UpdateRuntimeConfig.
  unfoldable pub update_runtime_config :
      Option RuntimeSettings → Machine D C → Machine D C × Option Code
  update_runtime_config none m = (m, some invalid_argument)
  update_runtime_config (some s) m =
      apply_desired
        (record m.runtime_config { settings = some (canonical_runtime_settings V.mobile s) }) m

  -- UpsertRoute, up to its answer.
  unfoldable pub upsert_route : UpsertRoute → Machine D C → Machine D C × Option Code
  upsert_route q m =
      given
        (refuse_if (is_empty (trim_space q.service_id)) invalid_argument
          >> refuse_if (is_empty q.domains) invalid_argument
          >> usable (find_node_by_id V.nodes q.node_id))
        (λ node. apply_desired (upserted V q m.runtime_config)) m

  -- DeleteRoute.
  unfoldable pub delete_route : Text → Machine D C → Machine D C × Option Code
  delete_route id m =
      given
        (refuse_if (is_empty (trim_space id)) invalid_argument >> without_route id m.runtime_config)
        apply_desired m

  -- activateSavedRuntime.
  abbrev pub activate_built : Bool → RuntimeConfig × Text → Machine D C → Machine D C × Option Code
  activate_built was_running (normal, content) =
      apply_snapshot D C none normal content true was_running

  unfoldable pub activate_saved_runtime : Bool → Machine D C → Machine D C × Option Code
  activate_saved_runtime was_running m =
      given
        (prepare_runtime_content V.emit V.mobile
          (record m.runtime_config { node_pool_revision = V.revision }) V.nodes)
        (activate_built was_running) m

  -- startRuntime, restartRuntime and StopService.
  unfoldable pub start_runtime : Machine D C → Machine D C × Option Code
  start_runtime m =
      given (D.status m.daemon)
        (λ s m.
          if is_running_or_starting s
          then (m, some failed_precondition)
          else activate_saved_runtime false m)
        m

  unfoldable pub restart_runtime : Machine D C → Machine D C × Option Code
  restart_runtime m = given (D.status m.daemon) (λ s. activate_saved_runtime (is_started s)) m

  abbrev pub closed : Machine D C → D.State × Option Code → Machine D C × Option Code
  closed m (d, none) = (record m { daemon = d }, none)
  closed m (d, some e) = (record m { daemon = d }, some internal)

  unfoldable pub stop_service : Machine D C → Machine D C × Option Code
  stop_service m =
      given (D.status m.daemon)
        (λ s m. if is_down s then (m, none) else closed m (D.close m.daemon)) m

  -- ServiceReload, which loads the active content again.
  unfoldable pub service_reload : Machine D C → Machine D C × Option Code
  service_reload m =
      given (refuse_if (is_empty m.config) failed_precondition >> D.status m.daemon)
        (λ s m.
          if is_started s
          then closed m (D.apply m.config m.daemon)
          else (m, some failed_precondition))
        m

  -- SelectRouteNode.
  abbrev pub some_or {ℓ} : {A : Type ℓ} → Code → Option A → Result Code A
  some_or e none = err e
  some_or e (some a) = ok a

  abbrev pub select_built :
      (tag node previous : Text)
      → RuntimeConfig × Text
      → ServiceStatus
      → Machine D C
      → Machine D C × Option Code
  select_built tag node previous (normal, content) s =
      commit_live_selector D C normal content tag node previous (is_started s)

  abbrev pub selecting : Text → SelectorConfig → SelectorConfig
  selecting node s = record s { selected_node_id = node; selected_at_unix_ms = V.now_ms }

  abbrev pub select_on :
      Text → RuntimeConfig → SelectorConfig → Machine D C → Machine D C × Option Code
  select_on node config s =
      given
        (prepare_runtime_content V.emit V.mobile
          (record config { selectors = set_selector (selecting node s) config.selectors }) V.nodes)
        λ built. given (stable_status V.readings) (select_built s.tag node s.selected_node_id built)

  unfoldable pub select_route_node :
      (service_id node_id : Text) → Machine D C → Machine D C × Option Code
  select_route_node id node m =
      given
        (refuse_if (is_empty (trim_space id) || is_empty (trim_space node)) invalid_argument
          >> usable (find_node_by_id V.nodes node))
        (λ _. given (some_or not_found (find_route m.runtime_config.service_routes id)) λ r.
          given (some_or internal (find_selector m.runtime_config.selectors r.selector_tag))
            (select_on node m.runtime_config))
        m

  -- SelectNode, on the selector "proxy", which is made if it is not there.
  abbrev pub proxy_or_new : Option SelectorConfig → SelectorConfig
  proxy_or_new none = record {
    tag = proxy_tag;
    node_ids = [];
    selected_node_id = [];
    selected_at_unix_ms = V.now_ms;
  }
  proxy_or_new (some s) = s

  abbrev pub as_internal : Machine D C × Option Code → Machine D C × Option Code
  as_internal (m, none) = (m, none)
  as_internal (m, some e) = (m, some internal)

  abbrev pub select_proxy_built :
      (node previous : Text)
      → RuntimeConfig × Text
      → ServiceStatus
      → Machine D C
      → Machine D C × Option Code
  select_proxy_built node previous built s m =
      as_internal (select_built proxy_tag node previous built s m)

  abbrev pub select_proxy_on :
      Text → RuntimeConfig → SelectorConfig → Machine D C → Machine D C × Option Code
  select_proxy_on node config s =
      given
        (prepare_runtime_content V.emit V.mobile
          (record config {
            node_pool_revision = V.revision;
            selectors = set_selector (selecting node s) config.selectors;
          })
          V.nodes)
        λ built. given (stable_status V.readings) (select_proxy_built node s.selected_node_id built)

  unfoldable pub select_node : Text → Machine D C → Machine D C × Option Code
  select_node node m =
      given (refuse_if (is_empty node) invalid_argument >> usable (find_node_by_id V.nodes node))
        (λ _.
          select_proxy_on node m.runtime_config
            (proxy_or_new (find_selector m.runtime_config.selectors proxy_tag)))
        m
