-- ===== src/Manager/Reports.antt =====
-- manager/routes.go, node_selection.go and manager.go: what the manager tells of its state.
use target_lib.Base.{
  ◌≡◌, refl, Bool, true, false, not, ◌&&◌, List, [], ◌∷◌, Option, none, some, Text, text, ℤ, Result,
  ok, err, ◌>>=◌, if◌then◌else◌, Bool-cases, inl, inr, ok-injective, ◌↔◌, subst,
}
use target_lib.Profile.{Node, is_available, is_failed}
use target_lib.Config.Model.{default_service_id, proxy_tag}
use target_lib.Manager.{
  Code, not_found, internal, RuntimeSettings, RuntimeConfig, SelectorConfig, RouteConfig, RouteMode,
  find_selector, find_route,
}
use target_lib.Manager.Desired.{find_node_by_id}
use target_lib.Manager.Machine.{ServiceStatus}
use target_lib.Manager.Edits.{is_started}

-- The states of managerState.
pub data StateType : Type 0 where
  idle starting running stopping failed : StateType

unfoldable pub manager_state : ServiceStatus → StateType
manager_state ServiceStatus.idle = StateType.idle
manager_state ServiceStatus.starting = StateType.starting
manager_state ServiceStatus.started = StateType.running
manager_state ServiceStatus.stopping = StateType.stopping
manager_state ServiceStatus.fatal = StateType.failed

pub record RouteInfo : Type 0 where
  pub service_id : Text
  pub display_name : Text
  pub domains : List Text
  pub selector_tag : Text
  pub current_node_id : Text
  pub current_node_name : Text
  pub enabled : Bool
  pub effective : Bool

abbrev pub name_of : Option Node → Text
name_of none = []
name_of (some n) = n.name

-- A nil message of settings has no route mode.
abbrev pub is_route_direct : Option RuntimeSettings → Bool
is_route_direct none = false
is_route_direct (some s) = elim s.route_mode [ RouteMode.direct ↦ true | _ ↦ false ]

-- The status is asked for only where it matters.
abbrev pub effective_when : Bool → Result Code ServiceStatus → Result Code Bool
effective_when false status = ok false
effective_when true status = do s ← status; ok (is_started s)

abbrev pub info_of :
    RuntimeConfig
    → List Node
    → Result Code ServiceStatus
    → RouteConfig
    → Option SelectorConfig
    → Result Code RouteInfo
info_of config nodes status r none = err internal
info_of config nodes status r (some s) = do
  effective ← effective_when (r.enabled && not (is_route_direct config.settings)) status
  ok (record {
    service_id = r.service_id;
    display_name = r.display_name;
    domains = r.domains;
    selector_tag = r.selector_tag;
    current_node_id = s.selected_node_id;
    current_node_name = name_of (find_node_by_id nodes s.selected_node_id);
    enabled = r.enabled;
    effective = effective;
  })

abbrev pub info_for :
    RuntimeConfig
    → List Node
    → Result Code ServiceStatus
    → Option RouteConfig
    → Result Code RouteInfo
info_for config nodes status none = err not_found
info_for config nodes status (some r) =
    info_of config nodes status r (find_selector config.selectors r.selector_tag)

-- routeInfo.
unfoldable pub route_info :
    RuntimeConfig → List Node → Result Code ServiceStatus → Text → Result Code RouteInfo
route_info config nodes status id =
    info_for config nodes status (find_route config.service_routes id)

-- ListRoutes: the routes, and the default route on the selector "proxy".
unfoldable pub route_infos :
    RuntimeConfig
    → List Node
    → Result Code ServiceStatus
    → List RouteConfig
    → Result Code (List RouteInfo)
route_infos config nodes status [] = ok []
route_infos config nodes status (r ∷ rs) = do
  info ← route_info config nodes status r.service_id
  infos ← route_infos config nodes status rs
  ok (info ∷ infos)

abbrev pub bare_default_route : RouteInfo
bare_default_route = record {
  service_id = default_service_id;
  display_name = [];
  domains = [];
  selector_tag = proxy_tag;
  current_node_id = [];
  current_node_name = [];
  enabled = false;
  effective = false;
}

abbrev pub default_route : List Node → Option SelectorConfig → RouteInfo
default_route nodes none = bare_default_route
default_route nodes (some s) = record bare_default_route {
  current_node_id = s.selected_node_id;
  current_node_name = name_of (find_node_by_id nodes s.selected_node_id);
}

unfoldable pub list_routes :
    RuntimeConfig → List Node → Result Code ServiceStatus → Result Code (RouteInfo × List RouteInfo)
list_routes config nodes status = do
  infos ← route_infos config nodes status config.service_routes
  ok (default_route nodes (find_selector config.selectors proxy_tag), infos)

-- GetProxyStatus.
pub record ProxyStatus : Type 0 where
  pub service_state : StateType
  pub selected_node_id : Text
  pub selected_node_name : Text
  pub actual_node_id : Text
  pub effective : Bool
  pub selected_at_unix_ms : ℤ
  pub node_available : Bool
  pub unavailable_reason : Text

abbrev pub is_selectable : Option Node → Bool
is_selectable none = false
is_selectable (some n) = is_available n

abbrev pub reason_for : Option Node → Text
reason_for none = text "node_not_in_pool"
reason_for (some n) =
    if is_available n
    then []
    else if is_failed n.phase
    then text "node_failed"
    else text "node_not_ready"

abbrev pub status_of :
    List Node → Result Code ServiceStatus → Option SelectorConfig → Result Code ProxyStatus
status_of nodes status none = err internal
status_of nodes status (some s) = do
  now ← status
  ok (record {
    service_state = manager_state now;
    selected_node_id = s.selected_node_id;
    selected_node_name = name_of (find_node_by_id nodes s.selected_node_id);
    actual_node_id = if is_started now then s.selected_node_id else [];
    effective = is_started now;
    selected_at_unix_ms = s.selected_at_unix_ms;
    node_available = is_selectable (find_node_by_id nodes s.selected_node_id);
    unavailable_reason = reason_for (find_node_by_id nodes s.selected_node_id);
  })

unfoldable pub get_proxy_status :
    RuntimeConfig → List Node → Result Code ServiceStatus → Result Code ProxyStatus
get_proxy_status config nodes status =
    status_of nodes status (find_selector config.selectors proxy_tag)

reason_for_iff : (o : Option Node) → (reason_for o ≡ []) ↔ (is_selectable o ≡ true)
unfolding text
reason_for_iff none = (λ e. cc, λ e. cc)
reason_for_iff (some n) = elim (Bool-cases (is_available n)) [
  | inl e ↦ rw e (λ k. refl, λ k. refl)
  | inr e ↦ elim (Bool-cases (is_failed n.phase)) [
    | inl f ↦ rw (e, f) (λ k. cc, λ k. cc)
    | inr f ↦ rw (e, f) (λ k. cc, λ k. cc)
  ]
]

status_of-reason :
    (nodes : List Node) (status : Result Code ServiceStatus) (o : Option SelectorConfig)
    (p : ProxyStatus)
    → status_of nodes status o ≡ ok p
    → (p.unavailable_reason ≡ []) ↔ (p.node_available ≡ true)
status_of-reason nodes (err e) none p h = cc
status_of-reason nodes (ok s) none p h = cc
status_of-reason nodes (err e) (some s) p h = cc
status_of-reason nodes (ok now) (some s) p h =
    subst (λ (q : ProxyStatus). (q.unavailable_reason ≡ []) ↔ (q.node_available ≡ true))
      (ok-injective h) (reason_for_iff (find_node_by_id nodes s.selected_node_id))

-- GetProxyStatus gives a reason exactly if the selected node is not available.
pub get_proxy_status-reason :
    (config : RuntimeConfig) (nodes : List Node) (status : Result Code ServiceStatus)
    (p : ProxyStatus)
    → get_proxy_status config nodes status ≡ ok p
    → (p.unavailable_reason ≡ []) ↔ (p.node_available ≡ true)
unfolding get_proxy_status
get_proxy_status-reason config nodes status p h =
    status_of-reason nodes status (find_selector config.selectors proxy_tag) p h
