-- ===== src/Manager/Edits.antt =====
-- manager/routes.go and runtime_config.go: what the operations read, and how they edit the wanted
-- configuration.
pub mod Asked
use target_lib.Base.{
  Bool, true, false, List, [], ◌∷◌, ◌++◌, Option, none, some, Text, text, ◌==◌, ℤ, Result, ok, err,
  if◌then◌else◌,
}
use target_lib.Profile.{Node, is_available}
use target_lib.Config.Settings.{Settings}
use target_lib.Config.Model.{RuntimeModel, direct_tag}
use target_lib.Manager.{
  Code, not_found, failed_precondition, RuntimeConfig, SelectorConfig, RouteConfig, find_route,
}
use target_lib.Manager.Desired.{ready_node_ids}
use target_lib.Manager.Machine.{ServiceStatus}

-- What an operation reads besides the state: the node pool and its revision, the clock, whether its
-- context has ended, and what the status reads each time until the deadline of 15 seconds.
pub record Surroundings : Type 0 where
  pub emit : Settings → RuntimeModel → Result Code Text
  pub mobile : Bool
  pub nodes : List Node
  pub revision : Text
  pub now_ms : ℤ
  pub ctx : Option Code
  pub readings : List (Result Code ServiceStatus)

-- waitForStableStatus.
abbrev pub is_changing : ServiceStatus → Bool
is_changing ServiceStatus.starting = true
is_changing ServiceStatus.stopping = true
is_changing _ = false

unfoldable pub stable_status : List (Result Code ServiceStatus) → Result Code ServiceStatus
stable_status [] = err failed_precondition
stable_status (err e ∷ more) = err e
stable_status (ok s ∷ more) = elim (is_changing s) [ true ↦ stable_status more | false ↦ ok s ]

abbrev pub is_started : ServiceStatus → Bool
is_started ServiceStatus.started = true
is_started _ = false

abbrev pub is_running_or_starting : ServiceStatus → Bool
is_running_or_starting ServiceStatus.started = true
is_running_or_starting ServiceStatus.starting = true
is_running_or_starting _ = false

abbrev pub is_down : ServiceStatus → Bool
is_down ServiceStatus.idle = true
is_down ServiceStatus.fatal = true
is_down _ = false

-- Editing a list in place, as the source does through pointers into it.
unfoldable pub set_selector : SelectorConfig → List SelectorConfig → List SelectorConfig
set_selector s [] = s ∷ []
set_selector s (t ∷ ts) = elim (t.tag == s.tag) [ true ↦ s ∷ ts | false ↦ t ∷ set_selector s ts ]

unfoldable pub set_route : RouteConfig → List RouteConfig → List RouteConfig
set_route r [] = r ∷ []
set_route r (q ∷ qs) = elim (q.service_id == r.service_id) [
  | true ↦ r ∷ qs
  | false ↦ q ∷ set_route r qs
]

unfoldable pub remove_selector : Text → List SelectorConfig → List SelectorConfig
remove_selector tag [] = []
remove_selector tag (s ∷ ss) = elim (s.tag == tag) [
  | true ↦ ss
  | false ↦ s ∷ remove_selector tag ss
]

unfoldable pub remove_route : Text → List RouteConfig → List RouteConfig
remove_route id [] = []
remove_route id (r ∷ rs) = elim (r.service_id == id) [ true ↦ rs | false ↦ r ∷ remove_route id rs ]

-- The node that a request names, if it can be used.
abbrev pub usable : Option Node → Result Code Node
usable none = err not_found
usable (some n) = if is_available n then ok n else err not_found

pub record UpsertRoute : Type 0 where
  pub service_id : Text
  pub display_name : Text
  pub domains : List Text
  pub node_id : Text
  pub enabled : Bool

abbrev pub selector_tag_for : Option RouteConfig → Text → Text
selector_tag_for none id = text "route-" ++ id
selector_tag_for (some r) id = r.selector_tag

-- The configuration that UpsertRoute asks for.
unfoldable pub upserted : Surroundings → UpsertRoute → RuntimeConfig → RuntimeConfig
upserted V q next =
    let tag = selector_tag_for (find_route next.service_routes q.service_id) q.service_id in
    record next {
      selectors =
          set_selector
            (record {
              tag = tag;
              node_ids = ready_node_ids V.nodes ++ direct_tag ∷ [];
              selected_node_id = q.node_id;
              selected_at_unix_ms = V.now_ms;
            })
            next.selectors;
      service_routes =
          set_route
            (record {
              service_id = q.service_id;
              display_name = q.display_name;
              domains = q.domains;
              selector_tag = tag;
              enabled = q.enabled;
            })
            next.service_routes;
    }

-- The configuration that DeleteRoute asks for.
unfoldable pub without_route : Text → RuntimeConfig → Result Code RuntimeConfig
without_route id next = elim (find_route next.service_routes id) [
  | none ↦ err not_found
  | some r ↦ ok (record next {
    selectors = remove_selector r.selector_tag next.selectors;
    service_routes = remove_route id next.service_routes;
  })
]
