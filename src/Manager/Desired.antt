-- ===== src/Manager/Desired.antt =====
-- manager/runtime_controller.go: from the configuration a user wants to one that sing-box can run.
pub mod Reconciled
use target_lib.Base.{
  ◌≡◌, refl, Bool, true, false, not, ◌&&◌, ◌||◌, List, [], ◌∷◌, ◌++◌, map, Option, none, some, Text,
  text, ◌==◌, contains, keep, is_empty, Result, ok, err, ◌>>=◌, if◌then◌else◌, All, All-map, arith,
  Bool-cases, inl, inr, pos,
}
use target_lib.Profile.{Node, is_available}
use target_lib.Config.Settings.{Settings}
use target_lib.Config.Model.{
  Selector, ServiceRoute, RuntimeModel, direct_tag, proxy_tag, available_ids,
}
use target_lib.Config.Normalize.{normalize_runtime_model}
use target_lib.Manager.{
  Code, RuntimeConfig, SelectorConfig, RouteConfig, or_invalid, build_settings,
}

-- findNodeByID.
unfoldable pub find_node_by_id : List Node → Text → Option Node
find_node_by_id [] id = none
find_node_by_id (n ∷ ns) id = elim (n.id == id) [ true ↦ some n | false ↦ find_node_by_id ns id ]

-- readyNodeIDs.
abbrev pub ready_node_ids : List Node → List Text
ready_node_ids = available_ids

-- runtimeModel.
abbrev pub selector_of : SelectorConfig → Selector
selector_of s = record {
  tag = s.tag;
  node_ids = s.node_ids;
  selected = s.selected_node_id;
  selected_at_unix_ms = s.selected_at_unix_ms;
}

abbrev pub route_of : RouteConfig → ServiceRoute
route_of r = record {
  service_id = r.service_id;
  display_name = r.display_name;
  domains = r.domains;
  selector = r.selector_tag;
  enabled = r.enabled;
}

unfoldable pub runtime_model : RuntimeConfig → List Node → RuntimeModel
runtime_model next nodes = record {
  node_pool = record { nodes = nodes };
  selectors = map selector_of next.selectors;
  service_routes = map route_of next.service_routes;
}

-- reconcileRuntimeSelections: what is no longer there is left out, and "direct" stands in for it.
abbrev pub is_usable : List Text → Text → Bool
is_usable available id = id == direct_tag || contains available id

abbrev pub or_direct : List Text → List Text
or_direct [] = direct_tag ∷ []
or_direct (id ∷ more) = id ∷ more

abbrev pub usable_or_direct : List Text → Text → Text
usable_or_direct available id = if is_usable available id then id else direct_tag

unfoldable pub reconcile_selector : List Text → SelectorConfig → SelectorConfig
reconcile_selector available s = record s {
  selected_node_id = usable_or_direct available s.selected_node_id;
  node_ids =
      if s.tag == proxy_tag then s.node_ids else or_direct (keep (is_usable available) s.node_ids);
}

unfoldable pub reconcile_runtime_selections : List Node → RuntimeConfig → RuntimeConfig
reconcile_runtime_selections nodes next = record next {
  selectors = map (reconcile_selector (available_ids nodes)) next.selectors;
}

-- normalizeDesired: a selector "proxy" on the first usable node, if there is none.
abbrev pub has_proxy : List SelectorConfig → Bool
has_proxy [] = false
has_proxy (s ∷ ss) = s.tag == proxy_tag || has_proxy ss

abbrev pub first_or_direct : List Text → Text
first_or_direct [] = direct_tag
first_or_direct (id ∷ more) = id

abbrev pub proxy_on : Text → SelectorConfig
proxy_on id = record {
  tag = proxy_tag;
  node_ids = [];
  selected_node_id = id;
  selected_at_unix_ms = pos 0;
}

unfoldable pub with_proxy : List Node → RuntimeConfig → RuntimeConfig
with_proxy nodes next = record next {
  selectors =
      if has_proxy next.selectors
      then next.selectors
      else next.selectors ++ proxy_on (first_or_direct (available_ids nodes)) ∷ [];
}

abbrev pub selector_config : Selector → SelectorConfig
selector_config s = record {
  tag = s.tag;
  node_ids = s.node_ids;
  selected_node_id = s.selected;
  selected_at_unix_ms = s.selected_at_unix_ms;
}

abbrev pub route_config : ServiceRoute → RouteConfig
route_config r = record {
  service_id = r.service_id;
  display_name = r.display_name;
  domains = r.domains;
  selector_tag = r.selector;
  enabled = r.enabled;
}

abbrev pub taken_over : RuntimeConfig → RuntimeModel → RuntimeConfig
taken_over next model = record next {
  selectors = map selector_config model.selectors;
  service_routes = map route_config model.service_routes;
}

-- normalizeDesired returns the model and writes it back into the configuration.
unfoldable pub normalize_desired :
    RuntimeConfig → List Node → Result Code (RuntimeConfig × RuntimeModel)
normalize_desired next nodes = do
  model ← or_invalid (
      normalize_runtime_model
        (runtime_model (reconcile_runtime_selections nodes (with_proxy nodes next)) nodes))
  ok (taken_over next model, model)

-- config.BuildNormalized as buildRuntimeConfigForModel reports it.
module _ (emit : Settings → RuntimeModel → Result Code Text) (mobile : Bool) where
  -- buildRuntimeContent.
  unfoldable pub build_runtime_content :
      RuntimeConfig → List Node → Settings → Result Code (RuntimeConfig × Text)
  build_runtime_content next nodes settings = do
    (normal, model) ← normalize_desired next nodes
    content ← emit settings model
    ok (normal, content)

  -- prepareRuntimeContent.
  unfoldable pub prepare_runtime_content :
      RuntimeConfig → List Node → Result Code (RuntimeConfig × Text)
  prepare_runtime_content next nodes = do
    settings ← build_settings mobile next.settings
    build_runtime_content next nodes settings
