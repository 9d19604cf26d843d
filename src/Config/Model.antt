-- ===== src/Config/Model.antt =====
-- config/runtime_model.go: the model a configuration is built from.
use target_lib.Base.{Bool, List, [], Text, text, ℤ, map, keep}
use target_lib.Profile.{Node, Profile, is_available}

-- DefaultServiceID, the built-in service that owns the selector "proxy".
abbrev pub default_service_id : Text
default_service_id = text "default"

-- The tags that TargetLib's own outbounds have.
abbrev pub direct_tag : Text
direct_tag = text "direct"

abbrev pub urltest_tag : Text
urltest_tag = text "urltest"

abbrev pub proxy_tag : Text
proxy_tag = text "proxy"

pub record NodePool : Type 0 where
  pub nodes : List Node

pub record Selector : Type 0 where
  pub tag : Text
  pub node_ids : List Text
  pub selected : Text
  pub selected_at_unix_ms : ℤ

pub record ServiceRoute : Type 0 where
  pub service_id : Text
  pub display_name : Text
  pub domains : List Text
  pub selector : Text
  pub enabled : Bool

pub record RuntimeModel : Type 0 where
  pub node_pool : NodePool
  pub selectors : List Selector
  pub service_routes : List ServiceRoute

-- RuntimeModelFromProfile.
unfoldable pub runtime_model_from_profile : Profile → RuntimeModel
runtime_model_from_profile p = record {
  node_pool = record { nodes = p.nodes };
  selectors = [];
  service_routes = [];
}

abbrev pub node_ids_of : List Node → List Text
node_ids_of = map λ n. n.id

abbrev pub tags_of : List Selector → List Text
tags_of = map λ s. s.tag

abbrev pub services_of : List ServiceRoute → List Text
services_of = map λ r. r.service_id

-- The identities of the nodes that can be used.
abbrev pub available_ids : List Node → List Text
available_ids ns = node_ids_of (keep is_available ns)
