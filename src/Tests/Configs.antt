-- ===== src/Tests/Configs.antt =====
-- Examples for config/: a model with two nodes, a selector of its own and one service.
use target_lib.Base.{
  ◌≡◌, ◌≢◌, ◌⊎◌, EachPair, refl, true, false, List, [], ◌∷◌, ◌++◌, some, Text, text, ◌==◌, All,
  contains, trim_space, sort_by, text_le, len, insert_by, is_space, lower, split, to_lower,
  trim_suffix, ok, pos,
}
use target_lib.Profile.{is_available, Node, NodePhase, Outbound, provider}
use target_lib.Config.Settings.{
  Settings, mixed, tun, rule, all, RouteMode, validate, has_line_break,
}
use target_lib.Config.Model.{RuntimeModel, proxy_tag, node_ids_of}
use target_lib.Config.Normalize.{
  normalize_runtime_model, check_nodes, check_selectors, check_selector, check_members,
  check_routes, check_route, check_domains, owner_of,
}
use target_lib.Config.Domains.{valid_domain, normalize_domain}
use target_lib.Config.Normalize.Laws.{normalize_runtime_model-IsNormal, IsNormal}
use mathlib.Core.List.{Perm}
use target_lib.Config.Outbounds.{plan_outbounds}
use target_lib.Config.Outbounds.Laws.{plan_outbounds-IsPlan, IsPlan}
use target_lib.Config.Plan.{
  Host, Blueprint, Inbound, Rule, build_inbounds, plan_runtime_model, plan_route, add_service_rules,
  service_rules, mode_rules,
}
use target_lib.Config.Plan.Inbounds.{build_inbounds_one, IsListener}
use target_lib.Config.Plan.Routes.{
  add_service_rules_block, unset_mode_plans_all, first_rules, AsSpecific,
}
use target_lib.Config.Plan.Laws.{plan_runtime_model-IsClosed, IsClosed}

abbrev host : Host
host = record { windows = false; mobile = false; abs_path = some; parse_addr = some }

abbrev settings : Settings
settings = record {
  probe_only = false;
  listen_address = text "127.0.0.1";
  mixed_port = pos 7890;
  proxy_mode = mixed;
  ipv6 = false;
  cache_file_path = text "cache.db";
  route_mode = rule;
}

abbrev node_of : Text → Node
node_of id = record {
  id = id;
  subscription_id = text "s";
  name = id;
  type = text "trojan";
  country_code = text "HK";
  server = text "a.example";
  port = pos 443;
  phase = NodePhase.ready;
  error = [];
  outbound_json = text "{}";
  outbound = some (record { type = text "trojan"; tag = id; options = provider (text "t") });
}

abbrev given : RuntimeModel
given = record {
  node_pool = record { nodes = node_of (text "n1") ∷ node_of (text "n2") ∷ [] };
  selectors =
      record {
        tag = text "video";
        node_ids = text "n1" ∷ text "direct" ∷ [];
        selected = text "n1";
        selected_at_unix_ms = pos 0;
      }
      ∷ record {
        tag = text "proxy";
        node_ids = [];
        selected = text "n2";
        selected_at_unix_ms = pos 0;
      }
      ∷ [];
  service_routes =
      record {
        service_id = text "tv";
        display_name = text "TV";
        domains = text "B.example." ∷ text "a.example" ∷ [];
        selector = text "video";
        enabled = true;
      }
      ∷ [];
}

abbrev normalized : RuntimeModel
normalized = record given {
  selectors =
      record {
        tag = text "proxy";
        node_ids = text "direct" ∷ text "n1" ∷ text "n2" ∷ [];
        selected = text "n2";
        selected_at_unix_ms = pos 0;
      }
      ∷ record {
        tag = text "video";
        node_ids = text "direct" ∷ text "n1" ∷ [];
        selected = text "n1";
        selected_at_unix_ms = pos 0;
      }
      ∷ [];
  service_routes =
      record {
        service_id = text "tv";
        display_name = text "TV";
        domains = text "a.example" ∷ text "b.example" ∷ [];
        selector = text "video";
        enabled = true;
      }
      ∷ [];
}

given_normalizes : normalize_runtime_model given ≡ ok normalized
unfolding normalize_runtime_model check_nodes ◌==◌ text contains check_selectors check_selector
    trim_space is_available check_members sort_by text_le check_routes check_route check_domains
    valid_domain len normalize_domain insert_by is_space lower split to_lower trim_suffix owner_of
given_normalizes = refl

given-IsNormal : IsNormal normalized
given-IsNormal = normalize_runtime_model-IsNormal given given_normalizes

normalize_runtime_model-IsNormal_example : IsNormal normalized
normalize_runtime_model-IsNormal_example = normalize_runtime_model-IsNormal given given_normalizes

settings-validate : validate settings ≡ ok tt
unfolding validate ◌==◌ text trim_space is_space has_line_break
settings-validate = refl

ids_trimmed : All (λ id. trim_space id ≡ id) (node_ids_of normalized.node_pool.nodes)
unfolding text trim_space is_space
ids_trimmed = (refl, (refl, tt))

plan_outbounds-IsPlan_example :
    (nodes : List Outbound) × (own : List Outbound) × (final : Text) × (plan_outbounds
        normalized.node_pool.nodes normalized.selectors
      ≡ ok (nodes ++ own, final))
    × IsPlan normalized nodes own final
plan_outbounds-IsPlan_example = plan_outbounds-IsPlan normalized given-IsNormal ids_trimmed

build_inbounds_one_example :
    (i : Inbound) × (build_inbounds host settings ≡ ok (i ∷ []))
    × (((settings.proxy_mode ≡ mixed) × IsListener settings i)
        ⊎ ((settings.proxy_mode ≡ tun) × (i.tag ≡ text "tun")))
build_inbounds_one_example = build_inbounds_one host settings settings-validate refl refl

plan_runtime_model-IsClosed_example :
    (b : Blueprint) × (plan_runtime_model host settings normalized ≡ ok b) × IsClosed b
plan_runtime_model-IsClosed_example =
    plan_runtime_model-IsClosed host settings normalized settings-validate refl refl given-IsNormal
      ids_trimmed

add_service_rules_block_example :
    (block : List Rule) × ((add_service_rules settings normalized.service_routes
        (plan_route proxy_tag settings)).rules
      ≡ first_rules settings ++ (block ++ mode_rules settings.route_mode))
    × Perm block (service_rules normalized.service_routes)
    × EachPair AsSpecific block
add_service_rules_block_example =
    add_service_rules_block proxy_tag settings normalized.service_routes refl

unset_mode_plans_all_example :
    (validate (record settings { route_mode = RouteMode.other [] })
      ≡ validate (record settings { route_mode = rule }))
    × (plan_route proxy_tag (record settings { route_mode = RouteMode.other [] })
        ≡ plan_route proxy_tag (record settings { route_mode = all }))
    × (plan_route proxy_tag (record settings { route_mode = RouteMode.other [] })
        ≢ plan_route proxy_tag (record settings { route_mode = rule }))
unset_mode_plans_all_example = unset_mode_plans_all proxy_tag settings
