-- ===== src/Config/Normalize/Laws.antt =====
-- What a model that NormalizeRuntimeModel returns satisfies.
use target_lib.Base.{
  ◌≡◌, ◌∙◌, sym, subst, List, [], map, arith, Text, contains, Distinct, Disjoint, Disjoint-symm,
  All, All-map, EachPair, sort_by, by_key, sort_by-All, sort_by-contains, sort_by-Distinct,
  sort_by-EachPair, ok, >>=-eq-ok, ok-injective,
}
use target_lib.Config.Model.{
  Selector, ServiceRoute, RuntimeModel, node_ids_of, tags_of, services_of, available_ids,
}
use target_lib.Config.Normalize.{
  check_nodes, check_selectors, check_routes, nothing_seen, normalize_runtime_model,
}
use target_lib.Config.Normalize.Nodes.{IsNodeId, check_nodes-CheckedNodes}
use target_lib.Config.Normalize.Selectors.{IsSound, check_selectors-IsSound}
use target_lib.Config.Normalize.Routes.{IsServed, claims, check_routes-CheckedRoutes}

-- Every reference of the model resolves, and nothing is named or claimed twice.
pub record IsNormal (m : RuntimeModel) : Type 0 where
  pub nodes_distinct : Distinct (node_ids_of m.node_pool.nodes)
  pub nodes_named : All IsNodeId (node_ids_of m.node_pool.nodes)
  pub tags_distinct : Distinct (tags_of m.selectors)
  pub selectors_sound : All (IsSound (available_ids m.node_pool.nodes)) m.selectors
  pub services_distinct : Distinct (services_of m.service_routes)
  pub owners_distinct : Distinct (map (λ r. r.selector) m.service_routes)
  pub routes_served : All (IsServed m.selectors) m.service_routes
  pub domains_apart : EachPair (λ r q. Disjoint (claims r) (claims q)) m.service_routes

-- The sets of usable nodes may be listed in any order.
IsSound-same_set :
    (xs ys : List Text) (s : Selector)
    → ((a : Text) → contains xs a ≡ contains ys a)
    → IsSound xs s
    → IsSound ys s
IsSound-same_set xs ys s same h = record {
  trimmed = h.trimmed;
  named = h.named;
  not_direct = h.not_direct;
  not_urltest = h.not_urltest;
  not_node = sym (same s.tag) ∙ h.not_node;
  members = All-map _ _ s.node_ids (λ id k. ground (arith, same id)) h.members;
  distinct = h.distinct;
  selected = h.selected;
}

IsServed-sorted :
    (ss : List Selector) (r : ServiceRoute)
    → IsServed ss r
    → IsServed (sort_by (by_key (λ s. s.tag)) ss) r
IsServed-sorted ss r h = record {
  trimmed = h.trimmed;
  named = h.named;
  not_default = h.not_default;
  known = sort_by-contains (by_key (λ s. s.tag)) (λ s. s.tag) ss r.selector ∙ h.known;
  not_proxy = h.not_proxy;
  valid = h.valid;
  distinct = h.distinct;
}

-- Whatever model is given, if NormalizeRuntimeModel returns one then all its references resolve:
-- node identities are distinct and none is a tag of TargetLib's own; selector tags are distinct
-- and trimmed, each selector has distinct members that are usable nodes or "direct", and its
-- selected node is one of them; each service has a selector of its own, which is not "proxy", and
-- only valid domains; and no domain belongs to two enabled services or twice to one.
pub normalize_runtime_model-IsNormal :
    (model : RuntimeModel) {out : RuntimeModel}
    → normalize_runtime_model model ≡ ok out
    → IsNormal out
unfolding normalize_runtime_model contains
normalize_runtime_model-IsNormal model h =
    let (nodes, checked, h1) = >>=-eq-ok (check_nodes model.node_pool.nodes [] []) _ h in
    let (selectors, passed, h2) = >>=-eq-ok (check_selectors nodes [] model.selectors) _ h1 in
    let (routes, taken, h3) =
      >>=-eq-ok (check_routes selectors nothing_seen model.service_routes) _ h2 in
    let n = check_nodes-CheckedNodes model.node_pool.nodes [] [] checked in
    let (sound, tags) = check_selectors-IsSound nodes [] model.selectors passed tt tt in
    let r = check_routes-CheckedRoutes selectors nothing_seen model.service_routes taken in
    let by_tag = by_key {A = Selector} (λ s. s.tag) in
    let by_id = by_key {A = ServiceRoute} (λ q. q.service_id) in
    subst IsNormal (ok-injective h3) (record {
      nodes_distinct = n.distinct;
      nodes_named = n.named;
      tags_distinct = sort_by-Distinct by_tag (λ s. s.tag) selectors tags;
      selectors_sound =
          sort_by-All by_tag (IsSound (available_ids model.node_pool.nodes)) selectors (
            All-map (IsSound nodes) _ selectors
              (λ s k. IsSound-same_set nodes (available_ids model.node_pool.nodes) s n.usable k)
              sound);
      services_distinct = sort_by-Distinct by_id (λ q. q.service_id) routes r.services_distinct;
      owners_distinct = sort_by-Distinct by_id (λ q. q.selector) routes r.owners_distinct;
      routes_served =
          sort_by-All by_id (IsServed (sort_by by_tag selectors)) routes
            (All-map (IsServed selectors) _ routes (IsServed-sorted selectors) r.served);
      domains_apart =
          sort_by-EachPair by_id (λ a b. Disjoint (claims a) (claims b)) routes
            (λ a b. Disjoint-symm (claims a) (claims b)) r.apart;
    })
