-- ===== src/Config/Plan/Laws.antt =====
-- A normalised model with valid settings always has a blueprint, and all its references resolve.
use target_lib.Base.{
  ◌≡◌, sym, ap, subst, true, false, not, List, [], ◌∷◌, ◌++◌, Text, ◌==◌, text, trim_space, is_some,
  contains, contains_of_All, Distinct, All, All-map, All-to_map, ok, if◌then◌else◌, keep,
}
use target_lib.Profile.{Outbound}
use target_lib.Config.Settings.{Settings, RouteMode, rule, direct, all, validate}
use target_lib.Config.Model.{RuntimeModel, Selector, ServiceRoute, tags_of, node_ids_of, direct_tag}
use target_lib.Config.Normalize.Laws.{IsNormal}
use target_lib.Config.Normalize.Routes.{IsServed}
use target_lib.Config.Outbounds.{outbound_tags}
use target_lib.Config.Outbounds.Laws.{IsPlan, plan_outbounds-IsPlan}
use target_lib.Config.Plan.{
  Host, Blueprint, Inbound, assemble, final_of, plan_route, add_service_rules, plan_runtime_model,
}
use target_lib.Config.Plan.Inbounds.{build_inbounds_one}
use target_lib.Config.Plan.Routes.{RuleResolves, add_service_rules-Resolve, add_service_rules-final}

-- A configuration in which no tag is used twice and none is missing.
pub record IsClosed (b : Blueprint) : Type 0 where
  pub distinct : Distinct (outbound_tags b.outbounds)
  pub final : contains (outbound_tags b.outbounds) b.route.final ≡ true
  pub rules : All (RuleResolves (outbound_tags b.outbounds)) b.route.rules

served_known :
    (tags : List Text) (ss : List Selector) (routes : List ServiceRoute)
    → All (λ s. contains tags s.tag ≡ true) ss
    → All (IsServed ss) routes
    → All (λ r. contains tags r.selector ≡ true) routes
served_known tags ss routes known served =
    All-map (IsServed ss) _ routes
      (λ r h.
        contains_of_All (tags_of ss) tags r.selector (All-to_map (λ s. s.tag) _ ss known) h.known)
      served

final_of-known :
    (tags : List Text) (final : Text) (m : RouteMode)
    → contains tags final ≡ true
    → contains tags direct_tag ≡ true
    → contains tags (final_of m final) ≡ true
unfolding final_of
final_of-known tags final direct h k = k
final_of-known tags final rule h k = h
final_of-known tags final all h k = h
final_of-known tags final (RouteMode.other t) h k = h

-- The parts of a blueprint that is no probe.
assemble-outbounds :
    (host : Host) (s : Settings) (m : RuntimeModel) (inbounds : List Inbound)
    (outbounds : List Outbound) (final : Text)
    → s.probe_only ≡ false
    → (assemble host s m inbounds outbounds final).outbounds ≡ outbounds
unfolding assemble
assemble-outbounds host s m inbounds outbounds final h =
    ap (λ b. if b then keep (λ o. not (o.type == text "urltest")) outbounds else outbounds) h

assemble-IsClosed :
    (host : Host) (s : Settings) (m : RuntimeModel) (inbounds : List Inbound)
    (nodes own : List Outbound) (final : Text)
    → s.probe_only ≡ false
    → IsNormal m
    → IsPlan m nodes own final
    → IsClosed (assemble host s m inbounds (nodes ++ own) final)
unfolding assemble plan_route add_service_rules
assemble-IsClosed host s m inbounds nodes own final full normal plan =
    let tags = outbound_tags (nodes ++ own) in
    let same = sym (assemble-outbounds host s m inbounds (nodes ++ own) final full) in
    let route = add_service_rules s m.service_routes (plan_route final s) in
    record {
      distinct = subst (λ os. Distinct (outbound_tags os)) same plan.distinct;
      final =
          subst (λ os. contains (outbound_tags os) route.final ≡ true) same
            (rw (add_service_rules-final s m.service_routes (plan_route final s))
              (final_of-known tags final s.route_mode plan.final_known plan.direct_known));
      rules =
          subst (λ os. All (RuleResolves (outbound_tags os)) route.rules) same
            (add_service_rules-Resolve tags final s m.service_routes plan.direct_known (
              served_known tags m.selectors m.service_routes plan.selectors_known
                normal.routes_served));
    }

-- On a normalised model whose node identities carry no surrounding space, with settings that
-- validate, a listen address that parses and no probe wanted, planning never fails, and in the
-- blueprint no outbound tag stands twice, and the final outbound and the target of every route
-- rule are outbounds of the blueprint.
pub plan_runtime_model-IsClosed :
    (host : Host) (s : Settings) (m : RuntimeModel)
    → validate s ≡ ok tt
    → is_some (host.parse_addr (trim_space s.listen_address)) ≡ true
    → s.probe_only ≡ false
    → IsNormal m
    → All (λ id. trim_space id ≡ id) (node_ids_of m.node_pool.nodes)
    → (b : Blueprint) × (plan_runtime_model host s m ≡ ok b) × IsClosed b
unfolding plan_runtime_model
plan_runtime_model-IsClosed host s m valid parses full normal trimmed =
    let (i, one, _) = build_inbounds_one host s valid parses full in
    let (nodes, own, final, planned, plan) = plan_outbounds-IsPlan m normal trimmed in
    (
      assemble host s m (i ∷ []) (nodes ++ own) final,
      rw (valid, one, planned),
      assemble-IsClosed host s m (i ∷ []) nodes own final full normal plan,
    )
