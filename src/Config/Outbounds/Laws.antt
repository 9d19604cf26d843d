-- ===== src/Config/Outbounds/Laws.antt =====
-- A normalised model always has a plan of outbounds, and all its references resolve.
use target_lib.Base.{
  ◌≡◌, refl, ◌∙◌, ap, sym, subst, true, false, List, [], ◌∷◌, ◌++◌, arith, Text, trim_space,
  eq_refl, contains, Distinct, Distinct-keep, All, All-map, All-of_map, All-contains_self,
  All-append, ok,
}
use mathlib.Core.List.{map-append}
use target_lib.Profile.{Outbound, is_available}
use target_lib.Config.Model.{
  Selector, RuntimeModel, tags_of, node_ids_of, available_ids, proxy_tag, direct_tag, urltest_tag,
}
use target_lib.Config.Normalize.Nodes.{IsNodeId}
use target_lib.Config.Normalize.Selectors.{IsSound, is_member}
use target_lib.Config.Normalize.Laws.{IsNormal}
use target_lib.Config.Outbounds.{
  outbound_tags, plan_from_nodes, plan_outbounds, reserved_tags, direct_outbound, urltest_outbound,
  selector_outbound, default_node, only_direct,
}
use target_lib.Config.Outbounds.Nodes.{collect_nodes-Collected}
use target_lib.Config.Outbounds.Selectors.{references, plan_selectors-Planned}
use target_lib.Config.Outbounds.Tags.{
  available-IsNodeId, others-Disjoint, reserved-Disjoint, default_is_member, others_known, all_tags,
  all_tags-Distinct, member_known, own_known,
}

-- A plan of outbounds: those of the nodes, then TargetLib's own.
pub record IsPlan (m : RuntimeModel) (nodes own : List Outbound) (final : Text) : Type 0 where
  pub of_nodes : outbound_tags nodes ≡ available_ids m.node_pool.nodes
  pub distinct : Distinct (outbound_tags (nodes ++ own))
  pub final_known : contains (outbound_tags (nodes ++ own)) final ≡ true
  pub direct_known : contains (outbound_tags (nodes ++ own)) direct_tag ≡ true
  pub selectors_known : All (λ s. contains (outbound_tags (nodes ++ own)) s.tag ≡ true) m.selectors
  pub resolved :
      All
        (λ o. All (λ id. contains (outbound_tags (nodes ++ own)) id ≡ true) (references o.options))
        own

abbrev HasPlan : RuntimeModel → List Outbound → Type 0
HasPlan m collected =
    (own : List Outbound) × (final : Text) × (plan_from_nodes collected m.selectors
      ≡ ok (collected ++ own, final))
    × IsPlan m collected own final

only_direct-tags : (ss : List Selector) → outbound_tags (only_direct ss) ≡ tags_of ss
only_direct-tags [] = refl
only_direct-tags (s ∷ ss) = ap (◌∷◌ s.tag) (only_direct-tags ss)

only_direct-resolved :
    (tags : List Text) (ss : List Selector)
    → contains tags direct_tag ≡ true
    → All (λ o. All (λ id. contains tags id ≡ true) (references o.options)) (only_direct ss)
only_direct-resolved tags [] h = tt
only_direct-resolved tags (s ∷ ss) h = ((h, (h, tt)), only_direct-resolved tags ss h)

no_direct :
    (known : List Text) (ss : List Selector)
    → All (IsSound known) ss
    → contains (tags_of ss) direct_tag ≡ false
unfolding contains
no_direct known [] h = refl
no_direct known (s ∷ ss) h = ground (arith, h.0, no_direct known ss h.1)

without_nodes :
    (m : RuntimeModel)
    → IsNormal m
    → outbound_tags [] ≡ available_ids m.node_pool.nodes
    → HasPlan m []
unfolding plan_from_nodes contains
without_nodes m h none_available =
    let tags = outbound_tags (direct_outbound ∷ only_direct m.selectors) in
    let direct_known : contains tags direct_tag ≡ true = ground (arith, eq_refl direct_tag) in
    let same = only_direct-tags m.selectors in
    (
      direct_outbound ∷ only_direct m.selectors,
      direct_tag,
      refl,
      record {
        of_nodes = none_available;
        distinct = rw same (no_direct _ m.selectors h.selectors_sound, h.tags_distinct);
        final_known = direct_known;
        direct_known = direct_known;
        selectors_known =
            All-of_map (λ s. s.tag) (λ t. contains tags t ≡ true) m.selectors
              (All-map (λ t. contains (tags_of m.selectors) t ≡ true) _ (tags_of m.selectors)
                (λ t k. rw same (ground arith)) (All-contains_self (tags_of m.selectors)));
        resolved = (tt, only_direct-resolved tags m.selectors direct_known);
      },
    )

-- The plan with nodes, over the tags of their outbounds.
module _ (m : RuntimeModel) (o : Outbound) (os : List Outbound) where
  abbrev known : List Text
  known = outbound_tags (o ∷ os)

  abbrev own_outbounds : List Outbound → List Outbound
  own_outbounds planned =
      direct_outbound
      ∷ urltest_outbound known
      ∷ selector_outbound proxy_tag (known ++ direct_tag ∷ []) (default_node o.tag m.selectors)
      ∷ planned

  own-resolved :
      (planned : List Outbound)
      → All (IsSound known) m.selectors
      → All (λ q. All (λ id. is_member known id ≡ true) (references q.options)) planned
      → All
          (λ q. All (λ id. contains (all_tags known m.selectors) id ≡ true) (references q.options))
          (own_outbounds planned)
  unfolding contains
  own-resolved planned sound h =
      let Known = λ (id : Text). contains (all_tags known m.selectors) id ≡ true in
      let answered = member_known known m.selectors in
      let nodes : All Known known =
        All-map (λ id. contains known id ≡ true) Known known (λ id k. answered id (ground arith))
          (All-contains_self known) in
      let first : is_member known o.tag ≡ true = ground (arith, eq_refl o.tag) in
      (
        tt,
        (
          nodes,
          (
            (
              answered _ (default_is_member known o.tag m.selectors first sound),
              All-append Known known (direct_tag ∷ []) nodes
                  (answered direct_tag (ground (arith, eq_refl direct_tag)), tt),
            ),
            All-map _ _ planned
                (λ q k.
                  All-map (λ id. is_member known id ≡ true) Known (references q.options) answered k)
                h,
          ),
        ),
      )

  with_nodes : IsNormal m → known ≡ available_ids m.node_pool.nodes → HasPlan m (o ∷ os)
  unfolding plan_from_nodes contains
  with_nodes h tagged =
      let sound = subst (λ k. All (IsSound k) m.selectors) (sym tagged) h.selectors_sound in
      let named = subst (All IsNodeId) (sym tagged) (available-IsNodeId m h) in
      let distinct =
        subst Distinct (sym tagged)
          (Distinct-keep is_available (λ n. n.id) m.node_pool.nodes h.nodes_distinct) in
      let p =
        plan_selectors-Planned known (known ++ reserved_tags) m.selectors sound h.tags_distinct
          (others-Disjoint known m.selectors sound) in
      let own = own_outbounds p.outbounds in
      let same : outbound_tags ((o ∷ os) ++ own) ≡ all_tags known m.selectors =
        map-append (λ q. q.tag) (o ∷ os) own
        ∙ ap (λ t. known ++ direct_tag ∷ urltest_tag ∷ proxy_tag ∷ t) p.tagged in
      (
        own,
        proxy_tag,
        rw p.planned,
        record {
          of_nodes = tagged;
          distinct =
              subst Distinct (sym same)
                (all_tags-Distinct known m.selectors distinct named sound h.tags_distinct);
          final_known =
              subst (λ t. contains t proxy_tag ≡ true) (sym same)
                (own_known known m.selectors proxy_tag (ground (arith, eq_refl proxy_tag)));
          direct_known =
              subst (λ t. contains t direct_tag ≡ true) (sym same)
                (member_known known m.selectors direct_tag (ground (arith, eq_refl direct_tag)));
          selectors_known =
              subst (λ t. All (λ s. contains t s.tag ≡ true) m.selectors) (sym same)
                (All-map _ _ m.selectors (λ s k. own_known known m.selectors s.tag k)
                  (others_known m.selectors));
          resolved =
              subst (λ t. All (λ q. All (λ id. contains t id ≡ true) (references q.options)) own)
                (sym same) (own-resolved p.outbounds sound p.resolved);
        },
      )

has_plan :
    (m : RuntimeModel) (collected : List Outbound)
    → IsNormal m
    → outbound_tags collected ≡ available_ids m.node_pool.nodes
    → HasPlan m collected
has_plan m [] h tagged = without_nodes m h tagged
has_plan m (o ∷ os) h tagged = with_nodes m o os h tagged

-- On a normalised model whose node identities carry no surrounding space, planning the outbounds
-- never fails. The plan lists one outbound for each available node and then TargetLib's own; all
-- tags are distinct; the final tag, "direct" and the tag of every selector are among them; and whatever
-- TargetLib's own outbounds refer to is a tag of the plan.
pub plan_outbounds-IsPlan :
    (m : RuntimeModel)
    → IsNormal m
    → All (λ id. trim_space id ≡ id) (node_ids_of m.node_pool.nodes)
    → (nodes : List Outbound) × (own : List Outbound) × (final : Text) × (plan_outbounds
          m.node_pool.nodes m.selectors
        ≡ ok (nodes ++ own, final))
      × IsPlan m nodes own final
unfolding plan_outbounds
plan_outbounds-IsPlan m h trimmed =
    let c =
      collect_nodes-Collected m.node_pool.nodes reserved_tags h.nodes_distinct h.nodes_named trimmed
        (reserved-Disjoint (node_ids_of m.node_pool.nodes) h.nodes_named) in
    let (own, final, planned, good) = has_plan m c.outbounds h c.tagged in
    (c.outbounds, own, final, rw c.collected planned, good)
