-- ===== src/Config/Outbounds/Nodes.antt =====
-- The loop over the nodes succeeds on a pool with distinct, proper and trimmed identities.
use target_lib.Base.{
  ◌≡◌, refl, true, false, ◌⊎◌, inl, inr, List, [], ◌∷◌, none, some, arith, Text, ◌==◌, trim_space,
  contains, Distinct, Disjoint, Disjoint-cons_right, All, keep, ok,
}
use target_lib.Profile.{Node, Outbound, is_available}
use target_lib.Config.Model.{node_ids_of, available_ids}
use target_lib.Config.Normalize.Nodes.{IsNodeId}
use target_lib.Config.Outbounds.{outbound_tags, node_outbound, collect_nodes}

-- A node is passed over exactly when it is not available.
node_outbound_cases :
    (n : Node)
    → trim_space n.id ≡ n.id
    → (n.id == []) ≡ false
    → ((node_outbound n ≡ none) × (is_available n ≡ false))
      ⊎ ((o : Outbound) × (node_outbound n ≡ some o) × (is_available n ≡ true) × (o.tag ≡ n.id))
unfolding node_outbound is_available
node_outbound_cases n trimmed named = ground arith

pub record Collected (ns : List Node) (used : List Text) : Type 0 where
  pub outbounds : List Outbound
  pub collected : collect_nodes ns used ≡ ok outbounds
  pub tagged : outbound_tags outbounds ≡ available_ids ns

pub collect_nodes-Collected :
    (ns : List Node) (used : List Text)
    → Distinct (node_ids_of ns)
    → All IsNodeId (node_ids_of ns)
    → All (λ id. trim_space id ≡ id) (node_ids_of ns)
    → Disjoint (node_ids_of ns) used
    → Collected ns used
unfolding collect_nodes keep
collect_nodes-Collected [] used distinct named trimmed fresh = record {
  outbounds = [];
  collected = refl;
  tagged = refl;
}
collect_nodes-Collected (n ∷ ns) used distinct named trimmed fresh =
    elim (node_outbound_cases n trimmed.0 named.0.named) [
      | inl (skipped, gone) ↦
          let c = collect_nodes-Collected ns used distinct.1 named.1 trimmed.1 fresh.1 in
          record {
            outbounds = c.outbounds;
            collected = rw (skipped, collect_nodes) c.collected;
            tagged = rw gone c.tagged;
          }
      | inr (o, kept, there, tag) ↦
          let later : Disjoint (node_ids_of ns) (o.tag ∷ used) =
            rw tag (Disjoint-cons_right (node_ids_of ns) used n.id distinct.0 fresh.1) in
          let c = collect_nodes-Collected ns (o.tag ∷ used) distinct.1 named.1 trimmed.1 later in
          let new : contains used o.tag ≡ false = rw tag fresh.0 in
          record {
            outbounds = o ∷ c.outbounds;
            collected = rw (kept, collect_nodes) (rw new (rw c.collected));
            tagged = rw there (cc (tag, c.tagged));
          }
    ]
