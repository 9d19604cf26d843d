-- ===== src/Config/Outbounds/Tags.antt =====
-- The tags of a plan of outbounds, and which references they answer.
use target_lib.Base.{
  ◌≡◌, refl, true, not, List, [], ◌∷◌, ◌++◌, arith, Text, text, ◌==◌, eq_iff, contains,
  contains-append, Distinct, Distinct-append, Disjoint, Disjoint-symm, All, All-map, All-keep-map,
  Disjoint-append_right, Disjoint-weaken, eq_refl, keep, Distinct-keep, Bool-cases, inl, inr,
  All-of_contains,
}
use target_lib.Profile.{is_available}
use target_lib.Config.Model.{
  Selector, RuntimeModel, tags_of, available_ids, proxy_tag, direct_tag, urltest_tag,
}
use target_lib.Config.Normalize.Nodes.{IsNodeId}
use target_lib.Config.Normalize.Selectors.{IsSound, is_member}
use target_lib.Config.Normalize.Laws.{IsNormal}
use target_lib.Config.Outbounds.{reserved_tags, default_node}
use target_lib.Config.Outbounds.Selectors.{others}

pub reserved-Disjoint : (ids : List Text) → All IsNodeId ids → Disjoint ids reserved_tags
unfolding contains
reserved-Disjoint [] h = tt
reserved-Disjoint (id ∷ ids) h = (
  ground (
    arith,
    h.0,
    eq_iff id direct_tag,
    eq_iff direct_tag id,
    eq_iff id proxy_tag,
    eq_iff proxy_tag id,
    eq_iff id urltest_tag,
    eq_iff urltest_tag id,
  ),
  reserved-Disjoint ids h.1,
)

pub available-IsNodeId :
    (m : RuntimeModel) → IsNormal m → All IsNodeId (available_ids m.node_pool.nodes)
available-IsNodeId m h =
    All-keep-map is_available (λ n. n.id) IsNodeId m.node_pool.nodes h.nodes_named

-- The tags of the other selectors are none of the nodes', and none of TargetLib's own.
pub others-Disjoint :
    (known : List Text) (ss : List Selector)
    → All (IsSound known) ss
    → Disjoint (tags_of (others ss)) (known ++ reserved_tags)
unfolding keep contains
others-Disjoint known [] h = tt
others-Disjoint known (s ∷ ss) h = elim (Bool-cases (s.tag == proxy_tag)) [
  | inl proxy ↦ rw proxy (others-Disjoint known ss h.1)
  | inr other ↦ rw other (
    ground (
      arith,
      h.0,
      contains-append known reserved_tags s.tag,
      eq_iff s.tag direct_tag,
      eq_iff direct_tag s.tag,
      eq_iff s.tag proxy_tag,
      eq_iff proxy_tag s.tag,
      eq_iff s.tag urltest_tag,
      eq_iff urltest_tag s.tag,
    ),
    others-Disjoint known ss h.1,
  )
]

reserved-Distinct : Distinct reserved_tags
unfolding contains text ◌==◌
reserved-Distinct = (refl, (refl, (refl, tt)))

pub others_known :
    (ss : List Selector) → All (λ s. contains (proxy_tag ∷ tags_of (others ss)) s.tag ≡ true) ss
unfolding keep contains
others_known [] = tt
others_known (s ∷ ss) = (
  ground (arith, eq_iff s.tag proxy_tag, eq_iff proxy_tag s.tag, eq_refl s.tag),
  All-map (λ q. contains (proxy_tag ∷ tags_of (others ss)) q.tag ≡ true) _ ss (λ q h. ground arith)
      (others_known ss),
)

pub default_is_member :
    (known : List Text) (current : Text) (ss : List Selector)
    → is_member known current ≡ true
    → All (IsSound known) ss
    → is_member known (default_node current ss) ≡ true
unfolding default_node
default_is_member known current [] h sound = h
default_is_member known current (s ∷ ss) h sound = elim (Bool-cases (s.tag == proxy_tag)) [
  | inl e ↦ rw e (
      default_is_member known s.selected ss
        (All-of_contains (λ id. is_member known id ≡ true) s.node_ids s.selected sound.0.members
          sound.0.selected)
        sound.1)
  | inr e ↦ rw e (default_is_member known current ss h sound.1)
]

-- All tags of a plan with nodes: theirs, TargetLib's own, and those of the service selectors.
abbrev pub all_tags : List Text → List Selector → List Text
all_tags known ss = known ++ direct_tag ∷ urltest_tag ∷ proxy_tag ∷ tags_of (others ss)

module _ (known : List Text) (ss : List Selector) where
  pub all_tags-Distinct :
      Distinct known
      → All IsNodeId known
      → All (IsSound known) ss
      → Distinct (tags_of ss)
      → Distinct (all_tags known ss)
  all_tags-Distinct distinct named sound tags =
      let apart = others-Disjoint known ss sound in
      let rest = tags_of (others ss) in
      let from_known =
        Disjoint-weaken rest known (known ++ reserved_tags)
          (λ a h. ground (arith, contains-append known reserved_tags a)) apart in
      let from_own =
        Disjoint-weaken rest reserved_tags (known ++ reserved_tags)
          (λ a h. ground (arith, contains-append known reserved_tags a)) apart in
      Distinct-append known (reserved_tags ++ rest) distinct
        (Distinct-append reserved_tags rest reserved-Distinct
          (Distinct-keep (λ s. not (s.tag == proxy_tag)) (λ s. s.tag) ss tags)
          (Disjoint-symm rest reserved_tags from_own))
        (Disjoint-append_right known reserved_tags rest (reserved-Disjoint known named)
          (Disjoint-symm rest known from_known))

  pub member_known :
      (id : Text) → is_member known id ≡ true → contains (all_tags known ss) id ≡ true
  unfolding contains
  member_known id h = ground (
    arith,
    contains-append known (reserved_tags ++ tags_of (others ss)) id,
    eq_iff id direct_tag,
    eq_iff direct_tag id,
  )

  pub own_known :
      (id : Text)
      → contains (proxy_tag ∷ tags_of (others ss)) id ≡ true
      → contains (all_tags known ss) id ≡ true
  unfolding contains
  own_known id h = ground (arith, contains-append known (reserved_tags ++ tags_of (others ss)) id)
