-- ===== src/Config/Outbounds.antt =====
-- planOutboundsWithSelectors of config/build.go: the outbounds of a configuration.
pub mod Nodes
pub mod Selectors
pub mod Tags
pub mod Laws
use target_lib.Base.{
  Bool, true, false, not, ◌||◌, List, [], ◌∷◌, ◌++◌, map, Option, none, some, Text, text, ◌==◌,
  trim_space, contains, is_empty, keep, if◌then◌else◌, Result, ok, err, ◌>>=◌, ◌>>◌, refuse_if,
}
use target_lib.Profile.{
  Node, Outbound, OutboundOptions, direct_options, selector_options, urltest_options, is_failed,
}
use target_lib.Config.Settings.{
  Error, invalid_source, invalid_tag, reserved_outbound, no_valid_nodes, selected_not_member,
}
use target_lib.Config.Model.{direct_tag, urltest_tag, proxy_tag, Selector}

abbrev pub outbound_tags : List Outbound → List Text
outbound_tags = map λ o. o.tag

tag_outbound : Text → Option Outbound → Option Outbound
tag_outbound tag none = none
tag_outbound tag (some o) = if tag == [] then none else some (record o { tag = tag })

-- The outbound of a node under its trimmed identity; none for a node that the loop passes over.
unfoldable pub node_outbound : Node → Option Outbound
unfolding tag_outbound
node_outbound n = if is_failed n.phase then none else tag_outbound (trim_space n.id) n.outbound

-- The loop over the nodes, with the tags in use.
unfoldable pub collect_nodes : List Node → (used : List Text) → Result Error (List Outbound)
collect_nodes [] used = ok []
collect_nodes (n ∷ ns) used = elim (node_outbound n) [
  | none ↦ collect_nodes ns used
  | some o ↦ do
    refuse_if (contains used o.tag) (invalid_source (reserved_outbound o.tag))
    os ← collect_nodes ns (o.tag ∷ used)
    ok (o ∷ os)
]

abbrev pub reserved_tags : List Text
reserved_tags = direct_tag ∷ urltest_tag ∷ proxy_tag ∷ []

abbrev pub direct_outbound : Outbound
direct_outbound = record { type = text "direct"; tag = direct_tag; options = direct_options }

abbrev pub selector_outbound : Text → List Text → Text → Outbound
selector_outbound tag members default = record {
  type = text "selector";
  tag = tag;
  options = selector_options members default;
}

-- urlTestInterval is five minutes, in nanoseconds; urlTestTolerance is 50.
abbrev pub urltest_outbound : List Text → Outbound
urltest_outbound tags = record {
  type = text "urltest";
  tag = urltest_tag;
  options = urltest_options tags (text "https://www.gstatic.com/generate_204") 300_000_000_000 50;
}

-- The loop that looks for the selected node of "proxy".
unfoldable pub default_node : Text → List Selector → Text
default_node current [] = current
default_node current (s ∷ ss) = default_node (if s.tag == proxy_tag then s.selected else current) ss

abbrev first_or : Text → List Text → Text
first_or d [] = d
first_or d (x ∷ xs) = x

known_members : List Text → Selector → List Text
known_members known s = keep (λ id. contains known id || id == direct_tag) s.node_ids

chosen_member : List Text → Text → Text
chosen_member members selected = if selected == [] then first_or [] members else selected

-- One round of the loop over the selectors other than "proxy".
unfoldable pub plan_selector : (known used : List Text) → Selector → Result Error Outbound
unfolding known_members chosen_member
plan_selector known used s = do
  let tag = trim_space s.tag
  refuse_if (tag == [] || contains used tag) (invalid_source invalid_tag)
  let members = known_members known s
  refuse_if (is_empty members) (invalid_source (no_valid_nodes tag))
  let selected = chosen_member members s.selected
  refuse_if (not (contains members selected)) (invalid_source (selected_not_member tag))
  ok (selector_outbound tag members selected)

unfoldable pub plan_selectors :
    (known used : List Text) → List Selector → Result Error (List Outbound)
plan_selectors known used [] = ok []
plan_selectors known used (s ∷ ss) = elim (s.tag == proxy_tag) [
  | true ↦ plan_selectors known used ss
  | false ↦ do
    o ← plan_selector known used s
    os ← plan_selectors known (o.tag ∷ used) ss
    ok (o ∷ os)
]

-- Without nodes each selector is emitted with "direct" alone.
abbrev pub only_direct : List Selector → List Outbound
only_direct = map λ s. selector_outbound s.tag (direct_tag ∷ []) direct_tag

-- The rest of planOutboundsWithSelectors, from the outbounds of the nodes on.
unfoldable pub plan_from_nodes : List Outbound → List Selector → Result Error (List Outbound × Text)
plan_from_nodes [] selectors = ok (direct_outbound ∷ only_direct selectors, direct_tag)
plan_from_nodes (o ∷ os) selectors = do
  let nodes = o ∷ os
  let tags = outbound_tags nodes
  let proxy = selector_outbound proxy_tag (tags ++ direct_tag ∷ []) (default_node o.tag selectors)
  planned ← plan_selectors tags (tags ++ reserved_tags) selectors
  ok (nodes ++ direct_outbound ∷ urltest_outbound tags ∷ proxy ∷ planned, proxy_tag)

-- planOutboundsWithSelectors: the outbounds, and the tag of the final one.
unfoldable pub plan_outbounds : List Node → List Selector → Result Error (List Outbound × Text)
plan_outbounds nodes selectors = do
  os ← collect_nodes nodes reserved_tags
  plan_from_nodes os selectors
