-- ===== src/Config/Outbounds/Selectors.antt =====
-- The loop over the selectors succeeds on the selectors of a normalised model.
use target_lib.Base.{
  ◌≡◌, refl, ap, true, false, not, ◌||◌, inl, inr, List, [], ◌∷◌, arith, Text, ◌==◌, eq_refl,
  contains, is_empty, Distinct, Disjoint, Disjoint-cons_right, All, keep, keep-All,
  not-contains-keep, ok, Bool-cases, All-of_contains,
}
use target_lib.Profile.{
  Outbound, OutboundOptions, provider, direct_options, selector_options, urltest_options,
}
use target_lib.Config.Model.{Selector, tags_of, proxy_tag, direct_tag}
use target_lib.Config.Normalize.Selectors.{IsSound, is_member}
use target_lib.Config.Outbounds.{
  outbound_tags, selector_outbound, known_members, chosen_member, plan_selector, plan_selectors,
}

-- The selectors other than "proxy".
abbrev pub others : List Selector → List Selector
others = keep λ s. not (s.tag == proxy_tag)

-- The tags that an outbound of TargetLib's own refers to.
abbrev pub references : OutboundOptions → List Text
references (selector_options members default) = default ∷ members
references (urltest_options members _ _ _) = members
references (provider _) = []
references direct_options = []

chosen_is_member :
    (members : List Text) (selected : Text)
    → contains members selected ≡ true
    → contains members (chosen_member members selected) ≡ true
unfolding chosen_member contains
chosen_is_member [] selected h = ground arith
chosen_is_member (x ∷ xs) selected h = ground (arith, eq_refl x)

non_empty : (xs : List Text) (a : Text) → contains xs a ≡ true → is_empty xs ≡ false
unfolding contains
non_empty [] a k = cc
non_empty (x ∷ xs) a k = refl

plan_selector_sound :
    (known used : List Text) (s : Selector)
    → IsSound known s
    → contains used s.tag ≡ false
    → plan_selector known used s
      ≡ ok (selector_outbound s.tag s.node_ids (chosen_member s.node_ids s.selected))
unfolding plan_selector known_members
plan_selector_sound known used s h fresh = rw (
  h.trimmed,
  h.named,
  fresh,
  keep-All (λ id. contains known id || id == direct_tag) s.node_ids h.members,
  chosen_is_member s.node_ids s.selected h.selected,
  non_empty s.node_ids s.selected h.selected,
)

pub record Planned (known used : List Text) (ss : List Selector) : Type 0 where
  pub outbounds : List Outbound
  pub planned : plan_selectors known used ss ≡ ok outbounds
  pub tagged : outbound_tags outbounds ≡ tags_of (others ss)
  pub resolved : All (λ o. All (λ id. is_member known id ≡ true) (references o.options)) outbounds

pub plan_selectors-Planned :
    (known used : List Text) (ss : List Selector)
    → All (IsSound known) ss
    → Distinct (tags_of ss)
    → Disjoint (tags_of (others ss)) used
    → Planned known used ss
unfolding plan_selectors keep
plan_selectors-Planned known used [] sound distinct fresh = record {
  outbounds = [];
  planned = refl;
  tagged = refl;
  resolved = tt;
}
plan_selectors-Planned known used (s ∷ ss) sound distinct fresh =
    elim (Bool-cases (s.tag == proxy_tag)) [
      | inl proxy ↦
          let p = plan_selectors-Planned known used ss sound.1 distinct.1 (rw proxy at fresh) in
          record {
            outbounds = p.outbounds;
            planned = rw (proxy, plan_selectors) p.planned;
            tagged = rw proxy p.tagged;
            resolved = p.resolved;
          }
      | inr other ↦
          let now : Disjoint (tags_of (s ∷ others ss)) used = rw other at fresh in
          let later =
            Disjoint-cons_right (tags_of (others ss)) used s.tag
              (not-contains-keep (λ q. not (q.tag == proxy_tag)) (λ q. q.tag) ss s.tag distinct.0)
              now.1 in
          let p = plan_selectors-Planned known (s.tag ∷ used) ss sound.1 distinct.1 later in
          let chosen = chosen_member s.node_ids s.selected in
          record {
            outbounds = selector_outbound s.tag s.node_ids chosen ∷ p.outbounds;
            planned =
                rw (other, plan_selectors)
                  (rw (plan_selector_sound known used s sound.0 now.0) (rw p.planned));
            tagged = rw other (ap (◌∷◌ s.tag) p.tagged);
            resolved = (
              (
                All-of_contains (λ id. is_member known id ≡ true) s.node_ids chosen sound.0.members
                    (chosen_is_member s.node_ids s.selected sound.0.selected),
                sound.0.members,
              ),
              p.resolved,
            );
          }
    ]
