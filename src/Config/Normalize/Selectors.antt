-- ===== src/Config/Normalize/Selectors.antt =====
-- What the loop over the selectors establishes.
use target_lib.Base.{
  Disjoint-tail, ◌≡◌, Bool, true, false, not, ◌||◌, List, [], ◌∷◌, arith, Text, ◌==◌, eq_iff,
  contains, Distinct, Disjoint, All, not-contains_of_Disjoint, if◌then◌else◌, ok, >>-eq-ok,
  >>=-eq-ok, ok-injective, trim_space, ◌∙◌,
}
use target_lib.Config.Model.{Selector, tags_of, direct_tag, urltest_tag}
use target_lib.Config.Normalize.{
  bad_selector_tag, unfit_member, members_of, check_members, check_selector, check_selectors,
}

-- What a selector may switch to: a usable node, or "direct".
abbrev pub is_member : List Text → Text → Bool
is_member nodes id = contains nodes id || id == direct_tag

pub record CheckedMembers (nodes : List Text) (selected : Text) (ids seen : List Text)
    (found out : Bool) : Type 0 where
  pub members : All (λ id. is_member nodes id ≡ true) ids
  pub distinct : Distinct ids
  pub fresh : Disjoint ids seen
  pub chosen : out ≡ (found || contains ids selected)

chosen-cons :
    (id selected : Text) (ids : List Text) (found : Bool)
    → ((if id == selected then true else found) || contains ids selected)
      ≡ (found || contains (id ∷ ids) selected)
unfolding contains
chosen-cons id selected ids found = ground arith

pub check_members-CheckedMembers :
    (nodes : List Text) (selected : Text) (ids seen : List Text) (found : Bool) {out : Bool}
    → check_members nodes selected ids seen found ≡ ok out
    → CheckedMembers nodes selected ids seen found out
unfolding check_members unfit_member contains
check_members-CheckedMembers nodes selected [] seen found h = record {
  members = tt;
  distinct = tt;
  fresh = tt;
  chosen = ground arith;
}
check_members-CheckedMembers nodes selected (id ∷ ids) seen found h =
    let (good, rest) = >>-eq-ok (unfit_member nodes seen id) _ _ h in
    let more = check_members-CheckedMembers nodes selected ids (id ∷ seen) _ rest in
    record {
      members = (ground arith, more.members);
      distinct = (not-contains_of_Disjoint ids seen id more.fresh, more.distinct);
      fresh = (ground arith, Disjoint-tail ids seen id more.fresh);
      chosen = more.chosen ∙ chosen-cons id selected ids found;
    }

-- A selector of a normalised model, over the usable nodes.
pub record IsSound (nodes : List Text) (s : Selector) : Type 0 where
  pub trimmed : trim_space s.tag ≡ s.tag
  pub named : (s.tag == []) ≡ false
  pub not_direct : (s.tag == direct_tag) ≡ false
  pub not_urltest : (s.tag == urltest_tag) ≡ false
  pub not_node : contains nodes s.tag ≡ false
  pub members : All (λ id. is_member nodes id ≡ true) s.node_ids
  pub distinct : Distinct s.node_ids
  pub selected : contains s.node_ids s.selected ≡ true

check_selector-IsSound :
    (nodes : List Text) (before : List Selector) (s : Selector) {out : Selector}
    → check_selector nodes before s ≡ ok out
    → IsSound nodes out × (contains (tags_of before) out.tag ≡ false)
unfolding check_selector bad_selector_tag
check_selector-IsSound nodes before s {out} h =
    let (tagged, h1) = >>-eq-ok (bad_selector_tag nodes s.tag) _ _ h in
    let (fresh, h2) = >>-eq-ok (contains (tags_of before) s.tag) _ _ h1 in
    let (found, checked, h3) =
      >>=-eq-ok (check_members nodes s.selected (members_of nodes s) [] false) _ h2 in
    let (has, h4) = >>-eq-ok (not found) _ _ h3 in
    let c = check_members-CheckedMembers nodes s.selected (members_of nodes s) [] false checked in
    let same : out ≡ record s { node_ids = members_of nodes s } = ground (arith, h4) in
    rw same (
      record {
        trimmed = (eq_iff _ _).0 (ground arith);
        named = ground arith;
        not_direct = ground arith;
        not_urltest = ground arith;
        not_node = ground arith;
        members = c.members;
        distinct = c.distinct;
        selected = ground (arith, c.chosen);
      },
      fresh,
    )

-- The selectors that pass are sound, and their tags are distinct.
pub check_selectors-IsSound :
    (nodes : List Text) (before ss : List Selector) {out : List Selector}
    → check_selectors nodes before ss ≡ ok out
    → All (IsSound nodes) before
    → Distinct (tags_of before)
    → All (IsSound nodes) out × Distinct (tags_of out)
unfolding check_selectors
check_selectors-IsSound nodes before [] h sound distinct =
    let same = ok-injective h in rw (← same) (sound, distinct)
check_selectors-IsSound nodes before (s ∷ ss) h sound distinct =
    let (s', passed, rest) = >>=-eq-ok (check_selector nodes before s) _ h in
    let (good, fresh) = check_selector-IsSound nodes before s passed in
    check_selectors-IsSound nodes (s' ∷ before) ss rest (good, sound) (fresh, distinct)
