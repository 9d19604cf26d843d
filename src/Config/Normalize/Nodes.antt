-- ===== src/Config/Normalize/Nodes.antt =====
-- What the loop over the node pool establishes.
use target_lib.Base.{
  Disjoint-tail, ◌≡◌, Bool, false, ◌||◌, List, [], ◌∷◌, arith, Text, ◌==◌, contains, Distinct,
  Disjoint, All, not-contains_of_Disjoint, keep, if◌then◌else◌, ok, >>-eq-ok, ◌∙◌,
}
use target_lib.Profile.{Node, is_available}
use target_lib.Config.Model.{direct_tag, urltest_tag, proxy_tag, node_ids_of, available_ids}
use target_lib.Config.Normalize.{bad_node_id, check_nodes}

-- An identity of a node is neither empty nor one of TargetLib's own tags.
pub record IsNodeId (id : Text) : Type 0 where
  pub named : (id == []) ≡ false
  pub not_direct : (id == direct_tag) ≡ false
  pub not_proxy : (id == proxy_tag) ≡ false
  pub not_urltest : (id == urltest_tag) ≡ false

good-IsNodeId :
    (ids : List Text) (id : Text)
    → bad_node_id ids id ≡ false
    → IsNodeId id × (contains ids id ≡ false)
unfolding bad_node_id
good-IsNodeId ids id h = (ground arith, ground arith)

pub record CheckedNodes (ns : List Node) (ids nodes out : List Text) : Type 0 where
  pub distinct : Distinct (node_ids_of ns)
  pub fresh : Disjoint (node_ids_of ns) ids
  pub named : All IsNodeId (node_ids_of ns)
  pub usable : (a : Text) → contains out a ≡ (contains nodes a || contains (available_ids ns) a)

available-cons :
    (n : Node) (ns : List Node) (nodes : List Text) (a : Text)
    → (contains (if is_available n then n.id ∷ nodes else nodes) a || contains (available_ids ns) a)
      ≡ (contains nodes a || contains (available_ids (n ∷ ns)) a)
unfolding contains keep
available-cons n ns nodes a = ground arith

or-false : (b : Bool) → b ≡ (b || false)
or-false b = ground arith

-- A pool that passes has distinct, proper identities, and the result is the set of usable ones.
pub check_nodes-CheckedNodes :
    (ns : List Node) (ids nodes : List Text) {out : List Text}
    → check_nodes ns ids nodes ≡ ok out
    → CheckedNodes ns ids nodes out
unfolding check_nodes contains keep
check_nodes-CheckedNodes [] ids nodes h = record {
  distinct = tt;
  fresh = tt;
  named = tt;
  usable = λ a. ground (arith, h);
}
check_nodes-CheckedNodes (n ∷ ns) ids nodes h =
    let (passed, rest) = >>-eq-ok (bad_node_id ids n.id) _ _ h in
    let (named, new) = good-IsNodeId ids n.id passed in
    let more = check_nodes-CheckedNodes ns (n.id ∷ ids) _ rest in
    record {
      distinct = (not-contains_of_Disjoint _ ids n.id more.fresh, more.distinct);
      fresh = (new, Disjoint-tail _ ids n.id more.fresh);
      named = (named, more.named);
      usable = λ a. more.usable a ∙ available-cons n ns nodes a;
    }
