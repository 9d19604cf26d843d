-- ===== src/Subscriptions/Manager/Views.antt =====
-- What the reading operations of subscriptions/manager.go and node_pool.go return.
use target_lib.Base.{
  ◌≡◌, refl, sym, ap, ◌∙◌, List, [], ◌∷◌, ◌++◌, map, arith, Text, ◌==◌, eq_iff, Bool, true, false,
  not, ◌&&◌, ◌||◌, Bool-cases, inl, inr, contains, contains-append, Distinct, All, All-append,
  All-map, EachPair, text_le, text_le-total, text_le_trans, sort_by-sorted, sort_by-perm,
  sort_by-contains_self, sort_by-Distinct_self, sort_by-All, keep,
}
use mathlib.Core.List.{Perm}
use target_lib.Subscriptions.Model.{Subscription}
use target_lib.Subscriptions.Coordinator.{Items}
use target_lib.Subscriptions.Manager.{
  values, list, endpoints_of, once, resolved_endpoints, enabled_nodes, node_pool,
}

-- The test of ResolvedEndpoints' loop.
abbrev pub is_counted : Bool → Subscription → Bool
is_counted enabled_only s = not (enabled_only && not s.enabled)

-- Some subscription that counts has this endpoint.
abbrev pub has_endpoint : Bool → List Subscription → Text → Bool
has_endpoint enabled_only [] a = false
has_endpoint enabled_only (s ∷ ss) a =
    (is_counted enabled_only s && contains s.resolved_endpoints a) || has_endpoint enabled_only ss a

endpoints_of-contains :
    (enabled_only : Bool) (set : List Text) (ss : List Subscription) (a : Text)
    → contains (endpoints_of enabled_only set ss) a
      ≡ (contains set a || has_endpoint enabled_only ss a)
unfolding endpoints_of
endpoints_of-contains enabled_only set [] a = ground arith
endpoints_of-contains enabled_only set (s ∷ ss) a =
    elim (Bool-cases (enabled_only && not s.enabled)) [
      | inl e ↦ rw (endpoints_of, e) (endpoints_of-contains enabled_only set ss a)
      | inr e ↦
          rw (endpoints_of, e)
            (ground (
              arith,
              endpoints_of-contains enabled_only (set ++ s.resolved_endpoints) ss a,
              contains-append set s.resolved_endpoints a,
            ))
    ]

once-contains : (xs : List Text) (a : Text) → contains (once xs) a ≡ contains xs a
unfolding contains
once-contains [] a = refl
once-contains (x ∷ xs) a = elim (Bool-cases (contains (once xs) x)) [
  | inl e ↦ rw e (
      ground (
        arith,
        once-contains xs a,
        e,
        λ (k : (x == a) ≡ true). ap (contains (once xs)) ((eq_iff x a).0 k),
      ))
  | inr e ↦ rw e (ground (arith, once-contains xs a))
]

once-Distinct : (xs : List Text) → Distinct (once xs)
once-Distinct [] = tt
once-Distinct (x ∷ xs) = elim (Bool-cases (contains (once xs) x)) [
  | inl e ↦ rw e (once-Distinct xs)
  | inr e ↦ rw e (e, once-Distinct xs)
]

-- ResolvedEndpoints returns a set: ascending, each endpoint once, and an endpoint is in it exactly
-- if a subscription that counts has it, where with enabled_only the disabled ones do not count.
pub resolved_endpoints_set :
    (enabled_only : Bool) (items : Items)
    → EachPair (λ a b. text_le a b ≡ true) (resolved_endpoints enabled_only items)
      × Distinct (resolved_endpoints enabled_only items)
      × ((a : Text)
          → contains (resolved_endpoints enabled_only items) a
            ≡ has_endpoint enabled_only (list items) a)
unfolding resolved_endpoints contains
resolved_endpoints_set enabled_only items = (
  sort_by-sorted text_le text_le-total text_le_trans _,
  sort_by-Distinct_self text_le _ (once-Distinct (endpoints_of enabled_only [] (list items))),
  λ a.
      sort_by-contains_self text_le _ a
      ∙ once-contains _ a
      ∙ endpoints_of-contains enabled_only [] (list items) a,
)

-- List returns every subscription of the snapshot, in ascending order of their names.
pub list_sorted :
    (items : Items)
    → Perm (list items) (values items) × EachPair (λ a b. text_le a.name b.name ≡ true) (list items)
unfolding list
list_sorted items = (
  sort_by-perm _ _,
  sort_by-sorted _ (λ a b. text_le-total a.name b.name)
      (λ a b c. text_le_trans a.name b.name c.name) _,
)

-- The nodes of each subscription name it, as WithSource makes them do.
abbrev pub AreSourced : List Subscription → Type 0
AreSourced = All λ s. All (λ n. n.subscription_id ≡ s.id) s.profile.nodes

-- The IDs of the enabled subscriptions.
pub enabled_ids : List Subscription → List Text
enabled_ids ss = map (λ s. s.id) (keep (λ s. s.enabled) ss)

enabled_nodes-All :
    (ss : List Subscription)
    → AreSourced ss
    → All (λ n. contains (enabled_ids ss) n.subscription_id ≡ true) (enabled_nodes ss)
unfolding enabled_nodes enabled_ids keep contains
enabled_nodes-All [] h = tt
enabled_nodes-All (s ∷ ss) h = elim (Bool-cases s.enabled) [
  | inl e ↦
      rw (enabled_nodes, keep, e)
        (All-append _ s.profile.nodes (enabled_nodes ss)
          (All-map _ _ s.profile.nodes (λ n k. ground (arith, eq_iff s.id n.subscription_id, sym k))
            h.0)
          (All-map _ _ (enabled_nodes ss) (λ n k. ground arith) (enabled_nodes-All ss h.1)))
  | inr e ↦ rw (enabled_nodes, keep, e) (enabled_nodes-All ss h.1)
]

-- NodePool returns its nodes in ascending order of their IDs, and if the nodes of each subscription
-- name it, each node returned is of an enabled subscription.
pub node_pool_enabled :
    (items : Items)
    → AreSourced (values items)
    → EachPair (λ a b. text_le a.id b.id ≡ true) (node_pool items)
      × All (λ n. contains (enabled_ids (values items)) n.subscription_id ≡ true) (node_pool items)
unfolding node_pool
node_pool_enabled items h = (
  sort_by-sorted _ (λ a b. text_le-total a.id b.id) (λ a b c. text_le_trans a.id b.id c.id) _,
  sort_by-All _ _ _ (enabled_nodes-All (values items) h),
)
