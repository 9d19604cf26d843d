-- ===== src/Subscriptions/Fetching/Endpoints.antt =====
-- The endpoints of subscriptions/endpoints.go, the delay after a failure and the headers of
-- subscriptions/manager.go.
use target_lib.Base.{
  ◌≡◌, refl, ap, ◌∙◌, List, [], ◌∷◌, ◌++◌, arith, Text, ◌==◌, eq_iff, true, ◌||◌, Bool-cases, inl,
  inr, contains, contains-append, Distinct, Distinct-append, Disjoint-cons_right, Disjoint-nil,
  EachPair, text_le, text_le-total, text_le_trans, sort_by-sorted, sort_by-contains_self,
  sort_by-Distinct_self, ℕ, pos, ◌≤ℤ◌, leb_ℤ,
}
use target_lib.Profile.{Node}
use target_lib.Subscriptions.Model.{Subscription}
use target_lib.Subscriptions.Fetching.{
  Services, FetchResponse, addresses_of, include, include_all, endpoint_set, resolve_endpoints,
  failure_delay, minute, minimum_interval, apply_header_metadata,
}

module _ (V : Services) where
  -- Every address of every node, in order and with repetitions.
  pub all_addresses : List Node → List Text
  all_addresses [] = []
  all_addresses (n ∷ ns) = addresses_of V n ++ all_addresses ns

  include-contains :
      (set : List Text) (a b : Text) → contains (include V set a) b ≡ (contains set b || a == b)
  unfolding contains
  include-contains set a b = elim (Bool-cases (contains set a)) [
    | inl e ↦
        rw e (ground (arith, e, λ (k : (a == b) ≡ true). ap (contains set) ((eq_iff a b).0 k)))
    | inr e ↦ rw e (ground (arith, contains-append set (a ∷ []) b))
  ]

  include-Distinct : (set : List Text) (a : Text) → Distinct set → Distinct (include V set a)
  unfolding contains
  include-Distinct set a h = elim (Bool-cases (contains set a)) [
    | inl e ↦ rw e h
    | inr e ↦ rw e (
        Distinct-append set (a ∷ []) h (refl, tt)
          (Disjoint-cons_right set [] a e (Disjoint-nil set)))
  ]

  include_all-contains :
      (set more : List Text) (b : Text)
      → contains (include_all V set more) b ≡ (contains set b || contains more b)
  unfolding contains
  include_all-contains set [] b = ground arith
  include_all-contains set (a ∷ more) b =
      ground (arith, include_all-contains (include V set a) more b, include-contains set a b)

  include_all-Distinct : (set more : List Text) → Distinct set → Distinct (include_all V set more)
  include_all-Distinct set [] h = h
  include_all-Distinct set (a ∷ more) h =
      include_all-Distinct (include V set a) more (include-Distinct set a h)

  endpoint_set-contains :
      (set : List Text) (ns : List Node) (b : Text)
      → contains (endpoint_set V set ns) b ≡ (contains set b || contains (all_addresses ns) b)
  unfolding endpoint_set contains all_addresses
  endpoint_set-contains set [] b = ground arith
  endpoint_set-contains set (n ∷ ns) b = ground (
    arith,
    endpoint_set-contains (include_all V set (addresses_of V n)) ns b,
    include_all-contains set (addresses_of V n) b,
    contains-append (addresses_of V n) (all_addresses ns) b,
  )

  endpoint_set-Distinct :
      (set : List Text) (ns : List Node) → Distinct set → Distinct (endpoint_set V set ns)
  unfolding endpoint_set
  endpoint_set-Distinct set [] h = h
  endpoint_set-Distinct set (n ∷ ns) h =
      endpoint_set-Distinct (include_all V set (addresses_of V n)) ns
        (include_all-Distinct set (addresses_of V n) h)

  -- ResolveEndpoints returns the addresses of the nodes as a set: ascending, each once, and an
  -- address is in it exactly if it is one of a node's.
  pub resolve_endpoints_set :
      (ns : List Node)
      → EachPair (λ a b. text_le a b ≡ true) (resolve_endpoints V ns)
        × Distinct (resolve_endpoints V ns)
        × ((a : Text) → contains (resolve_endpoints V ns) a ≡ contains (all_addresses ns) a)
  unfolding resolve_endpoints contains
  resolve_endpoints_set ns = (
    sort_by-sorted text_le text_le-total text_le_trans _,
    sort_by-Distinct_self text_le _ (endpoint_set-Distinct [] ns tt),
    λ a. sort_by-contains_self text_le _ a ∙ endpoint_set-contains [] ns a,
  )

  -- Response headers never take the interval below the minimum: if it was five minutes or more, it
  -- is so afterwards, whatever the server suggests.
  pub apply_header_metadata-interval :
      (r : FetchResponse) (item : Subscription)
      → leb_ℤ minimum_interval item.update_interval ≡ true
      → leb_ℤ minimum_interval (apply_header_metadata V r item).update_interval ≡ true
  unfolding apply_header_metadata
  apply_header_metadata-interval r item h =
      elim (Bool-cases (leb_ℤ minimum_interval r.suggested_interval)) [
        | inl e ↦ rw e e
        | inr e ↦ rw e h
      ]

-- After a failure an update waits between one and thirty minutes, whatever the interval is.
pub failure_delay-bounds :
    (n : ℕ) → (minute ≤ℤ failure_delay (pos n)) × (failure_delay (pos n) ≤ℤ pos 1800000000000)
unfolding failure_delay
failure_delay-bounds n = (ground arith, ground arith)
