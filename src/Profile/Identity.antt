-- ===== src/Profile/Identity.antt =====
-- profile/identity.go: node identities scoped to a subscription.
-- encoding/json and crypto/sha256 are parameters.
use target_lib.Base.{
  ◌≡◌, refl, sym, ap, ◌∙◌, List, [], ◌∷◌, ◌++◌, map, true, false, Option, none, some, arith, Text,
  text, ◌==◌, All, All-map, contains, Distinct, EachPair, sort_by, by_key, text_le, text_le-total,
  text_le_trans, sort_by-All, sort_by-Distinct, sort_by-sorted, not-contains_of_Disjoint,
  All-to_map, All-of_map, Disjoint-cons_right, sort_by-of_sorted, Bool-cases, Option-cases, inl,
  inr, if◌then◌else◌,
}
use target_lib.Profile.{Node, Profile}

-- What WithSource calls: json.Unmarshal into a map of raw values, json.Marshal of one, and
-- hex.EncodeToString of sha256.Sum256.
pub record Digest : Type 0 where
  pub unmarshal : Text → Option (List (Text × Text))
  pub marshal : List (Text × Text) → Text
  pub sha256_hex : Text → Text

-- delete(value, key) on a decoded object.
unfoldable pub delete_key : Text → List (Text × Text) → List (Text × Text)
delete_key key [] = []
delete_key key ((k, v) ∷ m) =
    let rest = delete_key key m in if k == key then rest else (k, v) ∷ rest

module _ (D : Digest) (source : Text) where
  -- The new ID of a node; none where its JSON is not an object.
  unfoldable pub identity_of : Node → Option Text
  identity_of n = elim (D.unmarshal n.outbound_json) [
    | none ↦ none
    | some value ↦ some (D.sha256_hex (source ++ 0 ∷ D.marshal (delete_key (text "tag") value)))
  ]

  abbrev pub claimed_by : Text → Node → Node
  claimed_by id n = record n { id = id; subscription_id = source }

  -- The loop, with the IDs it has seen.
  unfoldable pub claim_nodes : List Text → List Node → List Node
  claim_nodes seen [] = []
  claim_nodes seen (n ∷ ns) = elim (identity_of n) [
    | none ↦ claim_nodes seen ns
    | some id ↦ elim (contains seen id) [
      | true ↦ claim_nodes seen ns
      | false ↦ claimed_by id n ∷ claim_nodes (id ∷ seen) ns
    ]
  ]

  unfoldable pub with_source : Profile → Profile
  with_source p = record { nodes = sort_by (by_key λ n. n.id) (claim_nodes [] p.nodes) }

  -- A node of this source that already has the ID its settings give it.
  abbrev pub IsClaimed : Node → Type 0
  IsClaimed n = (identity_of n ≡ some n.id) × (n.subscription_id ≡ source)

  -- The ID depends on the settings alone, not on the name or on an earlier ID.
  identity_of-claimed :
      (n : Node) (id : Text) → identity_of n ≡ some id → identity_of (claimed_by id n) ≡ some id
  unfolding identity_of
  identity_of-claimed n id e = e

  -- What the loop has claimed: claimed nodes with IDs that are new and distinct.
  record Claimed (seen : List Text) (ns : List Node) : Type 0 where
    claimed : All IsClaimed ns
    distinct : Distinct (map (λ n. n.id) ns)
    fresh : All (λ n. contains seen n.id ≡ false) ns

  Claimed-weaken :
      (seen : List Text) (id : Text) (ns : List Node) → Claimed (id ∷ seen) ns → Claimed seen ns
  unfolding contains
  Claimed-weaken seen id ns h = record {
    claimed = h.claimed;
    distinct = h.distinct;
    fresh = All-map _ _ ns (λ n k. ground arith) h.fresh;
  }

  Claimed-cons :
      (seen : List Text) (n : Node) (ns : List Node)
      → IsClaimed n
      → contains seen n.id ≡ false
      → Claimed (n.id ∷ seen) ns
      → Claimed seen (n ∷ ns)
  Claimed-cons seen n ns h k r = record {
    claimed = (h, r.claimed);
    distinct = (not-contains_of_Disjoint _ seen n.id (All-to_map _ _ ns r.fresh), r.distinct);
    fresh = (k, (Claimed-weaken seen n.id ns r).fresh);
  }

  claim_nodes-Claimed : (seen : List Text) (ns : List Node) → Claimed seen (claim_nodes seen ns)
  unfolding claim_nodes
  claim_nodes-Claimed seen [] = record { claimed = tt; distinct = tt; fresh = tt }
  claim_nodes-Claimed seen (n ∷ ns) = elim (Option-cases (identity_of n)) [
    | inl e ↦ rw (claim_nodes, e) (claim_nodes-Claimed seen ns)
    | inr (id, e) ↦ elim (Bool-cases (contains seen id)) [
      | inl b ↦ rw (claim_nodes, e, b) (claim_nodes-Claimed seen ns)
      | inr b ↦
          rw (claim_nodes, e, b)
            (Claimed-cons seen (claimed_by id n) _ (identity_of-claimed n id e, refl) b
              (claim_nodes-Claimed (id ∷ seen) ns))
    ]
  ]

  -- A profile of this source: each node has the ID of its settings, no ID repeats, the IDs ascend.
  pub record IsScoped (p : Profile) : Type 0 where
    pub claimed : All IsClaimed p.nodes
    pub distinct : Distinct (map (λ n. n.id) p.nodes)
    pub sorted : EachPair (λ a b. text_le a.id b.id ≡ true) p.nodes

  -- WithSource makes any profile one of the source: every node that is left has the ID that its
  -- settings and the source determine and names the source, no ID repeats, and the IDs ascend.
  pub with_source-IsScoped : (p : Profile) → IsScoped (with_source p)
  unfolding with_source
  with_source-IsScoped p = record {
    claimed = sort_by-All _ IsClaimed _ (claim_nodes-Claimed [] p.nodes).claimed;
    distinct = sort_by-Distinct _ (λ n. n.id) _ (claim_nodes-Claimed [] p.nodes).distinct;
    sorted =
        sort_by-sorted _ (λ a b. text_le-total a.id b.id) (λ a b c. text_le_trans a.id b.id c.id) _;
  }

  claimed_by_self : (n : Node) → n.subscription_id ≡ source → claimed_by n.id n ≡ n
  claimed_by_self n h = ap (λ s. record n { subscription_id = s }) (sym h)

  claim_nodes-of_claimed :
      (seen : List Text) (ns : List Node)
      → All IsClaimed ns
      → Distinct (map (λ n. n.id) ns)
      → All (λ n. contains seen n.id ≡ false) ns
      → claim_nodes seen ns ≡ ns
  unfolding claim_nodes
  claim_nodes-of_claimed seen [] h d f = refl
  claim_nodes-of_claimed seen (n ∷ ns) h d f =
      rw (claim_nodes, h.0.0, f.0)
        (ap (λ m. m ∷ claim_nodes (n.id ∷ seen) ns) (claimed_by_self n h.0.1)
          ∙ ap (λ ms. n ∷ ms) (claim_nodes-of_claimed (n.id ∷ seen) ns h.1 d.1 fresh))
    where
      fresh : All (λ m. contains (n.id ∷ seen) m.id ≡ false) ns
      fresh = All-of_map _ _ ns (Disjoint-cons_right _ seen n.id d.0 (All-to_map _ _ ns f.1))

  none_seen : (ns : List Node) → All (λ n. contains [] n.id ≡ false) ns
  unfolding contains
  none_seen [] = tt
  none_seen (n ∷ ns) = (refl, none_seen ns)

  with_source-of_IsScoped : (p : Profile) → IsScoped p → with_source p ≡ p
  unfolding with_source
  with_source-of_IsScoped p h =
      ap (λ ns. record { nodes = ns })
        (ap (sort_by _) (claim_nodes-of_claimed [] p.nodes h.claimed h.distinct (none_seen p.nodes))
          ∙ sort_by-of_sorted _ p.nodes h.sorted)

  -- Applying WithSource again, as loading and committing do, changes nothing.
  pub with_source_twice : (p : Profile) → with_source (with_source p) ≡ with_source p
  with_source_twice p = with_source-of_IsScoped (with_source p) (with_source-IsScoped p)
