-- ===== src/Profile/Parser/Ids.antt =====
-- The IDs that Parse of profile/parser.go gives do not repeat.
use target_lib.Base.{
  List, [], ◌∷◌, ◌++◌, map, ℕ, zero, suc, ◌+◌, ◌≤◌, Text, ◌==◌, eq_iff, false, All, All-map,
  All-to_map, contains, Distinct, not-contains_of_All, length, length-take, append-cancel,
  if◌then◌else◌, Result-cases, ◌≡◌, refl, sym, ap, ◌∙◌, subst, arith, Bool-cases, inl, inr,
}
use target_lib.Profile.{Node}
use target_lib.Profile.Json.{Items, nil, cons, fields_of, Fields}
use target_lib.Profile.Parser.{
  Formats, Seen, seen_count, count_up, numbered_id, node_id, base_id, node_at, normalized_node,
  decoded_node, checked_node, parse_outbounds, is_skipped, outbound_type, decimal, items_left,
}
use target_lib.Profile.Parser.Numbers.{decimal-injective}

-- What numbered_id appends.
abbrev suffix : ℕ → Text
suffix zero = []
suffix (suc n) = b'-' ∷ decimal (suc n + 1)

append-nil' : (s : Text) → s ++ [] ≡ s
append-nil' [] = refl
append-nil' (c ∷ s) = ap (λ t. c ∷ t) (append-nil' s)

numbered_id-suffix : (base : Text) (n : ℕ) → numbered_id base n ≡ base ++ suffix n
unfolding numbered_id
numbered_id-suffix base zero = sym (append-nil' base)
numbered_id-suffix base (suc n) = refl

suffix-injective : (m n : ℕ) → suffix m ≡ suffix n → m ≡ n
suffix-injective zero zero e = refl
suffix-injective zero (suc n) e = cc
suffix-injective (suc m) zero e = cc
suffix-injective (suc m) (suc n) e = omega (arith, decimal-injective (suc m + 1) (suc n + 1) (cc))

-- Base IDs of one length and their numbers can be told from the ID.
numbered_id-injective :
    (b c : Text) (m n : ℕ)
    → length b ≡ length c
    → numbered_id b m ≡ numbered_id c n
    → (b ≡ c) × (m ≡ n)
numbered_id-injective b c m n l e =
    let parts =
      append-cancel b c (suffix m) (suffix n) l
        (sym (numbered_id-suffix b m) ∙ e ∙ numbered_id-suffix c n) in
    (parts.0, suffix-injective m n parts.1)

seen_count-count_up :
    (b c : Text) (seen : Seen)
    → seen_count (count_up b seen) c
      ≡ (if b == c then suc (seen_count seen c) else seen_count seen c)
unfolding seen_count count_up
seen_count-count_up b c [] = ground arith
seen_count-count_up b c ((k, n) ∷ seen) =
    ground (arith, eq_iff k b, eq_iff k c, eq_iff b c, seen_count-count_up b c seen)

-- An ID that the loop can still give: its number is not below what was seen.
abbrev IsLater : Seen → Text → Type 0
IsLater seen id =
    (b : Text) × (n : ℕ) × (id ≡ numbered_id b n) × (length b ≡ 16) × (seen_count seen b ≤ n)

IsLater-before :
    (b : Text) (seen : Seen) (id : Text) → IsLater (count_up b seen) id → IsLater seen id
IsLater-before b seen id (c, n, e, l, h) =
    (c, n, e, l, ground (arith, seen_count-count_up b c seen))

IsLater-new :
    (b : Text) (seen : Seen) (id : Text)
    → length b ≡ 16
    → IsLater (count_up b seen) id
    → (id == numbered_id b (seen_count seen b)) ≡ false
IsLater-new b seen id k (c, n, e, l, h) =
    elim (Bool-cases (id == numbered_id b (seen_count seen b))) [
      | inr other ↦ other
      | inl same ↦
          let parts =
            numbered_id-injective c b n (seen_count seen b) (l ∙ sym k)
              (sym e ∙ (eq_iff _ _).0 same) in
          absurd (
            ground (
              arith,
              seen_count-count_up b c seen,
              eq_iff b c,
              parts.0,
              parts.1,
              ap (seen_count seen) parts.0,
            ))
    ]

abbrev AreGiven : Seen → List Node → Type 0
AreGiven seen ns = Distinct (map (λ n. n.id) ns) × All (λ n. IsLater seen n.id) ns

AreGiven-cons :
    (b : Text) (seen : Seen) (n : Node) (ns : List Node)
    → length b ≡ 16
    → n.id ≡ numbered_id b (seen_count seen b)
    → AreGiven (count_up b seen) ns
    → AreGiven seen (n ∷ ns)
AreGiven-cons b seen n ns l e h = (
  (
    subst (λ id. contains (map (λ m. m.id) ns) id ≡ false) (sym e)
        (not-contains_of_All _ _ (
          All-to_map _ _ ns (
            All-map _ (λ m. (m.id == numbered_id b (seen_count seen b)) ≡ false) ns
              (λ m k. IsLater-new b seen m.id l k) h.1))),
    h.0,
  ),
  (
    (b, seen_count seen b, e, l, omega arith),
    All-map _ _ ns (λ m k. IsLater-before b seen m.id k) h.1,
  ),
)

module _ (F : Formats) (hex : (t : Text) → 16 ≤ length (F.sha256_hex t)) where
  decoded_node-id : (n : Node) → (decoded_node F n).id ≡ n.id
  unfolding decoded_node checked_node
  decoded_node-id n = elim (Result-cases (F.decode_outbound n.outbound_json)) [
    | inl (o, e) ↦ rw (decoded_node, e) (ground arith)
    | inr (c, e) ↦ rw (decoded_node, e)
  ]

  node_id-length : (value : Text) → length (node_id F value) ≡ 16
  unfolding node_id
  node_id-length value = length-take 16 _ (hex _)

  node_at-id :
      (seen : Seen) (type : Text) (left : ℕ) (m : Fields)
      → (node_at F seen type left m).id
        ≡ numbered_id (base_id F type m) (seen_count seen (base_id F type m))
  node_at-id seen type left m = decoded_node-id (
      normalized_node F (numbered_id (base_id F type m) (seen_count seen (base_id F type m))) type
        left m)

  -- What the loop gives from what it has seen on.
  pub parse_outbounds-ids :
      (seen : Seen) (items : Items) → AreGiven seen (parse_outbounds F seen items)
  unfolding parse_outbounds
  parse_outbounds-ids seen nil = (tt, tt)
  parse_outbounds-ids seen (cons entry more) =
      elim (Bool-cases (is_skipped F (outbound_type F (fields_of entry)))) [
        | inl e ↦ rw (parse_outbounds, e) (parse_outbounds-ids seen more)
        | inr e ↦
            let b = base_id F (outbound_type F (fields_of entry)) (fields_of entry) in
            rw (parse_outbounds, e)
              (AreGiven-cons b seen
                (node_at F seen (outbound_type F (fields_of entry)) (items_left F more)
                  (fields_of entry))
                _ (node_id-length _) (node_at-id seen _ (items_left F more) (fields_of entry))
                (parse_outbounds-ids (count_up b seen) more))
      ]
