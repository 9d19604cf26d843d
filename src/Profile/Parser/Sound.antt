-- ===== src/Profile/Parser/Sound.antt =====
-- What Parse of profile/parser.go returns.
use target_lib.Base.{
  ℤ, trim_space, List, [], ◌∷◌, map, ℕ, ◌≤◌, Text, text, ◌==◌, eq_iff, eq_refl, true, false, All,
  Distinct, length, ok, some, none, is_empty, Result-cases, ◌≡◌, refl, sym, ◌∙◌, subst, arith,
  Bool-cases, inl, inr, ◌⊎◌, ◌≤ℤ◌, pos, ok-injective, if_err-eq-ok, Option,
}
use target_lib.Profile.{Node, NodePhase, Outbound}
use target_lib.Profile.Json.{
  Value, null, bool, number, str, arr, obj, Items, nil, cons, Fields, fields_of, items_of,
  get_field, delete_field, get_field-delete_field, get_field-set_field,
}
use target_lib.Profile.Parser.{
  Formats, Parsed, Seen, is_node_type, requires_server_endpoint, max_port, decoded_node,
  checked_node, lacks_endpoint, normalized_node, node_at, numbered_id, base_id, name_of, seen_count,
  count_up, tag_of, parse_outbounds, is_skipped, outbound_type, items_left, parse, parse_document,
  nodes_parsed, sanitize_outbound_json, sanitize_tls, sanitize_ech, sanitize_utls, with_tls,
  with_utls, with_ech,
}
use target_lib.Profile.Parser.Ids.{parse_outbounds-ids}

-- The setting "alpn" in the settings "tls" of an outbound.
abbrev pub alpn_of : Fields → Value
unfolding text
alpn_of m = get_field (text "alpn") (fields_of (get_field (text "tls") m))

get_field-with_ech :
    (v : Value) (tls : Fields)
    → get_field (text "alpn") (with_ech v tls) ≡ get_field (text "alpn") tls
unfolding text ◌==◌
get_field-with_ech (obj ech) tls = get_field-set_field (text "ech") (text "alpn") _ tls
get_field-with_ech null tls = refl
get_field-with_ech (bool b) tls = refl
get_field-with_ech (number n) tls = refl
get_field-with_ech (str s) tls = refl
get_field-with_ech (arr xs) tls = refl

get_field-with_utls :
    (v : Value) (tls : Fields)
    → get_field (text "alpn") (with_utls v tls) ≡ get_field (text "alpn") tls
unfolding text ◌==◌
get_field-with_utls (obj utls) tls = get_field-set_field (text "utls") (text "alpn") _ tls
get_field-with_utls null tls = refl
get_field-with_utls (bool b) tls = refl
get_field-with_utls (number n) tls = refl
get_field-with_utls (str s) tls = refl
get_field-with_utls (arr xs) tls = refl

alpn_of-with_tls :
    (v : Value) (m : Fields) → get_field (text "tls") m ≡ v → alpn_of (with_tls v m) ≡ null
unfolding text get_field sanitize_utls sanitize_ech
alpn_of-with_tls (obj tls) m e =
    let kept =
      get_field-with_utls _ (sanitize_ech (delete_field (text "alpn") tls))
      ∙ get_field-with_ech _ (delete_field (text "alpn") tls)
      ∙ get_field-delete_field (text "alpn") tls in
    rw (get_field-set_field (text "tls") (text "tls"), eq_refl (text "tls")) kept
alpn_of-with_tls null m e = rw e
alpn_of-with_tls (bool b) m e = rw e
alpn_of-with_tls (number n) m e = rw e
alpn_of-with_tls (str s) m e = rw e
alpn_of-with_tls (arr xs) m e = rw e

alpn_of-sanitize : (type : Text) (m : Fields) → alpn_of (sanitize_outbound_json type m) ≡ null
unfolding sanitize_outbound_json sanitize_tls text
alpn_of-sanitize type m = alpn_of-with_tls _ _ refl

module _ (F : Formats) where
  -- A node that can be used: its outbound is what its JSON decodes to, and a server and a port are
  -- there unless its type needs none.
  pub IsReady : Node → Type 0
  IsReady n =
      (n.phase ≡ NodePhase.ready)
      × (n.error ≡ [])
      × (o : Outbound) × (F.decode_outbound n.outbound_json ≡ ok o)
      × (n.outbound ≡ some o)
      × ((n.type ≡ text "tor")
          ⊎ ((is_empty n.server ≡ false) × (pos 1 ≤ℤ n.port) × (n.port ≤ℤ max_port)))

  -- A node that cannot be used, with the reason.
  pub IsFailed : Node → Type 0
  IsFailed n = (n.phase ≡ NodePhase.failed) × (is_empty n.error ≡ false)

  pub record IsParsed (n : Node) : Type 0 where
    pub known : is_node_type n.type ≡ true
    pub named : is_empty n.name ≡ false
    pub sanitized : (m : Fields) × (n.outbound_json ≡ F.marshal m) × (alpn_of m ≡ null)
    pub settled : IsReady n ⊎ IsFailed n

  endpoint-given :
      (type server : Text) (port : ℤ)
      → lacks_endpoint F type server port ≡ false
      → (type ≡ text "tor") ⊎ ((is_empty server ≡ false) × (pos 1 ≤ℤ port) × (port ≤ℤ max_port))
  unfolding lacks_endpoint requires_server_endpoint
  endpoint-given type server port h = elim (Bool-cases (type == text "tor")) [
    | inl e ↦ inl ((eq_iff _ _).0 e)
    | inr e ↦ inr (ground arith, ground arith, ground arith)
  ]

  checked-settled :
      (n : Node) (o : Outbound)
      → F.decode_outbound n.outbound_json ≡ ok o
      → n.error ≡ []
      → n.outbound ≡ some o
      → IsReady (checked_node F n) ⊎ IsFailed (checked_node F n)
  unfolding checked_node IsReady IsFailed text
  checked-settled n o d e s = elim (Bool-cases (lacks_endpoint F n.type n.server n.port)) [
    | inl lacks ↦ rw (checked_node, lacks) (inr (refl, refl))
    | inr has ↦ rw (checked_node, has) (inl (refl, e, o, d, s, endpoint-given _ _ _ has))
  ]

  decoded-settled :
      (n : Node) → n.error ≡ [] → IsReady (decoded_node F n) ⊎ IsFailed (decoded_node F n)
  unfolding IsReady IsFailed text decoded_node
  decoded-settled n e = elim (Result-cases (F.decode_outbound n.outbound_json)) [
    | inl (o, d) ↦
        rw (decoded_node, d) (checked-settled (record n { outbound = some o }) o d e refl)
    | inr (c, d) ↦ rw (decoded_node, d) (inr (refl, refl))
  ]

  -- What a step of building a node keeps.
  decoded-kept :
      (n : Node)
      → ((decoded_node F n).type ≡ n.type)
        × ((decoded_node F n).name ≡ n.name)
        × ((decoded_node F n).outbound_json ≡ n.outbound_json)
  unfolding decoded_node checked_node
  decoded-kept n = elim (Result-cases (F.decode_outbound n.outbound_json)) [
    | inl (o, d) ↦ rw (decoded_node, d) (ground arith, ground arith, ground arith)
    | inr (c, d) ↦ rw (decoded_node, d) (refl, refl, refl)
  ]

  name_of-nonempty :
      (type : Text) (m : Fields) → is_empty type ≡ false → is_empty (name_of F type m) ≡ false
  unfolding name_of
  name_of-nonempty type m h = elim (Bool-cases (is_empty (tag_of F m))) [
    | inl e ↦ rw (name_of, e) h
    | inr e ↦ rw (name_of, e) e
  ]

  not_skipped :
      (type : Text)
      → is_skipped F type ≡ false
      → (is_empty type ≡ false) × (is_node_type type ≡ true)
  unfolding is_skipped
  not_skipped type h = (ground arith, ground arith)

  node_at-IsParsed :
      (seen : Seen) (type : Text) (left : ℕ) (m : Fields)
      → is_skipped F type ≡ false
      → IsParsed (node_at F seen type left m)
  node_at-IsParsed seen type left m h =
      let n =
        normalized_node F (numbered_id (base_id F type m) (seen_count seen (base_id F type m))) type
          left m in
      let kept = decoded-kept n in
      record {
        known = subst (λ t. is_node_type t ≡ true) (sym kept.0) (not_skipped type h).1;
        named =
            subst (λ t. is_empty t ≡ false) (sym kept.1)
              (name_of-nonempty type m (not_skipped type h).0);
        sanitized = (sanitize_outbound_json type m, kept.2, alpn_of-sanitize type m);
        settled = decoded-settled n refl;
      }

  parse_outbounds-IsParsed :
      (seen : Seen) (items : Items) → All IsParsed (parse_outbounds F seen items)
  unfolding parse_outbounds
  parse_outbounds-IsParsed seen nil = tt
  parse_outbounds-IsParsed seen (cons entry more) =
      elim (Bool-cases (is_skipped F (outbound_type F (fields_of entry)))) [
        | inl e ↦ rw (parse_outbounds, e) (parse_outbounds-IsParsed seen more)
        | inr e ↦
            rw (parse_outbounds, e)
              (
                node_at-IsParsed seen _ (items_left F more) (fields_of entry) e,
                parse_outbounds-IsParsed
                    (count_up (base_id F (outbound_type F (fields_of entry)) (fields_of entry))
                      seen)
                    more,
              )
      ]

  -- What a profile has that Parse returns.
  pub record IsUsable (p : Parsed) : Type 0 where
    pub nonempty : is_empty p.profile.nodes ≡ false
    pub distinct : Distinct (map (λ n. n.id) p.profile.nodes)
    pub parsed : All IsParsed p.profile.nodes
    pub hashed : p.nodes_hash ≡ F.sha256_hex (F.marshal_nodes p.profile.nodes)

  nodes_parsed-IsUsable :
      (ns : List Node) {p : Parsed}
      → Distinct (map (λ n. n.id) ns)
      → All IsParsed ns
      → nodes_parsed F ns ≡ ok p
      → IsUsable p
  unfolding text
  nodes_parsed-IsUsable [] d a e = cc
  nodes_parsed-IsUsable (n ∷ ns) d a e =
      subst IsUsable (ok-injective e)
        (record { nonempty = refl; distinct = d; parsed = a; hashed = refl })

  document-IsUsable :
      (hex : (t : Text) → 16 ≤ length (F.sha256_hex t)) (document : Option (Option Fields))
      {p : Parsed}
      → parse_document F document ≡ ok p
      → IsUsable p
  unfolding parse_document text
  document-IsUsable hex none e = cc
  document-IsUsable hex (some none) e = cc
  document-IsUsable hex (some (some m)) e =
      let items = items_of (get_field (text "outbounds") m) in
      nodes_parsed-IsUsable (parse_outbounds F [] items) (parse_outbounds-ids F hex [] items).0
        (parse_outbounds-IsParsed [] items) e

  -- If the digest has at least sixteen digits, a profile that Parse returns has nodes, and no two
  -- with one ID. Each has a name, a type that TargetLib knows and settings without ALPN; and it is
  -- ready, with the outbound that its settings decode to and with a server and a port from 1 to
  -- 65535 unless its type is "tor", or it is failed and says why.
  pub parse-IsUsable :
      (hex : (t : Text) → 16 ≤ length (F.sha256_hex t)) (raw : Text) {p : Parsed}
      → parse F raw ≡ ok p
      → IsUsable p
  unfolding parse
  parse-IsUsable hex raw e =
      document-IsUsable hex (F.decode raw) (if_err-eq-ok (is_empty (trim_space raw)) _ _ e).1
