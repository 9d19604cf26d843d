-- ===== src/Profile/Parser.antt =====
-- profile/parser.go: from the JSON of a provider to the nodes of a profile.
mod Numbers
pub mod Ids
pub mod Sound
unfoldable pub use Numbers.{decimal}
use target_lib.Base.{
  List, [], ◌∷◌, ◌++◌, Option, none, some, ℕ, zero, suc, ◌+◌, Text, text, ◌==◌, Bool, true, false,
  not, ◌&&◌, ◌||◌, is_empty, take, if◌then◌else◌, Result, ok, err, trim_space, to_lower, contains,
  ℤ, pos, ltb_ℤ, nat_eq,
}
use target_lib.Profile.{Node, NodePhase, Outbound, Profile}
use target_lib.Profile.Country.{infer_country_code}
use target_lib.Profile.Json.{
  Value, str, arr, obj, Items, nil, cons, Fields, get_field, set_field, delete_field, is_null,
  as_object, fields_of, items_of, value_from, value_to_string, to_int,
}

-- What Parse calls: decodeJSONNumber into a map (none for its errors, `some none` for null),
-- json.Marshal, fmt.Sprint, the values that ParseInt and Sscan leave, strings.ToLower, the digest in
-- hexadecimal, sing-box's decoder of outbounds, and the order in which a loop over countryAliases
-- visits them, for each node anew.
pub record Formats : Type 0 where
  pub decode : Text → Option (Option Fields)
  pub marshal : Fields → Text
  pub marshal_nodes : List Node → Text
  pub sprint : Value → Text
  pub parse_int : Text → ℤ
  pub scan_int : Text → ℤ
  pub lower : Text → Text
  pub sha256_hex : Text → Text
  pub decode_outbound : Text → Result Text Outbound
  pub visited : ℕ → List (Text × List Text)

-- Parsed.
pub record Parsed : Type 0 where
  pub profile : Profile
  pub nodes_hash : Text

abbrev pub node_types : List Text
unfolding text
node_types =
    text "socks"
    ∷ text "http"
    ∷ text "shadowsocks"
    ∷ text "vmess"
    ∷ text "trojan"
    ∷ text "naive"
    ∷ text "hysteria"
    ∷ text "tor"
    ∷ text "ssh"
    ∷ text "shadowtls"
    ∷ text "anytls"
    ∷ text "vless"
    ∷ text "tuic"
    ∷ text "hysteria2"
    ∷ []

unfoldable pub is_node_type : Text → Bool
is_node_type = contains node_types

unfoldable pub requires_server_endpoint : Text → Bool
requires_server_endpoint type = not (type == text "tor")

abbrev pub removed_fingerprints : List Text
unfolding text
removed_fingerprints =
    text "chrome_psk"
    ∷ text "chrome_psk_shuffle"
    ∷ text "chrome_padding_psk_shuffle"
    ∷ text "chrome_pq"
    ∷ text "chrome_pq_psk"
    ∷ []

unfoldable pub is_removed_chrome_fingerprint : Text → Bool
is_removed_chrome_fingerprint value = contains removed_fingerprints (to_lower (trim_space value))

-- The parts of sanitizeOutboundJSON.
unfoldable pub sanitize_network : Text → Fields → Fields
sanitize_network type m =
    if (type == text "trojan")
      && not (is_null (get_field (text "transport") m))
      && is_null (get_field (text "network") m)
    then set_field (text "network") (str (text "tcp")) m
    else m

abbrev pub drop_ech_fields : Fields → Fields
unfolding text
drop_ech_fields m =
    delete_field (text "dynamic_record_sizing_disabled")
      (delete_field (text "pq_signature_schemes_enabled") m)

abbrev pub with_ech : Value → Fields → Fields
unfolding text
with_ech (obj ech) tls = set_field (text "ech") (obj (drop_ech_fields ech)) tls
with_ech _ tls = tls

unfoldable pub sanitize_ech : Fields → Fields
sanitize_ech tls = with_ech (get_field (text "ech") tls) tls

abbrev pub is_removed : Value → Bool
is_removed (str s) = is_removed_chrome_fingerprint s
is_removed _ = is_removed_chrome_fingerprint []

abbrev pub replace_fingerprint : Fields → Fields
unfolding text
replace_fingerprint utls =
    if is_removed (get_field (text "fingerprint") utls)
    then set_field (text "fingerprint") (str (text "chrome")) utls
    else utls

abbrev pub with_utls : Value → Fields → Fields
unfolding text
with_utls (obj utls) tls = set_field (text "utls") (obj (replace_fingerprint utls)) tls
with_utls _ tls = tls

unfoldable pub sanitize_utls : Fields → Fields
sanitize_utls tls = with_utls (get_field (text "utls") tls) tls

abbrev pub with_tls : Value → Fields → Fields
unfolding text
with_tls (obj tls) m =
    set_field (text "tls") (obj (sanitize_utls (sanitize_ech (delete_field (text "alpn") tls)))) m
with_tls _ m = m

unfoldable pub sanitize_tls : Fields → Fields
sanitize_tls m = with_tls (get_field (text "tls") m) m

unfoldable pub sanitize_outbound_json : Text → Fields → Fields
sanitize_outbound_json type m = sanitize_tls (sanitize_network type m)

-- How often a base ID was seen.
abbrev pub Seen : Type 0
Seen = List (Text × ℕ)

unfoldable pub seen_count : Seen → Text → ℕ
seen_count [] id = 0
seen_count ((k, n) ∷ m) id = if k == id then n else seen_count m id

unfoldable pub count_up : Text → Seen → Seen
count_up id [] = (id, 1) ∷ []
count_up id ((k, n) ∷ m) = if k == id then (k, suc n) ∷ m else (k, n) ∷ count_up id m

-- The ID of a node whose base ID was seen so often.
unfoldable pub numbered_id : Text → ℕ → Text
numbered_id base zero = base
numbered_id base (suc n) = base ++ b'-' ∷ decimal (suc n + 1)

abbrev pub max_port : ℤ
max_port = pos 65535

module _ (F : Formats) where
  -- What the loop reads of an entry.
  unfoldable pub outbound_type : Fields → Text
  outbound_type m = trim_space (value_to_string F.sprint (value_from m (text "type" ∷ [])))

  unfoldable pub is_skipped : Text → Bool
  is_skipped type =
      is_empty type
      || (type == text "selector")
      || (type == text "urltest")
      || not (is_node_type type)

  abbrev pub tag_of : Fields → Text
  unfolding text
  tag_of m = trim_space (value_to_string F.sprint (value_from m (text "tag" ∷ [])))

  unfoldable pub name_of : Text → Fields → Text
  name_of type m = if is_empty (tag_of m) then type else tag_of m

  unfoldable pub server_of : Fields → Text
  server_of m = value_to_string F.sprint (value_from m (text "server" ∷ text "address" ∷ []))

  unfoldable pub port_of : Fields → ℤ
  port_of m = to_int F.parse_int F.scan_int (value_from m (text "server_port" ∷ text "port" ∷ []))

  -- nodeID: the first eight bytes of the digest, in hexadecimal.
  unfoldable pub node_id : Text → Text
  node_id value = take 16 (F.sha256_hex (F.lower value))

  abbrev pub base_id : Text → Fields → Text
  base_id type m = node_id (type ++ 0 ∷ name_of type m)

  -- Whether a server or port that the type needs is missing.
  unfoldable pub lacks_endpoint : Text → Text → ℤ → Bool
  lacks_endpoint type server port =
      requires_server_endpoint type
      && (is_empty server || ltb_ℤ port (pos 1) || ltb_ℤ max_port port)

  -- The node as far as it is known before its outbound is decoded.
  abbrev pub normalized_node : (id type : Text) → ℕ → Fields → Node
  normalized_node id type left m = record {
    id = id;
    subscription_id = [];
    name = name_of type m;
    type = type;
    country_code = infer_country_code (F.visited left) (name_of type m);
    server = server_of m;
    port = port_of m;
    phase = NodePhase.normalized;
    error = [];
    outbound_json = F.marshal (sanitize_outbound_json type m);
    outbound = none;
  }

  unfoldable pub checked_node : Node → Node
  checked_node n =
      if lacks_endpoint n.type n.server n.port
      then (record n { phase = NodePhase.failed; error = text "server or server_port is invalid" })
      else (record n { phase = NodePhase.ready })

  unfoldable pub decoded_node : Node → Node
  decoded_node n = elim (F.decode_outbound n.outbound_json) [
    | err cause ↦ record n { phase = NodePhase.failed; error = text "decode outbound: " ++ cause }
    | ok typed ↦ checked_node (record n { outbound = some typed })
  ]

  abbrev pub node_at : Seen → Text → ℕ → Fields → Node
  node_at seen type left m = decoded_node (
      normalized_node (numbered_id (base_id type m) (seen_count seen (base_id type m))) type left m)

  abbrev pub items_left : Items → ℕ
  items_left nil = 0
  items_left (cons _ more) = suc (items_left more)

  -- The loop over the outbounds.
  unfoldable pub parse_outbounds : Seen → Items → List Node
  parse_outbounds seen nil = []
  parse_outbounds seen (cons entry more) = elim (is_skipped (outbound_type (fields_of entry))) [
    | true ↦ parse_outbounds seen more
    | false ↦
        node_at seen (outbound_type (fields_of entry)) (items_left more) (fields_of entry)
        ∷ parse_outbounds
            (count_up (base_id (outbound_type (fields_of entry)) (fields_of entry)) seen) more
  ]

  abbrev pub nodes_parsed : List Node → Result Text Parsed
  unfolding text
  nodes_parsed [] = err (text "profile has no usable outbounds")
  nodes_parsed (n ∷ ns) = ok (record {
    profile = record { nodes = n ∷ ns };
    nodes_hash = F.sha256_hex (F.marshal_nodes (n ∷ ns));
  })

  -- Parse from the decoded document on.
  unfoldable pub parse_document : Option (Option Fields) → Result Text Parsed
  parse_document none = err (text "parse profile JSON")
  parse_document (some none) = err (text "parse profile JSON: not a JSON object")
  parse_document (some (some document)) =
      nodes_parsed (parse_outbounds [] (items_of (get_field (text "outbounds") document)))

  unfoldable pub parse : Text → Result Text Parsed
  parse raw =
      if is_empty (trim_space raw)
      then err (text "parse profile JSON: empty input")
      else parse_document (F.decode raw)
