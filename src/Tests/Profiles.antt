-- ===== src/Tests/Profiles.antt =====
-- Examples for profile/parser.go and profile/country.go.
use target_lib.Base.{
  ◌≡◌, refl, false, List, [], ◌∷◌, ◌++◌, some, Text, text, ◌==◌, ok, pos, arith, trim_space,
  to_lower, contains, cut_prefix, has_prefix,
}
use target_lib.Profile.{Node, NodePhase, Outbound, provider}
use target_lib.Profile.Country.{
  infer_country_code, country_aliases, contains_word, word_from, index, left_ok, right_ok,
  is_boundary, code_from_aliases, any_alias, contains_alias, has_non_ascii, country_code_from_flag,
}
use target_lib.Profile.Json.{
  obj, arr, str, number, nil, cons, Fields, end, field, get_field, value_from, value_to_string,
  to_int,
}
use target_lib.Profile.Parser.{
  Formats, Parsed, parse, parse_document, parse_outbounds, is_skipped, is_node_type, outbound_type,
  name_of, server_of, port_of, node_id, decoded_node, checked_node, lacks_endpoint,
  requires_server_endpoint, numbered_id, seen_count, count_up, decimal,
}
use target_lib.Profile.Parser.Sound.{IsUsable, parse-IsUsable}

-- "bus" has the letters of "us", but not the word.
within_word : contains_word (text "bus") (text "us") ≡ some false
unfolding contains_word word_from index has_prefix left_ok right_ok is_boundary text cut_prefix
within_word = refl

no_word : contains_word (text "a") [] ≡ some false
unfolding contains_word word_from index has_prefix left_ok right_ok is_boundary text cut_prefix
no_word = refl

flag_first : infer_country_code country_aliases (text "🇯🇵 us") ≡ text "JP"
unfolding infer_country_code country_code_from_flag text trim_space to_lower
flag_first = refl

abbrev two_countries : Text
unfolding text
two_countries = text "HK to US"

abbrev us_only : List (Text × List Text)
unfolding text
us_only = (text "US", text "us" ∷ []) ∷ []

abbrev hk_only : List (Text × List Text)
unfolding text
hk_only = (text "HK", text "hk" ∷ []) ∷ []

-- A name with two countries gets either, by the order in which the map is visited.
either_country :
    (infer_country_code (hk_only ++ us_only) two_countries ≡ text "HK")
    × (infer_country_code (us_only ++ hk_only) two_countries ≡ text "US")
unfolding infer_country_code country_code_from_flag text trim_space to_lower code_from_aliases
    any_alias contains_alias has_non_ascii index has_prefix contains_word word_from left_ok right_ok
    is_boundary cut_prefix
either_country = (refl, refl)

-- An outbound with ALPN, twice, and a selector.
abbrev trojan : Fields
unfolding text
trojan = field (text "type") (str (text "trojan")) (
    field (text "tag") (str (text "A")) (
      field (text "server") (str (text "a.example")) (
        field (text "server_port") (number (text "443"))
          (field (text "tls") (obj (field (text "alpn") (arr nil) end)) end))))

abbrev selector : Fields
unfolding text
selector = field (text "type") (str (text "selector")) end

abbrev document : Fields
unfolding text
document =
    field (text "outbounds") (arr (cons (obj trojan) (cons (obj selector) (cons (obj trojan) nil))))
      end

abbrev typed : Outbound
unfolding text
typed = record { type = text "trojan"; tag = text "A"; options = provider [] }

abbrev formats : Formats
unfolding text
formats = record {
  decode = λ raw. some (some document);
  marshal = λ m. text "{}";
  marshal_nodes = λ ns. text "nodes";
  sprint = λ v. [];
  parse_int = λ s. pos 443;
  scan_int = λ s. pos 0;
  lower = λ s. s;
  sha256_hex = λ s. text "0123456789abcdef0123";
  decode_outbound = λ json. ok typed;
  visited = λ n. country_aliases;
}

abbrev node_of : Text → Node
unfolding text
node_of id = record {
  id = id;
  subscription_id = [];
  name = text "A";
  type = text "trojan";
  country_code = [];
  server = text "a.example";
  port = pos 443;
  phase = NodePhase.ready;
  error = [];
  outbound_json = text "{}";
  outbound = some typed;
}

abbrev parsed : Parsed
unfolding text
parsed = record {
  profile = record {
    nodes = node_of (text "0123456789abcdef") ∷ node_of (text "0123456789abcdef-2") ∷ [];
  };
  nodes_hash = text "0123456789abcdef0123";
}

twice_parsed : parse formats (text "{}") ≡ ok parsed
unfolding parse parse_document parse_outbounds is_skipped is_node_type outbound_type name_of
    server_of port_of node_id decoded_node checked_node lacks_endpoint requires_server_endpoint
    numbered_id seen_count count_up decimal get_field value_from value_to_string to_int text ◌==◌
    trim_space contains infer_country_code country_code_from_flag to_lower code_from_aliases
    any_alias contains_alias has_non_ascii index has_prefix contains_word word_from left_ok right_ok
    is_boundary cut_prefix
twice_parsed = refl

parse-IsUsable_example : IsUsable formats parsed
unfolding text
parse-IsUsable_example = parse-IsUsable formats (λ t. omega arith) (text "{}") twice_parsed
