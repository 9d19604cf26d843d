-- ===== src/Subscriptions/Normalize.antt =====
-- subscriptions/normalize.go: the subscription URL in what a user pasted. net/url and the regular
-- expressions are parameters; the recursion is bounded by the source's own depth limit.
pub mod Sound
use target_lib.Base.{
  ◌≡◌, refl, List, [], ◌∷◌, Option, none, some, ℕ, zero, suc, Text, text, ◌==◌, Bool, true, false,
  not, ◌&&◌, ◌||◌, is_empty, trim_space, Result, ok, err, refuse_if, ◌>>◌, if◌then◌else◌,
  Option-cases, Bool-cases, inl, inr, arith, is_some, ◌⊎◌, ap, sym, ◌∙◌,
}
use target_lib.Subscriptions.Model.{Error, invalid_url, https_required}

-- url.URL, as far as it is looked at, with what String prints and the values that Query holds.
pub record Url : Type 0 where
  pub scheme : Text
  pub host : Text
  pub printed : Text
  pub query : Text → Text

-- url.Parse, url.ParseRequestURI and url.PathUnescape, the FindString of the two patterns and the
-- ReplaceAllString of the two others. An empty match is Go's for no match.
pub record Urls : Type 0 where
  pub parse : Text → Option Url
  pub parse_request_uri : Text → Option Url
  pub path_unescape : Text → Option Text
  pub find_encoded : Text → Text
  pub find_plain : Text → Text
  pub strip_punctuation : Text → Text
  pub strip_decorations : Text → Text

abbrev pub nested_url_keys : List Text
unfolding text
nested_url_keys =
    text "url"
    ∷ text "uri"
    ∷ text "link"
    ∷ text "subscription"
    ∷ text "sub"
    ∷ text "subscribe"
    ∷ text "remote-resource"
    ∷ text "config"
    ∷ text "target"
    ∷ text "u"
    ∷ []

-- isHTTPURL.
unfoldable pub is_http_url : Url → Bool
is_http_url u = (u.scheme == text "http" || u.scheme == text "https") && not (is_empty u.host)

-- What a URL that parsed and is one prints as.
abbrev pub http_url : Option Url → Option Text
http_url none = none
http_url (some u) = if is_http_url u then some u.printed else none

abbrev pub first_of {ℓ} : {A : Type ℓ} → Option A → Option A → Option A
first_of (some a) b = some a
first_of none b = b

abbrev pub url_or_invalid : Option Text → Result Error Text
url_or_invalid none = err invalid_url
url_or_invalid (some url) = ok url

module _ (L : Urls) where
  -- The loop over the query keys; an empty value is passed over.
  unfoldable pub nested : (Text → Option Text) → (Text → Text) → List Text → Option Text
  nested again query [] = none
  nested again query (key ∷ keys) = elim (is_empty (query key)) [
    | true ↦ nested again query keys
    | false ↦ first_of (again (query key)) (nested again query keys)
  ]

  -- A round of extractEmbeddedURL: an encoded URL, else a plain one.
  abbrev pub decoded_match : (Text → Option Text) → Text → Option Text
  decoded_match again [] = none
  decoded_match again (c ∷ match) = elim (L.path_unescape (c ∷ match)) [
    | none ↦ none
    | some decoded ↦ again decoded
  ]

  abbrev pub plain_match : Text → Option Text
  plain_match [] = none
  plain_match (c ∷ match) = http_url (L.parse (L.strip_punctuation (c ∷ match)))

  unfoldable pub embedded : (Text → Option Text) → ℕ → Text → Option Text
  embedded again zero current = none
  embedded again (suc rounds) current = first_of (decoded_match again (L.find_encoded current)) (
      first_of (plain_match (L.find_plain current)) (elim (L.path_unescape current) [
        | none ↦ none
        | some decoded ↦ elim (decoded == current) [
          | true ↦ none
          | false ↦ embedded again rounds decoded
        ]
      ]))

  abbrev pub nested_in : (Text → Option Text) → Option Url → Option Text
  nested_in again none = none
  nested_in again (some u) = nested again u.query nested_url_keys

  -- The tests of one level on what is left after trimming; `again` is the next level.
  unfoldable pub normalize_trimmed : (Text → Option Text) → Text → Option Text
  normalize_trimmed again [] = none
  normalize_trimmed again (c ∷ s) =
      first_of (http_url (L.parse (c ∷ s)))
        (first_of (nested_in again (L.parse (c ∷ s))) (embedded again 3 (c ∷ s)))

  -- normalizeSubscriptionURL, with the levels that are left: none is beyond the limit.
  unfoldable pub normalize : ℕ → Text → Option Text
  normalize zero input = none
  normalize (suc levels) input =
      normalize_trimmed (normalize levels) (L.strip_decorations (trim_space input))

  -- maxNormalizeDepth is 8: depths 0 to 8 are tried.
  unfoldable pub normalize_subscription_url : Text → Result Error Text
  normalize_subscription_url input = url_or_invalid (normalize 9 input)

  -- validateURL of subscriptions/manager.go.
  unfoldable pub validate_url : Text → Result Error (Unit {0})
  validate_url raw = elim (L.parse_request_uri raw) [
    | none ↦ err invalid_url
    | some u ↦
        refuse_if (is_empty u.host) invalid_url
        >> refuse_if (not (u.scheme == text "https")) https_required
  ]

  -- A text that some HTTP URL with a host prints as.
  pub data IsPrinted (url : Text) : Type 0 where
    printed :
        (input : Text) (u : Url)
        → L.parse input ≡ some u
        → is_http_url u ≡ true
        → u.printed ≡ url
        → IsPrinted url
