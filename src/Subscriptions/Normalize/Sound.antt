-- ===== src/Subscriptions/Normalize/Sound.antt =====
-- What the search of subscriptions/normalize.go can return.
use target_lib.Base.{
  ◌≡◌, refl, ap, List, [], ◌∷◌, Option, none, some, ℕ, zero, suc, Text, ◌==◌, true, false, is_empty,
  ok, ok-injective, Option-cases, Bool-cases, inl, inr,
}
use target_lib.Subscriptions.Maps.{some-injective}
use target_lib.Subscriptions.Normalize.{
  Url, Urls, nested_url_keys, is_http_url, http_url, first_of, nested, decoded_match, plain_match,
  embedded, nested_in, normalize_trimmed, normalize, normalize_subscription_url, url_or_invalid,
  IsPrinted, printed,
}

url_or_invalid-eq-ok : (o : Option Text) {url : Text} → url_or_invalid o ≡ ok url → o ≡ some url
url_or_invalid-eq-ok none e = cc
url_or_invalid-eq-ok (some found) e = ap some (ok-injective e)

module _ (L : Urls) where
  abbrev Sound : Option Text → Type 0
  Sound o = (url : Text) → o ≡ some url → IsPrinted L url

  Sound-none : Sound none
  Sound-none url e = cc

  Sound-first_of : (a b : Option Text) → Sound a → Sound b → Sound (first_of a b)
  Sound-first_of none b h k = k
  Sound-first_of (some a) b h k = h

  Sound-parsed : (input : Text) (o : Option Url) → L.parse input ≡ o → Sound (http_url o)
  Sound-parsed input none p = Sound-none
  Sound-parsed input (some u) p = elim (Bool-cases (is_http_url u)) [
    | inl b ↦ rw b (λ url e. printed input u p b (some-injective e))
    | inr b ↦ rw b Sound-none
  ]

  module _ (again : Text → Option Text) (h : (s : Text) → Sound (again s)) where
    Sound-nested : (query : Text → Text) (keys : List Text) → Sound (nested L again query keys)
    unfolding nested
    Sound-nested query [] = Sound-none
    Sound-nested query (key ∷ keys) = elim (Bool-cases (is_empty (query key))) [
      | inl b ↦ rw (nested, b) (Sound-nested query keys)
      | inr b ↦ rw (nested, b) (Sound-first_of _ _ (h (query key)) (Sound-nested query keys))
    ]

    Sound-nested_in : (o : Option Url) → Sound (nested_in L again o)
    Sound-nested_in none = Sound-none
    Sound-nested_in (some u) = Sound-nested u.query nested_url_keys

    Sound-decoded_match : (match : Text) → Sound (decoded_match L again match)
    Sound-decoded_match [] = Sound-none
    Sound-decoded_match (c ∷ match) = elim (Option-cases (L.path_unescape (c ∷ match))) [
      | inl e ↦ rw (decoded_match, e) Sound-none
      | inr (decoded, e) ↦ rw (decoded_match, e) (h decoded)
    ]

    Sound-plain_match : (match : Text) → Sound (plain_match L match)
    Sound-plain_match [] = Sound-none
    Sound-plain_match (c ∷ match) = Sound-parsed _ _ refl

    Sound-later :
        (rounds : ℕ) (current : Text)
        → ((decoded : Text) → Sound (embedded L again rounds decoded))
        → Sound (elim (L.path_unescape current) [
          | none ↦ none
          | some decoded ↦ elim (decoded == current) [
            | true ↦ none
            | false ↦ embedded L again rounds decoded
          ]
        ])
    Sound-later rounds current k = elim (Option-cases (L.path_unescape current)) [
      | inl e ↦ rw e Sound-none
      | inr (decoded, e) ↦ elim (Bool-cases (decoded == current)) [
        | inl b ↦ rw (e, b) Sound-none
        | inr b ↦ rw (e, b) (k decoded)
      ]
    ]

    Sound-embedded : (rounds : ℕ) (current : Text) → Sound (embedded L again rounds current)
    unfolding embedded
    Sound-embedded zero current = Sound-none
    Sound-embedded (suc rounds) current =
        Sound-first_of _ _ (Sound-decoded_match (L.find_encoded current)) (
          Sound-first_of _ _ (Sound-plain_match (L.find_plain current))
            (Sound-later rounds current (Sound-embedded rounds)))

    Sound-normalize_trimmed : (input : Text) → Sound (normalize_trimmed L again input)
    unfolding normalize_trimmed
    Sound-normalize_trimmed [] = Sound-none
    Sound-normalize_trimmed (c ∷ s) =
        Sound-first_of _ _ (Sound-parsed _ _ refl)
          (Sound-first_of _ _ (Sound-nested_in (L.parse (c ∷ s))) (Sound-embedded 3 (c ∷ s)))

  Sound-normalize : (levels : ℕ) (input : Text) → Sound (normalize L levels input)
  unfolding normalize
  Sound-normalize zero input = Sound-none
  Sound-normalize (suc levels) input =
      Sound-normalize_trimmed (normalize L levels) (Sound-normalize levels) _

  -- What NormalizeSubscriptionURL returns without an error is how an HTTP or HTTPS URL with a host
  -- prints, one that net/url parsed from some text.
  pub normalize_subscription_url-IsPrinted :
      (input url : Text) → normalize_subscription_url L input ≡ ok url → IsPrinted L url
  unfolding normalize_subscription_url
  normalize_subscription_url-IsPrinted input url e =
      Sound-normalize 9 input url (url_or_invalid-eq-ok (normalize L 9 input) e)
