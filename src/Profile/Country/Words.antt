-- ===== src/Profile/Country/Words.antt =====
-- What containsWord of profile/country.go finds.
use target_lib.Base.{
  has_prefix, [], ◌∷◌, ◌++◌, Option, none, some, ℕ, ◌+◌, ◌<◌, ◌≤◌, Text, Bool, true, false, ◌&&◌,
  length, drop, ◌≡◌,
}
use target_lib.Profile.Country.{get_elem?, is_boundary, left_ok, right_ok}

-- The word begins at a place and neither neighbour is a letter.
abbrev is_word_at : Text → Text → ℕ → Bool
is_word_at text word i =
    has_prefix (drop i text) word && left_ok text i && right_ok text (i + length word)

-- What strings.Index answers: no place at which the word begins, or the first one.
abbrev IsIndex : Text → Text → Option ℕ → Type 0
IsIndex s word none = (i : ℕ) → has_prefix (drop i s) word ≡ false
IsIndex s word (some k) =
    (has_prefix (drop k s) word ≡ true) × ((j : ℕ) → j < k → has_prefix (drop j s) word ≡ false)

-- What the loop answers from an offset on, if it answers.
abbrev Answers : Text → Text → ℕ → Bool → Type 0
Answers text word offset true = (i : ℕ) × (is_word_at text word i ≡ true)
Answers text word offset false = (i : ℕ) → offset ≤ i → is_word_at text word i ≡ false

abbrev last? : Text → Option ℕ
last? [] = none
last? (c ∷ []) = some c
last? (c ∷ d ∷ s) = last? (d ∷ s)

-- The word stands in the text, and neither the code point before it nor the one behind it is a
-- letter from a to z.
pub Occurs : Text → Text → Type 0
Occurs text word =
    (before behind : Text) × (text ≡ before ++ (word ++ behind))
    × (is_boundary (last? before) ≡ true)
    × (is_boundary (get_elem? behind 0) ≡ true)

-- A word without letters is found at each place in the text, so only the neighbours count.
abbrev AnswersEmpty : Text → ℕ → Bool → Type 0
AnswersEmpty text offset true = (i : ℕ) × (i ≤ length text) × (is_word_at text [] i ≡ true)
AnswersEmpty text offset false =
    (i : ℕ) → offset ≤ i → i ≤ length text → is_word_at text [] i ≡ false
