-- ===== src/Config/Domains.antt =====
-- validDomain of config/runtime_validation.go, and how a domain is put into its normal form.
use target_lib.Base.{
  ℕ, Bool, true, false, ◌&&◌, ◌||◌, List, [], ◌∷◌, Text, leb, ltb, nat_eq, len, split, to_lower,
  trim_suffix, trim_space, if◌then◌else◌,
}

-- label[0] == '-'.
starts_with_dash : Text → Bool
starts_with_dash [] = false
starts_with_dash (c ∷ s) = nat_eq c b'-'

-- label[len(label)-1] == '-'.
ends_with_dash : Text → Bool
ends_with_dash [] = false
ends_with_dash (c ∷ []) = nat_eq c b'-'
ends_with_dash (c ∷ d ∷ s) = ends_with_dash (d ∷ s)

is_domain_char : ℕ → Bool
is_domain_char c = (leb b'a' c && leb c b'z') || (leb b'0' c && leb c b'9') || nat_eq c b'-'

-- The loop over the characters of a label.
all_domain_chars : Text → Bool
unfolding is_domain_char
all_domain_chars [] = true
all_domain_chars (c ∷ s) = is_domain_char c && all_domain_chars s

valid_label : Text → Bool
unfolding starts_with_dash ends_with_dash all_domain_chars
valid_label l =
    if nat_eq (len l) 0 || ltb 63 (len l) || starts_with_dash l || ends_with_dash l
    then false
    else all_domain_chars l

-- The loop over the labels.
valid_labels : List Text → Bool
unfolding valid_label
valid_labels [] = true
valid_labels (l ∷ ls) = valid_label l && valid_labels ls

unfoldable pub valid_domain : Text → Bool
unfolding valid_labels
valid_domain d = if nat_eq (len d) 0 || ltb 253 (len d) then false else valid_labels (split b'.' d)

-- strings.ToLower(strings.TrimSuffix(strings.TrimSpace(raw), ".")).
unfoldable pub normalize_domain : Text → Text
normalize_domain raw = to_lower (trim_suffix (trim_space raw) b'.')
