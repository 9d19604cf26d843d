-- ===== src/Tests/Tokens.antt =====
-- Examples for loadControlToken of manager/auth.go.
use target_lib.Base.{
  ◌≡◌, ◌↔◌, refl, ℕ, zero, suc, false, some, Text, text, [], ◌∷◌, ◌++◌, trim_space, len,
}
use target_lib.Manager.Token.{missing, file, Machinery, Loaded, load_control_token, load_stored}
use target_lib.Manager.Token.Kept.{
  Works, is_dangling, load_control_token_returns, load_control_token-kept,
}

-- The first call draws other bytes than the later ones.
abbrev token : ℕ → Text
unfolding text
token zero = text "0123456789012345678901234567890123456789012"
token (suc call) = text "abcdefghijabcdefghijabcdefghijabcdefghijabc"

token-len : (call : ℕ) → len (token call) ≡ 43
unfolding text len token
token-len zero = refl
token-len (suc call) = refl

token-trimmed : (call : ℕ) → trim_space (token call ++ 10 ∷ []) ≡ token call
unfolding text trim_space token
token-trimmed zero = refl
token-trimmed (suc call) = refl

abbrev machinery : Machinery
machinery = record {
  mkdir_fails = false;
  read_fails = false;
  rand_fails = false;
  open_fails = false;
  write_fails = false;
  encoded = token;
  partial = [];
  encoded-len = token-len;
  encoded-trimmed = token-trimmed;
}

works : Works machinery (text "/data")
unfolding text trim_space
works = record {
  trimmed = refl;
  path = refl;
  mkdir = refl;
  reads = refl;
  rand = refl;
  opens = refl;
}

load_control_token_returns_example :
    ((calls : ℕ) × (r : Loaded machinery) × (load_control_token machinery calls 0
          (text "/data")
          []
          missing
        ≡ some r))
    ↔ (is_dangling missing ≡ false)
load_control_token_returns_example =
    load_control_token_returns machinery (text "/data") works 0 missing

made :
    load_control_token machinery 0 0 (text "/data") [] missing
    ≡ some (file (token 0 ++ 10 ∷ []), some (token 0))
unfolding load_control_token load_stored text trim_space token
made = refl

load_control_token-kept_example :
    load_control_token machinery 5 1 (text "/data") [] (file (token 0 ++ 10 ∷ []))
    ≡ some (file (token 0 ++ 10 ∷ []), some (token 0))
load_control_token-kept_example =
    load_control_token-kept machinery (text "/data") works 0 0 missing _ (token 0) made 5 1
