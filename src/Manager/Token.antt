-- ===== src/Manager/Token.antt =====
-- loadControlToken of manager/auth.go: the token that clients of one manager share, in a file.
pub mod Kept
use target_lib.Base.{
  ◌≡◌, ℕ, zero, suc, Bool, true, false, Option, none, some, Text, text, [], ◌∷◌, ◌++◌, is_empty,
  trim_space, len, if◌then◌else◌,
}
use target_lib.Manager.Access.{validate_token}

-- What is at the path of the token: nothing, a link to nothing, or a file.
pub data Entry : Type 0 where
  missing dangling : Entry
  file : (content : Text) → Entry

-- What the operating system and crypto/rand do: which calls fail; the 32 random bytes of each call,
-- in base64, which has no white space; and what a failed write leaves in the file.
pub record Machinery : Type 0 where
  pub mkdir_fails : Bool
  pub read_fails : Bool
  pub rand_fails : Bool
  pub open_fails : Bool
  pub write_fails : Bool
  pub encoded : ℕ → Text
  pub partial : Text
  pub encoded-len : (call : ℕ) → len (encoded call) ≡ 43
  pub encoded-trimmed : (call : ℕ) → trim_space (encoded call ++ 10 ∷ []) ≡ encoded call

module _ (H : Machinery) where
  -- The file afterwards, and the token, none for an error.
  abbrev pub Loaded : Type 0
  Loaded = Entry × Option Text

  -- fmt.Fprintln
  abbrev pub written : ℕ → Bool → Loaded
  written call true = (file H.partial, none)
  written call false = (file (H.encoded call ++ 10 ∷ []), some (H.encoded call))

  -- os.OpenFile with O_CREATE and O_EXCL: `again` if it says that there is something.
  abbrev pub created : ℕ → Entry → Bool → Option Loaded → Option Loaded
  created call e true again = some (e, none)
  created call missing false again = some (written call H.write_fails)
  created call dangling false again = again
  created call (file content) false again = again

  -- What follows if there is nothing to read.
  abbrev pub generated : ℕ → Entry → Option Loaded → Option Loaded
  generated call e again =
      if H.rand_fails then some (e, none) else created call e H.open_fails again

  -- os.ReadFile, which follows a link.
  abbrev pub read : ℕ → Entry → Bool → Option Loaded → Option Loaded
  read call e true again = some (e, none)
  read call missing false again = generated call missing again
  read call dangling false again = generated call dangling again
  read call (file content) false again = some (file content, validate_token content)

  -- A call with no supplied token, none if it has not returned by the given number of calls of
  -- itself. The calls are counted, since each draws its own bytes.
  unfoldable pub load_stored : ℕ → (call : ℕ) → Text → Entry → Option Loaded
  load_stored zero call base_path e = none
  load_stored (suc calls) call base_path e =
      let again = load_stored calls (suc call) (trim_space base_path) e in
      if is_empty (trim_space base_path)
      then some (e, none)
      else if H.mkdir_fails
      then some (e, none)
      else read call e H.read_fails again

  unfoldable pub load_control_token :
      ℕ → (call : ℕ) (base_path supplied : Text) → Entry → Option Loaded
  load_control_token calls call base_path supplied e =
      if is_empty supplied
      then load_stored (suc calls) call base_path e
      else some (e, validate_token supplied)
