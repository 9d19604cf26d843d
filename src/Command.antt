-- ===== src/Command.antt =====
-- The command line of cmd/TargetLib/main.go, with the part of package flag that it uses.
pub mod Installed
use target_lib.Base.{
  ◌≡◌, ℕ, ℤ, pos, negsuc, ◌<◌, Bool, true, false, ◌||◌, List, [], ◌∷◌, Option, none, some, Text,
  text, ◌==◌, nat_eq, is_empty, contains, Result, ok, err, ◌>>=◌, refuse_if, ◌>>◌, if◌then◌else◌,
}

pub record CommandOptions : Type 0 where
  pub base_path : Text
  pub working_path : Text
  pub temp_path : Text
  pub locale : Text
  pub log_max_lines : ℤ
  pub debug : Bool

pub data CommandError : Type 0 where
  bad_syntax unknown_flag needs_argument bad_value unknown_command no_directory : CommandError

-- What an int of 64 bits holds.
abbrev pub IsInt : ℤ → Type 0
IsInt (pos n) = n < 9223372036854775808
IsInt (negsuc n) = n < 9223372036854775808

-- strconv as flag and serviceArguments use it, filepath.Abs, and the actions of package service.
pub record Library : Type 0 where
  pub parse_int : Text → Option ℤ
  pub parse_bool : Text → Option Bool
  pub itoa : ℤ → Text
  pub parse_int-itoa : (n : ℤ) → IsInt n → parse_int (itoa n) ≡ some n
  pub abs : Text → Option Text
  pub control_actions : List Text

-- What FlagSet.parseOne sees in an argument.
pub data Argument : Type 0 where
  positional terminator malformed : Argument
  named : (name : Text) (value : Option Text) → Argument

abbrev pub with_char : ℕ → Text × Option Text → Text × Option Text
with_char c (name, value) = (c ∷ name, value)

unfoldable pub cut_equals : Text → Text × Option Text
cut_equals [] = ([], none)
cut_equals (c ∷ s) =
    let rest = cut_equals s in if nat_eq c b'=' then ([], some s) else with_char c rest

abbrev pub named_by : Text × Option Text → Argument
named_by (name, value) = named name value

unfoldable pub behind_dashes : Text → Argument
behind_dashes [] = malformed
behind_dashes (c ∷ name) =
    if nat_eq c b'-' || nat_eq c b'=' then malformed else named_by (cut_equals (c ∷ name))

abbrev pub behind_two : Text → Argument
behind_two [] = terminator
behind_two (c ∷ name) = behind_dashes (c ∷ name)

unfoldable pub classify : Text → Argument
classify [] = positional
classify (c ∷ []) = positional
classify (c ∷ d ∷ more) =
    if nat_eq c b'-'
    then (if nat_eq d b'-' then behind_two more else behind_dashes (d ∷ more))
    else positional

-- The flags that parseCommandLine declares. -h and -help, which print the usage, are unknown here.
pub data Flag : Type 0 where
  base_path working_path temp_path locale log_max_lines debug : Flag

unfoldable pub flag_of : Text → Result CommandError Flag
flag_of name =
    if name == text "base-path"
    then ok base_path
    else if name == text "working-path"
    then ok working_path
    else if name == text "temp-path"
    then ok temp_path
    else if name == text "locale"
    then ok locale
    else if name == text "log-max-lines"
    then ok log_max_lines
    else if name == text "debug"
    then ok debug
    else err unknown_flag

abbrev pub default_options : CommandOptions
default_options = record {
  base_path = b'.' ∷ [];
  working_path = [];
  temp_path = [];
  locale = [];
  log_max_lines = pos 300;
  debug = false;
}

abbrev pub Parsed : Type 0
Parsed = Result CommandError (CommandOptions × List Text)

module _ (L : Library) where
  abbrev pub or_bad {ℓ κ} : {A : Type ℓ} {B : Type κ} → (A → B) → Option A → Result CommandError B
  or_bad set none = err bad_value
  or_bad set (some a) = ok (set a)

  unfoldable pub set_flag : Flag → Text → CommandOptions → Result CommandError CommandOptions
  set_flag base_path v o = ok (record o { base_path = v })
  set_flag working_path v o = ok (record o { working_path = v })
  set_flag temp_path v o = ok (record o { temp_path = v })
  set_flag locale v o = ok (record o { locale = v })
  set_flag log_max_lines v o = or_bad (λ n. record o { log_max_lines = n }) (L.parse_int v)
  set_flag debug v o = or_bad (λ b. record o { debug = b }) (L.parse_bool v)

  -- A flag without a value in its argument: only a Boolean one needs none.
  abbrev pub alone : Flag → CommandOptions → (CommandOptions → Parsed) → (Flag → Parsed) → Parsed
  alone debug o go_on take_next = go_on (record o { debug = true })
  alone base_path o go_on take_next = take_next base_path
  alone working_path o go_on take_next = take_next working_path
  alone temp_path o go_on take_next = take_next temp_path
  alone locale o go_on take_next = take_next locale
  alone log_max_lines o go_on take_next = take_next log_max_lines

  -- FlagSet.Parse: the options, and the arguments that are none. A flag may wait for its value.
  unfoldable pub parse_flags : Option Flag → List Text → CommandOptions → Parsed
  parse_flags none [] o = ok (o, [])
  parse_flags (some f) [] o = err needs_argument
  parse_flags (some f) (v ∷ more) o = set_flag f v o >>= λ p. parse_flags none more p
  parse_flags none (s ∷ more) o = elim (classify s) [
    | positional ↦ ok (o, s ∷ more)
    | terminator ↦ ok (o, more)
    | malformed ↦ err bad_syntax
    | named name none ↦ flag_of name >>= λ f.
        alone f o (λ p. parse_flags none more p) (λ g. parse_flags (some g) more o)
    | named name (some v) ↦ flag_of name >>= λ f. set_flag f v o >>= λ p. parse_flags none more p
  ]

  abbrev pub not_empty {ℓ} : {A : Type ℓ} → List A → Bool
  not_empty [] = false
  not_empty (x ∷ xs) = true

  abbrev pub absolute : CommandOptions → Option Text → Result CommandError CommandOptions
  absolute o none = err no_directory
  absolute o (some path) = ok (record o { base_path = path })

  -- From flags.Parse on.
  abbrev pub parse_options : List Text → Result CommandError CommandOptions
  parse_options arguments = parse_flags none arguments default_options >>= λ r.
      refuse_if (not_empty r.1) unknown_command >> absolute r.0 (L.abs r.0.base_path)

  unfoldable pub is_service_action : Text → Bool
  is_service_action value = contains L.control_actions value || value == text "status"

  abbrev pub with_action :
      Text → Result CommandError CommandOptions → Result CommandError (Text × CommandOptions)
  with_action action (err e) = err e
  with_action action (ok o) = ok (action, o)

  unfoldable pub parse_command_line : List Text → Result CommandError (Text × CommandOptions)
  parse_command_line [] = with_action [] (parse_options [])
  parse_command_line (a ∷ more) =
      if is_service_action a
      then with_action a (parse_options more)
      else with_action [] (parse_options (a ∷ more))

  -- serviceArguments, with which the service is installed.
  abbrev pub given : Text → Text → List Text → List Text
  given name [] more = more
  given name (c ∷ value) more = name ∷ (c ∷ value) ∷ more

  abbrev pub debug_argument : Bool → List Text
  debug_argument true = text "--debug" ∷ []
  debug_argument false = []

  unfoldable pub service_arguments : CommandOptions → List Text
  service_arguments o =
      text "--base-path"
      ∷ o.base_path
      ∷ text "--log-max-lines"
      ∷ L.itoa o.log_max_lines
      ∷ given (text "--working-path") o.working_path (
          given (text "--temp-path") o.temp_path
            (given (text "--locale") o.locale (debug_argument o.debug)))
