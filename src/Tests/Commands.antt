-- ===== src/Tests/Commands.antt =====
-- Examples for the command line of cmd/TargetLib/main.go.
use target_lib.Base.{
  ◌≡◌, refl, ℤ, pos, negsuc, true, false, [], ◌∷◌, Option, none, some, Text, text, ◌==◌, ok, err,
  arith, contains,
}
use target_lib.Command.{
  CommandOptions, Library, IsInt, needs_argument, parse_command_line, service_arguments,
  is_service_action, parse_flags, classify, behind_dashes, cut_equals, flag_of,
}
use target_lib.Command.Installed.{parse_command_line-service_arguments}

-- Numbers as one character, or two if they are negative.
abbrev parse_int : Text → Option ℤ
parse_int [] = none
parse_int (n ∷ []) = some (pos n)
parse_int (sign ∷ n ∷ more) = some (negsuc n)

abbrev itoa : ℤ → Text
itoa (pos n) = n ∷ []
itoa (negsuc n) = 45 ∷ n ∷ []

parse_int-itoa : (n : ℤ) → IsInt n → parse_int (itoa n) ≡ some n
parse_int-itoa (pos n) h = refl
parse_int-itoa (negsuc n) h = refl

abbrev library : Library
library = record {
  parse_int = parse_int;
  parse_bool = λ s. none;
  itoa = itoa;
  parse_int-itoa = parse_int-itoa;
  abs = some;
  control_actions = (115 ∷ []) ∷ [];
}

abbrev options : CommandOptions
options = record {
  base_path = 47 ∷ [];
  working_path = [];
  temp_path = 45 ∷ 45 ∷ [];
  locale = [];
  log_max_lines = negsuc 0;
  debug = true;
}

no_action : is_service_action library (text "--base-path") ≡ false
unfolding is_service_action text ◌==◌ contains
no_action = refl

parse_command_line-service_arguments_example :
    parse_command_line library (service_arguments library options) ≡ ok ([], options)
parse_command_line-service_arguments_example =
    parse_command_line-service_arguments library options (omega arith) refl no_action

value_missing : parse_command_line library (text "--locale" ∷ []) ≡ err needs_argument
unfolding parse_command_line is_service_action parse_flags classify behind_dashes cut_equals flag_of
    text ◌==◌ contains
value_missing = refl
