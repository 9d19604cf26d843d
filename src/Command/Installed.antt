-- ===== src/Command/Installed.antt =====
-- The arguments that cmd/TargetLib/main.go installs the service with, read again.
use target_lib.Base.{
  ◌≡◌, refl, ap, ◌∙◌, Bool, true, false, List, [], ◌∷◌, none, some, Text, text, ◌==◌, ℤ, Result, ok,
  ◌>>=◌, ◌>>◌, refuse_if, if◌then◌else◌,
}
use target_lib.Command.{
  CommandOptions, CommandError, unknown_command, IsInt, not_empty, Library, parse_command_line,
  parse_options, parse_flags, set_flag, or_bad, classify, behind_dashes, cut_equals, flag_of,
  service_arguments, given, debug_argument, default_options, is_service_action, with_action,
  absolute,
}

module _ (L : Library) where
  base_path_read :
      (v : Text) (more : List Text) (o : CommandOptions)
      → parse_flags L none (text "--base-path" ∷ v ∷ more) o
        ≡ parse_flags L none more (record o { base_path = v })
  unfolding parse_flags set_flag classify behind_dashes cut_equals flag_of text ◌==◌
  base_path_read v more o = refl

  log_max_lines_read :
      (n : ℤ) (more : List Text) (o : CommandOptions)
      → IsInt n
      → parse_flags L none (text "--log-max-lines" ∷ L.itoa n ∷ more) o
        ≡ parse_flags L none more (record o { log_max_lines = n })
  unfolding parse_flags set_flag classify behind_dashes cut_equals flag_of text ◌==◌
  log_max_lines_read n more o i =
      ap (λ r. or_bad L (λ n. record o { log_max_lines = n }) r >>= λ p. parse_flags L none more p)
        (L.parse_int-itoa n i)

  -- What is left out stands for the default.
  working_path_read :
      (v : Text) (more : List Text) (o : CommandOptions)
      → o.working_path ≡ []
      → parse_flags L none (given L (text "--working-path") v more) o
        ≡ parse_flags L none more (record o { working_path = v })
  unfolding parse_flags set_flag classify behind_dashes cut_equals flag_of text ◌==◌
  working_path_read [] more o e =
      ap (λ w. parse_flags L none more (record o { working_path = w })) e
  working_path_read (c ∷ v) more o e = refl

  temp_path_read :
      (v : Text) (more : List Text) (o : CommandOptions)
      → o.temp_path ≡ []
      → parse_flags L none (given L (text "--temp-path") v more) o
        ≡ parse_flags L none more (record o { temp_path = v })
  unfolding parse_flags set_flag classify behind_dashes cut_equals flag_of text ◌==◌
  temp_path_read [] more o e = ap (λ w. parse_flags L none more (record o { temp_path = w })) e
  temp_path_read (c ∷ v) more o e = refl

  locale_read :
      (v : Text) (more : List Text) (o : CommandOptions)
      → o.locale ≡ []
      → parse_flags L none (given L (text "--locale") v more) o
        ≡ parse_flags L none more (record o { locale = v })
  unfolding parse_flags set_flag classify behind_dashes cut_equals flag_of text ◌==◌
  locale_read [] more o e = ap (λ w. parse_flags L none more (record o { locale = w })) e
  locale_read (c ∷ v) more o e = refl

  debug_read :
      (b : Bool) (o : CommandOptions)
      → o.debug ≡ false
      → parse_flags L none (debug_argument L b) o ≡ ok (record o { debug = b }, [])
  unfolding parse_flags classify behind_dashes cut_equals flag_of text ◌==◌
  debug_read true o e = refl
  debug_read false o e = ap (λ d. ok (record o { debug = d }, [])) e

  service_arguments_read :
      (o : CommandOptions)
      → IsInt o.log_max_lines
      → parse_flags L none (service_arguments L o) default_options ≡ ok (o, [])
  unfolding service_arguments
  service_arguments_read o i =
      base_path_read o.base_path _ default_options
      ∙ log_max_lines_read o.log_max_lines _ _ i
      ∙ working_path_read o.working_path _ _ refl
      ∙ temp_path_read o.temp_path _ _ refl
      ∙ locale_read o.locale _ _ refl
      ∙ debug_read o.debug _ refl

  -- What parse_command_line does with the options, and with what follows the first argument.
  abbrev checked : CommandOptions × List Text → Result CommandError CommandOptions
  checked r = refuse_if (not_empty L r.1) unknown_command >> absolute L r.0 (L.abs r.0.base_path)

  abbrev rest_arguments : CommandOptions → List Text
  rest_arguments o =
      o.base_path
      ∷ text "--log-max-lines"
      ∷ L.itoa o.log_max_lines
      ∷ given L (text "--working-path") o.working_path (
          given L (text "--temp-path") o.temp_path
            (given L (text "--locale") o.locale (debug_argument L o.debug)))

  -- A service that is installed with some options, whose base path is absolute and whose number of
  -- lines is an int, reads just these options from its arguments when it is started, and no action,
  -- if "--base-path" is not the name of one.
  pub parse_command_line-service_arguments :
      (o : CommandOptions)
      → IsInt o.log_max_lines
      → L.abs o.base_path ≡ some o.base_path
      → is_service_action L (text "--base-path") ≡ false
      → parse_command_line L (service_arguments L o) ≡ ok ([], o)
  unfolding parse_command_line service_arguments
  parse_command_line-service_arguments o i absolute_path no_action =
      ap
        (λ b.
          if b
          then with_action L (text "--base-path") (parse_options L (rest_arguments o))
          else with_action L [] (parse_options L (service_arguments L o)))
        no_action
      ∙ ap (λ r. with_action L [] (r >>= checked)) (service_arguments_read o i)
      ∙ ap (λ r. with_action L [] (absolute L o r)) absolute_path
