-- ===== src/Tests/Startups.antt =====
-- Examples for New of manager/manager.go.
use target_lib.Base.{
  ◌≡◌, refl, true, Option, none, some, text, ◌==◌, trim_space, ok, ap, ok-injective, sym,
}
use target_lib.Config.Settings.{validate, has_line_break}
use target_lib.Manager.{
  RuntimeConfig, default_runtime_config, canonical_runtime_settings, build_settings,
}
use target_lib.Manager.Startup.{
  SavedConfigs, Premises, Left, new, with_config, with_canonical, equal,
}
use target_lib.Manager.Startup.Started.{Returns, new-Returns}
use target_lib.Manager.Startup.Restarted.{new_again}

-- A store of one configuration.
abbrev configs : SavedConfigs
configs = record {
  State = Option RuntimeConfig;
  load = ok;
  save = λ r s. ok (some r);
  save-load = λ r c s t given saved. ap ok (sym (ok-injective saved));
}

abbrev premises : Premises
premises = record {
  token = ok (text "token");
  setup = none;
  subscriptions = none;
  mobile = true;
  closer = true;
}

abbrev first : Left configs
first = record {
  store = some (default_runtime_config true);
  manager_open = true;
  store_open = true;
}

first_start : new configs premises none ≡ (first, ok (default_runtime_config true, text "token"))
unfolding new with_config with_canonical equal canonical_runtime_settings default_runtime_config
    build_settings validate has_line_break ◌==◌ text trim_space
first_start = refl

new-Returns_example : Returns configs premises none (new configs premises none)
new-Returns_example = new-Returns configs premises none

new_again_example :
    new configs premises first.store ≡ (first, ok (default_runtime_config true, text "token"))
new_again_example =
    new_again configs premises none first (default_runtime_config true) (text "token") first_start
