-- ===== src/Subscriptions/Defaults.antt =====
-- NewManager of subscriptions/manager.go: the defaults of the settings that are numbers.
use target_lib.Base.{pos, leb_ℤ, if◌then◌else◌}
use target_lib.Subscriptions.Model.{Duration}
use target_lib.Subscriptions.Fetching.{default_interval}

-- The two settings of NewManager that are numbers.
pub record ManagerSettings : Type 0 where
  pub default_update_interval : Duration
  pub scheduler_tick : Duration

abbrev pub or_default : Duration → Duration → Duration
or_default given other = if leb_ℤ given (pos 0) then other else given

unfoldable pub new_manager_settings : ManagerSettings → ManagerSettings
new_manager_settings o = record {
  default_update_interval = or_default o.default_update_interval default_interval;
  scheduler_tick = or_default o.scheduler_tick (pos 60000000000);
}
