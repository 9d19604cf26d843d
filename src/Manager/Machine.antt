-- ===== src/Manager/Machine.antt =====
-- manager/runtime_controller.go, config.go and manager.go: the manager's state, the daemon and the
-- saved configuration, and the steps between them. Operations hold the operation lock, so they run
-- one after the other. The daemon is sing-box's and the store is the subscriptions' store.
pub mod Snapshot
pub mod Saved
use target_lib.Base.{
  ◌≡◌, Bool, true, false, not, ◌&&◌, List, [], ◌∷◌, Option, none, some, Text, text, ◌==◌, Result,
  ok, err, ◌>>=◌, is_empty,
}
use target_lib.Profile.{Node}
use target_lib.Config.Settings.{Settings}
use target_lib.Config.Model.{RuntimeModel}
use target_lib.Manager.{
  Code, invalid_argument, internal, data_loss, failed_precondition, ended, RuntimeConfig,
  build_settings,
}
use target_lib.Manager.Desired.{build_runtime_content, prepare_runtime_content}

-- daemon.ServiceStatus_Type.
pub data ServiceStatus : Type 0 where
  idle starting started stopping fatal : ServiceStatus

-- daemon.StartedService: StartOrReloadService, CloseService, CheckConfig, SelectOutbound and the
-- status, and what its documentation promises of the content that runs afterwards.
pub record Daemon : Type 1 where
  pub State : Type 0
  pub status : State → Result Code ServiceStatus
  pub check : Text → Bool
  pub apply : Text → State → State × Option Code
  pub close : State → State × Option Code
  pub select : (tag node : Text) → State → State × Option Code
  pub loaded : State → Option Text
  pub apply-loaded : (c : Text) (s : State) → (apply c s).1 ≡ none → loaded (apply c s).0 ≡ some c
  pub close-loaded : (s : State) → (close s).1 ≡ none → loaded (close s).0 ≡ none

-- runtimeConfigStore: SaveSnapshot, which may fail, and what the stored content decodes to.
pub record ConfigStore : Type 1 where
  pub State : Type 0
  pub save : RuntimeConfig → State → Result Code State
  pub saved : State → Option RuntimeConfig
  pub save-saved : (r : RuntimeConfig) (s t : State) → save r s ≡ ok t → saved t ≡ some r

module _ (D : Daemon) (C : ConfigStore) where
  -- The fields runtimeConfig and config of the manager, the daemon and the store.
  pub record Machine : Type 0 where
    pub runtime_config : RuntimeConfig
    pub config : Text
    pub daemon : D.State
    pub store : C.State

  -- swapRuntime.
  abbrev pub activated : Bool → Text → Text → Text
  activated true new old = new
  activated false new old = old

  unfoldable pub swap_runtime : RuntimeConfig → Text → Bool → Machine → Machine
  swap_runtime next content activate m = record m {
    runtime_config = next;
    config = activated activate content m.config;
  }

  -- The closure rollback of applySnapshot, after the daemon's answer.
  abbrev pub restored : Machine → D.State × Option Code → Machine × Option Code
  restored m (d, none) = (record m { daemon = d }, some internal)
  restored m (d, some e) = (record m { daemon = d }, some data_loss)

  unfoldable pub rollback : (activate was_running : Bool) → Machine → Machine × Option Code
  rollback activate true m = restored m (D.apply m.config m.daemon)
  rollback true false m = restored m (D.close m.daemon)
  rollback false false m = (m, some internal)

  -- The end of applySnapshot: save, and take over or roll back.
  abbrev pub after_save :
      RuntimeConfig
      → Text
      → (activate was_running : Bool) → Machine
      → Result Code C.State
      → Machine × Option Code
  after_save next content activate was_running m (ok store) =
      (swap_runtime next content activate (record m { store = store }), none)
  after_save next content true was_running m (err e) = rollback true was_running m
  after_save next content false was_running m (err e) = (m, some internal)

  unfoldable pub save_snapshot :
      RuntimeConfig → Text → (activate was_running : Bool) → Machine → Machine × Option Code
  save_snapshot next content activate was_running m =
      after_save next content activate was_running m (C.save next m.store)

  abbrev pub after_apply :
      RuntimeConfig → Text → Bool → Machine → D.State × Option Code → Machine × Option Code
  after_apply next content was_running m (d, none) =
      save_snapshot next content true was_running (record m { daemon = d })
  after_apply next content was_running m (d, some e) =
      rollback true was_running (record m { daemon = d })

  unfoldable pub activate_snapshot :
      RuntimeConfig → Text → (activate was_running : Bool) → Machine → Machine × Option Code
  activate_snapshot next content true was_running m =
      after_apply next content was_running m (D.apply content m.daemon)
  activate_snapshot next content false was_running m =
      save_snapshot next content false was_running m

  abbrev pub unless_ended : Option Code → Machine → Machine × Option Code → Machine × Option Code
  unless_ended (some e) m r = (m, some e)
  unless_ended none m r = r

  -- applySnapshot, under a context that may have ended.
  unfoldable pub apply_snapshot :
      Option Code
      → RuntimeConfig
      → Text
      → (activate was_running : Bool) → Machine
      → Machine × Option Code
  apply_snapshot ctx next content activate was_running m = elim (D.check content) [
    | false ↦ (m, some invalid_argument)
    | true ↦ unless_ended ctx m (activate_snapshot next content activate was_running m)
  ]

  -- commitLiveSelector. The manager has a daemon, so the first check passes; the selection that is
  -- put back is not looked at again.
  abbrev pub reselect : Bool → Text → Text → D.State → D.State
  reselect false tag previous d = d
  reselect true tag [] d = d
  reselect true tag (c ∷ previous) d = (D.select tag (c ∷ previous) d).0

  abbrev pub after_live_save :
      RuntimeConfig
      → Text
      → (tag previous : Text) → Bool
      → Machine
      → Result Code C.State
      → Machine × Option Code
  after_live_save next content tag previous running m (ok store) =
      (swap_runtime next content running (record m { store = store }), none)
  after_live_save next content tag previous running m (err e) =
      (record m { daemon = reselect running tag previous m.daemon }, some e)

  abbrev pub after_select :
      RuntimeConfig
      → Text
      → (tag previous : Text) → Bool
      → Machine
      → D.State × Option Code
      → Machine × Option Code
  after_select next content tag previous running m (d, some e) = (record m { daemon = d }, some e)
  after_select next content tag previous running m (d, none) =
      after_live_save next content tag previous running (record m { daemon = d })
        (C.save next m.store)

  abbrev pub selected_live : Bool → (tag node : Text) → D.State → D.State × Option Code
  selected_live true tag node d = D.select tag node d
  selected_live false tag node d = (d, none)

  unfoldable pub commit_live_selector :
      RuntimeConfig
      → Text
      → (tag node previous : Text) → (running : Bool) → Machine
      → Machine × Option Code
  commit_live_selector next content tag node previous running m =
      after_select next content tag previous running m (selected_live running tag node m.daemon)
