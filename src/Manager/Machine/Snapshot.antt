-- ===== src/Manager/Machine/Snapshot.antt =====
-- What applySnapshot of manager/runtime_controller.go promises: all or nothing.
use target_lib.Base.{
  ◌≡◌, refl, sym, ◌∙◌, Bool, true, false, Option, none, some, Text, Result, ok, err, Bool-cases,
  inl, inr, ◌⊎◌, ap, if◌then◌else◌,
}
use target_lib.Manager.{Code, invalid_argument, internal, data_loss, RuntimeConfig}
use target_lib.Manager.Machine.{
  Daemon, ConfigStore, Machine, activated, swap_runtime, restored, rollback, after_save,
  save_snapshot, after_apply, activate_snapshot, unless_ended, apply_snapshot,
}

-- The content that runs is the manager's, if the service was running, and there is none otherwise.
abbrev pub running : Bool → Text → Option Text
running true config = some config
running false config = none

module _ (D : Daemon) (C : ConfigStore) where
  -- How applySnapshot ends. Success: the new configuration is the manager's and is saved, and if it
  -- was to be activated then its content is the manager's and runs. Failure without DataLoss: the
  -- manager's configuration and content and the store are as before, and what runs is what ran
  -- before. DataLoss: the same, but the daemon did not go back.
  pub data Applied (next : RuntimeConfig) (content : Text) (activate was_running : Bool)
      (m : Machine D C) (r : Machine D C × Option Code) : Type 0 where
    succeeded :
        r.1 ≡ none
        → r.0.runtime_config ≡ next
        → C.saved r.0.store ≡ some next
        → r.0.config ≡ activated D C activate content m.config
        → D.loaded r.0.daemon ≡ (if activate then some content else D.loaded m.daemon)
        → Applied next content activate was_running m r
    undone :
        (e : Code)
        → r.1 ≡ some e
        → r.0.runtime_config ≡ m.runtime_config
        → r.0.config ≡ m.config
        → r.0.store ≡ m.store
        → D.loaded r.0.daemon ≡ D.loaded m.daemon
        → Applied next content activate was_running m r
    lost :
        r.1 ≡ some data_loss
        → r.0.runtime_config ≡ m.runtime_config
        → r.0.config ≡ m.config
        → r.0.store ≡ m.store
        → Applied next content activate was_running m r

  module _ (next : RuntimeConfig) (content : Text) (was_running : Bool) (m : Machine D C) where
    restored-Applied :
        (d : D.State) (r : D.State × Option Code)
        → (r.1 ≡ none → D.loaded r.0 ≡ D.loaded m.daemon)
        → Applied next content true was_running m (restored D C (record m { daemon = d }) r)
    restored-Applied d (after, none) h = undone internal refl refl refl refl (h refl)
    restored-Applied d (after, some e) h = lost refl refl refl refl

    rollback-Applied :
        (d : D.State)
        → D.loaded m.daemon ≡ running was_running m.config
        → Applied next content true was_running m
            (rollback D C true was_running (record m { daemon = d }))
    unfolding rollback
    rollback-Applied d ran = by_mode was_running ran
      where
        by_mode :
            (b : Bool)
            → D.loaded m.daemon ≡ running b m.config
            → Applied next content true was_running m
                (rollback D C true b (record m { daemon = d }))
        by_mode true k =
            restored-Applied d (D.apply m.config d) (λ e. D.apply-loaded m.config d e ∙ sym k)
        by_mode false k = restored-Applied d (D.close d) (λ e. D.close-loaded d e ∙ sym k)

    activated-Applied :
        (d : D.State) (r : Result Code C.State)
        → C.save next m.store ≡ r
        → D.loaded d ≡ some content
        → D.loaded m.daemon ≡ running was_running m.config
        → Applied next content true was_running m
            (after_save D C next content true was_running (record m { daemon = d }) r)
    unfolding swap_runtime
    activated-Applied d (ok store) s l ran =
        succeeded refl refl (C.save-saved next m.store store s) refl l
    activated-Applied d (err e) s l ran = rollback-Applied d ran

    started-Applied :
        (r : D.State × Option Code)
        → (r.1 ≡ none → D.loaded r.0 ≡ some content)
        → D.loaded m.daemon ≡ running was_running m.config
        → Applied next content true was_running m (after_apply D C next content was_running m r)
    unfolding save_snapshot
    started-Applied (d, none) l ran = activated-Applied d (C.save next m.store) refl (l refl) ran
    started-Applied (d, some e) l ran = rollback-Applied d ran

    kept-Applied :
        (r : Result Code C.State)
        → C.save next m.store ≡ r
        → Applied next content false was_running m
            (after_save D C next content false was_running m r)
    unfolding swap_runtime
    kept-Applied (ok store) s = succeeded refl refl (C.save-saved next m.store store s) refl refl
    kept-Applied (err e) s = undone internal refl refl refl refl refl

    activate_snapshot-Applied :
        (activate : Bool)
        → D.loaded m.daemon ≡ running was_running m.config
        → Applied next content activate was_running m
            (activate_snapshot D C next content activate was_running m)
    unfolding activate_snapshot save_snapshot
    activate_snapshot-Applied true ran =
        started-Applied (D.apply content m.daemon) (λ e. D.apply-loaded content m.daemon e) ran
    activate_snapshot-Applied false ran = kept-Applied (C.save next m.store) refl

    -- If the daemon runs the manager's content exactly when the service is said to be running, then
    -- applySnapshot is all or nothing, whatever the check, the daemon, the store and the context
    -- answer. It succeeds: the configuration is the manager's and the saved one, and if it was to
    -- be activated its content runs. Or it fails and configuration, content, store and what runs
    -- are as before. Or it fails with DataLoss, and only what the daemon runs is unknown.
    pub apply_snapshot-Applied :
        (ctx : Option Code) (activate : Bool)
        → D.loaded m.daemon ≡ running was_running m.config
        → Applied next content activate was_running m
            (apply_snapshot D C ctx next content activate was_running m)
    unfolding apply_snapshot
    apply_snapshot-Applied ctx activate ran = elim (Bool-cases (D.check content)) [
      | inl e ↦ rw (apply_snapshot, e) (in_time ctx)
      | inr e ↦ rw (apply_snapshot, e) (undone invalid_argument refl refl refl refl refl)
    ]
      where
        in_time :
            (ctx : Option Code)
            → Applied next content activate was_running m
                (unless_ended D C ctx m (activate_snapshot D C next content activate was_running m))
        in_time none = activate_snapshot-Applied activate ran
        in_time (some e) = undone e refl refl refl refl refl

  -- Why applySnapshot can fail.
  abbrev pub Refusal : Option Code → RuntimeConfig → Text → Machine D C → Type 0
  Refusal ctx next content m =
      (D.check content ≡ false)
      ⊎ ((e : Code) × (ctx ≡ some e))
      ⊎ ((e : Code) × ((D.apply content m.daemon).1 ≡ some e))
      ⊎ ((e : Code) × (C.save next m.store ≡ err e))

  saved-Refusal :
      (next : RuntimeConfig) (content : Text) (activate was_running : Bool) (m : Machine D C)
      (r : Result Code C.State) (e : Code)
      → (after_save D C next content activate was_running m r).1 ≡ some e
      → (x : Code) × (r ≡ err x)
  saved-Refusal next content activate was_running m (ok s) e h = cc
  saved-Refusal next content activate was_running m (err x) e h = (x, refl)

  applied-Refusal :
      (next : RuntimeConfig) (content : Text) (was_running : Bool) (m : Machine D C)
      (r : D.State × Option Code) (e : Code)
      → (after_apply D C next content was_running m r).1 ≡ some e
      → ((x : Code) × (r.1 ≡ some x)) ⊎ ((x : Code) × (C.save next m.store ≡ err x))
  unfolding save_snapshot
  applied-Refusal next content was_running m (d, none) e h =
      inr (saved-Refusal next content true was_running _ _ e h)
  applied-Refusal next content was_running m (d, some x) e h = inl (x, refl)

  activated-Refusal :
      (next : RuntimeConfig) (content : Text) (activate was_running : Bool) (m : Machine D C)
      (e : Code)
      → (activate_snapshot D C next content activate was_running m).1 ≡ some e
      → ((x : Code) × ((D.apply content m.daemon).1 ≡ some x))
        ⊎ ((x : Code) × (C.save next m.store ≡ err x))
  unfolding activate_snapshot save_snapshot
  activated-Refusal next content true was_running m e h =
      applied-Refusal next content was_running m _ e h
  activated-Refusal next content false was_running m e h =
      inr (saved-Refusal next content false was_running m _ e h)

  checked :
      (next : RuntimeConfig) (content : Text) (activate was_running : Bool) (m : Machine D C)
      → D.check content ≡ true
      → apply_snapshot D C none next content activate was_running m
        ≡ activate_snapshot D C next content activate was_running m
  unfolding apply_snapshot
  checked next content activate was_running m b = rw (apply_snapshot, b) refl

  pub apply_snapshot-Refusal :
      (next : RuntimeConfig) (content : Text) (activate was_running : Bool) (m : Machine D C)
      (ctx : Option Code) (e : Code)
      → (apply_snapshot D C ctx next content activate was_running m).1 ≡ some e
      → Refusal ctx next content m
  unfolding apply_snapshot
  apply_snapshot-Refusal next content activate was_running m (some c) e h = inr (inl (c, refl))
  apply_snapshot-Refusal next content activate was_running m none e h =
      elim (Bool-cases (D.check content)) [
        | inr b ↦ inl b
        | inl b ↦
            elim (activated-Refusal next content activate was_running m e
              (ap (λ r. r.1) (sym (checked next content activate was_running m b)) ∙ h)) [
                | inl x ↦ inr (inr (inl x))
                | inr x ↦ inr (inr (inr x))
              ]
      ]
