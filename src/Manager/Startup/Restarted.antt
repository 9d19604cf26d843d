-- ===== src/Manager/Startup/Restarted.antt =====
-- Starting again with New of manager/manager.go.
use target_lib.Base.{◌≡◌, sym, ap, ◌∙◌, subst, Bool, true, Text, ok, if◌then◌else◌}
use target_lib.Manager.{RuntimeConfig}
use target_lib.Manager.Startup.{
  SavedConfigs, Premises, Left, Outcome, equal, canonical, new, with_token, with_setup,
  with_subscriptions, with_config, with_canonical, settled, built,
}
use target_lib.Manager.Startup.Started.{Returns, equal_refl, new-Returns}

module _ (C : SavedConfigs) where
  abbrev reopened : Left C → RuntimeConfig → Text → (manager_open store_open : Bool) → Outcome C
  reopened left r token m o = (record left { manager_open = m; store_open = o }, ok (r, token))

  restarted :
      (P : Premises) (before : C.State) (left : Left C) (r : RuntimeConfig) (token : Text)
      → Returns C P before (left, ok (r, token))
      → new C P left.store ≡ (left, ok (r, token))
  unfolding new with_config with_canonical
  restarted P before left r token (s, t, u, v) =
      ap (λ o. with_token C P o left.store) t
      ∙ ap (λ o. with_setup C P token o left.store) u
      ∙ ap (λ o. with_subscriptions C P token o left.store) v
      ∙ ap (with_config C P token left.store) s.saved
      ∙ ap
          (λ b.
            if b
            then settled C P token r left.store (ok left.store)
            else settled C P token (record r { settings = canonical P.mobile r.settings })
                left.store
                (C.save (record r { settings = canonical P.mobile r.settings }) left.store))
          (subst (λ c. equal c r.settings ≡ true) (sym s.canonical_settings)
            (equal_refl r.settings))
      ∙ ap (built C P token r left.store) s.settings.1
      ∙ ap (λ o. reopened left r token o true) (sym s.manager_open)
      ∙ ap (λ o. reopened left r token left.manager_open o) (sym s.store_open)

  -- A second start with what the first one left changes nothing: it gives the same manager and
  -- leaves the store as it is.
  pub new_again :
      (P : Premises) (s : C.State) (left : Left C) (r : RuntimeConfig) (token : Text)
      → new C P s ≡ (left, ok (r, token))
      → new C P left.store ≡ (left, ok (r, token))
  new_again P s left r token h =
      restarted P s left r token (subst (Returns C P s) h (new-Returns C P s))
