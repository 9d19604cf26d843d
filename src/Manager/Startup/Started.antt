-- ===== src/Manager/Startup/Started.antt =====
-- What holds when New of manager/manager.go returns.
use target_lib.Base.{
  ◌≡◌, refl, sym, ap, ◌∙◌, ℕ, Bool, true, false, ◌&&◌, Option, none, some, Text, ◌==◌, eq_refl,
  nat_eq, Result, ok, err, Bool-cases, inl, inr, ◌⊎◌, arith,
}
use target_lib.Config.Settings.{Settings}
use target_lib.Manager.{
  Code, RuntimeConfig, RuntimeSettings, ProxyMode, default_runtime_config,
  canonical_runtime_settings, build_settings,
}
use target_lib.Manager.Startup.{
  SavedConfigs, Premises, Left, Outcome, proxy_number, route_number, same_flag, equal_settings,
  equal, canonical, new, with_token, with_setup, with_subscriptions, with_config, with_default,
  with_canonical, settled, built,
}

tun_of : (m : ProxyMode) → nat_eq 2 (proxy_number m) ≡ true → m ≡ ProxyMode.tun
tun_of ProxyMode.unspecified h = ground arith
tun_of ProxyMode.mixed h = ground arith
tun_of ProxyMode.tun h = refl

fourth : (a b c d e : Bool) → (a && b && c && d && e) ≡ true → d ≡ true
fourth a b c d e h = ground arith

equal_settings-mode :
    (a b : RuntimeSettings)
    → equal_settings a b ≡ true
    → nat_eq (proxy_number a.proxy_mode) (proxy_number b.proxy_mode) ≡ true
equal_settings-mode a b =
    fourth (a.listen_address == b.listen_address) (nat_eq a.mixed_port b.mixed_port)
      (same_flag a.ipv6 b.ipv6) _ (nat_eq (route_number a.route_mode) (route_number b.route_mode))

equal-canonical :
    (mobile : Bool) (o : Option RuntimeSettings)
    → equal (canonical mobile o) o ≡ true
    → canonical mobile o ≡ o
unfolding equal canonical_runtime_settings
equal-canonical mobile none h = refl
equal-canonical false (some s) h = refl
equal-canonical true (some s) h =
    ap (λ m. some (record s { proxy_mode = m }))
      (sym
        (tun_of s.proxy_mode (equal_settings-mode (record s { proxy_mode = ProxyMode.tun }) s h)))

canonical-some :
    (mobile : Bool) (o : Option RuntimeSettings)
    → equal (canonical mobile o) o ≡ false
    → (c : RuntimeSettings) × (canonical mobile o ≡ some c)
unfolding equal
canonical-some mobile none h = cc
canonical-some mobile (some s) h = (_, refl)

canonical_twice :
    (mobile : Bool) (o : Option RuntimeSettings)
    → canonical mobile (canonical mobile o) ≡ canonical mobile o
unfolding canonical_runtime_settings
canonical_twice mobile none = refl
canonical_twice false (some s) = refl
canonical_twice true (some s) = refl

same_flag_refl : (b : Bool) → same_flag b b ≡ true
same_flag_refl true = refl
same_flag_refl false = refl

nat_eq_refl : (n : ℕ) → nat_eq n n ≡ true
nat_eq_refl n = ground arith

pub equal_refl : (o : Option RuntimeSettings) → equal o o ≡ true
unfolding equal
equal_refl none = refl
equal_refl (some s) =
    rw
      (
        eq_refl s.listen_address,
        nat_eq_refl s.mixed_port,
        same_flag_refl s.ipv6,
        nat_eq_refl (proxy_number s.proxy_mode),
        nat_eq_refl (route_number s.route_mode),
      )
      refl

module _ (C : SavedConfigs) where
  -- A started manager: both are open, the store has just the configuration that the manager has,
  -- with the settings of the platform, which buildSettings accepts; and it is the one that was found, or the
  -- default one, but for these settings.
  pub record IsStarted (P : Premises) (before : C.State) (left : Left C) (r : RuntimeConfig)
      : Type 0 where
    pub manager_open : left.manager_open ≡ true
    pub store_open : left.store_open ≡ true
    pub saved : C.load left.store ≡ ok (some r)
    pub canonical_settings : canonical P.mobile r.settings ≡ r.settings
    pub settings : (c : Settings) × (build_settings P.mobile r.settings ≡ ok c)
    pub origin :
        (found : RuntimeConfig) × ((C.load before ≡ ok (some found))
          ⊎ ((C.load before ≡ ok none) × (found ≡ default_runtime_config P.mobile)))
        × (r ≡ record found { settings = canonical P.mobile found.settings })

  -- After a failure nothing runs, but the store stays open if the subscriptions could be loaded.
  abbrev pub Returns : Premises → C.State → Outcome C → Type 0
  Returns P before (left, ok (r, token)) =
      IsStarted P before left r × (P.token ≡ ok token) × (P.setup ≡ none) × (P.subscriptions ≡ none)
  Returns P before (left, err e) =
      (left.manager_open ≡ false) × (P.subscriptions ≡ none → left.store_open ≡ true)

  -- The configuration that was found, and the store that has it after it was found or saved.
  abbrev Found : Premises → C.State → RuntimeConfig → Type 0
  Found P before found =
      (C.load before ≡ ok (some found))
      ⊎ ((C.load before ≡ ok none) × (found ≡ default_runtime_config P.mobile))

  module _ (P : Premises) (token : Text) (t : P.token ≡ ok token) (before : C.State)
      (setup : P.setup ≡ none) (loaded : P.subscriptions ≡ none) where
    built-Returns :
        (found r : RuntimeConfig) (s : C.State) (made : Result Code Settings)
        → made ≡ build_settings P.mobile r.settings
        → Found P before found
        → r ≡ record found { settings = canonical P.mobile found.settings }
        → C.load s ≡ ok (some r)
        → Returns P before (built C P token r s made)
    built-Returns found r s (err e) m f o k = (refl, λ h. refl)
    built-Returns found r s (ok c) m f o k = (
      record {
        manager_open = refl;
        store_open = refl;
        saved = k;
        canonical_settings =
            ap (λ x. canonical P.mobile x.settings) o
            ∙ canonical_twice P.mobile found.settings
            ∙ sym (ap (λ x. x.settings) o);
        settings = (c, sym m);
        origin = (found, f, o);
      },
      t,
      setup,
      loaded,
    )

    settled-Returns :
        (found r : RuntimeConfig) (s : C.State) (saved : Result Code C.State)
        → Found P before found
        → r ≡ record found { settings = canonical P.mobile found.settings }
        → ((u : C.State) → saved ≡ ok u → C.load u ≡ ok (some r))
        → Returns P before (settled C P token r s saved)
    settled-Returns found r s (err e) f o k = (refl, λ h. refl)
    settled-Returns found r s (ok u) f o k = built-Returns found r u _ refl f o (k u refl)

    with_canonical-Returns :
        (found : RuntimeConfig) (s : C.State)
        → Found P before found
        → C.load s ≡ ok (some found)
        → Returns P before (with_canonical C P token found s)
    unfolding with_canonical
    with_canonical-Returns found s f k =
        elim (Bool-cases (equal (canonical P.mobile found.settings) found.settings)) [
          | inl e ↦ rw e (
              built-Returns found found s _ refl f
                (ap (λ c. record found { settings = c })
                  (sym (equal-canonical P.mobile found.settings e)))
                k)
          | inr e ↦ rw e (
              settled-Returns found (record found { settings = canonical P.mobile found.settings })
                s _ f refl
                (λ u h.
                  let (c, given) = canonical-some P.mobile found.settings e in
                  C.save-load _ c s u given h))
        ]

    with_default-Returns :
        (saved : Result Code C.State)
        → C.save (default_runtime_config P.mobile) before ≡ saved
        → Found P before (default_runtime_config P.mobile)
        → Returns P before (with_default C P token before saved)
    unfolding default_runtime_config
    with_default-Returns (err e) h f = (refl, λ h. refl)
    with_default-Returns (ok u) h f = with_canonical-Returns _ u f (C.save-load _ _ before u refl h)

    with_config-Returns :
        (loaded : Result Code (Option RuntimeConfig))
        → C.load before ≡ loaded
        → Returns P before (with_config C P token before loaded)
    unfolding with_config default_runtime_config
    with_config-Returns (err e) l = (refl, λ h. refl)
    with_config-Returns (ok (some r)) l = with_canonical-Returns r before (inl l) l
    with_config-Returns (ok none) l =
        with_default-Returns (C.save (default_runtime_config P.mobile) before) refl (inr (l, refl))

  module _ (P : Premises) (token : Text) (t : P.token ≡ ok token) (before : C.State) where
    with_subscriptions-Returns :
        (o : Option Code)
        → P.setup ≡ none
        → P.subscriptions ≡ o
        → Returns P before (with_subscriptions C P token o before)
    with_subscriptions-Returns (some e) u h = (refl, λ k. cc)
    with_subscriptions-Returns none u h =
        with_config-Returns P token t before u h (C.load before) refl

    with_setup-Returns :
        (o : Option Code) → P.setup ≡ o → Returns P before (with_setup C P token o before)
    with_setup-Returns (some e) u = (refl, λ h. refl)
    with_setup-Returns none u = with_subscriptions-Returns P.subscriptions u refl

  with_token-Returns :
      (P : Premises) (s : C.State) (given : Result Code Text)
      → P.token ≡ given
      → Returns P s (with_token C P given s)
  with_token-Returns P s (err e) t = (refl, λ h. refl)
  with_token-Returns P s (ok token) t = with_setup-Returns P token t s P.setup refl

  -- New either returns a manager that is started: its settings are those of the platform, and
  -- buildSettings accepts them, and its configuration is just what the store has, and is the one
  -- that was stored, or the default one if none was, but for these settings. Or it returns an
  -- error, with no subscription manager left open, but with the store open, unless the
  -- subscriptions could not be loaded.
  pub new-Returns : (P : Premises) (s : C.State) → Returns P s (new C P s)
  unfolding new
  new-Returns P s = with_token-Returns P s P.token refl
