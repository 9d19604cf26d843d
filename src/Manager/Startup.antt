-- ===== src/Manager/Startup.antt =====
-- New and normalizeOptions of manager/manager.go: how the manager starts from what is stored.
pub mod Started
pub mod Restarted
use target_lib.Base.{
  ◌≡◌, ℕ, ℤ, pos, Bool, true, false, not, ◌&&◌, Option, none, some, Text, [], ◌==◌, is_empty,
  nat_eq, leb_ℤ, Result, ok, err, if◌then◌else◌,
}
use target_lib.Config.Settings.{Settings}
use target_lib.Manager.{
  Code, RuntimeConfig, RuntimeSettings, ProxyMode, RouteMode, default_runtime_config,
  canonical_runtime_settings, build_settings,
}

-- The options that normalizeOptions reads.
pub record Options : Type 0 where
  pub base_path : Text
  pub working_path : Text
  pub temp_path : Text
  pub log_max_lines : ℤ

abbrev pub or_else : Text → Text → Text
or_else path other = if is_empty path then other else path

unfoldable pub normalize_options : Options → Options
normalize_options o = record o {
  working_path = or_else o.working_path o.base_path;
  temp_path = or_else o.temp_path (or_else o.working_path o.base_path);
  log_max_lines = if leb_ℤ o.log_max_lines (pos 0) then pos 300 else o.log_max_lines;
}

-- runtimeConfigStore as New uses it: Load, Save, and that a saved configuration that has settings is
-- what Load finds.
pub record SavedConfigs : Type 1 where
  pub State : Type 0
  pub load : State → Result Code (Option RuntimeConfig)
  pub save : RuntimeConfig → State → Result Code State
  pub save-load :
      (r : RuntimeConfig) (c : RuntimeSettings) (s t : State)
      → r.settings ≡ some c
      → save r s ≡ ok t
      → load t ≡ ok (some r)

-- proto.Equal of settings, of which nil is none.
abbrev pub proxy_number : ProxyMode → ℕ
proxy_number ProxyMode.unspecified = 0
proxy_number ProxyMode.mixed = 1
proxy_number ProxyMode.tun = 2

abbrev pub route_number : RouteMode → ℕ
route_number RouteMode.unspecified = 0
route_number RouteMode.rule = 1
route_number RouteMode.all = 2
route_number RouteMode.direct = 3

abbrev pub same_flag : Bool → Bool → Bool
same_flag true b = b
same_flag false b = not b

abbrev pub equal_settings : RuntimeSettings → RuntimeSettings → Bool
equal_settings a b =
    a.listen_address == b.listen_address
    && nat_eq a.mixed_port b.mixed_port
    && same_flag a.ipv6 b.ipv6
    && nat_eq (proxy_number a.proxy_mode) (proxy_number b.proxy_mode)
    && nat_eq (route_number a.route_mode) (route_number b.route_mode)

unfoldable pub equal : Option RuntimeSettings → Option RuntimeSettings → Bool
equal none none = true
equal (some a) (some b) = equal_settings a b
equal none (some b) = false
equal (some a) none = false

abbrev pub canonical : Bool → Option RuntimeSettings → Option RuntimeSettings
canonical mobile none = none
canonical mobile (some s) = some (canonical_runtime_settings mobile s)

-- What New gets from loadControlToken, from Setup and from Load of the subscriptions; the platform;
-- and whether the store is an io.Closer.
pub record Premises : Type 0 where
  pub token : Result Code Text
  pub setup : Option Code
  pub subscriptions : Option Code
  pub mobile : Bool
  pub closer : Bool

module _ (C : SavedConfigs) where
  -- What is there when New returns: the store, and whether the subscription manager and the store
  -- are open.
  pub record Left : Type 0 where
    pub store : C.State
    pub manager_open : Bool
    pub store_open : Bool

  abbrev pub Outcome : Type 0
  Outcome = Left × Result Code (RuntimeConfig × Text)

  -- `cancelSubscriptions(); subscriptionManager.Close(); return nil, err`
  abbrev pub failed : Code → C.State → Outcome
  failed e s = (record { store = s; manager_open = false; store_open = true }, err e)

  module _ (P : Premises) (token : Text) where
    abbrev pub built : RuntimeConfig → C.State → Result Code Settings → Outcome
    built r s (ok settings) =
        (record { store = s; manager_open = true; store_open = true }, ok (r, token))
    built r s (err e) = failed e s

    abbrev pub settled : RuntimeConfig → C.State → Result Code C.State → Outcome
    settled r before (ok s) = built r s (build_settings P.mobile r.settings)
    settled r before (err e) = failed e before

    -- The settings become those of the platform.
    unfoldable pub with_canonical : RuntimeConfig → C.State → Outcome
    with_canonical r s =
        if equal (canonical P.mobile r.settings) r.settings
        then settled r s (ok s)
        else settled (record r { settings = canonical P.mobile r.settings }) s
            (C.save (record r { settings = canonical P.mobile r.settings }) s)

    abbrev pub with_default : C.State → Result Code C.State → Outcome
    with_default before (ok s) = with_canonical (default_runtime_config P.mobile) s
    with_default before (err e) = failed e before

    unfoldable pub with_config : C.State → Result Code (Option RuntimeConfig) → Outcome
    with_config s (err e) = failed e s
    with_config s (ok none) = with_default s (C.save (default_runtime_config P.mobile) s)
    with_config s (ok (some r)) = with_canonical r s

    -- A store that is an io.Closer is closed if the subscriptions cannot be loaded.
    abbrev pub with_subscriptions : Option Code → C.State → Outcome
    with_subscriptions (some e) s =
        (record { store = s; manager_open = false; store_open = not P.closer }, err e)
    with_subscriptions none s = with_config s (C.load s)

  abbrev pub with_setup : Premises → Text → Option Code → C.State → Outcome
  with_setup P token (some e) s = failed e s
  with_setup P token none s = with_subscriptions P token P.subscriptions s

  abbrev pub with_token : Premises → Result Code Text → C.State → Outcome
  with_token P (err e) s = failed e s
  with_token P (ok token) s = with_setup P token P.setup s

  unfoldable pub new : Premises → C.State → Outcome
  new P s = with_token P P.token s
