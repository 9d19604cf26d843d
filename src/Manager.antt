-- ===== src/Manager.antt =====
-- The package manager: the runtime configuration a user wants, and the sing-box daemon that runs it.
-- Messages of api/TargetLib as far as the package reads them, and gRPC status codes for errors.
pub mod Desired
pub mod Machine
pub mod Edits
pub mod Operations
pub mod Access
pub mod Server
pub mod Generated
pub mod Streams
pub mod Token
pub mod Startup
pub mod Reports
use target_lib.Base.{
  ℕ, Bool, true, false, not, ◌&&◌, ◌||◌, List, [], ◌∷◌, Option, none, some, Text, text, ◌==◌, ℤ,
  pos, is_empty, Result, ok, err, ◌>>=◌, ◌>>◌,
}
use target_lib.Config.Settings.{
  Settings, validate, RouteMode as BuildRouteMode, ProxyMode as BuildProxyMode,
}

-- google.golang.org/grpc/codes. Messages are left out.
pub data Code : Type 0 where
  invalid_argument not_found internal failed_precondition data_loss unauthenticated : Code
  ended : Code

pub data ProxyMode : Type 0 where
  unspecified mixed tun : ProxyMode

pub data RouteMode : Type 0 where
  unspecified rule all direct : RouteMode

pub record RuntimeSettings : Type 0 where
  pub listen_address : Text
  pub mixed_port : ℕ
  pub ipv6 : Bool
  pub proxy_mode : ProxyMode
  pub route_mode : RouteMode

pub record SelectorConfig : Type 0 where
  pub tag : Text
  pub node_ids : List Text
  pub selected_node_id : Text
  pub selected_at_unix_ms : ℤ

pub record RouteConfig : Type 0 where
  pub service_id : Text
  pub display_name : Text
  pub domains : List Text
  pub selector_tag : Text
  pub enabled : Bool

-- Settings are a pointer in the message, none for nil.
pub record RuntimeConfig : Type 0 where
  pub settings : Option RuntimeSettings
  pub node_pool_revision : Text
  pub selectors : List SelectorConfig
  pub service_routes : List RouteConfig

-- defaultRuntimeConfig; on Android and iOS the proxy mode is TUN.
abbrev pub default_proxy_mode : Bool → ProxyMode
default_proxy_mode true = ProxyMode.tun
default_proxy_mode false = ProxyMode.mixed

unfoldable pub default_runtime_config : (mobile : Bool) → RuntimeConfig
default_runtime_config mobile = record {
  settings = some (record {
    listen_address = text "127.0.0.1";
    mixed_port = 2080;
    ipv6 = false;
    proxy_mode = default_proxy_mode mobile;
    route_mode = RouteMode.rule;
  });
  node_pool_revision = [];
  selectors = [];
  service_routes = [];
}

-- canonicalRuntimeSettings.
unfoldable pub canonical_runtime_settings : (mobile : Bool) → RuntimeSettings → RuntimeSettings
canonical_runtime_settings true s = record s { proxy_mode = ProxyMode.tun }
canonical_runtime_settings false s = s

-- The two switches of buildSettings.
abbrev pub route_mode_of : RouteMode → Result Code BuildRouteMode
route_mode_of RouteMode.direct = ok BuildRouteMode.direct
route_mode_of RouteMode.all = ok BuildRouteMode.all
route_mode_of RouteMode.rule = ok BuildRouteMode.rule
route_mode_of RouteMode.unspecified = err invalid_argument

abbrev pub proxy_mode_of : Bool → ProxyMode → Result Code BuildProxyMode
proxy_mode_of true mode = ok BuildProxyMode.tun
proxy_mode_of false ProxyMode.mixed = ok BuildProxyMode.mixed
proxy_mode_of false ProxyMode.tun = ok BuildProxyMode.tun
proxy_mode_of false ProxyMode.unspecified = err invalid_argument

-- `status.Error(codes.InvalidArgument, err.Error())`.
abbrev pub or_invalid {ℓ κ} : {E : Type ℓ} {A : Type κ} → Result E A → Result Code A
or_invalid (ok a) = ok a
or_invalid (err e) = err invalid_argument

abbrev pub settings_of : RuntimeSettings → BuildRouteMode → BuildProxyMode → Settings
settings_of s route proxy = record {
  probe_only = false;
  listen_address = s.listen_address;
  mixed_port = pos s.mixed_port;
  proxy_mode = proxy;
  ipv6 = s.ipv6;
  cache_file_path = [];
  route_mode = route;
}

-- buildSettings: the cache path is not taken over.
unfoldable pub build_settings : (mobile : Bool) → Option RuntimeSettings → Result Code Settings
build_settings mobile none = err invalid_argument
build_settings mobile (some s) = do
  route ← route_mode_of s.route_mode
  proxy ← proxy_mode_of mobile s.proxy_mode
  or_invalid (validate (settings_of s route proxy))
  ok (settings_of s route proxy)

-- findSelector and findRoute.
unfoldable pub find_selector : List SelectorConfig → Text → Option SelectorConfig
find_selector [] tag = none
find_selector (s ∷ ss) tag = elim (s.tag == tag) [ true ↦ some s | false ↦ find_selector ss tag ]

unfoldable pub find_route : List RouteConfig → Text → Option RouteConfig
find_route [] id = none
find_route (r ∷ rs) id = elim (r.service_id == id) [ true ↦ some r | false ↦ find_route rs id ]
