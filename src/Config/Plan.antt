-- ===== src/Config/Plan.antt =====
-- config/build.go without the outbounds: route, DNS, inbounds, runtime section, and the blueprint
-- of a whole configuration. The host's operating system and package netip come in as a Host.
pub mod Inbounds
pub mod Routes
pub mod Laws
use target_lib.Base.{
  ℕ, ◌-◌, ◌%◌, Bool, true, false, not, ◌&&◌, ◌||◌, List, [], ◌∷◌, ◌++◌, Option, none, some, Text,
  text, ◌==◌, nat_eq, ltb, leb, len, text_le, trim_space, keep, map, take, drop, head_or, sort_by,
  if◌then◌else◌, Result, ok, err, ◌>>=◌, ◌>>◌, ℤ, pos, negsuc,
}
use target_lib.Profile.{Profile, Outbound}
use target_lib.Config.Settings.{
  ProxyMode, mixed, tun, RouteMode, rule, direct, all, Settings, Error, invalid_settings,
  invalid_source, unsupported_model, listen_address_not_ip, validate,
}
use target_lib.Config.Model.{direct_tag, ServiceRoute, RuntimeModel, runtime_model_from_profile}
use target_lib.Config.Normalize.{normalize_runtime_model}
use target_lib.Config.Outbounds.{plan_outbounds}

-- What the source asks of its surroundings: runtime.GOOS, filepath.Abs (none for an error) and
-- netip.ParseAddr, which gives the address in its canonical spelling or fails.
pub record Host : Type 0 where
  pub windows : Bool
  pub mobile : Bool
  pub abs_path : Text → Option Text
  pub parse_addr : Text → Option Text

-- option.Rule, option.RuleSet and option.DNSOptions of sing-box, as far as they are filled in.
pub data Action : Type 0 where
  sniff hijack_dns : Action
  route_to : Text → Action

pub record Rule : Type 0 where
  pub domain_suffix : List Text
  pub port : List ℕ
  pub rule_set : List Text
  pub action : Action

pub record RuleSet : Type 0 where
  pub tag : Text
  pub path : Text

pub record DnsOptions : Type 0 where
  pub server_tag : Text
  pub server : Text
  pub final : Text

pub data InboundOptions : Type 0 where
  mixed_options : (listen : Text) (listen_port : ℕ) → InboundOptions
  tun_options :
      (interface_name : Text) (address : List Text) (mtu : ℕ) (auto_route strict_route : Bool)
      (route_exclude_address : List Text)
      → InboundOptions

pub record Inbound : Type 0 where
  pub type : Text
  pub tag : Text
  pub options : InboundOptions

pub record RoutePlan : Type 0 where
  pub rules : List Rule
  pub rule_sets : List RuleSet
  pub final : Text
  pub auto_detect_interface : Bool

-- `log` is none where logging is disabled, and level and output otherwise.
pub record RuntimePlan : Type 0 where
  pub log : Option (Text × Text)
  pub cache_file : Option Text

pub record Blueprint : Type 0 where
  pub inbounds : List Inbound
  pub outbounds : List Outbound
  pub dns : Option DnsOptions
  pub route : RoutePlan
  pub runtime : RuntimePlan

abbrev geoip_cn_tag : Text
geoip_cn_tag = text "geoip-cn"

abbrev pub sniff_rule : Rule
sniff_rule = record { domain_suffix = []; port = []; rule_set = []; action = sniff }

abbrev pub tun_dns_hijack_rule : Rule
tun_dns_hijack_rule = record {
  domain_suffix = [];
  port = 53 ∷ [];
  rule_set = [];
  action = hijack_dns;
}

abbrev pub geoip_cn_rule : Rule
geoip_cn_rule = record {
  domain_suffix = [];
  port = [];
  rule_set = geoip_cn_tag ∷ [];
  action = route_to direct_tag;
}

abbrev pub geoip_cn_rule_set : RuleSet
geoip_cn_rule_set = record { tag = geoip_cn_tag; path = text "cn.srs" }

abbrev pub is_tun : ProxyMode → Bool
is_tun tun = true
is_tun _ = false

abbrev pub is_direct : RouteMode → Bool
is_direct direct = true
is_direct _ = false

-- The switch of planRoute.
unfoldable pub final_of : RouteMode → Text → Text
final_of direct final = direct_tag
final_of _ final = final

unfoldable pub mode_rules : RouteMode → List Rule
mode_rules rule = geoip_cn_rule ∷ []
mode_rules _ = []

unfoldable pub mode_rule_sets : RouteMode → List RuleSet
mode_rule_sets rule = geoip_cn_rule_set ∷ []
mode_rule_sets _ = []

-- planRoute.
unfoldable pub plan_route : Text → Settings → RoutePlan
unfolding final_of mode_rules mode_rule_sets
plan_route final s = record {
  rules =
      (sniff_rule ∷ (if is_tun s.proxy_mode then tun_dns_hijack_rule ∷ [] else []))
      ++ mode_rules s.route_mode;
  rule_sets = mode_rule_sets s.route_mode;
  final = final_of s.route_mode final;
  auto_detect_interface = true;
}

abbrev pub service_rule : Text → Text → Rule
service_rule selector domain = record {
  domain_suffix = domain ∷ [];
  port = [];
  rule_set = [];
  action = route_to selector;
}

-- The rules of the enabled services, a rule for each domain.
unfoldable pub service_rules : List ServiceRoute → List Rule
service_rules [] = []
service_rules (r ∷ rs) =
    (if r.enabled then map (service_rule r.selector) r.domains else []) ++ service_rules rs

-- The order of the service rules: longer suffixes first, and by strings.Compare where they are of
-- one length.
unfoldable pub rule_before : Rule → Rule → Bool
rule_before a b =
    let x = head_or [] a.domain_suffix in
    let y = head_or [] b.domain_suffix in
    if nat_eq (len x) (len y) then text_le x y else ltb (len y) (len x)

-- The service rules stand behind the sniffing and the DNS rule.
unfoldable pub add_service_rules : Settings → List ServiceRoute → RoutePlan → RoutePlan
add_service_rules s routes plan = if is_direct s.route_mode then plan else record plan {
  rules =
      take prefix plan.rules
      ++ (sort_by rule_before (service_rules routes) ++ drop prefix plan.rules);
}
  where
    prefix : ℕ
    prefix = if is_tun s.proxy_mode then 2 else 1

-- planDNS.
unfoldable pub plan_dns : Bool → Option DnsOptions
plan_dns true = some (record {
  server_tag = text "public-dns";
  server = text "119.29.29.29";
  final = text "public-dns";
})
plan_dns false = none

-- The tag and the prefixes of the TUN inbound are the same on all platforms.
tun_inbound : Bool → Inbound
tun_inbound ipv6 = record {
  type = text "tun";
  tag = text "tun";
  options =
      tun_options (text "target0")
        (text "172.18.0.1/30" ∷ (if ipv6 then text "fd00:1:fd00:1::1/126" ∷ [] else [])) 1500 true
        true (text "127.0.0.0/8" ∷ []);
}

-- uint16(n).
abbrev pub to_u16 : ℤ → ℕ
to_u16 (pos n) = n % 65536
to_u16 (negsuc n) = 65535 - n % 65536

mixed_inbound : Option Text → ℤ → Result Error (List Inbound)
mixed_inbound none port = err (invalid_settings listen_address_not_ip)
mixed_inbound (some listen) port = ok (
    record { type = text "mixed"; tag = text "mixed"; options = mixed_options listen (to_u16 port) }
    ∷ [])

inbounds_for : Host → Settings → ProxyMode → Result Error (List Inbound)
unfolding mixed_inbound tun_inbound
inbounds_for host s mixed =
    mixed_inbound (host.parse_addr (trim_space s.listen_address)) s.mixed_port
inbounds_for host s tun = ok (tun_inbound s.ipv6 ∷ [])
inbounds_for host s _ = ok []

-- buildInbounds.
unfoldable pub build_inbounds : Host → Settings → Result Error (List Inbound)
unfolding inbounds_for
build_inbounds host s = if s.probe_only then ok [] else inbounds_for host s s.proxy_mode

slashed : Text → Text
slashed = map (λ c. if nat_eq c 92 then b'/' else c)

is_drive_letter : ℕ → Bool
is_drive_letter c = (leb b'A' c && leb c b'Z') || (leb b'a' c && leb c b'z')

has_drive : Text → Bool
unfolding is_drive_letter
has_drive (c ∷ d ∷ s) = nat_eq d b':' && is_drive_letter c
has_drive _ = false

abs_or : Option Text → Text → Text
abs_or none path = path
abs_or (some absolute) path = absolute

-- singBoxPath.
unfoldable pub sing_box_path : Host → Text → Text
unfolding slashed has_drive abs_or
sing_box_path host path =
    let absolute = slashed (abs_or (host.abs_path path) path) in
    if not host.windows
    then path
    else if has_drive absolute
    then text "//?/" ++ absolute
    else absolute

-- planRuntime.
unfoldable pub plan_runtime : Host → Settings → RuntimePlan
plan_runtime host s =
    let path = trim_space s.cache_file_path in
    if s.probe_only then record { log = none; cache_file = none } else record {
      log = some (text "error", text "target.log");
      cache_file = if path == [] then none else some (sing_box_path host path);
    }

-- The blueprint, once inbounds and outbounds are there. A probe does without the URL test.
unfoldable pub assemble :
    Host → Settings → RuntimeModel → List Inbound → List Outbound → Text → Blueprint
assemble host s model inbounds outbounds final = record {
  inbounds = inbounds;
  outbounds =
      if s.probe_only then keep (λ o. not (o.type == text "urltest")) outbounds else outbounds;
  dns = plan_dns (is_tun s.proxy_mode);
  route = add_service_rules s model.service_routes (plan_route final s);
  runtime = plan_runtime host s;
}

-- planRuntimeModel.
unfoldable pub plan_runtime_model : Host → Settings → RuntimeModel → Result Error Blueprint
unfolding assemble
plan_runtime_model host s model = do
  validate s
  inbounds ← build_inbounds host s
  (outbounds, final) ← plan_outbounds model.node_pool.nodes model.selectors
  ok (assemble host s model inbounds outbounds final)

-- The dynamic types of Build's source.
pub data Source : Type 0 where
  of_profile : Profile → Source
  of_model : RuntimeModel → Source
  unsupported : Source

source_model : Source → Result Error RuntimeModel
source_model (of_profile p) = ok (runtime_model_from_profile p)
source_model (of_model m) = ok m
source_model unsupported = err (invalid_source unsupported_model)

-- Emit marshals a blueprint by sing-box's own encoder and has sing-box check it.
module _ (emit : Blueprint → Result Error Text) where
  -- BuildNormalized.
  unfoldable pub build_normalized : Host → Settings → RuntimeModel → Result Error Text
  build_normalized host s model = do plan ← plan_runtime_model host s model; emit plan

  -- Build.
  unfoldable pub build : Host → Settings → Source → Result Error Text
  unfolding source_model
  build host s source = do
    given ← source_model source
    model ← normalize_runtime_model given
    build_normalized host s model
