-- ===== src/Config/Settings.antt =====
-- config/settings.go: the settings of a configuration, and their validation.
use target_lib.Base.{
  Bool, false, not, ◌||◌, [], ◌∷◌, Text, ◌==◌, trim_space, nat_eq, Result, ok, err, ◌>>◌, refuse_if,
  ℤ, pos, leb_ℤ,
}

-- Both modes are strings in the source; `other` holds a string that is none of the constants.
pub data ProxyMode : Type 0 where
  mixed tun : ProxyMode
  other : Text → ProxyMode

pub data RouteMode : Type 0 where
  rule direct all : RouteMode
  other : Text → RouteMode

pub record Settings : Type 0 where
  pub probe_only : Bool
  pub listen_address : Text
  pub mixed_port : ℤ
  pub proxy_mode : ProxyMode
  pub ipv6 : Bool
  pub cache_file_path : Text
  pub route_mode : RouteMode

pub data SettingsFault : Type 0 where
  bad_listen_address bad_mixed_port unknown_proxy_mode unknown_route_mode : SettingsFault
  listen_address_not_ip : SettingsFault

-- The messages of ErrInvalidSource, each with what it names.
pub data SourceFault : Type 0 where
  invalid_node_id invalid_tag duplicate_selector bad_member no_selected : SourceFault
  no_service_id default_service duplicate_service dependent_selector no_domains : SourceFault
  invalid_domain : Text → SourceFault
  duplicate_domain : (owner service : Text) → SourceFault
  reserved_outbound : Text → SourceFault
  no_valid_nodes selected_not_member : Text → SourceFault
  unsupported_model : SourceFault

-- ErrInvalidSettings and ErrInvalidSource.
pub data Error : Type 0 where
  invalid_settings : SettingsFault → Error
  invalid_source : SourceFault → Error

-- strings.ContainsAny(s, "\r\n").
unfoldable pub has_line_break : Text → Bool
has_line_break [] = false
has_line_break (c ∷ s) = nat_eq c 13 || nat_eq c 10 || has_line_break s

check_proxy_mode : ProxyMode → Result Error (Unit {0})
check_proxy_mode mixed = ok tt
check_proxy_mode tun = ok tt
check_proxy_mode (other s) = err (invalid_settings unknown_proxy_mode)

-- The empty string counts as the mode "rule" here.
check_route_mode : RouteMode → Result Error (Unit {0})
check_route_mode rule = ok tt
check_route_mode direct = ok tt
check_route_mode all = ok tt
check_route_mode (other s) = refuse_if (not (s == [])) (invalid_settings unknown_route_mode)

-- Settings.Validate.
unfoldable pub validate : Settings → Result Error (Unit {0})
unfolding check_proxy_mode check_route_mode
validate s = do
  let address = trim_space s.listen_address
  refuse_if (address == [] || has_line_break address) (invalid_settings bad_listen_address)
  refuse_if (leb_ℤ s.mixed_port (pos 0) || leb_ℤ (pos 65536) s.mixed_port)
      (invalid_settings bad_mixed_port)
  check_proxy_mode s.proxy_mode
  check_route_mode s.route_mode
