-- ===== src/Profile.antt =====
-- profile/model.go: the nodes of a subscription, between parsing and configuration.
-- profile/identity.go is in the child Identity.
pub mod Identity
pub mod Country
pub mod Json
pub mod Parser
use target_lib.Base.{Bool, true, false, not, ◌&&◌, List, Option, ℕ, Text, is_some, ℤ}

pub data NodePhase : Type 0 where
  discovered normalized ready failed : NodePhase

-- option.Outbound of sing-box, as far as TargetLib fills it in. `provider` stands for the options
-- decoded from a subscription, which are carried whole and never looked into.
pub data OutboundOptions : Type 0 where
  provider : Text → OutboundOptions
  direct_options : OutboundOptions
  selector_options : (outbounds : List Text) (default : Text) → OutboundOptions
  urltest_options : (outbounds : List Text) (url : Text) (interval tolerance : ℕ) → OutboundOptions

pub record Outbound : Type 0 where
  pub type : Text
  pub tag : Text
  pub options : OutboundOptions

pub record Node : Type 0 where
  pub id : Text
  pub subscription_id : Text
  pub name : Text
  pub type : Text
  pub country_code : Text
  pub server : Text
  pub port : ℤ
  pub phase : NodePhase
  pub error : Text
  pub outbound_json : Text
  pub outbound : Option Outbound

abbrev pub is_failed : NodePhase → Bool
is_failed failed = true
is_failed _ = false

-- Node.IsAvailable.
unfoldable pub is_available : Node → Bool
is_available n = is_some n.outbound && not (is_failed n.phase)

pub record Profile : Type 0 where
  pub nodes : List Node
