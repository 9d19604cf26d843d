-- ===== src/Subscriptions/Handler/Messages.antt =====
-- The conversions of subscriptions/grpc.go between the manager's views and the service's messages.
use target_lib.Base.{
  List, map, Bool, Text, ℕ, ◌*◌, ◌/◌, ◌+◌, ◌-◌, ◌%◌, ℤ, pos, negsuc, sub_ℕ, div_ℤ, Result, ok, err,
  ltb, if◌then◌else◌,
}
use target_lib.Profile.{NodePhase}
use target_lib.Subscriptions.Model.{Status, UpdateStage, EventType, Duration, Time}
use target_lib.Subscriptions.Manager.{NodeView}
use target_lib.Subscriptions.View.{View}

-- google.golang.org/grpc/codes. Messages are left out.
pub data StatusCode : Type 0 where
  not_found already_exists invalid_argument internal cancelled : StatusCode

-- Enumerations are sent as their numbers.
pub record ProfileNode : Type 0 where
  pub tag : Text
  pub name : Text
  pub type : Text
  pub server : Text
  pub port : ℤ
  pub phase : ℕ
  pub error_message : Text
  pub country_code : Text
  pub subscription_id : Text

pub record SubscriptionView : Type 0 where
  pub id : Text
  pub name : Text
  pub source : Text
  pub enabled : Bool
  pub auto_update : Bool
  pub update_interval_seconds : ℤ
  pub status : ℕ
  pub stage : ℕ
  pub profile : List ProfileNode
  pub error_code : Text
  pub error_message : Text
  pub updated_at_unix_ms : ℤ
  pub next_update_at_unix_ms : ℤ
  pub upload_bytes : ℤ
  pub download_bytes : ℤ
  pub total_bytes : ℤ
  pub expires_at_unix_ms : ℤ
  pub title : Text
  pub web_page_url : Text
  pub support_url : Text
  pub moved_permanently_to : Text

unfoldable pub subscription_status : Status → ℕ
subscription_status Status.idle = 1
subscription_status Status.updating = 2
subscription_status Status.ready = 3
subscription_status Status.failed = 4

unfoldable pub subscription_stage : UpdateStage → ℕ
subscription_stage UpdateStage.idle = 1
subscription_stage UpdateStage.fetching = 2
subscription_stage UpdateStage.parsing = 3
subscription_stage UpdateStage.resolving = 4
subscription_stage UpdateStage.persisting = 5
subscription_stage UpdateStage.complete = 6
subscription_stage UpdateStage.failed = 7

unfoldable pub profile_node_phase : NodePhase → ℕ
profile_node_phase NodePhase.discovered = 1
profile_node_phase NodePhase.normalized = 2
profile_node_phase NodePhase.ready = 3
profile_node_phase NodePhase.failed = 4

unfoldable pub subscription_event_type : EventType → ℕ
subscription_event_type EventType.added = 1
subscription_event_type EventType.updated = 2
subscription_event_type EventType.removed = 3
subscription_event_type EventType.stage = 4

-- From Go's zero time to 1970, in milliseconds.
abbrev pub unix_epoch : ℕ
unix_epoch = 62135596800000

-- unixMilliseconds: 0 for the zero time. A time before it is not met.
unfoldable pub unix_milliseconds : Time → ℤ
unix_milliseconds (pos n) = if ltb 0 n then sub_ℕ (n / 1000000) unix_epoch else pos 0
unix_milliseconds (negsuc n) = negsuc (n / 1000000 + unix_epoch)

-- int32(n).
abbrev pub to_int32 : ℤ → ℤ
to_int32 (pos n) =
    if ltb (n % 4294967296) 2147483648
    then pos (n % 4294967296)
    else negsuc (4294967295 - n % 4294967296)
to_int32 (negsuc n) =
    if ltb (n % 4294967296) 2147483648
    then negsuc (n % 4294967296)
    else pos (4294967295 - n % 4294967296)

unfoldable pub grpc_profile_node : NodeView → ProfileNode
grpc_profile_node n = record {
  tag = n.tag;
  name = n.name;
  type = n.type;
  server = n.server;
  port = to_int32 n.port;
  phase = profile_node_phase n.phase;
  error_message = n.error;
  country_code = n.country_code;
  subscription_id = n.subscription_id;
}

unfoldable pub grpc_subscription_view : View → SubscriptionView
grpc_subscription_view v = record {
  id = v.id;
  name = v.name;
  source = v.source;
  enabled = v.enabled;
  auto_update = v.auto_update;
  update_interval_seconds = div_ℤ v.update_interval 1000000000;
  status = subscription_status v.status;
  stage = subscription_stage v.stage;
  profile = map grpc_profile_node v.profile;
  error_code = v.error_code;
  error_message = v.error;
  updated_at_unix_ms = unix_milliseconds v.updated_at;
  next_update_at_unix_ms = unix_milliseconds v.next_update_at;
  upload_bytes = v.upload_bytes;
  download_bytes = v.download_bytes;
  total_bytes = v.total_bytes;
  expires_at_unix_ms = unix_milliseconds v.expires_at;
  title = v.title;
  web_page_url = v.web_page_url;
  support_url = v.support_url;
  moved_permanently_to = v.moved_permanently_to;
}

-- The seconds of an int64 in nanoseconds.
abbrev pub max_duration_seconds : ℕ
max_duration_seconds = 9223372036

unfoldable pub subscription_duration : ℤ → Result StatusCode Duration
subscription_duration (negsuc n) = err StatusCode.invalid_argument
subscription_duration (pos n) =
    if ltb max_duration_seconds n
    then err StatusCode.invalid_argument
    else ok (pos (n * 1000000000))
