-- ===== src/Subscriptions/Model.antt =====
-- subscriptions/model.go: subscriptions, requests, results and events.
-- Go's clone functions copy what maps and slices share; on values, as here, they change nothing.
use target_lib.Base.{Bool, List, [], ◌∷◌, Option, none, some, Text, ◌==◌, ℤ, if◌then◌else◌}
use target_lib.Profile.{Profile}

-- time.Duration, in nanoseconds.
abbrev pub Duration : Type 0
Duration = ℤ

-- time.Time, in nanoseconds from Go's zero time, so that IsZero is a test for 0.
abbrev pub Time : Type 0
Time = ℤ

-- The sentinel errors, those of the coordinator, and the failures of what the package calls.
pub data Error : Type 0 where
  not_found already_exists : Text → Error
  id_required name_required invalid_url https_required interval_too_short : Error
  manager_closed no_state cancelled : Error
  store_failed fetch_failed parse_failed : Text → Error

pub data Status : Type 0 where
  idle updating ready failed : Status

pub data UpdateStage : Type 0 where
  idle fetching parsing resolving persisting complete failed : UpdateStage

pub record Subscription : Type 0 where
  pub id : Text
  pub name : Text
  pub url : Text
  pub enabled : Bool
  pub auto_update : Bool
  pub update_interval : Duration
  pub headers : List (Text × Text)
  pub status : Status
  pub stage : UpdateStage
  pub profile : Profile
  pub nodes_hash : Text
  pub etag : Text
  pub last_modified : Text
  pub error_code : Text
  pub error : Text
  pub updated_at : Time
  pub next_update_at : Time
  pub upload_bytes : ℤ
  pub download_bytes : ℤ
  pub total_bytes : ℤ
  pub resolved_endpoints : List Text
  pub expires_at : Time
  pub title : Text
  pub web_page_url : Text
  pub support_url : Text
  pub moved_permanently_to : Text

pub record AddRequest : Type 0 where
  pub id : Text
  pub name : Text
  pub url : Text
  pub enabled : Bool
  pub auto_update : Bool
  pub update_interval : Duration
  pub headers : List (Text × Text)

pub record UpdateResult : Type 0 where
  pub subscription : Subscription
  pub changed : Bool
  pub not_modified : Bool
  pub duration : Duration
  pub original_config : Text

pub data EventType : Type 0 where
  added updated removed stage : EventType

-- pendingEvent of subscriptions/coordinator.go.
pub record PendingEvent : Type 0 where
  pub type : EventType
  pub item : Subscription

-- Maps keyed by subscription ID. Writing to a key that is there replaces its entry.
unfoldable pub lookup : List (Text × Subscription) → Text → Option Subscription
lookup [] id = none
lookup ((k, s) ∷ m) id = if k == id then some s else lookup m id

unfoldable pub insert :
    Text → Subscription → List (Text × Subscription) → List (Text × Subscription)
insert id s [] = (id, s) ∷ []
insert id s ((k, t) ∷ m) = if k == id then (id, s) ∷ m else (k, t) ∷ insert id s m

unfoldable pub delete : Text → List (Text × Subscription) → List (Text × Subscription)
delete id [] = []
delete id ((k, t) ∷ m) = if k == id then delete id m else (k, t) ∷ delete id m
