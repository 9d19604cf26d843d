-- ===== src/Subscriptions/View.antt =====
-- View of subscriptions/model.go and how subscriptions/manager.go makes it: a subscription without
-- its headers, its validators and the settings of its nodes.
use target_lib.Base.{Bool, false, List, [], map, Option, none, some, Text, ℤ, pos}
use target_lib.Subscriptions.Model.{Subscription, Status, UpdateStage, Time, Duration, lookup}
use target_lib.Subscriptions.Coordinator.{Items}
use target_lib.Subscriptions.Normalize.{Urls, Url}
use target_lib.Subscriptions.Manager.{NodeView, profile_view, list}

pub record View : Type 0 where
  pub id : Text
  pub name : Text
  pub source : Text
  pub enabled : Bool
  pub auto_update : Bool
  pub update_interval : Duration
  pub status : Status
  pub stage : UpdateStage
  pub profile : List NodeView
  pub error_code : Text
  pub error : Text
  pub updated_at : Time
  pub next_update_at : Time
  pub upload_bytes : ℤ
  pub download_bytes : ℤ
  pub total_bytes : ℤ
  pub expires_at : Time
  pub title : Text
  pub web_page_url : Text
  pub support_url : Text
  pub moved_permanently_to : Text

module _ (L : Urls) where
  abbrev pub host_or_empty : Option Url → Text
  host_or_empty none = []
  host_or_empty (some u) = u.host

  unfoldable pub source_host : Text → Text
  source_host raw = host_or_empty (L.parse raw)

  unfoldable pub subscription_view : Subscription → View
  subscription_view s = record {
    id = s.id;
    name = s.name;
    source = source_host s.url;
    enabled = s.enabled;
    auto_update = s.auto_update;
    update_interval = s.update_interval;
    status = s.status;
    stage = s.stage;
    profile = profile_view s.profile;
    error_code = s.error_code;
    error = s.error;
    updated_at = s.updated_at;
    next_update_at = s.next_update_at;
    upload_bytes = s.upload_bytes;
    download_bytes = s.download_bytes;
    total_bytes = s.total_bytes;
    expires_at = s.expires_at;
    title = s.title;
    web_page_url = s.web_page_url;
    support_url = s.support_url;
    moved_permanently_to = s.moved_permanently_to;
  }

  -- View{}.
  abbrev pub no_view : View
  no_view = record {
    id = [];
    name = [];
    source = [];
    enabled = false;
    auto_update = false;
    update_interval = pos 0;
    status = Status.idle;
    stage = UpdateStage.idle;
    profile = [];
    error_code = [];
    error = [];
    updated_at = pos 0;
    next_update_at = pos 0;
    upload_bytes = pos 0;
    download_bytes = pos 0;
    total_bytes = pos 0;
    expires_at = pos 0;
    title = [];
    web_page_url = [];
    support_url = [];
    moved_permanently_to = [];
  }

  abbrev pub view_if : Option Subscription → Option View
  view_if none = none
  view_if (some s) = some (subscription_view s)

  -- View and Views.
  unfoldable pub view : Items → Text → Option View
  view items id = view_if (lookup items id)

  unfoldable pub views : Items → List View
  views items = map subscription_view (list items)
