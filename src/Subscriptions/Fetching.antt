-- ===== src/Subscriptions/Fetching.antt =====
-- What an update of subscriptions/manager.go calls: the answers of fetching and parsing, the usage in
-- response headers, the endpoints of endpoints.go, and the delay after a failure.
pub mod Endpoints
pub mod Http
pub mod Client
pub mod Fetched
use target_lib.Base.{
  List, [], ◌∷◌, Option, none, some, ℕ, zero, suc, Text, text, ◌==◌, Bool, true, false, not, Result,
  ok, err, ℤ, pos, ltb_ℤ, leb_ℤ, ◌&&◌, div_ℤ, ◌+ℤ◌, ◌-ℤ◌, is_empty, if◌then◌else◌, ◌*◌, split,
  trim_space, to_lower, nat_eq, contains, sort_by, text_le, ◌||◌, ◌++◌,
}
use target_lib.Profile.{Profile, Node, NodePhase}
use target_lib.Profile.Identity.{Digest, with_source}
use target_lib.Subscriptions.Model.{
  Subscription, Error, fetch_failed, parse_failed, Status, UpdateStage, UpdateResult, Time,
  Duration, lookup,
}
use target_lib.Subscriptions.Store.{Store}
use target_lib.Subscriptions.Coordinator.{Items, Built, World, Delivery, submit}
use target_lib.Subscriptions.Coordinator.Commands.{begin_update, set_stage, commit}

-- FetchResponse of subscriptions/fetcher.go.
pub record FetchResponse : Type 0 where
  pub body : Text
  pub etag : Text
  pub last_modified : Text
  pub user_info : Text
  pub not_modified : Bool
  pub suggested_interval : Duration
  pub expires_at : Time
  pub title : Text
  pub web_page_url : Text
  pub support_url : Text
  pub moved_permanently_to : Text

-- ParsedProfile of subscriptions/parser.go.
pub record ParsedProfile : Type 0 where
  pub profile : Profile
  pub nodes_hash : Text

-- What an update calls: the Fetcher, the parser of profile/parser.go, netip.ParseAddr with Unmap
-- and String, the Resolver, the value that strconv.ParseInt returns, and the digests.
pub record Services : Type 0 where
  pub fetch : Subscription → Result Text FetchResponse
  pub parse : Text → Result Text ParsedProfile
  pub parse_addr : Text → Option Text
  pub lookup_net_ip : Text → Option (List Text)
  pub parse_int : Text → ℤ
  pub digest : Digest

-- time.Second, time.Minute and the bounds of update intervals.
abbrev pub minute : Duration
minute = pos 60000000000

abbrev pub minimum_interval : Duration
minimum_interval = pos 300000000000

abbrev pub default_interval : Duration
default_interval = pos 43200000000000

-- failureDelay: an eighth of the interval, from one minute to thirty.
unfoldable pub failure_delay : Duration → Duration
failure_delay interval =
    if ltb_ℤ (div_ℤ interval 8) minute
    then minute
    else if ltb_ℤ (pos 1800000000000) (div_ℤ interval 8)
    then pos 1800000000000
    else div_ℤ interval 8

-- What parseUserInfo returns.
pub record Usage : Type 0 where
  pub upload : ℤ
  pub download : ℤ
  pub total : ℤ

-- strings.SplitN(part, "=", 2), none without a separator.
unfoldable pub cut : ℕ → Text → Option (Text × Text)
cut sep [] = none
cut sep (c ∷ s) = elim (nat_eq c sep) [
  | true ↦ some ([], s)
  | false ↦ elim (cut sep s) [ none ↦ none | some p ↦ some (c ∷ p.0, p.1) ]
]

-- The switch of parseUserInfo.
unfoldable pub note_usage : Text → ℤ → Usage → Usage
note_usage key n u =
    if key == text "upload"
    then record u { upload = n }
    else if key == text "download"
    then record u { download = n }
    else if key == text "total"
    then record u { total = n }
    else u

module _ (V : Services) where
  unfoldable pub user_info_parts : List Text → Usage → Usage
  user_info_parts [] u = u
  user_info_parts (p ∷ ps) u = elim (cut b'=' (trim_space p)) [
    | none ↦ user_info_parts ps u
    | some pair ↦ user_info_parts ps (note_usage (to_lower pair.0) (V.parse_int pair.1) u)
  ]

  unfoldable pub parse_user_info : Text → Usage
  parse_user_info value =
      user_info_parts (split b';' value)
        (record { upload = pos 0; download = pos 0; total = pos 0 })

  -- The set of ResolveEndpoints, in the order its members were first met.
  abbrev pub include : List Text → Text → List Text
  include set a = if contains set a then set else set ++ a ∷ []

  abbrev pub include_all : List Text → List Text → List Text
  include_all set [] = set
  include_all set (a ∷ more) = include_all (include set a) more

  abbrev pub is_ready : NodePhase → Bool
  is_ready NodePhase.ready = true
  is_ready _ = false

  -- The addresses of one node: the server itself if it is one, else what its name resolves to.
  unfoldable pub addresses_of : Node → List Text
  addresses_of n = elim (not (is_ready n.phase) || is_empty n.server) [
    | true ↦ []
    | false ↦ elim (V.parse_addr n.server) [
      | some a ↦ a ∷ []
      | none ↦ elim (V.lookup_net_ip n.server) [ none ↦ [] | some found ↦ found ]
    ]
  ]

  unfoldable pub endpoint_set : List Text → List Node → List Text
  endpoint_set set [] = set
  endpoint_set set (n ∷ ns) = endpoint_set (include_all set (addresses_of n)) ns

  unfoldable pub resolve_endpoints : List Node → List Text
  resolve_endpoints nodes = sort_by text_le (endpoint_set [] nodes)

  -- applyHeaderMetadata: a header that is missing leaves the field as it is.
  abbrev pub or_kept : Text → Text → Text
  or_kept new old = if is_empty new then old else new

  abbrev pub usage_of : FetchResponse → Subscription → Usage
  usage_of r item =
      if is_empty r.user_info
      then (record {
        upload = item.upload_bytes;
        download = item.download_bytes;
        total = item.total_bytes;
      })
      else parse_user_info r.user_info

  abbrev pub is_zero : Time → Bool
  is_zero t = leb_ℤ t (pos 0) && leb_ℤ (pos 0) t

  unfoldable pub apply_header_metadata : FetchResponse → Subscription → Subscription
  apply_header_metadata r item = record item {
    upload_bytes = (usage_of r item).upload;
    download_bytes = (usage_of r item).download;
    total_bytes = (usage_of r item).total;
    expires_at = if is_zero r.expires_at then item.expires_at else r.expires_at;
    title = or_kept r.title item.title;
    web_page_url = or_kept r.web_page_url item.web_page_url;
    support_url = or_kept r.support_url item.support_url;
    moved_permanently_to = or_kept r.moved_permanently_to item.moved_permanently_to;
    update_interval =
        if leb_ℤ minimum_interval r.suggested_interval
        then r.suggested_interval
        else item.update_interval;
  }
