-- ===== src/Subscriptions/Update.antt =====
-- subscriptions/manager.go and endpoints.go: an update from the provider, from Update to commit.
pub mod Outcome
use target_lib.Base.{
  List, [], ◌∷◌, Option, none, some, ℕ, zero, suc, Text, text, ◌==◌, Bool, true, false, not, Result,
  ok, err, ℤ, pos, ltb_ℤ, leb_ℤ, ◌&&◌, div_ℤ, ◌+ℤ◌, ◌-ℤ◌, is_empty, if◌then◌else◌, ◌*◌, split,
  trim_space, to_lower, nat_eq, contains, sort_by, text_le, ◌||◌, ◌++◌,
}
use target_lib.Profile.{Profile, Node, NodePhase}
use target_lib.Profile.Identity.{Digest, with_source}
use target_lib.Subscriptions.Model.{
  Subscription, Error, fetch_failed, parse_failed, Status, UpdateStage, UpdateResult, Time,
  Duration, lookup,
}
use target_lib.Subscriptions.Store.{Store}
use target_lib.Subscriptions.Coordinator.{Items, Built, World, Delivery, submit}
use target_lib.Subscriptions.Coordinator.Commands.{begin_update, set_stage, commit}
use target_lib.Subscriptions.Fetching.{
  FetchResponse, ParsedProfile, Services, Usage, addresses_of, apply_header_metadata, cut,
  default_interval, endpoint_set, failure_delay, include, include_all, is_ready, is_zero,
  minimum_interval, minute, note_usage, or_kept, parse_user_info, resolve_endpoints, usage_of,
  user_info_parts,
}

-- A path through updateClaimed: readings of the clock (at the start, for UpdatedAt, at the end), how
-- each submit goes, and what other commands did to the world just before it. A submit is named by
-- the stage it is for, beginUpdate's by `idle` and the commit by `complete`.
pub record PathTaken (S : Store) : Type 0 where
  pub services : Services
  pub started : Time
  pub updated_at : Time
  pub ended : Time
  pub deliver : UpdateStage → Delivery
  pub others : UpdateStage → World S → World S

-- `UpdateResult{}` and its Subscription.
abbrev pub no_subscription : Subscription
no_subscription = record {
  id = [];
  name = [];
  url = [];
  enabled = false;
  auto_update = false;
  update_interval = pos 0;
  headers = [];
  status = Status.idle;
  stage = UpdateStage.idle;
  profile = record { nodes = [] };
  nodes_hash = [];
  etag = [];
  last_modified = [];
  error_code = [];
  error = [];
  updated_at = pos 0;
  next_update_at = pos 0;
  upload_bytes = pos 0;
  download_bytes = pos 0;
  total_bytes = pos 0;
  resolved_endpoints = [];
  expires_at = pos 0;
  title = [];
  web_page_url = [];
  support_url = [];
  moved_permanently_to = [];
}

abbrev pub no_result : UpdateResult
no_result = record {
  subscription = no_subscription;
  changed = false;
  not_modified = false;
  duration = pos 0;
  original_config = [];
}

-- The error a caller hears: none for nil, several if they were joined.
abbrev pub Outcome : Type 0
Outcome = UpdateResult × List Error

module _ (S : Store) (P : PathTaken S) where
  -- The submit of a stage; the store hears of a commit alone, under a context that does not end.
  unfoldable pub submit_at : UpdateStage → (Items → Built) → World S → World S × Option Error
  submit_at stage build w = submit S (P.deliver stage) none build (P.others stage w)

  -- setStage drops the error.
  abbrev pub enter : Text → UpdateStage → World S → World S
  enter id stage w = (submit_at stage (set_stage id stage) w).0

  abbrev pub commit_at : Subscription → Subscription → World S → World S × Option Error
  commit_at item persisted =
      submit_at UpdateStage.complete (commit P.services.digest item persisted)

  -- failUpdate.
  abbrev pub failed_item : Text → Text → Subscription → Subscription
  failed_item code cause item = record item {
    status = Status.failed;
    stage = UpdateStage.failed;
    error_code = code;
    error = cause;
    updated_at = P.updated_at;
    next_update_at = P.updated_at +ℤ failure_delay item.update_interval;
  }

  abbrev pub answer_failed :
      Subscription → Subscription → Error → World S × Option Error → World S × Outcome
  answer_failed item previous cause (w, none) =
      (w, (record no_result { subscription = item; duration = P.ended -ℤ P.started }, cause ∷ []))
  answer_failed item previous cause (w, some e) = (
    w,
    (record no_result { subscription = previous; duration = P.ended -ℤ P.started }, cause ∷ e ∷ []),
  )

  unfoldable pub fail_update : Text → Text → Error → Subscription → World S → World S × Outcome
  fail_update code text cause item w =
      answer_failed (failed_item code text item) item cause
        (commit_at (failed_item code text item) item w)

  -- The fields that both successful ends set, and the headers, and the times.
  abbrev pub completed : FetchResponse → Subscription → Subscription
  completed r item = apply_header_metadata P.services r (record item {
    status = Status.ready;
    stage = UpdateStage.complete;
    error = [];
    error_code = [];
  })

  abbrev pub timed : Subscription → Subscription
  timed item = record item {
    updated_at = P.updated_at;
    next_update_at = P.updated_at +ℤ item.update_interval;
  }

  unfoldable pub unmodified_item : FetchResponse → Subscription → Subscription
  unmodified_item r item = timed (
      completed r (record item {
        etag = or_kept P.services r.etag item.etag;
        last_modified = or_kept P.services r.last_modified item.last_modified;
      }))

  unfoldable pub fetched_item : FetchResponse → ParsedProfile → Subscription → Subscription
  fetched_item r p item = timed (
      completed r (record item {
        profile = with_source P.services.digest item.id p.profile;
        nodes_hash = p.nodes_hash;
        resolved_endpoints = resolve_endpoints P.services p.profile.nodes;
        etag = r.etag;
        last_modified = r.last_modified;
      }))

  abbrev pub answer : UpdateResult → World S × Option Error → World S × Outcome
  answer result (w, none) = (w, (record result { duration = P.ended -ℤ P.started }, []))
  answer result (w, some e) = (w, (no_result, e ∷ []))

  -- A body that was parsed: resolve, persist, commit.
  unfoldable pub store_fetched :
      FetchResponse → ParsedProfile → Subscription → World S → World S × Outcome
  store_fetched r p item w =
      answer
        (record no_result {
          subscription = fetched_item r p item;
          changed = not (item.nodes_hash == p.nodes_hash);
          original_config = r.body;
        })
        (commit_at (fetched_item r p item) item
          (enter item.id UpdateStage.persisting (enter item.id UpdateStage.resolving w)))

  unfoldable pub store_unmodified : FetchResponse → Subscription → World S → World S × Outcome
  store_unmodified r item w =
      answer (record no_result { subscription = unmodified_item r item; not_modified = true })
        (commit_at (unmodified_item r item) item w)

  unfoldable pub take_response : FetchResponse → Subscription → World S → World S × Outcome
  take_response r item w = elim r.not_modified as (λ b. World S × Outcome) [
    | true ↦ store_unmodified r item w
    | false ↦ elim (P.services.parse r.body) [
      | err cause ↦
          fail_update (text "parse") cause (parse_failed cause) item
            (enter item.id UpdateStage.parsing w)
      | ok p ↦ store_fetched r p item (enter item.id UpdateStage.parsing w)
    ]
  ]

  -- updateClaimed, on the item as it was when the update began.
  unfoldable pub update_claimed : Subscription → World S → World S × Outcome
  update_claimed item w = elim (P.services.fetch item) [
    | err cause ↦
        fail_update (text "fetch") cause (fetch_failed cause) item
          (enter item.id UpdateStage.fetching w)
    | ok r ↦ take_response r item (enter item.id UpdateStage.fetching w)
  ]

  -- The function that Update runs at most once at a time for an ID.
  abbrev pub claim : Option Subscription → World S × Option Error → World S × Outcome
  claim seen (w, some e) = (w, (no_result, e ∷ []))
  claim none (w, none) = (w, (no_result, []))
  claim (some item) (w, none) = update_claimed item w

  unfoldable pub update : Text → World S → World S × Outcome
  update id w =
      claim (lookup (P.others UpdateStage.idle w).items id)
        (submit_at UpdateStage.idle (begin_update id) w)
