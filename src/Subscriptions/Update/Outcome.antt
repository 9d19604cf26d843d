-- ===== src/Subscriptions/Update/Outcome.antt =====
-- How an update of subscriptions/manager.go ends.
use target_lib.Base.{
  ◌≢◌, ◌≡◌, refl, sym, ap, subst, ◌∙◌, [], ◌∷◌, Option, none, some, Text, text, ◌==◌, eq_refl, true,
  false, not, Bool-cases, Result-cases, ok, err, ◌-ℤ◌, inl, inr, ◌⊎◌,
}
use target_lib.Profile.Identity.{Digest, with_source}
use target_lib.Subscriptions.Model.{
  Subscription, Error, fetch_failed, parse_failed, Status, UpdateStage, UpdateResult, lookup,
  insert,
}
use target_lib.Subscriptions.Maps.{lookup-insert_here, some-injective}
use target_lib.Subscriptions.Store.{Store, Write}
use target_lib.Subscriptions.Coordinator.{World, delivered, submit, run_command, apply_mutation}
use target_lib.Subscriptions.Coordinator.Commands.{commit, begin_update}
use target_lib.Subscriptions.Update.{
  PathTaken, no_result, submit_at, commit_at, failed_item, fail_update, answer, answer_failed,
  Outcome, unmodified_item, fetched_item, store_fetched, store_unmodified, take_response,
  update_claimed, update,
}
use target_lib.Subscriptions.Fetching.{
  FetchResponse, ParsedProfile, apply_header_metadata, resolve_endpoints,
}

-- Item as commit stores it.
abbrev pub sourced : Digest → Subscription → Subscription
sourced D item = record item { profile = with_source D item.id item.profile }

-- The two ends of a commit: the new item is stored and stands under its ID, or the store refuses it
-- and the one before it does.
abbrev Committed :
    (S : Store) → Digest → Subscription → Subscription → World S × Option Error → Type 0
Committed S D item previous r =
    ((r.1 ≡ none)
      × (lookup r.0.items item.id ≡ some (sourced D item))
      × (s : S.State) × (S.update none s (Write.put (sourced D item)) ≡ ok r.0.store))
    ⊎ ((e : Error) × (r.1 ≡ some e)
        × (lookup r.0.items item.id ≡ some previous)
        × (S.update none r.0.store (Write.put (sourced D item)) ≡ err e))

run_commit-Committed :
    (S : Store) (D : Digest) (item previous : Subscription) (w : World S)
    → Committed S D item previous (run_command S none (commit D item previous) w)
unfolding run_command commit apply_mutation
run_commit-Committed S D item previous w =
    elim (Result-cases (S.update none w.store (Write.put (sourced D item)))) [
      | inl (saved, u) ↦ rw (apply_mutation, u) (inl (refl, here (sourced D item), w.store, u))
      | inr (e, u) ↦ rw (apply_mutation, u) (inr (e, refl, here previous, u))
    ]
  where
    here : (t : Subscription) → lookup (insert item.id t w.items) item.id ≡ some t
    here t = lookup-insert_here w.items item.id item.id t (eq_refl item.id)

module _ (S : Store) (P : PathTaken S) where
  -- What fetching and parsing gave, and the error that it makes of an update.
  abbrev pub IsCause : Subscription → Error → Type 0
  IsCause item e =
      ((cause : Text) × (P.services.fetch item ≡ err cause) × (e ≡ fetch_failed cause))
      ⊎ ((response : FetchResponse) × (cause : Text) × (P.services.fetch item ≡ ok response)
          × (response.not_modified ≡ false)
          × (P.services.parse response.body ≡ err cause)
          × (e ≡ parse_failed cause))

  -- What a new profile makes of an item.
  pub record IsRenewed (item : Subscription) (response : FetchResponse) (parsed : ParsedProfile)
      (u : UpdateResult) : Type 0 where
    pub fetched : P.services.fetch item ≡ ok response
    pub modified : response.not_modified ≡ false
    pub parsed_as : P.services.parse response.body ≡ ok parsed
    pub status : u.subscription.status ≡ Status.ready
    pub stage : u.subscription.stage ≡ UpdateStage.complete
    pub profile : u.subscription.profile ≡ with_source P.services.digest item.id parsed.profile
    pub nodes_hash : u.subscription.nodes_hash ≡ parsed.nodes_hash
    pub resolved_endpoints :
        u.subscription.resolved_endpoints ≡ resolve_endpoints P.services parsed.profile.nodes
    pub etag : u.subscription.etag ≡ response.etag
    pub last_modified : u.subscription.last_modified ≡ response.last_modified
    pub changed : u.changed ≡ not (item.nodes_hash == parsed.nodes_hash)
    pub not_modified : u.not_modified ≡ false
    pub original_config : u.original_config ≡ response.body

  -- What an answer without a new profile makes of an item.
  pub record IsConfirmed (item : Subscription) (response : FetchResponse) (u : UpdateResult)
      : Type 0 where
    pub fetched : P.services.fetch item ≡ ok response
    pub unmodified : response.not_modified ≡ true
    pub status : u.subscription.status ≡ Status.ready
    pub stage : u.subscription.stage ≡ UpdateStage.complete
    pub profile : u.subscription.profile ≡ item.profile
    pub nodes_hash : u.subscription.nodes_hash ≡ item.nodes_hash
    pub resolved_endpoints : u.subscription.resolved_endpoints ≡ item.resolved_endpoints
    pub changed : u.changed ≡ false
    pub not_modified : u.not_modified ≡ true

  -- What a failure makes of an item.
  pub record IsFailed (item : Subscription) (u : UpdateResult) : Type 0 where
    pub status : u.subscription.status ≡ Status.failed
    pub stage : u.subscription.stage ≡ UpdateStage.failed
    pub profile : u.subscription.profile ≡ item.profile
    pub nodes_hash : u.subscription.nodes_hash ≡ item.nodes_hash
    pub resolved_endpoints : u.subscription.resolved_endpoints ≡ item.resolved_endpoints
    pub changed : u.changed ≡ false

  abbrev pub Succeeds : Subscription → UpdateResult → Type 0
  Succeeds item u =
      ((response : FetchResponse) × (parsed : ParsedProfile) × IsRenewed item response parsed u)
      ⊎ ((response : FetchResponse) × IsConfirmed item response u)

  -- Under the ID is the result's item, with its nodes' identities, and the store has taken it.
  abbrev pub IsKept : Subscription → World S → UpdateResult → Type 0
  IsKept item w u =
      (lookup w.items item.id ≡ some (sourced P.services.digest u.subscription))
      × (s : S.State) × (S.update none s (Write.put (sourced P.services.digest u.subscription))
          ≡ ok w.store)

  -- Where an update of an item has come to, once its commit was heard.
  pub data Ended (item : Subscription) : World S × Outcome → Type 0 where
    succeeded :
        (w : World S) (u : UpdateResult)
        → Succeeds item u
        → IsKept item w u
        → Ended item (w, (u, []))
    recorded :
        (w : World S) (u : UpdateResult) (cause : Error)
        → IsCause item cause
        → IsFailed item u
        → IsKept item w u
        → Ended item (w, (u, cause ∷ []))
    undone :
        (w : World S) (u : UpdateResult) (refused : Subscription) (e : Error)
        → S.update none w.store (Write.put refused) ≡ err e
        → refused.status ≡ Status.ready
        → lookup w.items item.id ≡ some item
        → Ended item (w, (u, e ∷ []))
    unrecorded :
        (w : World S) (u : UpdateResult) (cause : Error) (refused : Subscription) (e : Error)
        → IsCause item cause
        → S.update none w.store (Write.put refused) ≡ err e
        → refused.status ≡ Status.failed
        → lookup w.items item.id ≡ some item
        → Ended item (w, (u, cause ∷ e ∷ []))

module _ (S : Store) (P : PathTaken S) (reached : P.deliver UpdateStage.complete ≡ delivered) where
  abbrev D : Digest
  D = P.services.digest

  commit_at-Committed :
      (item previous : Subscription) (w : World S)
      → Committed S D item previous (commit_at S P item previous w)
  unfolding submit_at submit
  commit_at-Committed item previous w =
      subst
        (λ d.
          Committed S D item previous
            (submit S d none (commit D item previous) (P.others UpdateStage.complete w)))
        (sym reached) (run_commit-Committed S D item previous (P.others UpdateStage.complete w))

  answer-Ended :
      (rest : UpdateResult) (item previous : Subscription) (r : World S × Option Error)
      → item.status ≡ Status.ready
      → item.id ≡ previous.id
      → Succeeds S P previous (record rest { subscription = item; duration = P.ended -ℤ P.started })
      → Committed S D item previous r
      → Ended S P previous (answer S P (record rest { subscription = item }) r)
  answer-Ended rest item previous (w, none) s k good (inl (e, l, taken_by, stored)) =
      succeeded w _ good (ap (lookup w.items) (sym k) ∙ l, taken_by, stored)
  answer-Ended rest item previous (w, none) s k good (inr (e, u, l, x)) = cc
  answer-Ended rest item previous (w, some e) s k good (inl (u, l, x, t)) = cc
  answer-Ended rest item previous (w, some e) s k good (inr (found, u, l, refused)) =
      undone w _ (sourced D item) e (refused ∙ ap err (sym (some-injective u))) s
        (ap (lookup w.items) (sym k) ∙ l)

  answer_failed-Ended :
      (item : Subscription) (code text : Text) (cause : Error) (r : World S × Option Error)
      → IsCause S P item cause
      → Committed S D (failed_item S P code text item) item r
      → Ended S P item (answer_failed S P (failed_item S P code text item) item cause r)
  answer_failed-Ended item code text cause (w, none) c (inl (e, l, taken_by, stored)) =
      recorded w _ cause c
        (record {
          status = refl;
          stage = refl;
          profile = refl;
          nodes_hash = refl;
          resolved_endpoints = refl;
          changed = refl;
        })
        (l, taken_by, stored)
  answer_failed-Ended item code text cause (w, none) c (inr (e, u, l, x)) = cc
  answer_failed-Ended item code text cause (w, some e) c (inl (u, l, x, k)) = cc
  answer_failed-Ended item code text cause (w, some e) c (inr (found, u, l, refused)) =
      unrecorded w _ cause (sourced D (failed_item S P code text item)) e c
        (refused ∙ ap err (sym (some-injective u))) refl l

  fail_update-Ended :
      (code text : Text) (cause : Error) (item : Subscription) (w : World S)
      → IsCause S P item cause
      → Ended S P item (fail_update S P code text cause item w)
  unfolding fail_update
  fail_update-Ended code text cause item w c =
      answer_failed-Ended item code text cause _ c
        (commit_at-Committed (failed_item S P code text item) item w)

  store_unmodified-Ended :
      (r : FetchResponse) (item : Subscription) (w : World S)
      → P.services.fetch item ≡ ok r
      → r.not_modified ≡ true
      → Ended S P item (store_unmodified S P r item w)
  unfolding store_unmodified unmodified_item apply_header_metadata
  store_unmodified-Ended r item w fetched same =
      answer-Ended (record no_result { not_modified = true }) (unmodified_item S P r item) item _
        refl refl
        (inr (
          r,
          record {
            fetched = fetched;
            unmodified = same;
            status = refl;
            stage = refl;
            profile = refl;
            nodes_hash = refl;
            resolved_endpoints = refl;
            changed = refl;
            not_modified = refl;
          },
        ))
        (commit_at-Committed (unmodified_item S P r item) item w)

  store_fetched-Ended :
      (r : FetchResponse) (p : ParsedProfile) (item : Subscription) (w : World S)
      → P.services.fetch item ≡ ok r
      → r.not_modified ≡ false
      → P.services.parse r.body ≡ ok p
      → Ended S P item (store_fetched S P r p item w)
  unfolding store_fetched fetched_item apply_header_metadata
  store_fetched-Ended r p item w fetched modified parsed =
      answer-Ended
        (record no_result {
          changed = not (item.nodes_hash == p.nodes_hash);
          original_config = r.body;
        })
        (fetched_item S P r p item) item _ refl refl
        (inl (
          r,
          p,
          record {
            fetched = fetched;
            modified = modified;
            parsed_as = parsed;
            status = refl;
            stage = refl;
            profile = refl;
            nodes_hash = refl;
            resolved_endpoints = refl;
            etag = refl;
            last_modified = refl;
            changed = refl;
            not_modified = refl;
            original_config = refl;
          },
        ))
        (commit_at-Committed (fetched_item S P r p item) item _)

  take_response-Ended :
      (r : FetchResponse) (item : Subscription) (w : World S)
      → P.services.fetch item ≡ ok r
      → Ended S P item (take_response S P r item w)
  unfolding take_response
  take_response-Ended r item w fetched = elim (Bool-cases r.not_modified) [
    | inl e ↦ rw (take_response, e) (store_unmodified-Ended r item w fetched e)
    | inr e ↦ elim (Result-cases (P.services.parse r.body)) [
      | inl (p, o) ↦ rw (take_response, e, o) (store_fetched-Ended r p item _ fetched e o)
      | inr (cause, o) ↦
          rw (take_response, e, o)
            (fail_update-Ended _ cause _ item _ (inr (r, cause, fetched, e, o, refl)))
    ]
  ]

  update_claimed-Ended :
      (item : Subscription) (w : World S) → Ended S P item (update_claimed S P item w)
  unfolding update_claimed
  update_claimed-Ended item w = elim (Result-cases (P.services.fetch item)) [
    | inl (r, o) ↦ rw (update_claimed, o) (take_response-Ended r item _ o)
    | inr (cause, o) ↦
        rw (update_claimed, o) (fail_update-Ended _ cause _ item _ (inl (cause, o, refl)))
  ]

  -- An update of an item that was there when it began comes to an end of its own, whatever fetching,
  -- parsing and the store answer, whatever other commands do meanwhile and whether the stages are
  -- heard or not, if its first and its last command reach the coordinator. Either the caller has
  -- no error, and the item is ready, there and stored: with the profile, the hash and the endpoints
  -- of what was fetched and parsed, or with those it had if that was not modified. Or the caller
  -- has just the error of fetching or parsing, and the item is marked failed, there and stored, with
  -- what it had. Or the store refused the one or the other, the item is what it was, and the caller
  -- has the error of the store, after that of fetching or parsing if there was one.
  pub update-Ended :
      (id : Text) (item : Subscription) (w : World S)
      → P.deliver UpdateStage.idle ≡ delivered
      → lookup (P.others UpdateStage.idle w).items id ≡ some item
      → Ended S P item (update S P id w)
  unfolding update submit_at submit begin_update run_command apply_mutation
  update-Ended id item w d l = rw (update, l, d, begin_update, l) (update_claimed-Ended item _)

  Ended-there :
      (item : Subscription) (r : World S × Outcome)
      → Ended S P item r
      → lookup r.0.items item.id ≢ none
  Ended-there item r (succeeded w u _ k) e = cc (k.0, e)
  Ended-there item r (recorded w u _ _ _ k) e = cc (k.0, e)
  Ended-there item r (undone w u _ _ _ _ k) e = cc
  Ended-there item r (unrecorded w u _ _ _ _ _ _ k) e = cc

  -- So an update that ends after its subscription was removed brings it back: whatever the
  -- commands before the commit did, there is a subscription under the ID afterwards.
  pub update_revives :
      (id : Text) (item : Subscription) (w : World S)
      → P.deliver UpdateStage.idle ≡ delivered
      → lookup (P.others UpdateStage.idle w).items id ≡ some item
      → lookup (update S P id w).0.items item.id ≢ none
  update_revives id item w d l = Ended-there item _ (update-Ended id item w d l)
