-- ===== src/Subscriptions/Handler/Adding.antt =====
-- What AddSubscription of subscriptions/grpc.go leaves behind.
use target_lib.Base.{
  ◌≡◌, refl, sym, ap, ◌∙◌, subst, Bool, true, false, List, [], ◌∷◌, Option, none, some, Text,
  eq_refl, eq_iff, Result, ok, err, if◌then◌else◌, >>=-eq-ok, ok-injective, refuse_if, ◌>>◌,
  Option-cases, Result-cases, inl, inr, ◌⊎◌,
}
use target_lib.Subscriptions.Model.{
  Subscription, AddRequest, Error, manager_closed, already_exists, lookup, Duration, Time,
  interval_too_short, UpdateResult,
}
use target_lib.Subscriptions.Maps.{lookup-delete_here, lookup-insert_here}
use target_lib.Subscriptions.Store.{Store, Write}
use target_lib.Subscriptions.Coordinator.{
  World, Delivery, refused, delivered, unheard, submit, run_command, apply_mutation,
}
use target_lib.Subscriptions.Coordinator.Commands.{add, remove}
use target_lib.Subscriptions.Normalize.{Urls, normalize_subscription_url, validate_url}
use target_lib.Subscriptions.Update.{Outcome}
use target_lib.Subscriptions.Manager.{add_request, remove_subscription, checked_request, id_or}
use target_lib.Subscriptions.Handler.{
  Course, AddSubscriptionRequest, add_subscription, add_with, after_add, after_update, rolled_back,
  request_of, shown, heard, is_blank, subscription_error, code_of,
}
use target_lib.Subscriptions.Handler.Messages.{StatusCode, SubscriptionView, subscription_duration}

module _ (S : Store) where
  -- What removing can do: it succeeds and nothing is left under the ID, or it fails.
  abbrev IsRemoved : Text → World S × Option Error → Type 0
  IsRemoved id r = ((r.1 ≡ none) × (lookup r.0.items id ≡ none)) ⊎ ((e : Error) × (r.1 ≡ some e))

  remove-IsRemoved :
      (d : Delivery) (ctx : Option Error) (id : Text) (w : World S)
      → IsRemoved id (remove_subscription S d ctx id w)
  unfolding remove_subscription submit run_command remove apply_mutation
  remove-IsRemoved (refused e) ctx id w = inr (e, refl)
  remove-IsRemoved unheard ctx id w = inr (manager_closed, refl)
  remove-IsRemoved delivered ctx id w = elim (Option-cases (lookup w.items id)) [
    | inl e ↦ rw (remove, e) (inr (_, refl))
    | inr (item, e) ↦ elim (Result-cases (S.update ctx w.store (Write.delete id))) [
      | inl (saved, u) ↦
          rw (remove, e, apply_mutation, u)
            (inl (refl, lookup-delete_here w.items id id (eq_refl id)))
      | inr (cause, u) ↦ rw (remove, e, apply_mutation, u) (inr (cause, refl))
    ]
  ]

  checked_request-id :
      (L : Urls) (fresh : Text) (default : Duration) (now : Time) (r : AddRequest)
      (item : Subscription)
      → checked_request L fresh default now r ≡ ok item
      → item.id ≡ id_or fresh r
  unfolding checked_request
  checked_request-id L fresh default now r item h =
      let a = >>=-eq-ok (normalize_subscription_url L r.url) _ h in
      let b = >>=-eq-ok (validate_url L a.0 >> refuse_if _ interval_too_short) _ a.2 in
      sym (ap (λ s. s.id) (ok-injective b.2))

  module _ (C : Course S) where
    -- The ID of the subscription that a request adds.
    abbrev pub added_id : AddSubscriptionRequest → Text
    added_id r = if is_blank r.id then C.fresh else r.id

    -- What a request comes to, if it is accepted.
    abbrev pub Accepts : AddSubscriptionRequest → Subscription → Type 0
    Accepts r item =
        (interval : Duration) × (subscription_duration r.update_interval_seconds ≡ ok interval)
        × (checked_request C.urls C.fresh C.default C.now (request_of r interval) ≡ ok item)

    -- The request is accepted and its subscription is new, stored and there.
    pub record IsTakenIn (r : AddSubscriptionRequest) (w v : World S) (item : Subscription)
        : Type 0 where
      pub accepted : Accepts r item
      pub named : item.id ≡ added_id r
      pub new : lookup w.items (added_id r) ≡ none
      pub there : lookup v.items (added_id r) ≡ some item
      pub stored : S.update C.context w.store (Write.put item) ≡ ok v.store

    -- Why nothing is added: the interval, another part of the request, the queue of commands, a
    -- subscription with this ID, or the store.
    pub data Refusal (r : AddSubscriptionRequest) (w : World S) : StatusCode → Type 0 where
      bad_interval :
          (code : StatusCode)
          → subscription_duration r.update_interval_seconds ≡ err code
          → Refusal r w code
      bad_request :
          (interval : Duration) (e : Error)
          → subscription_duration r.update_interval_seconds ≡ ok interval
          → checked_request C.urls C.fresh C.default C.now (request_of r interval) ≡ err e
          → Refusal r w (subscription_error C.sentinel (e ∷ []))
      not_taken :
          (e : Error)
          → C.submitted ≡ refused e
          → Refusal r w (subscription_error C.sentinel (e ∷ []))
      there_already :
          (old : Subscription)
          → lookup w.items (added_id r) ≡ some old
          → Refusal r w (subscription_error C.sentinel (already_exists (added_id r) ∷ []))
      not_stored :
          (item : Subscription) (e : Error)
          → Accepts r item
          → S.update C.context w.store (Write.put item) ≡ err e
          → Refusal r w (subscription_error C.sentinel (e ∷ []))

    -- How the call can end.
    pub data Answers (r : AddSubscriptionRequest) (w : World S)
        : World S × Result StatusCode SubscriptionView → Type 0 where
      rejected : (code : StatusCode) → Refusal r w code → Answers r w (w, err code)
      not_heard :
          (item : Subscription)
          → Accepts r item
          → C.submitted ≡ unheard
          → Answers r w ((run_command S C.context (add item) w).0, err StatusCode.internal)
      added :
          (v : World S) (item : Subscription)
          → r.update_now ≡ false
          → IsTakenIn r w v item
          → Answers r w (v, ok (shown S C v.items (added_id r)))
      added_and_updated :
          (v u : World S) (item : Subscription) (result : UpdateResult)
          → r.update_now ≡ true
          → IsTakenIn r w v item
          → heard S C C.left (added_id r) v ≡ (u, (result, []))
          → Answers r w (u, ok (shown S C u.items (added_id r)))
      taken_back :
          (v u after : World S) (item : Subscription) (result : UpdateResult) (e : Error)
          (es : List Error)
          → r.update_now ≡ true
          → IsTakenIn r w v item
          → heard S C C.left (added_id r) v ≡ (u, (result, e ∷ es))
          → remove_subscription S C.removed none (added_id r) u ≡ (after, none)
          → lookup after.items (added_id r) ≡ none
          → Answers r w (after, err (subscription_error C.sentinel (e ∷ es)))
      stuck :
          (v u after : World S) (item : Subscription) (result : UpdateResult) (e cause : Error)
          (es : List Error)
          → r.update_now ≡ true
          → IsTakenIn r w v item
          → heard S C C.left (added_id r) v ≡ (u, (result, e ∷ es))
          → remove_subscription S C.removed none (added_id r) u ≡ (after, some cause)
          → Answers r w (after, err StatusCode.internal)

    -- How Add can end.
    data IsAdded (r : AddSubscriptionRequest) (w : World S) : World S × Option Error → Type 0 where
      new_one : (v : World S) (item : Subscription) → IsTakenIn r w v item → IsAdded r w (v, none)
      none_new :
          (e : Error)
          → Refusal r w (subscription_error C.sentinel (e ∷ []))
          → IsAdded r w (w, some e)
      unknown :
          (item : Subscription)
          → Accepts r item
          → C.submitted ≡ unheard
          → IsAdded r w ((run_command S C.context (add item) w).0, some manager_closed)

    run_command-IsAdded :
        (r : AddSubscriptionRequest) (item : Subscription) (w : World S)
        → Accepts r item
        → item.id ≡ added_id r
        → IsAdded r w (run_command S C.context (add item) w)
    unfolding run_command add apply_mutation
    run_command-IsAdded r item w a named = elim (Option-cases (lookup w.items item.id)) [
      | inr (old, e) ↦
          rw (add, e)
            (none_new (already_exists item.id) (
              subst
                (λ id.
                  lookup w.items id ≡ some old
                  → Refusal r w (subscription_error C.sentinel (already_exists id ∷ [])))
                (sym named) (there_already old) e))
      | inl e ↦ elim (Result-cases (S.update C.context w.store (Write.put item))) [
        | inl (saved, u) ↦
            rw (add, e, apply_mutation, u)
              (new_one _ item (record {
                accepted = a;
                named = named;
                new = ap (lookup w.items) (sym named) ∙ e;
                there = lookup-insert_here w.items item.id (added_id r) item ((eq_iff _ _).1 named);
                stored = u;
              }))
        | inr (cause, u) ↦
            rw (add, e, apply_mutation, u) (none_new cause (not_stored item cause a u))
      ]
    ]

    submit-IsAdded :
        (r : AddSubscriptionRequest) (d : Delivery) (item : Subscription) (w : World S)
        → C.submitted ≡ d
        → Accepts r item
        → item.id ≡ added_id r
        → IsAdded r w (submit S d C.context (add item) w)
    unfolding submit
    submit-IsAdded r (refused e) item w s a named = none_new e (not_taken e s)
    submit-IsAdded r unheard item w s a named = unknown item a s
    submit-IsAdded r delivered item w s a named = run_command-IsAdded r item w a named

    add_request-IsAdded :
        (r : AddSubscriptionRequest) (interval : Duration) (w : World S)
        → subscription_duration r.update_interval_seconds ≡ ok interval
        → IsAdded r w (
            add_request S C.submitted C.context C.urls C.fresh C.default C.now
              (request_of r interval)
              w)
    unfolding add_request
    add_request-IsAdded r interval w given =
        elim (Result-cases
          (checked_request C.urls C.fresh C.default C.now (request_of r interval))) [
            | inr (cause, e) ↦
                rw (add_request, e) (none_new cause (bad_request interval cause given e))
            | inl (item, e) ↦
                rw (add_request, e)
                  (submit-IsAdded r C.submitted item w refl (interval, given, e)
                    (checked_request-id C.urls C.fresh C.default C.now (request_of r interval) item
                      e))
          ]

    -- A removal that succeeds leaves nothing under the ID.
    remove-gone :
        (d : Delivery) (ctx : Option Error) (id : Text) (w after : World S)
        → remove_subscription S d ctx id w ≡ (after, none)
        → lookup after.items id ≡ none
    remove-gone d ctx id w after h = elim (subst (IsRemoved id) h (remove-IsRemoved d ctx id w)) [
      | inl (_, gone) ↦ gone
      | inr (e, k) ↦ cc
    ]

    rolled_back-Answers :
        (r : AddSubscriptionRequest) (w v u : World S) (item : Subscription) (result : UpdateResult)
        (e : Error) (es : List Error) (last : World S × Option Error)
        → r.update_now ≡ true
        → IsTakenIn r w v item
        → heard S C C.left (added_id r) v ≡ (u, (result, e ∷ es))
        → remove_subscription S C.removed none (added_id r) u ≡ last
        → Answers r w (rolled_back S C (e ∷ es) last)
    rolled_back-Answers r w v u item result e es (after, none) now t h removed =
        taken_back v u after item result e es now t h removed
          (remove-gone C.removed none (added_id r) u after removed)
    rolled_back-Answers r w v u item result e es (after, some cause) now t h removed =
        stuck v u after item result e cause es now t h removed

    after_update-Answers :
        (r : AddSubscriptionRequest) (w v : World S) (item : Subscription) (o : World S × Outcome)
        → r.update_now ≡ true
        → IsTakenIn r w v item
        → heard S C C.left (added_id r) v ≡ o
        → Answers r w (after_update S C (added_id r) o)
    after_update-Answers r w v item (u, (result, [])) now t h =
        added_and_updated v u item result now t h
    after_update-Answers r w v item (u, (result, e ∷ es)) now t h =
        rolled_back-Answers r w v u item result e es _ now t h refl

    taken-Answers :
        (r : AddSubscriptionRequest) (w v : World S) (item : Subscription) (now : Bool)
        → r.update_now ≡ now
        → IsTakenIn r w v item
        → Answers r w (after_add S C (added_id r) now (v, none))
    taken-Answers r w v item false now t = added v item now t
    taken-Answers r w v item true now t =
        after_update-Answers r w v item (heard S C C.left (added_id r) v) now t refl

    after_add-Answers :
        (r : AddSubscriptionRequest) (w : World S) (last : World S × Option Error)
        → IsAdded r w last
        → Answers r w (after_add S C (added_id r) r.update_now last)
    unfolding subscription_error code_of
    after_add-Answers r w last (new_one v item t) = taken-Answers r w v item r.update_now refl t
    after_add-Answers r w last (none_new e h) = rejected _ h
    after_add-Answers r w last (unknown item a s) = not_heard item a s

    add_with-Answers :
        (r : AddSubscriptionRequest) (d : Result StatusCode Duration) (w : World S)
        → subscription_duration r.update_interval_seconds ≡ d
        → Answers r w (add_with S C r d w)
    add_with-Answers r (err code) w given = rejected code (bad_interval code given)
    add_with-Answers r (ok interval) w given =
        after_add-Answers r w _ (add_request-IsAdded r interval w given)

    -- AddSubscription ends in one of these ways, whatever the store and the provider do and other
    -- commands during the update. The world is what it was, and the answer is the code of what
    -- refused the request; or the subscription of the request is new, stored and there, the update
    -- that was asked for gives no error, and the answer is the view of what is then there. Or the
    -- update gives errors, the removal that follows leaves nothing under the ID, and the answer is
    -- the code of these errors; or that removal fails as well, and the answer is "internal". Or the
    -- manager was closed before the outcome of the command was heard, and the answer is "internal".
    pub add_subscription-Answers :
        (r : AddSubscriptionRequest) (w : World S) → Answers r w (add_subscription S C (some r) w)
    unfolding add_subscription
    add_subscription-Answers r w =
        add_with-Answers r (subscription_duration r.update_interval_seconds) w refl
