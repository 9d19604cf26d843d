-- ===== src/Subscriptions/Handler/Intervals.antt =====
-- The update intervals that clients set and see through subscriptions/grpc.go.
use target_lib.Base.{
  ◌≡◌, refl, if_err-eq-ok, sym, ap, ◌∙◌, ℕ, suc, ◌+◌, ◌*◌, ◌<◌, Bool, true, false, Option, none,
  some, Text, eq_refl, Result, ok, err, Option-cases, Result-cases, inl, inr, ◌⊎◌, pos, ltb, ltb_ℤ,
  div_ℤ, if◌then◌else◌, arith, ok-injective,
}
use target_lib.Subscriptions.Model.{Subscription, Error, manager_closed, Duration, Time, lookup}
use target_lib.Subscriptions.Maps.{lookup-insert_here}
use target_lib.Subscriptions.Store.{Store, Write}
use target_lib.Subscriptions.Coordinator.{
  World, Delivery, refused, delivered, unheard, submit, run_command, apply_mutation,
}
use target_lib.Subscriptions.Coordinator.Commands.{modify, updates_configured}
use target_lib.Subscriptions.Manager.{configure_updates, checked_updates}
use target_lib.Subscriptions.View.{view, subscription_view}
use target_lib.Subscriptions.Handler.{
  Course, configure_subscription_updates, configure_with, answered, is_blank,
}
use target_lib.Subscriptions.Handler.Messages.{
  StatusCode, SubscriptionView, grpc_subscription_view, subscription_duration, max_duration_seconds,
}

-- A view that comes after a check of the ID.
unguarded {ℓ κ} :
    {A : Type ℓ} {W : Type κ} (b : Bool) (code : StatusCode) (w : W) (r : W × Result StatusCode A)
    {a : A}
    → (if b then (w, err code) else r).1 ≡ ok a
    → r.1 ≡ ok a
unguarded true code w r h = cc
unguarded false code w r h = h

ltb_of : (m n : ℕ) → m < n → ltb m n ≡ true
ltb_of m n h = ground arith

-- A positive interval replaces the old one, and is whole seconds.
shown_seconds :
    (n : ℕ) (old : Duration)
    → div_ℤ
        (if ltb_ℤ (pos 0) (pos (suc n * 1000000000)) then pos (suc n * 1000000000) else old)
        1000000000
      ≡ pos (suc n)
shown_seconds n old = rw (ltb_of 0 (suc n * 1000000000 + 0) (omega arith)) (ap pos (omega arith))

subscription_duration-value :
    (n : ℕ) {interval : Duration}
    → subscription_duration (pos n) ≡ ok interval
    → interval ≡ pos (n * 1000000000)
unfolding subscription_duration
subscription_duration-value n h =
    sym (ok-injective (if_err-eq-ok (ltb max_duration_seconds n) _ _ h).1)

module _ (S : Store) where
  -- What changing a subscription can do: the change of what was under the ID stands there, or there
  -- is an error.
  abbrev IsModified :
      Text → (Subscription → Subscription) → World S → World S × Option Error → Type 0
  IsModified id change w r =
      ((r.1 ≡ none)
        × (item : Subscription) × (lookup w.items id ≡ some item)
        × (lookup r.0.items id ≡ some (change item)))
      ⊎ ((e : Error) × (r.1 ≡ some e))

  modify-IsModified :
      (d : Delivery) (ctx : Option Error) (id : Text) (change : Subscription → Subscription)
      (w : World S)
      → IsModified id change w (submit S d ctx (modify id change) w)
  unfolding submit run_command modify apply_mutation
  modify-IsModified (refused e) ctx id change w = inr (e, refl)
  modify-IsModified unheard ctx id change w = inr (manager_closed, refl)
  modify-IsModified delivered ctx id change w = elim (Option-cases (lookup w.items id)) [
    | inl e ↦ rw (modify, e) (inr (_, refl))
    | inr (item, e) ↦ elim (Result-cases (S.update ctx w.store (Write.put (change item)))) [
      | inl (saved, u) ↦
          rw (modify, e, apply_mutation, u)
            (inl (refl, item, refl, lookup-insert_here w.items id id _ (eq_refl id)))
      | inr (cause, u) ↦ rw (modify, e, apply_mutation, u) (inr (cause, refl))
    ]
  ]

  configure_updates-IsModified :
      (d : Delivery) (ctx : Option Error) (id : Text) (enabled : Bool) (interval : Duration)
      (now : Time) (w : World S)
      → IsModified id
          (updates_configured enabled interval now)
          w
          (configure_updates S d ctx id enabled interval now w)
  unfolding configure_updates
  configure_updates-IsModified d ctx id enabled interval now w =
      elim (Result-cases (checked_updates enabled interval)) [
        | inl (checked, e) ↦ rw e (modify-IsModified d ctx id _ w)
        | inr (cause, e) ↦ rw e (inr (cause, refl))
      ]

  module _ (C : Course S) where
    -- The view in an answer is that of the changed subscription.
    answered-view :
        (id : Text) (change : Subscription → Subscription) (w : World S)
        (r : World S × Option Error) {v : SubscriptionView}
        → IsModified id change w r
        → (answered S C id r).1 ≡ ok v
        → (item : Subscription) × (lookup w.items id ≡ some item)
          × (v ≡ grpc_subscription_view (subscription_view C.urls (change item)))
    unfolding view
    answered-view id change w (after, none) (inl (e, item, old, new)) h =
        (item, old, ok-injective (sym h ∙ rw new refl))
    answered-view id change w (after, none) (inr (e, k)) h = cc
    answered-view id change w (after, some e) (inl (k, item, old, new)) h = cc
    answered-view id change w (after, some e) (inr (_, k)) h = cc

    configure_with-view :
        (id : Text) (enabled : Bool) (given : Result StatusCode Duration) (w : World S)
        {v : SubscriptionView}
        → (configure_with S C id enabled given w).1 ≡ ok v
        → (interval : Duration) × (given ≡ ok interval)
          × (item : Subscription) × (lookup w.items id ≡ some item)
          × (v
              ≡ grpc_subscription_view
                  (subscription_view C.urls (updates_configured enabled interval C.now item)))
    configure_with-view id enabled (err code) w h = cc
    configure_with-view id enabled (ok interval) w h =
        let (item, old, e) =
          answered-view id (updates_configured enabled interval C.now) w _
            (configure_updates-IsModified C.submitted C.context id enabled interval C.now w) h in
        (interval, refl, item, old, e)

    -- If a client sets a positive interval, in seconds, and the answer is a view, something was under
    -- the ID, and the view shows that with just this interval and with the automatic updates as they
    -- were asked for.
    pub configure_subscription_updates-shown :
        (id : Text) (enabled : Bool) (n : ℕ) (w : World S) {v : SubscriptionView}
        → (configure_subscription_updates S C id enabled (pos (suc n)) w).1 ≡ ok v
        → (item : Subscription) × (lookup w.items id ≡ some item)
          × (v.name ≡ item.name)
          × (v.auto_update ≡ enabled)
          × (v.update_interval_seconds ≡ pos (suc n))
    unfolding configure_subscription_updates grpc_subscription_view subscription_view
        updates_configured
    configure_subscription_updates-shown id enabled n w h =
        let (interval, given, item, old, e) =
          configure_with-view id enabled (subscription_duration (pos (suc n))) w
            (unguarded (is_blank id) StatusCode.invalid_argument w _ h) in
        let whole = subscription_duration-value (suc n) given in
        (
          item,
          old,
          ap (λ v. v.name) e,
          ap (λ v. v.auto_update) e,
          ap (λ v. v.update_interval_seconds) e
              ∙ ap (λ d. div_ℤ (if ltb_ℤ (pos 0) d then d else item.update_interval) 1000000000)
                  whole
              ∙ shown_seconds n item.update_interval,
        )
