-- ===== src/Subscriptions/Manager/Requests.antt =====
-- What the requests of subscriptions/manager.go let through, and what they keep true of every item.
use target_lib.Base.{
  ◌≡◌, refl, subst, Option, arith, Text, Bool, true, false, not, ◌&&◌, ◌||◌, Result-cases, ok,
  ok-injective, >>=-eq-ok, refuse_if-eq-ok, refuse_if, ◌>>◌, inl, inr, ltb_ℤ, pos, negsuc,
}
use target_lib.Subscriptions.Model.{
  Subscription, AddRequest, Error, Duration, Time, interval_too_short,
}
use target_lib.Subscriptions.Maps.{AllItems, AllItems-insert, AllItems-delete, AllItems-lookup}
use target_lib.Subscriptions.Store.{Store}
use target_lib.Subscriptions.Coordinator.{Items, World, Delivery, submit}
use target_lib.Subscriptions.Coordinator.Commands.{modify, renamed, updates_configured, enabled_set}
use target_lib.Subscriptions.Coordinator.Taken.{
  submit-add-keeps, submit-remove-keeps, submit-modify-keeps,
}
use target_lib.Subscriptions.Normalize.{Urls, IsPrinted, normalize_subscription_url, validate_url}
use target_lib.Subscriptions.Normalize.Sound.{normalize_subscription_url-IsPrinted}
use target_lib.Subscriptions.Fetching.{minimum_interval}
use target_lib.Subscriptions.Manager.{
  checked_request, checked_name, checked_updates, add_request, remove_subscription, rename,
  configure_updates, set_enabled,
}

-- What a new subscription has: a URL that was printed from a parsed one and passes the check for
-- HTTPS, and an interval that is not below the minimum.
pub record IsAccepted (L : Urls) (item : Subscription) : Type 0 where
  pub printed : IsPrinted L item.url
  pub checked : validate_url L item.url ≡ ok tt
  pub paced : ltb_ℤ item.update_interval minimum_interval ≡ false

-- AddRequest submits only accepted subscriptions, whatever the request asks for: the URL was printed
-- from one that parsed and passes the check for HTTPS, and the interval is not below the minimum.
pub checked_request-IsAccepted :
    (L : Urls) (fresh : Text) (default : Duration) (now : Time) (r : AddRequest)
    (item : Subscription)
    → checked_request L fresh default now r ≡ ok item
    → IsAccepted L item
unfolding checked_request
checked_request-IsAccepted L fresh default now r item h =
    let a = >>=-eq-ok (normalize_subscription_url L r.url) _ h in
    let b = >>=-eq-ok (validate_url L a.0 >> refuse_if _ interval_too_short) _ a.2 in
    let c = >>=-eq-ok (validate_url L a.0) _ b.1 in
    subst (IsAccepted L) (ok-injective b.2) (record {
      printed = normalize_subscription_url-IsPrinted L r.url a.0 a.1;
      checked = c.1;
      paced = refuse_if-eq-ok _ _ c.2;
    })

-- An item that is updated automatically is not updated more often than the minimum allows.
abbrev pub IsPaced : Subscription → Type 0
IsPaced s = (not s.auto_update || not (ltb_ℤ s.update_interval minimum_interval)) ≡ true

abbrev pub ArePaced : Items → Type 0
ArePaced = AllItems λ id s. IsPaced s

-- ConfigureUpdates changes an interval to one that its check let through.
updates_configured-IsPaced :
    (enabled : Bool) (interval : Duration) (now : Time) (s : Subscription)
    → (enabled && ltb_ℤ interval minimum_interval) ≡ false
    → IsPaced (updates_configured enabled interval now s)
unfolding updates_configured
updates_configured-IsPaced false interval now s h = refl
updates_configured-IsPaced true (pos n) now s h = ground arith
updates_configured-IsPaced true (negsuc n) now s h = ground arith

-- The calls that change the set of subscriptions or what a client configured of one.
pub data Call : Type 0 where
  add_call : (fresh : Text) (default : Duration) (now : Time) → AddRequest → Call
  remove_call : Text → Call
  rename_call : (id name : Text) → Call
  configure_call : (id : Text) (enabled : Bool) (interval : Duration) (now : Time) → Call
  enable_call : (id : Text) (enabled : Bool) → Call

module _ (S : Store) where
  abbrev pub perform : Urls → Delivery → Option Error → Call → World S → World S × Option Error
  perform L d ctx (add_call fresh default now r) = add_request S d ctx L fresh default now r
  perform L d ctx (remove_call id) = remove_subscription S d ctx id
  perform L d ctx (rename_call id name) = rename S d ctx id name
  perform L d ctx (configure_call id enabled interval now) =
      configure_updates S d ctx id enabled interval now
  perform L d ctx (enable_call id enabled) = set_enabled S d ctx id enabled

  module _ (L : Urls) (d : Delivery) (ctx : Option Error) (w : World S) (h : ArePaced w.items) where
    modify-ArePaced :
        (id : Text) (change : Subscription → Subscription)
        → ((s : Subscription) → IsPaced s → IsPaced (change s))
        → ArePaced (submit S d ctx (modify id change) w).0.items
    modify-ArePaced id change k = submit-modify-keeps S ArePaced d ctx w h id change λ item e.
        AllItems-insert _ w.items id (change item) (k item (AllItems-lookup _ w.items id item h e))
          h

    -- If every subscription that is updated automatically has an interval of at least five minutes,
    -- this holds after each of these calls as well, however it is delivered and whether or not it
    -- succeeds.
    pub perform-ArePaced : (c : Call) → ArePaced (perform L d ctx c w).0.items
    unfolding add_request remove_subscription rename configure_updates set_enabled
    perform-ArePaced (add_call fresh default now r) =
        elim (Result-cases (checked_request L fresh default now r)) [
          | inl (item, e) ↦
              rw (add_request, e)
                (submit-add-keeps S ArePaced d ctx w h item
                  (AllItems-insert _ w.items item.id item (accepted item e) h))
          | inr (_, e) ↦ rw (add_request, e) h
        ]
      where
        accepted :
            (item : Subscription) → checked_request L fresh default now r ≡ ok item → IsPaced item
        accepted item e =
            ground (arith, (checked_request-IsAccepted L fresh default now r item e).paced)
    perform-ArePaced (remove_call id) =
        submit-remove-keeps S ArePaced d ctx w h id (AllItems-delete _ w.items id h)
    perform-ArePaced (rename_call id name) = elim (Result-cases (checked_name name)) [
      | inl (n, e) ↦ rw (rename, e) (modify-ArePaced id (renamed n) (λ s k. k))
      | inr (_, e) ↦ rw (rename, e) h
    ]
    perform-ArePaced (configure_call id enabled interval now) =
        elim (Result-cases (checked_updates enabled interval)) [
          | inl (u, e) ↦
              rw (configure_updates, e)
                (modify-ArePaced id _ (λ s k.
                  updates_configured-IsPaced enabled interval now s (refuse_if-eq-ok _ _ e)))
          | inr (_, e) ↦ rw (configure_updates, e) h
        ]
    perform-ArePaced (enable_call id enabled) = modify-ArePaced id (enabled_set enabled) (λ s k. k)
