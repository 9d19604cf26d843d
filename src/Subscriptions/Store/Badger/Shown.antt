-- ===== src/Subscriptions/Store/Badger/Shown.antt =====
-- What Load of subscriptions/badger_store.go answers.
use target_lib.Base.{
  ◌≡◌, refl, sym, ap, ◌∙◌, subst, List, [], ◌∷◌, Option, none, some, Text, ◌==◌, eq_iff, false,
  ◌&&◌, ◌||◌, contains, Distinct, has_prefix-append, is_some, Result, ok, err, All, Bool-cases,
  Option-cases, inl, inr, if◌then◌else◌,
}
use target_lib.Subscriptions.Model.{Subscription}
use target_lib.Subscriptions.Store.Memory.{find, ids}
use target_lib.Subscriptions.Store.Badger.Encoding.{
  IsStorable, kept_form, decode-encoded, IsInjective, keys_same,
}
use target_lib.Subscriptions.Store.Badger.{
  Database, IsLawful, Codec, subscription_prefix, badger_key, decode_subscription, load_keys, load,
}

module _ (B : Database) (C : Codec) (law : IsLawful B) (apart : IsInjective C.raw_url) where
  -- What the database holds under a key of a subscription.
  unfoldable pub Holds : B.State → Text → Type 0
  Holds s k =
      (item : Subscription) × (h : IsStorable C item) × (k ≡ badger_key C item.id)
      × (B.get s k ≡ some h.value)

  -- Each record under the prefix is that of a subscription, under its own key.
  abbrev pub IsSound : B.State → Type 0
  IsSound s = All (Holds s) (B.keys s subscription_prefix)

  abbrev pub if_decoded : Result Text Subscription → Option Subscription
  if_decoded (ok item) = some item
  if_decoded (err cause) = none

  abbrev pub subscription_of : Option Text → Option Subscription
  subscription_of none = none
  subscription_of (some v) = if_decoded (decode_subscription C v)

  -- The subscription that is stored under an ID.
  unfoldable pub stored : B.State → Text → Option Subscription
  stored s id = subscription_of (B.get s (badger_key C id))

  stored-of_Holds :
      (s : B.State) (item : Subscription) (h : IsStorable C item)
      → B.get s (badger_key C item.id) ≡ some h.value
      → stored s item.id ≡ some (kept_form C item)
  unfolding stored
  stored-of_Holds s item h e = rw (e, decode-encoded C item h)

  record Loaded (s : B.State) (ks : List Text) (items : List Subscription) : Type 0 where
    done : load_keys B C (λ k. none) s ks ≡ ok items
    each :
        (id : Text) → find items id ≡ (if contains ks (badger_key C id) then stored s id else none)
    distinct : Distinct (ids items)
    listed : (id : Text) → contains (ids items) id ≡ contains ks (badger_key C id)

  Loaded-cons :
      (s : B.State) (k : Text) (ks : List Text) (items : List Subscription)
      → contains ks k ≡ false
      → Holds s k
      → Loaded s ks items
      → (more : List Subscription) × Loaded s (k ∷ ks) more
  unfolding Holds load_keys find contains
  Loaded-cons s k ks items new (item, h, own, held) l = (
    kept_form C item ∷ items,
    record {
      done = rw (held, decode-encoded C item h, l.done);
      each = each;
      distinct = (l.listed item.id ∙ subst (λ x. contains ks x ≡ false) own new, l.distinct);
      listed = λ id.
          ap (λ b. b || contains (ids items) id) (sym (same id))
          ∙ ap (λ b. (k == badger_key C id) || b) (l.listed id);
    },
  )
    where
      same : (id : Text) → (k == badger_key C id) ≡ (item.id == id)
      same id = ap (λ x. x == badger_key C id) own ∙ keys_same C apart item.id id

      here : stored s item.id ≡ some (kept_form C item)
      here = stored-of_Holds s item h (subst (λ x. B.get s x ≡ some h.value) own held)

      each :
          (id : Text)
          → find (kept_form C item ∷ items) id
            ≡ (if contains (k ∷ ks) (badger_key C id) then stored s id else none)
      each id = elim (Bool-cases (item.id == id)) [
        | inl e ↦ rw (same id, e) (sym here ∙ ap (stored s) ((eq_iff item.id id).0 e))
        | inr e ↦ rw (same id, e) (l.each id)
      ]

  load_keys-Loaded :
      (s : B.State) (ks : List Text)
      → Distinct ks
      → All (Holds s) ks
      → (items : List Subscription) × Loaded s ks items
  unfolding load_keys find contains
  load_keys-Loaded s [] d h =
      ([], record { done = refl; each = λ id. refl; distinct = tt; listed = λ id. refl })
  load_keys-Loaded s (k ∷ ks) d h =
      let rest = load_keys-Loaded s ks d.1 h.1 in Loaded-cons s k ks rest.0 d.0 h.0 rest.1

  -- What Load answers on a sound state: each stored subscription, and no ID twice.
  pub record IsLoaded (s : B.State) (items : List Subscription) : Type 0 where
    pub done : load B C (λ k. none) s ≡ ok items
    pub each : (id : Text) → find items id ≡ stored s id
    pub distinct : Distinct (ids items)

  held_key :
      (s : B.State) (id : Text)
      → contains (B.keys s subscription_prefix) (badger_key C id)
        ≡ is_some (B.get s (badger_key C id))
  unfolding badger_key
  held_key s id =
      law.contains-keys s subscription_prefix (badger_key C id)
      ∙ ap (λ b. b && is_some (B.get s (badger_key C id)))
          (has_prefix-append subscription_prefix (C.raw_url id))

  pub load-IsLoaded : (s : B.State) → IsSound s → (items : List Subscription) × IsLoaded s items
  unfolding load stored
  load-IsLoaded s h =
      let (items, l) =
        load_keys-Loaded s (B.keys s subscription_prefix) (law.Distinct-keys s subscription_prefix)
          h in
      (items, record { done = l.done; each = λ id. l.each id ∙ shown id; distinct = l.distinct })
    where
      shown :
          (id : Text)
          → (if contains (B.keys s subscription_prefix) (badger_key C id)
              then stored s id
              else none)
            ≡ stored s id
      shown id = elim (Option-cases (B.get s (badger_key C id))) [
        | inl e ↦ rw (held_key s id, e)
        | inr (v, e) ↦ rw (held_key s id, e)
      ]
