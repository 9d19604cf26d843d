-- ===== src/Subscriptions/Store/Badger/Unreadable.antt =====
-- A stored record that Load of subscriptions/badger_store.go cannot read.
use target_lib.Base.{
  ◌≡◌, refl, sym, ap, ◌∙◌, subst, List, [], ◌∷◌, Option, none, some, Text, text, ◌==◌, eq_iff,
  eq_refl, true, false, contains, has_prefix, has_prefix-append, is_empty, Result, ok, err,
  >>=-eq-ok, >>-eq-ok, ok-injective, arith, Bool-cases, Result-cases, inl, inr, ◌⊎◌, if◌then◌else◌,
  length, leb, All,
}
use target_lib.Subscriptions.Store.Badger.Encoding.{IsInjective, keys_same, keys_apart'}
use target_lib.Profile.{Node}
use target_lib.Subscriptions.Model.{Subscription, Error, store_failed, id_required}
use target_lib.Subscriptions.Store.{Write}
use target_lib.Subscriptions.Store.Badger.{
  Database, IsLawful, Codec, encoded_form, stripped_nodes, subscription_prefix, badger_key,
  metadata_key, restore_node, restore_node_outbounds, decode_subscription, encode_subscription,
  apply_write, committed, update, value_or_empty, load_keys, load, as_store_error,
}

module _ (C : Codec) where
  -- A node whose JSON sing-box does not decode.
  abbrev pub IsUnreadable : Node → Type 0
  IsUnreadable n =
      (is_empty n.outbound_json ≡ false)
      × (cause : Text) × (C.decode_outbound n.outbound_json ≡ err cause)

  abbrev pub HasUnreadable : List Node → Type 0
  HasUnreadable [] = ⊥
  HasUnreadable (n ∷ ns) = IsUnreadable n ⊎ HasUnreadable ns

  abbrev IsRefused {ℓ κ} : {E : Type ℓ} {A : Type κ} → Result E A → Type (ℓ ⊔ κ)
  IsRefused {E} r = (e : E) × (r ≡ err e)

  restore-unreadable :
      (ns : List Node) → HasUnreadable ns → IsRefused (restore_node_outbounds C (stripped_nodes ns))
  unfolding restore_node_outbounds restore_node
  restore-unreadable [] h = elim h [ ]
  restore-unreadable (n ∷ ns) (inl (j, cause, e)) = (cause, rw (restore_node, j, e))
  restore-unreadable (n ∷ ns) (inr h) =
      elim (Result-cases (restore_node C (record n { outbound = none }))) [
        | inl (m, e) ↦
            let rest = restore-unreadable ns h in (rest.0, rw (restore_node_outbounds, e, rest.1))
        | inr (cause, e) ↦ (cause, rw (restore_node_outbounds, e))
      ]

  decode-unreadable :
      (item : Subscription) (value : Text)
      → C.unmarshal value ≡ ok (encoded_form item)
      → HasUnreadable item.profile.nodes
      → IsRefused (decode_subscription C value)
  unfolding decode_subscription
  decode-unreadable item value e h =
      let bad = restore-unreadable item.profile.nodes h in (bad.0, rw (e, bad.1))

module _ (B : Database) (C : Codec) (law : IsLawful B) where
  load_keys-unreadable :
      (s : B.State) (ks : List Text) (k value : Text)
      → contains ks k ≡ true
      → B.get s k ≡ some value
      → IsRefused C (decode_subscription C value)
      → IsRefused C (load_keys B C (λ key. none) s ks)
  unfolding contains load_keys
  load_keys-unreadable s [] k value c g bad = cc
  load_keys-unreadable s (j ∷ ks) k value c g bad =
      elim (Result-cases (decode_subscription C (value_or_empty B C (B.get s j)))) [
        | inr (cause, e) ↦ (store_failed cause, rw (load_keys, e))
        | inl (item, e) ↦ elim (Bool-cases (j == k)) [
          | inl same ↦
              let read =
                subst (λ x. decode_subscription C (value_or_empty B C (B.get s x)) ≡ ok item)
                  ((eq_iff j k).0 same) e in
              absurd (cc (read, g, bad.1))
          | inr other ↦
              let rest = load_keys-unreadable s ks k value (ground arith) g bad in
              (rest.0, rw (load_keys, e, rest.1))
        ]
      ]

  committed-ok : (t u : B.State) (o : Option Text) → committed B C t o ≡ ok u → t ≡ u
  committed-ok t u none e = ok-injective e
  committed-ok t u (some cause) e = cc

  encode-value :
      (item : Subscription) (value : Text) {v : Text}
      → C.marshal item ≡ ok value
      → encode_subscription B C item ≡ ok v
      → v ≡ value
  unfolding encode_subscription
  encode-value item value m e =
      let guarded = >>-eq-ok (is_empty item.id) id_required _ e in
      let read = >>=-eq-ok (as_store_error C (C.marshal item)) _ guarded.1 in
      let fits =
        >>-eq-ok (leb B.max_batch_size (length read.0)) (store_failed (text "record too large"))
          (ok read.0) read.2 in
      let same : read.0 ≡ value = ok-injective (sym read.1 ∙ ap (as_store_error C) m) in
      sym (ok-injective fits.1) ∙ same

  -- What an Update with a subscription has put under its key.
  put-held :
      (s t : B.State) (item : Subscription) (value : Text)
      → C.marshal item ≡ ok value
      → update B C none s (Write.put item) ≡ ok t
      → B.get t (badger_key C item.id) ≡ some value
  unfolding update apply_write
  put-held s t item value m e =
      let step =
        >>=-eq-ok (apply_write B C s (Write.put item)) (λ u. committed B C u (B.commit s u)) e in
      let made =
        >>=-eq-ok (encode_subscription B C item) (λ v. ok (B.set s (badger_key C item.id) v))
          step.1 in
      let state = ok-injective made.2 ∙ committed-ok step.0 t (B.commit s step.0) step.2 in
      subst (λ u. B.get u (badger_key C item.id) ≡ some value) state
        (law.get-set s (badger_key C item.id) made.0 (badger_key C item.id)
          ∙ ap (λ b. if b then some made.0 else B.get s (badger_key C item.id))
              (eq_refl (badger_key C item.id))
          ∙ ap some (encode-value item value m made.1))

  own_prefix : (id : Text) → has_prefix (badger_key C id) subscription_prefix ≡ true
  unfolding badger_key
  own_prefix id = has_prefix-append subscription_prefix (C.raw_url id)

  -- A write of something else than the subscription with this ID.
  abbrev pub IsElsewhere : Text → Write → Type 0
  IsElsewhere id (Write.put item) = (item.id == id) ≡ false
  IsElsewhere id (Write.delete gone) = (gone == id) ≡ false
  IsElsewhere id (Write.set_metadata key value) = Unit

  -- A database after an update: what a refused one leaves is what was there.
  abbrev pub left_by : B.State → Result Error B.State → B.State
  left_by s (ok t) = t
  left_by s (err e) = s

  -- A database after some updates, each with its context.
  abbrev pub after_updates : B.State → List (Option Error × Write) → B.State
  after_updates s [] = s
  after_updates s (u ∷ us) = after_updates (left_by s (update B C u.0 s u.1)) us

  module _ (apart : IsInjective C.raw_url) where
    apply_write-elsewhere :
        (s t : B.State) (w : Write) (id : Text)
        → IsElsewhere id w
        → apply_write B C s w ≡ ok t
        → B.get t (badger_key C id) ≡ B.get s (badger_key C id)
    unfolding apply_write
    apply_write-elsewhere s t (Write.put item) id other e =
        let (v, made, same) =
          >>=-eq-ok (encode_subscription B C item) (λ v. ok (B.set s (badger_key C item.id) v)) e in
        ap (λ u. B.get u (badger_key C id)) (sym (ok-injective same))
        ∙ law.get-set s (badger_key C item.id) v (badger_key C id)
        ∙ ap (λ b. if b then some v else B.get s (badger_key C id))
            (keys_same C apart item.id id ∙ other)
    apply_write-elsewhere s t (Write.delete gone) id other e =
        ap (λ u. B.get u (badger_key C id)) (sym (ok-injective e))
        ∙ law.get-remove s (badger_key C gone) (badger_key C id)
        ∙ ap (λ b. if b then none else B.get s (badger_key C id))
            (keys_same C apart gone id ∙ other)
    apply_write-elsewhere s t (Write.set_metadata key value) id other e =
        ap (λ u. B.get u (badger_key C id)) (sym (ok-injective e))
        ∙ law.get-set s (metadata_key C key) value (badger_key C id)
        ∙ ap (λ b. if b then some value else B.get s (badger_key C id)) (keys_apart' C apart id key)

    update-elsewhere :
        (ctx : Option Error) (s : B.State) (w : Write) (id : Text)
        → IsElsewhere id w
        → B.get (left_by s (update B C ctx s w)) (badger_key C id) ≡ B.get s (badger_key C id)
    unfolding update
    update-elsewhere (some e) s w id other = refl
    update-elsewhere none s w id other = elim (Result-cases (update B C none s w)) [
      | inr (e, refused) ↦ ap (λ r. B.get (left_by s r) (badger_key C id)) refused
      | inl (t, done) ↦
          let (u, made, closed) =
            >>=-eq-ok (apply_write B C s w) (λ u. committed B C u (B.commit s u)) done in
          ap (λ r. B.get (left_by s r) (badger_key C id)) done
          ∙ ap (λ v. B.get v (badger_key C id)) (sym (committed-ok u t (B.commit s u) closed))
          ∙ apply_write-elsewhere s u w id other made
    ]

    after_updates-elsewhere :
        (s : B.State) (us : List (Option Error × Write)) (id : Text)
        → All (λ u. IsElsewhere id u.1) us
        → B.get (after_updates s us) (badger_key C id) ≡ B.get s (badger_key C id)
    after_updates-elsewhere s [] id h = refl
    after_updates-elsewhere s (u ∷ us) id (h, hs) =
        after_updates-elsewhere (left_by s (update B C u.0 s u.1)) us id hs
        ∙ update-elsewhere u.0 s u.1 id h

    -- If a subscription is put of which a node has JSON that sing-box does not decode, as Parse
    -- makes them, and the encoding gives it back, then Load fails, whatever updates come before it,
    -- as long as none of them puts or deletes this subscription.
    pub load-unreadable :
        (s t : B.State) (item : Subscription) (value : Text) (us : List (Option Error × Write))
        → C.marshal item ≡ ok value
        → C.unmarshal value ≡ ok (encoded_form item)
        → HasUnreadable C item.profile.nodes
        → update B C none s (Write.put item) ≡ ok t
        → All (λ u. IsElsewhere item.id u.1) us
        → (e : Error) × (load B C (λ key. none) (after_updates t us) ≡ err e)
    unfolding load
    load-unreadable s t item value us m u h e others =
        let last = after_updates t us in
        let held = after_updates-elsewhere t us item.id others ∙ put-held s t item value m e in
        load_keys-unreadable last (B.keys last subscription_prefix) (badger_key C item.id) value
          (law.contains-keys last subscription_prefix (badger_key C item.id)
            ∙ rw (held, own_prefix item.id))
          held (decode-unreadable C item value u h)
