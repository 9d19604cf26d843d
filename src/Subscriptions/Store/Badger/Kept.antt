-- ===== src/Subscriptions/Store/Badger/Kept.antt =====
-- What is put into the store of subscriptions/badger_store.go comes back from it.
use target_lib.Base.{
  ◌≡◌, refl, sym, ap, ◌∙◌, subst, List, Option, none, some, ◌<◌, Text, text, ◌==◌, eq_iff, true,
  false, Distinct, has_prefix, cut_prefix, is_some, is_empty, length, leb, ok, err, All-of_each,
  All-of_contains, arith, Bool-cases, and-parts, Option-cases, inl, inr, ◌⊎◌, if◌then◌else◌,
}
use target_lib.Subscriptions.Model.{Subscription, store_failed}
use target_lib.Subscriptions.Store.{Write}
use target_lib.Subscriptions.Store.Memory.{find, ids, noted}
use target_lib.Subscriptions.Store.Badger.Encoding.{
  IsStorable, kept_form, decode-encoded, IsInjective, keys_same, metadata_keys_same, keys_apart,
  keys_apart',
}
use target_lib.Subscriptions.Store.Badger.{
  Database, IsLawful, Codec, subscription_prefix, badger_key, metadata_key, encode_subscription,
  apply_write, update, value_or_empty, load, get_metadata,
}
use target_lib.Subscriptions.Store.Badger.Shown.{Holds, IsSound, stored, load-IsLoaded}

module _ (B : Database) (C : Codec) (law : IsLawful B) (apart : IsInjective C.raw_url) where
  -- A write that the store takes: a subscription has an ID, can be (stored B C law apart), and fits a transaction.
  abbrev pub IsTaken : Write → Type 0
  IsTaken (Write.put item) =
      (is_empty item.id ≡ false) × (h : IsStorable C item) × (length h.value < B.max_batch_size)
  IsTaken (Write.delete id) = Unit {0}
  IsTaken (Write.set_metadata key value) = Unit {0}

  -- What a write leaves under an ID.
  abbrev pub kept : Write → Text → Option Subscription → Option Subscription
  kept (Write.put item) id before = if item.id == id then some (kept_form C item) else before
  kept (Write.delete gone) id before = if gone == id then none else before
  kept (Write.set_metadata key value) id before = before

  Holds-same :
      (s t : B.State) (k : Text)
      → B.get t k ≡ B.get s k
      → (Holds B C law apart) s k
      → (Holds B C law apart) t k
  unfolding Holds
  Holds-same s t k e (item, h, own, held) = (item, h, own, e ∙ held)

  -- A state is sound if each key under the prefix is that of a new record or was one before.
  IsSound-each :
      (s t : B.State)
      → ((k : Text)
          → has_prefix k subscription_prefix ≡ true
          → is_some (B.get t k) ≡ true
          → (Holds B C law apart) t k ⊎ (B.get t k ≡ B.get s k))
      → (IsSound B C law apart) s
      → (IsSound B C law apart) t
  IsSound-each s t f h =
      All-of_each _ _ λ k listed. each k (and-parts (sym (law.contains-keys t _ k) ∙ listed))
    where
      each :
          (k : Text)
          → (has_prefix k subscription_prefix ≡ true) × (is_some (B.get t k) ≡ true)
          → (Holds B C law apart) t k
      each k (under, there) = elim (f k under there) [
        | inl now ↦ now
        | inr e ↦ Holds-same s t k e (
            All-of_contains ((Holds B C law apart) s) _ k h
              (law.contains-keys s _ k ∙ rw (under, sym (ap is_some e) ∙ there)))
      ]

  record Applied (s : B.State) (w : Write) (t : B.State) : Type 0 where
    applied : apply_write B C s w ≡ ok t
    sound : (IsSound B C law apart) t
    each : (id : Text) → (stored B C law apart) t id ≡ kept w id ((stored B C law apart) s id)
    metadata : (k : Text) → get_metadata B C t k ≡ noted w k (get_metadata B C s k)

  metadata_same :
      (s t : B.State) (k : Text)
      → B.get t (metadata_key C k) ≡ B.get s (metadata_key C k)
      → get_metadata B C t k ≡ get_metadata B C s k
  unfolding get_metadata
  metadata_same s t k e = ap (value_or_empty B C) e

  stored-set :
      (s : B.State) (item : Subscription) (h : IsStorable C item) (id : Text)
      → (stored B C law apart) (B.set s (badger_key C item.id) h.value) id
        ≡ (if item.id == id then some (kept_form C item) else (stored B C law apart) s id)
  unfolding stored
  stored-set s item h id = elim (Bool-cases (item.id == id)) [
    | inl e ↦ rw (
      law.get-set s _ h.value (badger_key C id),
      keys_same C apart item.id id,
      e,
      decode-encoded C item h,
    )
    | inr e ↦ rw (law.get-set s _ h.value (badger_key C id), keys_same C apart item.id id, e)
  ]

  put-Applied :
      (s : B.State) (item : Subscription) (taken : IsTaken (Write.put item))
      → (IsSound B C law apart) s
      → Applied s (Write.put item) (B.set s (badger_key C item.id) (taken.1).value)
  unfolding apply_write encode_subscription Holds
  put-Applied s item (named, h, small) sound = record {
    applied = rw (named, h.encoded, not_large);
    sound = IsSound-each s _ each sound;
    each = stored-set s item h;
    metadata = λ k.
        metadata_same s _ k
          (law.get-set s _ h.value (metadata_key C k) ∙ rw (keys_apart C apart item.id k));
  }
    where
      not_large : leb B.max_batch_size (length h.value) ≡ false
      not_large = ground arith

      each :
          (k : Text)
          → has_prefix k subscription_prefix ≡ true
          → is_some (B.get (B.set s (badger_key C item.id) h.value) k) ≡ true
          → (Holds B C law apart) (B.set s (badger_key C item.id) h.value) k
            ⊎ (B.get (B.set s (badger_key C item.id) h.value) k ≡ B.get s k)
      each k under there = elim (Bool-cases (badger_key C item.id == k)) [
        | inl e ↦ inl (item, h, sym ((eq_iff _ k).0 e), law.get-set s _ h.value k ∙ rw e)
        | inr e ↦ inr (law.get-set s _ h.value k ∙ rw e)
      ]

  delete-Applied :
      (s : B.State) (id : Text)
      → (IsSound B C law apart) s
      → Applied s (Write.delete id) (B.remove s (badger_key C id))
  unfolding apply_write stored
  delete-Applied s id sound = record {
    applied = refl;
    sound = IsSound-each s _ each sound;
    each = λ j. elim (Bool-cases (id == j)) [
      | inl e ↦ rw (law.get-remove s (badger_key C id) (badger_key C j), keys_same C apart id j, e)
      | inr e ↦ rw (law.get-remove s (badger_key C id) (badger_key C j), keys_same C apart id j, e)
    ];
    metadata = λ k.
        metadata_same s _ k (law.get-remove s _ (metadata_key C k) ∙ rw (keys_apart C apart id k));
  }
    where
      each :
          (k : Text)
          → has_prefix k subscription_prefix ≡ true
          → is_some (B.get (B.remove s (badger_key C id)) k) ≡ true
          → (Holds B C law apart) (B.remove s (badger_key C id)) k
            ⊎ (B.get (B.remove s (badger_key C id)) k ≡ B.get s k)
      each k under there = elim (Bool-cases (badger_key C id == k)) [
        | inl e ↦
            let gone : B.get (B.remove s (badger_key C id)) k ≡ none =
              law.get-remove s (badger_key C id) k ∙ ap (λ b. if b then none else B.get s k) e in
            absurd (cc (there, gone))
        | inr e ↦ inr (law.get-remove s _ k ∙ rw e)
      ]

  other_prefix : (key : Text) → has_prefix (metadata_key C key) subscription_prefix ≡ false
  unfolding metadata_key has_prefix cut_prefix text
  other_prefix key = refl

  set_metadata-Applied :
      (s : B.State) (key value : Text)
      → (IsSound B C law apart) s
      → Applied s (Write.set_metadata key value) (B.set s (metadata_key C key) value)
  unfolding apply_write stored get_metadata
  set_metadata-Applied s key value sound = record {
    applied = refl;
    sound = IsSound-each s _ each sound;
    each = λ j.
        rw (law.get-set s (metadata_key C key) value (badger_key C j), keys_apart' C apart j key);
    metadata = λ k. elim (Bool-cases (key == k)) [
      | inl e ↦ rw (
        law.get-set s (metadata_key C key) value (metadata_key C k),
        metadata_keys_same C apart key k,
        e,
      )
      | inr e ↦ rw (
        law.get-set s (metadata_key C key) value (metadata_key C k),
        metadata_keys_same C apart key k,
        e,
      )
    ];
  }
    where
      each :
          (k : Text)
          → has_prefix k subscription_prefix ≡ true
          → is_some (B.get (B.set s (metadata_key C key) value) k) ≡ true
          → (Holds B C law apart) (B.set s (metadata_key C key) value) k
            ⊎ (B.get (B.set s (metadata_key C key) value) k ≡ B.get s k)
      each k under there = elim (Bool-cases (metadata_key C key == k)) [
        | inl e ↦
            let other =
              subst (λ x. has_prefix x subscription_prefix ≡ false) ((eq_iff _ k).0 e)
                (other_prefix key) in
            absurd (cc (under, other))
        | inr e ↦ inr (law.get-set s _ value k ∙ rw e)
      ]

  apply_write-Applied :
      (s : B.State) (w : Write)
      → (IsSound B C law apart) s
      → IsTaken w
      → (t : B.State) × Applied s w t
  apply_write-Applied s (Write.put item) sound taken = (_, put-Applied s item taken sound)
  apply_write-Applied s (Write.delete id) sound taken = (_, delete-Applied s id sound)
  apply_write-Applied s (Write.set_metadata key value) sound taken =
      (_, set_metadata-Applied s key value sound)

  -- What an Update has done, as Load and GetMetadata show it.
  pub record IsKept (s : B.State) (w : Write) (t : B.State) : Type 0 where
    pub sound : (IsSound B C law apart) t
    pub before : List Subscription
    pub loaded_before : load B C (λ k. none) s ≡ ok before
    pub after : List Subscription
    pub loaded : load B C (λ k. none) t ≡ ok after
    pub distinct : Distinct (ids after)
    pub each : (id : Text) → find after id ≡ kept w id (find before id)
    pub metadata : (k : Text) → get_metadata B C t k ≡ noted w k (get_metadata B C s k)

  Applied-IsKept :
      (s : B.State) (w : Write) (t : B.State)
      → (IsSound B C law apart) s
      → Applied s w t
      → IsKept s w t
  Applied-IsKept s w t sound a =
      let old = (load-IsLoaded B C law apart) s sound in
      let new = (load-IsLoaded B C law apart) t a.sound in
      record {
        sound = a.sound;
        before = old.0;
        loaded_before = (old.1).done;
        after = new.0;
        loaded = (new.1).done;
        distinct = (new.1).distinct;
        each = λ id. (new.1).each id ∙ a.each id ∙ ap (kept w id) (sym ((old.1).each id));
        metadata = a.metadata;
      }

  -- One Update of the database, under a context that goes on: if each record is that of a
  -- subscription that can be stored, under its own key, and the write is one that the store takes,
  -- then it succeeds or the commit is refused. If it succeeds, Load gives what it gave before with
  -- that write done, times in whole seconds and each outbound decoded again, and no ID twice; each
  -- metadata key holds what the write says; and each record is still such a one.
  pub update-IsKept :
      (s : B.State) (w : Write)
      → (IsSound B C law apart) s
      → IsTaken w
      → ((t : B.State) × (update B C none s w ≡ ok t) × IsKept s w t)
        ⊎ ((cause : Text) × (update B C none s w ≡ err (store_failed cause)))
  unfolding update
  update-IsKept s w sound taken =
      let (t, a) = apply_write-Applied s w sound taken in
      elim (Option-cases (B.commit s t)) [
        | inl e ↦ inl (t, rw (a.applied, e), Applied-IsKept s w t sound a)
        | inr (cause, e) ↦ inr (cause, rw (a.applied, e))
      ]
