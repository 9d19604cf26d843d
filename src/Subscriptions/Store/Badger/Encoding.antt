-- ===== src/Subscriptions/Store/Badger/Encoding.antt =====
-- The records and the keys of subscriptions/badger_store.go: what is encoded can be decoded again.
use target_lib.Base.{
  ◌≡◌, refl, sym, ap, ◌∙◌, List, [], ◌∷◌, ◌++◌, none, some, Text, text, ◌==◌, eq_iff, true, false,
  is_empty, ok, All, Bool-cases, inl, inr, ◌⊎◌, append-cancel,
}
use target_lib.Profile.{Node, Outbound}
use target_lib.Subscriptions.Model.{Subscription}
use target_lib.Subscriptions.Store.Badger.{
  Codec, encoded_form, stripped_nodes, subscription_prefix, metadata_prefix, badger_key,
  metadata_key, restore_node, restore_node_outbounds, decode_subscription, in_seconds,
}

module _ (C : Codec) where
  -- A node that comes back whole: its outbound is what its JSON decodes to, or it has neither.
  abbrev pub IsRestorable : Node → Type 0
  IsRestorable n =
      ((o : Outbound) × (is_empty n.outbound_json ≡ false)
        × (C.decode_outbound n.outbound_json ≡ ok o)
        × (n.outbound ≡ some o))
      ⊎ ((is_empty n.outbound_json ≡ true) × (n.outbound ≡ none))

  -- A subscription that the encoding takes and gives back, nodes without their outbounds and times
  -- in whole seconds, and whose outbounds can be decoded again.
  pub record IsStorable (item : Subscription) : Type 0 where
    pub value : Text
    pub encoded : C.marshal item ≡ ok value
    pub decoded : C.unmarshal value ≡ ok (encoded_form item)
    pub restorable : All IsRestorable item.profile.nodes

  -- What comes back: times in whole seconds, all else as it was.
  abbrev pub kept_form : Subscription → Subscription
  kept_form s = record s {
    updated_at = in_seconds s.updated_at;
    next_update_at = in_seconds s.next_update_at;
    expires_at = in_seconds s.expires_at;
  }

  restore_node-stripped :
      (n : Node) → IsRestorable n → restore_node C (record n { outbound = none }) ≡ ok n
  unfolding restore_node
  restore_node-stripped n (inl (o, j, d, e)) =
      rw (restore_node, j, d) (ap (λ x. ok (record n { outbound = x })) (sym e))
  restore_node-stripped n (inr (j, e)) =
      rw (restore_node, j) (ap (λ x. ok (record n { outbound = x })) (sym e))

  restore-stripped :
      (ns : List Node) → All IsRestorable ns → restore_node_outbounds C (stripped_nodes ns) ≡ ok ns
  unfolding restore_node_outbounds
  restore-stripped [] h = refl
  restore-stripped (n ∷ ns) h = rw (restore_node-stripped n h.0, restore-stripped ns h.1)

  pub decode-encoded :
      (item : Subscription) (h : IsStorable item)
      → decode_subscription C h.value ≡ ok (kept_form item)
  unfolding decode_subscription
  decode-encoded item h = rw (h.decoded, restore-stripped item.profile.nodes h.restorable)

-- The last law of the encodings: IDs are told apart by their keys.
abbrev pub IsInjective : (Text → Text) → Type 0
IsInjective f = (a b : Text) → f a ≡ f b → a ≡ b

module _ (C : Codec) (apart : IsInjective C.raw_url) where
  -- Keys with one prefix are the same if their IDs are.
  prefixed_same : (p a b : Text) → ((p ++ C.raw_url a) == (p ++ C.raw_url b)) ≡ (a == b)
  prefixed_same p a b = elim (Bool-cases (a == b)) [
    | inl e ↦ (eq_iff _ _).1 (ap (λ x. p ++ C.raw_url x) ((eq_iff a b).0 e)) ∙ sym e
    | inr e ↦ elim (Bool-cases ((p ++ C.raw_url a) == (p ++ C.raw_url b))) [
      | inl same ↦
          let raw = (append-cancel p p (C.raw_url a) (C.raw_url b) refl ((eq_iff _ _).0 same)).1 in
          cc (e, (eq_iff a b).1 (apart a b raw))
      | inr other ↦ other ∙ sym e
    ]
  ]

  pub keys_same : (a b : Text) → (badger_key C a == badger_key C b) ≡ (a == b)
  unfolding badger_key
  keys_same a b = prefixed_same subscription_prefix a b

  pub metadata_keys_same : (a b : Text) → (metadata_key C a == metadata_key C b) ≡ (a == b)
  unfolding metadata_key
  metadata_keys_same a b = prefixed_same metadata_prefix a b

  pub keys_apart : (a b : Text) → (badger_key C a == metadata_key C b) ≡ false
  unfolding badger_key metadata_key ◌==◌ text
  keys_apart a b = refl

  pub keys_apart' : (a b : Text) → (metadata_key C b == badger_key C a) ≡ false
  unfolding badger_key metadata_key ◌==◌ text
  keys_apart' a b = refl
