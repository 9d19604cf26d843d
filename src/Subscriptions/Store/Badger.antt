-- ===== src/Subscriptions/Store/Badger.antt =====
-- subscriptions/badger_store.go: the store in an encrypted database, and RestoreNodeOutbound of
-- profile/parser.go. The database and the encodings are parameters with what is relied on as laws.
pub mod Encoding
pub mod Shown
pub mod Kept
pub mod Unreadable
use target_lib.Base.{
  ◌≡◌, refl, List, [], ◌∷◌, ◌++◌, Option, none, some, ℕ, Text, text, ◌==◌, Bool, true, false, ◌&&◌,
  contains, Distinct, has_prefix, is_some, is_empty, length, leb, Result, ok, err, ◌>>=◌, ◌>>◌,
  refuse_if, ℤ, pos, negsuc, ◌*◌, ◌/◌, ◌%◌, ◌-◌, ◌+◌, if◌then◌else◌,
}
use target_lib.Profile.{Node, Outbound, Profile}
use target_lib.Subscriptions.Model.{Subscription, Error, id_required, store_failed, Time}
use target_lib.Subscriptions.Store.{Write}

-- The database: Get, Set and Delete on a state, the keys that an iterator over a prefix visits, and
-- whether a commit from one state to another is refused.
pub record Database : Type 1 where
  pub State : Type 0
  pub get : State → Text → Option Text
  pub set : State → (key value : Text) → State
  pub remove : State → Text → State
  pub keys : State → (prefix : Text) → List Text
  pub commit : State → State → Option Text
  pub max_batch_size : ℕ

-- A transaction sees its own writes, and an iterator visits each key with the prefix once.
pub record IsLawful (B : Database) : Type 0 where
  pub get-set :
      (s : B.State) (k v j : Text) → B.get (B.set s k v) j ≡ (if k == j then some v else B.get s j)
  pub get-remove :
      (s : B.State) (k j : Text) → B.get (B.remove s k) j ≡ (if k == j then none else B.get s j)
  pub contains-keys :
      (s : B.State) (prefix k : Text)
      → contains (B.keys s prefix) k ≡ (has_prefix k prefix && is_some (B.get s k))
  pub Distinct-keys : (s : B.State) (prefix : Text) → Distinct (B.keys s prefix)

-- CBOR, base64 for keys, and sing-box's decoder of outbounds.
pub record Codec : Type 0 where
  pub marshal : Subscription → Result Text Text
  pub unmarshal : Text → Result Text Subscription
  pub raw_url : Text → Text
  pub decode_outbound : Text → Result Text Outbound

-- The encoding of times keeps whole seconds.
abbrev pub in_seconds : Time → Time
in_seconds (pos n) = pos (n / 1000000000 * 1000000000)
in_seconds (negsuc n) = negsuc (n / 1000000000 * 1000000000 + 999999999)

-- Node.Outbound is left out of the encoding.
abbrev pub stripped_nodes : List Node → List Node
stripped_nodes [] = []
stripped_nodes (n ∷ ns) = record n { outbound = none } ∷ stripped_nodes ns

abbrev pub encoded_form : Subscription → Subscription
encoded_form s = record s {
  profile = record { nodes = stripped_nodes s.profile.nodes };
  updated_at = in_seconds s.updated_at;
  next_update_at = in_seconds s.next_update_at;
  expires_at = in_seconds s.expires_at;
}

abbrev pub subscription_prefix : Text
unfolding text
subscription_prefix = text "subscription/"

abbrev pub metadata_prefix : Text
unfolding text
metadata_prefix = text "meta/runtime/"

module _ (C : Codec) where
  unfoldable pub badger_key : Text → Text
  badger_key id = subscription_prefix ++ C.raw_url id

  unfoldable pub metadata_key : Text → Text
  metadata_key key = metadata_prefix ++ C.raw_url key

  abbrev pub as_store_error {ℓ} : {A : Type ℓ} → Result Text A → Result Error A
  as_store_error (ok a) = ok a
  as_store_error (err cause) = err (store_failed cause)

  -- RestoreNodeOutbound on a node that restoreNodeOutbounds does not pass over.
  abbrev pub restored_as : Node → Result Text Outbound → Result Text Node
  restored_as n (ok typed) = ok (record n { outbound = some typed })
  restored_as n (err cause) = err cause

  unfoldable pub restore_node : Node → Result Text Node
  restore_node n = elim (is_some n.outbound) [
    | true ↦ ok n
    | false ↦ elim (is_empty n.outbound_json) [
      | true ↦ ok n
      | false ↦ restored_as n (C.decode_outbound n.outbound_json)
    ]
  ]

  unfoldable pub restore_node_outbounds : List Node → Result Text (List Node)
  restore_node_outbounds [] = ok []
  restore_node_outbounds (n ∷ ns) =
      restore_node n >>= λ m. (restore_node_outbounds ns >>= λ ms. ok (m ∷ ms))

  abbrev pub with_nodes : Subscription → List Node → Subscription
  with_nodes item nodes = record item { profile = record { nodes = nodes } }

  unfoldable pub decode_subscription : Text → Result Text Subscription
  decode_subscription value = C.unmarshal value >>= λ item.
      restore_node_outbounds item.profile.nodes >>= λ nodes. ok (with_nodes item nodes)

module _ (B : Database) (C : Codec) where
  unfoldable pub encode_subscription : Subscription → Result Error Text
  encode_subscription item =
      refuse_if (is_empty item.id) id_required
      >> (as_store_error C (C.marshal item) >>= λ encoded.
          refuse_if (leb B.max_batch_size (length encoded)) (store_failed (text "record too large"))
          >> ok encoded)

  -- badgerStoreTx.
  unfoldable pub apply_write : B.State → Write → Result Error B.State
  apply_write s (Write.put item) =
      encode_subscription item >>= λ value. ok (B.set s (badger_key C item.id) value)
  apply_write s (Write.delete id) = ok (B.remove s (badger_key C id))
  apply_write s (Write.set_metadata key value) = ok (B.set s (metadata_key C key) value)

  abbrev pub committed : B.State → Option Text → Result Error B.State
  committed t none = ok t
  committed t (some cause) = err (store_failed cause)

  unfoldable pub update : Option Error → B.State → Write → Result Error B.State
  update (some e) s w = err e
  update none s w = apply_write s w >>= λ t. committed t (B.commit s t)

  abbrev pub value_or_empty : Option Text → Text
  value_or_empty none = []
  value_or_empty (some v) = v

  -- The loop of Load; `stops` is an error of the context or of reading that it meets at a key.
  unfoldable pub load_keys :
      (Text → Option Error) → B.State → List Text → Result Error (List Subscription)
  load_keys stops s [] = ok []
  load_keys stops s (k ∷ ks) = elim (stops k) [
    | some e ↦ err e
    | none ↦ as_store_error C (decode_subscription C (value_or_empty (B.get s k))) >>= λ item.
        (load_keys stops s ks >>= λ items. ok (item ∷ items))
  ]

  unfoldable pub load : (Text → Option Error) → B.State → Result Error (List Subscription)
  load stops s = load_keys stops s (B.keys s subscription_prefix)

  -- GetMetadata under a context that goes on: empty for a key that is not there.
  unfoldable pub get_metadata : B.State → Text → Text
  get_metadata s key = value_or_empty (B.get s (metadata_key C key))
