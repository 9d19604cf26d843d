-- ===== src/Tests/Stores.antt =====
-- Examples for the store of subscriptions/badger_store.go, over a small database.
use target_lib.Base.{
  ◌≡◌, refl, List, [], ◌∷◌, Option, none, some, Text, text, ◌==◌, eq_iff, not, ◌&&◌, ◌⊎◌, contains,
  Distinct, has_prefix, is_some, if◌then◌else◌, Result, ok, err, pos, arith, Bool-cases, inl, inr,
}
use target_lib.Profile.{Node, NodePhase, Outbound, provider}
use target_lib.Subscriptions.Model.{Subscription, Error, store_failed}
use target_lib.Subscriptions.Store.{Write}
use target_lib.Subscriptions.Store.Badger.{
  Database, IsLawful, Codec, encoded_form, update, load, badger_key, apply_write,
  encode_subscription,
}
use target_lib.Subscriptions.Store.Badger.Encoding.{IsInjective}
use target_lib.Subscriptions.Store.Badger.Kept.{IsKept, update-IsKept}
use target_lib.Subscriptions.Store.Badger.Unreadable.{load-unreadable, after_updates}
use target_lib.Subscriptions.Update.{no_subscription}

abbrev Table : Type 0
Table = List (Text × Text)

get : Table → Text → Option Text
get [] key = none
get ((k, v) ∷ m) key = if k == key then some v else get m key

set : Table → Text → Text → Table
set [] key value = (key, value) ∷ []
set ((k, v) ∷ m) key value = if k == key then (key, value) ∷ m else (k, v) ∷ set m key value

remove : Table → Text → Table
remove [] key = []
remove ((k, v) ∷ m) key = let rest = remove m key in if k == key then rest else (k, v) ∷ rest

keys : Table → Text → List Text
keys [] prefix = []
keys ((k, v) ∷ m) prefix =
    let rest = keys m prefix in
    if has_prefix k prefix && not (contains rest k) then k ∷ rest else rest

get-set : (s : Table) (k v j : Text) → get (set s k v) j ≡ (if k == j then some v else get s j)
unfolding get set
get-set [] k v j = refl
get-set ((i, w) ∷ s) k v j = ground (arith, eq_iff i k, eq_iff i j, eq_iff k j, get-set s k v j)

get-remove : (s : Table) (k j : Text) → get (remove s k) j ≡ (if k == j then none else get s j)
unfolding get remove
get-remove [] k j = ground arith
get-remove ((i, w) ∷ s) k j = ground (arith, eq_iff i k, eq_iff i j, eq_iff k j, get-remove s k j)

contains-keys :
    (s : Table) (prefix k : Text)
    → contains (keys s prefix) k ≡ (has_prefix k prefix && is_some (get s k))
unfolding get keys contains
contains-keys [] prefix k = ground arith
contains-keys ((i, w) ∷ s) prefix k = elim (Bool-cases (i == k)) [
  | inl e ↦ rw ((eq_iff i k).0 e) (ground (arith, eq_iff k k, contains-keys s prefix k))
  | inr e ↦ ground (arith, e, contains-keys s prefix k)
]

Distinct-keys : (s : Table) (prefix : Text) → Distinct (keys s prefix)
unfolding keys
Distinct-keys [] prefix = tt
Distinct-keys ((i, w) ∷ s) prefix =
    elim (Bool-cases (has_prefix i prefix && not (contains (keys s prefix) i))) [
      | inl e ↦ rw (keys, e) (ground arith, Distinct-keys s prefix)
      | inr e ↦ rw (keys, e) (Distinct-keys s prefix)
    ]

abbrev database : Database
database = record {
  State = Table;
  get = get;
  set = set;
  remove = remove;
  keys = keys;
  commit = λ s t. none;
  max_batch_size = 1000;
}

database-IsLawful : IsLawful database
database-IsLawful = record {
  get-set = get-set;
  get-remove = get-remove;
  contains-keys = contains-keys;
  Distinct-keys = Distinct-keys;
}

abbrev typed : Outbound
unfolding text
typed = record { type = text "trojan"; tag = text "A"; options = provider [] }

-- A node whose outbound was decoded, and one whose was not.
abbrev node_with : Option Outbound → Node
unfolding text
node_with o = record {
  id = text "n";
  subscription_id = text "s";
  name = text "A";
  type = text "trojan";
  country_code = [];
  server = text "a.example";
  port = pos 443;
  phase = NodePhase.ready;
  error = [];
  outbound_json = text "{}";
  outbound = o;
}

abbrev item_with : Option Outbound → Subscription
unfolding text
item_with o = record no_subscription {
  id = text "s";
  profile = record { nodes = node_with o ∷ [] };
  updated_at = pos 3500000000;
}

-- Encodings that know one subscription.
abbrev codec : Option Outbound → Result Text Outbound → Codec
unfolding text
codec o decoded = record {
  marshal = λ s. ok (text "cbor");
  unmarshal = λ v. ok (encoded_form (item_with o));
  raw_url = λ id. id;
  decode_outbound = λ json. decoded;
}

abbrev readable : Codec
readable = codec (some typed) (ok typed)

apart : IsInjective readable.raw_url
unfolding codec
apart = λ a b e. e

update-IsKept_example :
    ((t : Table) × (update database readable none [] (Write.put (item_with (some typed))) ≡ ok t)
      × IsKept database readable database-IsLawful apart [] (Write.put (item_with (some typed))) t)
    ⊎ ((cause : Text) × (update database readable none [] (Write.put (item_with (some typed)))
          ≡ err (store_failed cause)))
unfolding get set remove keys text
update-IsKept_example =
    update-IsKept database readable database-IsLawful apart [] (Write.put (item_with (some typed)))
      tt
      (
        refl,
        record {
          value = text "cbor";
          encoded = refl;
          decoded = refl;
          restorable = (inl (typed, refl, refl, refl), tt);
        },
        omega arith,
      )

abbrev unreadable : Codec
unfolding text
unreadable = codec none (err (text "unknown field"))

apart_unreadable : IsInjective unreadable.raw_url
unfolding codec
apart_unreadable = λ a b e. e

abbrev held : Table
unfolding text
held = (text "subscription/s", text "cbor") ∷ []

put_unreadable : update database unreadable none [] (Write.put (item_with none)) ≡ ok held
unfolding update apply_write encode_subscription badger_key set text
put_unreadable = refl

-- A rename of another one, and an update that is refused.
abbrev later : List (Option Error × Write)
unfolding text
later =
    (none, Write.put (record no_subscription { id = text "o" }))
    ∷ (some (store_failed (text "ended")), Write.delete (text "p"))
    ∷ []

load-unreadable_example :
    (e : Error) × (load database unreadable
        (λ key. none)
        (after_updates database unreadable database-IsLawful held later)
      ≡ err e)
unfolding text ◌==◌
load-unreadable_example =
    load-unreadable database unreadable database-IsLawful apart_unreadable [] held (item_with none)
      (text "cbor") later refl refl (inl (refl, text "unknown field", refl)) put_unreadable
      (refl, (refl, tt))
