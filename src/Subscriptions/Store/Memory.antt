-- ===== src/Subscriptions/Store/Memory.antt =====
-- MemoryStore of subscriptions/store.go, and the proof that it keeps the promise of a Store.
use target_lib.Base.{
  ◌≡◌, refl, subst, false, ◌||◌, List, [], ◌∷◌, map, Option, none, some, arith, Text, ◌==◌, eq_iff,
  contains, Distinct, if◌then◌else◌, Result, ok, err, ok-injective, Bool-cases, inl, inr,
}
use target_lib.Subscriptions.Model.{Subscription, Error}
use target_lib.Subscriptions.Store.{Store, Write, put, delete, set_metadata, written}

pub record MemoryStore : Type 0 where
  pub items : List Subscription
  pub metadata : List (Text × Text)

-- The loops of memoryStoreTx.
unfoldable pub tx_put : Subscription → List Subscription → List Subscription
tx_put item [] = item ∷ []
tx_put item (s ∷ ss) = if s.id == item.id then item ∷ ss else s ∷ tx_put item ss

unfoldable pub tx_delete : Text → List Subscription → List Subscription
tx_delete id [] = []
tx_delete id (s ∷ ss) = if s.id == id then ss else s ∷ tx_delete id ss

unfoldable pub tx_set_metadata : Text → Text → List (Text × Text) → List (Text × Text)
tx_set_metadata key value [] = (key, value) ∷ []
tx_set_metadata key value ((k, v) ∷ m) =
    if k == key then (key, value) ∷ m else (k, v) ∷ tx_set_metadata key value m

-- GetMetadata: empty for a key that is not there.
unfoldable pub get_metadata : List (Text × Text) → Text → Text
get_metadata [] key = []
get_metadata ((k, v) ∷ m) key = if k == key then v else get_metadata m key

unfoldable pub apply_write : Write → MemoryStore → MemoryStore
apply_write (put item) s = record s { items = tx_put item s.items }
apply_write (delete id) s = record s { items = tx_delete id s.items }
apply_write (set_metadata key value) s = record s {
  metadata = tx_set_metadata key value s.metadata;
}

-- Update: nothing is written under a context that has ended; the calls themselves never fail.
unfoldable pub update : Option Error → MemoryStore → Write → Result Error MemoryStore
update (some e) s w = err e
update none s w = ok (apply_write w s)

-- The subscription under an ID, as Load lists it.
unfoldable pub find : List Subscription → Text → Option Subscription
find [] id = none
find (s ∷ ss) id = if s.id == id then some s else find ss id

abbrev pub ids : List Subscription → List Text
ids = map λ s. s.id

ids-tx_put :
    (item : Subscription) (ss : List Subscription) (a : Text)
    → contains (ids (tx_put item ss)) a ≡ (contains (ids ss) a || item.id == a)
unfolding tx_put contains
ids-tx_put item [] a = ground arith
ids-tx_put item (s ∷ ss) a = ground (arith, eq_iff s.id item.id, ids-tx_put item ss a)

tx_put-Distinct :
    (item : Subscription) (ss : List Subscription)
    → Distinct (ids ss)
    → Distinct (ids (tx_put item ss))
unfolding tx_put contains
tx_put-Distinct item [] h = (refl, tt)
tx_put-Distinct item (s ∷ ss) h = elim (Bool-cases (s.id == item.id)) [
  | inl e ↦ rw e (subst (λ a. contains (ids ss) a ≡ false) ((eq_iff _ _).0 e) h.0, h.1)
  | inr e ↦ rw e (
    ground (arith, ids-tx_put item ss s.id, eq_iff s.id item.id, eq_iff item.id s.id),
    tx_put-Distinct item ss h.1,
  )
]

not-contains-tx_delete :
    (id : Text) (ss : List Subscription) (a : Text)
    → contains (ids ss) a ≡ false
    → contains (ids (tx_delete id ss)) a ≡ false
unfolding tx_delete contains
not-contains-tx_delete id [] a h = refl
not-contains-tx_delete id (s ∷ ss) a h = ground (arith, not-contains-tx_delete id ss a)

tx_delete-Distinct :
    (id : Text) (ss : List Subscription) → Distinct (ids ss) → Distinct (ids (tx_delete id ss))
unfolding tx_delete
tx_delete-Distinct id [] h = tt
tx_delete-Distinct id (s ∷ ss) h = elim (Bool-cases (s.id == id)) [
  | inl e ↦ rw e h.1
  | inr e ↦ rw e (not-contains-tx_delete id ss s.id h.0, tx_delete-Distinct id ss h.1)
]

find-tx_put :
    (item : Subscription) (ss : List Subscription) (a : Text)
    → find (tx_put item ss) a ≡ (if item.id == a then some item else find ss a)
unfolding find tx_put
find-tx_put item [] a = refl
find-tx_put item (s ∷ ss) a =
    ground (arith, eq_iff s.id item.id, eq_iff s.id a, eq_iff item.id a, find-tx_put item ss a)

find_absent : (ss : List Subscription) (a : Text) → contains (ids ss) a ≡ false → find ss a ≡ none
unfolding find contains
find_absent [] a h = refl
find_absent (s ∷ ss) a h = ground (arith, find_absent ss a)

find-tx_delete :
    (id : Text) (ss : List Subscription) (a : Text)
    → Distinct (ids ss)
    → find (tx_delete id ss) a ≡ (if id == a then none else find ss a)
unfolding find tx_delete
find-tx_delete id [] a h = ground arith
find-tx_delete id (s ∷ ss) a h = ground (
  arith,
  eq_iff s.id id,
  eq_iff s.id a,
  eq_iff id a,
  find_absent ss a,
  h.0,
  find-tx_delete id ss a h.1,
)

unfoldable pub stored : MemoryStore → Text → Option Subscription
stored s id = find s.items id

-- No ID stands twice.
abbrev pub Valid : MemoryStore → Type 0
Valid s = Distinct (ids s.items)

pub apply_write-Valid : (w : Write) (s : MemoryStore) → Valid s → Valid (apply_write w s)
unfolding apply_write
apply_write-Valid (put item) s h = tx_put-Distinct item s.items h
apply_write-Valid (delete id) s h = tx_delete-Distinct id s.items h
apply_write-Valid (set_metadata key value) s h = h

pub stored-apply_write :
    (w : Write) (s : MemoryStore) (id : Text)
    → Valid s
    → stored (apply_write w s) id ≡ written w id (stored s id)
unfolding stored apply_write
stored-apply_write (put item) s id h = find-tx_put item s.items id
stored-apply_write (delete gone) s id h = find-tx_delete gone s.items id h
stored-apply_write (set_metadata key value) s id h = refl

pub update-eq-ok :
    (ctx : Option Error) (s t : MemoryStore) (w : Write)
    → update ctx s w ≡ ok t
    → apply_write w s ≡ t
unfolding update
update-eq-ok none s t w e = ok-injective e
update-eq-ok (some c) s t w e = cc

-- The store in memory keeps a Store's promise.
abbrev pub memory_store : Store
memory_store = record {
  State = MemoryStore;
  Valid = Valid;
  stored = stored;
  update = update;
  update-Valid = λ ctx s t w h e. subst Valid (update-eq-ok ctx s t w e) (apply_write-Valid w s h);
  stored-update = λ ctx s t w id h e.
      subst (λ u. stored u id ≡ written w id (stored s id)) (update-eq-ok ctx s t w e)
        (stored-apply_write w s id h);
}

pub get_metadata-tx_set_metadata :
    (m : List (Text × Text)) (key value k : Text)
    → get_metadata (tx_set_metadata key value m) k ≡ (if key == k then value else get_metadata m k)
unfolding get_metadata tx_set_metadata
get_metadata-tx_set_metadata [] key value k = refl
get_metadata-tx_set_metadata ((j, v) ∷ m) key value k =
    ground
      (arith, eq_iff j key, eq_iff j k, eq_iff key k, get_metadata-tx_set_metadata m key value k)

-- What a transaction does to the metadata.
abbrev pub noted : Write → Text → Text → Text
noted (set_metadata key value) k before = if key == k then value else before
noted _ k before = before

pub metadata-apply_write :
    (w : Write) (s : MemoryStore) (k : Text)
    → get_metadata (apply_write w s).metadata k ≡ noted w k (get_metadata s.metadata k)
unfolding apply_write
metadata-apply_write (put item) s k = refl
metadata-apply_write (delete id) s k = refl
metadata-apply_write (set_metadata key value) s k =
    get_metadata-tx_set_metadata s.metadata key value k

-- One Update of the store in memory, under a context that has not ended, on a state without
-- repeated IDs: it succeeds, no ID repeats afterwards, each ID holds what the write says (put,
-- deleted, or as before), and so does each metadata key.
pub memory-update :
    (s : MemoryStore) (w : Write)
    → Valid s
    → (t : MemoryStore) × (update none s w ≡ ok t)
      × Valid t
      × ((id : Text) → stored t id ≡ written w id (stored s id))
      × ((k : Text) → get_metadata t.metadata k ≡ noted w k (get_metadata s.metadata k))
unfolding update
memory-update s w h = (
  apply_write w s,
  refl,
  apply_write-Valid w s h,
  λ id. stored-apply_write w s id h,
  metadata-apply_write w s,
)
