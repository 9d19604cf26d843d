-- ===== src/Subscriptions/Store.antt =====
-- subscriptions/store.go: the store as the coordinator sees it, and the store in memory.
pub mod Memory
pub mod Badger
use target_lib.Base.{◌≡◌, Bool, List, Option, none, some, Text, ◌==◌, if◌then◌else◌, Result, ok}
use target_lib.Subscriptions.Model.{Subscription, Error}

-- A transaction of the source makes one call: Put, Delete or SetMetadata of StoreTx.
pub data Write : Type 0 where
  put : Subscription → Write
  delete : Text → Write
  set_metadata : (key value : Text) → Write

-- What a write does to the record stored under an ID.
abbrev pub written : Write → Text → Option Subscription → Option Subscription
written (put item) id before = if item.id == id then some item else before
written (delete gone) id before = if gone == id then none else before
written (set_metadata key value) id before = before

-- Store: a state, Update with one write under a context that may have ended, and the promise that
-- a successful update changes the stored subscriptions by that write and nothing else.
pub record Store : Type 1 where
  pub State : Type 0
  pub Valid : State → Type 0
  pub stored : State → Text → Option Subscription
  pub update : (ctx : Option Error) → State → Write → Result Error State
  pub update-Valid :
      (ctx : Option Error) (s t : State) (w : Write) → Valid s → update ctx s w ≡ ok t → Valid t
  pub stored-update :
      (ctx : Option Error) (s t : State) (w : Write) (id : Text)
      → Valid s
      → update ctx s w ≡ ok t
      → stored t id ≡ written w id (stored s id)
