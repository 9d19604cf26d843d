-- ===== src/Subscriptions/Coordinator.antt =====
-- subscriptions/coordinator.go: one goroutine owns the subscriptions and runs commands in turn.
-- A command builds a mutation from the current items; the coordinator saves it, takes the new
-- items as current and publishes its events. The store is a parameter.
pub mod Commands
pub mod Sync
pub mod Loading
pub mod Taken
pub mod Failure
use target_lib.Base.{
  List, [], ◌∷◌, ◌++◌, Option, none, some, Text, Result, ok, err, Bool, true, false,
}
use target_lib.Subscriptions.Model.{Subscription, Error, no_state, manager_closed, PendingEvent}
use target_lib.Subscriptions.Store.{Store, Write}

-- managerState: the items map.
abbrev pub Items : Type 0
Items = List (Text × Subscription)

-- stateMutation. `next` is none for a nil pointer, `persist` is the one write of the transaction.
pub record Mutation : Type 0 where
  pub next : Option Items
  pub failure : Option Items
  pub persist : Option Write
  pub events : List PendingEvent

-- unchangedState.
abbrev pub unchanged : Items → Mutation
unchanged items = record { next = some items; failure = none; persist = none; events = [] }

-- What a command's build function returns: a mutation, and an error if it refuses.
abbrev pub Built : Type 0
Built = Mutation × Option Error

-- How the two selects of submit go. The context or the coordinator may end before the command is
-- taken; the coordinator may end after it ran and before its answer is read.
pub data Delivery : Type 0 where
  refused : Error → Delivery
  delivered unheard : Delivery

module _ (S : Store) where
  -- The current items (which the snapshot shows), the store, and what was published so far.
  pub record World : Type 0 where
    pub items : Items
    pub store : S.State
    pub published : List PendingEvent

  -- applyMutation: the items and the store it leads to.
  unfoldable pub apply_mutation : Option Error → S.State → Mutation → Result Error (Items × S.State)
  apply_mutation ctx store m = elim m.next [
    | none ↦ err no_state
    | some next ↦ elim m.persist [
      | none ↦ ok (next, store)
      | some w ↦ elim (S.update ctx store w) [ ok saved ↦ ok (next, saved) | err e ↦ err e ]
    ]
  ]

  -- The items after a command failed.
  abbrev pub fall_back : World → Option Items → World
  fall_back w none = w
  fall_back w (some items) = record w { items = items }

  abbrev pub conclude : World → Mutation → Result Error (Items × S.State) → World × Option Error
  conclude w m (ok (items, store)) =
      (record { items = items; store = store; published = w.published ++ m.events }, none)
  conclude w m (err e) = (fall_back w m.failure, some e)

  -- The body of runCoordinator's loop for one command.
  abbrev pub run_built : Option Error → World → Built → World × Option Error
  run_built ctx w (m, some e) = conclude w m (err e)
  run_built ctx w (m, none) = conclude w m (apply_mutation ctx w.store m)

  unfoldable pub run_command : Option Error → (Items → Built) → World → World × Option Error
  run_command ctx build w = run_built ctx w (build w.items)

  -- submit: what the caller hears, and the world that is left.
  unfoldable pub submit : Delivery → Option Error → (Items → Built) → World → World × Option Error
  submit (refused e) ctx build w = (w, some e)
  submit delivered ctx build w = run_command ctx build w
  submit unheard ctx build w = ((run_command ctx build w).0, some manager_closed)
