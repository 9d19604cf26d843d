-- ===== src/Subscriptions/Coordinator/Failure.antt =====
-- What a command leaves behind when it fails.
use target_lib.Base.{◌≡◌, refl, Option, none, some, Text, Option-cases, Result, ok, err, inl, inr}
use target_lib.Profile.Identity.{Digest}
use target_lib.Subscriptions.Model.{Subscription, Error, lookup, insert}
use target_lib.Subscriptions.Store.{Store}
use target_lib.Subscriptions.Coordinator.{
  Items, Mutation, Built, World, apply_mutation, fall_back, conclude, run_built, run_command,
}
use target_lib.Subscriptions.Coordinator.Commands.{
  add, remove, modify, begin_update, set_stage, commit, Command, add_item, remove_item, rename_item,
  configure_item, enable_item, begin_item, stage_item, commit_item, build_of,
}

module _ (S : Store) where
  -- The world after a command failed: as before, but a commit puts its old item back.
  abbrev pub undone : Command → World S → World S
  undone (commit_item item persisted) w = record w { items = insert item.id persisted w.items }
  undone _ w = w

  -- The mutation of a command names what the command falls back to.
  FallsBack : Command → World S → Built → Type 0
  FallsBack c w b = fall_back S w b.0.failure ≡ undone c w

  conclude-undone :
      (c : Command) (w : World S) (m : Mutation) (r : Result Error (Items × S.State)) (e : Error)
      → fall_back S w m.failure ≡ undone c w
      → (conclude S w m r).1 ≡ some e
      → (conclude S w m r).0 ≡ undone c w
  conclude-undone c w m (ok (items, store)) e h k = cc
  conclude-undone c w m (err d) e h k = h

  run_built-undone :
      (ctx : Option Error) (c : Command) (w : World S) (b : Built) (e : Error)
      → FallsBack c w b
      → (run_built S ctx w b).1 ≡ some e
      → (run_built S ctx w b).0 ≡ undone c w
  unfolding FallsBack
  run_built-undone ctx c w (m, some d) e h k = conclude-undone c w m (err d) e h k
  run_built-undone ctx c w (m, none) e h k =
      conclude-undone c w m (apply_mutation S ctx w.store m) e h k

  modify-FallsBack :
      (id : Text) (change : Subscription → Subscription) (w : World S)
      → fall_back S w (modify id change w.items).0.failure ≡ w
  unfolding modify
  modify-FallsBack id change w = elim (Option-cases (lookup w.items id)) [
    | inl e ↦ rw (modify, e) refl
    | inr (_, e) ↦ rw (modify, e) refl
  ]

  build_of-FallsBack :
      (D : Digest) (c : Command) (w : World S) → FallsBack c w (build_of D c w.items)
  unfolding FallsBack add remove begin_update set_stage commit
  build_of-FallsBack D (add_item item) w = elim (Option-cases (lookup w.items item.id)) [
    | inl e ↦ rw (add, e) refl
    | inr (_, e) ↦ rw (add, e) refl
  ]
  build_of-FallsBack D (remove_item id) w = elim (Option-cases (lookup w.items id)) [
    | inl e ↦ rw (remove, e) refl
    | inr (_, e) ↦ rw (remove, e) refl
  ]
  build_of-FallsBack D (rename_item id name) w = modify-FallsBack id _ w
  build_of-FallsBack D (configure_item id enabled interval now) w = modify-FallsBack id _ w
  build_of-FallsBack D (enable_item id enabled) w = modify-FallsBack id _ w
  build_of-FallsBack D (begin_item id) w = elim (Option-cases (lookup w.items id)) [
    | inl e ↦ rw (begin_update, e) refl
    | inr (_, e) ↦ rw (begin_update, e) refl
  ]
  build_of-FallsBack D (stage_item id stage) w = elim (Option-cases (lookup w.items id)) [
    | inl e ↦ rw (set_stage, e) refl
    | inr (_, e) ↦ rw (set_stage, e) refl
  ]
  build_of-FallsBack D (commit_item item persisted) w = refl

  -- A command that answers with an error has changed nothing: not the items, not the store, and it
  -- published no event. A commit alone puts the item from before the update back into the map.
  pub run_command-undone :
      (ctx : Option Error) (D : Digest) (c : Command) (w : World S) (e : Error)
      → (run_command S ctx (build_of D c) w).1 ≡ some e
      → (run_command S ctx (build_of D c) w).0 ≡ undone c w
  unfolding run_command
  run_command-undone ctx D c w e h =
      run_built-undone ctx c w (build_of D c w.items) e (build_of-FallsBack D c w) h
