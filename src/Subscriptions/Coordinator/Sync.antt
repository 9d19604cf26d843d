-- ===== src/Subscriptions/Coordinator/Sync.antt =====
-- What the coordinator shows and what the store holds stay in step, command by command.
use target_lib.Base.{
  ◌≡◌, refl, sym, ap, ◌∙◌, List, [], Option, none, some, Text, ◌==◌, eq_iff, Bool-cases,
  Option-cases, Result-cases, ok, inl, inr,
}
use target_lib.Profile.Identity.{Digest}
use target_lib.Subscriptions.Model.{
  Subscription, Error, Status, UpdateStage, PendingEvent, lookup, insert, delete,
}
use target_lib.Subscriptions.Maps.{
  AllItems, AllItems-insert, AllItems-delete, AllItems-lookup, lookup-insert_here,
  lookup-insert_other, lookup-delete_here, lookup-delete_other,
}
use target_lib.Subscriptions.Store.{Store, Write}
use target_lib.Subscriptions.Coordinator.{
  Items, World, apply_mutation, fall_back, run_built, run_command,
}
use target_lib.Subscriptions.Coordinator.Commands.{
  add, remove, modify, begin_update, set_stage, commit, renamed, updates_configured, enabled_set,
  Command, add_item, remove_item, rename_item, configure_item, enable_item, begin_item, stage_item,
  commit_item, build_of, noting,
}

-- What the store is to know of an item: all but the progress of an update.
abbrev pub settle : Subscription → Subscription
settle s = record s { status = Status.idle; stage = UpdateStage.idle; error = [] }

abbrev pub settled : Option Subscription → Option Subscription
settled none = none
settled (some s) = some (settle s)

-- Items stand under their own IDs.
abbrev pub Keyed : Items → Type 0
Keyed = AllItems λ id s. s.id ≡ id

module _ (S : Store) where
  abbrev Saved : S.State → Items → Type 0
  Saved store items = (id : Text) → settled (S.stored store id) ≡ settled (lookup items id)

  -- Every item is stored under its ID, up to the progress of an update, and nothing else is.
  pub record Synced (w : World S) : Type 0 where
    pub valid : S.Valid w.store
    pub keyed : Keyed w.items
    pub saved : (id : Text) → settled (S.stored w.store id) ≡ settled (lookup w.items id)

  -- An item that the store knows takes the place of another in the map.
  Saved-insert :
      (store : S.State) (items : Items) (id : Text) (item : Subscription)
      → settled (S.stored store id) ≡ some (settle item)
      → Saved store items
      → Saved store (insert id item items)
  Saved-insert store items id item h k j = elim (Bool-cases (id == j)) [
    | inl b ↦
        ap (λ a. settled (S.stored store a)) (sym ((eq_iff id j).0 b))
        ∙ h
        ∙ ap settled (sym (lookup-insert_here items id j item b))
    | inr b ↦ k j ∙ ap settled (sym (lookup-insert_other items id j item b))
  ]

  -- An item is stored and put in the map.
  Saved-put :
      (ctx : Option Error) (store saved : S.State) (items : Items) (id : Text) (item : Subscription)
      → item.id ≡ id
      → S.Valid store
      → S.update ctx store (Write.put item) ≡ ok saved
      → Saved store items
      → Saved saved (insert id item items)
  Saved-put ctx store saved items id item h v u k j = elim (Bool-cases (id == j)) [
    | inl b ↦ ap settled (
        S.stored-update ctx store saved (Write.put item) j v u
        ∙ (rw (h, b) refl)
        ∙ sym (lookup-insert_here items id j item b))
    | inr b ↦
        ap settled (S.stored-update ctx store saved (Write.put item) j v u ∙ (rw (h, b) refl))
        ∙ k j
        ∙ ap settled (sym (lookup-insert_other items id j item b))
  ]

  Saved-delete :
      (ctx : Option Error) (store saved : S.State) (items : Items) (id : Text)
      → S.Valid store
      → S.update ctx store (Write.delete id) ≡ ok saved
      → Saved store items
      → Saved saved (delete id items)
  Saved-delete ctx store saved items id v u k j = elim (Bool-cases (id == j)) [
    | inl b ↦ ap settled (
        S.stored-update ctx store saved (Write.delete id) j v u
        ∙ (rw b refl)
        ∙ sym (lookup-delete_here items id j b))
    | inr b ↦
        ap settled (S.stored-update ctx store saved (Write.delete id) j v u ∙ (rw b refl))
        ∙ k j
        ∙ ap settled (sym (lookup-delete_other items id j b))
  ]

  -- What a commit would put back is the item that the store still holds under that ID. Other
  -- commands put nothing back.
  abbrev pub Foreseen : World S → Command → Type 0
  Foreseen w (commit_item item persisted) =
      (settled (S.stored w.store item.id) ≡ some (settle persisted)) × (persisted.id ≡ item.id)
  Foreseen w _ = Unit

  module _ (ctx : Option Error) (w : World S) (h : Synced w) where
    noting-Synced :
        (id : Text) (old item : Subscription)
        → lookup w.items id ≡ some old
        → item.id ≡ id
        → settle item ≡ settle old
        → Synced (run_built S ctx w (noting w.items id item)).0
    unfolding apply_mutation
    noting-Synced id old item l e k = record {
      valid = h.valid;
      keyed = AllItems-insert _ w.items id item e h.keyed;
      saved =
          Saved-insert w.store w.items id item (h.saved id ∙ ap settled l ∙ ap some (sym k))
            h.saved;
    }

    -- A mutation that stores an item; what it falls back to is in step as well.
    storing-Synced :
        (id : Text) (item : Subscription) (failure : Option Items) (events : List PendingEvent)
        → item.id ≡ id
        → Synced (fall_back S w failure)
        → Synced
            (run_built S ctx w (
              record {
                next = some (insert id item w.items);
                failure = failure;
                persist = some (Write.put item);
                events = events;
              },
              none,
            )).0
    unfolding apply_mutation
    storing-Synced id item failure events e f =
        elim (Result-cases (S.update ctx w.store (Write.put item))) [
          | inl (saved, u) ↦
              rw (apply_mutation, u)
                (record {
                  valid = S.update-Valid ctx w.store saved (Write.put item) h.valid u;
                  keyed = AllItems-insert _ w.items id item e h.keyed;
                  saved = Saved-put ctx w.store saved w.items id item e h.valid u h.saved;
                })
          | inr (_, u) ↦ rw (apply_mutation, u) f
        ]

    deleting-Synced :
        (id : Text) (events : List PendingEvent)
        → Synced
            (run_built S ctx w (
              record {
                next = some (delete id w.items);
                failure = none;
                persist = some (Write.delete id);
                events = events;
              },
              none,
            )).0
    unfolding apply_mutation
    deleting-Synced id events = elim (Result-cases (S.update ctx w.store (Write.delete id))) [
      | inl (saved, u) ↦
          rw (apply_mutation, u)
            (record {
              valid = S.update-Valid ctx w.store saved (Write.delete id) h.valid u;
              keyed = AllItems-delete _ w.items id h.keyed;
              saved = Saved-delete ctx w.store saved w.items id h.valid u h.saved;
            })
      | inr (_, u) ↦ rw (apply_mutation, u) h
    ]

    modify-Synced :
        (id : Text) (change : Subscription → Subscription)
        → ((s : Subscription) → (change s).id ≡ s.id)
        → Synced (run_command S ctx (modify id change) w).0
    unfolding run_command modify
    modify-Synced id change k = elim (Option-cases (lookup w.items id)) [
      | inl e ↦ rw (modify, e) h
      | inr (item, e) ↦
          rw (modify, e)
            (storing-Synced id (change item) none _
              (k item ∙ AllItems-lookup _ w.items id item h.keyed e) h)
    ]

    -- If the coordinator's items and the store are in step before a command, they are in step after
    -- it, whether it succeeds, is refused or the store fails. The condition is on a commit alone:
    -- the item it would put back has the ID of the new one and is what the store still holds.
    pub run_command-Synced :
        (D : Digest) (c : Command) → Foreseen w c → Synced (run_command S ctx (build_of D c) w).0
    unfolding run_command apply_mutation add remove begin_update set_stage commit updates_configured
    run_command-Synced D (add_item item) f = elim (Option-cases (lookup w.items item.id)) [
      | inl e ↦ rw (add, e) (storing-Synced item.id item none _ refl h)
      | inr (_, e) ↦ rw (add, e) h
    ]
    run_command-Synced D (remove_item id) f = elim (Option-cases (lookup w.items id)) [
      | inl e ↦ rw (remove, e) h
      | inr (_, e) ↦ rw (remove, e) (deleting-Synced id _)
    ]
    run_command-Synced D (rename_item id name) f = modify-Synced id (renamed name) (λ s. refl)
    run_command-Synced D (configure_item id enabled interval now) f =
        modify-Synced id (updates_configured enabled interval now) (λ s. refl)
    run_command-Synced D (enable_item id enabled) f =
        modify-Synced id (enabled_set enabled) (λ s. refl)
    run_command-Synced D (begin_item id) f = elim (Option-cases (lookup w.items id)) [
      | inl e ↦ rw (begin_update, e) h
      | inr (item, e) ↦
          rw (begin_update, e)
            (noting-Synced id item _ e (AllItems-lookup _ w.items id item h.keyed e) refl)
    ]
    run_command-Synced D (stage_item id stage) f = elim (Option-cases (lookup w.items id)) [
      | inl e ↦ rw (set_stage, e) (record { valid = h.valid; keyed = h.keyed; saved = h.saved })
      | inr (item, e) ↦
          rw (set_stage, e)
            (noting-Synced id item _ e (AllItems-lookup _ w.items id item h.keyed e) refl)
    ]
    run_command-Synced D (commit_item item persisted) f =
        storing-Synced item.id _ (some (insert item.id persisted w.items)) _ refl (record {
          valid = h.valid;
          keyed = AllItems-insert _ w.items item.id persisted f.1 h.keyed;
          saved = Saved-insert w.store w.items item.id persisted f.0 h.saved;
        })

  -- The coordinator at work: any commands in any order, each under a context of its own.
  pub data Steps (D : Digest) : World S → World S → Type 0 where
    stop : (w : World S) → Steps D w w
    step :
        (ctx : Option Error) (c : Command) (w last : World S)
        → Foreseen w c
        → Steps D (run_command S ctx (build_of D c) w).0 last
        → Steps D w last

  -- However many commands run, in whatever order and with whatever outcomes, the items and the
  -- store stay in step, if each commit among them would put back what the store then holds.
  pub Steps-Synced : (D : Digest) (w last : World S) → Steps D w last → Synced w → Synced last
  Steps-Synced D _ _ (stop w) h = h
  Steps-Synced D _ _ (step ctx c w last f more) h =
      Steps-Synced D _ last more (run_command-Synced ctx w h D c f)
