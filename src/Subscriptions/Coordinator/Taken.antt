-- ===== src/Subscriptions/Coordinator/Taken.antt =====
-- What the coordinator's items can become by one command.
use target_lib.Base.{◌≡◌, subst, Option, none, some, Option-cases, Text, Result-cases, inl, inr}
use target_lib.Subscriptions.Model.{Error, Subscription, lookup, insert, delete}
use target_lib.Subscriptions.Coordinator.Commands.{add, remove, modify}
use target_lib.Subscriptions.Maps.{some-injective}
use target_lib.Subscriptions.Store.{Store}
use target_lib.Subscriptions.Coordinator.{
  Items, Mutation, Built, World, Delivery, refused, delivered, unheard, apply_mutation, fall_back,
  conclude, run_built, run_command, submit,
}

module _ (S : Store) (P : Items → Type 0) where
  applied-keeps :
      (ctx : Option Error) (w : World S) (m : Mutation)
      → P (fall_back S w m.failure).items
      → ((next : Items) → m.next ≡ some next → P next)
      → P (conclude S w m (apply_mutation S ctx w.store m)).0.items
  unfolding apply_mutation
  applied-keeps ctx w m f k = elim (Option-cases m.next) [
    | inl n ↦ rw (apply_mutation, n) f
    | inr (next, n) ↦ elim (Option-cases m.persist) [
      | inl o ↦ rw (apply_mutation, n, o) (k next n)
      | inr (write, o) ↦ elim (Result-cases (S.update ctx w.store write)) [
        | inl (saved, u) ↦ rw (apply_mutation, n, o, u) (k next n)
        | inr (e, u) ↦ rw (apply_mutation, n, o, u) f
      ]
    ]
  ]

  run_built-keeps :
      (ctx : Option Error) (w : World S) (b : Built)
      → P (fall_back S w b.0.failure).items
      → ((next : Items) → b.0.next ≡ some next → P next)
      → P (run_built S ctx w b).0.items
  run_built-keeps ctx w (m, some e) f k = f
  run_built-keeps ctx w (m, none) f k = applied-keeps ctx w m f k

  -- What a command builds keeps the property, if it succeeds and if it fails.
  abbrev BuiltKeeps : World S → Built → Type 0
  BuiltKeeps w b =
      P (fall_back S w b.0.failure).items × ((next : Items) → b.0.next ≡ some next → P next)

  submit-keeps :
      (d : Delivery) (ctx : Option Error) (build : Items → Built) (w : World S)
      → P w.items
      → BuiltKeeps w (build w.items)
      → P (submit S d ctx build w).0.items
  unfolding submit run_command
  submit-keeps (refused e) ctx build w h k = h
  submit-keeps delivered ctx build w h k = run_built-keeps ctx w (build w.items) k.0 k.1
  submit-keeps unheard ctx build w h k = run_built-keeps ctx w (build w.items) k.0 k.1

  module _ (d : Delivery) (ctx : Option Error) (w : World S) (h : P w.items) where
    same-BuiltKeeps : (next : Items) → some w.items ≡ some next → P next
    same-BuiltKeeps next n = subst P (some-injective n) h

    -- Commands keep a property of the items if the map that they write has it.
    pub submit-add-keeps :
        (item : Subscription)
        → P (insert item.id item w.items)
        → P (submit S d ctx (add item) w).0.items
    unfolding add
    submit-add-keeps item k = submit-keeps d ctx (add item) w h built
      where
        built : BuiltKeeps w (add item w.items)
        built = elim (Option-cases (lookup w.items item.id)) [
          | inl e ↦ rw (add, e) (h, λ next n. subst P (some-injective n) k)
          | inr (_, e) ↦ rw (add, e) (h, same-BuiltKeeps)
        ]

    pub submit-remove-keeps :
        (id : Text) → P (delete id w.items) → P (submit S d ctx (remove id) w).0.items
    unfolding remove
    submit-remove-keeps id k = submit-keeps d ctx (remove id) w h built
      where
        built : BuiltKeeps w (remove id w.items)
        built = elim (Option-cases (lookup w.items id)) [
          | inl e ↦ rw (remove, e) (h, same-BuiltKeeps)
          | inr (_, e) ↦ rw (remove, e) (h, λ next n. subst P (some-injective n) k)
        ]

    pub submit-modify-keeps :
        (id : Text) (change : Subscription → Subscription)
        → ((item : Subscription)
            → lookup w.items id ≡ some item
            → P (insert id (change item) w.items))
        → P (submit S d ctx (modify id change) w).0.items
    unfolding modify
    submit-modify-keeps id change k = submit-keeps d ctx (modify id change) w h built
      where
        built : BuiltKeeps w (modify id change w.items)
        built = elim (Option-cases (lookup w.items id)) [
          | inl e ↦ rw (modify, e) (h, same-BuiltKeeps)
          | inr (item, e) ↦ rw (modify, e) (h, λ next n. subst P (some-injective n) (k item e))
        ]
