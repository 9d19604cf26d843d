-- ===== src/Subscriptions/Coordinator/Loading.antt =====
-- What Load of subscriptions/manager.go makes of the stored subscriptions.
use target_lib.Base.{
  ◌≡◌, refl, List, [], ◌∷◌, Text, Bool, true, false, is_empty, Bool-cases, inl, inr,
}
use target_lib.Profile.Identity.{Digest, IsScoped, with_source-IsScoped}
use target_lib.Subscriptions.Model.{Subscription, Status, UpdateStage, insert}
use target_lib.Subscriptions.Maps.{AllItems, AllItems-insert}
use target_lib.Subscriptions.Coordinator.{Items}
use target_lib.Subscriptions.Coordinator.Commands.{interrupted, loaded, load_items}

abbrev pub is_updating : Status → Bool
is_updating Status.updating = true
is_updating _ = false

-- A subscription as it is after loading: under its own ID, which is not empty, with no update
-- running, and with the identities that its nodes get from it.
pub record IsLoaded (D : Digest) (id : Text) (s : Subscription) : Type 0 where
  pub keyed : s.id ≡ id
  pub named : is_empty id ≡ false
  pub at_rest : is_updating s.status ≡ false
  pub scoped : IsScoped D id s.profile

at_rest_after :
    (status : Status) (stage : UpdateStage) → is_updating (interrupted status stage).0 ≡ false
at_rest_after Status.updating stage = refl
at_rest_after Status.idle stage = refl
at_rest_after Status.ready stage = refl
at_rest_after Status.failed stage = refl

loaded-IsLoaded :
    (D : Digest) (s : Subscription) → is_empty s.id ≡ false → IsLoaded D s.id (loaded D s)
unfolding loaded
loaded-IsLoaded D s h = record {
  keyed = refl;
  named = h;
  at_rest = at_rest_after s.status s.stage;
  scoped = with_source-IsScoped D s.id s.profile;
}

load_items-more :
    (D : Digest) (next : Items) (ss : List Subscription)
    → AllItems (IsLoaded D) next
    → AllItems (IsLoaded D) (load_items D next ss)
unfolding load_items
load_items-more D next [] h = h
load_items-more D next (s ∷ ss) h = elim (Bool-cases (is_empty s.id)) [
  | inl e ↦ rw (load_items, e) (load_items-more D next ss h)
  | inr e ↦
      rw (load_items, e)
        (load_items-more D (insert s.id (loaded D s) next) ss
          (AllItems-insert (IsLoaded D) next s.id (loaded D s) (loaded-IsLoaded D s e) h))
]

-- Whatever was stored, after Load every subscription stands under its own ID, which is not empty,
-- none is being updated, and each has its nodes under the identities that WithSource gives them.
pub load_items-IsLoaded :
    (D : Digest) (stored : List Subscription) → AllItems (IsLoaded D) (load_items D [] stored)
load_items-IsLoaded D stored = load_items-more D [] stored tt
