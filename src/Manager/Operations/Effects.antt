-- ===== src/Manager/Operations/Effects.antt =====
-- What the operations of package manager leave behind: all of what was asked for, or nothing.
use target_lib.Base.{
  ◌⊎◌, ◌≡◌, true, if◌then◌else◌, is_empty, trim_space, Option, none, some, Text, Result, ok, err,
}
use target_lib.Manager.{
  find_route, canonical_runtime_settings, build_settings, Code, data_loss, RuntimeSettings,
  RuntimeConfig,
}
use target_lib.Config.Model.{RuntimeModel}
use target_lib.Config.Normalize.Laws.{IsNormal}
use target_lib.Manager.Machine.{ServiceStatus, Daemon, ConfigStore, Machine}
use target_lib.Manager.Machine.Snapshot.{Refusal, running}
use target_lib.Manager.Operations.{update_runtime_config, upsert_route, delete_route}
use target_lib.Manager.Desired.{build_runtime_content, taken_over}
use target_lib.Config.Settings.{Settings}
use target_lib.Manager.Edits.{Surroundings, stable_status, is_started, UpsertRoute}
use target_lib.Manager.Edits.Asked.{IsUsable, IsUpserted, IsDeleted}

-- The operations that edit the configuration.
pub data Edit : Type 0 where
  update_edit : Option RuntimeSettings → Edit
  upsert_edit : UpsertRoute → Edit
  delete_edit : Text → Edit

-- What an edit asks for: other settings, a route or no route with an ID; the rest is as it was.
abbrev pub Asks : Surroundings → Edit → (before wanted : RuntimeConfig) → Type 0
Asks V (update_edit none) before wanted = ⊥
Asks V (update_edit (some s)) before wanted =
    (wanted.settings ≡ some (canonical_runtime_settings V.mobile s))
    × (wanted.selectors ≡ before.selectors)
    × (wanted.service_routes ≡ before.service_routes)
Asks V (upsert_edit q) before wanted = IsUpserted V q before wanted
Asks V (delete_edit id) before wanted = IsDeleted id before wanted

-- What the calls refuse before anything is built.
abbrev pub IsRefused : Surroundings → Edit → RuntimeConfig → Type 0
IsRefused V (update_edit o) before = o ≡ none
IsRefused V (upsert_edit q) before =
    (is_empty (trim_space q.service_id) ≡ true)
    ⊎ (is_empty q.domains ≡ true)
    ⊎ (IsUsable V q.node_id → ⊥)
IsRefused V (delete_edit id) before =
    (is_empty (trim_space id) ≡ true) ⊎ (find_route before.service_routes id ≡ none)

module _ (D : Daemon) (C : ConfigStore) (V : Surroundings) (m : Machine D C) where
  -- Why nothing is changed: the request, the settings, what is built of the rest, the status, the
  -- check, the context, the daemon, or the store.
  pub data Fails (q : Edit) : Type 0 where
    refused : IsRefused V q m.runtime_config → Fails q
    bad_settings :
        (wanted : RuntimeConfig) (e : Code)
        → Asks V q m.runtime_config wanted
        → build_settings V.mobile wanted.settings ≡ err e
        → Fails q
    not_built :
        (wanted : RuntimeConfig) (settings : Settings) (e : Code)
        → Asks V q m.runtime_config wanted
        → build_runtime_content V.emit V.mobile
            (record wanted { node_pool_revision = V.revision })
            V.nodes
            settings
          ≡ err e
        → Fails q
    unstable : (e : Code) → stable_status V.readings ≡ err e → Fails q
    not_applied :
        (wanted : RuntimeConfig) (settings : Settings) (next : RuntimeConfig) (content : Text)
        → Asks V q m.runtime_config wanted
        → build_runtime_content V.emit V.mobile
            (record wanted { node_pool_revision = V.revision })
            V.nodes
            settings
          ≡ ok (next, content)
        → Refusal D C V.ctx next content m
        → Fails q

  -- What is built from the configuration that was asked for, with the revision of the node pool,
  -- has the selectors and routes of a normal model. It and the content encoded from that model are the manager's, the saved one, and in a started service the active one.
  pub record IsDone (q : Edit) (n : Machine D C) (content : Text) (status : ServiceStatus)
      : Type 0 where
    pub wanted : RuntimeConfig
    pub asked : Asks V q m.runtime_config wanted
    pub settings : Settings
    pub accepted : build_settings V.mobile wanted.settings ≡ ok settings
    pub built :
        build_runtime_content V.emit V.mobile
          (record wanted { node_pool_revision = V.revision })
          V.nodes
          settings
        ≡ ok (n.runtime_config, content)
    pub model : RuntimeModel
    pub normal : IsNormal model
    pub taken :
        n.runtime_config ≡ taken_over (record wanted { node_pool_revision = V.revision }) model
    pub emitted : V.emit settings model ≡ ok content
    pub stable : stable_status V.readings ≡ ok status
    pub saved : C.saved n.store ≡ some n.runtime_config
    pub active : n.config ≡ (if is_started status then content else m.config)
    pub loaded : D.loaded n.daemon ≡ (if is_started status then some content else D.loaded m.daemon)

  -- The outcome of an operation that edits the configuration.
  pub data Transactional (q : Edit) : Machine D C × Option Code → Type 0 where
    done :
        (n : Machine D C) (content : Text) (status : ServiceStatus)
        → IsDone q n content status
        → Transactional q (n, none)
    unchanged :
        (n : Machine D C) (e : Code)
        → Fails q
        → n.runtime_config ≡ m.runtime_config
        → n.config ≡ m.config
        → n.store ≡ m.store
        → D.loaded n.daemon ≡ D.loaded m.daemon
        → Transactional q (n, some e)
    torn :
        (n : Machine D C)
        → Fails q
        → n.runtime_config ≡ m.runtime_config
        → n.config ≡ m.config
        → n.store ≡ m.store
        → Transactional q (n, some data_loss)

  -- What the daemon runs agrees with the status that the operation waits for.
  abbrev pub Agrees : Result Code ServiceStatus → Type 0
  Agrees (ok s) = D.loaded m.daemon ≡ running (is_started s) m.config
  Agrees (err e) = Unit

  abbrev pub edit : Edit → Machine D C × Option Code
  edit (update_edit s) = update_runtime_config D C V s m
  edit (upsert_edit q) = upsert_route D C V q m
  edit (delete_edit id) = delete_route D C V id m
