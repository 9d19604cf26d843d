-- ===== src/Manager/Machine/Saved.antt =====
-- manager/runtime_config_store.go: the runtime configuration as metadata of the subscriptions' store.
-- protobuf's encoding is a parameter, of which its round trip is assumed, and that
-- a message with settings is not encoded as nothing.
use target_lib.Base.{
  false, ◌≡◌, refl, ap, subst, ◌∙◌, [], Option, none, some, Text, text, ◌==◌, eq_refl, Result, ok,
  err, ok-injective, if◌then◌else◌,
}
use target_lib.Subscriptions.Store.{set_metadata}
use target_lib.Subscriptions.Store.Memory.{
  MemoryStore, update, get_metadata, metadata-apply_write, apply_write,
}
use target_lib.Subscriptions.Model.{Error}
use target_lib.Manager.{Code, internal, RuntimeConfig, RuntimeSettings}
use target_lib.Manager.Startup.{SavedConfigs}
use target_lib.Manager.Machine.{ConfigStore}

-- runtimeConfigMetadataKey.
abbrev pub runtime_config_metadata_key : Text
unfolding text
runtime_config_metadata_key = text "runtime-config-v1"

-- proto.Marshal and proto.Unmarshal of a RuntimeConfig.
pub record Encoding : Type 0 where
  pub marshal : RuntimeConfig → Text
  pub unmarshal : Text → Option RuntimeConfig
  pub unmarshal-marshal : (r : RuntimeConfig) → unmarshal (marshal r) ≡ some r
  pub marshal-settings :
      (r : RuntimeConfig) (c : RuntimeSettings) → r.settings ≡ some c → (marshal r == []) ≡ false

module _ (E : Encoding) where
  -- What the stored content decodes to.
  unfoldable pub decoded : MemoryStore → Option RuntimeConfig
  decoded s = E.unmarshal (get_metadata s.metadata runtime_config_metadata_key)

  -- Load, which finds nothing where no content is, and fails on content that does not decode.
  abbrev pub or_undecodable : Option RuntimeConfig → Result Code (Option RuntimeConfig)
  or_undecodable none = err internal
  or_undecodable (some r) = ok (some r)

  unfoldable pub load : MemoryStore → Result Code (Option RuntimeConfig)
  load s =
      if get_metadata s.metadata runtime_config_metadata_key == []
      then ok none
      else or_undecodable (decoded s)

  abbrev pub as_internal : Result Error MemoryStore → Result Code MemoryStore
  as_internal (ok s) = ok s
  as_internal (err e) = err internal

  -- SaveSnapshot, whose callers take the end of the context off.
  unfoldable pub save_snapshot : RuntimeConfig → MemoryStore → Result Code MemoryStore
  save_snapshot r s =
      as_internal (update none s (set_metadata runtime_config_metadata_key (E.marshal r)))

  content_saved :
      (r : RuntimeConfig) (s : MemoryStore)
      → get_metadata
          (apply_write (set_metadata runtime_config_metadata_key (E.marshal r)) s).metadata
          runtime_config_metadata_key
        ≡ E.marshal r
  content_saved r s =
      metadata-apply_write (set_metadata runtime_config_metadata_key (E.marshal r)) s
        runtime_config_metadata_key
      ∙ rw (eq_refl runtime_config_metadata_key) refl

  pub save_snapshot-decoded :
      (r : RuntimeConfig) (s t : MemoryStore) → save_snapshot r s ≡ ok t → decoded t ≡ some r
  unfolding save_snapshot update decoded
  save_snapshot-decoded r s t h =
      subst (λ u. decoded u ≡ some r) (ok-injective h)
        (ap E.unmarshal (content_saved r s) ∙ E.unmarshal-marshal r)

  -- A saved configuration whose encoding is not empty is what Load finds.
  pub save_snapshot-load :
      (r : RuntimeConfig) (s t : MemoryStore)
      → (E.marshal r == []) ≡ false
      → save_snapshot r s ≡ ok t
      → load t ≡ ok (some r)
  unfolding save_snapshot update load
  save_snapshot-load r s t n h =
      subst (λ u. load u ≡ ok (some r)) (ok-injective h)
        (rw (load, content_saved r s, n) (ap or_undecodable (save_snapshot-decoded r s _ refl)))

  -- The store in memory keeps the promise of a ConfigStore.
  abbrev pub memory_config_store : ConfigStore
  memory_config_store = record {
    State = MemoryStore;
    save = save_snapshot;
    saved = decoded;
    save-saved = save_snapshot-decoded;
  }

  -- And what New needs of its store.
  abbrev pub memory_configs : SavedConfigs
  memory_configs = record {
    State = MemoryStore;
    load = load;
    save = save_snapshot;
    save-load = λ r c s t given. save_snapshot-load r s t (E.marshal-settings r c given);
  }
