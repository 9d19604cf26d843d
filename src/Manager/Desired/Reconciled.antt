-- ===== src/Manager/Desired/Reconciled.antt =====
-- What manager/runtime_controller.go and config.go make of a wanted configuration.
use target_lib.Config.Plan.{Host, Blueprint, plan_runtime_model}
use target_lib.Config.Plan.Laws.{IsClosed, plan_runtime_model-IsClosed}
use target_lib.Base.{
  is_some, trim_space, not, ◌||◌, contains, ◌⊎◌, ◌≡◌, refl, sym, ap, ◌∙◌, subst, Bool, true, false,
  List, [], ◌∷◌, Option, none, some, Text, ◌==◌, is_empty, All, Result, ok, err, >>=-eq-ok,
  ok-injective,
}
use target_lib.Profile.{Node}
use target_lib.Config.Settings.{Settings, validate}
use target_lib.Config.Model.{RuntimeModel, direct_tag, proxy_tag, node_ids_of}
use target_lib.Config.Normalize.{normalize_runtime_model}
use target_lib.Config.Normalize.Laws.{IsNormal, normalize_runtime_model-IsNormal}
use target_lib.Manager.{
  Code, RuntimeSettings, RuntimeConfig, SelectorConfig, or_invalid, build_settings, route_mode_of,
  proxy_mode_of, settings_of,
}
use target_lib.Manager.Desired.{
  is_usable, reconcile_runtime_selections, with_proxy, runtime_model, normalize_desired, taken_over,
  build_runtime_content,
}

-- What becomes of a selector: its choice stays if it is "direct" or a usable node, and is "direct"
-- otherwise; "proxy", which is given its members later, keeps what it has; and any other keeps each
-- member that is "direct" or a usable node and no other, and has one at least.
pub record IsReconciled (available : List Text) (before after : SelectorConfig) : Type 0 where
  pub tag : after.tag ≡ before.tag
  pub choice :
      ((is_usable available before.selected_node_id ≡ true)
        × (after.selected_node_id ≡ before.selected_node_id))
      ⊎ ((is_usable available before.selected_node_id ≡ false)
          × (after.selected_node_id ≡ direct_tag))
  pub members :
      (((before.tag == proxy_tag) ≡ true) × (after.node_ids ≡ before.node_ids))
      ⊎ (All (λ id. is_usable available id ≡ true) after.node_ids
          × All
              (λ id. (not (is_usable available id) || contains after.node_ids id) ≡ true)
              before.node_ids
          × (is_empty after.node_ids ≡ false))

-- Two lists of one length, whose members are related one by one.
abbrev pub EachOf : {A B : Type 0} → (A → B → Type 0) → List A → List B → Type 0
EachOf R [] [] = Unit
EachOf R (x ∷ xs) (y ∷ ys) = R x y × EachOf R xs ys
EachOf R [] (y ∷ ys) = ⊥
EachOf R (x ∷ xs) [] = ⊥

or_invalid-eq-ok {ℓ κ} :
    {E : Type ℓ} {A : Type κ} (r : Result E A) {a : A} → or_invalid r ≡ ok a → r ≡ ok a
or_invalid-eq-ok (ok a) h = ap ok (ok-injective h)
or_invalid-eq-ok (err e) h = cc

-- What normalizeDesired hands on.
normalize_desired-IsNormal :
    (next : RuntimeConfig) (nodes : List Node) {normal : RuntimeConfig} {model : RuntimeModel}
    → normalize_desired next nodes ≡ ok (normal, model)
    → IsNormal model × (normal ≡ taken_over next model)
unfolding normalize_desired
normalize_desired-IsNormal next nodes {normal} {model} h =
    let (found, accepted, same) =
      >>=-eq-ok
        (or_invalid (
          normalize_runtime_model
            (runtime_model (reconcile_runtime_selections nodes (with_proxy nodes next)) nodes)))
        _ h in
    subst (λ p. IsNormal p.1 × (p.0 ≡ taken_over next p.1)) {x = (taken_over next found, found)}
      (ok-injective same) (normalize_runtime_model-IsNormal _ (or_invalid-eq-ok _ accepted), refl)

-- What sing-box gets is encoded from a normal model, which the configuration has as well.
pub build_runtime_content-IsNormal :
    (emit : Settings → RuntimeModel → Result Code Text) (mobile : Bool) (next : RuntimeConfig)
    (nodes : List Node) (settings : Settings) {normal : RuntimeConfig} {content : Text}
    → build_runtime_content emit mobile next nodes settings ≡ ok (normal, content)
    → (model : RuntimeModel) × IsNormal model
      × (normal ≡ taken_over next model)
      × (emit settings model ≡ ok content)
unfolding build_runtime_content
build_runtime_content-IsNormal emit mobile next nodes settings {normal} {content} h =
    let (found, accepted, rest) = >>=-eq-ok (normalize_desired next nodes) _ h in
    let (written, emitted, same) = >>=-eq-ok (emit settings found.1) _ rest in
    let (is_normal, taken) = normalize_desired-IsNormal next nodes accepted in
    let both = ok-injective same in
    (found.1, is_normal, sym (ap (λ p. p.0) both) ∙ taken, emitted ∙ ap ok (ap (λ p. p.1) both))

-- The settings validate, and no probe is wanted.
build_settings-validate :
    (mobile : Bool) (given : Option RuntimeSettings) (s : Settings)
    → build_settings mobile given ≡ ok s
    → (validate s ≡ ok tt) × (s.probe_only ≡ false)
unfolding build_settings
build_settings-validate mobile none s h = cc
build_settings-validate mobile (some r) s h =
    let (route, _, h1) = >>=-eq-ok (route_mode_of r.route_mode) _ h in
    let (proxy, _, h2) = >>=-eq-ok (proxy_mode_of mobile r.proxy_mode) _ h1 in
    let (u, valid, h3) = >>=-eq-ok (or_invalid (validate (settings_of r route proxy))) _ h2 in
    subst (λ t. (validate t ≡ ok tt) × (t.probe_only ≡ false)) (ok-injective h3)
      (or_invalid-eq-ok _ valid, refl)

-- What buildSettings and normalizeDesired accept can be planned, if the listen address parses and no
-- node's identity has space around it: planning does not fail, no outbound tag stands twice, and
-- the final outbound and the target of every route rule are outbounds of the blueprint.
pub accepted-IsClosed :
    (host : Host) (mobile : Bool) (given : Option RuntimeSettings) (s : Settings)
    (next : RuntimeConfig) (nodes : List Node) {normal : RuntimeConfig} {model : RuntimeModel}
    → build_settings mobile given ≡ ok s
    → normalize_desired next nodes ≡ ok (normal, model)
    → is_some (host.parse_addr (trim_space s.listen_address)) ≡ true
    → All (λ id. trim_space id ≡ id) (node_ids_of model.node_pool.nodes)
    → (b : Blueprint) × (plan_runtime_model host s model ≡ ok b) × IsClosed b
accepted-IsClosed host mobile given s next nodes {normal} {model} built accepted parses trimmed =
    let (valid, full) = build_settings-validate mobile given s built in
    plan_runtime_model-IsClosed host s model valid parses full
      (normalize_desired-IsNormal next nodes accepted).0 trimmed
