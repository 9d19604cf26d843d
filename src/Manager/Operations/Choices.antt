-- ===== src/Manager/Operations/Choices.antt =====
-- What SelectNode and SelectRouteNode of package manager leave behind.
use target_lib.Base.{
  Bool-cases, ◌⊎◌, inl, inr, refuse_if, ◌>>◌, ◌∙◌, ap, ◌≡◌, refl, sym, subst, Bool, true, false,
  if◌then◌else◌, is_empty, trim_space, >>-eq-ok, Option, none, some, Text, Result, ok, err, ◌||◌,
}
use target_lib.Config.Model.{proxy_tag}
use target_lib.Manager.{
  Code, invalid_argument, internal, not_found, RuntimeConfig, SelectorConfig, RouteConfig,
  find_selector, find_route,
}
use target_lib.Manager.Desired.{find_node_by_id, prepare_runtime_content}
use target_lib.Manager.Machine.{
  activated, ServiceStatus, Daemon, ConfigStore, Machine, commit_live_selector, swap_runtime,
  after_select, after_live_save, selected_live,
}
use target_lib.Manager.Operations.{
  given, select_built, select_route_node, select_node, as_internal, selecting, proxy_or_new,
  some_or,
}
use target_lib.Manager.Edits.{usable, Surroundings, stable_status, is_started, set_selector}
use target_lib.Manager.Edits.Asked.{
  usable-refused, IsUsable, IsSelectorSet, usable-IsUsable, find_selector-tag,
  set_selector-IsSelectorSet,
}

-- The selector of which the node is to be chosen.
pub data Target : Type 0 where
  proxy_target : Target
  route_target : (service_id : Text) → Target

abbrev pub IsTagOf : RuntimeConfig → Target → Text → Type 0
IsTagOf config proxy_target tag = tag ≡ proxy_tag
IsTagOf config (route_target id) tag =
    (r : RouteConfig) × (find_route config.service_routes id ≡ some r) × (tag ≡ r.selector_tag)

-- Go's checks of the names in the two requests.
abbrev pub is_nameless : Target → Text → Bool
is_nameless proxy_target node = is_empty node
is_nameless (route_target id) node = is_empty (trim_space id) || is_empty (trim_space node)

abbrev pub NoSelector : RuntimeConfig → Target → Type 0
NoSelector config proxy_target = ⊥
NoSelector config (route_target id) =
    (find_route config.service_routes id ≡ none)
    ⊎ ((r : RouteConfig) × (find_route config.service_routes id ≡ some r)
        × (find_selector config.selectors r.selector_tag ≡ none))

module _ (D : Daemon) (C : ConfigStore) (V : Surroundings) (m : Machine D C) where
  -- In the wanted configuration the selector has the node, which can be used, since now, and the
  -- other selectors are as before. What is built from it is the manager's and is saved, and in a
  -- started service its content is the active one and the daemon has taken the choice.
  pub record IsChosen (target : Target) (node : Text) (n : Machine D C) (content : Text)
      (status : ServiceStatus) : Type 0 where
    pub wanted : RuntimeConfig
    pub selector : SelectorConfig
    pub tag : IsTagOf m.runtime_config target selector.tag
    pub node_usable : IsUsable V node
    pub selected : selector.selected_node_id ≡ node
    pub selected_at : selector.selected_at_unix_ms ≡ V.now_ms
    pub selectors : IsSelectorSet selector m.runtime_config.selectors wanted.selectors
    pub service_routes : wanted.service_routes ≡ m.runtime_config.service_routes
    pub settings : wanted.settings ≡ m.runtime_config.settings
    pub built :
        prepare_runtime_content V.emit V.mobile wanted V.nodes ≡ ok (n.runtime_config, content)
    pub stable : stable_status V.readings ≡ ok status
    pub saved : C.saved n.store ≡ some n.runtime_config
    pub active : n.config ≡ (if is_started status then content else m.config)
    pub live :
        (if is_started status then D.select selector.tag node m.daemon else (m.daemon, none))
        ≡ (n.daemon, none)

  -- Why a node is not chosen: the names in the request, the node, the route or its selector, what
  -- is to be built, the status, the daemon, or the store.
  pub data Fails (target : Target) (node : Text) : Type 0 where
    nameless : is_nameless target node ≡ true → Fails target node
    unusable : (IsUsable V node → ⊥) → Fails target node
    no_selector : NoSelector m.runtime_config target → Fails target node
    not_built :
        (wanted : RuntimeConfig) (selector : SelectorConfig) (e : Code)
        → IsSelectorSet selector m.runtime_config.selectors wanted.selectors
        → selector.selected_node_id ≡ node
        → prepare_runtime_content V.emit V.mobile wanted V.nodes ≡ err e
        → Fails target node
    unstable : (e : Code) → stable_status V.readings ≡ err e → Fails target node
    not_selected :
        (tag : Text) (d : D.State) (e : Code)
        → IsTagOf m.runtime_config target tag
        → D.select tag node m.daemon ≡ (d, some e)
        → Fails target node
    not_saved :
        (wanted next : RuntimeConfig) (content : Text) (e : Code)
        → prepare_runtime_content V.emit V.mobile wanted V.nodes ≡ ok (next, content)
        → C.save next m.store ≡ err e
        → Fails target node

  -- What choosing a node comes to.
  pub data Chosen (target : Target) (node : Text) : Machine D C × Option Code → Type 0 where
    chosen :
        (n : Machine D C) (content : Text) (status : ServiceStatus)
        → IsChosen target node n content status
        → Chosen target node (n, none)
    kept :
        (n : Machine D C) (e : Code)
        → Fails target node
        → n.runtime_config ≡ m.runtime_config
        → n.config ≡ m.config
        → n.store ≡ m.store
        → Chosen target node (n, some e)

  abbrev pub select : Target → (node : Text) → Machine D C × Option Code
  select proxy_target node = select_node D C V node m
  select (route_target id) node = select_route_node D C V id node m

  given-Chosen {ℓ} :
      {A : Type ℓ} {target : Target} {node : Text} (r : Result Code A)
      (k : A → Machine D C → Machine D C × Option Code)
      → ((e : Code) → r ≡ err e → Fails target node)
      → ((a : A) → r ≡ ok a → Chosen target node (k a m))
      → Chosen target node (given D C V r k m)
  unfolding given
  given-Chosen (ok a) k f h = h a refl
  given-Chosen (err e) k f h = kept m e (f e refl) refl refl refl

  config_if : (b : Bool) (new old : Text) → activated D C b new old ≡ (if b then new else old)
  config_if true new old = refl
  config_if false new old = refl

  live_if :
      (b : Bool) (tag node : Text)
      → selected_live D C b tag node m.daemon
        ≡ (if b then D.select tag node m.daemon else (m.daemon, none))
  live_if true tag node = refl
  live_if false tag node = refl

  live_error :
      (b : Bool) (tag node : Text) (d : D.State) (e : Code)
      → selected_live D C b tag node m.daemon ≡ (d, some e)
      → D.select tag node m.daemon ≡ (d, some e)
  live_error true tag node d e h = h
  live_error false tag node d e h = cc

  -- The checks of the request and the node.
  refused-Fails :
      (target : Target) (node : Text) (e : Code)
      → (refuse_if (is_nameless target node) invalid_argument
          >> usable (find_node_by_id V.nodes node))
        ≡ err e
      → Fails target node
  refused-Fails target node e h = elim (Bool-cases (is_nameless target node)) [
    | inl b ↦ nameless b
    | inr b ↦ unusable (
        usable-refused V node e (
          ap (λ c. refuse_if c invalid_argument >> usable (find_node_by_id V.nodes node)) (sym b)
          ∙ h))
  ]

  as_internal-Chosen :
      (target : Target) (node : Text) (r : Machine D C × Option Code)
      → Chosen target node r
      → Chosen target node (as_internal D C V r)
  as_internal-Chosen target node r (chosen n content s c) = chosen n content s c
  as_internal-Chosen target node r (kept n e x f c k) = kept n internal x f c k

  module _ (target : Target) (node : Text) (there : IsUsable V node) (wanted : RuntimeConfig)
      (s : SelectorConfig) (tag : IsTagOf m.runtime_config target s.tag)
      (selectors : wanted.selectors
        ≡ set_selector (selecting D C V node s) m.runtime_config.selectors)
      (service_routes : wanted.service_routes ≡ m.runtime_config.service_routes)
      (settings : wanted.settings ≡ m.runtime_config.settings) where
    module _ (next : RuntimeConfig) (content : Text)
        (built : prepare_runtime_content V.emit V.mobile wanted V.nodes ≡ ok (next, content))
        (status : ServiceStatus) (stable : stable_status V.readings ≡ ok status) where
      saved-Chosen :
          (previous : Text) (d : D.State) (r : Result Code C.State)
          → C.save next m.store ≡ r
          → selected_live D C (is_started status) s.tag node m.daemon ≡ (d, none)
          → Chosen target node (
              after_live_save D C next content s.tag previous
                (is_started status)
                (record m { daemon = d })
                r)
      unfolding swap_runtime
      saved-Chosen previous d (err e) k live =
          kept _ e (not_saved wanted next content e built k) refl refl refl
      saved-Chosen previous d (ok store) k live = chosen _ content status (record {
        wanted = wanted;
        selector = selecting D C V node s;
        tag = tag;
        node_usable = there;
        selected = refl;
        selected_at = refl;
        selectors =
            subst (IsSelectorSet (selecting D C V node s) m.runtime_config.selectors)
              (sym selectors) (set_selector-IsSelectorSet _ m.runtime_config.selectors);
        service_routes = service_routes;
        settings = settings;
        built = built;
        stable = stable;
        saved = C.save-saved next m.store store k;
        active = config_if (is_started status) content m.config;
        live = sym (live_if (is_started status) s.tag node) ∙ live;
      })

      selected-Chosen :
          (previous : Text) (r : D.State × Option Code)
          → selected_live D C (is_started status) s.tag node m.daemon ≡ r
          → Chosen target node
              (after_select D C next content s.tag previous (is_started status) m r)
      selected-Chosen previous (d, none) live =
          saved-Chosen previous d (C.save next m.store) refl live
      selected-Chosen previous (d, some e) live =
          kept _ e (not_selected s.tag d e tag (live_error (is_started status) s.tag node d e live))
            refl refl refl

    select_built-Chosen :
        (previous : Text) (built : RuntimeConfig × Text) (status : ServiceStatus)
        → prepare_runtime_content V.emit V.mobile wanted V.nodes ≡ ok built
        → stable_status V.readings ≡ ok status
        → Chosen target node (select_built D C V s.tag node previous built status m)
    unfolding commit_live_selector
    select_built-Chosen previous (normal, content) status b t =
        selected-Chosen normal content b status t previous
          (selected_live D C (is_started status) s.tag node m.daemon) refl

  proxy_or_new-tag :
      (o : Option SelectorConfig)
      → find_selector m.runtime_config.selectors proxy_tag ≡ o
      → (proxy_or_new D C V o).tag ≡ proxy_tag
  proxy_or_new-tag none e = refl
  proxy_or_new-tag (some s) e = find_selector-tag m.runtime_config.selectors proxy_tag s e

  some_or-eq-ok {ℓ} :
      {A : Type ℓ} (e : Code) (o : Option A) (a : A) → some_or D C V e o ≡ ok a → o ≡ some a
  some_or-eq-ok e none a h = cc
  some_or-eq-ok e (some b) a h = cc

  some_or-eq-err {ℓ} :
      {A : Type ℓ} (e : Code) (o : Option A) (x : Code) → some_or D C V e o ≡ err x → o ≡ none
  some_or-eq-err e none x h = refl
  some_or-eq-err e (some b) x h = cc

  unbuilt-Fails :
      (target : Target) (node : Text) (s : SelectorConfig) (wanted : RuntimeConfig)
      → wanted.selectors ≡ set_selector (selecting D C V node s) m.runtime_config.selectors
      → (e : Code) → prepare_runtime_content V.emit V.mobile wanted V.nodes ≡ err e
      → Fails target node
  unbuilt-Fails target node s wanted same e h =
      not_built wanted (selecting D C V node s) e
        (subst (IsSelectorSet (selecting D C V node s) m.runtime_config.selectors) (sym same)
          (set_selector-IsSelectorSet _ m.runtime_config.selectors))
        refl h

  -- SelectNode and SelectRouteNode either choose the node, which can be used, in "proxy" or in the
  -- selector of the route: just this selector of the wanted configuration has it, what is built of
  -- that is the manager's configuration and is saved, and if the service is started the content is
  -- the active one and the daemon has taken the choice. Or they fail and leave the manager's
  -- configuration, its active content and the store as they were, and then a name is missing, the
  -- node cannot be used, there is no such selector, what was wanted cannot be built, the status
  -- is not stable, the daemon refuses the choice, or the store refuses to save.
  pub select_nodes-Chosen :
      (target : Target) (node : Text) → Chosen target node (select target node)
  unfolding select_node select_route_node
  select_nodes-Chosen proxy_target node =
      given-Chosen _ _ (refused-Fails proxy_target node) λ n found.
        let s = proxy_or_new D C V (find_selector m.runtime_config.selectors proxy_tag) in
        given-Chosen _ _ (unbuilt-Fails proxy_target node s _ refl) λ built b.
          given-Chosen _ _ unstable λ status t.
            let tag = proxy_or_new-tag _ refl in
            let there =
              usable-IsUsable V node n (>>-eq-ok (is_empty node) invalid_argument _ found).1 in
            as_internal-Chosen proxy_target node _ (
              subst
                (λ x.
                  Chosen proxy_target node
                    (select_built D C V x node s.selected_node_id built status m))
                tag
                (select_built-Chosen proxy_target node there _ s tag refl refl refl
                  s.selected_node_id built status b t))
  select_nodes-Chosen (route_target id) node =
      given-Chosen _ _ (refused-Fails (route_target id) node) λ n found.
        given-Chosen _ _ (λ e h. no_selector (inl (some_or-eq-err not_found _ e h)))
          λ r listed.
            let route = some_or-eq-ok not_found _ r listed in
            given-Chosen _ _ (λ e h. no_selector (inr (r, route, some_or-eq-err internal _ e h)))
              λ s there. given-Chosen _ _ (unbuilt-Fails (route_target id) node s _ refl) λ built b.
                given-Chosen _ _ unstable λ status t.
                  let usable_node =
                    usable-IsUsable V node n
                      (>>-eq-ok (is_empty (trim_space id) || is_empty (trim_space node))
                        invalid_argument _ found).1 in
                  let tag =
                    find_selector-tag m.runtime_config.selectors r.selector_tag s
                      (some_or-eq-ok internal _ s there) in
                  select_built-Chosen (route_target id) node usable_node _ s (r, route, tag) refl
                    refl refl _ built status b t
