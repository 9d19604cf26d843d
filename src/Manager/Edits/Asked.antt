-- ===== src/Manager/Edits/Asked.antt =====
-- What the edits of manager/routes.go, node_selection.go and runtime_config.go ask for: the entry of
-- one tag or ID, and what stays as it was.
use target_lib.Base.{
  if◌then◌else◌, ◌≡◌, refl, sym, ap, ◌∙◌, true, false, List, [], ◌∷◌, ◌++◌, none, some, Text, ◌==◌,
  eq_iff, eq_refl, ok, err, Bool-cases, Option-cases, ok-injective, inl, inr, ◌⊎◌, subst,
}
use target_lib.Profile.{Node, is_available}
use target_lib.Config.Model.{direct_tag}
use target_lib.Manager.{
  Code, not_found, RuntimeConfig, SelectorConfig, RouteConfig, find_selector, find_route,
}
use target_lib.Manager.Desired.{find_node_by_id, ready_node_ids}
use target_lib.Manager.Edits.{
  Surroundings, UpsertRoute, set_selector, set_route, remove_selector, remove_route,
  selector_tag_for, upserted, usable, without_route,
}

module _ (t : SelectorConfig) (ts : List SelectorConfig) (key : Text) where
  find_selector_here : (t.tag == key) ≡ true → find_selector (t ∷ ts) key ≡ some t
  unfolding find_selector
  find_selector_here e = rw (find_selector, e) refl

  find_selector_later : (t.tag == key) ≡ false → find_selector (t ∷ ts) key ≡ find_selector ts key
  unfolding find_selector
  find_selector_later e = rw (find_selector, e) refl

module _ (t : RouteConfig) (ts : List RouteConfig) (key : Text) where
  find_route_here : (t.service_id == key) ≡ true → find_route (t ∷ ts) key ≡ some t
  unfolding find_route
  find_route_here e = rw (find_route, e) refl

  find_route_later : (t.service_id == key) ≡ false → find_route (t ∷ ts) key ≡ find_route ts key
  unfolding find_route
  find_route_later e = rw (find_route, e) refl

-- Of the selectors just the one of a tag is another.
pub record IsSelectorSet (s : SelectorConfig) (before after : List SelectorConfig) : Type 0 where
  pub here : find_selector after s.tag ≡ some s
  pub others :
      (tag : Text) → (s.tag == tag) ≡ false → find_selector after tag ≡ find_selector before tag

pub set_selector-IsSelectorSet :
    (s : SelectorConfig) (ss : List SelectorConfig) → IsSelectorSet s ss (set_selector s ss)
unfolding set_selector find_selector
set_selector-IsSelectorSet s [] = record {
  here = find_selector_here s [] s.tag (eq_refl s.tag);
  others = λ key e. find_selector_later s [] key e;
}
set_selector-IsSelectorSet s (t ∷ ts) = elim (Bool-cases (t.tag == s.tag)) [
  | inl e ↦
      rw (set_selector, e)
        (record {
          here = find_selector_here s ts s.tag (eq_refl s.tag);
          others = λ key k.
              find_selector_later s ts key k
              ∙ sym (
                  find_selector_later t ts key (ap (λ x. x == key) ((eq_iff t.tag s.tag).0 e) ∙ k));
        })
  | inr e ↦
      rw (set_selector, e)
        (record {
          here = find_selector_later t _ s.tag e ∙ (set_selector-IsSelectorSet s ts).here;
          others = λ key k.
              ap (λ o. elim (t.tag == key) [ true ↦ some t | false ↦ o ])
                ((set_selector-IsSelectorSet s ts).others key k);
        })
]

-- Of the routes just the one of an ID is another.
pub record IsRouteSet (r : RouteConfig) (before after : List RouteConfig) : Type 0 where
  pub here : find_route after r.service_id ≡ some r
  pub others :
      (id : Text) → (r.service_id == id) ≡ false → find_route after id ≡ find_route before id

set_route-IsRouteSet : (r : RouteConfig) (rs : List RouteConfig) → IsRouteSet r rs (set_route r rs)
unfolding set_route find_route
set_route-IsRouteSet r [] = record {
  here = find_route_here r [] r.service_id (eq_refl r.service_id);
  others = λ key e. find_route_later r [] key e;
}
set_route-IsRouteSet r (t ∷ ts) = elim (Bool-cases (t.service_id == r.service_id)) [
  | inl e ↦
      rw (set_route, e)
        (record {
          here = find_route_here r ts r.service_id (eq_refl r.service_id);
          others = λ key k.
              find_route_later r ts key k
              ∙ sym (
                  find_route_later t ts key
                    (ap (λ x. x == key) ((eq_iff t.service_id r.service_id).0 e) ∙ k));
        })
  | inr e ↦
      rw (set_route, e)
        (record {
          here = find_route_later t _ r.service_id e ∙ (set_route-IsRouteSet r ts).here;
          others = λ key k.
              ap (λ o. elim (t.service_id == key) [ true ↦ some t | false ↦ o ])
                ((set_route-IsRouteSet r ts).others key k);
        })
]

-- The second list is the first without one entry.
abbrev pub IsWithout {ℓ} : {A : Type ℓ} → A → List A → List A → Type ℓ
IsWithout {A = A} a before after =
    (l : List A) × (t : List A) × (before ≡ l ++ a ∷ t) × (after ≡ l ++ t)

IsWithout-later {ℓ} :
    {A : Type ℓ} (b a : A) (before after : List A)
    → IsWithout a before after
    → IsWithout a (b ∷ before) (b ∷ after)
IsWithout-later b a before after (l, t, e, k) = (b ∷ l, t, ap (λ x. b ∷ x) e, ap (λ x. b ∷ x) k)

remove_route-IsWithout :
    (id : Text) (rs : List RouteConfig) (r : RouteConfig)
    → find_route rs id ≡ some r
    → (r.service_id ≡ id) × IsWithout r rs (remove_route id rs)
unfolding find_route remove_route
remove_route-IsWithout id [] r h = cc
remove_route-IsWithout id (t ∷ ts) r h = elim (Bool-cases (t.service_id == id)) [
  | inl e ↦
      let same : t ≡ r = cc (find_route_here t ts id e, h) in
      rw (remove_route, e)
        (subst (λ x. (x.service_id ≡ id) × IsWithout x (t ∷ ts) ts) same
          ((eq_iff t.service_id id).0 e, ([], ts, refl, refl)))
  | inr e ↦
      let (named, rest) = remove_route-IsWithout id ts r (sym (find_route_later t ts id e) ∙ h) in
      rw (remove_route, e) (named, IsWithout-later t r ts _ rest)
]

remove_selector-IsWithout :
    (tag : Text) (ss : List SelectorConfig)
    → ((s : SelectorConfig) × (s.tag ≡ tag) × IsWithout s ss (remove_selector tag ss))
      ⊎ ((find_selector ss tag ≡ none) × (remove_selector tag ss ≡ ss))
unfolding find_selector remove_selector
remove_selector-IsWithout tag [] = inr (refl, refl)
remove_selector-IsWithout tag (t ∷ ts) = elim (Bool-cases (t.tag == tag)) [
  | inl e ↦ rw (remove_selector, e) (inl (t, (eq_iff t.tag tag).0 e, ([], ts, refl, refl)))
  | inr e ↦ elim (remove_selector-IsWithout tag ts) [
    | inl (s, k, w) ↦ rw (remove_selector, e) (inl (s, k, IsWithout-later t s ts _ w))
    | inr (k, w) ↦
        rw (remove_selector, e) (inr (find_selector_later t ts tag e ∙ k, ap (λ x. t ∷ x) w))
  ]
]

-- The selector that was found has the tag.
pub find_selector-tag :
    (ss : List SelectorConfig) (tag : Text) (s : SelectorConfig)
    → find_selector ss tag ≡ some s
    → s.tag ≡ tag
unfolding find_selector
find_selector-tag [] tag s h = cc
find_selector-tag (t ∷ ts) tag s h = elim (Bool-cases (t.tag == tag)) [
  | inl e ↦
      let same : t ≡ s = cc (find_selector_here t ts tag e, h) in
      sym (ap (λ x. x.tag) same) ∙ (eq_iff t.tag tag).0 e
  | inr e ↦ find_selector-tag ts tag s (sym (find_selector_later t ts tag e) ∙ h)
]

-- A node that can be chosen.
abbrev pub IsUsable : Surroundings → Text → Type 0
IsUsable V id = (n : Node) × (find_node_by_id V.nodes id ≡ some n) × (is_available n ≡ true)

pub usable-IsUsable :
    (V : Surroundings) (id : Text) (n : Node)
    → usable (find_node_by_id V.nodes id) ≡ ok n
    → IsUsable V id
usable-IsUsable V id n h = elim (Option-cases (find_node_by_id V.nodes id)) [
  | inl e ↦ cc (e, h)
  | inr (found, e) ↦ elim (Bool-cases (is_available found)) [
    | inl k ↦ (found, e, k)
    | inr k ↦ absurd (cc (ap usable e, k, h))
  ]
]

pub usable-refused :
    (V : Surroundings) (id : Text) (e : Code)
    → usable (find_node_by_id V.nodes id) ≡ err e
    → IsUsable V id
    → ⊥
usable-refused V id e h (n, found, available) =
    let is_ok : usable (some n) ≡ ok n = ap (λ b. if b then ok n else err not_found) available in
    cc (sym (ap usable found ∙ is_ok) ∙ h)

-- A route with the fields of the request, whose selector has the node; the rest as before.
pub record IsUpserted (V : Surroundings) (q : UpsertRoute) (before wanted : RuntimeConfig)
    : Type 0 where
  pub tag : Text
  pub usable : IsUsable V q.node_id
  pub route :
      IsRouteSet
        (record {
          service_id = q.service_id;
          display_name = q.display_name;
          domains = q.domains;
          selector_tag = tag;
          enabled = q.enabled;
        })
        before.service_routes
        wanted.service_routes
  pub selector :
      IsSelectorSet
        (record {
          tag = tag;
          node_ids = ready_node_ids V.nodes ++ direct_tag ∷ [];
          selected_node_id = q.node_id;
          selected_at_unix_ms = V.now_ms;
        })
        before.selectors
        wanted.selectors
  pub settings : wanted.settings ≡ before.settings

pub upserted-IsUpserted :
    (V : Surroundings) (q : UpsertRoute) (before : RuntimeConfig)
    → IsUsable V q.node_id
    → IsUpserted V q before (upserted V q before)
unfolding upserted
upserted-IsUpserted V q before u = record {
  tag = selector_tag_for (find_route before.service_routes q.service_id) q.service_id;
  usable = u;
  route = set_route-IsRouteSet _ before.service_routes;
  selector = set_selector-IsSelectorSet _ before.selectors;
  settings = refl;
}

-- The route of the ID is gone, and the selector that it uses, if there is one; the rest as before.
pub record IsDeleted (id : Text) (before wanted : RuntimeConfig) : Type 0 where
  pub route : RouteConfig
  pub named : route.service_id ≡ id
  pub routes : IsWithout route before.service_routes wanted.service_routes
  pub selectors :
      ((s : SelectorConfig) × (s.tag ≡ route.selector_tag)
        × IsWithout s before.selectors wanted.selectors)
      ⊎ ((find_selector before.selectors route.selector_tag ≡ none)
          × (wanted.selectors ≡ before.selectors))
  pub settings : wanted.settings ≡ before.settings

without_route-none :
    (id : Text) (before : RuntimeConfig)
    → find_route before.service_routes id ≡ none
    → without_route id before ≡ err not_found
unfolding without_route
without_route-none id before e = rw (without_route, e) refl

without_route-some :
    (id : Text) (before : RuntimeConfig) (r : RouteConfig)
    → find_route before.service_routes id ≡ some r
    → without_route id before
      ≡ ok (record before {
        selectors = remove_selector r.selector_tag before.selectors;
        service_routes = remove_route id before.service_routes;
      })
unfolding without_route
without_route-some id before r e = rw (without_route, e) refl

pub without_route-IsDeleted :
    (id : Text) (before wanted : RuntimeConfig)
    → without_route id before ≡ ok wanted
    → IsDeleted id before wanted
without_route-IsDeleted id before wanted h =
    elim (Option-cases (find_route before.service_routes id)) [
      | inl e ↦ absurd (cc (without_route-none id before e, h))
      | inr (r, e) ↦
          let (named, routes) = remove_route-IsWithout id before.service_routes r e in
          subst (IsDeleted id before) (ok-injective (sym (without_route-some id before r e) ∙ h))
            (record {
              route = r;
              named = named;
              routes = routes;
              selectors = remove_selector-IsWithout r.selector_tag before.selectors;
              settings = refl;
            })
    ]

pub without_route-refused :
    (id : Text) (before : RuntimeConfig) (e : Code)
    → without_route id before ≡ err e
    → find_route before.service_routes id ≡ none
without_route-refused id before e h = elim (Option-cases (find_route before.service_routes id)) [
  | inl k ↦ k
  | inr (r, k) ↦ absurd (cc (without_route-some id before r k, h))
]
