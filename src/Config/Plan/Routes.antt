-- ===== src/Config/Plan/Routes.antt =====
-- The order and the targets of the rules of a plan.
use target_lib.Base.{
  ◌≤◌, ◌≡◌, ◌≢◌, refl, ap, Bool, true, false, List, [], ◌∷◌, ◌++◌, map, arith, Text, ◌==◌, len,
  text_le-total, text_le_trans, head_or, contains, All, All-append, All-take, All-drop, EachPair,
  EachPair-map, sort_by, sort_by-All, sort_by-perm, sort_by-sorted, Bool-cases, inl, inr,
  if◌then◌else◌, take, drop,
}
use mathlib.Core.List.{Perm}
use target_lib.Config.Settings.{Settings, RouteMode, rule, direct, all, validate}
use target_lib.Config.Model.{ServiceRoute, direct_tag}
use target_lib.Config.Plan.{
  RoutePlan, Rule, Action, route_to, is_tun, is_direct, sniff_rule, tun_dns_hijack_rule, mode_rules,
  plan_route, service_rule, service_rules, rule_before, add_service_rules,
}

suffix : Rule → Text
suffix r = head_or [] r.domain_suffix

rule_before-total : (a b : Rule) → rule_before a b ≡ false → rule_before b a ≡ true
unfolding rule_before
rule_before-total a b h =
    ground (arith, text_le-total (head_or [] a.domain_suffix) (head_or [] b.domain_suffix))

rule_before_trans :
    (a b c : Rule) → rule_before a b ≡ true → rule_before b c ≡ true → rule_before a c ≡ true
unfolding rule_before
rule_before_trans a b c h k = ground (
  arith,
  text_le_trans (head_or [] a.domain_suffix) (head_or [] b.domain_suffix)
      (head_or [] c.domain_suffix),
)

-- A rule is at least as specific as another: its suffix is at least as long.
abbrev pub AsSpecific : Rule → Rule → Type 0
AsSpecific a b = len (head_or [] b.domain_suffix) ≤ len (head_or [] a.domain_suffix)

AsSpecific-of_before : (a b : Rule) → rule_before a b ≡ true → AsSpecific a b
unfolding rule_before
AsSpecific-of_before a b h = ground arith

abbrev pub first_rules : Settings → List Rule
first_rules s = sniff_rule ∷ (if is_tun s.proxy_mode then tun_dns_hijack_rule ∷ [] else [])

place_block :
    (t : Bool) (block rest : List Rule)
    → take
          (if t then 2 else 1)
          ((sniff_rule ∷ (if t then tun_dns_hijack_rule ∷ [] else [])) ++ rest)
        ++ (block
            ++ drop
                (if t then 2 else 1)
                ((sniff_rule ∷ (if t then tun_dns_hijack_rule ∷ [] else [])) ++ rest))
      ≡ (sniff_rule ∷ (if t then tun_dns_hijack_rule ∷ [] else [])) ++ (block ++ rest)
place_block true block rest = refl
place_block false block rest = refl

-- Unless the route mode is direct, the rules of the enabled services stand in one block, behind
-- sniffing and DNS and before the China rule of the mode "rule"; the block has each of them as
-- often as the services ask for it, and a more specific domain never stands behind a less
-- specific one.
pub add_service_rules_block :
    (final : Text) (s : Settings) (routes : List ServiceRoute)
    → is_direct s.route_mode ≡ false
    → (block : List Rule) × ((add_service_rules s routes (plan_route final s)).rules
        ≡ first_rules s ++ (block ++ mode_rules s.route_mode))
      × Perm block (service_rules routes)
      × EachPair AsSpecific block
unfolding add_service_rules plan_route
add_service_rules_block final s routes h = (
  sort_by rule_before (service_rules routes),
  rw h (place_block (is_tun s.proxy_mode) _ (mode_rules s.route_mode)),
  sort_by-perm rule_before (service_rules routes),
  EachPair-map _ AsSpecific _ AsSpecific-of_before
      (sort_by-sorted rule_before rule_before-total rule_before_trans (service_rules routes)),
)

-- A rule sends traffic to an outbound of the list, if it sends it anywhere.
abbrev pub Resolves : List Text → Action → Type 0
Resolves tags (route_to t) = contains tags t ≡ true
Resolves tags _ = Unit {0}

abbrev pub RuleResolves : List Text → Rule → Type 0
RuleResolves tags r = Resolves tags r.action

domain_rules-Resolve :
    (tags : List Text) (selector : Text) (ds : List Text)
    → contains tags selector ≡ true
    → All (RuleResolves tags) (map (service_rule selector) ds)
domain_rules-Resolve tags selector [] h = tt
domain_rules-Resolve tags selector (d ∷ ds) h = (h, domain_rules-Resolve tags selector ds h)

pub service_rules-Resolve :
    (tags : List Text) (routes : List ServiceRoute)
    → All (λ r. contains tags r.selector ≡ true) routes
    → All (RuleResolves tags) (service_rules routes)
unfolding service_rules
service_rules-Resolve tags [] h = tt
service_rules-Resolve tags (r ∷ rs) h = elim (Bool-cases r.enabled) [
  | inl e ↦ rw e (
      All-append (RuleResolves tags) (map (service_rule r.selector) r.domains) (service_rules rs)
        (domain_rules-Resolve tags r.selector r.domains h.0) (service_rules-Resolve tags rs h.1))
  | inr e ↦ rw e (service_rules-Resolve tags rs h.1)
]

plan_route-Resolve :
    (tags : List Text) (final : Text) (s : Settings)
    → contains tags direct_tag ≡ true
    → All (RuleResolves tags) (plan_route final s).rules
unfolding plan_route
plan_route-Resolve tags final s h =
    All-append (RuleResolves tags) (first_rules s) (mode_rules s.route_mode)
      (tt, hijack (is_tun s.proxy_mode)) (by_mode s.route_mode)
  where
    hijack : (b : Bool) → All (RuleResolves tags) (if b then tun_dns_hijack_rule ∷ [] else [])
    hijack true = (tt, tt)
    hijack false = tt

    by_mode : (m : RouteMode) → All (RuleResolves tags) (mode_rules m)
    by_mode rule = (h, tt)
    by_mode direct = tt
    by_mode all = tt
    by_mode (RouteMode.other t) = tt

pub add_service_rules-Resolve :
    (tags : List Text) (final : Text) (s : Settings) (routes : List ServiceRoute)
    → contains tags direct_tag ≡ true
    → All (λ r. contains tags r.selector ≡ true) routes
    → All (RuleResolves tags) (add_service_rules s routes (plan_route final s)).rules
unfolding add_service_rules
add_service_rules-Resolve tags final s routes h served =
    let P = RuleResolves tags in
    let plain = plan_route-Resolve tags final s h in
    elim (Bool-cases (is_direct s.route_mode)) [
      | inl e ↦ rw e plain
      | inr e ↦ rw e (
          All-append P _ _ (All-take P _ _ plain) (
            All-append P _ _
              (sort_by-All rule_before P (service_rules routes)
                (service_rules-Resolve tags routes served))
              (All-drop P _ _ plain)))
    ]

pub add_service_rules-final :
    (s : Settings) (routes : List ServiceRoute) (plan : RoutePlan)
    → (add_service_rules s routes plan).final ≡ plan.final
unfolding add_service_rules
add_service_rules-final s routes plan = ground arith

-- With an empty route mode the settings validate exactly as with the mode "rule", but the plan is
-- that of the mode "all", and is never the plan of the mode "rule".
pub unset_mode_plans_all :
    (final : Text) (s : Settings)
    → (validate (record s { route_mode = RouteMode.other [] })
        ≡ validate (record s { route_mode = rule }))
      × (plan_route final (record s { route_mode = RouteMode.other [] })
          ≡ plan_route final (record s { route_mode = all }))
      × (plan_route final (record s { route_mode = RouteMode.other [] })
          ≢ plan_route final (record s { route_mode = rule }))
unfolding validate plan_route ◌==◌
unset_mode_plans_all final s = (refl, refl, λ e. cc (ap (λ (p : RoutePlan). p.rule_sets) e))
