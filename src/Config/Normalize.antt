-- ===== src/Config/Normalize.antt =====
-- NormalizeRuntimeModel of config/runtime_validation.go. Each loop is a function over the
-- variables it changes; the maps the source uses as sets are lists of strings.
pub mod Nodes
pub mod Selectors
pub mod Routes
pub mod Laws
use target_lib.Base.{
  ◌≡◌, Bool, true, false, not, ◌&&◌, ◌||◌, List, [], ◌∷◌, ◌++◌, map, Option, none, some, Text, text,
  ◌==◌, text_le, trim_space, contains, is_empty, sort_by, by_key, is_some, if◌then◌else◌, Result,
  ok, err, ◌>>=◌, ◌>>◌, refuse_if,
}
use target_lib.Profile.{Node, is_available}
use target_lib.Config.Settings.{
  Error, invalid_source, invalid_node_id, invalid_tag, duplicate_selector, bad_member, no_selected,
  no_service_id, default_service, duplicate_service, dependent_selector, no_domains, invalid_domain,
  duplicate_domain,
}
use target_lib.Config.Model.{
  direct_tag, urltest_tag, proxy_tag, default_service_id, Selector, ServiceRoute, RuntimeModel,
  tags_of,
}
use target_lib.Config.Domains.{valid_domain, normalize_domain}

bad_node_id : List Text → Text → Bool
bad_node_id ids id =
    id == [] || contains ids id || id == direct_tag || id == proxy_tag || id == urltest_tag

-- The loop over the node pool. The result is the set `nodes` of the usable identities.
unfoldable pub check_nodes : List Node → (ids nodes : List Text) → Result Error (List Text)
unfolding bad_node_id
check_nodes [] ids nodes = ok nodes
check_nodes (n ∷ ns) ids nodes = do
  refuse_if (bad_node_id ids n.id) (invalid_source invalid_node_id)
  check_nodes ns (n.id ∷ ids) (if is_available n then n.id ∷ nodes else nodes)

unfit_member : (nodes seen : List Text) → Text → Bool
unfit_member nodes seen id = (not (contains nodes id) && not (id == direct_tag)) || contains seen id

-- The loop over the members of a selector; `found` tells whether the selected one is among them.
unfoldable pub check_members :
    (nodes : List Text) (selected : Text)
    → List Text
    → (seen : List Text) (found : Bool) → Result Error Bool
unfolding unfit_member
check_members nodes selected [] seen found = ok found
check_members nodes selected (id ∷ ids) seen found = do
  refuse_if (unfit_member nodes seen id) (invalid_source bad_member)
  check_members nodes selected ids (id ∷ seen) (if id == selected then true else found)

bad_selector_tag : List Text → Text → Bool
bad_selector_tag nodes tag =
    tag == []
    || not (trim_space tag == tag)
    || tag == direct_tag
    || tag == urltest_tag
    || contains nodes tag

-- The selector "proxy" is given all usable nodes, and "direct".
members_of : List Text → Selector → List Text
members_of nodes s =
    sort_by text_le (if s.tag == proxy_tag then nodes ++ direct_tag ∷ [] else s.node_ids)

-- One round of the loop over the selectors.
unfoldable pub check_selector : List Text → List Selector → Selector → Result Error Selector
unfolding bad_selector_tag members_of
check_selector nodes selectors s = do
  refuse_if (bad_selector_tag nodes s.tag) (invalid_source invalid_tag)
  refuse_if (contains (tags_of selectors) s.tag) (invalid_source duplicate_selector)
  found ← check_members nodes s.selected (members_of nodes s) [] false
  refuse_if (not found) (invalid_source no_selected)
  ok (record s { node_ids = members_of nodes s })

unfoldable pub check_selectors :
    List Text → (selectors : List Selector) → List Selector → Result Error (List Selector)
check_selectors nodes selectors [] = ok selectors
check_selectors nodes selectors (s ∷ ss) = do
  s' ← check_selector nodes selectors s
  check_selectors nodes (s' ∷ selectors) ss

-- The map from the domains of enabled routes to their services.
unfoldable pub owner_of : List (Text × Text) → Text → Option Text
owner_of [] d = none
owner_of ((e, s) ∷ m) d = if e == d then some s else owner_of m d

refuse_owned : Option Text → Text → Result Error (Unit {0})
refuse_owned none service = ok tt
refuse_owned (some owner) service = err (invalid_source (duplicate_domain owner service))

-- A domain of an enabled route must be new, and is entered.
claim_domain : Bool → Text → Text → List (Text × Text) → Result Error (List (Text × Text))
unfolding refuse_owned
claim_domain false service d domains = ok domains
claim_domain true service d domains = do
  refuse_owned (owner_of domains d) service
  ok ((d, service) ∷ domains)

-- The loop over the domains of a route.
unfoldable pub check_domains :
    Bool
    → Text
    → List Text
    → (domains : List (Text × Text)) → Result Error (List Text × List (Text × Text))
unfolding claim_domain
check_domains enabled service [] domains = ok ([], domains)
check_domains enabled service (raw ∷ raws) domains = do
  let d = normalize_domain raw
  refuse_if (not (valid_domain d)) (invalid_source (invalid_domain raw))
  domains' ← claim_domain enabled service d domains
  (ds, last) ← check_domains enabled service raws domains'
  ok (d ∷ ds, last)

-- What the loop over the routes keeps: `routes`, `owners` and `domains`.
pub record Seen : Type 0 where
  pub services : List Text
  pub owners : List Text
  pub domains : List (Text × Text)

bad_service_id : Text → Bool
bad_service_id id = trim_space id == [] || not (id == trim_space id)

unfit_selector : List Selector → List Text → Text → Bool
unfit_selector selectors owners tag =
    not (contains (tags_of selectors) tag) || tag == proxy_tag || contains owners tag

-- One round of the loop over the routes.
unfoldable pub check_route :
    List Selector → Seen → ServiceRoute → Result Error (ServiceRoute × Seen)
unfolding bad_service_id unfit_selector
check_route selectors seen r = do
  refuse_if (bad_service_id r.service_id) (invalid_source no_service_id)
  refuse_if (r.service_id == default_service_id) (invalid_source default_service)
  refuse_if (contains seen.services r.service_id) (invalid_source duplicate_service)
  refuse_if (unfit_selector selectors seen.owners r.selector) (invalid_source dependent_selector)
  refuse_if (is_empty r.domains) (invalid_source no_domains)
  (ds, domains) ← check_domains r.enabled r.service_id r.domains seen.domains
  ok (
    record r { domains = sort_by text_le ds },
    record {
      services = r.service_id ∷ seen.services;
      owners = r.selector ∷ seen.owners;
      domains = domains;
    },
  )

unfoldable pub check_routes :
    List Selector → Seen → List ServiceRoute → Result Error (List ServiceRoute)
check_routes selectors seen [] = ok []
check_routes selectors seen (r ∷ rs) = do
  (r', seen') ← check_route selectors seen r
  rs' ← check_routes selectors seen' rs
  ok (r' ∷ rs')

abbrev pub nothing_seen : Seen
nothing_seen = record { services = []; owners = []; domains = [] }

-- NormalizeRuntimeModel.
unfoldable pub normalize_runtime_model : RuntimeModel → Result Error RuntimeModel
normalize_runtime_model model = do
  nodes ← check_nodes model.node_pool.nodes [] []
  selectors ← check_selectors nodes [] model.selectors
  routes ← check_routes selectors nothing_seen model.service_routes
  ok (record model {
    selectors = sort_by (by_key (λ s. s.tag)) selectors;
    service_routes = sort_by (by_key (λ r. r.service_id)) routes;
  })
