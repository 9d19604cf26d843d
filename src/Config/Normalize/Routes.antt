-- ===== src/Config/Normalize/Routes.antt =====
-- What the loop over the service routes establishes.
use target_lib.Base.{
  Disjoint-tail, ◌≡◌, refl, ◌∙◌, sym, ap, subst, Bool, true, false, not, ◌||◌, List, [], ◌∷◌, map,
  none, arith, Text, ◌==◌, eq_iff, text_le, trim_space, contains, is_empty, Distinct, Disjoint,
  Disjoint-weaken, Disjoint-symm, All, EachPair, not-contains_of_Disjoint, sort_by, sort_by-All,
  sort_by-contains_self, sort_by-Distinct_self, if◌then◌else◌, ok, >>-eq-ok, >>=-eq-ok,
  ok-injective,
}
use target_lib.Config.Model.{
  Selector, ServiceRoute, tags_of, services_of, proxy_tag, default_service_id,
}
use target_lib.Config.Domains.{valid_domain, normalize_domain}
use target_lib.Config.Normalize.{
  owner_of, claim_domain, check_domains, Seen, bad_service_id, unfit_selector, check_route,
  check_routes,
}

abbrev keys : List (Text × Text) → List Text
keys = map λ e. e.0

-- The domains that a route takes traffic for.
abbrev pub claims : ServiceRoute → List Text
claims r = if r.enabled then r.domains else []

owner_of-none :
    (m : List (Text × Text)) (d : Text) → owner_of m d ≡ none → contains (keys m) d ≡ false
unfolding owner_of contains
owner_of-none [] d h = refl
owner_of-none ((e, s) ∷ m) d h = ground (arith, owner_of-none m d)

record CheckedDomains (enabled : Bool) (domains : List (Text × Text)) (ds : List Text)
    (last : List (Text × Text)) : Type 0 where
  valid : All (λ d. valid_domain d ≡ true) ds
  distinct : Distinct (if enabled then ds else [])
  fresh : Disjoint (if enabled then ds else []) (keys domains)
  grown :
      (a : Text)
      → contains (keys last) a
        ≡ (contains (keys domains) a || contains (if enabled then ds else []) a)

grown-cons :
    (m : List (Text × Text)) (d s : Text) (ds : List Text) (a : Text)
    → (contains (keys ((d, s) ∷ m)) a || contains ds a)
      ≡ (contains (keys m) a || contains (d ∷ ds) a)
unfolding contains
grown-cons m d s ds a = ground arith

claimed :
    (service d : Text) (domains : List (Text × Text)) {out : List (Text × Text)}
    → claim_domain true service d domains ≡ ok out
    → (contains (keys domains) d ≡ false) × (out ≡ (d, service) ∷ domains)
unfolding claim_domain
claimed service d domains h = (owner_of-none domains d (ground arith), ground arith)

CheckedDomains-cons :
    (service d : Text) (domains : List (Text × Text)) {ds : List Text} {last : List (Text × Text)}
    → valid_domain d ≡ true
    → contains (keys domains) d ≡ false
    → CheckedDomains true ((d, service) ∷ domains) ds last
    → CheckedDomains true domains (d ∷ ds) last
CheckedDomains-cons service d domains {ds} ok_domain new c = record {
  valid = (ok_domain, c.valid);
  distinct = (not-contains_of_Disjoint ds (keys domains) d c.fresh, c.distinct);
  fresh = (new, Disjoint-tail ds (keys domains) d c.fresh);
  grown = λ a. c.grown a ∙ grown-cons domains d service ds a;
}

check_domains-Checked :
    (enabled : Bool) (service : Text) (raws : List Text) (domains : List (Text × Text))
    {ds : List Text} {last : List (Text × Text)}
    → check_domains enabled service raws domains ≡ ok (ds, last)
    → CheckedDomains enabled domains ds last
unfolding check_domains contains
check_domains-Checked enabled service [] domains {ds} {last} h =
    let same = ok-injective h in
    let e : ds ≡ [] = ap (λ p. p.0) (sym same) in
    let f : last ≡ domains = ap (λ p. p.1) (sym same) in rw (e, f) (empty enabled)
  where
    empty : (b : Bool) → CheckedDomains b domains [] domains
    empty true = record { valid = tt; distinct = tt; fresh = tt; grown = λ a. ground arith }
    empty false = record { valid = tt; distinct = tt; fresh = tt; grown = λ a. ground arith }
check_domains-Checked true service (raw ∷ raws) domains h =
    let d = normalize_domain raw in
    let (passed, h1) = >>-eq-ok (not (valid_domain d)) _ _ h in
    let (domains', taken, h2) = >>=-eq-ok (claim_domain true service d domains) _ h1 in
    let (new, grown) = claimed service d domains taken in
    let (rest, checked, h3) = >>=-eq-ok (check_domains true service raws domains') _ h2 in
    let c = check_domains-Checked true service raws domains' checked in
    subst (λ p. CheckedDomains true domains p.0 p.1) (ok-injective h3)
      (CheckedDomains-cons service d domains (ground arith) new
        (subst (λ m. CheckedDomains true m rest.0 rest.1) grown c))
check_domains-Checked false service (raw ∷ raws) domains h =
    let d = normalize_domain raw in
    let (passed, h1) = >>-eq-ok (not (valid_domain d)) _ _ h in
    let (rest, checked, h2) = >>=-eq-ok (check_domains false service raws domains) _ h1 in
    let c = check_domains-Checked false service raws domains checked in
    subst (λ p. CheckedDomains false domains p.0 p.1) {x = (d ∷ rest.0, rest.1)} (ok-injective h2)
      (record { valid = (ground arith, c.valid); distinct = tt; fresh = tt; grown = c.grown })

-- A service route of a normalised model, over its selectors.
pub record IsServed (selectors : List Selector) (r : ServiceRoute) : Type 0 where
  pub trimmed : trim_space r.service_id ≡ r.service_id
  pub named : (r.service_id == []) ≡ false
  pub not_default : (r.service_id == default_service_id) ≡ false
  pub known : contains (tags_of selectors) r.selector ≡ true
  pub not_proxy : (r.selector == proxy_tag) ≡ false
  pub valid : All (λ d. valid_domain d ≡ true) r.domains
  pub distinct : Distinct (claims r)

record CheckedRoute (selectors : List Selector) (seen : Seen) (out : ServiceRoute) (last : Seen)
    : Type 0 where
  served : IsServed selectors out
  new_service : contains seen.services out.service_id ≡ false
  new_owner : contains seen.owners out.selector ≡ false
  new_domains : Disjoint (claims out) (keys seen.domains)
  services : last.services ≡ out.service_id ∷ seen.services
  owners : last.owners ≡ out.selector ∷ seen.owners
  domains :
      (a : Text)
      → contains (keys last.domains) a ≡ (contains (keys seen.domains) a || contains (claims out) a)

sorted_claims :
    (b : Bool) (ds : List Text)
    → Distinct (if b then ds else [])
    → Distinct (if b then sort_by text_le ds else [])
sorted_claims true ds h = sort_by-Distinct_self text_le ds h
sorted_claims false ds h = tt

sorted_claims-contains :
    (b : Bool) (ds : List Text) (a : Text)
    → contains (if b then ds else []) a ≡ contains (if b then sort_by text_le ds else []) a
sorted_claims-contains true ds a = sym (sort_by-contains_self text_le ds a)
sorted_claims-contains false ds a = refl

sorted_claims-Disjoint :
    (b : Bool) (ds ys : List Text)
    → Disjoint (if b then ds else []) ys
    → Disjoint (if b then sort_by text_le ds else []) ys
sorted_claims-Disjoint true ds ys h = sort_by-All text_le (λ x. contains ys x ≡ false) ds h
sorted_claims-Disjoint false ds ys h = tt

check_route-CheckedRoute :
    (selectors : List Selector) (seen : Seen) (r : ServiceRoute) {out : ServiceRoute} {last : Seen}
    → check_route selectors seen r ≡ ok (out, last)
    → CheckedRoute selectors seen out last
unfolding check_route bad_service_id unfit_selector
check_route-CheckedRoute selectors seen r h =
    let (trimmed, h1) = >>-eq-ok (bad_service_id r.service_id) _ _ h in
    let (not_default, h2) = >>-eq-ok (r.service_id == default_service_id) _ _ h1 in
    let (new_service, h3) = >>-eq-ok (contains seen.services r.service_id) _ _ h2 in
    let (fit, h4) = >>-eq-ok (unfit_selector selectors seen.owners r.selector) _ _ h3 in
    let (some_domains, h5) = >>-eq-ok (is_empty r.domains) _ _ h4 in
    let (found, checked, h6) =
      >>=-eq-ok (check_domains r.enabled r.service_id r.domains seen.domains) _ h5 in
    let c = check_domains-Checked r.enabled r.service_id r.domains seen.domains checked in
    let fits : (r.service_id == trim_space r.service_id) ≡ true = ground arith in
    let same = (eq_iff _ _).0 fits in
    subst (λ p. CheckedRoute selectors seen p.0 p.1) (ok-injective h6)
      (record {
        served = record {
          trimmed = sym same;
          named = ground (arith, same);
          not_default = not_default;
          known = ground arith;
          not_proxy = ground arith;
          valid = sort_by-All text_le (λ d. valid_domain d ≡ true) found.0 c.valid;
          distinct = sorted_claims r.enabled found.0 c.distinct;
        };
        new_service = new_service;
        new_owner = ground arith;
        new_domains = sorted_claims-Disjoint r.enabled found.0 (keys seen.domains) c.fresh;
        services = refl;
        owners = refl;
        domains = λ a.
            c.grown a
            ∙ ap (λ b. contains (keys seen.domains) a || b)
                (sorted_claims-contains r.enabled found.0 a);
      })

-- What the loop establishes of the routes that pass, beside their soundness one by one.
pub record CheckedRoutes (selectors : List Selector) (seen : Seen) (out : List ServiceRoute)
    : Type 0 where
  pub served : All (IsServed selectors) out
  pub services_distinct : Distinct (services_of out)
  pub services_fresh : Disjoint (services_of out) seen.services
  pub owners_distinct : Distinct (map (λ r. r.selector) out)
  pub owners_fresh : Disjoint (map (λ r. r.selector) out) seen.owners
  pub apart : EachPair (λ r q. Disjoint (claims r) (claims q)) out
  pub domains_fresh : All (λ r. Disjoint (claims r) (keys seen.domains)) out

split_fresh :
    (rs : List ServiceRoute) (r : ServiceRoute) (before after : List (Text × Text))
    → ((a : Text) → contains (keys after) a ≡ (contains (keys before) a || contains (claims r) a))
    → All (λ q. Disjoint (claims q) (keys after)) rs
    → All (λ q. Disjoint (claims r) (claims q)) rs × All (λ q. Disjoint (claims q) (keys before)) rs
split_fresh [] r before after f h = (tt, tt)
split_fresh (q ∷ rs) r before after f h =
    let (apart, fresh) = split_fresh rs r before after f h.1 in
    (
      (
        Disjoint-symm (claims q) (claims r)
            (Disjoint-weaken (claims q) (claims r) (keys after) (λ a k. ground (arith, f a)) h.0),
        apart,
      ),
      (
        Disjoint-weaken (claims q) (keys before) (keys after) (λ a k. ground (arith, f a)) h.0,
        fresh,
      ),
    )

pub check_routes-CheckedRoutes :
    (selectors : List Selector) (seen : Seen) (rs : List ServiceRoute) {out : List ServiceRoute}
    → check_routes selectors seen rs ≡ ok out
    → CheckedRoutes selectors seen out
unfolding check_routes
check_routes-CheckedRoutes selectors seen [] h =
    subst (CheckedRoutes selectors seen) (ok-injective h) (record {
      served = tt;
      services_distinct = tt;
      services_fresh = tt;
      owners_distinct = tt;
      owners_fresh = tt;
      apart = tt;
      domains_fresh = tt;
    })
check_routes-CheckedRoutes selectors seen (r ∷ rs) h =
    let (p, passed, h1) = >>=-eq-ok (check_route selectors seen r) _ h in
    let (rest, more, h2) = >>=-eq-ok (check_routes selectors p.1 rs) _ h1 in
    let c = check_route-CheckedRoute selectors seen r passed in
    let m = check_routes-CheckedRoutes selectors p.1 rs more in
    let (apart, fresh) = split_fresh rest p.0 seen.domains p.1.domains c.domains m.domains_fresh in
    let services = subst (Disjoint (services_of rest)) c.services m.services_fresh in
    let owners = subst (Disjoint (map (λ q. q.selector) rest)) c.owners m.owners_fresh in
    subst (CheckedRoutes selectors seen) (ok-injective h2) (record {
      served = (c.served, m.served);
      services_distinct = (
        not-contains_of_Disjoint (services_of rest) seen.services p.0.service_id services,
        m.services_distinct,
      );
      services_fresh =
          (c.new_service, Disjoint-tail (services_of rest) seen.services p.0.service_id services);
      owners_distinct =
          (not-contains_of_Disjoint _ seen.owners p.0.selector owners, m.owners_distinct);
      owners_fresh = (c.new_owner, Disjoint-tail _ seen.owners p.0.selector owners);
      apart = (apart, m.apart);
      domains_fresh = (c.new_domains, fresh);
    })
