-- ===== src/Ipam/Prefixes/Accepted.antt =====
-- What a prefix satisfies that the validation accepts, and where it raises TypeError.
use zas.Prelude.{
  ℕ, ◌≡◌, refl, sym, ap, ◌∙◌, ◌⊎◌, inl, inr, true, false, Option, none, some, List, [], ◌∷◌, arith,
  same_key, same_key_iff, select, All,
}
use zas.Ipam.{Prefix, Vrf}
use zas.Ipam.Network.{same_version, Network, Parser, subnet_of, network_eq}
use zas.Ipam.Prefixes.{
  PrefixError, Outcome, accepted, rejected, type_error, endless, Ipam, prefix_at, vrf_errors,
  compare_with_parent, raise_if, parent_outcome, siblings, Scan, stop, containing, scan,
  has_ancestor, covered_outcome, scan_outcome, after, site_errors, validate_network, validate,
}
use zas.Ipam.Prefixes.Loop.{Differs, holds, scan-Gathers}

after-eq-accepted : (a b : Outcome) → after a b ≡ accepted → (a ≡ accepted) × (b ≡ accepted)
unfolding after
after-eq-accepted accepted b h = (refl, h)
after-eq-accepted (rejected es) b h = cc h
after-eq-accepted type_error b h = cc h
after-eq-accepted endless b h = cc h

scan_outcome-eq-accepted :
    (fuel : ℕ) (db : Ipam) (parent : Option Prefix) (s : Scan)
    → scan_outcome fuel db parent s ≡ accepted
    → (cs : List Prefix) × (s ≡ containing cs)
      × ((cs ≡ []) ⊎ (has_ancestor fuel db cs parent ≡ some true))
unfolding scan_outcome covered_outcome
scan_outcome-eq-accepted fuel db parent (stop e) h = cc h
scan_outcome-eq-accepted fuel db parent (containing []) h = ([], refl, inl refl)
scan_outcome-eq-accepted fuel db parent (containing (c ∷ cs)) h = (c ∷ cs, refl, inr (ground arith))

module _ (fuel : ℕ) (io : Parser) (db : Ipam) (p : Prefix) where
  stages :
      (n : Network)
      → validate_network fuel io db p (some n)
        ≡ after (raise_if (site_errors p)) (
            after (parent_outcome io p (vrf_errors p db.vrfs) n (prefix_at db p.parent)) (
              scan_outcome fuel db (prefix_at db p.parent) (scan io n (siblings p db.prefixes) [])))
  unfolding validate_network
  stages n = refl

  accepted_stages :
      (r : Option Network)
      → validate_network fuel io db p r ≡ accepted
      → (n : Network) × (r ≡ some n)
        × (raise_if (site_errors p) ≡ accepted)
        × (parent_outcome io p (vrf_errors p db.vrfs) n (prefix_at db p.parent) ≡ accepted)
        × (scan_outcome fuel db (prefix_at db p.parent) (scan io n (siblings p db.prefixes) [])
            ≡ accepted)
  accepted_stages none h = unfold validate_network in cc h
  accepted_stages (some n) h =
      let (site, rest) = after-eq-accepted _ _ (sym (stages n) ∙ h) in
      let (parent, scanned) = after-eq-accepted _ _ rest in (n, refl, site, parent, scanned)

validate_lem :
    (fuel : ℕ) (io : Parser) (db : Ipam) (p : Prefix)
    → validate fuel io db p ≡ validate_network fuel io db p (io.ip_network p.cidr)
unfolding validate
validate_lem fuel io db p = refl

-- Where a prefix is accepted, its text is a network; no sibling, a prefix of the same site and VRF, has
-- the same network; and the siblings whose network contains it, if there are any, have one of the
-- prefix's ancestors among them.
pub accepted_siblings :
    (fuel : ℕ) (io : Parser) (db : Ipam) (p : Prefix)
    → validate fuel io db p ≡ accepted
    → (n : Network) × (io.ip_network p.cidr ≡ some n)
      × All (λ o. Differs io n (io.ip_network o.cidr)) (siblings p db.prefixes)
      × ((select (holds io n) (siblings p db.prefixes) ≡ [])
          ⊎ (has_ancestor fuel db
                (select (holds io n) (siblings p db.prefixes))
                (prefix_at db p.parent)
              ≡ some true))
accepted_siblings fuel io db p h =
    let (n, e, _, _, scanned) =
      accepted_stages fuel io db p (io.ip_network p.cidr) (sym (validate_lem fuel io db p) ∙ h) in
    let (cs, ended, ancestor) =
      scan_outcome-eq-accepted fuel db (prefix_at db p.parent) _ scanned in
    let (differ, same) = scan-Gathers io n (siblings p db.prefixes) [] cs ended in
    (n, e, differ, rw same at ancestor)

parent_outcome-eq-accepted :
    (io : Parser) (p : Prefix) (errors : List PrefixError) (n : Network) (q : Prefix)
    → parent_outcome io p errors n (some q) ≡ accepted
    → (same_key q.site p.site ≡ true)
      × (same_key q.vrf p.vrf ≡ true)
      × (compare_with_parent errors n (io.ip_network q.cidr) ≡ accepted)
unfolding parent_outcome
parent_outcome-eq-accepted io p errors n q h = (ground arith, ground arith, ground arith)

compare_accepted :
    (errors : List PrefixError) (n : Network) (r : Option Network)
    → compare_with_parent errors n r ≡ accepted
    → (m : Network) × (r ≡ some m)
      × (n.version ≡ m.version)
      × (subnet_of n m ≡ true)
      × (network_eq n m ≡ false)
unfolding compare_with_parent
compare_accepted errors n none h = cc h
compare_accepted [] n (some m) h = (m, refl, ground arith, ground arith, ground arith)
compare_accepted (e ∷ errors) n (some m) h = cc h

-- Where a prefix with a parent is accepted, the parent has its site and its VRF, and the two texts are
-- networks of one version, the prefix's inside the parent's and not equal to it.
pub accepted_parent :
    (fuel : ℕ) (io : Parser) (db : Ipam) (p q : Prefix)
    → prefix_at db p.parent ≡ some q
    → validate fuel io db p ≡ accepted
    → (q.site ≡ p.site)
      × (q.vrf ≡ p.vrf)
      × (n : Network) × (m : Network) × (io.ip_network p.cidr ≡ some n)
      × (io.ip_network q.cidr ≡ some m)
      × (n.version ≡ m.version)
      × (subnet_of n m ≡ true)
      × (network_eq n m ≡ false)
accepted_parent fuel io db p q e h =
    let (n, own, _, parent, _) =
      accepted_stages fuel io db p (io.ip_network p.cidr) (sym (validate_lem fuel io db p) ∙ h) in
    let (site, vrf, inside) =
      parent_outcome-eq-accepted io p (vrf_errors p db.vrfs) n q (rw e at parent) in
    let (m, other, version, sub, differ) = compare_accepted _ n (io.ip_network q.cidr) inside in
    (
      (same_key_iff q.site p.site).0 site,
      (same_key_iff q.vrf p.vrf).0 vrf,
      n,
      m,
      own,
      other,
      version,
      sub,
      differ,
    )

no_errors :
    (p : Prefix) (vrfs : List Vrf) (s : ℕ)
    → p.site ≡ some s
    → p.vrf ≡ none
    → (site_errors p ≡ []) × (vrf_errors p vrfs ≡ [])
unfolding site_errors vrf_errors
no_errors p vrfs s ps pv = (rw ps, rw pv)

parent_type_error :
    (io : Parser) (p q : Prefix) (n m : Network)
    → q.site ≡ p.site
    → q.vrf ≡ p.vrf
    → io.ip_network q.cidr ≡ some m
    → same_version n.version m.version ≡ false
    → parent_outcome io p [] n (some q) ≡ type_error
unfolding parent_outcome
parent_type_error io p q n m site vrf qm ver =
    rw ((same_key_iff q.site p.site).1 site, (same_key_iff q.vrf p.vrf).1 vrf, qm)
      (unfold compare_with_parent in rw ver)

-- A parent of the other IP version is no validation error: the comparison raises TypeError. The
-- conditions are that the prefix has a site and no VRF, and that the parent has the same.
pub other_version_raises :
    (fuel : ℕ) (io : Parser) (db : Ipam) (p q : Prefix) (s : ℕ) (n m : Network)
    → p.site ≡ some s
    → p.vrf ≡ none
    → prefix_at db p.parent ≡ some q
    → q.site ≡ some s
    → q.vrf ≡ none
    → io.ip_network p.cidr ≡ some n
    → io.ip_network q.cidr ≡ some m
    → same_version n.version m.version ≡ false
    → validate fuel io db p ≡ type_error
other_version_raises fuel io db p q s n m ps pv pq qs qv pn qm ver =
    let (site, vrf) = no_errors p db.vrfs s ps pv in
    let raised = parent_type_error io p q n m (qs ∙ sym ps) (qv ∙ sym pv) qm ver in
    validate_lem fuel io db p
    ∙ ap (validate_network fuel io db p) pn
    ∙ stages fuel io db p n
    ∙ rw (site, vrf, pq, raised) (unfold raise_if after in refl)
