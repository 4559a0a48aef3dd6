-- ===== src/Ipam/Prefixes/Ancestors.antt =====
-- The walk of PrefixValidationService._has_ancestor up the parents, which ends.
use zas.Prelude.{
  ℕ, zero, suc, ◌<◌, ◌≤◌, ◌≡◌, refl, ◌≢◌, inl, inr, Bool, true, false, Option, none, some, List, [],
  ◌∷◌, arith, ◌==◌, if◌then◌else◌, Option-cases, any,
}
use zas.Text.{Text}
use zas.Ipam.{Prefix}
use zas.Ipam.Network.{Version, Network, Parser, width}
use zas.Ipam.Prefixes.{
  PrefixError, Ipam, prefix_at, has_ancestor, Outcome, accepted, rejected, type_error, endless,
  raise_if, compare_with_parent, parent_outcome, vrf_errors, site_errors, siblings, Scan, stop,
  containing, scan, covered_outcome, scan_outcome, after, validate, validate_network,
}

has_ancestor_step :
    (fuel : ℕ) (db : Ipam) (candidates : List Prefix) (p : Prefix)
    → has_ancestor (suc fuel) db candidates (some p) ≡ (
        if any (λ c. c.id == p.id) candidates
        then some true
        else has_ancestor fuel db candidates (prefix_at db p.parent))
unfolding has_ancestor
has_ancestor_step fuel db candidates p = refl

has_ancestor_end :
    (fuel : ℕ) (db : Ipam) (candidates : List Prefix) → has_ancestor fuel db candidates none ≢ none
unfolding has_ancestor
has_ancestor_end zero db candidates e = cc e
has_ancestor_end (suc fuel) db candidates e = cc e

next_step : (b : Bool) (o : Option Bool) → o ≢ none → (if b then some true else o) ≢ none
next_step true o h e = cc e
next_step false o h e = h e

lt_step : {a b fuel : ℕ} → a < b → b < suc fuel → a < fuel
lt_step l h = omega arith

not_below_zero : {n : ℕ} → ¬ (n < 0)
not_below_zero h = elim h [ ]

le_lt : {a b c : ℕ} → a ≤ b → b < c → a < c
le_lt h k = omega arith

width-le : (v : Version) → width v ≤ 128
width-le Version.v4 = omega arith
width-le Version.v6 = omega arith

after-ends : (a b : Outcome) → a ≢ endless → b ≢ endless → after a b ≢ endless
unfolding after
after-ends accepted b ha hb e = hb e
after-ends (rejected es) b ha hb e = cc e
after-ends type_error b ha hb e = cc e
after-ends endless b ha hb e = ha refl

raise_if-ends : (es : List PrefixError) → raise_if es ≢ endless
unfolding raise_if
raise_if-ends [] e = cc e
raise_if-ends (x ∷ es) e = cc e

compare-ends :
    (es : List PrefixError) (n : Network) (m : Option Network)
    → compare_with_parent es n m ≢ endless
unfolding compare_with_parent
compare-ends es n none e = cc e
compare-ends (x ∷ es) n (some m) e = cc e
compare-ends [] n (some m) e = ground (arith, e)

parent_outcome-ends :
    (io : Parser) (p : Prefix) (es : List PrefixError) (n : Network) (o : Option Prefix)
    → parent_outcome io p es n o ≢ endless
unfolding parent_outcome
parent_outcome-ends io p es n none e = raise_if-ends es e
parent_outcome-ends io p es n (some q) e =
    ground (arith, e, compare-ends es n (io.ip_network q.cidr))

covered_outcome-ends :
    (found : List Prefix) (o : Option Bool) → o ≢ none → covered_outcome found o ≢ endless
unfolding covered_outcome
covered_outcome-ends found none h e = h refl
covered_outcome-ends found (some true) h e = cc e
covered_outcome-ends found (some false) h e = cc e

scan_outcome-ends :
    (fuel : ℕ) (db : Ipam) (o : Option Prefix)
    → ((found : List Prefix) → has_ancestor fuel db found o ≢ none)
    → (s : Scan) → scan_outcome fuel db o s ≢ endless
unfolding scan_outcome
scan_outcome-ends fuel db o walk (stop x) e = cc e
scan_outcome-ends fuel db o walk (containing []) e = cc e
scan_outcome-ends fuel db o walk (containing (c ∷ cs)) e =
    covered_outcome-ends (c ∷ cs) _ (walk (c ∷ cs)) e

-- the length of the prefix, as far as its text is a network
abbrev network_length : Option Network → ℕ
network_length none = 0
network_length (some n) = n.prefixlen

abbrev pub prefix_length : Parser → Prefix → ℕ
prefix_length io p = network_length (io.ip_network p.cidr)

network_length-le : (io : Parser) (t : Text) → network_length (io.ip_network t) ≤ 128
network_length-le io t = elim (Option-cases (io.ip_network t)) [
  | inl e ↦ rw e (omega arith)
  | inr (n, e) ↦ rw e (omega (arith, (io.strict t n e).prefix_fits, width-le n.version))
]

module _ (io : Parser) (db : Ipam)
    (falls : (o : Option ℕ) (p q : Prefix)
      → prefix_at db o ≡ some p
      → prefix_at db p.parent ≡ some q
      → prefix_length io q < prefix_length io p) where
  -- the walk from a stored prefix
  has_ancestor_total :
      (candidates : List Prefix) (fuel : ℕ) (o : Option ℕ)
      → ((p : Prefix) → prefix_at db o ≡ some p → prefix_length io p < fuel)
      → has_ancestor fuel db candidates (prefix_at db o) ≢ none
  has_ancestor_total candidates zero o below = elim (Option-cases (prefix_at db o)) [
    | inl e ↦ rw e (has_ancestor_end zero db candidates)
    | inr (p, e) ↦ absurd (not_below_zero (below p e))
  ]
  has_ancestor_total candidates (suc fuel) o below = elim (Option-cases (prefix_at db o)) [
    | inl e ↦ rw e (has_ancestor_end (suc fuel) db candidates)
    | inr (p, e) ↦
        rw (e, has_ancestor_step fuel db candidates p)
          (next_step _ _ (
            has_ancestor_total candidates fuel p.parent
              (λ q stored. lt_step (falls o p q e stored) (below p e))))
  ]

  -- Where each stored prefix is longer than its stored parent, the validation of a prefix ends: with a fuel of more than 128 steps, the walk up the parents never
  -- runs out of it.
  pub validate_total : (fuel : ℕ) (p : Prefix) → 128 < fuel → validate fuel io db p ≢ endless
  unfolding validate validate_network scan_outcome
  validate_total fuel p enough = elim (Option-cases (io.ip_network p.cidr)) [
    | inl e ↦ rw e (λ h. cc h)
    | inr (n, e) ↦ rw e (
        after-ends _ _ (raise_if-ends (site_errors p)) (
          after-ends _ _ (parent_outcome-ends io p (vrf_errors p db.vrfs) n (prefix_at db p.parent))
            (scan_outcome-ends fuel db (prefix_at db p.parent)
              (λ found.
                has_ancestor_total found fuel p.parent
                  (λ q stored. le_lt (network_length-le io q.cidr) enough))
              (scan io n (siblings p db.prefixes) []))))
  ]
