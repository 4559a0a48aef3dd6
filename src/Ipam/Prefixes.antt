-- ===== src/Ipam/Prefixes.antt =====
-- PrefixValidationService (ipam/services/prefix_validation_service.py), which `Prefix.clean` calls.
pub mod Loop
pub mod Accepted
pub mod Ancestors
mod Tests
use zas.Prelude.{
  ℕ, zero, suc, ◌≡◌, Bool, true, false, not, ◌&&◌, ◌||◌, Option, none, some, List, [], ◌∷◌, ◌++◌,
  ◌==◌, if◌then◌else◌, is_some, same_key, select, any, find_row, is_empty,
}
use zas.Ipam.{Prefix, Vrf}
use zas.Ipam.Network.{Version, same_version, Network, Parser, subnet_of, overlaps, network_eq}

-- The messages of the error dictionary; its keys are distinct within one raise.
pub data PrefixError : Type 0 where
  site_missing : PrefixError
  invalid_network : PrefixError
  vrf_of_other_site : PrefixError
  parent_of_other_site : PrefixError
  parent_in_other_vrf : PrefixError
  invalid_parent : PrefixError
  outside_parent : PrefixError
  equal_to_parent : PrefixError
  duplicate : PrefixError
  crosses : Prefix → PrefixError
  covered : List Prefix → PrefixError

-- How `validate` ends: it returns, raises ValidationError, or lets the TypeError of `subnet_of` through.
-- `endless` is the outcome of the parent walk where it does not end within its fuel.
pub data Outcome : Type 0 where
  accepted : Outcome
  rejected : List PrefixError → Outcome
  type_error : Outcome
  endless : Outcome

pub record Ipam : Type 0 where
  pub prefixes : List Prefix
  pub vrfs : List Vrf

-- the object behind a foreign key
abbrev pub prefix_at : Ipam → Option ℕ → Option Prefix
prefix_at db none = none
prefix_at db (some k) = find_row (λ (p : Prefix). p.id) k db.prefixes

vrf_errors : Prefix → List Vrf → List PrefixError
vrf_errors p vrfs = elim p.vrf [
  | none ↦ []
  | some k ↦ elim (find_row (λ (v : Vrf). v.id) k vrfs) [
    | none ↦ []
    | some v ↦ if same_key (some v.site) p.site then [] else vrf_of_other_site ∷ []
  ]
]

-- `_validate_parent_relationship` past the tests of site and VRF. With an error at hand it does not
-- compare the networks.
pub compare_with_parent : List PrefixError → Network → Option Network → Outcome
compare_with_parent errors n none = rejected (errors ++ invalid_parent ∷ [])
compare_with_parent [] n (some parent) =
    if not (same_version n.version parent.version)
    then type_error
    else if not (subnet_of n parent)
    then rejected (outside_parent ∷ [])
    else if network_eq n parent
    then rejected (equal_to_parent ∷ [])
    else accepted
compare_with_parent (e ∷ errors) n (some parent) = rejected (e ∷ errors)

-- An empty error dictionary raises nothing.
pub raise_if : List PrefixError → Outcome
raise_if [] = accepted
raise_if (e ∷ errors) = rejected (e ∷ errors)

-- `none` in the table is a prefix without a parent
pub parent_outcome : Parser → Prefix → List PrefixError → Network → Option Prefix → Outcome
unfolding compare_with_parent raise_if
parent_outcome io p errors n none = raise_if errors
parent_outcome io p errors n (some parent) =
    if not (same_key parent.site p.site)
    then rejected (errors ++ parent_of_other_site ∷ [])
    else if not (same_key parent.vrf p.vrf)
    then rejected (errors ++ parent_in_other_vrf ∷ [])
    else compare_with_parent errors n (io.ip_network parent.cidr)

-- the prefixes of the same site and VRF, without the prefix itself
pub siblings : Prefix → List Prefix → List Prefix
siblings p = select (λ o. same_key o.site p.site && same_key o.vrf p.vrf && not (o.id == p.id))

-- The loop over the siblings: it stops with an error, or ends with the prefixes that contain the network.
pub data Scan : Type 0 where
  stop : PrefixError → Scan
  containing : List Prefix → Scan

-- one turn of the loop, where `rest` is what the loop does after it
pub scan_one : Network → Prefix → Option Network → (List Prefix → Scan) → List Prefix → Scan
scan_one n other none rest acc = rest acc
scan_one n other (some m) rest acc =
    if not (overlaps n m)
    then rest acc
    else if network_eq n m
    then stop duplicate
    else if subnet_of n m
    then rest (acc ++ other ∷ [])
    else if not (subnet_of m n)
    then stop (crosses other)
    else rest acc

pub scan : Parser → Network → List Prefix → List Prefix → Scan
unfolding scan_one
scan io n [] acc = containing acc
scan io n (other ∷ others) acc = scan_one n other (io.ip_network other.cidr) (scan io n others) acc

-- `_has_ancestor`: the walk up the parents on fuel; `none` is a walk that has not ended
pub has_ancestor : ℕ → Ipam → List Prefix → Option Prefix → Option Bool
has_ancestor fuel db candidates none = some false
has_ancestor zero db candidates (some p) = none
has_ancestor (suc fuel) db candidates (some p) =
    let rest = has_ancestor fuel db candidates (prefix_at db p.parent) in
    if any (λ c. c.id == p.id) candidates then some true else rest

covered_outcome : List Prefix → Option Bool → Outcome
covered_outcome found none = endless
covered_outcome found (some true) = accepted
covered_outcome found (some false) = rejected (covered found ∷ [])

-- what follows the loop
pub scan_outcome : ℕ → Ipam → Option Prefix → Scan → Outcome
unfolding covered_outcome has_ancestor
scan_outcome fuel db parent (stop e) = rejected (e ∷ [])
scan_outcome fuel db parent (containing []) = accepted
scan_outcome fuel db parent (containing (c ∷ cs)) =
    covered_outcome (c ∷ cs) (has_ancestor fuel db (c ∷ cs) parent)

-- the next stage runs where the one before raised nothing
pub after : Outcome → Outcome → Outcome
after accepted next = next
after other next = other

site_errors : Prefix → List PrefixError
site_errors p = if is_some p.site then [] else site_missing ∷ []

pub validate_network : ℕ → Parser → Ipam → Prefix → Option Network → Outcome
unfolding site_errors raise_if vrf_errors parent_outcome siblings scan scan_outcome after
validate_network fuel io db p none = rejected (site_errors p ++ invalid_network ∷ [])
validate_network fuel io db p (some n) =
    let parent = prefix_at db p.parent in
    after (raise_if (site_errors p)) (
      after (parent_outcome io p (vrf_errors p db.vrfs) n parent)
        (scan_outcome fuel db parent (scan io n (siblings p db.prefixes) [])))

-- PrefixValidationService.validate; the fuel bounds the walk up the parents
unfoldable pub validate : ℕ → Parser → Ipam → Prefix → Outcome
unfolding validate_network
validate fuel io db p = validate_network fuel io db p (io.ip_network p.cidr)
