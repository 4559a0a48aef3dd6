-- ===== src/Ipam/Prefixes/Tests.antt =====
-- A tree of three prefixes, read by a parser that knows their texts.
use zas.Prelude.{
  ℕ, ◌*◌, ◌^◌, ◌<◌, ◌≡◌, refl, ap, ◌∙◌, ◌≢◌, ◌⊎◌, inl, inr, true, false, Bool-cases, Option, none,
  some, List, [], ◌∷◌, arith, select, All, ◌==◌, if◌then◌else◌,
}
use mathlib.Core.Path.{subst}
use zas.Text.{Text, codes, text_eq}
use zas.Ipam.{Prefix, PrefixStatus, PrefixRole}
use zas.Ipam.Network.{Version, Network, Parser, IsWellFormed, subnet_of, overlaps, network_eq, size}
use zas.Ipam.Network.Nested.{overlaps-nested}
use zas.Ipam.Prefixes.{
  Ipam, Outcome, PrefixError, accepted, prefix_at, siblings, has_ancestor, validate,
}
use zas.Ipam.Prefixes.Loop.{Differs, holds}
use zas.Ipam.Prefixes.Accepted.{accepted_siblings, accepted_parent}
use zas.Ipam.Prefixes.Ancestors.{prefix_length, validate_total}

abbrev net8 : Network
net8 = record { version = Version.v4; first = 10 * 2 ^ 24; prefixlen = 8 }

abbrev net16 : Network
net16 = record { version = Version.v4; first = 10 * 2 ^ 24; prefixlen = 16 }

abbrev net24 : Network
net24 = record { version = Version.v4; first = 10 * 2 ^ 24; prefixlen = 24 }

abbrev net6 : Network
net6 = record { version = Version.v6; first = 0; prefixlen = 32 }

net8-IsWellFormed : IsWellFormed net8
unfolding size
net8-IsWellFormed = record { prefix_fits = omega arith; aligned = refl }

net16-IsWellFormed : IsWellFormed net16
unfolding size
net16-IsWellFormed = record { prefix_fits = omega arith; aligned = refl }

net24-IsWellFormed : IsWellFormed net24
unfolding size
net24-IsWellFormed = record { prefix_fits = omega arith; aligned = refl }

net6-IsWellFormed : IsWellFormed net6
unfolding size
net6-IsWellFormed = record { prefix_fits = omega arith; aligned = refl }

-- a parser that reads the texts of a table
abbrev read_in : List (Text × Network) → Text → Option Network
read_in [] t = none
read_in ((k, n) ∷ table) t = if text_eq t k then some n else read_in table t

some-injective : {m n : Network} → ◌≡◌ {A = Option Network} (some m) (some n) → m ≡ n
some-injective e = cc

some-prefix : {p q : Prefix} → ◌≡◌ {A = Option Prefix} (some p) (some q) → p ≡ q
some-prefix e = cc

read_in_strict :
    (table : List (Text × Network))
    → All (λ e. IsWellFormed e.1) table
    → (t : Text) (n : Network) → read_in table t ≡ some n
    → IsWellFormed n
read_in_strict [] h t n e = cc e
read_in_strict ((k, m) ∷ table) h t n e = elim (Bool-cases (text_eq t k)) [
  | inl same ↦ subst IsWellFormed (some-injective (rw same at e)) h.0
  | inr other ↦ read_in_strict table h.1 t n (rw other at e)
]

abbrev table : List (Text × Network)
table =
    (codes "10.0.0.0/8", net8)
    ∷ (codes "10.0.0.0/16", net16)
    ∷ (codes "10.0.0.0/24", net24)
    ∷ (codes "::/32", net6)
    ∷ []

abbrev parser : Parser
parser = record {
  ip_network = read_in table;
  ip_address = λ t. none;
  strict =
      read_in_strict table
        (net8-IsWellFormed, (net16-IsWellFormed, (net24-IsWellFormed, (net6-IsWellFormed, tt))));
}

abbrev root : Prefix
root = record {
  id = 1;
  cidr = codes "10.0.0.0/8";
  site = some 1;
  vrf = none;
  vlan = none;
  parent = none;
  status = PrefixStatus.active;
  role = PrefixRole.user;
  description = none;
  created_at = 0;
}

abbrev middle : Prefix
middle = record root { id = 2; cidr = codes "10.0.0.0/16"; parent = some 1 }

abbrev leaf : Prefix
leaf = record root { id = 3; cidr = codes "10.0.0.0/24"; parent = some 2 }

abbrev stray : Prefix
stray = record root { id = 4; cidr = codes "::/32"; parent = some 1 }

abbrev db : Ipam
db = record { prefixes = root ∷ middle ∷ []; vrfs = [] }

leaf_accepted : validate 3 parser db leaf ≡ accepted
unfolding validate text_eq network_eq subnet_of overlaps size
leaf_accepted = refl

orphan_rejected :
    validate 3 parser db (record leaf { parent = none })
    ≡ Outcome.rejected (PrefixError.covered (root ∷ middle ∷ []) ∷ [])
unfolding validate text_eq network_eq subnet_of overlaps size
orphan_rejected = refl

nested_networks :
    (net16.version ≡ net8.version) × ((subnet_of net16 net8 ≡ true) ⊎ (subnet_of net8 net16 ≡ true))
unfolding overlaps size
nested_networks = overlaps-nested net16 net8 net16-IsWellFormed net8-IsWellFormed refl

accepted_siblings_example :
    (n : Network) × (parser.ip_network leaf.cidr ≡ some n)
    × All (λ o. Differs parser n (parser.ip_network o.cidr)) (siblings leaf db.prefixes)
    × ((select (holds parser n) (siblings leaf db.prefixes) ≡ [])
        ⊎ (has_ancestor 3 db
              (select (holds parser n) (siblings leaf db.prefixes))
              (prefix_at db leaf.parent)
            ≡ some true))
accepted_siblings_example = accepted_siblings 3 parser db leaf leaf_accepted

accepted_parent_example :
    (middle.site ≡ leaf.site)
    × (middle.vrf ≡ leaf.vrf)
    × (n : Network) × (m : Network) × (parser.ip_network leaf.cidr ≡ some n)
    × (parser.ip_network middle.cidr ≡ some m)
    × (n.version ≡ m.version)
    × (subnet_of n m ≡ true)
    × (network_eq n m ≡ false)
accepted_parent_example = accepted_parent 3 parser db leaf middle refl leaf_accepted

found_falls :
    (k : ℕ) (p q : Prefix)
    → prefix_at db (some k) ≡ some p
    → prefix_at db p.parent ≡ some q
    → prefix_length parser q < prefix_length parser p
unfolding text_eq
found_falls k p q e h = elim (Bool-cases (1 == k)) [
  | inl one ↦
      let is : root ≡ p = some-prefix (rw one at e) in cc (ap (λ x. prefix_at db x.parent) is, h)
  | inr not_one ↦ elim (Bool-cases (2 == k)) [
    | inl two ↦
        let is : middle ≡ p = some-prefix (rw (not_one, two) at e) in
        let parent : root ≡ q = some-prefix (ap (λ x. prefix_at db x.parent) is ∙ h) in
        rw (← is, ← parent) (omega arith)
    | inr not_two ↦ cc (rw (not_one, not_two) at e)
  ]
]

falls :
    (o : Option ℕ) (p q : Prefix)
    → prefix_at db o ≡ some p
    → prefix_at db p.parent ≡ some q
    → prefix_length parser q < prefix_length parser p
falls none p q e h = cc e
falls (some k) p q e h = found_falls k p q e h

validate_total_example : validate 129 parser db leaf ≢ Outcome.endless
validate_total_example = validate_total parser db falls 129 leaf (omega arith)
