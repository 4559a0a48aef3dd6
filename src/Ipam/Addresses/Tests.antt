-- ===== src/Ipam/Addresses/Tests.antt =====
-- Two addresses on one interface.
use mathlib.Core.Path.{subst}
use zas.Prelude.{
  ℕ, ◌*◌, ◌+◌, ◌^◌, ◌≡◌, refl, inl, inr, true, false, Bool-cases, Option, none, some, [], ◌∷◌,
  arith, if◌then◌else◌, write_row,
}
use zas.Text.{Text, codes, text_eq}
use zas.Ipam.{Prefix, PrefixStatus, PrefixRole, IpAddress, IpAddressStatus, IpAddressRole}
use zas.Ipam.Network.{Version, Network, Address, Parser, IsWellFormed, has_address, size}
use zas.Ipam.Addresses.{Db, AddressError, validate, interface_of, prefix_of}
use zas.Ipam.Addresses.Accepted.{accepted_inside, PrimariesUnique, accepted-PrimariesUnique}

abbrev net24 : Network
net24 = record { version = Version.v4; first = 10 * 2 ^ 24; prefixlen = 24 }

net24-IsWellFormed : IsWellFormed net24
unfolding size
net24-IsWellFormed = record { prefix_fits = omega arith; aligned = refl }

some-injective : {m n : Network} → ◌≡◌ {A = Option Network} (some m) (some n) → m ≡ n
some-injective e = cc

abbrev host : ℕ → Address
host n = record { version = Version.v4; value = 10 * 2 ^ 24 + n }

abbrev read_network : Text → Option Network
read_network t = if text_eq t (codes "10.0.0.0/24") then some net24 else none

read_strict : (t : Text) (n : Network) → read_network t ≡ some n → IsWellFormed n
read_strict t n e = elim (Bool-cases (text_eq t (codes "10.0.0.0/24"))) [
  | inl same ↦ subst IsWellFormed (some-injective (rw same at e)) net24-IsWellFormed
  | inr other ↦ cc (rw other at e)
]

abbrev parser : Parser
parser = record {
  ip_network = read_network;
  ip_address = λ t.
      if text_eq t (codes "10.0.0.1")
      then some (host 1)
      else if text_eq t (codes "10.0.0.2")
      then some (host 2)
      else none;
  strict = read_strict;
}

abbrev net : Prefix
net = record {
  id = 1;
  cidr = codes "10.0.0.0/24";
  site = some 1;
  vrf = none;
  vlan = none;
  parent = none;
  status = PrefixStatus.active;
  role = PrefixRole.user;
  description = none;
  created_at = 0;
}

abbrev first : IpAddress
first = record {
  id = 1;
  address = codes "10.0.0.1";
  prefix = some 1;
  interface = some 9;
  status = IpAddressStatus.deprecated;
  role = IpAddressRole.primary;
  is_primary = true;
  is_reserved = false;
  hostname = none;
  mac_address = none;
  last_seen = none;
  description = none;
  created_at = 0;
  updated_at = 0;
}

abbrev second : IpAddress
second = record first { id = 2; address = codes "10.0.0.2"; status = IpAddressStatus.active }

abbrev db : Db
db = record {
  addresses = first ∷ [];
  prefixes = net ∷ [];
  interfaces = record { id = 9; device_site = some 1 } ∷ [];
}

second_accepted : validate parser db second ≡ []
unfolding validate text_eq has_address size
second_accepted = refl

live_rejected :
    validate parser
      (record db { addresses = record first { status = IpAddressStatus.dhcp } ∷ [] })
      second
    ≡ AddressError.has_primary ∷ []
unfolding validate text_eq has_address size
live_rejected = refl

accepted_inside_example :
    (n : Network) × (a : Address) × (parser.ip_network net.cidr ≡ some n)
    × (parser.ip_address second.address ≡ some a)
    × (has_address n a ≡ true)
unfolding prefix_of
accepted_inside_example = accepted_inside parser db second net refl second_accepted

accepted-PrimariesUnique_example :
    PrimariesUnique parser (write_row (λ (a : IpAddress). a.id) second db.addresses)
unfolding interface_of
accepted-PrimariesUnique_example =
    accepted-PrimariesUnique parser db second (inr refl) (tt, tt) second_accepted
