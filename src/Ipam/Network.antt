-- ===== src/Ipam/Network.antt =====
-- Addresses and networks of Python's `ipaddress`, as the services use them: membership by the mask,
-- `subnet_of` and `overlaps`. The parsers of texts are not modelled: they come as a `Parser`.
pub mod Nested
use zas.Prelude.{
  ℕ, suc, ◌+◌, ◌-◌, ◌*◌, ◌/◌, ◌%◌, ◌^◌, ◌≤◌, ◌<◌, ◌≡◌, Bool, true, false, ◌&&◌, ◌||◌, Option, some,
  ◌==◌, leb, if◌then◌else◌,
}
use zas.Text.{Text}

pub data Version : Type 0 where
  v4 v6 : Version

abbrev pub same_version : Version → Version → Bool
same_version v4 v4 = true
same_version v6 v6 = true
same_version _ _ = false

-- the bits of an address
abbrev pub width : Version → ℕ
width v4 = 32
width v6 = 128

pub record Address : Type 0 where
  pub version : Version
  pub value : ℕ

pub record Network : Type 0 where
  pub version : Version
  pub first : ℕ
  pub prefixlen : ℕ

-- the number of addresses
unfoldable pub size : Network → ℕ
size n = 2 ^ (width n.version - n.prefixlen)

-- the broadcast address
unfoldable pub last : Network → ℕ
unfolding size
last n = n.first + size n - 1

-- `address in network`: the masked address is the network's
unfoldable pub has_value : Network → ℕ → Bool
unfolding size
has_value n value = value / size n * size n == n.first

unfoldable pub has_address : Network → Address → Bool
unfolding has_value
has_address n a = same_version n.version a.version && has_value n a.value

unfoldable pub network_eq : Network → Network → Bool
network_eq a b =
    same_version a.version b.version && a.first == b.first && a.prefixlen == b.prefixlen

-- `a.subnet_of(b)` for networks of one version; for others it raises TypeError
unfoldable pub subnet_of : Network → Network → Bool
unfolding last
subnet_of a b = leb b.first a.first && leb (last a) (last b)

unfoldable pub overlaps : Network → Network → Bool
unfolding has_value last
overlaps a b =
    same_version a.version b.version
    && (has_value a b.first
        || (has_value a (last b) || (has_value b a.first || has_value b (last a))))

-- What `ip_network(text, strict=True)` promises of its result: no host bits are set.
pub record IsWellFormed (n : Network) : Type 0 where
  pub prefix_fits : n.prefixlen ≤ width n.version
  pub aligned : n.first % size n ≡ 0

-- The parsers of the `ipaddress` module: `none` is a ValueError.
pub record Parser : Type 0 where
  pub ip_network : Text → Option Network
  pub ip_address : Text → Option Address
  pub strict : (t : Text) (n : Network) → ip_network t ≡ some n → IsWellFormed n
