-- ===== src/Ipam/Addresses.antt =====
-- IPAddressValidationService (ipam/services/ipaddress_validation_service.py), which `IPAddress.clean`
-- calls.
pub mod Accepted
mod Tests
use zas.Prelude.{
  ℕ, ◌≡◌, Bool, true, false, not, ◌&&◌, ◌||◌, Option, none, some, List, [], ◌∷◌, ◌++◌, ◌==◌,
  if◌then◌else◌, is_some, same_key, select, any, find_row,
}
use zas.Ipam.{Prefix, IpAddress, IpAddressStatus, IpAddressRole}
use zas.Ipam.Network.{Version, same_version, Address, Network, Parser, has_address}

-- The messages of the error dictionary; its keys are distinct within one raise.
pub data AddressError : Type 0 where
  prefix_missing invalid_address invalid_prefix outside_prefix : AddressError
  interface_of_other_site has_primary : AddressError

-- an interface, as far as the service reads it, with the site of its device
pub record InterfaceSite : Type 0 where
  pub id : ℕ
  pub device_site : Option ℕ

pub record Db : Type 0 where
  pub addresses : List IpAddress
  pub prefixes : List Prefix
  pub interfaces : List InterfaceSite

is_primary_role : IpAddressRole → Bool
is_primary_role IpAddressRole.primary = true
is_primary_role _ = false

is_deprecated : IpAddressStatus → Bool
is_deprecated IpAddressStatus.deprecated = true
is_deprecated _ = false

pub prefix_of : Db → IpAddress → Option Prefix
prefix_of db ip = elim ip.prefix [
  | none ↦ none
  | some k ↦ find_row (λ (p : Prefix). p.id) k db.prefixes
]

pub interface_of : Db → IpAddress → Option InterfaceSite
interface_of db ip = elim ip.interface [
  | none ↦ none
  | some k ↦ find_row (λ (i : InterfaceSite). i.id) k db.interfaces
]

-- the first stage: the errors of the two parsers, and of a missing prefix
parse_errors : Option ℕ → Option Prefix → Option Address → Option Network → List AddressError
parse_errors prefix_id prefix address network =
    (if is_some prefix_id || is_some prefix then [] else prefix_missing ∷ [])
    ++ (if is_some address then [] else invalid_address ∷ [])
    ++ (if is_some prefix && not (is_some network) then invalid_prefix ∷ [] else [])

network_of : Parser → Option Prefix → Option Network
network_of io none = none
network_of io (some p) = io.ip_network p.cidr

inside_errors : Option Network → Option Address → List AddressError
inside_errors (some n) (some a) = if has_address n a then [] else outside_prefix ∷ []
inside_errors _ _ = []

-- `_validate_interface_site`
site_errors : InterfaceSite → Option Prefix → List AddressError
site_errors i none = []
site_errors i (some p) = if same_key i.device_site p.site then [] else interface_of_other_site ∷ []

pub version_is : Version → Option Address → Bool
version_is v none = false
version_is v (some a) = same_version a.version v

-- a row that keeps the interface from one more primary address of the version
pub blocks_primary : Parser → IpAddress → Version → IpAddress → Bool
unfolding is_primary_role is_deprecated version_is
blocks_primary io ip v other =
    same_key other.interface ip.interface
    && (is_primary_role other.role
        && (not (other.id == ip.id)
            && (not (is_deprecated other.status) && version_is v (io.ip_address other.address))))

-- `_validate_primary_role`
primary_errors : Parser → List IpAddress → IpAddress → Option Address → List AddressError
unfolding blocks_primary
primary_errors io addresses ip none = []
primary_errors io addresses ip (some a) =
    if any (blocks_primary io ip a.version) addresses then has_primary ∷ [] else []

interface_errors :
    Parser → Db → IpAddress → Option Address → Option InterfaceSite → List AddressError
unfolding site_errors primary_errors is_primary_role prefix_of
interface_errors io db ip address none = []
interface_errors io db ip address (some i) =
    site_errors i (prefix_of db ip)
    ++ (if is_primary_role ip.role then primary_errors io db.addresses ip address else [])

-- the second stage runs where the first found nothing
second_stage : List AddressError → List AddressError → List AddressError
second_stage [] errors = errors
second_stage (e ∷ first) errors = e ∷ first

-- IPAddressValidationService.validate: the errors of the ValidationError, none where it returns
unfoldable pub validate : Parser → Db → IpAddress → List AddressError
unfolding parse_errors network_of inside_errors interface_errors second_stage prefix_of interface_of
validate io db ip =
    let address = io.ip_address ip.address in
    let network = network_of io (prefix_of db ip) in
    second_stage (parse_errors ip.prefix (prefix_of db ip) address network)
      (inside_errors network address ++ interface_errors io db ip address (interface_of db ip))
