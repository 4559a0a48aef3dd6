-- ===== src/Ipam.antt =====
-- The data model of ipam/models (VRF, Prefix, IPAddress) and ipam/choices.py. A key is a number and a
-- time counts seconds.
pub mod Network
pub mod Prefixes
pub mod Addresses
use zas.Prelude.{ℕ, Bool, Option}
use zas.Text.{Text}

pub data PrefixStatus : Type 0 where
  active reserved deprecated : PrefixStatus

pub data PrefixRole : Type 0 where
  user mgmt loopback transit infra campus wan : PrefixRole

pub data IpAddressStatus : Type 0 where
  active dhcp reserved deprecated : IpAddressStatus

pub data IpAddressRole : Type 0 where
  primary secondary vip loopback : IpAddressRole

pub record Vrf : Type 0 where
  pub id : ℕ
  pub name : Text
  pub site : ℕ
  pub rd : Option Text
  pub description : Option Text
  pub created_at : ℕ

-- `site` is `none` on an object that is not yet assigned.
pub record Prefix : Type 0 where
  pub id : ℕ
  pub cidr : Text
  pub site : Option ℕ
  pub vrf : Option ℕ
  pub vlan : Option ℕ
  pub parent : Option ℕ
  pub status : PrefixStatus
  pub role : PrefixRole
  pub description : Option Text
  pub created_at : ℕ

pub record IpAddress : Type 0 where
  pub id : ℕ
  pub address : Text
  pub prefix : Option ℕ
  pub interface : Option ℕ
  pub status : IpAddressStatus
  pub role : IpAddressRole
  pub is_primary : Bool
  pub is_reserved : Bool
  pub hostname : Option Text
  pub mac_address : Option Text
  pub last_seen : Option ℕ
  pub description : Option Text
  pub created_at : ℕ
  pub updated_at : ℕ
