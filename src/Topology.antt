-- ===== src/Topology.antt =====
-- The neighbors of a device: TopologyService.upsert_neighbor (topology/services/topology_service.py),
-- the collector of automation/tasks/topology_collector.py and TopologyNeighbor (topology/models.py).
pub mod Local
pub mod Collect
pub mod Frame
pub mod Once
mod Tests
use zas.Prelude.{
  ℕ, ◌+◌, Bool, true, false, not, ◌&&◌, ◌||◌, Option, none, some, List, [], ◌∷◌, ◌++◌, ◌==◌, ltb,
  length, take, drop, if◌then◌else◌, is_empty, any, select, map, head?, Result, ok, err, or_else,
}
use zas.Text.{
  Text, codes, text_eq, lower, strip, lstrip_by, is_space, iexact, is_one_of, starts_with, contains,
}
use zas.Hostnames.{normalize_hostname}

pub data Protocol : Type 0 where
  cdp : Protocol
  lldp : Protocol

pub record TopologyNeighbor : Type 0 where
  pub id : ℕ
  pub device : ℕ
  pub local_interface : ℕ
  pub neighbor_name : Text
  pub neighbor_device : Option ℕ
  pub neighbor_interface : Text
  pub protocol : Protocol
  pub platform : Text
  pub capabilities : Text
  pub first_seen : ℕ
  pub last_seen : ℕ

-- An entry of the parsed output.
pub record NeighborEntry : Type 0 where
  pub local_interface : Text
  pub neighbor_name : Text
  pub neighbor_interface : Text
  pub protocol : Protocol
  pub platform : Text
  pub capabilities : Text

-- A device or an interface, as far as it is looked up by its name.
pub record NameRow : Type 0 where
  pub id : ℕ
  pub name : Text

-- What a collection reads: the device, its site's domain and its interfaces, the devices, whether
-- ipaddress reads a name as an address, and the time of each turn.
pub record Collection : Type 0 where
  pub device : ℕ
  pub site_domain : Option Text
  pub interfaces : List NameRow
  pub devices : List NameRow
  pub is_ip : Text → Bool
  pub clock : ℕ → ℕ

-- `.filter(name__iexact=...).first()`
unfoldable pub first_by_name : Text → List NameRow → Option ℕ
first_by_name name [] = none
first_by_name name (d ∷ ds) =
    let rest = first_by_name name ds in if iexact d.name name then some d.id else rest

pub data TopologyError : Type 0 where
  name_required : TopologyError
  several_found : TopologyError

unfoldable pub same_protocol : Protocol → Protocol → Bool
same_protocol cdp cdp = true
same_protocol cdp lldp = false
same_protocol lldp cdp = false
same_protocol lldp lldp = true

-- the row as an upsert leaves it
unfoldable pub observation : Collection → ℕ → ℕ → Text → NeighborEntry → TopologyNeighbor
unfolding first_by_name
observation c turn interface name e = record {
  id = turn;
  device = c.device;
  local_interface = interface;
  neighbor_name = name;
  neighbor_device = first_by_name name c.devices;
  neighbor_interface = e.neighbor_interface;
  protocol = e.protocol;
  platform = e.platform;
  capabilities = e.capabilities;
  first_seen = c.clock turn;
  last_seen = c.clock turn;
}

-- the rows that update_or_create finds for the row
unfoldable pub same_neighbor : TopologyNeighbor → TopologyNeighbor → Bool
unfolding same_protocol
same_neighbor o r =
    r.device == o.device
    && (r.local_interface == o.local_interface
        && (same_protocol r.protocol o.protocol
            && (text_eq r.neighbor_name o.neighbor_name
                && text_eq r.neighbor_interface o.neighbor_interface)))

unfoldable pub refreshed : TopologyNeighbor → TopologyNeighbor → TopologyNeighbor
unfolding same_neighbor
refreshed o r =
    if same_neighbor o r
    then record r {
      neighbor_device = o.neighbor_device;
      platform = o.platform;
      capabilities = o.capabilities;
      last_seen = o.last_seen;
    }
    else r

-- update_or_create, by the rows that it finds: the key of the row and the new table
unfoldable pub update_or_create :
    TopologyNeighbor
    → List TopologyNeighbor
    → List TopologyNeighbor
    → Result TopologyError (ℕ × List TopologyNeighbor)
unfolding refreshed
update_or_create o [] rows = ok (o.id, o ∷ rows)
update_or_create o (r ∷ []) rows = ok (r.id, map (refreshed o) rows)
update_or_create o (r ∷ s ∷ found) rows = err several_found

-- TopologyService.upsert_neighbor; a new row gets the key of the turn
unfoldable pub upsert_neighbor :
    Collection
    → ℕ
    → ℕ
    → NeighborEntry
    → List TopologyNeighbor
    → Result TopologyError (ℕ × List TopologyNeighbor)
unfolding normalize_hostname observation same_neighbor update_or_create
upsert_neighbor c turn interface e rows =
    let name = normalize_hostname c.is_ip c.site_domain (some e.neighbor_name) in
    let o = observation c turn interface name e in
    if is_empty name
    then err name_required
    else update_or_create o (select (same_neighbor o) rows) rows
