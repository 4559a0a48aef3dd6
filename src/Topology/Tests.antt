-- ===== src/Topology/Tests.antt =====
-- Tests of the collection of neighbors, and the theorems on it at a concrete table.
use zas.Prelude.{
  ◌≡◌, refl, Bool-cases, inl, inr, true, false, Option, none, some, List, [], ◌∷◌, arith, All,
  if◌then◌else◌,
}
use zas.Text.{
  Text, codes, text_eq, lower, upper, strip, rstrip_dots, lstrip_by, is_space, split_on,
  starts_with, contains, ends_with, iexact, is_one_of,
}
use zas.Hostnames.{normalize_hostname}
use zas.Topology.{Protocol, cdp, TopologyNeighbor, NeighborEntry, Collection, same_neighbor}
use zas.Topology.Local.{normalize_interface_name}
use zas.Topology.Collect.{
  raw_output, entries_of, collect_neighbors_for_device, cleanup_topology_neighbors,
}
use zas.Topology.Frame.{cdp_output, lldp_output}
use zas.Topology.Once.{NeighborsOnce, HasName, collect_neighbors-NeighborsOnce}

abbrev c : Collection
c = record {
  device = 5;
  site_domain = some (codes "lab.net");
  interfaces =
      record { id = 7; name = codes "Gi1/0/1" } ∷ record { id = 8; name = codes "Te1/1/1" } ∷ [];
  devices = record { id = 9; name = codes "CORE.lab.net" } ∷ [];
  is_ip = λ t. false;
  clock = λ turn. turn;
}

abbrev entry : Text → Text → Protocol → NeighborEntry
entry interface name protocol = record {
  local_interface = interface;
  neighbor_name = name;
  neighbor_interface = codes "Gi0/1";
  protocol = protocol;
  platform = codes "C9500";
  capabilities = [];
}

short_test : normalize_interface_name (codes " GigabitEthernet 1/0/1") ≡ codes "Gi1/0/1"
unfolding normalize_interface_name lower strip lstrip_by is_space starts_with
short_test = refl

-- the neighbor as it was seen before
abbrev old_row : TopologyNeighbor
old_row = record {
  id = 1;
  device = 5;
  local_interface = 7;
  neighbor_name = codes "core.lab.net";
  neighbor_device = none;
  neighbor_interface = codes "Gi0/1";
  protocol = cdp;
  platform = [];
  capabilities = [];
  first_seen = 3;
  last_seen = 4;
}

-- a neighbor of another device
abbrev foreign_row : TopologyNeighbor
foreign_row = record old_row { id = 2; device = 6 }

abbrev rows : List TopologyNeighbor
rows = old_row ∷ foreign_row ∷ []

-- the details are not there, so the shorter command is read for CDP; LLDP is off
abbrev run : Text → Option Text
run command =
    if text_eq command (codes "show cdp neighbors")
    then some (codes "core")
    else some (codes "% Invalid input")

abbrev parse_cdp : Text → List NeighborEntry
parse_cdp raw =
    entry (codes "GigabitEthernet1/0/1") (codes "Core") cdp
    ∷ entry (codes "Gig 9/9") (codes "lost") cdp
    ∷ entry (codes "Te1/1/1") (codes "edge") cdp
    ∷ []

abbrev parse_lldp : Text → List NeighborEntry
parse_lldp raw = []

collected_test : collect_neighbors_for_device c run parse_cdp parse_lldp 50 rows ≡ (
  true,
  record old_row {
    id = 51;
    local_interface = 8;
    neighbor_name = codes "edge.lab.net";
    platform = codes "C9500";
    first_seen = 51;
    last_seen = 51;
  }
      ∷ record old_row { neighbor_device = some 9; platform = codes "C9500"; last_seen = 50 }
      ∷ foreign_row
      ∷ [],
)
unfolding collect_neighbors_for_device text_eq contains lower strip is_one_of iexact upper
    rstrip_dots ends_with split_on
collected_test = refl

cleaned_test :
    cleanup_topology_neighbors 5 (old_row ∷ record foreign_row { last_seen = 5 } ∷ [])
    ≡ (1, record foreign_row { last_seen = 5 } ∷ [])
unfolding cleanup_topology_neighbors
cleaned_test = refl

apart :
    (o : TopologyNeighbor) → same_neighbor o old_row ≡ true → same_neighbor o foreign_row ≡ true → ⊥
unfolding same_neighbor
apart o h k =
    let five : 5 ≡ o.device = ground (arith, h) in
    let six : 6 ≡ o.device = ground (arith, k) in omega (arith, five, six)

rows_once : NeighborsOnce rows
rows_once o = elim (Bool-cases (same_neighbor o old_row)) [
  | inl h ↦ elim (Bool-cases (same_neighbor o foreign_row)) [
    | inl k ↦ absurd (apart o h k)
    | inr k ↦ rw (h, k) (omega arith)
  ]
  | inr h ↦ elim (Bool-cases (same_neighbor o foreign_row)) [
    | inl k ↦ rw (h, k) (omega arith)
    | inr k ↦ rw (h, k) (omega arith)
  ]
]

cdp_read : cdp_output run ≡ some (codes "core")
unfolding raw_output text_eq lower contains starts_with
cdp_read = refl

lldp_read : lldp_output run ≡ some (codes "% Invalid input")
unfolding raw_output text_eq lower contains starts_with
lldp_read = refl

cdp_named : All (HasName c) (entries_of parse_cdp (codes "core"))
unfolding entries_of normalize_hostname lower strip contains starts_with ends_with rstrip_dots
    split_on
cdp_named = (refl, (refl, (refl, tt)))

lldp_named : All (HasName c) (entries_of parse_lldp (codes "% Invalid input"))
unfolding entries_of lower contains starts_with
lldp_named = tt

collect_neighbors-NeighborsOnce_example :
    ((collect_neighbors_for_device c run parse_cdp parse_lldp 50 rows).0 ≡ true)
    × NeighborsOnce (collect_neighbors_for_device c run parse_cdp parse_lldp 50 rows).1
collect_neighbors-NeighborsOnce_example =
    collect_neighbors-NeighborsOnce c run parse_cdp parse_lldp 50 rows (codes "core")
      (codes "% Invalid input") rows_once cdp_read lldp_read cdp_named lldp_named
