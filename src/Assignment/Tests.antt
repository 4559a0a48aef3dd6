-- ===== src/Assignment/Tests.antt =====
-- Tests of the assignment, and the theorems on it at concrete tables.
use zas.Prelude.{ℕ, ◌+◌, ◌≤◌, ◌||◌, ◌≡◌, refl, true, false, none, some, [], ◌∷◌, arith, ok, err}
use zas.Text.{
  codes, lower, upper, strip, split_on, split_lines, words, starts_with, contains, before, text_eq,
  iexact, is_line_break, prepend, is_space,
}
use zas.Dcim.{StackRole, StackState}
use zas.Rack.{is_free, max_unit, select_position}
use zas.Rack.Sample.{rack, two_units, db}
use zas.Discovery.{DiscoveryCandidate}
use zas.Assignment.{
  AssignError, Location, parse_location, location_empty, location_format, is_fabric, role_name,
  tag_names, resolve_username,
}
use zas.Assignment.Assign.{
  Area, Tables, StackEntry, Facts, Given, required_units, Assigned, resolve_area_and_rack,
  resolve_type, assign, write, is_taken, has_repeat,
}
use zas.Assignment.Placed.{assign_total}

location_test :
    (parse_location false (codes "sw1") (codes "Sys Location: B1  R7 u12.5\n")
      ≡ ok (record { area = codes "B1"; rack = codes "R7"; unit = some 125 }))
    × (parse_location false (codes "a-vm-1") (codes "B1 R7")
        ≡ ok (record { area = codes "VCenter"; rack = codes "R7"; unit = none }))
    × (parse_location true (codes "S-B1-07-leaf1.x.de") []
        ≡ ok (record { area = codes "b1"; rack = codes "Rack07"; unit = none }))
    × (parse_location false [] (codes " \n") ≡ err location_empty)
    × (parse_location false [] (codes "B1 R7 12") ≡ err location_format)
unfolding parse_location lower strip split_on split_lines words contains starts_with before
    is_line_break prepend is_space
location_test = (refl, refl, refl, refl, refl)

names_test :
    (role_name (codes "s1-Leaf-3") ≡ codes "Leaf")
    × (resolve_username (codes "leaf1") (codes "bob") ≡ codes "apic#ISE\\\\bob")
    × (tag_names (codes "bcsw1") (codes "bcsw1")
        ≡ codes "reachability_check_tag"
          ∷ codes "discovered-new"
          ∷ codes "campus"
          ∷ codes "config_backup_tag"
          ∷ [])
unfolding role_name resolve_username tag_names lower contains starts_with
names_test = (refl, refl, refl)

abbrev candidate : DiscoveryCandidate
candidate = record {
  id = 1;
  site = 2;
  ip_address = codes "10.0.0.9";
  hostname = codes "sw9";
  alive = true;
  reachable_ssh = true;
  reachable_ping = false;
  last_seen = 50;
  classified = false;
  accepted = none;
}

abbrev area : Area
area = record { id = 5; site = 2; name = codes "B1" }

abbrev tables : Tables
tables = record {
  credential_sites = 2 ∷ [];
  areas = area ∷ [];
  vendors = record { id = 1; name = codes "Cisco" } ∷ [];
  device_types = two_units ∷ [];
  roles = [];
  tags = codes "discovered-new" ∷ [];
  db = db;
}

abbrev entry : ℕ → StackEntry
entry n = record {
  switch_number = n;
  role = StackRole.member;
  mac_address = [];
  priority = none;
  version = none;
  state = StackState.ready;
}

-- a stack of two, at a unit that is taken
abbrev facts : Facts
facts = record {
  is_aci = false;
  location_raw = codes "B1 R1 U4";
  model_name = some (codes "c9300");
  stack_members = entry 1 ∷ entry 2 ∷ [];
}

abbrev given : Given
given = record { device_id = 77; role_id = 8; now = 100; draw = 0 }

abbrev location : Location
location = record { area = codes "B1"; rack = codes "R1"; unit = some 40 }

parsed :
    parse_location
      (is_fabric candidate.hostname || facts.is_aci)
      candidate.hostname
      facts.location_raw
    ≡ ok location
unfolding parse_location is_fabric lower strip split_on split_lines words contains starts_with
    before is_line_break prepend is_space
parsed = refl

found : resolve_area_and_rack candidate.site location tables ≡ ok (area, rack)
unfolding resolve_area_and_rack iexact text_eq upper
found = refl

known : resolve_type facts.model_name tables ≡ ok two_units
unfolding resolve_type iexact text_eq upper
known = refl

free : is_free rack.occupied_units 8 (required_units facts) ≡ true
unfolding is_free required_units
free = refl

unique : (is_taken candidate tables.db.devices || has_repeat facts.stack_members) ≡ false
unfolding is_taken has_repeat text_eq
unique = refl

high : 8 + required_units facts ≤ max_unit rack + 1
unfolding required_units max_unit
high = omega arith

assign_total_example : (a : Assigned) × (assign given candidate (some facts) tables ≡ ok a)
assign_total_example =
    assign_total given candidate facts tables location area rack two_units 8 refl parsed found known
      unique free (omega arith) high

-- the first free block of two units
abbrev assigned : Assigned
assigned = write given candidate facts tables area rack 20 two_units

taken_test :
    assign given (record candidate { hostname = codes "sw1" }) (some facts) tables
    ≡ err AssignError.not_unique
unfolding assign parse_location is_fabric lower strip split_on split_lines words contains
    starts_with before is_line_break prepend is_space resolve_area_and_rack resolve_type iexact
    text_eq upper select_position required_units is_taken has_repeat
taken_test = refl
