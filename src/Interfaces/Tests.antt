-- ===== src/Interfaces/Tests.antt =====
-- Tests of the sync of a device's interfaces, and the theorems on it at a concrete table.
use zas.Prelude.{
  ◌==◌, ◌≡◌, ◌⊎◌, refl, if◌then◌else◌, true, false, none, some, List, [], ◌∷◌, arith, All, is_empty,
  ok, err,
}
use zas.Text.{
  Text, codes, text_eq, lower, strip, starts_with, contains, is_one_of, is_space, get, put,
  add_name, add_names, words, before,
}
use zas.Sync.{or_text, first_text}
use zas.Interfaces.{
  Interface, physical, svi, connected, unknown, down, l2, infer_kind, normalize_iface, parse_speed,
  map_status,
}
use zas.Interfaces.Reports.{
  DescEntry, StatusEntry, IpEntry, PoEntry, Reports, is_address_text, parsed_ip, IpParsers,
  Gathered, gather, key_error, no_members, seen_names,
}
use zas.Interfaces.Apply.{
  apply_interfaces, lacks_vlan, same_interface, set_kind, set_mode, set_lag, set_status,
}
use zas.Interfaces.Apply.Dicts.{lag_step}
use zas.Interfaces.Apply.Rows.{Linked}
use zas.Interfaces.Apply.Creation.{IsFresh, AtMostOne}
use zas.Interfaces.Apply.Pass.{pass}
use zas.Interfaces.Apply.Kinds.{KindByName}
use zas.Interfaces.Apply.Columns.{Lasts, stale_address, apply_interfaces-kind}

names_test : normalize_iface (some (codes " gigabitethernet1/0/1 ")) ≡ codes "Gi1/0/1"
unfolding normalize_iface strip starts_with lower
names_test = refl

speeds :
    (parse_speed (codes "a-10G") ≡ some 10000)
    × (parse_speed (codes "1000") ≡ some 1000)
    × (parse_speed (codes "auto") ≡ none)
unfolding parse_speed lower is_one_of text_eq is_space
speeds = (refl, refl, refl)

-- a port that is reported down counts as unknown, and an empty state as down
down_test : (map_status (codes "down") ≡ unknown) × (map_status [] ≡ down)
unfolding map_status contains starts_with
down_test = (refl, refl)

-- a library that accepts two addresses
abbrev lib : IpParsers
lib = record {
  ip_address = λ s. if is_one_of s (codes "10.0.0.1" ∷ codes "10.0.0.2" ∷ []) then some s else none;
  ip_interface = λ s. none;
}

abbrev desc_entry : DescEntry
desc_entry = record {
  port = some (codes "Gi1/0/1");
  interface = none;
  description = some (codes " uplink ");
}

abbrev status_entry : StatusEntry
status_entry = record {
  port = some (codes "Gi1/0/1");
  interface = none;
  vlan = some (codes "trunk");
  vlan_id = none;
  vlan_upper = none;
  status = some (codes "Connected");
  speed = some (codes "a-1000");
  duplex = some (codes "a-full");
}

abbrev ip_entry : Text → Text → IpEntry
ip_entry name ip = record {
  intf = some name;
  interface = none;
  ipaddr = some ip;
  ip_address = none;
  status = some (codes "up");
  proto = some (codes "up");
}

abbrev po_entry : PoEntry
po_entry = record {
  port_channel = some (codes "Po1(SU)");
  bundle_name = none;
  bundle = none;
  portchannel = none;
  interfaces = some (codes "Gi1/0/1(P) Gi1/0/2(P)");
  member_interface = no_members;
}

abbrev reports : Reports
reports = record {
  desc_result = desc_entry ∷ [];
  status_result = status_entry ∷ [];
  ip_result =
      ip_entry (codes "Vlan5") (codes "10.0.0.1")
      ∷ ip_entry (codes "Vlan6") (codes "unassigned")
      ∷ [];
  po_result = po_entry ∷ [];
}

abbrev vlan6 : Interface
vlan6 = record {
  id = 3;
  name = codes "Vlan6";
  device = 5;
  mac_address = none;
  ip_address = some (codes "10.0.0.2");
  status = down;
  endpoint = none;
  speed = none;
  duplex = none;
  speed_mode = none;
  switchport_enabled = false;
  switchport_mode = none;
  access_vlan = none;
  native_vlan = none;
  vlan_raw = [];
  is_trunk = false;
  is_virtual = false;
  kind = svi;
  mode = none;
  lag = some 4;
  lag_mode = none;
  description = none;
}

-- a port that the output no longer names, and a port of another device
abbrev rows : List Interface
rows =
    vlan6
    ∷ record vlan6 { id = 4; name = codes "Gi9" }
    ∷ record vlan6 { id = 7; name = codes "Gi1/0/1"; device = 6 }
    ∷ []

abbrev gathered : Gathered
gathered = record {
  status_map =
      (
        codes "Gi1/0/1",
        record {
          status = codes "connected";
          vlan = codes "trunk";
          vlan_raw = some (codes "trunk");
          speed = some 1000;
          speed_mode = some (codes "a-1000");
          duplex = some (codes "a-full");
        },
      )
      ∷ [];
  desc_map = (codes "Gi1/0/1", codes "uplink") ∷ [];
  lag_map = (codes "Gi1/0/1", codes "Po1") ∷ (codes "Gi1/0/2", codes "Po1") ∷ [];
  ips = record {
    ip_names = codes "Vlan5" ∷ codes "Vlan6" ∷ [];
    ip_map =
        (codes "Vlan5", record { ip = codes "10.0.0.1"; status = codes "up"; proto = codes "up" })
        ∷ [];
    ip_seen =
        (codes "Vlan5", record { ip = codes "10.0.0.1"; status = codes "up"; proto = codes "up" })
        ∷ [];
  };
}

gathered_test : gather lib reports ≡ ok gathered
unfolding gather is_address_text parsed_ip normalize_iface strip starts_with lower contains
    is_one_of text_eq is_space get put add_name words before parse_speed or_text first_text
gathered_test = refl

-- an address that does not parse, of an interface that had none before it, ends the sync
malformed_test :
    gather lib (record reports { ip_result = ip_entry (codes "Vlan5") (codes "10.0.0.300") ∷ [] })
    ≡ err key_error
unfolding gather is_address_text parsed_ip normalize_iface strip starts_with lower contains
    is_one_of text_eq is_space get put add_name words before parse_speed or_text first_text
malformed_test = refl

some_name : is_empty (seen_names gathered) ≡ false
unfolding seen_names add_names
some_name = refl

rows-IsFresh : IsFresh 50 rows
rows-IsFresh =
    (((refl, (refl, tt)), ((refl, tt), (tt, tt))), (omega arith, (omega arith, (omega arith, tt))))

rows-AtMostOne : All (AtMostOne 5 rows) (seen_names gathered)
unfolding seen_names add_names same_interface text_eq
rows-AtMostOne = (omega arith, (omega arith, (omega arith, (omega arith, (omega arith, tt)))))

rows_have : All (λ n. lacks_vlan (get n gathered.status_map) ≡ false) (seen_names gathered)
unfolding seen_names add_names get lacks_vlan
rows_have = (refl, (refl, (refl, (refl, (refl, tt)))))

stale_address_example :
    (rows' : List Interface) × (apply_interfaces lib 50 5 reports rows ≡ ok rows')
    × All (Lasts gathered rows') rows
stale_address_example =
    stale_address lib 50 5 reports rows gathered gathered_test some_name rows-IsFresh rows-AtMostOne
      rows_have

apply_interfaces-kind_example :
    (rows' : List Interface) × (apply_interfaces lib 50 5 reports rows ≡ ok rows')
    × All (λ s. ((s.device == 5) ≡ false) ⊎ KindByName s) rows'
apply_interfaces-kind_example =
    apply_interfaces-kind lib 50 5 reports rows gathered gathered_test some_name rows-IsFresh
      rows-AtMostOne rows_have

-- what one pass makes of a row: the address is stale, the mode follows the name
abbrev port_row : Interface
port_row = record vlan6 { name = codes "Gi1/0/1"; kind = physical }

pass_test : pass 5 gathered ((codes "Po1", 9) ∷ []) port_row ≡ record port_row {
  status = connected;
  speed = some 1000;
  duplex = some (codes "a-full");
  speed_mode = some (codes "a-1000");
  vlan_raw = codes "trunk";
  is_trunk = true;
  mode = some l2;
  lag = some 9;
  lag_mode = some (codes "active");
  description = some (codes "uplink");
}
unfolding pass set_kind set_mode set_lag lag_step set_status get text_eq infer_kind map_status
    contains starts_with lower
pass_test = refl
