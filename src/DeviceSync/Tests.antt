-- ===== src/DeviceSync/Tests.antt =====
-- Tests of the synchronisation of a device, and the theorems on it at concrete tables.
use zas.Prelude.{
  All-of, ℕ, zero, suc, ◌<◌, ◌≤◌, ◌≡◌, ◌↔◌, refl, true, false, none, some, List, [], ◌∷◌, ◌++◌,
  arith, inl, inr, Result, ok, err,
}
use zas.Text.{
  Text, codes, lower, upper, strip, starts_with, contains, is_space, lstrip_by, is_digit,
  digits_value, is_number, split_lines, text_eq, iexact, get, put, is_one_of, add_names,
}
use zas.Dcim.{RuntimeStatus, DeviceType}
use zas.Rack.{save_device, occupied}
use zas.Rack.Sample.{rack, two_units, stack, db}
use zas.Rack.Occupancy.{IsConsistent}
use zas.DeviceSync.Uptime.{
  week, minute, parse_uptime, uptime_from_parts, extract_uptime_line, total, word, nonzero, spans,
}
use zas.DeviceSync.Printed.{Piece, printed, amount_of, parse_uptime-printed}
use zas.DeviceSync.Output.{Part, parse_serial_from_text, parse_image_from_text, pid_of}
use zas.DeviceSync.Model.{
  model_from_inventory, update_device_type, is_skipped, has_serial, is_chassis,
}
use zas.DeviceSync.Version.{VersionOutput, reported_uptime}
use zas.DeviceSync.Steps.{Tables, Results, Run, is_sync_excluded, is_nxos, platform_of}
use zas.Interfaces.{normalize_iface}
use zas.Interfaces.Reports.{Gathered, gather, no_ips, seen_names}
use zas.Interfaces.Apply.{lacks_vlan}
use zas.DeviceSync.Run.{sync_device, failed, skipped, success, exclude_message}
use zas.DeviceSync.Success.{Fits, InterfacesReady, Stored, sync_device_total}
use zas.DeviceSync.Consistent.{sync_device-IsConsistent}
use zas.DeviceSync.Others.{OthersKept, sync_device-others}
use zas.DeviceSync.Outcome.{BothFail, sync_device-failed_iff}
use zas.DeviceSync.Reported.{Reports, sync_device-uptime_bounds}

abbrev pieces : List Piece
pieces =
    record { digits = codes "2"; span = week; after = codes "s, " }
    ∷ record { digits = codes "03"; span = minute; after = codes "s" }
    ∷ []

abbrev uptime_text : Text
uptime_text = codes "Router uptime is 2 weeks, 03 minutes"

parse_uptime-printed_example :
    parse_uptime (codes "Router uptime is " ++ printed pieces)
    ≡ nonzero (total (amount_of pieces) spans)
unfolding word
parse_uptime-printed_example =
    parse_uptime-printed (codes "Router uptime is ") pieces (unfold is_digit in refl)
      (unfold is_digit is_number in ((refl, refl), ((refl, refl), tt)))

uptime_test : parse_uptime uptime_text ≡ some 1209780
unfolding parse_uptime lower is_digit is_space lstrip_by starts_with
uptime_test = refl

parts_test :
    uptime_from_parts (
      (codes "uptime_years", [])
      ∷ (codes "uptime_days", codes " 2")
      ∷ (codes "uptime_hours", codes "x")
      ∷ [])
    ≡ some 172800
unfolding uptime_from_parts text_eq get is_number digits_value strip is_digit
parts_test = refl

abbrev raw : Text
raw =
    codes "Cisco IOS, Version 17.3.4, RELEASE\n"
    ++ (codes "sw1 uptime is 1 week, 2 days\nSystem serial number : FOC9")

searched :
    (parse_serial_from_text raw ≡ codes "FOC9") × (parse_image_from_text raw ≡ codes "17.3.4")
unfolding parse_serial_from_text parse_image_from_text starts_with is_space lstrip_by is_digit
searched = (refl, refl)

abbrev part_row : Text → Text → Text → Part
part_row name sn pid = record {
  entry = record { name = some name; descr = none; sn = some sn; serial = none };
  pid = some pid;
}

-- the part of the device's own serial goes before a chassis
own_part :
    model_from_inventory
      (part_row (codes "Chassis") (codes "A1") (codes "WS-1")
        ∷ part_row (codes "Slot 1") (codes "FOC9") (codes "C9500")
        ∷ [])
      (some (codes "FOC9 "))
    ≡ some (codes "C9500")
unfolding model_from_inventory strip text_eq lower contains starts_with pid_of
own_part = refl

abbrev version : VersionOutput
version = record { raw = raw; parsed = none; aci = none }

abbrev status : RuntimeStatus
status = record {
  device = 1;
  reachable_ping = true;
  reachable_snmp = false;
  reachable_ssh = false;
  reachable_netconf = false;
  last_check = none;
  uptime = none;
}

-- the raw text gives the uptime, where the template gives nothing
raw_uptime : reported_uptime (codes "sw1") version ≡ some 777600
unfolding reported_uptime parse_uptime extract_uptime_line split_lines contains lower is_digit
    is_space lstrip_by starts_with
raw_uptime = refl

-- a type of four units
abbrev four_units : DeviceType
four_units = record two_units { id = 2; model = codes "C9500"; u_height = 40 }

abbrev tables : Tables
tables = record {
  db = db;
  types = two_units ∷ four_units ∷ [];
  runtimes = record status { device = 2 } ∷ [];
  inventory = record { modules = []; items = [] };
  interfaces = [];
  configs = [];
  neighbors = [];
}

abbrev run : Run
run = record {
  now = 800000;
  include_config = true;
  hash = λ t. t;
  lib = record { ip_address = λ s. some s; ip_interface = λ s. some s };
  module_id = 10;
  transceiver_id = 20;
  interface_id = 30;
  config_id = 40;
  neighbor_id = 50;
  site_domain = none;
  is_ip = λ t. false;
  clock = λ turn. 800000;
  session = λ command. none;
  parse_cdp = λ t. [];
  parse_lldp = λ t. [];
}

abbrev results : Results
results = record {
  version = version;
  inventory = part_row (codes "Chassis") (codes "FOC9") (codes "C9500") ∷ [];
  transceivers = [];
  raw_transceivers = [];
  interfaces = record { desc_result = []; status_result = []; ip_result = []; po_result = [] };
  config = record { raw = codes "hostname sw1"; error = none };
  stack = [];
}

-- the first attempt fails
abbrev collect : ℕ → Result Text Results
collect zero = err (codes "timeout")
collect (suc n) = ok results

abbrev collect_none : ℕ → Result Text Results
collect_none attempt = err (codes "timeout")

db_right : IsConsistent db
unfolding occupied
db_right = (refl, tt)

sync_device-IsConsistent_example : IsConsistent (sync_device run collect stack tables).1.db
sync_device-IsConsistent_example =
    sync_device-IsConsistent run collect stack tables db_right (inr refl, (inl refl, tt))

sync_device-others_example : OthersKept 1 tables (sync_device run collect stack tables).1
sync_device-others_example = sync_device-others run collect stack tables

sync_device-failed_iff_example :
    (((sync_device run collect_none stack tables).0 ≡ ok (failed (codes "timeout")))
      ↔ ((is_sync_excluded stack ≡ false) × BothFail collect_none (codes "timeout")))
    × (((sync_device run collect_none stack tables).0 ≡ ok (skipped (codes "timeout")))
        ↔ ((is_sync_excluded stack ≡ true) × (codes "timeout" ≡ exclude_message)))
sync_device-failed_iff_example =
    sync_device-failed_iff run collect_none stack tables (codes "timeout")

-- the type of four units is found, and both members of the stack take its height
grown_test :
    (update_device_type results.inventory none tables.types stack db).1.racks
    ≡ record rack { occupied_units = 4 ∷ 5 ∷ 6 ∷ 7 ∷ 8 ∷ 9 ∷ 10 ∷ 11 ∷ 1 ∷ [] } ∷ []
unfolding update_device_type has_serial is_chassis is_skipped pid_of strip lower upper contains
    starts_with text_eq iexact save_device occupied
grown_test = refl

-- a tag excludes a device, whatever its case
excluded_test :
    sync_device run collect (record stack { tags = codes "No_Sync" ∷ [] }) tables
    ≡ (ok (skipped (codes "Device has tag 'no_sync'.")), tables)
unfolding sync_device iexact upper text_eq
excluded_test = refl

-- results that name one interface, on the same device
abbrev named : Results
named = record results {
  interfaces = record {
    desc_result =
        record {
          port = some (codes "Gi1/0/1");
          interface = none;
          description = some (codes "uplink");
        }
        ∷ [];
    status_result = [];
    ip_result = [];
    po_result = [];
  };
}

abbrev second_attempt : ℕ → Result Text Results
second_attempt zero = err (codes "timeout")
second_attempt (suc n) = ok named

abbrev one_name : Gathered
one_name = record {
  status_map = [];
  desc_map = (codes "Gi1/0/1", codes "uplink") ∷ [];
  lag_map = [];
  ips = no_ips;
}

gather_test : gather run.lib named.interfaces ≡ ok one_name
unfolding gather normalize_iface strip starts_with lower contains is_one_of text_eq is_space get put
gather_test = refl

ready : InterfacesReady run 1 named.interfaces tables.interfaces
unfolding add_names lacks_vlan
ready = (
  one_name,
  gather_test,
  unfold seen_names in refl,
  (tt, tt),
  unfold seen_names in (omega arith, tt),
  unfold seen_names get in (refl, tt),
)

not_excluded : is_sync_excluded stack ≡ false
unfolding is_sync_excluded
not_excluded = refl

not_nxos : is_nxos (platform_of stack.device_type) ≡ false
unfolding is_nxos platform_of
not_nxos = refl

fits : Fits 800000 (reported_uptime (codes "sw1") version)
fits = rw raw_uptime (omega arith)

sync_device_total_example :
    (t' : Tables) × (sync_device run second_attempt stack tables ≡ (ok success, t'))
    × Stored run stack named tables t'
sync_device_total_example =
    sync_device_total run stack named tables second_attempt not_excluded
      (inr ((codes "timeout", refl), refl)) not_nxos fits (All-of _ (λ b. omega arith) _) ready

-- a run that succeeds
succeeds :
    (t' : Tables) × (sync_device run second_attempt stack tables ≡ (ok success, t'))
    × Stored run stack named tables t'
succeeds =
    sync_device_total run stack named tables second_attempt not_excluded
      (inr ((codes "timeout", refl), refl)) not_nxos fits (All-of _ (λ b. omega arith) _) ready

sync_device-uptime_bounds_example :
    (0 < 777600) × (777600 ≤ 800000) × Reports 1 800000 777600 succeeds.0.runtimes
sync_device-uptime_bounds_example =
    sync_device-uptime_bounds run second_attempt stack tables named 777600 succeeds.0 not_excluded
      (inr ((codes "timeout", refl), refl)) raw_uptime succeeds.1
