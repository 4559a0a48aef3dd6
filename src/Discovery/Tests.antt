-- ===== src/Discovery/Tests.antt =====
-- Tests of the discovery, and the theorems on it at concrete tables.
use zas.Prelude.{
  not, is_some, if◌then◌else◌, ◌≡◌, refl, true, false, none, some, List, [], ◌∷◌, map, length,
  select,
}
use zas.Text.{
  Text, codes, text_eq, iexact, lower, upper, strip, rstrip_dots, split_on, contains, starts_with,
  ends_with,
}
use zas.Hostnames.{normalize_hostname}
use zas.Dcim.{Device, RuntimeStatus}
use zas.Rack.Sample.{router}
use zas.Discovery.{
  tcp, DiscoveryRange, DiscoveryFilter, DiscoveryCandidate, ScanResult, Service,
  hostname_passes_filters,
}
use zas.Discovery.Scan.{store_results, scan_range, same_address}
use zas.Discovery.Classification.{classify, verdict}
use zas.Discovery.Sightings.{view, replay, wanted, store_results-replay}
use zas.Discovery.Agreement.{is_yes, is_no, agreement, settled, awaits, classify_lem}
use zas.Discovery.Flags.{Kept, classify-Kept}

abbrev edge_filter : DiscoveryFilter
edge_filter = record {
  site = 3;
  hostname_contains = codes "sw, rtr";
  hostname_not_contains = codes "test";
  enabled = true;
  description = [];
}

-- a name that contains one of two required terms passes, though the model asks for all of them
one_term :
    (hostname_passes_filters (codes "SW1.b.de") (edge_filter ∷ []) ≡ true)
    × (hostname_passes_filters (codes "sw-test") (edge_filter ∷ []) ≡ false)
    × (hostname_passes_filters (codes "  ") (edge_filter ∷ []) ≡ false)
    × (hostname_passes_filters [] [] ≡ true)
unfolding hostname_passes_filters lower strip split_on contains starts_with
one_term = (refl, refl, refl, refl)

abbrev result : Text → Text → ScanResult
result ip name = record { ip = ip; alive = true; hostname = some name; method = tcp }

abbrev service : Service
service = record {
  site = 3;
  domain = some (codes "b.de");
  now = 100;
  filters = [];
  is_ip = λ s. false;
  hosts = λ s. some [];
  scan_icmp = λ ips. [];
  scan_tcp = λ ips port.
      result (codes "10.0.0.1") (codes "SW1") ∷ result (codes "10.0.0.2") (codes "sw2") ∷ [];
}

-- seen by an earlier run
abbrev candidate : DiscoveryCandidate
candidate = record {
  id = 1;
  site = 3;
  ip_address = codes "10.0.0.2";
  hostname = codes "old.b.de";
  alive = true;
  reachable_ssh = false;
  reachable_ping = true;
  last_seen = 50;
  classified = false;
  accepted = none;
}

abbrev scan_line : DiscoveryRange
scan_line = record {
  site = 3;
  cidr = codes "10.0.0.0/30";
  enabled = true;
  description = [];
  scan_method = tcp;
  scan_port = 22;
}

abbrev seen_rows : List DiscoveryCandidate
seen_rows =
    record candidate {
      hostname = codes "sw2.b.de";
      reachable_ssh = true;
      reachable_ping = false;
      last_seen = 100;
    }
    ∷ record candidate {
      id = 7;
      ip_address = codes "10.0.0.1";
      hostname = codes "sw1.b.de";
      reachable_ssh = true;
      reachable_ping = false;
      last_seen = 100;
    }
    ∷ []

scan_test : scan_range service 7 scan_line (candidate ∷ []) ≡ (2, seen_rows)
unfolding scan_range store_results same_address normalize_hostname lower strip rstrip_dots split_on
    contains starts_with ends_with text_eq hostname_passes_filters
scan_test = refl

store_results_example :
    (view 3
        (store_results service 7 (result (codes "10.0.0.1") (codes "SW1") ∷ []) (candidate ∷ [])).1
        (codes "10.0.0.1")
      ≡ replay service
          (result (codes "10.0.0.1") (codes "SW1") ∷ [])
          (view 3 (candidate ∷ []))
          (codes "10.0.0.1"))
    × ((store_results service 7 (result (codes "10.0.0.1") (codes "SW1") ∷ []) (candidate ∷ [])).0
        ≡ wanted service (result (codes "10.0.0.1") (codes "SW1") ∷ []))
store_results_example =
    store_results-replay service 7 (result (codes "10.0.0.1") (codes "SW1") ∷ []) (candidate ∷ [])
      (codes "10.0.0.1")

-- the device that is found at the first address under the same name
abbrev switch : Device
switch = record router {
  id = 9;
  name = codes "SW2.b.de";
  site = 3;
  management_ip = codes "10.0.0.2";
}

abbrev status : RuntimeStatus
status = record {
  device = 9;
  reachable_ping = true;
  reachable_snmp = false;
  reachable_ssh = false;
  reachable_netconf = false;
  last_check = some 50;
  uptime = none;
}

classify_test : classify 3 100 (switch ∷ []) seen_rows (status ∷ []) ≡ record {
  counts = record { exact_count = 1; mismatch_count = 0; new_count = 1 };
  rows =
      record candidate {
        hostname = codes "sw2.b.de";
        reachable_ssh = true;
        reachable_ping = false;
        last_seen = 100;
        classified = true;
        accepted = some true;
      }
      ∷ record candidate {
        id = 7;
        ip_address = codes "10.0.0.1";
        hostname = codes "sw1.b.de";
        reachable_ssh = true;
        reachable_ping = false;
        last_seen = 100;
      }
      ∷ [];
  statuses = record status { reachable_ssh = true; last_check = some 100 } ∷ [];
}
unfolding classify verdict text_eq iexact lower upper
classify_test = refl

classify_example :
    ((classify 3 100 (switch ∷ []) seen_rows (status ∷ [])).rows
      ≡ map (λ r. if awaits 3 100 r then settled 3 (switch ∷ []) r else r) seen_rows)
    × ((classify 3 100 (switch ∷ []) seen_rows (status ∷ [])).counts.exact_count
        ≡ length
            (select (λ r. is_yes (agreement 3 (switch ∷ []) r)) (select (awaits 3 100) seen_rows)))
    × ((classify 3 100 (switch ∷ []) seen_rows (status ∷ [])).counts.mismatch_count
        ≡ length
            (select (λ r. is_no (agreement 3 (switch ∷ []) r)) (select (awaits 3 100) seen_rows)))
    × ((classify 3 100 (switch ∷ []) seen_rows (status ∷ [])).counts.new_count
        ≡ length (
            select
              (λ r. not (is_some (agreement 3 (switch ∷ []) r)))
              (select (awaits 3 100) seen_rows)))
classify_example = classify_lem 3 100 (switch ∷ []) seen_rows (status ∷ []) ((refl, tt), (tt, tt))

classify-Kept_example :
    Kept 9 status (classify 3 100 (switch ∷ []) seen_rows (status ∷ [])).statuses
classify-Kept_example = classify-Kept 3 100 (switch ∷ []) seen_rows (status ∷ []) 9 status refl
