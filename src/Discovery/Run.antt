-- ===== src/Discovery/Run.antt =====
-- A run of the discovery: NetworkDiscoveryService.run and run_for_ranges
-- (network/services/discover_network.py).
use zas.Prelude.{ℕ, Option, List, length}
use zas.Text.{Text}
use zas.Dcim.{Device, RuntimeStatus}
use zas.Discovery.{DiscoveryRange, DiscoveryCandidate, Service, get_ranges}
use zas.Discovery.Scan.{scan_ranges}
use zas.Discovery.Classification.{Classified, classify}

pub record RunResult : Type 0 where
  pub ranges : ℕ
  pub alive : ℕ
  pub classified : Classified

-- run_for_ranges, and run with the ranges of _get_ranges
unfoldable pub run_for_ranges :
    Service
    → ℕ
    → List Device
    → List DiscoveryRange
    → List DiscoveryCandidate
    → List RuntimeStatus
    → RunResult
run_for_ranges s id devices ranges rows statuses =
    let scanned = scan_ranges s id ranges rows in
    record {
      ranges = length ranges;
      alive = scanned.0;
      classified = classify s.site s.now devices scanned.1 statuses;
    }

unfoldable pub run :
    Service
    → ℕ
    → List Device
    → Option Text
    → List DiscoveryRange
    → List DiscoveryCandidate
    → List RuntimeStatus
    → RunResult
unfolding run_for_ranges
run s id devices cidr_override ranges rows statuses =
    run_for_ranges s id devices (get_ranges s.site cidr_override ranges) rows statuses
