-- ===== src/Discovery.antt =====
-- The discovery of devices: network/models/discovery.py, network/services/discovery_filtering.py and
-- NetworkDiscoveryService (network/services/discover_network.py). The scanner and the parser of a
-- network are parameters.
pub mod Scan
pub mod Classification
pub mod Run
pub mod Sightings
pub mod Verdicts
pub mod Agreement
pub mod Flags
mod Tests
use zas.Prelude.{
  ℕ, ◌+◌, Bool, true, false, not, ◌&&◌, ◌||◌, Option, none, some, List, [], ◌∷◌, ◌++◌, map, ◌==◌,
  if◌then◌else◌, is_empty, any, select, length, or_else, head?,
}
use zas.Text.{Text, codes, text_eq, iexact, lower, strip, split_on, contains}
use zas.Dcim.{Device, RuntimeStatus}
use zas.Hostnames.{normalize_hostname}

pub data ScanMethod : Type 0 where
  tcp : ScanMethod
  icmp : ScanMethod

pub record DiscoveryRange : Type 0 where
  pub site : ℕ
  pub cidr : Text
  pub enabled : Bool
  pub description : Text
  pub scan_method : ScanMethod
  pub scan_port : ℕ

pub record DiscoveryFilter : Type 0 where
  pub site : ℕ
  pub hostname_contains : Text
  pub hostname_not_contains : Text
  pub enabled : Bool
  pub description : Text

pub record DiscoveryCandidate : Type 0 where
  pub id : ℕ
  pub site : ℕ
  pub ip_address : Text
  pub hostname : Text
  pub alive : Bool
  pub reachable_ssh : Bool
  pub reachable_ping : Bool
  pub last_seen : ℕ
  pub classified : Bool
  pub accepted : Option Bool

-- A result of the scanner.
pub record ScanResult : Type 0 where
  pub ip : Text
  pub alive : Bool
  pub hostname : Option Text
  pub method : ScanMethod

-- _split_terms
split_terms : Text → List Text
split_terms value =
    map (λ term. lower (strip term))
      (select (λ term. not (is_empty (strip term))) (split_on b',' value))

-- hostname_matches_filter
pub hostname_matches_filter : Text → DiscoveryFilter → Bool
unfolding split_terms
hostname_matches_filter hostname flt =
    let name = lower hostname in
    if not (is_empty flt.hostname_not_contains)
      && any (λ term. contains term name) (split_terms flt.hostname_not_contains)
    then false
    else if not (is_empty flt.hostname_contains)
    then any (λ term. contains term name) (split_terms flt.hostname_contains)
    else true

-- hostname_passes_filters
unfoldable pub hostname_passes_filters : Text → List DiscoveryFilter → Bool
unfolding hostname_matches_filter
hostname_passes_filters hostname filters =
    if is_empty filters
    then true
    else if is_empty (strip hostname)
    then false
    else any (hostname_matches_filter hostname) filters

-- What a service is made with: its site, the site's domain, the time, the filters, and the libraries:
-- ipaddress's `ip_address` and the hosts of `ip_network`, and the two scans.
pub record Service : Type 0 where
  pub site : ℕ
  pub domain : Option Text
  pub now : ℕ
  pub filters : List DiscoveryFilter
  pub is_ip : Text → Bool
  pub hosts : Text → Option (List Text)
  pub scan_icmp : List Text → List ScanResult
  pub scan_tcp : List Text → ℕ → List ScanResult

-- `filter(site=self.site, enabled=True)`
pub enabled_filters : ℕ → List DiscoveryFilter → List DiscoveryFilter
enabled_filters site filters = select (λ f. f.site == site && f.enabled) filters

-- _get_ranges
pub get_ranges : ℕ → Option Text → List DiscoveryRange → List DiscoveryRange
get_ranges site none ranges = select (λ r. r.site == site && r.enabled) ranges
get_ranges site (some []) ranges = select (λ r. r.site == site && r.enabled) ranges
get_ranges site (some (c ∷ cidr)) ranges =
    record {
      site = site;
      cidr = c ∷ cidr;
      enabled = true;
      description = [];
      scan_method = tcp;
      scan_port = 22;
    }
    ∷ []
