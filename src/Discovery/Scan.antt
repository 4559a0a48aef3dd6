-- ===== src/Discovery/Scan.antt =====
-- The scan of the ranges: NetworkDiscoveryService._scan_range (network/services/discover_network.py).
use zas.Prelude.{
  ℕ, ◌+◌, Bool, true, false, not, ◌&&◌, ◌||◌, none, some, List, [], ◌∷◌, ◌==◌, if◌then◌else◌,
  or_else,
}
use zas.Text.{Text, text_eq}
use zas.Hostnames.{normalize_hostname}
use zas.Discovery.{
  ScanMethod, tcp, icmp, DiscoveryRange, DiscoveryCandidate, ScanResult, Service,
  hostname_passes_filters,
}

unfoldable pub is_icmp : ScanMethod → Bool
is_icmp icmp = true
is_icmp tcp = false

-- the defaults of the `update_or_create`
unfoldable pub seen_now : Service → ScanResult → Text → DiscoveryCandidate → DiscoveryCandidate
unfolding is_icmp
seen_now s r hostname c = record c {
  hostname = hostname;
  alive = true;
  reachable_ping = is_icmp r.method;
  reachable_ssh = not (is_icmp r.method);
  last_seen = s.now;
}

unfoldable pub same_address : ℕ → Text → DiscoveryCandidate → Bool
same_address site ip c = c.site == site && text_eq c.ip_address ip

unfoldable pub new_candidate : ℕ → ℕ → Text → DiscoveryCandidate
new_candidate id site ip = record {
  id = id;
  site = site;
  ip_address = ip;
  hostname = [];
  alive = false;
  reachable_ssh = false;
  reachable_ping = false;
  last_seen = 0;
  classified = false;
  accepted = none;
}

-- `update_or_create(site=..., ip_address=...)`; the table has at most one row with both
unfoldable pub store :
    ℕ
    → ℕ
    → Text
    → (DiscoveryCandidate → DiscoveryCandidate)
    → List DiscoveryCandidate
    → List DiscoveryCandidate
unfolding new_candidate
store id site ip f [] = f (new_candidate id site ip) ∷ []
store id site ip f (c ∷ rows) =
    let rest = store id site ip f rows in if same_address site ip c then f c ∷ rows else c ∷ rest

-- the tests of a result: it is alive, and its name, as it came or normalised, passes the filters
unfoldable pub is_wanted : Service → ScanResult → Bool
is_wanted s r =
    let raw = or_else r.hostname [] in
    r.alive
    && (hostname_passes_filters raw s.filters
        || hostname_passes_filters (normalize_hostname s.is_ip s.domain (some raw)) s.filters)

unfoldable pub store_result :
    Service → ℕ → ScanResult → List DiscoveryCandidate → List DiscoveryCandidate
unfolding store seen_now
store_result s id r rows =
    store id s.site r.ip
      (seen_now s r (normalize_hostname s.is_ip s.domain (some (or_else r.hostname [])))) rows

-- the loop over the results: the number of those that are stored, and the table
unfoldable pub store_results :
    Service → ℕ → List ScanResult → List DiscoveryCandidate → ℕ × List DiscoveryCandidate
unfolding store_result is_wanted
store_results s id [] rows = (0, rows)
store_results s id (r ∷ results) rows =
    let stored = store_results s (id + 1) results (store_result s id r rows) in
    let skipped = store_results s id results rows in
    if is_wanted s r then (1 + stored.0, stored.1) else skipped

pub scan_results : Service → DiscoveryRange → List Text → List ScanResult
unfolding is_icmp
scan_results s dr ips =
    if is_icmp dr.scan_method then s.scan_icmp ips else s.scan_tcp ips dr.scan_port

-- _scan_range; the keys of new rows count up from `id`
unfoldable pub scan_range :
    Service → ℕ → DiscoveryRange → List DiscoveryCandidate → ℕ × List DiscoveryCandidate
unfolding store_results scan_results
scan_range s id dr rows = elim (s.hosts dr.cidr) [
  | none ↦ (0, rows)
  | some ips ↦ store_results s id (scan_results s dr ips) rows
]

-- the loop over the ranges
pub scan_ranges :
    Service → ℕ → List DiscoveryRange → List DiscoveryCandidate → ℕ × List DiscoveryCandidate
unfolding scan_range
scan_ranges s id [] rows = (0, rows)
scan_ranges s id (dr ∷ ranges) rows =
    let scanned = scan_range s id dr rows in
    let rest = scan_ranges s (id + scanned.0) ranges scanned.1 in (scanned.0 + rest.0, rest.1)
