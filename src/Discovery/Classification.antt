-- ===== src/Discovery/Classification.antt =====
-- The classification of the candidates: NetworkDiscoveryService._classify
-- (network/services/discover_network.py).
use zas.Prelude.{
  ℕ, ◌+◌, Bool, true, false, not, ◌&&◌, ◌||◌, Option, none, some, List, [], ◌∷◌, map, ◌==◌,
  if◌then◌else◌, select, head?,
}
use zas.Text.{text_eq, iexact, lower}
use zas.Dcim.{Device, RuntimeStatus}
use zas.Discovery.{DiscoveryCandidate}

-- the two queries for devices
unfoldable pub device_by_ip : ℕ → DiscoveryCandidate → List Device → Option Device
device_by_ip site c devices =
    head? (select (λ d. d.site == site && text_eq d.management_ip c.ip_address) devices)

unfoldable pub device_by_name : ℕ → DiscoveryCandidate → List Device → Option Device
device_by_name site c devices =
    head? (select (λ d. d.site == site && iexact (lower c.hostname) d.name) devices)

pub data Verdict : Type 0 where
  exact : Device → Verdict
  mismatch : Verdict
  new : Verdict

unfoldable pub verdict_of : Option Device → Option Device → Verdict
verdict_of (some a) (some b) = if a.id == b.id then exact a else mismatch
verdict_of (some a) none = mismatch
verdict_of none (some b) = mismatch
verdict_of none none = new

-- the case of a candidate
unfoldable pub verdict : ℕ → List Device → DiscoveryCandidate → Verdict
unfolding device_by_ip device_by_name verdict_of
verdict site devices c = verdict_of (device_by_ip site c devices) (device_by_name site c devices)

-- `save(update_fields=["classified", "accepted"])` of the candidate
unfoldable pub mark : Verdict → DiscoveryCandidate → DiscoveryCandidate
mark (exact d) c = record c { classified = true; accepted = some true }
mark mismatch c = record c { classified = true; accepted = some false }
mark new c = record c { classified = false; accepted = none }

unfoldable pub save_mark : ℕ → Verdict → List DiscoveryCandidate → List DiscoveryCandidate
unfolding mark
save_mark id v rows = map (λ r. if r.id == id then mark v r else r) rows

unfoldable pub new_status : ℕ → RuntimeStatus
new_status device = record {
  device = device;
  reachable_ping = false;
  reachable_snmp = false;
  reachable_ssh = false;
  reachable_netconf = false;
  last_check = none;
  uptime = none;
}

unfoldable pub touched : DiscoveryCandidate → RuntimeStatus → RuntimeStatus
touched c st = record st {
  reachable_ping = st.reachable_ping || c.reachable_ping;
  reachable_ssh = st.reachable_ssh || c.reachable_ssh;
  last_check = some c.last_seen;
}

-- _update_runtime_status; a device has at most one row
unfoldable pub update_runtime_status :
    ℕ → DiscoveryCandidate → List RuntimeStatus → List RuntimeStatus
unfolding new_status touched
update_runtime_status device c [] = touched c (new_status device) ∷ []
update_runtime_status device c (st ∷ rows) =
    let rest = update_runtime_status device c rows in
    if st.device == device then touched c st ∷ rows else st ∷ rest

unfoldable pub touch_verdict :
    Verdict → DiscoveryCandidate → List RuntimeStatus → List RuntimeStatus
unfolding update_runtime_status
touch_verdict (exact d) c statuses = update_runtime_status d.id c statuses
touch_verdict mismatch c statuses = statuses
touch_verdict new c statuses = statuses

pub record Counts : Type 0 where
  pub exact_count : ℕ
  pub mismatch_count : ℕ
  pub new_count : ℕ

unfoldable pub count : Verdict → Counts → Counts
count (exact d) n = record n { exact_count = n.exact_count + 1 }
count mismatch n = record n { mismatch_count = n.mismatch_count + 1 }
count new n = record n { new_count = n.new_count + 1 }

pub record Classified : Type 0 where
  pub counts : Counts
  pub rows : List DiscoveryCandidate
  pub statuses : List RuntimeStatus

-- one turn of the loop of _classify
unfoldable pub classify_one : ℕ → List Device → DiscoveryCandidate → Classified → Classified
unfolding verdict save_mark touch_verdict count
classify_one site devices c s =
    let v = verdict site devices c in
    record {
      counts = count v s.counts;
      rows = save_mark c.id v s.rows;
      statuses = touch_verdict v c s.statuses;
    }

unfoldable pub classify_all : ℕ → List Device → List DiscoveryCandidate → Classified → Classified
unfolding classify_one
classify_all site devices [] s = s
classify_all site devices (c ∷ candidates) s =
    classify_all site devices candidates (classify_one site devices c s)

-- the candidates of a run: `filter(site=..., classified=False, last_seen=now)`
unfoldable pub is_pending : ℕ → ℕ → DiscoveryCandidate → Bool
is_pending site now c = c.site == site && (not c.classified && c.last_seen == now)

abbrev pub no_counts : Counts
no_counts = record { exact_count = 0; mismatch_count = 0; new_count = 0 }

-- _classify of the candidates that a run has stored
unfoldable pub classify :
    ℕ → ℕ → List Device → List DiscoveryCandidate → List RuntimeStatus → Classified
unfolding classify_all is_pending
classify site now devices rows statuses =
    classify_all site devices (select (is_pending site now) rows)
      (record { counts = no_counts; rows = rows; statuses = statuses })
