-- ===== src/Reachability.antt =====
-- ReachabilityEngine.measure (automation/engine/reachability_engine.py).
pub mod Fresh
pub mod Summary
mod Tests
use zas.Prelude.{
  ℕ, ◌+◌, ◌≡◌, Bool, true, false, not, ◌&&◌, Option, none, some, List, [], ◌∷◌, ◌++◌, ◌==◌,
  if◌then◌else◌, is_empty, all, length, Result, ok, err,
}
use zas.Text.{Text, codes}

-- What `measure` reads of a device.
pub record Host : Type 0 where
  pub device_id : ℕ
  pub hostname : Text
  pub management_ip : Option Text
  pub site : Option ℕ

pub record SnmpCredential : Type 0 where
  pub snmp_version : Text
  pub snmp_port : ℕ
  pub snmp_community : Text
  pub snmp_security_level : Option Text
  pub snmp_username : Option Text
  pub snmp_auth_protocol : Option Text
  pub snmp_auth_key : Option Text
  pub snmp_priv_protocol : Option Text
  pub snmp_priv_key : Option Text

-- The two first credentials of a site, and the probes of the network. The probe of SNMP is given the
-- address as it is; the others are made only with an address.
pub record World : Type 0 where
  pub snmp_of : ℕ → Option SnmpCredential
  pub ssh_port_of : ℕ → Option ℕ
  pub ping : Text → Bool
  pub snmp : Option Text → SnmpCredential → Bool
  pub ssh : Text → ℕ → Bool
  pub netconf : Text → Bool

pub record Checks : Type 0 where
  pub check_ping : Bool
  pub check_snmp : Bool
  pub check_ssh : Bool
  pub check_netconf : Bool

pub data Check : Type 0 where
  ping snmp ssh netconf : Check

-- `_build_snmp_config`: the credential with its defaults filled in
pub build_snmp_config : SnmpCredential → SnmpCredential
build_snmp_config c = record c {
  snmp_version = if is_empty c.snmp_version then codes "v2c" else c.snmp_version;
  snmp_port = if c.snmp_port == 0 then 161 else c.snmp_port;
  snmp_community = if is_empty c.snmp_community then codes "public" else c.snmp_community;
}

-- a probe that is false without an address
pub probe : (Text → Bool) → Option Text → Bool
probe p none = false
probe p (some host) = if is_empty host then false else p host

pub snmp_value : World → Option Text → Option SnmpCredential → Bool
unfolding build_snmp_config
snmp_value w ip none = false
snmp_value w ip (some c) = w.snmp ip (build_snmp_config c)

pub ssh_value : World → Option Text → Option ℕ → Bool
unfolding probe
ssh_value w ip none = probe (λ host. w.ssh host 22) ip
ssh_value w ip (some port) = probe (λ host. w.ssh host port) ip

-- A cache of the credentials by site; a site without one is cached too.
abbrev pub Cache : Type 0 → Type 0
Cache C = List (ℕ × Option C)

pub in_cache : {C : Type 0} → ℕ → Cache C → Option (Option C)
in_cache site [] = none
in_cache site ((k, c) ∷ cache) = if k == site then some c else in_cache site cache

-- what the cache gives, or the query, whose answer is put into the cache
pub cached : {C : Type 0} → (ℕ → Option C) → Option ℕ → Cache C → Option C × Cache C
unfolding in_cache
cached query none cache = (none, cache)
cached query (some site) cache = elim (in_cache site cache) [
  | some c ↦ (c, cache)
  | none ↦ (query site, (site, query site) ∷ cache)
]

pub record Caches : Type 0 where
  pub snmp_cache : Cache SnmpCredential
  pub ssh_cache : Cache ℕ

-- a check that is switched on adds its status
pub add_status : Bool → Check → Bool → List (Check × Bool)
add_status on check value = if on then (check, value) ∷ [] else []

pub statuses : World → Checks → Host → Option SnmpCredential → Option ℕ → List (Check × Bool)
unfolding add_status probe snmp_value ssh_value
statuses w on h snmp_creds port =
    add_status on.check_ping ping (probe w.ping h.management_ip)
    ++ (add_status on.check_snmp snmp (snmp_value w h.management_ip snmp_creds)
        ++ (add_status on.check_ssh ssh (ssh_value w h.management_ip port)
            ++ add_status on.check_netconf netconf (probe w.netconf h.management_ip)))

pub record HostResult : Type 0 where
  pub host : Host
  pub statuses : List (Check × Bool)

-- `if on` for a lookup that only a check that is on makes
pub lookup_if : {C : Type 0} → Bool → (ℕ → Option C) → Option ℕ → Cache C → Option C × Cache C
unfolding cached
lookup_if true query site cache = cached query site cache
lookup_if false query site cache = (none, cache)

pub measure_one : World → Checks → Host → Caches → HostResult × Caches
unfolding lookup_if statuses
measure_one w on h caches =
    let (snmp_creds, snmp_cache) = lookup_if on.check_snmp w.snmp_of h.site caches.snmp_cache in
    let (port, ssh_cache) = lookup_if on.check_ssh w.ssh_port_of h.site caches.ssh_cache in
    (
      record { host = h; statuses = statuses w on h snmp_creds port },
      record { snmp_cache = snmp_cache; ssh_cache = ssh_cache },
    )

pub record Totals : Type 0 where
  pub total : ℕ
  pub reachable : ℕ
  pub unreachable : ℕ

pub is_reachable : HostResult → Bool
is_reachable r = not (is_empty r.statuses) && all (λ s. s.1) r.statuses

-- sum(1 for r in results if ...)
pub count_if : (HostResult → Bool) → List HostResult → ℕ
count_if p [] = 0
count_if p (r ∷ results) = (if p r then 1 else 0) + count_if p results

pub totals : List HostResult → Totals
unfolding is_reachable count_if
totals results = record {
  total = length results;
  reachable = count_if is_reachable results;
  unreachable = count_if (λ r. not (is_reachable r)) results;
}

-- the loop, which writes the summary anew in each turn
pub measure_all :
    World
    → Checks
    → List Host
    → Caches
    → List HostResult
    → Option Totals
    → List HostResult × Option Totals
unfolding measure_one totals
measure_all w on [] caches results summary = (results, summary)
measure_all w on (h ∷ hosts) caches results summary =
    let (result, caches') = measure_one w on h caches in
    let results' = results ++ result ∷ [] in
    measure_all w on hosts caches' results' (some (totals results'))

-- The UnboundLocalError of a summary that no turn has written.
pub data MeasureError : Type 0 where
  unbound_summary : MeasureError

pub answer : List HostResult × Option Totals → Result MeasureError (Totals × List HostResult)
answer (results, none) = err unbound_summary
answer (results, some summary) = ok (summary, results)

-- ReachabilityEngine.measure
unfoldable pub measure : World → Checks → List Host → Result MeasureError (Totals × List HostResult)
unfolding measure_all answer
measure w on hosts =
    answer (measure_all w on hosts (record { snmp_cache = []; ssh_cache = [] }) [] none)
