-- ===== src/Reachability/Tests.antt =====
-- A measurement of two hosts of one site, and the theorem on it.
use zas.Prelude.{◌≡◌, ◌⊎◌, refl, true, false, none, some, List, [], ◌∷◌, ◌==◌, map, ok, err}
use zas.Text.{codes}
use zas.Reachability.{
  Host, World, Checks, Totals, HostResult, ping, ssh, unbound_summary, measure, totals, statuses,
}
use zas.Reachability.Summary.{direct_result, IsCount, measure_lem}

abbrev sw1 : Host
sw1 = record {
  device_id = 1;
  hostname = codes "sw1";
  management_ip = some (codes "10.0.0.1");
  site = some 4;
}

abbrev sw2 : Host
sw2 = record sw1 { device_id = 2; hostname = codes "sw2"; management_ip = none }

-- the site has no SNMP credential and another SSH port, and every host answers
abbrev world : World
world = record {
  snmp_of = λ _. none;
  ssh_port_of = λ _. some 2222;
  ping = λ _. true;
  snmp = λ _ _. true;
  ssh = λ _ port. port == 2222;
  netconf = λ _. false;
}

abbrev checks : Checks
checks = record { check_ping = true; check_snmp = false; check_ssh = true; check_netconf = false }

abbrev results : List HostResult
results =
    record { host = sw1; statuses = (ping, true) ∷ (ssh, true) ∷ [] }
    ∷ record { host = sw2; statuses = (ping, false) ∷ (ssh, false) ∷ [] }
    ∷ []

measure_test :
    measure world checks (sw1 ∷ sw2 ∷ [])
    ≡ ok (record { total = 2; reachable = 1; unreachable = 1 }, results)
unfolding measure totals statuses
measure_test = refl

measure_example :
    ((sw1 ∷ sw2 ∷ [] ≡ []) × (measure world checks (sw1 ∷ sw2 ∷ []) ≡ err unbound_summary))
    ⊎ ((t : Totals) × (measure world checks (sw1 ∷ sw2 ∷ [])
          ≡ ok (t, map (direct_result world checks) (sw1 ∷ sw2 ∷ [])))
        × IsCount t (map (direct_result world checks) (sw1 ∷ sw2 ∷ [])))
measure_example = measure_lem world checks (sw1 ∷ sw2 ∷ [])
