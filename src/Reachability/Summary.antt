-- ===== src/Reachability/Summary.antt =====
-- What a measurement returns: one result for each device, and their counts.
use zas.Prelude.{
  ◌+◌, ◌≡◌, ◌⊎◌, inl, inr, refl, ap, ◌∙◌, not, Option, none, some, List, [], ◌∷◌, ◌++◌, map, arith,
  length, Bool-cases, ok, err,
}
use mathlib.Core.List.{append-nil, append_assoc}
use zas.Reachability.{
  Host, World, Checks, Caches, HostResult, Totals, statuses, measure_one, is_reachable, count_if,
  totals, measure_all, answer, unbound_summary, measure,
}
use zas.Reachability.Fresh.{IsFresh, direct_if, lookup_if-direct}

-- the result of a device, with the credentials looked up for it alone
pub direct_result : World → Checks → Host → HostResult
direct_result w on h = record {
  host = h;
  statuses =
      statuses w on h (direct_if w.snmp_of on.check_snmp h.site)
        (direct_if w.ssh_port_of on.check_ssh h.site);
}

-- both caches hold what the queries answer
abbrev AreFresh : World → Caches → Type 0
AreFresh w caches = IsFresh w.snmp_of caches.snmp_cache × IsFresh w.ssh_port_of caches.ssh_cache

module _ (w : World) (on : Checks) where
  measure_one-direct :
      (h : Host) (caches : Caches)
      → AreFresh w caches
      → ((measure_one w on h caches).0 ≡ direct_result w on h)
        × AreFresh w (measure_one w on h caches).1
  unfolding measure_one direct_result
  measure_one-direct h caches fresh =
      let snmp = lookup_if-direct w.snmp_of on.check_snmp h.site caches.snmp_cache fresh.0 in
      let ssh = lookup_if-direct w.ssh_port_of on.check_ssh h.site caches.ssh_cache fresh.1 in
      (rw (snmp.0, ssh.0) refl, (snmp.1, ssh.1))

  step :
      (h : Host) (hosts : List Host) (caches : Caches) (results : List HostResult)
      (summary : Option Totals)
      → measure_all w on (h ∷ hosts) caches results summary
        ≡ measure_all w on hosts
            (measure_one w on h caches).1
            (results ++ (measure_one w on h caches).0 ∷ [])
            (some (totals (results ++ (measure_one w on h caches).0 ∷ [])))
  unfolding measure_all
  step h hosts caches results summary = refl

  all_measured :
      (hosts : List Host) (caches : Caches) (results : List HostResult)
      → AreFresh w caches
      → measure_all w on hosts caches results (some (totals results)) ≡ (
        results ++ map (direct_result w on) hosts,
        some (totals (results ++ map (direct_result w on) hosts)),
      )
  all_measured [] caches results fresh = unfold measure_all in rw (append-nil results) refl
  all_measured (h ∷ hosts) caches results fresh =
      let (own, next) = measure_one-direct h caches fresh in
      let r = (measure_one w on h caches).0 in
      let rest = all_measured hosts (measure_one w on h caches).1 (results ++ r ∷ []) next in
      step h hosts caches results (some (totals results))
      ∙ rest
      ∙ ap (λ l. (l, some (totals l)))
          (append_assoc results (r ∷ []) (map (direct_result w on) hosts)
            ∙ ap (λ x. results ++ x ∷ map (direct_result w on) hosts) own)

measured :
    (w : World) (on : Checks) (h : Host) (hosts : List Host)
    → measure w on (h ∷ hosts)
      ≡ ok (totals (map (direct_result w on) (h ∷ hosts)), map (direct_result w on) (h ∷ hosts))
unfolding measure answer
measured w on h hosts =
    let empty : Caches = record { snmp_cache = []; ssh_cache = [] } in
    let (own, next) = measure_one-direct w on h empty (tt, tt) in
    let r = (measure_one w on h empty).0 in
    let rest = all_measured w on hosts (measure_one w on h empty).1 (r ∷ []) next in
    ap answer (
      step w on h hosts empty [] none
      ∙ rest
      ∙ ap
          (λ x. (
            x ∷ map (direct_result w on) hosts,
            some (totals (x ∷ map (direct_result w on) hosts)),
          ))
          own)

count_both :
    (results : List HostResult)
    → count_if is_reachable results + count_if (λ r. not (is_reachable r)) results ≡ length results
unfolding count_if
count_both [] = omega arith
count_both (r ∷ results) =
    let ih = count_both results in
    elim (Bool-cases (is_reachable r)) [ inl e ↦ rw e (omega arith) | inr e ↦ rw e (omega arith) ]

-- the counts of a summary
abbrev pub IsCount : Totals → List HostResult → Type 0
IsCount t results =
    (t.total ≡ length results)
    × (t.reachable ≡ count_if is_reachable results)
    × (t.reachable + t.unreachable ≡ t.total)

totals-IsCount : (results : List HostResult) → IsCount (totals results) results
unfolding totals
totals-IsCount results = (refl, refl, count_both results)

-- A measurement of no device ends in the error of the unbound summary. Of any others it returns one
-- result for each device, in their order, with the statuses that its own site's credentials give, as
-- if there were no caches; the total is the number of devices, the reachable ones are those with a
-- status and no false one, and all others are unreachable.
pub measure_lem :
    (w : World) (on : Checks) (hosts : List Host)
    → ((hosts ≡ []) × (measure w on hosts ≡ err unbound_summary))
      ⊎ ((t : Totals) × (measure w on hosts ≡ ok (t, map (direct_result w on) hosts))
          × IsCount t (map (direct_result w on) hosts))
measure_lem w on [] = inl (refl, unfold measure in refl)
measure_lem w on (h ∷ hosts) =
    let results = map (direct_result w on) (h ∷ hosts) in
    inr (totals results, measured w on h hosts, totals-IsCount results)
