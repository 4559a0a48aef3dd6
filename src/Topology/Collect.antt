-- ===== src/Topology/Collect.antt =====
-- The collection of a device's neighbors and the deletion of old ones
-- (automation/tasks/topology_collector.py).
use zas.Prelude.{
  ℕ, ◌+◌, Bool, true, false, not, ◌&&◌, ◌||◌, Option, none, some, List, [], ◌∷◌, ◌==◌, ltb, length,
  if◌then◌else◌, is_empty, any, select, Result, ok, err,
}
use zas.Text.{Text, codes, lower, contains}
use zas.Topology.{
  Protocol, cdp, lldp, TopologyNeighbor, NeighborEntry, Collection, TopologyError, upsert_neighbor,
}
use zas.Topology.Local.{resolve_local_interface}

-- What a collection holds: the rows, `seen_neighbor_ids`, the number of the next turn, and whether an
-- exception was raised.
pub record Progress : Type 0 where
  pub rows : List TopologyNeighbor
  pub seen : List ℕ
  pub turn : ℕ
  pub raised : Bool

unfoldable pub after_upsert : Progress → Result TopologyError (ℕ × List TopologyNeighbor) → Progress
after_upsert p (err e) = record p { raised = true }
after_upsert p (ok found) = record p { rows = found.1; seen = found.0 ∷ p.seen; turn = p.turn + 1 }

-- one entry; an entry whose interface is not there is skipped, and none is read after an exception
unfoldable pub observe : Collection → NeighborEntry → Progress → Progress
unfolding resolve_local_interface upsert_neighbor after_upsert
observe c e p = elim (resolve_local_interface e.local_interface c.interfaces) [
  | none ↦ p
  | some i ↦ if p.raised then p else after_upsert p (upsert_neighbor c p.turn i e p.rows)
]

unfoldable pub observe_all : Collection → List NeighborEntry → Progress → Progress
unfolding observe
observe_all c [] p = p
observe_all c (e ∷ entries) p = observe_all c entries (observe c e p)

-- _is_invalid_output
unfoldable pub is_invalid_output : Text → Bool
is_invalid_output raw =
    is_empty raw
    || (contains (codes "% invalid") (lower raw) || contains (codes "invalid input") (lower raw))

-- the output of a command, or of the shorter one; none where the session raises
unfoldable pub raw_output : (Text → Option Text) → Text → Text → Option Text
unfolding is_invalid_output
raw_output run detail plain = elim (run detail) [
  | none ↦ none
  | some raw ↦ if is_invalid_output raw then run plain else some raw
]

-- the entries of an output that is available
unfoldable pub entries_of : (Text → List NeighborEntry) → Text → List NeighborEntry
unfolding is_invalid_output
entries_of parse raw = if is_invalid_output raw then [] else parse raw

-- whether the protocol is one of `protocols_to_cleanup`
unfoldable pub is_available : Text → Text → Protocol → Bool
unfolding is_invalid_output
is_available cdp_raw lldp_raw cdp = not (is_invalid_output cdp_raw)
is_available cdp_raw lldp_raw lldp = not (is_invalid_output lldp_raw)

unfoldable pub is_stale : ℕ → Text → Text → List ℕ → TopologyNeighbor → Bool
unfolding is_available
is_stale device cdp_raw lldp_raw seen r =
    r.device == device
    && (is_available cdp_raw lldp_raw r.protocol && not (any (λ i. i == r.id) seen))

-- the deletion at the end, and what is returned
unfoldable pub finished : Collection → Text → Text → Progress → Bool × List TopologyNeighbor
unfolding is_stale
finished c cdp_raw lldp_raw p =
    if p.raised
    then (false, p.rows)
    else (true, select (λ r. not (is_stale c.device cdp_raw lldp_raw p.seen r)) p.rows)

unfoldable pub started : List TopologyNeighbor → ℕ → Progress
started rows turn = record { rows = rows; seen = []; turn = turn; raised = false }

-- collect_neighbors_for_device, with the session and the two parsers as parameters; the keys of new
-- rows count up from `turn`
unfoldable pub collect_neighbors_for_device :
    Collection
    → (Text → Option Text)
    → (Text → List NeighborEntry)
    → (Text → List NeighborEntry)
    → ℕ
    → List TopologyNeighbor
    → Bool × List TopologyNeighbor
unfolding raw_output entries_of observe_all finished started
collect_neighbors_for_device c run parse_cdp parse_lldp turn rows =
    elim (raw_output run (codes "show cdp neighbors detail") (codes "show cdp neighbors")) [
      | none ↦ (false, rows)
      | some cdp_raw ↦
          elim (raw_output run (codes "show lldp neighbors detail") (codes "show lldp neighbors")) [
            | none ↦ (false, rows)
            | some lldp_raw ↦
                let after_cdp = observe_all c (entries_of parse_cdp cdp_raw) (started rows turn) in
                finished c cdp_raw lldp_raw
                  (observe_all c (entries_of parse_lldp lldp_raw) after_cdp)
          ]
    ]

-- cleanup_topology_neighbors: the number of rows that are deleted, and those that stay
unfoldable pub cleanup_topology_neighbors : ℕ → List TopologyNeighbor → ℕ × List TopologyNeighbor
cleanup_topology_neighbors cutoff rows = (
  length (select (λ r. ltb r.last_seen cutoff) rows),
  select (λ r. not (ltb r.last_seen cutoff)) rows,
)
