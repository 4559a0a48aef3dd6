-- ===== src/Topology/Frame.antt =====
-- A collection of neighbors leaves the rows of other devices as they are.
use zas.Prelude.{
  ℕ, ◌≡◌, refl, ap, ◌∙◌, Bool, true, false, not, Option, none, some, List, [], ◌∷◌, arith,
  Bool-cases, inl, inr, ◌==◌, select, map, Result, ok, err, is_empty, if◌then◌else◌, Option-cases,
}
use zas.Text.{Text, codes}
use zas.Hostnames.{normalize_hostname}
use zas.Topology.{
  TopologyNeighbor, NeighborEntry, Collection, TopologyError, observation, same_neighbor, refreshed,
  update_or_create, upsert_neighbor,
}
use zas.Topology.Local.{resolve_local_interface}
use zas.Topology.Collect.{
  Progress, after_upsert, observe, observe_all, is_stale, finished, started, raw_output, entries_of,
  collect_neighbors_for_device,
}

-- the rows of the other devices, in the order of the table
abbrev pub others : ℕ → List TopologyNeighbor → List TopologyNeighbor
others device rows = select (λ r. not (r.device == device)) rows

refreshed-device : (o r : TopologyNeighbor) → (refreshed o r).device ≡ r.device
unfolding refreshed
refreshed-device o r = elim (Bool-cases (same_neighbor o r)) [
  | inl e ↦ rw e refl
  | inr e ↦ rw e refl
]

refreshed_other : (o r : TopologyNeighbor) → (r.device == o.device) ≡ false → refreshed o r ≡ r
unfolding refreshed same_neighbor
refreshed_other o r h = rw h refl

others-refreshed :
    (o : TopologyNeighbor) (rows : List TopologyNeighbor)
    → others o.device (map (refreshed o) rows) ≡ others o.device rows
others-refreshed o [] = refl
others-refreshed o (r ∷ rows) = elim (Bool-cases (r.device == o.device)) [
  | inl e ↦ rw (refreshed-device o r, e) (others-refreshed o rows)
  | inr e ↦ rw (refreshed_other o r e, e) (ap (λ l. r ∷ l) (others-refreshed o rows))
]

update_or_create-others :
    (o : TopologyNeighbor) (found rows : List TopologyNeighbor) (id : ℕ)
    (rows' : List TopologyNeighbor)
    → update_or_create o found rows ≡ ok (id, rows')
    → others o.device rows' ≡ others o.device rows
unfolding update_or_create
update_or_create-others o [] rows id rows' h =
    let e : o ∷ rows ≡ rows' = cc h in
    let own : (o.device == o.device) ≡ true = ground arith in rw (← e) (rw own refl)
update_or_create-others o (r ∷ []) rows id rows' h =
    let e : map (refreshed o) rows ≡ rows' = cc h in rw (← e) (others-refreshed o rows)
update_or_create-others o (r ∷ s ∷ found) rows id rows' h = cc h

-- the row of a turn has the device
upsert_neighbor-others :
    (c : Collection) (turn i : ℕ) (e : NeighborEntry) (rows : List TopologyNeighbor) (id : ℕ)
    (rows' : List TopologyNeighbor)
    → upsert_neighbor c turn i e rows ≡ ok (id, rows')
    → others c.device rows' ≡ others c.device rows
unfolding upsert_neighbor observation
upsert_neighbor-others c turn i e rows id rows' h =
    let name = normalize_hostname c.is_ip c.site_domain (some e.neighbor_name) in
    let o = observation c turn i name e in
    elim (Bool-cases (is_empty name)) [
      | inl none_there ↦ cc (rw none_there at h)
      | inr there ↦
          update_or_create-others o (select (same_neighbor o) rows) rows id rows' (rw there at h)
    ]

after_upsert-others :
    (c : Collection) (p : Progress) (i : ℕ) (e : NeighborEntry)
    (r : Result TopologyError (ℕ × List TopologyNeighbor))
    → upsert_neighbor c p.turn i e p.rows ≡ r
    → others c.device (after_upsert p r).rows ≡ others c.device p.rows
unfolding after_upsert
after_upsert-others c p i e (err x) h = refl
after_upsert-others c p i e (ok (id, rows')) h =
    upsert_neighbor-others c p.turn i e p.rows id rows' h

pub observe-none :
    (c : Collection) (e : NeighborEntry) (p : Progress)
    → resolve_local_interface e.local_interface c.interfaces ≡ none
    → observe c e p ≡ p
unfolding observe
observe-none c e p h = rw (h, observe) refl

observe-some :
    (c : Collection) (e : NeighborEntry) (p : Progress) (i : ℕ)
    → resolve_local_interface e.local_interface c.interfaces ≡ some i
    → observe c e p ≡ (if p.raised then p else after_upsert p (upsert_neighbor c p.turn i e p.rows))
unfolding observe
observe-some c e p i h = rw (h, observe) refl

pub observe-upserted :
    (c : Collection) (e : NeighborEntry) (p : Progress) (i : ℕ)
    → resolve_local_interface e.local_interface c.interfaces ≡ some i
    → p.raised ≡ false
    → observe c e p ≡ after_upsert p (upsert_neighbor c p.turn i e p.rows)
observe-upserted c e p i h k =
    observe-some c e p i h
    ∙ ap (λ b. if b then p else after_upsert p (upsert_neighbor c p.turn i e p.rows)) k

observe-others :
    (c : Collection) (e : NeighborEntry) (p : Progress)
    → others c.device (observe c e p).rows ≡ others c.device p.rows
observe-others c e p =
    elim (Option-cases (resolve_local_interface e.local_interface c.interfaces)) [
      | inl h ↦ rw (observe-none c e p h) refl
      | inr (i, h) ↦ elim (Bool-cases p.raised) [
        | inl k ↦ rw (observe-some c e p i h, k) refl
        | inr k ↦
            rw (observe-upserted c e p i h k)
              (after_upsert-others c p i e (upsert_neighbor c p.turn i e p.rows) refl)
      ]
    ]

observe_all-others :
    (c : Collection) (entries : List NeighborEntry) (p : Progress)
    → others c.device (observe_all c entries p).rows ≡ others c.device p.rows
unfolding observe_all
observe_all-others c [] p = refl
observe_all-others c (e ∷ entries) p =
    observe_all-others c entries (observe c e p) ∙ observe-others c e p

select-kept :
    (p q : TopologyNeighbor → Bool) (rows : List TopologyNeighbor)
    → ((r : TopologyNeighbor) → p r ≡ true → q r ≡ true)
    → select p (select q rows) ≡ select p rows
select-kept p q [] h = refl
select-kept p q (r ∷ rows) h = elim (Bool-cases (p r)) [
  | inl e ↦ rw (h r e, e) (ap (λ l. r ∷ l) (select-kept p q rows h))
  | inr e ↦ elim (Bool-cases (q r)) [
    | inl k ↦ rw (k, e) (select-kept p q rows h)
    | inr k ↦ rw (k, e) (select-kept p q rows h)
  ]
]

kept_other :
    (device : ℕ) (cdp_raw lldp_raw : Text) (seen : List ℕ) (r : TopologyNeighbor)
    → not (r.device == device) ≡ true
    → not (is_stale device cdp_raw lldp_raw seen r) ≡ true
unfolding is_stale
kept_other device cdp_raw lldp_raw seen r h = ground arith

finished-others :
    (c : Collection) (cdp_raw lldp_raw : Text) (p : Progress)
    → others c.device (finished c cdp_raw lldp_raw p).1 ≡ others c.device p.rows
unfolding finished
finished-others c cdp_raw lldp_raw p = elim (Bool-cases p.raised) [
  | inl e ↦ rw e refl
  | inr e ↦ rw e (
      select-kept (λ r. not (r.device == c.device))
        (λ r. not (is_stale c.device cdp_raw lldp_raw p.seen r)) p.rows
        (kept_other c.device cdp_raw lldp_raw p.seen))
]

-- the entries of both outputs, in turn
abbrev pub observed :
    Collection
    → (Text → List NeighborEntry)
    → (Text → List NeighborEntry)
    → Text
    → Text
    → Progress
    → Progress
observed c parse_cdp parse_lldp cdp_raw lldp_raw p =
    observe_all c (entries_of parse_lldp lldp_raw) (observe_all c (entries_of parse_cdp cdp_raw) p)

-- the output that a collection reads for either protocol
abbrev pub cdp_output : (Text → Option Text) → Option Text
cdp_output run = raw_output run (codes "show cdp neighbors detail") (codes "show cdp neighbors")

abbrev pub lldp_output : (Text → Option Text) → Option Text
lldp_output run = raw_output run (codes "show lldp neighbors detail") (codes "show lldp neighbors")

module _ (c : Collection) (run : Text → Option Text)
    (parse_cdp parse_lldp : Text → List NeighborEntry) (turn : ℕ)
    (rows : List TopologyNeighbor) where
  abbrev pub collected : Bool × List TopologyNeighbor
  collected = collect_neighbors_for_device c run parse_cdp parse_lldp turn rows

  -- a session that raises stores nothing
  no_cdp : cdp_output run ≡ none → collected ≡ (false, rows)
  unfolding collect_neighbors_for_device
  no_cdp h = rw (h, collect_neighbors_for_device) refl

  no_lldp :
      (a : Text) → cdp_output run ≡ some a → lldp_output run ≡ none → collected ≡ (false, rows)
  unfolding collect_neighbors_for_device
  no_lldp a h k = rw (h, k, collect_neighbors_for_device) refl

  pub both_outputs :
      (a b : Text)
      → cdp_output run ≡ some a
      → lldp_output run ≡ some b
      → collected ≡ finished c a b (observed c parse_cdp parse_lldp a b (started rows turn))
  unfolding collect_neighbors_for_device
  both_outputs a b h k = rw (h, k, collect_neighbors_for_device) refl

  observed-others :
      (a b : Text)
      → others c.device (finished c a b (observed c parse_cdp parse_lldp a b (started rows turn))).1
        ≡ others c.device rows
  unfolding started
  observed-others a b =
      let first = observe_all c (entries_of parse_cdp a) (started rows turn) in
      finished-others c a b (observed c parse_cdp parse_lldp a b (started rows turn))
      ∙ observe_all-others c (entries_of parse_lldp b) first
      ∙ observe_all-others c (entries_of parse_cdp a) (started rows turn)

  -- A collection of the neighbors of a device leaves the neighbors of every other device as they are
  -- and in their order, whether it succeeds, the session raises, or an entry raises between two others.
  pub collect_neighbors-others : others c.device collected.1 ≡ others c.device rows
  collect_neighbors-others = elim (Option-cases (cdp_output run)) [
    | inl h ↦ rw (no_cdp h) refl
    | inr (a, h) ↦ elim (Option-cases (lldp_output run)) [
      | inl k ↦ rw (no_lldp a h k) refl
      | inr (b, k) ↦ rw (both_outputs a b h k) (observed-others a b)
    ]
  ]
