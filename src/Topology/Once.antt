-- ===== src/Topology/Once.antt =====
-- A collection keeps at most one row for each neighbor.
use zas.Prelude.{
  ℕ, ◌≤◌, ◌≡◌, refl, ap, ◌∙◌, true, false, not, Option, some, List, [], ◌∷◌, arith, All, Bool-cases,
  inl, inr, select, map, ok, is_empty, length, select-le_one, Option-cases,
}
use zas.Text.{Text, text_eq_iff}
use zas.Hostnames.{normalize_hostname}
use zas.Topology.{
  Protocol, cdp, lldp, TopologyNeighbor, NeighborEntry, Collection, same_protocol, observation,
  same_neighbor, refreshed, update_or_create, upsert_neighbor,
}
use zas.Topology.Local.{resolve_local_interface}
use zas.Topology.Collect.{
  Progress, after_upsert, observe, observe_all, is_stale, finished, started, entries_of,
  collect_neighbors_for_device,
}
use zas.Topology.Frame.{
  observe-none, observe-upserted, observed, cdp_output, lldp_output, both_outputs,
}

-- at most one row has the key of the given one: device, interface, protocol, name and interface there
abbrev pub NeighborsOnce : List TopologyNeighbor → Type 0
NeighborsOnce rows = (o : TopologyNeighbor) → length (select (same_neighbor o) rows) ≤ 1

touched_row :
    (o k r : TopologyNeighbor)
    → same_neighbor k (record r {
      neighbor_device = o.neighbor_device;
      platform = o.platform;
      capabilities = o.capabilities;
      last_seen = o.last_seen;
    })
      ≡ same_neighbor k r
unfolding same_neighbor
touched_row o k r = refl

same_neighbor-refreshed :
    (o k r : TopologyNeighbor) → same_neighbor k (refreshed o r) ≡ same_neighbor k r
unfolding refreshed
same_neighbor-refreshed o k r = elim (Bool-cases (same_neighbor o r)) [
  | inl e ↦ rw e (touched_row o k r)
  | inr e ↦ rw e refl
]

count-refreshed :
    (o k : TopologyNeighbor) (rows : List TopologyNeighbor)
    → length (select (same_neighbor k) (map (refreshed o) rows))
      ≡ length (select (same_neighbor k) rows)
count-refreshed o k [] = refl
count-refreshed o k (r ∷ rows) = elim (Bool-cases (same_neighbor k r)) [
  | inl e ↦
      let ih = count-refreshed o k rows in rw (same_neighbor-refreshed o k r, e) (omega (arith, ih))
  | inr e ↦ rw (same_neighbor-refreshed o k r, e) (count-refreshed o k rows)
]

same_protocol_lem : (p q : Protocol) → same_protocol p q ≡ true → p ≡ q
unfolding same_protocol
same_protocol_lem cdp cdp h = refl
same_protocol_lem cdp lldp h = cc h
same_protocol_lem lldp cdp h = cc h
same_protocol_lem lldp lldp h = refl

-- rows with one key have the same rows beside them
same_key :
    (o k r : TopologyNeighbor) → same_neighbor k o ≡ true → same_neighbor k r ≡ same_neighbor o r
unfolding same_neighbor
same_key o k r h =
    let d : o.device ≡ k.device = ground (arith, h) in
    let i : o.local_interface ≡ k.local_interface = ground (arith, h) in
    let p : o.protocol ≡ k.protocol = same_protocol_lem o.protocol k.protocol (ground (arith, h)) in
    let n : o.neighbor_name ≡ k.neighbor_name =
      (text_eq_iff o.neighbor_name k.neighbor_name).0 (ground (arith, h)) in
    let there : o.neighbor_interface ≡ k.neighbor_interface =
      (text_eq_iff o.neighbor_interface k.neighbor_interface).0 (ground (arith, h)) in
    rw (d, i, p, n, there) refl

select_same :
    (k o : TopologyNeighbor) (rows : List TopologyNeighbor)
    → same_neighbor k o ≡ true
    → select (same_neighbor k) rows ≡ select (same_neighbor o) rows
select_same k o [] h = refl
select_same k o (r ∷ rows) h = elim (Bool-cases (same_neighbor o r)) [
  | inl e ↦ rw (same_key o k r h, e) (ap (λ l. r ∷ l) (select_same k o rows h))
  | inr e ↦ rw (same_key o k r h, e) (select_same k o rows h)
]

update_or_create-NeighborsOnce :
    (o : TopologyNeighbor) (rows found : List TopologyNeighbor)
    → NeighborsOnce rows
    → select (same_neighbor o) rows ≡ found
    → (id : ℕ) × (rows' : List TopologyNeighbor) × (update_or_create o found rows ≡ ok (id, rows'))
      × NeighborsOnce rows'
unfolding update_or_create
update_or_create-NeighborsOnce o rows [] once e = (
  o.id,
  o ∷ rows,
  refl,
  λ k. elim (Bool-cases (same_neighbor k o)) [
    | inl h ↦
        let zero : length (select (same_neighbor k) rows) ≡ 0 =
          ap length (select_same k o rows h ∙ e) in
        rw h (omega (arith, zero))
    | inr h ↦ rw h (once k)
  ],
)
update_or_create-NeighborsOnce o rows (r ∷ []) once e =
    (r.id, map (refreshed o) rows, refl, λ k. rw (count-refreshed o k rows) (once k))
update_or_create-NeighborsOnce o rows (r ∷ s ∷ found) once e =
    let two : length (r ∷ s ∷ found) ≤ 1 = rw e at (once o) in absurd (omega (arith, two))

upsert_neighbor-NeighborsOnce :
    (c : Collection) (turn i : ℕ) (e : NeighborEntry) (rows : List TopologyNeighbor)
    → NeighborsOnce rows
    → is_empty (normalize_hostname c.is_ip c.site_domain (some e.neighbor_name)) ≡ false
    → (id : ℕ) × (rows' : List TopologyNeighbor) × (upsert_neighbor c turn i e rows
        ≡ ok (id, rows'))
      × NeighborsOnce rows'
unfolding upsert_neighbor
upsert_neighbor-NeighborsOnce c turn i e rows once there =
    let name = normalize_hostname c.is_ip c.site_domain (some e.neighbor_name) in
    let o = observation c turn i name e in
    let (id, rows', done, kept) =
      update_or_create-NeighborsOnce o rows (select (same_neighbor o) rows) once refl in
    (id, rows', rw there done, kept)

-- an entry that names its neighbor, once the site's rules are applied
abbrev pub HasName : Collection → NeighborEntry → Type 0
HasName c e = is_empty (normalize_hostname c.is_ip c.site_domain (some e.neighbor_name)) ≡ false

-- no exception so far, and one row at most for each neighbor
abbrev Sound : Progress → Type 0
Sound p = NeighborsOnce p.rows × (p.raised ≡ false)

after_upsert-Sound :
    (p : Progress) (id : ℕ) (rows : List TopologyNeighbor)
    → NeighborsOnce rows
    → p.raised ≡ false
    → Sound (after_upsert p (ok (id, rows)))
unfolding after_upsert
after_upsert-Sound p id rows once h = (once, h)

observe-Sound :
    (c : Collection) (e : NeighborEntry) (p : Progress)
    → Sound p
    → HasName c e
    → Sound (observe c e p)
observe-Sound c e p sound there =
    elim (Option-cases (resolve_local_interface e.local_interface c.interfaces)) [
      | inl h ↦ rw (observe-none c e p h) sound
      | inr (i, h) ↦
          let (id, rows', done, kept) =
            upsert_neighbor-NeighborsOnce c p.turn i e p.rows sound.0 there in
          let step : observe c e p ≡ after_upsert p (ok (id, rows')) =
            observe-upserted c e p i h sound.1 ∙ ap (after_upsert p) done in
          rw step (after_upsert-Sound p id rows' kept sound.1)
    ]

observe_all-Sound :
    (c : Collection) (entries : List NeighborEntry) (p : Progress)
    → Sound p
    → All (HasName c) entries
    → Sound (observe_all c entries p)
unfolding observe_all
observe_all-Sound c [] p sound all = sound
observe_all-Sound c (e ∷ entries) p sound all =
    observe_all-Sound c entries (observe c e p) (observe-Sound c e p sound all.0) all.1

finished-NeighborsOnce :
    (c : Collection) (a b : Text) (p : Progress)
    → Sound p
    → ((finished c a b p).0 ≡ true) × NeighborsOnce (finished c a b p).1
unfolding finished
finished-NeighborsOnce c a b p sound = rw sound.1 (
  refl,
  λ k.
      select-le_one (same_neighbor k) (λ r. not (is_stale c.device a b p.seen r)) p.rows
        (sound.0 k),
)

-- Where no two rows have one key (the device, the interface, the protocol, and the name and the
-- interface of the neighbor), both outputs come in, and each of their entries names its neighbor, a
-- collection succeeds, and after it no two rows have one key.
pub collect_neighbors-NeighborsOnce :
    (c : Collection) (run : Text → Option Text) (parse_cdp parse_lldp : Text → List NeighborEntry)
    (turn : ℕ) (rows : List TopologyNeighbor) (a b : Text)
    → NeighborsOnce rows
    → cdp_output run ≡ some a
    → lldp_output run ≡ some b
    → All (HasName c) (entries_of parse_cdp a)
    → All (HasName c) (entries_of parse_lldp b)
    → ((collect_neighbors_for_device c run parse_cdp parse_lldp turn rows).0 ≡ true)
      × NeighborsOnce (collect_neighbors_for_device c run parse_cdp parse_lldp turn rows).1
unfolding started
collect_neighbors-NeighborsOnce c run parse_cdp parse_lldp turn rows a b once h k cdps lldps =
    let after_cdp =
      observe_all-Sound c (entries_of parse_cdp a) (started rows turn) (once, refl) cdps in
    rw (both_outputs c run parse_cdp parse_lldp turn rows a b h k) (
      finished-NeighborsOnce c a b (observed c parse_cdp parse_lldp a b (started rows turn)) (
        observe_all-Sound c (entries_of parse_lldp b)
          (observe_all c (entries_of parse_cdp a) (started rows turn)) after_cdp lldps))
