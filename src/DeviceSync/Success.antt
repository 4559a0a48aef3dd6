-- ===== src/DeviceSync/Success.antt =====
-- When a synchronisation succeeds, and what it then leaves.
use zas.Prelude.{
  ℕ, ◌-◌, ◌≤◌, ◌≡◌, refl, sym, ap, ◌∙◌, true, false, Option, none, some, List, All, ◌⊎◌, inl, inr,
  map, is_empty, find_row, find_row-write_self, Result, ok, err,
}
use zas.Text.{Text, get}
use zas.Dcim.{Device, RuntimeStatus}
use zas.Serial.{Inventory}
use zas.Rack.{save_device}
use zas.Interfaces.{Interface}
use zas.Interfaces.Reports.{Reports, Gathered, gather, seen_names}
use zas.Interfaces.Apply.{lacks_vlan}
use zas.Interfaces.Apply.Creation.{IsFresh, AtMostOne}
use zas.Interfaces.Apply.Pass.{pass}
use zas.Interfaces.Apply.Total.{apply_interfaces_lem}
use zas.Sync.{gathered}
use zas.Sync.Owned.{HasSerial}
use zas.Sync.Total.{Single, apply_inventory-returns}
use zas.DeviceSync.Output.{Part}
use zas.DeviceSync.Version.{
  VersionOutput, with_serial, with_image, with_uptime, apply_version, reported_serial,
  reported_image, reported_uptime,
}
use zas.DeviceSync.Steps.{
  Tables, Results, Run, is_sync_excluded, collect_results_with_retry, runtime_of, save_runtime,
  store_modules, store_interfaces, is_nxos, platform_of,
}
use zas.DeviceSync.Run.{success, finish, apply_results, committed, after_collect, sync_device}
use zas.DeviceSync.Others.{found_runtime}
use zas.DeviceSync.Outcome.{retry-first, retry-second, with_uptime-some}

-- the uptime, if one is reported, does not reach back before the earliest time
abbrev pub Fits : ℕ → Option ℕ → Type 0
Fits now none = Unit
Fits now (some u) = u ≤ now

-- one of the two attempts gives the results
abbrev pub GivesResults : (ℕ → Result Text Results) → Results → Type 0
GivesResults collect r =
    (collect 0 ≡ ok r) ⊎ (((e : Text) × (collect 0 ≡ err e)) × (collect 1 ≡ ok r))

pub GivesResults-retry :
    (collect : ℕ → Result Text Results) (r : Results)
    → GivesResults collect r
    → collect_results_with_retry collect ≡ ok r
GivesResults-retry collect r (inl h) = retry-first collect r h
GivesResults-retry collect r (inr ((e, h), k)) = retry-second collect e h ∙ k

-- what the version keeps of the run-time status
abbrev KeepsFlags : RuntimeStatus → RuntimeStatus → Type 0
KeepsFlags a b =
    (a.device ≡ b.device) × (a.reachable_ssh ≡ b.reachable_ssh) × (a.last_check ≡ b.last_check)

with_uptime_total :
    (now : ℕ) (uptime : Option ℕ) (dev : Device) (runtime : RuntimeStatus)
    → Fits now uptime
    → (p : Device × RuntimeStatus) × (with_uptime now uptime dev runtime ≡ ok p)
      × KeepsFlags p.1 runtime
with_uptime_total now none dev runtime h =
    ((dev, runtime), unfold with_uptime in refl, (refl, refl, refl))
with_uptime_total now (some u) dev runtime h = (
  (
    record dev { uptime = some u; last_reboot = some (now - u) },
    record runtime { uptime = some u },
  ),
  with_uptime-some now u dev runtime h,
  (refl, refl, refl),
)

apply_version_total :
    (now : ℕ) (out : VersionOutput) (dev : Device) (runtime : RuntimeStatus)
    → Fits now (reported_uptime dev.name out)
    → (p : Device × RuntimeStatus) × (apply_version now out dev runtime ≡ ok p)
      × KeepsFlags p.1 runtime
unfolding apply_version
apply_version_total now out dev runtime h =
    with_uptime_total now (reported_uptime dev.name out)
      (with_image (reported_image dev.name out)
        (with_serial (reported_serial dev.name out) (record dev { last_seen = some now })))
      runtime h

store_modules_total :
    (run : Run) (device : ℕ) (r : Results) (inv : Inventory)
    → All (Single device inv) (gathered (map (λ (p : Part). p.entry) r.inventory)).serial_entries
    → (inv' : Inventory) × (store_modules run device false r inv ≡ ok inv')
      × All
          (HasSerial device inv')
          (gathered (map (λ (p : Part). p.entry) r.inventory)).serial_entries
unfolding store_modules
store_modules_total run device r inv single =
    let (inv', stored, has) =
      apply_inventory-returns run.module_id device (map (λ (p : Part). p.entry) r.inventory) inv
        single in
    (inv', rw stored refl, has)

-- what the sync of the interfaces asks of the output and of the table
abbrev pub InterfacesReady : Run → ℕ → Reports → List Interface → Type 0
InterfacesReady run device reports rows =
    (g : Gathered) × (gather run.lib reports ≡ ok g)
    × (is_empty (seen_names g) ≡ false)
    × IsFresh run.interface_id rows
    × All (AtMostOne device rows) (seen_names g)
    × All (λ n. lacks_vlan (get n g.status_map) ≡ false) (seen_names g)

store_interfaces_total :
    (run : Run) (device : ℕ) (reports : Reports) (rows : List Interface)
    → InterfacesReady run device reports rows
    → (rows' : List Interface) × (store_interfaces run device reports rows ≡ ok rows')
unfolding store_interfaces
store_interfaces_total run device reports rows (g, gathers, some_name, fresh, one, have) =
    let (c, stored, named, good, grew) =
      apply_interfaces_lem run.lib run.interface_id device reports rows g gathers some_name fresh
        one have in
    (map (pass device g c.iface_objs) c.rows, rw stored refl)

-- what is stored of the session: it was reached, and at the time of the run
abbrev pub Reached : ℕ → ℕ → List RuntimeStatus → Type 0
Reached device now rows =
    (r : RuntimeStatus) × (find_row (λ (q : RuntimeStatus). q.device) device rows ≡ some r)
    × (r.reachable_ssh ≡ true)
    × (r.last_check ≡ some now)

saved_Reached :
    (device now : ℕ) (r : RuntimeStatus) (rows : List RuntimeStatus)
    → r.device ≡ device
    → r.reachable_ssh ≡ true
    → r.last_check ≡ some now
    → Reached device now (save_runtime r rows)
unfolding save_runtime
saved_Reached device now r rows own ssh at = (
  r,
  ap (λ k. find_row (λ (q : RuntimeStatus). q.device) k (save_runtime r rows)) (sym own)
      ∙ find_row-write_self (λ (q : RuntimeStatus). q.device) r rows,
  ssh,
  at,
)

module _ (run : Run) (dev : Device) (r : Results) (t : Tables) where
  abbrev pub reached : RuntimeStatus
  reached = record (runtime_of dev.id t.runtimes) {
    reachable_ssh = true;
    last_check = some run.now;
  }

  -- the serials that the inventory reports are where they belong, and the session is recorded
  abbrev pub Stored : Tables → Type 0
  Stored t' =
      All (HasSerial dev.id t'.inventory)
        (gathered (map (λ (p : Part). p.entry) r.inventory)).serial_entries
      × Reached dev.id run.now t'.runtimes

  apply_results_total :
      is_nxos (platform_of dev.device_type) ≡ false
      → Fits run.now (reported_uptime dev.name r.version)
      → All
          (Single dev.id t.inventory)
          (gathered (map (λ (p : Part). p.entry) r.inventory)).serial_entries
      → InterfacesReady run dev.id r.interfaces t.interfaces
      → (t' : Tables) × (apply_results run dev reached r t ≡ ok t') × Stored t'
  unfolding apply_results
  apply_results_total other fits single ready =
      let (p, version, kept) = apply_version_total run.now r.version dev reached fits in
      let (inv, modules, has) = store_modules_total run dev.id r t.inventory single in
      let (rows, interfaces) = store_interfaces_total run dev.id r.interfaces t.interfaces ready in
      let t1 = record t { db = save_device p.0 t.db; runtimes = save_runtime p.1 t.runtimes } in
      (
        finish run dev p.0 r t1 inv rows,
        rw (version, other, modules, interfaces) refl,
        (
          has,
          saved_Reached dev.id run.now p.1 t.runtimes (kept.0 ∙ found_runtime dev.id t.runtimes)
              kept.1 kept.2,
        ),
      )

  -- On a device that is not NX-OS and has no tag that excludes it, where one of the two attempts gives
  -- results, the uptime fits, each reported serial has at most one module of its device, name and
  -- serial, and the interfaces are ready (the loops over their parsed output raise no error, the output
  -- names some, no name has two rows, the keys are fresh, and each state has a VLAN), a synchronisation succeeds. Afterwards each reported serial is
  -- in no storage item and on no module of another device or name, and the run-time status says that
  -- the session was reached at the time of the run.
  pub sync_device_total :
      (collect : ℕ → Result Text Results)
      → is_sync_excluded dev ≡ false
      → GivesResults collect r
      → is_nxos (platform_of dev.device_type) ≡ false
      → Fits run.now (reported_uptime dev.name r.version)
      → All
          (Single dev.id t.inventory)
          (gathered (map (λ (p : Part). p.entry) r.inventory)).serial_entries
      → InterfacesReady run dev.id r.interfaces t.interfaces
      → (t' : Tables) × (sync_device run collect dev t ≡ (ok success, t')) × Stored t'
  unfolding sync_device after_collect
  sync_device_total collect tagged attempt other fits single ready =
      let (t', applied, stored) = apply_results_total other fits single ready in
      (
        t',
        rw (tagged, GivesResults-retry collect r attempt, applied) (unfold committed in refl),
        stored,
      )
