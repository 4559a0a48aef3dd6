-- ===== src/DeviceSync/Others.antt =====
-- A synchronisation leaves the rows of other devices as they are.
use zas.Prelude.{
  ℕ, ◌≡◌, refl, ap, ◌∙◌, Bool, true, false, not, Option, none, some, List, [], ◌∷◌, ◌++◌, arith,
  Bool-cases, inl, inr, ◌==◌, select, write_row, Result, ok, err, find_row, find_row-key,
  if◌then◌else◌, ltb, length, Option-cases,
}
use zas.Text.{Text}
use zas.Dcim.{DeviceType, Device, RuntimeStatus}
use zas.Serial.{Inventory}
use zas.Interfaces.{Interface}
use zas.Configs.{DeviceConfiguration}
use zas.Rack.{Db, write_device, save_device}
use zas.Stack.{Reported, apply_stack_members, same_flag, new_members, seen_numbers}
use zas.Topology.{TopologyNeighbor}
use zas.Topology.Frame.{others, collect_neighbors-others}
use zas.DeviceSync.Model.{same_type, set_type, type_for, reported_model, update_device_type}
use zas.DeviceSync.Version.{SyncError}
use zas.DeviceSync.Steps.{
  Tables, Results, Run, ConfigOutput, is_sync_excluded, collect_results_with_retry, runtime_of,
  save_runtime, record_config, is_error, store_config, store_neighbors, store_stack,
}
use zas.DeviceSync.Run.{finish, apply_results, unreached, committed, after_collect, sync_device}
use zas.DeviceSync.Consistent.{
  update-devices, save_device-devices, apply_version-SamePlace, apply_results-ok,
}

module _ {R : Type 0} (key : R → ℕ) where
  -- the rows whose key is another one, in the order of the table
  abbrev pub rest_of : ℕ → List R → List R
  rest_of k rows = select (λ r. not (key r == k)) rows

  pub rest_of-write :
      (k : ℕ) (r : R) (rows : List R)
      → key r ≡ k
      → rest_of k (write_row key r rows) ≡ rest_of k rows
  rest_of-write k r [] e = let own : (key r == k) ≡ true = rw e (ground arith) in rw own refl
  rest_of-write k r (s ∷ rows) e = elim (Bool-cases (key s == key r)) [
    | inl h ↦
        let own : (key r == k) ≡ true = rw e (ground arith) in
        let there : (key s == k) ≡ true = rw e at h in rw (h, own, there) refl
    | inr h ↦ rw h (elim (Bool-cases (key s == k)) [
      | inl there ↦ rw there (rest_of-write k r rows e)
      | inr apart ↦ rw apart (ap (λ l. s ∷ l) (rest_of-write k r rows e))
    ])
  ]

  pub rest_of-append :
      (k : ℕ) (r : R) (rows : List R) → key r ≡ k → rest_of k (rows ++ r ∷ []) ≡ rest_of k rows
  rest_of-append k r [] e = let own : (key r == k) ≡ true = rw e (ground arith) in rw own refl
  rest_of-append k r (s ∷ rows) e = elim (Bool-cases (key s == k)) [
    | inl h ↦ rw h (rest_of-append k r rows e)
    | inr h ↦ rw h (ap (λ l. s ∷ l) (rest_of-append k r rows e))
  ]

abbrev pub other_devices : ℕ → Db → List Device
other_devices k db = rest_of (λ (d : Device). d.id) k db.devices

abbrev pub other_runtimes : ℕ → List RuntimeStatus → List RuntimeStatus
other_runtimes = rest_of (λ (r : RuntimeStatus). r.device)

abbrev pub other_configs : ℕ → List DeviceConfiguration → List DeviceConfiguration
other_configs = rest_of (λ (r : DeviceConfiguration). r.device)

-- the devices, their run-time status, configurations and neighbors, but for those of one device
abbrev pub OthersKept : ℕ → Tables → Tables → Type 0
OthersKept k t t' =
    (other_devices k t'.db ≡ other_devices k t.db)
    × (other_runtimes k t'.runtimes ≡ other_runtimes k t.runtimes)
    × (other_configs k t'.configs ≡ other_configs k t.configs)
    × (others k t'.neighbors ≡ others k t.neighbors)

save_device-others :
    (k : ℕ) (dev : Device) (db : Db)
    → dev.id ≡ k
    → other_devices k (save_device dev db) ≡ other_devices k db
save_device-others k dev db e =
    ap (rest_of (λ (d : Device). d.id) k) (save_device-devices dev db)
    ∙ unfold write_device in rest_of-write (λ (d : Device). d.id) k dev db.devices e

set_type-others :
    (k : ℕ) (dev : Device) (db : Db) (t : Option DeviceType)
    → dev.id ≡ k
    → (other_devices k (set_type dev db t).1 ≡ other_devices k db) × ((set_type dev db t).0.id ≡ k)
unfolding set_type
set_type-others k dev db none e = (refl, e)
set_type-others k dev db (some t) e = elim (Bool-cases (same_type dev.device_type t)) [
  | inl h ↦ rw h (refl, e)
  | inr h ↦ rw h (save_device-others k (record dev { device_type = some t }) db e, e)
]

either-others :
    (k : ℕ) (b : Bool) (x y db : Db)
    → other_devices k x ≡ other_devices k db
    → other_devices k y ≡ other_devices k db
    → other_devices k (if b then x else y) ≡ other_devices k db
either-others k true x y db h e = h
either-others k false x y db h e = e

store_stack-others :
    (k : ℕ) (ios : Bool) (dev : Device) (reported : List Reported) (db : Db)
    → dev.id ≡ k
    → other_devices k (store_stack ios dev reported db) ≡ other_devices k db
unfolding store_stack apply_stack_members
store_stack-others k false dev reported db e = refl
store_stack-others k true dev reported db e =
    let db' = record db { stack_members = new_members dev.id reported db.stack_members } in
    let dev' = record dev { is_stacked = ltb 1 (length (seen_numbers reported)) } in
    ap (rest_of (λ (d : Device). d.id) k) (update-devices dev.rack _)
    ∙ either-others k (same_flag dev.is_stacked dev'.is_stacked) db' (save_device dev' db') db refl
        (save_device-others k dev' db' e)

pub found_runtime :
    (device : ℕ) (rows : List RuntimeStatus) → (runtime_of device rows).device ≡ device
unfolding runtime_of
found_runtime device rows =
    elim (Option-cases (find_row (λ (r : RuntimeStatus). r.device) device rows)) [
      | inl h ↦ rw (h, runtime_of) refl
      | inr (r, h) ↦
          rw (h, runtime_of) (find_row-key (λ (r : RuntimeStatus). r.device) device rows r h)
    ]

save_runtime-others :
    (k : ℕ) (r : RuntimeStatus) (rows : List RuntimeStatus)
    → r.device ≡ k
    → other_runtimes k (save_runtime r rows) ≡ other_runtimes k rows
unfolding save_runtime
save_runtime-others k r rows e = rest_of-write (λ (r : RuntimeStatus). r.device) k r rows e

record_config-others :
    (run : Run) (k : ℕ) (done : Bool) (message : Option Text) (t : Text)
    (rows : List DeviceConfiguration)
    → other_configs k (record_config run k done message t rows) ≡ other_configs k rows
unfolding record_config
record_config-others run k done message t rows =
    rest_of-append (λ (r : DeviceConfiguration). r.device) k _ rows refl

store_config-others :
    (run : Run) (k : ℕ) (c : ConfigOutput) (rows : List DeviceConfiguration)
    → other_configs k (store_config run k c rows) ≡ other_configs k rows
unfolding store_config
store_config-others run k c rows = elim (Bool-cases (is_error c.error)) [
  | inl e ↦ rw e (record_config-others run k false c.error [] rows)
  | inr e ↦ rw e (record_config-others run k true c.error c.raw rows)
]

store_neighbors-others :
    (run : Run) (k : ℕ) (devices : List Device) (interfaces : List Interface)
    (rows : List TopologyNeighbor)
    → others k (store_neighbors run k devices interfaces rows) ≡ others k rows
unfolding store_neighbors
store_neighbors-others run k devices interfaces rows =
    collect_neighbors-others _ run.session run.parse_cdp run.parse_lldp run.neighbor_id rows

configs-others :
    (k : ℕ) (b : Bool) (x rows : List DeviceConfiguration)
    → other_configs k x ≡ other_configs k rows
    → other_configs k (if b then x else rows) ≡ other_configs k rows
configs-others k true x rows h = h
configs-others k false x rows h = refl

finish-others :
    (run : Run) (dev dev1 : Device) (r : Results) (t : Tables) (inv : Inventory)
    (interfaces : List Interface)
    → dev1.id ≡ dev.id
    → OthersKept dev.id t (finish run dev dev1 r t inv interfaces)
unfolding finish update_device_type
finish-others run dev dev1 r t inv interfaces e =
    let type = type_for (reported_model r.inventory r.version.parsed dev1) dev1 t.types in
    let typed = set_type-others dev.id dev1 t.db type e in
    (
      store_stack-others dev.id _ _ r.stack _ typed.1 ∙ typed.0,
      refl,
      configs-others dev.id run.include_config _ t.configs
          (store_config-others run dev.id r.config t.configs),
      store_neighbors-others run dev.id _ interfaces t.neighbors,
    )

OthersKept-trans : (k : ℕ) (a b c : Tables) → OthersKept k a b → OthersKept k b c → OthersKept k a c
OthersKept-trans k a b c h g = (g.0 ∙ h.0, g.1 ∙ h.1, g.2 ∙ h.2, g.3 ∙ h.3)

apply_results-others :
    (run : Run) (dev : Device) (runtime : RuntimeStatus) (r : Results) (t t' : Tables)
    → runtime.device ≡ dev.id
    → apply_results run dev runtime r t ≡ ok t'
    → OthersKept dev.id t t'
apply_results-others run dev runtime r t t' own done =
    let (p, inv, interfaces, version, e) = apply_results-ok run dev runtime r t t' done in
    let same = apply_version-SamePlace run.now r.version dev runtime p version in
    let t1 = record t { db = save_device p.0 t.db; runtimes = save_runtime p.1 t.runtimes } in
    let first : OthersKept dev.id t t1 = (
      save_device-others dev.id p.0 t.db same.0.0,
      save_runtime-others dev.id p.1 t.runtimes (same.1 ∙ own),
      refl,
      refl,
    ) in
    rw e (
      OthersKept-trans dev.id t t1 (finish run dev p.0 r t1 inv interfaces) first
        (finish-others run dev p.0 r t1 inv interfaces same.0.0))

committed-others :
    (run : Run) (dev : Device) (runtime : RuntimeStatus) (r : Results) (t : Tables)
    (applied : Result SyncError Tables)
    → runtime.device ≡ dev.id
    → apply_results run dev runtime r t ≡ applied
    → OthersKept dev.id t (committed t applied).1
unfolding committed
committed-others run dev runtime r t (err x) own e = (refl, refl, refl, refl)
committed-others run dev runtime r t (ok t') own e =
    apply_results-others run dev runtime r t t' own e

after_collect-others :
    (run : Run) (dev : Device) (t : Tables) (collected : Result Text Results)
    → OthersKept dev.id t (after_collect run dev t collected).1
unfolding after_collect unreached
after_collect-others run dev t (err message) = (
  refl,
  save_runtime-others dev.id _ t.runtimes (found_runtime dev.id t.runtimes),
  configs-others dev.id run.include_config _ t.configs
      (record_config-others run dev.id false (some message) [] t.configs),
  refl,
)
after_collect-others run dev t (ok r) =
    committed-others run dev _ r t (apply_results run dev _ r t) (found_runtime dev.id t.runtimes)
      refl

-- A synchronisation leaves the rows of every other device as they are and in their order, in the
-- tables of the devices, of their run-time status, of their configurations and of their neighbors,
-- whatever the output says and however the run ends.
pub sync_device-others :
    (run : Run) (collect : ℕ → Result Text Results) (dev : Device) (t : Tables)
    → OthersKept dev.id t (sync_device run collect dev t).1
unfolding sync_device
sync_device-others run collect dev t = elim (Bool-cases (is_sync_excluded dev)) [
  | inl e ↦ rw e (refl, refl, refl, refl)
  | inr e ↦ rw e (after_collect-others run dev t (collect_results_with_retry collect))
]
