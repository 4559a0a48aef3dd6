-- ===== src/DeviceSync/Consistent.antt =====
-- A synchronisation keeps the stored occupancy of the racks right.
use zas.Prelude.{
  ℕ, ◌-◌, ◌≡◌, refl, ◌∙◌, Bool, true, false, Option, none, some, List, [], ◌∷◌, All, Bool-cases,
  ◌⊎◌, inl, inr, ◌==◌, Result, ok, err, and_then-ok, same_key, ltb,
}
use zas.Text.{Text}
use zas.Dcim.{DeviceType, Device, RuntimeStatus}
use zas.Serial.{Inventory}
use zas.Interfaces.{Interface}
use zas.Rack.{Db, write_device, save_device, update_rack_occupied_units}
use zas.Rack.Occupancy.{IsConsistent, save_device-IsConsistent, previous_rack, saved}
use zas.Stack.{Reported}
use zas.Stack.Racks.{apply_stack-IsConsistent}
use zas.DeviceSync.Output.{Part, VersionEntry}
use zas.DeviceSync.Model.{same_type, set_type, type_for, reported_model, update_device_type}
use zas.DeviceSync.Version.{
  SyncError, VersionOutput, with_serial, with_image, with_uptime, apply_version, reported_serial,
  reported_image, reported_uptime,
}
use zas.DeviceSync.Steps.{
  Tables, Results, Run, is_sync_excluded, collect_results_with_retry, store_stack, store_modules,
  store_interfaces, is_nxos, platform_of, save_runtime,
}
use zas.DeviceSync.Run.{finish, apply_results, committed, after_collect, sync_device}

-- every row with the device's key names the device's rack
abbrev pub InOneRack : Device → Db → Type 0
InOneRack dev db = All (λ d. ((d.id == dev.id) ≡ false) ⊎ (d.rack ≡ dev.rack)) db.devices

-- the two device objects are of one row, in one rack
abbrev pub SamePlace : Device → Device → Type 0
SamePlace a b = (a.id ≡ b.id) × (a.rack ≡ b.rack)

pub update-devices :
    (rack : Option ℕ) (db : Db) → (update_rack_occupied_units rack db).devices ≡ db.devices
unfolding update_rack_occupied_units
update-devices none db = refl
update-devices (some rack) db = refl

pub save_device-devices :
    (dev : Device) (db : Db) → (save_device dev db).devices ≡ write_device dev db.devices
unfolding save_device
save_device-devices dev db = elim (Bool-cases (same_key (previous_rack dev db) dev.rack)) [
  | inl e ↦ rw e (update-devices dev.rack (saved dev db))
  | inr e ↦ rw e (
      update-devices dev.rack (update_rack_occupied_units (previous_rack dev db) (saved dev db))
      ∙ update-devices (previous_rack dev db) (saved dev db))
]

write_device-InOneRack :
    (dev : Device) (rows : List Device)
    → All (λ d. ((d.id == dev.id) ≡ false) ⊎ (d.rack ≡ dev.rack)) rows
    → All (λ d. ((d.id == dev.id) ≡ false) ⊎ (d.rack ≡ dev.rack)) (write_device dev rows)
unfolding write_device
write_device-InOneRack dev [] h = (inr refl, tt)
write_device-InOneRack dev (d ∷ rows) h = elim (Bool-cases (d.id == dev.id)) [
  | inl e ↦ rw e (inr refl, h.1)
  | inr e ↦ rw e (h.0, write_device-InOneRack dev rows h.1)
]

moved-InOneRack : (a b : Device) (db : Db) → SamePlace b a → InOneRack a db → InOneRack b db
moved-InOneRack a b db same h = rw (same.0, same.1) h

save_device-InOneRack :
    (dev : Device) (db : Db) → InOneRack dev db → InOneRack dev (save_device dev db)
save_device-InOneRack dev db h =
    rw (save_device-devices dev db) (write_device-InOneRack dev db.devices h)

-- what the steps keep: the racks are right, and the device's rows name its rack
abbrev pub Kept : Device → Db → Type 0
Kept dev db = IsConsistent db × InOneRack dev db

saved-Kept : (dev : Device) (db : Db) → Kept dev db → Kept dev (save_device dev db)
saved-Kept dev db h = (save_device-IsConsistent dev db h.0, save_device-InOneRack dev db h.1)

set_type-Kept :
    (dev : Device) (db : Db) (t : Option DeviceType)
    → Kept dev db
    → Kept (set_type dev db t).0 (set_type dev db t).1
unfolding set_type
set_type-Kept dev db none h = h
set_type-Kept dev db (some t) h = elim (Bool-cases (same_type dev.device_type t)) [
  | inl e ↦ rw e h
  | inr e ↦ rw e (saved-Kept (record dev { device_type = some t }) db h)
]

update_device_type-Kept :
    (entries : List Part) (version : Option VersionEntry) (types : List DeviceType) (dev : Device)
    (db : Db)
    → Kept dev db
    → Kept
        (update_device_type entries version types dev db).0
        (update_device_type entries version types dev db).1
unfolding update_device_type
update_device_type-Kept entries version types dev db h =
    set_type-Kept dev db (type_for (reported_model entries version dev) dev types) h

store_stack-IsConsistent :
    (ios : Bool) (dev : Device) (reported : List Reported) (db : Db)
    → Kept dev db
    → IsConsistent (store_stack ios dev reported db)
unfolding store_stack
store_stack-IsConsistent true dev reported db h = apply_stack-IsConsistent dev reported db h.1 h.0
store_stack-IsConsistent false dev reported db h = h.0

finish-IsConsistent :
    (run : Run) (dev dev1 : Device) (r : Results) (t : Tables) (inv : Inventory)
    (interfaces : List Interface)
    → Kept dev1 t.db
    → IsConsistent (finish run dev dev1 r t inv interfaces).db
unfolding finish
finish-IsConsistent run dev dev1 r t inv interfaces h =
    store_stack-IsConsistent _ _ r.stack _
      (update_device_type-Kept r.inventory r.version.parsed t.types dev1 t.db h)

with_serial-SamePlace : (s : Option Text) (dev : Device) → SamePlace (with_serial s dev) dev
unfolding with_serial
with_serial-SamePlace none dev = (refl, refl)
with_serial-SamePlace (some s) dev = (refl, refl)

with_image-SamePlace : (s : Text) (dev : Device) → SamePlace (with_image s dev) dev
unfolding with_image
with_image-SamePlace [] dev = (refl, refl)
with_image-SamePlace (c ∷ s) dev = (refl, refl)

with_uptime-SamePlace :
    (now : ℕ) (uptime : Option ℕ) (dev : Device) (runtime : RuntimeStatus)
    (p : Device × RuntimeStatus)
    → with_uptime now uptime dev runtime ≡ ok p
    → SamePlace p.0 dev × (p.1.device ≡ runtime.device)
unfolding with_uptime
with_uptime-SamePlace now none dev runtime p h =
    let e : p ≡ (dev, runtime) = cc h in rw e ((refl, refl), refl)
with_uptime-SamePlace now (some uptime) dev runtime p h = elim (Bool-cases (ltb now uptime)) [
  | inl e ↦ cc (rw e at h)
  | inr e ↦
      let same = rw e at h in
      let e : p ≡ (
        record dev { uptime = some uptime; last_reboot = some (now - uptime) },
        record runtime { uptime = some uptime },
      ) =
        cc same in
      rw e ((refl, refl), refl)
]

SamePlace-trans : (a b c : Device) → SamePlace a b → SamePlace b c → SamePlace a c
SamePlace-trans a b c h k = (h.0 ∙ k.0, h.1 ∙ k.1)

pub apply_version-SamePlace :
    (now : ℕ) (out : VersionOutput) (dev : Device) (runtime : RuntimeStatus)
    (p : Device × RuntimeStatus)
    → apply_version now out dev runtime ≡ ok p
    → SamePlace p.0 dev × (p.1.device ≡ runtime.device)
unfolding apply_version
apply_version-SamePlace now out dev runtime p h =
    let seen = record dev { last_seen = some now } in
    let serial = with_serial (reported_serial dev.name out) seen in
    let image = with_image (reported_image dev.name out) serial in
    let found = with_uptime-SamePlace now (reported_uptime dev.name out) image runtime p h in
    (
      SamePlace-trans p.0 image dev found.0 (
          SamePlace-trans image serial dev
            (with_image-SamePlace (reported_image dev.name out) serial)
            (with_serial-SamePlace (reported_serial dev.name out) seen)),
      found.1,
    )

-- the parts of an application that succeeds
pub apply_results-ok :
    (run : Run) (dev : Device) (runtime : RuntimeStatus) (r : Results) (t t' : Tables)
    → apply_results run dev runtime r t ≡ ok t'
    → (p : Device × RuntimeStatus) × (inv : Inventory) × (interfaces : List Interface)
      × (apply_version run.now r.version dev runtime ≡ ok p)
      × (t'
          ≡ finish run dev p.0 r
              (record t { db = save_device p.0 t.db; runtimes = save_runtime p.1 t.runtimes })
              inv
              interfaces)
unfolding apply_results
apply_results-ok run dev runtime r t t' h =
    let (p, version, rest) = and_then-ok (apply_version run.now r.version dev runtime) _ t' h in
    let (inv, modules, more) =
      and_then-ok (store_modules run dev.id (is_nxos (platform_of dev.device_type)) r t.inventory) _
        t' rest in
    let (interfaces, stored, last) =
      and_then-ok (store_interfaces run dev.id r.interfaces t.interfaces) _ t' more in
    (p, inv, interfaces, version, cc last)

started-IsConsistent :
    (dev : Device) (db : Db) (dev1 : Device)
    → SamePlace dev1 dev
    → Kept dev db
    → Kept dev1 (save_device dev1 db)
started-IsConsistent dev db dev1 same h =
    saved-Kept dev1 db (h.0, moved-InOneRack dev dev1 db same h.1)

apply_results-IsConsistent :
    (run : Run) (dev : Device) (runtime : RuntimeStatus) (r : Results) (t t' : Tables)
    → Kept dev t.db
    → apply_results run dev runtime r t ≡ ok t'
    → IsConsistent t'.db
apply_results-IsConsistent run dev runtime r t t' h done =
    let (p, inv, interfaces, version, e) = apply_results-ok run dev runtime r t t' done in
    rw e (
      finish-IsConsistent run dev p.0 r _ inv interfaces (
        started-IsConsistent dev t.db p.0
          (apply_version-SamePlace run.now r.version dev runtime p version).0 h))

committed-IsConsistent :
    (run : Run) (dev : Device) (runtime : RuntimeStatus) (r : Results) (t : Tables)
    (applied : Result SyncError Tables)
    → Kept dev t.db
    → apply_results run dev runtime r t ≡ applied
    → IsConsistent (committed t applied).1.db
unfolding committed
committed-IsConsistent run dev runtime r t (err x) h e = h.0
committed-IsConsistent run dev runtime r t (ok t') h e =
    apply_results-IsConsistent run dev runtime r t t' h e

after_collect-IsConsistent :
    (run : Run) (dev : Device) (t : Tables) (collected : Result Text Results)
    → Kept dev t.db
    → IsConsistent (after_collect run dev t collected).1.db
unfolding after_collect
after_collect-IsConsistent run dev t (err message) h = h.0
after_collect-IsConsistent run dev t (ok r) h =
    committed-IsConsistent run dev _ r t (apply_results run dev _ r t) h refl

-- A synchronisation keeps every rack's stored occupancy equal to what the devices in it fill, whatever
-- the output says and however the run ends: skipped, with no session, with an exception that undoes
-- it, or applied, also where the height of the device's type or the number of its stack members
-- changes. The conditions are that the stored occupancy was right before, and that the device object
-- names the rack that its stored row names.
pub sync_device-IsConsistent :
    (run : Run) (collect : ℕ → Result Text Results) (dev : Device) (t : Tables)
    → IsConsistent t.db
    → InOneRack dev t.db
    → IsConsistent (sync_device run collect dev t).1.db
unfolding sync_device
sync_device-IsConsistent run collect dev t h own = elim (Bool-cases (is_sync_excluded dev)) [
  | inl e ↦ rw e h
  | inr e ↦
      rw e (after_collect-IsConsistent run dev t (collect_results_with_retry collect) (h, own))
]
