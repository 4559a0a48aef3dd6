-- ===== src/Transceivers/Apply.antt =====
-- The loop of SyncService._apply_transceivers and the deletion after it
-- (network/services/sync_service.py).
use zas.Prelude.{
  ℕ, ◌+◌, Bool, not, ◌&&◌, Option, none, some, List, [], ◌∷◌, ◌==◌, if◌then◌else◌, is_empty, select,
  Result, ok, err,
}
use zas.Text.{Text, codes, text_eq, starts_with, is_one_of}
use zas.Serial.{DeviceModule, Inventory, normalize_serial_number, save_module}
use zas.Sync.{StoreError, several_found, reconcile}
use zas.Transceivers.{Transceiver}

-- the modules that update_or_create finds
unfoldable pub named : ℕ → Text → DeviceModule → Bool
named device name r = r.device == device && text_eq r.name name

-- _reconcile_module_serial is called for a serial that is there, and returns True
unfoldable pub reconciled : ℕ → Text → Option Text → Inventory → Inventory
reconciled device name none inv = inv
reconciled device name (some []) inv = inv
reconciled device name (some (c ∷ s)) inv = reconcile device name (c ∷ s) inv

unfoldable pub new_transceiver : ℕ → ℕ → Transceiver → DeviceModule
unfolding normalize_serial_number
new_transceiver id device t = record {
  id = id;
  device = device;
  name = t.name;
  inventory_number = none;
  description = t.description;
  vendor = none;
  serial_number = normalize_serial_number t.serial;
}

unfoldable pub updated_transceiver : Transceiver → DeviceModule → DeviceModule
unfolding normalize_serial_number
updated_transceiver t r = record r {
  description = t.description;
  vendor = none;
  serial_number = normalize_serial_number t.serial;
}

-- update_or_create by the device and the name; `id` is the key that a new row gets
unfoldable pub put_transceiver :
    ℕ → ℕ → Transceiver → List DeviceModule → Inventory → Result StoreError Inventory
unfolding new_transceiver updated_transceiver
put_transceiver id device t [] inv = ok (save_module (new_transceiver id device t) inv)
put_transceiver id device t (r ∷ []) inv = ok (save_module (updated_transceiver t r) inv)
put_transceiver id device t (r ∷ s ∷ found) inv = err several_found

-- one turn of the loop
unfoldable pub store_transceiver : ℕ → ℕ → Transceiver → Inventory → Result StoreError Inventory
unfolding named reconciled put_transceiver normalize_serial_number
store_transceiver id device t inv =
    if is_empty t.name
    then ok inv
    else let inv' = reconciled device t.name (normalize_serial_number t.serial) inv in
      put_transceiver id device t (select (named device t.name) inv'.modules) inv'

-- the loop; the keys of the new rows count up from `id`
unfoldable pub store_transceivers :
    ℕ → ℕ → List Transceiver → Inventory → Result StoreError Inventory
unfolding store_transceiver
store_transceivers id device [] inv = ok inv
store_transceivers id device (t ∷ entries) inv = elim (store_transceiver id device t inv) [
  | err e ↦ err e
  | ok inv' ↦ store_transceivers (id + 1) device entries inv'
]

-- `seen_names` after the loop
unfoldable pub seen_names : List Transceiver → List Text
seen_names [] = []
seen_names (t ∷ entries) =
    let rest = seen_names entries in if is_empty t.name then rest else t.name ∷ rest

unfoldable pub is_unseen : ℕ → List Text → DeviceModule → Bool
is_unseen device names r =
    r.device == device
    && (starts_with r.name (codes "Transceiver ") && not (is_one_of r.name names))

-- the deletion after the loop
unfoldable pub remove_unseen : ℕ → List Text → Inventory → Inventory
unfolding is_unseen
remove_unseen device [] inv = inv
remove_unseen device (n ∷ names) inv = record inv {
  modules = select (λ r. not (is_unseen device (n ∷ names) r)) inv.modules;
}

unfoldable pub then_remove :
    ℕ → List Text → Result StoreError Inventory → Result StoreError Inventory
unfolding remove_unseen
then_remove device names (err e) = err e
then_remove device names (ok inv) = ok (remove_unseen device names inv)

-- SyncService._apply_transceivers, on the entries that are parsed
unfoldable pub apply_transceivers :
    ℕ → ℕ → List Transceiver → Inventory → Result StoreError Inventory
unfolding store_transceivers seen_names then_remove
apply_transceivers id device entries inv =
    then_remove device (seen_names entries) (store_transceivers id device entries inv)
