-- ===== src/Sync.antt =====
-- The inventory of a device: SyncService._apply_inventory with _reconcile_module_serial and
-- _remove_storage_duplicates (network/services/sync_service.py).
pub mod Priority
pub mod Rows
pub mod Owned
pub mod Total
pub mod Held
pub mod Reported
mod Tests
use zas.Prelude.{
  ℕ, ◌+◌, ◌≡◌, Bool, true, false, not, ◌&&◌, ◌||◌, Option, none, some, List, [], ◌∷◌, ◌++◌, ◌==◌,
  ltb, if◌then◌else◌, is_some, is_empty, any, select, length, or_else, Result, ok, err,
}
use zas.Text.{Text, codes, text_eq, lower, upper, strip, starts_with, contains}
use zas.Serial.{
  DeviceModule, InventoryItem, Inventory, normalize_serial_number, serial_matches, save_module,
}

-- One entry of the parsed output; a key that is missing is `none`.
pub record Entry : Type 0 where
  pub name : Option Text
  pub descr : Option Text
  pub sn : Option Text
  pub serial : Option Text

-- `a or b`
unfoldable pub or_text : Option Text → Text → Text
or_text none d = d
or_text (some []) d = d
or_text (some (c ∷ s)) d = c ∷ s

-- `a or b or None`
unfoldable pub first_text : Option Text → Option Text → Option Text
first_text none b = b
first_text (some []) b = b
first_text (some (c ∷ s)) b = some (c ∷ s)

-- The entry that is kept for a serial. The score of the priority is two more than in the source, where
-- it may be negative.
pub record Best : Type 0 where
  pub name : Text
  pub descr : Text
  pub serial : Text
  pub score : ℕ

-- `_inventory_name_priority`: the score; the second part is the length of the name
pub name_score : Text → Text → ℕ
name_score name descr =
    let stacked = contains (codes "stack") (lower name) || contains (codes "stack") (lower descr) in
    (if starts_with (lower name) (codes "switch ") then 3 else 0) + (if stacked then 0 else 2)

-- the order of the priorities, which are compared as pairs
pub outranks : Best → Best → Bool
outranks a b = ltb b.score a.score || a.score == b.score && ltb (length b.name) (length a.name)

-- `serial_entries[serial_key] = ...`, where the entry is new or outranks the one that is there
pub add_best : Best → List Best → List Best
unfolding outranks
add_best b [] = b ∷ []
add_best b (a ∷ best) =
    if text_eq (upper a.serial) (upper b.serial)
    then (if outranks b a then b else a) ∷ best
    else a ∷ add_best b best

-- What the first loop gathers: the names without a serial, and the entries by serial.
pub record Gathered : Type 0 where
  pub no_serial_names : List Text
  pub serial_entries : List Best

pub gather_one : Text → Text → Option Text → Gathered → Gathered
unfolding name_score add_best
gather_one name descr none g = record g { no_serial_names = name ∷ g.no_serial_names }
gather_one name descr (some serial) g = record g {
  serial_entries =
      add_best
        (record { name = name; descr = descr; serial = serial; score = name_score name descr })
        g.serial_entries;
}

pub gather : List Entry → Gathered → Gathered
unfolding gather_one or_text first_text
gather [] g = g
gather (e ∷ entries) g = gather entries (
    gather_one (strip (or_text e.name (or_text e.descr (codes "Module")))) (or_else e.descr [])
      (normalize_serial_number (first_text e.sn e.serial)) g)

-- a module with the serial that is not the one of this device and name
unfoldable pub foreign : ℕ → Text → Text → DeviceModule → Bool
foreign device name serial r =
    serial_matches serial r.serial_number && not (r.device == device && text_eq r.name name)

-- _reconcile_module_serial
unfoldable pub reconcile : ℕ → Text → Text → Inventory → Inventory
unfolding foreign
reconcile device name serial inv = record {
  items = select (λ i. not (serial_matches serial i.serial_number)) inv.items;
  modules = select (λ r. not (foreign device name serial r)) inv.modules;
}

optional_eq : Option Text → Text → Bool
optional_eq none t = false
optional_eq (some s) t = text_eq s t

-- the modules that update_or_create finds
pub same_module : ℕ → Best → DeviceModule → Bool
unfolding optional_eq
same_module device b r =
    r.device == device && (text_eq r.name b.name && optional_eq r.serial_number b.serial)

pub data StoreError : Type 0 where
  several_found : StoreError

pub new_module : ℕ → ℕ → Best → DeviceModule
new_module id device b = record {
  id = id;
  device = device;
  name = b.name;
  inventory_number = none;
  description = some b.descr;
  vendor = none;
  serial_number = some b.serial;
}

pub put : ℕ → ℕ → Best → List DeviceModule → Inventory → Result StoreError Inventory
unfolding new_module
put id device b [] inv = ok (save_module (new_module id device b) inv)
put id device b (r ∷ []) inv =
    ok (save_module (record r { description = some b.descr; vendor = none }) inv)
put id device b (r ∷ s ∷ found) inv = err several_found

-- one turn of the second loop; `id` is the key that a new module gets
pub store : ℕ → ℕ → Best → Inventory → Result StoreError Inventory
unfolding reconcile put same_module
store id device b inv =
    let inv' = reconcile device b.name b.serial inv in
    put id device b (select (same_module device b) inv'.modules) inv'

-- the second loop; the keys of the new modules count up from `id`
pub store_all : ℕ → ℕ → List Best → Inventory → Result StoreError Inventory
store_all id device [] inv = ok inv
store_all id device (b ∷ best) inv = elim (store id device b inv) [
  | err e ↦ err e
  | ok inv' ↦ store_all (id + 1) device best inv'
]

-- `serial_number` is neither null nor empty
has_serial : Option Text → Bool
has_serial none = false
has_serial (some s) = not (is_empty s)

-- the modules that the output no longer has; those of transceivers come from another command
pub is_stale : ℕ → List Best → DeviceModule → Bool
unfolding has_serial same_module
is_stale device best r =
    r.device == device
    && (has_serial r.serial_number
        && (not (starts_with r.name (codes "Transceiver "))
            && not (any (λ b. same_module device b r) best)))

pub is_unnumbered : ℕ → List Text → DeviceModule → Bool
unfolding has_serial
is_unnumbered device names r =
    r.device == device && (any (text_eq r.name) names && not (has_serial r.serial_number))

-- the two deletions after the loops
pub clean_up : ℕ → Gathered → Inventory → Inventory
unfolding is_stale is_unnumbered
clean_up device g inv =
    let kept =
      if is_empty g.serial_entries
      then inv.modules
      else select (λ r. not (is_stale device g.serial_entries r)) inv.modules in
    record inv { modules = select (λ r. not (is_unnumbered device g.no_serial_names r)) kept }

pub then_clean : ℕ → Gathered → Result StoreError Inventory → Result StoreError Inventory
then_clean device g (err e) = err e
then_clean device g (ok inv) = ok (clean_up device g inv)

pub gathered : List Entry → Gathered
unfolding gather
gathered entries = gather entries (record { no_serial_names = []; serial_entries = [] })

-- SyncService._apply_inventory; no entries are no parsed output
unfoldable pub apply_inventory : ℕ → ℕ → List Entry → Inventory → Result StoreError Inventory
unfolding gathered store_all then_clean
apply_inventory id device entries inv =
    if is_empty entries
    then ok inv
    else let g = gathered entries in then_clean device g (store_all id device g.serial_entries inv)
