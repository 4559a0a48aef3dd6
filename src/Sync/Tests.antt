-- ===== src/Sync/Tests.antt =====
-- Tests of the sync of a device's inventory, and the theorem on it at a concrete table.
use zas.Prelude.{◌≡◌, refl, none, some, List, [], ◌∷◌, arith, All, ok, err}
use zas.Text.{Text, codes, text_eq, lower, upper, strip, starts_with, contains, iexact, is_one_of}
use zas.Serial.{
  DeviceModule, InventoryItem, Inventory, ItemType, ItemStatus, Designation,
  normalize_serial_number, serial_matches, save_module,
}
use zas.Sync.{
  Entry, Best, gathered, apply_inventory, same_module, store, foreign, several_found, clean_up,
  is_stale, is_unnumbered,
}
use zas.Sync.Owned.{HasSerial}
use zas.Sync.Total.{Single}
use zas.Sync.Held.{KeysBelow}
use zas.Sync.Reported.{Held, apply_inventory_total}

abbrev module_row : DeviceModule
module_row = record {
  id = 1;
  device = 5;
  name = codes "Switch 1";
  inventory_number = some (codes "A7");
  description = none;
  vendor = some 2;
  serial_number = some (codes "FOC1");
}

-- the same part, still listed at another device
abbrev moved_row : DeviceModule
moved_row = record module_row {
  id = 2;
  device = 6;
  name = codes "Fan";
  serial_number = some (codes "foc2");
}

-- a module of the device that the output no longer has
abbrev stale_row : DeviceModule
stale_row = record module_row { id = 3; name = codes "Old"; serial_number = some (codes "X9") }

abbrev item : InventoryItem
item = record {
  id = 4;
  inventory_number = none;
  item_type = ItemType.module_item;
  designation = Designation.switch;
  vendor = none;
  model = codes "C9300";
  serial_number = some (codes "Foc2");
  site = 1;
  area = none;
  comment = [];
  status = ItemStatus.in_stock;
}

abbrev inventory : Inventory
inventory = record { modules = module_row ∷ moved_row ∷ stale_row ∷ []; items = item ∷ [] }

abbrev entry : Text → Text → Entry
entry name serial = record { name = some name; descr = none; sn = some serial; serial = none }

-- the switch is listed twice, and the fan has moved here
abbrev output : List Entry
output =
    entry (codes "Stack") (codes "foc1")
    ∷ entry (codes "Switch 1") (codes " FOC1 ")
    ∷ entry (codes "Fan") (codes "FOC2")
    ∷ entry (codes "Slot") (codes "N/A")
    ∷ []

abbrev switch_best : Best
switch_best = record { name = codes "Switch 1"; descr = []; serial = codes "FOC1"; score = 5 }

abbrev fan_best : Best
fan_best = record { name = codes "Fan"; descr = []; serial = codes "FOC2"; score = 2 }

gathered_test :
    gathered output
    ≡ record { no_serial_names = codes "Slot" ∷ []; serial_entries = switch_best ∷ fan_best ∷ [] }
unfolding gathered normalize_serial_number lower upper strip starts_with contains text_eq is_one_of
gathered_test = refl

abbrev fan_row : DeviceModule
fan_row = record {
  id = 51;
  device = 5;
  name = codes "Fan";
  inventory_number = none;
  description = some [];
  vendor = none;
  serial_number = some (codes "FOC2");
}

applied_test :
    apply_inventory 50 5 output inventory
    ≡ ok (record {
      modules = fan_row ∷ record module_row { description = some []; vendor = none } ∷ [];
      items = [];
    })
unfolding apply_inventory store foreign serial_matches save_module clean_up is_stale is_unnumbered
    normalize_serial_number lower upper strip starts_with contains text_eq is_one_of iexact
applied_test = refl

singles : All (Single 5 inventory) (gathered output).serial_entries
unfolding gathered same_module normalize_serial_number lower upper strip starts_with contains
    text_eq is_one_of
singles = (omega arith, (omega arith, tt))

keys : KeysBelow 50 inventory
keys =
    (((refl, (refl, tt)), ((refl, tt), (tt, tt))), (omega arith, (omega arith, (omega arith, tt))))

apply_inventory_total_example :
    (inv' : Inventory) × (apply_inventory 50 5 output inventory ≡ ok inv')
    × All (Held 5 inv') (gathered output).serial_entries
    × All (HasSerial 5 inv') (gathered output).serial_entries
apply_inventory_total_example = apply_inventory_total 50 5 output inventory keys singles

twin_test :
    apply_inventory 50 5 output
      (record inventory { modules = module_row ∷ record module_row { id = 9 } ∷ [] })
    ≡ err several_found
unfolding apply_inventory store foreign serial_matches save_module clean_up is_stale is_unnumbered
    normalize_serial_number lower upper strip starts_with contains text_eq is_one_of iexact
twin_test = refl

abbrev optic_row : DeviceModule
optic_row = record module_row { name = codes "Transceiver 1"; serial_number = some (codes "foc9") }

abbrev new_optic : DeviceModule
new_optic = record fan_row {
  id = 50;
  name = codes "Transceiver 1";
  serial_number = some (codes "FOC9");
}

-- a serial whose case has changed is stored a second time, and a transceiver's old row stays
optic_twice :
    apply_inventory 50 5
      (entry (codes "Transceiver 1") (codes "FOC9") ∷ [])
      (record { modules = optic_row ∷ []; items = [] })
    ≡ ok (record { modules = new_optic ∷ optic_row ∷ []; items = [] })
unfolding apply_inventory store foreign serial_matches save_module clean_up is_stale is_unnumbered
    normalize_serial_number lower upper strip starts_with contains text_eq is_one_of iexact
optic_twice = refl
