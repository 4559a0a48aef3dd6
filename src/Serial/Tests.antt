-- ===== src/Serial/Tests.antt =====
-- Serial numbers at concrete rows.
use zas.Prelude.{ℕ, ◌≡◌, refl, ◌↔◌, false, Option, none, some, [], ◌∷◌}
use zas.Text.{text_ne, codes, strip, upper, starts_with, is_one_of, iexact, text_eq}
use zas.Serial.{
  DeviceModule, InventoryItem, ItemType, Designation, ItemStatus, Inventory, SerialError,
  save_module, save_item, normalize_serial_number, has_errors,
  validate_device_module_serial_uniqueness, validate_inventory_item_serial_uniqueness, clean_item,
}
use zas.Serial.Unique.{SerialsUnique, validate_module_iff, validate_item_iff}

abbrev supervisor : DeviceModule
supervisor = record {
  id = 1;
  device = 7;
  name = codes "Supervisor";
  inventory_number = none;
  description = none;
  vendor = none;
  serial_number = some (codes "FOC1");
}

abbrev fan : DeviceModule
fan = record supervisor { id = 2; name = codes "Fan"; serial_number = some (codes " foc1 ") }

abbrev spare : InventoryItem
spare = record {
  id = 1;
  inventory_number = none;
  item_type = ItemType.module_item;
  designation = Designation.switch;
  vendor = none;
  model = codes "N9K";
  serial_number = some (codes "FOC2");
  site = 3;
  area = some 4;
  comment = codes "shelf";
  status = ItemStatus.installed;
}

abbrev spare_area_site : Option ℕ
spare_area_site = some 3

abbrev stock : Inventory
stock = record { modules = supervisor ∷ []; items = spare ∷ [] }

normalize_test :
    (normalize_serial_number (some (codes " Unknown: x")) ≡ none)
    × (normalize_serial_number (some (codes "n/a")) ≡ none)
    × (normalize_serial_number (some (codes " foc1 ")) ≡ some (codes "foc1"))
unfolding normalize_serial_number strip upper is_one_of starts_with
normalize_test = (refl, refl, refl)

clash_test :
    (validate_device_module_serial_uniqueness fan stock).1 ≡ some (SerialError.in_module supervisor)
unfolding validate_device_module_serial_uniqueness normalize_serial_number strip upper is_one_of
    starts_with iexact text_eq
clash_test = refl

stock-SerialsUnique : SerialsUnique stock
unfolding upper text_eq
stock-SerialsUnique = record {
  modules = (tt, tt);
  items = (tt, tt);
  apart = ((text_ne (codes "FOC2") (codes "FOC1") refl, tt), tt);
}

validate_module_example :
    ((validate_device_module_serial_uniqueness fan stock).1 ≡ none)
    ↔ SerialsUnique (save_module (validate_device_module_serial_uniqueness fan stock).0 stock)
validate_module_example = validate_module_iff stock stock-SerialsUnique fan

validate_item_example :
    ((validate_inventory_item_serial_uniqueness spare stock).1 ≡ none)
    ↔ SerialsUnique (save_item (validate_inventory_item_serial_uniqueness spare stock).0 stock)
validate_item_example = validate_item_iff stock stock-SerialsUnique spare

spare_accepted : has_errors (clean_item spare_area_site spare stock).1 ≡ false
unfolding clean_item normalize_serial_number strip upper is_one_of starts_with iexact text_eq
spare_accepted = refl
