-- ===== src/Serial.antt =====
-- Serial numbers of modules in production and of items in storage: services/validation_service.py,
-- and the `clean` methods of DeviceModule (dcim/models/device.py) and InventoryItem
-- (asset/models/inventory_item.py) that call it.
pub mod Normal
pub mod Unique
mod Tests
use zas.Prelude.{
  ℕ, ◌≡◌, Bool, true, false, not, ◌&&◌, ◌||◌, Option, none, some, List, [], ◌∷◌, ◌==◌,
  if◌then◌else◌, is_some, same_key, select, head?, is_empty,
}
use zas.Text.{Text, codes, strip, upper, starts_with, is_one_of, iexact}

abbrev pub invalid_serial_values : List Text
invalid_serial_values = codes "N/A" ∷ codes "UNKNOWN" ∷ codes "N" ∷ []

-- the two tests on the upper-case text
pub is_placeholder : Text → Bool
is_placeholder serial_upper =
    is_one_of serial_upper invalid_serial_values || starts_with serial_upper (codes "UNKNOWN:")

unfoldable pub normalize_serial_number : Option Text → Option Text
unfolding is_placeholder
normalize_serial_number none = none
normalize_serial_number (some value) =
    let serial = strip value in
    if is_empty serial then none else if is_placeholder (upper serial) then none else some serial

-- DeviceModule.serial_number_display
unfoldable pub serial_number_display : Option Text → Option Text
unfolding is_placeholder
serial_number_display none = none
serial_number_display (some serial_number) =
    if is_empty serial_number
    then none
    else let serial = strip serial_number in
      if is_empty serial then none else if is_placeholder (upper serial) then none else some serial

-- SyncService._has_valid_serial: `str(serial or "")`
unfoldable pub has_valid_serial : Option Text → Bool
has_valid_serial none = false
has_valid_serial (some serial) =
    let serial_value = strip serial in
    if is_empty serial_value
    then false
    else let serial_upper = upper serial_value in
      if is_one_of serial_upper invalid_serial_values
      then false
      else if starts_with serial_upper (codes "UNKNOWN:")
      then false
      else true

pub record DeviceModule : Type 0 where
  pub id : ℕ
  pub device : ℕ
  pub name : Text
  pub inventory_number : Option Text
  pub description : Option Text
  pub vendor : Option ℕ
  pub serial_number : Option Text

pub data ItemType : Type 0 where
  device module_item : ItemType

pub data Designation : Type 0 where
  switch access_point uplink_module qsfp_transceiver qsfp_to_sfp10g_adapter : Designation
  sfp_plus_transceiver sfp_transceiver : Designation

pub data ItemStatus : Type 0 where
  in_stock reserved installed rma retired : ItemStatus

pub record InventoryItem : Type 0 where
  pub id : ℕ
  pub inventory_number : Option Text
  pub item_type : ItemType
  pub designation : Designation
  pub vendor : Option ℕ
  pub model : Text
  pub serial_number : Option Text
  pub site : ℕ
  pub area : Option ℕ
  pub comment : Text
  pub status : ItemStatus

-- The two tables that share the serial numbers.
pub record Inventory : Type 0 where
  pub modules : List DeviceModule
  pub items : List InventoryItem

pub data SerialError : Type 0 where
  in_module : DeviceModule → SerialError
  in_storage : InventoryItem → SerialError

-- a row that the filter `serial_number__iexact=serial` takes
unfoldable pub serial_matches : Text → Option Text → Bool
serial_matches serial none = false
serial_matches serial (some s) = iexact s serial

-- `filter(serial_number__iexact=serial).exclude(pk=pk)`, where `none` excludes nothing
pub same_serial_modules : Text → Option ℕ → List DeviceModule → List DeviceModule
unfolding serial_matches
same_serial_modules serial pk =
    select (λ r. serial_matches serial r.serial_number && not (same_key (some r.id) pk))

pub same_serial_items : Text → Option ℕ → List InventoryItem → List InventoryItem
unfolding serial_matches
same_serial_items serial pk =
    select (λ r. serial_matches serial r.serial_number && not (same_key (some r.id) pk))

-- a clash is reported with the first row that is found, modules first
clash : Option DeviceModule → Option InventoryItem → Option SerialError
clash (some m) i = some (in_module m)
clash none (some i) = some (in_storage i)
clash none none = none

pub serial_clash : Option ℕ → Option ℕ → Inventory → Option Text → Option SerialError
unfolding clash same_serial_modules same_serial_items
serial_clash module_pk item_pk inv none = none
serial_clash module_pk item_pk inv (some serial) =
    clash (head? (same_serial_modules serial module_pk inv.modules))
      (head? (same_serial_items serial item_pk inv.items))

-- The row comes back with its serial normalised, also where the validation raises.
unfoldable pub validate_device_module_serial_uniqueness :
    DeviceModule → Inventory → DeviceModule × Option SerialError
unfolding normalize_serial_number serial_clash
validate_device_module_serial_uniqueness m inv =
    let serial = normalize_serial_number m.serial_number in
    (record m { serial_number = serial }, serial_clash (some m.id) none inv serial)

unfoldable pub validate_inventory_item_serial_uniqueness :
    InventoryItem → Inventory → InventoryItem × Option SerialError
unfolding normalize_serial_number serial_clash
validate_inventory_item_serial_uniqueness item inv =
    let serial = normalize_serial_number item.serial_number in
    (record item { serial_number = serial }, serial_clash none (some item.id) inv serial)

-- DeviceModule.clean
unfoldable pub clean_module : DeviceModule → Inventory → DeviceModule × Option SerialError
unfolding normalize_serial_number validate_device_module_serial_uniqueness
clean_module m inv =
    validate_device_module_serial_uniqueness
      (record m { serial_number = normalize_serial_number m.serial_number }) inv

-- The error dictionary of InventoryItem.clean, one field for each key.
pub record ItemErrors : Type 0 where
  pub area : Bool
  pub comment : Bool
  pub serial_number : Option SerialError

is_installed : ItemStatus → Bool
is_installed installed = true
is_installed _ = false

-- InventoryItem.clean, where `area_site` is the site of the item's area, if it has one.
unfoldable pub clean_item : Option ℕ → InventoryItem → Inventory → InventoryItem × ItemErrors
unfolding is_installed validate_inventory_item_serial_uniqueness
clean_item area_site item inv =
    let (item', serial_error) = validate_inventory_item_serial_uniqueness item inv in
    (
      item',
      record {
        area = is_some area_site && not (same_key area_site (some item.site));
        comment = is_installed item.status && is_empty (strip item.comment);
        serial_number = serial_error;
      },
    )

abbrev pub has_errors : ItemErrors → Bool
has_errors e = e.area || e.comment || is_some e.serial_number

-- Django's `save` of a row: the row with its primary key is replaced, or the row is added.
unfoldable pub save_module : DeviceModule → Inventory → Inventory
save_module m inv = record inv { modules = m ∷ select (λ r. not (r.id == m.id)) inv.modules }

unfoldable pub save_item : InventoryItem → Inventory → Inventory
save_item i inv = record inv { items = i ∷ select (λ r. not (r.id == i.id)) inv.items }
