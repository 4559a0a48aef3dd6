-- ===== src/DeviceSync/Model.antt =====
-- The type of a device from its output: SyncService._model_from_inventory,
-- _extract_model_from_version and _update_device_type (network/services/sync_service.py).
use zas.Prelude.{
  Bool, true, false, not, ◌&&◌, ◌||◌, Option, none, some, List, [], ◌∷◌, ◌==◌, if◌then◌else◌,
  is_empty, any, or_else,
}
use zas.Text.{Text, codes, text_eq, lower, upper, strip, starts_with, contains, iexact}
use zas.Dcim.{DeviceType, Device}
use zas.Sync.{first_text, or_text}
use zas.Rack.{Db, save_device}
use zas.DeviceSync.Output.{Column, text, texts, VersionEntry, Part, pid_of}

-- the first part number of an entry that passes
unfoldable pub find_pid : (Part → Bool) → List Part → Option Text
find_pid p [] = none
find_pid p (e ∷ entries) =
    let rest = find_pid p entries in
    if p e && not (is_empty (pid_of e)) then some (pid_of e) else rest

serial_of : Part → Text
unfolding first_text
serial_of e = strip (or_else (first_text e.entry.sn e.entry.serial) [])

unfoldable pub has_serial : Text → Part → Bool
unfolding serial_of
has_serial serial e =
    not (is_empty serial) && (not (is_empty (serial_of e)) && text_eq (serial_of e) serial)

unfoldable pub is_chassis : Part → Bool
unfolding or_text
is_chassis e =
    let name = lower (strip (or_text e.entry.name [])) in
    contains (codes "chassis") name || starts_with name (codes "switch")

abbrev skip_tokens : List Text
skip_tokens =
    codes "STACK"
    ∷ codes "SFP"
    ∷ codes "QSFP"
    ∷ codes "FAN"
    ∷ codes "PWR"
    ∷ codes "PSU"
    ∷ codes "NM-"
    ∷ codes "TRANSCEIVER"
    ∷ []

unfoldable pub is_skipped : Part → Bool
is_skipped e = any (λ token. contains token (upper (pid_of e))) skip_tokens

unfoldable pub or_next : Option Text → Option Text → Option Text
or_next none b = b
or_next (some a) b = some a

-- _model_from_inventory
unfoldable pub model_from_inventory : List Part → Option Text → Option Text
unfolding find_pid has_serial is_chassis is_skipped or_next
model_from_inventory entries device_serial =
    let serial = strip (or_else device_serial []) in
    or_next (find_pid (has_serial serial) entries) (
      or_next (find_pid is_chassis entries)
        (or_next (find_pid (λ e. not (is_skipped e)) entries) (find_pid (λ e. true) entries)))

-- the value of a column, if it has one
column_model : Option Column → Option Text
column_model none = none
column_model (some (text t)) = if is_empty (strip t) then none else some (strip t)
column_model (some (texts [])) = none
column_model (some (texts (t ∷ ts))) = some t

-- _extract_model_from_version
unfoldable pub extract_model_from_version : Option VersionEntry → Option Text
unfolding column_model or_next
extract_model_from_version none = none
extract_model_from_version (some e) =
    or_next (column_model e.hardware)
      (or_next (column_model e.model) (or_next (column_model e.platform) (column_model e.chassis)))

unfoldable pub same_vendor : Option DeviceType → DeviceType → Bool
same_vendor none t = true
same_vendor (some mine) t = t.vendor == mine.vendor

-- `qs.first()`: the first type, in the order of the table, of the model and of the device's vendor
unfoldable pub find_type : Text → Option DeviceType → List DeviceType → Option DeviceType
unfolding same_vendor
find_type model mine [] = none
find_type model mine (t ∷ types) =
    let rest = find_type model mine types in
    if iexact t.model model && same_vendor mine t then some t else rest

unfoldable pub same_type : Option DeviceType → DeviceType → Bool
same_type none t = false
same_type (some mine) t = mine.id == t.id

-- the device with the type, if it is another
unfoldable pub set_type : Device → Db → Option DeviceType → Device × Db
unfolding same_type
set_type dev db none = (dev, db)
set_type dev db (some t) =
    let dev' = record dev { device_type = some t } in
    if same_type dev.device_type t then (dev, db) else (dev', save_device dev' db)

-- what follows the choice of the model
unfoldable pub type_for : Option Text → Device → List DeviceType → Option DeviceType
unfolding find_type
type_for none dev types = none
type_for (some []) dev types = none
type_for (some (c ∷ model)) dev types = find_type (c ∷ model) dev.device_type types

-- `model_from_inventory(...)`, or else the model of the version
unfoldable pub reported_model : List Part → Option VersionEntry → Device → Option Text
unfolding model_from_inventory extract_model_from_version or_next
reported_model entries version dev =
    or_next (model_from_inventory entries dev.serial_number) (extract_model_from_version version)

-- _update_device_type
unfoldable pub update_device_type :
    List Part → Option VersionEntry → List DeviceType → Device → Db → Device × Db
unfolding reported_model type_for set_type
update_device_type entries version types dev db =
    set_type dev db (type_for (reported_model entries version dev) dev types)
