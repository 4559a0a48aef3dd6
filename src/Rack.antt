-- ===== src/Rack.antt =====
-- Rack occupancy: `update_rack_occupied_units` and the `clean`, `save` and `delete` methods of Device
-- (dcim/models/device.py), and `_select_position` of the auto-assignment service
-- (network/services/auto_assignment_service.py).
pub mod Occupancy
pub mod Deletion
pub mod Covers
pub mod Position
pub mod Members
pub mod Clean
pub mod Sample
mod Tests
use zas.Prelude.{
  ℕ, zero, suc, ◌+◌, ◌-◌, ◌*◌, ◌/◌, ◌%◌, max, ◌≡◌, Bool, true, false, not, ◌&&◌, ◌||◌, Option, none,
  some, List, [], ◌∷◌, ◌++◌, ◌==◌, leb, ltb, if◌then◌else◌, is_some, or_else, same_key, length,
  select, any, all, get_elem?, find_row, write_row, is_empty, map, Result, ok, err,
}
use zas.Text.{Text, iexact, text_eq}
use zas.Dcim.{DeviceType, Device, Rack, RackBase, StackMember}
use zas.Serial.{normalize_serial_number}

-- A discovered address that awaits a decision (network/models/discovery.py), as far as
-- `Device.delete` reads it.
pub record Candidate : Type 0 where
  pub site : ℕ
  pub ip_address : Text
  pub hostname : Option Text

-- The tables that the methods of a device read and write.
pub record Db : Type 0 where
  pub devices : List Device
  pub racks : List Rack
  pub stack_members : List StackMember
  pub candidates : List Candidate

-- range(start, start + count)
pub range_from : ℕ → ℕ → List ℕ
range_from start zero = []
range_from start (suc count) = start ∷ range_from (start + 1) count

-- `dev.device_type.u_height` in whole units, at least 1
pub type_height : Option DeviceType → ℕ
type_height none = 1
type_height (some t) = if t.u_height == 0 then 1 else max 1 (t.u_height / 10)

unfoldable pub member_count : List StackMember → ℕ → ℕ
member_count members device = length (select (λ m. m.device == device) members)

unfoldable pub total_units : List StackMember → Device → ℕ
unfolding type_height member_count
total_units members dev =
    let stack_factor = if dev.is_stacked then member_count members dev.id else 1 in
    max 1 (type_height dev.device_type * max 1 stack_factor)

-- the units that one device fills
unfoldable pub units_at : List StackMember → Device → Option ℕ → List ℕ
unfolding range_from total_units
units_at members dev none = []
units_at members dev (some position) = range_from (position / 10) (total_units members dev)

unfoldable pub in_rack : ℕ → Device → Bool
in_rack rack_id dev = same_key dev.rack (some rack_id)

-- the loop over the devices of a rack
unfoldable pub occupied_by : List StackMember → List Device → List ℕ
unfolding units_at
occupied_by members [] = []
occupied_by members (dev ∷ devices) =
    units_at members dev dev.position ++ occupied_by members devices

unfoldable pub occupied : Db → ℕ → List ℕ
unfolding in_rack occupied_by
occupied db rack_id = occupied_by db.stack_members (select (in_rack rack_id) db.devices)

set_occupied : ℕ → List ℕ → List Rack → List Rack
set_occupied rack_id units [] = []
set_occupied rack_id units (r ∷ racks) =
    (if r.id == rack_id then record r { occupied_units = units } else r)
    ∷ set_occupied rack_id units racks

unfoldable pub update_rack_occupied_units : Option ℕ → Db → Db
unfolding occupied set_occupied
update_rack_occupied_units none db = db
update_rack_occupied_units (some rack_id) db = record db {
  racks = set_occupied rack_id (occupied db rack_id) db.racks;
}

-- `super().save()` of a device: the row with its primary key is replaced, or the row is added.
unfoldable pub write_device : Device → List Device → List Device
write_device = write_row (λ d. d.id)

pub rack_of : Option Device → Option ℕ
rack_of none = none
rack_of (some d) = d.rack

-- Device.save: the set of the two racks is walked in some order, each once
unfoldable pub save_device : Device → Db → Db
unfolding write_device rack_of update_rack_occupied_units
save_device dev db =
    let previous = rack_of (find_row (λ (d : Device). d.id) dev.id db.devices) in
    let saved = record db { devices = write_device dev db.devices } in
    if same_key previous dev.rack
    then update_rack_occupied_units dev.rack saved
    else update_rack_occupied_units dev.rack (update_rack_occupied_units previous saved)

optional_iexact : Option Text → Text → Bool
optional_iexact none t = false
optional_iexact (some s) t = iexact s t

-- the candidates that `Device.delete` removes; a device always has a site
concerns : Device → Candidate → Bool
unfolding optional_iexact
concerns dev c =
    let by_address = not (is_empty dev.management_ip) && text_eq c.ip_address dev.management_ip in
    let by_name = not (is_empty dev.name) && optional_iexact c.hostname dev.name in
    c.site == dev.site && (by_address || by_name)

-- Device.delete: the stack members go with the device (CASCADE), then the rack is recomputed, then the
-- candidates go.
unfoldable pub delete_device : Device → Db → Db
unfolding update_rack_occupied_units concerns
delete_device dev db =
    let deleted = record db {
      devices = select (λ d. not (d.id == dev.id)) db.devices;
      stack_members = select (λ m. not (m.device == dev.id)) db.stack_members;
    } in
    let updated = update_rack_occupied_units dev.rack deleted in
    record updated { candidates = select (λ c. not (concerns dev c)) updated.candidates }

-- all((start + offset) not in occupied for offset in range(required_units))
unfoldable pub is_free : List ℕ → ℕ → ℕ → Bool
unfolding range_from
is_free taken start count = all (λ u. not (any (λ x. x == u) taken)) (range_from start count)

-- the starts of the free blocks within the rack
unfoldable pub free_starts : List ℕ → ℕ → ℕ → List ℕ
unfolding is_free range_from
free_starts taken max_u required =
    select (λ start. is_free taken start required) (range_from 1 (max_u + 1 - required))

pub data PositionError : Type 0 where
  no_free_units : PositionError

in_tenths : Option ℕ → Result PositionError ℕ
in_tenths none = err no_free_units
in_tenths (some start) = ok (start * 10)

-- random.choice, where `draw` is the random number
choose : List ℕ → ℕ → Result PositionError ℕ
unfolding in_tenths
choose starts draw = in_tenths (get_elem? starts (draw % length starts))

unfoldable pub max_unit : Rack → ℕ
max_unit rack = if rack.u_height == 0 then 42 else rack.u_height

-- `_select_position`; the requested unit and the result are in tenths, and `draw` is the random number
unfoldable pub select_position : Rack → Option ℕ → ℕ → ℕ → Result PositionError ℕ
unfolding free_starts choose max_unit is_free
select_position rack none required draw =
    choose (free_starts rack.occupied_units (max_unit rack) required) draw
select_position rack (some requested) required draw =
    if not (requested == 0) && is_free rack.occupied_units (requested / 10) required
    then ok requested
    else choose (free_starts rack.occupied_units (max_unit rack) required) draw

pub data DeviceError : Type 0 where
  area_of_other_site rack_of_other_area unit_occupied no_platform : DeviceError

type_error : Option DeviceType → Option DeviceError
type_error none = none
type_error (some t) = if is_some t.platform then none else some no_platform

-- Device.objects.filter(rack=rack, position=position).exclude(pk=pk).exists()
pub unit_taken : Rack → Device → Db → Bool
unit_taken r dev db =
    any
      (λ d. same_key d.rack (some r.id) && same_key d.position dev.position && not (d.id == dev.id))
      db.devices

rack_error : Option Rack → Device → Db → Option DeviceError
unfolding unit_taken
rack_error none dev db = none
rack_error (some r) dev db =
    if not (r.area == dev.area)
    then some rack_of_other_area
    else if is_some dev.position && unit_taken r dev db
    then some unit_occupied
    else none

-- the first error that is raised
first_error : Option DeviceError → Option DeviceError → Option DeviceError
first_error none e = e
first_error (some e) _ = some e

-- Device.clean, where `area_site` is the site of the device's area and `rack` is its rack. The serial
-- comes back normalised, also where the validation raises.
unfoldable pub clean_device : ℕ → Option Rack → Device → Db → Device × Option DeviceError
unfolding normalize_serial_number type_error rack_error first_error
clean_device area_site rack dev db =
    let dev' = record dev { serial_number = normalize_serial_number dev.serial_number } in
    let area_error = if not (area_site == dev.site) then some area_of_other_site else none in
    (
      dev',
      first_error area_error (first_error (rack_error rack dev db) (type_error dev.device_type)),
    )
