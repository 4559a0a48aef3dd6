-- ===== src/Assignment/Assign.antt =====
-- The tables of the assignment and `assign` of AutoAssignmentService
-- (network/services/auto_assignment_service.py). What the session with the device yields is a parameter.
use zas.Prelude.{
  ℕ, Bool, true, false, not, ◌&&◌, ◌||◌, Option, none, some, List, [], ◌∷◌, ◌++◌, map, ◌==◌, ltb,
  max, if◌then◌else◌, is_empty, any, select, length, head?, Result, ok, err, and_then,
}
use zas.Text.{Text, codes, text_eq, iexact, is_one_of}
use zas.Dcim.{DeviceType, DeviceStatus, Source, Device, Rack, StackMember, StackRole, StackState}
use zas.Rack.{Db, save_device, update_rack_occupied_units, select_position, PositionError}
use zas.Discovery.{DiscoveryCandidate}
use zas.Assignment.{
  AssignError, no_credential, no_connection, area_not_found, several_areas, rack_not_found,
  several_racks, no_units, no_vendor, no_device_type, not_unique, is_fabric, Location,
  parse_location, role_name, tag_names,
}

pub record Area : Type 0 where
  pub id : ℕ
  pub site : ℕ
  pub name : Text

pub record Named : Type 0 where
  pub id : ℕ
  pub name : Text

-- The tables; of the credentials only the site matters here, and tags are their names.
pub record Tables : Type 0 where
  pub credential_sites : List ℕ
  pub areas : List Area
  pub vendors : List Named
  pub device_types : List DeviceType
  pub roles : List Named
  pub tags : List Text
  pub db : Db

-- One entry of the parsed output of "show switch".
pub record StackEntry : Type 0 where
  pub switch_number : ℕ
  pub role : StackRole
  pub mac_address : Text
  pub priority : Option ℕ
  pub version : Option Text
  pub state : StackState

-- What the session with the device yields: whether its version names ACI, the raw location, the model
-- from the inventory or the version, and the members of the stack.
pub record Facts : Type 0 where
  pub is_aci : Bool
  pub location_raw : Text
  pub model_name : Option Text
  pub stack_members : List StackEntry

-- Area.objects.get(site=..., name__iexact=...)
pub one_area : List Area → Result AssignError Area
one_area [] = err area_not_found
one_area (a ∷ []) = ok a
one_area (a ∷ b ∷ areas) = err several_areas

unfoldable pub one_rack : List Rack → Result AssignError Rack
one_rack [] = err rack_not_found
one_rack (r ∷ []) = ok r
one_rack (r ∷ s ∷ racks) = err several_racks

unfoldable pub rack_in : Area → Text → List Rack → Result AssignError (Area × Rack)
unfolding one_rack
rack_in area name racks =
    and_then (one_rack (select (λ (r : Rack). r.area == area.id && iexact r.name name) racks))
      (λ rack. ok (area, rack))

-- _resolve_area_and_rack
unfoldable pub resolve_area_and_rack : ℕ → Location → Tables → Result AssignError (Area × Rack)
unfolding one_area rack_in
resolve_area_and_rack site l t =
    and_then (one_area (select (λ (a : Area). a.site == site && iexact a.name l.area) t.areas))
      (λ area. rack_in area l.rack t.db.racks)

find_vendor : List Named → Option Named
find_vendor vendors = head? (select (λ (v : Named). iexact v.name (codes "Cisco")) vendors)

-- _resolve_device_type_obj, where the model that is not known has a name of its own
find_type : ℕ → Option Text → List DeviceType → Option DeviceType
find_type vendor none types =
    head? (select (λ t. t.vendor == vendor && iexact t.model (codes "Unknown (auto)")) types)
find_type vendor (some model) types =
    let value = if is_empty model then codes "Unknown (auto)" else model in
    head? (select (λ t. t.vendor == vendor && iexact t.model value) types)

-- the vendor and the type of the device
unfoldable pub resolve_type : Option Text → Tables → Result AssignError DeviceType
unfolding find_vendor find_type
resolve_type model t = elim (find_vendor t.vendors) [
  | none ↦ err no_vendor
  | some vendor ↦ elim (find_type vendor.id model t.device_types) [
    | none ↦ err no_device_type
    | some found ↦ ok found
  ]
]

role_id : ℕ → Option Named → ℕ
role_id fresh none = fresh
role_id fresh (some r) = r.id

-- _resolve_role: `get_or_create(name=...)`, where a new role gets the key `fresh`
resolve_role : ℕ → Text → List Named → ℕ × List Named
unfolding role_id
resolve_role fresh hostname roles =
    let name = role_name hostname in
    let found = head? (select (λ (r : Named). text_eq r.name name) roles) in
    (
      role_id fresh found,
      if is_empty (select (λ (r : Named). text_eq r.name name) roles)
          then roles ++ record { id = fresh; name = name } ∷ []
          else roles,
    )

-- The names of the tags that exist, each once.
known_tags : List Text → List Text → List Text
known_tags tags [] = []
known_tags tags (name ∷ names) =
    let rest = known_tags tags names in
    if any (λ t. iexact t name) tags && not (is_one_of name names) then name ∷ rest else rest

-- The arguments: the keys that the device and a role get, the time and the random number.
pub record Given : Type 0 where
  pub device_id : ℕ
  pub role_id : ℕ
  pub now : ℕ
  pub draw : ℕ

unfoldable pub required_units : Facts → ℕ
required_units f = max 1 (length f.stack_members)

device_name : DiscoveryCandidate → Text
device_name c = if is_empty c.hostname then c.ip_address else c.hostname

-- the row of `Device.objects.create` with its tags
unfoldable pub new_device :
    Given → DiscoveryCandidate → Facts → Area → Rack → ℕ → DeviceType → ℕ → List Text → Device
unfolding device_name
new_device given c f area rack position type role tags = record {
  id = given.device_id;
  name = device_name c;
  management_ip = c.ip_address;
  mac_address = none;
  serial_number = none;
  inventory_number = none;
  tags = tags;
  device_type = some type;
  role = some role;
  site = c.site;
  area = area.id;
  rack = some rack.id;
  is_stacked = ltb 1 (length f.stack_members);
  position = some position;
  face = none;
  airflow = none;
  image_version = none;
  status = DeviceStatus.active;
  source = Source.discovery;
  last_seen = none;
  uptime = none;
  last_reboot = none;
  created_at = given.now;
  updated_at = given.now;
}

unfoldable pub member_of : ℕ → StackEntry → StackMember
member_of device e = record {
  device = device;
  switch_number = e.switch_number;
  role = e.role;
  mac_address = e.mac_address;
  priority = e.priority;
  version = e.version;
  state = e.state;
}

-- the members of the device are replaced
unfoldable pub replace_members : ℕ → List StackEntry → List StackMember → List StackMember
unfolding member_of
replace_members device entries members =
    select (λ m. not (m.device == device)) members ++ map (member_of device) entries

-- the row, then the members if there are any, with the rack recomputed
unfoldable pub create_device : Device → ℕ → List StackEntry → Db → Db
unfolding replace_members
create_device dev rack entries db =
    let saved = save_device dev db in
    let members = replace_members dev.id entries saved.stack_members in
    if is_empty entries
    then saved
    else update_rack_occupied_units (some rack) (record saved { stack_members = members })

-- The result: the device, the tables and the candidate.
pub record Assigned : Type 0 where
  pub device : Device
  pub tables : Tables
  pub candidate : DiscoveryCandidate

-- what is written once all is resolved
unfoldable pub write :
    Given → DiscoveryCandidate → Facts → Tables → Area → Rack → ℕ → DeviceType → Assigned
unfolding resolve_role known_tags create_device new_device device_name
write given c f t area rack position type =
    let (role, roles) = resolve_role given.role_id c.hostname t.roles in
    let tags = known_tags t.tags (tag_names c.hostname (device_name c)) in
    let dev = new_device given c f area rack position type role tags in
    record {
      device = dev;
      tables = record t { roles = roles; db = create_device dev rack.id f.stack_members t.db };
      candidate = record c { accepted = some true; classified = true };
    }

unfoldable pub free_position : Result PositionError ℕ → Result AssignError ℕ
free_position (err e) = err no_units
free_position (ok position) = ok position

-- a device with the name or with the address of the new one, which both are unique
unfoldable pub is_taken : DiscoveryCandidate → List Device → Bool
unfolding device_name
is_taken c devices =
    any (λ d. text_eq d.name (device_name c) || text_eq d.management_ip c.ip_address) devices

-- two members with one number, which a device must not have
unfoldable pub has_repeat : List StackEntry → Bool
has_repeat [] = false
has_repeat (e ∷ entries) =
    any (λ (x : StackEntry). x.switch_number == e.switch_number) entries || has_repeat entries

-- What creates the device and its members raises an IntegrityError where a unique value is taken.
unfoldable pub unless_taken : Bool → Assigned → Result AssignError Assigned
unless_taken true a = err not_unique
unless_taken false a = ok a

-- from the unit on
unfoldable pub place :
    Given
    → DiscoveryCandidate
    → Facts
    → Tables
    → Option ℕ
    → Area × Rack
    → Result AssignError Assigned
unfolding free_position unless_taken is_taken has_repeat
place given c f t unit found =
    and_then (free_position (select_position found.1 unit (required_units f) given.draw))
      (λ position. and_then (resolve_type f.model_name t) (λ type.
        unless_taken (is_taken c t.db.devices || has_repeat f.stack_members)
          (write given c f t found.0 found.1 position type)))

unfoldable pub located :
    Given → DiscoveryCandidate → Facts → Tables → Location → Result AssignError Assigned
unfolding place
located given c f t l = and_then (resolve_area_and_rack c.site l t) (place given c f t l.unit)

unfoldable pub connected :
    Given → DiscoveryCandidate → Option Facts → Tables → Result AssignError Assigned
unfolding located
connected given c none t = err no_connection
connected given c (some f) t =
    and_then (parse_location (is_fabric c.hostname || f.is_aci) c.hostname f.location_raw)
      (located given c f t)

-- `assign`, up to the sync that follows it; the facts are none where no session comes about. An error
-- undoes all, since it runs in a transaction.
unfoldable pub assign :
    Given → DiscoveryCandidate → Option Facts → Tables → Result AssignError Assigned
unfolding connected
assign given c facts t =
    if any (λ s. s == c.site) t.credential_sites
    then connected given c facts t
    else err no_credential
