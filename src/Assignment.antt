-- ===== src/Assignment.antt =====
-- The assignment of a discovered candidate: AutoAssignmentService
-- (network/services/auto_assignment_service.py). Here is what the service reads from names; the tables
-- are in the child Tables, and `assign` in Assign.
pub mod Assign
pub mod Placed
mod Tests
use zas.Prelude.{
  ℕ, ◌+◌, ◌*◌, ◌-◌, Bool, true, false, not, ◌&&◌, ◌||◌, Option, none, some, List, [], ◌∷◌, ◌++◌,
  map, ◌==◌, leb, if◌then◌else◌, is_empty, select, get_or, or_else, is_some, all, Result, ok, err,
}
use zas.Text.{
  Text, codes, lower, upper, strip, split_on, split_lines, words, starts_with, contains, before,
  add_name, is_number, digits_value,
}
use zas.Dcim.{Platform}

pub data AssignError : Type 0 where
  no_credential : AssignError
  no_connection : AssignError
  location_empty : AssignError
  location_format : AssignError
  hostname_missing : AssignError
  hostname_format : AssignError
  area_not_found : AssignError
  several_areas : AssignError
  rack_not_found : AssignError
  several_racks : AssignError
  no_units : AssignError
  no_vendor : AssignError
  no_device_type : AssignError
  not_unique : AssignError

-- "leaf" or "spine" in the lowered name
unfoldable pub is_fabric : Text → Bool
is_fabric hostname =
    contains (codes "leaf") (lower hostname) || contains (codes "spine") (lower hostname)

-- _resolve_username
pub resolve_username : Text → Text → Text
unfolding is_fabric
resolve_username hostname username =
    let prefix = codes "apic#ISE\\\\" in
    if is_fabric hostname && not (starts_with username prefix) then prefix ++ username else username

-- what follows the first colon: `line.partition(":")[2]`
after_colon : Text → Text
after_colon [] = []
after_colon (c ∷ s) = let rest = after_colon s in if c == b':' then s else rest

names_location : Text → Bool
names_location line =
    contains (codes "sys location") (lower line) || contains (codes "system location") (lower line)

-- the loop over the lines; the first line is the default
location_target : Text → List Text → Text
unfolding names_location after_colon
location_target default [] = default
location_target default (line ∷ lines) =
    let rest = location_target default lines in
    let value = strip (after_colon line) in
    if names_location line && not (is_empty value) then value else rest

-- `\d+(?:\.\d+)?` as a number of tenths; further digits are cut
tenths : List Text → Option ℕ
unfolding is_number digits_value
tenths (whole ∷ []) = if is_number whole then some (digits_value 0 whole * 10) else none
tenths (whole ∷ part ∷ []) =
    if is_number whole && is_number part
    then some (digits_value 0 whole * 10 + (get_or part 0 b'0' - b'0'))
    else none
tenths _ = none

-- the unit behind its letter
unit_of : Text → Option ℕ
unfolding tenths
unit_of [] = none
unit_of (c ∷ s) = if c == b'U' || c == b'u' then tenths (split_on b'.' s) else none

-- An area, a rack, and a unit in tenths.
pub record Location : Type 0 where
  pub area : Text
  pub rack : Text
  pub unit : Option ℕ

with_unit : Text → Text → Option ℕ → Option Location
with_unit area rack none = none
with_unit area rack (some unit) = some (record { area = area; rack = rack; unit = some unit })

-- LOCATION_RE, by the words of the text
match_location : List Text → Option Location
unfolding unit_of with_unit
match_location (area ∷ rack ∷ []) = some (record { area = area; rack = rack; unit = none })
match_location (area ∷ rack ∷ unit ∷ []) = with_unit area rack (unit_of unit)
match_location _ = none

virtual : Text → Location → Location
virtual hostname l =
    if contains (codes "-vm-") (lower hostname) then record l { area = codes "VCenter" } else l

-- the end of `_parse_snmp_location`, where ACI is no matter
snmp_location : Text → List Text → Option Location
unfolding match_location location_target virtual
snmp_location hostname [] = none
snmp_location hostname (line ∷ lines) =
    elim (match_location (words (location_target line (line ∷ lines)))) [
      | none ↦ none
      | some l ↦ some (virtual hostname l)
    ]

-- the lines of the output that are not blank
location_lines : Text → List Text
location_lines raw = select (λ l. not (is_empty l)) (map strip (split_lines raw))

-- the parts of the host's name, without the domain
aci_parts : Text → List Text
aci_parts hostname = select (λ p. not (is_empty p)) (split_on b'-' (before b'.' hostname))

aci_of : List Text → Option Location
aci_of (first ∷ area ∷ rack ∷ rest) =
    some (record { area = area; rack = codes "Rack" ++ rack; unit = none })
aci_of _ = none

or_error : AssignError → Option Location → Result AssignError Location
or_error e none = err e
or_error e (some l) = ok l

-- _parse_snmp_location with _parse_aci_location_from_hostname
unfoldable pub parse_location : Bool → Text → Text → Result AssignError Location
unfolding aci_parts aci_of location_lines snmp_location or_error
parse_location true hostname raw =
    let name = lower hostname in
    if is_empty name
    then err hostname_missing
    else or_error hostname_format (aci_of (aci_parts name))
parse_location false hostname raw =
    let lines = location_lines raw in
    if is_empty lines
    then err location_empty
    else or_error location_format (snmp_location hostname lines)

-- _resolve_role
pub role_name : Text → Text
role_name hostname =
    let name = lower hostname in
    if contains (codes "apic") name
    then codes "Controller"
    else if contains (codes "core") name
    then codes "Core"
    else if contains (codes "leaf") name
    then codes "Leaf"
    else if contains (codes "spine") name
    then codes "Spine"
    else codes "Access Switch"

when : Bool → List Text → List Text
when true names = names
when false names = []

-- the names in _resolve_tags and the two that `assign` adds, as a set
pub tag_names : Text → Text → List Text
unfolding when is_fabric
tag_names hostname device_name =
    let name = lower hostname in
    let management = contains (codes "bmsw") name || contains (codes "mgmt") name in
    let extra =
      contains (codes "mgmt") (lower device_name) || contains (codes "bmsw") (lower device_name) in
    codes "reachability_check_tag"
      ∷ codes "discovered-new"
      ∷ when (contains (codes "bcsw") name) (codes "campus" ∷ codes "config_backup_tag" ∷ [])
    ++ when management (codes "management" ∷ codes "config_backup_tag" ∷ [])
    ++ when (contains (codes "bpp") name) (codes "post_pro" ∷ codes "config_backup_tag" ∷ [])
    ++ when (is_fabric hostname) (codes "aci_fabric" ∷ [])
    ++ when extra (codes "management" ∷ codes "config_backup_tag" ∷ [])

-- _detect_platform
pub detect_platform : Text → Option Platform
detect_platform version_raw =
    let text = upper version_raw in
    if contains (codes "NX-OS") text
    then some Platform.nx_os
    else if contains (codes "IOS") text
    then some Platform.ios
    else some Platform.unknown_platform
