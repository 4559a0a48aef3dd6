-- ===== src/Transceivers.antt =====
-- The transceivers of a device: SyncService._apply_transceivers and the parser of the entries that
-- TextFSM yields (network/services/sync_service.py). The entries of the raw output are a parameter.
pub mod Apply
pub mod Once
pub mod Current
mod Tests
use zas.Prelude.{
  ℕ, ◌-◌, Bool, true, false, not, ◌&&◌, ◌||◌, Option, none, some, List, [], ◌∷◌, ◌++◌, ◌==◌, leb,
  length, if◌then◌else◌, is_empty, all, any, take, is_some,
}
use zas.Text.{Text, codes, text_eq, is_one_of, lower, strip, contains, ends_with, join, get}
use zas.Serial.{has_valid_serial}

-- A value of a parsed entry.
pub data Value : Type 0 where
  str : Text → Value
  flag : Bool → Value
  other : Value

abbrev pub ParsedEntry : Type 0
ParsedEntry = List (Text × Value)

filled : Option Value → Option Text
filled (some (str t)) = if is_empty (strip t) then none else some (strip t)
filled (some (flag b)) = none
filled (some other) = none
filled none = none

-- _first_match
pub first_match : List Text → ParsedEntry → Option Text
unfolding filled
first_match [] entry = none
first_match (key ∷ keys) entry =
    let rest = first_match keys entry in
    elim (filled (get key entry)) [ none ↦ rest | some t ↦ some t ]

-- what one key says of the presence, if it says anything
present_by : Option Value → Option Bool
present_by (some (str value)) =
    let v = lower value in
    if contains (codes "not present") v || (contains (codes "absent") v || text_eq v (codes "no"))
    then some false
    else if contains (codes "present") v || is_one_of v (codes "yes" ∷ codes "true" ∷ [])
    then some true
    else none
present_by (some (flag b)) = some b
present_by (some other) = none
present_by none = none

-- the loop of _is_transceiver_present
present_in : List Text → ParsedEntry → Bool
unfolding present_by
present_in [] entry = true
present_in (key ∷ keys) entry =
    let rest = present_in keys entry in
    elim (present_by (get key entry)) [ none ↦ rest | some b ↦ b ]

pub is_transceiver_present : ParsedEntry → Bool
unfolding present_in
is_transceiver_present entry =
    present_in (codes "present" ∷ codes "transceiver" ∷ codes "status" ∷ codes "state" ∷ []) entry

is_letter : ℕ → Bool
is_letter c = leb b'A' c && leb c b'Z' || leb b'a' c && leb c b'z'

-- the characters of `[0-9/.-]`
is_port : ℕ → Bool
is_port c = leb b'-' c && leb c b'9'

after_letters : Text → Text
unfolding is_letter
after_letters [] = []
after_letters (c ∷ s) = let rest = after_letters s in if is_letter c then rest else c ∷ s

starts_alpha : Text → Bool
unfolding is_letter
starts_alpha [] = false
starts_alpha (c ∷ s) = is_letter c

-- `$` also matches before a line break at the end
without_break : Text → Text
without_break s = if ends_with s (codes "\n") then take (length s - 1) s else s

-- _looks_like_interface
unfoldable pub looks_like_interface : Text → Bool
unfolding after_letters starts_alpha is_port without_break
looks_like_interface value =
    let ports = after_letters (without_break value) in
    starts_alpha value && (not (is_empty ports) && all is_port ports)

present_text : Option Text → Bool
present_text none = false
present_text (some t) = not (is_empty t)

-- _format_transceiver_name
pub format_transceiver_name : Option Text → Option Text → Option Text → Text
unfolding present_text
format_transceiver_name (some (c ∷ s)) module_type serial = codes "Transceiver " ++ c ∷ s
format_transceiver_name none (some (c ∷ s)) serial = codes "Transceiver " ++ c ∷ s
format_transceiver_name (some []) (some (c ∷ s)) serial = codes "Transceiver " ++ c ∷ s
format_transceiver_name none none (some (c ∷ s)) = codes "Transceiver " ++ c ∷ s
format_transceiver_name none (some []) (some (c ∷ s)) = codes "Transceiver " ++ c ∷ s
format_transceiver_name (some []) none (some (c ∷ s)) = codes "Transceiver " ++ c ∷ s
format_transceiver_name (some []) (some []) (some (c ∷ s)) = codes "Transceiver " ++ c ∷ s
format_transceiver_name _ _ _ = codes "Transceiver"

listed : Option Text → List Text
listed none = []
listed (some []) = []
listed (some (c ∷ s)) = (c ∷ s) ∷ []

numbered : Option Text → List Text
numbered none = []
numbered (some []) = []
numbered (some (c ∷ s)) = (codes "PN " ++ c ∷ s) ∷ []

-- `parts`, where a vendor's name that is there already is not added
with_vendor : List Text → Option Text → List Text
unfolding listed
with_vendor parts none = parts
with_vendor parts (some v) = if is_one_of v parts then parts else parts ++ listed (some v)

joined : List Text → Option Text
joined [] = none
joined (p ∷ parts) = some (join (codes " / ") (p ∷ parts))

-- _format_transceiver_description
pub format_transceiver_description : Option Text → Option Text → Option Text → Option Text
unfolding listed numbered with_vendor joined
format_transceiver_description module_type vendor_name part_number =
    joined (with_vendor (listed module_type) vendor_name ++ numbered part_number)

pub record Transceiver : Type 0 where
  pub name : Text
  pub description : Option Text
  pub serial : Option Text

name_text : Option Value → Text
name_text (some (str t)) = t
name_text (some (flag b)) = []
name_text (some other) = []
name_text none = []

or_name : Option Text → Text → Option Text
or_name (some i) name = some i
or_name none name = if looks_like_interface name then some name else none

-- the entry that is appended for a parsed one
transceiver : ParsedEntry → Transceiver
unfolding first_match format_transceiver_name format_transceiver_description name_text or_name
transceiver entry =
    let name_value = name_text (get (codes "name") entry) in
    let interface =
      or_name
        (first_match (codes "interface" ∷ codes "port" ∷ codes "intf" ∷ codes "interface_name" ∷ [])
          entry)
        name_value in
    let module_type =
      first_match
        (codes "type"
          ∷ codes "module_type"
          ∷ codes "transceiver"
          ∷ codes "product_id"
          ∷ codes "pid"
          ∷ [])
        entry in
    let serial = first_match (codes "serial" ∷ codes "serial_number" ∷ codes "sn" ∷ []) entry in
    let part_number =
      first_match (codes "part_number" ∷ codes "part" ∷ codes "partnum" ∷ codes "pn" ∷ []) entry in
    record {
      name = format_transceiver_name interface module_type serial;
      description = format_transceiver_description module_type (some name_value) part_number;
      serial = serial;
    }

-- _parse_transceivers_from_parsed
unfoldable pub parse_transceivers : List ParsedEntry → List Transceiver
unfolding transceiver is_transceiver_present has_valid_serial
parse_transceivers [] = []
parse_transceivers (e ∷ parsed) =
    let rest = parse_transceivers parsed in
    let t = transceiver e in
    if is_transceiver_present e && has_valid_serial t.serial then t ∷ rest else rest

-- _parse_transceiver_entries, where `raw` holds the entries of the raw output
unfoldable pub transceiver_entries : List ParsedEntry → List Transceiver → List Transceiver
unfolding parse_transceivers
transceiver_entries parsed raw =
    let entries = parse_transceivers parsed in if is_empty entries then raw else entries
