-- ===== src/Interfaces.antt =====
-- The interfaces of a device: dcim/models/interface.py and SyncService._apply_interfaces with its helpers
-- (network/services/sync_service.py). The table is here with the names, kinds, states and speeds.
pub mod Reports
pub mod Apply
mod Tests
use zas.Prelude.{
  ℕ, ◌+◌, ◌*◌, ◌-◌, Bool, true, false, not, ◌&&◌, ◌||◌, Option, none, some, List, [], ◌∷◌, ◌++◌,
  ◌==◌, leb, if◌then◌else◌, length, drop, any, is_empty,
}
use zas.Text.{
  Text, codes, text_eq, is_one_of, lower, strip, is_space, starts_with, contains, is_digit,
}

pub data InterfaceStatus : Type 0 where
  up : InterfaceStatus
  down : InterfaceStatus
  disabled : InterfaceStatus
  connected : InterfaceStatus
  notconnected : InterfaceStatus
  err_disabled : InterfaceStatus
  xcvr_absence : InterfaceStatus
  inactive : InterfaceStatus
  unknown : InterfaceStatus

pub data InterfaceKind : Type 0 where
  physical : InterfaceKind
  port_channel : InterfaceKind
  svi : InterfaceKind
  loopback : InterfaceKind
  tunnel : InterfaceKind

pub data InterfaceMode : Type 0 where
  l2 : InterfaceMode
  l3 : InterfaceMode

pub data SwitchportMode : Type 0 where
  access : SwitchportMode
  trunk : SwitchportMode
  dynamic : SwitchportMode
  dot1q_tunnel : SwitchportMode
  private_vlan : SwitchportMode

pub record Interface : Type 0 where
  pub id : ℕ
  pub name : Text
  pub device : ℕ
  pub mac_address : Option Text
  pub ip_address : Option Text
  pub status : InterfaceStatus
  pub endpoint : Option Text
  pub speed : Option ℕ
  pub duplex : Option Text
  pub speed_mode : Option Text
  pub switchport_enabled : Bool
  pub switchport_mode : Option SwitchportMode
  pub access_vlan : Option ℕ
  pub native_vlan : Option ℕ
  pub vlan_raw : Text
  pub is_trunk : Bool
  pub is_virtual : Bool
  pub kind : InterfaceKind
  pub mode : Option InterfaceMode
  pub lag : Option ℕ
  pub lag_mode : Option Text
  pub description : Option Text

-- The defaults of the columns.
pub new_interface : ℕ → ℕ → Text → Interface
new_interface id device name = record {
  id = id;
  name = name;
  device = device;
  mac_address = none;
  ip_address = none;
  status = down;
  endpoint = none;
  speed = none;
  duplex = none;
  speed_mode = none;
  switchport_enabled = false;
  switchport_mode = none;
  access_vlan = none;
  native_vlan = none;
  vlan_raw = [];
  is_trunk = false;
  is_virtual = false;
  kind = physical;
  mode = none;
  lag = none;
  lag_mode = none;
  description = none;
}

-- `re.sub("^" + pattern, short, n, flags=re.IGNORECASE)` for a pattern of letters
shorten : Text → Text → Text → Text
shorten pattern short n =
    if starts_with (lower n) (lower pattern) then short ++ drop (length pattern) n else n

pub short_name : Text → Text
unfolding shorten
short_name n =
    let n = shorten (codes "Port-channel") (codes "Po") n in
    let n = shorten (codes "GigabitEthernet") (codes "Gi") n in
    let n = shorten (codes "TenGigabitEthernet") (codes "Te") n in
    let n = shorten (codes "FortyGigabitEthernet") (codes "Fo") n in
    let n = shorten (codes "TwentyFiveGigE") (codes "Tw") n in
    let n = shorten (codes "HundredGigE") (codes "Hu") n in
    shorten (codes "Ethernet") (codes "Eth") n

-- _normalize_iface; a name that is not there is empty
unfoldable pub normalize_iface : Option Text → Text
unfolding short_name
normalize_iface none = []
normalize_iface (some name) = if is_empty name then [] else short_name (strip name)

-- _infer_kind
pub infer_kind : Text → InterfaceKind
infer_kind name =
    let n = lower name in
    if starts_with n (codes "po")
    then port_channel
    else if starts_with n (codes "vlan")
    then svi
    else if starts_with n (codes "loopback")
    then loopback
    else if starts_with n (codes "tunnel")
    then tunnel
    else physical

-- the value of the digits so far, and what follows them; `some` is a unit of gigabits
after_digits : Text → Bool
after_digits [] = false
after_digits (c ∷ s) = let rest = after_digits s in if is_space c then rest else c == b'g'

digits_from : ℕ → Text → ℕ
unfolding is_digit after_digits
digits_from value [] = value
digits_from value (c ∷ s) =
    let more = digits_from (value * 10 + (c - b'0')) s in
    if is_digit c then more else if after_digits (c ∷ s) then value * 1000 else value

-- the match of `(\d+)\s*(g|m)?`, as the speed in megabits
first_number : Text → Option ℕ
unfolding digits_from is_digit
first_number [] = none
first_number (c ∷ s) =
    let rest = first_number s in if is_digit c then some (digits_from 0 (c ∷ s)) else rest

-- _parse_speed
pub parse_speed : Text → Option ℕ
unfolding first_number
parse_speed speed_raw =
    let s = lower speed_raw in
    if is_empty speed_raw
    then none
    else if is_one_of s (codes "auto" ∷ codes "a-auto" ∷ codes "unknown" ∷ codes "n/a" ∷ [])
    then none
    else first_number s

-- _map_status
pub map_status : Text → InterfaceStatus
map_status status_raw =
    if is_empty status_raw
    then down
    else if contains (codes "up") status_raw
    then up
    else if contains (codes "notconnec") status_raw
    then notconnected
    else if contains (codes "err") status_raw
    then err_disabled
    else if contains (codes "disabled") status_raw
    then disabled
    else if contains (codes "connected") status_raw
    then connected
    else if contains (codes "xcvrabsen") status_raw
    then xcvr_absence
    else if contains (codes "inactive") status_raw
    then inactive
    else unknown

-- _map_status_from_ip_brief
pub map_status_from_ip_brief : Text → Text → InterfaceStatus
map_status_from_ip_brief status_raw proto_raw =
    let status = lower (strip status_raw) in
    let proto = lower (strip proto_raw) in
    if text_eq status (codes "up") && text_eq proto (codes "up")
    then up
    else if is_one_of status
          (codes "administratively down" ∷ codes "admin down" ∷ codes "down" ∷ [])
        || text_eq proto (codes "down")
    then down
    else unknown
