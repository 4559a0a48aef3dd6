-- ===== src/Interfaces/Reports.antt =====
-- The four loops of _apply_interfaces over the parsed output (network/services/sync_service.py), which
-- gather what it says of each interface.
pub mod Addresses
use zas.Prelude.{
  Bool, not, ◌&&◌, Option, none, some, List, [], ◌∷◌, if◌then◌else◌, is_empty, map, Result, ok, err,
  ℕ,
}
use zas.Text.{
  Text, codes, lower, strip, starts_with, is_one_of, contains, words, before, get, put, keys,
  add_name, add_names,
}
use zas.Sync.{or_text, first_text}
use zas.Interfaces.{normalize_iface, parse_speed}

-- The entries of the parsed output, one record for each command; a key that is missing is `none`.
pub record DescEntry : Type 0 where
  pub port : Option Text
  pub interface : Option Text
  pub description : Option Text

pub record StatusEntry : Type 0 where
  pub port : Option Text
  pub interface : Option Text
  pub vlan : Option Text
  pub vlan_id : Option Text
  pub vlan_upper : Option Text
  pub status : Option Text
  pub speed : Option Text
  pub duplex : Option Text

pub record IpEntry : Type 0 where
  pub intf : Option Text
  pub interface : Option Text
  pub ipaddr : Option Text
  pub ip_address : Option Text
  pub status : Option Text
  pub proto : Option Text

-- "member_interface" is a list, whose elements may be no texts, or a text
pub data Members : Type 0 where
  no_members : Members
  member_list : List (Option Text) → Members
  one_member : Text → Members

pub record PoEntry : Type 0 where
  pub port_channel : Option Text
  pub bundle_name : Option Text
  pub bundle : Option Text
  pub portchannel : Option Text
  pub interfaces : Option Text
  pub member_interface : Members

pub record Reports : Type 0 where
  pub desc_result : List DescEntry
  pub status_result : List StatusEntry
  pub ip_result : List IpEntry
  pub po_result : List PoEntry

-- The values of `status_map` and of `ip_map`.
pub record PortStatus : Type 0 where
  pub status : Text
  pub vlan : Text
  pub vlan_raw : Option Text
  pub speed : Option ℕ
  pub speed_mode : Option Text
  pub duplex : Option Text

pub record IpData : Type 0 where
  pub ip : Text
  pub status : Text
  pub proto : Text

-- Python's ipaddress: `str(ip_address(s))` and `str(ip_interface(s).ip)`; `none` is a ValueError
pub record IpParsers : Type 0 where
  pub ip_address : Text → Option Text
  pub ip_interface : Text → Option Text

pub data ApplyError : Type 0 where
  key_error : ApplyError
  several_found : ApplyError
  null_column : ApplyError

-- `text or None`
non_empty : Text → Option Text
non_empty t = if is_empty t then none else some t

pub add_desc : DescEntry → List (Text × Text) → List (Text × Text)
unfolding or_text first_text
add_desc e desc_map =
    let name = normalize_iface (first_text e.port e.interface) in
    if is_empty name
    then desc_map
    else if contains (codes "Vl") name
    then desc_map
    else put name (strip (or_text e.description [])) desc_map

pub add_descs : List DescEntry → List (Text × Text) → List (Text × Text)
unfolding add_desc
add_descs [] desc_map = desc_map
add_descs (e ∷ entries) desc_map = add_descs entries (add_desc e desc_map)

port_status : StatusEntry → PortStatus
unfolding non_empty or_text first_text
port_status e =
    let vlan_raw = strip (or_text (first_text e.vlan (first_text e.vlan_id e.vlan_upper)) []) in
    let speed_raw = strip (or_text e.speed []) in
    record {
      status = lower (or_text e.status []);
      vlan = lower vlan_raw;
      vlan_raw = non_empty vlan_raw;
      speed = parse_speed speed_raw;
      speed_mode = non_empty speed_raw;
      duplex = non_empty (strip (or_text e.duplex []));
    }

pub add_status : StatusEntry → List (Text × PortStatus) → List (Text × PortStatus)
unfolding port_status first_text
add_status e status_map =
    let name = normalize_iface (first_text e.port e.interface) in
    if is_empty name then status_map else put name (port_status e) status_map

pub add_statuses : List StatusEntry → List (Text × PortStatus) → List (Text × PortStatus)
unfolding add_status
add_statuses [] status_map = status_map
add_statuses (e ∷ entries) status_map = add_statuses entries (add_status e status_map)

-- What the loop over the addresses gathers.
pub record IpMaps : Type 0 where
  pub ip_names : List Text
  pub ip_map : List (Text × IpData)
  pub ip_seen : List (Text × IpData)

-- the test before an address is parsed
unfoldable pub is_address_text : Text → Bool
is_address_text ip_value =
    not (is_empty ip_value)
    && (not (is_one_of (lower ip_value) (codes "unassigned" ∷ codes "unnumbered" ∷ []))
        && not (starts_with ip_value (codes "(")))

unfoldable pub parsed_ip : IpParsers → Text → Option Text
parsed_ip lib ip_value =
    if contains (codes "/") ip_value then lib.ip_interface ip_value else lib.ip_address ip_value

-- `if parsed_ip: ip_map[name] = ...`
pub with_ip : Text → Option Text → IpEntry → List (Text × IpData) → List (Text × IpData)
unfolding or_text
with_ip name none e ip_map = ip_map
with_ip name (some []) e ip_map = ip_map
with_ip name (some (c ∷ ip)) e ip_map =
    put name
      (record {
        ip = c ∷ ip;
        status = lower (or_text e.status []);
        proto = lower (or_text e.proto []);
      })
      ip_map

-- `ip_seen[name] = ip_map[name]`
pub see_ip : Text → List (Text × IpData) → IpMaps → Result ApplyError IpMaps
see_ip name ip_map maps = elim (get name ip_map) [
  | none ↦ err key_error
  | some ip_data ↦ ok (record maps { ip_map = ip_map; ip_seen = put name ip_data maps.ip_seen })
]

pub add_ip : IpParsers → IpEntry → IpMaps → Result ApplyError IpMaps
unfolding with_ip see_ip or_text first_text
add_ip lib e maps =
    let name = normalize_iface (first_text e.intf e.interface) in
    let ip_value = strip (or_text (first_text e.ipaddr e.ip_address) []) in
    let named = record maps { ip_names = add_name name maps.ip_names } in
    if is_empty name
    then ok maps
    else if is_address_text ip_value
    then see_ip name (with_ip name (parsed_ip lib ip_value) e maps.ip_map) named
    else ok named

pub add_ips : IpParsers → List IpEntry → IpMaps → Result ApplyError IpMaps
unfolding add_ip
add_ips lib [] maps = ok maps
add_ips lib (e ∷ entries) maps = elim (add_ip lib e maps) [
  | err x ↦ err x
  | ok maps' ↦ add_ips lib entries maps'
]

-- the names of the members, those that are no text left empty
pub members_of : PoEntry → List (Option Text)
members_of e = elim e.interfaces [
  | some listed ↦ map (λ w. some w) (words listed)
  | none ↦ elim e.member_interface [
    | no_members ↦ []
    | member_list ms ↦ ms
    | one_member m ↦ some m ∷ []
  ]
]

pub before_paren : Option Text → Text
before_paren none = []
before_paren (some m) = before b'(' m

pub add_members : Text → List (Option Text) → List (Text × Text) → List (Text × Text)
unfolding before_paren
add_members po [] lag_map = lag_map
add_members po (m ∷ ms) lag_map =
    let member = normalize_iface (some (before_paren m)) in
    add_members po ms (if is_empty member then lag_map else put member po lag_map)

pub add_po : PoEntry → List (Text × Text) → List (Text × Text)
unfolding members_of before_paren add_members first_text
add_po e lag_map =
    let po_raw =
      first_text e.port_channel (first_text e.bundle_name (first_text e.bundle e.portchannel)) in
    let po = normalize_iface (some (before_paren po_raw)) in
    if is_empty po then lag_map else add_members po (members_of e) lag_map

pub add_pos : List PoEntry → List (Text × Text) → List (Text × Text)
unfolding add_po
add_pos [] lag_map = lag_map
add_pos (e ∷ entries) lag_map = add_pos entries (add_po e lag_map)

pub record Gathered : Type 0 where
  pub status_map : List (Text × PortStatus)
  pub desc_map : List (Text × Text)
  pub lag_map : List (Text × Text)
  pub ips : IpMaps

abbrev pub no_ips : IpMaps
no_ips = record { ip_names = []; ip_map = []; ip_seen = [] }

-- the four loops
unfoldable pub gather : IpParsers → Reports → Result ApplyError Gathered
unfolding add_descs add_statuses add_ips add_pos
gather lib r = elim (add_ips lib r.ip_result no_ips) [
  | err x ↦ err x
  | ok ips ↦ ok (record {
    status_map = add_statuses r.status_result [];
    desc_map = add_descs r.desc_result [];
    lag_map = add_pos r.po_result [];
    ips = ips;
  })
]

-- `seen_names`, in the order in which the names come in
unfoldable pub seen_names : Gathered → List Text
seen_names g =
    add_names
      (add_names
        (add_names (add_names (add_names [] (keys g.status_map)) (keys g.desc_map)) g.ips.ip_names)
        (keys g.lag_map))
      (map (λ e. e.1) g.lag_map)
