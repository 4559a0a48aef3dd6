-- ===== src/Interfaces/Apply.antt =====
-- What _apply_interfaces does to the table of the interfaces (network/services/sync_service.py).
pub mod Rows
pub mod Dicts
pub mod Creation
pub mod Linked
pub mod Pass
pub mod Kept
pub mod Total
pub mod Stale
pub mod Kinds
pub mod Columns
use zas.Prelude.{
  ℕ, ◌+◌, Bool, true, false, not, ◌&&◌, ◌||◌, Option, none, some, List, [], ◌∷◌, ◌++◌, map, ◌==◌,
  if◌then◌else◌, is_some, is_empty, any, select, or_else, Result, ok, err,
}
use zas.Text.{Text, codes, text_eq, lower, is_one_of, contains, get}
use zas.Interfaces.{
  Interface, new_interface, InterfaceKind, physical, port_channel, svi, loopback, tunnel,
  InterfaceMode, l2, l3, InterfaceStatus, unknown, infer_kind, map_status, map_status_from_ip_brief,
}
use zas.Interfaces.Reports.{
  PortStatus, IpData, IpParsers, Reports, ApplyError, several_found, null_column, Gathered, gather,
  seen_names,
}

-- `filter(device=device).exclude(name__in=seen_names)`
pub is_unseen : ℕ → List Text → Interface → Bool
is_unseen device seen r = r.device == device && not (is_one_of r.name seen)

-- the link to a row that is deleted becomes null
live_link : List Interface → Option ℕ → Option ℕ
live_link gone none = none
live_link gone (some k) = if any (λ g. g.id == k) gone then none else some k

unlink : List Interface → Interface → Interface
unfolding live_link
unlink gone r = record r { lag = live_link gone r.lag }

pub delete_unseen : ℕ → List Text → List Interface → List Interface
unfolding is_unseen unlink
delete_unseen device seen rows =
    if is_empty seen
    then rows
    else map (unlink (select (is_unseen device seen) rows))
        (select (λ r. not (is_unseen device seen r)) rows)

unfoldable pub same_interface : ℕ → Text → Interface → Bool
same_interface device name r = r.device == device && text_eq r.name name

-- The dictionary of the objects, as the keys of their rows, with the table.
pub record Created : Type 0 where
  pub iface_objs : List (Text × ℕ)
  pub rows : List Interface

pub found_or_new :
    ℕ → ℕ → Text → List Interface → List Interface → Result ApplyError (ℕ × List Interface)
found_or_new id device name [] rows = ok (id, rows ++ new_interface id device name ∷ [])
found_or_new id device name (r ∷ []) rows = ok (r.id, rows)
found_or_new id device name (r ∷ s ∷ found) rows = err several_found

-- `get_or_create(device=device, name=name)`, where a new row gets the key `id`
pub get_or_create : ℕ → ℕ → Text → List Interface → Result ApplyError (ℕ × List Interface)
unfolding found_or_new
get_or_create id device name rows =
    found_or_new id device name (select (same_interface device name) rows) rows

add_object : Text → ℕ → Result ApplyError Created → Result ApplyError Created
add_object name k (err x) = err x
add_object name k (ok c) = ok (record c { iface_objs = (name, k) ∷ c.iface_objs })

-- the objects of all names; the keys of new rows count up from `id`
pub create_all : ℕ → ℕ → List Text → List Interface → Result ApplyError Created
unfolding add_object
create_all id device [] rows = ok (record { iface_objs = []; rows = rows })
create_all id device (name ∷ names) rows = elim (get_or_create id device name rows) [
  | err x ↦ err x
  | ok (k, rows') ↦ add_object name k (create_all (id + 1) device names rows')
]

-- `save(update_fields=...)` of the object with this key
pub edit : ℕ → (Interface → Interface) → List Interface → List Interface
edit k f rows = map (λ r. if r.id == k then f r else r) rows

-- a loop over the objects
pub each : (Text → Interface → Interface) → List (Text × ℕ) → List Interface → List Interface
unfolding edit
each f [] rows = rows
each f (o ∷ objs) rows = each f objs (edit o.1 (f o.0) rows)

unfoldable pub set_kind : Text → Interface → Interface
set_kind name r = record r { kind = infer_kind name }

unfoldable pub is_routed_kind : InterfaceKind → Bool
is_routed_kind svi = true
is_routed_kind loopback = true
is_routed_kind tunnel = true
is_routed_kind physical = false
is_routed_kind port_channel = false

-- `status_map.get(name, {}).get("vlan")` is true
has_vlan : Option PortStatus → Bool
has_vlan none = false
has_vlan (some p) = not (is_empty p.vlan)

unfoldable pub set_mode : Gathered → Text → Interface → Interface
unfolding is_routed_kind has_vlan
set_mode g name r = record r {
  mode =
      if is_routed_kind r.kind
      then some l3
      else if has_vlan (get name g.status_map)
      then some l2
      else if is_some (get name g.ips.ip_map)
      then some l3
      else r.mode;
}

unfoldable pub set_lag : ℕ → Interface → Interface
set_lag po r = record r { lag = some po; lag_mode = some (codes "active") }

-- the row of the member, where the objects of both names are there
pub bind_lag : Option ℕ → Option ℕ → List Interface → List Interface
unfolding set_lag
bind_lag (some member) (some po) rows = edit member (set_lag po) rows
bind_lag (some member) none rows = rows
bind_lag none po rows = rows

-- the loop over `lag_map`
pub bind_lags : List (Text × Text) → List (Text × ℕ) → List Interface → List Interface
unfolding bind_lag
bind_lags [] objs rows = rows
bind_lags (e ∷ lag_map) objs rows =
    bind_lags lag_map objs (bind_lag (get e.0 objs) (get e.1 objs) rows)

set_description : Option Text → Interface → Interface
set_description none r = r
set_description (some d) r = record r { description = some d }

-- The column of `vlan_raw` is not null; a null is tested for beforehand.
set_port : Option PortStatus → Interface → Interface
set_port none r = r
set_port (some p) r = record r {
  status = map_status p.status;
  speed = p.speed;
  speed_mode = p.speed_mode;
  duplex = p.duplex;
  vlan_raw = or_else p.vlan_raw [];
  is_trunk = contains (codes "trunk") p.vlan;
}

is_unknown : InterfaceStatus → Bool
is_unknown unknown = true
is_unknown _ = false

-- `name not in status_map or mapped_status == UNKNOWN`
is_undecided : Option PortStatus → Bool
unfolding is_unknown
is_undecided none = true
is_undecided (some p) = is_unknown (map_status p.status)

set_ip_status : Bool → Option IpData → Interface → Interface
set_ip_status undecided none r = r
set_ip_status undecided (some d) r =
    if undecided then record r { status = map_status_from_ip_brief d.status d.proto } else r

unfoldable pub set_status : Gathered → Text → Interface → Interface
unfolding set_description set_port is_undecided set_ip_status
set_status g name r =
    let port = get name g.status_map in
    set_ip_status (is_undecided port) (get name g.ips.ip_seen)
      (set_port port (set_description (get name g.desc_map) r))

-- a null for `vlan_raw`
unfoldable pub lacks_vlan : Option PortStatus → Bool
lacks_vlan none = false
lacks_vlan (some p) = not (is_some p.vlan_raw)

-- the loop over the status and the description
pub each_status : Gathered → List (Text × ℕ) → List Interface → Result ApplyError (List Interface)
unfolding set_status lacks_vlan
each_status g [] rows = ok rows
each_status g (o ∷ objs) rows =
    let rest = each_status g objs (edit o.1 (set_status g o.0) rows) in
    if lacks_vlan (get o.0 g.status_map) then err null_column else rest

unfoldable pub set_ip : IpData → Interface → Interface
set_ip d r = record r {
  ip_address =
      if not (is_empty d.ip) && not (text_eq (lower d.ip) (codes "unassigned"))
      then some d.ip
      else none;
}

pub save_ip : Option ℕ → IpData → List Interface → List Interface
unfolding set_ip
save_ip none d rows = rows
save_ip (some k) d rows = edit k (set_ip d) rows

-- the loop over `ip_seen`
pub save_ips : List (Text × IpData) → List (Text × ℕ) → List Interface → List Interface
unfolding save_ip
save_ips [] objs rows = rows
save_ips (e ∷ ip_seen) objs rows = save_ips ip_seen objs (save_ip (get e.0 objs) e.1 rows)

-- the loops over the objects and the two over the dictionaries
pub update_all : Gathered → Created → Result ApplyError (List Interface)
unfolding each set_kind set_mode bind_lags each_status save_ips
update_all g c =
    let objs = c.iface_objs in
    let bound = bind_lags g.lag_map objs (each (set_mode g) objs (each set_kind objs c.rows)) in
    elim (each_status g objs bound) [
      | err x ↦ err x
      | ok rows ↦ ok (save_ips g.ips.ip_seen objs rows)
    ]

pub apply_gathered : ℕ → ℕ → Gathered → List Interface → Result ApplyError (List Interface)
unfolding delete_unseen create_all update_all
apply_gathered id device g rows =
    elim (create_all id device (seen_names g) (delete_unseen device (seen_names g) rows)) [
      | err x ↦ err x
      | ok c ↦ update_all g c
    ]

-- SyncService._apply_interfaces; an error undoes all, since sync_device runs in a transaction
unfoldable pub apply_interfaces :
    IpParsers → ℕ → ℕ → Reports → List Interface → Result ApplyError (List Interface)
unfolding gather apply_gathered
apply_interfaces lib id device reports rows = elim (gather lib reports) [
  | err x ↦ err x
  | ok g ↦ apply_gathered id device g rows
]
