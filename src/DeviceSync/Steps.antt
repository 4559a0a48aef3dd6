-- ===== src/DeviceSync/Steps.antt =====
-- The steps of SyncService.sync_device: _is_sync_excluded, _collect_results_with_retry, _record_config,
-- _collect_topology_neighbors and the stores of its results (network/services/sync_service.py). A run works on a device object that agrees with its row, and a
-- save writes the whole row.
use zas.Prelude.{
  ℕ, zero, suc, ◌+◌, Bool, true, false, Option, none, some, List, [], ◌∷◌, ◌++◌, ◌==◌, map,
  if◌then◌else◌, any, select, is_empty, find_row, write_row, Result, ok, err, and_then,
}
use zas.Text.{Text, codes, iexact}
use zas.Dcim.{Platform, DeviceType, Device, RuntimeStatus}
use zas.Serial.{Inventory}
use zas.Rack.{Db}
use zas.Configs.{DeviceConfiguration, latest}
use zas.Sync.{StoreError, apply_inventory}
use zas.Interfaces.{Interface}
use zas.Interfaces.Reports.{Reports, IpParsers, ApplyError}
use zas.Interfaces.Apply.{apply_interfaces}
use zas.Stack.{Reported, apply_stack_members}
use zas.Transceivers.{ParsedEntry, Transceiver, transceiver_entries}
use zas.Transceivers.Apply.{apply_transceivers}
use zas.Topology.{TopologyNeighbor, NeighborEntry, Collection}
use zas.Topology.Collect.{collect_neighbors_for_device}
use zas.DeviceSync.Output.{Part}
use zas.DeviceSync.Version.{SyncError, several_modules, interface_error, VersionOutput}

-- The tables that a synchronisation reads and writes.
pub record Tables : Type 0 where
  pub db : Db
  pub types : List DeviceType
  pub runtimes : List RuntimeStatus
  pub inventory : Inventory
  pub interfaces : List Interface
  pub configs : List DeviceConfiguration
  pub neighbors : List TopologyNeighbor

-- The output of the running configuration.
pub record ConfigOutput : Type 0 where
  pub raw : Text
  pub error : Option Text

-- `results`, as _collect_results returns it: the output of each command, parsed.
pub record Results : Type 0 where
  pub version : VersionOutput
  pub inventory : List Part
  pub transceivers : List ParsedEntry
  pub raw_transceivers : List Transceiver
  pub interfaces : Reports
  pub config : ConfigOutput
  pub stack : List Reported

-- What a run is given: the time, the flag, the parameters of the parts, and the first keys of new rows.
pub record Run : Type 0 where
  pub now : ℕ
  pub include_config : Bool
  pub hash : Text → Text
  pub lib : IpParsers
  pub module_id : ℕ
  pub transceiver_id : ℕ
  pub interface_id : ℕ
  pub config_id : ℕ
  pub neighbor_id : ℕ
  pub site_domain : Option Text
  pub is_ip : Text → Bool
  pub clock : ℕ → ℕ
  pub session : Text → Option Text
  pub parse_cdp : Text → List NeighborEntry
  pub parse_lldp : Text → List NeighborEntry

-- _is_sync_excluded
unfoldable pub is_sync_excluded : Device → Bool
is_sync_excluded dev = any (λ tag. iexact tag (codes "no_sync")) dev.tags

unfoldable pub platform_of : Option DeviceType → Option Platform
platform_of none = none
platform_of (some t) = t.platform

unfoldable pub is_nxos : Option Platform → Bool
is_nxos (some Platform.nx_os) = true
is_nxos (some _) = false
is_nxos none = false

unfoldable pub is_ios_stack : Option Platform → Bool
is_ios_stack (some Platform.ios) = true
is_ios_stack (some Platform.ios_xe) = true
is_ios_stack (some _) = false
is_ios_stack none = false

-- the attempts that are left, after one that raised `last`
unfoldable pub try_attempts : (ℕ → Result Text Results) → ℕ → ℕ → Text → Result Text Results
try_attempts collect attempt zero last = err last
try_attempts collect attempt (suc left) last = elim (collect attempt) [
  | ok r ↦ ok r
  | err e ↦ try_attempts collect (attempt + 1) left e
]

-- _collect_results_with_retry, where `collect` is what _collect_results does in each attempt
unfoldable pub collect_results_with_retry : (ℕ → Result Text Results) → Result Text Results
unfolding try_attempts
collect_results_with_retry collect = try_attempts collect 0 2 []

-- `get_or_create(device=device)`
unfoldable pub runtime_of : ℕ → List RuntimeStatus → RuntimeStatus
runtime_of device rows = elim (find_row (λ (r : RuntimeStatus). r.device) device rows) [
  | some r ↦ r
  | none ↦ record {
    device = device;
    reachable_ping = false;
    reachable_snmp = false;
    reachable_ssh = false;
    reachable_netconf = false;
    last_check = none;
    uptime = none;
  }
]

unfoldable pub save_runtime : RuntimeStatus → List RuntimeStatus → List RuntimeStatus
save_runtime = write_row (λ r. r.device)

previous_key : Option DeviceConfiguration → Option ℕ
previous_key none = none
previous_key (some r) = some r.id

-- _record_config
unfoldable pub record_config :
    Run → ℕ → Bool → Option Text → Text → List DeviceConfiguration → List DeviceConfiguration
unfolding previous_key
record_config run device success error_message config_text rows =
    let row : DeviceConfiguration = record {
      id = run.config_id;
      device = device;
      config_text = config_text;
      collected_at = run.now;
      collected_by = none;
      source = codes "ssh";
      config_hash = run.hash config_text;
      previous = previous_key (latest device rows);
      success = success;
      error_message = error_message;
    } in
    rows ++ row ∷ []

unfoldable pub is_error : Option Text → Bool
is_error none = false
is_error (some e) = if is_empty e then false else true

-- the configuration of a run that has its results
unfoldable pub store_config :
    Run → ℕ → ConfigOutput → List DeviceConfiguration → List DeviceConfiguration
unfolding record_config is_error
store_config run device c rows =
    if is_error c.error
    then record_config run device false c.error [] rows
    else record_config run device true c.error c.raw rows

modules_stored : Result StoreError Inventory → Result SyncError Inventory
modules_stored (err e) = err several_modules
modules_stored (ok inv) = ok inv

interfaces_stored : Result ApplyError (List Interface) → Result SyncError (List Interface)
interfaces_stored (err e) = err interface_error
interfaces_stored (ok rows) = ok rows

-- the inventory, and on NX-OS the transceivers
unfoldable pub store_modules : Run → ℕ → Bool → Results → Inventory → Result SyncError Inventory
unfolding modules_stored
store_modules run device nxos r inv =
    and_then
      (modules_stored
        (apply_inventory run.module_id device (map (λ (p : Part). p.entry) r.inventory) inv))
      (λ inv'.
        if nxos
        then modules_stored (
            apply_transceivers run.transceiver_id device
              (transceiver_entries r.transceivers r.raw_transceivers) inv')
        else ok inv')

unfoldable pub store_interfaces :
    Run → ℕ → Reports → List Interface → Result SyncError (List Interface)
unfolding interfaces_stored
store_interfaces run device reports rows =
    interfaces_stored (apply_interfaces run.lib run.interface_id device reports rows)

-- _collect_topology_neighbors
unfoldable pub store_neighbors :
    Run → ℕ → List Device → List Interface → List TopologyNeighbor → List TopologyNeighbor
store_neighbors run device devices interfaces rows =
    let c : Collection = record {
      device = device;
      site_domain = run.site_domain;
      interfaces =
          map (λ (i : Interface). record { id = i.id; name = i.name })
            (select (λ i. i.device == device) interfaces);
      devices = map (λ (d : Device). record { id = d.id; name = d.name }) devices;
      is_ip = run.is_ip;
      clock = run.clock;
    } in
    (collect_neighbors_for_device c run.session run.parse_cdp run.parse_lldp run.neighbor_id rows).1

-- the stack members, on a platform that stacks
unfoldable pub store_stack : Bool → Device → List Reported → Db → Db
store_stack ios_stack dev reported db =
    if ios_stack then (apply_stack_members dev reported db).1 else db
