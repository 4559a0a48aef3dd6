-- ===== src/DeviceSync/Run.antt =====
-- SyncService.sync_device: the steps in their order, in one transaction
-- (network/services/sync_service.py).
use zas.Prelude.{ℕ, true, false, some, List, [], if◌then◌else◌, Result, ok, err, and_then}
use zas.Text.{Text, codes}
use zas.Dcim.{Device, RuntimeStatus}
use zas.Serial.{Inventory}
use zas.Rack.{save_device}
use zas.Interfaces.{Interface}
use zas.DeviceSync.Model.{update_device_type}
use zas.DeviceSync.Version.{SyncError, apply_version}
use zas.DeviceSync.Steps.{
  Tables, Results, Run, is_sync_excluded, platform_of, is_nxos, is_ios_stack,
  collect_results_with_retry, runtime_of, save_runtime, record_config, store_config, store_modules,
  store_interfaces, store_neighbors, store_stack,
}

-- what is stored once the modules and the interfaces are known; the device and the tables are those
-- before its type is looked up
unfoldable pub finish :
    Run → Device → Device → Results → Tables → Inventory → List Interface → Tables
unfolding is_nxos is_ios_stack platform_of store_config store_neighbors store_stack
finish run dev dev1 r t inv interfaces =
    let (dev2, db2) = update_device_type r.inventory r.version.parsed t.types dev1 t.db in
    let db3 = store_stack (is_ios_stack (platform_of dev.device_type)) dev2 r.stack db2 in
    record t {
      db = db3;
      inventory = inv;
      interfaces = interfaces;
      configs =
          if run.include_config then store_config run dev.id r.config t.configs else t.configs;
      neighbors = store_neighbors run dev.id db3.devices interfaces t.neighbors;
    }

-- the results applied, after the device is marked as reachable
unfoldable pub apply_results :
    Run → Device → RuntimeStatus → Results → Tables → Result SyncError Tables
unfolding store_modules store_interfaces finish save_runtime is_nxos platform_of
apply_results run dev runtime r t =
    and_then (apply_version run.now r.version dev runtime) (λ (p : Device × RuntimeStatus).
      let t1 = record t { db = save_device p.0 t.db; runtimes = save_runtime p.1 t.runtimes } in
      and_then (store_modules run dev.id (is_nxos (platform_of dev.device_type)) r t.inventory)
        (λ (inv : Inventory).
          and_then (store_interfaces run dev.id r.interfaces t.interfaces)
            (λ (interfaces : List Interface). ok (finish run dev p.0 r t1 inv interfaces))))

-- What sync_device returns: `skipped` and `failed` have `success` false and carry the text `error`.
pub data Outcome : Type 0 where
  skipped : Text → Outcome
  failed : Text → Outcome
  success : Outcome

-- the tables after a run whose session failed
unfoldable pub unreached : Run → Device → Text → Tables → Tables
unfolding record_config save_runtime runtime_of
unreached run dev message t = record t {
  runtimes =
      save_runtime
        (record (runtime_of dev.id t.runtimes) { reachable_ssh = false; last_check = some run.now })
        t.runtimes;
  configs =
      if run.include_config
      then record_config run dev.id false (some message) [] t.configs
      else t.configs;
}

-- what the transaction leaves: nothing of it after an exception
unfoldable pub committed : Tables → Result SyncError Tables → Result SyncError Outcome × Tables
committed t (err e) = (err e, t)
committed t (ok t') = (ok success, t')

unfoldable pub after_collect :
    Run → Device → Tables → Result Text Results → Result SyncError Outcome × Tables
unfolding unreached apply_results committed runtime_of
after_collect run dev t (err message) = (ok (failed message), unreached run dev message t)
after_collect run dev t (ok r) = committed t (
    apply_results run dev
      (record (runtime_of dev.id t.runtimes) { reachable_ssh = true; last_check = some run.now }) r
      t)

-- the error of a device that is excluded by SYNC_EXCLUDE_TAG
abbrev pub exclude_message : Text
exclude_message = codes "Device has tag 'no_sync'."

-- sync_device
unfoldable pub sync_device :
    Run → (ℕ → Result Text Results) → Device → Tables → Result SyncError Outcome × Tables
unfolding is_sync_excluded collect_results_with_retry after_collect
sync_device run collect dev t =
    if is_sync_excluded dev
    then (ok (skipped exclude_message), t)
    else after_collect run dev t (collect_results_with_retry collect)
