-- ===== src/Lib.antt =====
-- Models and theorems for zas, a Django application that keeps the inventory of a network (sites,
-- racks, devices, addresses), collects configurations from the devices, and runs scheduled jobs on
-- them.
--
-- The program's parts and how they interact. dcim holds the devices, racks, modules and stored
-- configurations; asset the items in storage, which share the serial numbers with the modules;
-- ipam the prefixes and addresses. Each model's `clean` calls a validator of services/ or
-- ipam/services/ before a row is saved. Saving or deleting a device recomputes the occupied units
-- of its racks, which network/services/auto_assignment_service.py reads to place a discovered
-- device. network applies what the devices report to these tables. automation runs backups over
-- the devices of a job, which end in the rows of dcim, and keeps its schedules in step with the
-- tables of django_celery_beat. accounts holds the settings, the TACACS+ login and the automatic
-- logout.
--
-- The files:
-- - Prelude (Tests, Lists, Rows): Boolean tests on numbers, lists, and tables of rows with a
--   primary key. Text (Base, Strip, Parts, Dict, Distinct): the text functions of Python that the
--   program calls, dictionaries and sets.
-- - Serial: services/validation_service.py (normalize_serial_number and the two uniqueness
--   validators) and the `clean` of DeviceModule (dcim/models/device.py) and InventoryItem
--   (asset/models/inventory_item.py). Normal and Unique hold the theorems.
-- - Dcim: the records of dcim/models/device.py and dcim/models/rack.py and the choices they use.
-- - Rack: `clean`, `save` and `delete` of Device, update_rack_occupied_units
--   (dcim/models/device.py) and _select_position (network/services/auto_assignment_service.py).
--   Occupancy, Members, Deletion, Covers, Position and Clean hold the theorems, Sample the tables
--   of the tests.
-- - Ipam: the records of ipam/models; Ipam.Network what the program uses of Python's ipaddress;
--   Ipam.Prefixes and Ipam.Addresses the two services of ipam/services, with their theorems in
--   Accepted, and for the prefixes in Loop and Ancestors too.
-- - Accounts: the settings and the user table (accounts/models/system_settings.py);
--   Accounts.Tacacs the backend of accounts/auth_backends.py with the list of backends of
--   zas/settings/base.py, its theorems in Retries and Verdict; Accounts.AutoLogout the middleware
--   of accounts/middleware.py.
-- - Configs: persist of dcim/services/configuration_persistence_service.py, the rows of
--   dcim/models/device_config.py, and execute_backup of automation/workers/backup_worker.py.
--   Volatile, History, Faithful and Backup hold the theorems.
-- - Sync: _apply_inventory of network/services/sync_service.py over the modules and the storage
--   items; Priority, Rows, Owned, Total, Held and Reported hold the theorems.
-- - Interfaces: the table of dcim/models/interface.py and the helpers on names, kinds, states and
--   speeds; Interfaces.Reports the four loops of _apply_interfaces
--   (network/services/sync_service.py) over the parsed output, Interfaces.Apply what it does to
--   the table. Rows, Dicts, Creation, Linked, Kept, Pass, Total, Stale, Kinds and Columns hold the
--   theorems.
-- - Hostnames: normalize_hostname of dcim/services/hostname_utils.py; Qualified holds the theorem.
-- - Discovery: the records of network/models/discovery.py and the filters of
--   network/services/discovery_filtering.py; Discovery.Scan, Discovery.Classification and
--   Discovery.Run the parts of network/services/discover_network.py. Sightings, Verdicts,
--   Agreement and Flags hold the theorems.
-- - Assignment: what network/services/auto_assignment_service.py reads from names and locations;
--   Assignment.Assign its tables and `assign`. Placed holds the theorems.
-- - Diff: automation/engine/diff_engine.py; Columns and Roundtrip hold the theorems.
-- - Transceivers: the parser of transceiver entries of network/services/sync_service.py and, in
--   Apply, _apply_transceivers over the tables of Sync. The parser of the raw output is a
--   parameter. Once and Current hold the theorems.
-- - Topology: upsert_neighbor of topology/services/topology_service.py; Local and Collect: the
--   collector of automation/tasks/topology_collector.py, with its session and parsers as
--   parameters. A turn's number is the key of a row that it adds and the index of its time. Frame
--   and Once hold the theorems.
-- - DeviceSync: sync_device of network/services/sync_service.py, which composes Sync,
--   Transceivers, Interfaces, Stack and Topology; Uptime, Output, Model, Version, Steps and Run
--   hold its parts, Printed, Consistent, Others, Outcome, Success and Reported the theorems.
-- - Stack: _apply_stack_members of network/services/sync_service.py over the tables of Rack;
--   Numbers and Racks hold the theorems.
-- - Reachability: measure of automation/engine/reachability_engine.py; Fresh and Summary hold the
--   theorems.
-- - Scheduler: sync_schedule, sync_reachability_from_system_settings and remove_schedule of
--   automation/services/scheduler_sync.py, and in Nightly its two fixed schedules. Mirror, Names,
--   Removal and Poller hold the theorems.
-- The tests and the instances of the theorems at concrete inputs stand in the modules named Tests.
--
-- Conventions. A table is a list of rows; a foreign key is the number of the row it points to,
-- `none` where it is null; a UUID is a number. A handler takes the tables and returns the new
-- ones. What raises returns an error, or the list of the errors that a ValidationError carries. A
-- text is a list of code points; the case and the white space are those of ASCII. Heights and
-- positions in a rack, which are decimals with one place, are counted in tenths, and the occupied
-- units in whole units. A time is a number of seconds.
--
-- Bounds and fuel. The walk up the parents of a prefix takes fuel, since the source's loop has no
-- bound either; a table in which each prefix is longer than its parent lets the walk end, and a
-- fuel above 128, the greatest length, is then enough. All other loops are over lists or a fixed
-- number of rounds.
--
-- Parameters. The parsers of ipaddress, the opcodes of difflib, the parsed output of the devices,
-- the client of tacacs_plus, Django's ModelBackend and password hash, SHA-256, the SSH session,
-- the probes and scans of the network, the clock, new keys and random numbers are arguments of the
-- definitions that use them.
--
-- Not modelled: concurrent requests, transactions and the errors of the database, except where a
-- part says so; views, forms, serializers, the admin, templates, migrations and management
-- commands, which are declarations for the framework or input and output; the SSH terminal and the
-- adapters to the devices. The sessions with the devices and their TextFSM templates, the parsers
-- of neighbors and the job runner are left out too.
mod Prelude
pub mod Text
pub mod Serial
pub mod Dcim
pub mod Rack
pub mod Ipam
pub mod Accounts
pub mod Configs
pub mod Scheduler
pub mod Sync
pub mod Stack
pub mod Reachability
pub mod Diff
pub mod Interfaces
pub mod Hostnames
pub mod Discovery
pub mod Assignment
pub mod Transceivers
pub mod Topology
pub mod DeviceSync
