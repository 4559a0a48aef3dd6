-- ===== src/Rack/Sample.antt =====
-- A rack with two devices, one of them a stack, on which the theorems are instantiated.
use zas.Prelude.{ℕ, true, false, none, some, [], ◌∷◌}
use zas.Text.{codes}
use zas.Dcim.{
  Platform, DeviceStatus, Source, StackRole, StackState, RackBase, Rack, DeviceType, Device,
  StackMember,
}
use zas.Rack.{Db}

abbrev pub sizes : RackBase
sizes = record {
  width = 19;
  u_height = 10;
  starting_unit = 1;
  desc_units = false;
  outer_width = none;
  outer_height = none;
  outer_depth = none;
  outer_unit = none;
  mounting_depth = none;
  max_weight = none;
  weight_unit = none;
  abs_max_weight = none;
}

abbrev pub rack : Rack
rack = record {
  base = sizes;
  id = 1;
  name = codes "R1";
  description = none;
  form_factor = none;
  rack_type = none;
  facility_id = none;
  area = 5;
  status = codes "active";
  serial = [];
  airflow = none;
  occupied_units = 4 ∷ 5 ∷ 6 ∷ 7 ∷ 1 ∷ [];
}

abbrev pub two_units : DeviceType
two_units = record {
  id = 1;
  model = codes "C9300";
  platform = some Platform.ios_xe;
  vendor = 1;
  description = none;
  part_number = [];
  u_height = 20;
  exclude_from_utilization = false;
  is_full_depth = true;
  subdevice_role = none;
  airflow = none;
  front_image = [];
  rear_image = [];
  front_svg = none;
  weight = none;
  dimensions = none;
  default_ac_power_supply_watts = none;
  switching_capacity_gbps = none;
  forwarding_rate_mpps = none;
  datasheet = none;
  eosl = none;
}

abbrev pub stack : Device
stack = record {
  id = 1;
  name = codes "sw1";
  management_ip = codes "10.0.0.1";
  mac_address = none;
  serial_number = none;
  inventory_number = none;
  tags = [];
  device_type = some two_units;
  role = none;
  site = 2;
  area = 5;
  rack = some 1;
  is_stacked = true;
  position = some 40;
  face = none;
  airflow = none;
  image_version = none;
  status = DeviceStatus.active;
  source = Source.manual;
  last_seen = none;
  uptime = none;
  last_reboot = none;
  created_at = 0;
  updated_at = 0;
}

abbrev pub router : Device
router = record stack {
  id = 2;
  name = codes "r1";
  device_type = none;
  is_stacked = false;
  position = some 10;
}

abbrev pub member : ℕ → StackMember
member n = record {
  device = 1;
  switch_number = n;
  role = StackRole.member;
  mac_address = [];
  priority = none;
  version = none;
  state = StackState.ready;
}

abbrev pub db : Db
db = record {
  devices = stack ∷ router ∷ [];
  racks = rack ∷ [];
  stack_members = member 1 ∷ member 2 ∷ [];
  candidates = [];
}

abbrev pub moved : Device
moved = record router { position = some 20 }
