-- ===== src/Dcim.antt =====
-- The data model of dcim/: choices (dcim/choices.py), racks (dcim/models/rack.py), device types,
-- devices, stack members and run-time status (dcim/models/device.py). A primary or foreign key is a
-- number, a time or a duration counts seconds, and a decimal with one place is in tenths.
use zas.Prelude.{ℕ, Bool, Option, List}
use zas.Text.{Text}

pub data Platform : Type 0 where
  ios ios_xe nx_os apic firewall router eos ap server unknown_platform : Platform

pub data DeviceStatus : Type 0 where
  offline active planned staged failed inventory decommissioning unknown_status : DeviceStatus

pub data DeviceFace : Type 0 where
  front rear : DeviceFace

pub data StackRole : Type 0 where
  active standby master member unknown : StackRole

pub data StackState : Type 0 where
  ready provisioned removed unknown : StackState

-- Device.source
pub data Source : Type 0 where
  manual discovery imported : Source

pub record RackBase : Type 0 where
  pub width : ℕ
  pub u_height : ℕ
  pub starting_unit : ℕ
  pub desc_units : Bool
  pub outer_width : Option ℕ
  pub outer_height : Option ℕ
  pub outer_depth : Option ℕ
  pub outer_unit : Option Text
  pub mounting_depth : Option ℕ
  pub max_weight : Option ℕ
  pub weight_unit : Option Text
  pub abs_max_weight : Option ℕ

pub record Rack : Type 0 where
  pub base : RackBase
  pub open base use *
  pub id : ℕ
  pub name : Text
  pub description : Option Text
  pub form_factor : Option Text
  pub rack_type : Option ℕ
  pub facility_id : Option Text
  pub area : ℕ
  pub status : Text
  pub serial : Text
  pub airflow : Option Text
  pub occupied_units : List ℕ

-- `platform` is `none` where the field is the empty text; `u_height` is in tenths of a unit.
pub record DeviceType : Type 0 where
  pub id : ℕ
  pub model : Text
  pub platform : Option Platform
  pub vendor : ℕ
  pub description : Option Text
  pub part_number : Text
  pub u_height : ℕ
  pub exclude_from_utilization : Bool
  pub is_full_depth : Bool
  pub subdevice_role : Option Text
  pub airflow : Option Text
  pub front_image : Text
  pub rear_image : Text
  pub front_svg : Option Text
  pub weight : Option ℕ
  pub dimensions : Option Text
  pub default_ac_power_supply_watts : Option ℕ
  pub switching_capacity_gbps : Option ℕ
  pub forwarding_rate_mpps : Option ℕ
  pub datasheet : Option Text
  pub eosl : Option ℕ

-- `position` is in tenths of a unit. The device's type is the row itself, not its key.
pub record Device : Type 0 where
  pub id : ℕ
  pub name : Text
  pub management_ip : Text
  pub mac_address : Option Text
  pub serial_number : Option Text
  pub inventory_number : Option Text
  pub tags : List Text
  pub device_type : Option DeviceType
  pub role : Option ℕ
  pub site : ℕ
  pub area : ℕ
  pub rack : Option ℕ
  pub is_stacked : Bool
  pub position : Option ℕ
  pub face : Option DeviceFace
  pub airflow : Option Text
  pub image_version : Option Text
  pub status : DeviceStatus
  pub source : Source
  pub last_seen : Option ℕ
  pub uptime : Option ℕ
  pub last_reboot : Option ℕ
  pub created_at : ℕ
  pub updated_at : ℕ

pub record StackMember : Type 0 where
  pub device : ℕ
  pub switch_number : ℕ
  pub role : StackRole
  pub mac_address : Text
  pub priority : Option ℕ
  pub version : Option Text
  pub state : StackState

pub record RuntimeStatus : Type 0 where
  pub device : ℕ
  pub reachable_ping : Bool
  pub reachable_snmp : Bool
  pub reachable_ssh : Bool
  pub reachable_netconf : Bool
  pub last_check : Option ℕ
  pub uptime : Option ℕ
