-- ===== src/Stack.antt =====
-- The members of a switch stack: SyncService._apply_stack_members (network/services/sync_service.py).
pub mod Numbers
pub mod Racks
mod Tests
use zas.Prelude.{
  ℕ, ◌≡◌, Bool, true, false, not, ◌&&◌, ◌||◌, Option, none, some, List, [], ◌∷◌, ◌++◌, ◌==◌, ltb,
  if◌then◌else◌, is_empty, any, select, length,
}
use zas.Text.{Text}
use zas.Dcim.{StackRole, StackState, StackMember, Device}
use zas.Rack.{Db, update_rack_occupied_units, save_device}

-- One member that the output of the device names, as _parse_stack_members hands it on.
pub record Reported : Type 0 where
  pub switch_number : Option ℕ
  pub role : StackRole
  pub mac_address : Text
  pub priority : Option ℕ
  pub version : Option Text
  pub state : StackState

pub is_member : ℕ → ℕ → StackMember → Bool
is_member device number m = m.device == device && m.switch_number == number

-- update_or_create on the unique pair of device and number; every other column is among the defaults
pub write_member : StackMember → List StackMember → List StackMember
unfolding is_member
write_member new [] = new ∷ []
write_member new (m ∷ members) =
    if is_member new.device new.switch_number m then new ∷ members else m ∷ write_member new members

pub member_row : ℕ → ℕ → Reported → StackMember
member_row device number r = record {
  device = device;
  switch_number = number;
  role = r.role;
  mac_address = r.mac_address;
  priority = r.priority;
  version = r.version;
  state = r.state;
}

pub write_reported : ℕ → Option ℕ → Reported → List StackMember → List StackMember
unfolding write_member member_row
write_reported device none r members = members
write_reported device (some number) r members = write_member (member_row device number r) members

-- the loop
pub write_all : ℕ → List Reported → List StackMember → List StackMember
unfolding write_reported
write_all device [] members = members
write_all device (r ∷ reported) members =
    write_all device reported (write_reported device r.switch_number r members)

pub see : Option ℕ → List ℕ → List ℕ
see none seen = seen
see (some number) seen = number ∷ seen

-- the numbers that the loop has seen
pub seen_numbers : List Reported → List ℕ
unfolding see
seen_numbers [] = []
seen_numbers (r ∷ reported) = see r.switch_number (seen_numbers reported)

-- a member of the device that was not reported
pub is_gone : ℕ → List ℕ → StackMember → Bool
is_gone device seen m = m.device == device && not (any (λ n. n == m.switch_number) seen)

pub new_members : ℕ → List Reported → List StackMember → List StackMember
unfolding write_all seen_numbers is_gone
new_members device reported members =
    let written = write_all device reported members in
    let seen = seen_numbers reported in
    if is_empty seen then written else select (λ m. not (is_gone device seen m)) written

pub same_flag : Bool → Bool → Bool
same_flag true b = b
same_flag false b = not b

-- SyncService._apply_stack_members: the tables and the device object after it
unfoldable pub apply_stack_members : Device → List Reported → Db → Device × Db
unfolding new_members same_flag
apply_stack_members dev reported db =
    let db' = record db { stack_members = new_members dev.id reported db.stack_members } in
    let is_stacked = ltb 1 (length (seen_numbers reported)) in
    let dev' = record dev { is_stacked = is_stacked } in
    let saved = if same_flag dev.is_stacked is_stacked then db' else save_device dev' db' in
    (dev', update_rack_occupied_units dev.rack saved)
