-- ===== src/Accounts.antt =====
-- Users, sessions and the system settings (accounts/models/system_settings.py), which the children
-- share.
pub mod Tacacs
pub mod AutoLogout
use zas.Prelude.{
  ℕ, zero, suc, ◌≡◌, refl, Bool, true, false, ◌&&◌, Option, none, some, List, [], ◌∷◌,
  if◌then◌else◌, ◌*◌, arith,
}
use zas.Text.{Text, text_eq, text_eq_iff}

-- The singleton row. An optional text is `none` where the column is null.
pub record SystemSettings : Type 0 where
  pub tacacs_enabled : Bool
  pub tacacs_server_ip : Option Text
  pub tacacs_port : ℕ
  pub tacacs_key : Option Text
  pub tacacs_authorization_service : Option Text
  pub tacacs_retries : ℕ
  pub tacacs_session_timeout : ℕ
  pub tacacs_admin_group : Option Text
  pub tacacs_superuser_group : Option Text
  pub allow_local_superusers : Bool
  pub auto_logout_idle_minutes : ℕ
  pub reachability_ping_enabled : Bool
  pub reachability_snmp_enabled : Bool
  pub reachability_ssh_enabled : Bool
  pub reachability_netconf_enabled : Bool
  pub reachability_interval_minutes : ℕ

-- The row that the column defaults make.
abbrev pub default_settings : SystemSettings
default_settings = record {
  tacacs_enabled = false;
  tacacs_server_ip = none;
  tacacs_port = 49;
  tacacs_key = none;
  tacacs_authorization_service = none;
  tacacs_retries = 3;
  tacacs_session_timeout = 60;
  tacacs_admin_group = none;
  tacacs_superuser_group = none;
  allow_local_superusers = true;
  auto_logout_idle_minutes = 15;
  reachability_ping_enabled = true;
  reachability_snmp_enabled = true;
  reachability_ssh_enabled = false;
  reachability_netconf_enabled = false;
  reachability_interval_minutes = 10;
}

-- SystemSettingsManager.load: the row with the key 1 is read, or made
unfoldable pub load : Option SystemSettings → SystemSettings
load none = default_settings
load (some settings) = settings

-- get_auto_logout_timeout_seconds
unfoldable pub auto_logout_timeout_seconds : SystemSettings → ℕ
auto_logout_timeout_seconds settings = settings.auto_logout_idle_minutes * 60

-- A row of Django's user table as far as the program reads and writes it. `password` is the hash, and
-- `none` the unusable password. Usernames are unique.
pub record User : Type 0 where
  pub username : Text
  pub password : Option Text
  pub is_active : Bool
  pub is_staff : Bool
  pub is_superuser : Bool

-- `User.objects.get(username=…)`
unfoldable pub find_user : Text → List User → Option User
find_user username [] = none
find_user username (u ∷ users) =
    if text_eq u.username username then some u else find_user username users

-- `user.save()`: the row with the username is replaced, or the row is added
unfoldable pub write_user : User → List User → List User
write_user user [] = user ∷ []
write_user user (u ∷ users) =
    if text_eq u.username user.username then user ∷ users else u ∷ write_user user users

pub find_user-write :
    (name : Text) (user : User) (users : List User)
    → find_user name (write_user user users)
      ≡ (if text_eq user.username name then some user else find_user name users)
unfolding find_user write_user
find_user-write name user [] = refl
find_user-write name user (u ∷ users) = ground (
  arith,
  text_eq_iff u.username user.username,
  text_eq_iff u.username name,
  text_eq_iff user.username name,
  find_user-write name user users,
)

pub find_user-username :
    (name : Text) (users : List User) {u : User} → find_user name users ≡ some u → u.username ≡ name
unfolding find_user
find_user-username name [] {u} h = cc
find_user-username name (v ∷ users) {u} h =
    ground (arith, h, text_eq_iff v.username name, find_user-username name users {u = u})
