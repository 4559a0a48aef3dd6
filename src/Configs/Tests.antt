-- ===== src/Configs/Tests.antt =====
-- Tests of the stored configurations, and the theorems on them at concrete runs.
use zas.Prelude.{
  ◌≡◌, refl, true, false, none, some, List, [], ◌∷◌, ◌++◌, inl, length, ok, err, arith,
}
use zas.Text.{Text, codes, starts_with, rstrip, strip, split_lines, join, text_eq}
use zas.Configs.{
  DeviceConfiguration, Collected, Target, normalize, latest, persist, execute_backup, is_volatile,
}
use zas.Configs.Faithful.{persist-newest}
use zas.Configs.Backup.{rows_made, backup_appends}

-- a hash that has no collisions
abbrev hash : Text → Text
hash t = 7 ∷ t

abbrev running : Text
running = codes "!Time: Mon\nhostname sw1  \nvlan 10\n"

abbrev later : Text
later = codes "hostname sw1  \nvlan 10\n"

normalize_test : normalize running ≡ codes "hostname sw1\nvlan 10"
unfolding normalize strip rstrip split_lines join starts_with
normalize_test = refl

running_lines :
    split_lines running ≡ codes "!Time: Mon" ∷ codes "hostname sw1  " ∷ codes "vlan 10" ∷ []
unfolding split_lines
running_lines = refl

later_lines : split_lines later ≡ codes "hostname sw1  " ∷ codes "vlan 10" ∷ []
unfolding split_lines
later_lines = refl

time_line : is_volatile (codes "!Time: Mon") ≡ true
unfolding is_volatile starts_with
time_line = refl

abbrev first_run : Collected
first_run = record {
  id = 1;
  now = 100;
  device = 5;
  config_text = running;
  source = codes "manual";
  collected_by = some 3;
  success = true;
  error_message = none;
}

abbrev second_run : Collected
second_run = record first_run { id = 2; now = 200; config_text = later }

abbrev broken_run : Collected
broken_run = record first_run {
  id = 3;
  now = 150;
  success = false;
  error_message = some (codes "timeout");
}

-- the table after the first run and a failure
abbrev stored : List DeviceConfiguration
stored =
    record {
      id = 1;
      device = 5;
      config_text = codes "hostname sw1\nvlan 10";
      collected_at = 100;
      collected_by = none;
      source = codes "manual";
      config_hash = hash (codes "hostname sw1\nvlan 10");
      previous = none;
      success = true;
      error_message = none;
    }
    ∷ []

persist-newest_example :
    (r : DeviceConfiguration) × (latest 5 (persist hash second_run stored).0 ≡ some r)
    × (r.success ≡ true)
    × (r.config_text ≡ normalize later)
persist-newest_example =
    persist-newest hash second_run stored refl (omega arith, tt) (inl (refl, refl), tt) (λ h. cc h)
      (no_collision, tt)
  where
    no_collision :
        hash (codes "hostname sw1\nvlan 10") ≡ hash (normalize later)
        → codes "hostname sw1\nvlan 10" ≡ normalize later
    no_collision e = cc e

abbrev targets : List Target
targets =
    record { device = 5; name = codes "sw1"; reply = err (codes "timeout"); id = 8; now = 300 }
    ∷ record { device = 6; name = codes "sw2"; reply = ok later; id = 9; now = 301 }
    ∷ []

backup_appends_example :
    (made : List DeviceConfiguration) × ((execute_backup hash none targets stored).0
      ≡ stored ++ made)
    × (length made ≡ rows_made (execute_backup hash none targets stored).1)
backup_appends_example = backup_appends hash none targets stored

two_rows : length (execute_backup hash none targets stored).0 ≡ 3
unfolding execute_backup latest normalize strip rstrip split_lines join starts_with text_eq
two_rows = refl
