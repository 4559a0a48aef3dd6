-- ===== src/Configs.antt =====
-- Stored device configurations: ConfigurationPersistenceService
-- (dcim/services/configuration_persistence_service.py), DeviceConfiguration
-- (dcim/models/device_config.py) and the backup worker (automation/workers/backup_worker.py).
pub mod Volatile
pub mod History
pub mod Faithful
pub mod Backup
mod Tests
use zas.Prelude.{
  ℕ, ◌≡◌, Bool, true, false, not, ◌||◌, Option, none, some, List, [], ◌∷◌, ◌++◌, map, ◌==◌, ltb,
  if◌then◌else◌, select, is_some, Result, ok, err,
}
use zas.Text.{Text, codes, text_eq, starts_with, rstrip, strip, split_lines, join}

pub record DeviceConfiguration : Type 0 where
  pub id : ℕ
  pub device : ℕ
  pub config_text : Text
  pub collected_at : ℕ
  pub collected_by : Option ℕ
  pub source : Text
  pub config_hash : Text
  pub previous : Option ℕ
  pub success : Bool
  pub error_message : Option Text

pub is_volatile : Text → Bool
is_volatile line =
    starts_with line (codes "! Last configuration change") || starts_with line (codes "!Time")

-- the loop over the lines
pub kept_lines : List Text → List Text
kept_lines [] = []
kept_lines (line ∷ lines) =
    let rest = kept_lines lines in if is_volatile line then rest else rstrip line ∷ rest

-- ConfigurationPersistenceService.normalize
unfoldable pub normalize : Text → Text
unfolding kept_lines is_volatile
normalize config_text = strip (join (codes "\n") (kept_lines (split_lines config_text)))

pub newer : DeviceConfiguration → Option DeviceConfiguration → DeviceConfiguration
newer r none = r
newer r (some s) = if ltb s.collected_at r.collected_at then r else s

-- `filter(device=device).order_by("-collected_at").first()`
pub latest : ℕ → List DeviceConfiguration → Option DeviceConfiguration
unfolding newer
latest device [] = none
latest device (r ∷ rows) =
    let rest = latest device rows in if r.device == device then some (newer r rest) else rest

pub data SaveError : Type 0 where
  immutable : SaveError

-- DeviceConfiguration.save
unfoldable pub save :
    Bool
    → DeviceConfiguration
    → List DeviceConfiguration
    → Result SaveError (List DeviceConfiguration)
save adding row rows = if not adding then err immutable else ok (rows ++ row ∷ [])

-- The arguments of `persist`, with the key and the time that a new row gets. The texts that are not
-- there are empty.
pub record Collected : Type 0 where
  pub id : ℕ
  pub now : ℕ
  pub device : ℕ
  pub config_text : Text
  pub source : Text
  pub collected_by : Option ℕ
  pub success : Bool
  pub error_message : Option Text

-- the row of a failed run; its hash is the empty default of the column
pub failed_row : Collected → DeviceConfiguration
failed_row c = record {
  id = c.id;
  device = c.device;
  config_text = [];
  collected_at = c.now;
  collected_by = none;
  source = c.source;
  config_hash = [];
  previous = none;
  success = false;
  error_message = c.error_message;
}

key_of : Option DeviceConfiguration → Option ℕ
key_of none = none
key_of (some r) = some r.id

pub new_row : Collected → Text → Text → Option DeviceConfiguration → DeviceConfiguration
unfolding key_of
new_row c normalized cfg_hash last = record {
  id = c.id;
  device = c.device;
  config_text = normalized;
  collected_at = c.now;
  collected_by = c.collected_by;
  source = c.source;
  config_hash = cfg_hash;
  previous = key_of last;
  success = true;
  error_message = none;
}

-- `latest and latest.config_hash == cfg_hash`
pub same_hash : Option DeviceConfiguration → Text → Bool
same_hash none cfg_hash = false
same_hash (some r) cfg_hash = text_eq r.config_hash cfg_hash

-- the row that `persist` creates, where `hash` is the SHA-256 digest as a text
pub row_to_store : (Text → Text) → Collected → List DeviceConfiguration → Option DeviceConfiguration
unfolding failed_row new_row same_hash latest normalize
row_to_store hash c rows =
    let normalized = normalize c.config_text in
    let cfg_hash = hash normalized in
    let last = latest c.device rows in
    if not c.success
    then some (failed_row c)
    else if same_hash last cfg_hash
    then none
    else some (new_row c normalized cfg_hash last)

pub add_row : Option DeviceConfiguration → List DeviceConfiguration → List DeviceConfiguration
add_row none rows = rows
add_row (some r) rows = rows ++ r ∷ []

-- ConfigurationPersistenceService.persist
unfoldable pub persist :
    (Text → Text)
    → Collected
    → List DeviceConfiguration
    → List DeviceConfiguration × Option DeviceConfiguration
unfolding row_to_store add_row
persist hash c rows = let row = row_to_store hash c rows in (add_row row rows, row)

-- One device of a run: what the SSH session gives, the configuration or the text of the exception, with
-- the key and the time of the row that may be made.
pub record Target : Type 0 where
  pub device : ℕ
  pub name : Text
  pub reply : Result Text Text
  pub id : ℕ
  pub now : ℕ

pub data Artifact : Type 0 where
  succeeded : ℕ → Text → Bool → Option ℕ → Artifact
  failed : ℕ → Text → Text → Artifact

source_of : Option ℕ → Text
source_of none = codes "scheduled"
source_of (some _) = codes "manual"

pub collected : Option ℕ → Target → Result Text Text → Collected
unfolding source_of
collected created_by t (ok config) = record {
  id = t.id;
  now = t.now;
  device = t.device;
  config_text = config;
  source = source_of created_by;
  collected_by = created_by;
  success = true;
  error_message = none;
}
collected created_by t (err message) = record {
  id = t.id;
  now = t.now;
  device = t.device;
  config_text = [];
  source = source_of created_by;
  collected_by = created_by;
  success = false;
  error_message = some message;
}

pub artifact : Target → Result Text Text → Option DeviceConfiguration → Artifact
unfolding key_of
artifact t (ok config) cfg = succeeded t.device t.name (is_some cfg) (key_of cfg)
artifact t (err message) cfg = failed t.device t.name message

-- execute_backup
unfoldable pub execute_backup :
    (Text → Text)
    → Option ℕ
    → List Target
    → List DeviceConfiguration
    → List DeviceConfiguration × List Artifact
unfolding collected artifact persist
execute_backup hash created_by [] rows = (rows, [])
execute_backup hash created_by (t ∷ targets) rows =
    let (rows', cfg) = persist hash (collected created_by t t.reply) rows in
    let (rows'', artifacts) = execute_backup hash created_by targets rows' in
    (rows'', artifact t t.reply cfg ∷ artifacts)
