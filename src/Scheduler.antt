-- ===== src/Scheduler.antt =====
-- Schedules of the automation (automation/models/schedule.py) and their mirror in the tables of
-- django_celery_beat (automation/services/scheduler_sync.py).
pub mod Mirror
pub mod Names
pub mod Removal
pub mod Poller
pub mod Nightly
mod Tests
use zas.Prelude.{
  ℕ, ◌*◌, ◌≡◌, Bool, true, false, not, ◌&&◌, ◌||◌, Option, none, some, List, [], ◌∷◌, ◌==◌,
  if◌then◌else◌, is_some, same_key, or_else, select, any, find_row, write_row, Result, ok, err,
}
use zas.Text.{Text, codes, text_eq}

pub data ScheduleType : Type 0 where
  interval crontab : ScheduleType

pub record Cron : Type 0 where
  pub minute : Text
  pub hour : Text
  pub day_of_week : Text
  pub day_of_month : Text
  pub month_of_year : Text

-- AutomationSchedule; the five columns of the crontab are one field here.
pub record Schedule : Type 0 where
  pub id : ℕ
  pub name : Text
  pub task_name : Text
  pub enabled : Bool
  pub schedule_type : ScheduleType
  pub interval_seconds : Option ℕ
  pub cron : Cron
  pub periodic_task : Option ℕ

-- A row of django_celery_beat as far as the program writes it. The rows for intervals and crontabs,
-- which get_or_create shares, are seen as their values.
pub record PeriodicTask : Type 0 where
  pub id : ℕ
  pub name : Text
  pub task : Text
  pub interval : Option ℕ
  pub crontab : Option Cron
  pub enabled : Bool
  pub clocked : Option ℕ
  pub one_off : Bool
  pub start_time : Option ℕ

pub record Beat : Type 0 where
  pub tasks : List PeriodicTask
  pub schedules : List Schedule

-- The ValueError of the code, the database's errors for a name and for a task that are in use, and the
-- error of get_or_create where several rows fit.
pub data SyncError : Type 0 where
  bad_interval name_taken task_linked several_schedules : SyncError

-- the interval and the crontab of a schedule
positive : Option ℕ → Result SyncError (Option ℕ × Option Cron)
positive none = err bad_interval
positive (some seconds) = if seconds == 0 then err bad_interval else ok (some seconds, none)

timing_of : ScheduleType → Schedule → Result SyncError (Option ℕ × Option Cron)
unfolding positive
timing_of interval s = positive s.interval_seconds
timing_of crontab s = ok (none, some s.cron)

pub timing : Schedule → Result SyncError (Option ℕ × Option Cron)
unfolding timing_of
timing s = timing_of s.schedule_type s

-- `PeriodicTask.objects.get(name=…)`
pub find_name : Text → List PeriodicTask → Option PeriodicTask
find_name name [] = none
find_name name (t ∷ tasks) = if text_eq t.name name then some t else find_name name tasks

-- the task behind the foreign key
pub task_of : Option ℕ → List PeriodicTask → Option PeriodicTask
task_of none tasks = none
task_of (some k) tasks = find_row (λ (t : PeriodicTask). t.id) k tasks

-- `defaults` of get_or_create
pub created_task : ℕ → Schedule → Option ℕ × Option Cron → PeriodicTask
created_task id s (seconds, cron) = record {
  id = id;
  name = s.name;
  task = s.task_name;
  interval = seconds;
  crontab = cron;
  enabled = s.enabled;
  clocked = none;
  one_off = false;
  start_time = none;
}

-- the assignments to a task that exists
pub updated_task : ℕ → Schedule → Option ℕ × Option Cron → PeriodicTask → PeriodicTask
updated_task now s (seconds, cron) pt = record pt {
  name = s.name;
  task = s.task_name;
  interval = seconds;
  crontab = cron;
  enabled = s.enabled;
  clocked = none;
  one_off = false;
  start_time = some (or_else pt.start_time now);
}

pub write_task : PeriodicTask → List PeriodicTask → List PeriodicTask
write_task = write_row (λ t. t.id)

-- `schedule.save(update_fields=["periodic_task"])`
pub set_link : ℕ → Option ℕ → List Schedule → List Schedule
set_link id task [] = []
set_link id task (s ∷ schedules) =
    (if s.id == id then record s { periodic_task = task } else s) ∷ set_link id task schedules

-- another schedule has the task already
pub linked_elsewhere : ℕ → ℕ → List Schedule → Bool
linked_elsewhere id task schedules =
    any (λ s. same_key s.periodic_task (some task) && not (s.id == id)) schedules

-- another task has the name already
pub name_in_use : PeriodicTask → List PeriodicTask → Bool
name_in_use pt tasks = any (λ t. text_eq t.name pt.name && not (t.id == pt.id)) tasks

-- The outcome of a sync: the tables, the schedule object and the task.
pub record Synced : Type 0 where
  pub beat : Beat
  pub schedule : Schedule
  pub task : PeriodicTask

-- a schedule without a task: the task is saved and linked
pub link : PeriodicTask → Schedule → Beat → Result SyncError Synced
link pt s beat =
    if linked_elsewhere s.id pt.id beat.schedules
    then err task_linked
    else ok (record {
      beat = record {
        tasks = write_task pt beat.tasks;
        schedules = set_link s.id (some pt.id) beat.schedules;
      };
      schedule = record s { periodic_task = some pt.id };
      task = pt;
    })

-- a schedule with a task: the task is saved
pub update : PeriodicTask → Schedule → Beat → Result SyncError Synced
update pt s beat =
    if name_in_use pt beat.tasks
    then err name_taken
    else ok (record {
      beat = record beat { tasks = write_task pt beat.tasks };
      schedule = s;
      task = pt;
    })

-- the task of that name, brought up to date, or a new one
pub reuse : ℕ → ℕ → Schedule → Option ℕ × Option Cron → Option PeriodicTask → PeriodicTask
unfolding created_task updated_task
reuse id now s t none = created_task id s t
reuse id now s t (some pt) = updated_task now s t pt

pub sync_task :
    ℕ → ℕ → Schedule → Option ℕ × Option Cron → Option PeriodicTask → Beat → Result SyncError Synced
unfolding reuse link update find_name updated_task
sync_task id now s t none beat = link (reuse id now s t (find_name s.name beat.tasks)) s beat
sync_task id now s t (some pt) beat = update (updated_task now s t pt) s beat

-- sync_schedule; `id` is the key that a new task gets
unfoldable pub sync_schedule : ℕ → ℕ → Schedule → Beat → Result SyncError Synced
sync_schedule id now s beat = elim (timing s) [
  | err e ↦ err e
  | ok t ↦ sync_task id now s t (task_of s.periodic_task beat.tasks) beat
]

abbrev pub reachability_task : Text
reachability_task = codes "automation.tasks.run_scheduled_reachability"

abbrev pub reachability_name : Text
reachability_name = codes "Reachability Poller"

abbrev pub any_time : Cron
any_time = record {
  minute = codes "*";
  hour = codes "*";
  day_of_week = codes "*";
  day_of_month = codes "*";
  month_of_year = codes "*";
}

-- `AutomationSchedule.objects.get(task_name=…)`
pub find_task_name : Text → List Schedule → Option Schedule
find_task_name task_name [] = none
find_task_name task_name (s ∷ schedules) =
    if text_eq s.task_name task_name then some s else find_task_name task_name schedules

pub write_schedule : Schedule → List Schedule → List Schedule
write_schedule = write_row (λ s. s.id)

-- the schedule with the settings' interval; a save of an unchanged row writes what is there
pub poller : ℕ → ℕ → Option Schedule → Schedule
poller id seconds none = record {
  id = id;
  name = reachability_name;
  task_name = reachability_task;
  enabled = true;
  schedule_type = interval;
  interval_seconds = some seconds;
  cron = any_time;
  periodic_task = none;
}
poller id seconds (some s) = record s { interval_seconds = some seconds; enabled = true }

-- sync_reachability_from_system_settings, where `minutes` is the setting
unfoldable pub sync_reachability : ℕ → ℕ → ℕ → Beat → Result SyncError Synced
unfolding find_task_name write_schedule poller
sync_reachability id now minutes beat =
    let s = poller id (minutes * 60) (find_task_name reachability_task beat.schedules) in
    sync_schedule id now s (record beat { schedules = write_schedule s beat.schedules })

-- `pt.delete()`: the schedules that still point at the task go with it (CASCADE)
pub delete_task : ℕ → Beat → Beat
delete_task k beat = record {
  tasks = select (λ t. not (t.id == k)) beat.tasks;
  schedules = select (λ s. not (same_key s.periodic_task (some k))) beat.schedules;
}

-- remove_schedule
unfoldable pub remove_schedule : Schedule → Beat → Beat
unfolding set_link delete_task
remove_schedule s beat = elim s.periodic_task [
  | none ↦ beat
  | some k ↦ delete_task k (record beat { schedules = set_link s.id none beat.schedules })
]
