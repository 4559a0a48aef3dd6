-- ===== src/Scheduler/Nightly.antt =====
-- The two fixed schedules: sync_config_backup_schedule and sync_reachability_cleanup_schedule
-- (automation/services/scheduler_sync.py).
use zas.Prelude.{
  ℕ, ◌≡◌, true, none, some, List, [], ◌∷◌, select, find_row, Result, ok, err, and_then, and_then-ok,
}
use zas.Text.{Text, codes, text_eq}
use zas.Scheduler.{
  SyncError, several_schedules, crontab, Cron, Schedule, PeriodicTask, Beat, Synced, any_time,
  write_schedule, sync_schedule,
}
use zas.Scheduler.Mirror.{sync_schedule-Mirrors}

-- `AutomationSchedule.objects.filter(name=…)`; the name need not be unique
unfoldable pub named_schedules : Text → List Schedule → List Schedule
named_schedules name schedules = select (λ s. text_eq s.name name) schedules

abbrev pub backup_name : Text
backup_name = codes "Nightly Configuration Backup"

abbrev pub backup_task : Text
backup_task = codes "automation.tasks.run_scheduled_config_backup"

abbrev pub at_four : Cron
at_four = record any_time { minute = codes "0"; hour = codes "4" }

abbrev pub cleanup_name : Text
cleanup_name = codes "Reachability History Cleanup"

abbrev pub cleanup_task : Text
cleanup_task = codes "automation.tasks.cleanup_reachability_history"

abbrev pub at_half_past_three : Cron
at_half_past_three = record any_time { minute = codes "30"; hour = codes "3" }

-- get_or_create, by the rows that have the name
unfoldable pub get_or_create : ℕ → Text → Text → Cron → List Schedule → Result SyncError Schedule
get_or_create id name task cron [] = ok (record {
  id = id;
  name = name;
  task_name = task;
  enabled = true;
  schedule_type = crontab;
  interval_seconds = none;
  cron = cron;
  periodic_task = none;
})
get_or_create id name task cron (s ∷ []) = ok s
get_or_create id name task cron (s ∷ s' ∷ found) = err several_schedules

-- the values that are enforced
unfoldable pub enforced : Schedule → Schedule
enforced s = record s {
  task_name = backup_task;
  schedule_type = crontab;
  cron = at_four;
  enabled = true;
}

-- `schedule.save()` and then sync_schedule
unfoldable pub save_and_sync : ℕ → ℕ → Schedule → Beat → Result SyncError Synced
save_and_sync task_id now s beat =
    sync_schedule task_id now s (record beat { schedules = write_schedule s beat.schedules })

-- sync_config_backup_schedule; `id` and `task_id` are the keys of new rows
unfoldable pub sync_config_backup_schedule : ℕ → ℕ → ℕ → Beat → Result SyncError Synced
unfolding named_schedules get_or_create enforced save_and_sync
sync_config_backup_schedule id task_id now beat =
    and_then
      (get_or_create id backup_name backup_task at_four
        (named_schedules backup_name beat.schedules))
      (λ (s : Schedule). save_and_sync task_id now (enforced s) beat)

-- sync_reachability_cleanup_schedule, which takes days and does not read them
unfoldable pub sync_reachability_cleanup_schedule : ℕ → ℕ → ℕ → ℕ → Beat → Result SyncError Synced
unfolding named_schedules get_or_create save_and_sync
sync_reachability_cleanup_schedule days id task_id now beat =
    and_then
      (get_or_create id cleanup_name cleanup_task at_half_past_three
        (named_schedules cleanup_name beat.schedules))
      (λ (s : Schedule). save_and_sync task_id now s beat)

-- A sync of the backup schedule that returns leaves a task of the backup that is on, runs at four
-- every day and by no interval, and is stored, whatever the stored schedule said: its type, its times,
-- its task, or that it was off.
pub sync_config_backup_lem :
    (id task_id now : ℕ) (beat : Beat) (r : Synced)
    → sync_config_backup_schedule id task_id now beat ≡ ok r
    → (r.task.interval ≡ none)
      × (r.task.crontab ≡ some at_four)
      × (r.task.task ≡ backup_task)
      × (r.task.enabled ≡ true)
      × (find_row (λ (p : PeriodicTask). p.id) r.task.id r.beat.tasks ≡ some r.task)
unfolding sync_config_backup_schedule
sync_config_backup_lem id task_id now beat r h =
    let (s, found, synced) =
      and_then-ok
        (get_or_create id backup_name backup_task at_four
          (named_schedules backup_name beat.schedules))
        _ r h in
    let m =
      sync_schedule-Mirrors task_id now (enforced s)
        (record beat { schedules = write_schedule (enforced s) beat.schedules }) r synced in
    (m.0.0, m.0.1, m.1.task, m.1.enabled, m.2)
