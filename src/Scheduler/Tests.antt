-- ===== src/Scheduler/Tests.antt =====
-- Tests of the schedules, and the theorems on them at concrete tables.
use zas.Prelude.{◌≡◌, refl, true, false, none, some, [], ◌∷◌, find_row, ok, err, inr}
use zas.Text.{codes, text_eq}
use zas.Scheduler.{
  interval, crontab, any_time, Schedule, PeriodicTask, Beat, bad_interval, name_taken, Synced,
  sync_schedule, sync_reachability, set_link, timing, task_of, sync_task, reachability_task,
  linked_elsewhere, name_in_use, write_task, find_task_name, write_schedule,
}
use zas.Scheduler.Mirror.{Timed, Mirrors, sync_schedule-Mirrors}
use zas.Scheduler.Names.{NamesUnique, sync_schedule-NamesUnique}
use zas.Scheduler.Nightly.{
  backup_name, backup_task, at_four, cleanup_name, sync_config_backup_schedule,
  sync_reachability_cleanup_schedule,
}

abbrev nightly : Schedule
nightly = record {
  id = 1;
  name = codes "Nightly";
  task_name = codes "backup";
  enabled = true;
  schedule_type = crontab;
  interval_seconds = none;
  cron = record any_time { minute = codes "0"; hour = codes "4" };
  periodic_task = none;
}

abbrev poll : Schedule
poll = record nightly {
  id = 2;
  name = codes "Poller";
  task_name = reachability_task;
  schedule_type = interval;
  interval_seconds = some 600;
  periodic_task = some 7;
}

abbrev poll_task : PeriodicTask
poll_task = record {
  id = 7;
  name = codes "Poller";
  task = reachability_task;
  interval = some 600;
  crontab = none;
  enabled = true;
  clocked = none;
  one_off = false;
  start_time = some 5;
}

-- a task with the name of the nightly schedule that was made by hand
abbrev stray_task : PeriodicTask
stray_task = record poll_task {
  id = 8;
  name = codes "Nightly";
  task = codes "other";
  one_off = true;
}

abbrev beat : Beat
beat = record { tasks = poll_task ∷ stray_task ∷ []; schedules = nightly ∷ poll ∷ [] }

abbrev mirrored : PeriodicTask
mirrored = record {
  id = 8;
  name = codes "Nightly";
  task = codes "backup";
  interval = none;
  crontab = some nightly.cron;
  enabled = true;
  clocked = none;
  one_off = false;
  start_time = some 5;
}

abbrev linked : Schedule
linked = record nightly { periodic_task = some 8 }

abbrev nightly_synced : Synced
nightly_synced = record {
  beat = record { tasks = poll_task ∷ mirrored ∷ []; schedules = linked ∷ poll ∷ [] };
  schedule = linked;
  task = mirrored;
}

-- the task of that name is reused
reuse_test : sync_schedule 9 50 nightly beat ≡ ok nightly_synced
unfolding sync_schedule timing task_of sync_task text_eq linked_elsewhere name_in_use write_task
    set_link
reuse_test = refl

zero_interval :
    sync_schedule 9 50 (record poll { interval_seconds = some 0 }) beat ≡ err bad_interval
unfolding sync_schedule timing task_of sync_task
zero_interval = refl

-- the poller takes the name of another task
taken_name : sync_schedule 9 50 (record poll { name = codes "Nightly" }) beat ≡ err name_taken
unfolding sync_schedule timing task_of sync_task text_eq linked_elsewhere name_in_use write_task
    set_link
taken_name = refl

sync_schedule-Mirrors_example :
    Timed nightly.schedule_type nightly nightly_synced.task
    × Mirrors nightly nightly_synced.task
    × (find_row (λ (p : PeriodicTask). p.id) nightly_synced.task.id nightly_synced.beat.tasks
        ≡ some nightly_synced.task)
    × (nightly_synced.schedule ≡ record nightly { periodic_task = some nightly_synced.task.id })
sync_schedule-Mirrors_example = sync_schedule-Mirrors 9 50 nightly beat nightly_synced reuse_test

names_unique : NamesUnique beat.tasks
unfolding text_eq
names_unique = ((inr refl, tt), (tt, tt))

sync_schedule-NamesUnique_example : NamesUnique nightly_synced.beat.tasks
sync_schedule-NamesUnique_example =
    sync_schedule-NamesUnique 9 50 nightly beat nightly_synced names_unique reuse_test

-- the poller's schedule, which was made a crontab
abbrev cron_poll : Schedule
cron_poll = record poll { schedule_type = crontab }

abbrev cron_beat : Beat
cron_beat = record beat { schedules = nightly ∷ cron_poll ∷ [] }

abbrev cron_synced : Synced
cron_synced = record {
  beat = record {
    tasks = record poll_task { interval = none; crontab = some nightly.cron } ∷ stray_task ∷ [];
    schedules = nightly ∷ record cron_poll { interval_seconds = some 900 } ∷ [];
  };
  schedule = record cron_poll { interval_seconds = some 900 };
  task = record poll_task { interval = none; crontab = some nightly.cron };
}

cron_test : sync_reachability 9 50 15 cron_beat ≡ ok cron_synced
unfolding sync_reachability sync_schedule timing task_of sync_task text_eq linked_elsewhere
    name_in_use write_task set_link
cron_test = refl

cron_found : find_task_name reachability_task cron_beat.schedules ≡ some cron_poll
unfolding find_task_name text_eq
cron_found = refl

abbrev quick_synced : Synced
quick_synced = record {
  beat = record {
    tasks = record poll_task { interval = some 900 } ∷ stray_task ∷ [];
    schedules = nightly ∷ record poll { interval_seconds = some 900 } ∷ [];
  };
  schedule = record poll { interval_seconds = some 900 };
  task = record poll_task { interval = some 900 };
}

quick_test : sync_reachability 9 50 15 beat ≡ ok quick_synced
unfolding sync_reachability sync_schedule timing task_of sync_task text_eq linked_elsewhere
    name_in_use write_task set_link
quick_test = refl

-- a schedule with the name of the backup that was made for another use, and is off
abbrev wrong_backup : Schedule
wrong_backup = record poll { id = 3; name = backup_name; enabled = false; periodic_task = none }

abbrev backup_row : PeriodicTask
backup_row = record {
  id = 60;
  name = backup_name;
  task = backup_task;
  interval = none;
  crontab = some at_four;
  enabled = true;
  clocked = none;
  one_off = false;
  start_time = none;
}

abbrev backed_up : Synced
backed_up =
    let s = record wrong_backup {
      task_name = backup_task;
      enabled = true;
      schedule_type = crontab;
      cron = at_four;
      periodic_task = some 60;
    } in
    record {
      beat = record { tasks = backup_row ∷ []; schedules = s ∷ [] };
      schedule = s;
      task = backup_row;
    }

backup_test :
    sync_config_backup_schedule 50 60 9 (record { tasks = []; schedules = wrong_backup ∷ [] })
    ≡ ok backed_up
unfolding sync_config_backup_schedule sync_schedule text_eq timing sync_task task_of
    linked_elsewhere write_schedule write_task set_link
backup_test = refl

-- the cleanup does not enforce its times
kept_test :
    (r : Synced) × (sync_reachability_cleanup_schedule 7 50 60 9
        (record { tasks = []; schedules = record nightly { name = cleanup_name } ∷ [] })
      ≡ ok r)
    × (r.task.crontab ≡ some nightly.cron)
unfolding sync_reachability_cleanup_schedule sync_schedule text_eq timing sync_task task_of
    linked_elsewhere write_schedule
kept_test = (_, refl, refl)
