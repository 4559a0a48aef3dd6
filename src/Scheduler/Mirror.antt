-- ===== src/Scheduler/Mirror.antt =====
-- After a sync the task mirrors its schedule.
use zas.Prelude.{
  ℕ, ◌<◌, ◌≡◌, refl, ap, sym, ◌∙◌, false, Option, none, some, List, arith, find_row,
  find_row-write_self, find_row-key, Bool-cases, inl, inr, ok, err, Result-cases,
}
use zas.Scheduler.{
  ScheduleType, interval, crontab, Cron, Schedule, PeriodicTask, Beat, SyncError, timing, task_of,
  updated_task, write_task, linked_elsewhere, set_link, name_in_use, Synced, link, update, reuse,
  sync_task, sync_schedule, find_name, positive, timing_of,
}

-- the task runs when the schedule says, by exactly one of an interval and a crontab
abbrev pub Timed : ScheduleType → Schedule → PeriodicTask → Type 0
Timed interval s pt =
    (seconds : ℕ) × (s.interval_seconds ≡ some seconds)
    × (0 < seconds)
    × (pt.interval ≡ some seconds)
    × (pt.crontab ≡ none)
Timed crontab s pt = (pt.interval ≡ none) × (pt.crontab ≡ some s.cron)

-- the task has what the schedule says, and what an earlier use of it left is reset
pub record Mirrors (s : Schedule) (pt : PeriodicTask) : Type 0 where
  pub name : pt.name ≡ s.name
  pub task : pt.task ≡ s.task_name
  pub enabled : pt.enabled ≡ s.enabled
  pub clocked : pt.clocked ≡ none
  pub one_off : pt.one_off ≡ false

positive_lem :
    (o : Option ℕ) (t : Option ℕ × Option Cron)
    → positive o ≡ ok t
    → (seconds : ℕ) × (o ≡ some seconds) × (0 < seconds) × (t.0 ≡ some seconds) × (t.1 ≡ none)
unfolding positive
positive_lem none t h = cc
positive_lem (some n) t h = (n, refl, ground arith, ground arith, ground arith)

timing_of-Timed :
    (type : ScheduleType) (s : Schedule) (t : Option ℕ × Option Cron) (pt : PeriodicTask)
    → timing_of type s ≡ ok t
    → pt.interval ≡ t.0
    → pt.crontab ≡ t.1
    → Timed type s pt
unfolding timing_of
timing_of-Timed interval s t pt h i c =
    let (seconds, has, pos, is_seconds, no_cron) = positive_lem s.interval_seconds t h in
    (seconds, has, pos, i ∙ is_seconds, c ∙ no_cron)
timing_of-Timed crontab s t pt h i c = (ground arith, ground arith)

reuse-interval :
    (id now : ℕ) (s : Schedule) (t : Option ℕ × Option Cron) (o : Option PeriodicTask)
    → ((reuse id now s t o).interval ≡ t.0)
      × ((reuse id now s t o).crontab ≡ t.1)
      × Mirrors s (reuse id now s t o)
unfolding reuse
reuse-interval id now s t none = (refl, refl, ground arith)
reuse-interval id now s t (some pt) = (refl, refl, ground arith)

updated_task-Mirrors :
    (now : ℕ) (s : Schedule) (t : Option ℕ × Option Cron) (pt : PeriodicTask)
    → ((updated_task now s t pt).interval ≡ t.0)
      × ((updated_task now s t pt).crontab ≡ t.1)
      × Mirrors s (updated_task now s t pt)
unfolding updated_task
updated_task-Mirrors now s t pt = (refl, refl, ground arith)

record_of :
    (s : Schedule) (k : ℕ) → s.periodic_task ≡ some k → s ≡ record s { periodic_task = some k }
record_of s k h = ground arith

-- what a successful sync has done
abbrev pub IsSynced : Schedule → Option ℕ × Option Cron → Synced → Type 0
IsSynced s t r =
    (r.task.interval ≡ t.0)
    × (r.task.crontab ≡ t.1)
    × Mirrors s r.task
    × (find_row (λ (p : PeriodicTask). p.id) r.task.id r.beat.tasks ≡ some r.task)
    × (r.schedule ≡ record s { periodic_task = some r.task.id })

link-IsSynced :
    (pt : PeriodicTask) (s : Schedule) (t : Option ℕ × Option Cron) (beat : Beat) (r : Synced)
    → (pt.interval ≡ t.0) × (pt.crontab ≡ t.1) × Mirrors s pt
    → link pt s beat ≡ ok r
    → IsSynced s t r
unfolding link write_task
link-IsSynced pt s t beat r m h = elim (Bool-cases (linked_elsewhere s.id pt.id beat.schedules)) [
  | inl taken ↦ absurd (ground (arith, taken, h))
  | inr free ↦
      let same : r ≡ record {
        beat = record {
          tasks = write_task pt beat.tasks;
          schedules = set_link s.id (some pt.id) beat.schedules;
        };
        schedule = record s { periodic_task = some pt.id };
        task = pt;
      } =
        ground (arith, free, h) in
      rw same (m.0, m.1, m.2, find_row-write_self (λ (p : PeriodicTask). p.id) pt beat.tasks, refl)
]

update-IsSynced :
    (pt : PeriodicTask) (s : Schedule) (t : Option ℕ × Option Cron) (beat : Beat) (r : Synced)
    → (pt.interval ≡ t.0) × (pt.crontab ≡ t.1) × Mirrors s pt
    → s.periodic_task ≡ some pt.id
    → update pt s beat ≡ ok r
    → IsSynced s t r
unfolding update write_task
update-IsSynced pt s t beat r m key h = elim (Bool-cases (name_in_use pt beat.tasks)) [
  | inl taken ↦ absurd (ground (arith, taken, h))
  | inr free ↦
      let same : r ≡ record {
        beat = record beat { tasks = write_task pt beat.tasks };
        schedule = s;
        task = pt;
      } =
        ground (arith, free, h) in
      rw same (
        m.0,
        m.1,
        m.2,
        find_row-write_self (λ (p : PeriodicTask). p.id) pt beat.tasks,
        record_of s pt.id key,
      )
]

task_of-key :
    (o : Option ℕ) (tasks : List PeriodicTask) (pt : PeriodicTask)
    → task_of o tasks ≡ some pt
    → o ≡ some pt.id
unfolding task_of
task_of-key none tasks pt h = cc
task_of-key (some k) tasks pt h =
    ap some (sym (find_row-key (λ (p : PeriodicTask). p.id) k tasks pt h))

sync_task-IsSynced :
    (id now : ℕ) (s : Schedule) (t : Option ℕ × Option Cron) (o : Option PeriodicTask) (beat : Beat)
    (r : Synced)
    → ((pt : PeriodicTask) → o ≡ some pt → s.periodic_task ≡ some pt.id)
    → sync_task id now s t o beat ≡ ok r
    → IsSynced s t r
unfolding sync_task
sync_task-IsSynced id now s t none beat r key h =
    link-IsSynced (reuse id now s t (find_name s.name beat.tasks)) s t beat r
      (reuse-interval id now s t (find_name s.name beat.tasks)) h
sync_task-IsSynced id now s t (some pt) beat r key h =
    update-IsSynced (updated_task now s t pt) s t beat r (updated_task-Mirrors now s t pt)
      (unfold updated_task in key pt refl) h

pub err_ne_ok : (e : SyncError) (r : Synced) → ¬ (err e ≡ ok r)
err_ne_ok e r h = cc

module _ (id now : ℕ) (s : Schedule) (beat : Beat) where
  pub sync-err : {e : SyncError} → timing s ≡ err e → sync_schedule id now s beat ≡ err e
  sync-err h = unfold sync_schedule in rw (h, sync_schedule)

  pub sync-ok :
      {t : Option ℕ × Option Cron}
      → timing s ≡ ok t
      → sync_schedule id now s beat ≡ sync_task id now s t (task_of s.periodic_task beat.tasks) beat
  sync-ok h = unfold sync_schedule in rw (h, sync_schedule)

-- A sync that returns leaves a task that has the schedule's name, task and enabled flag, runs by exactly
-- the interval or the crontab that the schedule's type says, with a positive interval, and has no
-- clock and no one-off flag left. The task is stored under its key, and the returned schedule is the
-- given one with this task as its own.
pub sync_schedule-Mirrors :
    (id now : ℕ) (s : Schedule) (beat : Beat) (r : Synced)
    → sync_schedule id now s beat ≡ ok r
    → Timed s.schedule_type s r.task
      × Mirrors s r.task
      × (find_row (λ (p : PeriodicTask). p.id) r.task.id r.beat.tasks ≡ some r.task)
      × (r.schedule ≡ record s { periodic_task = some r.task.id })
sync_schedule-Mirrors id now s beat r h = elim (Result-cases (timing s)) [
  | inl (e, bad) ↦ absurd (err_ne_ok e r (sym (sync-err id now s beat bad) ∙ h))
  | inr (t, good) ↦
      let o = task_of s.periodic_task beat.tasks in
      let (i, c, mirrors, found, linked) =
        sync_task-IsSynced id now s t o beat r (λ pt e. task_of-key s.periodic_task beat.tasks pt e)
          (sym (sync-ok id now s beat good) ∙ h) in
      (
        timing_of-Timed s.schedule_type s t r.task (unfold timing in good) i c,
        mirrors,
        found,
        linked,
      )
]
