-- ===== src/Scheduler/Poller.antt =====
-- What the reachability settings do to the poller's schedule.
use zas.Prelude.{ℕ, ◌*◌, ◌≡◌, refl, sym, ◌∙◌, ap, true, Option, none, some, ok}
use zas.Scheduler.{
  interval, crontab, Schedule, Beat, Synced, sync_schedule, sync_reachability, poller,
  find_task_name, write_schedule, reachability_task,
}
use zas.Scheduler.Mirror.{Timed, Mirrors, sync_schedule-Mirrors}

-- the schedule runs by an interval, or is still to be made
abbrev pub ByInterval : Option Schedule → Type 0
ByInterval none = Unit
ByInterval (some s) = s.schedule_type ≡ interval

poller-interval :
    (id seconds : ℕ) (o : Option Schedule)
    → ByInterval o
    → ((poller id seconds o).schedule_type ≡ interval)
      × ((poller id seconds o).interval_seconds ≡ some seconds)
      × ((poller id seconds o).enabled ≡ true)
unfolding poller
poller-interval id seconds none h = (refl, refl, refl)
poller-interval id seconds (some s) h = (h, refl, refl)

poller-crontab :
    (id seconds : ℕ) (s : Schedule)
    → ((poller id seconds (some s)).schedule_type ≡ s.schedule_type)
      × ((poller id seconds (some s)).cron ≡ s.cron)
unfolding poller
poller-crontab id seconds s = (refl, refl)

some_lem : (m n : ℕ) → ◌≡◌ {A = Option ℕ} (some m) (some n) → m ≡ n
some_lem m n h = cc

-- the table with the poller's schedule saved
abbrev saved : Schedule → Beat → Beat
saved s beat = record beat { schedules = write_schedule s beat.schedules }

module _ (id now minutes : ℕ) (beat : Beat) where
  sync_reachability_lem :
      sync_reachability id now minutes beat
      ≡ sync_schedule id now
          (poller id (minutes * 60) (find_task_name reachability_task beat.schedules))
          (saved (poller id (minutes * 60) (find_task_name reachability_task beat.schedules)) beat)
  sync_reachability_lem = unfold sync_reachability in refl

  synced :
      (r : Synced)
      → sync_reachability id now minutes beat ≡ ok r
      → Timed
          (poller id (minutes * 60) (find_task_name reachability_task beat.schedules)).schedule_type
          (poller id (minutes * 60) (find_task_name reachability_task beat.schedules))
          r.task
        × Mirrors
            (poller id (minutes * 60) (find_task_name reachability_task beat.schedules))
            r.task
  synced r h =
      let s = poller id (minutes * 60) (find_task_name reachability_task beat.schedules) in
      let m = sync_schedule-Mirrors id now s (saved s beat) r (sym sync_reachability_lem ∙ h) in
      (m.0, m.1)

  -- Where the poller's schedule is a crontab, a sync from the settings that returns leaves its task
  -- with the crontab and no interval, whatever the minutes in the settings are.
  pub crontab_poller_keeps :
      (s : Schedule) (r : Synced)
      → find_task_name reachability_task beat.schedules ≡ some s
      → s.schedule_type ≡ crontab
      → sync_reachability id now minutes beat ≡ ok r
      → (r.task.interval ≡ none) × (r.task.crontab ≡ some s.cron)
  crontab_poller_keeps s r found type h =
      let facts = poller-crontab id (minutes * 60) s in
      let m = rw found at (synced r h) in
      let by_crontab = facts.0 ∙ type in
      let timed = rw by_crontab at m.0 in (timed.0, timed.1 ∙ ap some facts.1)

  -- Where the poller's schedule runs by an interval, or is still to be made, a sync from the settings
  -- that returns leaves an enabled task that runs every `minutes * 60` seconds and has no crontab.
  pub interval_poller_follows :
      (r : Synced)
      → ByInterval (find_task_name reachability_task beat.schedules)
      → sync_reachability id now minutes beat ≡ ok r
      → (r.task.interval ≡ some (minutes * 60)) × (r.task.crontab ≡ none) × (r.task.enabled ≡ true)
  interval_poller_follows r by h =
      let facts =
        poller-interval id (minutes * 60) (find_task_name reachability_task beat.schedules) by in
      let m = synced r h in
      let (seconds, has, pos, runs, no_cron) = rw facts.0 at m.0 in
      (
        runs ∙ ap some (some_lem seconds (minutes * 60) (sym has ∙ facts.1)),
        no_cron,
        m.1.enabled ∙ facts.2,
      )
