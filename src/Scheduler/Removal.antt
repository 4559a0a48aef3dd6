-- ===== src/Scheduler/Removal.antt =====
-- `remove_schedule` deletes the task and keeps the schedule.
use zas.Prelude.{
  ℕ, ◌≡◌, refl, true, false, not, none, some, List, [], ◌∷◌, arith, select, find_row, ◌==◌,
  same_key, Bool-cases, inl, inr, All, ◌⊎◌,
}
use zas.Scheduler.{Schedule, PeriodicTask, Beat, set_link, delete_task, remove_schedule}

-- only this schedule has the task
abbrev pub OnlyLink : ℕ → ℕ → List Schedule → Type 0
OnlyLink id k schedules =
    All (λ (r : Schedule). ((r.id == id) ≡ true) ⊎ (same_key r.periodic_task (some k) ≡ false))
      schedules

select-set_link :
    (id k : ℕ) (schedules : List Schedule)
    → OnlyLink id k schedules
    → select (λ s. not (same_key s.periodic_task (some k))) (set_link id none schedules)
      ≡ set_link id none schedules
unfolding set_link
select-set_link id k [] h = refl
select-set_link id k (s ∷ schedules) h =
    let ih = select-set_link id k schedules h.1 in
    elim (Bool-cases (s.id == id)) [
      | inl e ↦ rw (e, ih) refl
      | inr e ↦
          let other : same_key s.periodic_task (some k) ≡ false = ground (arith, e, h.0) in
          rw (e, other, ih) refl
    ]

task_gone :
    (k : ℕ) (tasks : List PeriodicTask)
    → find_row (λ (t : PeriodicTask). t.id) k (select (λ t. not (t.id == k)) tasks) ≡ none
task_gone k [] = refl
task_gone k (t ∷ tasks) = elim (Bool-cases (t.id == k)) [
  | inl e ↦ rw e (task_gone k tasks)
  | inr e ↦ rw (e, e) (task_gone k tasks)
]

-- Removing a schedule that has a task, and that alone has it, deletes the task and no schedule: the
-- schedules are the ones before, in which this one has no task any more.
pub remove_schedule_lem :
    (s : Schedule) (k : ℕ) (beat : Beat)
    → s.periodic_task ≡ some k
    → OnlyLink s.id k beat.schedules
    → ((remove_schedule s beat).schedules ≡ set_link s.id none beat.schedules)
      × (find_row (λ (t : PeriodicTask). t.id) k (remove_schedule s beat).tasks ≡ none)
remove_schedule_lem s k beat key only =
    let e : remove_schedule s beat
        ≡ delete_task k (record beat { schedules = set_link s.id none beat.schedules }) =
      unfold remove_schedule in rw (key, remove_schedule) refl in
    rw e
      (unfold delete_task in (select-set_link s.id k beat.schedules only, task_gone k beat.tasks))
