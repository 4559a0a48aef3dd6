-- ===== src/Scheduler/Names.antt =====
-- The names of the tasks stay unique.
use zas.Prelude.{
  ℕ, ◌≡◌, refl, ap, sym, ◌∙◌, Bool, true, false, Option, none, some, List, [], ◌∷◌, arith, All-map,
  NoClash, NoClash-write, Alone, Bool-cases, ◌⊎◌, inl, inr, ok, ◌==◌, Result-cases,
}
use zas.Text.{Text, text_eq, text_eq_iff}
use zas.Scheduler.{
  Cron, Schedule, PeriodicTask, Beat, timing, task_of, updated_task, write_task, name_in_use,
  Synced, link, update, reuse, sync_task, sync_schedule, find_name,
}
use zas.Scheduler.Mirror.{sync-err, sync-ok, err_ne_ok}

abbrev task_id : PeriodicTask → ℕ
task_id t = t.id

abbrev same_name : PeriodicTask → PeriodicTask → Bool
same_name a b = text_eq a.name b.name

-- no two tasks with different keys have one name
abbrev pub NamesUnique : List PeriodicTask → Type 0
NamesUnique = NoClash (λ (t : PeriodicTask). t.id) (λ (a b : PeriodicTask). text_eq a.name b.name)

abbrev Lone : PeriodicTask → List PeriodicTask → Type 0
Lone = Alone task_id same_name

text_eq_comm : (s t : Text) → text_eq s t ≡ text_eq t s
text_eq_comm s t = ground (arith, text_eq_iff s t, text_eq_iff t s)

write_task-NamesUnique :
    (pt : PeriodicTask) (tasks : List PeriodicTask)
    → Lone pt tasks
    → NamesUnique tasks
    → NamesUnique (write_task pt tasks)
unfolding write_task
write_task-NamesUnique = NoClash-write task_id same_name (λ a b. text_eq_comm a.name b.name)

free-Lone :
    (pt : PeriodicTask) (tasks : List PeriodicTask) → name_in_use pt tasks ≡ false → Lone pt tasks
unfolding name_in_use
free-Lone pt [] h = tt
free-Lone pt (t ∷ tasks) h = (
  elim (Bool-cases (t.id == pt.id)) [ inl e ↦ inl e | inr e ↦ inr (ground arith) ],
  free-Lone pt tasks (ground arith),
)

-- a name that no task has
missing-Lone :
    (pt : PeriodicTask) (name : Text) (tasks : List PeriodicTask)
    → pt.name ≡ name
    → find_name name tasks ≡ none
    → Lone pt tasks
unfolding find_name
missing-Lone pt name [] same h = tt
missing-Lone pt name (t ∷ tasks) same h = elim (Bool-cases (text_eq t.name name)) [
  | inl e ↦ absurd (ground (arith, e, h))
  | inr e ↦ (inr (rw same e), missing-Lone pt name tasks same (rw e at h))
]

Lone-same :
    (a b : PeriodicTask) (tasks : List PeriodicTask)
    → a.id ≡ b.id
    → a.name ≡ b.name
    → Lone a tasks
    → Lone b tasks
Lone-same a b tasks key name =
    All-map (λ r. ((r.id == a.id) ≡ true) ⊎ (text_eq r.name a.name ≡ false))
      (λ r. ((r.id == b.id) ≡ true) ⊎ (text_eq r.name b.name ≡ false))
      (λ r h. elim h [ inl e ↦ inl (rw (← key) e) | inr e ↦ inr (rw (← name) e) ]) tasks

-- the task that is found by its name
found-Lone :
    (pt p : PeriodicTask) (name : Text) (tasks : List PeriodicTask)
    → pt.name ≡ name
    → pt.id ≡ p.id
    → find_name name tasks ≡ some p
    → NamesUnique tasks
    → Lone pt tasks
unfolding find_name
found-Lone pt p name [] same key h unique = tt
found-Lone pt p name (t ∷ tasks) same key h unique = elim (Bool-cases (text_eq t.name name)) [
  | inl e ↦
      let here : t ≡ p = ground (arith, e, h) in
      let keys : t.id ≡ pt.id = ap task_id here ∙ sym key in
      let names : t.name ≡ pt.name = (text_eq_iff t.name name).0 e ∙ sym same in
      (inl (ground (arith, keys)), Lone-same t pt tasks keys names unique.0)
  | inr e ↦ (inr (rw same e), found-Lone pt p name tasks same key (rw e at h) unique.1)
]

reuse-Lone :
    (id now : ℕ) (s : Schedule) (t : Option ℕ × Option Cron) (o : Option PeriodicTask)
    (tasks : List PeriodicTask)
    → find_name s.name tasks ≡ o
    → NamesUnique tasks
    → Lone (reuse id now s t o) tasks
unfolding reuse
reuse-Lone id now s t none tasks h unique = missing-Lone (reuse id now s t none) s.name tasks refl h
reuse-Lone id now s t (some p) tasks h unique =
    found-Lone (reuse id now s t (some p)) p s.name tasks refl refl h unique

link-NamesUnique :
    (pt : PeriodicTask) (s : Schedule) (beat : Beat) (r : Synced)
    → Lone pt beat.tasks
    → NamesUnique beat.tasks
    → link pt s beat ≡ ok r
    → NamesUnique r.beat.tasks
unfolding link
link-NamesUnique pt s beat r lone unique h =
    let same : r.beat.tasks ≡ write_task pt beat.tasks = ground (arith, h) in
    rw same (write_task-NamesUnique pt beat.tasks lone unique)

update-NamesUnique :
    (pt : PeriodicTask) (s : Schedule) (beat : Beat) (r : Synced)
    → NamesUnique beat.tasks
    → update pt s beat ≡ ok r
    → NamesUnique r.beat.tasks
unfolding update
update-NamesUnique pt s beat r unique h =
    let free : name_in_use pt beat.tasks ≡ false = ground (arith, h) in
    let same : r.beat.tasks ≡ write_task pt beat.tasks = ground (arith, h) in
    rw same (write_task-NamesUnique pt beat.tasks (free-Lone pt beat.tasks free) unique)

sync_task-NamesUnique :
    (id now : ℕ) (s : Schedule) (t : Option ℕ × Option Cron) (o : Option PeriodicTask) (beat : Beat)
    (r : Synced)
    → NamesUnique beat.tasks
    → sync_task id now s t o beat ≡ ok r
    → NamesUnique r.beat.tasks
unfolding sync_task
sync_task-NamesUnique id now s t none beat r unique h =
    let found = find_name s.name beat.tasks in
    link-NamesUnique (reuse id now s t found) s beat r
      (reuse-Lone id now s t found beat.tasks refl unique) unique h
sync_task-NamesUnique id now s t (some pt) beat r unique h =
    update-NamesUnique (updated_task now s t pt) s beat r unique h

-- A sync keeps the names of the tasks unique: no two tasks with different keys have one name.
pub sync_schedule-NamesUnique :
    (id now : ℕ) (s : Schedule) (beat : Beat) (r : Synced)
    → NamesUnique beat.tasks
    → sync_schedule id now s beat ≡ ok r
    → NamesUnique r.beat.tasks
sync_schedule-NamesUnique id now s beat r unique h = elim (Result-cases (timing s)) [
  | inl (e, bad) ↦ absurd (err_ne_ok e r (sym (sync-err id now s beat bad) ∙ h))
  | inr (t, good) ↦
      sync_task-NamesUnique id now s t (task_of s.periodic_task beat.tasks) beat r unique
        (sym (sync-ok id now s beat good) ∙ h)
]
