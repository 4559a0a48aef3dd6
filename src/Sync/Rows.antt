-- ===== src/Sync/Rows.antt =====
-- The row that one turn of the second loop of _apply_inventory stores, and the loop's turns.
use zas.Prelude.{
  ℕ, ◌+◌, ◌≡◌, refl, sym, ap, ◌∙◌, true, Option, none, some, List, [], ◌∷◌, arith, All, inl, inr,
  select, ok, err, All-select-hit, Result-cases,
}
use zas.Text.{Text, text_eq_iff}
use zas.Serial.{DeviceModule, Inventory, save_module}
use zas.Sync.{
  Best, reconcile, same_module, optional_eq, StoreError, new_module, put, store, store_all,
}

-- a row that is stored for an entry
abbrev pub StoredFor : ℕ → Best → DeviceModule → Type 0
StoredFor device b row =
    (row.device ≡ device) × (row.name ≡ b.name) × (row.serial_number ≡ some b.serial)

optional_eq_lem : (o : Option Text) (t : Text) → optional_eq o t ≡ true → o ≡ some t
unfolding optional_eq
optional_eq_lem none t h = cc
optional_eq_lem (some s) t h = ap some ((text_eq_iff s t).0 h)

pub found-StoredFor :
    (device : ℕ) (b : Best) (r : DeviceModule)
    → same_module device b r ≡ true
    → StoredFor device b r
unfolding same_module
found-StoredFor device b r h = (
  ground (arith, h),
  (text_eq_iff r.name b.name).0 (ground (arith, h)),
  optional_eq_lem r.serial_number b.serial (ground (arith, h)),
)

new_module-StoredFor : (id device : ℕ) (b : Best) → StoredFor device b (new_module id device b)
unfolding new_module
new_module-StoredFor id device b = (refl, refl, refl)

-- `put` saves a row for the entry
put_lem :
    (id device : ℕ) (b : Best) (found : List DeviceModule) (inv inv' : Inventory)
    → All (λ r. same_module device b r ≡ true) found
    → put id device b found inv ≡ ok inv'
    → (row : DeviceModule) × StoredFor device b row × (inv' ≡ save_module row inv)
unfolding put
put_lem id device b [] inv inv' all h =
    (new_module id device b, new_module-StoredFor id device b, cc h)
put_lem id device b (r ∷ []) inv inv' all h =
    (record r { description = some b.descr; vendor = none }, found-StoredFor device b r all.0, cc h)
put_lem id device b (r ∷ s ∷ found) inv inv' all h = cc h

pub store_lem :
    (id device : ℕ) (b : Best) (inv inv' : Inventory)
    → store id device b inv ≡ ok inv'
    → (row : DeviceModule) × StoredFor device b row
      × (inv' ≡ save_module row (reconcile device b.name b.serial inv))
unfolding store
store_lem id device b inv inv' h =
    let inv1 = reconcile device b.name b.serial inv in
    put_lem id device b (select (same_module device b) inv1.modules) inv1 inv'
      (All-select-hit (same_module device b) inv1.modules) h

pub store_all-err :
    (id device : ℕ) (b : Best) (best : List Best) (inv : Inventory) {e : StoreError}
    → store id device b inv ≡ err e
    → store_all id device (b ∷ best) inv ≡ err e
unfolding store_all
store_all-err id device b best inv h = rw (h, store_all)

pub store_all-ok :
    (id device : ℕ) (b : Best) (best : List Best) (inv : Inventory) {between : Inventory}
    → store id device b inv ≡ ok between
    → store_all id device (b ∷ best) inv ≡ store_all (id + 1) device best between
unfolding store_all
store_all-ok id device b best inv h = rw (h, store_all)

pub err-ne-ok : (e : StoreError) (inv : Inventory) → ¬ (err e ≡ ok inv)
err-ne-ok e inv h = cc h

pub store_all-cons :
    (id device : ℕ) (b : Best) (best : List Best) (inv inv' : Inventory)
    → store_all id device (b ∷ best) inv ≡ ok inv'
    → (between : Inventory) × (store id device b inv ≡ ok between)
      × (store_all (id + 1) device best between ≡ ok inv')
store_all-cons id device b best inv inv' h = elim (Result-cases (store id device b inv)) [
  | inl (e, bad) ↦ absurd (err-ne-ok e inv' (sym (store_all-err id device b best inv bad) ∙ h))
  | inr (between, good) ↦ (between, good, sym (store_all-ok id device b best inv good) ∙ h)
]
