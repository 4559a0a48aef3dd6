-- ===== src/Sync/Held.antt =====
-- The keys of the modules while _apply_inventory stores its entries.
use zas.Prelude.{
  Some, Some-All, Some-select_of, ℕ, ◌+◌, ◌<◌, ◌≡◌, refl, true, not, none, some, List, [], ◌∷◌,
  ◌==◌, arith, Bool, All, All-map, All-select, All-select-hit, Bool-cases, inl, inr, ◌⊎◌, select,
  ok, KeysUnique,
}
use zas.Serial.{DeviceModule, Inventory, save_module}
use zas.Sync.{Best, foreign, reconcile, same_module, new_module, put, store}
use zas.Sync.Rows.{StoredFor, found-StoredFor}

-- the keys of the modules are different and below `id`
abbrev pub KeysBelow : ℕ → Inventory → Type 0
KeysBelow id inv =
    KeysUnique (λ (r : DeviceModule). r.id) inv.modules
    × All (λ (r : DeviceModule). r.id < id) inv.modules

select-KeysUnique :
    (q : DeviceModule → Bool) (rows : List DeviceModule)
    → KeysUnique (λ (r : DeviceModule). r.id) rows
    → KeysUnique (λ (r : DeviceModule). r.id) (select q rows)
select-KeysUnique q [] h = tt
select-KeysUnique q (r ∷ rows) h = elim (Bool-cases (q r)) [
  | inl e ↦ rw e (All-select _ q rows h.0, select-KeysUnique q rows h.1)
  | inr e ↦ rw e (select-KeysUnique q rows h.1)
]

-- the key of the row that is stored: a new one, or that of a module for the entry
abbrev pub KeyFor : ℕ → ℕ → Best → List DeviceModule → DeviceModule → Type 0
KeyFor id device b rows row =
    (row.id ≡ id) ⊎ Some (λ r. (r.id ≡ row.id) × StoredFor device b r) rows

put-KeyFor :
    (id device : ℕ) (b : Best) (found : List DeviceModule) (inv inv' : Inventory)
    → All (λ r. same_module device b r ≡ true) found
    → put id device b found inv ≡ ok inv'
    → (row : DeviceModule) × StoredFor device b row
      × (inv' ≡ save_module row inv)
      × KeyFor id device b found row
unfolding put new_module
put-KeyFor id device b [] inv inv' all h =
    (new_module id device b, (refl, refl, refl), cc h, inl refl)
put-KeyFor id device b (r ∷ []) inv inv' all h =
    let own = found-StoredFor device b r all.0 in
    (record r { description = some b.descr; vendor = none }, own, cc h, inr (inl (refl, own)))
put-KeyFor id device b (r ∷ s ∷ found) inv inv' all h = cc h

pub store-KeyFor :
    (id device : ℕ) (b : Best) (inv inv' : Inventory)
    → store id device b inv ≡ ok inv'
    → (row : DeviceModule) × StoredFor device b row
      × (inv' ≡ save_module row (reconcile device b.name b.serial inv))
      × KeyFor id device b inv.modules row
unfolding store reconcile
store-KeyFor id device b inv inv' h =
    let inv1 = reconcile device b.name b.serial inv in
    let (row, own, e, key) =
      put-KeyFor id device b (select (same_module device b) inv1.modules) inv1 inv'
        (All-select-hit (same_module device b) inv1.modules) h in
    (
      row,
      own,
      e,
      elim key [
        | inl new ↦ inl new
        | inr old ↦ inr (
            Some-select_of _ (λ r. not (foreign device b.name b.serial r)) inv.modules
              (Some-select_of _ (same_module device b) inv1.modules old))
      ],
    )

save-KeysBelow :
    (id : ℕ) (row : DeviceModule) (inv : Inventory)
    → row.id < id + 1
    → KeysBelow id inv
    → KeysBelow (id + 1) (save_module row inv)
unfolding save_module
save-KeysBelow id row inv lt h =
    let other = λ (r : DeviceModule). not (r.id == row.id) in
    (
      (
        All-map (λ r. other r ≡ true) _ (λ r e. ground (arith, e)) _
            (All-select-hit other inv.modules),
        select-KeysUnique other inv.modules h.0,
      ),
      (lt, All-select _ other inv.modules (All-map _ _ (λ r e. omega (arith, e)) inv.modules h.1)),
    )

key_below :
    (id device : ℕ) (b : Best) (inv : Inventory) (row : DeviceModule)
    → KeysBelow id inv
    → KeyFor id device b inv.modules row
    → row.id < id + 1
key_below id device b inv row keys (inl new) = omega (arith, new)
key_below id device b inv row keys (inr old) =
    let (r, (same, own), lt) = Some-All _ _ inv.modules old keys.1 in omega (arith, same, lt)

pub store-KeysBelow :
    (id device : ℕ) (b : Best) (inv inv' : Inventory)
    → KeysBelow id inv
    → store id device b inv ≡ ok inv'
    → KeysBelow (id + 1) inv'
unfolding reconcile
store-KeysBelow id device b inv inv' keys h =
    let (row, own, e, key) = store-KeyFor id device b inv inv' h in
    let keep = λ (r : DeviceModule). not (foreign device b.name b.serial r) in
    rw e (
      save-KeysBelow id row (reconcile device b.name b.serial inv)
        (key_below id device b inv row keys key)
        (select-KeysUnique keep inv.modules keys.0, All-select _ keep inv.modules keys.1))
