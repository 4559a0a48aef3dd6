-- ===== src/Sync/Owned.antt =====
-- Where the reported serials are after a sync of the inventory.
use zas.Prelude.{
  ℕ, ◌+◌, ◌≡◌, refl, sym, ◌∙◌, true, false, Option, some, List, [], ◌∷◌, arith, All, All-map,
  Bool-cases, inl, inr, is_empty, Result, ok, err, All-select, All-select-not,
}
use zas.Text.{Text, upper, iexact, text_eq, text_eq_iff}
use zas.Serial.{DeviceModule, InventoryItem, Inventory, serial_matches, save_module}
use zas.Sync.{
  Entry, Best, Gathered, gathered, foreign, reconcile, gather, StoreError, store, store_all,
  clean_up, then_clean, apply_inventory,
}
use zas.Sync.Rows.{StoredFor, store_lem, store_all-cons}
use zas.Sync.Priority.{Apart, OneEach, gathered-OneEach}

-- no stored item has the serial of the entry, and no module but the entry's has it
abbrev Clear : ℕ → Best → Inventory → Type 0
Clear device b inv =
    All (λ (i : InventoryItem). serial_matches b.serial i.serial_number ≡ false) inv.items
    × All (λ (r : DeviceModule). foreign device b.name b.serial r ≡ false) inv.modules

reconcile-Clear :
    (device : ℕ) (b : Best) (inv : Inventory)
    → Clear device b (reconcile device b.name b.serial inv)
unfolding reconcile
reconcile-Clear device b inv = (
  All-select-not (λ (i : InventoryItem). serial_matches b.serial i.serial_number) inv.items,
  All-select-not (foreign device b.name b.serial) inv.modules,
)

reconcile-Clear_other :
    (device : ℕ) (b c : Best) (inv : Inventory)
    → Clear device c inv
    → Clear device c (reconcile device b.name b.serial inv)
unfolding reconcile
reconcile-Clear_other device b c inv h =
    (All-select _ _ inv.items h.0, All-select _ _ inv.modules h.1)

save_module-Clear :
    (device : ℕ) (b : Best) (row : DeviceModule) (inv : Inventory)
    → foreign device b.name b.serial row ≡ false
    → Clear device b inv
    → Clear device b (save_module row inv)
unfolding save_module
save_module-Clear device b row inv own h = (h.0, (own, All-select _ _ inv.modules h.1))

own_row :
    (device : ℕ) (b : Best) (row : DeviceModule)
    → StoredFor device b row
    → foreign device b.name b.serial row ≡ false
unfolding foreign
own_row device b row s = ground (arith, s.0, s.1, text_eq_iff row.name b.name)

no_match :
    (t u : Text) (v : Option Text)
    → v ≡ some u
    → text_eq (upper u) (upper t) ≡ false
    → serial_matches t v ≡ false
unfolding serial_matches iexact
no_match t u v e h = rw e h

pub other_row :
    (device : ℕ) (b c : Best) (row : DeviceModule)
    → text_eq (upper b.serial) (upper c.serial) ≡ false
    → StoredFor device b row
    → foreign device c.name c.serial row ≡ false
unfolding foreign
other_row device b c row apart s = rw (no_match c.serial b.serial row.serial_number s.2 apart)

store-Clear :
    (id device : ℕ) (b : Best) (inv inv' : Inventory)
    → store id device b inv ≡ ok inv'
    → Clear device b inv'
store-Clear id device b inv inv' h =
    let (row, stored, e) = store_lem id device b inv inv' h in
    rw e (
      save_module-Clear device b row (reconcile device b.name b.serial inv)
        (own_row device b row stored) (reconcile-Clear device b inv))

store-Clear_other :
    (id device : ℕ) (b c : Best) (inv inv' : Inventory)
    → text_eq (upper b.serial) (upper c.serial) ≡ false
    → Clear device c inv
    → store id device b inv ≡ ok inv'
    → Clear device c inv'
store-Clear_other id device b c inv inv' apart clear h =
    let (row, stored, e) = store_lem id device b inv inv' h in
    rw e (
      save_module-Clear device c row (reconcile device b.name b.serial inv)
        (other_row device b c row apart stored) (reconcile-Clear_other device b c inv clear))

store_all-Clear_other :
    (id device : ℕ) (c : Best) (best : List Best) (inv inv' : Inventory)
    → Apart (upper c.serial) best
    → Clear device c inv
    → store_all id device best inv ≡ ok inv'
    → Clear device c inv'
store_all-Clear_other id device c [] inv inv' apart clear h =
    let e : inv ≡ inv' = unfold store_all in cc h in rw (← e) clear
store_all-Clear_other id device c (b ∷ best) inv inv' apart clear h =
    let (between, first, rest) = store_all-cons id device b best inv inv' h in
    store_all-Clear_other (id + 1) device c best between inv' apart.1
      (store-Clear_other id device b c inv between apart.0 clear first) rest

store_all-Clear :
    (id device : ℕ) (best : List Best) (inv inv' : Inventory)
    → OneEach best
    → store_all id device best inv ≡ ok inv'
    → All (λ b. Clear device b inv') best
store_all-Clear id device [] inv inv' one h = tt
store_all-Clear id device (b ∷ best) inv inv' one h =
    let (between, first, rest) = store_all-cons id device b best inv inv' h in
    (
      store_all-Clear_other (id + 1) device b best between inv' one.0
          (store-Clear id device b inv between first) rest,
      store_all-Clear (id + 1) device best between inv' one.1 rest,
    )

clean_up-Clear :
    (device : ℕ) (b : Best) (g : Gathered) (inv : Inventory)
    → Clear device b inv
    → Clear device b (clean_up device g inv)
unfolding clean_up
clean_up-Clear device b g inv h = elim (Bool-cases (is_empty g.serial_entries)) [
  | inl e ↦ rw e (h.0, All-select _ _ inv.modules h.1)
  | inr e ↦ rw e (h.0, All-select _ _ _ (All-select _ _ inv.modules h.1))
]

-- the serial of the entry is in no storage item, and on no module but one of this device and name
abbrev pub HasSerial : ℕ → Inventory → Best → Type 0
HasSerial device inv b =
    All (λ (i : InventoryItem). serial_matches b.serial i.serial_number ≡ false) inv.items
    × All
        (λ (r : DeviceModule).
          serial_matches b.serial r.serial_number ≡ true → (r.device ≡ device) × (r.name ≡ b.name))
        inv.modules

Clear-HasSerial :
    (device : ℕ) (b : Best) (inv : Inventory) → Clear device b inv → HasSerial device inv b
unfolding foreign
Clear-HasSerial device b inv h = (
  h.0,
  All-map _ _
      (λ r e hit. (ground (arith, e, hit), ground (arith, e, hit, text_eq_iff r.name b.name)))
      inv.modules h.1,
)

pub apply_inventory-some :
    (id device : ℕ) (e : Entry) (entries : List Entry) (inv : Inventory)
    → apply_inventory id device (e ∷ entries) inv
      ≡ then_clean device
          (gathered (e ∷ entries))
          (store_all id device (gathered (e ∷ entries)).serial_entries inv)
apply_inventory-some id device e entries inv = unfold apply_inventory in refl

pub then_clean-ok :
    (device : ℕ) (g : Gathered) (r : Result StoreError Inventory) (inv' : Inventory)
    → then_clean device g r ≡ ok inv'
    → (between : Inventory) × (r ≡ ok between) × (inv' ≡ clean_up device g between)
unfolding then_clean
then_clean-ok device g (err e) inv' h = cc h
then_clean-ok device g (ok inv) inv' h = (inv, refl, cc h)

none_gathered :
    (device : ℕ) (inv : Inventory) → All (HasSerial device inv) (gathered []).serial_entries
none_gathered device inv = unfold gathered gather in tt

-- After a sync of the inventory that returns, each serial that the output reports, in the entry that
-- is kept for it, is in no storage item, and on no module of another device or another name, whatever
-- the tables held before; serials are compared up to case.
pub apply_inventory-HasSerial :
    (id device : ℕ) (entries : List Entry) (inv inv' : Inventory)
    → apply_inventory id device entries inv ≡ ok inv'
    → All (HasSerial device inv') (gathered entries).serial_entries
apply_inventory-HasSerial id device [] inv inv' h = none_gathered device inv'
apply_inventory-HasSerial id device (e ∷ entries) inv inv' h =
    let g = gathered (e ∷ entries) in
    let (between, stored, cleaned) =
      then_clean-ok device g (store_all id device g.serial_entries inv) inv'
        (sym (apply_inventory-some id device e entries inv) ∙ h) in
    let clear =
      store_all-Clear id device g.serial_entries inv between (gathered-OneEach (e ∷ entries))
        stored in
    All-map _ _
      (λ b c. rw cleaned (
        Clear-HasSerial device b (clean_up device g between) (clean_up-Clear device b g between c)))
      g.serial_entries clear
