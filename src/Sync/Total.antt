-- ===== src/Sync/Total.antt =====
-- When a sync of the inventory returns.
use native.Mathlib.Nat.{le_trans}
use zas.Prelude.{
  ℕ, ◌+◌, ◌≤◌, ◌≡◌, refl, ap, ◌∙◌, Bool, false, not, Option, some, List, [], ◌∷◌, arith, All,
  Bool-cases, inl, inr, ◌==◌, select, length, ok, length-select-select,
}
use zas.Text.{Text, upper, text_eq, text_eq_iff, text_eq_refl}
use zas.Serial.{DeviceModule, Inventory, save_module}
use zas.Sync.{
  Entry, Best, gathered, foreign, reconcile, same_module, optional_eq, put, store, store_all,
  clean_up, then_clean, apply_inventory,
}
use zas.Sync.Rows.{StoredFor, store_lem, store_all-ok}
use zas.Sync.Priority.{Apart, OneEach, text_eq_swap, gathered-OneEach}
use zas.Sync.Owned.{HasSerial, apply_inventory-HasSerial, apply_inventory-some}

-- at most one module has the device, the name and the serial of the entry
abbrev pub Single : ℕ → Inventory → Best → Type 0
Single device inv b = length (select (same_module device b) inv.modules) ≤ 1

put_total :
    (id device : ℕ) (b : Best) (found : List DeviceModule) (inv : Inventory)
    → length found ≤ 1
    → (inv' : Inventory) × (put id device b found inv ≡ ok inv')
unfolding put
put_total id device b [] inv h = (_, refl)
put_total id device b (r ∷ []) inv h = (_, refl)
put_total id device b (r ∷ s ∷ found) inv h = absurd (omega arith)

store_total :
    (id device : ℕ) (b : Best) (inv : Inventory)
    → Single device inv b
    → (inv' : Inventory) × (store id device b inv ≡ ok inv')
unfolding store reconcile
store_total id device b inv single =
    put_total id device b
      (select (same_module device b) (reconcile device b.name b.serial inv).modules)
      (reconcile device b.name b.serial inv)
      (omega (
        arith,
        length-select-select (same_module device b) (λ r. not (foreign device b.name b.serial r))
            inv.modules,
      ))

other_serial :
    (t u : Text) (v : Option Text)
    → v ≡ some t
    → text_eq (upper t) (upper u) ≡ false
    → optional_eq v u ≡ false
unfolding optional_eq
other_serial t u v e apart = rw e (elim (Bool-cases (text_eq t u)) [
  | inl same ↦
      let equal : t ≡ u = (text_eq_iff t u).0 same in
      cc (apart, text_eq_refl (upper u), ap (λ x. text_eq (upper x) (upper u)) equal)
  | inr differ ↦ differ
])

not_same :
    (device : ℕ) (b c : Best) (row : DeviceModule)
    → text_eq (upper b.serial) (upper c.serial) ≡ false
    → StoredFor device b row
    → same_module device c row ≡ false
unfolding same_module
not_same device b c row apart s =
    ground (arith, other_serial b.serial c.serial row.serial_number s.2 apart)

saved_length :
    (p : DeviceModule → Bool) (row : DeviceModule) (device : ℕ) (b : Best) (inv : Inventory)
    → p row ≡ false
    → length (select p (save_module row (reconcile device b.name b.serial inv)).modules)
      ≤ length (select p inv.modules)
unfolding save_module reconcile
saved_length p row device b inv miss =
    let kept = select (λ r. not (foreign device b.name b.serial r)) inv.modules in
    rw miss (
      omega (
        arith,
        length-select-select p (λ r. not (r.id == row.id)) kept,
        length-select-select p (λ r. not (foreign device b.name b.serial r)) inv.modules,
      ))

store-Single :
    (id device : ℕ) (b c : Best) (inv inv' : Inventory)
    → text_eq (upper b.serial) (upper c.serial) ≡ false
    → Single device inv c
    → store id device b inv ≡ ok inv'
    → Single device inv' c
store-Single id device b c inv inv' apart single h =
    let (row, stored, e) = store_lem id device b inv inv' h in
    rw e (
      le_trans
        (saved_length (same_module device c) row device b inv
          (not_same device b c row apart stored))
        single)

stores-Single :
    (id device : ℕ) (b : Best) (best : List Best) (inv inv' : Inventory)
    → Apart (upper b.serial) best
    → All (Single device inv) best
    → store id device b inv ≡ ok inv'
    → All (Single device inv') best
stores-Single id device b [] inv inv' apart single h = tt
stores-Single id device b (c ∷ best) inv inv' apart single h = (
  store-Single id device b c inv inv' (text_eq_swap (upper c.serial) (upper b.serial) apart.0)
      single.0 h,
  stores-Single id device b best inv inv' apart.1 single.1 h,
)

store_all_total :
    (id device : ℕ) (best : List Best) (inv : Inventory)
    → OneEach best
    → All (Single device inv) best
    → (inv' : Inventory) × (store_all id device best inv ≡ ok inv')
store_all_total id device [] inv one single = (inv, unfold store_all in refl)
store_all_total id device (b ∷ best) inv one single =
    let (between, first) = store_total id device b inv single.0 in
    let (inv', rest) =
      store_all_total (id + 1) device best between one.1
        (stores-Single id device b best inv between one.0 single.1 first) in
    (inv', store_all-ok id device b best inv first ∙ rest)

runs :
    (id device : ℕ) (entries : List Entry) (inv : Inventory)
    → All (Single device inv) (gathered entries).serial_entries
    → (inv' : Inventory) × (apply_inventory id device entries inv ≡ ok inv')
runs id device [] inv single = (inv, unfold apply_inventory in refl)
runs id device (e ∷ entries) inv single =
    let g = gathered (e ∷ entries) in
    let (between, stored) =
      store_all_total id device g.serial_entries inv (gathered-OneEach (e ∷ entries)) single in
    (
      clean_up device g between,
      apply_inventory-some id device e entries inv ∙ rw stored (unfold then_clean in refl),
    )

-- the sync returns, and no other row has a reported serial
pub apply_inventory-returns :
    (id device : ℕ) (entries : List Entry) (inv : Inventory)
    → All (Single device inv) (gathered entries).serial_entries
    → (inv' : Inventory) × (apply_inventory id device entries inv ≡ ok inv')
      × All (HasSerial device inv') (gathered entries).serial_entries
apply_inventory-returns id device entries inv single =
    let (inv', h) = runs id device entries inv single in
    (inv', h, apply_inventory-HasSerial id device entries inv inv' h)
