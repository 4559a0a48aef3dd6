-- ===== src/Transceivers/Once.antt =====
-- The loop of _apply_transceivers keeps at most one row for each name of the device's modules.
use zas.Prelude.{
  ℕ, ◌+◌, ◌≤◌, ◌≡◌, refl, ◌∙◌, Bool, true, not, Option, none, some, List, [], ◌∷◌, arith,
  Bool-cases, inl, inr, ◌==◌, select, length, is_empty, ok, select-le_one, length-select-select,
  All-select-hit,
}
use zas.Text.{Text, text_eq_iff}
use zas.Serial.{DeviceModule, Inventory, normalize_serial_number, save_module}
use zas.Sync.{foreign, reconcile}
use zas.Transceivers.{Transceiver}
use zas.Transceivers.Apply.{
  named, reconciled, new_transceiver, updated_transceiver, put_transceiver, store_transceiver,
  store_transceivers,
}

-- at most one module of the device has the name, whichever it is
abbrev pub NamesOnce : ℕ → Inventory → Type 0
NamesOnce device inv = (n : Text) → length (select (named device n) inv.modules) ≤ 1

nothing_left : {a b : ℕ} → a ≤ b → b ≡ 0 → a + 1 ≤ 1
nothing_left h k = omega arith

reconciled-NamesOnce :
    (device : ℕ) (name : Text) (serial : Option Text) (inv : Inventory)
    → NamesOnce device inv
    → NamesOnce device (reconciled device name serial inv)
unfolding reconciled reconcile
reconciled-NamesOnce device name none inv once n = once n
reconciled-NamesOnce device name (some []) inv once n = once n
reconciled-NamesOnce device name (some (c ∷ s)) inv once n =
    select-le_one (named device n) (λ r. not (foreign device name (c ∷ s) r)) inv.modules (once n)

named-name : (device : ℕ) (n : Text) (r : DeviceModule) → named device n r ≡ true → r.name ≡ n
unfolding named
named-name device n r h = (text_eq_iff r.name n).0 (ground (arith, h))

save_module-NamesOnce :
    (device : ℕ) (row : DeviceModule) (inv : Inventory)
    → NamesOnce device inv
    → length (select (named device row.name) (select (λ r. not (r.id == row.id)) inv.modules)) ≡ 0
    → NamesOnce device (save_module row inv)
unfolding save_module
save_module-NamesOnce device row inv once gone n = elim (Bool-cases (named device n row)) [
  | inl e ↦
      let left : length (select (named device n) (select (λ r. not (r.id == row.id)) inv.modules))
          ≡ 0 =
        rw (← named-name device n row e) gone in
      rw e (omega (arith, left))
  | inr e ↦ rw e (select-le_one (named device n) (λ r. not (r.id == row.id)) inv.modules (once n))
]

-- without the only row that passes, none passes
only_one :
    (p : DeviceModule → Bool) (r : DeviceModule) (ms : List DeviceModule)
    → select p ms ≡ r ∷ []
    → length (select p (select (λ m. not (m.id == r.id)) ms)) ≡ 0
only_one p r [] h = refl
only_one p r (m ∷ ms) h = elim (Bool-cases (p m)) [
  | inl e ↦
      let both : m ∷ select p ms ≡ r ∷ [] = rw e at h in
      let same : m ≡ r = cc both in
      let none_other : select p ms ≡ [] = cc both in
      let hit : (m.id == r.id) ≡ true = rw same (ground arith) in
      let fewer = length-select-select p (λ x. not (x.id == r.id)) ms in
      let zero : length (select p ms) ≡ 0 = rw none_other refl in
      rw hit (omega (arith, fewer, zero))
  | inr e ↦
      let rest : select p ms ≡ r ∷ [] = rw e at h in
      let ih = only_one p r ms rest in
      elim (Bool-cases (m.id == r.id)) [ inl k ↦ rw k ih | inr k ↦ rw (k, e) ih ]
]

new_row :
    (id device : ℕ) (t : Transceiver) (inv : Inventory)
    → NamesOnce device inv
    → select (named device t.name) inv.modules ≡ []
    → NamesOnce device (save_module (new_transceiver id device t) inv)
unfolding new_transceiver
new_row id device t inv once e =
    let zero : length (select (named device t.name) inv.modules) ≡ 0 = rw e refl in
    save_module-NamesOnce device (new_transceiver id device t) inv once (
      omega (
        arith,
        length-select-select (named device t.name) (λ r. not (r.id == id)) inv.modules,
        zero,
      ))

head_hit :
    (p : DeviceModule → Bool) (r : DeviceModule) (rs ms : List DeviceModule)
    → select p ms ≡ r ∷ rs
    → p r ≡ true
head_hit p r rs ms h = let all = rw h at (All-select-hit p ms) in all.0

changed_row :
    (device : ℕ) (t : Transceiver) (r : DeviceModule) (inv : Inventory)
    → NamesOnce device inv
    → select (named device t.name) inv.modules ≡ r ∷ []
    → NamesOnce device (save_module (updated_transceiver t r) inv)
unfolding updated_transceiver
changed_row device t r inv once e =
    let same = named-name device t.name r (head_hit (named device t.name) r [] inv.modules e) in
    save_module-NamesOnce device (updated_transceiver t r) inv once
      (rw same (only_one (named device t.name) r inv.modules e))

put_transceiver_total :
    (id device : ℕ) (t : Transceiver) (found : List DeviceModule) (inv : Inventory)
    → NamesOnce device inv
    → select (named device t.name) inv.modules ≡ found
    → (inv' : Inventory) × (put_transceiver id device t found inv ≡ ok inv') × NamesOnce device inv'
unfolding put_transceiver
put_transceiver_total id device t [] inv once e = (_, refl, new_row id device t inv once e)
put_transceiver_total id device t (r ∷ []) inv once e = (_, refl, changed_row device t r inv once e)
put_transceiver_total id device t (r ∷ s ∷ found) inv once e =
    let two : length (r ∷ s ∷ found) ≤ 1 = rw e at (once t.name) in absurd (omega (arith, two))

store_transceiver_total :
    (id device : ℕ) (t : Transceiver) (inv : Inventory)
    → NamesOnce device inv
    → (inv' : Inventory) × (store_transceiver id device t inv ≡ ok inv') × NamesOnce device inv'
unfolding store_transceiver
store_transceiver_total id device t inv once =
    let inv1 = reconciled device t.name (normalize_serial_number t.serial) inv in
    elim (Bool-cases (is_empty t.name)) [
      | inl e ↦ (inv, rw e refl, once)
      | inr e ↦
          let (inv', done, kept) =
            put_transceiver_total id device t (select (named device t.name) inv1.modules) inv1
              (reconciled-NamesOnce device t.name (normalize_serial_number t.serial) inv once)
              refl in
          (inv', rw e done, kept)
    ]

store_transceivers-ok :
    (id device : ℕ) (t : Transceiver) (entries : List Transceiver) (inv : Inventory)
    {between : Inventory}
    → store_transceiver id device t inv ≡ ok between
    → store_transceivers id device (t ∷ entries) inv
      ≡ store_transceivers (id + 1) device entries between
unfolding store_transceivers
store_transceivers-ok id device t entries inv h = rw (h, store_transceivers)

pub store_transceivers_total :
    (id device : ℕ) (entries : List Transceiver) (inv : Inventory)
    → NamesOnce device inv
    → (inv' : Inventory) × (store_transceivers id device entries inv ≡ ok inv')
      × NamesOnce device inv'
unfolding store_transceivers
store_transceivers_total id device [] inv once = (inv, refl, once)
store_transceivers_total id device (t ∷ entries) inv once =
    let (between, first, kept) = store_transceiver_total id device t inv once in
    let (inv', rest, after) = store_transceivers_total (id + 1) device entries between kept in
    (inv', store_transceivers-ok id device t entries inv first ∙ rest, after)
