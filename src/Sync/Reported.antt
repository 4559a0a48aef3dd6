-- ===== src/Sync/Reported.antt =====
-- The modules that _apply_inventory stores for the reported serials are there at the end.
use zas.Prelude.{
  Some, Some-All, Some-select, ℕ, ◌+◌, ◌≡◌, refl, sym, ap, ◌∙◌, true, false, not, Option, none,
  some, List, [], ◌∷◌, ◌==◌, arith, All, All-map, All-of, All-select, All-both, ◌≢◌, ==_refl,
  Bool-cases, inl, inr, any, select, is_empty, ok, KeysUnique,
}
use zas.Text.{Text, upper, text_eq, text_eq_refl}
use zas.Serial.{DeviceModule, Inventory, normalize_serial_number, save_module}
use zas.Serial.Normal.{normalize-IsNormal}
use zas.Sync.{
  Entry, Best, Gathered, foreign, reconcile, same_module, optional_eq, outranks, add_best,
  gather_one, gather, gathered, store, store_all, clean_up, is_stale, is_unnumbered, has_serial,
  apply_inventory,
}
use zas.Sync.Rows.{StoredFor, store_all-cons}
use zas.Sync.Priority.{Apart, OneEach, text_eq_swap, gathered-OneEach}
use zas.Sync.Owned.{other_row, HasSerial, apply_inventory-some, then_clean-ok}
use zas.Sync.Total.{Single, apply_inventory-returns}
use zas.Sync.Held.{KeysBelow, KeyFor, store-KeyFor, store-KeysBelow}

same_text : (v : Option Text) (s t : Text) → v ≡ some s → v ≡ some t → s ≡ t
same_text v s t h k = cc (h, k)

-- one module does not stand for two entries
one_entry :
    (device : ℕ) (b c : Best) (r : DeviceModule)
    → text_eq (upper b.serial) (upper c.serial) ≡ false
    → StoredFor device b r
    → ¬ StoredFor device c r
one_entry device b c r apart own other =
    let same : b.serial ≡ c.serial = same_text r.serial_number b.serial c.serial own.2 other.2 in
    cc (apart, text_eq_refl (upper c.serial), ap (λ s. text_eq (upper s) (upper c.serial)) same)

-- the modules for another entry have other keys than the one that is stored
other_keys :
    (device : ℕ) (b c : Best) (key : ℕ) (rows : List DeviceModule)
    → text_eq (upper b.serial) (upper c.serial) ≡ false
    → KeysUnique (λ (r : DeviceModule). r.id) rows
    → Some (λ r. (r.id ≡ key) × StoredFor device b r) rows
    → All (λ r. StoredFor device c r → not (r.id == key) ≡ true) rows
other_keys device b c key [] apart unique h = tt
other_keys device b c key (r ∷ rows) apart unique (inl (e, own)) = (
  λ other. absurd (one_entry device b c r apart own other),
  All-map _ _ (λ s differ _. rw (← e) (ground (arith, differ))) rows unique.0,
)
other_keys device b c key (r ∷ rows) apart unique (inr h) =
    let (s, (e, own), differ) = Some-All _ _ rows h unique.0 in
    (λ other. ground (arith, e, differ), other_keys device b c key rows apart unique.1 h)

keys_apart :
    (id device : ℕ) (b c : Best) (inv : Inventory) (row : DeviceModule)
    → text_eq (upper b.serial) (upper c.serial) ≡ false
    → KeysBelow id inv
    → KeyFor id device b inv.modules row
    → All (λ r. StoredFor device c r → not (r.id == row.id) ≡ true) inv.modules
keys_apart id device b c inv row apart keys (inl new) =
    All-map _ _ (λ r lt _. ground (arith, lt, new)) inv.modules keys.1
keys_apart id device b c inv row apart keys (inr old) =
    other_keys device b c row.id inv.modules apart keys.0 old

-- some module stands for the entry
abbrev pub Held : ℕ → Inventory → Best → Type 0
Held device inv b = Some (StoredFor device b) inv.modules

store-Held :
    (id device : ℕ) (b : Best) (inv inv' : Inventory)
    → store id device b inv ≡ ok inv'
    → Held device inv' b
unfolding save_module
store-Held id device b inv inv' h =
    let (row, own, e, key) = store-KeyFor id device b inv inv' h in rw e (inl own)

store-Held_other :
    (id device : ℕ) (b c : Best) (inv inv' : Inventory)
    → text_eq (upper b.serial) (upper c.serial) ≡ false
    → KeysBelow id inv
    → store id device b inv ≡ ok inv'
    → Held device inv c
    → Held device inv' c
unfolding save_module reconcile
store-Held_other id device b c inv inv' apart keys h held =
    let (row, own, e, key) = store-KeyFor id device b inv inv' h in
    let keep = λ (r : DeviceModule). not (foreign device b.name b.serial r) in
    let passes =
      All-of (λ r. StoredFor device c r → keep r ≡ true)
        (λ r other.
          ap not
            (other_row device c b r (text_eq_swap (upper b.serial) (upper c.serial) apart) other))
        inv.modules in
    rw e (
      inr (
        Some-select (StoredFor device c) (λ r. not (r.id == row.id)) (select keep inv.modules)
          (All-select _ keep inv.modules (keys_apart id device b c inv row apart keys key))
          (Some-select (StoredFor device c) keep inv.modules passes held)))

store_all-Held_other :
    (id device : ℕ) (c : Best) (best : List Best) (inv inv' : Inventory)
    → Apart (upper c.serial) best
    → KeysBelow id inv
    → store_all id device best inv ≡ ok inv'
    → Held device inv c
    → Held device inv' c
store_all-Held_other id device c [] inv inv' apart keys h held =
    let e : inv ≡ inv' = unfold store_all in cc h in rw (← e) held
store_all-Held_other id device c (b ∷ best) inv inv' apart keys h held =
    let (between, first, rest) = store_all-cons id device b best inv inv' h in
    store_all-Held_other (id + 1) device c best between inv' apart.1
      (store-KeysBelow id device b inv between keys first) rest
      (store-Held_other id device b c inv between apart.0 keys first held)

store_all-Held :
    (id device : ℕ) (best : List Best) (inv inv' : Inventory)
    → OneEach best
    → KeysBelow id inv
    → store_all id device best inv ≡ ok inv'
    → All (Held device inv') best
store_all-Held id device [] inv inv' one keys h = tt
store_all-Held id device (b ∷ best) inv inv' one keys h =
    let (between, first, rest) = store_all-cons id device b best inv inv' h in
    let below = store-KeysBelow id device b inv between keys first in
    (
      store_all-Held_other (id + 1) device b best between inv' one.0 below rest
          (store-Held id device b inv between first),
      store_all-Held (id + 1) device best between inv' one.1 below rest,
    )

-- the serial of an entry is not empty
abbrev Real : Best → Type 0
Real b = is_empty b.serial ≡ false

add_best-Real : (b : Best) (best : List Best) → Real b → All Real best → All Real (add_best b best)
unfolding add_best
add_best-Real b [] own h = (own, tt)
add_best-Real b (a ∷ best) own h =
    let rest = add_best-Real b best own h.1 in
    elim (Bool-cases (text_eq (upper a.serial) (upper b.serial))) [
      | inl e ↦
          rw e
            (elim (Bool-cases (outranks b a)) [ inl k ↦ rw k (own, h.1) | inr k ↦ rw k (h.0, h.1) ])
      | inr e ↦ rw e (h.0, rest)
    ]

full : (s : Text) → s ≢ [] → is_empty s ≡ false
full [] h = absurd (h refl)
full (c ∷ s) h = refl

gather_one-Real :
    (name descr : Text) (serial raw : Option Text) (g : Gathered)
    → normalize_serial_number raw ≡ serial
    → All Real g.serial_entries
    → All Real (gather_one name descr serial g).serial_entries
unfolding gather_one
gather_one-Real name descr none raw g e h = h
gather_one-Real name descr (some serial) raw g e h =
    add_best-Real _ g.serial_entries (full serial (normalize-IsNormal raw e).nonempty) h

gather-Real :
    (entries : List Entry) (g : Gathered)
    → All Real g.serial_entries
    → All Real (gather entries g).serial_entries
unfolding gather
gather-Real [] g h = h
gather-Real (e ∷ entries) g h = gather-Real entries _ (gather_one-Real _ _ _ _ g refl h)

matches :
    (device : ℕ) (b : Best) (r : DeviceModule)
    → StoredFor device b r
    → same_module device b r ≡ true
unfolding same_module optional_eq
matches device b r (d, n, s) =
    rw (d, n, s) (ground (arith, ==_refl device, text_eq_refl b.name, text_eq_refl b.serial))

-- a module for one of the entries is not stale
best_listed :
    (device : ℕ) (best : List Best)
    → All
        (λ b.
          (r : DeviceModule) → StoredFor device b r → any (λ c. same_module device c r) best ≡ true)
        best
best_listed device [] = tt
best_listed device (b ∷ best) = (
  λ r own. ground (arith, matches device b r own),
  All-map _ _ (λ c in_rest r own. ground (arith, in_rest r own)) best (best_listed device best),
)

numbered_kept :
    (device : ℕ) (b : Best) (names : List Text) (r : DeviceModule)
    → Real b
    → StoredFor device b r
    → not (is_unnumbered device names r) ≡ true
unfolding is_unnumbered has_serial
numbered_kept device b names r real (d, n, s) = rw s (ground (arith, real))

clean_up-Held :
    (device : ℕ) (b : Best) (g : Gathered) (inv : Inventory)
    → ((r : DeviceModule)
        → StoredFor device b r
        → any (λ c. same_module device c r) g.serial_entries ≡ true)
    → Real b
    → Held device inv b
    → Held device (clean_up device g inv) b
unfolding clean_up is_stale
clean_up-Held device b g inv found real held =
    let stays = numbered_kept device b g.no_serial_names in
    elim (Bool-cases (is_empty g.serial_entries)) [
      | inl e ↦ rw e (
          Some-select (StoredFor device b) (λ r. not (is_unnumbered device g.no_serial_names r))
            inv.modules (All-of _ (λ r own. stays r real own) inv.modules) held)
      | inr e ↦
          let fresh = λ (r : DeviceModule). not (is_stale device g.serial_entries r) in
          let current : (r : DeviceModule) → StoredFor device b r → fresh r ≡ true =
            λ r own. ground (arith, found r own) in
          rw e (
            Some-select (StoredFor device b) (λ r. not (is_unnumbered device g.no_serial_names r))
              (select fresh inv.modules)
              (All-of _ (λ r own. stays r real own) (select fresh inv.modules))
              (Some-select (StoredFor device b) fresh inv.modules (All-of _ current inv.modules)
                held))
    ]

apply_inventory-Held :
    (id device : ℕ) (entries : List Entry) (inv inv' : Inventory)
    → KeysBelow id inv
    → apply_inventory id device entries inv ≡ ok inv'
    → All (Held device inv') (gathered entries).serial_entries
apply_inventory-Held id device [] inv inv' keys h = unfold gathered gather in tt
apply_inventory-Held id device (e ∷ entries) inv inv' keys h =
    let g = gathered (e ∷ entries) in
    let (between, stored, cleaned) =
      then_clean-ok device g (store_all id device g.serial_entries inv) inv'
        (sym (apply_inventory-some id device e entries inv) ∙ h) in
    let held =
      store_all-Held id device g.serial_entries inv between (gathered-OneEach (e ∷ entries)) keys
        stored in
    let real : All Real g.serial_entries = unfold gathered in gather-Real (e ∷ entries) _ tt in
    All-map _ _ (λ b h. rw cleaned (clean_up-Held device b g between h.0 h.1.0 h.1.1))
      g.serial_entries
      (All-both _ _ g.serial_entries (best_listed device g.serial_entries)
        (All-both _ _ g.serial_entries real held))

-- Where the keys of the modules are different and below the first new one, and the table holds for each
-- reported serial at most one module of the device with the name and the serial of its entry, the sync
-- returns. Then each reported serial, in the entry that is kept for it, is on a module of the device
-- with the name of the entry, and, up to case, in no storage item and on no module of another device
-- or another name, whatever else the tables held.
pub apply_inventory_total :
    (id device : ℕ) (entries : List Entry) (inv : Inventory)
    → KeysBelow id inv
    → All (Single device inv) (gathered entries).serial_entries
    → (inv' : Inventory) × (apply_inventory id device entries inv ≡ ok inv')
      × All (Held device inv') (gathered entries).serial_entries
      × All (HasSerial device inv') (gathered entries).serial_entries
apply_inventory_total id device entries inv keys single =
    let (inv', h, elsewhere) = apply_inventory-returns id device entries inv single in
    (inv', h, apply_inventory-Held id device entries inv inv' keys h, elsewhere)
