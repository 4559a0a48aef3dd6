-- ===== src/Serial/Unique.antt =====
mod Keys
-- The validators keep every serial number unique over modules and storage together.
use zas.Prelude.{
  ℕ, ◌≡◌, refl, ◌≢◌, ◌↔◌, ◌⊎◌, inl, inr, Bool, true, false, not, ◌&&◌, Option, none, some, List, [],
  ◌∷◌, ◌++◌, arith, ◌==◌, if◌then◌else◌, Bool-cases, Option-cases, select, same_key,
}
use zas.Text.{Text, strip, upper, iexact, text_eq, text_eq_iff}
use zas.Serial.{
  DeviceModule, InventoryItem, Inventory, serial_matches, same_serial_modules, same_serial_items,
  has_errors, clean_item, ItemStatus, clash, serial_clash, normalize_serial_number,
  validate_device_module_serial_uniqueness, validate_inventory_item_serial_uniqueness, save_module,
  save_item,
}
use zas.Serial.Unique.Keys.{
  keys, key_of, Absent, NoRepeat, Disjoint, Disjoint-cons, Disjoint-head, All-keys-select,
  Disjoint-select, NoRepeat-select, no_row_iff_Absent, select-true,
}
use zas.Serial.Normal.{IsNormal, normalize-IsNormal}

-- No two rows of the two tables have the same non-empty serial up to case.
pub record SerialsUnique (inv : Inventory) : Type 0 where
  pub modules : NoRepeat (keys (λ m. m.serial_number) inv.modules)
  pub items : NoRepeat (keys (λ i. i.serial_number) inv.items)
  pub apart :
      Disjoint (keys (λ m. m.serial_number) inv.modules) (keys (λ i. i.serial_number) inv.items)

clash-none :
    (a : Option DeviceModule) (b : Option InventoryItem)
    → (clash a b ≡ none) ↔ ((a ≡ none) × (b ≡ none))
unfolding clash
clash-none (some m) b = (λ h. cc h, λ h. cc h.0)
clash-none none (some i) = (λ h. cc h, λ h. cc h.1)
clash-none none none = (λ h. (refl, refl), λ h. refl)

-- the rows that a query with `exclude(pk=pk)` looks at
abbrev other_modules : Option ℕ → Inventory → List DeviceModule
other_modules pk inv = select (λ r. not (same_key (some r.id) pk)) inv.modules

abbrev other_items : Option ℕ → Inventory → List InventoryItem
other_items pk inv = select (λ r. not (same_key (some r.id) pk)) inv.items

no_clash_iff_Absent :
    (mpk ipk : Option ℕ) (inv : Inventory) (c : ℕ) (s : Text)
    → (serial_clash mpk ipk inv (some (c ∷ s)) ≡ none) ↔ (
        Absent (upper (c ∷ s)) (keys (λ m. m.serial_number) (other_modules mpk inv))
        × Absent (upper (c ∷ s)) (keys (λ i. i.serial_number) (other_items ipk inv)))
unfolding serial_clash
no_clash_iff_Absent mpk ipk inv c s =
    let in_modules =
      no_row_iff_Absent (λ (m : DeviceModule). m.serial_number)
        (λ r. not (same_key (some r.id) mpk)) c s inv.modules in
    let in_items =
      no_row_iff_Absent (λ (i : InventoryItem). i.serial_number)
        (λ r. not (same_key (some r.id) ipk)) c s inv.items in
    let both = clash-none _ _ in
    (
      λ h. (in_modules.0 (both.0 h).0, in_items.0 (both.0 h).1),
      λ a. both.1 (in_modules.1 a.0, in_items.1 a.1),
    )

abbrev IsNonEmpty : Option Text → Type 0
IsNonEmpty none = Unit
IsNonEmpty (some s) = s ≢ []

normalize-IsNonEmpty : (v : Option Text) → IsNonEmpty (normalize_serial_number v)
normalize-IsNonEmpty v = elim (Option-cases (normalize_serial_number v)) [
  | inl e ↦ rw e tt
  | inr (s, e) ↦ rw e ((normalize-IsNormal v e).nonempty)
]

module _ (inv : Inventory) (u : SerialsUnique inv) where
  modules_apart :
      (p : DeviceModule → Bool)
      → Disjoint
          (keys (λ m. m.serial_number) (select p inv.modules))
          (keys (λ i. i.serial_number) inv.items)
  modules_apart p =
      All-keys-select (λ (m : DeviceModule). m.serial_number) p
        (λ k. Absent k (keys (λ (i : InventoryItem). i.serial_number) inv.items)) inv.modules
        u.apart

  save_module_iff :
      (m : DeviceModule) (v : Option Text)
      → IsNonEmpty v
      → (serial_clash (some m.id) none inv v ≡ none)
        ↔ SerialsUnique (save_module (record m { serial_number = v }) inv)
  save_module_iff m none n = (
    λ _.
        unfold save_module in
        record {
          modules = NoRepeat-select (λ (r : DeviceModule). r.serial_number) _ inv.modules u.modules;
          items = u.items;
          apart = modules_apart _;
        },
    λ _. unfold serial_clash in refl,
  )
  save_module_iff m (some []) n = absurd (n refl)
  save_module_iff m (some (c ∷ s)) n =
      let absent = no_clash_iff_Absent (some m.id) none inv c s in
      (
        λ h.
            let a = absent.0 h in
            let all_items = rw (select-true inv.items) at a.1 in
            unfold save_module in
            record {
              modules = (
                a.0,
                NoRepeat-select (λ (r : DeviceModule). r.serial_number) _ inv.modules u.modules,
              );
              items = u.items;
              apart = (all_items, modules_apart _);
            },
        λ q. absent.1 (unfold save_module in (q.modules.0, rw (select-true inv.items) q.apart.0)),
      )

  items_apart :
      (p : InventoryItem → Bool)
      → Disjoint
          (keys (λ m. m.serial_number) inv.modules)
          (keys (λ i. i.serial_number) (select p inv.items))
  items_apart p =
      Disjoint-select (λ (i : InventoryItem). i.serial_number) p
        (keys (λ (m : DeviceModule). m.serial_number) inv.modules) inv.items u.apart

  save_item_iff :
      (i : InventoryItem) (v : Option Text)
      → IsNonEmpty v
      → (serial_clash none (some i.id) inv v ≡ none)
        ↔ SerialsUnique (save_item (record i { serial_number = v }) inv)
  save_item_iff i none n = (
    λ _.
        unfold save_item in
        record {
          modules = u.modules;
          items = NoRepeat-select (λ (r : InventoryItem). r.serial_number) _ inv.items u.items;
          apart = items_apart _;
        },
    λ _. unfold serial_clash in refl,
  )
  save_item_iff i (some []) n = absurd (n refl)
  save_item_iff i (some (c ∷ s)) n =
      let absent = no_clash_iff_Absent none (some i.id) inv c s in
      (
        λ h.
            let a = absent.0 h in
            let all_modules = rw (select-true inv.modules) at a.0 in
            unfold save_item in
            record {
              modules = u.modules;
              items = (
                a.1,
                NoRepeat-select (λ (r : InventoryItem). r.serial_number) _ inv.items u.items,
              );
              apart = Disjoint-cons _ _ _ all_modules (items_apart _);
            },
        λ q. absent.1 (
            unfold save_item in
            (rw (select-true inv.modules) (Disjoint-head _ _ _ q.apart), q.items.0)),
      )

  -- The validator accepts a module exactly where saving the row that it hands back leaves every
  -- serial number unique, up to case, over modules and storage together. The condition is that
  -- they were unique before.
  pub validate_module_iff :
      (m : DeviceModule)
      → let (m', error) = validate_device_module_serial_uniqueness m inv in
        (error ≡ none) ↔ SerialsUnique (save_module m' inv)
  unfolding validate_device_module_serial_uniqueness
  validate_module_iff m =
      save_module_iff m (normalize_serial_number m.serial_number)
        (normalize-IsNonEmpty m.serial_number)

  -- The validator accepts an inventory item exactly where saving the row that it hands back leaves
  -- every serial number unique, up to case, over modules and storage together. The condition is
  -- that they were unique before.
  pub validate_item_iff :
      (i : InventoryItem)
      → let (i', error) = validate_inventory_item_serial_uniqueness i inv in
        (error ≡ none) ↔ SerialsUnique (save_item i' inv)
  unfolding validate_inventory_item_serial_uniqueness
  validate_item_iff i =
      save_item_iff i (normalize_serial_number i.serial_number)
        (normalize-IsNonEmpty i.serial_number)

  clean_item_parts :
      (area_site : Option ℕ) (i : InventoryItem)
      → has_errors (clean_item area_site i inv).1 ≡ false
      → ((validate_inventory_item_serial_uniqueness i inv).1 ≡ none)
        × ((i.status ≢ ItemStatus.installed) ⊎ (strip i.comment ≢ []))
        × ((area_site ≡ none) ⊎ (area_site ≡ some i.site))
  unfolding clean_item
  clean_item_parts area_site i h = (ground arith, ground arith, ground arith)

  clean_item_row :
      (area_site : Option ℕ) (i : InventoryItem)
      → (clean_item area_site i inv).0 ≡ (validate_inventory_item_serial_uniqueness i inv).0
  unfolding clean_item
  clean_item_row area_site i = refl

  -- Where InventoryItem.clean reports no error and the serial numbers were unique, up to case, they
  -- are unique once the row is saved; an installed item has a comment with more in it than white
  -- space; and the item's area, if it has one, lies in the item's site.
  pub clean_item_sound :
      (area_site : Option ℕ) (i : InventoryItem)
      → has_errors (clean_item area_site i inv).1 ≡ false
      → SerialsUnique (save_item (clean_item area_site i inv).0 inv)
        × ((i.status ≢ ItemStatus.installed) ⊎ (strip i.comment ≢ []))
        × ((area_site ≡ none) ⊎ (area_site ≡ some i.site))
  clean_item_sound area_site i h =
      let (accepted, commented, placed) = clean_item_parts area_site i h in
      (rw (clean_item_row area_site i) ((validate_item_iff i).0 accepted), commented, placed)
