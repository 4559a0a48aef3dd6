-- ===== src/Rack/Deletion.antt =====
-- Deleting a device keeps the stored occupancy of every rack right.
use zas.Prelude.{
  ℕ, ◌≡◌, refl, All-map, All-of, select-select, ◌⊎◌, inl, inr, true, false, not, some, List, [],
  ◌∷◌, arith, ◌==◌, Bool-cases, same_key, select, All,
}
use zas.Dcim.{Device, StackMember}
use zas.Rack.{
  Db, member_count, in_rack, occupied, occupied_by, units_at, total_units,
  update_rack_occupied_units, delete_device,
}
use zas.Rack.Occupancy.{IsConsistent, HoldsBut-update, settled, begin_change}

-- The members of one device go with it; the others are counted as before.
total_units-delete :
    (gone : ℕ) (ms : List StackMember) (d : Device)
    → (d.id == gone) ≡ false
    → total_units (select (λ m. not (m.device == gone)) ms) d ≡ total_units ms d
unfolding total_units member_count
total_units-delete gone ms d e = rw (
    select-select (λ (m : StackMember). m.device == d.id) (λ m. not (m.device == gone)) ms
      (All-of _ (λ m. ground (arith, e)) ms))

module _ (dev : Device) (i : ℕ) (elsewhere : same_key dev.rack (some i) ≡ false) where
  -- a row of the device, or a row that is not the device's
  abbrev Row : Device → Type 0
  Row d = ((d.id == dev.id) ≡ false) ⊎ (d.rack ≡ dev.rack)

  Row-cases : (d : Device) → Row d → ((d.id == dev.id) ≡ false) ⊎ (in_rack i d ≡ false)
  unfolding in_rack
  Row-cases d (inl e) = inl e
  Row-cases d (inr e) = inr (rw e elsewhere)

  other : (d : Device) → Row d → in_rack i d ≡ true → (d.id == dev.id) ≡ false
  other d row e = elim (Row-cases d row) [ inl n ↦ n | inr n ↦ cc (e, n) ]

  occupied_by-cons :
      (ms : List StackMember) (d : Device) (ds : List Device)
      → (d.id == dev.id) ≡ false
      → occupied_by ms ds ≡ occupied_by (select (λ m. not (m.device == dev.id)) ms) ds
      → occupied_by ms (d ∷ ds) ≡ occupied_by (select (λ m. not (m.device == dev.id)) ms) (d ∷ ds)
  unfolding occupied_by units_at
  occupied_by-cons ms d ds e ih = ground (arith, total_units-delete dev.id ms d e, ih)

  occupied_by-members :
      (ms : List StackMember) (ds : List Device)
      → All Row ds
      → occupied_by ms (select (in_rack i) ds)
        ≡ occupied_by (select (λ m. not (m.device == dev.id)) ms) (select (in_rack i) ds)
  occupied_by-members ms [] h = unfold occupied_by in refl
  occupied_by-members ms (d ∷ ds) h =
      let ih = occupied_by-members ms ds h.1 in
      elim (Bool-cases (in_rack i d)) [
        | inl e ↦ rw e (occupied_by-cons ms d (select (in_rack i) ds) (other d h.0 e) ih)
        | inr e ↦ rw e ih
      ]

  Row-kept : (d : Device) → Row d → (not (d.id == dev.id) ≡ true) ⊎ (in_rack i d ≡ false)
  Row-kept d row = elim (Row-cases d row) [ inl n ↦ inl (rw n) | inr n ↦ inr n ]

  occupied_by-delete :
      (ms : List StackMember) (ds : List Device)
      → All Row ds
      → occupied_by ms (select (in_rack i) ds)
        ≡ occupied_by
            (select (λ m. not (m.device == dev.id)) ms)
            (select (in_rack i) (select (λ d. not (d.id == dev.id)) ds))
  occupied_by-delete ms ds h =
      rw
        (select-select (in_rack i) (λ (d : Device). not (d.id == dev.id)) ds
          (All-map Row _ Row-kept ds h))
        (occupied_by-members ms ds h)

module _ (dev : Device) (db : Db) where
  abbrev deleted : Db
  deleted = record db {
    devices = select (λ d. not (d.id == dev.id)) db.devices;
    stack_members = select (λ m. not (m.device == dev.id)) db.stack_members;
  }

  deleted_change :
      All (λ d. ((d.id == dev.id) ≡ false) ⊎ (d.rack ≡ dev.rack)) db.devices
      → (i : ℕ) → (same_key dev.rack (some i) ≡ true) ⊎ (occupied db i ≡ occupied deleted i)
  unfolding occupied
  deleted_change rows i = elim (Bool-cases (same_key dev.rack (some i))) [
    | inl e ↦ inl e
    | inr e ↦ inr (occupied_by-delete dev i e db.stack_members db.devices rows)
  ]

  -- Deleting a device keeps every rack's stored occupancy equal to what the devices in it fill. The
  -- conditions are that the stored occupancy was right before, and that the object that is deleted
  -- names the rack that its stored row names.
  pub delete_device-IsConsistent :
      All (λ d. ((d.id == dev.id) ≡ false) ⊎ (d.rack ≡ dev.rack)) db.devices
      → IsConsistent db
      → IsConsistent (delete_device dev db)
  unfolding delete_device occupied
  delete_device-IsConsistent rows h =
      settled _ (update_rack_occupied_units dev.rack deleted) (λ i. ground arith)
        (HoldsBut-update _ dev.rack deleted
          (begin_change (λ i. same_key dev.rack (some i)) db deleted refl (deleted_change rows) h))
