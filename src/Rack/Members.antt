-- ===== src/Rack/Members.antt =====
-- The racks after a change of the stack members of one device.
use zas.Prelude.{
  ℕ, ◌≡◌, refl, sym, ap, ◌∙◌, All-of, select-select, ◌⊎◌, inl, inr, Bool, true, false, not, some,
  List, [], ◌∷◌, arith, ◌==◌, Bool-cases, same_key, select, All, length,
}
use zas.Dcim.{Device, StackMember}
use zas.Rack.{
  Db, member_count, in_rack, occupied, occupied_by, units_at, total_units,
  update_rack_occupied_units,
}
use zas.Rack.Occupancy.{IsConsistent, HoldsBut, HoldsBut-update, settled}

-- a member of another device
abbrev pub is_elsewhere : ℕ → StackMember → Bool
is_elsewhere device m = not (m.device == device)

module _ (device : ℕ) (members renewed : List StackMember)
    (others : select (is_elsewhere device) renewed ≡ select (is_elsewhere device) members) where
  other_select :
      (k : ℕ) (ms : List StackMember)
      → (k == device) ≡ false
      → select (λ m. m.device == k) (select (is_elsewhere device) ms)
        ≡ select (λ m. m.device == k) ms
  other_select k ms differ =
      select-select (λ (m : StackMember). m.device == k) (is_elsewhere device) ms
        (All-of _ (λ m. ground (arith, differ)) ms)

  -- the members of another device are counted as before
  member_count-other :
      (k : ℕ) → (k == device) ≡ false → member_count renewed k ≡ member_count members k
  unfolding member_count
  member_count-other k differ = ap length (
      sym (other_select k renewed differ)
      ∙ ap (select (λ m. m.device == k)) others
      ∙ other_select k members differ)

  total_units-other :
      (d : Device) → (d.id == device) ≡ false → total_units members d ≡ total_units renewed d
  unfolding total_units
  total_units-other d differ = rw (member_count-other d.id differ) refl

module _ (dev : Device) (renewed : List StackMember) (db : Db)
    (others : select (is_elsewhere dev.id) renewed
      ≡ select (is_elsewhere dev.id) db.stack_members) where
  abbrev Row : Device → Type 0
  Row d = ((d.id == dev.id) ≡ false) ⊎ (d.rack ≡ dev.rack)

  module _ (i : ℕ) (elsewhere : same_key dev.rack (some i) ≡ false) where
    other : (d : Device) → Row d → in_rack i d ≡ true → (d.id == dev.id) ≡ false
    unfolding in_rack
    other d (inl e) h = e
    other d (inr e) h = cc (h, elsewhere, ap (λ r. same_key r (some i)) e)

    occupied_by-cons :
        (d : Device) (ds : List Device)
        → (d.id == dev.id) ≡ false
        → occupied_by db.stack_members ds ≡ occupied_by renewed ds
        → occupied_by db.stack_members (d ∷ ds) ≡ occupied_by renewed (d ∷ ds)
    unfolding occupied_by units_at
    occupied_by-cons d ds e ih =
        ground (arith, total_units-other dev.id db.stack_members renewed others d e, ih)

    occupied_by-renewed :
        (ds : List Device)
        → All Row ds
        → occupied_by db.stack_members (select (in_rack i) ds)
          ≡ occupied_by renewed (select (in_rack i) ds)
    occupied_by-renewed [] h = unfold occupied_by in refl
    occupied_by-renewed (d ∷ ds) h =
        let ih = occupied_by-renewed ds h.1 in
        elim (Bool-cases (in_rack i d)) [
          | inl e ↦ rw e (occupied_by-cons d (select (in_rack i) ds) (other d h.0 e) ih)
          | inr e ↦ rw e ih
        ]

  abbrev pub renewed_db : Db
  renewed_db = record db { stack_members = renewed }

  -- with the members of one device changed, only its rack may be stale
  pub renewed_change :
      All Row db.devices
      → (i : ℕ) → (same_key dev.rack (some i) ≡ true) ⊎ (occupied db i ≡ occupied renewed_db i)
  unfolding occupied
  renewed_change rows i = elim (Bool-cases (same_key dev.rack (some i))) [
    | inl e ↦ inl e
    | inr e ↦ inr (occupied_by-renewed i e db.devices rows)
  ]

-- with its own rack recomputed at the end, no rack is stale
pub finish :
    (dev : Device) (db : Db)
    → HoldsBut (λ i. same_key dev.rack (some i)) db db.racks
    → IsConsistent (update_rack_occupied_units dev.rack db)
finish dev db h =
    settled _ (update_rack_occupied_units dev.rack db) (λ i. ground arith)
      (HoldsBut-update _ dev.rack db h)
