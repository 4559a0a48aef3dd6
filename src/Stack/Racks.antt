-- ===== src/Stack/Racks.antt =====
-- The racks after a sync of the stack.
use zas.Prelude.{
  ℕ, ◌≡◌, refl, ◌∙◌, All-map, ◌⊎◌, inl, inr, Bool, true, false, not, ◌&&◌, ◌||◌, Option, some, List,
  arith, ◌==◌, Bool-cases, same_key, same_key_iff, All, length, ltb,
}
use zas.Dcim.{Device}
use zas.Rack.{Db, update_rack_occupied_units, save_device}
use zas.Rack.Occupancy.{
  IsConsistent, HoldsBut, HoldsBut-update, touched, begin_change, previous_rack, saved,
  saved_change,
}
use zas.Stack.{Reported, new_members, seen_numbers, same_flag, apply_stack_members}
use zas.Stack.Numbers.{new_members-others}
use zas.Rack.Members.{renewed_db, renewed_change, finish}

once_lem :
    (s : Bool) (p r : Option ℕ) (i : ℕ)
    → same_key p r ≡ true
    → ((s || touched p r i) && not (same_key (some i) r)) ≡ true
    → (s && not (same_key (some i) r)) ≡ true
once_lem s p r i e h = let same = (same_key_iff p r).0 e in ground (arith, rw same at h)

weaken :
    (a b : ℕ → Bool) (db : Db)
    → ((i : ℕ) → a i ≡ true → b i ≡ true)
    → HoldsBut a db db.racks
    → HoldsBut b db db.racks
weaken a b db imp h =
    All-map _ _ (λ r o. elim o [ inl e ↦ inl (imp r.id e) | inr e ↦ inr e ]) db.racks h

-- A save makes the device's rack right and leaves no other rack stale that was not.
module _ (stale : ℕ → Bool) (dev : Device) (db : Db) where
  abbrev more_stale : ℕ → Bool
  more_stale i = stale i || touched (previous_rack dev db) dev.rack i

  saved-HoldsBut : HoldsBut stale db db.racks → HoldsBut more_stale (saved dev db) db.racks
  saved-HoldsBut h =
      All-map _ _
        (λ r o. elim o [
          | inl e ↦ inl (rw e)
          | inr e ↦ elim (saved_change dev db r.id) [
            | inl t ↦ inl (ground (arith, t))
            | inr same ↦ inr (e ∙ same)
          ]
        ])
        db.racks h

  abbrev less : ℕ → Bool
  less i = stale i && not (same_key (some i) dev.rack)

  once :
      (i : ℕ)
      → same_key (previous_rack dev db) dev.rack ≡ true
      → (more_stale i && not (same_key (some i) dev.rack)) ≡ true
      → less i ≡ true
  once i e h = once_lem (stale i) (previous_rack dev db) dev.rack i e h

  both :
      (i : ℕ)
      → ((more_stale i && not (same_key (some i) (previous_rack dev db)))
          && not (same_key (some i) dev.rack))
        ≡ true
      → less i ≡ true
  both i h = ground (arith, h)

  save-HoldsBut :
      HoldsBut stale db db.racks → HoldsBut less (save_device dev db) (save_device dev db).racks
  unfolding save_device
  save-HoldsBut h =
      let start = saved-HoldsBut h in
      elim (Bool-cases (same_key (previous_rack dev db) dev.rack)) [
        | inl e ↦ rw e (
            weaken _ less (update_rack_occupied_units dev.rack (saved dev db)) (λ i. once i e)
              (HoldsBut-update more_stale dev.rack (saved dev db) start))
        | inr e ↦ rw e (
            weaken _ less
              (update_rack_occupied_units dev.rack
                (update_rack_occupied_units (previous_rack dev db) (saved dev db)))
              both
              (HoldsBut-update _ dev.rack
                (update_rack_occupied_units (previous_rack dev db) (saved dev db))
                (HoldsBut-update more_stale (previous_rack dev db) (saved dev db) start)))
      ]

module _ (dev : Device) (reported : List Reported) (db : Db) where
  abbrev flagged : Device
  flagged = record dev { is_stacked = ltb 1 (length (seen_numbers reported)) }

  -- A sync of the stack keeps every rack's stored occupancy equal to what the devices in it fill, also
  -- where the number of members or the stacked flag changes. The conditions are that the stored
  -- occupancy was right before, and that the device object names the rack that its stored row names.
  pub apply_stack-IsConsistent :
      All (λ d. ((d.id == dev.id) ≡ false) ⊎ (d.rack ≡ dev.rack)) db.devices
      → IsConsistent db
      → IsConsistent (apply_stack_members dev reported db).1
  unfolding apply_stack_members
  apply_stack-IsConsistent rows h =
      let own = λ (i : ℕ). same_key dev.rack (some i) in
      let renewed = new_members dev.id reported db.stack_members in
      let others = new_members-others dev.id reported db.stack_members in
      let next = renewed_db dev renewed db others in
      let start = begin_change own db next refl (renewed_change dev renewed db others rows) h in
      elim (Bool-cases (same_flag dev.is_stacked flagged.is_stacked)) [
        | inl e ↦ rw e (finish dev next start)
        | inr e ↦ rw e (
            finish dev (save_device flagged next) (
              weaken _ own (save_device flagged next) (λ i l. ground (arith, l))
                (save-HoldsBut own flagged next start)))
      ]
