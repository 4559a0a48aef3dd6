-- ===== src/Rack/Occupancy.antt =====
-- `save` keeps the stored occupancy of every rack equal to what its devices fill.
use zas.Prelude.{
  ℕ, ◌≡◌, refl, sym, ap, ◌∙◌, All-map, ==_iff, ◌⊎◌, inl, inr, Bool, true, false, not, ◌&&◌, ◌||◌,
  Option, none, some, List, [], ◌∷◌, arith, ◌==◌, if◌then◌else◌, Bool-cases, same_key, same_key_iff,
  select, All, find_row,
}
use zas.Dcim.{Device, Rack}
use zas.Rack.{
  Db, in_rack, occupied, occupied_by, set_occupied, update_rack_occupied_units, write_device,
  rack_of, save_device,
}

-- every rack stores the units that its devices fill
abbrev pub IsConsistent : Db → Type 0
IsConsistent db = All (λ r. r.occupied_units ≡ occupied db r.id) db.racks

-- the same but for the racks that `stale` names
abbrev pub HoldsBut : (ℕ → Bool) → Db → List Rack → Type 0
HoldsBut stale db racks =
    All (λ r. (stale r.id ≡ true) ⊎ (r.occupied_units ≡ occupied db r.id)) racks

set_one :
    (stale : ℕ → Bool) (db : Db) (k : ℕ) (r : Rack)
    → (stale r.id ≡ true) ⊎ (r.occupied_units ≡ occupied db r.id)
    → let r' = if r.id == k then record r { occupied_units = occupied db k } else r in
      ((stale r'.id && not (r'.id == k)) ≡ true) ⊎ (r'.occupied_units ≡ occupied db r'.id)
set_one stale db k r h = elim (Bool-cases (r.id == k)) [
  | inl hit ↦ rw hit (inr (ap (occupied db) (sym ((==_iff r.id k).0 hit))))
  | inr miss ↦ rw miss (elim h [ inl e ↦ inl (rw (e, miss)) | inr e ↦ inr e ])
]

HoldsBut-set_occupied :
    (stale : ℕ → Bool) (db : Db) (k : ℕ) (racks : List Rack)
    → HoldsBut stale db racks
    → HoldsBut (λ i. stale i && not (i == k)) db (set_occupied k (occupied db k) racks)
unfolding set_occupied
HoldsBut-set_occupied stale db k [] h = tt
HoldsBut-set_occupied stale db k (r ∷ racks) h =
    (set_one stale db k r h.0, HoldsBut-set_occupied stale db k racks h.1)

pub select-write_device :
    (k : ℕ) (dev : Device) (ds : List Device)
    → in_rack k dev ≡ false
    → same_key (rack_of (find_row (λ (d : Device). d.id) dev.id ds)) (some k) ≡ false
    → select (in_rack k) (write_device dev ds) ≡ select (in_rack k) ds
unfolding write_device rack_of in_rack
select-write_device k dev [] new old = rw new
select-write_device k dev (d ∷ ds) new old = ground (arith, select-write_device k dev ds new)

occupied-update :
    (o : Option ℕ) (db : Db) (i : ℕ) → occupied (update_rack_occupied_units o db) i ≡ occupied db i
unfolding update_rack_occupied_units
occupied-update none db i = refl
occupied-update (some k) db i = refl

pub HoldsBut-update :
    (stale : ℕ → Bool) (o : Option ℕ) (db : Db)
    → HoldsBut stale db db.racks
    → let db' = update_rack_occupied_units o db in
      HoldsBut (λ i. stale i && not (same_key (some i) o)) db' db'.racks
unfolding update_rack_occupied_units occupied
HoldsBut-update stale none db h =
    All-map _ _ (λ r o. elim o [ inl e ↦ inl (rw e) | inr e ↦ inr e ]) db.racks h
HoldsBut-update stale (some k) db h = HoldsBut-set_occupied stale db k db.racks h

-- with no stale rack left the database is consistent
pub settled :
    (stale : ℕ → Bool) (db : Db)
    → ((i : ℕ) → stale i ≡ false)
    → HoldsBut stale db db.racks
    → IsConsistent db
settled stale db none_stale h =
    All-map _ _ (λ r o. elim o [ inl e ↦ cc (e, none_stale r.id) | inr e ↦ e ]) db.racks h

-- a change of the devices leaves stale the racks where it changed what is occupied
pub begin_change :
    (stale : ℕ → Bool) (db db' : Db)
    → db'.racks ≡ db.racks
    → ((i : ℕ) → (stale i ≡ true) ⊎ (occupied db i ≡ occupied db' i))
    → IsConsistent db
    → HoldsBut stale db' db'.racks
unfolding occupied
begin_change stale db db' same change h =
    rw same
      (All-map _ _ (λ r e. elim (change r.id) [ inl s ↦ inl s | inr o ↦ inr (e ∙ o) ]) db.racks h)

pub same_key_comm : (a b : Option ℕ) → same_key a b ≡ same_key b a
same_key_comm a b = ground arith

-- the two racks that `save` recomputes
abbrev pub touched : Option ℕ → Option ℕ → ℕ → Bool
touched previous next i = same_key (some i) previous || same_key (some i) next

pub touched_both :
    (previous next : Option ℕ) (i : ℕ)
    → ((touched previous next i && not (same_key (some i) previous))
        && not (same_key (some i) next))
      ≡ false
touched_both previous next i = ground arith

pub touched_once :
    (previous next : Option ℕ) (i : ℕ)
    → same_key previous next ≡ true
    → (touched previous next i && not (same_key (some i) next)) ≡ false
touched_once previous next i e = rw ((same_key_iff previous next).0 e) (ground arith)

pub untouched :
    (previous next : Option ℕ) (i : ℕ)
    → touched previous next i ≡ false
    → (same_key previous (some i) ≡ false) × (same_key next (some i) ≡ false)
untouched previous next i e = (ground arith, ground arith)

module _ (dev : Device) (db : Db) where
  abbrev pub previous_rack : Option ℕ
  previous_rack = rack_of (find_row (λ (d : Device). d.id) dev.id db.devices)

  abbrev pub saved : Db
  saved = record db { devices = write_device dev db.devices }

  pub saved_change :
      (i : ℕ) → (touched previous_rack dev.rack i ≡ true) ⊎ (occupied db i ≡ occupied saved i)
  unfolding occupied in_rack
  saved_change i = elim (Bool-cases (touched previous_rack dev.rack i)) [
    | inl e ↦ inl e
    | inr e ↦
        let (old, new) = untouched _ _ i e in
        inr (ap (occupied_by db.stack_members) (sym (select-write_device i dev db.devices new old)))
  ]

  -- Saving a device keeps every rack's stored occupancy equal to what the devices in it fill: the
  -- rack that the device leaves, the rack that it enters, and all others. The condition is that the
  -- stored occupancy was right before.
  pub save_device-IsConsistent : IsConsistent db → IsConsistent (save_device dev db)
  unfolding save_device
  save_device-IsConsistent h =
      let start = begin_change (touched previous_rack dev.rack) db saved refl saved_change h in
      elim (Bool-cases (same_key previous_rack dev.rack)) [
        | inl e ↦ rw e (
            settled _ (update_rack_occupied_units dev.rack saved)
              (λ i. touched_once previous_rack dev.rack i e)
              (HoldsBut-update _ dev.rack saved start))
        | inr e ↦ rw e (
            settled _
              (update_rack_occupied_units dev.rack (update_rack_occupied_units previous_rack saved))
              (λ i. touched_both previous_rack dev.rack i)
              (HoldsBut-update _ dev.rack (update_rack_occupied_units previous_rack saved)
                (HoldsBut-update _ previous_rack saved start)))
      ]
