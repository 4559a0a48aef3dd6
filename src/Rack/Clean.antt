-- ===== src/Rack/Clean.antt =====
-- `Device.clean` keeps two devices of one rack from the same lowest unit.
use zas.Prelude.{
  ℕ, ◌≡◌, inl, inr, Bool, false, not, ◌&&◌, ◌||◌, Option, none, some, List, [], ◌∷◌, arith, ◌==◌,
  Bool-cases, same_key, is_some, any, Alone, NoClash, NoClash-write,
}
use zas.Dcim.{Device, Rack}
use zas.Rack.{Db, write_device, clean_device, unit_taken}

-- two devices with one rack and one position
abbrev pub same_place : Device → Device → Bool
same_place a b =
    is_some a.rack && is_some a.position && same_key a.rack b.rack && same_key a.position b.position

-- No two devices of the table have one rack and one position.
abbrev pub PlacesUnique : List Device → Type 0
PlacesUnique = NoClash (λ d. d.id) same_place

same_place_comm : (a b : Device) → same_place a b ≡ same_place b a
same_place_comm a b = ground arith

not_same_place :
    (dr dp pp : Option ℕ) (k : ℕ) (same_id rest : Bool)
    → (is_some pp && (same_key dr (some k) && same_key dp pp && not same_id || rest)) ≡ false
    → same_id ≡ false
    → (is_some dr && is_some dp && same_key dr (some k) && same_key dp pp) ≡ false
not_same_place dr dp pp k same_id rest h e = ground arith

rest_false : (a b c : Bool) → (a && (b || c)) ≡ false → (a && c) ≡ false
rest_false a b c h = ground arith

Alone-unit_taken :
    (r : Rack) (dev : Device) (ds : List Device)
    → dev.rack ≡ some r.id
    → (is_some dev.position
        && any
            (λ d.
              same_key d.rack (some r.id)
              && same_key d.position dev.position
              && not (d.id == dev.id))
            ds)
      ≡ false
    → Alone (λ (d : Device). d.id) same_place dev ds
Alone-unit_taken r dev [] e h = tt
Alone-unit_taken r dev (d ∷ ds) e h = (
  elim (Bool-cases (d.id == dev.id)) [
    | inl same ↦ inl same
    | inr differ ↦
        inr (rw e (not_same_place d.rack d.position dev.position r.id (d.id == dev.id) _ h differ))
  ],
  Alone-unit_taken r dev ds e (rest_false (is_some dev.position) _ _ h),
)

accepted_place :
    (area_site : ℕ) (r : Rack) (dev : Device) (db : Db)
    → (clean_device area_site (some r) dev db).1 ≡ none
    → (is_some dev.position && unit_taken r dev db) ≡ false
unfolding clean_device
accepted_place area_site r dev db h = ground arith

-- Where `Device.clean` accepts a device that is mounted in a rack, saving it leaves no two devices
-- with the same rack and position. The condition is that there were none before.
pub clean_device-PlacesUnique :
    (area_site : ℕ) (r : Rack) (dev : Device) (db : Db)
    → dev.rack ≡ some r.id
    → PlacesUnique db.devices
    → (clean_device area_site (some r) dev db).1 ≡ none
    → PlacesUnique (write_device (clean_device area_site (some r) dev db).0 db.devices)
unfolding clean_device write_device
clean_device-PlacesUnique area_site r dev db e u h =
    NoClash-write (λ (d : Device). d.id) same_place same_place_comm _ db.devices
      (Alone-unit_taken r dev db.devices e
        (unfold unit_taken in accepted_place area_site r dev db h))
      u
