-- ===== src/Assignment/Placed.antt =====
-- Where an assigned device is placed, and the racks afterwards.
use zas.Prelude.{
  ℕ, ◌/◌, ◌*◌, ◌+◌, ◌≤◌, ◌≡◌, refl, ◌∙◌, true, false, ◌||◌, ◌⊎◌, inl, inr, Option, some, List, [],
  ◌∷◌, ◌==◌, arith, All, any, ok,
}
use zas.Dcim.{DeviceType, Device, Rack}
use zas.Rack.{select_position, is_free, max_unit, write_device}
use zas.Rack.Position.{select_position_total}
use zas.Discovery.{DiscoveryCandidate}
use zas.Assignment.{Location, parse_location, is_fabric}
use zas.Assignment.Assign.{
  Area, Tables, Facts, Given, is_taken, has_repeat, unless_taken, resolve_area_and_rack,
  resolve_type, free_position, required_units, Assigned, write, place, located, connected, assign,
}

-- What an assignment rests on: the facts, the place that the location names, the unit and the type
-- that are chosen.
pub record Chosen : Type 0 where
  pub facts : Facts
  pub location : Location
  pub area : Area
  pub rack : Rack
  pub position : ℕ
  pub type : DeviceType

abbrev IsChosen : Given → DiscoveryCandidate → Option Facts → Tables → Assigned → Chosen → Type 0
IsChosen given c facts t a x =
    (a ≡ write given c x.facts t x.area x.rack x.position x.type)
    × (select_position x.rack x.location.unit (required_units x.facts) given.draw ≡ ok x.position)
    × ((is_taken c t.db.devices || has_repeat x.facts.stack_members) ≡ false)
    × (facts ≡ some x.facts)
    × (resolve_area_and_rack c.site x.location t ≡ ok (x.area, x.rack))

abbrev Row : Device → Device → Type 0
Row dev d = ((d.id == dev.id) ≡ false) ⊎ (d.rack ≡ dev.rack)

new_row :
    (dev : Device) (devices : List Device)
    → All (λ (d : Device). (d.id == dev.id) ≡ false) devices
    → All (Row dev) (write_device dev devices)
unfolding write_device
new_row dev [] h = (inr refl, tt)
new_row dev (d ∷ devices) h = let rest = new_row dev devices h.1 in rw h.0 (inl h.0, rest)

placed :
    (given : Given) (c : DiscoveryCandidate) (f : Facts) (t : Tables) (unit : Option ℕ)
    (area : Area) (rack : Rack) (type : DeviceType) (position : ℕ)
    → select_position rack unit (required_units f) given.draw ≡ ok position
    → resolve_type f.model_name t ≡ ok type
    → (is_taken c t.db.devices || has_repeat f.stack_members) ≡ false
    → place given c f t unit (area, rack) ≡ ok (write given c f t area rack position type)
unfolding place free_position unless_taken
placed given c f t unit area rack type position h k unique = rw (h, k, unique) refl

assign-steps :
    (given : Given) (c : DiscoveryCandidate) (f : Facts) (t : Tables) (l : Location)
    (found : Area × Rack)
    → any (λ s. s == c.site) t.credential_sites ≡ true
    → parse_location (is_fabric c.hostname || f.is_aci) c.hostname f.location_raw ≡ ok l
    → resolve_area_and_rack c.site l t ≡ ok found
    → assign given c (some f) t ≡ place given c f t l.unit found
unfolding assign connected located
assign-steps given c f t l found h k m = rw (h, k, m) refl

-- Where the site has credentials, the session yields facts, the location is read and names one area and
-- one rack, the model has a type, no device has the name or the address of the candidate, no two members of the stack have one number, and some
-- block of the required size is free in the rack, the transaction of the assignment succeeds, whatever
-- unit the device asks for and whatever number is drawn.
pub assign_total :
    (given : Given) (c : DiscoveryCandidate) (f : Facts) (t : Tables) (l : Location) (area : Area)
    (rack : Rack) (type : DeviceType) (start : ℕ)
    → any (λ s. s == c.site) t.credential_sites ≡ true
    → parse_location (is_fabric c.hostname || f.is_aci) c.hostname f.location_raw ≡ ok l
    → resolve_area_and_rack c.site l t ≡ ok (area, rack)
    → resolve_type f.model_name t ≡ ok type
    → (is_taken c t.db.devices || has_repeat f.stack_members) ≡ false
    → is_free rack.occupied_units start (required_units f) ≡ true
    → 1 ≤ start
    → start + required_units f ≤ max_unit rack + 1
    → (a : Assigned) × (assign given c (some f) t ≡ ok a)
assign_total given c f t l area rack type start site parsed found known unique free low high =
    let unit : start * 10 / 10 ≡ start = omega arith in
    let (position, chosen) =
      select_position_total rack (required_units f) given.draw l.unit start
        (rw unit free, omega (arith, unit, low), omega (arith, unit, high)) in
    (
      write given c f t area rack position type,
      assign-steps given c f t l (area, rack) site parsed found
          ∙ placed given c f t l.unit area rack type position chosen known unique,
    )
