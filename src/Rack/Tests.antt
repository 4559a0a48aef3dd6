-- ===== src/Rack/Tests.antt =====
-- A rack with two devices, one of them a stack.
use zas.Prelude.{
  ℕ, ◌+◌, ◌/◌, ◌≤◌, ◌≡◌, refl, ◌⊎◌, inl, inr, true, ◌&&◌, Option, none, some, [], ◌∷◌, arith, ◌==◌,
  any, ok, err,
}
use zas.Dcim.{Rack}
use zas.Rack.{
  occupied, save_device, delete_device, select_position, clean_device, write_device, max_unit,
  is_free, PositionError,
}
use zas.Rack.Sample.{rack, router, db, moved}
use zas.Rack.Occupancy.{IsConsistent, save_device-IsConsistent}
use zas.Rack.Deletion.{delete_device-IsConsistent}
use zas.Rack.Covers.{is_mounted_in, covers, any-occupied}
use zas.Rack.Position.{select_position_sound, select_position_total}
use zas.Rack.Clean.{PlacesUnique, clean_device-PlacesUnique}

db-IsConsistent : IsConsistent db
unfolding occupied
db-IsConsistent = (refl, tt)

save_test :
    (save_device (record router { rack = none }) db).racks
    ≡ record rack { occupied_units = 4 ∷ 5 ∷ 6 ∷ 7 ∷ [] } ∷ []
unfolding save_device
save_test = refl

save_device-IsConsistent_example : IsConsistent (save_device moved db)
save_device-IsConsistent_example = save_device-IsConsistent moved db db-IsConsistent

delete_device-IsConsistent_example : IsConsistent (delete_device router db)
delete_device-IsConsistent_example =
    delete_device-IsConsistent router db (inl refl, (inr refl, tt)) db-IsConsistent

any-occupied_example :
    any (λ x. x == 6) (occupied db 1)
    ≡ any (λ d. is_mounted_in 1 d.rack && covers db.stack_members d d.position 6) db.devices
any-occupied_example = any-occupied 6 1 db

abbrev unasked : Option ℕ
unasked = none

-- units 2 and 3 are the first free block of two; the draw 1 picks the second, 8 and 9
pick_test : select_position rack unasked 2 1 ≡ ok 80
unfolding select_position
pick_test = refl

full_test : select_position rack none 4 1 ≡ err PositionError.no_free_units
unfolding select_position
full_test = refl

block_free : is_free rack.occupied_units 2 2 ≡ true
unfolding is_free
block_free = refl

select_position_sound_example :
    ((is_free rack.occupied_units (80 / 10) 2 ≡ true)
      × (1 ≤ 80 / 10)
      × (80 / 10 + 2 ≤ max_unit rack + 1))
    ⊎ (unasked ≡ some 80) × (is_free rack.occupied_units (80 / 10) 2 ≡ true)
select_position_sound_example = select_position_sound rack 2 1 unasked 80 pick_test

select_position_total_example : (p : ℕ) × (select_position rack (some 40) 2 3 ≡ ok p)
unfolding max_unit
select_position_total_example =
    select_position_total rack 2 3 (some 40) 2 (block_free, omega arith, omega arith)

abbrev empty_rack : Rack
empty_rack = record rack { occupied_units = [] }

moved_accepted : (clean_device 2 (some rack) moved db).1 ≡ none
unfolding clean_device
moved_accepted = refl

clean_device-PlacesUnique_example :
    PlacesUnique (write_device (clean_device 2 (some rack) moved db).0 db.devices)
clean_device-PlacesUnique_example =
    clean_device-PlacesUnique 2 rack moved db refl ((inr refl, tt), (tt, tt)) moved_accepted
