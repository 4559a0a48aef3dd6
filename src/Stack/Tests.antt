-- ===== src/Stack/Tests.antt =====
-- Tests of the sync of a stack, and the theorems on it at a concrete rack.
use zas.Prelude.{ℕ, ◌≡◌, refl, none, some, List, [], ◌∷◌, ◌==◌, any, select}
use zas.Dcim.{StackRole, StackState}
use zas.Rack.{occupied, save_device}
use zas.Rack.Sample.{rack, stack, db}
use zas.Rack.Occupancy.{IsConsistent}
use zas.Stack.{Reported, seen_numbers, apply_stack_members}
use zas.Stack.Numbers.{has_member, is_other, apply_stack-exact}

abbrev reported_as : ℕ → Reported
reported_as n = record {
  switch_number = some n;
  role = StackRole.active;
  mac_address = [];
  priority = some 15;
  version = none;
  state = StackState.ready;
}

-- the second member has left the stack
abbrev output : List Reported
output = reported_as 1 ∷ record (reported_as 1) { switch_number = none } ∷ []

-- the device is no stack any more, and takes two units in place of four
shrunk_test :
    (apply_stack_members stack output db).1.racks
    ≡ record rack { occupied_units = 4 ∷ 5 ∷ 1 ∷ [] } ∷ []
unfolding apply_stack_members save_device occupied
shrunk_test = refl

apply_stack-exact_example :
    (has_member 1 2 (apply_stack_members stack output db).1.stack_members
      ≡ any (λ n. n == 2) (seen_numbers output))
    × (select (is_other 1) (apply_stack_members stack output db).1.stack_members
        ≡ select (is_other 1) db.stack_members)
unfolding seen_numbers
apply_stack-exact_example = apply_stack-exact stack output db refl 2

db-IsConsistent : IsConsistent db
unfolding occupied
db-IsConsistent = (refl, tt)
