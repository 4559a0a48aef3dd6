-- ===== src/Stack/Numbers.antt =====
-- Which members the table holds after a sync of the stack.
use zas.Prelude.{
  ℕ, ◌≡◌, refl, ap, ◌∙◌, Bool, true, false, not, ◌&&◌, ◌||◌, Option, none, some, List, [], ◌∷◌,
  arith, Bool-cases, inl, inr, ◌==◌, any, select, is_empty, select-select, All-of, same_key,
  find_row, ltb, length, ◌⊎◌,
}
use zas.Dcim.{StackMember, Device}
use zas.Stack.{
  Reported, is_member, write_member, member_row, write_reported, write_all, see, seen_numbers,
  is_gone, new_members, same_flag, apply_stack_members,
}
use zas.Rack.{Db, update_rack_occupied_units, save_device, rack_of}

-- the table has a member of the device with the number
abbrev pub has_member : ℕ → ℕ → List StackMember → Bool
has_member device number members = any (is_member device number) members

-- a member of another device
abbrev pub is_other : ℕ → StackMember → Bool
is_other device m = not (m.device == device)

has-write :
    (device number : ℕ) (new : StackMember) (members : List StackMember)
    → has_member device number (write_member new members)
      ≡ (is_member device number new || has_member device number members)
unfolding write_member is_member
has-write device number new [] = refl
has-write device number new (m ∷ members) = ground (arith, has-write device number new members)

others-write :
    (device : ℕ) (new : StackMember) (members : List StackMember)
    → new.device ≡ device
    → select (is_other device) (write_member new members) ≡ select (is_other device) members
unfolding write_member is_member
others-write device new [] e = ground arith
others-write device new (m ∷ members) e = ground (arith, others-write device new members e)

own_member :
    (device number n : ℕ) (r : Reported) (a b : Bool)
    → (a || (is_member device number (member_row device n r) || b)) ≡ ((n == number || a) || b)
unfolding is_member member_row
own_member device number n r a b = ground arith

absorb : (a b : Bool) → (a && (a || b)) ≡ a
absorb a b = ground arith

has-reported :
    (device number : ℕ) (o : Option ℕ) (r : Reported) (members : List StackMember) (seen : List ℕ)
    → (any (λ n. n == number) seen || has_member device number (write_reported device o r members))
      ≡ (any (λ n. n == number) (see o seen) || has_member device number members)
unfolding write_reported see
has-reported device number none r members seen = refl
has-reported device number (some n) r members seen =
    let e = has-write device number (member_row device n r) members in
    rw e (
      own_member device number n r (any (λ k. k == number) seen) (has_member device number members))

has-write_all :
    (device number : ℕ) (reported : List Reported) (members : List StackMember)
    → has_member device number (write_all device reported members)
      ≡ (any (λ n. n == number) (seen_numbers reported) || has_member device number members)
unfolding write_all seen_numbers
has-write_all device number [] members = refl
has-write_all device number (r ∷ reported) members =
    has-write_all device number reported (write_reported device r.switch_number r members)
    ∙ has-reported device number r.switch_number r members (seen_numbers reported)

others-write_reported :
    (device : ℕ) (o : Option ℕ) (r : Reported) (members : List StackMember)
    → select (is_other device) (write_reported device o r members)
      ≡ select (is_other device) members
unfolding write_reported
others-write_reported device none r members = refl
others-write_reported device (some n) r members =
    others-write device (member_row device n r) members (unfold member_row in refl)

others-write_all :
    (device : ℕ) (reported : List Reported) (members : List StackMember)
    → select (is_other device) (write_all device reported members)
      ≡ select (is_other device) members
unfolding write_all
others-write_all device [] members = refl
others-write_all device (r ∷ reported) members =
    others-write_all device reported (write_reported device r.switch_number r members)
    ∙ others-write_reported device r.switch_number r members

kept_member :
    (device number : ℕ) (seen : List ℕ) (m : StackMember)
    → is_member device number m ≡ true
    → is_gone device seen m ≡ not (any (λ n. n == number) seen)
unfolding is_member is_gone
kept_member device number seen m h =
    let d : (m.device == device) ≡ true = ground (arith, h) in
    let e : m.switch_number ≡ number = ground (arith, h) in
    rw d (ap (λ k. not (any (λ n. n == k) seen)) e)

has-kept :
    (device number : ℕ) (seen : List ℕ) (members : List StackMember)
    → has_member device number (select (λ m. not (is_gone device seen m)) members)
      ≡ (any (λ n. n == number) seen && has_member device number members)
has-kept device number seen [] = ground arith
has-kept device number seen (m ∷ members) =
    let ih = has-kept device number seen members in
    elim (Bool-cases (is_member device number m)) [
      | inl hit ↦ ground (arith, hit, ih, kept_member device number seen m hit)
      | inr miss ↦ elim (Bool-cases (is_gone device seen m)) [
        | inl e ↦ rw (e, miss) ih
        | inr e ↦ rw (e, miss) ih
      ]
    ]

not_gone :
    (device : ℕ) (seen : List ℕ) (m : StackMember)
    → (not (is_gone device seen m) ≡ true) ⊎ (is_other device m ≡ false)
unfolding is_gone
not_gone device seen m = elim (Bool-cases (m.device == device)) [
  | inl e ↦ inr (rw e)
  | inr e ↦ inl (rw e)
]

new_members-exact :
    (device number : ℕ) (reported : List Reported) (members : List StackMember)
    → is_empty (seen_numbers reported) ≡ false
    → has_member device number (new_members device reported members)
      ≡ any (λ n. n == number) (seen_numbers reported)
unfolding new_members
new_members-exact device number reported members some_seen =
    let seen = seen_numbers reported in
    rw some_seen (
      has-kept device number seen (write_all device reported members)
      ∙ rw (has-write_all device number reported members)
          (absorb (any (λ n. n == number) seen) (has_member device number members)))

-- the members of other devices
pub new_members-others :
    (device : ℕ) (reported : List Reported) (members : List StackMember)
    → select (is_other device) (new_members device reported members)
      ≡ select (is_other device) members
unfolding new_members
new_members-others device reported members =
    let written = others-write_all device reported members in
    elim (Bool-cases (is_empty (seen_numbers reported))) [
      | inl e ↦ rw e written
      | inr e ↦ rw e (
          select-select (is_other device) (λ m. not (is_gone device (seen_numbers reported) m))
            (write_all device reported members)
            (All-of _ (not_gone device (seen_numbers reported)) (write_all device reported members))
          ∙ written)
    ]

update-stack_members :
    (o : Option ℕ) (db : Db) → (update_rack_occupied_units o db).stack_members ≡ db.stack_members
unfolding update_rack_occupied_units
update-stack_members none db = refl
update-stack_members (some k) db = refl

save-stack_members :
    (dev : Device) (db : Db) → (save_device dev db).stack_members ≡ db.stack_members
unfolding save_device
save-stack_members dev db =
    elim (Bool-cases
      (same_key (rack_of (find_row (λ (d : Device). d.id) dev.id db.devices)) dev.rack)) [
        | inl e ↦ rw e (update-stack_members dev.rack _)
        | inr e ↦ rw e (update-stack_members dev.rack _ ∙ update-stack_members _ _)
      ]

module _ (dev : Device) (reported : List Reported) (db : Db) where
  apply-stack_members :
      (apply_stack_members dev reported db).1.stack_members
      ≡ new_members dev.id reported db.stack_members
  unfolding apply_stack_members
  apply-stack_members =
      update-stack_members dev.rack _
      ∙ elim (Bool-cases (same_flag dev.is_stacked (ltb 1 (length (seen_numbers reported))))) [
        | inl e ↦ rw e refl
        | inr e ↦ rw e (save-stack_members _ _)
      ]

  -- Where the output names at least one member with a number, the table has afterwards, for each
  -- number, a member of the device with it exactly where the output names the number, and the members
  -- of other devices are as before, in their order.
  pub apply_stack-exact :
      is_empty (seen_numbers reported) ≡ false
      → (number : ℕ)
      → (has_member dev.id number (apply_stack_members dev reported db).1.stack_members
          ≡ any (λ n. n == number) (seen_numbers reported))
        × (select (is_other dev.id) (apply_stack_members dev reported db).1.stack_members
            ≡ select (is_other dev.id) db.stack_members)
  apply_stack-exact some_seen number = rw apply-stack_members (
    new_members-exact dev.id number reported db.stack_members some_seen,
    new_members-others dev.id reported db.stack_members,
  )
