-- ===== src/Rack/Covers.antt =====
-- What the recomputed occupancy of a rack holds, unit by unit.
use zas.Prelude.{
  ℕ, zero, suc, ◌+◌, ◌*◌, ◌/◌, ◌≤◌, max, ◌≡◌, refl, ap, ◌∙◌, inl, inr, Bool, true, false, ◌&&◌,
  Option, none, some, List, [], ◌∷◌, ◌++◌, arith, ◌==◌, leb, ltb, if◌then◌else◌, Bool-cases,
  Option-cases, select, length, any, any-append,
}
use zas.Dcim.{Device, DeviceType, StackMember}
use zas.Rack.{
  Db, in_rack, occupied, occupied_by, units_at, range_from, total_units, type_height, member_count,
}

-- the height of a device in whole units, which is at least 1
abbrev pub type_units : Option DeviceType → ℕ
type_units none = 1
type_units (some t) = max 1 (t.u_height / 10)

-- the members of a stack, which count as at least 1
abbrev pub stack_units : List StackMember → Device → ℕ
stack_units members d =
    if d.is_stacked then max 1 (length (select (λ m. m.device == d.id) members)) else 1

abbrev pub is_mounted_in : ℕ → Option ℕ → Bool
is_mounted_in k none = false
is_mounted_in k (some rack) = rack == k

-- The device has a position, and `u` lies from its lowest unit up to its height times its stack members.
abbrev pub covers : List StackMember → Device → Option ℕ → ℕ → Bool
covers members d none u = false
covers members d (some p) u =
    leb (p / 10) u && ltb u (p / 10 + type_units d.device_type * stack_units members d)

type_height_lem : (o : Option DeviceType) → type_height o ≡ type_units o
unfolding type_height
type_height_lem none = refl
type_height_lem (some t) = ground arith

type_units_pos : (o : Option DeviceType) → 1 ≤ type_units o
type_units_pos none = omega arith
type_units_pos (some t) = omega arith

product_pos : (a b : ℕ) → 1 ≤ a → 1 ≤ b → max 1 (a * b) ≡ a * b
product_pos zero b h k = absurd (omega (arith, h))
product_pos (suc a) b h k = omega arith

stack_units_pos : (members : List StackMember) (d : Device) → 1 ≤ stack_units members d
stack_units_pos members d = elim (Bool-cases d.is_stacked) [
  | inl e ↦ rw e (omega arith)
  | inr e ↦ rw e (omega arith)
]

stack_factor_lem : (b : Bool) (n : ℕ) → max 1 (if b then n else 1) ≡ (if b then max 1 n else 1)
stack_factor_lem true n = refl
stack_factor_lem false n = refl

total_units_lem :
    (members : List StackMember) (d : Device)
    → total_units members d ≡ type_units d.device_type * stack_units members d
unfolding total_units member_count
total_units_lem members d =
    ap (λ h. max 1 (h * max 1 (if d.is_stacked then member_count members d.id else 1)))
      (type_height_lem d.device_type)
    ∙ ap (λ s. max 1 (type_units d.device_type * s)) (stack_factor_lem d.is_stacked _)
    ∙ product_pos (type_units d.device_type) (stack_units members d) (type_units_pos d.device_type)
        (stack_units_pos members d)

in_rack_lem : (k : ℕ) (d : Device) → in_rack k d ≡ is_mounted_in k d.rack
unfolding in_rack
in_rack_lem k d = elim (Option-cases d.rack) [ inl e ↦ rw e refl | inr (r, e) ↦ rw e refl ]

pub any-range_from :
    (u start count : ℕ)
    → any (λ x. x == u) (range_from start count) ≡ (leb start u && ltb u (start + count))
unfolding range_from
any-range_from u start zero = ground arith
any-range_from u start (suc count) = ground (arith, any-range_from u (start + 1) count)

any-units_at :
    (u : ℕ) (members : List StackMember) (d : Device) (p : Option ℕ)
    → any (λ x. x == u) (units_at members d p) ≡ covers members d p u
any-units_at u members d none = unfold units_at in refl
any-units_at u members d (some p) =
    unfold units_at in
    any-range_from u (p / 10) (total_units members d)
    ∙ ap (λ n. leb (p / 10) u && ltb u (p / 10 + n)) (total_units_lem members d)

occupied_by_step :
    (members : List StackMember) (d : Device) (ds : List Device)
    → occupied_by members (d ∷ ds) ≡ units_at members d d.position ++ occupied_by members ds
unfolding occupied_by
occupied_by_step members d ds = refl

any-occupied_by :
    (u k : ℕ) (members : List StackMember) (ds : List Device)
    → any (λ x. x == u) (occupied_by members (select (in_rack k) ds))
      ≡ any (λ d. is_mounted_in k d.rack && covers members d d.position u) ds
any-occupied_by u k members [] = unfold occupied_by in refl
any-occupied_by u k members (d ∷ ds) =
    let ih = any-occupied_by u k members ds in
    let own = any-units_at u members d d.position in
    rw (← in_rack_lem k d) (elim (Bool-cases (in_rack k d)) [
      | inl e ↦ rw (e, occupied_by_step members d (select (in_rack k) ds), any-append, own, ih)
      | inr e ↦ rw e ih
    ])

-- The recomputed occupancy of a rack holds a unit exactly where some device is mounted in the rack, has
-- a position and covers the unit: from its lowest unit up to its height, in whole units and at least 1,
-- times the number of its stack members, which counts as 1 where it has none or is no stack.
pub any-occupied :
    (u k : ℕ) (db : Db)
    → any (λ x. x == u) (occupied db k)
      ≡ any (λ d. is_mounted_in k d.rack && covers db.stack_members d d.position u) db.devices
unfolding occupied
any-occupied u k db = any-occupied_by u k db.stack_members db.devices
