-- ===== src/Rack/Position.antt =====
-- The unit that the auto-assignment picks in a rack.
use zas.Prelude.{
  ℕ, zero, suc, ◌+◌, ◌-◌, ◌*◌, ◌/◌, ◌%◌, ◌≤◌, ◌<◌, ◌≡◌, refl, sym, ap, ◌∙◌, ◌⊎◌, inl, inr, Bool,
  true, false, not, ◌&&◌, Option, none, some, List, [], ◌∷◌, arith, ◌==◌, Bool-cases, select,
  length, get_elem?, All, All-map, Result, ok,
}
use zas.Dcim.{Rack}
use zas.Rack.{
  range_from, is_free, free_starts, in_tenths, choose, max_unit, select_position, PositionError,
}

abbrev InRange : (ℕ → Bool) → ℕ → ℕ → ℕ → Type 0
InRange p start count s = (p s ≡ true) × (start ≤ s) × (s < start + count)

All-range_from-select :
    (p : ℕ → Bool) (start count : ℕ)
    → All (InRange p start count) (select p (range_from start count))
unfolding range_from
All-range_from-select p start zero = tt
All-range_from-select p start (suc count) =
    let rest : All (InRange p start (suc count)) (select p (range_from (start + 1) count)) =
      All-map (InRange p (start + 1) count) (InRange p start (suc count))
        (λ s (e, l, u). (e, omega arith, omega arith)) (select p (range_from (start + 1) count))
        (All-range_from-select p (start + 1) count) in
    elim (Bool-cases (p start)) [
      | inl e ↦ rw e ((e, omega arith, omega arith), rest)
      | inr e ↦ rw e rest
    ]

start-lt : (p : ℕ → Bool) (s start : ℕ) → start ≤ s → p s ≡ true → p start ≡ false → start + 1 ≤ s
start-lt p s start l e miss = ground arith

-- A start of a free block is among the starts that are tried.
select-range_from :
    (p : ℕ → Bool) (s start count : ℕ)
    → start ≤ s
    → s < start + count
    → p s ≡ true
    → 0 < length (select p (range_from start count))
unfolding range_from
select-range_from p s start zero l u e = absurd (omega arith)
select-range_from p s start (suc count) l u e = elim (Bool-cases (p start)) [
  | inl hit ↦ rw hit (omega arith)
  | inr miss ↦
      rw miss
        (select-range_from p s (start + 1) count (start-lt p s start l e miss) (omega arith) e)
]

get_elem?_of_lt :
    {A : Type 0} (xs : List A) (i : ℕ) → i < length xs → (x : A) × (get_elem? xs i ≡ some x)
get_elem?_of_lt [] i h = elim h [ ]
get_elem?_of_lt (x ∷ xs) zero h = (x, refl)
get_elem?_of_lt (x ∷ xs) (suc i) h = get_elem?_of_lt xs i (omega arith)

get_elem?-All :
    {A : Type 0} (P : A → Type 0) (xs : List A) (i : ℕ) (x : A)
    → All P xs
    → get_elem? xs i ≡ some x
    → P x
get_elem?-All P [] i x h e = cc e
get_elem?-All P (y ∷ xs) zero x h e = ground (arith, h.0)
get_elem?-All P (y ∷ xs) (suc i) x h e = get_elem?-All P xs i x h.1 e

free_starts-All :
    (taken : List ℕ) (max_u required : ℕ)
    → All
        (λ s. (is_free taken s required ≡ true) × (1 ≤ s) × (s < 1 + (max_u + 1 - required)))
        (free_starts taken max_u required)
unfolding free_starts
free_starts-All taken max_u required =
    All-range_from-select (λ s. is_free taken s required) 1 (max_u + 1 - required)

ok-injective : {a b : ℕ} → ◌≡◌ {A = Result PositionError ℕ} (ok a) (ok b) → a ≡ b
ok-injective h = cc

in_tenths-eq-ok :
    (o : Option ℕ) (p : ℕ) → in_tenths o ≡ ok p → (s : ℕ) × (o ≡ some s) × (p ≡ s * 10)
unfolding in_tenths
in_tenths-eq-ok none p h = cc
in_tenths-eq-ok (some s) p h = (s, refl, ground arith)

choose_lem :
    (starts : List ℕ) (draw : ℕ)
    → choose starts draw ≡ in_tenths (get_elem? starts (draw % length starts))
unfolding choose
choose_lem starts draw = refl

choose_total :
    (starts : List ℕ) (draw : ℕ) → 0 < length starts → (p : ℕ) × (choose starts draw ≡ ok p)
choose_total starts draw h =
    let (s, e) = get_elem?_of_lt starts (draw % length starts) (grind arith) in
    (s * 10, rw (choose_lem starts draw, e) (unfold in_tenths in refl))

module _ (rack : Rack) (required draw : ℕ) where
  abbrev chosen : Result PositionError ℕ
  chosen = choose (free_starts rack.occupied_units (max_unit rack) required) draw

  -- the block from the position's unit up lies in the rack and is free
  abbrev FreeBlock : ℕ → Type 0
  FreeBlock p =
      (is_free rack.occupied_units (p / 10) required ≡ true)
      × (1 ≤ p / 10)
      × (p / 10 + required ≤ max_unit rack + 1)

  chosen_sound : (p : ℕ) → chosen ≡ ok p → FreeBlock p
  chosen_sound p h =
      let starts = free_starts rack.occupied_units (max_unit rack) required in
      let (s, e, q) = in_tenths-eq-ok _ p (rw (choose_lem starts draw) at h) in
      let (free, low, high) =
        get_elem?-All _ _ _ s (free_starts-All rack.occupied_units (max_unit rack) required) e in
      let unit : p / 10 ≡ s = omega arith in (rw unit free, omega arith, omega arith)

  abbrev granted : ℕ → Bool
  granted t = not (t == 0) && is_free rack.occupied_units (t / 10) required

  select-granted : (t : ℕ) → granted t ≡ true → select_position rack (some t) required draw ≡ ok t
  unfolding select_position
  select-granted t e = rw e

  select-refused :
      (t : ℕ) → granted t ≡ false → select_position rack (some t) required draw ≡ chosen
  unfolding select_position
  select-refused t e = rw e

  granted_free : (t : ℕ) → granted t ≡ true → is_free rack.occupied_units (t / 10) required ≡ true
  granted_free t e = ground arith

  -- The unit that is returned starts a free block of the required size that lies in the rack, or it is
  -- the unit that was asked for, where the block is free too.
  pub select_position_sound :
      (requested : Option ℕ) (p : ℕ)
      → select_position rack requested required draw ≡ ok p
      → FreeBlock p ⊎ (requested ≡ some p) × (is_free rack.occupied_units (p / 10) required ≡ true)
  select_position_sound none p h = inl (chosen_sound p (unfold select_position in h))
  select_position_sound (some t) p h = elim (Bool-cases (granted t)) [
    | inl e ↦
        let same : t ≡ p = ok-injective (sym (select-granted t e) ∙ h) in
        inr (ap some same, rw same at (granted_free t e))
    | inr e ↦ inl (chosen_sound p (sym (select-refused t e) ∙ h))
  ]

  free_starts_nonempty :
      (start : ℕ)
      → FreeBlock (start * 10)
      → 0 < length (free_starts rack.occupied_units (max_unit rack) required)
  unfolding free_starts
  free_starts_nonempty start h =
      let unit : start * 10 / 10 ≡ start = omega arith in
      select-range_from (λ s. is_free rack.occupied_units s required) start 1
        (max_unit rack + 1 - required) (omega arith) (omega arith) (rw unit at h.0)

  -- Where some free block of the required size lies in the rack, a unit is returned, whatever unit was
  -- asked for and whatever number is drawn.
  pub select_position_total :
      (requested : Option ℕ) (start : ℕ)
      → FreeBlock (start * 10)
      → (p : ℕ) × (select_position rack requested required draw ≡ ok p)
  select_position_total none start h =
      unfold select_position in choose_total _ draw (free_starts_nonempty start h)
  select_position_total (some t) start h = elim (Bool-cases (granted t)) [
    | inl e ↦ (t, select-granted t e)
    | inr e ↦ rw (select-refused t e) (choose_total _ draw (free_starts_nonempty start h))
  ]

is_free_empty : (start count : ℕ) → is_free [] start count ≡ true
unfolding is_free range_from
is_free_empty start zero = refl
is_free_empty start (suc count) = is_free_empty (start + 1) count

-- In an empty rack every unit other than 0 that is asked for is returned, also one above the rack's
-- height.
pub select_position_above_rack :
    (rack : Rack) (t required draw : ℕ)
    → rack.occupied_units ≡ []
    → max_unit rack < t / 10
    → select_position rack (some t) required draw ≡ ok t
unfolding select_position
select_position_above_rack rack t required draw e above =
    rw e (ground (arith, is_free_empty (t / 10) required))
