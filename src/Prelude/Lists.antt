-- ===== src/Prelude/Lists.antt =====
-- Lists measured and indexed by native numbers, Boolean quantifiers, and predicates by recursion.
use Prim.Native.Nat.{ℕ, zero, suc, ◌+◌, ◌-◌, ◌≤◌}
use mathlib.Core.Path.{◌≡◌, refl, ap}
use mathlib.Core.Logic.{◌⊎◌, inl, inr}
use mathlib.Core.Bool.{Bool, true, false, not, ◌||◌, ◌&&◌}
use mathlib.Core.List.{List, [], ◌∷◌, ◌++◌, map}
use mathlib.Core.Option.{Option, none, some}
use native.Mathlib.Omega.{arith}
use zas.Prelude.Tests.{if◌then◌else◌, Bool-cases}

module _ {ℓ} {A : Type ℓ} where
  abbrev pub length : List A → ℕ
  length [] = 0
  length (x ∷ xs) = suc (length xs)

  abbrev pub get_elem? : List A → ℕ → Option A
  get_elem? [] i = none
  get_elem? (x ∷ xs) zero = some x
  get_elem? (x ∷ xs) (suc i) = get_elem? xs i

  abbrev pub get_or : List A → ℕ → A → A
  get_or [] i d = d
  get_or (x ∷ xs) zero d = x
  get_or (x ∷ xs) (suc i) d = get_or xs i d

  abbrev pub take : ℕ → List A → List A
  take zero xs = []
  take (suc n) [] = []
  take (suc n) (x ∷ xs) = x ∷ take n xs

  abbrev pub drop : ℕ → List A → List A
  drop zero xs = xs
  drop (suc n) [] = []
  drop (suc n) (x ∷ xs) = drop n xs

  abbrev pub is_empty : List A → Bool
  is_empty [] = true
  is_empty (x ∷ xs) = false

  abbrev pub head? : List A → Option A
  head? [] = none
  head? (x ∷ xs) = some x

  pub length-append : (xs ys : List A) → length (xs ++ ys) ≡ length xs + length ys
  length-append [] ys = omega arith
  length-append (x ∷ xs) ys = omega (arith, length-append xs ys)

  pub length-drop : (n : ℕ) (xs : List A) → length (drop n xs) ≡ length xs - n
  length-drop zero xs = omega arith
  length-drop (suc n) [] = omega arith
  length-drop (suc n) (x ∷ xs) = omega (arith, length-drop n xs)

  -- the loops `any(p(x) for x in xs)` and `all(p(x) for x in xs)`
  abbrev pub any : (A → Bool) → List A → Bool
  any p [] = false
  any p (x ∷ xs) = p x || any p xs

  abbrev pub all : (A → Bool) → List A → Bool
  all p [] = true
  all p (x ∷ xs) = p x && all p xs

  -- a query set's `filter`
  abbrev pub select : (A → Bool) → List A → List A
  select p [] = []
  select p (x ∷ xs) = let rest = select p xs in if p x then x ∷ rest else rest

module _ {ℓ κ} {A : Type ℓ} where
  -- every element has `P`
  abbrev pub All : (A → Type κ) → List A → Type κ
  All P [] = Unit
  All P (x ∷ xs) = P x × All P xs

  pub All-append : (P : A → Type κ) (xs ys : List A) → All P xs → All P ys → All P (xs ++ ys)
  All-append P [] ys h k = k
  All-append P (x ∷ xs) ys h k = (h.0, All-append P xs ys h.1 k)

  pub All-append_left : (P : A → Type κ) (xs ys : List A) → All P (xs ++ ys) → All P xs
  All-append_left P [] ys h = tt
  All-append_left P (x ∷ xs) ys h = (h.0, All-append_left P xs ys h.1)

  pub All-append_right : (P : A → Type κ) (xs ys : List A) → All P (xs ++ ys) → All P ys
  All-append_right P [] ys h = h
  All-append_right P (x ∷ xs) ys h = All-append_right P xs ys h.1

  pub All-of : (P : A → Type κ) → ((x : A) → P x) → (xs : List A) → All P xs
  All-of P f [] = tt
  All-of P f (x ∷ xs) = (f x, All-of P f xs)

  pub All-map : (P Q : A → Type κ) → ((x : A) → P x → Q x) → (xs : List A) → All P xs → All Q xs
  All-map P Q f [] h = tt
  All-map P Q f (x ∷ xs) h = (f x h.0, All-map P Q f xs h.1)

  pub All-both : (P Q : A → Type κ) (xs : List A) → All P xs → All Q xs → All (λ x. P x × Q x) xs
  All-both P Q [] h k = tt
  All-both P Q (x ∷ xs) h k = ((h.0, k.0), All-both P Q xs h.1 k.1)

-- two quantifiers change places
pub All-swap :
    {A B : Type 0} (P : A → B → Type 0) (xs : List A) (ys : List B)
    → All (λ x. All (P x) ys) xs
    → All (λ y. All (λ x. P x y) xs) ys
All-swap P [] ys h = All-of _ (λ y. tt) ys
All-swap P (x ∷ xs) ys h = All-both _ _ ys h.0 (All-swap P xs ys h.1)

module _ {ℓ} {A : Type ℓ} where
  -- some element has `P`
  abbrev pub Some : (A → Type 0) → List A → Type 0
  Some P [] = ⊥
  Some P (x ∷ xs) = P x ⊎ Some P xs

  -- a second filter that drops only what the first drops
  pub select-select :
      (p q : A → Bool) (xs : List A)
      → All (λ x. (q x ≡ true) ⊎ (p x ≡ false)) xs
      → select p (select q xs) ≡ select p xs
  select-select p q [] h = refl
  select-select p q (x ∷ xs) h =
      let ih = select-select p q xs h.1 in
      elim (Bool-cases (q x)) [
        | inl keep ↦
            rw keep
              (elim (Bool-cases (p x)) [ inl e ↦ rw e (ap (λ l. x ∷ l) ih) | inr e ↦ rw e ih ])
        | inr drop ↦ rw drop (elim h.0 [ inl e ↦ cc (e, drop) | inr e ↦ rw e ih ])
      ]

  pub any-append : (p : A → Bool) (xs ys : List A) → any p (xs ++ ys) ≡ (any p xs || any p ys)
  any-append p [] ys = refl
  any-append p (x ∷ xs) ys = ground (arith, any-append p xs ys)

  -- what `select` drops is not there
  pub All-select-not :
      (p : A → Bool) (xs : List A) → All (λ x. p x ≡ false) (select (λ x. not (p x)) xs)
  All-select-not p [] = tt
  All-select-not p (x ∷ xs) = elim (Bool-cases (p x)) [
    | inl e ↦ rw e (All-select-not p xs)
    | inr e ↦ rw (e, e) (refl, All-select-not p xs)
  ]

  pub All-select-hit : (p : A → Bool) (xs : List A) → All (λ x. p x ≡ true) (select p xs)
  All-select-hit p [] = tt
  All-select-hit p (x ∷ xs) = elim (Bool-cases (p x)) [
    | inl e ↦ rw (e, e) (refl, All-select-hit p xs)
    | inr e ↦ rw e (All-select-hit p xs)
  ]

  pub length-select-select :
      (p q : A → Bool) (xs : List A) → length (select p (select q xs)) ≤ length (select p xs)
  length-select-select p q [] = omega arith
  length-select-select p q (x ∷ xs) =
      let ih = length-select-select p q xs in
      elim (Bool-cases (q x)) [
        | inl e ↦ elim (Bool-cases (p x)) [ inl h ↦ rw (e, h) (omega arith) | inr h ↦ rw (e, h) ih ]
        | inr e ↦ elim (Bool-cases (p x)) [ inl h ↦ rw (e, h) (omega arith) | inr h ↦ rw (e, h) ih ]
      ]

  -- at most one row still passes after a filter
  pub select-le_one :
      (p q : A → Bool) (xs : List A)
      → length (select p xs) ≤ 1
      → length (select p (select q xs)) ≤ 1
  select-le_one p q xs h = omega (arith, length-select-select p q xs)

pub All-select {ℓ κ} :
    {A : Type ℓ} (P : A → Type κ) (q : A → Bool) (xs : List A) → All P xs → All P (select q xs)
All-select P q [] h = tt
All-select P q (x ∷ xs) h = elim (Bool-cases (q x)) [
  | inl e ↦ rw e (h.0, All-select P q xs h.1)
  | inr e ↦ rw e (All-select P q xs h.1)
]

module _ {ℓ} {A : Type ℓ} where
  pub Some-append : (P : A → Type 0) (xs ys : List A) → Some P xs → Some P (xs ++ ys)
  Some-append P [] ys h = absurd h
  Some-append P (x ∷ xs) ys (inl h) = inl h
  Some-append P (x ∷ xs) ys (inr h) = inr (Some-append P xs ys h)

  pub Some-map :
      (P Q : A → Type 0) (f : A → A)
      → ((x : A) → P x → Q (f x))
      → (xs : List A) → Some P xs
      → Some Q (map f xs)
  Some-map P Q f step [] h = absurd h
  Some-map P Q f step (x ∷ xs) (inl h) = inl (step x h)
  Some-map P Q f step (x ∷ xs) (inr h) = inr (Some-map P Q f step xs h)

  pub Some-All : (P Q : A → Type 0) (xs : List A) → Some P xs → All Q xs → (x : A) × P x × Q x
  Some-All P Q [] h all = absurd h
  Some-All P Q (x ∷ xs) (inl h) all = (x, h, all.0)
  Some-All P Q (x ∷ xs) (inr h) all = Some-All P Q xs h all.1

  pub Some-select :
      (P : A → Type 0) (q : A → Bool) (xs : List A)
      → All (λ x. P x → q x ≡ true) xs
      → Some P xs
      → Some P (select q xs)
  Some-select P q [] keep h = h
  Some-select P q (x ∷ xs) keep (inl h) = rw (keep.0 h) (inl h)
  Some-select P q (x ∷ xs) keep (inr h) =
      let rest = Some-select P q xs keep.1 h in
      elim (Bool-cases (q x)) [ inl e ↦ rw e (inr rest) | inr e ↦ rw e rest ]

  -- what a filter leaves was there
  pub Some-select_of :
      (P : A → Type 0) (q : A → Bool) (xs : List A) → Some P (select q xs) → Some P xs
  Some-select_of P q [] h = h
  Some-select_of P q (x ∷ xs) h = elim (Bool-cases (q x)) [
    | inl e ↦ elim (rw e at h) [ inl own ↦ inl own | inr rest ↦ inr (Some-select_of P q xs rest) ]
    | inr e ↦ inr (Some-select_of P q xs (rw e at h))
  ]
