-- ===== src/Prelude/Rows.antt =====
-- Tables of rows that carry a primary key.
use Prim.Native.Nat.{ℕ}
use mathlib.Core.Path.{◌≡◌}
use mathlib.Core.Logic.{◌⊎◌, inl, inr}
use mathlib.Core.Bool.{Bool, true, false}
use mathlib.Core.List.{List, [], ◌∷◌}
use mathlib.Core.Option.{Option, none, some}
use native.Mathlib.Omega.{arith}
use zas.Prelude.Tests.{◌==◌, if◌then◌else◌, Bool-cases}
use zas.Prelude.Lists.{All}

module _ {R : Type 0} (pk : R → ℕ) where
  -- the row of a table with primary key `k`: `filter(pk=k).first()`
  abbrev pub find_row : ℕ → List R → Option R
  find_row k [] = none
  find_row k (r ∷ rs) = if pk r == k then some r else find_row k rs

  -- `save()`: the row with the same primary key is replaced, or the row is added.
  abbrev pub write_row : R → List R → List R
  write_row r [] = r ∷ []
  write_row r (s ∷ rs) = if pk s == pk r then r ∷ rs else s ∷ write_row r rs

  -- the primary keys are all different
  abbrev pub KeysUnique : List R → Type 0
  KeysUnique [] = Unit
  KeysUnique (r ∷ rs) = All (λ s. (pk s == pk r) ≡ false) rs × KeysUnique rs

-- A table in which no two rows clash, where a row does not clash with itself.
module _ {R : Type 0} (pk : R → ℕ) (clash : R → R → Bool) where
  abbrev pub Alone : R → List R → Type 0
  Alone a rs = All (λ r. ((pk r == pk a) ≡ true) ⊎ (clash r a ≡ false)) rs

  abbrev pub NoClash : List R → Type 0
  NoClash [] = Unit
  NoClash (r ∷ rs) = Alone r rs × NoClash rs

  Alone-write :
      (a r : R) (rs : List R)
      → ((pk r == pk a) ≡ true) ⊎ (clash r a ≡ false)
      → Alone a rs
      → Alone a (write_row pk r rs)
  Alone-write a r [] own h = (own, tt)
  Alone-write a r (s ∷ rs) own h =
      let rest = Alone-write a r rs own h.1 in
      elim (Bool-cases (pk s == pk r)) [ inl e ↦ rw e (own, h.1) | inr e ↦ rw e (h.0, rest) ]

  module _ (symmetric : (a b : R) → clash a b ≡ clash b a) where
    flip :
        (a b : R)
        → ((pk a == pk b) ≡ true) ⊎ (clash a b ≡ false)
        → ((pk b == pk a) ≡ true) ⊎ (clash b a ≡ false)
    flip a b (inl e) = inl (ground arith)
    flip a b (inr e) = inr (rw (symmetric b a) e)

    pub NoClash-write :
        (r : R) (rs : List R) → Alone r rs → NoClash rs → NoClash (write_row pk r rs)
    NoClash-write r [] h u = (tt, tt)
    NoClash-write r (s ∷ rs) h u =
        let rest = NoClash-write r rs h.1 u.1 in
        elim (Bool-cases (pk s == pk r)) [
          | inl e ↦ rw e (h.1, u.1)
          | inr e ↦ rw e (Alone-write s r rs (flip s r h.0) u.0, rest)
        ]

module _ {R : Type 0} (pk : R → ℕ) where
  pub find_row-write_self : (r : R) (rs : List R) → find_row pk (pk r) (write_row pk r rs) ≡ some r
  find_row-write_self r [] = ground arith
  find_row-write_self r (s ∷ rs) = ground (arith, find_row-write_self r rs)

  pub find_row-key : (k : ℕ) (rs : List R) (r : R) → find_row pk k rs ≡ some r → pk r ≡ k
  find_row-key k [] r h = cc
  find_row-key k (s ∷ rs) r h = elim (Bool-cases (pk s == k)) [
    | inl e ↦ ground (arith, e, h)
    | inr e ↦ find_row-key k rs r (rw e at h)
  ]
