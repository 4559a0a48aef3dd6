-- ===== src/Diff/Roundtrip.antt =====
-- What the columns of a visual difference hold.
use mathlib.Core.List.{append_assoc, append-nil}
use zas.Prelude.{
  ℕ, zero, suc, ◌+◌, ◌-◌, ◌≤◌, ◌≡◌, refl, sym, ap, ◌∙◌, List, [], ◌∷◌, ◌++◌, arith, Option, some,
  length, take, drop,
}
use zas.Text.{Text}
use zas.Diff.{
  Tag, equal, replace, delete, insert, Opcode, VisualDiff, no_diff, slice, apply_opcode,
  apply_opcodes, lines_of, generate_visual_diff,
}
use zas.Diff.Columns.{
  kept, kept-append, IsAligned, Shows, Shows-to, equal_rows-Shows, replace_rows-Shows,
  delete_rows-Shows, insert_rows-Shows,
}

-- What the documentation of `get_opcodes` says of a tuple with this tag.
abbrev Fits : List Text → List Text → Tag → Opcode → Type 0
Fits old new equal o = slice old o.i1 o.i2 ≡ slice new o.j1 o.j2
Fits old new replace o = Unit
Fits old new delete o = o.j1 ≡ o.j2
Fits old new insert o = o.i1 ≡ o.i2

-- the opcode takes up at these lines and stays within the texts
abbrev pub IsNext : List Text → List Text → ℕ → ℕ → Opcode → Type 0
IsNext old new i j o =
    ((o.i1 ≡ i) × ((o.i1 ≤ o.i2) × (o.i2 ≤ length old)))
    × ((o.j1 ≡ j) × ((o.j1 ≤ o.j2) × (o.j2 ≤ length new)))
    × Fits old new o.tag o

-- The opcodes take up at these lines, follow one another without a gap, and end with the texts.
abbrev pub Covers : List Text → List Text → ℕ → ℕ → List Opcode → Type 0
Covers old new i j [] = (i ≡ length old) × (j ≡ length new)
Covers old new i j (o ∷ ops) = IsNext old new i j o × Covers old new o.i2 o.j2 ops

length-take : (n : ℕ) (xs : List Text) → n ≤ length xs → length (take n xs) ≡ n
length-take zero xs h = refl
length-take (suc n) [] h = absurd (omega (arith, h))
length-take (suc n) (x ∷ xs) h = omega (arith, length-take n xs (omega (arith, h)))

length-drop_add : (n : ℕ) (xs : List Text) → n ≤ length xs → length (drop n xs) + n ≡ length xs
length-drop_add zero xs h = omega arith
length-drop_add (suc n) [] h = absurd (omega (arith, h))
length-drop_add (suc n) (x ∷ xs) h = omega (arith, length-drop_add n xs (omega (arith, h)))

length-slice : (xs : List Text) (i k : ℕ) → i ≤ k → k ≤ length xs → length (slice xs i k) ≡ k - i
unfolding slice
length-slice xs i k h le =
    length-take (k - i) (drop i xs)
      (omega (arith, h, le, length-drop_add i xs (omega (arith, h, le))))

take-drop : (n : ℕ) (xs : List Text) → take n xs ++ drop n xs ≡ xs
take-drop zero xs = refl
take-drop (suc n) [] = refl
take-drop (suc n) (x ∷ xs) = ap (λ z. x ∷ z) (take-drop n xs)

drop-nil : (n : ℕ) → drop {A = Text} n [] ≡ []
drop-nil zero = refl
drop-nil (suc n) = refl

drop-drop : (n i k : ℕ) (xs : List Text) → k ≡ n + i → drop n (drop i xs) ≡ drop k xs
drop-drop n zero k xs h = ap (λ m. drop m xs) (omega (arith, h))
drop-drop n (suc i) zero xs h = absurd (omega (arith, h))
drop-drop n (suc i) (suc k) [] h = drop-nil n
drop-drop n (suc i) (suc k) (x ∷ xs) h = drop-drop n i k xs (omega (arith, h))

slice-drop : (xs : List Text) (i k : ℕ) → i ≤ k → slice xs i k ++ drop k xs ≡ drop i xs
unfolding slice
slice-drop xs i k h =
    ap (λ z. take (k - i) (drop i xs) ++ z) (sym (drop-drop (k - i) i k xs (omega (arith, h))))
    ∙ take-drop (k - i) (drop i xs)

slice_none : (xs : List Text) (i k : ℕ) → i ≡ k → slice xs i k ≡ []
unfolding slice
slice_none xs i k h = ap (λ n. take n (drop i xs)) {y = 0} (omega (arith, h))

drop_all : (xs : List Text) (n : ℕ) → n ≡ length xs → drop n xs ≡ []
drop_all [] zero h = refl
drop_all [] (suc n) h = refl
drop_all (x ∷ xs) zero h = absurd (omega (arith, h))
drop_all (x ∷ xs) (suc n) h = drop_all xs n (omega (arith, h))

equal_opcode-Shows :
    (old new : List Text) (o : Opcode) (d : VisualDiff) {l r : List Text} {i j : ℕ}
    → ((o.i1 ≡ i) × ((o.i1 ≤ o.i2) × (o.i2 ≤ length old)))
    → ((o.j1 ≡ j) × ((o.j1 ≤ o.j2) × (o.j2 ≤ length new)))
    → slice old o.i1 o.i2 ≡ slice new o.j1 o.j2
    → Shows d l r
    → (d' : VisualDiff) × (apply_opcode old new equal o d ≡ some d')
      × Shows d' (l ++ kept (slice old o.i1 o.i2)) (r ++ kept (slice new o.j1 o.j2))
equal_opcode-Shows old new o d {l} {r} hi hj same h =
    let size : o.i2 - o.i1 ≡ o.j2 - o.j1 =
      sym (length-slice old o.i1 o.i2 hi.1.0 hi.1.1)
      ∙ ap length same
      ∙ length-slice new o.j1 o.j2 hj.1.0 hj.1.1 in
    let (d', e, shown) =
      equal_rows-Shows old new o.i1 o.j1 (o.i2 - o.i1) d (omega (arith, hi))
        (omega (arith, hi, hj, size)) h in
    unfold apply_opcode slice in
    (d', e, Shows-to d' shown refl (ap (λ n. r ++ kept (take n (drop o.j1 new))) size))

apply_opcode-Shows :
    (old new : List Text) (t : Tag) (o : Opcode) (d : VisualDiff) {l r : List Text} {i j : ℕ}
    → ((o.i1 ≡ i) × ((o.i1 ≤ o.i2) × (o.i2 ≤ length old)))
    → ((o.j1 ≡ j) × ((o.j1 ≤ o.j2) × (o.j2 ≤ length new)))
    → Fits old new t o
    → Shows d l r
    → (d' : VisualDiff) × (apply_opcode old new t o d ≡ some d')
      × Shows d' (l ++ kept (slice old o.i1 o.i2)) (r ++ kept (slice new o.j1 o.j2))
unfolding apply_opcode
apply_opcode-Shows old new equal o d hi hj fits h = equal_opcode-Shows old new o d hi hj fits h
apply_opcode-Shows old new replace o d hi hj fits h =
    (_, refl, replace_rows-Shows (slice old o.i1 o.i2) (slice new o.j1 o.j2) d h)
apply_opcode-Shows old new delete o d {l} {r} hi hj fits h = (
  _,
  refl,
  rw (slice_none new o.j1 o.j2 fits)
      (Shows-to _ (delete_rows-Shows (slice old o.i1 o.i2) d h) refl (sym (append-nil r))),
)
apply_opcode-Shows old new insert o d {l} {r} hi hj fits h = (
  _,
  refl,
  rw (slice_none old o.i1 o.i2 fits)
      (Shows-to _ (insert_rows-Shows (slice new o.j1 o.j2) d h) (sym (append-nil l)) refl),
)

apply_opcodes-step :
    (old new : List Text) (o : Opcode) (ops : List Opcode) (d : VisualDiff) {d' : VisualDiff}
    → apply_opcode old new o.tag o d ≡ some d'
    → apply_opcodes old new (o ∷ ops) d ≡ apply_opcodes old new ops d'
unfolding apply_opcodes
apply_opcodes-step old new o ops d e = rw (e, apply_opcodes)

kept-slice :
    (l xs : List Text) (i i1 k : ℕ)
    → i1 ≡ i
    → i1 ≤ k
    → l ++ kept (slice xs i1 k) ++ kept (drop k xs) ≡ l ++ kept (drop i xs)
kept-slice l xs i i1 k e h =
    append_assoc l (kept (slice xs i1 k)) (kept (drop k xs))
    ∙ ap (λ z. l ++ z)
        (sym (kept-append (slice xs i1 k) (drop k xs))
          ∙ ap kept (slice-drop xs i1 k h ∙ ap (λ n. drop n xs) e))

kept-drop_all : (l xs : List Text) (n : ℕ) → n ≡ length xs → l ≡ l ++ kept (drop n xs)
kept-drop_all l xs n h = rw (drop_all xs n h) (sym (append-nil l))

apply_opcodes-Shows :
    (old new : List Text) (i j : ℕ) (ops : List Opcode) (d : VisualDiff) {l r : List Text}
    → Covers old new i j ops
    → Shows d l r
    → (d' : VisualDiff) × (apply_opcodes old new ops d ≡ some d')
      × Shows d' (l ++ kept (drop i old)) (r ++ kept (drop j new))
apply_opcodes-Shows old new i j [] d {l} {r} c h = (
  d,
  unfold apply_opcodes in refl,
  Shows-to d h (kept-drop_all l old i c.0) (kept-drop_all r new j c.1),
)
apply_opcodes-Shows old new i j (o ∷ ops) d {l} {r} c h =
    let (hi, hj, fits) = c.0 in
    let (d1, e1, shown1) = apply_opcode-Shows old new o.tag o d hi hj fits h in
    let (d', e, shown) = apply_opcodes-Shows old new o.i2 o.j2 ops d1 c.1 shown1 in
    (
      d',
      apply_opcodes-step old new o ops d e1 ∙ e,
      Shows-to d' shown (kept-slice l old i o.i1 o.i2 hi.0 hi.1.0)
          (kept-slice r new j o.j1 o.j2 hj.0 hj.1.0),
    )

-- When the opcodes cover the lines of both texts without a gap, as difflib documents, the visual
-- difference raises no error, its four columns have the same length, and what is not empty in the left
-- column is what is not empty in the old text, in its order; so for the right column and the new text.
pub generate_visual_diff_lem :
    (opcodes : List Text → List Text → List Opcode) (old_config new_config : Option Text)
    → Covers
        (lines_of old_config)
        (lines_of new_config)
        0
        0
        (opcodes (lines_of old_config) (lines_of new_config))
    → (d : VisualDiff) × (generate_visual_diff opcodes old_config new_config ≡ some d)
      × (kept d.left_lines ≡ kept (lines_of old_config))
      × (kept d.right_lines ≡ kept (lines_of new_config))
      × IsAligned d
unfolding generate_visual_diff
generate_visual_diff_lem opcodes old_config new_config c =
    let old = lines_of old_config in
    let new = lines_of new_config in
    let (d, e, shown) =
      apply_opcodes-Shows old new 0 0 (opcodes old new) no_diff {l = []} {r = []} c
        (refl, refl, (refl, refl, refl)) in
    (d, e, shown.0, shown.1, shown.2)
