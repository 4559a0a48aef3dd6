-- ===== src/Diff/Columns.antt =====
-- The columns of the rows that one opcode adds to a visual difference.
use mathlib.Core.List.{append_assoc, append-nil}
use zas.Prelude.{
  ℕ, zero, suc, ◌+◌, ◌≤◌, ◌≡◌, refl, sym, ap, ◌∙◌, not, List, [], ◌∷◌, ◌++◌, arith, max, length,
  length-append, get_or, is_empty, select, some, get_elem?, take, drop,
}
use zas.Text.{Text}
use zas.Diff.{
  DiffClass, diff_context, diff_removed, diff_added, changed_class, VisualDiff, append_pair,
  replace_rows, delete_rows, insert_rows, equal_rows,
}

-- the lines that are not empty
abbrev pub kept : List Text → List Text
kept lines = select (λ line. not (is_empty line)) lines

pub kept-append : (xs ys : List Text) → kept (xs ++ ys) ≡ kept xs ++ kept ys
kept-append [] ys = refl
kept-append (x ∷ xs) ys = ground (arith, kept-append xs ys)

-- the four columns have the same length
abbrev pub IsAligned : VisualDiff → Type 0
IsAligned d =
    (length d.right_lines ≡ length d.left_lines)
    × (length d.left_classes ≡ length d.left_lines)
    × (length d.right_classes ≡ length d.left_lines)

-- the columns are aligned, and the left and the right one show these lines
abbrev pub Shows : VisualDiff → List Text → List Text → Type 0
Shows d l r = (kept d.left_lines ≡ l) × (kept d.right_lines ≡ r) × IsAligned d

length-snoc : {A : Type 0} (xs : List A) (x : A) → length (xs ++ x ∷ []) ≡ length xs + 1
length-snoc xs x = omega (arith, length-append xs (x ∷ []))

Shows-append_pair :
    (a b : Text) (c e : DiffClass) (d : VisualDiff) {l r : List Text}
    → Shows d l r
    → Shows (append_pair a b c e d) (l ++ kept (a ∷ [])) (r ++ kept (b ∷ []))
unfolding append_pair
Shows-append_pair a b c e d h = (
  kept-append d.left_lines (a ∷ []) ∙ ap (λ z. z ++ kept (a ∷ [])) h.0,
  kept-append d.right_lines (b ∷ []) ∙ ap (λ z. z ++ kept (b ∷ [])) h.1,
  (
    rw (length-snoc d.right_lines b, length-snoc d.left_lines a) (ap (λ n. n + 1) h.2.0),
    rw (length-snoc d.left_classes c, length-snoc d.left_lines a) (ap (λ n. n + 1) h.2.1),
    rw (length-snoc d.right_classes e, length-snoc d.left_lines a) (ap (λ n. n + 1) h.2.2),
  ),
)

kept-next :
    (l : List Text) (x : Text) (xs : List Text) → l ++ kept (x ∷ []) ++ kept xs ≡ l ++ kept (x ∷ xs)
kept-next l x xs =
    append_assoc l (kept (x ∷ [])) (kept xs) ∙ ap (λ z. l ++ z) (sym (kept-append (x ∷ []) xs))

pub Shows-to :
    (d : VisualDiff) {l r l' r' : List Text} → Shows d l r → l ≡ l' → r ≡ r' → Shows d l' r'
Shows-to d h e f = (h.0 ∙ e, h.1 ∙ f, h.2)

pub delete_rows-Shows :
    (lines : List Text) (d : VisualDiff) {l r : List Text}
    → Shows d l r
    → Shows (delete_rows lines d) (l ++ kept lines) r
unfolding delete_rows
delete_rows-Shows [] d {l} h = Shows-to d h (sym (append-nil l)) refl
delete_rows-Shows (line ∷ lines) d {l} {r} h =
    let d' = append_pair line [] diff_removed diff_context d in
    let next = Shows-append_pair line [] diff_removed diff_context d h in
    Shows-to (delete_rows lines d') (delete_rows-Shows lines d' next) (kept-next l line lines)
      (append-nil r)

pub insert_rows-Shows :
    (lines : List Text) (d : VisualDiff) {l r : List Text}
    → Shows d l r
    → Shows (insert_rows lines d) l (r ++ kept lines)
unfolding insert_rows
insert_rows-Shows [] d {r = r} h = Shows-to d h refl (sym (append-nil r))
insert_rows-Shows (line ∷ lines) d {l} {r} h =
    let d' = append_pair [] line diff_context diff_added d in
    let next = Shows-append_pair [] line diff_context diff_added d h in
    Shows-to (insert_rows lines d') (insert_rows-Shows lines d' next) (append-nil l)
      (kept-next r line lines)

-- the block from an index on, with empty lines after its end
abbrev padded : List Text → ℕ → ℕ → List Text
padded block idx zero = []
padded block idx (suc n) = get_or block idx [] ∷ padded block (suc idx) n

replace_rows-padded :
    (old_block new_block : List Text) (idx n : ℕ) (d : VisualDiff) {l r : List Text}
    → Shows d l r
    → Shows
        (replace_rows old_block new_block idx n d)
        (l ++ kept (padded old_block idx n))
        (r ++ kept (padded new_block idx n))
unfolding replace_rows
replace_rows-padded old_block new_block idx zero d {l} {r} h =
    Shows-to d h (sym (append-nil l)) (sym (append-nil r))
replace_rows-padded old_block new_block idx (suc n) d {l} {r} h =
    let a = get_or old_block idx [] in
    let b = get_or new_block idx [] in
    let d' = append_pair a b (changed_class a) (changed_class b) d in
    let next = Shows-append_pair a b (changed_class a) (changed_class b) d h in
    Shows-to (replace_rows old_block new_block (suc idx) n d')
      (replace_rows-padded old_block new_block (suc idx) n d' next)
      (kept-next l a (padded old_block (suc idx) n)) (kept-next r b (padded new_block (suc idx) n))

padded-shift :
    (x : Text) (block : List Text) (idx n : ℕ) → padded (x ∷ block) (suc idx) n ≡ padded block idx n
padded-shift x block idx zero = refl
padded-shift x block idx (suc n) =
    ap (λ z. get_or block idx [] ∷ z) (padded-shift x block (suc idx) n)

kept-blank : (idx n : ℕ) → kept (padded [] idx n) ≡ []
kept-blank idx zero = refl
kept-blank idx (suc n) = kept-blank (suc idx) n

kept-padded : (block : List Text) (n : ℕ) → length block ≤ n → kept (padded block 0 n) ≡ kept block
kept-padded [] n h = kept-blank 0 n
kept-padded (x ∷ block) zero h = absurd (omega (arith, h))
kept-padded (x ∷ block) (suc n) h =
    let rest = ap kept (padded-shift x block 0 n) ∙ kept-padded block n (omega (arith, h)) in
    kept-append (x ∷ []) (padded (x ∷ block) 1 n)
    ∙ ap (λ z. kept (x ∷ []) ++ z) rest
    ∙ sym (kept-append (x ∷ []) block)

pub replace_rows-Shows :
    (old_block new_block : List Text) (d : VisualDiff) {l r : List Text}
    → Shows d l r
    → Shows
        (replace_rows old_block new_block 0 (max (length old_block) (length new_block)) d)
        (l ++ kept old_block)
        (r ++ kept new_block)
replace_rows-Shows old_block new_block d {l} {r} h =
    let n = max (length old_block) (length new_block) in
    Shows-to (replace_rows old_block new_block 0 n d)
      (replace_rows-padded old_block new_block 0 n d h)
      (ap (λ z. l ++ z) (kept-padded old_block n (omega arith)))
      (ap (λ z. r ++ z) (kept-padded new_block n (omega arith)))

get_elem?-drop :
    (xs : List Text) (i : ℕ)
    → suc i ≤ length xs
    → (x : Text) × (get_elem? xs i ≡ some x) × (drop i xs ≡ x ∷ drop (suc i) xs)
get_elem?-drop [] i h = absurd (omega (arith, h))
get_elem?-drop (x ∷ xs) zero h = (x, refl, refl)
get_elem?-drop (x ∷ xs) (suc i) h = get_elem?-drop xs i (omega (arith, h))

equal_rows-step :
    (old new : List Text) (i j n : ℕ) (d : VisualDiff) {a b : Text}
    → get_elem? old i ≡ some a
    → get_elem? new j ≡ some b
    → equal_rows old new i j (suc n) d
      ≡ equal_rows old new (suc i) (suc j) n (append_pair a b diff_context diff_context d)
unfolding equal_rows
equal_rows-step old new i j n d e f = rw (e, f, equal_rows)

pub equal_rows-Shows :
    (old new : List Text) (i j n : ℕ) (d : VisualDiff) {l r : List Text}
    → i + n ≤ length old
    → j + n ≤ length new
    → Shows d l r
    → (d' : VisualDiff) × (equal_rows old new i j n d ≡ some d')
      × Shows d' (l ++ kept (take n (drop i old))) (r ++ kept (take n (drop j new)))
equal_rows-Shows old new i j zero d {l} {r} hi hj h =
    (d, unfold equal_rows in refl, Shows-to d h (sym (append-nil l)) (sym (append-nil r)))
equal_rows-Shows old new i j (suc n) d {l} {r} hi hj h =
    let (a, ea, da) = get_elem?-drop old i (omega (arith, hi)) in
    let (b, eb, db) = get_elem?-drop new j (omega (arith, hj)) in
    let d1 = append_pair a b diff_context diff_context d in
    let (d', e, shown) =
      equal_rows-Shows old new (suc i) (suc j) n d1 (omega (arith, hi)) (omega (arith, hj))
        (Shows-append_pair a b diff_context diff_context d h) in
    (
      d',
      equal_rows-step old new i j n d ea eb ∙ e,
      rw (da, db)
          (Shows-to d' shown (kept-next l a (take n (drop (suc i) old)))
            (kept-next r b (take n (drop (suc j) new)))),
    )
