-- ===== src/Diff/Tests.antt =====
-- Tests of the visual difference, and the theorem on it at two concrete texts.
use zas.Prelude.{◌≡◌, refl, none, some, Option, List, [], ◌∷◌, arith}
use zas.Text.{Text, codes, split_lines, join, starts_with, prepend, is_line_break}
use zas.Diff.{
  Opcode, equal, replace, insert, VisualDiff, diff_context, diff_changed, diff_removed, diff_added,
  lines_of, slice, generate_visual_diff, generate_diff, append_pair, delete_rows,
}
use zas.Diff.Columns.{kept, IsAligned}
use zas.Diff.Roundtrip.{Covers, generate_visual_diff_lem}

abbrev old_config : Option Text
old_config = some (codes "a\nb\nc\nx")

abbrev new_config : Option Text
new_config = some (codes "a\nB\n\nx\nz")

-- what difflib returns for the two texts
abbrev opcodes : List Text → List Text → List Opcode
opcodes old new =
    record { tag = equal; i1 = 0; i2 = 1; j1 = 0; j2 = 1 }
    ∷ record { tag = replace; i1 = 1; i2 = 3; j1 = 1; j2 = 3 }
    ∷ record { tag = equal; i1 = 3; i2 = 4; j1 = 3; j2 = 4 }
    ∷ record { tag = insert; i1 = 4; i2 = 4; j1 = 4; j2 = 5 }
    ∷ []

rows_test :
    generate_visual_diff opcodes old_config new_config
    ≡ some (record {
      left_lines = codes "a" ∷ codes "b" ∷ codes "c" ∷ codes "x" ∷ [] ∷ [];
      right_lines = codes "a" ∷ codes "B" ∷ [] ∷ codes "x" ∷ codes "z" ∷ [];
      left_classes = diff_context ∷ diff_changed ∷ diff_changed ∷ diff_context ∷ diff_context ∷ [];
      right_classes = diff_context ∷ diff_changed ∷ diff_context ∷ diff_context ∷ diff_added ∷ [];
    })
unfolding generate_visual_diff split_lines
rows_test = refl

deleted_test :
    delete_rows
      (codes "b" ∷ [])
      (record { left_lines = []; right_lines = []; left_classes = []; right_classes = [] })
    ≡ record {
      left_lines = codes "b" ∷ [];
      right_lines = [] ∷ [];
      left_classes = diff_removed ∷ [];
      right_classes = diff_context ∷ [];
    }
unfolding delete_rows append_pair
deleted_test = refl

-- the lines keep their ends; a carriage return stays with the line feed
unified_test : generate_diff (λ old new. new) none (some (codes "a\r\nb\n")) ≡ codes "a\r\n\nb\n"
unfolding generate_diff join starts_with prepend is_line_break
unified_test = refl

opcodes-Covers :
    Covers
      (lines_of old_config)
      (lines_of new_config)
      0
      0
      (opcodes (lines_of old_config) (lines_of new_config))
unfolding lines_of split_lines slice
opcodes-Covers = (
  ((refl, (omega arith, omega arith)), (refl, (omega arith, omega arith)), refl),
  (
    ((refl, (omega arith, omega arith)), (refl, (omega arith, omega arith)), tt),
    (
      ((refl, (omega arith, omega arith)), (refl, (omega arith, omega arith)), refl),
      (
        ((refl, (omega arith, omega arith)), (refl, (omega arith, omega arith)), refl),
        (refl, refl),
      ),
    ),
  ),
)

generate_visual_diff_example :
    (d : VisualDiff) × (generate_visual_diff opcodes old_config new_config ≡ some d)
    × (kept d.left_lines ≡ kept (lines_of old_config))
    × (kept d.right_lines ≡ kept (lines_of new_config))
    × IsAligned d
generate_visual_diff_example = generate_visual_diff_lem opcodes old_config new_config opcodes-Covers
