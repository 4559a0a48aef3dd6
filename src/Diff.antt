-- ===== src/Diff.antt =====
-- The side-by-side difference of two configurations (automation/engine/diff_engine.py). The opcodes of
-- difflib's SequenceMatcher and the lines of its unified_diff are parameters.
pub mod Columns
pub mod Roundtrip
mod Tests
use zas.Prelude.{
  ℕ, zero, suc, ◌+◌, ◌-◌, Bool, Option, none, some, List, [], ◌∷◌, ◌++◌, max, length, get_elem?,
  get_or, take, drop, is_empty, if◌then◌else◌, or_else, not, ◌==◌, ◌&&◌,
}
use zas.Text.{Text, codes, split_lines, join, starts_with, is_line_break, prepend}
use zas.Configs.{DeviceConfiguration}

pub data Tag : Type 0 where
  equal : Tag
  replace : Tag
  delete : Tag
  insert : Tag

-- One tuple of `get_opcodes`.
pub record Opcode : Type 0 where
  pub tag : Tag
  pub i1 : ℕ
  pub i2 : ℕ
  pub j1 : ℕ
  pub j2 : ℕ

pub data DiffClass : Type 0 where
  diff_context : DiffClass
  diff_changed : DiffClass
  diff_removed : DiffClass
  diff_added : DiffClass

pub record VisualDiff : Type 0 where
  pub left_lines : List Text
  pub right_lines : List Text
  pub left_classes : List DiffClass
  pub right_classes : List DiffClass

abbrev pub no_diff : VisualDiff
no_diff = record { left_lines = []; right_lines = []; left_classes = []; right_classes = [] }

-- _normalized_text: `value or ""`
normalized_text : Option Text → Text
normalized_text value = or_else value []

pub append_pair : Text → Text → DiffClass → DiffClass → VisualDiff → VisualDiff
append_pair left right left_class right_class d = record {
  left_lines = d.left_lines ++ left ∷ [];
  right_lines = d.right_lines ++ right ∷ [];
  left_classes = d.left_classes ++ left_class ∷ [];
  right_classes = d.right_classes ++ right_class ∷ [];
}

-- `xs[i:j]`
pub slice : List Text → ℕ → ℕ → List Text
slice xs i j = take (j - i) (drop i xs)

-- `n` turns of the loop of the tag "equal"; `none` is an IndexError
pub equal_rows : List Text → List Text → ℕ → ℕ → ℕ → VisualDiff → Option VisualDiff
unfolding append_pair
equal_rows old new i j zero d = some d
equal_rows old new i j (suc n) d = elim (get_elem? old i) [
  | none ↦ none
  | some left ↦ elim (get_elem? new j) [
    | none ↦ none
    | some right ↦
        equal_rows old new (suc i) (suc j) n (append_pair left right diff_context diff_context d)
  ]
]

changed_class : Text → DiffClass
changed_class line = if is_empty line then diff_context else diff_changed

-- `n` turns of the loop of the tag "replace", from the index `idx`
pub replace_rows : List Text → List Text → ℕ → ℕ → VisualDiff → VisualDiff
unfolding append_pair changed_class
replace_rows old_block new_block idx zero d = d
replace_rows old_block new_block idx (suc n) d =
    let left = get_or old_block idx [] in
    let right = get_or new_block idx [] in
    replace_rows old_block new_block (suc idx) n
      (append_pair left right (changed_class left) (changed_class right) d)

pub delete_rows : List Text → VisualDiff → VisualDiff
unfolding append_pair
delete_rows [] d = d
delete_rows (line ∷ lines) d = delete_rows lines (append_pair line [] diff_removed diff_context d)

pub insert_rows : List Text → VisualDiff → VisualDiff
unfolding append_pair
insert_rows [] d = d
insert_rows (line ∷ lines) d = insert_rows lines (append_pair [] line diff_context diff_added d)

-- one turn of the loop over the opcodes
pub apply_opcode : List Text → List Text → Tag → Opcode → VisualDiff → Option VisualDiff
unfolding equal_rows replace_rows delete_rows insert_rows slice
apply_opcode old new equal o d = equal_rows old new o.i1 o.j1 (o.i2 - o.i1) d
apply_opcode old new replace o d =
    let old_block = slice old o.i1 o.i2 in
    let new_block = slice new o.j1 o.j2 in
    some (replace_rows old_block new_block 0 (max (length old_block) (length new_block)) d)
apply_opcode old new delete o d = some (delete_rows (slice old o.i1 o.i2) d)
apply_opcode old new insert o d = some (insert_rows (slice new o.j1 o.j2) d)

pub apply_opcodes : List Text → List Text → List Opcode → VisualDiff → Option VisualDiff
unfolding apply_opcode
apply_opcodes old new [] d = some d
apply_opcodes old new (o ∷ ops) d = elim (apply_opcode old new o.tag o d) [
  | none ↦ none
  | some d' ↦ apply_opcodes old new ops d'
]

-- `splitlines(keepends=True)`
split_lines_keeping : Text → List Text
split_lines_keeping [] = []
split_lines_keeping (c ∷ s) =
    let rest = split_lines_keeping s in
    if is_line_break c && not (c == 13 && starts_with s (10 ∷ []))
    then (c ∷ []) ∷ rest
    else prepend c rest

-- _normalized_lines
normalized_lines : Option Text → List Text
unfolding split_lines_keeping
normalized_lines none = []
normalized_lines (some value) = split_lines_keeping value

-- generate_diff, where `unified` is unified_diff with the labels and the `lineterm` of the source
pub generate_diff : (List Text → List Text → List Text) → Option Text → Option Text → Text
unfolding normalized_text normalized_lines
generate_diff unified old_config new_config = join (codes "\n") (
    unified (normalized_lines (some (normalized_text old_config)))
      (normalized_lines (some (normalized_text new_config))))

-- ConfigDiffService.diff, where the second row is the one that `previous` points to
pub diff :
    (List Text → List Text → List Text)
    → Option DeviceConfiguration
    → Option DeviceConfiguration
    → Text
unfolding generate_diff
diff unified none previous = []
diff unified (some latest) none = []
diff unified (some latest) (some previous) =
    generate_diff unified (some previous.config_text) (some latest.config_text)

pub lines_of : Option Text → List Text
unfolding normalized_text
lines_of config = split_lines (normalized_text config)

-- generate_visual_diff
unfoldable pub generate_visual_diff :
    (List Text → List Text → List Opcode) → Option Text → Option Text → Option VisualDiff
unfolding apply_opcodes lines_of
generate_visual_diff opcodes old_config new_config =
    let old_lines = lines_of old_config in
    let new_lines = lines_of new_config in
    apply_opcodes old_lines new_lines (opcodes old_lines new_lines) no_diff

-- ConfigDiffService.visual_diff, where the second argument is the row that `previous` points to
pub visual_diff :
    (List Text → List Text → List Opcode)
    → Option DeviceConfiguration
    → Option DeviceConfiguration
    → Option VisualDiff
unfolding generate_visual_diff
visual_diff opcodes none previous = some no_diff
visual_diff opcodes (some latest) none = some no_diff
visual_diff opcodes (some latest) (some previous) =
    generate_visual_diff opcodes (some previous.config_text) (some latest.config_text)
