-- ===== src/Configs/Volatile.antt =====
-- What `normalize` drops from a configuration.
use zas.Prelude.{◌≡◌, refl, sym, ap, ◌∙◌, true, List, [], ◌∷◌, ◌++◌, if◌then◌else◌}
use zas.Text.{Text, codes, rstrip, strip, split_lines, join}
use zas.Configs.{is_volatile, kept_lines, normalize}

kept_lines-cons :
    (line : Text) (lines : List Text)
    → kept_lines (line ∷ lines)
      ≡ (if is_volatile line then kept_lines lines else rstrip line ∷ kept_lines lines)
unfolding kept_lines
kept_lines-cons line lines = refl

kept_lines-insert :
    (before : List Text) (line : Text) (after : List Text)
    → is_volatile line ≡ true
    → kept_lines (before ++ line ∷ after) ≡ kept_lines (before ++ after)
kept_lines-insert [] line after volatile = kept_lines-cons line after ∙ rw volatile refl
kept_lines-insert (l ∷ before) line after volatile =
    kept_lines-cons l (before ++ line ∷ after)
    ∙ rw (kept_lines-insert before line after volatile) (sym (kept_lines-cons l (before ++ after)))

normalize_lem : (t : Text) → normalize t ≡ strip (join (codes "\n") (kept_lines (split_lines t)))
unfolding normalize
normalize_lem t = refl

-- Two configurations that differ in one more line, which begins with "! Last configuration change" or
-- "!Time", normalise to the same text.
pub normalize-insert_volatile :
    (s t line : Text) (before after : List Text)
    → split_lines s ≡ before ++ line ∷ after
    → split_lines t ≡ before ++ after
    → is_volatile line ≡ true
    → normalize s ≡ normalize t
normalize-insert_volatile s t line before after es et volatile =
    normalize_lem s
    ∙ ap (λ ls. strip (join (codes "\n") (kept_lines ls))) es
    ∙ ap (λ ls. strip (join (codes "\n") ls)) (kept_lines-insert before line after volatile)
    ∙ ap (λ ls. strip (join (codes "\n") (kept_lines ls))) (sym et)
    ∙ sym (normalize_lem t)
