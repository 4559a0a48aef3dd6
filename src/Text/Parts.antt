-- ===== src/Text/Parts.antt =====
-- `split`, `splitlines` and `join`, and decimal numbers.
use zas.Prelude.{
  ℕ, ◌+◌, ◌-◌, ◌*◌, Bool, false, all, ◌&&◌, ◌||◌, List, [], ◌∷◌, ◌++◌, leb, ◌==◌, if◌then◌else◌,
  select, not, is_empty, get_or,
}
use zas.Text.Base.{Text}
use zas.Text.Strip.{is_space}

-- one more character at the front of the first part
unfoldable pub prepend : ℕ → List Text → List Text
prepend c [] = (c ∷ []) ∷ []
prepend c (part ∷ parts) = (c ∷ part) ∷ parts

-- `s.split(sep)` for a separator of one character: "" gives one empty part
unfoldable pub split_on : ℕ → Text → List Text
unfolding prepend
split_on sep [] = [] ∷ []
split_on sep (c ∷ s) = let rest = split_on sep s in if c == sep then [] ∷ rest else prepend c rest

unfoldable pub is_line_break : ℕ → Bool
is_line_break c = leb 10 c && leb c 13 || leb 28 c && leb c 30

-- the lines of the rest, where `cr` says that a carriage return stands before it
lines_from : Bool → Text → List Text
unfolding prepend is_line_break
lines_from cr [] = []
lines_from cr (c ∷ s) =
    let rest = lines_from (c == 13) s in
    if cr && c == 10 then rest else if is_line_break c then [] ∷ rest else prepend c rest

-- `s.splitlines()`
unfoldable pub split_lines : Text → List Text
unfolding lines_from
split_lines s = lines_from false s

-- `sep.join(parts)`
unfoldable pub join : Text → List Text → Text
join sep [] = []
join sep (part ∷ []) = part
join sep (part ∷ next ∷ parts) = part ++ sep ++ join sep (next ∷ parts)

-- the parts between the characters that `p` holds of
split_by : (ℕ → Bool) → Text → List Text
unfolding prepend
split_by p [] = [] ∷ []
split_by p (c ∷ s) = let rest = split_by p s in if p c then [] ∷ rest else prepend c rest

-- `s.split()`
unfoldable pub words : Text → List Text
unfolding split_by is_space
words s = select (λ w. not (is_empty w)) (split_by is_space s)

-- `s.split(sep)[0]`
unfoldable pub before : ℕ → Text → Text
unfolding split_on
before sep s = get_or (split_on sep s) 0 []

-- `\d` in ASCII
unfoldable pub is_digit : ℕ → Bool
is_digit c = leb b'0' c && leb c b'9'

-- the number that decimal digits stand for, where `value` is that of the digits before them
unfoldable pub digits_value : ℕ → Text → ℕ
digits_value value [] = value
digits_value value (c ∷ s) = digits_value (value * 10 + (c - b'0')) s

-- `\d+`
unfoldable pub is_number : Text → Bool
unfolding is_digit
is_number s = not (is_empty s) && all is_digit s
