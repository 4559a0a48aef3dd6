-- ===== src/DeviceSync/Uptime.antt =====
-- The uptime of a device: SyncService._parse_uptime, _uptime_from_parts and _extract_uptime_line
-- (network/services/sync_service.py).
use zas.Prelude.{
  ℕ, ◌+◌, ◌-◌, ◌*◌, Bool, false, ◌&&◌, Option, none, some, List, [], ◌∷◌, ◌++◌, ◌==◌, if◌then◌else◌,
}
use zas.Text.{
  Text, codes, lower, strip, starts_with, contains, is_space, lstrip_by, is_digit, digits_value,
  is_number, get, split_lines,
}

-- whether white space and then the word stand at the front, up to case
unfoldable pub names_unit : Text → Text → Bool
names_unit word [] = false
names_unit word (c ∷ s) = is_space c && starts_with (lower (lstrip_by is_space s)) word

-- what follows `value` of the digits at the front, if the word follows them
unfoldable pub amount_from : Text → ℕ → Text → Option ℕ
unfolding names_unit
amount_from word value [] = none
amount_from word value (c ∷ s) =
    let rest = amount_from word (value * 10 + (c - b'0')) s in
    if is_digit c then rest else if names_unit word (c ∷ s) then some value else none

-- `(\d+)\s+word` at the front
unfoldable pub amount_at : Text → Text → Option ℕ
unfolding amount_from
amount_at word [] = none
amount_at word (c ∷ s) = if is_digit c then amount_from word 0 (c ∷ s) else none

-- the group of `re.search(r"(\d+)\s+word", s, re.I)`; a match that starts within a number would also
-- start at its first digit
unfoldable pub find_amount : Text → Text → Option ℕ
unfolding amount_at
find_amount word [] = none
find_amount word (c ∷ s) =
    let rest = find_amount word s in
    elim (amount_at word (c ∷ s)) [ some value ↦ some value | none ↦ rest ]

-- The keys of `units`.
pub data Span : Type 0 where
  year week day hour minute second : Span

unfoldable pub word : Span → Text
word year = codes "year"
word week = codes "week"
word day = codes "day"
word hour = codes "hour"
word minute = codes "minute"
word second = codes "second"

unfoldable pub seconds : Span → ℕ
seconds year = 365 * 24 * 3600
seconds week = 7 * 24 * 3600
seconds day = 24 * 3600
seconds hour = 3600
seconds minute = 60
seconds second = 1

abbrev pub spans : List Span
spans = year ∷ week ∷ day ∷ hour ∷ minute ∷ second ∷ []

unfoldable pub part : Span → Option ℕ → ℕ
unfolding seconds
part k none = 0
part k (some value) = value * seconds k

-- the loop over the units, for what is found for each
unfoldable pub total : (Span → Option ℕ) → List Span → ℕ
unfolding part
total amount [] = 0
total amount (k ∷ ks) = part k (amount k) + total amount ks

-- `total or None`
unfoldable pub nonzero : ℕ → Option ℕ
nonzero n = if n == 0 then none else some n

-- _parse_uptime; an empty text has no match
unfoldable pub parse_uptime : Text → Option ℕ
unfolding find_amount word total nonzero
parse_uptime s = nonzero (total (λ k. find_amount (word k) s) spans)

-- the key of `parts`
unfoldable pub part_key : Span → Text
unfolding word
part_key k = codes "uptime_" ++ word k ++ codes "s"

-- `int(value)` of a text; signs and underscores, which int reads too, do not stand in these columns
unfoldable pub int_value : Option Text → Option ℕ
int_value none = none
int_value (some t) = if is_number (strip t) then some (digits_value 0 (strip t)) else none

-- _uptime_from_parts
unfoldable pub uptime_from_parts : List (Text × Text) → Option ℕ
unfolding part_key int_value total nonzero
uptime_from_parts entry = nonzero (total (λ k. int_value (get (part_key k) entry)) spans)

unfoldable pub uptime_line : List Text → Text
uptime_line [] = []
uptime_line (line ∷ lines) =
    let rest = uptime_line lines in if contains (codes "uptime is") (lower line) then line else rest

-- _extract_uptime_line
unfoldable pub extract_uptime_line : Text → Text
unfolding uptime_line
extract_uptime_line raw = uptime_line (split_lines raw)
