-- ===== src/DeviceSync/Printed.antt =====
-- What _parse_uptime reads from a text of amounts and units.
use zas.Prelude.{
  ℕ, ◌+◌, ◌-◌, ◌*◌, ◌≡◌, refl, ap, ◌∙◌, Bool, true, false, not, Option, none, some, List, [], ◌∷◌,
  ◌++◌, arith, All, Bool-cases, inl, inr, if◌then◌else◌, all,
}
use zas.Text.{
  Text, codes, lower, starts_with, is_space, lstrip_by, is_digit, digits_value, is_number,
}
use zas.DeviceSync.Uptime.{
  Span, year, week, day, hour, minute, second, names_unit, amount_from, amount_at, find_amount,
  word, spans, total, nonzero, parse_uptime,
}

-- An amount, its unit, and what stands before the next amount.
pub record Piece : Type 0 where
  pub digits : Text
  pub span : Span
  pub after : Text

abbrev pub Plain : Text → Type 0
Plain s = all (λ c. not (is_digit c)) s ≡ true

abbrev pub IsPiece : Piece → Type 0
IsPiece p = (is_number p.digits ≡ true) × Plain p.after

abbrev pub printed : List Piece → Text
printed [] = []
printed (p ∷ ps) = p.digits ++ (codes " " ++ (word p.span ++ (p.after ++ printed ps)))

unfoldable pub same_span : Span → Span → Bool
same_span year year = true
same_span week week = true
same_span day day = true
same_span hour hour = true
same_span minute minute = true
same_span second second = true
same_span _ _ = false

-- the first amount that is given for a unit
unfoldable pub amount_of : List Piece → Span → Option ℕ
unfolding same_span
amount_of [] k = none
amount_of (p ∷ ps) k =
    let rest = amount_of ps k in if same_span p.span k then some (digits_value 0 p.digits) else rest

names_unit-word :
    (u k : Span) (t : Text) → names_unit (word k) (codes " " ++ (word u ++ t)) ≡ same_span u k
unfolding names_unit word same_span lower lstrip_by is_space starts_with
names_unit-word year year t = refl
names_unit-word year _ t = refl
names_unit-word week year t = refl
names_unit-word week _ t = refl
names_unit-word day year t = refl
names_unit-word day _ t = refl
names_unit-word hour year t = refl
names_unit-word hour _ t = refl
names_unit-word minute year t = refl
names_unit-word minute _ t = refl
names_unit-word second year t = refl
names_unit-word second _ t = refl

word-Plain : (u : Span) → Plain (codes " " ++ word u)
unfolding word is_digit
word-Plain year = refl
word-Plain _ = refl

amount_at-Plain : (w : Text) (c : ℕ) (s : Text) → is_digit c ≡ false → amount_at w (c ∷ s) ≡ none
unfolding amount_at
amount_at-Plain w c s h = rw h

find_amount-none :
    (w : Text) (c : ℕ) (s : Text)
    → amount_at w (c ∷ s) ≡ none
    → find_amount w (c ∷ s) ≡ find_amount w s
unfolding find_amount
find_amount-none w c s h = rw (h, find_amount)

find_amount-some :
    (w : Text) (c : ℕ) (s : Text) {value : ℕ}
    → amount_at w (c ∷ s) ≡ some value
    → find_amount w (c ∷ s) ≡ some value
unfolding find_amount
find_amount-some w c s h = rw (h, find_amount)

-- no amount starts in a text without digits
find_amount-Plain : (w p s : Text) → Plain p → find_amount w (p ++ s) ≡ find_amount w s
find_amount-Plain w [] s h = refl
find_amount-Plain w (c ∷ p) s h =
    let plain : is_digit c ≡ false = ground (arith, h) in
    let rest : Plain p = ground (arith, h) in
    find_amount-none w c (p ++ s) (amount_at-Plain w c (p ++ s) plain)
    ∙ find_amount-Plain w p s rest

space : is_digit b' ' ≡ false
unfolding is_digit
space = refl

amount_from-digits :
    (w : Text) (value : ℕ) (ds s : Text)
    → all is_digit ds ≡ true
    → amount_from w value (ds ++ b' ' ∷ s)
      ≡ (if names_unit w (b' ' ∷ s) then some (digits_value value ds) else none)
unfolding amount_from digits_value
amount_from-digits w value [] s h = rw space refl
amount_from-digits w value (d ∷ ds) s h =
    let first : is_digit d ≡ true = ground (arith, h) in
    let rest : all is_digit ds ≡ true = ground (arith, h) in
    rw first (amount_from-digits w (value * 10 + (d - b'0')) ds s rest)

amount_at-digit :
    (w : Text) (c : ℕ) (s : Text)
    → is_digit c ≡ true
    → amount_at w (c ∷ s) ≡ amount_from w 0 (c ∷ s)
unfolding amount_at
amount_at-digit w c s h = rw h refl

amount_at-digits :
    (w : Text) (d : ℕ) (ds s : Text)
    → all is_digit (d ∷ ds) ≡ true
    → amount_at w (d ∷ (ds ++ b' ' ∷ s))
      ≡ (if names_unit w (b' ' ∷ s) then some (digits_value 0 (d ∷ ds)) else none)
amount_at-digits w d ds s h =
    let first : is_digit d ≡ true = ground (arith, h) in
    amount_at-digit w d (ds ++ b' ' ∷ s) first ∙ amount_from-digits w 0 (d ∷ ds) s h

-- digits that the word does not follow are passed over
find_amount-digits :
    (w ds s : Text)
    → all is_digit ds ≡ true
    → names_unit w (b' ' ∷ s) ≡ false
    → find_amount w (ds ++ b' ' ∷ s) ≡ find_amount w (b' ' ∷ s)
find_amount-digits w [] s h miss = refl
find_amount-digits w (d ∷ ds) s h miss =
    let rest : all is_digit ds ≡ true = ground (arith, h) in
    find_amount-none w d (ds ++ b' ' ∷ s) (amount_at-digits w d ds s h ∙ rw miss refl)
    ∙ find_amount-digits w ds s rest miss

number_digits : (s : Text) → is_number s ≡ true → all is_digit s ≡ true
unfolding is_number
number_digits s h = ground (arith, h)

pass_unit :
    (w : Text) (u : Span) (after s : Text)
    → Plain after
    → find_amount w (codes " " ++ (word u ++ (after ++ s))) ≡ find_amount w s
pass_unit w u after s plain =
    find_amount-Plain w (codes " " ++ word u) (after ++ s) (word-Plain u)
    ∙ find_amount-Plain w after s plain

empty_lem : ¬ (is_number [] ≡ true)
unfolding is_number
empty_lem h = cc h

-- one piece: its amount if the unit is the one that is looked for, and else what follows
find_amount-piece :
    (k u : Span) (digits after s : Text)
    → is_number digits ≡ true
    → Plain after
    → find_amount (word k) (digits ++ (codes " " ++ (word u ++ (after ++ s))))
      ≡ (if same_span u k then some (digits_value 0 digits) else find_amount (word k) s)
find_amount-piece k u [] after s number plain = absurd (empty_lem number)
find_amount-piece k u (d ∷ ds) after s number plain =
    let digits = number_digits (d ∷ ds) number in
    let unit = names_unit-word u k (after ++ s) in
    let tail = word u ++ (after ++ s) in
    elim (Bool-cases (same_span u k)) [
      | inl e ↦ rw e (
          find_amount-some (word k) d (ds ++ b' ' ∷ tail)
            (amount_at-digits (word k) d ds tail digits ∙ rw (unit, e) refl))
      | inr e ↦ rw e (
          find_amount-digits (word k) (d ∷ ds) tail digits (unit ∙ e)
          ∙ pass_unit (word k) u after s plain)
    ]

find_amount-printed :
    (k : Span) (ps : List Piece)
    → All IsPiece ps
    → find_amount (word k) (printed ps) ≡ amount_of ps k
unfolding amount_of
find_amount-printed k [] h = unfold find_amount in refl
find_amount-printed k (p ∷ ps) h =
    find_amount-piece k p.span p.digits p.after (printed ps) h.0.0 h.0.1
    ∙ ap (λ rest. if same_span p.span k then some (digits_value 0 p.digits) else rest)
        (find_amount-printed k ps h.1)

total-congr :
    (f g : Span → Option ℕ) (ks : List Span) → ((k : Span) → f k ≡ g k) → total f ks ≡ total g ks
unfolding total
total-congr f g [] h = refl
total-congr f g (k ∷ ks) h = rw (h k, total-congr f g ks h) refl

-- From a text that holds no digit up to the first amount, and after it amounts, each of digits, a
-- blank, its unit in the singular, and a text without digits (as in "up 1 year, 2 weeks"), the parser
-- reads the sum of the first amount of each unit in seconds, and nothing where the sum is zero.
pub parse_uptime-printed :
    (before : Text) (ps : List Piece)
    → Plain before
    → All IsPiece ps
    → parse_uptime (before ++ printed ps) ≡ nonzero (total (amount_of ps) spans)
unfolding parse_uptime
parse_uptime-printed before ps plain h = ap nonzero (
    total-congr (λ k. find_amount (word k) (before ++ printed ps)) (amount_of ps) spans
      (λ k. find_amount-Plain (word k) before (printed ps) plain ∙ find_amount-printed k ps h))
