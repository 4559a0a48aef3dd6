-- ===== src/Sync/Priority.antt =====
-- The entries that the first loop of _apply_inventory keeps: one for each serial.
use zas.Prelude.{
  ◌≡◌, refl, sym, false, Option, none, some, List, [], ◌∷◌, arith, All, Bool-cases, inl, inr,
  if◌then◌else◌,
}
use zas.Text.{Text, upper, text_eq, text_eq_iff}
use zas.Sync.{Entry, Best, outranks, add_best, Gathered, gather_one, gather, gathered}

-- the entries have other serials than `b`, up to case
abbrev pub Apart : Text → List Best → Type 0
Apart key best = All (λ (a : Best). text_eq (upper a.serial) key ≡ false) best

abbrev pub OneEach : List Best → Type 0
OneEach [] = Unit
OneEach (b ∷ best) = Apart (upper b.serial) best × OneEach best

kept : Best → Best → Best
kept b a = if outranks b a then b else a

add_best-cons :
    (b a : Best) (best : List Best)
    → add_best b (a ∷ best)
      ≡ (if text_eq (upper a.serial) (upper b.serial) then kept b a ∷ best else a ∷ add_best b best)
unfolding add_best kept
add_best-cons b a best = refl

kept-serial :
    (b a : Best) → upper a.serial ≡ upper b.serial → upper (kept b a).serial ≡ upper a.serial
unfolding kept
kept-serial b a same = elim (Bool-cases (outranks b a)) [
  | inl e ↦ rw e (sym same)
  | inr e ↦ rw e refl
]

add_best-Apart :
    (key : Text) (b : Best) (best : List Best)
    → text_eq (upper b.serial) key ≡ false
    → Apart key best
    → Apart key (add_best b best)
add_best-Apart key b [] own h = unfold add_best in (own, tt)
add_best-Apart key b (a ∷ best) own h =
    let rest = add_best-Apart key b best own h.1 in
    rw (add_best-cons b a best) (elim (Bool-cases (text_eq (upper a.serial) (upper b.serial))) [
      | inl e ↦
          let same = (text_eq_iff (upper a.serial) (upper b.serial)).0 e in
          rw e (rw (kept-serial b a same) h.0, h.1)
      | inr e ↦ rw e (h.0, rest)
    ])

pub text_eq_swap : (s t : Text) → text_eq s t ≡ false → text_eq t s ≡ false
text_eq_swap s t h = ground (arith, h, text_eq_iff s t, text_eq_iff t s)

add_best-OneEach : (b : Best) (best : List Best) → OneEach best → OneEach (add_best b best)
add_best-OneEach b [] h = unfold add_best in (tt, tt)
add_best-OneEach b (a ∷ best) h =
    let rest = add_best-OneEach b best h.1 in
    rw (add_best-cons b a best) (elim (Bool-cases (text_eq (upper a.serial) (upper b.serial))) [
      | inl e ↦
          let same = (text_eq_iff (upper a.serial) (upper b.serial)).0 e in
          rw e (rw (kept-serial b a same) h.0, h.1)
      | inr e ↦ rw e (
        add_best-Apart (upper a.serial) b best (text_eq_swap (upper a.serial) (upper b.serial) e)
            h.0,
        rest,
      )
    ])

gather_one-OneEach :
    (name descr : Text) (serial : Option Text) (g : Gathered)
    → OneEach g.serial_entries
    → OneEach (gather_one name descr serial g).serial_entries
unfolding gather_one
gather_one-OneEach name descr none g h = h
gather_one-OneEach name descr (some serial) g h = add_best-OneEach _ g.serial_entries h

gather-OneEach :
    (entries : List Entry) (g : Gathered)
    → OneEach g.serial_entries
    → OneEach (gather entries g).serial_entries
unfolding gather
gather-OneEach [] g h = h
gather-OneEach (e ∷ entries) g h = gather-OneEach entries _ (gather_one-OneEach _ _ _ g h)

pub gathered-OneEach : (entries : List Entry) → OneEach (gathered entries).serial_entries
unfolding gathered
gathered-OneEach entries = gather-OneEach entries _ tt
