-- ===== src/Serial/Normal.antt =====
-- A normalised serial is stripped, non-empty and no placeholder, and stays as it is.
use zas.Prelude.{
  ◌≡◌, refl, ◌≢◌, false, Option, none, some, [], ◌∷◌, arith, is_some, Option-cases, inl, inr,
}
use zas.Text.{Text, strip, strip_idem, lstrip_by, rstrip_by, upper}
use zas.Serial.{is_placeholder, normalize_serial_number, serial_number_display, has_valid_serial}

-- a text that normalisation keeps whole
pub record IsNormal (s : Text) : Type 0 where
  pub stripped : strip s ≡ s
  pub nonempty : s ≢ []
  pub proper : is_placeholder (upper s) ≡ false

normalize_parts :
    (value : Text) {s : Text}
    → normalize_serial_number (some value) ≡ some s
    → (strip value ≡ s) × (s ≢ []) × (is_placeholder (upper s) ≡ false)
unfolding normalize_serial_number
normalize_parts value e = ground arith

pub normalize-IsNormal :
    (v : Option Text) {s : Text} → normalize_serial_number v ≡ some s → IsNormal s
normalize-IsNormal none e = unfold normalize_serial_number in cc
normalize-IsNormal (some value) e =
    let (same, nonempty, proper) = normalize_parts value e in
    record { stripped = cc (strip_idem value); nonempty = nonempty; proper = proper }

pub normalize-eq_of_IsNormal : (s : Text) → IsNormal s → normalize_serial_number (some s) ≡ some s
unfolding normalize_serial_number
normalize-eq_of_IsNormal s h = ground (arith, h.stripped, h.nonempty, h.proper)

-- A serial that has been normalised, or found to be none, is normalised to itself.
pub normalize_idem :
    (v : Option Text)
    → normalize_serial_number (normalize_serial_number v) ≡ normalize_serial_number v
normalize_idem v = elim (Option-cases (normalize_serial_number v)) [
  | inl e ↦ rw e (unfold normalize_serial_number in refl)
  | inr (s, e) ↦ rw e (normalize-eq_of_IsNormal s (normalize-IsNormal v e))
]

-- A module displays the serial that normalisation gives, and none where that gives none.
pub serial_number_display-eq-normalize :
    (v : Option Text) → serial_number_display v ≡ normalize_serial_number v
unfolding serial_number_display normalize_serial_number
serial_number_display-eq-normalize none = refl
serial_number_display-eq-normalize (some []) = unfold strip lstrip_by rstrip_by in refl
serial_number_display-eq-normalize (some (c ∷ v)) = refl

-- A transceiver's serial counts as valid exactly where normalisation keeps it.
pub has_valid_serial-eq-normalize :
    (v : Option Text) → has_valid_serial v ≡ is_some (normalize_serial_number v)
unfolding has_valid_serial normalize_serial_number
has_valid_serial-eq-normalize v = ground arith
