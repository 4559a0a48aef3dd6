-- ===== src/Text/Strip.antt =====
-- `strip` and `rstrip`, with the laws that normalisation rests on.
use zas.Prelude.{
  ℕ, ◌≡◌, refl, sym, ap, ◌∙◌, Bool, false, ◌&&◌, ◌||◌, [], ◌∷◌, arith, leb, ◌==◌, if◌then◌else◌,
}
use zas.Text.Base.{Text}

-- ASCII white space, as `str.isspace` has it
unfoldable pub is_space : ℕ → Bool
is_space c = leb 9 c && leb c 13 || leb 28 c && leb c 32

unfoldable pub lstrip_by : (ℕ → Bool) → Text → Text
lstrip_by p [] = []
lstrip_by p (c ∷ s) = let rest = lstrip_by p s in if p c then rest else c ∷ s

rstrip_cons : (ℕ → Bool) → ℕ → Text → Text
rstrip_cons p c [] = if p c then [] else c ∷ []
rstrip_cons p c (d ∷ s) = c ∷ d ∷ s

unfoldable pub rstrip_by : (ℕ → Bool) → Text → Text
unfolding rstrip_cons
rstrip_by p [] = []
rstrip_by p (c ∷ s) = rstrip_cons p c (rstrip_by p s)

-- `s.strip()` and `s.rstrip()`
unfoldable pub strip : Text → Text
unfolding is_space lstrip_by rstrip_by
strip s = rstrip_by is_space (lstrip_by is_space s)

unfoldable pub rstrip : Text → Text
unfolding is_space rstrip_by
rstrip s = rstrip_by is_space s

-- `s.rstrip(".")`
unfoldable pub rstrip_dots : Text → Text
unfolding rstrip_by
rstrip_dots s = rstrip_by (λ c. c == b'.') s

-- no white space at the front
abbrev pub Opens : (ℕ → Bool) → Text → Type 0
Opens p [] = Unit
Opens p (c ∷ s) = p c ≡ false

lstrip_by-Opens : (p : ℕ → Bool) (s : Text) → Opens p (lstrip_by p s)
unfolding lstrip_by
lstrip_by-Opens p [] = tt
lstrip_by-Opens p (c ∷ s) = ground (arith, lstrip_by-Opens p s)

pub lstrip_by-eq_of_Opens : (p : ℕ → Bool) (s : Text) → Opens p s → lstrip_by p s ≡ s
unfolding lstrip_by
lstrip_by-eq_of_Opens p [] h = refl
lstrip_by-eq_of_Opens p (c ∷ s) h = ground arith

rstrip_by-Opens : (p : ℕ → Bool) (s : Text) → Opens p s → Opens p (rstrip_by p s)
unfolding rstrip_by
rstrip_by-Opens p [] h = tt
rstrip_by-Opens p (c ∷ s) h = ground (arith, h)

rstrip_cons_idem :
    (p : ℕ → Bool) (c : ℕ) (s : Text)
    → rstrip_by p s ≡ s
    → rstrip_by p (rstrip_cons p c s) ≡ rstrip_cons p c s
unfolding rstrip_by
rstrip_cons_idem p c [] h = ground arith
rstrip_cons_idem p c (d ∷ s) h = ground (arith, h)

rstrip_by-cons :
    (p : ℕ → Bool) (c : ℕ) (s : Text) → rstrip_by p (c ∷ s) ≡ rstrip_cons p c (rstrip_by p s)
unfolding rstrip_by
rstrip_by-cons p c s = refl

pub rstrip_by_idem : (p : ℕ → Bool) (s : Text) → rstrip_by p (rstrip_by p s) ≡ rstrip_by p s
rstrip_by_idem p [] = unfold rstrip_by in refl
rstrip_by_idem p (c ∷ s) =
    rw rstrip_by-cons (rstrip_cons_idem p c (rstrip_by p s) (rstrip_by_idem p s))

pub strip_lem : (s : Text) → strip s ≡ rstrip_by is_space (lstrip_by is_space s)
unfolding strip
strip_lem s = refl

pub strip-lstrip : (s : Text) → lstrip_by is_space (strip s) ≡ strip s
unfolding strip
strip-lstrip s =
    lstrip_by-eq_of_Opens is_space (rstrip_by is_space (lstrip_by is_space s))
      (rstrip_by-Opens is_space (lstrip_by is_space s) (lstrip_by-Opens is_space s))

pub strip_idem : (s : Text) → strip (strip s) ≡ strip s
strip_idem s =
    strip_lem (strip s)
    ∙ ap (rstrip_by is_space) (strip-lstrip s)
    ∙ ap (rstrip_by is_space) (strip_lem s)
    ∙ rstrip_by_idem is_space (lstrip_by is_space s)
    ∙ sym (strip_lem s)
