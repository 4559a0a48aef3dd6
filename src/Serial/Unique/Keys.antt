-- ===== src/Serial/Unique/Keys.antt =====
-- Lists of serial keys without repetition, under `select` and under one more key.
use zas.Prelude.{
  ℕ, ◌≡◌, refl, sym, ap, ◌≢◌, ◌↔◌, Bool, true, false, ◌&&◌, Option, none, some, List, [], ◌∷◌, ◌++◌,
  Bool-cases, inl, inr, select, head?, false_iff_not, All, All-append, All-append_left,
  All-append_right,
}
use zas.Text.{Text, upper, iexact, text_eq, text_eq_iff}
use zas.Serial.{serial_matches}

-- what `iexact` compares, for a row that has a serial
abbrev pub key_of : Option Text → List Text
key_of none = []
key_of (some []) = []
key_of (some (c ∷ s)) = upper (c ∷ s) ∷ []

abbrev pub keys : {R : Type 0} → (R → Option Text) → List R → List Text
keys serial [] = []
keys serial (r ∷ rs) = key_of (serial r) ++ keys serial rs

-- `k` is not in the list
abbrev pub Absent : Text → List Text → Type 0
Absent k ks = All (λ j. j ≢ k) ks

abbrev pub NoRepeat : List Text → Type 0
NoRepeat [] = Unit
NoRepeat (k ∷ ks) = Absent k ks × NoRepeat ks

abbrev pub Disjoint : List Text → List Text → Type 0
Disjoint ks js = All (λ k. Absent k js) ks

pub Disjoint-cons :
    (k : Text) (ks js : List Text) → Absent k ks → Disjoint ks js → Disjoint ks (k ∷ js)
Disjoint-cons k [] js a d = tt
Disjoint-cons k (i ∷ ks) js a d = ((λ e. a.0 (sym e), d.0), Disjoint-cons k ks js a.1 d.1)

pub Disjoint-head : (k : Text) (ks js : List Text) → Disjoint ks (k ∷ js) → Absent k ks
Disjoint-head k [] js d = tt
Disjoint-head k (i ∷ ks) js d = ((λ e. d.0.0 (sym e)), Disjoint-head k ks js d.1)

-- A row's serial differs from a non-empty one exactly where its key does.
matches_iff_Absent :
    (c : ℕ) (s : Text) (v : Option Text)
    → (serial_matches (c ∷ s) v ≡ false) ↔ Absent (upper (c ∷ s)) (key_of v)
unfolding serial_matches iexact
matches_iff_Absent c s none = (λ _. tt, λ _. refl)
matches_iff_Absent c s (some []) = unfold upper text_eq in (λ _. tt, λ _. refl)
matches_iff_Absent c s (some (d ∷ t)) =
    let differ = false_iff_not _ (text_eq_iff (upper (d ∷ t)) (upper (c ∷ s))) in
    (λ e. (differ.0 e, tt), λ a. differ.1 a.0)

module _ {R : Type 0} (serial : R → Option Text) where
  module _ (p : R → Bool) where
    pub All-keys-select :
        (P : Text → Type 0) (rs : List R)
        → All P (keys serial rs)
        → All P (keys serial (select p rs))
    All-keys-select P [] h = tt
    All-keys-select P (r ∷ rs) h =
        let first = All-append_left P (key_of (serial r)) (keys serial rs) h in
        let rest =
          All-keys-select P rs (All-append_right P (key_of (serial r)) (keys serial rs) h) in
        elim (Bool-cases (p r)) [
          | inl e ↦ rw e (All-append P (key_of (serial r)) (keys serial (select p rs)) first rest)
          | inr e ↦ rw e rest
        ]

    pub Disjoint-select :
        (ks : List Text) (rs : List R)
        → Disjoint ks (keys serial rs)
        → Disjoint ks (keys serial (select p rs))
    Disjoint-select [] rs d = tt
    Disjoint-select (k ∷ ks) rs d = (All-keys-select (λ j. j ≢ k) rs d.0, Disjoint-select ks rs d.1)

    NoRepeat-key_of-append :
        (v : Option Text) (rs : List R)
        → NoRepeat (key_of v ++ keys serial rs)
        → NoRepeat (keys serial (select p rs))
        → NoRepeat (key_of v ++ keys serial (select p rs))
    NoRepeat-key_of-append none rs h k = k
    NoRepeat-key_of-append (some []) rs h k = k
    NoRepeat-key_of-append (some (c ∷ s)) rs h k = (All-keys-select _ rs h.0, k)

    NoRepeat-key_of_rest :
        (v : Option Text) (ks : List Text) → NoRepeat (key_of v ++ ks) → NoRepeat ks
    NoRepeat-key_of_rest none ks h = h
    NoRepeat-key_of_rest (some []) ks h = h
    NoRepeat-key_of_rest (some (c ∷ s)) ks h = h.1

    pub NoRepeat-select :
        (rs : List R) → NoRepeat (keys serial rs) → NoRepeat (keys serial (select p rs))
    NoRepeat-select [] h = tt
    NoRepeat-select (r ∷ rs) h =
        let rest = NoRepeat-select rs (NoRepeat-key_of_rest (serial r) (keys serial rs) h) in
        elim (Bool-cases (p r)) [
          | inl e ↦ rw e (NoRepeat-key_of-append (serial r) rs h rest)
          | inr e ↦ rw e rest
        ]

    -- The query finds no row exactly where the key is absent from the rows that it looks at.
    pub no_row_iff_Absent :
        (c : ℕ) (s : Text) (rs : List R)
        → (head? (select (λ r. serial_matches (c ∷ s) (serial r) && p r) rs) ≡ none)
          ↔ Absent (upper (c ∷ s)) (keys serial (select p rs))
    no_row_iff_Absent c s [] = (λ _. tt, λ _. refl)
    no_row_iff_Absent c s (r ∷ rs) =
        let own = matches_iff_Absent c s (serial r) in
        let ih = no_row_iff_Absent c s rs in
        let key = key_of (serial r) in
        let rest = keys serial (select p rs) in
        elim (Bool-cases (serial_matches (c ∷ s) (serial r))) [
          | inl hit ↦ elim (Bool-cases (p r)) [
            | inl e ↦ rw (hit, e) (λ h. cc h, λ a. cc (hit, own.1 (All-append_left _ key rest a)))
            | inr e ↦ rw (hit, e) ih
          ]
          | inr miss ↦ elim (Bool-cases (p r)) [
            | inl e ↦
                rw (miss, e)
                  (
                    λ h. All-append _ key rest (own.0 miss) (ih.0 h),
                    λ a. ih.1 (All-append_right _ key rest a),
                  )
            | inr e ↦ rw (miss, e) ih
          ]
        ]

pub select-true : {R : Type 0} (rs : List R) → select (λ _. true) rs ≡ rs
select-true [] = refl
select-true (r ∷ rs) = ap (λ l. r ∷ l) (select-true rs)
