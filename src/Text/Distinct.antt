-- ===== src/Text/Distinct.antt =====
-- The keys of a dictionary and the elements of a set occur once.
use zas.Prelude.{
  ◌≡◌, refl, ap, ◌∙◌, true, false, ◌||◌, none, some, List, [], ◌∷◌, ◌++◌, arith, Bool-cases, inl,
  inr, any-append,
}
use zas.Text.Base.{Text, text_eq, text_eq_iff, text_eq_comm, is_one_of}
use zas.Text.Dict.{get, put, keys, add_name, add_names}

abbrev pub Distinct : List Text → Type 0
Distinct [] = Unit
Distinct (t ∷ ts) = (is_one_of t ts ≡ false) × Distinct ts

pub is_one_of-cons :
    (s t : Text) (ts : List Text) → is_one_of s (t ∷ ts) ≡ (text_eq s t || is_one_of s ts)
unfolding is_one_of
is_one_of-cons s t ts = refl

nothing : (s : Text) → is_one_of s [] ≡ false
unfolding is_one_of
nothing s = refl

is_one_of-append :
    (s : Text) (ts us : List Text) → is_one_of s (ts ++ us) ≡ (is_one_of s ts || is_one_of s us)
unfolding is_one_of
is_one_of-append s ts us = any-append (text_eq s) ts us

module _ {A : Type 0} where
  pub get-cons_eq :
      (k : Text) (e : Text × A) (d : List (Text × A))
      → text_eq e.0 k ≡ true
      → get k (e ∷ d) ≡ some e.1
  unfolding get
  get-cons_eq k e d h = rw h refl

  pub get-cons_ne :
      (k : Text) (e : Text × A) (d : List (Text × A))
      → text_eq e.0 k ≡ false
      → get k (e ∷ d) ≡ get k d
  unfolding get
  get-cons_ne k e d h = rw h refl

  pub get-none : (k : Text) (d : List (Text × A)) → is_one_of k (keys d) ≡ false → get k d ≡ none
  get-none k [] h = unfold get in refl
  get-none k (e ∷ d) h =
      let split = is_one_of-cons k e.0 (keys d) in
      get-cons_ne k e d (ground (arith, h, split, text_eq_comm e.0 k))
      ∙ get-none k d (ground (arith, h, split))

  pub get-some :
      (k : Text) (d : List (Text × A)) → is_one_of k (keys d) ≡ true → (a : A) × (get k d ≡ some a)
  get-some k [] h = absurd (unfold is_one_of in cc h)
  get-some k (e ∷ d) h =
      let split = is_one_of-cons k e.0 (keys d) in
      elim (Bool-cases (text_eq e.0 k)) [
        | inl same ↦ (e.1, get-cons_eq k e d same)
        | inr other ↦
            let (a, rest) = get-some k d (ground (arith, h, split, other, text_eq_comm e.0 k)) in
            (a, get-cons_ne k e d other ∙ rest)
      ]

  put-cons :
      (k : Text) (v : A) (e : Text × A) (d : List (Text × A))
      → keys (put k v (e ∷ d))
        ≡ (elim (text_eq e.0 k) [ true ↦ k ∷ keys d | false ↦ e.0 ∷ keys (put k v d) ])
  unfolding put
  put-cons k v e d = elim (Bool-cases (text_eq e.0 k)) [ inl h ↦ rw h refl | inr h ↦ rw h refl ]

  is_one_of-put :
      (s k : Text) (v : A) (d : List (Text × A))
      → is_one_of s (keys (put k v d)) ≡ (text_eq s k || is_one_of s (keys d))
  is_one_of-put s k v [] = unfold put is_one_of in refl
  is_one_of-put s k v (e ∷ d) =
      let rest = is_one_of-put s k v d in
      let split = is_one_of-cons s e.0 (keys d) in
      rw (put-cons k v e d) (elim (Bool-cases (text_eq e.0 k)) [
        | inl h ↦
            let same = ap (text_eq s) ((text_eq_iff e.0 k).0 h) in
            rw (h, is_one_of-cons s k (keys d), split) (ground (arith, same))
        | inr h ↦ rw (h, is_one_of-cons s e.0 (keys (put k v d)), split, rest) (ground arith)
      ])

  pub put-Distinct :
      (k : Text) (v : A) (d : List (Text × A)) → Distinct (keys d) → Distinct (keys (put k v d))
  put-Distinct k v [] h = unfold put is_one_of in (refl, tt)
  put-Distinct k v (e ∷ d) h =
      let rest = put-Distinct k v d h.1 in
      rw (put-cons k v e d) (elim (Bool-cases (text_eq e.0 k)) [
        | inl same ↦ rw same (rw (← (text_eq_iff e.0 k).0 same) h.0, h.1)
        | inr other ↦ rw other (rw (is_one_of-put e.0 k v d, other) h.0, rest)
      ])

Distinct-append :
    (t : Text) (ts : List Text) → is_one_of t ts ≡ false → Distinct ts → Distinct (ts ++ t ∷ [])
Distinct-append t [] new h = (unfold is_one_of in refl, tt)
Distinct-append t (u ∷ ts) new h =
    let split = is_one_of-cons t u ts in
    let one = is_one_of-append u ts (t ∷ []) in
    let last = is_one_of-cons u t [] in
    (
      rw one (ground (arith, h.0, last, new, split, text_eq_comm u t, nothing u)),
      Distinct-append t ts (ground (arith, new, split)) h.1,
    )

add_name-Distinct : (t : Text) (ts : List Text) → Distinct ts → Distinct (add_name t ts)
unfolding add_name
add_name-Distinct t ts h = elim (Bool-cases (is_one_of t ts)) [
  | inl e ↦ rw e h
  | inr e ↦ rw e (Distinct-append t ts e h)
]

pub add_names-Distinct : (ts us : List Text) → Distinct ts → Distinct (add_names ts us)
unfolding add_names
add_names-Distinct ts [] h = h
add_names-Distinct ts (u ∷ us) h = add_names-Distinct (add_name u ts) us (add_name-Distinct u ts h)
