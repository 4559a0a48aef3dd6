-- ===== src/Hostnames/Qualified.antt =====
-- The site's domain is added once.
use mathlib.Core.List.{reverse, reverse-append}
use zas.Prelude.{
  ◌-◌, ◌+◌, ◌≡◌, refl, ap, ◌∙◌, true, not, ◌&&◌, [], ◌∷◌, ◌++◌, arith, is_empty, Bool-cases, inl,
  inr, length, take, ◌⊎◌,
}
use zas.Text.{Text, codes, starts_with, ends_with, contains}
use zas.Hostnames.{base_domain, is_in_base, qualify}

starts_with-append : (p s : Text) → starts_with (p ++ s) p ≡ true
unfolding starts_with
starts_with-append [] [] = refl
starts_with-append [] (c ∷ s) = refl
starts_with-append (c ∷ p) s = ground (arith, starts_with-append p s)

ends_with-append : (s p : Text) → ends_with (s ++ p) p ≡ true
unfolding ends_with
ends_with-append s p =
    ap (λ z. starts_with z (reverse p)) (reverse-append s p)
    ∙ starts_with-append (reverse p) (reverse s)

-- a name that has the domain stays
qualify_stays : (domain value : Text) → ends_with value domain ≡ true → qualify domain value ≡ value
unfolding qualify
qualify_stays [] value h = refl
qualify_stays (c ∷ domain) value h = rw h refl

joined :
    (domain host : Text)
    → qualify domain (host ++ codes "." ++ domain) ≡ host ++ codes "." ++ domain
joined domain host =
    qualify_stays domain (host ++ codes "." ++ domain) (ends_with-append (host ++ codes ".") domain)

qualify_cases :
    (domain value : Text)
    → (qualify domain value ≡ value)
      ⊎ ((host : Text) × (qualify domain value ≡ host ++ codes "." ++ domain))
unfolding qualify
qualify_cases domain value =
    let base = base_domain domain in
    elim (Bool-cases (is_empty domain)) [
      | inl e ↦ inl (rw e refl)
      | inr e ↦ elim (Bool-cases (ends_with value domain)) [
        | inl f ↦ inl (rw (e, f) refl)
        | inr f ↦ elim (Bool-cases (not (is_empty base) && is_in_base base value)) [
          | inl g ↦ inr (take (length value - (length base + 1)) value, rw (e, f, g) refl)
          | inr g ↦ elim (Bool-cases (not (contains (codes ".") value))) [
            | inl h ↦ inr (value, rw (e, f, g, h) refl)
            | inr h ↦ inl (rw (e, f, g, h) refl)
          ]
        ]
      ]
    ]

-- Qualifying a name twice is qualifying it once: a name that is found again is not given the site's
-- domain a second time, whatever the domain.
pub qualify_idem :
    (domain value : Text) → qualify domain (qualify domain value) ≡ qualify domain value
qualify_idem domain value = elim (qualify_cases domain value) [
  | inl same ↦ ap (qualify domain) same
  | inr (host, long) ↦ rw long (joined domain host)
]
