-- ===== src/Ipam/Network/Nested.antt =====
-- Two networks overlap only if one lies in the other.
use native.Mathlib.Nat.{
  pow-suc, one-le-pow, mul_assoc, lt_of_mul-lt-mul_right, mul-le-mul_right, lt-div-mul-add,
  div-mul-le_self, div-add-mod',
}
use zas.Prelude.{
  ℕ, zero, suc, ◌+◌, ◌-◌, ◌*◌, ◌/◌, ◌^◌, ◌≤◌, ◌<◌, ◌≡◌, refl, sym, ap, ◌∙◌, ◌⊎◌, inl, inr, Bool,
  true, false, ◌&&◌, ◌||◌, arith, leb, Bool-cases, ==_iff,
}
use zas.Ipam.Network.{
  Version, same_version, width, Network, size, last, has_value, subnet_of, overlaps, IsWellFormed,
}

pub pow2_add : (k s : ℕ) → 2 ^ (k + s) ≡ 2 ^ k * 2 ^ s
pow2_add zero s = ap (λ (n : ℕ). 2 ^ n) (let e : 0 + s ≡ s = omega arith in e) ∙ omega arith
pow2_add (suc k) s =
    ap (λ (n : ℕ). 2 ^ n) (let e : suc k + s ≡ suc (k + s) = omega arith in e)
    ∙ pow-suc 2 (k + s)
    ∙ rw (pow-suc 2 k, pow2_add k s) (omega arith)

size_pos : (n : Network) → 0 < size n
unfolding size
size_pos n = one-le-pow (width n.version - n.prefixlen) 2 (omega arith)

-- The network is the block of its size that begins at its first address.
has_value_bounds :
    (n : Network) (x : ℕ) → has_value n x ≡ true → (n.first ≤ x) × (x < n.first + size n)
unfolding has_value
has_value_bounds n x h =
    let e = (==_iff (x / size n * size n) n.first).0 h in
    (rw (← e) (div-mul-le_self x (size n)), rw (← e) (lt-div-mul-add (size_pos n)))

-- Blocks of size s and c * s, at multiples of their sizes, that share a value are nested.
blocks_nested :
    (s c a b x : ℕ)
    → a * s ≤ x
    → x < a * s + s
    → b * (c * s) ≤ x
    → x < b * (c * s) + c * s
    → (b * (c * s) ≤ a * s) × (a * s + s ≤ b * (c * s) + c * s)
blocks_nested s c a b x al ah bl bh =
    let d : ℕ = b * c in
    let start : b * (c * s) ≡ d * s = sym (mul_assoc b c s) in
    let low : d < a + 1 = lt_of_mul-lt-mul_right s (omega arith) in
    let high : a < d + c = lt_of_mul-lt-mul_right s (omega arith) in
    let begins : d * s ≤ a * s = mul-le-mul_right s (omega arith) in
    let ends : (a + 1) * s ≤ (d + c) * s = mul-le-mul_right s (omega arith) in
    (omega arith, omega arith)

-- the addresses from the first to the last
abbrev Between : Network → ℕ → Type 0
Between n x = (n.first ≤ x) × (x < n.first + size n)

first-Between : (n : Network) → Between n n.first
first-Between n = let p = size_pos n in (omega arith, omega arith)

last-Between : (n : Network) → Between n (last n)
unfolding last
last-Between n = let p = size_pos n in (omega arith, omega arith)

or_cases : (a b : Bool) → (a || b) ≡ true → (a ≡ true) ⊎ (b ≡ true)
or_cases true b h = inl refl
or_cases false b h = inr h

shared :
    (a b : Network)
    → (has_value a b.first
        || (has_value a (last b) || (has_value b a.first || has_value b (last a))))
      ≡ true
    → (x : ℕ) × Between a x × Between b x
shared a b h = elim (or_cases _ _ h) [
  | inl e ↦ (b.first, has_value_bounds a _ e, first-Between b)
  | inr h ↦ elim (or_cases _ _ h) [
    | inl e ↦ (last b, has_value_bounds a _ e, last-Between b)
    | inr h ↦ elim (or_cases _ _ h) [
      | inl e ↦ (a.first, first-Between a, has_value_bounds b _ e)
      | inr e ↦ (last a, last-Between a, has_value_bounds b _ e)
    ]
  ]
]

first_lem : (n : Network) → IsWellFormed n → n.first / size n * size n ≡ n.first
first_lem n h = let d = div-add-mod' n.first (size n) in let z = h.aligned in omega arith

-- The shorter prefix is the larger block, by a power of two.
size_ratio :
    (a b : Network)
    → a.version ≡ b.version
    → b.prefixlen ≤ a.prefixlen
    → a.prefixlen ≤ width a.version
    → size b ≡ 2 ^ (a.prefixlen - b.prefixlen) * size a
unfolding size
size_ratio a b v le fits =
    let gap = a.prefixlen - b.prefixlen in
    let rest = width a.version - a.prefixlen in
    let sum : width a.version - b.prefixlen ≡ gap + rest = omega arith in
    ap (λ w. 2 ^ (width w - b.prefixlen)) (sym v) ∙ ap (λ (n : ℕ). 2 ^ n) sum ∙ pow2_add gap rest

subnet_of_bounds :
    (a b : Network) → b.first ≤ a.first → a.first + size a ≤ b.first + size b → subnet_of a b ≡ true
unfolding subnet_of
subnet_of_bounds a b l u = let p = size_pos a in let q = size_pos b in ground arith

nested :
    (a b : Network) (x : ℕ)
    → IsWellFormed a
    → IsWellFormed b
    → a.version ≡ b.version
    → b.prefixlen ≤ a.prefixlen
    → Between a x
    → Between b x
    → subnet_of a b ≡ true
nested a b x wa wb v le (al, ah) (bl, bh) =
    let s : ℕ = size a in
    let c : ℕ = 2 ^ (a.prefixlen - b.prefixlen) in
    let ratio = size_ratio a b v le wa.prefix_fits in
    let fa = first_lem a wa in
    let q : ℕ = b.first / size b in
    let fb : q * (c * s) ≡ b.first = ap (λ (t : ℕ). q * t) (sym ratio) ∙ first_lem b wb in
    let inside =
      blocks_nested s c (a.first / s) q x (omega arith) (omega arith) (omega arith) (omega arith) in
    subnet_of_bounds a b (omega arith) (omega arith)

same_version→≡ : (v w : Version) → same_version v w ≡ true → v ≡ w
same_version→≡ v w h = ground arith

and_parts : (a b : Bool) → (a && b) ≡ true → (a ≡ true) × (b ≡ true)
and_parts true b h = (refl, h)
and_parts false b h = cc h

overlaps-parts :
    (a b : Network)
    → overlaps a b ≡ true
    → (a.version ≡ b.version) × ((x : ℕ) × Between a x × Between b x)
unfolding overlaps
overlaps-parts a b h =
    let (v, s) = and_parts _ _ h in (same_version→≡ a.version b.version v, shared a b s)

-- Two well-formed networks that overlap have one version, and one lies in the other.
pub overlaps-nested :
    (a b : Network)
    → IsWellFormed a
    → IsWellFormed b
    → overlaps a b ≡ true
    → (a.version ≡ b.version) × ((subnet_of a b ≡ true) ⊎ (subnet_of b a ≡ true))
overlaps-nested a b wa wb h =
    let (v, meet) = overlaps-parts a b h in
    let (x, ia, ib) = meet in
    (
      v,
      elim (Bool-cases (leb b.prefixlen a.prefixlen)) [
        | inl e ↦ inl (nested a b x wa wb v (ground arith) ia ib)
        | inr e ↦ inr (nested b a x wb wa (sym v) (ground arith) ib ia)
      ],
    )
