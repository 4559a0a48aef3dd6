-- ===== src/Interfaces/Apply/Kinds.antt =====
-- The kind that _infer_kind reads from the beginning of a name, and the mode that goes with it.
use zas.Prelude.{
  ℕ, ◌≡◌, refl, ap, ◌∙◌, true, false, some, [], ◌∷◌, ◌==◌, arith, ◌⊎◌, Bool-cases, inl, inr, any,
}
use zas.Text.{Text, codes, lower, starts_with}
use zas.Interfaces.{
  Interface, InterfaceKind, infer_kind, l3, port_channel, svi, loopback, tunnel, physical,
}
use zas.Interfaces.Apply.{is_routed_kind}

-- two prefixes with different first letters
starts_apart :
    (c d : ℕ) (a b n : Text)
    → (c == d) ≡ false
    → starts_with n (c ∷ a) ≡ true
    → starts_with n (d ∷ b) ≡ false
unfolding starts_with
starts_apart c d a b [] apart h = refl
starts_apart c d a b (x ∷ n) apart h = ground (arith, apart, h)

-- the kind and the mode that the beginning of the name asks for
abbrev pub Begins : Text → Interface → InterfaceKind → Type 0
Begins p s k = (starts_with (lower s.name) p ≡ false) ⊎ ((s.kind ≡ k) × (s.mode ≡ some l3))

abbrev pub KindByName : Interface → Type 0
KindByName s =
    Begins (codes "vlan") s svi
    × Begins (codes "loopback") s loopback
    × Begins (codes "tunnel") s tunnel
    × ((starts_with (lower s.name) (codes "po") ≡ false) ⊎ (s.kind ≡ port_channel))
    × ((any (starts_with (lower s.name))
            (codes "vlan" ∷ codes "loopback" ∷ codes "tunnel" ∷ codes "po" ∷ [])
          ≡ true)
        ⊎ (s.kind ≡ physical))

infer-port_channel :
    (name : Text) → starts_with (lower name) (codes "po") ≡ true → infer_kind name ≡ port_channel
unfolding infer_kind
infer-port_channel name h = rw h refl

infer-svi : (name : Text) → starts_with (lower name) (codes "vlan") ≡ true → infer_kind name ≡ svi
unfolding infer_kind
infer-svi name h = rw (starts_apart b'v' b'p' (codes "lan") (codes "o") (lower name) refl h, h) refl

infer-loopback :
    (name : Text) → starts_with (lower name) (codes "loopback") ≡ true → infer_kind name ≡ loopback
unfolding infer_kind
infer-loopback name h =
    rw
      (
        starts_apart b'l' b'p' (codes "oopback") (codes "o") (lower name) refl h,
        starts_apart b'l' b'v' (codes "oopback") (codes "lan") (lower name) refl h,
        h,
      )
      refl

infer-tunnel :
    (name : Text) → starts_with (lower name) (codes "tunnel") ≡ true → infer_kind name ≡ tunnel
unfolding infer_kind
infer-tunnel name h =
    rw
      (
        starts_apart b't' b'p' (codes "unnel") (codes "o") (lower name) refl h,
        starts_apart b't' b'v' (codes "unnel") (codes "lan") (lower name) refl h,
        starts_apart b't' b'l' (codes "unnel") (codes "oopback") (lower name) refl h,
        h,
      )
      refl

infer-physical :
    (name : Text)
    → any
        (starts_with (lower name))
        (codes "vlan" ∷ codes "loopback" ∷ codes "tunnel" ∷ codes "po" ∷ [])
      ≡ false
    → infer_kind name ≡ physical
unfolding infer_kind
infer-physical name h =
    let po : starts_with (lower name) (codes "po") ≡ false = ground (arith, h) in
    let vlan : starts_with (lower name) (codes "vlan") ≡ false = ground (arith, h) in
    let lo : starts_with (lower name) (codes "loopback") ≡ false = ground (arith, h) in
    let tu : starts_with (lower name) (codes "tunnel") ≡ false = ground (arith, h) in
    rw (po, vlan, lo, tu) refl

routed_mode :
    (s : Interface) (k : InterfaceKind)
    → infer_kind s.name ≡ k
    → is_routed_kind k ≡ true
    → (is_routed_kind (infer_kind s.name) ≡ false) ⊎ (s.mode ≡ some l3)
    → s.mode ≡ some l3
routed_mode s k e routed (inl h) = cc (ap is_routed_kind e, routed, h)
routed_mode s k e routed (inr h) = h

begins_lem :
    (p : Text) (k : InterfaceKind) (s : Interface)
    → (starts_with (lower s.name) p ≡ true → infer_kind s.name ≡ k)
    → is_routed_kind k ≡ true
    → s.kind ≡ infer_kind s.name
    → (is_routed_kind (infer_kind s.name) ≡ false) ⊎ (s.mode ≡ some l3)
    → Begins p s k
begins_lem p k s decides routed own mode = elim (Bool-cases (starts_with (lower s.name) p)) [
  | inr e ↦ inl e
  | inl e ↦ inr (own ∙ decides e, routed_mode s k (decides e) routed mode)
]

pub KindByName-of :
    (s : Interface)
    → s.kind ≡ infer_kind s.name
    → (is_routed_kind (infer_kind s.name) ≡ false) ⊎ (s.mode ≡ some l3)
    → KindByName s
KindByName-of s own mode =
    let n = lower s.name in
    (
      begins_lem (codes "vlan") svi s (infer-svi s.name) (unfold is_routed_kind in refl) own mode,
      begins_lem (codes "loopback") loopback s (infer-loopback s.name)
          (unfold is_routed_kind in refl) own mode,
      begins_lem (codes "tunnel") tunnel s (infer-tunnel s.name) (unfold is_routed_kind in refl) own
          mode,
      elim (Bool-cases (starts_with n (codes "po"))) [
        | inr e ↦ inl e
        | inl e ↦ inr (own ∙ infer-port_channel s.name e)
      ],
      elim (Bool-cases (
          any (starts_with n)
            (codes "vlan" ∷ codes "loopback" ∷ codes "tunnel" ∷ codes "po" ∷ []))) [
              | inl e ↦ inl e
              | inr e ↦ inr (own ∙ infer-physical s.name e)
            ],
    )
