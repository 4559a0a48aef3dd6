-- ===== src/Ipam/Prefixes/Loop.antt =====
-- The loop of PrefixValidationService._validate_overlaps over the siblings.
use zas.Prelude.{
  ◌≡◌, refl, sym, ◌∙◌, ◌≢◌, ◌⊎◌, inl, inr, Bool, true, false, not, ◌&&◌, Option, none, some, List,
  [], ◌∷◌, ◌++◌, arith, if◌then◌else◌, Bool-cases, select, All,
}
use mathlib.Core.List.{append-nil, append_assoc}
use zas.Ipam.{Prefix}
use zas.Ipam.Network.{Network, Parser, IsWellFormed, subnet_of, overlaps, network_eq}
use zas.Ipam.Network.Nested.{overlaps-nested}
use zas.Ipam.Prefixes.{crosses, Scan, stop, containing, scan_one, scan}

-- The last test of the loop never holds.
no_crossing :
    (n m : Network)
    → IsWellFormed n
    → IsWellFormed m
    → (overlaps n m && (not (subnet_of n m) && not (subnet_of m n))) ≡ false
no_crossing n m wn wm = elim (Bool-cases (overlaps n m)) [
  | inl e ↦ elim (overlaps-nested n m wn wm e).1 [ inl s ↦ rw (e, s) | inr s ↦ ground arith ]
  | inr e ↦ rw e
]

scan_step :
    (io : Parser) (n : Network) (o : Prefix) (others acc : List Prefix)
    → scan io n (o ∷ others) acc ≡ scan_one n o (io.ip_network o.cidr) (scan io n others) acc
unfolding scan
scan_step io n o others acc = refl

module _ (io : Parser) (n : Network) where
  -- the sibling's network contains the network that is validated
  abbrev pub holds_network : Option Network → Bool
  holds_network none = false
  holds_network (some m) = overlaps n m && subnet_of n m

  -- the sibling has no network, or another than the one that is validated
  abbrev pub Differs : Option Network → Type 0
  Differs none = Unit
  Differs (some m) = (overlaps n m && network_eq n m) ≡ false

  abbrev pub holds : Prefix → Bool
  holds o = holds_network (io.ip_network o.cidr)

  scan_one-stop :
      (w : IsWellFormed n) (o q : Prefix) (r : Option Network)
      → io.ip_network o.cidr ≡ r
      → (rest : List Prefix → Scan) → ((acc : List Prefix) → rest acc ≢ stop (crosses q))
      → (acc : List Prefix) → scan_one n o r rest acc ≢ stop (crosses q)
  unfolding scan_one
  scan_one-stop w o q none e rest ih acc h = ih acc h
  scan_one-stop w o q (some m) e rest ih acc h =
      ground (arith, no_crossing n m w (io.strict o.cidr m e), ih acc, ih (acc ++ o ∷ []))

  -- The loop over the siblings never ends in the error that names a prefix which overlaps and is not
  -- nested, since well-formed networks that overlap are nested. The condition is that the network is
  -- well-formed, as the strict parser promises.
  pub scan-ne-crosses :
      (w : IsWellFormed n) (q : Prefix) (others acc : List Prefix)
      → scan io n others acc ≢ stop (crosses q)
  scan-ne-crosses w q [] acc = unfold scan in λ h. cc h
  scan-ne-crosses w q (o ∷ others) acc = rw (scan_step io n o others acc) (
      scan_one-stop w o q (io.ip_network o.cidr) refl (scan io n others)
        (scan-ne-crosses w q others) acc)

  -- What the loop gathers when it runs to its end.
  abbrev pub Gathers : List Prefix → (List Prefix → Scan) → Type 0
  Gathers others rest =
      (acc cs : List Prefix)
      → rest acc ≡ containing cs
      → All (λ o. Differs (io.ip_network o.cidr)) others × (cs ≡ acc ++ select holds others)

  scan_one-Differs :
      (o : Prefix) (rest : List Prefix → Scan) (m : Network) (acc cs : List Prefix)
      → scan_one n o (some m) rest acc ≡ containing cs
      → (overlaps n m && network_eq n m) ≡ false
  unfolding scan_one
  scan_one-Differs o rest m acc cs h = ground arith

  scan_one-goes :
      (o : Prefix) (rest : List Prefix → Scan) (m : Network) (acc cs : List Prefix)
      → scan_one n o (some m) rest acc ≡ containing cs
      → ((holds_network (some m) ≡ false) × (rest acc ≡ containing cs))
        ⊎ ((holds_network (some m) ≡ true) × (rest (acc ++ o ∷ []) ≡ containing cs))
  unfolding scan_one
  scan_one-goes o rest m acc cs h = ground arith

  gather :
      (o : Prefix) (others : List Prefix) (rest : List Prefix → Scan)
      → Gathers others rest
      → (r : Option Network) (acc cs : List Prefix) → scan_one n o r rest acc ≡ containing cs
      → (Differs r × All (λ o. Differs (io.ip_network o.cidr)) others)
        × (cs ≡ acc ++ (if holds_network r then o ∷ select holds others else select holds others))
  gather o others rest ih none acc cs h =
      let (differ, e) = ih acc cs (unfold scan_one in h) in ((tt, differ), e)
  gather o others rest ih (some m) acc cs h =
      let own = scan_one-Differs o rest m acc cs h in
      elim (scan_one-goes o rest m acc cs h) [
        | inl (e, go) ↦ let (differ, same) = ih acc cs go in rw e ((own, differ), same)
        | inr (e, go) ↦
            let (differ, same) = ih (acc ++ o ∷ []) cs go in
            rw e ((own, differ), same ∙ append_assoc acc (o ∷ []) (select holds others))
      ]

  scan_one-Gathers :
      (o : Prefix) (others : List Prefix) (rest : List Prefix → Scan)
      → Gathers others rest
      → Gathers (o ∷ others) (scan_one n o (io.ip_network o.cidr) rest)
  scan_one-Gathers o others rest ih acc cs h =
      gather o others rest ih (io.ip_network o.cidr) acc cs h

  pub scan-Gathers : (others : List Prefix) → Gathers others (scan io n others)
  scan-Gathers [] acc cs h = (tt, rw (append-nil acc) (unfold scan in cc h))
  scan-Gathers (o ∷ others) acc cs h =
      scan_one-Gathers o others (scan io n others) (scan-Gathers others) acc cs
        (sym (scan_step io n o others acc) ∙ h)
