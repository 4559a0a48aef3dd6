-- ===== src/Interfaces/Apply/Columns.antt =====
-- What _apply_interfaces leaves in the columns of the interfaces.
use zas.Prelude.{
  ℕ, ◌+◌, ◌≡◌, refl, sym, ap, ◌∙◌, Bool, true, false, not, Option, none, some, List, [], ◌∷◌, map,
  ◌==◌, ==_iff, arith, Some, Some-append, Some-map, ◌⊎◌, Bool-cases, inl, inr, select, is_empty,
  is_some, All, All-map, ok,
}
use zas.Text.{Text, get, is_one_of}
use zas.Interfaces.{Interface, infer_kind}
use zas.Interfaces.Reports.{IpParsers, IpData, Reports, Gathered, gather, seen_names}
use zas.Interfaces.Apply.{
  is_unseen, unlink, delete_unseen, apply_interfaces, lacks_vlan, is_routed_kind,
}
use zas.Interfaces.Apply.Creation.{IsFresh, AtMostOne}
use zas.Interfaces.Apply.Linked.{Grew}
use zas.Interfaces.Apply.Pass.{pass, synced-Keeps}
use zas.Interfaces.Apply.Kinds.{KindByName, KindByName-of}
use zas.Interfaces.Apply.Stale.{pass-address, pass-kind}
use zas.Interfaces.Apply.Total.{apply_interfaces_lem}

Grew-Some :
    (P : Interface → Type 0) (id device : ℕ) (names : List Text) (rows rows' : List Interface)
    → Grew id device names rows rows'
    → Some P rows
    → Some P rows'
Grew-Some P id device [] rows rows' grew h = rw grew h
Grew-Some P id device (n ∷ names) rows rows' (mid, inl e, rest) h =
    Grew-Some P (id + 1) device names mid rows' rest (rw e h)
Grew-Some P id device (n ∷ names) rows rows' (mid, inr e, rest) h =
    Grew-Some P (id + 1) device names mid rows' rest (rw e (Some-append P rows _ h))

-- a row that another one became, with the address that it had
abbrev SameAddress : Interface → Interface → Type 0
SameAddress r s = (s.id ≡ r.id) × (s.name ≡ r.name) × (s.ip_address ≡ r.ip_address)

later :
    (b : Bool) (P : Interface → Type 0) (r : Interface) (rows : List Interface)
    → (b ≡ true) ⊎ Some P rows
    → (b ≡ true) ⊎ Some P (r ∷ rows)
later b P r rows (inl h) = inl h
later b P r rows (inr h) = inr (inr h)

kept_rows :
    (q : Interface → Bool) (f : Interface → Interface) (rows : List Interface)
    → ((r : Interface) → SameAddress r (f r))
    → All (λ r. (q r ≡ true) ⊎ Some (SameAddress r) (map f (select (λ s. not (q s)) rows))) rows
kept_rows q f [] same = tt
kept_rows q f (r ∷ rows) same =
    let rest = kept_rows q f rows same in
    let keep = λ (s : Interface). not (q s) in
    elim (Bool-cases (q r)) [
      | inl e ↦
          let dropped : select keep (r ∷ rows) ≡ select keep rows = rw e refl in
          (inl e, All-map _ _ (λ s h. rw dropped h) rows rest)
      | inr e ↦
          let chosen : select keep (r ∷ rows) ≡ r ∷ select keep rows = rw e refl in
          (
            inr (rw chosen (inl (same r))),
            All-map _ _ (λ s h. rw chosen (later (q s) (SameAddress s) (f r) _ h)) rows rest,
          )
    ]

unlink-SameAddress : (gone : List Interface) (r : Interface) → SameAddress r (unlink gone r)
unfolding unlink
unlink-SameAddress gone r = (refl, refl, refl)

-- a row that the output names is still there after the deletion
abbrev IsLeft : List Text → List Interface → Interface → Type 0
IsLeft seen left r = (is_one_of r.name seen ≡ false) ⊎ Some (SameAddress r) left

unseen-IsLeft :
    (device : ℕ) (seen : List Text) (left : List Interface) (r : Interface)
    → (is_unseen device seen r ≡ true) ⊎ Some (SameAddress r) left
    → IsLeft seen left r
unfolding is_unseen
unseen-IsLeft device seen left r (inl h) = inl (ground (arith, h))
unseen-IsLeft device seen left r (inr h) = inr h

delete_unseen-IsLeft :
    (device : ℕ) (seen : List Text) (rows : List Interface)
    → is_empty seen ≡ false
    → All (IsLeft seen (delete_unseen device seen rows)) rows
unfolding delete_unseen
delete_unseen-IsLeft device seen rows e =
    let gone = select (is_unseen device seen) rows in
    rw e (
      All-map _ _ (unseen-IsLeft device seen _) rows
        (kept_rows (is_unseen device seen) (unlink gone) rows (unlink-SameAddress gone)))

pass-Keeps :
    (device : ℕ) (g : Gathered) (objs : List (Text × ℕ)) (r : Interface)
    → ((pass device g objs r).id ≡ r.id)
      × ((pass device g objs r).name ≡ r.name)
      × ((pass device g objs r).device ≡ r.device)
unfolding pass
pass-Keeps device g objs r = elim (Bool-cases (r.device == device)) [
  | inl own ↦ rw own (synced-Keeps g objs r)
  | inr other ↦ rw other (refl, refl, refl)
]

is_some-none : (o : Option IpData) → is_some o ≡ false → o ≡ none
is_some-none none h = refl
is_some-none (some d) h = cc h

-- the address of a row that is named, through the creation and the loops
abbrev pub Lasts : Gathered → List Interface → Interface → Type 0
Lasts g rows' r =
    (is_one_of r.name (seen_names g) ≡ false)
    ⊎ ((is_some (get r.name g.ips.ip_map) ≡ true) ⊎ Some (SameAddress r) rows')

left-Lasts :
    (lib : IpParsers) (reports : Reports) (g : Gathered) (device id : ℕ) (objs : List (Text × ℕ))
    (left rows' : List Interface) (r : Interface)
    → gather lib reports ≡ ok g
    → Grew id device (seen_names g) left rows'
    → IsLeft (seen_names g) left r
    → Lasts g (map (pass device g objs) rows') r
left-Lasts lib reports g device id objs left rows' r gathered grew (inl h) = inl h
left-Lasts lib reports g device id objs left rows' r gathered grew (inr h) =
    elim (Bool-cases (is_some (get r.name g.ips.ip_map))) [
      | inl has ↦ inr (inl has)
      | inr lacks ↦
          let nowhere : get r.name g.ips.ip_map ≡ none = is_some-none _ lacks in
          let step : (s : Interface) → SameAddress r s → SameAddress r (pass device g objs s) =
            λ s same.
              let (i, n, d) = pass-Keeps device g objs s in
              let unparsed : get s.name g.ips.ip_map ≡ none =
                ap (λ k. get k g.ips.ip_map) same.1 ∙ nowhere in
              (
                i ∙ same.0,
                n ∙ same.1,
                pass-address lib reports g device objs s gathered unparsed ∙ same.2,
              ) in
          inr (
            inr (
              Some-map (SameAddress r) (SameAddress r) (pass device g objs) step rows'
                (Grew-Some (SameAddress r) id device (seen_names g) left rows' grew h)))
    ]

passed-KindByName :
    (device : ℕ) (g : Gathered) (objs : List (Text × ℕ)) (rows : List Interface)
    → All (λ s. ((s.device == device) ≡ false) ⊎ KindByName s) (map (pass device g objs) rows)
passed-KindByName device g objs [] = tt
passed-KindByName device g objs (r ∷ rows) =
    let (i, n, d) = pass-Keeps device g objs r in
    (
      elim (Bool-cases (r.device == device)) [
        | inr e ↦ inl (ap (λ x. x == device) d ∙ e)
        | inl e ↦
            let (own, mode) = pass-kind device g objs r ((==_iff r.device device).0 e) in
            inr (
              KindByName-of (pass device g objs r) (own ∙ ap infer_kind (sym n)) (elim mode [
                | inl q ↦ inl (ap (λ x. is_routed_kind (infer_kind x)) n ∙ q)
                | inr q ↦ inr q
              ]))
      ],
      passed-KindByName device g objs rows,
    )

module _ (lib : IpParsers) (id device : ℕ) (reports : Reports) (rows : List Interface)
    (g : Gathered) (gathered : gather lib reports ≡ ok g)
    (some_name : is_empty (seen_names g) ≡ false) (fresh : IsFresh id rows)
    (one : All (AtMostOne device rows) (seen_names g))
    (have : All (λ n. lacks_vlan (get n g.status_map) ≡ false) (seen_names g)) where
  -- Where the loops over the parsed output raise no error and name some interface, no name has two rows
  -- of the device, the keys of the new rows are fresh, and each reported state carries a VLAN, the sync
  -- of the interfaces succeeds; and each row whose name the output holds, but without a parsable
  -- address, is in the table afterwards under its key and its name, with the address that it had.
  pub stale_address :
      (rows' : List Interface) × (apply_interfaces lib id device reports rows ≡ ok rows')
      × All (Lasts g rows') rows
  stale_address =
      let (c, stored, named, good, grew) =
        apply_interfaces_lem lib id device reports rows g gathered some_name fresh one have in
      (
        map (pass device g c.iface_objs) c.rows,
        stored,
        All-map _ _
            (λ r h. left-Lasts lib reports g device id c.iface_objs _ c.rows r gathered grew h) rows
            (delete_unseen-IsLeft device (seen_names g) rows some_name),
      )

  -- Where the loops over the parsed output raise no error and name some interface, no name has two rows
  -- of the device, the keys of the new rows are fresh, and each reported state carries a VLAN, the sync
  -- of the interfaces succeeds. Afterwards each interface of the device whose name begins with "vlan",
  -- "loopback" or "tunnel", up to case, has the kind of that name and is in layer 3, whatever VLAN is
  -- reported for it; one whose name begins with "po" is a port channel, and any other is physical.
  pub apply_interfaces-kind :
      (rows' : List Interface) × (apply_interfaces lib id device reports rows ≡ ok rows')
      × All (λ s. ((s.device == device) ≡ false) ⊎ KindByName s) rows'
  apply_interfaces-kind =
      let (c, stored, named, good, grew) =
        apply_interfaces_lem lib id device reports rows g gathered some_name fresh one have in
      (
        map (pass device g c.iface_objs) c.rows,
        stored,
        passed-KindByName device g c.iface_objs c.rows,
      )
