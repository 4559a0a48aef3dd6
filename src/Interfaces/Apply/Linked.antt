-- ===== src/Interfaces/Apply/Linked.antt =====
-- All the objects of _apply_interfaces: there is one for each name, and it stays the key of the row of
-- its name while the next ones are created.
use zas.Prelude.{
  ℕ, ◌+◌, ◌<◌, ◌≡◌, refl, sym, ap, ◌∙◌, Bool, false, List, [], ◌∷◌, ◌++◌, ◌==◌, arith, All,
  All-append, inl, inr, select, ok,
}
use zas.Text.{Text, text_eq, text_eq_comm, is_one_of, keys}
use zas.Text.Distinct.{Distinct, is_one_of-cons}
use zas.Interfaces.{Interface, new_interface}
use zas.Interfaces.Apply.{same_interface, get_or_create, add_object, create_all, Created}
use zas.Interfaces.Apply.Creation.{IsFresh, LinkedTo, AtMostOne, Grown, get_or_create_lem}

-- the rows as each name in turn is fetched
abbrev pub Grew : ℕ → ℕ → List Text → List Interface → List Interface → Type 0
Grew id device [] rows rows' = rows' ≡ rows
Grew id device (n ∷ names) rows rows' =
    (mid : List Interface) × Grown id device n rows mid × Grew (id + 1) device names mid rows'

select-last :
    (p : Interface → Bool) (rows : List Interface) (x : Interface)
    → p x ≡ false
    → select p (rows ++ x ∷ []) ≡ select p rows
select-last p [] x h = rw h refl
select-last p (r ∷ rows) x h = rw (select-last p rows x h) refl

new_interface-other :
    (id device : ℕ) (name other : Text)
    → text_eq name other ≡ false
    → same_interface device other (new_interface id device name) ≡ false
unfolding same_interface new_interface
new_interface-other id device name other h = ground (arith, h)

Grown-AtMostOne :
    (id device : ℕ) (name other : Text) (rows rows' : List Interface)
    → text_eq name other ≡ false
    → Grown id device name rows rows'
    → AtMostOne device rows other
    → AtMostOne device rows' other
Grown-AtMostOne id device name other rows rows' h (inl e) one = rw e one
Grown-AtMostOne id device name other rows rows' h (inr e) one = rw e (
    rw
      (select-last (same_interface device other) rows (new_interface id device name)
        (new_interface-other id device name other h))
      one)

new_id : (id device : ℕ) (name : Text) → (new_interface id device name).id ≡ id
unfolding new_interface
new_id id device name = refl

Grown-LinkedTo :
    (id device : ℕ) (name : Text) (o : Text × ℕ) (rows rows' : List Interface)
    → text_eq name o.0 ≡ false
    → o.1 < id
    → Grown id device name rows rows'
    → LinkedTo device o rows
    → LinkedTo device o rows'
Grown-LinkedTo id device name o rows rows' h lt (inl e) link = rw e link
Grown-LinkedTo id device name o rows rows' h lt (inr e) link =
    let last : ((new_interface id device name).id == o.1) ≡ false =
      rw (new_id id device name) (ground (arith, lt)) in
    rw e (
      All-append _ rows (new_interface id device name ∷ []) link
        (last ∙ sym (new_interface-other id device name o.0 h), tt))

Grew-LinkedTo :
    (id device : ℕ) (names : List Text) (o : Text × ℕ) (rows rows' : List Interface)
    → is_one_of o.0 names ≡ false
    → o.1 < id
    → Grew id device names rows rows'
    → LinkedTo device o rows
    → LinkedTo device o rows'
Grew-LinkedTo id device [] o rows rows' h lt grew link = rw grew link
Grew-LinkedTo id device (n ∷ names) o rows rows' h lt (mid, grown, rest) link =
    let split = is_one_of-cons o.0 n names in
    Grew-LinkedTo (id + 1) device names o mid rows' (ground (arith, h, split)) (omega (arith, lt))
      rest
      (Grown-LinkedTo id device n o rows mid (ground (arith, h, split, text_eq_comm n o.0)) lt grown
        link)

pub Grew-All :
    (Q : Interface → Type 0) (id device : ℕ) (names : List Text) (rows rows' : List Interface)
    → All (λ n. (k : ℕ) → Q (new_interface k device n)) names
    → Grew id device names rows rows'
    → All Q rows
    → All Q rows'
Grew-All Q id device [] rows rows' new grew all = rw grew all
Grew-All Q id device (n ∷ names) rows rows' new (mid, inl e, rest) all =
    Grew-All Q (id + 1) device names mid rows' new.1 rest (rw e all)
Grew-All Q id device (n ∷ names) rows rows' new (mid, inr e, rest) all =
    Grew-All Q (id + 1) device names mid rows' new.1 rest
      (rw e (All-append Q rows (new_interface id device n ∷ []) all (new.0 id, tt)))

create_all-step :
    (id device : ℕ) (n : Text) (names : List Text) (rows mid : List Interface) (k : ℕ) (c : Created)
    → get_or_create id device n rows ≡ ok (k, mid)
    → create_all (id + 1) device names mid ≡ ok c
    → create_all id device (n ∷ names) rows ≡ ok (record c { iface_objs = (n, k) ∷ c.iface_objs })
unfolding create_all add_object
create_all-step id device n names rows mid k c e f = rw (e, create_all, f)

AtMostOne-names :
    (id device : ℕ) (n : Text) (names : List Text) (rows mid : List Interface)
    → is_one_of n names ≡ false
    → Grown id device n rows mid
    → All (AtMostOne device rows) names
    → All (AtMostOne device mid) names
AtMostOne-names id device n [] rows mid h grown one = tt
AtMostOne-names id device n (m ∷ names) rows mid h grown one =
    let split = is_one_of-cons n m names in
    (
      Grown-AtMostOne id device n m rows mid (ground (arith, h, split)) grown one.0,
      AtMostOne-names id device n names rows mid (ground (arith, h, split)) grown one.1,
    )

-- Where no name has two rows, all names get an object.
pub create_all_lem :
    (id device : ℕ) (names : List Text) (rows : List Interface)
    → IsFresh id rows
    → Distinct names
    → All (AtMostOne device rows) names
    → (c : Created) × (create_all id device names rows ≡ ok c)
      × (keys c.iface_objs ≡ names)
      × All (λ (o : Text × ℕ). LinkedTo device o c.rows) c.iface_objs
      × Grew id device names rows c.rows
create_all_lem id device [] rows fresh dis one =
    (record { iface_objs = []; rows = rows }, unfold create_all in refl, refl, tt, refl)
create_all_lem id device (n ∷ names) rows fresh dis one =
    let (k, mid, got, fetched, grown) = get_or_create_lem id device n rows fresh one.0 in
    let (c, created, named, links, grew) =
      create_all_lem (id + 1) device names mid fetched.2 dis.1
        (AtMostOne-names id device n names rows mid dis.0 grown one.1) in
    (
      record c { iface_objs = (n, k) ∷ c.iface_objs },
      create_all-step id device n names rows mid k c got created,
      ap (λ l. n ∷ l) named,
      (Grew-LinkedTo (id + 1) device names (n, k) mid c.rows dis.0 fetched.1 grew fetched.0, links),
      (mid, grown, grew),
    )
