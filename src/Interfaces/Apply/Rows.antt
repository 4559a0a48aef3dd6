-- ===== src/Interfaces/Apply/Rows.antt =====
-- The loops of _apply_interfaces, row by row.
use mathlib.Core.List.{map-map}
use zas.Prelude.{
  ℕ, ◌≡◌, refl, sym, ap, ◌∙◌, true, false, Option, none, some, List, [], ◌∷◌, map, ◌==◌,
  if◌then◌else◌, arith, All, Bool-cases, Option-cases, or_else, inl, inr,
}
use zas.Text.{Text, text_eq, text_eq_iff, is_one_of, get, keys}
use zas.Text.Distinct.{Distinct, get-some, get-cons_eq, get-cons_ne, is_one_of-cons}
use zas.Interfaces.{Interface}
use zas.Interfaces.Apply.{same_interface, edit, each}

-- the function leaves the key and the name of a row as they are
abbrev pub Keeps : (Interface → Interface) → Type 0
Keeps f = (r : Interface) → ((f r).id ≡ r.id) × ((f r).name ≡ r.name) × ((f r).device ≡ r.device)

-- The dictionary of the objects holds the key of this row under its name, if it is the device's, and
-- no other entry has the key.
abbrev pub Linked : ℕ → List (Text × ℕ) → Interface → Type 0
Linked device objs r = All (λ (o : Text × ℕ). (r.id == o.1) ≡ same_interface device o.0 r) objs

abbrev pub IsSeen : ℕ → List (Text × ℕ) → Interface → Type 0
IsSeen device objs r = (r.device == device) ≡ true → is_one_of r.name (keys objs) ≡ true

pub map-id_lem : (rows : List Interface) → map (λ r. r) rows ≡ rows
map-id_lem [] = refl
map-id_lem (r ∷ rows) = ap (λ l. r ∷ l) (map-id_lem rows)

pub map-same :
    (g : Interface → Interface)
    → ((r : Interface) → g r ≡ r)
    → (rows : List Interface) → rows ≡ map g rows
map-same g e [] = refl
map-same g e (r ∷ rows) = cc (e r, map-same g e rows)

pub map_ext :
    (P : Interface → Type 0) (f g : Interface → Interface)
    → ((r : Interface) → P r → f r ≡ g r)
    → (rows : List Interface) → All P rows
    → map f rows ≡ map g rows
map_ext P f g e [] h = refl
map_ext P f g e (r ∷ rows) h = cc (e r h.0, map_ext P f g e rows h.1)

unfoldable pub hit : ℕ → (Interface → Interface) → Interface → Interface
hit k f r = if r.id == k then f r else r

unfoldable pub each_row : (Text → Interface → Interface) → List (Text × ℕ) → Interface → Interface
unfolding hit
each_row f [] r = r
each_row f (o ∷ objs) r = each_row f objs (hit o.1 (f o.0) r)

pub each_lem :
    (f : Text → Interface → Interface) (objs : List (Text × ℕ)) (rows : List Interface)
    → each f objs rows ≡ map (each_row f objs) rows
unfolding each each_row edit hit
each_lem f [] rows = sym (map-id_lem rows)
each_lem f (o ∷ objs) rows =
    each_lem f objs (edit o.1 (f o.0) rows) ∙ map-map (each_row f objs) (hit o.1 (f o.0)) rows

-- a row whose key no object has
each_row-miss :
    (f : Text → Interface → Interface) (objs : List (Text × ℕ)) (r : Interface)
    → All (λ (o : Text × ℕ). (r.id == o.1) ≡ false) objs
    → each_row f objs r ≡ r
unfolding each_row hit
each_row-miss f [] r h = refl
each_row-miss f (o ∷ objs) r h = rw h.0 (each_row-miss f objs r h.1)

miss :
    (device : ℕ) (objs : List (Text × ℕ)) (r s : Interface)
    → s.id ≡ r.id
    → Linked device objs r
    → is_one_of r.name (keys objs) ≡ false
    → All (λ (o : Text × ℕ). (s.id == o.1) ≡ false) objs
unfolding same_interface
miss device [] r s e link absent = tt
miss device (o ∷ objs) r s e link absent =
    let split = is_one_of-cons r.name o.0 (keys objs) in
    (
      rw e (ground (arith, link.0, absent, split)),
      miss device objs r s e link.1 (ground (arith, absent, split)),
    )

-- A loop over the objects does its step once, to the rows of the device.
pub each_row_lem :
    (device : ℕ) (f : Text → Interface → Interface) (objs : List (Text × ℕ)) (r : Interface)
    → ((name : Text) → Keeps (f name))
    → Distinct (keys objs)
    → Linked device objs r
    → IsSeen device objs r
    → each_row f objs r ≡ (if r.device == device then f r.name r else r)
unfolding each_row hit same_interface
each_row_lem device f [] r keep dis link seen = elim (Bool-cases (r.device == device)) [
  | inl e ↦ absurd (unfold is_one_of in cc (seen e))
  | inr e ↦ rw e refl
]
each_row_lem device f (o ∷ objs) r keep dis link seen =
    let split = is_one_of-cons r.name o.0 (keys objs) in
    elim (Bool-cases (r.id == o.1)) [
      | inl e ↦
          let same : text_eq r.name o.0 ≡ true = ground (arith, e, link.0) in
          let own : (r.device == device) ≡ true = ground (arith, e, link.0) in
          let name = (text_eq_iff r.name o.0).0 same in
          rw (e, own)
            (each_row-miss f objs (f o.0 r)
                (miss device objs r (f o.0 r) (keep o.0 r).0 link.1 (rw name dis.0))
              ∙ ap (λ n. f n r) (sym name))
      | inr e ↦ rw e (
          each_row_lem device f objs r keep dis.1 link.1
            (λ own. ground (arith, seen own, split, own, e, link.0)))
    ]

-- one turn of a loop over a dictionary whose entries are the rows' names
unfoldable pub hit_some : Option ℕ → (Interface → Interface) → Interface → Interface
unfolding hit
hit_some none f r = r
hit_some (some k) f r = hit k f r

unfoldable pub dict_row :
    {V : Type 0}
    → (V → Interface → Interface)
    → List (Text × ℕ)
    → List (Text × V)
    → Interface
    → Interface
unfolding hit_some
dict_row f objs [] r = r
dict_row f objs (e ∷ d) r = dict_row f objs d (hit_some (get e.0 objs) (f e.1) r)

pub get-Linked :
    (device : ℕ) (name : Text) (objs : List (Text × ℕ)) (r : Interface) {k : ℕ}
    → Linked device objs r
    → get name objs ≡ some k
    → (r.id == k) ≡ same_interface device name r
get-Linked device name [] r link h = absurd (unfold get in cc h)
get-Linked device name (o ∷ objs) r link h = elim (Bool-cases (text_eq o.0 name)) [
  | inl e ↦
      let found : o.1 ≡ _ = ap (λ z. or_else z 0) (sym (get-cons_eq name o objs e) ∙ h) in
      rw (← found) (link.0 ∙ ap (λ n. same_interface device n r) ((text_eq_iff o.0 name).0 e))
  | inr e ↦ get-Linked device name objs r link.1 (sym (get-cons_ne name o objs e) ∙ h)
]

-- the rows of the device have an object
not_here :
    (device : ℕ) (name : Text) (objs : List (Text × ℕ)) (r : Interface)
    → IsSeen device objs r
    → get name objs ≡ none
    → same_interface device name r ≡ false
unfolding same_interface
not_here device name objs r seen h = elim (Bool-cases (r.device == device)) [
  | inr e ↦ rw e refl
  | inl e ↦ rw e (elim (Bool-cases (text_eq r.name name)) [
    | inr f ↦ f
    | inl f ↦
        let (k, got) = get-some r.name objs (seen e) in cc (h, got, (text_eq_iff r.name name).0 f)
  ])
]

pub hit_some_lem :
    (device : ℕ) (f : Interface → Interface) (name : Text) (objs : List (Text × ℕ)) (r : Interface)
    → Linked device objs r
    → IsSeen device objs r
    → hit_some (get name objs) f r ≡ (if same_interface device name r then f r else r)
unfolding hit_some hit
hit_some_lem device f name objs r link seen = elim (Option-cases (get name objs)) [
  | inl e ↦ rw (e, not_here device name objs r seen e) refl
  | inr (k, e) ↦ rw (e, get-Linked device name objs r link e) refl
]

-- the step for the entry of the row's name, if there is one
unfoldable pub at_entry :
    {V : Type 0} → (V → Interface → Interface) → Option V → Interface → Interface
at_entry f none r = r
at_entry f (some v) r = f v r

-- what the two facts on a row say of a row with the same key and name
pub Linked-of :
    (device : ℕ) (objs : List (Text × ℕ)) (r s : Interface)
    → s.id ≡ r.id
    → s.name ≡ r.name
    → s.device ≡ r.device
    → Linked device objs r
    → Linked device objs s
unfolding same_interface
Linked-of device [] r s i n d link = tt
Linked-of device (o ∷ objs) r s i n d link =
    (rw (i, n, d) link.0, Linked-of device objs r s i n d link.1)

pub IsSeen-of :
    (device : ℕ) (objs : List (Text × ℕ)) (r s : Interface)
    → s.name ≡ r.name
    → s.device ≡ r.device
    → IsSeen device objs r
    → IsSeen device objs s
IsSeen-of device objs r s n d seen own = rw n (seen (rw d at own))

pub dict_row-miss :
    {V : Type 0} (device : ℕ) (f : V → Interface → Interface) (objs : List (Text × ℕ))
    (d : List (Text × V)) (r : Interface)
    → Linked device objs r
    → IsSeen device objs r
    → is_one_of r.name (keys d) ≡ false
    → dict_row f objs d r ≡ r
unfolding dict_row same_interface
dict_row-miss device f objs [] r link seen absent = refl
dict_row-miss device f objs (e ∷ d) r link seen absent =
    let split = is_one_of-cons r.name e.0 (keys d) in
    let other : text_eq r.name e.0 ≡ false = ground (arith, absent, split) in
    let stays : hit_some (get e.0 objs) (f e.1) r ≡ r =
      hit_some_lem device (f e.1) e.0 objs r link seen ∙ ground (arith, other) in
    rw stays (dict_row-miss device f objs d r link seen (ground (arith, absent, split)))
