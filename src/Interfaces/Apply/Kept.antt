-- ===== src/Interfaces/Apply/Kept.antt =====
-- What the deletion of _apply_interfaces keeps, and what its last loops need.
use zas.Prelude.{
  ℕ, suc, ◌<◌, ◌≡◌, refl, ap, Bool, true, false, not, List, [], ◌∷◌, map, ◌==◌, arith, All, All-map,
  Bool-cases, inl, inr, select, length, is_empty, All-select, All-select-not, length-select-select,
}
use zas.Text.{Text, text_eq_refl, is_one_of}
use zas.Text.Distinct.{is_one_of-cons}
use zas.Interfaces.{Interface, new_interface}
use zas.Interfaces.Apply.{same_interface, is_unseen, unlink, delete_unseen}
use zas.Interfaces.Apply.Rows.{Keeps}
use zas.Interfaces.Apply.Creation.{IdsUnique, IsFresh, AtMostOne}

unlink-Keeps : (gone : List Interface) → Keeps (unlink gone)
unfolding unlink
unlink-Keeps gone r = (refl, refl, refl)

All-map_rows :
    (P : Interface → Type 0) (f : Interface → Interface)
    → ((r : Interface) → P r → P (f r))
    → (rows : List Interface) → All P rows
    → All P (map f rows)
All-map_rows P f k [] h = tt
All-map_rows P f k (r ∷ rows) h = (k r h.0, All-map_rows P f k rows h.1)

All-map-of :
    (P Q : Interface → Type 0) (f : Interface → Interface)
    → ((r : Interface) → P r → Q (f r))
    → (rows : List Interface) → All P rows
    → All Q (map f rows)
All-map-of P Q f k [] h = tt
All-map-of P Q f k (r ∷ rows) h = (k r h.0, All-map-of P Q f k rows h.1)

IdsUnique-select :
    (p : Interface → Bool) (rows : List Interface) → IdsUnique rows → IdsUnique (select p rows)
IdsUnique-select p [] h = tt
IdsUnique-select p (r ∷ rows) h =
    let rest = IdsUnique-select p rows h.1 in
    elim (Bool-cases (p r)) [ inl e ↦ rw e (All-select _ p rows h.0, rest) | inr e ↦ rw e rest ]

IdsUnique-map :
    (f : Interface → Interface)
    → Keeps f
    → (rows : List Interface) → IdsUnique rows
    → IdsUnique (map f rows)
IdsUnique-map f keep [] h = tt
IdsUnique-map f keep (r ∷ rows) h = (
  rw (keep r).0 (
      All-map_rows (λ (s : Interface). (s.id == r.id) ≡ false) f (λ s q. rw (keep s).0 q) rows h.0),
  IdsUnique-map f keep rows h.1,
)

pub delete_unseen-IsFresh :
    (id device : ℕ) (seen : List Text) (rows : List Interface)
    → IsFresh id rows
    → IsFresh id (delete_unseen device seen rows)
unfolding delete_unseen
delete_unseen-IsFresh id device seen rows h = elim (Bool-cases (is_empty seen)) [
  | inl e ↦ rw e h
  | inr e ↦
      let gone = select (is_unseen device seen) rows in
      let left = select (λ r. not (is_unseen device seen r)) rows in
      rw e (
        IdsUnique-map (unlink gone) (unlink-Keeps gone) left (IdsUnique-select _ rows h.0),
        All-map_rows (λ (r : Interface). r.id < id) (unlink gone)
            (λ r q. rw (unlink-Keeps gone r).0 q) left (All-select _ _ rows h.1),
      )
]

length-select-map :
    (p : Interface → Bool) (f : Interface → Interface)
    → ((r : Interface) → p (f r) ≡ p r)
    → (rows : List Interface) → length (select p (map f rows)) ≡ length (select p rows)
length-select-map p f e [] = refl
length-select-map p f e (r ∷ rows) =
    let ih = length-select-map p f e rows in
    elim (Bool-cases (p r)) [ inl h ↦ rw (e r, h) (ap (λ n. suc n) ih) | inr h ↦ rw (e r, h) ih ]

unlink-same :
    (device : ℕ) (name : Text) (gone : List Interface) (r : Interface)
    → same_interface device name (unlink gone r) ≡ same_interface device name r
unfolding same_interface unlink
unlink-same device name gone r = refl

pub delete_unseen-AtMostOne :
    (device : ℕ) (seen : List Text) (rows : List Interface) (name : Text)
    → AtMostOne device rows name
    → AtMostOne device (delete_unseen device seen rows) name
unfolding delete_unseen
delete_unseen-AtMostOne device seen rows name h = elim (Bool-cases (is_empty seen)) [
  | inl e ↦ rw e h
  | inr e ↦
      let gone = select (is_unseen device seen) rows in
      let left = select (λ r. not (is_unseen device seen r)) rows in
      let p = same_interface device name in
      let size = length-select-map p (unlink gone) (unlink-same device name gone) left in
      let fewer = length-select-select p (λ r. not (is_unseen device seen r)) rows in
      rw e (omega (arith, size, fewer, h))
]

-- the rows of the device that are left, and those that are created, have a name of the output
abbrev pub IsNamed : ℕ → List Text → Interface → Type 0
IsNamed device seen r = (r.device == device) ≡ true → is_one_of r.name seen ≡ true

unseen-IsNamed :
    (device : ℕ) (seen : List Text) (gone : List Interface) (r : Interface)
    → is_unseen device seen r ≡ false
    → IsNamed device seen (unlink gone r)
unfolding is_unseen unlink
unseen-IsNamed device seen gone r h own = ground (arith, h, own)

pub delete_unseen-IsNamed :
    (device : ℕ) (seen : List Text) (rows : List Interface)
    → is_empty seen ≡ false
    → All (IsNamed device seen) (delete_unseen device seen rows)
unfolding delete_unseen
delete_unseen-IsNamed device seen rows e =
    let gone = select (is_unseen device seen) rows in
    rw e (
      All-map-of (λ r. is_unseen device seen r ≡ false) (IsNamed device seen) (unlink gone)
        (unseen-IsNamed device seen gone) _ (All-select-not (is_unseen device seen) rows))

new_interface-IsNamed :
    (device : ℕ) (seen : List Text) (name : Text)
    → is_one_of name seen ≡ true
    → (k : ℕ) → IsNamed device seen (new_interface k device name)
unfolding new_interface
new_interface-IsNamed device seen name h k own = h

is_one_of_self : (seen : List Text) → All (λ n. is_one_of n seen ≡ true) seen
is_one_of_self [] = tt
is_one_of_self (n ∷ seen) = (
  rw (is_one_of-cons n n seen, text_eq_refl n) refl,
  All-map (λ m. is_one_of m seen ≡ true) (λ m. is_one_of m (n ∷ seen) ≡ true)
      (λ m h. rw (is_one_of-cons m n seen) (ground (arith, h))) seen (is_one_of_self seen),
)

pub new_names :
    (device : ℕ) (seen : List Text)
    → All (λ n. (k : ℕ) → IsNamed device seen (new_interface k device n)) seen
new_names device seen =
    All-map (λ n. is_one_of n seen ≡ true) _ (new_interface-IsNamed device seen) seen
      (is_one_of_self seen)
