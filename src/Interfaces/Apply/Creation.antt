-- ===== src/Interfaces/Apply/Creation.antt =====
-- The objects that _apply_interfaces fetches or creates: each has the key of the one row of its name.
use zas.Prelude.{
  KeysUnique, ℕ, ◌+◌, ◌≤◌, ◌<◌, ◌≡◌, refl, sym, ◌∙◌, Bool, true, false, List, [], ◌∷◌, ◌++◌, ◌==◌,
  arith, All, All-append, All-map, All-both, Bool-cases, ◌⊎◌, inl, inr, select, length, ok,
}
use zas.Text.{Text, text_eq_refl}
use zas.Interfaces.{Interface, new_interface}
use zas.Interfaces.Apply.{same_interface, found_or_new, get_or_create}

-- the primary keys are all different
abbrev pub IdsUnique : List Interface → Type 0
IdsUnique rows = KeysUnique (λ (r : Interface). r.id) rows

-- the keys are below the next one
abbrev pub Below : ℕ → List Interface → Type 0
Below id rows = All (λ (r : Interface). r.id < id) rows

-- among these rows, those with the key of the object are those with its name
abbrev pub LinkedTo : ℕ → Text × ℕ → List Interface → Type 0
LinkedTo device o rows = All (λ (r : Interface). (r.id == o.1) ≡ same_interface device o.0 r) rows

abbrev pub AtMostOne : ℕ → List Interface → Text → Type 0
AtMostOne device rows name = length (select (same_interface device name) rows) ≤ 1

module _ (p : Interface → Bool) where
  pub none_hit : (rows : List Interface) → select p rows ≡ [] → All (λ r. p r ≡ false) rows
  none_hit [] h = tt
  none_hit (r ∷ rows) h = elim (Bool-cases (p r)) [
    | inl e ↦ cc (rw e at h)
    | inr e ↦ (e, none_hit rows (rw e at h))
  ]

  hit-Below :
      (id : ℕ) (rows : List Interface) (x : Interface)
      → Below id rows
      → select p rows ≡ x ∷ []
      → x.id < id
  hit-Below id [] x below h = cc h
  hit-Below id (r ∷ rows) x below h = elim (Bool-cases (p r)) [
    | inl e ↦ let same : r ≡ x = cc (rw e at h) in rw (← same) below.0
    | inr e ↦ hit-Below id rows x below.1 (rw e at h)
  ]

  -- a row whose key is none of these rows' has not the key of a hit
  hit_apart :
      (r : Interface) (rows : List Interface) (x : Interface)
      → All (λ (s : Interface). (s.id == r.id) ≡ false) rows
      → select p rows ≡ x ∷ []
      → (r.id == x.id) ≡ false
  hit_apart r [] x apart h = cc h
  hit_apart r (s ∷ rows) x apart h = elim (Bool-cases (p s)) [
    | inl e ↦ let same : s ≡ x = cc (rw e at h) in rw (← same) (ground (arith, apart.0))
    | inr e ↦ hit_apart r rows x apart.1 (rw e at h)
  ]

  one_hit :
      (rows : List Interface) (x : Interface)
      → IdsUnique rows
      → select p rows ≡ x ∷ []
      → All (λ (r : Interface). (r.id == x.id) ≡ p r) rows
  one_hit [] x unique h = tt
  one_hit (r ∷ rows) x unique h = elim (Bool-cases (p r)) [
    | inl e ↦
        let same : r ≡ x = cc (rw e at h) in
        let rest : select p rows ≡ [] = cc (rw e at h) in
        (
          rw (e, ← same) (ground arith),
          All-map _ _ (λ s q. rw (← same) (q.0 ∙ sym q.1)) rows
              (All-both _ _ rows unique.0 (none_hit rows rest)),
        )
    | inr e ↦
        let rest : select p rows ≡ x ∷ [] = rw e at h in
        (rw e (hit_apart r rows x unique.0 rest), one_hit rows x unique.1 rest)
  ]

IdsUnique-append :
    (rows : List Interface) (x : Interface)
    → IdsUnique rows
    → All (λ (r : Interface). (x.id == r.id) ≡ false) rows
    → IdsUnique (rows ++ x ∷ [])
IdsUnique-append [] x unique apart = (tt, tt)
IdsUnique-append (r ∷ rows) x unique apart =
    (All-append _ rows (x ∷ []) unique.0 (apart.0, tt), IdsUnique-append rows x unique.1 apart.1)

Below-suc : (id : ℕ) (rows : List Interface) → Below id rows → Below (id + 1) rows
Below-suc id rows below = All-map _ _ (λ r h. omega (arith, h)) rows below

abbrev pub IsFresh : ℕ → List Interface → Type 0
IsFresh id rows = IdsUnique rows × Below id rows

abbrev pub Fetched : ℕ → ℕ → Text → ℕ → List Interface → Type 0
Fetched device id name k rows =
    LinkedTo device (name, k) rows × (k < id + 1) × IsFresh (id + 1) rows

new_interface-Fetched :
    (id device : ℕ) (name : Text) (rows : List Interface)
    → IsFresh id rows
    → select (same_interface device name) rows ≡ []
    → Fetched device id name id (rows ++ new_interface id device name ∷ [])
unfolding new_interface same_interface
new_interface-Fetched id device name rows fresh h =
    let x = new_interface id device name in
    let own : same_interface device name x ≡ true =
      unfold same_interface new_interface in ground (arith, text_eq_refl name) in
    let others : LinkedTo device (name, id) rows =
      All-map _ _
        (λ r (q : (same_interface device name r ≡ false) × (r.id < id)). ground (arith, q)) rows
        (All-both _ _ rows (none_hit (same_interface device name) rows h) fresh.1) in
    (
      All-append _ rows (x ∷ []) others (ground (arith, own), tt),
      omega arith,
      (
        IdsUnique-append rows x fresh.0 (All-map _ _ (λ r q. ground (arith, q)) rows fresh.1),
        All-append _ rows (x ∷ []) (Below-suc id rows fresh.1) (omega arith, tt),
      ),
    )

-- the rows after a name is fetched: as before, or with a new one
abbrev pub Grown : ℕ → ℕ → Text → List Interface → List Interface → Type 0
Grown id device name rows rows' =
    (rows' ≡ rows) ⊎ (rows' ≡ rows ++ new_interface id device name ∷ [])

found_or_new_lem :
    (id device : ℕ) (name : Text) (found rows : List Interface)
    → IsFresh id rows
    → select (same_interface device name) rows ≡ found
    → length found ≤ 1
    → (k : ℕ) × (rows' : List Interface) × (found_or_new id device name found rows ≡ ok (k, rows'))
      × Fetched device id name k rows'
      × Grown id device name rows rows'
unfolding found_or_new
found_or_new_lem id device name [] rows fresh h le = (
  id,
  rows ++ new_interface id device name ∷ [],
  refl,
  new_interface-Fetched id device name rows fresh h,
  inr refl,
)
found_or_new_lem id device name (r ∷ []) rows fresh h le =
    let below = hit-Below (same_interface device name) id rows r fresh.1 h in
    (
      r.id,
      rows,
      refl,
      (
        one_hit (same_interface device name) rows r fresh.0 h,
        omega (arith, below),
        (fresh.0, Below-suc id rows fresh.1),
      ),
      inl refl,
    )
found_or_new_lem id device name (r ∷ s ∷ found) rows fresh h le = absurd (omega (arith, le))

pub get_or_create_lem :
    (id device : ℕ) (name : Text) (rows : List Interface)
    → IsFresh id rows
    → AtMostOne device rows name
    → (k : ℕ) × (rows' : List Interface) × (get_or_create id device name rows ≡ ok (k, rows'))
      × Fetched device id name k rows'
      × Grown id device name rows rows'
unfolding get_or_create
get_or_create_lem id device name rows fresh one =
    found_or_new_lem id device name (select (same_interface device name) rows) rows fresh refl one
