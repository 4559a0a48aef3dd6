-- ===== src/Configs/Faithful.antt =====
-- The newest stored configuration is the one that was collected.
use zas.Prelude.{
  ℕ, ◌≡◌, ◌≢◌, refl, sym, ltb, ◌∙◌, ◌⊎◌, inl, inr, true, false, Option, none, some, List, [], ◌∷◌,
  ◌++◌, All, All-append, Bool-cases, ◌==◌,
}
use zas.Text.{Text, text_eq_iff}
use zas.Configs.{
  DeviceConfiguration, Collected, normalize, latest, newer, same_hash, failed_row, new_row, persist,
}
use zas.Configs.History.{
  Before, stored, unchanged, skipped, persist_lem, add_none, add_some, latest-append, latest-cons,
}

-- a successful row has the hash of its text, a failed one the empty hash
abbrev pub IsFaithful : (Text → Text) → DeviceConfiguration → Type 0
IsFaithful hash r =
    ((r.success ≡ true) × (r.config_hash ≡ hash r.config_text))
    ⊎ ((r.success ≡ false) × (r.config_hash ≡ []))

add_row-All :
    (hash : Text → Text) (rows : List DeviceConfiguration) (r : DeviceConfiguration)
    → All (IsFaithful hash) rows
    → IsFaithful hash r
    → All (IsFaithful hash) (rows ++ r ∷ [])
add_row-All hash rows r h k = All-append (IsFaithful hash) rows (r ∷ []) h (k, tt)

new_row-IsFaithful :
    (hash : Text → Text) (c : Collected) (t : Text) (last : Option DeviceConfiguration)
    → IsFaithful hash (new_row c t (hash t) last)
unfolding new_row
new_row-IsFaithful hash c t last = inl (refl, refl)

failed_row-IsFaithful : (hash : Text → Text) (c : Collected) → IsFaithful hash (failed_row c)
unfolding failed_row
failed_row-IsFaithful hash c = inr (refl, refl)

-- Every run of `persist`, successful or not, leaves each row with the hash of its text, or failed and
-- with the empty hash, where all rows were so before.
pub persist-IsFaithful :
    (hash : Text → Text) (c : Collected) (rows : List DeviceConfiguration)
    → All (IsFaithful hash) rows
    → All (IsFaithful hash) (persist hash c rows).0
persist-IsFaithful hash c rows faithful =
    let t = normalize c.config_text in
    let last = latest c.device rows in
    elim (Bool-cases c.success) [
      | inr s ↦
          rw (persist_lem hash c rows, skipped hash c rows s, add_some)
            (add_row-All hash rows (failed_row c) faithful (failed_row-IsFaithful hash c))
      | inl s ↦ elim (Bool-cases (same_hash last (hash t))) [
        | inl same ↦ rw (persist_lem hash c rows, unchanged hash c rows s same, add_none) faithful
        | inr fresh ↦
            rw (persist_lem hash c rows, stored hash c rows s fresh, add_some)
              (add_row-All hash rows (new_row c t (hash t) last) faithful
                (new_row-IsFaithful hash c t last))
      ]
    ]

abbrev Holds : (DeviceConfiguration → Type 0) → Option DeviceConfiguration → Type 0
Holds P none = Unit
Holds P (some r) = P r

newer-Holds :
    (P : DeviceConfiguration → Type 0) (r : DeviceConfiguration) (o : Option DeviceConfiguration)
    → P r
    → Holds P o
    → P (newer r o)
unfolding newer
newer-Holds P r none h k = h
newer-Holds P r (some s) h k = elim (Bool-cases (ltb s.collected_at r.collected_at)) [
  | inl e ↦ rw e h
  | inr e ↦ rw e k
]

-- the latest row of a device is a row of the table
latest-Holds :
    (P : DeviceConfiguration → Type 0) (device : ℕ) (rows : List DeviceConfiguration)
    → All P rows
    → Holds P (latest device rows)
latest-Holds P device [] all = unfold latest in tt
latest-Holds P device (r ∷ rows) all =
    let rest = latest-Holds P device rows all.1 in
    rw (latest-cons device r rows) (elim (Bool-cases (r.device == device)) [
      | inl e ↦ rw e (newer-Holds P r (latest device rows) all.0 rest)
      | inr e ↦ rw e rest
    ])

-- the texts among the rows have no collision with `t`
abbrev pub NoCollision : (Text → Text) → Text → DeviceConfiguration → Type 0
NoCollision hash t r = hash r.config_text ≡ hash t → r.config_text ≡ t

-- a row that is found by the hash carries the text
hash-text :
    (hash : Text → Text) (t : Text) (o : Option DeviceConfiguration)
    → hash t ≢ []
    → Holds (IsFaithful hash) o
    → Holds (NoCollision hash t) o
    → same_hash o (hash t) ≡ true
    → (r : DeviceConfiguration) × (o ≡ some r) × (r.success ≡ true) × (r.config_text ≡ t)
unfolding same_hash
hash-text hash t none ne faithful apart same = cc
hash-text hash t (some r) ne faithful apart same =
    let e : r.config_hash ≡ hash t = (text_eq_iff r.config_hash (hash t)).0 same in
    elim faithful [
      | inl f ↦ (r, refl, f.0, apart (sym f.1 ∙ e))
      | inr f ↦ absurd (ne (sym e ∙ f.1))
    ]

-- After a successful run the newest row of the device is a successful one that carries the normalised
-- configuration, whether it was stored now or before. Conditions: all rows are older and carry the hash
-- of their text, or failed with the empty hash; the hash of the configuration is not empty, and no
-- stored text collides with it.
pub persist-newest :
    (hash : Text → Text) (c : Collected) (rows : List DeviceConfiguration)
    → c.success ≡ true
    → Before c.now rows
    → All (IsFaithful hash) rows
    → hash (normalize c.config_text) ≢ []
    → All (NoCollision hash (normalize c.config_text)) rows
    → (r : DeviceConfiguration) × (latest c.device (persist hash c rows).0 ≡ some r)
      × (r.success ≡ true)
      × (r.config_text ≡ normalize c.config_text)
persist-newest hash c rows s before faithful ne apart =
    let t = normalize c.config_text in
    let last = latest c.device rows in
    let row = new_row c t (hash t) last in
    elim (Bool-cases (same_hash last (hash t))) [
      | inl same ↦
          rw (persist_lem hash c rows, unchanged hash c rows s same, add_none)
            (hash-text hash t last ne (latest-Holds (IsFaithful hash) c.device rows faithful)
              (latest-Holds (NoCollision hash t) c.device rows apart) same)
      | inr fresh ↦
          rw (persist_lem hash c rows, stored hash c rows s fresh, add_some)
            (
              row,
              unfold new_row in latest-append row rows before,
              unfold new_row in refl,
              unfold new_row in refl,
            )
    ]
