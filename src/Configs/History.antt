-- ===== src/Configs/History.antt =====
-- The history of a device's configurations under `persist`.
use zas.Prelude.{
  ℕ, ◌<◌, ◌≡◌, ◌≢◌, refl, sym, ap, ◌∙◌, inl, inr, true, false, none, some, List, [], ◌∷◌, ◌++◌,
  arith, ◌==◌, if◌then◌else◌, All, Bool-cases,
}
use zas.Text.{Text, text_eq, text_eq_refl, text_eq_iff}
use zas.Configs.{
  DeviceConfiguration, Collected, normalize, latest, newer, same_hash, failed_row, new_row,
  row_to_store, add_row, persist,
}

-- all rows are older than `now`
abbrev pub Before : ℕ → List DeviceConfiguration → Type 0
Before now rows = All (λ r. r.collected_at < now) rows

pub latest-cons :
    (device : ℕ) (r : DeviceConfiguration) (rows : List DeviceConfiguration)
    → latest device (r ∷ rows)
      ≡ (if r.device == device then some (newer r (latest device rows)) else latest device rows)
unfolding latest
latest-cons device r rows = refl

newer-old : (r s : DeviceConfiguration) → r.collected_at < s.collected_at → newer r (some s) ≡ s
unfolding newer
newer-old r s h = ground arith

-- a row that is newer than all others of the table is the latest of its device
pub latest-append :
    (row : DeviceConfiguration) (rows : List DeviceConfiguration)
    → Before row.collected_at rows
    → latest row.device (rows ++ row ∷ []) ≡ some row
latest-append row [] before = unfold latest in ground arith
latest-append row (r ∷ rows) before =
    let ih = latest-append row rows before.1 in
    latest-cons row.device r (rows ++ row ∷ []) ∙ rw (ih, newer-old r row before.0) (ground arith)

-- the newest row of one device does not matter to another
latest-append_other :
    (device : ℕ) (row : DeviceConfiguration) (rows : List DeviceConfiguration)
    → row.device ≢ device
    → latest device (rows ++ row ∷ []) ≡ latest device rows
latest-append_other device row [] other = unfold latest in ground arith
latest-append_other device row (r ∷ rows) other =
    latest-cons device r (rows ++ row ∷ [])
    ∙ rw (latest-append_other device row rows other) (sym (latest-cons device r rows))

module _ (hash : Text → Text) (c : Collected) (rows : List DeviceConfiguration) where
  pub stored :
      c.success ≡ true
      → same_hash (latest c.device rows) (hash (normalize c.config_text)) ≡ false
      → row_to_store hash c rows
        ≡ some (
            new_row c
              (normalize c.config_text)
              (hash (normalize c.config_text))
              (latest c.device rows))
  stored s h = unfold row_to_store in rw (s, h) refl

  pub unchanged :
      c.success ≡ true
      → same_hash (latest c.device rows) (hash (normalize c.config_text)) ≡ true
      → row_to_store hash c rows ≡ none
  unchanged s h = unfold row_to_store in rw (s, h) refl

  pub skipped : c.success ≡ false → row_to_store hash c rows ≡ some (failed_row c)
  skipped s = unfold row_to_store in rw s refl

  pub persist_lem :
      persist hash c rows ≡ (add_row (row_to_store hash c rows) rows, row_to_store hash c rows)
  persist_lem = unfold persist in refl

pub add_none : (rows : List DeviceConfiguration) → add_row none rows ≡ rows
unfolding add_row
add_none rows = refl

pub add_some :
    (r : DeviceConfiguration) (rows : List DeviceConfiguration)
    → add_row (some r) rows ≡ rows ++ r ∷ []
unfolding add_row
add_some r rows = refl

-- after `persist` the newest row of the device is the failed one
persist-failed :
    (hash : Text → Text) (c : Collected) (rows : List DeviceConfiguration)
    → c.success ≡ false
    → Before c.now rows
    → latest c.device (persist hash c rows).0 ≡ some (failed_row c)
persist-failed hash c rows s before =
    rw (persist_lem hash c rows, skipped hash c rows s, add_some)
      (unfold failed_row in latest-append (failed_row c) rows before)

-- after a successful `persist` the newest row of the device has the hash of the configuration
pub persist-same_hash :
    (hash : Text → Text) (c : Collected) (rows : List DeviceConfiguration)
    → c.success ≡ true
    → Before c.now rows
    → same_hash (latest c.device (persist hash c rows).0) (hash (normalize c.config_text)) ≡ true
persist-same_hash hash c rows s before =
    let h = hash (normalize c.config_text) in
    let row = new_row c (normalize c.config_text) h (latest c.device rows) in
    elim (Bool-cases (same_hash (latest c.device rows) h)) [
      | inl same ↦ rw (persist_lem hash c rows, unchanged hash c rows s same, add_none) same
      | inr fresh ↦
          let newest : latest c.device (rows ++ row ∷ []) ≡ some row =
            unfold new_row in latest-append row rows before in
          rw (persist_lem hash c rows, stored hash c rows s fresh, add_some, newest)
            (unfold same_hash new_row in text_eq_refl h)
    ]

-- A configuration that is collected a second time from the same device, up to what `normalize` drops,
-- stores nothing, whether or not the first one was stored; the table was older than the first.
pub persist_twice :
    (hash : Text → Text) (c d : Collected) (rows : List DeviceConfiguration)
    → c.success ≡ true
    → d.success ≡ true
    → d.device ≡ c.device
    → normalize d.config_text ≡ normalize c.config_text
    → Before c.now rows
    → persist hash d (persist hash c rows).0 ≡ ((persist hash c rows).0, none)
persist_twice hash c d rows sc sd device same before =
    let rows' = (persist hash c rows).0 in
    let hit = persist-same_hash hash c rows sc before in
    let none_made : row_to_store hash d rows' ≡ none =
      unchanged hash d rows' sd (rw (device, same) hit) in
    persist_lem hash d rows' ∙ rw (none_made, add_none) refl

not_empty : (h : Text) → h ≢ [] → text_eq [] h ≡ false
not_empty h ne = ground (arith, ne, text_eq_iff [] h)

-- After a failed run the next successful one stores a row for every configuration, also for one that
-- equals the last that was stored; the table was older than the failure, and the hash is not empty.
pub persist_after_failure :
    (hash : Text → Text) (c d : Collected) (rows : List DeviceConfiguration)
    → c.success ≡ false
    → d.success ≡ true
    → d.device ≡ c.device
    → hash (normalize d.config_text) ≢ []
    → Before c.now rows
    → (persist hash d (persist hash c rows).0).1
      ≡ some (
          new_row d
            (normalize d.config_text)
            (hash (normalize d.config_text))
            (some (failed_row c)))
persist_after_failure hash c d rows sc sd device ne before =
    let rows' = (persist hash c rows).0 in
    let h = hash (normalize d.config_text) in
    let last : latest d.device rows' ≡ some (failed_row c) =
      rw device (persist-failed hash c rows sc before) in
    let miss : same_hash (latest d.device rows') h ≡ false =
      rw last (unfold same_hash failed_row in not_empty h ne) in
    ap (λ r. r.1) (persist_lem hash d rows') ∙ stored hash d rows' sd miss ∙ rw last refl
