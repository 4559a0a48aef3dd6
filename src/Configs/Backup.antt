-- ===== src/Configs/Backup.antt =====
-- A backup run over several devices.
use zas.Prelude.{
  ℕ, ◌+◌, ◌≡◌, refl, sym, ap, ◌∙◌, Bool, true, false, Option, none, some, List, [], ◌∷◌, ◌++◌,
  is_some, length, length-append, Result, ok, err, if◌then◌else◌,
}
use mathlib.Core.List.{append-nil, append_assoc}
use zas.Text.{Text}
use zas.Configs.{
  DeviceConfiguration, Target, Artifact, succeeded, failed, collected, artifact, persist, add_row,
  row_to_store, execute_backup, failed_row,
}
use zas.Configs.History.{persist_lem, add_none, add_some, skipped}

-- what is reported of one device
abbrev pub Reports : Target → Result Text Text → Artifact → Type 0
Reports t (ok config) a =
    (stored : Bool) × (id : Option ℕ) × (a ≡ succeeded t.device t.name stored id)
Reports t (err message) a = a ≡ failed t.device t.name message

abbrev pub AllReported : List Target → List Artifact → Type 0
AllReported [] [] = Unit
AllReported (t ∷ targets) (a ∷ artifacts) = Reports t t.reply a × AllReported targets artifacts
AllReported _ _ = ⊥

-- the rows that an artifact tells of: one for a new configuration, and one for a failure
abbrev pub rows_made : List Artifact → ℕ
rows_made [] = 0
rows_made (succeeded _ _ stored _ ∷ artifacts) = (if stored then 1 else 0) + rows_made artifacts
rows_made (failed _ _ _ ∷ artifacts) = 1 + rows_made artifacts

artifact-Reports :
    (t : Target) (reply : Result Text Text) (cfg : Option DeviceConfiguration)
    → Reports t reply (artifact t reply cfg)
unfolding artifact
artifact-Reports t (ok config) none = (false, none, refl)
artifact-Reports t (ok config) (some r) = (true, some r.id, refl)
artifact-Reports t (err message) cfg = refl

ok_row_made :
    (t : Target) (config : Text) (cfg : Option DeviceConfiguration) (artifacts : List Artifact)
    → rows_made (artifact t (ok config) cfg ∷ artifacts)
      ≡ (if is_some cfg then 1 else 0) + rows_made artifacts
unfolding artifact
ok_row_made t config none artifacts = refl
ok_row_made t config (some r) artifacts = refl

-- the rows of `add_row`
add_row_lem :
    (o : Option DeviceConfiguration) (rows : List DeviceConfiguration)
    → (row : List DeviceConfiguration) × (add_row o rows ≡ rows ++ row)
      × (length row ≡ (if is_some o then 1 else 0))
add_row_lem none rows = ([], add_none rows ∙ sym (append-nil rows), refl)
add_row_lem (some r) rows = (r ∷ [], add_some r rows, refl)

module _ (hash : Text → Text) (created_by : Option ℕ) where
  abbrev step_of :
      Target → List DeviceConfiguration → List DeviceConfiguration × Option DeviceConfiguration
  step_of t rows = persist hash (collected created_by t t.reply) rows

  execute_backup-cons :
      (t : Target) (targets : List Target) (rows : List DeviceConfiguration)
      → execute_backup hash created_by (t ∷ targets) rows ≡ (
        (execute_backup hash created_by targets (step_of t rows).0).0,
        artifact t t.reply (step_of t rows).1
            ∷ (execute_backup hash created_by targets (step_of t rows).0).1,
      )
  execute_backup-cons t targets rows = unfold execute_backup in refl

  -- Every device of the run is reported, in the order of the run: with `failed` and the message where
  -- its session raised, and with `success` otherwise. No failure ends the run.
  pub backup-AllReported :
      (targets : List Target) (rows : List DeviceConfiguration)
      → AllReported targets (execute_backup hash created_by targets rows).1
  backup-AllReported [] rows = unfold execute_backup in tt
  backup-AllReported (t ∷ targets) rows =
      rw (execute_backup-cons t targets rows) (
        artifact-Reports t t.reply (step_of t rows).1,
        backup-AllReported targets (step_of t rows).0,
      )

  step_adds :
      (t : Target) (rows : List DeviceConfiguration)
      → (row : List DeviceConfiguration) × ((step_of t rows).0 ≡ rows ++ row)
        × (length row ≡ (if is_some (step_of t rows).1 then 1 else 0))
  step_adds t rows =
      let c = collected created_by t t.reply in
      let e : step_of t rows ≡ (add_row (row_to_store hash c rows) rows, row_to_store hash c rows) =
        persist_lem hash c rows in
      rw e (add_row_lem (row_to_store hash c rows) rows)

  row_made :
      (t : Target) (reply : Result Text Text) (rows : List DeviceConfiguration)
      (artifacts : List Artifact)
      → rows_made
          (artifact t reply (persist hash (collected created_by t reply) rows).1 ∷ artifacts)
        ≡ (if is_some (persist hash (collected created_by t reply) rows).1 then 1 else 0)
          + rows_made artifacts
  row_made t (ok config) rows artifacts =
      ok_row_made t config (persist hash (collected created_by t (ok config)) rows).1 artifacts
  row_made t (err message) rows artifacts =
      let c = collected created_by t (err message) in
      let e : (persist hash c rows).1 ≡ some (failed_row c) =
        ap (λ r. r.1) (persist_lem hash c rows) ∙ skipped hash c rows (unfold collected in refl) in
      rw e (unfold artifact in refl)

  -- A run keeps every stored row as it is and only adds rows at the end, as many as the artifacts tell
  -- of: one for each artifact with `stored` true, and one for each failed device.
  pub backup_appends :
      (targets : List Target) (rows : List DeviceConfiguration)
      → (made : List DeviceConfiguration) × ((execute_backup hash created_by targets rows).0
          ≡ rows ++ made)
        × (length made ≡ rows_made (execute_backup hash created_by targets rows).1)
  backup_appends [] rows =
      ([], unfold execute_backup in sym (append-nil rows), unfold execute_backup in refl)
  backup_appends (t ∷ targets) rows =
      let (row, added, one) = step_adds t rows in
      let rows' = (step_of t rows).0 in
      let (made, e, count) = backup_appends targets rows' in
      let cons = execute_backup-cons t targets rows in
      (
        row ++ made,
        ap (λ r. r.0) cons ∙ e ∙ ap (λ l. l ++ made) added ∙ append_assoc rows row made,
        length-append row made
            ∙ rw (one, count)
                (sym (
                  ap (λ r. rows_made r.1) cons
                  ∙ row_made t t.reply rows (execute_backup hash created_by targets rows').1)),
      )
