-- ===== src/DeviceSync/Reported.antt =====
-- What becomes of the uptime that the output of a synchronisation reports.
use zas.Prelude.{
  ℕ, ◌-◌, ◌≤◌, ◌<◌, ◌≡◌, refl, sym, ap, ◌∙◌, true, false, Option, none, some, List, [], arith,
  Bool-cases, inl, inr, ltb, or_else, find_row, find_row-write_self, Result, ok, err, and_then,
  and_then-ok,
}
use zas.Text.{Text}
use zas.Dcim.{Device, RuntimeStatus}
use zas.Serial.{Inventory}
use zas.Rack.{save_device}
use zas.Interfaces.{Interface}
use zas.DeviceSync.Uptime.{parse_uptime, uptime_from_parts, extract_uptime_line, nonzero}
use zas.DeviceSync.Output.{VersionEntry}
use zas.DeviceSync.Version.{
  SyncError, time_overflow, VersionOutput, with_uptime, apply_version, reported_uptime,
  reported_serial, reported_image, with_serial, with_image, version_entry, entry_uptime, or_amount,
}
use zas.DeviceSync.Steps.{
  Tables, Results, Run, is_sync_excluded, save_runtime, store_modules, store_interfaces, is_nxos,
  platform_of,
}
use zas.DeviceSync.Run.{
  Outcome, success, finish, apply_results, committed, after_collect, sync_device,
}
use zas.DeviceSync.Others.{found_runtime}
use zas.DeviceSync.Outcome.{with_uptime-some}
use zas.DeviceSync.Success.{GivesResults, GivesResults-retry, reached}

nonzero_pos : (n u : ℕ) → nonzero n ≡ some u → 0 < u
unfolding nonzero
nonzero_pos n u h = ground (arith, h)

or_amount_pos :
    (a b : Option ℕ) (u : ℕ)
    → ((n : ℕ) → a ≡ some n → 0 < n)
    → ((n : ℕ) → b ≡ some n → 0 < n)
    → or_amount a b ≡ some u
    → 0 < u
unfolding or_amount
or_amount_pos none b u f g h = g u h
or_amount_pos (some a) b u f g h = f u h

parse_uptime_pos : (s : Text) (u : ℕ) → parse_uptime s ≡ some u → 0 < u
unfolding parse_uptime
parse_uptime_pos s u h = nonzero_pos _ u h

uptime_from_parts_pos :
    (entry : List (Text × Text)) (u : ℕ) → uptime_from_parts entry ≡ some u → 0 < u
unfolding uptime_from_parts
uptime_from_parts_pos entry u h = nonzero_pos _ u h

entry_uptime_pos : (e : Option VersionEntry) (u : ℕ) → entry_uptime e ≡ some u → 0 < u
unfolding entry_uptime
entry_uptime_pos none u h = cc h
entry_uptime_pos (some e) u h =
    or_amount_pos (parse_uptime (or_else e.uptime [])) (uptime_from_parts e.uptime_parts) u
      (parse_uptime_pos (or_else e.uptime [])) (uptime_from_parts_pos e.uptime_parts) h

reported_uptime_pos :
    (name : Text) (out : VersionOutput) (u : ℕ) → reported_uptime name out ≡ some u → 0 < u
unfolding reported_uptime
reported_uptime_pos name out u h =
    or_amount_pos (entry_uptime (version_entry name out))
      (parse_uptime (extract_uptime_line out.raw)) u (entry_uptime_pos (version_entry name out))
      (parse_uptime_pos (extract_uptime_line out.raw)) h

apply_version-seen :
    (now : ℕ) (out : VersionOutput) (dev : Device) (runtime : RuntimeStatus) (u : ℕ)
    → reported_uptime dev.name out ≡ some u
    → (seen : Device) × (apply_version now out dev runtime ≡ with_uptime now (some u) seen runtime)
unfolding apply_version
apply_version-seen now out dev runtime u h =
    let seen =
      with_image (reported_image dev.name out)
        (with_serial (reported_serial dev.name out) (record dev { last_seen = some now })) in
    (seen, ap (λ x. with_uptime now x seen runtime) h)

with_uptime-past :
    (now u : ℕ) (dev : Device) (runtime : RuntimeStatus)
    → now < u
    → with_uptime now (some u) dev runtime ≡ err time_overflow
unfolding with_uptime
with_uptime-past now u dev runtime h = let yes : ltb now u ≡ true = ground arith in rw yes refl

ok-tables : (a b : Tables) → Path (Result SyncError Tables) (ok a) (ok b) → a ≡ b
ok-tables a b h = cc h

-- the tables of the run-time status after results that are applied
apply_results-runtimes :
    (run : Run) (dev : Device) (runtime : RuntimeStatus) (r : Results) (t t' : Tables)
    (p : Device × RuntimeStatus)
    → apply_version run.now r.version dev runtime ≡ ok p
    → apply_results run dev runtime r t ≡ ok t'
    → t'.runtimes ≡ save_runtime p.1 t.runtimes
unfolding apply_results finish
apply_results-runtimes run dev runtime r t t' p version h =
    let t1 = record t { db = save_device p.0 t.db; runtimes = save_runtime p.1 t.runtimes } in
    let (inv, modules, rest) =
      and_then-ok (store_modules run dev.id (is_nxos (platform_of dev.device_type)) r t.inventory)
        (λ (inv : Inventory).
          and_then (store_interfaces run dev.id r.interfaces t.interfaces)
            (λ (interfaces : List Interface). ok (finish run dev p.0 r t1 inv interfaces)))
        t' (rw version at h) in
    let (rows, interfaces, done) =
      and_then-ok (store_interfaces run dev.id r.interfaces t.interfaces)
        (λ (interfaces : List Interface). ok (finish run dev p.0 r t1 inv interfaces)) t' rest in
    let kept : (finish run dev p.0 r t1 inv rows).runtimes ≡ save_runtime p.1 t.runtimes = refl in
    ap (λ (x : Tables). x.runtimes) (ok-tables t' (finish run dev p.0 r t1 inv rows) (sym done))
    ∙ kept

apply_results-past :
    (run : Run) (dev : Device) (runtime : RuntimeStatus) (r : Results) (t : Tables)
    → apply_version run.now r.version dev runtime ≡ err time_overflow
    → apply_results run dev runtime r t ≡ err time_overflow
unfolding apply_results
apply_results-past run dev runtime r t h = rw h refl

-- the row of the run-time status holds the uptime, of a session that was reached at the time of the run
abbrev pub Reports : ℕ → ℕ → ℕ → List RuntimeStatus → Type 0
Reports device now u rows =
    (row : RuntimeStatus) × (find_row (λ (q : RuntimeStatus). q.device) device rows ≡ some row)
    × (row.uptime ≡ some u)
    × (row.reachable_ssh ≡ true)
    × (row.last_check ≡ some now)

overflow-ne-ok : (t : Tables) → ¬ (Path (Result SyncError Tables) (err time_overflow) (ok t))
overflow-ne-ok t h = cc h

committed-success :
    (t t' : Tables) (applied : Result SyncError Tables)
    → committed t applied ≡ (ok success, t')
    → applied ≡ ok t'
unfolding committed
committed-success t t' (err e) h = cc h
committed-success t t' (ok a) h = ap ok (ap (λ (x : Result SyncError Outcome × Tables). x.1) h)

module _ (run : Run) (collect : ℕ → Result Text Results) (dev : Device) (t : Tables) (r : Results)
    (u : ℕ) where
  sync_device-applied :
      is_sync_excluded dev ≡ false
      → GivesResults collect r
      → sync_device run collect dev t
        ≡ committed t (apply_results run dev (reached run dev r t) r t)
  unfolding sync_device after_collect
  sync_device-applied tagged attempt = rw (tagged, GivesResults-retry collect r attempt) refl

  kept :
      reported_uptime dev.name r.version ≡ some u
      → u ≤ run.now
      → (t' : Tables) → apply_results run dev (reached run dev r t) r t ≡ ok t'
      → Reports dev.id run.now u t'.runtimes
  unfolding save_runtime
  kept h fits t' applied =
      let runtime = reached run dev r t in
      let (seen, version) = apply_version-seen run.now r.version dev runtime u h in
      let p : Device × RuntimeStatus = (
        record seen { uptime = some u; last_reboot = some (run.now - u) },
        record runtime { uptime = some u },
      ) in
      let rows =
        apply_results-runtimes run dev runtime r t t' p
          (version ∙ with_uptime-some run.now u seen runtime fits) applied in
      (
        p.1,
        rw rows (
            ap (λ k. find_row (λ (q : RuntimeStatus). q.device) k (save_runtime p.1 t.runtimes))
              (sym (found_runtime dev.id t.runtimes))
            ∙ find_row-write_self (λ (q : RuntimeStatus). q.device) p.1 t.runtimes),
        refl,
        refl,
        refl,
      )

  in_range :
      (t' : Tables)
      → reported_uptime dev.name r.version ≡ some u
      → apply_results run dev (reached run dev r t) r t ≡ ok t'
      → u ≤ run.now
  in_range t' h applied = elim (Bool-cases (ltb run.now u)) [
    | inl past ↦
        let runtime = reached run dev r t in
        let (seen, version) = apply_version-seen run.now r.version dev runtime u h in
        let raised =
          apply_results-past run dev runtime r t
            (version ∙ with_uptime-past run.now u seen runtime (ground (arith, past))) in
        absurd (overflow-ne-ok t' (sym raised ∙ applied))
    | inr fits ↦ ground (arith, fits)
  ]

  -- Where a synchronisation succeeds on results that report an uptime, of a device without a tag that
  -- excludes it, the uptime is positive and does not reach back before the earliest time; and the
  -- table of the run-time status has afterwards a row of the device with this uptime, for a session
  -- that was reached at the time of the run.
  pub sync_device-uptime_bounds :
      (t' : Tables)
      → is_sync_excluded dev ≡ false
      → GivesResults collect r
      → reported_uptime dev.name r.version ≡ some u
      → sync_device run collect dev t ≡ (ok success, t')
      → (0 < u) × (u ≤ run.now) × Reports dev.id run.now u t'.runtimes
  sync_device-uptime_bounds t' tagged attempt h done =
      let applied =
        committed-success t t' (apply_results run dev (reached run dev r t) r t)
          (sym (sync_device-applied tagged attempt) ∙ done) in
      let fits = in_range t' h applied in
      (reported_uptime_pos dev.name r.version u h, fits, kept h fits t' applied)
