-- ===== src/DeviceSync/Outcome.antt =====
-- How a synchronisation ends.
use zas.Prelude.{
  ℕ, ◌-◌, ◌≤◌, ◌≡◌, ◌↔◌, refl, sym, ap, ◌∙◌, true, false, some, arith, Bool-cases, inl, inr, ltb,
  Result, ok, err, Result-cases,
}
use zas.Text.{Text}
use zas.Dcim.{Device, RuntimeStatus}
use zas.DeviceSync.Version.{SyncError, with_uptime}
use zas.DeviceSync.Steps.{
  Tables, Results, Run, is_sync_excluded, collect_results_with_retry, try_attempts,
}
use zas.DeviceSync.Run.{
  Outcome, failed, skipped, exclude_message, apply_results, committed, after_collect, sync_device,
}

-- what both attempts leave
abbrev pub BothFail : (ℕ → Result Text Results) → Text → Type 0
BothFail collect message = ((first : Text) × (collect 0 ≡ err first)) × (collect 1 ≡ err message)

-- the first attempt that gives results
pub retry-first :
    (collect : ℕ → Result Text Results) (a : Results)
    → collect 0 ≡ ok a
    → collect_results_with_retry collect ≡ ok a
unfolding collect_results_with_retry
retry-first collect a h = rw (h, try_attempts, collect_results_with_retry) refl

pub retry-second :
    (collect : ℕ → Result Text Results) (e : Text)
    → collect 0 ≡ err e
    → collect_results_with_retry collect ≡ collect 1
unfolding collect_results_with_retry
retry-second collect e h = elim (Result-cases (collect 1)) [
  | inl (x, k) ↦ rw (h, k, try_attempts, collect_results_with_retry) refl
  | inr (a, k) ↦ rw (h, k, try_attempts, collect_results_with_retry) refl
]

committed-ne-failed :
    (t : Tables) (applied : Result SyncError Tables) (m : Text)
    → ¬ ((committed t applied).0 ≡ ok (failed m))
unfolding committed
committed-ne-failed t (err e) m h = cc h
committed-ne-failed t (ok t') m h = cc h

committed-ne-skipped :
    (t : Tables) (applied : Result SyncError Tables) (m : Text)
    → ¬ ((committed t applied).0 ≡ ok (skipped m))
unfolding committed
committed-ne-skipped t (err e) m h = cc h
committed-ne-skipped t (ok t') m h = cc h

skipped-message :
    (m n : Text) → Path (Result SyncError Outcome) (ok (skipped m)) (ok (skipped n)) → m ≡ n
skipped-message m n h = cc h

after_collect-message :
    (run : Run) (dev : Device) (t : Tables) (collected : Result Text Results) (m : Text)
    → (after_collect run dev t collected).0 ≡ ok (failed m)
    → collected ≡ err m
unfolding after_collect
after_collect-message run dev t (err e) m h = cc h
after_collect-message run dev t (ok r) m h =
    absurd (committed-ne-failed t (apply_results run dev _ r t) m h)

after_collect-failed :
    (run : Run) (dev : Device) (t : Tables) (collected : Result Text Results) (m : Text)
    → collected ≡ err m
    → (after_collect run dev t collected).0 ≡ ok (failed m)
unfolding after_collect
after_collect-failed run dev t collected m h = rw h refl

both_failed :
    (collect : ℕ → Result Text Results) (m : Text)
    → collect_results_with_retry collect ≡ err m
    → BothFail collect m
both_failed collect m h = elim (Result-cases (collect 0)) [
  | inl (e, k) ↦ ((e, k), sym (retry-second collect e k) ∙ h)
  | inr (a, k) ↦ cc (h, retry-first collect a k)
]

after_collect-ne-skipped :
    (run : Run) (dev : Device) (t : Tables) (collected : Result Text Results) (m : Text)
    → ¬ ((after_collect run dev t collected).0 ≡ ok (skipped m))
unfolding after_collect
after_collect-ne-skipped run dev t (err e) m h = cc h
after_collect-ne-skipped run dev t (ok r) m h =
    committed-ne-skipped t (apply_results run dev _ r t) m h

-- A synchronisation of a device without a tag that excludes it returns a failure with a message exactly
-- when both attempts at the session fail, the second with that message; and it says that it skipped the
-- device exactly when the device has such a tag, with the message that names the tag.
pub sync_device-failed_iff :
    (run : Run) (collect : ℕ → Result Text Results) (dev : Device) (t : Tables) (m : Text)
    → (((sync_device run collect dev t).0 ≡ ok (failed m))
        ↔ ((is_sync_excluded dev ≡ false) × BothFail collect m))
      × (((sync_device run collect dev t).0 ≡ ok (skipped m))
          ↔ ((is_sync_excluded dev ≡ true) × (m ≡ exclude_message)))
unfolding sync_device
sync_device-failed_iff run collect dev t m = (
  (
    λ h. elim (Bool-cases (is_sync_excluded dev)) [
      | inl e ↦ cc (rw e at h)
      | inr e ↦ (
        e,
        both_failed collect m
            (after_collect-message run dev t (collect_results_with_retry collect) m (rw e at h)),
      )
    ],
    λ h. rw h.0 (
        after_collect-failed run dev t (collect_results_with_retry collect) m
          (retry-second collect h.1.0.0 h.1.0.1 ∙ h.1.1)),
  ),
  (
    λ h. elim (Bool-cases (is_sync_excluded dev)) [
      | inl e ↦ (e, sym (skipped-message exclude_message m (rw e at h)))
      | inr e ↦
          absurd
            (after_collect-ne-skipped run dev t (collect_results_with_retry collect) m (rw e at h))
    ],
    λ h. rw h.0 (ap (λ x. ok (skipped x)) (sym h.1)),
  ),
)

pub with_uptime-some :
    (now u : ℕ) (dev : Device) (runtime : RuntimeStatus)
    → u ≤ now
    → with_uptime now (some u) dev runtime
      ≡ ok (
        record dev { uptime = some u; last_reboot = some (now - u) },
        record runtime { uptime = some u },
      )
unfolding with_uptime
with_uptime-some now u dev runtime h = let no : ltb now u ≡ false = ground arith in rw no refl
