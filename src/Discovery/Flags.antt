-- ===== src/Discovery/Flags.antt =====
-- The reachability that a classification writes (network/services/discover_network.py).
use zas.Prelude.{
  ℕ, ◌≡◌, refl, true, not, ◌||◌, Option, some, List, [], ◌∷◌, ◌==◌, arith, Bool-cases, inl, inr,
  find_row, select,
}
use zas.Dcim.{Device, RuntimeStatus}
use zas.Discovery.{DiscoveryCandidate}
use zas.Discovery.Classification.{
  Verdict, exact, mismatch, new, verdict, touch_verdict, update_runtime_status, touched, no_counts,
  Classified, classify_one, classify_all, is_pending, classify,
}

-- what was reachable still is
abbrev pub AtLeast : RuntimeStatus → RuntimeStatus → Type 0
AtLeast st st' =
    ((not st.reachable_ping || st'.reachable_ping) ≡ true)
    × ((not st.reachable_ssh || st'.reachable_ssh) ≡ true)

AtLeast-refl : (st : RuntimeStatus) → AtLeast st st
AtLeast-refl st = (ground arith, ground arith)

AtLeast-trans : (a b c : RuntimeStatus) → AtLeast a b → AtLeast b c → AtLeast a c
AtLeast-trans a b c h k = (ground (arith, h, k), ground (arith, h, k))

touched-AtLeast : (c : DiscoveryCandidate) (st : RuntimeStatus) → AtLeast st (touched c st)
unfolding touched
touched-AtLeast c st = (ground arith, ground arith)

abbrev pub status_of : ℕ → List RuntimeStatus → Option RuntimeStatus
status_of device rows = find_row (λ (st : RuntimeStatus). st.device) device rows

-- the device's row afterwards
abbrev pub Kept : ℕ → RuntimeStatus → List RuntimeStatus → Type 0
Kept device st rows = (st' : RuntimeStatus) × (status_of device rows ≡ some st') × AtLeast st st'

update-Kept :
    (d device : ℕ) (c : DiscoveryCandidate) (rows : List RuntimeStatus) (st : RuntimeStatus)
    → status_of device rows ≡ some st
    → Kept device st (update_runtime_status d c rows)
unfolding update_runtime_status touched
update-Kept d device c [] st h = cc h
update-Kept d device c (s ∷ rows) st h = elim (Bool-cases (s.device == device)) [
  | inl here ↦
      let same : s ≡ st = cc (rw here at h) in
      elim (Bool-cases (s.device == d)) [
        | inl hit ↦ (touched c s, rw (hit, here) refl, rw (← same) (touched-AtLeast c s))
        | inr miss ↦ (s, rw (miss, here) refl, rw (← same) (AtLeast-refl s))
      ]
  | inr other ↦
      let (st', found, more) = update-Kept d device c rows st (rw other at h) in
      elim (Bool-cases (s.device == d)) [
        | inl hit ↦ (st, rw (hit, other) (rw other at h), AtLeast-refl st)
        | inr miss ↦ (st', rw (miss, other) found, more)
      ]
]

verdict-Kept :
    (v : Verdict) (device : ℕ) (c : DiscoveryCandidate) (rows : List RuntimeStatus)
    (st : RuntimeStatus)
    → status_of device rows ≡ some st
    → Kept device st (touch_verdict v c rows)
unfolding touch_verdict
verdict-Kept (exact d) device c rows st h = update-Kept d.id device c rows st h
verdict-Kept mismatch device c rows st h = (st, h, AtLeast-refl st)
verdict-Kept new device c rows st h = (st, h, AtLeast-refl st)

classify_all-Kept :
    (site : ℕ) (devices : List Device) (device : ℕ) (candidates : List DiscoveryCandidate)
    (s : Classified) (st : RuntimeStatus)
    → status_of device s.statuses ≡ some st
    → Kept device st (classify_all site devices candidates s).statuses
unfolding classify_all classify_one
classify_all-Kept site devices device [] s st h = (st, h, AtLeast-refl st)
classify_all-Kept site devices device (c ∷ candidates) s st h =
    let (mid, found, more) = verdict-Kept (verdict site devices c) device c s.statuses st h in
    let (st', found', more') =
      classify_all-Kept site devices device candidates (classify_one site devices c s) mid found in
    (st', found', AtLeast-trans st mid st' more more')

-- A classification never clears a flag: a device that answered a ping or a login before does so
-- afterwards, in the state that is stored for it.
pub classify-Kept :
    (site now : ℕ) (devices : List Device) (rows : List DiscoveryCandidate)
    (statuses : List RuntimeStatus) (device : ℕ) (st : RuntimeStatus)
    → status_of device statuses ≡ some st
    → Kept device st (classify site now devices rows statuses).statuses
unfolding classify
classify-Kept site now devices rows statuses device st h =
    classify_all-Kept site devices device (select (is_pending site now) rows)
      (record { counts = no_counts; rows = rows; statuses = statuses }) st h
