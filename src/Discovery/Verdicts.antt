-- ===== src/Discovery/Verdicts.antt =====
-- The marks that a classification puts on the candidates.
use mathlib.Core.List.{map-map}
use zas.Prelude.{
  ℕ, ◌≡◌, refl, ap, ◌∙◌, Bool, false, List, [], ◌∷◌, map, ◌==◌, arith, if◌then◌else◌, ==_refl, inl,
  inr, Bool-cases, All, All-map, All-both, select, KeysUnique,
}
use zas.Dcim.{Device, RuntimeStatus}
use zas.Discovery.{DiscoveryCandidate}
use zas.Discovery.Classification.{
  Verdict, exact, mismatch, new, verdict, mark, save_mark, no_counts, Classified, classify_one,
  classify_all, is_pending, classify,
}

module _ (site : ℕ) (devices : List Device) where
  -- the marks that the loop puts on one row
  marks : List DiscoveryCandidate → DiscoveryCandidate → DiscoveryCandidate
  marks [] r = r
  marks (c ∷ candidates) r =
      marks candidates (if r.id == c.id then mark (verdict site devices c) r else r)

  map_same : (rows : List DiscoveryCandidate) → rows ≡ map (marks []) rows
  unfolding marks
  map_same [] = refl
  map_same (r ∷ rows) = ap (λ l. r ∷ l) (map_same rows)

  classify_all-rows :
      (candidates : List DiscoveryCandidate) (s : Classified)
      → (classify_all site devices candidates s).rows ≡ map (marks candidates) s.rows
  unfolding classify_all classify_one save_mark marks
  classify_all-rows [] s = map_same s.rows
  classify_all-rows (c ∷ candidates) s =
      classify_all-rows candidates (classify_one site devices c s)
      ∙ map-map (marks candidates)
          (λ r. if r.id == c.id then mark (verdict site devices c) r else r) s.rows

  mark-id : (v : Verdict) (r : DiscoveryCandidate) → (mark v r).id ≡ r.id
  unfolding mark
  mark-id (exact d) r = refl
  mark-id mismatch r = refl
  mark-id new r = refl

  marks_skip :
      (c : DiscoveryCandidate) (candidates : List DiscoveryCandidate) (r : DiscoveryCandidate)
      → (r.id == c.id) ≡ false
      → marks (c ∷ candidates) r ≡ marks candidates r
  unfolding marks
  marks_skip c candidates r h = rw h refl

  marks_hit :
      (c : DiscoveryCandidate) (candidates : List DiscoveryCandidate)
      → marks (c ∷ candidates) c ≡ marks candidates (mark (verdict site devices c) c)
  unfolding marks
  marks_hit c candidates = rw (==_refl c.id) refl

  marks-apart :
      (p : DiscoveryCandidate → Bool) (rows : List DiscoveryCandidate) (k : ℕ)
      (r : DiscoveryCandidate)
      → r.id ≡ k
      → All (λ (s : DiscoveryCandidate). (s.id == k) ≡ false) rows
      → marks (select p rows) r ≡ r
  unfolding marks
  marks-apart p [] k r e h = refl
  marks-apart p (s ∷ rows) k r e h = elim (Bool-cases (p s)) [
    | inl q ↦
        let miss : (r.id == s.id) ≡ false = rw e (ground (arith, h.0)) in
        rw q (marks_skip s (select p rows) r miss ∙ marks-apart p rows k r e h.1)
    | inr q ↦ rw q (marks-apart p rows k r e h.1)
  ]

  -- the row after the classification of the rows that `p` selects
  unfoldable pub marked : (DiscoveryCandidate → Bool) → DiscoveryCandidate → DiscoveryCandidate
  marked p r = if p r then mark (verdict site devices r) r else r

  marks_lem :
      (p : DiscoveryCandidate → Bool) (rows : List DiscoveryCandidate)
      → KeysUnique (λ (r : DiscoveryCandidate). r.id) rows
      → All (λ r. marks (select p rows) r ≡ marked p r) rows
  unfolding marks marked
  marks_lem p [] unique = tt
  marks_lem p (s ∷ rows) unique =
      let v = verdict site devices s in
      let rest = All-both _ _ rows unique.0 (marks_lem p rows unique.1) in
      elim (Bool-cases (p s)) [
        | inl q ↦
            let chosen : select p (s ∷ rows) ≡ s ∷ select p rows = rw q refl in
            (
              ap (λ l. marks l s) chosen
                  ∙ marks_hit s (select p rows)
                  ∙ marks-apart p rows s.id (mark v s) (mark-id v s) unique.0
                  ∙ rw q refl,
              All-map _ (λ r. marks (select p (s ∷ rows)) r ≡ marked p r)
                  (λ r h. ap (λ l. marks l r) chosen ∙ marks_skip s (select p rows) r h.0 ∙ h.1)
                  rows rest,
            )
        | inr q ↦
            let dropped : select p (s ∷ rows) ≡ select p rows = rw q refl in
            (
              ap (λ l. marks l s) dropped ∙ marks-apart p rows s.id s refl unique.0 ∙ rw q refl,
              All-map _ (λ r. marks (select p (s ∷ rows)) r ≡ marked p r)
                  (λ r h. ap (λ l. marks l r) dropped ∙ h.1) rows rest,
            )
      ]

  map-marks :
      (p : DiscoveryCandidate → Bool) (candidates rows : List DiscoveryCandidate)
      → All (λ r. marks candidates r ≡ marked p r) rows
      → map (marks candidates) rows ≡ map (marked p) rows
  map-marks p candidates [] h = refl
  map-marks p candidates (r ∷ rows) h = cc (h.0, map-marks p candidates rows h.1)

-- a classification puts its marks on the pending candidates
pub classify-marked :
    (site now : ℕ) (devices : List Device) (rows : List DiscoveryCandidate)
    (statuses : List RuntimeStatus)
    → KeysUnique (λ (r : DiscoveryCandidate). r.id) rows
    → (classify site now devices rows statuses).rows
      ≡ map (marked site devices (is_pending site now)) rows
unfolding classify
classify-marked site now devices rows statuses unique =
    let p = is_pending site now in
    let s : Classified = record { counts = no_counts; rows = rows; statuses = statuses } in
    classify_all-rows site devices (select p rows) s
    ∙ map-marks site devices p (select p rows) rows (marks_lem site devices p rows unique)
