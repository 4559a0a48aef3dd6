-- ===== src/Discovery/Agreement.antt =====
-- The verdicts of a classification, from what the two queries for devices find.
use zas.Prelude.{
  ℕ, ◌+◌, ◌≡◌, refl, ap, ◌∙◌, Bool, true, false, not, ◌&&◌, Option, none, some, List, [], ◌∷◌, map,
  ◌==◌, arith, if◌then◌else◌, is_some, same_key, ◌⊎◌, inl, inr, Bool-cases, select, length, head?,
  KeysUnique,
}
use zas.Text.{text_eq, iexact, lower}
use zas.Dcim.{Device, RuntimeStatus}
use zas.Discovery.{DiscoveryCandidate}
use zas.Discovery.Classification.{
  Verdict, exact, mismatch, new, device_by_ip, device_by_name, verdict_of, verdict, mark, Counts,
  count, no_counts, Classified, classify_one, classify_all, is_pending, classify,
}
use zas.Discovery.Verdicts.{marked, classify-marked}

abbrev key_of : Option Device → Option ℕ
key_of none = none
key_of (some d) = some d.id

-- both queries name one device, they differ, or neither finds one
abbrev agree : Option ℕ → Option ℕ → Option Bool
agree a b = if same_key a b then (if is_some a then some true else none) else some false

abbrev pub is_yes : Option Bool → Bool
is_yes none = false
is_yes (some b) = b

abbrev pub is_no : Option Bool → Bool
is_no none = false
is_no (some b) = not b

module _ (site : ℕ) (devices : List Device) where
  -- The first device of the site with the address, and the first with the name up to case, compared.
  abbrev pub agreement : DiscoveryCandidate → Option Bool
  agreement r =
      agree
        (key_of
          (head? (select (λ d. d.site == site && text_eq d.management_ip r.ip_address) devices)))
        (key_of (head? (select (λ d. d.site == site && iexact (lower r.hostname) d.name) devices)))

  abbrev Matches : Verdict → Option Bool → Type 0
  Matches v o =
      ((d : Device) × (v ≡ exact d) × (o ≡ some true))
      ⊎ (((v ≡ mismatch) × (o ≡ some false)) ⊎ ((v ≡ new) × (o ≡ none)))

  verdict_of-Matches :
      (a b : Option Device) → Matches (verdict_of a b) (agree (key_of a) (key_of b))
  unfolding verdict_of
  verdict_of-Matches none none = inr (inr (refl, refl))
  verdict_of-Matches none (some b) = inr (inl (refl, refl))
  verdict_of-Matches (some a) none = inr (inl (refl, refl))
  verdict_of-Matches (some a) (some b) = elim (Bool-cases (a.id == b.id)) [
    | inl e ↦ rw e (inl (a, refl, refl))
    | inr e ↦ rw e (inr (inl (refl, refl)))
  ]

  verdict-Matches : (r : DiscoveryCandidate) → Matches (verdict site devices r) (agreement r)
  unfolding verdict device_by_ip device_by_name
  verdict-Matches r =
      verdict_of-Matches (device_by_ip site r devices) (device_by_name site r devices)

  -- a candidate with its verdict
  abbrev pub settled : DiscoveryCandidate → DiscoveryCandidate
  settled r = record r { classified = is_some (agreement r); accepted = agreement r }

  mark-settled :
      (v : Verdict) (r : DiscoveryCandidate) → Matches v (agreement r) → mark v r ≡ settled r
  unfolding mark
  mark-settled v r (inl (d, e, o)) = rw (e, o) refl
  mark-settled v r (inr (inl (e, o))) = rw (e, o) refl
  mark-settled v r (inr (inr (e, o))) = rw (e, o) refl

  -- the counts after some candidates
  abbrev Tally : List DiscoveryCandidate → Counts → Counts → Type 0
  Tally candidates before after =
      (after.exact_count
        ≡ length (select (λ r. is_yes (agreement r)) candidates) + before.exact_count)
      × (after.mismatch_count
          ≡ length (select (λ r. is_no (agreement r)) candidates) + before.mismatch_count)
      × (after.new_count
          ≡ length (select (λ r. not (is_some (agreement r))) candidates) + before.new_count)

  Tally-step :
      (v : Verdict) (c : DiscoveryCandidate) (candidates : List DiscoveryCandidate)
      (before after : Counts)
      → Matches v (agreement c)
      → Tally candidates (count v before) after
      → Tally (c ∷ candidates) before after
  unfolding count
  Tally-step v c candidates before after (inl (d, e, o)) h =
      let (hits, misses, others) = rw e at h in rw o (hits ∙ omega arith, misses, others)
  Tally-step v c candidates before after (inr (inl (e, o))) h =
      let (hits, misses, others) = rw e at h in rw o (hits, misses ∙ omega arith, others)
  Tally-step v c candidates before after (inr (inr (e, o))) h =
      let (hits, misses, others) = rw e at h in rw o (hits, misses, others ∙ omega arith)

  classify_all-Tally :
      (candidates : List DiscoveryCandidate) (s : Classified)
      → Tally candidates s.counts (classify_all site devices candidates s).counts
  unfolding classify_all classify_one
  classify_all-Tally [] s = (omega arith, omega arith, omega arith)
  classify_all-Tally (c ∷ candidates) s =
      Tally-step (verdict site devices c) c candidates s.counts _ (verdict-Matches c)
        (classify_all-Tally candidates (classify_one site devices c s))

-- a candidate that the run takes up
abbrev pub awaits : ℕ → ℕ → DiscoveryCandidate → Bool
awaits site now r = r.site == site && (not r.classified && r.last_seen == now)

map-settled :
    (site now : ℕ) (devices : List Device) (rows : List DiscoveryCandidate)
    → map (marked site devices (is_pending site now)) rows
      ≡ map (λ r. if awaits site now r then settled site devices r else r) rows
unfolding marked is_pending
map-settled site now devices [] = refl
map-settled site now devices (r ∷ rows) =
    let same =
      mark-settled site devices (verdict site devices r) r (verdict-Matches site devices r) in
    ap
      (λ x.
        (if awaits site now r then x else r) ∷ map (marked site devices (is_pending site now)) rows)
      same
    ∙ ap (λ l. (if awaits site now r then settled site devices r else r) ∷ l)
        (map-settled site now devices rows)

-- Where the keys of the candidates are different, a classification settles exactly the candidates of the
-- site that are not classified and that the run has seen, and leaves all others as they were. It
-- compares the first device of the site with the candidate's address and the first with its name up to
-- case: the candidate is accepted where both are one device, and refused where they differ or only one
-- is found, both of which classify it; where neither is found, it stays open. The three counts are the
-- numbers of these candidates.
pub classify_lem :
    (site now : ℕ) (devices : List Device) (rows : List DiscoveryCandidate)
    (statuses : List RuntimeStatus)
    → KeysUnique (λ (r : DiscoveryCandidate). r.id) rows
    → ((classify site now devices rows statuses).rows
        ≡ map (λ r. if awaits site now r then settled site devices r else r) rows)
      × ((classify site now devices rows statuses).counts.exact_count
          ≡ length
              (select (λ r. is_yes (agreement site devices r)) (select (awaits site now) rows)))
      × ((classify site now devices rows statuses).counts.mismatch_count
          ≡ length (select (λ r. is_no (agreement site devices r)) (select (awaits site now) rows)))
      × ((classify site now devices rows statuses).counts.new_count
          ≡ length (
              select
                (λ r. not (is_some (agreement site devices r)))
                (select (awaits site now) rows)))
unfolding classify is_pending
classify_lem site now devices rows statuses unique =
    let s : Classified = record { counts = no_counts; rows = rows; statuses = statuses } in
    let (accepted_count, refused_count, open_count) =
      classify_all-Tally site devices (select (awaits site now) rows) s in
    (
      classify-marked site now devices rows statuses unique ∙ map-settled site now devices rows,
      accepted_count ∙ omega arith,
      refused_count ∙ omega arith,
      open_count ∙ omega arith,
    )
