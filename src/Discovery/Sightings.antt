-- ===== src/Discovery/Sightings.antt =====
-- The table of the candidates as a map from addresses to what was seen there last.
use zas.Prelude.{
  ℕ, ◌+◌, ◌≡◌, refl, sym, ap, ◌∙◌, Bool, false, not, Option, none, some, List, [], ◌∷◌, ◌==◌,
  if◌then◌else◌, ==_refl, Bool-cases, inl, inr, or_else,
}
use zas.Text.{Text, text_eq, text_eq_iff, text_eq_refl}
use zas.Hostnames.{normalize_hostname}
use zas.Discovery.{DiscoveryCandidate, ScanResult, Service}
use zas.Discovery.Scan.{
  is_icmp, seen_now, same_address, new_candidate, store, store_result, store_results, is_wanted,
}

-- What a scan tells of an address.
pub record Sighting : Type 0 where
  pub hostname : Text
  pub reachable_ping : Bool
  pub reachable_ssh : Bool
  pub last_seen : ℕ

sighting_of : DiscoveryCandidate → Sighting
sighting_of c = record {
  hostname = c.hostname;
  reachable_ping = c.reachable_ping;
  reachable_ssh = c.reachable_ssh;
  last_seen = c.last_seen;
}

-- what the table holds of an address of the site
pub view : ℕ → List DiscoveryCandidate → Text → Option Sighting
unfolding sighting_of
view site [] ip = none
view site (c ∷ rows) ip =
    let rest = view site rows ip in if same_address site ip c then some (sighting_of c) else rest

-- what a result tells
pub sighting : Service → ScanResult → Sighting
sighting s r = record {
  hostname = normalize_hostname s.is_ip s.domain (some (or_else r.hostname []));
  reachable_ping = is_icmp r.method;
  reachable_ssh = not (is_icmp r.method);
  last_seen = s.now;
}

-- the map after the results: the last one for an address counts
pub replay : Service → List ScanResult → (Text → Option Sighting) → Text → Option Sighting
unfolding sighting
replay s [] seen ip = seen ip
replay s (r ∷ results) seen ip =
    let stored =
      replay s results (λ a. if text_eq r.ip a then some (sighting s r) else seen a) ip in
    let skipped = replay s results seen ip in if is_wanted s r then stored else skipped

-- the number of results that a scan stores
pub wanted : Service → List ScanResult → ℕ
wanted s [] = 0
wanted s (r ∷ results) = let rest = wanted s results in if is_wanted s r then 1 + rest else rest

store-view :
    (s : Service) (id : ℕ) (r : ScanResult) (rows : List DiscoveryCandidate) (ip : Text)
    → view s.site (store_result s id r rows) ip
      ≡ (if text_eq r.ip ip then some (sighting s r) else view s.site rows ip)
unfolding store_result store view seen_now same_address new_candidate sighting sighting_of
store-view s id r [] ip = elim (Bool-cases (text_eq r.ip ip)) [
  | inl e ↦ rw (==_refl s.site, e) refl
  | inr e ↦ rw (==_refl s.site, e) refl
]
store-view s id r (c ∷ rows) ip =
    let ih = store-view s id r rows ip in
    elim (Bool-cases (c.site == s.site)) [
      | inr other ↦ rw (other, other) ih
      | inl own ↦ elim (Bool-cases (text_eq c.ip_address r.ip)) [
        | inl same ↦
            let e = (text_eq_iff c.ip_address r.ip).0 same in
            elim (Bool-cases (text_eq r.ip ip)) [
              | inl hit ↦ rw (own, e, text_eq_refl r.ip, own, hit) refl
              | inr miss ↦ rw (own, e, text_eq_refl r.ip, own, miss) refl
            ]
        | inr differs ↦ elim (Bool-cases (text_eq r.ip ip)) [
          | inl hit ↦
              let e = (text_eq_iff r.ip ip).0 hit in
              let apart : text_eq c.ip_address ip ≡ false =
                ap (text_eq c.ip_address) (sym e) ∙ differs in
              rw (own, differs, own, apart) ih
          | inr miss ↦ elim (Bool-cases (text_eq c.ip_address ip)) [
            | inl here ↦ rw (own, differs, own, here, miss) refl
            | inr apart ↦ rw (own, differs, own, apart) ih
          ]
        ]
      ]
    ]

replay-cons :
    (s : Service) (r : ScanResult) (results : List ScanResult) (seen : Text → Option Sighting)
    (ip : Text)
    → replay s (r ∷ results) seen ip ≡ (
        if is_wanted s r
        then replay s results (λ a. if text_eq r.ip a then some (sighting s r) else seen a) ip
        else replay s results seen ip)
unfolding replay
replay-cons s r results seen ip = refl

replay_ext :
    (s : Service) (results : List ScanResult) (f g : Text → Option Sighting)
    → ((a : Text) → f a ≡ g a)
    → (ip : Text) → replay s results f ip ≡ replay s results g ip
unfolding replay
replay_ext s [] f g e ip = e ip
replay_ext s (r ∷ results) f g e ip = elim (Bool-cases (is_wanted s r)) [
  | inl w ↦ rw w (
      replay_ext s results _ _
        (λ a. ap (λ z. if text_eq r.ip a then some (sighting s r) else z) (e a)) ip)
  | inr w ↦ rw w (replay_ext s results f g e ip)
]

-- A scan is a replay: afterwards the table holds of each address of the site what the last wanted
-- result for it tells, or what it held before where there is none, whatever rows it is made of; and the
-- scan counts the wanted results.
pub store_results-replay :
    (s : Service) (id : ℕ) (results : List ScanResult) (rows : List DiscoveryCandidate) (ip : Text)
    → (view s.site (store_results s id results rows).1 ip ≡ replay s results (view s.site rows) ip)
      × ((store_results s id results rows).0 ≡ wanted s results)
unfolding store_results wanted
store_results-replay s id [] rows ip = (unfold replay in refl, refl)
store_results-replay s id (r ∷ results) rows ip = elim (Bool-cases (is_wanted s r)) [
  | inl w ↦
      let rest = store_results-replay s (id + 1) results (store_result s id r rows) ip in
      rw (w, replay-cons s r results (view s.site rows) ip, w)
        (rest.0 ∙ replay_ext s results _ _ (store-view s id r rows) ip, ap (λ n. 1 + n) rest.1)
  | inr w ↦
      let rest = store_results-replay s id results rows ip in
      rw (w, replay-cons s r results (view s.site rows) ip, w) rest
]
