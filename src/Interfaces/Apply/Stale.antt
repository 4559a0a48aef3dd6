-- ===== src/Interfaces/Apply/Stale.antt =====
-- The columns of a row that the loops over the interfaces leave as they were, and those that they decide.
use zas.Prelude.{
  ℕ, ◌≡◌, refl, ap, ◌∙◌, Bool, true, false, Option, none, some, List, ◌==◌, ==_iff, ◌⊎◌, Bool-cases,
  inl, inr, ok,
}
use zas.Text.{Text, get}
use zas.Interfaces.{Interface, infer_kind, l3}
use zas.Interfaces.Reports.{IpParsers, Reports, IpData, PortStatus, Gathered, gather}
use zas.Interfaces.Reports.Addresses.{gather_lem}
use zas.Interfaces.Apply.{
  set_kind, set_mode, set_lag, set_status, set_description, set_port, set_ip_status, is_undecided,
  is_routed_kind, set_ip,
}
use zas.Interfaces.Apply.Rows.{at_entry}
use zas.Interfaces.Apply.Dicts.{lag_to, lag_step}
use zas.Interfaces.Apply.Pass.{pass, synced}

-- the columns that the loop over the states does not write
abbrev SameRest : Interface → Interface → Type 0
SameRest s r = (s.ip_address ≡ r.ip_address) × (s.kind ≡ r.kind) × (s.mode ≡ r.mode)

set_description-SameRest : (o : Option Text) (r : Interface) → SameRest (set_description o r) r
unfolding set_description
set_description-SameRest none r = (refl, refl, refl)
set_description-SameRest (some d) r = (refl, refl, refl)

set_port-SameRest : (o : Option PortStatus) (r : Interface) → SameRest (set_port o r) r
unfolding set_port
set_port-SameRest none r = (refl, refl, refl)
set_port-SameRest (some p) r = (refl, refl, refl)

set_ip_status-SameRest :
    (b : Bool) (o : Option IpData) (r : Interface) → SameRest (set_ip_status b o r) r
unfolding set_ip_status
set_ip_status-SameRest b none r = (refl, refl, refl)
set_ip_status-SameRest true (some d) r = (refl, refl, refl)
set_ip_status-SameRest false (some d) r = (refl, refl, refl)

SameRest-then : (t s r : Interface) → SameRest t s → SameRest s r → SameRest t r
SameRest-then t s r h k = (h.0 ∙ k.0, h.1 ∙ k.1, h.2 ∙ k.2)

set_status-SameRest :
    (g : Gathered) (name : Text) (r : Interface) → SameRest (set_status g name r) r
unfolding set_status
set_status-SameRest g name r =
    let port = get name g.status_map in
    let r1 = set_description (get name g.desc_map) r in
    let r2 = set_port port r1 in
    let r3 = set_ip_status (is_undecided port) (get name g.ips.ip_seen) r2 in
    SameRest-then r3 r2 r (set_ip_status-SameRest (is_undecided port) (get name g.ips.ip_seen) r2) (
      SameRest-then r2 r1 r (set_port-SameRest port r1)
        (set_description-SameRest (get name g.desc_map) r))

lag_to-SameRest : (o : Option ℕ) (r : Interface) → SameRest (lag_to o r) r
unfolding lag_to set_lag
lag_to-SameRest none r = (refl, refl, refl)
lag_to-SameRest (some k) r = (refl, refl, refl)

entry-SameRest :
    (objs : List (Text × ℕ)) (o : Option Text) (r : Interface)
    → SameRest (at_entry (lag_step objs) o r) r
unfolding at_entry lag_step
entry-SameRest objs none r = (refl, refl, refl)
entry-SameRest objs (some po) r = lag_to-SameRest (get po objs) r

set_ip-kind : (o : Option IpData) (r : Interface) → (at_entry set_ip o r).kind ≡ r.kind
unfolding at_entry set_ip
set_ip-kind none r = refl
set_ip-kind (some d) r = refl

set_ip-mode : (o : Option IpData) (r : Interface) → (at_entry set_ip o r).mode ≡ r.mode
unfolding at_entry set_ip
set_ip-mode none r = refl
set_ip-mode (some d) r = refl

-- the row before the loop over the addresses has the kind and the mode of the second loop
before_ip :
    (g : Gathered) (objs : List (Text × ℕ)) (r : Interface)
    → SameRest
        (set_status g r.name
          (at_entry (lag_step objs) (get r.name g.lag_map) (set_mode g r.name (set_kind r.name r))))
        (set_mode g r.name (set_kind r.name r))
before_ip g objs r =
    let r1 = set_mode g r.name (set_kind r.name r) in
    let r2 = at_entry (lag_step objs) (get r.name g.lag_map) r1 in
    SameRest-then (set_status g r.name r2) r2 r1 (set_status-SameRest g r.name r2)
      (entry-SameRest objs (get r.name g.lag_map) r1)

synced-ip :
    (g : Gathered) (objs : List (Text × ℕ)) (r : Interface)
    → get r.name g.ips.ip_seen ≡ none
    → (synced g objs r).ip_address ≡ r.ip_address
unfolding synced at_entry
synced-ip g objs r h = rw h ((before_ip g objs r).0 ∙ unfold set_mode set_kind in refl)

-- a row that the output gives no parsable address
pub pass-address :
    (lib : IpParsers) (reports : Reports) (g : Gathered) (device : ℕ) (objs : List (Text × ℕ))
    (r : Interface)
    → gather lib reports ≡ ok g
    → get r.name g.ips.ip_map ≡ none
    → (pass device g objs r).ip_address ≡ r.ip_address
unfolding pass
pass-address lib reports g device objs r gathered h =
    let (lags, ips, same) = gather_lem lib reports g gathered in
    let unseen : get r.name g.ips.ip_seen ≡ none = ap (get r.name) same ∙ h in
    elim (Bool-cases (r.device == device)) [
      | inl own ↦ rw own (synced-ip g objs r unseen)
      | inr other ↦ rw other refl
    ]

routed-mode :
    (g : Gathered) (name : Text) (r : Interface)
    → is_routed_kind r.kind ≡ true
    → (set_mode g name r).mode ≡ some l3
unfolding set_mode
routed-mode g name r h = rw h refl

-- the kind and the mode of a row of the device
pub pass-kind :
    (device : ℕ) (g : Gathered) (objs : List (Text × ℕ)) (r : Interface)
    → r.device ≡ device
    → ((pass device g objs r).kind ≡ infer_kind r.name)
      × ((is_routed_kind (infer_kind r.name) ≡ false) ⊎ ((pass device g objs r).mode ≡ some l3))
unfolding pass synced
pass-kind device g objs r own =
    let r1 = set_mode g r.name (set_kind r.name r) in
    let r3 = set_status g r.name (at_entry (lag_step objs) (get r.name g.lag_map) r1) in
    let before = before_ip g objs r in
    let address = get r.name g.ips.ip_seen in
    rw ((==_iff r.device device).1 own) (
      set_ip-kind address r3 ∙ before.1 ∙ unfold set_mode set_kind in refl,
      elim (Bool-cases (is_routed_kind (infer_kind r.name))) [
        | inr e ↦ inl e
        | inl e ↦ inr (
            set_ip-mode address r3
            ∙ before.2
            ∙ routed-mode g r.name (set_kind r.name r) (unfold set_kind in e))
      ],
    )
