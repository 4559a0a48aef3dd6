-- ===== src/Interfaces/Apply/Pass.antt =====
-- The loops of _apply_interfaces as one pass over the rows.
use zas.Prelude.{
  ℕ, ◌≡◌, refl, ◌∙◌, Bool, true, false, Option, none, some, List, ◌==◌, if◌then◌else◌,
}
use zas.Text.{Text, get, keys}
use zas.Text.Distinct.{Distinct}
use zas.Interfaces.{Interface}
use zas.Interfaces.Reports.{PortStatus, IpData, Gathered}
use zas.Interfaces.Apply.{
  set_kind, set_mode, set_lag, set_description, set_port, set_ip_status, set_status, is_undecided,
  set_ip,
}
use zas.Interfaces.Apply.Rows.{
  Keeps, Linked, IsSeen, Linked-of, IsSeen-of, each_row, each_row_lem, dict_row, at_entry,
}
use zas.Interfaces.Apply.Dicts.{lag_to, lag_step, dict_row_lem}

set_kind-Keeps : (name : Text) → Keeps (set_kind name)
unfolding set_kind
set_kind-Keeps name r = (refl, refl, refl)

set_mode-Keeps : (g : Gathered) (name : Text) → Keeps (set_mode g name)
unfolding set_mode
set_mode-Keeps g name r = (refl, refl, refl)

lag_to-Keeps : (o : Option ℕ) → Keeps (lag_to o)
unfolding lag_to set_lag
lag_to-Keeps none r = (refl, refl, refl)
lag_to-Keeps (some k) r = (refl, refl, refl)

lag_step-Keeps : (objs : List (Text × ℕ)) (po : Text) → Keeps (lag_step objs po)
unfolding lag_step
lag_step-Keeps objs po = lag_to-Keeps (get po objs)

set_ip-Keeps : (d : IpData) → Keeps (set_ip d)
unfolding set_ip
set_ip-Keeps d r = (refl, refl, refl)

set_description-Keeps : (o : Option Text) → Keeps (set_description o)
unfolding set_description
set_description-Keeps none r = (refl, refl, refl)
set_description-Keeps (some d) r = (refl, refl, refl)

set_port-Keeps : (o : Option PortStatus) → Keeps (set_port o)
unfolding set_port
set_port-Keeps none r = (refl, refl, refl)
set_port-Keeps (some p) r = (refl, refl, refl)

set_ip_status-Keeps : (b : Bool) (o : Option IpData) → Keeps (set_ip_status b o)
unfolding set_ip_status
set_ip_status-Keeps b none r = (refl, refl, refl)
set_ip_status-Keeps true (some d) r = (refl, refl, refl)
set_ip_status-Keeps false (some d) r = (refl, refl, refl)

Keeps-then : (f g : Interface → Interface) → Keeps f → Keeps g → Keeps (λ r. g (f r))
Keeps-then f g hf hg r =
    let (i, n, d) = hf r in let (i', n', d') = hg (f r) in (i' ∙ i, n' ∙ n, d' ∙ d)

set_status-Keeps : (g : Gathered) (name : Text) → Keeps (set_status g name)
unfolding set_status
set_status-Keeps g name =
    let port = get name g.status_map in
    let desc = get name g.desc_map in
    Keeps-then _ (set_ip_status (is_undecided port) (get name g.ips.ip_seen))
      (Keeps-then (set_description desc) (set_port port) (set_description-Keeps desc)
        (set_port-Keeps port))
      (set_ip_status-Keeps (is_undecided port) (get name g.ips.ip_seen))

-- What a sync makes of a row of the device: kind, mode, port channel, state, address.
unfoldable pub synced : Gathered → List (Text × ℕ) → Interface → Interface
unfolding at_entry
synced g objs r =
    let r1 = set_mode g r.name (set_kind r.name r) in
    let r2 = at_entry (lag_step objs) (get r.name g.lag_map) r1 in
    let r3 = set_status g r.name r2 in at_entry set_ip (get r.name g.ips.ip_seen) r3

unfoldable pub pass : ℕ → Gathered → List (Text × ℕ) → Interface → Interface
unfolding synced
pass device g objs r = if r.device == device then synced g objs r else r

at_entry-Keeps :
    {V : Type 0} (f : V → Interface → Interface) (o : Option V)
    → ((v : V) → Keeps (f v))
    → Keeps (at_entry f o)
unfolding at_entry
at_entry-Keeps f none keep r = (refl, refl, refl)
at_entry-Keeps f (some v) keep r = keep v r

pub synced-Keeps : (g : Gathered) (objs : List (Text × ℕ)) → Keeps (synced g objs)
unfolding synced
synced-Keeps g objs r =
    let f1 = set_kind r.name in
    let f2 = λ (s : Interface). set_mode g r.name (f1 s) in
    let f3 = λ (s : Interface). at_entry (lag_step objs) (get r.name g.lag_map) (f2 s) in
    let f4 = λ (s : Interface). set_status g r.name (f3 s) in
    let mode =
      Keeps-then f1 (set_mode g r.name) (set_kind-Keeps r.name) (set_mode-Keeps g r.name) in
    let lag =
      Keeps-then f2 (at_entry (lag_step objs) (get r.name g.lag_map)) mode
        (at_entry-Keeps (lag_step objs) _ (lag_step-Keeps objs)) in
    let state = Keeps-then f3 (set_status g r.name) lag (set_status-Keeps g r.name) in
    Keeps-then f4 (at_entry set_ip (get r.name g.ips.ip_seen)) state
      (at_entry-Keeps set_ip (get r.name g.ips.ip_seen) set_ip-Keeps) r

-- a row that a loop meets, which the earlier loops made of the row `r`
module _ (device : ℕ) (objs : List (Text × ℕ)) (r : Interface) (link : Linked device objs r)
    (seen : IsSeen device objs r) where
  abbrev IsFrom : Interface → Type 0
  IsFrom s = (s.id ≡ r.id) × (s.name ≡ r.name) × (s.device ≡ r.device)

  loop_turn :
      (f : Text → Interface → Interface) (s : Interface)
      → Distinct (keys objs)
      → ((name : Text) → Keeps (f name))
      → IsFrom s
      → each_row f objs s ≡ (if r.device == device then f r.name s else s)
  loop_turn f s dis keep (i, n, d) =
      each_row_lem device f objs s keep dis (Linked-of device objs r s i n d link)
        (IsSeen-of device objs r s n d seen)
      ∙ rw (n, d) refl

  dict_turn :
      {V : Type 0} (f : V → Interface → Interface) (dict : List (Text × V)) (s : Interface)
      → Distinct (keys dict)
      → ((v : V) → Keeps (f v))
      → IsFrom s
      → dict_row f objs dict s ≡ (if r.device == device then at_entry f (get r.name dict) s else s)
  dict_turn f dict s dis keep (i, n, d) =
      dict_row_lem device f objs dict s keep dis (Linked-of device objs r s i n d link)
        (IsSeen-of device objs r s n d seen)
      ∙ rw (n, d) refl

  IsFrom-if :
      (b : Bool) (f : Interface → Interface) (s : Interface)
      → Keeps f
      → IsFrom s
      → IsFrom (if b then f s else s)
  IsFrom-if true f s keep h = let (i, n, d) = keep s in (i ∙ h.0, n ∙ h.1, d ∙ h.2)
  IsFrom-if false f s keep h = h

unfoldable pub all_loops : Gathered → List (Text × ℕ) → Interface → Interface
all_loops g objs r = dict_row set_ip objs g.ips.ip_seen (
    each_row (set_status g) objs (
      dict_row (lag_step objs) objs g.lag_map
        (each_row (set_mode g) objs (each_row set_kind objs r))))

-- the steps with their tests, as one
same_test :
    (b : Bool) (f1 f2 f3 f4 f5 : Interface → Interface) (r : Interface)
    → (let s1 = if b then f1 r else r in
        let s2 = if b then f2 s1 else s1 in
        let s3 = if b then f3 s2 else s2 in
        let s4 = if b then f4 s3 else s3 in (if b then f5 s4 else s4))
      ≡ (if b then f5 (f4 (f3 (f2 (f1 r)))) else r)
same_test true f1 f2 f3 f4 f5 r = refl
same_test false f1 f2 f3 f4 f5 r = refl

pub all_loops_lem :
    (device : ℕ) (g : Gathered) (objs : List (Text × ℕ)) (r : Interface)
    → Distinct (keys objs)
    → Distinct (keys g.lag_map)
    → Distinct (keys g.ips.ip_seen)
    → Linked device objs r × IsSeen device objs r
    → all_loops g objs r ≡ pass device g objs r
unfolding all_loops pass synced
all_loops_lem device g objs r names lags ips (link, seen) =
    let own = r.device == device in
    let f1 = set_kind r.name in
    let f2 = set_mode g r.name in
    let f3 = at_entry (lag_step objs) (get r.name g.lag_map) in
    let f4 = set_status g r.name in
    let f5 = at_entry set_ip (get r.name g.ips.ip_seen) in
    let s1 = if own then f1 r else r in
    let s2 = if own then f2 s1 else s1 in
    let s3 = if own then f3 s2 else s2 in
    let s4 = if own then f4 s3 else s3 in
    let h0 : (r.id ≡ r.id) × (r.name ≡ r.name) × (r.device ≡ r.device) = (refl, refl, refl) in
    let h1 = IsFrom-if device objs r link seen own f1 r (set_kind-Keeps r.name) h0 in
    let h2 = IsFrom-if device objs r link seen own f2 s1 (set_mode-Keeps g r.name) h1 in
    let h3 =
      IsFrom-if device objs r link seen own f3 s2
        (at_entry-Keeps (lag_step objs) (get r.name g.lag_map) (lag_step-Keeps objs)) h2 in
    let h4 = IsFrom-if device objs r link seen own f4 s3 (set_status-Keeps g r.name) h3 in
    let e1 = loop_turn device objs r link seen set_kind r names set_kind-Keeps h0 in
    let e2 = loop_turn device objs r link seen (set_mode g) s1 names (set_mode-Keeps g) h1 in
    let e3 =
      dict_turn device objs r link seen (lag_step objs) g.lag_map s2 lags (lag_step-Keeps objs)
        h2 in
    let e4 = loop_turn device objs r link seen (set_status g) s3 names (set_status-Keeps g) h3 in
    let e5 = dict_turn device objs r link seen set_ip g.ips.ip_seen s4 ips set_ip-Keeps h4 in
    rw (e1, e2, e3, e4, e5) (same_test own f1 f2 f3 f4 f5 r)
