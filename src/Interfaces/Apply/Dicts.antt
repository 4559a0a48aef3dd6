-- ===== src/Interfaces/Apply/Dicts.antt =====
-- The loops of _apply_interfaces over its dictionaries, row by row.
use mathlib.Core.List.{map-map}
use zas.Prelude.{
  ℕ, ◌≡◌, refl, sym, ap, ◌∙◌, Bool, Option, none, some, List, [], ◌∷◌, map, ◌==◌, if◌then◌else◌,
  Bool-cases, inl, inr, any, ok, err,
}
use zas.Text.{Text, text_eq, text_eq_iff, text_eq_comm, get, keys}
use zas.Text.Distinct.{Distinct, get-cons_eq, get-cons_ne}
use zas.Interfaces.{Interface}
use zas.Interfaces.Reports.{IpData, Gathered, null_column}
use zas.Interfaces.Apply.{
  same_interface, edit, each, bind_lag, bind_lags, set_lag, save_ip, save_ips, set_ip, each_status,
  set_status, lacks_vlan,
}
use zas.Interfaces.Apply.Rows.{
  Keeps, Linked, IsSeen, Linked-of, IsSeen-of, map-id_lem, map-same, hit, hit_some, hit_some_lem,
  dict_row, dict_row-miss, at_entry,
}

-- A loop over a dictionary does its step once, to the row of each key.
pub dict_row_lem :
    {V : Type 0} (device : ℕ) (f : V → Interface → Interface) (objs : List (Text × ℕ))
    (d : List (Text × V)) (r : Interface)
    → ((v : V) → Keeps (f v))
    → Distinct (keys d)
    → Linked device objs r
    → IsSeen device objs r
    → dict_row f objs d r ≡ (if r.device == device then at_entry f (get r.name d) r else r)
unfolding dict_row at_entry
dict_row_lem device f objs [] r keep dis link seen =
    unfold get in elim (Bool-cases (r.device == device)) [ inl e ↦ rw e refl | inr e ↦ rw e refl ]
dict_row_lem device f objs (e ∷ d) r keep dis link seen =
    let turn = hit_some_lem device (f e.1) e.0 objs r link seen in
    let rest = dict_row_lem device f objs d r keep dis.1 link seen in
    elim (Bool-cases (r.device == device)) [
      | inr other ↦
          let stays : hit_some (get e.0 objs) (f e.1) r ≡ r =
            turn ∙ unfold same_interface in rw other refl in
          rw (stays, other) (rest ∙ rw other refl)
      | inl own ↦ elim (Bool-cases (text_eq r.name e.0)) [
        | inl same ↦
            let name = (text_eq_iff r.name e.0).0 same in
            let done : hit_some (get e.0 objs) (f e.1) r ≡ f e.1 r =
              turn ∙ unfold same_interface in rw (own, same) refl in
            let (i, n, dev) = keep e.1 r in
            let missed =
              dict_row-miss device f objs d (f e.1 r)
                (Linked-of device objs r (f e.1 r) i n dev link)
                (IsSeen-of device objs r (f e.1 r) n dev seen) (rw (n, name) dis.0) in
            let found = get-cons_eq r.name e d (text_eq_comm e.0 r.name ∙ same) in
            rw (done, own, found) missed
        | inr differs ↦
            let stays : hit_some (get e.0 objs) (f e.1) r ≡ r =
              turn ∙ unfold same_interface in rw (own, differs) refl in
            let skipped = get-cons_ne r.name e d (text_eq_comm e.0 r.name ∙ differs) in
            rw (stays, own, skipped) (rest ∙ rw own refl)
      ]
    ]

-- the step of the loop over `lag_map`, where the key of the port channel is looked up
unfoldable pub lag_to : Option ℕ → Interface → Interface
lag_to none r = r
lag_to (some k) r = set_lag k r

unfoldable pub lag_step : List (Text × ℕ) → Text → Interface → Interface
unfolding lag_to
lag_step objs po r = lag_to (get po objs) r

lag_to-none : (k : ℕ) (r : Interface) → hit k (lag_to none) r ≡ r
unfolding hit lag_to
lag_to-none k r = elim (Bool-cases (r.id == k)) [ inl e ↦ rw e refl | inr e ↦ rw e refl ]

bind_lag_lem :
    (member po : Option ℕ) (rows : List Interface)
    → bind_lag member po rows ≡ map (hit_some member (lag_to po)) rows
unfolding bind_lag hit_some lag_to edit hit
bind_lag_lem none po rows = sym (map-id_lem rows)
bind_lag_lem (some k) none rows = map-same (hit k (lag_to none)) (lag_to-none k) rows
bind_lag_lem (some k) (some p) rows = refl

pub bind_lags_lem :
    (lag_map : List (Text × Text)) (objs : List (Text × ℕ)) (rows : List Interface)
    → bind_lags lag_map objs rows ≡ map (dict_row (lag_step objs) objs lag_map) rows
unfolding bind_lags dict_row lag_step
bind_lags_lem [] objs rows = sym (map-id_lem rows)
bind_lags_lem (e ∷ lag_map) objs rows =
    bind_lags_lem lag_map objs (bind_lag (get e.0 objs) (get e.1 objs) rows)
    ∙ ap (map (dict_row (lag_step objs) objs lag_map))
        (bind_lag_lem (get e.0 objs) (get e.1 objs) rows)
    ∙ map-map (dict_row (lag_step objs) objs lag_map) (hit_some (get e.0 objs) (lag_step objs e.1))
        rows

save_ip_lem :
    (o : Option ℕ) (d : IpData) (rows : List Interface)
    → save_ip o d rows ≡ map (hit_some o (set_ip d)) rows
unfolding save_ip hit_some edit hit
save_ip_lem none d rows = sym (map-id_lem rows)
save_ip_lem (some k) d rows = refl

pub save_ips_lem :
    (ip_seen : List (Text × IpData)) (objs : List (Text × ℕ)) (rows : List Interface)
    → save_ips ip_seen objs rows ≡ map (dict_row set_ip objs ip_seen) rows
unfolding save_ips dict_row
save_ips_lem [] objs rows = sym (map-id_lem rows)
save_ips_lem (e ∷ ip_seen) objs rows =
    save_ips_lem ip_seen objs (save_ip (get e.0 objs) e.1 rows)
    ∙ ap (map (dict_row set_ip objs ip_seen)) (save_ip_lem (get e.0 objs) e.1 rows)
    ∙ map-map (dict_row set_ip objs ip_seen) (hit_some (get e.0 objs) (set_ip e.1)) rows

-- The loop over the states fails exactly where a reported interface lacks a VLAN.
unfoldable pub lacking : Gathered → List (Text × ℕ) → Bool
lacking g objs = any (λ o. lacks_vlan (get o.0 g.status_map)) objs

pub each_status_lem :
    (g : Gathered) (objs : List (Text × ℕ)) (rows : List Interface)
    → each_status g objs rows
      ≡ (if lacking g objs then err null_column else ok (each (set_status g) objs rows))
unfolding each_status each lacking
each_status_lem g [] rows = refl
each_status_lem g (o ∷ objs) rows =
    let rest = each_status_lem g objs (edit o.1 (set_status g o.0) rows) in
    elim (Bool-cases (lacks_vlan (get o.0 g.status_map))) [ inl e ↦ rw e refl | inr e ↦ rw e rest ]
