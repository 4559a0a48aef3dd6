-- ===== src/Interfaces/Apply/Total.antt =====
-- When _apply_interfaces succeeds, and what the table of the interfaces is then.
use mathlib.Core.List.{map-map}
use zas.Prelude.{
  ℕ, ◌≡◌, refl, ap, ◌∙◌, false, List, [], ◌∷◌, map, arith, All, All-both, All-map, All-swap,
  is_empty, ok,
}
use zas.Text.{Text, get, keys}
use zas.Text.Distinct.{Distinct}
use zas.Interfaces.{Interface}
use zas.Interfaces.Reports.{IpParsers, Reports, Gathered, gather, seen_names}
use zas.Interfaces.Reports.Addresses.{gather_lem, seen_names-Distinct}
use zas.Interfaces.Apply.{
  each, set_kind, set_mode, bind_lags, each_status, set_status, set_ip, Created, create_all,
  delete_unseen, update_all, apply_gathered, apply_interfaces, lacks_vlan,
}
use zas.Interfaces.Apply.Rows.{Linked, IsSeen, each_row, each_lem, dict_row, map_ext}
use zas.Interfaces.Apply.Dicts.{lag_step, bind_lags_lem, save_ips_lem, lacking, each_status_lem}
use zas.Interfaces.Apply.Pass.{pass, all_loops, all_loops_lem}
use zas.Interfaces.Apply.Creation.{IsFresh, AtMostOne}
use zas.Interfaces.Apply.Linked.{Grew, Grew-All, create_all_lem}
use zas.Interfaces.Apply.Kept.{
  IsNamed, delete_unseen-IsFresh, delete_unseen-AtMostOne, delete_unseen-IsNamed, new_names,
}

-- the loops before the one over the states, at one row
bound_row : Gathered → List (Text × ℕ) → Interface → Interface
bound_row g objs r =
    dict_row (lag_step objs) objs g.lag_map (each_row (set_mode g) objs (each_row set_kind objs r))

bound_lem :
    (g : Gathered) (objs : List (Text × ℕ)) (rows : List Interface)
    → bind_lags g.lag_map objs (each (set_mode g) objs (each set_kind objs rows))
      ≡ map (bound_row g objs) rows
unfolding bound_row
bound_lem g objs rows =
    bind_lags_lem g.lag_map objs (each (set_mode g) objs (each set_kind objs rows))
    ∙ ap (map (dict_row (lag_step objs) objs g.lag_map)) (
        each_lem (set_mode g) objs (each set_kind objs rows)
        ∙ ap (map (each_row (set_mode g) objs)) (each_lem set_kind objs rows)
        ∙ map-map (each_row (set_mode g) objs) (each_row set_kind objs) rows)
    ∙ map-map (dict_row (lag_step objs) objs g.lag_map)
        (λ r. each_row (set_mode g) objs (each_row set_kind objs r)) rows

update_all_lem :
    (g : Gathered) (c : Created)
    → lacking g c.iface_objs ≡ false
    → update_all g c ≡ ok (map (all_loops g c.iface_objs) c.rows)
unfolding update_all all_loops bound_row
update_all_lem g c have =
    let objs = c.iface_objs in
    let bound = bind_lags g.lag_map objs (each (set_mode g) objs (each set_kind objs c.rows)) in
    let stated : each_status g objs bound ≡ ok (each (set_status g) objs bound) =
      each_status_lem g objs bound ∙ rw have refl in
    rw (stated, update_all)
      (ap ok (
        save_ips_lem g.ips.ip_seen objs (each (set_status g) objs bound)
        ∙ ap (map (dict_row set_ip objs g.ips.ip_seen)) (
            each_lem (set_status g) objs bound
            ∙ ap (map (each_row (set_status g) objs)) (bound_lem g objs c.rows)
            ∙ map-map (each_row (set_status g) objs) (bound_row g objs) c.rows)
        ∙ map-map (dict_row set_ip objs g.ips.ip_seen)
            (λ r. each_row (set_status g) objs (bound_row g objs r)) c.rows))

lacking_none :
    (g : Gathered) (objs : List (Text × ℕ))
    → All (λ n. lacks_vlan (get n g.status_map) ≡ false) (keys objs)
    → lacking g objs ≡ false
unfolding lacking
lacking_none g [] h = refl
lacking_none g (o ∷ objs) h = ground (arith, h.0, lacking_none g objs h.1)

apply_gathered-step :
    (id device : ℕ) (g : Gathered) (rows : List Interface) (c : Created)
    → create_all id device (seen_names g) (delete_unseen device (seen_names g) rows) ≡ ok c
    → apply_gathered id device g rows ≡ update_all g c
unfolding apply_gathered
apply_gathered-step id device g rows c h = rw (h, apply_gathered)

apply_interfaces-step :
    (lib : IpParsers) (id device : ℕ) (reports : Reports) (rows : List Interface) (g : Gathered)
    → gather lib reports ≡ ok g
    → apply_interfaces lib id device reports rows ≡ apply_gathered id device g rows
unfolding apply_interfaces
apply_interfaces-step lib id device reports rows g h = rw (h, apply_interfaces)

pub apply_interfaces_lem :
    (lib : IpParsers) (id device : ℕ) (reports : Reports) (rows : List Interface) (g : Gathered)
    → gather lib reports ≡ ok g
    → is_empty (seen_names g) ≡ false
    → IsFresh id rows
    → All (AtMostOne device rows) (seen_names g)
    → All (λ n. lacks_vlan (get n g.status_map) ≡ false) (seen_names g)
    → (c : Created) × (apply_interfaces lib id device reports rows
        ≡ ok (map (pass device g c.iface_objs) c.rows))
      × (keys c.iface_objs ≡ seen_names g)
      × All (λ r. Linked device c.iface_objs r × IsSeen device c.iface_objs r) c.rows
      × Grew id device (seen_names g) (delete_unseen device (seen_names g) rows) c.rows
apply_interfaces_lem lib id device reports rows g gathered some_name fresh one have =
    let seen = seen_names g in
    let left = delete_unseen device seen rows in
    let (lags, ips, same) = gather_lem lib reports g gathered in
    let (c, created, named, links, grew) =
      create_all_lem id device seen left (delete_unseen-IsFresh id device seen rows fresh)
        (seen_names-Distinct g) (All-map _ _ (delete_unseen-AtMostOne device seen rows) seen one) in
    let all_named =
      Grew-All (IsNamed device seen) id device seen left c.rows (new_names device seen) grew
        (delete_unseen-IsNamed device seen rows some_name) in
    let good : All (λ r. Linked device c.iface_objs r × IsSeen device c.iface_objs r) c.rows =
      All-both _ _ c.rows (All-swap _ c.iface_objs c.rows links) (rw named all_named) in
    let names : Distinct (keys c.iface_objs) = rw named (seen_names-Distinct g) in
    (
      c,
      apply_interfaces-step lib id device reports rows g gathered
          ∙ apply_gathered-step id device g rows c created
          ∙ update_all_lem g c (lacking_none g c.iface_objs (rw named have))
          ∙ ap ok (
              map_ext _ (all_loops g c.iface_objs) (pass device g c.iface_objs)
                (λ r q. all_loops_lem device g c.iface_objs r names lags ips q) c.rows good),
      named,
      good,
      grew,
    )
