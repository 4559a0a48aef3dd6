-- ===== src/Interfaces/Reports/Addresses.antt =====
-- What the loops over the parsed output keep of their dictionaries.
use zas.Prelude.{
  ◌≡◌, refl, sym, ap, ◌∙◌, Option, none, some, List, [], ◌∷◌, map, Bool-cases, Option-cases, ◌⊎◌,
  inl, inr, is_empty, if◌then◌else◌, Result, ok, Result-cases,
}
use zas.Sync.{or_text, first_text}
use zas.Interfaces.{normalize_iface}
use zas.Text.{strip, add_name, Text, text_eq, text_eq_iff, text_eq_refl, get, put, keys}
use zas.Text.Distinct.{Distinct, put-Distinct, add_names-Distinct}
use zas.Interfaces.Reports.{
  IpEntry, PoEntry, IpData, IpMaps, IpParsers, ApplyError, with_ip, see_ip, parsed_ip, add_ip,
  add_ips, add_members, before_paren, members_of, is_address_text, add_po, add_pos, add_statuses,
  add_descs, no_ips, Reports, Gathered, gather, seen_names,
}

abbrev IsSound : IpMaps → Type 0
IsSound maps = (maps.ip_seen ≡ maps.ip_map) × Distinct (keys maps.ip_map)

with_ip-Distinct :
    (name : Text) (o : Option Text) (e : IpEntry) (ip_map : List (Text × IpData))
    → Distinct (keys ip_map)
    → Distinct (keys (with_ip name o e ip_map))
unfolding with_ip
with_ip-Distinct name none e ip_map h = h
with_ip-Distinct name (some []) e ip_map h = h
with_ip-Distinct name (some (c ∷ ip)) e ip_map h = put-Distinct name _ ip_map h

get-put :
    (name : Text) (d : IpData) (ip_map : List (Text × IpData))
    → get name (put name d ip_map) ≡ some d
unfolding get put
get-put name d [] = rw (text_eq_refl name) refl
get-put name d (e ∷ ip_map) =
    let ih = get-put name d ip_map in
    elim (Bool-cases (text_eq e.0 name)) [
      | inl same ↦ rw (same, text_eq_refl name) refl
      | inr other ↦ rw (other, other) ih
    ]

-- what is written to `ip_seen` is what `ip_map` has there
put_known :
    (name : Text) (d : IpData) (ip_map : List (Text × IpData))
    → get name ip_map ≡ some d
    → put name d ip_map ≡ ip_map
unfolding get put
put_known name d [] h = cc h
put_known name d (e ∷ ip_map) h = elim (Bool-cases (text_eq e.0 name)) [
  | inl same ↦
      let name_eq = (text_eq_iff e.0 name).0 same in
      let data_eq : e.1 ≡ d = cc (rw same at h) in
      rw same (ap (λ n. (n, d) ∷ ip_map) (sym name_eq) ∙ ap (λ x. (e.0, x) ∷ ip_map) (sym data_eq))
  | inr other ↦ rw other (ap (λ l. e ∷ l) (put_known name d ip_map (rw other at h)))
]

with_ip_known :
    (name : Text) (o : Option Text) (e : IpEntry) (ip_map : List (Text × IpData)) (d : IpData)
    → get name (with_ip name o e ip_map) ≡ some d
    → put name d ip_map ≡ with_ip name o e ip_map
unfolding with_ip
with_ip_known name none e ip_map d h = put_known name d ip_map h
with_ip_known name (some []) e ip_map d h = put_known name d ip_map h
with_ip_known name (some (c ∷ ip)) e ip_map d h =
    let same : _ ≡ d = cc (sym (get-put name _ ip_map) ∙ h) in
    ap (λ x. put name x ip_map) (sym same)

ok-injective : (m m' : IpMaps) → Path (Result ApplyError IpMaps) (ok m) (ok m') → m ≡ m'
ok-injective m m' h = cc h

see_ip-IsSound :
    (name : Text) (o : Option Text) (e : IpEntry) (maps named maps' : IpMaps)
    → named.ip_map ≡ maps.ip_map
    → named.ip_seen ≡ maps.ip_seen
    → IsSound maps
    → see_ip name (with_ip name o e maps.ip_map) named ≡ ok maps'
    → IsSound maps'
unfolding see_ip
see_ip-IsSound name o e maps named maps' em es sound h =
    elim (Option-cases (get name (with_ip name o e maps.ip_map))) [
      | inl absent ↦ cc (rw (absent, see_ip) at h)
      | inr (d, found) ↦
          let result = ok-injective _ maps' (rw (found, see_ip) at h) in
          rw (← result) (
            ap (put name d) (es ∙ sound.0) ∙ with_ip_known name o e maps.ip_map d found,
            with_ip-Distinct name o e maps.ip_map sound.1,
          )
    ]

add_ip_cases :
    (lib : IpParsers) (e : IpEntry) (maps : IpMaps)
    → (add_ip lib e maps ≡ ok maps)
      ⊎ ((name : Text) × (o : Option Text) × (named : IpMaps) × (named.ip_map ≡ maps.ip_map)
          × (named.ip_seen ≡ maps.ip_seen)
          × ((add_ip lib e maps ≡ see_ip name (with_ip name o e maps.ip_map) named)
              ⊎ (add_ip lib e maps ≡ ok named)))
unfolding add_ip
add_ip_cases lib e maps =
    let name = normalize_iface (first_text e.intf e.interface) in
    let ip_value = strip (or_text (first_text e.ipaddr e.ip_address) []) in
    let named = record maps { ip_names = add_name name maps.ip_names } in
    elim (Bool-cases (is_empty name)) [
      | inl h ↦ inl (rw h refl)
      | inr h ↦ inr (
        name,
        parsed_ip lib ip_value,
        named,
        refl,
        refl,
        elim (Bool-cases (is_address_text ip_value)) [
          | inl k ↦ inl (rw (h, k) refl)
          | inr k ↦ inr (rw (h, k) refl)
        ],
      )
    ]

add_ip-IsSound :
    (lib : IpParsers) (e : IpEntry) (maps maps' : IpMaps)
    → IsSound maps
    → add_ip lib e maps ≡ ok maps'
    → IsSound maps'
add_ip-IsSound lib e maps maps' sound h = elim (add_ip_cases lib e maps) [
  | inl same ↦ rw (← ok-injective maps maps' (sym same ∙ h)) sound
  | inr (name, o, named, em, es, inl seen) ↦
      see_ip-IsSound name o e maps named maps' em es sound (sym seen ∙ h)
  | inr (name, o, named, em, es, inr skipped) ↦
      rw (← ok-injective named maps' (sym skipped ∙ h)) (es ∙ sound.0 ∙ sym em, rw em sound.1)
]

add_ips-IsSound :
    (lib : IpParsers) (entries : List IpEntry) (maps maps' : IpMaps)
    → IsSound maps
    → add_ips lib entries maps ≡ ok maps'
    → IsSound maps'
unfolding add_ips
add_ips-IsSound lib [] maps maps' sound h = rw (← ok-injective maps maps' h) sound
add_ips-IsSound lib (e ∷ entries) maps maps' sound h = elim (Result-cases (add_ip lib e maps)) [
  | inl (x, bad) ↦ cc (rw (bad, add_ips) at h)
  | inr (mid, good) ↦
      add_ips-IsSound lib entries mid maps' (add_ip-IsSound lib e maps mid sound good)
        (rw (good, add_ips) at h)
]

add_members-Distinct :
    (po : Text) (ms : List (Option Text)) (lag_map : List (Text × Text))
    → Distinct (keys lag_map)
    → Distinct (keys (add_members po ms lag_map))
unfolding add_members
add_members-Distinct po [] lag_map h = h
add_members-Distinct po (m ∷ ms) lag_map h =
    let member = normalize_iface (some (before_paren m)) in
    add_members-Distinct po ms (if is_empty member then lag_map else put member po lag_map)
      (elim (Bool-cases (is_empty member)) [
        | inl e ↦ rw e h
        | inr e ↦ rw e (put-Distinct member po lag_map h)
      ])

add_po-Distinct :
    (e : PoEntry) (lag_map : List (Text × Text))
    → Distinct (keys lag_map)
    → Distinct (keys (add_po e lag_map))
unfolding add_po
add_po-Distinct e lag_map h =
    let po_raw =
      first_text e.port_channel (first_text e.bundle_name (first_text e.bundle e.portchannel)) in
    let po = normalize_iface (some (before_paren po_raw)) in
    elim (Bool-cases (is_empty po)) [
      | inl b ↦ rw b h
      | inr b ↦ rw b (add_members-Distinct po (members_of e) lag_map h)
    ]

add_pos-Distinct :
    (entries : List PoEntry) (lag_map : List (Text × Text))
    → Distinct (keys lag_map)
    → Distinct (keys (add_pos entries lag_map))
unfolding add_pos
add_pos-Distinct [] lag_map h = h
add_pos-Distinct (e ∷ entries) lag_map h =
    add_pos-Distinct entries (add_po e lag_map) (add_po-Distinct e lag_map h)

-- Each member is in one port channel, and the two dictionaries of addresses are the same.
pub gather_lem :
    (lib : IpParsers) (r : Reports) (g : Gathered)
    → gather lib r ≡ ok g
    → Distinct (keys g.lag_map) × Distinct (keys g.ips.ip_seen) × (g.ips.ip_seen ≡ g.ips.ip_map)
unfolding gather
gather_lem lib r g h = elim (Result-cases (add_ips lib r.ip_result no_ips)) [
  | inl (x, bad) ↦ cc (rw (bad, gather) at h)
  | inr (ips, good) ↦
      let sound = add_ips-IsSound lib r.ip_result no_ips ips (refl, tt) good in
      let found : Gathered = record {
        status_map = add_statuses r.status_result [];
        desc_map = add_descs r.desc_result [];
        lag_map = add_pos r.po_result [];
        ips = ips;
      } in
      let same : found ≡ g = cc (rw (good, gather) at h) in
      rw (← same) (add_pos-Distinct r.po_result [] tt, rw sound.0 sound.1, sound.0)
]

pub seen_names-Distinct : (g : Gathered) → Distinct (seen_names g)
unfolding seen_names
seen_names-Distinct g = add_names-Distinct _ (map (λ e. e.1) g.lag_map) (
    add_names-Distinct _ (keys g.lag_map) (
      add_names-Distinct _ g.ips.ip_names
        (add_names-Distinct _ (keys g.desc_map) (add_names-Distinct [] (keys g.status_map) tt))))
