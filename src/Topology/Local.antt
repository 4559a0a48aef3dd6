-- ===== src/Topology/Local.antt =====
-- The interface of a neighbor's entry: _normalize_interface_name and _resolve_local_interface
-- (automation/tasks/topology_collector.py).
use zas.Prelude.{
  ℕ, not, ◌||◌, Option, none, some, List, [], ◌∷◌, ◌++◌, length, take, drop, if◌then◌else◌,
  is_empty, select,
}
use zas.Text.{Text, codes, lower, strip, lstrip_by, is_space, is_one_of, starts_with}
use zas.Topology.{NameRow, first_by_name}

-- one `re.sub` at the start of the name, up to case
abbreviate : Text → Text → Text → Text
abbreviate long short value =
    if starts_with (lower value) (lower long) then short ++ drop (length long) value else value

-- white space after a short form
close_up : List Text → Text → Text
close_up [] value = value
close_up (p ∷ ps) value =
    let rest = close_up ps value in
    if starts_with (lower value) (lower p)
    then take (length p) value ++ lstrip_by is_space (drop (length p) value)
    else rest

abbreviate_all : List (Text × Text) → Text → Text
unfolding abbreviate
abbreviate_all [] value = value
abbreviate_all (p ∷ ps) value = abbreviate_all ps (abbreviate p.0 p.1 value)

abbrev replacements : List (Text × Text)
replacements =
    (codes "Port-channel", codes "Po")
    ∷ (codes "GigabitEthernet", codes "Gi")
    ∷ (codes "Gig", codes "Gi")
    ∷ (codes "TenGigabitEthernet", codes "Te")
    ∷ (codes "FortyGigabitEthernet", codes "Fo")
    ∷ (codes "TwentyFiveGigE", codes "Tw")
    ∷ (codes "HundredGigE", codes "Hu")
    ∷ (codes "Ethernet", codes "Eth")
    ∷ []

abbrev short_forms : List Text
short_forms =
    codes "Gi" ∷ codes "Te" ∷ codes "Fo" ∷ codes "Po" ∷ codes "Hu" ∷ codes "Tw" ∷ codes "Eth" ∷ []

-- _normalize_interface_name
unfoldable pub normalize_interface_name : Text → Text
unfolding abbreviate_all close_up
normalize_interface_name name = close_up short_forms (abbreviate_all replacements (strip name))

-- `if t and t not in candidates`
add_candidate : Text → List Text → List Text
add_candidate t ts = if is_empty t || is_one_of t ts then ts else ts ++ t ∷ []

candidates : Text → List Text
unfolding add_candidate normalize_interface_name
candidates raw =
    let normalized = normalize_interface_name raw in
    let compact = select (λ c. not (is_space c)) raw in
    let first = if is_empty normalized then raw ∷ [] else raw ∷ normalized ∷ [] in
    add_candidate (normalize_interface_name compact) (add_candidate compact first)

first_match : List Text → List NameRow → Option ℕ
first_match [] interfaces = none
first_match (c ∷ cs) interfaces =
    let rest = first_match cs interfaces in
    if is_empty c then rest else elim (first_by_name c interfaces) [ none ↦ rest | some i ↦ some i ]

-- _resolve_local_interface
unfoldable pub resolve_local_interface : Text → List NameRow → Option ℕ
unfolding candidates first_match
resolve_local_interface raw interfaces = first_match (candidates raw) interfaces
