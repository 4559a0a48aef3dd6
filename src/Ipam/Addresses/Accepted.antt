-- ===== src/Ipam/Addresses/Accepted.antt =====
-- An accepted address lies in its prefix, and no interface gets two primary addresses of one version.
use zas.Prelude.{
  ℕ, ◌≡◌, refl, ◌⊎◌, inl, inr, sym, ap, ◌∙◌, Bool, true, false, not, ◌&&◌, ◌||◌, Option, none, some,
  List, [], ◌∷◌, ◌++◌, arith, ◌==◌, if◌then◌else◌, Bool-cases, is_some, same_key, any, All-of,
  write_row, Alone, NoClash, NoClash-write,
}
use zas.Ipam.{Prefix, IpAddress}
use zas.Ipam.Network.{same_version, Address, Network, Parser, has_address}
use zas.Ipam.Addresses.{
  Db, AddressError, InterfaceSite, prefix_of, interface_of, network_of, parse_errors, inside_errors,
  interface_errors, second_stage, site_errors, primary_errors, blocks_primary, version_is,
  is_primary_role, is_deprecated, validate,
}

append_nil_parts : {A : Type 0} (xs ys : List A) → xs ++ ys ≡ [] → (xs ≡ []) × (ys ≡ [])
append_nil_parts [] ys h = (refl, h)
append_nil_parts (x ∷ xs) ys h = cc h

second_stage_nil :
    (first errors : List AddressError)
    → second_stage first errors ≡ []
    → (first ≡ []) × (errors ≡ [])
unfolding second_stage
second_stage_nil [] errors h = (refl, h)
second_stage_nil (e ∷ first) errors h = cc h

module _ (io : Parser) (db : Db) (ip : IpAddress) where
  validate_lem :
      validate io db ip
      ≡ second_stage
          (parse_errors ip.prefix
            (prefix_of db ip)
            (io.ip_address ip.address)
            (network_of io (prefix_of db ip)))
          (inside_errors (network_of io (prefix_of db ip)) (io.ip_address ip.address)
            ++ interface_errors io db ip (io.ip_address ip.address) (interface_of db ip))
  unfolding validate
  validate_lem = refl

  parsed :
      (k : Option ℕ) (p : Option Prefix) (a : Option Address) (n : Option Network)
      → parse_errors k p a n ≡ []
      → (is_some a ≡ true)
        × ((is_some p ≡ false) ⊎ (is_some n ≡ true))
        × (is_some k || is_some p) ≡ true
  unfolding parse_errors
  parsed k p a n h = (ground arith, ground arith, ground arith)

inside_sound :
    (n : Option Network) (a : Option Address)
    → inside_errors n a ≡ []
    → is_some n ≡ true
    → is_some a ≡ true
    → (m : Network) × (b : Address) × (n ≡ some m) × (a ≡ some b) × (has_address m b ≡ true)
unfolding inside_errors
inside_sound none a h n_some a_some = cc n_some
inside_sound (some m) none h n_some a_some = cc a_some
inside_sound (some m) (some b) h n_some a_some = (m, b, refl, refl, ground arith)

module _ (io : Parser) (db : Db) (ip : IpAddress) (h : validate io db ip ≡ []) where
  accepted_stages :
      (parse_errors ip.prefix
          (prefix_of db ip)
          (io.ip_address ip.address)
          (network_of io (prefix_of db ip))
        ≡ [])
      × (inside_errors (network_of io (prefix_of db ip)) (io.ip_address ip.address) ≡ [])
      × (interface_errors io db ip (io.ip_address ip.address) (interface_of db ip) ≡ [])
  accepted_stages =
      let stages = second_stage_nil _ _ (sym (validate_lem io db ip) ∙ h) in
      let parts =
        append_nil_parts
          (inside_errors (network_of io (prefix_of db ip)) (io.ip_address ip.address))
          (interface_errors io db ip (io.ip_address ip.address) (interface_of db ip)) stages.1 in
      (stages.0, parts.0, parts.1)

  address_parsed : is_some (io.ip_address ip.address) ≡ true
  address_parsed = (parsed io db ip ip.prefix _ _ _ accepted_stages.0).0

  network_parsed :
      (is_some (prefix_of db ip) ≡ false) ⊎ (is_some (network_of io (prefix_of db ip)) ≡ true)
  network_parsed = (parsed io db ip ip.prefix _ _ _ accepted_stages.0).1

network_of-some : (io : Parser) (p : Prefix) → network_of io (some p) ≡ io.ip_network p.cidr
unfolding network_of
network_of-some io p = refl

-- Where an address is accepted and its prefix is found, both texts parse, and the address lies in the
-- prefix's network.
pub accepted_inside :
    (io : Parser) (db : Db) (ip : IpAddress) (p : Prefix)
    → prefix_of db ip ≡ some p
    → validate io db ip ≡ []
    → (n : Network) × (a : Address) × (io.ip_network p.cidr ≡ some n)
      × (io.ip_address ip.address ≡ some a)
      × (has_address n a ≡ true)
accepted_inside io db ip p e h =
    let same : network_of io (prefix_of db ip) ≡ io.ip_network p.cidr =
      ap (network_of io) e ∙ network_of-some io p in
    let n_some : is_some (network_of io (prefix_of db ip)) ≡ true =
      elim (network_parsed io db ip h) [ inl absent ↦ cc (absent, e) | inr n ↦ n ] in
    inside_sound (io.ip_network p.cidr) (io.ip_address ip.address)
      (rw same at ((accepted_stages io db ip h).1)) (rw same at n_some) (address_parsed io db ip h)

-- Two live primary addresses of one version on one interface.
abbrev pub same_version_of : Option Address → Option Address → Bool
same_version_of (some a) (some b) = same_version a.version b.version
same_version_of _ _ = false

pub two_primaries : Parser → IpAddress → IpAddress → Bool
two_primaries io a b =
    (is_some a.interface && same_key a.interface b.interface)
    && ((is_primary_role a.role && is_primary_role b.role)
        && ((not (is_deprecated a.status) && not (is_deprecated b.status))
            && same_version_of (io.ip_address a.address) (io.ip_address b.address)))

abbrev pub PrimariesUnique : Parser → List IpAddress → Type 0
PrimariesUnique io = NoClash (λ (a : IpAddress). a.id) (two_primaries io)

key_comm : (x y : Option ℕ) → (is_some x && same_key x y) ≡ (is_some y && same_key y x)
key_comm x y = ground arith

same_version_of_comm : (x y : Option Address) → same_version_of x y ≡ same_version_of y x
same_version_of_comm x y = ground arith

two_primaries_comm : (io : Parser) (a b : IpAddress) → two_primaries io a b ≡ two_primaries io b a
unfolding two_primaries
two_primaries_comm io a b = ground (
  arith,
  key_comm a.interface b.interface,
  same_version_of_comm (io.ip_address a.address) (io.ip_address b.address),
)

module _ (io : Parser) (ip : IpAddress) where
  not_blocked :
      (r : IpAddress) (a : Address)
      → io.ip_address ip.address ≡ some a
      → blocks_primary io ip a.version r ≡ false
      → (r.id == ip.id) ≡ false
      → two_primaries io r ip ≡ false
  unfolding blocks_primary two_primaries version_is
  not_blocked r a e b differ = rw e (ground arith)

  none_blocked :
      (rs : List IpAddress) (a : Address)
      → io.ip_address ip.address ≡ some a
      → any (blocks_primary io ip a.version) rs ≡ false
      → Alone (λ (a : IpAddress). a.id) (two_primaries io) ip rs
  none_blocked [] a e h = tt
  none_blocked (r ∷ rs) a e h =
      let own : blocks_primary io ip a.version r ≡ false = ground arith in
      let rest = none_blocked rs a e (ground arith) in
      (
        elim (Bool-cases (r.id == ip.id)) [
          | inl same ↦ inl same
          | inr differ ↦ inr (not_blocked r a e own differ)
        ],
        rest,
      )

  -- a row that is no primary, or is on no interface, is none of two primaries
  no_primary :
      (r : IpAddress)
      → (is_primary_role ip.role ≡ false) ⊎ (ip.interface ≡ none)
      → two_primaries io r ip ≡ false
  unfolding two_primaries
  no_primary r (inl e) = rw e (ground arith)
  no_primary r (inr e) = rw e (ground arith)

  Alone-no_primary :
      (rs : List IpAddress)
      → (is_primary_role ip.role ≡ false) ⊎ (ip.interface ≡ none)
      → Alone (λ (a : IpAddress). a.id) (two_primaries io) ip rs
  Alone-no_primary rs h = All-of _ (λ r. inr (no_primary r h)) rs

interface_errors_step :
    (io : Parser) (db : Db) (ip : IpAddress) (a : Option Address) (i : InterfaceSite)
    → interface_errors io db ip a (some i)
      ≡ site_errors i (prefix_of db ip)
        ++ (if is_primary_role ip.role then primary_errors io db.addresses ip a else [])
unfolding interface_errors
interface_errors_step io db ip a i = refl

no_primary_error :
    (io : Parser) (rs : List IpAddress) (ip : IpAddress) (a : Address)
    → primary_errors io rs ip (some a) ≡ []
    → any (blocks_primary io ip a.version) rs ≡ false
unfolding primary_errors
no_primary_error io rs ip a h = elim (Bool-cases (any (blocks_primary io ip a.version) rs)) [
  | inl e ↦ cc (rw e at h)
  | inr e ↦ e
]

primary_free :
    (io : Parser) (db : Db) (ip : IpAddress) (i : InterfaceSite) (a : Address)
    → interface_errors io db ip (some a) (some i) ≡ []
    → is_primary_role ip.role ≡ true
    → any (blocks_primary io ip a.version) db.addresses ≡ false
primary_free io db ip i a h e =
    let parts =
      append_nil_parts (site_errors i (prefix_of db ip))
        (if is_primary_role ip.role then primary_errors io db.addresses ip (some a) else [])
        (sym (interface_errors_step io db ip (some a) i) ∙ h) in
    no_primary_error io db.addresses ip a (rw e at parts.1)

some_of : {A : Type 0} (o : Option A) → is_some o ≡ true → (a : A) × (o ≡ some a)
some_of none h = cc h
some_of (some a) h = (a, refl)

alone :
    (io : Parser) (db : Db) (ip : IpAddress)
    → validate io db ip ≡ []
    → (ip.interface ≡ none) ⊎ (is_some (interface_of db ip) ≡ true)
    → Alone (λ (a : IpAddress). a.id) (two_primaries io) ip db.addresses
alone io db ip h (inl e) = Alone-no_primary io ip db.addresses (inr e)
alone io db ip h (inr found) = elim (Bool-cases (is_primary_role ip.role)) [
  | inr e ↦ Alone-no_primary io ip db.addresses (inl e)
  | inl e ↦
      let (i, at_interface) = some_of (interface_of db ip) found in
      let (a, parsed_as) = some_of (io.ip_address ip.address) (address_parsed io db ip h) in
      let errors = (accepted_stages io db ip h).2 in
      none_blocked io ip db.addresses a parsed_as
        (primary_free io db ip i a (rw (parsed_as, at_interface) at errors) e)
]

-- Where an address is accepted, saving it leaves no interface with two live primary addresses of one
-- version. The conditions are that there were none before, and that the address is on no interface or
-- on one that is found.
pub accepted-PrimariesUnique :
    (io : Parser) (db : Db) (ip : IpAddress)
    → (ip.interface ≡ none) ⊎ (is_some (interface_of db ip) ≡ true)
    → PrimariesUnique io db.addresses
    → validate io db ip ≡ []
    → PrimariesUnique io (write_row (λ (a : IpAddress). a.id) ip db.addresses)
accepted-PrimariesUnique io db ip found u h =
    NoClash-write (λ (a : IpAddress). a.id) (two_primaries io) (two_primaries_comm io) ip
      db.addresses (alone io db ip h found) u
