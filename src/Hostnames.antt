-- ===== src/Hostnames.antt =====
-- Host names: dcim/services/hostname_utils.py, with the site's domain (dcim/models/site.py).
pub mod Qualified
mod Tests
use zas.Prelude.{
  ℕ, ◌+◌, ◌-◌, Bool, not, ◌&&◌, ◌||◌, Option, none, some, List, [], ◌∷◌, ◌++◌, ◌==◌, if◌then◌else◌,
  map, length, take, select, is_empty, get_or, or_else,
}
use zas.Text.{Text, codes, lower, strip, rstrip_dots, split_on, contains, ends_with}

-- `value.strip().lower().rstrip(".")`
pub clean_name : Text → Text
clean_name value = rstrip_dots (lower (strip value))

-- the parts of a list of names that are not blank
name_parts : Text → List Text
unfolding clean_name
name_parts value =
    map clean_name (select (λ part. not (is_empty (strip part))) (split_on b',' value))

-- `domain.split(".", 1)[1]`, or the empty text where there is no dot
pub base_domain : Text → Text
base_domain [] = []
base_domain (c ∷ s) = let rest = base_domain s in if c == b'.' then s else rest

-- the host of `value` with the domain, where `value` is one label in front of the base domain
pub is_in_base : Text → Text → Bool
is_in_base base value =
    length (split_on b'.' value) == length (split_on b'.' base) + 1 && ends_with value base

-- the name with the site's domain
pub qualify : Text → Text → Text
unfolding base_domain is_in_base
qualify domain value =
    let base = base_domain domain in
    if is_empty domain
    then value
    else if ends_with value domain
    then value
    else if not (is_empty base) && is_in_base base value
    then take (length value - (length base + 1)) value ++ codes "." ++ domain
    else if not (contains (codes ".") value)
    then value ++ codes "." ++ domain
    else value

-- what follows the choice of the first part; `is_ip` is whether ipaddress reads the name as an address
pub name_at : (Text → Bool) → Text → Text → Text
unfolding qualify
name_at is_ip domain value =
    if is_ip value
    then value
    else if contains (codes ":") value || (contains (codes "/") value || contains (codes " ") value)
    then value
    else qualify domain value

first_name : (Text → Bool) → Text → List Text → Text
unfolding name_at
first_name is_ip domain [] = []
first_name is_ip domain (part ∷ parts) = name_at is_ip domain part

-- normalize_hostname; the domain is none where there is no site
unfoldable pub normalize_hostname : (Text → Bool) → Option Text → Option Text → Text
unfolding clean_name name_parts first_name name_at
normalize_hostname is_ip site_domain hostname =
    let value = clean_name (or_else hostname []) in
    let domain = clean_name (or_else site_domain []) in
    if is_empty value
    then []
    else if contains (codes ",") value
    then first_name is_ip domain (name_parts value)
    else name_at is_ip domain value
