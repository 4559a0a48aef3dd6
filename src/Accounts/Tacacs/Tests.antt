-- ===== src/Accounts/Tacacs/Tests.antt =====
-- Tests of the TACACS+ backend, and the theorems on it at concrete logins.
use zas.Prelude.{
  ℕ, zero, suc, ◌≡◌, refl, Bool, true, false, Option, none, some, List, [], ◌∷◌, ◌<◌, ok, err,
  arith, if◌then◌else◌,
}
use zas.Text.{Text, codes, text_eq, is_one_of, upper, strip, starts_with, split_on}
use zas.Accounts.{SystemSettings, default_settings, User, find_user}
use zas.Accounts.Tacacs.{
  Attempt, timeout_error, Django, Site, word, number, with_status, sequence, pair, malformed,
  replied, timed_out, type_error, attempt, tacacs_auth, parse_groups, authenticate, login,
}
use zas.Accounts.Tacacs.Retries.{Fails}
use zas.Accounts.Tacacs.Verdict.{answer_of, Asks, Shadows, accepted_login, accepted_then_denied}

-- the hash of a password is the password here
model_backend : List User → Text → Text → Option User
unfolding find_user text_eq
model_backend users username password = elim (find_user username users) [
  | none ↦ none
  | some u ↦ elim u.password [
    | none ↦ none
    | some hash ↦ if text_eq hash password then some u else none
  ]
]

abbrev django : Django
django = record { model_backend = model_backend; verify = text_eq }

abbrev accepting : Attempt
accepting = record {
  first = type_error;
  second = replied (with_status (word (codes "Pass")));
  pairs = some (
      pair (codes "cisco-av-pair") (codes "shell:roles=net, ops,")
      ∷ malformed
      ∷ pair (codes "priv-lvl") (codes "15")
      ∷ []);
}

abbrev denying : Attempt
denying = record { first = replied (sequence (number 2 ∷ [])); second = timed_out; pairs = none }

abbrev hanging : Attempt
hanging = record { first = timed_out; second = timed_out; pairs = none }

-- the first attempt hangs, the second is answered
abbrev slow : Attempt → ℕ → Attempt
slow a zero = hanging
slow a (suc k) = a

abbrev settings : SystemSettings
settings = record default_settings {
  tacacs_enabled = true;
  tacacs_server_ip = some (codes "10.0.0.9");
  tacacs_key = some (codes "key");
}

abbrev no_superusers : SystemSettings
no_superusers = record settings { allow_local_superusers = false }

abbrev root : User
root = record {
  username = codes "root";
  password = some (codes "pw");
  is_active = true;
  is_staff = true;
  is_superuser = true;
}

abbrev site : Site
site = record { users = root ∷ []; has_request = true; tacacs_password = none }

groups_test :
    parse_groups (
      pair (codes "cisco-av-pair") (codes "shell:roles=net, ops,")
      ∷ malformed
      ∷ pair (codes "priv-lvl") (codes "15")
      ∷ [])
    ≡ codes "net" ∷ codes "ops" ∷ []
unfolding parse_groups is_one_of strip starts_with split_on text_eq
groups_test = refl

abbrev accept : Bool × List Text
accept = (true, codes "net" ∷ codes "ops" ∷ [])

abbrev deny : Bool × List Text
deny = (false, [])

server_accepts : answer_of (slow accepting) settings ≡ ok accept
unfolding tacacs_auth parse_groups is_one_of strip starts_with split_on text_eq upper
server_accepts = refl

server_denies : answer_of (slow denying) settings ≡ ok deny
unfolding tacacs_auth
server_denies = refl

asks : Asks settings (codes "root") (codes "pw")
asks = (refl, refl, refl)

first_hangs : attempt (slow accepting 0) ≡ err timeout_error
unfolding attempt
first_hangs = refl

second_accepts : attempt (slow accepting 1) ≡ ok accept
unfolding attempt parse_groups is_one_of strip starts_with split_on text_eq upper
second_accepts = refl

only_first : (i : ℕ) → i < 1 → Fails (slow accepting i)
only_first zero lt = (timeout_error, first_hangs)
only_first (suc i) lt = absurd (omega arith)

accepted_login_example :
    (user : User) × (after : Site) × (authenticate django
        (slow accepting)
        settings
        (codes "root")
        (codes "pw")
        site
      ≡ (after, some user))
    × Shadows (codes "root") (find_user (codes "root") site.users) user
    × ((name : Text)
        → find_user name after.users
          ≡ (if text_eq (codes "root") name then some user else find_user name site.users))
    × (after.tacacs_password
        ≡ (if site.has_request then some (codes "pw") else site.tacacs_password))
accepted_login_example =
    accepted_login django (slow accepting) settings (codes "root") (codes "pw") site asks accept.1
      server_accepts

-- the server denies root, and the local password lets it in
root_let_in :
    (authenticate django (slow denying) settings (codes "root") (codes "pw") site).1 ≡ some root
unfolding authenticate find_user text_eq
root_let_in = refl

-- Local superusers are not allowed, the server denies root, and the login succeeds.
denied_root_logs_in :
    login django (slow denying) no_superusers (codes "root") (codes "pw") site ≡ (site, some root)
unfolding login model_backend find_user text_eq
denied_root_logs_in = refl

always_hangs : (i : ℕ) → i < 3 → Fails (slow hanging i)
unfolding attempt
always_hangs zero lt = (timeout_error, refl)
always_hangs (suc i) lt = (timeout_error, refl)

accepted_then_denied_example :
    (authenticate django
      (slow denying)
      settings
      (codes "root")
      (codes "pw")
      (authenticate django (slow accepting) settings (codes "root") (codes "pw") site).0).1
    ≡ none
accepted_then_denied_example =
    accepted_then_denied django (slow accepting) (slow denying) settings settings (codes "root")
      (codes "pw") (codes "pw") site asks asks accept.1 [] server_accepts server_denies
