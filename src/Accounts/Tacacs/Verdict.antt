-- ===== src/Accounts/Tacacs/Verdict.antt =====
-- What a login does once the TACACS+ server has answered, or could not be reached.
use zas.Prelude.{
  ℕ, ◌<◌, ◌≡◌, refl, max, ap, ◌∙◌, Bool, true, false, Option, none, some, List, arith, Result, ok,
  is_empty, if◌then◌else◌,
}
use zas.Text.{Text, text_eq, text_eq_refl}
use zas.Accounts.{SystemSettings, User, find_user, write_user, find_user-write, find_user-username}
use zas.Accounts.Tacacs.{
  Attempt, NetError, Django, Site, tacacs_auth, conclude, authenticate, next_backend, login,
  shadow_user, local_superuser, check_password, blank,
}
use zas.Accounts.Tacacs.Retries.{Fails, tacacs_auth-fail}

abbrev pub Answer : Type 0
Answer = Result NetError (Bool × List Text)

-- what the server answers to a login under the settings
abbrev pub answer_of : (ℕ → Attempt) → SystemSettings → Answer
answer_of client config =
    tacacs_auth client config.tacacs_server_ip config.tacacs_key (max 1 config.tacacs_retries)

-- a login that asks the server
abbrev pub Asks : SystemSettings → Text → Text → Type 0
Asks config username password =
    (is_empty username ≡ false) × (is_empty password ≡ false) × (config.tacacs_enabled ≡ true)

abbrev pub was_superuser : Option User → Bool
was_superuser none = false
was_superuser (some u) = u.is_superuser

-- the rights of the user that `_sync_shadow_user` saves
abbrev pub Shadows : Text → Option User → User → Type 0
Shadows username before user =
    (user.username ≡ username)
    × (user.is_active ≡ true)
    × (user.is_staff ≡ true)
    × (user.password ≡ none)
    × (user.is_superuser ≡ was_superuser before)

shadow_user-Shadows :
    (username : Text) (o : Option User)
    → ((u : User) → o ≡ some u → u.username ≡ username)
    → Shadows username o (shadow_user username o)
unfolding shadow_user
shadow_user-Shadows username none named = (refl, refl, refl, refl, refl)
shadow_user-Shadows username (some u) named = (named u refl, refl, refl, refl, refl)

local_superuser_lem :
    (dj : Django) (o : Option User) (password : Text) (user : User)
    → local_superuser dj o password ≡ some user
    → (o ≡ some user) × (user.is_superuser ≡ true) × (check_password dj user password ≡ true)
unfolding local_superuser check_password
local_superuser_lem dj none password user h = cc
local_superuser_lem dj (some u) password user h = ground arith

denied_conclude :
    (dj : Django) (config : SystemSettings) (site : Site) (username password : Text)
    (groups : List Text)
    → conclude dj config site username password (ok (false, groups)) ≡ (
      site,
      if config.allow_local_superusers
          then local_superuser dj (find_user username site.users) password
          else none,
    )
unfolding conclude
denied_conclude dj config site username password groups = ground arith

if_some :
    (b : Bool) (o : Option User) (u : User)
    → (if b then o else none) ≡ some u
    → (b ≡ true) × (o ≡ some u)
if_some b o u h = ground arith

module _ (dj : Django) (client : ℕ → Attempt) (config : SystemSettings) (username password : Text)
    (site : Site) (asks : Asks config username password) where
  authenticate_lem :
      authenticate dj client config username password site
      ≡ conclude dj config site username password (answer_of client config)
  authenticate_lem = unfold authenticate in rw (asks.0, asks.1, asks.2) refl

  -- Where the server accepts, the returned user has the username, is active and staff, has the
  -- unusable password, and keeps its superuser right, which a new user does not have. In the new table
  -- this user stands under the username and every other name finds what it found before. The session
  -- holds the password if there is a request.
  pub accepted_login :
      (groups : List Text)
      → answer_of client config ≡ ok (true, groups)
      → (user : User) × (after : Site) × (authenticate dj client config username password site
          ≡ (after, some user))
        × Shadows username (find_user username site.users) user
        × ((name : Text)
            → find_user name after.users
              ≡ (if text_eq username name then some user else find_user name site.users))
        × (after.tacacs_password
            ≡ (if site.has_request then some password else site.tacacs_password))
  accepted_login groups answer =
      let before = find_user username site.users in
      let user = shadow_user username before in
      let shadows =
        shadow_user-Shadows username before (λ u h. find_user-username username site.users h) in
      let after : Site = record site {
        users = write_user user site.users;
        tacacs_password = if site.has_request then some password else site.tacacs_password;
      } in
      (
        user,
        after,
        authenticate_lem ∙ rw answer (unfold conclude in refl),
        shadows,
        λ name.
            find_user-write name user site.users
            ∙ ap (λ t. if text_eq t name then some user else find_user name site.users) shadows.0,
        refl,
      )

  denied_lem :
      (groups : List Text)
      → answer_of client config ≡ ok (false, groups)
      → authenticate dj client config username password site ≡ (
        site,
        if config.allow_local_superusers
            then local_superuser dj (find_user username site.users) password
            else none,
      )
  denied_lem groups answer =
      authenticate_lem ∙ rw answer (denied_conclude dj config site username password groups)

  -- Where the server denies, nothing is written, and a user that the backend still returns is a
  -- superuser that has the username and whose stored hash the password verifies, while the settings
  -- allow local superusers.
  pub denied_login :
      (groups : List Text) (user : User)
      → answer_of client config ≡ ok (false, groups)
      → (authenticate dj client config username password site).1 ≡ some user
      → ((authenticate dj client config username password site).0 ≡ site)
        × (config.allow_local_superusers ≡ true)
        × (user.username ≡ username)
        × (user.is_superuser ≡ true)
        × (check_password dj user password ≡ true)
  denied_login groups user answer h =
      let e = denied_lem groups answer in
      let (allowed, local) =
        if_some config.allow_local_superusers
          (local_superuser dj (find_user username site.users) password) user (rw e at h) in
      let (found, super, verified) =
        local_superuser_lem dj (find_user username site.users) password user local in
      (ap (λ r. r.0) e, allowed, find_user-username username site.users found, super, verified)

  -- Where the server denies and the settings do not allow local superusers, the whole list of backends
  -- still returns what Django's ModelBackend makes of the local password.
  pub denied_falls_back :
      (groups : List Text)
      → answer_of client config ≡ ok (false, groups)
      → config.allow_local_superusers ≡ false
      → login dj client config username password site
        ≡ (site, dj.model_backend site.users username password)
  denied_falls_back groups answer forbidden =
      let e : authenticate dj client config username password site ≡ (site, none) =
        denied_lem groups answer ∙ rw forbidden refl in
      unfold login in rw e (unfold next_backend in refl)

  -- With a host and a secret configured: where every attempt that is allowed fails, the backend
  -- writes nothing and returns what Django's ModelBackend makes of the local password.
  pub unreachable_login :
      blank config.tacacs_server_ip ≡ false
      → blank config.tacacs_key ≡ false
      → ((i : ℕ) → i < max 1 (max 1 config.tacacs_retries) → Fails (client i))
      → authenticate dj client config username password site
        ≡ (site, dj.model_backend site.users username password)
  unreachable_login host secret fails =
      let (last, failed) =
        tacacs_auth-fail client config.tacacs_server_ip config.tacacs_key
          (max 1 config.tacacs_retries) host secret fails in
      authenticate_lem ∙ rw failed (unfold conclude in refl)

no_password :
    (dj : Django) (u : User) (password : Text) (o : Option User)
    → o ≡ some u
    → u.password ≡ none
    → local_superuser dj o password ≡ none
unfolding local_superuser check_password
no_password dj u password none found none_set = refl
no_password dj u password (some v) found none_set = ground arith

if_same : (b : Bool) (o : Option User) → o ≡ none → (if b then o else none) ≡ none
if_same b o h = ground arith

module _ (dj : Django) (client later_client : ℕ → Attempt) (config later_config : SystemSettings)
    (username password later_password : Text) (site : Site) where
  -- A user that the server once accepted cannot pass a later denial as a local superuser: whatever the
  -- settings and the password then are, the backend returns no user.
  pub accepted_then_denied :
      Asks config username password
      → Asks later_config username later_password
      → (groups later_groups : List Text) → answer_of client config ≡ ok (true, groups)
      → answer_of later_client later_config ≡ ok (false, later_groups)
      → (authenticate dj later_client later_config username later_password
          (authenticate dj client config username password site).0).1
        ≡ none
  accepted_then_denied asks later_asks groups later_groups accept deny =
      let (user, after, result, shadows, table, session) =
        accepted_login dj client config username password site asks groups accept in
      let found : find_user username after.users ≡ some user =
        table username ∙ rw (text_eq_refl username) refl in
      rw result (
        ap (λ r. r.1)
          (denied_lem dj later_client later_config username later_password after later_asks
            later_groups deny)
        ∙ if_same later_config.allow_local_superusers
            (local_superuser dj (find_user username after.users) later_password)
            (no_password dj user later_password (find_user username after.users) found shadows.3))
