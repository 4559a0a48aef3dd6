-- ===== src/Accounts/Tacacs.antt =====
-- IseTacacsBackend (accounts/auth_backends.py), and the list of backends of zas/settings/base.py.
pub mod Retries
pub mod Verdict
mod Tests
use zas.Prelude.{
  ℕ, zero, suc, ◌+◌, ◌≡◌, max, Bool, true, false, not, ◌&&◌, ◌||◌, Option, none, some, List, [],
  ◌∷◌, ◌++◌, map, ◌==◌, if◌then◌else◌, or_else, is_empty, select, Result, ok, err, any, drop,
  length,
}
use zas.Text.{Text, codes, upper, is_one_of, contains, starts_with, strip, split_on, text_eq}
use zas.Accounts.{SystemSettings, User, find_user, write_user}

-- A status of the TACACS+ client: a text, a number, or what `int` refuses or makes negative.
pub data Status : Type 0 where
  word : Text → Status
  number : ℕ → Status
  no_number : Status

-- A reply of the client: an object with a status, a sequence, a truth value, or another object.
pub data Reply : Type 0 where
  with_status : Status → Reply
  sequence : List Status → Reply
  flag : Bool → Reply
  other : Reply

abbrev pub passes : List Text
passes = codes "PASS" ∷ codes "OK" ∷ codes "ACCEPT" ∷ codes "ACCEPTED" ∷ codes "SUCCESS" ∷ []

pub status_passes : Status → Bool
status_passes (word s) = is_one_of (upper s) passes
status_passes (number n) = n == 1
status_passes no_number = false

-- `_normalize_status`
pub normalize_status : Reply → Bool
unfolding status_passes
normalize_status (with_status s) = status_passes s
normalize_status (sequence []) = false
normalize_status (sequence (s ∷ rest)) = status_passes s
normalize_status (flag b) = b
normalize_status other = false

-- An entry of the response of `authorize`; bytes are decoded texts here.
pub data AvPair : Type 0 where
  pair : Text → Text → AvPair
  malformed : AvPair

-- what follows the first `mark` in a text
pub after_first : Text → Text → Option Text
after_first mark [] = if is_empty mark then some [] else none
after_first mark (c ∷ s) =
    let rest = after_first mark s in
    if starts_with (c ∷ s) mark then some (drop (length mark) (c ∷ s)) else rest

-- the roles of one value
value_groups : Text → Option Text → List Text
value_groups value none = strip value ∷ []
value_groups value (some roles) =
    select (λ r. not (is_empty r)) (map (λ r. strip r) (split_on b',' roles))

pair_groups : AvPair → List Text
unfolding after_first value_groups
pair_groups malformed = []
pair_groups (pair attr value) =
    if is_one_of attr (codes "cisco-av-pair" ∷ codes "shell:roles" ∷ []) && not (is_empty value)
    then value_groups value (after_first (codes "roles=") value)
    else []

-- `_parse_groups_from_avpairs`
unfoldable pub parse_groups : List AvPair → List Text
unfolding pair_groups
parse_groups [] = []
parse_groups (p ∷ pairs) = pair_groups p ++ parse_groups pairs

-- How a call of the client ends.
pub data Call : Type 0 where
  replied : Reply → Call
  type_error : Call
  timed_out : Call
  failed : Call

-- What the server and the client library do in one attempt: the two calls of `authenticate`, of which
-- the second is made after a TypeError, and the pairs of `authorize`, `none` where it raises.
pub record Attempt : Type 0 where
  pub first : Call
  pub second : Call
  pub pairs : Option (List AvPair)

pub data NetError : Type 0 where
  timeout_error connection_error : NetError

-- `_fetch_groups`
pub fetch_groups : Option (List AvPair) → List Text
unfolding parse_groups
fetch_groups none = []
fetch_groups (some pairs) = parse_groups pairs

pub last_call : Attempt → Call
last_call a = elim a.first [ type_error ↦ a.second | c ↦ c ]

verdict : Reply → Attempt → Bool × List Text
unfolding normalize_status fetch_groups
verdict r a = if normalize_status r then (true, fetch_groups a.pairs) else (false, [])

-- one attempt: an answer, or the error that is kept for the end
pub call_outcome : Attempt → Call → Result NetError (Bool × List Text)
unfolding verdict
call_outcome a (replied r) = ok (verdict r a)
call_outcome a type_error = err connection_error
call_outcome a timed_out = err timeout_error
call_outcome a failed = err connection_error

pub attempt : Attempt → Result NetError (Bool × List Text)
unfolding call_outcome last_call
attempt a = call_outcome a (last_call a)

-- The loop over the attempts from number `k` on, with `n` left and the last error.
pub attempts : (ℕ → Attempt) → ℕ → ℕ → NetError → Result NetError (Bool × List Text)
attempts client k zero last_error = err last_error
attempts client k (suc n) last_error = elim (attempt (client k)) [
  | ok answer ↦ ok answer
  | err e ↦ attempts client (k + 1) n e
]

-- `not host`
pub blank : Option Text → Bool
blank none = true
blank (some s) = is_empty s

-- `_tacacs_auth`
pub tacacs_auth : (ℕ → Attempt) → Option Text → Option Text → ℕ → Result NetError (Bool × List Text)
unfolding blank attempts attempt
tacacs_auth client host secret retries =
    if blank host || blank secret
    then err connection_error
    else attempts client 0 (max 1 retries) connection_error

-- Django's part: ModelBackend.authenticate, and the test of a password against a hash.
pub record Django : Type 0 where
  pub model_backend : List User → Text → Text → Option User
  pub verify : Text → Text → Bool

-- What a login reads and writes: the users, and the password in the session, which is there only with
-- a request.
pub record Site : Type 0 where
  pub users : List User
  pub has_request : Bool
  pub tacacs_password : Option Text

-- `_sync_shadow_user`; a user that is made has neither staff nor superuser rights before
unfoldable pub shadow_user : Text → Option User → User
shadow_user username none = record {
  username = username;
  password = none;
  is_active = true;
  is_staff = true;
  is_superuser = false;
}
shadow_user username (some u) = record u { password = none; is_active = true; is_staff = true }

-- `user.check_password`
pub check_password : Django → User → Text → Bool
check_password dj u password = elim u.password [
  | none ↦ false
  | some hash ↦ dj.verify hash password
]

-- the local superuser that a denied login may still be
pub local_superuser : Django → Option User → Text → Option User
unfolding check_password
local_superuser dj none password = none
local_superuser dj (some u) password =
    if u.is_superuser && check_password dj u password then some u else none

-- what follows `_tacacs_auth`
pub conclude :
    Django
    → SystemSettings
    → Site
    → Text
    → Text
    → Result NetError (Bool × List Text)
    → Site × Option User
unfolding shadow_user local_superuser
conclude dj config site username password (err e) =
    (site, dj.model_backend site.users username password)
conclude dj config site username password (ok (true, groups)) =
    let user = shadow_user username (find_user username site.users) in
    (
      record site {
        users = write_user user site.users;
        tacacs_password = if site.has_request then some password else site.tacacs_password;
      },
      some user,
    )
conclude dj config site username password (ok (false, groups)) =
    if config.allow_local_superusers
    then (site, local_superuser dj (find_user username site.users) password)
    else (site, none)

-- IseTacacsBackend.authenticate; an absent username or password is the empty text
unfoldable pub authenticate :
    Django → (ℕ → Attempt) → SystemSettings → Text → Text → Site → Site × Option User
unfolding conclude tacacs_auth
authenticate dj client config username password site =
    if is_empty username || is_empty password
    then (site, none)
    else if not config.tacacs_enabled
    then (site, dj.model_backend site.users username password)
    else conclude dj config site username password
        (tacacs_auth client config.tacacs_server_ip config.tacacs_key (max 1 config.tacacs_retries))

-- the next backend is asked where the one before returned no user
next_backend : Django → Text → Text → Site × Option User → Site × Option User
next_backend dj username password (site, some u) = (site, some u)
next_backend dj username password (site, none) =
    (site, dj.model_backend site.users username password)

-- AUTHENTICATION_BACKENDS, asked in their order
unfoldable pub login :
    Django → (ℕ → Attempt) → SystemSettings → Text → Text → Site → Site × Option User
unfolding authenticate next_backend
login dj client config username password site =
    next_backend dj username password (authenticate dj client config username password site)
