-- ===== src/Accounts/AutoLogout.antt =====
-- AutoLogoutMiddleware (accounts/middleware.py).
mod Tests
use zas.Prelude.{
  ℕ, ◌+◌, ◌*◌, ◌<◌, ◌≤◌, ◌≡◌, ◌↔◌, refl, Bool, true, false, Option, none, some, List, [], ◌∷◌,
  arith, leb, if◌then◌else◌, Bool-cases, inl, inr,
}
use zas.Accounts.{SystemSettings, auto_logout_timeout_seconds}

-- A session: whether a user is logged in, and the time of the last request, if it is known.
pub record Session : Type 0 where
  pub is_authenticated : Bool
  pub last_activity_at : Option ℕ

-- How the middleware answers: it passes the request on, or redirects to the login page.
pub data Response : Type 0 where
  passed_on redirect_to_login : Response

-- The request carries these two numbers on to the templates.
pub record Answer : Type 0 where
  pub session : Session
  pub response : Response
  pub auto_logout_timeout_seconds : ℕ
  pub auto_logout_timeout_minutes : ℕ

-- `last_activity is not None and now - int(last_activity) >= timeout`, without the subtraction
pub is_idle : ℕ → Option ℕ → ℕ → Bool
is_idle timeout none now = false
is_idle timeout (some last) now = leb (last + timeout) now

-- Django's `logout` empties the session
pub logged_out : Session
logged_out = record { is_authenticated = false; last_activity_at = none }

-- AutoLogoutMiddleware.__call__ at the time `now`
unfoldable pub call : SystemSettings → Session → ℕ → Answer
unfolding is_idle logged_out auto_logout_timeout_seconds
call settings session now =
    let timeout = auto_logout_timeout_seconds settings in
    let minutes = settings.auto_logout_idle_minutes in
    if session.is_authenticated
    then if is_idle timeout session.last_activity_at now
      then record {
        session = logged_out;
        response = redirect_to_login;
        auto_logout_timeout_seconds = timeout;
        auto_logout_timeout_minutes = minutes;
      }
      else record {
        session = record session { last_activity_at = some now };
        response = passed_on;
        auto_logout_timeout_seconds = timeout;
        auto_logout_timeout_minutes = minutes;
      }
    else record {
      session = session;
      response = passed_on;
      auto_logout_timeout_seconds = 0;
      auto_logout_timeout_minutes = 0;
    }

-- the session after requests at these times
unfoldable pub serve : SystemSettings → Session → List ℕ → Session
serve settings session [] = session
serve settings session (now ∷ times) = serve settings (call settings session now).session times

-- every request follows the one before it within less than the configured minutes
abbrev pub Active : SystemSettings → ℕ → List ℕ → Type 0
Active settings last [] = Unit
Active settings last (now ∷ times) =
    (now < last + settings.auto_logout_idle_minutes * 60) × Active settings now times

stays_out :
    (settings : SystemSettings) (session : Session) (times : List ℕ)
    → session.is_authenticated ≡ false
    → (serve settings session times).is_authenticated ≡ false
unfolding serve
stays_out settings session [] h = h
stays_out settings session (now ∷ times) h =
    stays_out settings (call settings session now).session times (unfold call in ground arith)

call_active :
    (settings : SystemSettings) (session : Session) (last now : ℕ)
    → session.is_authenticated ≡ true
    → session.last_activity_at ≡ some last
    → now < last + settings.auto_logout_idle_minutes * 60
    → ((call settings session now).session.is_authenticated ≡ true)
      × ((call settings session now).session.last_activity_at ≡ some now)
unfolding call
call_active settings session last now h l lt = ground arith

call_idle :
    (settings : SystemSettings) (session : Session) (last now : ℕ)
    → session.is_authenticated ≡ true
    → session.last_activity_at ≡ some last
    → last + settings.auto_logout_idle_minutes * 60 ≤ now
    → (call settings session now).session.is_authenticated ≡ false
unfolding call
call_idle settings session last now h l lt = ground arith

-- A user whose last request was at a known time is still logged in after further requests exactly
-- where each of them came less than the configured minutes after the one before it.
pub serve-Active :
    (settings : SystemSettings) (session : Session) (last : ℕ) (times : List ℕ)
    → session.is_authenticated ≡ true
    → session.last_activity_at ≡ some last
    → ((serve settings session times).is_authenticated ≡ true) ↔ Active settings last times
unfolding serve
serve-Active settings session last [] h l = (λ _. tt, λ _. h)
serve-Active settings session last (now ∷ times) h l =
    let next = (call settings session now).session in
    elim (Bool-cases (leb (last + settings.auto_logout_idle_minutes * 60) now)) [
      | inl idle ↦
          let out =
            stays_out settings next times
              (call_idle settings session last now h l (ground arith)) in
          (λ e. cc (e, out), λ a. absurd (ground (arith, a.0)))
      | inr active ↦
          let stays = call_active settings session last now h l (ground arith) in
          let ih = serve-Active settings next now times stays.0 stays.1 in
          (λ e. (ground arith, ih.0 e), λ a. ih.1 a.1)
    ]
