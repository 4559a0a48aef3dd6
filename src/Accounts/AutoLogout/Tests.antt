-- ===== src/Accounts/AutoLogout/Tests.antt =====
-- Tests of the automatic logout, and the theorem on it at a concrete session.
use zas.Prelude.{ℕ, ◌≡◌, ◌↔◌, refl, true, some, List, [], ◌∷◌}
use zas.Accounts.{default_settings}
use zas.Accounts.AutoLogout.{Session, call, serve, serve-Active, Active, redirect_to_login}

-- the default timeout is 15 minutes
abbrev session : Session
session = record { is_authenticated = true; last_activity_at = some 1000 }

abbrev requests : List ℕ
requests = 1300 ∷ 2100 ∷ 2999 ∷ []

requests_served : (serve default_settings session requests).is_authenticated ≡ true
unfolding serve call
requests_served = refl

late_request : (call default_settings session 1900).response ≡ redirect_to_login
unfolding call
late_request = refl

serve-Active_example :
    ((serve default_settings session requests).is_authenticated ≡ true)
    ↔ Active default_settings 1000 requests
serve-Active_example = serve-Active default_settings session 1000 requests refl refl
