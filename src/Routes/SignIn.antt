-- ===== src/Routes/SignIn.antt =====
-- src/admin_routes.rs: signing in and out.
use rust_invite_system.Common.{
  ℕ, Bool, not, Option, none, some, List, [], ◌∷◌, ◌++◌, Result, ok, err, reject, Text, codes,
}
use rust_invite_system.Auth.{LoginError, invalid_credentials, throttled, unavailable, tokens_match}
use rust_invite_system.Auth
use rust_invite_system.Steps.{Step, ◌>>◌, lift}
use rust_invite_system.Routes.State.{
  Outside, AppState, Request, HttpError, unauthorized, forbidden, internal,
}
use rust_invite_system.Routes.Guards.{
  session_cookie, login_cookie, require_origin, require_admin_mutation,
}

pub record LoginForm : Type 0 where
  pub username : Text
  pub password : Text
  pub csrf : Text

pub record LogoutForm : Type 0 where
  pub csrf : Text

-- What `set_cookie` adds. It is also for the path "/", secure, HTTP only, and of the same site.
pub record SetCookie : Type 0 where
  pub name : Text
  pub value : Text
  pub seconds : ℕ

-- The statuses of `login_view`: 200, 303, 401, 429 and 503.
pub data LoginStatus : Type 0 where
  fine see_other not_authorized too_many_requests service_unavailable : LoginStatus

-- What `login_view` puts into its answer. The location is set with 303, the delay with 429.
pub record LoginView : Type 0 where
  pub status : LoginStatus
  pub location : Option Text
  pub retry_after : Option ℕ
  pub csrf : Text
  pub username : Text
  pub message : Text
  pub cookies : List SetCookie

abbrev location_of : LoginStatus → Option Text
location_of see_other = some (codes "/admin")
location_of fine = none
location_of not_authorized = none
location_of too_many_requests = none
location_of service_unavailable = none

abbrev retry_of : LoginStatus → Option ℕ
retry_of too_many_requests = some 60
retry_of fine = none
retry_of see_other = none
retry_of not_authorized = none
retry_of service_unavailable = none

abbrev challenge_of : Text → LoginStatus → List SetCookie
challenge_of csrf see_other = []
challenge_of csrf fine = record { name = login_cookie; value = csrf; seconds = 600 } ∷ []
challenge_of csrf not_authorized = record { name = login_cookie; value = csrf; seconds = 600 } ∷ []
challenge_of csrf too_many_requests =
    record { name = login_cookie; value = csrf; seconds = 600 } ∷ []
challenge_of csrf service_unavailable =
    record { name = login_cookie; value = csrf; seconds = 600 } ∷ []

-- `csrf` is the random text drawn; `cookies` are those set before.
abbrev pub login_view : Text → Text → LoginStatus → Text → List SetCookie → LoginView
login_view username csrf status message cookies = record {
  status = status;
  location = location_of status;
  retry_after = retry_of status;
  csrf = csrf;
  username = username;
  message = message;
  cookies = cookies ++ challenge_of csrf status;
}

abbrev pub login_answer : Text → Text → Result Text LoginError → LoginView
login_answer username csrf (ok token) = login_view username csrf see_other [] (
    record { name = session_cookie; value = token; seconds = 28800 }
    ∷ record { name = login_cookie; value = []; seconds = 0 }
    ∷ [])
login_answer username csrf (err invalid_credentials) =
    login_view username csrf not_authorized (codes "Sign in failed.") []
login_answer username csrf (err throttled) =
    login_view username csrf too_many_requests (codes "Too many attempts. Try again in one minute.")
      []
login_answer username csrf (err unavailable) =
    login_view username csrf service_unavailable (codes "Sign in is temporarily unavailable.") []

-- The looks at the clock and the random texts of one sign-in, and whether the blocking task ended
-- without a panic.
pub record SignInDraw : Type 0 where
  pub started_at : ℕ
  pub verified_at : ℕ
  pub joined : Bool
  pub token : Text
  pub session_csrf : Text
  pub view_csrf : Text

module _ (o : Outside) where
  unfoldable pub login_page : Text → AppState o → LoginView
  login_page csrf st = login_view st.config.admin.username csrf fine [] []

  abbrev pub check_challenge : Option Text → Text → Result (Unit {0}) HttpError
  check_challenge none csrf = err forbidden
  check_challenge (some challenge) csrf = reject (not (tokens_match challenge csrf)) forbidden

  -- The state of `admin` and the answer once the guards are passed.
  unfoldable pub sign_in : SignInDraw → LoginForm → Step (AppState o) HttpError LoginView
  unfolding Auth.login
  sign_in draw form st =
      let (r, admin) =
        Auth.login o.crypto draw.started_at form.username form.password draw.joined draw.verified_at
          draw.token draw.session_csrf st.admin in
      (ok (login_answer st.config.admin.username draw.view_csrf r), record st { admin = admin })

  unfoldable pub login : SignInDraw → Request → LoginForm → Step (AppState o) HttpError LoginView
  unfolding require_origin tokens_match sign_in
  login draw rq form = do
    require_origin o rq
    lift (check_challenge (rq.cookie login_cookie) form.csrf)
    sign_in draw form

  abbrev pub end_session : Option Text → Step (AppState o) HttpError (Text × SetCookie)
  unfolding Auth.logout
  end_session none st = (err unauthorized, st)
  end_session (some token) st =
      let (r, admin) = Auth.logout o.crypto token st.admin in
      (signed_out r, record st { admin = admin })
    where
      signed_out : Result (Unit {0}) LoginError → Result (Text × SetCookie) HttpError
      signed_out (ok _) =
          ok (codes "/admin/login", record { name = session_cookie; value = []; seconds = 0 })
      signed_out (err e) = err internal

  -- The redirect's target and the cookie set.
  unfoldable pub logout : ℕ → Request → LogoutForm → Step (AppState o) HttpError (Text × SetCookie)
  unfolding require_admin_mutation end_session
  logout guard_at rq form = do
    require_admin_mutation o rq guard_at form.csrf
    end_session (rq.cookie session_cookie)
