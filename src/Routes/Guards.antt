-- ===== src/Routes/Guards.antt =====
-- The guards of the administrator's routes.
use rust_invite_system.Common.{
  ℕ, Bool, true, false, not, ◌&&◌, ◌||◌, Option, none, some, err, ok_or, reject, Text, codes,
  text_eq, is_empty,
}
use rust_invite_system.Auth.{tokens_match, csrf_token_at}
use rust_invite_system.Steps.{Step, ◌>>=◌, ◌>>◌, lift}
use rust_invite_system.Routes.State.{Outside, AppState, Request, HttpError, unauthorized, forbidden}

abbrev pub session_cookie : Text
session_cookie = codes "__Host-admin-session"

abbrev pub login_cookie : Text
login_cookie = codes "__Host-admin-login"

abbrev pub is_text : Option Text → Text → Bool
is_text none t = false
is_text (some s) t = text_eq s t

abbrev pub is_none_or : Option Text → (Text → Bool) → Bool
is_none_or none p = true
is_none_or (some s) p = p s

unfoldable pub same_origin : Text → Request → Bool
unfolding text_eq
same_origin origin rq =
    is_text (rq.header (codes "origin")) origin
    && (not (is_empty origin)
        && is_none_or (rq.header (codes "sec-fetch-site"))
            (λ site. text_eq site (codes "same-origin") || text_eq site (codes "none")))

module _ (o : Outside) where
  abbrev pub session_csrf : ℕ → Option Text → Step (AppState o) HttpError Text
  unfolding csrf_token_at
  session_csrf now none st = (err unauthorized, st)
  session_csrf now (some token) st =
      let (csrf, admin) = csrf_token_at o.crypto token now st.admin in
      (ok_or csrf unauthorized, record st { admin = admin })

  unfoldable pub require_admin : Request → ℕ → Step (AppState o) HttpError Text
  unfolding session_csrf
  require_admin rq now = session_csrf now (rq.cookie session_cookie)

  unfoldable pub require_origin : Request → Step (AppState o) HttpError (Unit {0})
  unfolding same_origin
  require_origin rq st = (reject (not (same_origin st.config.admin.origin rq)) forbidden, st)

  unfoldable pub require_admin_mutation :
      Request → ℕ → Text → Step (AppState o) HttpError (Unit {0})
  unfolding require_admin require_origin tokens_match
  require_admin_mutation rq now csrf = do
    expected ← require_admin rq now
    require_origin rq
    lift (reject (not (tokens_match expected csrf)) forbidden)
