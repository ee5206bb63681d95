-- ===== src/Routes/Entered.antt =====
-- Who is let in by `login`, and what `logout` ends.
use rust_invite_system.Common.{
  ◌+◌, ◌≡◌, refl, ◌∙◌, true, false, some, Text, Result, ok, err, inl, inr, Bool-cases, Option-cases,
  Result-cases, ap,
}
use rust_invite_system.Auth.{
  Session, LoginError, invalid_credentials, throttled, unavailable, session_length, tokens_match,
}
use rust_invite_system.Auth
use rust_invite_system.Auth.Login.{IsAdministrator, login_sound, login-healthy}
use rust_invite_system.Routes.State.{Outside, AppState, Request, HttpError}
use rust_invite_system.Routes.Guards.{login_cookie, same_origin, require_origin}
use rust_invite_system.Routes.SignIn.{
  LoginForm, SignInDraw, LoginView, LoginStatus, see_other, not_authorized, login_answer, sign_in,
  login,
}

module _ (o : Outside) (draw : SignInDraw) (rq : Request) (form : LoginForm) (st : AppState o) where
  -- The request comes from the configured origin with the challenge of the sign-in page, and the
  -- form has the administrator's name and password; then the session is that of the token drawn, the
  -- answer sets its cookie, and the settings are as they were.
  pub record IsLetIn : Type 0 where
    pub challenge : Text
    pub carried : rq.cookie login_cookie ≡ some challenge
    pub answered : tokens_match challenge form.csrf ≡ true
    pub origin : same_origin st.config.admin.origin rq ≡ true
    pub administrator : IsAdministrator o.crypto st.admin form.username form.password
    pub opened :
        (login o draw rq form st).1.admin.state.session
        ≡ some (record {
          token_hash = o.crypto.sha256_hex draw.token;
          csrf = draw.session_csrf;
          expires = draw.verified_at + session_length;
        })
    pub healthy : (login o draw rq form st).1.admin.poisoned ≡ false
    pub shown :
        (login o draw rq form st).0
        ≡ ok (login_answer st.config.admin.username draw.view_csrf (ok draw.token))
    pub settings : (login o draw rq form st).1.config ≡ st.config

  abbrev auth_login : Result Text LoginError
  unfolding Auth.login
  auth_login =
      (Auth.login o.crypto draw.started_at form.username form.password draw.joined draw.verified_at
        draw.token draw.session_csrf st.admin).0

  status_of : Result LoginView HttpError → LoginStatus
  status_of (ok view) = view.status
  status_of (err e) = not_authorized

  failed_status :
      (x : LoginError)
      → ¬ ((login_answer st.config.admin.username draw.view_csrf (err x)).status ≡ see_other)
  failed_status invalid_credentials h = cc
  failed_status throttled h = cc
  failed_status unavailable h = cc

  -- A sign-in that is redirected to the dashboard came from the configured origin with the
  -- challenge of the sign-in page, and gave the administrator's name and password; then the
  -- session is that of the token drawn, until eight hours after the verification, the answer sets
  -- its cookie, and the settings are as they were.
  pub login-IsLetIn :
      (view : LoginView) → (login o draw rq form st).0 ≡ ok view → view.status ≡ see_other → IsLetIn
  unfolding login sign_in auth_login status_of
  login-IsLetIn view h redirected = elim (Bool-cases (same_origin st.config.admin.origin rq)) [
    | inr e ↦ let bad = rw (e, login, require_origin) at h in cc
    | inl e ↦ elim (Option-cases (rq.cookie login_cookie)) [
      | inl e' ↦ let bad = rw (e, login, require_origin, e') at h in cc
      | inr (challenge, e') ↦ elim (Bool-cases (tokens_match challenge form.csrf)) [
        | inr a ↦ let bad = rw (e, login, require_origin, e', a) at h in cc
        | inl a ↦
            let shown = rw (e, login, require_origin, e', a) at h in
            elim (Result-cases auth_login) [
              | inr (x, r) ↦
                  let failed : status_of (login o draw rq form st).0 ≡ see_other =
                    ap status_of h ∙ redirected in
                  let bad = rw (login, e, require_origin, e', a, r) at failed in
                  elim (failed_status x bad) [ ]
              | inl (token, r) ↦
                  let (administrator, returned, opened) =
                    login_sound o.crypto st.admin draw.started_at form.username form.password
                      draw.joined draw.verified_at draw.token draw.session_csrf token r in
                  record {
                    challenge = challenge;
                    carried = e';
                    answered = a;
                    origin = e;
                    administrator = administrator;
                    opened = rw (e, login, require_origin, e', a) opened;
                    healthy =
                        rw (e, login, require_origin, e', a)
                          (login-healthy o.crypto st.admin draw.started_at form.username
                            form.password draw.joined draw.verified_at draw.token draw.session_csrf
                            token r);
                    shown = rw (e, login, require_origin, e', a, r, returned) refl;
                    settings = rw (e, login, require_origin, e', a) refl;
                  }
            ]
      ]
    ]
  ]
