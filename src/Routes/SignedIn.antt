-- ===== src/Routes/SignedIn.antt =====
-- The session after a sign-in, as requests see it.
use rust_invite_system.Common.{
  ℕ, ◌+◌, ◌≡◌, sym, ◌∙◌, ◌↔◌, true, Option, none, some, List, [], ◌∷◌, Text, text_eq, text_eq_iff,
  text_eq_refl, byte_len, ok, ap, arith, ltb, if◌then◌else◌,
}
use rust_invite_system.Auth.{random_token, Session, session_length, tokens_match, expire}
use rust_invite_system.Auth.Tokens.{IsAlphanumeric, byte_len-random_token}
use rust_invite_system.Auth.Primitives.{HasDigests}
use rust_invite_system.Routes.State.{Outside, AppState, Request}
use rust_invite_system.Routes.Guards.{session_cookie, same_origin, require_admin_mutation}
use rust_invite_system.Routes.SignIn.{
  LoginForm, SetCookie, SignInDraw, LoginView, see_other, login_answer, login,
}
use rust_invite_system.Routes.Authorized.{require_admin_mutation-Passes}
use rust_invite_system.Routes.Entered.{login-IsLetIn}

-- The value that an answer sets a cookie to.
unfoldable pub cookie_of : Text → List SetCookie → Option Text
unfolding text_eq
cookie_of name [] = none
cookie_of name (c ∷ cs) =
    let rest = cookie_of name cs in if text_eq c.name name then some c.value else rest

tokens_match-same : (a b : Text) → tokens_match a b ≡ true → a ≡ b
unfolding tokens_match
tokens_match-same a b h = (text_eq_iff a b).0 (ground arith)

tokens_match_refl : (a : Text) → byte_len a ≡ 64 → tokens_match a a ≡ true
unfolding tokens_match
tokens_match_refl a h = ground (arith, text_eq_refl a)

expire-some :
    (now : ℕ) (s s' : Session)
    → expire now (some s) ≡ some s'
    → (ltb now s.expires ≡ true) × (s ≡ s')
expire-some now s s' h = (ground arith, ground arith)

expire_keeps : (now : ℕ) (s : Session) → ltb now s.expires ≡ true → expire now (some s) ≡ some s
expire_keeps now s h = ground arith

module _ (o : Outside) (digests : HasDigests o.crypto) where
  module _ (draw : SignInDraw) (rq : Request) (form : LoginForm) (st : AppState o) where
    abbrev after : AppState o
    after = (login o draw rq form st).1

    abbrev opened : Session
    opened = record {
      token_hash = o.crypto.sha256_hex draw.token;
      csrf = draw.session_csrf;
      expires = draw.verified_at + session_length;
    }

    -- After a sign-in that is redirected to the dashboard, a request from the configured origin
    -- with the session cookie that the answer set can change something exactly if it comes less
    -- than eight hours after the verification and its form has the session's text against forgery.
    -- The texts drawn are those of `random_token` over letters and digits, and every digest has 64
    -- bytes.
    pub login_admits :
        (view : LoginView)
        → (login o draw rq form st).0 ≡ ok view
        → view.status ≡ see_other
        → (tokens texts : ℕ → ℕ) → IsAlphanumeric tokens
        → IsAlphanumeric texts
        → draw.token ≡ random_token tokens
        → draw.session_csrf ≡ random_token texts
        → (next : Request) (now : ℕ) (csrf : Text)
        → next.cookie session_cookie ≡ cookie_of session_cookie view.cookies
        → same_origin st.config.admin.origin next ≡ true
        → ((require_admin_mutation o next now csrf after).0 ≡ ok tt)
          ↔ ((ltb now (draw.verified_at + session_length) ≡ true) × (csrf ≡ draw.session_csrf))
    unfolding cookie_of
    login_admits view h redirected tokens texts letters letters' drawn drawn' next now csrf carried
          origin =
        let long : byte_len draw.token ≡ 64 = rw drawn (byte_len-random_token tokens letters) in
        let long' : byte_len draw.session_csrf ≡ 64 =
          rw drawn' (byte_len-random_token texts letters') in
        let l = login-IsLetIn o draw rq form st view h redirected in
        let answer : view ≡ login_answer st.config.admin.username draw.view_csrf (ok draw.token) =
          cc in
        let sent : next.cookie session_cookie ≡ some draw.token =
          carried ∙ ap (λ v. cookie_of session_cookie v.cookies) answer in
        let iff = require_admin_mutation-Passes o next now csrf after in
        (
          λ passes.
              let a = iff.0 passes in
              let (early, same) = expire-some now opened a.session (rw l.opened at a.live) in
              (
                early,
                sym (ap (λ s. s.csrf) same ∙ tokens_match-same a.session.csrf csrf a.unforged),
              ),
          λ (early, same). iff.1 (record {
            token = draw.token;
            session = opened;
            carried = sent;
            long = long;
            healthy = l.healthy;
            live = rw l.opened (expire_keeps now opened early);
            owned =
                tokens_match_refl (o.crypto.sha256_hex draw.token)
                  (digests.digest_length draw.token);
            origin = rw l.settings origin;
            unforged = rw same (tokens_match_refl draw.session_csrf long');
          }),
        )
