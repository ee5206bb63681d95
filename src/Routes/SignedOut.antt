-- ===== src/Routes/SignedOut.antt =====
-- The state after a sign-out, until the next sign-in.
use rust_invite_system.Common.{
  ℕ, ◌≡◌, refl, sym, ◌∙◌, not, Bool, true, false, none, Text, Result, ok, err, ok_or, ap, subst,
  inl, inr, ◌==◌, ◌||◌, byte_len, reject, unwrap_or, Result-cases, Bool-cases, Option-cases,
}
use rust_invite_system.Auth
use rust_invite_system.Auth.{AdminAuth, LoginError, csrf_token_at}
use rust_invite_system.Auth.Login.{login-failed}
use rust_invite_system.Invites.Repository.{consume_invite}
use rust_invite_system.Steps.{
  Step, ◌>>=◌, continue, lift, Post-same, Post-always, Keeps, Keeps-bind,
}
use rust_invite_system.Routes.State.{Outside, AppState, Request, HttpError, unauthorized}
use rust_invite_system.Routes.Guards.{
  login_cookie, same_origin, session_cookie, require_admin, require_admin_mutation,
}
use rust_invite_system.Routes.Status.{invite_is_active}
use rust_invite_system.Routes.Signup.{
  SubmitInviteForm, check_fields, check_username, check_email, find_invite, provision, consume,
  accept_record, accept,
}
use rust_invite_system.Routes.Manage.{
  Draw, GenerateInviteForm, RevokeInviteForm, generate_invite, revoke_invite_route, admin,
}
use rust_invite_system.Routes.SignIn.{
  SignInDraw, LoginForm, LogoutForm, LoginView, LoginStatus, fine, see_other, not_authorized,
  too_many_requests, service_unavailable, SetCookie, check_challenge, sign_in, login, logout,
}
use rust_invite_system.Routes.Authorized.{Passes, require_admin_mutation-Passes}

module _ (o : Outside) where
  -- Nobody is signed in.
  abbrev SignedOut : AppState o → Type 0
  SignedOut st = st.admin.state.session ≡ none

  -- The guards' refusal while nobody is signed in.
  record Refusal (A : Type 0) (out : Result A HttpError × AppState o) : Type 0 where
    answer : out.0 ≡ err unauthorized
    still : SignedOut out.1

  require_admin-refuses :
      (rq : Request) (now : ℕ) (st : AppState o)
      → SignedOut st
      → Refusal Text (require_admin o rq now st)
  unfolding require_admin csrf_token_at
  require_admin-refuses rq now st h = elim (Option-cases (rq.cookie session_cookie)) [
    | inl e ↦ rw e (record { answer = refl; still = h })
    | inr (token, e) ↦ elim (Bool-cases (not (byte_len token == 64) || st.admin.poisoned)) [
      | inl e' ↦ rw (e, require_admin, csrf_token_at, e') (record { answer = refl; still = h })
      | inr e' ↦
          rw (e, require_admin, csrf_token_at, e', h) (record { answer = refl; still = refl })
    ]
  ]

  -- A step that keeps everybody signed out.
  Quiet : {E A : Type 0} → ((st : AppState o) → Result A E × AppState o) → Type 0
  Quiet m = (st : AppState o) → SignedOut st → SignedOut (m st).1

  guarded :
      {B : Type 0} (rq : Request) (now : ℕ) (f : Text → Step (AppState o) HttpError B)
      → Quiet (require_admin o rq now >>= f)
  unfolding Quiet
  guarded rq now f st h =
      let r = require_admin-refuses rq now st h in
      subst (λ x. SignedOut (continue x f (require_admin o rq now st).1).1) (sym r.answer) r.still

  require_admin_mutation-refuses :
      (rq : Request) (now : ℕ) (csrf : Text) (st : AppState o)
      → SignedOut st
      → Refusal (Unit {0}) (require_admin_mutation o rq now csrf st)
  unfolding require_admin_mutation
  require_admin_mutation-refuses rq now csrf st h =
      let r = require_admin-refuses rq now st h in
      rw (r.answer, require_admin_mutation) (record { answer = refl; still = r.still })

  guarded_mutation :
      {B : Type 0} (rq : Request) (now : ℕ) (csrf : Text)
      (f : Unit {0} → Step (AppState o) HttpError B)
      → Quiet (require_admin_mutation o rq now csrf >>= f)
  unfolding Quiet
  guarded_mutation rq now csrf f st h =
      let r = require_admin_mutation-refuses rq now csrf st h in
      subst (λ x. SignedOut (continue x f (require_admin_mutation o rq now csrf st).1).1)
        (sym r.answer) r.still

  abbrev pub is_redirect : LoginStatus → Bool
  is_redirect fine = false
  is_redirect see_other = true
  is_redirect not_authorized = false
  is_redirect too_many_requests = false
  is_redirect service_unavailable = false

  -- An answer to a sign-in that succeeded: it is redirected to the dashboard.
  abbrev pub redirected : Result LoginView HttpError → Bool
  redirected (ok view) = is_redirect view.status
  redirected (err e) = false

  abbrev entered : SignInDraw → LoginForm → AppState o → Result Text LoginError × AdminAuth
  unfolding Auth.login
  entered draw form st =
      Auth.login o.crypto draw.started_at form.username form.password draw.joined draw.verified_at
        draw.token draw.session_csrf st.admin

  rejected-Quiet :
      (draw : SignInDraw) (rq : Request) (form : LoginForm) (st : AppState o)
      → SignedOut st
      → redirected (login o draw rq form st).0 ≡ false
      → SignedOut (login o draw rq form st).1
  unfolding login sign_in
  rejected-Quiet draw rq form st h no_entry =
      elim (Bool-cases (same_origin st.config.admin.origin rq)) [
        | inr e ↦ rw (login, e) h
        | inl e ↦ elim (Result-cases (check_challenge o (rq.cookie login_cookie) form.csrf)) [
          | inr (x, e') ↦ rw (login, e, e') h
          | inl (u, e') ↦ elim (Result-cases (entered draw form st).0) [
            | inr (x, r) ↦
                rw (login, e, e')
                  (login-failed o.crypto st.admin draw.started_at form.username form.password
                      draw.joined draw.verified_at draw.token draw.session_csrf x r
                    ∙ h)
            | inl (token, r) ↦ let bad = rw (login, e, e', r) at no_entry in cc
          ]
        ]
      ]

  Keeps-Quiet : {E A : Type 0} (m : Step (AppState o) E A) → Keeps SignedOut m → Quiet m
  unfolding Quiet
  Keeps-Quiet m k st h = Post-always SignedOut (m st).0 (m st).1 (k st h)

  consume-Keeps :
      (hash : Text) (now : ℕ) (form : SubmitInviteForm) → Keeps SignedOut (consume o hash now form)
  unfolding consume
  consume-Keeps hash now form st h =
      elim (Bool-cases
        (unwrap_or (consume_invite hash (o.clock.print now) form.username st.db).0 false)) [
          | inl e ↦ rw e h
          | inr e ↦ rw e h
        ]

  -- A sign-up.
  accept-Quiet :
      (checked used : ℕ) (code : Text) (form : SubmitInviteForm)
      → Quiet (accept o checked used code form)
  unfolding Quiet accept accept_record check_fields check_username check_email find_invite provision
      consume
  accept-Quiet checked used code form =
      let P = SignedOut in
      Keeps-Quiet (accept o checked used code form) (
        Keeps-bind P (check_fields o form) _ (λ st h. Post-same P _ st h)
          λ _.
            Keeps-bind P (check_username o form) _ (λ st h. Post-same P _ _ h)
              λ _.
                Keeps-bind P (check_email o form) _ (λ st h. Post-same P _ _ h)
                  λ _.
                    Keeps-bind P (find_invite o (o.crypto.sha256_hex code)) _
                      (λ st h. Post-same P _ _ h)
                      λ r.
                        Keeps-bind P (lift (reject (not (invite_is_active o.clock r checked)) _)) _
                          (λ st h. Post-same P _ st h)
                          λ _.
                            Keeps-bind P (lift (ok_or (o.json.parse r.groups_json) _)) _
                              (λ st h. Post-same P _ st h)
                              λ groups.
                                Keeps-bind P (provision o form groups) _ (λ st h. Post-same P _ _ h)
                                  λ _. consume-Keeps (o.crypto.sha256_hex code) used form)

  signed_out :
      (guard_at : ℕ) (rq : Request) (form : LogoutForm) (st : AppState o)
      → Passes o rq guard_at form.csrf st
      → (logout o guard_at rq form st).1.admin.state.session ≡ none
  unfolding logout require_admin_mutation csrf_token_at Auth.logout
  signed_out guard_at rq form st a =
      rw
        (
          a.carried, logout, require_admin_mutation, csrf_token_at, a.long, a.healthy, a.live,
          a.owned, a.origin, a.unforged, Auth.logout, a.owned,
        )
        refl

  -- The states that requests and the cleanup come to, without a sign-in that is redirected to the
  -- dashboard: those of the administrator's handlers, sign-ups, and whatever changes the directory
  -- and the database only.
  pub data Elapses (st : AppState o) : AppState o → Type 0 where
    at_once : Elapses st st
    generated :
        {s : AppState o} (at : ℕ) (draw : Draw) (rq : Request) (form : GenerateInviteForm)
        → Elapses st s
        → Elapses st (generate_invite o at draw rq form s).1
    revoked :
        {s : AppState o} (at now : ℕ) (rq : Request) (form : RevokeInviteForm)
        → Elapses st s
        → Elapses st (revoke_invite_route o at now rq form s).1
    looked :
        {s : AppState o} (at now : ℕ) (rq : Request)
        → Elapses st s
        → Elapses st (admin o at now rq s).1
    left :
        {s : AppState o} (at : ℕ) (rq : Request) (form : LogoutForm)
        → Elapses st s
        → Elapses st (logout o at rq form s).1
    turned_away :
        {s : AppState o} (draw : SignInDraw) (rq : Request) (form : LoginForm)
        → Elapses st s
        → redirected (login o draw rq form s).0 ≡ false
        → Elapses st (login o draw rq form s).1
    signed_up :
        {s : AppState o} (checked used : ℕ) (code : Text) (form : SubmitInviteForm)
        → Elapses st s
        → Elapses st (accept o checked used code form s).1
    aside : {s t : AppState o} → Elapses st s → t.admin ≡ s.admin → Elapses st t

  Elapses-SignedOut : {st t : AppState o} → SignedOut st → Elapses st t → SignedOut t
  unfolding generate_invite revoke_invite_route admin logout Quiet
  Elapses-SignedOut h at_once = h
  Elapses-SignedOut h (generated {s} at draw rq form e) =
      guarded_mutation rq at form.csrf _ s (Elapses-SignedOut h e)
  Elapses-SignedOut h (revoked {s} at now rq form e) =
      guarded_mutation rq at form.csrf _ s (Elapses-SignedOut h e)
  Elapses-SignedOut h (looked {s} at now rq e) = guarded rq at _ s (Elapses-SignedOut h e)
  Elapses-SignedOut h (left {s} at rq form e) =
      guarded_mutation rq at form.csrf _ s (Elapses-SignedOut h e)
  Elapses-SignedOut h (turned_away {s} draw rq form e no_entry) =
      rejected-Quiet draw rq form s (Elapses-SignedOut h e) no_entry
  Elapses-SignedOut h (signed_up {s} checked used code form e) =
      accept-Quiet checked used code form s (Elapses-SignedOut h e)
  Elapses-SignedOut h (aside e same) = ap (λ x. x.state.session) same ∙ Elapses-SignedOut h e

  -- After a sign-out that is answered, no request can change anything, whatever requests of the
  -- administrator's pages, sign-ups and other changes of the database and the directory come in
  -- between, until a sign-in is redirected to the dashboard.
  pub logout_ends :
      (guard_at : ℕ) (rq : Request) (form : LogoutForm) (st : AppState o) (out : Text × SetCookie)
      → (logout o guard_at rq form st).0 ≡ ok out
      → (later : AppState o) → Elapses (logout o guard_at rq form st).1 later
      → (next : Request) (now : ℕ) (csrf : Text)
      → ¬ ((require_admin_mutation o next now csrf later).0 ≡ ok tt)
  unfolding logout
  logout_ends guard_at rq form st out h later between next now csrf passes =
      elim (Result-cases (require_admin_mutation o rq guard_at form.csrf st).0) [
        | inr (x, e) ↦ let bad = rw (e, logout) at h in cc
        | inl (u, e) ↦
            let gone =
              signed_out guard_at rq form st
                ((require_admin_mutation-Passes o rq guard_at form.csrf st).0 e) in
            let still = Elapses-SignedOut gone between in
            let a = (require_admin_mutation-Passes o next now csrf later).0 passes in
            let bad = rw still at a.live in cc
      ]
