-- ===== src/Routes/Concurrent/Closed.antt =====
-- What every call of the repository keeps of the tables, every handler keeps.
use rust_invite_system.Common.{
  Bool-cases, inl, inr, ltb, arith, ℕ, ◌-◌, ◌*◌, ◌≡◌, sym, none, some, Text, Option, subst,
}
use rust_invite_system.Invites.Schema.{Tables, Db}
use rust_invite_system.Invites.Repository.{list_recent}
use rust_invite_system.Invites.Histories
use rust_invite_system.Invites.Histories.{
  Call, create, consume, revoke, cleanup, step_spec, step-keeps,
}
use rust_invite_system.Steps.{lift, Post-same, Post-always, Keeps, Keeps-bind}
use rust_invite_system.Routes.State.{Outside, AppState, Request}
use rust_invite_system.Routes.Manage.{
  GenerateInviteForm, RevokeInviteForm, Draw, day, generate_invite, revoke_invite_route,
  cleanup_round, admin,
}
use rust_invite_system.Routes.SignIn.{
  SignInDraw, LoginForm, LogoutForm, check_challenge, sign_in, login, end_session, logout,
}
use rust_invite_system.Routes.Guards.{
  session_cookie, login_cookie, require_admin, require_origin, require_admin_mutation,
}
use rust_invite_system.Routes.Apart.{require_admin-Keeps, guard-Keeps, generate_invite-Keeps}
use rust_invite_system.Routes.Concurrent.Handlers.{
  Handled, generates, revokes, looks, signs_in, signs_out, cleans,
}

-- Kept by the specification of each call that writes.
abbrev pub Closed : {D : Type 0} → (Tables → D → Type 0) → Type 0
Closed {D} P = (c : Call) (t : Tables) (d : D) → P t d → P (step_spec c t) d

list_recent-tables : (n : ℕ) (db : Db) → (list_recent n db).1.tables ≡ db.tables
unfolding list_recent
list_recent-tables n db = ground arith

module _ (o : Outside) (P : Tables → o.service.Directory → Type 0) (closed : Closed P) where
  abbrev Tabled : AppState o → Type 0
  Tabled st = P st.db.tables st.directory

  kept :
      (c : Call) (db : Db) (d : o.service.Directory)
      → P db.tables d
      → P (Histories.step c db).tables d
  kept c db d h = step-keeps (λ t. P t d) c db h (closed c db.tables d h)

  generate_invite-Tabled :
      (guard_at : ℕ) (draw : Draw) (rq : Request) (form : GenerateInviteForm) (st : AppState o)
      → Tabled st
      → Tabled (generate_invite o guard_at draw rq form st).1
  generate_invite-Tabled guard_at draw rq form st h =
      Post-always Tabled (generate_invite o guard_at draw rq form st).0 _ (
        generate_invite-Keeps o (λ db _ d. P db.tables d)
          (λ id hash groups created_at expires_at db _ d h'.
            kept (create id hash groups created_at expires_at none) db d h')
          guard_at draw rq form st h)

  revoke_invite_route-Tabled :
      (guard_at now : ℕ) (rq : Request) (form : RevokeInviteForm) (st : AppState o)
      → Tabled st
      → Tabled (revoke_invite_route o guard_at now rq form st).1
  unfolding revoke_invite_route
  revoke_invite_route-Tabled guard_at now rq form st h =
      Post-always Tabled (revoke_invite_route o guard_at now rq form st).0 _ (
        Keeps-bind Tabled (require_admin_mutation o rq guard_at form.csrf) _
          (guard-Keeps o (λ db _ d. P db.tables d) rq guard_at form.csrf)
          (λ _ s h'. kept (revoke form.id (o.clock.print now)) s.db s.directory h') st h)

  cleanup_round-Tabled : (now : ℕ) (st : AppState o) → Tabled st → Tabled (cleanup_round o now st)
  unfolding cleanup_round
  cleanup_round-Tabled now st h = elim (Bool-cases (ltb now (120 * day))) [
    | inl early ↦ rw (early, cleanup_round) h
    | inr late ↦
        rw (late, cleanup_round)
          (kept (cleanup (o.clock.print (now - 120 * day))) st.db st.directory h)
  ]

  admin-Tabled :
      (guard_at now : ℕ) (rq : Request) (st : AppState o)
      → Tabled st
      → Tabled (admin o guard_at now rq st).1
  unfolding admin
  admin-Tabled guard_at now rq st h = Post-always Tabled (admin o guard_at now rq st).0 _ (
      Keeps-bind Tabled (require_admin o rq guard_at) _
        (require_admin-Keeps o (λ db _ d. P db.tables d) rq guard_at)
        (λ _ s h'. subst (λ t. P t s.directory) (sym (list_recent-tables 20 s.db)) h') st h)

  login-Tabled :
      (draw : SignInDraw) (rq : Request) (form : LoginForm) (st : AppState o)
      → Tabled st
      → Tabled (login o draw rq form st).1
  unfolding login sign_in require_origin
  login-Tabled draw rq form st h = Post-always Tabled (login o draw rq form st).0 _ (
      Keeps-bind Tabled (require_origin o rq) _ (λ s h'. Post-same Tabled _ s h')
        (λ _.
          Keeps-bind Tabled (lift (check_challenge o (rq.cookie login_cookie) form.csrf)) _
            (λ s h'. Post-same Tabled (check_challenge o (rq.cookie login_cookie) form.csrf) s h')
            (λ _ s h'. h'))
        st h)

  logout-Tabled :
      (guard_at : ℕ) (rq : Request) (form : LogoutForm) (st : AppState o)
      → Tabled st
      → Tabled (logout o guard_at rq form st).1
  unfolding logout
  logout-Tabled guard_at rq form st h = Post-always Tabled (logout o guard_at rq form st).0 _ (
      Keeps-bind Tabled (require_admin_mutation o rq guard_at form.csrf) _
        (guard-Keeps o (λ db _ d. P db.tables d) rq guard_at form.csrf)
        (λ _. ended (rq.cookie session_cookie)) st h)
    where
      ended : (cookie : Option Text) → Keeps Tabled (end_session o cookie)
      ended none s h' = h'
      ended (some token) s h' = Post-same Tabled _ _ h'

  -- The administrator's handlers and the cleanup make only calls of the repository.
  pub Handled-Tabled : {st st' : AppState o} → Handled o st st' → Tabled st → Tabled st'
  Handled-Tabled {st} (generates guard_at draw rq form) h =
      generate_invite-Tabled guard_at draw rq form st h
  Handled-Tabled {st} (revokes guard_at now rq form) h =
      revoke_invite_route-Tabled guard_at now rq form st h
  Handled-Tabled {st} (looks guard_at now rq) h = admin-Tabled guard_at now rq st h
  Handled-Tabled {st} (signs_in draw rq form) h = login-Tabled draw rq form st h
  Handled-Tabled {st} (signs_out guard_at rq form) h = logout-Tabled guard_at rq form st h
  Handled-Tabled {st} (cleans now) h = cleanup_round-Tabled now st h
