-- ===== src/Routes/Concurrent/Handlers.antt =====
-- The handlers other than that of a sign-up, and the cleanup.
use rust_invite_system.Common.{ℕ}
use rust_invite_system.Routes.State.{Outside, AppState, Request}
use rust_invite_system.Routes.Manage.{
  GenerateInviteForm, RevokeInviteForm, Draw, generate_invite, revoke_invite_route, cleanup_round,
  admin,
}
use rust_invite_system.Routes.SignIn.{SignInDraw, LoginForm, LogoutForm, login, logout}

-- What each makes of the state.
pub data Handled (o : Outside) (st : AppState o) : AppState o → Type 0 where
  generates :
      (guard_at : ℕ) (draw : Draw) (rq : Request) (form : GenerateInviteForm)
      → Handled o st (generate_invite o guard_at draw rq form st).1
  revokes :
      (guard_at now : ℕ) (rq : Request) (form : RevokeInviteForm)
      → Handled o st (revoke_invite_route o guard_at now rq form st).1
  looks : (guard_at now : ℕ) (rq : Request) → Handled o st (admin o guard_at now rq st).1
  signs_in :
      (draw : SignInDraw) (rq : Request) (form : LoginForm)
      → Handled o st (login o draw rq form st).1
  signs_out :
      (guard_at : ℕ) (rq : Request) (form : LogoutForm)
      → Handled o st (logout o guard_at rq form st).1
  cleans : (now : ℕ) → Handled o st (cleanup_round o now st)
