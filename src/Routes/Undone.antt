-- ===== src/Routes/Undone.antt =====
-- The account of a sign-up that lost its invite.
use rust_invite_system.Common.{
  ℕ, ◌≡◌, refl, false, List, Text, err, inl, inr, Bool-cases, Result-cases, unwrap_or,
}
use rust_invite_system.Invites.Repository.{consume_invite}
use rust_invite_system.Lldap.{LldapError}
use rust_invite_system.Lldap.Directory.{IsDirectory}
use rust_invite_system.Lldap.Client
use rust_invite_system.Lldap.Client.{delete_user_account}
use rust_invite_system.Lldap.Provision.{login-Keeps}
use rust_invite_system.Lldap.Outcome.{Undone, delete_user-Undone}
use rust_invite_system.Routes.State.{Outside, AppState}
use rust_invite_system.Routes.Signup.{SubmitInviteForm, Problem, consume}

module _ (o : Outside) (i : IsDirectory o.service) (hash : Text) (now : ℕ) (form : SubmitInviteForm)
    (st : AppState o) where
  -- The account was deleted, as far as the server confirmed it; or the client could not log in to
  -- the directory for that, and every account is as it was.
  pub data Removed (after : o.service.Directory) : Type 0 where
    asked : Undone o.service st.config.ldap i form.username after → Removed after
    no_login :
        (e : LldapError)
        → (Client.login o.service st.config.ldap st.directory).0 ≡ err e
        → ((v : Text) → i.account after v ≡ i.account st.directory v)
        → Removed after

  -- With a directory that keeps the laws relied on: when the invite cannot be marked as used, for
  -- instance since another sign-up used it first, the last request deletes the account just
  -- created, which is gone unless the server did not confirm it; or the client cannot log in to the
  -- directory for that, and every account is as it was.
  pub consume_undoes :
      (problems : List Problem)
      → (consume o hash now form st).0 ≡ err problems
      → Removed (consume o hash now form st).1.directory
  unfolding consume delete_user_account
  consume_undoes problems h =
      elim (Bool-cases
        (unwrap_or (consume_invite hash (o.clock.print now) form.username st.db).0 false)) [
          | inl e ↦ let bad = rw e at h in cc
          | inr e ↦ elim (Result-cases (Client.login o.service st.config.ldap st.directory).0) [
            | inr (x, r) ↦
                rw (e, r, delete_user_account)
                  (no_login x r (λ v.
                    login-Keeps o.service st.config.ldap i v (i.account st.directory v) st.directory
                      refl))
            | inl (token, r) ↦
                rw (e, r, delete_user_account)
                  (asked (
                    delete_user-Undone o.service st.config.ldap i form.username token
                      (Client.login o.service st.config.ldap st.directory).1))
          ]
        ]
