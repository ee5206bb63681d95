-- ===== src/Routes/Answered.antt =====
-- What the page after a sign-up tells.
use rust_invite_system.Common.{
  ℕ, ◌≡◌, refl, sym, none, some, Text, codes, Result, ok, err, inl, inr, Bool-cases, Result-cases,
  is_empty, trim, ap, true, List, [], ◌∷◌, subst,
}
use rust_invite_system.Lldap.Directory.{IsDirectory}
use rust_invite_system.Routes.State.{Outside, AppState, HttpError}
use rust_invite_system.Routes.Signup.{
  Problem, missing_code, SubmitInviteForm, FormView, accept, submit_invite,
}
use rust_invite_system.Routes.Refused.{accept_refused}

module _ (o : Outside) (checked used : ℕ) (code : Text) (form : SubmitInviteForm)
    (st : AppState o) where
  -- The problems of a sign-up: its code is blank, and nothing was done; or they are those that the
  -- attempt ended with.
  pub data Problems (problems : List Problem) (after : AppState o) : Type 0 where
    blank_code :
        is_empty (trim code) ≡ true
        → problems ≡ missing_code ∷ []
        → after ≡ st
        → Problems problems after
    attempted : accept o checked used code form st ≡ (err problems, after) → Problems problems after

  -- The page says that the account was created, and the attempt to sign up succeeded; or it does
  -- not, shows the problems, has the name and the address as they were typed, and the tables are as
  -- they were.
  pub data Answered (view : FormView) (after : AppState o) : Type 0 where
    created :
        view.success_message ≡ some (codes "Your account has been created.")
        → accept o checked used code form st ≡ (ok tt, after)
        → Answered view after
    refused :
        view.success_message ≡ none
        → Problems view.errors after
        → view.username ≡ form.username
        → view.email ≡ form.email
        → after.db.tables ≡ st.db.tables
        → Answered view after

  view_of : (view : FormView) → Result FormView HttpError → FormView
  view_of view (ok v) = v
  view_of view (err e) = view

  -- With a readable query that has a code, and a directory that keeps the laws relied on, the page
  -- after a sign-up tells how it ended: it says that the account was created, and the attempt with
  -- its code succeeded; or it does not say so, shows the problems that the attempt ended with, or,
  -- where the code is blank, that it is missing, has the name and the address as they were typed, and the tables are
  -- as they were.
  pub submit_invite-Answered :
      (i : IsDirectory o.service) (view : FormView)
      → (submit_invite o checked used (some (some code)) form st).0 ≡ ok view
      → Answered view (submit_invite o checked used (some (some code)) form st).1
  unfolding submit_invite view_of
  submit_invite-Answered i view h = elim (Bool-cases (is_empty (trim code))) [
    | inl e ↦
        let shown = ap (view_of view) (rw (e, submit_invite) at h) in
        rw (e, submit_invite)
          (refused (sym (ap (λ v. v.success_message) shown))
            (blank_code e (sym (ap (λ v. v.errors) shown)) refl) (sym (ap (λ v. v.username) shown))
            (sym (ap (λ v. v.email) shown)) refl)
    | inr e ↦ elim (Result-cases (accept o checked used code form st).0) [
      | inl (u, r) ↦
          let shown = ap (view_of view) (rw (e, submit_invite, r) at h) in
          rw (e, submit_invite)
            (created (sym (ap (λ v. v.success_message) shown))
              (ap (λ x. (x, (accept o checked used code form st).1)) r))
      | inr (problems, r) ↦
          let shown = ap (view_of view) (rw (e, submit_invite, r) at h) in
          rw (e, submit_invite)
            (refused (sym (ap (λ v. v.success_message) shown))
              (subst (λ l. Problems l (accept o checked used code form st).1)
                (ap (λ v. v.errors) shown)
                (attempted (ap (λ x. (x, (accept o checked used code form st).1)) r)))
              (sym (ap (λ v. v.username) shown)) (sym (ap (λ v. v.email) shown))
              (accept_refused o i checked used code form st problems r))
    ]
  ]
