-- ===== src/Routes/Once.antt =====
-- A code signs up one account.
use rust_invite_system.Common.{ℕ, ◌≡◌, sym, ◌∙◌, true, false, List, Text, ok, ap, subst}
use rust_invite_system.Invites.Histories.{Call, run, run-keeps, any_calls}
use rust_invite_system.Invites.Audit.{WellFormed}
use rust_invite_system.Invites.SingleUse.{
  Spent, Spent-step_spec, Spent-consume_spec, consume_spec-Spent,
}
use rust_invite_system.Lldap.Directory.{IsDirectory}
use rust_invite_system.Routes.State.{Outside, AppState}
use rust_invite_system.Routes.Signup.{SubmitInviteForm, accept}
use rust_invite_system.Routes.Accepted.{accept-SignedUp}

-- From well-formed tables and with a directory that keeps the laws relied on: after an attempt to
-- sign up with a code succeeded, no attempt with that code succeeds, whatever the repository was
-- called for in between, whichever requests to the database failed, and whatever else became of
-- the state.
pub accept_once :
    (o : Outside) (i : IsDirectory o.service) (checked used : ℕ) (code : Text)
    (form : SubmitInviteForm) (st after : AppState o) (between : List Call) (checked' used' : ℕ)
    (form' : SubmitInviteForm) (later : AppState o)
    → WellFormed st.db.tables
    → accept o checked used code form st ≡ (ok tt, after)
    → later.db.tables ≡ (run between after.db).tables
    → ¬ ((accept o checked' used' code form' later).0 ≡ ok tt)
accept_once o i checked used code form st after between checked' used' form' later v first same
      second =
    let hash = o.crypto.sha256_hex code in
    let a = accept-SignedUp o i checked used form code st after first in
    let spent : Spent hash form.username after.db.tables =
      subst (Spent hash form.username) (sym a.marked.tables)
        (consume_spec-Spent hash _ _ _ v a.marked.answer) in
    let still : Spent hash form.username later.db.tables =
      subst (Spent hash form.username) (sym same) (
        run-keeps (Spent hash form.username) _ (λ c t _ s. Spent-step_spec hash form.username c t s)
          between after.db (any_calls between) spent) in
    let last = (accept o checked' used' code form' later).1 in
    let b = accept-SignedUp o i checked' used' form' code later last (ap (λ r. (r, last)) second) in
    let barred =
      Spent-consume_spec hash form.username (o.clock.print used') form'.username later.db.tables
        still in
    let bad : ok false ≡ ok true = sym barred ∙ b.marked.answer in cc
