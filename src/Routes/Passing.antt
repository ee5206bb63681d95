-- ===== src/Routes/Passing.antt =====
-- What each step of an attempt to sign up has done when it returned.
use rust_invite_system.Common.{
  ℕ, ◌≡◌, refl, sym, ◌∙◌, Bool, true, false, Option, none, some, List, [], ◌∷◌, ◌++◌, Text, Result,
  ok, err, unwrap_or, inl, inr, Bool-cases, is_empty, ap, subst,
}
use rust_invite_system.Config.{LldapConfig}
use rust_invite_system.Validation.{validate_username, validate_email, validate_password}
use rust_invite_system.Validation.Messages.{Message}
use rust_invite_system.Invites.Schema.{InviteRecord, Tables, SqlError}
use rust_invite_system.Invites.Repository.{consume_invite}
use rust_invite_system.Invites.Rows.{hash_of, find_by}
use rust_invite_system.Invites.Spec.{consume_spec}
use rust_invite_system.Invites.Atomicity.{consume_invite-Refines, Refines-ok}
use rust_invite_system.Lldap.{LldapError}
use rust_invite_system.Lldap.Directory.{IsDirectory}
use rust_invite_system.Lldap.Outcome.{
  done, undone, leaked, Provisioned, ended, not_created, provision_user-Provisioned,
}
use rust_invite_system.Lldap.Groups.{InGroups, provision_user-InGroups}
use rust_invite_system.Routes.State.{Outside, AppState}
use rust_invite_system.Routes.Signup.{
  SubmitInviteForm, Problem, problem_of, field_problems, check_fields, check_username, check_email,
  find_invite, found_invite, provision, provision_result, consume,
}
use rust_invite_system.Routes.Accounts.{find_by_token_hash-tables, find_by_token_hash-found}

module _ (o : Outside) where
  -- The three fields pass their validators.
  pub record ValidFields (form : SubmitInviteForm) (st : AppState o) : Type 0 where
    pub username : validate_username form.username ≡ ok tt
    pub email : validate_email form.email ≡ ok tt
    pub password : validate_password o.chars form.password st.config.password_policy ≡ ok tt

  -- The second tables are the first with the invite of the hash marked as used, which it could be.
  pub record Marked (form : SubmitInviteForm) (hash : Text) (used : ℕ) (before after : Tables)
      : Type 0 where
    pub answer : (consume_spec hash (o.clock.print used) form.username before).0 ≡ ok true
    pub tables : after ≡ (consume_spec hash (o.clock.print used) form.username before).1

  -- The same settings and tables.
  pub record Alike (s t : AppState o) : Type 0 where
    pub config : t.config ≡ s.config
    pub tables : t.db.tables ≡ s.db.tables

  no_problems :
      (a b c : Result (Unit {0}) Message)
      → problem_of a ++ (problem_of b ++ problem_of c) ≡ []
      → (a ≡ ok tt) × ((b ≡ ok tt) × (c ≡ ok tt))
  no_problems (ok _) (ok _) (ok _) h = (refl, (refl, refl))
  no_problems (ok _) (ok _) (err z) h = cc
  no_problems (ok _) (err y) c h = cc
  no_problems (err x) b c h = cc

  empty : (ps : List Problem) → is_empty ps ≡ true → ps ≡ []
  empty [] h = refl
  empty (p ∷ ps) h = cc

  provision_result_ok :
      (r : Result (Unit {0}) LldapError) → provision_result o r ≡ ok tt → r ≡ ok tt
  provision_result_ok (ok _) h = refl
  provision_result_ok (err e) h = cc

  module _ (form : SubmitInviteForm) where
    field_problems_none :
        (st : AppState o)
        → field_problems o st.config.password_policy form ≡ []
        → ValidFields form st
    unfolding field_problems
    field_problems_none st h =
        let (u, (e, p)) =
          no_problems (validate_username form.username) (validate_email form.email)
            (validate_password o.chars form.password st.config.password_policy) h in
        record { username = u; email = e; password = p }

    pub check_fields_passed :
        (s t : AppState o) → check_fields o form s ≡ (ok tt, t) → ValidFields form s × (s ≡ t)
    unfolding check_fields
    check_fields_passed s t h =
        elim (Bool-cases (is_empty (field_problems o s.config.password_policy form))) [
          | inl e ↦ (
            field_problems_none s (empty (field_problems o s.config.password_policy form) e),
            ap (λ p. p.1) h,
          )
          | inr e ↦ let bad = rw e at h in cc
        ]

    pub check_username_passed :
        (s t : AppState o) → check_username o form s ≡ (ok tt, t) → Alike s t
    unfolding check_username
    check_username_passed s t h =
        let same = sym (ap (λ p. p.1) h) in
        record { config = ap (λ x. x.config) same; tables = ap (λ x. x.db.tables) same }

    pub check_email_passed : (s t : AppState o) → check_email o form s ≡ (ok tt, t) → Alike s t
    unfolding check_email
    check_email_passed s t h =
        let same = sym (ap (λ p. p.1) h) in
        record { config = ap (λ x. x.config) same; tables = ap (λ x. x.db.tables) same }

    pub unwrap_or-true : (r : Result Bool SqlError) → unwrap_or r false ≡ true → r ≡ ok true
    unwrap_or-true (ok b) h = ap ok h
    unwrap_or-true (err e) h = cc

    pub consume_passed :
        (hash : Text) (now : ℕ) (s t : AppState o)
        → consume o hash now form s ≡ (ok tt, t)
        → Marked form hash now s.db.tables t.db.tables × (t.directory ≡ s.directory)
    unfolding consume
    consume_passed hash now s t h =
        let at = o.clock.print now in
        let r = (consume_invite hash at form.username s.db).0 in
        elim (Bool-cases (unwrap_or r false)) [
          | inr e ↦ let bad = rw e at h in cc
          | inl e ↦
              let same = sym (ap (λ p. p.1) (rw e at h)) in
              let (answer, tables) =
                Refines-ok (consume_invite-Refines hash at form.username) s.db
                  (unwrap_or-true r e) in
              (
                record { answer = answer; tables = ap (λ x. x.db.tables) same ∙ tables },
                ap (λ x. x.directory) same,
              )
        ]

  found_invite_ok :
      (a : Result (Option InviteRecord) SqlError) (r : InviteRecord)
      → found_invite o a ≡ ok r
      → a ≡ ok (some r)
  found_invite_ok (ok (some s)) r h = cc
  found_invite_ok (ok none) r h = cc
  found_invite_ok (err e) r h = cc

  pub find_invite_passed :
      (hash : Text) (r : InviteRecord) (s t : AppState o)
      → find_invite o hash s ≡ (ok r, t)
      → (find_by hash_of hash s.db.tables.invites ≡ some r) × Alike s t
  unfolding find_invite
  find_invite_passed hash r s t h =
      let same = sym (ap (λ p. p.1) h) in
      (
        find_by_token_hash-found hash s.db r (found_invite_ok _ r (ap (λ p. p.0) h)),
        record {
          config = ap (λ x. x.config) same;
          tables = ap (λ x. x.db.tables) same ∙ find_by_token_hash-tables hash s.db;
        },
      )

module _ (o : Outside) (i : IsDirectory o.service) (form : SubmitInviteForm) where
  Provisioned-account :
      {config : LldapConfig} {email first last : Text} {d : o.service.Directory}
      (out : Result (Unit {0}) LldapError × o.service.Directory)
      → Provisioned o.service config i form.username email first last d out
      → out.0 ≡ ok tt
      → i.has_user out.1 form.username ≡ true
  Provisioned-account out (ended (done h)) e = h
  Provisioned-account out (ended (undone h)) e = cc
  Provisioned-account out (ended (leaked h)) e = cc
  Provisioned-account out (not_created h) e = cc

  pub provision_passed :
      (groups : List Text) (s t : AppState o)
      → provision o form groups s ≡ (ok tt, t)
      → (i.has_user t.directory form.username ≡ true)
        × (InGroups o.service s.config.ldap i form.username groups t.directory × Alike o s t)
  unfolding provision
  provision_passed groups s t h =
      let same = sym (ap (λ p. p.1) h) in
      let returned = provision_result_ok o _ (ap (λ p. p.0) h) in
      let there =
        Provisioned-account _
          (provision_user-Provisioned o.service s.config.ldap i form.username form.email
            form.first_name form.last_name form.password groups s.directory)
          returned in
      let joined =
        provision_user-InGroups o.service s.config.ldap i form.username form.email form.first_name
          form.last_name form.password groups s.directory returned in
      (
        ap (λ x. i.has_user x.directory form.username) same ∙ there,
        (
          subst (λ x. InGroups o.service s.config.ldap i form.username groups x.directory)
              (sym same) joined,
          record { config = ap (λ x. x.config) same; tables = ap (λ x. x.db.tables) same },
        ),
      )
