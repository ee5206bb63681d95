-- ===== src/Routes/Signup.antt =====
-- `invite`, `submit_invite` and `invite_form_view`.
use rust_invite_system.Common.{
  ℕ, false, not, Option, none, some, List, [], ◌∷◌, ◌++◌, Result, ok, err, ok_or, reject, unwrap_or,
  Text, codes, trim, is_empty, if◌then◌else◌,
}
use rust_invite_system.Config.{AppConfig, css_class}
use rust_invite_system.Validation.{
  PasswordPolicy, validate_username, validate_email, validate_password,
}
use rust_invite_system.Validation.Messages.{Message}
use rust_invite_system.Invites.Schema.{InviteRecord, SqlError}
use rust_invite_system.Invites.Repository.{find_by_token_hash, consume_invite}
use rust_invite_system.Lldap.{LldapError, http, json, graphql}
use rust_invite_system.Lldap.Client.{
  username_exists, email_exists, provision_user, delete_user_account,
}
use rust_invite_system.Steps.{Step, ◌>>=◌, ◌>>◌, lift}
use rust_invite_system.Routes.State.{Outside, AppState, HttpError, bad_request}
use rust_invite_system.Routes.Status.{invite_is_active}

pub record SubmitInviteForm : Type 0 where
  pub username : Text
  pub email : Text
  pub first_name : Text
  pub last_name : Text
  pub password : Text

-- The messages of `submit_invite`, in the order of the code: a missing code, a field's message, the
-- name or the address in use, an invite that is invalid or has expired, one that could not be
-- processed, the directory not reached, the account not created, the invite not marked as used.
pub data Problem : Type 0 where
  missing_code : Problem
  invalid_field : Message → Problem
  username_taken email_taken : Problem
  not_active not_processed : Problem
  not_reached not_created : Problem
  not_marked : Problem

-- What `invite_form_view` puts into its page.
pub record FormView : Type 0 where
  pub theme_class : Text
  pub code : Text
  pub username : Text
  pub email : Text
  pub first_name : Text
  pub last_name : Text
  pub errors : List Problem
  pub success_message : Option Text

abbrev pub blank_form : AppConfig → Text → Option Text → FormView
blank_form config code success = record {
  theme_class = css_class config.appearance.default_theme;
  code = code;
  username = [];
  email = [];
  first_name = [];
  last_name = [];
  errors = [];
  success_message = success;
}

abbrev pub refilled_form : AppConfig → Text → SubmitInviteForm → List Problem → FormView
refilled_form config code form problems = record {
  theme_class = css_class config.appearance.default_theme;
  code = code;
  username = form.username;
  email = form.email;
  first_name = form.first_name;
  last_name = form.last_name;
  errors = problems;
  success_message = none;
}

abbrev code_or_default : Option Text → Text
code_or_default none = []
code_or_default (some code) = code

-- The page of an invite. The query is none if it cannot be read.
unfoldable pub invite : AppConfig → Option (Option Text) → Result FormView HttpError
invite config none = err bad_request
invite config (some code) = ok (blank_form config (code_or_default code) none)

abbrev pub problem_of : Result (Unit {0}) Message → List Problem
problem_of (ok _) = []
problem_of (err message) = invalid_field message ∷ []

abbrev pub provision_problem : LldapError → Problem
provision_problem http = not_reached
provision_problem json = not_reached
provision_problem (graphql reason) = not_created

module _ (o : Outside) where
  unfoldable pub field_problems : PasswordPolicy → SubmitInviteForm → List Problem
  unfolding validate_username validate_email validate_password
  field_problems policy form =
      problem_of (validate_username form.username)
      ++ (problem_of (validate_email form.email)
          ++ problem_of (validate_password o.chars form.password policy))

  abbrev pub Attempt : Type 0 → Type 0
  Attempt A = Step (AppState o) (List Problem) A

  unfoldable pub check_fields : SubmitInviteForm → Attempt (Unit {0})
  unfolding field_problems
  check_fields form st =
      let problems = field_problems st.config.password_policy form in
      (reject (not (is_empty problems)) problems, st)

  -- A lookup that fails counts as not found.
  unfoldable pub check_username : SubmitInviteForm → Attempt (Unit {0})
  unfolding username_exists
  check_username form st =
      let (r, d) = username_exists o.service st.config.ldap form.username st.directory in
      (reject (unwrap_or r false) (username_taken ∷ []), record st { directory = d })

  unfoldable pub check_email : SubmitInviteForm → Attempt (Unit {0})
  unfolding email_exists
  check_email form st =
      let (r, d) = email_exists o.service st.config.ldap form.email st.directory in
      (reject (unwrap_or r false) (email_taken ∷ []), record st { directory = d })

  abbrev pub found_invite :
      Result (Option InviteRecord) SqlError → Result InviteRecord (List Problem)
  found_invite (ok (some r)) = ok r
  found_invite (ok none) = err (not_active ∷ [])
  found_invite (err e) = err (not_active ∷ [])

  unfoldable pub find_invite : Text → Attempt InviteRecord
  unfolding find_by_token_hash
  find_invite token_hash st =
      let (r, db) = find_by_token_hash token_hash st.db in (found_invite r, record st { db = db })

  abbrev pub provision_result : Result (Unit {0}) LldapError → Result (Unit {0}) (List Problem)
  provision_result (ok _) = ok tt
  provision_result (err e) = err (provision_problem e ∷ [])

  unfoldable pub provision : SubmitInviteForm → List Text → Attempt (Unit {0})
  unfolding provision_user
  provision form groups st =
      let (r, d) =
        provision_user o.service st.config.ldap form.username form.email form.first_name
          form.last_name form.password groups st.directory in
      (provision_result r, record st { directory = d })

  -- The invite is marked as used; if that fails, the account is deleted.
  unfoldable pub consume : Text → ℕ → SubmitInviteForm → Attempt (Unit {0})
  unfolding consume_invite delete_user_account
  consume token_hash now form st =
      let (r, db) = consume_invite token_hash (o.clock.print now) form.username st.db in
      if unwrap_or r false then (ok tt, record st { db = db }) else (
        err (not_marked ∷ []),
        record st {
          db = db;
          directory = (delete_user_account o.service st.config.ldap form.username st.directory).1;
        },
      )

  -- Once the invite's row is found.
  unfoldable pub accept_record : ℕ → ℕ → Text → SubmitInviteForm → InviteRecord → Attempt (Unit {0})
  unfolding invite_is_active provision consume
  accept_record checked_at used_at token_hash form r = do
    lift (reject (not (invite_is_active o.clock r checked_at)) (not_active ∷ []))
    groups ← lift (ok_or (o.json.parse r.groups_json) (not_processed ∷ []))
    provision form groups
    consume token_hash used_at form

  -- `submit_invite` with a code. `checked_at` and `used_at` are the two looks at the clock.
  unfoldable pub accept : ℕ → ℕ → Text → SubmitInviteForm → Attempt (Unit {0})
  unfolding check_fields check_username check_email find_invite accept_record
  accept checked_at used_at code form = do
    check_fields form
    check_username form
    check_email form
    r ← find_invite (o.crypto.sha256_hex code)
    accept_record checked_at used_at (o.crypto.sha256_hex code) form r

  abbrev answer : AppConfig → Text → SubmitInviteForm → Result (Unit {0}) (List Problem) → FormView
  answer config code form (ok _) =
      blank_form config [] (some (codes "Your account has been created."))
  answer config code form (err problems) = refilled_form config code form problems

  unfoldable pub submit_invite :
      ℕ → ℕ → Option (Option Text) → SubmitInviteForm → Step (AppState o) HttpError FormView
  unfolding accept trim
  submit_invite checked_at used_at none form st = (err bad_request, st)
  submit_invite checked_at used_at (some none) form st =
      (ok (refilled_form st.config [] form (missing_code ∷ [])), st)
  submit_invite checked_at used_at (some (some code)) form st =
      if is_empty (trim code)
      then (ok (refilled_form st.config [] form (missing_code ∷ [])), st)
      else (let (r, st') = accept checked_at used_at code form st in
          (ok (answer st.config code form r), st'))
