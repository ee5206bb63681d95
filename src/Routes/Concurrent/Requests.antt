-- ===== src/Routes/Concurrent/Requests.antt =====
-- `submit_invite` cut at every request to the directory server and the database.
use rust_invite_system.Common.{
  ℕ, Bool, true, false, not, List, [], ◌∷◌, Result, ok, err, ok_or, reject, unwrap_or, is_empty,
  Text, codes,
}
use rust_invite_system.Config.{AppConfig}
use rust_invite_system.Invites.Repository.{consume_invite}
use rust_invite_system.Lldap.{LldapError}
use rust_invite_system.Lldap.Requests.{
  user_exists_requests, provision_user_requests, delete_user_account_requests,
}
use rust_invite_system.Steps.{Step}
use rust_invite_system.Steps.Processes.{Process, done, ◌>>=◌, ◌>>◌, pure, atom, zoom}
use rust_invite_system.Routes.State.{Outside, AppState}
use rust_invite_system.Routes.Status.{invite_is_active}
use rust_invite_system.Routes.Signup.{
  SubmitInviteForm, Problem, username_taken, email_taken, not_active, not_processed, not_marked,
  field_problems, find_invite, provision_result,
}

module _ (o : Outside) where
  abbrev pub Requests : Type 0 → Type 0
  Requests A = Process (AppState o) (List Problem) A

  -- Requests to the directory server, and what is made of their result.
  abbrev pub on_directory :
      {A B : Type 0}
      → (Result A LldapError → Result B (List Problem))
      → Process o.service.Directory LldapError A
      → Requests B
  on_directory answer = zoom (λ st. st.directory) (λ st d. record st { directory = d }) answer

  -- A lookup that fails counts as not found.
  abbrev pub unless_found : Problem → Result Bool LldapError → Result (Unit {0}) (List Problem)
  unless_found problem r = reject (unwrap_or r false) (problem ∷ [])

  -- The settings do not change. `checked` and `used` are the looks at the clock.
  module _ (config : AppConfig) (form : SubmitInviteForm) where
    unfoldable pub check_username_requests : Requests (Unit {0})
    unfolding user_exists_requests
    check_username_requests =
        on_directory (unless_found username_taken)
          (user_exists_requests o.service config.ldap (codes "id") form.username)

    unfoldable pub check_email_requests : Requests (Unit {0})
    unfolding user_exists_requests
    check_email_requests =
        on_directory (unless_found email_taken)
          (user_exists_requests o.service config.ldap (codes "email") form.email)

    unfoldable pub provision_requests : List Text → Requests (Unit {0})
    unfolding provision_user_requests
    provision_requests groups = on_directory (provision_result o) (
        provision_user_requests o.service config.ldap form.username form.email form.first_name
          form.last_name form.password groups)

    -- The request of `consume_invite`, which is one transaction.
    unfoldable pub mark_used : Text → ℕ → Step (AppState o) (List Problem) Bool
    unfolding consume_invite
    mark_used token_hash used st =
        let (r, db) = consume_invite token_hash (o.clock.print used) form.username st.db in
        (ok (unwrap_or r false), record st { db = db })

    unfoldable pub consume_or_undo : Bool → Requests (Unit {0})
    unfolding delete_user_account_requests
    consume_or_undo true = pure tt
    consume_or_undo false =
        on_directory (λ _. err (not_marked ∷ []))
          (delete_user_account_requests o.service config.ldap form.username)

    unfoldable pub consume_requests : Text → ℕ → Requests (Unit {0})
    unfolding mark_used consume_or_undo
    consume_requests token_hash used = do
      marked ← atom (mark_used token_hash used)
      consume_or_undo marked

    unfoldable pub accept_requests : ℕ → ℕ → Text → Requests (Unit {0})
    unfolding field_problems check_username_requests check_email_requests find_invite
        invite_is_active provision_requests consume_requests
    accept_requests checked used code = do
      done (
          reject (not (is_empty (field_problems o config.password_policy form)))
            (field_problems o config.password_policy form))
      check_username_requests
      check_email_requests
      r ← atom (find_invite o (o.crypto.sha256_hex code))
      done (reject (not (invite_is_active o.clock r checked)) (not_active ∷ []))
      groups ← done (ok_or (o.json.parse r.groups_json) (not_processed ∷ []))
      provision_requests groups
      consume_requests (o.crypto.sha256_hex code) used
