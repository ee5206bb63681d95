-- ===== src/Routes/Concurrent/Uncut.antt =====
-- With nothing in between, the requests are those of `accept`.
use rust_invite_system.Common.{
  ℕ, Bool, true, false, not, List, [], ◌∷◌, ◌≡◌, refl, ◌∙◌, Result, ok, err, reject, unwrap_or,
  is_empty, Text, codes, Bool-cases, inl, inr,
}
use rust_invite_system.Config.{AppConfig}
use rust_invite_system.Invites.Repository.{consume_invite}
use rust_invite_system.Lldap.{LldapError}
use rust_invite_system.Lldap.Client.{delete_user_account, username_exists, email_exists}
use rust_invite_system.Lldap.Requests.{
  user_exists_requests, delete_user_account_requests, user_exists-Runs, provision_user-Runs,
  delete_user_account-Runs,
}
use rust_invite_system.Steps.Processes.{
  Process, done, atom, run, RunsFrom, atom-Runs, bind-RunsFrom, run-zoom,
}
use rust_invite_system.Routes.State.{Outside, AppState}
use rust_invite_system.Routes.Signup.{
  SubmitInviteForm, Problem, username_taken, email_taken, not_marked, field_problems, find_invite,
  provision_result, check_fields, check_username, check_email, provision, consume, accept_record,
  accept,
}
use rust_invite_system.Steps.{Step, ◌>>=◌, lift}
use rust_invite_system.Routes.Concurrent.Requests.{
  on_directory, unless_found, check_username_requests, check_email_requests, provision_requests,
  mark_used, consume_or_undo, consume_requests, accept_requests,
}

module _ (o : Outside) where
  module _ (config : AppConfig) (form : SubmitInviteForm) where
    abbrev At : AppState o → Type 0
    At st = st.config ≡ config

    on_directory-run :
        {A B : Type 0} (answer : Result A LldapError → Result B (List Problem))
        (p : Process o.service.Directory LldapError A) (st : AppState o)
        → run (on_directory o answer p) st
          ≡ (answer (run p st.directory).0, record st { directory = (run p st.directory).1 })
    on_directory-run answer p st =
        run-zoom (λ x. x.directory) (λ x d. record x { directory = d }) answer (λ x d e. refl)
          (λ x d. refl) (λ x. refl) p st

    check_username-Runs :
        RunsFrom At (check_username_requests o config form) (check_username o form)
    unfolding check_username check_username_requests username_exists
    check_username-Runs st at =
        on_directory-run (unless_found o username_taken)
          (user_exists_requests o.service config.ldap (codes "id") form.username) st
        ∙ rw (at, user_exists-Runs o.service config.ldap (codes "id") form.username st.directory)
            refl

    check_email-Runs : RunsFrom At (check_email_requests o config form) (check_email o form)
    unfolding check_email check_email_requests email_exists
    check_email-Runs st at =
        on_directory-run (unless_found o email_taken)
          (user_exists_requests o.service config.ldap (codes "email") form.email) st
        ∙ rw (at, user_exists-Runs o.service config.ldap (codes "email") form.email st.directory)
            refl

    provision-Runs :
        (groups : List Text)
        → RunsFrom At (provision_requests o config form groups) (provision o form groups)
    unfolding provision provision_requests
    provision-Runs groups st at =
        on_directory-run (provision_result o) _ st
        ∙ rw
            (
              at,
              provision_user-Runs o.service config.ldap form.username form.email form.first_name
                  form.last_name form.password groups st.directory,
            )
            refl

    -- What `consume` does after the request of `consume_invite`.
    undo_unless : Bool → Step (AppState o) (List Problem) (Unit {0})
    undo_unless true st = (ok tt, st)
    undo_unless false st = (
      err (not_marked ∷ []),
      record st {
        directory = (delete_user_account o.service st.config.ldap form.username st.directory).1;
      },
    )

    consume_or_undo-Runs :
        (marked : Bool) → RunsFrom At (consume_or_undo o config form marked) (undo_unless marked)
    unfolding consume_or_undo undo_unless run
    consume_or_undo-Runs true st at = refl
    consume_or_undo-Runs false st at =
        on_directory-run (λ _. err (not_marked ∷ []))
          (delete_user_account_requests o.service config.ldap form.username) st
        ∙ rw (at, delete_user_account-Runs o.service config.ldap form.username st.directory) refl

    consume-undo_unless :
        (hash : Text) (used : ℕ) (st : AppState o)
        → (mark_used o config form hash used >>= undo_unless) st ≡ consume o hash used form st
    unfolding consume mark_used undo_unless
    consume-undo_unless hash used st =
        elim (Bool-cases
          (unwrap_or (consume_invite hash (o.clock.print used) form.username st.db).0 false)) [
            | inl e ↦ rw e refl
            | inr e ↦ rw e refl
          ]

    consume-Runs :
        (hash : Text) (used : ℕ)
        → RunsFrom At (consume_requests o config form hash used) (consume o hash used form)
    unfolding consume_requests mark_used
    consume-Runs hash used st at =
        bind-RunsFrom At (atom (mark_used o config form hash used))
          (mark_used o config form hash used) (consume_or_undo o config form) undo_unless
          (λ s _. atom-Runs _ s) (λ s h. h) consume_or_undo-Runs st at
        ∙ consume-undo_unless hash used st

    check_fields-Runs :
        RunsFrom At
          (done (
            reject
              (not (is_empty (field_problems o config.password_policy form)))
              (field_problems o config.password_policy form)))
          (check_fields o form)
    unfolding check_fields run
    check_fields-Runs st at = rw at refl

    done-RunsFrom : {A : Type 0} (r : Result A (List Problem)) → RunsFrom At (done r) (lift r)
    unfolding run
    done-RunsFrom r s at = refl

    accept_requests-RunsFrom :
        (checked used : ℕ) (code : Text)
        → RunsFrom At
            (accept_requests o config form checked used code)
            (accept o checked used code form)
    unfolding accept accept_record accept_requests check_fields find_invite provision check_username
        check_email
    accept_requests-RunsFrom checked used code =
        bind-RunsFrom At (done _) (check_fields o form) _ _ check_fields-Runs (λ s at. at)
          λ _.
            bind-RunsFrom At (check_username_requests o config form) (check_username o form) _ _
              check_username-Runs (λ s at. at)
              λ _.
                bind-RunsFrom At (check_email_requests o config form) (check_email o form) _ _
                  check_email-Runs (λ s at. at)
                  λ _.
                    bind-RunsFrom At (atom (find_invite o (o.crypto.sha256_hex code)))
                      (find_invite o (o.crypto.sha256_hex code)) _ _ (λ s at. atom-Runs _ s)
                      (λ s at. at)
                      λ r.
                        bind-RunsFrom At (done _) (lift _) _ _ (done-RunsFrom _) (λ s at. at)
                          λ _.
                            bind-RunsFrom At (done _) (lift _) _ _ (done-RunsFrom _) (λ s at. at)
                              λ groups.
                                bind-RunsFrom At (provision_requests o config form groups)
                                  (provision o form groups) _ _ (provision-Runs groups) (λ s at. at)
                                  λ _. consume-Runs (o.crypto.sha256_hex code) used

  -- With nothing in between, the requests of a sign-up are those of `accept`, with the same answer and
  -- the same state after them.
  pub run-accept_requests :
      (checked used : ℕ) (code : Text) (form : SubmitInviteForm) (st : AppState o)
      → run (accept_requests o st.config form checked used code) st
        ≡ accept o checked used code form st
  run-accept_requests checked used code form st =
      accept_requests-RunsFrom st.config form checked used code st refl
