-- ===== src/Routes/Concurrent/Marking.antt =====
-- Which invite the requests of a sign-up mark as used.
use rust_invite_system.Common.{
  ℕ, Bool, true, false, not, List, [], ◌∷◌, ◌≡◌, refl, sym, ◌∙◌, subst, ◌⊎◌, inl, inr, Result, ok,
  err, ok_or, reject, is_empty, Text, unwrap_or,
}
use rust_invite_system.Config.{AppConfig}
use rust_invite_system.Invites.Schema.{Tables, SqlError, Db}
use rust_invite_system.Invites.Audit.{WellFormed}
use rust_invite_system.Invites.Repository.{consume_invite}
use rust_invite_system.Invites.Atomicity.{consume_invite-Refines, Refines-ok}
use rust_invite_system.Invites.Histories.{consume, step_spec-WellFormed, step-keeps}
use rust_invite_system.Invites.SingleUse.{
  Spent, Spent-step_spec, Spent-consume_spec, consume_spec-Spent,
}
use rust_invite_system.Lldap.{LldapError}
use rust_invite_system.Steps.Processes.{Process, done, call, zoom, ◌>>=◌}
use rust_invite_system.Steps.Owners.{
  Careful, Careful-bind, Careful-given, Careful-then, Then, Then-always,
}
use rust_invite_system.Steps.Families.{Sharing}
use rust_invite_system.Routes.State.{Outside, AppState}
use rust_invite_system.Routes.Status.{invite_is_active}
use rust_invite_system.Routes.Accounts.{find_by_token_hash-tables}
use rust_invite_system.Routes.Passing.{unwrap_or-true}
use rust_invite_system.Routes.Signup.{
  SubmitInviteForm, Problem, username_taken, email_taken, not_active, not_processed, not_marked,
  field_problems, find_invite, provision_result,
}
use rust_invite_system.Routes.Concurrent.Requests.{
  Requests, on_directory, unless_found, check_username_requests, check_email_requests,
  provision_requests, mark_used, consume_or_undo, consume_requests, accept_requests,
}
use rust_invite_system.Routes.Concurrent.Reached.{Enrolled}

-- The use of an invite, by its hash, by a user.
abbrev pub Use : Type 0
Use = Text × Text

abbrev By : Use → Tables → Type 0
By k t = Spent k.0 k.1 t

-- Tables stay well formed, and invites that were used stay so.
abbrev Evolves : Tables → Tables → Type 0
Evolves t t' = (WellFormed t → WellFormed t') × ((k : Use) → By k t → By k t')

-- The invite itself: who does not own it may mark it as used where it was not, and then owns it.
abbrev Marks : Use → Bool → Bool → Tables → Tables → Type 0
Marks k false true t t' = (¬ By k t) × (WellFormed t → By k t')
Marks k true true t t' = By k t'
Marks k b false t t' = Unit

module _ (o : Outside) where
  abbrev Used : Use → AppState o → Type 0
  Used k st = By k st.db.tables

  abbrev Moves : Use → Bool → Bool → AppState o → AppState o → Type 0
  Moves k b b' st st' = Evolves st.db.tables st'.db.tables × Marks k b b' st.db.tables st'.db.tables

  pub same_tables :
      (k : Use) (b : Bool) (st : AppState o) → (b ≡ true → Used k st) → Moves k b b st st
  same_tables k false st there = (((λ v. v), (λ x s. s)), tt)
  same_tables k true st there = (((λ v. v), (λ x s. s)), there refl)

  -- The use of an invite, by its hash and its user.
  abbrev pub using : Sharing (AppState o) Use
  using = record {
    Valid = λ st. WellFormed st.db.tables;
    Holds = Used;
    Same = λ h h'. h ≡ h';
    Moves = Moves;
    forth = λ h h' st e s. subst (λ x. Used x st) e s;
    back = λ h h' st e s. subst (λ x. Used x st) (sym e) s;
    valid = λ h b b' st st' m v. m.0.0 v;
    gains = λ h b st st' m. gains b h st st' m;
    has_own = λ h b st st' v m. has_own b h st st' v m;
    stays = λ h h' b b' st st' m other s. m.0.1 h' s;
    idle = λ h b st there. same_tables h b st there;
  }
    where
      gains :
          (b : Bool) (h : Use) (st st' : AppState o)
          → Moves h b true st st'
          → (b ≡ true) ⊎ (¬ Used h st)
      gains true h st st' m = inl refl
      gains false h st st' m = inr m.1.0

      has_own :
          (b : Bool) (h : Use) (st st' : AppState o)
          → WellFormed st.db.tables
          → Moves h b true st st'
          → Used h st'
      has_own true h st st' v m = m.1
      has_own false h st st' v m = m.1.1 v

  module _ (k : Use) where
    abbrev Uses :
        {A : Type 0} → (Bool → Result A (List Problem) → Type 0) → Bool → Requests o A → Type 0
    Uses = Careful (Used k) (Moves k)

    -- Requests to the directory use no invite.
    on_directory-Careful :
        {A B : Type 0} (answer : Result A LldapError → Result B (List Problem))
        (Q : Bool → Result B (List Problem) → Type 0) (owner : Bool)
        (p : Process o.service.Directory LldapError A)
        → ((r : Result A LldapError) → Q owner (answer r))
        → Uses Q owner (on_directory o answer p)
    unfolding zoom
    on_directory-Careful answer Q owner (done r) q = q r
    on_directory-Careful answer Q owner (call next after) q = λ st there. (
      owner,
      same_tables k owner st there,
      on_directory-Careful answer Q owner (next st.directory) q,
    )

    on_directory_then :
        {A : Type 0} (answer : Result A LldapError → Result (Unit {0}) (List Problem))
        (p : Process o.service.Directory LldapError A) (f : Unit {0} → Requests o (Unit {0}))
        → ((a : Unit {0}) → Uses Enrolled false (f a))
        → Uses Enrolled false (on_directory o answer p >>= f)
    on_directory_then answer p f rest = Careful-bind (Used k) (Moves k) Enrolled f false _ (
        on_directory-Careful answer (Then (Used k) (Moves k) Enrolled f) false p
          (λ r. Then-always (Used k) (Moves k) Enrolled false f rest (λ e h. cc) (answer r)))

  module _ (config : AppConfig) (form : SubmitInviteForm) (hash : Text) where
    abbrev mine : Use
    mine = (hash, form.username)

    after_marking : (b : Bool) → Uses mine Enrolled b (consume_or_undo o config form b)
    unfolding consume_or_undo
    after_marking true = λ h. refl
    after_marking false =
        on_directory-Careful mine (λ _. err (not_marked ∷ [])) Enrolled false _ (λ r h. cc)

    module _ (used : ℕ) (st : AppState o) where
      abbrev at : Text
      at = o.clock.print used

      abbrev out : Result Bool SqlError × Db
      out = consume_invite hash at form.username st.db

      marking-Evolves : Evolves st.db.tables out.1.tables
      marking-Evolves =
          let c = consume hash at form.username in
          (
            (λ v. step-keeps WellFormed c st.db v (step_spec-WellFormed c st.db.tables v)),
            (λ k s. step-keeps (By k) c st.db s (Spent-step_spec k.0 k.1 c st.db.tables s)),
          )

      -- The request answers whether it is this sign-up that used the invite.
      marking-Marks :
          (b : Bool) → unwrap_or out.0 false ≡ b → Marks mine false b st.db.tables out.1.tables
      marking-Marks false e = tt
      marking-Marks true e =
          let (answer, tables) =
            Refines-ok (consume_invite-Refines hash at form.username) st.db
              (unwrap_or-true o form out.0 e) in
          (
            (λ spent.
                let barred =
                  Spent-consume_spec hash form.username at form.username st.db.tables spent in
                let bad : ok false ≡ ok true = sym barred ∙ answer in cc),
            (λ v.
                subst (By mine) (sym tables)
                  (consume_spec-Spent hash at form.username st.db.tables v answer)),
          )

    consume-Careful :
        (used : ℕ) → Uses mine Enrolled false (consume_requests o config form hash used)
    unfolding consume_requests mark_used
    consume-Careful used = Careful-bind (Used mine) (Moves mine) Enrolled _ false _ λ st there.
        let b = unwrap_or (consume_invite hash (o.clock.print used) form.username st.db).0 false in
        (b, (marking-Evolves used st, marking-Marks used st b refl), after_marking b)

  -- The requests of a sign-up mark the code's invite for the form's user, and no other, and succeed only if they did.
  module _ (config : AppConfig) (form : SubmitInviteForm) (checked used : ℕ) (code : Text) where
    abbrev hash : Text
    hash = o.crypto.sha256_hex code

    abbrev own_use : Use
    own_use = (hash, form.username)

    given :
        {A : Type 0} (f : A → Requests o (Unit {0}))
        → ((a : A) → Uses own_use Enrolled false (f a))
        → (r : Result A (List Problem)) → Uses own_use Enrolled false (done r >>= f)
    given f rest r =
        Careful-given (Used own_use) (Moves own_use) Enrolled false f rest (λ e h. cc) r

    pub accept-Careful :
        Uses own_use Enrolled false (accept_requests o config form checked used code)
    unfolding accept_requests check_username_requests check_email_requests provision_requests
        find_invite
    accept-Careful =
        given _
          (λ _. on_directory_then own_use (unless_found o username_taken) _ _ λ _.
            on_directory_then own_use (unless_found o email_taken) _ _ λ _.
              Careful-then (Used own_use) (Moves own_use) Enrolled false _
                (λ r.
                  given _
                    (λ _.
                      given _
                        (λ groups.
                          on_directory_then own_use (provision_result o) _ _
                            (λ _. consume-Careful config form hash used))
                        (ok_or (o.json.parse r.groups_json) (not_processed ∷ [])))
                    (reject (not (invite_is_active o.clock r checked)) (not_active ∷ [])))
                (λ e h. cc) (find_invite o hash)
                (λ st there.
                  subst (λ t. Evolves st.db.tables t × Marks own_use false false st.db.tables t)
                    (sym (find_by_token_hash-tables hash st.db))
                    (same_tables own_use false st there)))
          (reject (not (is_empty (field_problems o config.password_policy form)))
            (field_problems o config.password_policy form))
