-- ===== src/Routes/Concurrent/Owned.antt =====
-- Which account the requests of a sign-up may create and delete.
use rust_invite_system.Common.{
  ℕ, Bool, true, false, not, List, [], ◌∷◌, ◌≡◌, refl, Result, ok, err, ok_or, reject, is_empty,
  Text, codes,
}
use rust_invite_system.Config.{AppConfig}
use rust_invite_system.Lldap.{LldapError}
use rust_invite_system.Lldap.Directory.{IsDirectory, RefusesTaken}
use rust_invite_system.Lldap.Accounts.{There, Moves, Moves-unchanged}
use rust_invite_system.Steps.{Step}
use rust_invite_system.Lldap.Owned.{
  Made, user_exists-Careful, provision_user-Careful, delete_user_account-Careful,
}
use rust_invite_system.Lldap.Requests.{user_exists_requests}
use rust_invite_system.Steps.Processes.{Process, done, atom, ◌>>=◌}
use rust_invite_system.Steps.Owners.{
  Careful, Careful-weaken, Careful-bind, Careful-given, Careful-then, Careful-zoom, Then,
  Then-always,
}
use rust_invite_system.Routes.State.{Outside, AppState}
use rust_invite_system.Routes.Status.{invite_is_active}
use rust_invite_system.Routes.Signup.{
  SubmitInviteForm, Problem, username_taken, email_taken, not_active, not_processed, not_marked,
  field_problems, find_invite, provision_result,
}
use rust_invite_system.Routes.Concurrent.Reached.{Enrolled}
use rust_invite_system.Routes.Concurrent.Requests.{
  Requests, on_directory, unless_found, check_username_requests, check_email_requests,
  provision_requests, mark_used, consume_or_undo, consume_requests, accept_requests,
}

module _ (o : Outside) (i : IsDirectory o.service) where
  abbrev pub has_account : AppState o → Text → Bool
  has_account st = i.has_user st.directory

  module _ (config : AppConfig) (form : SubmitInviteForm) where
    abbrev Here : AppState o → Type 0
    Here = There has_account i.same form.username

    abbrev Moving : Bool → Bool → AppState o → AppState o → Type 0
    Moving = Moves has_account i.same form.username

    abbrev Owns :
        {A : Type 0} → (Bool → Result A (List Problem) → Type 0) → Bool → Requests o A → Type 0
    Owns = Careful Here Moving

    directory-Moves :
        (b b' : Bool) (st : AppState o) (d : o.service.Directory)
        → Moves i.has_user i.same form.username b b' st.directory d
        → Moving b b' st (record st { directory = d })
    directory-Moves false false st d m = m
    directory-Moves false true st d m = m
    directory-Moves true false st d m = m
    directory-Moves true true st d m = m

    on_directory-Careful :
        {A B : Type 0} (answer : Result A LldapError → Result B (List Problem))
        (Q : Bool → Result B (List Problem) → Type 0) (owner : Bool)
        (p : Process o.service.Directory LldapError A)
        → Careful
            (There i.has_user i.same form.username)
            (Moves i.has_user i.same form.username)
            (λ b r. Q b (answer r))
            owner
            p
        → Owns Q owner (on_directory o answer p)
    on_directory-Careful answer Q owner p h =
        Careful-zoom (There i.has_user i.same form.username) (Moves i.has_user i.same form.username)
          Here Moving (λ x. x.directory) (λ x d. record x { directory = d }) answer Q
          (λ x there. there) directory-Moves owner p h

    -- A request to the database, and what follows.
    kept_then :
        {A B : Type 0} (Q : Bool → Result B (List Problem) → Type 0) (owner : Bool)
        (f : A → Requests o B)
        → ((a : A) → Owns Q owner (f a))
        → ((e : List Problem) → Q owner (err e))
        → (m : Step (AppState o) (List Problem) A)
        → ((st : AppState o) (v : Text) → has_account (m st).1 v ≡ has_account st v)
        → Owns Q owner (atom m >>= f)
    kept_then Q owner f rest fails m keeps =
        Careful-then Here Moving Q owner f rest fails m (λ st there.
          Moves-unchanged has_account i.same form.username owner st (m st).1 (keeps st) there)

    -- A lookup, and what follows.
    looked_up :
        (problem : Problem) (field value : Text) (f : Unit {0} → Requests o (Unit {0}))
        → ((a : Unit {0}) → Owns Enrolled false (f a))
        → Owns Enrolled false (
            on_directory o
              (unless_found o problem)
              (user_exists_requests o.service config.ldap field value)
            >>= f)
    looked_up problem field value f rest = Careful-bind Here Moving Enrolled f false _ (
        on_directory-Careful (unless_found o problem) (Then Here Moving Enrolled f) false
          (user_exists_requests o.service config.ldap field value)
          (user_exists-Careful o.service config.ldap i form.username _ false field value (λ r.
            Then-always Here Moving Enrolled false f rest (λ e h. cc) (unless_found o problem r))))

    consume_or_undo-Careful :
        (marked : Bool) → Owns Enrolled true (consume_or_undo o config form marked)
    unfolding consume_or_undo
    consume_or_undo-Careful true = λ h. refl
    consume_or_undo-Careful false =
        on_directory-Careful (λ _. err (not_marked ∷ [])) Enrolled true _
          (delete_user_account-Careful o.service config.ldap i form.username _ (λ b r h. cc))

    consume-Careful :
        (hash : Text) (used : ℕ) → Owns Enrolled true (consume_requests o config form hash used)
    unfolding consume_requests mark_used
    consume-Careful hash used =
        kept_then Enrolled true _ consume_or_undo-Careful (λ e h. cc)
          (mark_used o config form hash used) (λ st v. refl)

    -- The requests of a sign-up create the account where it was not there, delete it only after that,
    -- and succeed only with the account still the sign-up's own.
    pub accept-Careful :
        RefusesTaken o.service i
        → (checked used : ℕ) (code : Text)
        → Owns Enrolled false (accept_requests o config form checked used code)
    unfolding accept_requests check_username_requests check_email_requests provision_requests
        find_invite
    accept-Careful taken checked used code =
        given _
          (λ _. looked_up username_taken (codes "id") form.username _ (λ _.
            looked_up email_taken (codes "email") form.email _ (λ _.
              kept_then Enrolled false _
                (λ r.
                  given _
                    (λ _.
                      given _
                        (λ groups. Careful-bind Here Moving Enrolled _ false _ (
                          on_directory-Careful (provision_result o) (Then Here Moving Enrolled _)
                            false _
                            (Careful-weaken (There i.has_user i.same form.username)
                              (Moves i.has_user i.same form.username) Made _ false _ ended
                              (provision_user-Careful o.service config.ldap i form.username taken
                                form.email form.first_name form.last_name form.password groups))))
                        (ok_or (o.json.parse r.groups_json) (not_processed ∷ [])))
                    (reject (not (invite_is_active o.clock r checked)) (not_active ∷ [])))
                (λ e h. cc) (find_invite o (o.crypto.sha256_hex code)) (λ st v. refl))))
          (reject (not (is_empty (field_problems o config.password_policy form)))
            (field_problems o config.password_policy form))
      where
        given :
            {A : Type 0} (f : A → Requests o (Unit {0}))
            → ((a : A) → Owns Enrolled false (f a))
            → (r : Result A (List Problem)) → Owns Enrolled false (done r >>= f)
        given f rest r = Careful-given Here Moving Enrolled false f rest (λ e h. cc) r

        ended :
            (b : Bool) (r : Result (Unit {0}) LldapError)
            → Made b r
            → Then Here Moving Enrolled
                (λ _. consume_requests o config form (o.crypto.sha256_hex code) used)
                b
                (provision_result o r)
        ended true (ok a) h = consume-Careful (o.crypto.sha256_hex code) used
        ended false (ok a) h = let bad = h refl in cc
        ended b (err e) h = λ bad. cc
