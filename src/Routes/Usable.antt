-- ===== src/Routes/Usable.antt =====
-- When a sign-up succeeds.
use rust_invite_system.Common.{ℕ, ◌≡◌, refl, true, some, List, Text, codes, ok}
use rust_invite_system.Invites.Schema.{InviteRecord, Tables}
use rust_invite_system.Invites.Repository.{find_by_token_hash}
use rust_invite_system.Invites.Sql.{fails, later}
use rust_invite_system.Invites.Rows.{hash_of, find_by}
use rust_invite_system.Invites.Audit.{WellFormed}
use rust_invite_system.Invites.Lookup.{open_at, working, consume_invite_answer}
use rust_invite_system.Lldap.{ldap_settings}
use rust_invite_system.Lldap.Service.{GroupRecord, LdapSettings}
use rust_invite_system.Lldap.Client.{username_exists, email_exists}
use rust_invite_system.Lldap.Available.{
  IsAvailable, Listed, user_exists-absent, provision_user_succeeds,
}
use rust_invite_system.Steps.{Gives, Gives-bind}
use rust_invite_system.Routes.State.{Outside, AppState}
use rust_invite_system.Routes.Status.{invite_is_active}
use rust_invite_system.Routes.Signup.{
  SubmitInviteForm, field_problems, check_fields, check_username, check_email, find_invite,
  provision, consume, accept_record, accept,
}
use rust_invite_system.Routes.Passing.{ValidFields}

module _ (o : Outside) (v : IsAvailable o.service) where
  -- No request fails: the database works and has the tables, the directory server answers, and the
  -- certificates that the settings name are read.
  pub record IsServing (gs : List GroupRecord) (t : Tables) (st : AppState o) : Type 0 where
    pub db : st.db ≡ working t
    pub up : v.Up gs st.directory
    pub settings : LdapSettings
    pub read : ldap_settings o.service.ca_file st.config.ldap ≡ ok settings

  -- No account has the name or the address of the form.
  pub record IsNew (form : SubmitInviteForm) (st : AppState o) : Type 0 where
    pub name : v.Free (codes "id") form.username st.directory
    pub email : v.Free (codes "email") form.email st.directory

module _ (o : Outside) (v : IsAvailable o.service) (gs : List GroupRecord) (form : SubmitInviteForm)
    (t : Tables) where
  abbrev Ready : AppState o → Type 0
  Ready st = IsServing o v gs t st × IsNew o v form st

  check_fields-Gives :
      Gives (λ st. ValidFields o form st × Ready st) (check_fields o form) (λ _. Ready)
  unfolding check_fields field_problems
  check_fields-Gives st (f, ready) = rw (f.username, f.email, f.password) (tt, (refl, ready))

  -- A state with the directory after an answer, where what was free still is.
  answered-Ready :
      (st : AppState o) (d : o.service.Directory)
      → Ready st
      → v.Up gs d
      → ((field value : Text) → v.Free field value st.directory → v.Free field value d)
      → Ready (record st { directory = d })
  answered-Ready st d (serves, new) up frees = (
    record { db = serves.db; up = up; settings = serves.settings; read = serves.read },
    record {
      name = frees (codes "id") form.username new.name;
      email = frees (codes "email") form.email new.email;
    },
  )

  check_username-Gives : Gives Ready (check_username o form) (λ _. Ready)
  unfolding check_username username_exists
  check_username-Gives st (serves, new) =
      let (e, (up, frees)) =
        user_exists-absent o.service st.config.ldap v gs (codes "id") form.username st.directory
          serves.up new.name in
      (tt, (rw e refl, answered-Ready st _ (serves, new) up frees))

  check_email-Gives : Gives Ready (check_email o form) (λ _. Ready)
  unfolding check_email email_exists
  check_email-Gives st (serves, new) =
      let (e, (up, frees)) =
        user_exists-absent o.service st.config.ldap v gs (codes "email") form.email st.directory
          serves.up new.email in
      (tt, (rw e refl, answered-Ready st _ (serves, new) up frees))

  module _ (hash : Text) (row : InviteRecord) (found : find_by hash_of hash t.invites ≡ some row)
      (valid : WellFormed t) where
    find_invite-Gives : Gives Ready (find_invite o hash) (λ r st. (r ≡ row) × Ready st)
    unfolding find_invite find_by_token_hash fails later
    find_invite-Gives st (serves, new) = rw serves.db (
        rw found (
          row,
          (
            refl,
            (
              refl,
              (
                record {
                  db = refl;
                  up = serves.up;
                  settings = serves.settings;
                  read = serves.read;
                },
                record { name = new.name; email = new.email },
              ),
            ),
          ),
        ))

    provision-Gives :
        (names : List Text)
        → Listed gs names
        → Gives Ready (provision o form names) (λ _ st. st.db ≡ working t)
    unfolding provision
    provision-Gives names listed st (serves, new) =
        let e =
          provision_user_succeeds o.service st.config.ldap v gs serves.settings serves.read
            form.username form.email form.first_name form.last_name form.password names st.directory
            serves.up new.name new.email listed in
        (tt, (rw e refl, serves.db))

    consume-Gives :
        (used : ℕ)
        → open_at (o.clock.print used) row ≡ true
        → Gives (λ st. st.db ≡ working t) (consume o hash used form) (λ _ _. Unit {0})
    unfolding consume
    consume-Gives used usable st e =
        let (answer, _) = consume_invite_answer hash (o.clock.print used) form.username t valid in
        rw (e, answer, found, usable) (tt, (refl, tt))

    -- From well-formed tables, and while no request to the database or the directory server fails,
    -- a sign-up succeeds with valid fields, a name and an address that no account has, and a code
    -- whose invite lists groups of the directory and is active at the first look at the clock and,
    -- by the comparison of texts, at the second.
    pub accept_succeeds :
        (checked used : ℕ) (code : Text) (names : List Text) (st : AppState o)
        → o.crypto.sha256_hex code ≡ hash
        → IsServing o v gs t st
        → IsNew o v form st
        → ValidFields o form st
        → invite_is_active o.clock row checked ≡ true
        → open_at (o.clock.print used) row ≡ true
        → o.json.parse row.groups_json ≡ some names
        → Listed gs names
        → (accept o checked used code form st).0 ≡ ok tt
    unfolding accept accept_record
    accept_succeeds checked used code names st same serves new fields active usable parsed listed =
        let (_, (e, _)) =
          Gives-bind (λ s. ValidFields o form s × Ready s) (λ _. Ready) (λ _ _. Unit {0})
            (check_fields o form) _ check_fields-Gives
            (λ _.
              Gives-bind Ready (λ _. Ready) (λ _ _. Unit {0}) (check_username o form) _
                check_username-Gives
                (λ _.
                  Gives-bind Ready (λ _. Ready) (λ _ _. Unit {0}) (check_email o form) _
                    check_email-Gives
                    (λ _.
                      Gives-bind Ready (λ r s. (r ≡ row) × Ready s) (λ _ _. Unit {0})
                        (find_invite o hash) (accept_record o checked used hash form)
                        find_invite-Gives
                        (λ r s p.
                          rw (p.0, active, parsed)
                            (Gives-bind Ready (λ _ s'. s'.db ≡ working t) (λ _ _. Unit {0})
                              (provision o form names) _ (provision-Gives names listed)
                              (λ _. consume-Gives used usable) s p.1)))))
            st (fields, (serves, new)) in
        rw same e
