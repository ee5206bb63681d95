-- ===== src/Routes/Link.antt =====
-- The link that `generate_invite` shows can be used.
use rust_invite_system.Common.{
  ℕ, pos, ◌+◌, ◌*◌, ◌≡◌, refl, sym, ◌∙◌, true, none, some, [], List, Text, codes, ok, ap, subst,
  Bool-cases, inl, inr, any, text_eq_refl, is_ok, ltb,
}
use rust_invite_system.Config.{AppConfig}
use rust_invite_system.Invites.Schema.{InviteRecord, Tables, Db}
use rust_invite_system.Invites.Repository.{has_id, has_hash, create_invite}
use rust_invite_system.Invites.Spec.{create_spec}
use rust_invite_system.Invites.Rows.{hash_of, find_by, find_by-any, find_by-append}
use rust_invite_system.Invites.Atomicity.{create_invite-Refines}
use rust_invite_system.Invites.Audit.{WellFormed, create-WellFormed}
use rust_invite_system.Invites.Lookup.{working}
use rust_invite_system.Lldap.Service.{GroupRecord}
use rust_invite_system.Lldap.Available.{IsAvailable, Listed}
use rust_invite_system.Steps.{Post-always}
use rust_invite_system.Routes.State.{Outside, AppState, Request}
use rust_invite_system.Routes.Status.{invite_is_active, IsOrdered, open_at-invite_is_active}
use rust_invite_system.Routes.Signup.{SubmitInviteForm, accept}
use rust_invite_system.Routes.Passing.{ValidFields}
use rust_invite_system.Routes.Usable.{IsServing, IsNew, accept_succeeds}
use rust_invite_system.Routes.Manage.{
  GenerateInviteForm, GeneratedView, Draw, groups_of, hour, generate_invite,
}
use rust_invite_system.Routes.Apart.{generate_invite-Keeps}
use rust_invite_system.Routes.Managed.{
  drawn_row, Generated, stored, refused, generate_invite-Generated,
}

-- An invite that could be created is found by its hash.
create_spec-found :
    (row : InviteRecord) (t : Tables)
    → is_ok (create_spec row none t).0 ≡ true
    → find_by hash_of row.token_hash (create_spec row none t).1.invites ≡ some row
create_spec-found row t h = elim (Bool-cases (any (has_id row.id) t.invites)) [
  | inl e ↦ let bad = rw e at h in cc
  | inr e ↦ elim (Bool-cases (any (has_hash row.token_hash) t.invites)) [
    | inl e' ↦ let bad = rw (e, e') at h in cc
    | inr e' ↦
        let fresh = find_by-any hash_of row.token_hash t.invites e' in
        rw (e, e')
          (rw
            (find_by-append hash_of row.token_hash t.invites row fresh, text_eq_refl row.token_hash)
            refl)
  ]
]

create_invite-faults :
    (id hash groups created_at expires_at : Text) (db : Db)
    → db.faults ≡ []
    → (create_invite id hash groups created_at expires_at none db).1.faults ≡ []
create_invite-faults id hash groups created_at expires_at db h =
    let same : db ≡ working db.tables = ap (λ f. record db { faults = f }) h in
    let r = create_invite-Refines id hash groups created_at expires_at none in
    subst (λ x. (create_invite id hash groups created_at expires_at none x).1.faults ≡ [])
      (sym same) (ap (λ p. p.1.faults) (r.faultless db.tables))

module _ (o : Outside) where
  -- The database works, and has the settings and the directory as they were.
  abbrev Framed : AppConfig → o.service.Directory → Db → AppConfig → o.service.Directory → Type 0
  Framed c d db config directory = (db.faults ≡ []) × ((config ≡ c) × (directory ≡ d))

  generate_invite-Framed :
      (guard_at : ℕ) (draw : Draw) (rq : Request) (form : GenerateInviteForm) (st : AppState o)
      → st.db.faults ≡ []
      → let after = (generate_invite o guard_at draw rq form st).1 in
        Framed st.config st.directory after.db after.config after.directory
  generate_invite-Framed guard_at draw rq form st h =
      Post-always (λ s. Framed st.config st.directory s.db s.config s.directory)
        (generate_invite o guard_at draw rq form st).0 _
        (generate_invite-Keeps o (Framed st.config st.directory)
          (λ id hash groups created_at expires_at db config d f.
            (create_invite-faults id hash groups created_at expires_at db f.0, f.1))
          guard_at draw rq form st (h, (refl, refl)))

  module _ (v : IsAvailable o.service) (gs : List GroupRecord) {Printed : ℕ → Type 0}
      (law : IsOrdered o.clock Printed) (draw : Draw) (g : GenerateInviteForm) (hours : ℕ)
      (form : SubmitInviteForm) (checked used : ℕ) where
    abbrev expires : ℕ
    expires = draw.now + hours * hour

    abbrev groups : List Text
    groups = groups_of g.groups

    drawn_row-found :
        (t after : Tables) (view : GeneratedView)
        → Generated o draw g t view after
        → ¬ (view.invite_url ≡ none)
        → g.expiration_hours ≡ pos hours
        → WellFormed t
        → (find_by hash_of (o.crypto.sha256_hex draw.token) after.invites
            ≡ some (drawn_row o draw g hours))
          × WellFormed after
    drawn_row-found t after view (refused e _) shown same valid = absurd (shown e)
    drawn_row-found t after view (stored n same' _ _ made e _) shown same valid =
        let same_hours : n ≡ hours = cc in
        let row = drawn_row o draw g n in
        rw e (
          subst
              (λ k.
                find_by hash_of row.token_hash (create_spec row none t).1.invites
                ≡ some (drawn_row o draw g k))
              same_hours (create_spec-found row t made),
          create-WellFormed t valid row none refl refl refl,
        )

    -- From well-formed tables, and while no request to the database or the directory server fails,
    -- the link that `generate_invite` shows can be used at once: a sign-up with the code drawn,
    -- valid fields, and a name and an address that no account has succeeds, if both its looks at
    -- the clock come before the hours of the form have passed, the groups of the form are groups of
    -- the directory, lists of groups are read back the way they were written, and times are too and
    -- compare as texts the way they do as times.
    pub generated_link_works :
        (guard_at : ℕ) (rq : Request) (view : GeneratedView) (st : AppState o)
        → WellFormed st.db.tables
        → (generate_invite o guard_at draw rq g st).0 ≡ ok view
        → ¬ (view.invite_url ≡ none)
        → g.expiration_hours ≡ pos hours
        → IsServing o v gs st.db.tables st
        → IsNew o v form st
        → ValidFields o form st
        → o.json.parse (o.json.print groups) ≡ some groups
        → Listed gs groups
        → Printed used
        → Printed expires
        → ltb checked expires ≡ true
        → ltb used expires ≡ true
        → (accept o checked used draw.token form (generate_invite o guard_at draw rq g st).1).0
          ≡ ok tt
    unfolding invite_is_active
    generated_link_works guard_at rq view st valid made shown same serves new fields read listed
          printed printed' early early' =
        let after = (generate_invite o guard_at draw rq g st).1 in
        let (_, generated) = generate_invite-Generated o guard_at draw rq g st view made in
        let (found, valid') =
          drawn_row-found st.db.tables after.db.tables view generated shown same valid in
        let (faults, (config, directory)) =
          generate_invite-Framed guard_at draw rq g st (ap (λ d. d.faults) serves.db) in
        let row = drawn_row o draw g hours in
        let active : invite_is_active o.clock row used ≡ true =
          rw (law.parse_print expires printed') early' in
        accept_succeeds o v gs form after.db.tables (o.crypto.sha256_hex draw.token) row found
          valid' checked used draw.token groups after refl
          (record {
            db = ap (λ f. record after.db { faults = f }) faults;
            up = subst (v.Up gs) (sym directory) serves.up;
            settings = serves.settings;
            read = rw config serves.read;
          })
          (record {
            name = subst (v.Free (codes "id") form.username) (sym directory) new.name;
            email = subst (v.Free (codes "email") form.email) (sym directory) new.email;
          })
          (record {
            username = fields.username;
            email = fields.email;
            password = rw config fields.password;
          })
          (rw (law.parse_print expires printed') early)
          (open_at-invite_is_active o.clock law row used expires printed printed' refl ∙ active)
          read listed
