-- ===== src/Routes/Managed.antt =====
-- What the administrator's routes do to the tables.
use rust_invite_system.Common.{
  any, ◌||◌, ℕ, ℤ, pos, negsuc, ◌+◌, ◌*◌, ◌≡◌, refl, sym, ◌∙◌, true, false, Option, none, some,
  ◌++◌, Text, codes, Result, ok, err, inl, inr, Bool-cases, Result-cases, is_empty, is_ok, ltb, ap,
  subst,
}
use rust_invite_system.Invites.Schema.{InviteRecord, Tables, Db, SqlError}
use rust_invite_system.Invites.Repository.{new_row, has_id, has_hash, create_invite}
use rust_invite_system.Invites.Spec.{create_spec}
use rust_invite_system.Invites.Atomicity.{create_invite-Refines, Refines-ok}
use rust_invite_system.Steps.{Post-always}
use rust_invite_system.Routes.State.{Outside, AppState, Request, HttpError}
use rust_invite_system.Routes.Guards.{require_admin_mutation}
use rust_invite_system.Routes.Manage.{
  GenerateInviteForm, RevokeInviteForm, GeneratedView, Draw, groups_of, hour, store_invite,
  with_hours, generate, generate_invite, revoke_invite_route,
}
use rust_invite_system.Routes.Apart.{guard-Keeps}
use rust_invite_system.Routes.Authorized.{IsAuthorized, require_admin_mutation_iff}

-- `create_invite` that failed has changed no table.
create_invite-failed :
    (id hash groups created_at expires_at : Text) (db : Db) (e : SqlError)
    → (create_invite id hash groups created_at expires_at none db).0 ≡ err e
    → (create_invite id hash groups created_at expires_at none db).1.tables ≡ db.tables
create_invite-failed id hash groups created_at expires_at db e h =
    let refines = create_invite-Refines id hash groups created_at expires_at none in
    elim (refines.atomic db) [
      | inl (_, same) ↦ same
      | inr (answer, tables) ↦
          tables
          ∙ create_spec-failed (new_row id hash groups created_at expires_at) db.tables e
              (sym answer ∙ h)
    ]
  where
    create_spec-failed :
        (row : InviteRecord) (t : Tables) (e : SqlError)
        → (create_spec row none t).0 ≡ err e
        → (create_spec row none t).1 ≡ t
    create_spec-failed row t e h =
        elim (Bool-cases
          (any (has_id row.id) t.invites || any (has_hash row.token_hash) t.invites)) [
            | inl b ↦ rw b refl
            | inr b ↦ let bad = rw b at h in cc
          ]

module _ (o : Outside) where
  guard-db :
      (rq : Request) (now : ℕ) (csrf : Text) (st : AppState o)
      → (require_admin_mutation o rq now csrf st).1.db ≡ st.db
  guard-db rq now csrf st =
      Post-always (λ s. s.db ≡ st.db) (require_admin_mutation o rq now csrf st).0
        (require_admin_mutation o rq now csrf st).1
        (guard-Keeps o (λ d _ _. d ≡ st.db) rq now csrf st refl)

  -- Without authorization, generating and revoking an invite fail, and leave the database as it
  -- was.
  pub unauthorized_changes_nothing :
      (guard_at now : ℕ) (draw : Draw) (rq : Request) (form : GenerateInviteForm)
      (revoke : RevokeInviteForm) (st : AppState o)
      → ¬ IsAuthorized o rq guard_at form.csrf st
      → ¬ IsAuthorized o rq guard_at revoke.csrf st
      → let generated = generate_invite o guard_at draw rq form st in
        let disabled = revoke_invite_route o guard_at now rq revoke st in
        ((is_ok generated.0 ≡ false) × (generated.1.db ≡ st.db))
        × ((is_ok disabled.0 ≡ false) × (disabled.1.db ≡ st.db))
  unfolding generate_invite revoke_invite_route
  unauthorized_changes_nothing guard_at now draw rq form revoke st a b = (
    elim (Result-cases (require_admin_mutation o rq guard_at form.csrf st).0) [
      | inl (u, e) ↦ elim (a ((require_admin_mutation_iff o rq guard_at form.csrf st).0 e)) [ ]
      | inr (x, e) ↦ rw (e, generate_invite) (refl, guard-db rq guard_at form.csrf st)
    ],
    elim (Result-cases (require_admin_mutation o rq guard_at revoke.csrf st).0) [
      | inl (u, e) ↦ elim (b ((require_admin_mutation_iff o rq guard_at revoke.csrf st).0 e)) [ ]
      | inr (x, e) ↦ rw (e, revoke_invite_route) (refl, guard-db rq guard_at revoke.csrf st)
    ],
  )

  abbrev pub drawn_row : Draw → GenerateInviteForm → ℕ → InviteRecord
  drawn_row draw form hours =
      new_row draw.id (o.crypto.sha256_hex draw.token) (o.json.print (groups_of form.groups))
        (o.clock.print draw.now) (o.clock.print (draw.now + hours * hour))

  -- What `generate_invite` did when it answered: it stored one invite and shows its link, or it
  -- shows none and changed no table.
  pub data Generated (draw : Draw) (form : GenerateInviteForm) (before : Tables)
      : GeneratedView → Tables → Type 0 where
    stored :
        {view : GeneratedView} {after : Tables} (hours : ℕ)
        → form.expiration_hours ≡ pos hours
        → ltb hours 1 ≡ false
        → is_empty (groups_of form.groups) ≡ false
        → is_ok (create_spec (drawn_row draw form hours) none before).0 ≡ true
        → after ≡ (create_spec (drawn_row draw form hours) none before).1
        → view.invite_url ≡ some (codes "/invite?code=" ++ draw.token)
        → Generated draw form before view after
    refused :
        {view : GeneratedView} {after : Tables}
        → view.invite_url ≡ none
        → after ≡ before
        → Generated draw form before view after

  url_of : Result GeneratedView HttpError → Option Text
  url_of (ok view) = view.invite_url
  url_of (err e) = none

  store_invite-Generated :
      (draw : Draw) (form : GenerateInviteForm) (hours : ℕ) (st : AppState o) (view : GeneratedView)
      → form.expiration_hours ≡ pos hours
      → ltb hours 1 ≡ false
      → is_empty (groups_of form.groups) ≡ false
      → (store_invite o draw (groups_of form.groups) hours st).0 ≡ ok view
      → Generated draw form st.db.tables view
          (store_invite o draw (groups_of form.groups) hours st).1.db.tables
  unfolding store_invite url_of
  store_invite-Generated draw form hours st view same positive named h =
      let row = drawn_row draw form hours in
      let made =
        create_invite row.id row.token_hash row.groups_json row.created_at row.expires_at none
          st.db in
      elim (Bool-cases (ltb o.clock.latest (draw.now + hours * hour))) [
        | inl e ↦ let bad = rw e at h in cc
        | inr e ↦ elim (Result-cases made.0) [
          | inl (r, e') ↦
              let (answer, tables) =
                Refines-ok
                  (create_invite-Refines row.id row.token_hash row.groups_json row.created_at
                    row.expires_at none)
                  st.db e' in
              let shown = rw (e, e') at h in
              rw e (
                stored hours same positive named (ap is_ok answer) tables
                  (sym (ap (λ x. url_of x) shown)))
          | inr (x, e') ↦
              let shown = rw (e, e') at h in
              rw e (
                refused (sym (ap (λ x. url_of x) shown)) (
                  create_invite-failed row.id row.token_hash row.groups_json row.created_at
                    row.expires_at st.db x e'))
        ]
      ]

  generate-Generated :
      (draw : Draw) (form : GenerateInviteForm) (st : AppState o) (view : GeneratedView)
      → (generate o draw form st).0 ≡ ok view
      → Generated draw form st.db.tables view (generate o draw form st).1.db.tables
  unfolding generate with_hours url_of
  generate-Generated draw form st view h = elim (Bool-cases (is_empty (groups_of form.groups))) [
    | inl e ↦ rw (e, generate) (refused (sym (ap (λ x. url_of x) (rw (e, generate) at h))) refl)
    | inr e ↦ rw (e, generate) (timed form.expiration_hours refl e (rw (e, generate) at h))
  ]
    where
      timed :
          (z : ℤ)
          → form.expiration_hours ≡ z
          → is_empty (groups_of form.groups) ≡ false
          → (with_hours o draw (groups_of form.groups) z st).0 ≡ ok view
          → Generated draw form st.db.tables view
              (with_hours o draw (groups_of form.groups) z st).1.db.tables
      timed (negsuc n) same named h = refused (sym (ap (λ x. url_of x) h)) refl
      timed (pos n) same named h = elim (Bool-cases (ltb n 1)) [
        | inl e ↦ rw e (refused (sym (ap (λ x. url_of x) (rw e at h))) refl)
        | inr e ↦ rw e (store_invite-Generated draw form n st view same e named (rw e at h))
      ]

  -- `generate_invite` that answers was authorized, and either the form names a group and at least
  -- one hour, exactly the invite drawn was stored with its first event, to expire so many hours
  -- later, and its link is shown; or no link is shown and the tables are as they were, also where
  -- storing failed.
  pub generate_invite-Generated :
      (guard_at : ℕ) (draw : Draw) (rq : Request) (form : GenerateInviteForm) (st : AppState o)
      (view : GeneratedView)
      → (generate_invite o guard_at draw rq form st).0 ≡ ok view
      → IsAuthorized o rq guard_at form.csrf st
        × Generated draw form st.db.tables view
            (generate_invite o guard_at draw rq form st).1.db.tables
  unfolding generate_invite
  generate_invite-Generated guard_at draw rq form st view h =
      elim (Result-cases (require_admin_mutation o rq guard_at form.csrf st).0) [
        | inr (x, e) ↦ let bad = rw (e, generate_invite) at h in cc
        | inl (u, e) ↦
            let kept = guard-db rq guard_at form.csrf st in
            (
              (require_admin_mutation_iff o rq guard_at form.csrf st).0 e,
              subst
                  (λ t.
                    Generated draw form t view
                      (generate_invite o guard_at draw rq form st).1.db.tables)
                  (ap (λ d. d.tables) kept)
                  (rw (e, generate_invite)
                    (generate-Generated draw form
                      (require_admin_mutation o rq guard_at form.csrf st).1 view
                      (rw (e, generate_invite) at h))),
            )
      ]
