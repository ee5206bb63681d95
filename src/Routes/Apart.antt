-- ===== src/Routes/Apart.antt =====
-- What the guards and `generate_invite` keep of the state.
use rust_invite_system.Common.{
  ℕ, ℤ, pos, negsuc, ◌+◌, ◌*◌, Option, none, some, Text, inl, inr, Bool-cases, is_empty, ltb,
}
use rust_invite_system.Config.{AppConfig}
use rust_invite_system.Invites.Schema.{Db}
use rust_invite_system.Invites.Repository.{create_invite}
use rust_invite_system.Steps.{Post, Post-same, Keeps, Keeps-bind}
use rust_invite_system.Routes.State.{Outside, AppState, Request}
use rust_invite_system.Routes.Guards.{
  session_cookie, session_csrf, require_admin, require_origin, require_admin_mutation,
}
use rust_invite_system.Routes.Manage.{
  GenerateInviteForm, Draw, groups_of, hour, store_invite, with_hours, generate, generate_invite,
}

module _ (o : Outside) where
  -- A property of the state apart from the administrator's session.
  abbrev pub Apart : (Db → AppConfig → o.service.Directory → Type 0) → AppState o → Type 0
  Apart Q st = Q st.db st.config st.directory

  module _ (Q : Db → AppConfig → o.service.Directory → Type 0) where
    -- The guards change at most the administrator's session.
    pub require_admin-Keeps : (rq : Request) (now : ℕ) → Keeps (Apart Q) (require_admin o rq now)
    unfolding require_admin
    require_admin-Keeps rq now = by_cookie (rq.cookie session_cookie)
      where
        by_cookie : (cookie : Option Text) → Keeps (Apart Q) (session_csrf o now cookie)
        by_cookie none st h = h
        by_cookie (some token) st h = Post-same (Apart Q) _ _ h

    pub guard-Keeps :
        (rq : Request) (now : ℕ) (csrf : Text)
        → Keeps (Apart Q) (require_admin_mutation o rq now csrf)
    unfolding require_admin_mutation
    guard-Keeps rq now csrf =
        Keeps-bind (Apart Q) (require_admin o rq now) _ (require_admin-Keeps rq now) λ expected.
          Keeps-bind (Apart Q) (require_origin o rq) _ (λ st h. Post-same (Apart Q) _ st h)
            λ _ st h. Post-same (Apart Q) _ st h

    -- `generate_invite` stores an invite, or leaves the rest as it was.
    module _
        (creates : (id hash groups created_at expires_at : Text) (db : Db) (config : AppConfig)
            (d : o.service.Directory)
          → Q db config d
          → Q (create_invite id hash groups created_at expires_at none db).1 config d) where
      generate-Keeps :
          (draw : Draw) (form : GenerateInviteForm) → Keeps (Apart Q) (generate o draw form)
      unfolding generate with_hours store_invite
      generate-Keeps draw form st h = elim (Bool-cases (is_empty (groups_of form.groups))) [
        | inl e ↦ rw e h
        | inr e ↦ rw e (timed form.expiration_hours)
      ]
        where
          timed :
              (z : ℤ)
              → Post
                  (λ _. Apart Q)
                  (Apart Q)
                  (with_hours o draw (groups_of form.groups) z st).0
                  (with_hours o draw (groups_of form.groups) z st).1
          timed (negsuc n) = h
          timed (pos n) = elim (Bool-cases (ltb n 1)) [
            | inl e ↦ rw e h
            | inr e ↦ elim (Bool-cases (ltb o.clock.latest (draw.now + n * hour))) [
              | inl e' ↦ rw (e, e') h
              | inr e' ↦
                  rw (e, e')
                    (creates draw.id (o.crypto.sha256_hex draw.token)
                      (o.json.print (groups_of form.groups)) (o.clock.print draw.now)
                      (o.clock.print (draw.now + n * hour)) st.db st.config st.directory h)
            ]
          ]

      pub generate_invite-Keeps :
          (guard_at : ℕ) (draw : Draw) (rq : Request) (form : GenerateInviteForm)
          → Keeps (Apart Q) (generate_invite o guard_at draw rq form)
      unfolding generate_invite
      generate_invite-Keeps guard_at draw rq form =
          Keeps-bind (Apart Q) (require_admin_mutation o rq guard_at form.csrf) _
            (guard-Keeps rq guard_at form.csrf) λ _. generate-Keeps draw form
