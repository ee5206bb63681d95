-- ===== src/Routes/Dashboard.antt =====
-- Which invites the dashboard shows, and which the cleanup leaves.
use rust_invite_system.Common.{
  Bool-cases, ltb, ℕ, ◌-◌, ◌*◌, ◌≡◌, refl, sym, ◌∙◌, ap, true, false, some, List, [], map, Result,
  ok, err, Text, inl, inr, arith, unwrap_or, not,
}
use rust_invite_system.Invites.Schema.{InviteRecord}
use rust_invite_system.Invites.Repository.{list_recent, stale}
use rust_invite_system.Invites.Recent.{Recent, list_recent-Recent}
use rust_invite_system.Invites.Rows.{id_of, find_by, find_by-filter}
use rust_invite_system.Invites.Audit.{WellFormed}
use rust_invite_system.Invites.Atomicity.{cleanup_stale-Refines}
use rust_invite_system.Steps.{Post-always, bind_Passed}
use rust_invite_system.Routes.State.{Outside, AppState, Request, HttpError}
use rust_invite_system.Routes.Status.{invite_is_active, IsOrdered}
use rust_invite_system.Routes.Guards.{require_admin}
use rust_invite_system.Routes.Manage.{HistoryRow, history_row, Dashboard, admin, day, cleanup_round}
use rust_invite_system.Routes.Apart.{require_admin-Keeps}

module _ (o : Outside) where
  rows_of : List (HistoryRow o) → Result (Dashboard o) HttpError → List (HistoryRow o)
  rows_of rows (ok view) = view.rows
  rows_of rows (err e) = rows

  csrf_of : Text → Result (Dashboard o) HttpError → Text
  csrf_of text (ok view) = view.csrf
  csrf_of text (err e) = text

  -- The dashboard is shown to the owner of the session, with the session's text against forgery; on a
  -- working database its rows are those of the 20 newest invites, from the newest to the oldest, and
  -- fewer only if these are all.
  pub admin-Recent :
      (guard_at now : ℕ) (rq : Request) (st after : AppState o) (view : Dashboard o)
      → admin o guard_at now rq st ≡ (ok view, after)
      → st.db.faults ≡ []
      → ((require_admin o rq guard_at st).0 ≡ ok view.csrf)
        × (rows : List InviteRecord) × Recent 20 rows st.db.tables.invites
        × (view.rows ≡ map (history_row o now) rows)
  unfolding admin rows_of csrf_of
  admin-Recent guard_at now rq st after view h works =
      let p = bind_Passed (require_admin o rq guard_at) _ st after view h in
      let kept : p.between.db ≡ st.db =
        sym (ap (λ x. x.1.db) p.first)
        ∙ Post-always (λ s. s.db ≡ st.db) (require_admin o rq guard_at st).0
            (require_admin o rq guard_at st).1
            (require_admin-Keeps o (λ d _ _. d ≡ st.db) rq guard_at st refl) in
      let (rows, answer, recent) = list_recent-Recent 20 st.db works in
      let listed : (list_recent 20 p.between.db).0 ≡ ok rows = rw kept answer in
      let first = ap (λ x. x.0) p.rest in
      (
        ap (λ x. x.0) p.first ∙ ap ok (ap (csrf_of p.value) first),
        rows,
        recent,
        sym (ap (rows_of []) first) ∙ ap (λ r. map (history_row o now) (unwrap_or r [])) listed,
      )

  module _ {Printed : ℕ → Type 0} (law : IsOrdered o.clock Printed) (now expires : ℕ)
      (r : InviteRecord) (printed : Printed expires) (printed' : Printed (now - 120 * day))
      (e : r.expires_at ≡ o.clock.print expires) where
    active_kept :
        invite_is_active o.clock r now ≡ true → stale (o.clock.print (now - 120 * day)) r ≡ false
    unfolding invite_is_active stale
    active_kept active =
        let later = rw (e, law.parse_print expires printed) at active in
        rw (e, law.compare expires (now - 120 * day) printed printed') (ground arith)

    -- From well-formed tables, a round of the cleanup leaves every invite that a sign-up at its
    -- time would accept, whichever requests to the database fail, for an invite that expires at a
    -- printed time, where printed times are read back and compare as texts the way they do as
    -- times.
    pub cleanup_round_spares :
        (st : AppState o)
        → WellFormed st.db.tables
        → find_by id_of r.id st.db.tables.invites ≡ some r
        → invite_is_active o.clock r now ≡ true
        → find_by id_of r.id (cleanup_round o now st).db.tables.invites ≡ some r
    unfolding cleanup_round
    cleanup_round_spares st v found active =
        let cutoff = o.clock.print (now - 120 * day) in
        elim (Bool-cases (ltb now (120 * day))) [
          | inl early ↦ rw (early, cleanup_round) found
          | inr late ↦ elim ((cleanup_stale-Refines cutoff).atomic st.db) [
            | inl (_, same) ↦ rw (late, cleanup_round, same) found
            | inr (_, same) ↦
                rw (late, cleanup_round, same)
                  (rw
                    (
                      find_by-filter id_of (λ x. not (stale cutoff x)) r.id st.db.tables.invites
                          v.ids,
                      found,
                      active_kept active,
                    )
                    refl)
          ]
        ]
