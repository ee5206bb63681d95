-- ===== src/Invites/Lookup.antt =====
-- When an invite can be used and revoked, and what that changes.
use rust_invite_system.Common.{
  ◌≡◌, refl, Bool, List, map, filter, text_eq, ◌&&◌, [], Text, text_eq_refl, text_ltb, ok, is_none,
  Option-cases, Bool-cases, inl, inr, if◌then◌else◌,
}
use rust_invite_system.Invites.Schema.{InviteRecord, InviteEvent, Tables, Db}
use rust_invite_system.Invites.Repository.{
  mark_consumed, consume_invite, mark_revoked, revoke_invite, history,
}
use rust_invite_system.Invites.Rows.{
  id_of, hash_of, find_by, map_some, find-keep_if, find_by-update, holds_in,
}
use rust_invite_system.Invites.Atomicity.{consume_invite-Refines, revoke_invite-Refines}
use rust_invite_system.Invites.Sql.{fails, later}
use rust_invite_system.Invites.Audit.{WellFormed}
use rust_invite_system.Invites.Log.{note, story, Ascending, Ascending-filter}

-- Neither used nor revoked, and not expired at a time.
abbrev pub open_at : Text → InviteRecord → Bool
open_at now r = is_none r.consumed_at && is_none r.revoked_at && text_ltb now r.expires_at

-- Neither used nor revoked.
abbrev pub unsettled : InviteRecord → Bool
unsettled r = is_none r.consumed_at && is_none r.revoked_at

-- No request to the database fails.
abbrev pub working : Tables → Db
working t = record { tables = t; faults = [] }

-- The row after an answer.
abbrev pub changed : Bool → (InviteRecord → InviteRecord) → InviteRecord → InviteRecord
changed b f r = if b then f r else r

-- The answer of `consume_invite` on a working database, and the token's row after it.
abbrev pub ConsumeAnswers : Text → Text → Text → Tables → Type 0
ConsumeAnswers hash at by t =
    let out = consume_invite hash at by (working t) in
    let o = find_by hash_of hash t.invites in
    (out.0 ≡ ok (holds_in (open_at at) o))
    × (find_by hash_of hash out.1.tables.invites
        ≡ map_some (λ r. changed (open_at at r) (mark_consumed at by) r) o)

-- The answer of `revoke_invite` on a working database, and the row with the identifier after it.
abbrev pub RevokeAnswers : Text → Text → Tables → Type 0
RevokeAnswers id at t =
    let out = revoke_invite id at (working t) in
    let o = find_by id_of id t.invites in
    (out.0 ≡ ok (holds_in unsettled o))
    × (find_by id_of id out.1.tables.invites
        ≡ map_some (λ r. changed (unsettled r) (mark_revoked at) r) o)

pub consume_invite_answer :
    (hash at by : Text) (t : Tables) → WellFormed t → ConsumeAnswers hash at by t
consume_invite_answer hash at by t v =
    let same = (consume_invite-Refines hash at by).faultless t in
    let seen = find-keep_if hash_of (open_at at) hash t.invites v.hashes in
    elim (Option-cases (find_by hash_of hash t.invites)) [
      | inl e ↦ rw (same, seen, e) (refl, e)
      | inr (r, e) ↦ elim (Bool-cases (open_at at r)) [
        | inl b ↦
            rw (same, seen, e, b)
              (
                refl,
                rw
                    (
                      find_by-update hash_of (mark_consumed at by) (λ x. refl) hash r.id t.invites,
                      e,
                      text_eq_refl r.id,
                    )
                    refl,
              )
        | inr b ↦ rw (same, seen, e, b) (refl, e)
      ]
    ]

revoke_invite_answer : (id at : Text) (t : Tables) → WellFormed t → RevokeAnswers id at t
revoke_invite_answer id at t v =
    let same = (revoke_invite-Refines id at).faultless t in
    let seen = find-keep_if id_of unsettled id t.invites v.ids in
    elim (Option-cases (find_by id_of id t.invites)) [
      | inl e ↦ rw (same, seen, e) (refl, e)
      | inr (r, e) ↦ elim (Bool-cases (unsettled r)) [
        | inl b ↦
            rw (same, seen, e, b)
              (
                refl,
                rw
                    (
                      find_by-update id_of (mark_revoked at) (λ x. refl) id r.id t.invites,
                      e,
                      text_eq_refl r.id,
                    )
                    refl,
              )
        | inr b ↦ rw (same, seen, e, b) (refl, e)
      ]
    ]

-- The answer of `history` on a working database: it is a list of events in the order of their keys,
-- which say what the row says, and the tables stay.
abbrev pub HistoryAnswers : Text → Tables → Type 0
HistoryAnswers id t =
    (es : List InviteEvent) × (history id (working t) ≡ (ok es, working t))
    × (map note es ≡ story (find_by id_of id t.invites))
    × Ascending 0 es t.next_event

history_answer : (id : Text) (t : Tables) → WellFormed t → HistoryAnswers id t
unfolding history fails later
history_answer id t v = (
  filter (λ e. text_eq e.invite_id id) t.events,
  refl,
  v.audited id,
  Ascending-filter (λ e. text_eq e.invite_id id) 0 t.next_event t.events v.sequence,
)

-- On a working database with well-formed tables `consume_invite` returns true exactly when the
-- token's invite is there and neither used nor revoked nor expired; then that invite is marked with
-- the time and the user, and otherwise it is as it was. `revoke_invite` returns true exactly when
-- the invite with the identifier is there and neither used nor revoked; then it is marked with the
-- time, and otherwise it is as it was. `history` returns, in the order of their keys, events that say
-- that the invite with the identifier was created at its time, and then, as the row has it, used at
-- its time by its user or revoked at its time, or no events where there is no such invite.
pub repository_answers :
    (hash id at by : Text) (t : Tables)
    → WellFormed t
    → ConsumeAnswers hash at by t × RevokeAnswers id at t × HistoryAnswers id t
repository_answers hash id at by t v =
    (consume_invite_answer hash at by t v, revoke_invite_answer id at t v, history_answer id t v)
