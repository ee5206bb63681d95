-- ===== src/Invites/Spec.antt =====
-- What each operation of the repository promises, as one step on the tables: its answer, and the
-- tables after it.
use rust_invite_system.Common.{
  ℕ, suc, ◌-◌, Bool, true, false, not, ◌||◌, Option, none, some, [], ◌∷◌, ◌++◌, Text, Result, ok,
  err, any, filter, length, if◌then◌else◌,
}
use rust_invite_system.Invites.Schema.{
  InviteRecord, EventType, created, consumed, revoked, Tables, SqlError, constraint,
}
use rust_invite_system.Invites.Repository.{
  find, has_id, has_hash, update, consumable, mark_consumed, revocable, mark_revoked, stale,
  stale_id,
}

-- The tables with one more event.
abbrev pub logged : Text → EventType → Text → Option Text → Tables → Tables
logged invite_id event_type at actor t = record t {
  events =
      t.events
      ++ record {
        id = t.next_event;
        invite_id = invite_id;
        event_type = event_type;
        occurred_at = at;
        actor = actor;
        metadata_json = none;
      }
        ∷ [];
  next_event = suc t.next_event;
}

-- A new invite is added with its first event, if neither of its keys is taken.
abbrev pub create_spec : InviteRecord → Option Text → Tables → Result InviteRecord SqlError × Tables
create_spec row actor t =
    if any (has_id row.id) t.invites || any (has_hash row.token_hash) t.invites
    then (err constraint, t)
    else (
      ok row,
      logged row.id created row.created_at actor (record t { invites = t.invites ++ row ∷ [] }),
    )

abbrev pub consume_one : Text → Text → Option InviteRecord → Tables → Result Bool SqlError × Tables
consume_one at by none t = (ok false, t)
consume_one at by (some r) t = (
  ok true,
  logged r.id consumed at (some by)
      (record t { invites = update r.id (mark_consumed at by) t.invites }),
)

-- The invite of the token is marked and logged, if it is neither used nor revoked nor expired.
abbrev pub consume_spec : Text → Text → Text → Tables → Result Bool SqlError × Tables
consume_spec hash at by t = consume_one at by (find (consumable hash at) t.invites) t

abbrev pub revoke_one : Text → Option InviteRecord → Tables → Result Bool SqlError × Tables
revoke_one at none t = (ok false, t)
revoke_one at (some r) t = (
  ok true,
  logged r.id revoked at none (record t { invites = update r.id (mark_revoked at) t.invites }),
)

abbrev pub revoke_spec : Text → Text → Tables → Result Bool SqlError × Tables
revoke_spec id at t = revoke_one at (find (revocable id) t.invites) t

-- The stale invites go, and with them their events.
abbrev pub cleanup_spec : Text → Tables → Result ℕ SqlError × Tables
cleanup_spec cutoff t =
    let kept = filter (λ r. not (stale cutoff r)) t.invites in
    (
      ok (length t.invites - length kept),
      record t {
        invites = kept;
        events = filter (λ e. not (stale_id cutoff t.invites e.invite_id)) t.events;
      },
    )
