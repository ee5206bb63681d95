-- ===== src/Invites/Repository.antt =====
-- The operations of `InviteRepository`. Times are texts, compared as texts.
use rust_invite_system.Common.{
  ℕ, suc, ◌-◌, Bool, true, false, not, ◌&&◌, ◌||◌, Option, none, some, List, [], ◌∷◌, ◌++◌, Text,
  text_eq, text_ltb, Result, ok, err, ok_or, length, take, any, filter, is_none, if◌then◌else◌,
}
use rust_invite_system.Invites.Schema.{
  InviteRecord, EventType, created, consumed, revoked, InviteEvent, Tables, SqlError, constraint,
  row_not_found,
}
use rust_invite_system.Steps.{◌>>=◌, ◌>>◌, pure}
use rust_invite_system.Invites.Sql.{Sql, statement, query, Finish, commit, rollback, transaction}

-- The first row that a `WHERE` accepts.
unfoldable pub find : (InviteRecord → Bool) → List InviteRecord → Option InviteRecord
find p [] = none
find p (r ∷ rs) = if p r then some r else find p rs

abbrev pub has_id : Text → InviteRecord → Bool
has_id id r = text_eq r.id id

abbrev pub has_hash : Text → InviteRecord → Bool
has_hash hash r = text_eq r.token_hash hash

-- `INSERT INTO invites`: both keys are unique.
abbrev pub insert_row : InviteRecord → Tables → Result (Unit {0}) SqlError × Tables
insert_row row t =
    if any (has_id row.id) t.invites || any (has_hash row.token_hash) t.invites
    then (err constraint, t)
    else (ok tt, record t { invites = t.invites ++ row ∷ [] })

-- `UPDATE invites SET … WHERE id = ?`
unfoldable pub update : Text → (InviteRecord → InviteRecord) → List InviteRecord → List InviteRecord
update id f [] = []
update id f (r ∷ rs) = (if has_id id r then f r else r) ∷ update id f rs

abbrev pub update_row :
    Text → (InviteRecord → InviteRecord) → Tables → Result (Unit {0}) SqlError × Tables
update_row id f t = (ok tt, record t { invites = update id f t.invites })

-- `insert_event`: the invite must be there, by the foreign key.
abbrev pub append_event :
    Text
    → EventType
    → Text
    → Option Text
    → Option Text
    → Tables
    → Result (Unit {0}) SqlError × Tables
append_event invite_id event_type occurred_at actor metadata_json t =
    if any (has_id invite_id) t.invites
    then (
      ok tt,
      record t {
        events =
            t.events
            ++ record {
              id = t.next_event;
              invite_id = invite_id;
              event_type = event_type;
              occurred_at = occurred_at;
              actor = actor;
              metadata_json = metadata_json;
            }
              ∷ [];
        next_event = suc t.next_event;
      },
    )
    else (err constraint, t)

unfoldable pub insert_event : Text → EventType → Text → Option Text → Option Text → Sql (Unit {0})
insert_event invite_id event_type occurred_at actor metadata_json =
    statement (append_event invite_id event_type occurred_at actor metadata_json)

abbrev pub new_row : Text → Text → Text → Text → Text → InviteRecord
new_row id token_hash groups_json created_at expires_at = record {
  id = id;
  token_hash = token_hash;
  groups_json = groups_json;
  created_at = created_at;
  expires_at = expires_at;
  consumed_at = none;
  consumed_by = none;
  revoked_at = none;
}

unfoldable pub create_invite : Text → Text → Text → Text → Text → Option Text → Sql InviteRecord
unfolding find insert_event
create_invite id token_hash groups_json created_at expires_at created_by = transaction (do
  statement (insert_row (new_row id token_hash groups_json created_at expires_at))
  insert_event id created created_at created_by none
  invite ← statement (λ t. (ok_or (find (has_id id) t.invites) row_not_found, t))
  pure (commit invite))

unfoldable pub find_by_token_hash : Text → Sql (Option InviteRecord)
unfolding find
find_by_token_hash token_hash = query (λ t. find (has_hash token_hash) t.invites)

-- The `WHERE` of `consume_invite`.
abbrev pub consumable : Text → Text → InviteRecord → Bool
consumable token_hash now r =
    text_eq r.token_hash token_hash
    && (is_none r.consumed_at && is_none r.revoked_at && text_ltb now r.expires_at)

abbrev pub mark_consumed : Text → Text → InviteRecord → InviteRecord
mark_consumed consumed_at consumed_by r = record r {
  consumed_at = some consumed_at;
  consumed_by = some consumed_by;
}

-- `let Some(invite) = invite else …` and what follows it in `consume_invite`.
unfoldable pub consume_found : Text → Text → Option InviteRecord → Sql (Finish Bool)
unfolding insert_event
consume_found consumed_at consumed_by none = pure (rollback false)
consume_found consumed_at consumed_by (some invite) = do
  statement (update_row invite.id (mark_consumed consumed_at consumed_by))
  insert_event invite.id consumed consumed_at (some consumed_by) none
  pure (commit true)

unfoldable pub consume_invite : Text → Text → Text → Sql Bool
unfolding consume_found find
consume_invite token_hash consumed_at consumed_by = transaction (do
  invite ← query (λ t. find (consumable token_hash consumed_at) t.invites)
  consume_found consumed_at consumed_by invite)

-- `ORDER BY id`: the events stand in the order of their keys (Invites/Audit shows it).
unfoldable pub history : Text → Sql (List InviteEvent)
history invite_id = query (λ t. filter (λ e. text_eq e.invite_id invite_id) t.events)

-- `ORDER BY created_at DESC`
unfoldable pub insert_newest : InviteRecord → List InviteRecord → List InviteRecord
insert_newest r [] = r ∷ []
insert_newest r (s ∷ rs) =
    if text_ltb r.created_at s.created_at then s ∷ insert_newest r rs else r ∷ s ∷ rs

unfoldable pub newest_first : List InviteRecord → List InviteRecord
unfolding insert_newest
newest_first [] = []
newest_first (r ∷ rs) = insert_newest r (newest_first rs)

unfoldable pub list_recent : ℕ → Sql (List InviteRecord)
unfolding newest_first
list_recent limit = query (λ t. take limit (newest_first t.invites))

-- The `WHERE` of `revoke_invite`.
abbrev pub revocable : Text → InviteRecord → Bool
revocable id r = text_eq r.id id && (is_none r.consumed_at && is_none r.revoked_at)

abbrev pub mark_revoked : Text → InviteRecord → InviteRecord
mark_revoked revoked_at r = record r { revoked_at = some revoked_at }

unfoldable pub revoke_found : Text → Option InviteRecord → Sql (Finish Bool)
unfolding insert_event
revoke_found revoked_at none = pure (rollback false)
revoke_found revoked_at (some invite) = do
  statement (update_row invite.id (mark_revoked revoked_at))
  insert_event invite.id revoked revoked_at none none
  pure (commit true)

unfoldable pub revoke_invite : Text → Text → Sql Bool
unfolding revoke_found find
revoke_invite id revoked_at =
    transaction
      (do invite ← query (λ t. find (revocable id) t.invites); revoke_found revoked_at invite)

abbrev pub before : Text → Option Text → Bool
before cutoff none = false
before cutoff (some time) = text_ltb time cutoff

-- The `WHERE` of both statements of `cleanup_stale`. A comparison with NULL does not hold.
unfoldable pub stale : Text → InviteRecord → Bool
stale cutoff r =
    before cutoff r.revoked_at
    || (is_none r.consumed_at && is_none r.revoked_at && text_ltb r.expires_at cutoff)

-- `invite_id IN (SELECT id …)`
abbrev pub stale_id : Text → List InviteRecord → Text → Bool
stale_id cutoff rows id = any (λ r. text_eq r.id id && stale cutoff r) rows

abbrev pub delete_events : Text → Tables → Result (Unit {0}) SqlError × Tables
delete_events cutoff t = (
  ok tt,
  record t { events = filter (λ e. not (stale_id cutoff t.invites e.invite_id)) t.events },
)

-- Returns `rows_affected`. The events of a deleted invite are gone already, so the cascade of the
-- foreign key finds none.
abbrev pub delete_invites : Text → Tables → Result ℕ SqlError × Tables
delete_invites cutoff t =
    let kept = filter (λ r. not (stale cutoff r)) t.invites in
    (ok (length t.invites - length kept), record t { invites = kept })

unfoldable pub cleanup_stale : Text → Sql ℕ
unfolding stale
cleanup_stale cutoff = transaction (do
  statement (delete_events cutoff)
  removed ← statement (delete_invites cutoff)
  pure (commit removed))
