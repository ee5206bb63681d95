-- ===== src/Invites/Tests.antt =====
-- The tests of src/invite_storage.rs, and the theorems at concrete inputs.
use rust_invite_system.Common.{
  ℕ, ◌≡◌, ◌≢◌, refl, true, false, none, some, List, [], ◌∷◌, Result, ok, err, Text, codes, text_eq,
  text_ltb, map,
}
use rust_invite_system.Invites.Schema.{InviteRecord, no_rows, SqlError, constraint, failure, Db}
use rust_invite_system.Invites.Sql.{fails, later}
use rust_invite_system.Invites.Repository.{
  create_invite, update, find_by_token_hash, consume_invite, history, list_recent, revoke_invite,
  cleanup_stale, new_row,
}
use rust_invite_system.Invites.Rows.{id_of, find_by}
use rust_invite_system.Invites.Spec.{create_spec, consume_spec, revoke_spec, cleanup_spec}
use rust_invite_system.Invites.Atomicity.{operations-Refine, Refines}
use rust_invite_system.Invites.Audit.{WellFormed, no_rows-WellFormed}
use rust_invite_system.Invites.Histories.{
  Call, create, consume, revoke, cleanup, run, run-WellFormed,
}
use rust_invite_system.Invites.SingleUse.{consume_invite_once}
use rust_invite_system.Invites.Revocation.{revoke_invite_bars}
use rust_invite_system.Invites.Retention.{Retained, cleanup_stale-Retained}
use rust_invite_system.Invites.Lookup.{
  ConsumeAnswers, RevokeAnswers, HistoryAnswers, repository_answers, working,
}

repository : Unit {0}
unfolding create_invite find_by_token_hash consume_invite history list_recent revoke_invite
    cleanup_stale update fails later text_eq text_ltb
repository = tt

abbrev first_hash : Text
first_hash = codes "hash-1"

abbrev setup : List Call
setup =
    create (codes "invite-1") first_hash (codes "[]") (codes "2026-09-12T10")
      (codes "2026-09-14T10") (some (codes "admin"))
    ∷ create (codes "invite-2") (codes "hash-2") (codes "[]") (codes "2026-09-12T11")
        (codes "2026-09-13T10") none
    ∷ []

abbrev empty_db : Db
empty_db = working no_rows

abbrev db : Db
db = run setup empty_db

db-WellFormed : WellFormed db.tables
db-WellFormed = run-WellFormed setup empty_db no_rows-WellFormed

consume_tests :
    ((consume_invite first_hash (codes "2026-09-12T11") (codes "new-user") db).0 ≡ ok true)
    × ((consume_invite first_hash (codes "2026-09-14T10") (codes "late") db).0 ≡ ok false)
    × ((consume_invite (codes "hash-3") (codes "2026-09-12T11") (codes "new-user") db).0 ≡ ok false)
    × ((consume_invite first_hash
          (codes "2026-09-12T11")
          (codes "new-user")
          (record db { faults = false ∷ false ∷ true ∷ [] })).0
        ≡ err failure)
unfolding repository
consume_tests = (refl, refl, refl, refl)

create_taken :
    (create_invite (codes "invite-3") first_hash (codes "[]") (codes "a") (codes "b") none db).0
    ≡ err constraint
unfolding repository
create_taken = refl

-- The ids of a list of rows.
abbrev ids : Result (List InviteRecord) SqlError → List Text
ids (ok rs) = map (λ r. r.id) rs
ids (err e) = []

-- Newest first.
recent_test : ids (list_recent 20 db).0 ≡ codes "invite-2" ∷ codes "invite-1" ∷ []
unfolding repository
recent_test = refl

revoke_test : (revoke_invite (codes "invite-2") (codes "2026-09-12T12") db).0 ≡ ok true
unfolding repository
revoke_test = refl

cleanup_test : (cleanup_stale (codes "2026-09-14T00") db).0 ≡ ok 1
unfolding repository
cleanup_test = refl

operations-Refine_example :
    Refines
      (create_invite (codes "i") first_hash (codes "[]") (codes "a") (codes "b") none)
      (create_spec (new_row (codes "i") first_hash (codes "[]") (codes "a") (codes "b")) none)
    × Refines
        (consume_invite first_hash (codes "2026-09-12T11") (codes "new-user"))
        (consume_spec first_hash (codes "2026-09-12T11") (codes "new-user"))
    × Refines
        (revoke_invite (codes "i") (codes "2026-09-12T11"))
        (revoke_spec (codes "i") (codes "2026-09-12T11"))
    × Refines (cleanup_stale (codes "2026-09-14T00")) (cleanup_spec (codes "2026-09-14T00"))
operations-Refine_example =
    operations-Refine (codes "i") first_hash (codes "[]") (codes "a") (codes "b")
      (codes "2026-09-12T11") (codes "new-user") (codes "2026-09-14T00") none

run-WellFormed_example : WellFormed (run setup empty_db).tables
run-WellFormed_example = run-WellFormed setup empty_db no_rows-WellFormed

-- Between the two uses the invite is revoked, without effect, and the stale ones are removed.
abbrev between : List Call
between = revoke (codes "invite-1") (codes "2026-09-12T12") ∷ cleanup (codes "2027") ∷ []

consume_invite_once_example :
    (consume_invite first_hash
      (codes "2026-09-12T13")
      (codes "other")
      (run between (consume_invite first_hash (codes "2026-09-12T11") (codes "new-user") db).1)).0
    ≢ ok true
consume_invite_once_example =
    consume_invite_once first_hash (codes "2026-09-12T11") (codes "new-user") db db-WellFormed
      consume_tests.0 between (codes "2026-09-12T13") (codes "other")

abbrev second_row : InviteRecord
second_row =
    new_row (codes "invite-2") (codes "hash-2") (codes "[]") (codes "2026-09-12T11")
      (codes "2026-09-13T10")

second_found : find_by id_of (codes "invite-2") db.tables.invites ≡ some second_row
unfolding repository
second_found = refl

revoke_invite_bars_example :
    (consume_invite (codes "hash-2") (codes "2026-09-12T13") (codes "other") (
      run
        (consume first_hash (codes "2026-09-12T11") (codes "new-user") ∷ [])
        (revoke_invite (codes "invite-2") (codes "2026-09-12T12") db).1)).0
    ≢ ok true
revoke_invite_bars_example =
    revoke_invite_bars (codes "invite-2") (codes "2026-09-12T12") db second_row db-WellFormed
      second_found revoke_test (consume first_hash (codes "2026-09-12T11") (codes "new-user") ∷ [])
      (tt, tt) (codes "2026-09-12T13") (codes "other")

cleanup_stale-Retained_example :
    Retained
      (codes "2026-09-14T00")
      (codes "invite-1")
      db.tables
      (cleanup_stale (codes "2026-09-14T00") db).1.tables
    × ◌≡◌ {A = ℕ} 1 1
unfolding repository
cleanup_stale-Retained_example =
    cleanup_stale-Retained (codes "2026-09-14T00") (codes "invite-1") db 1 db-WellFormed
      cleanup_test

repository_answers_example :
    ConsumeAnswers first_hash (codes "2026-09-12T11") (codes "new-user") db.tables
    × RevokeAnswers (codes "invite-2") (codes "2026-09-12T11") db.tables
    × HistoryAnswers (codes "invite-2") db.tables
repository_answers_example =
    repository_answers first_hash (codes "invite-2") (codes "2026-09-12T11") (codes "new-user")
      db.tables db-WellFormed
