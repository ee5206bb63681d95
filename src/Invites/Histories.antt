-- ===== src/Invites/Histories.antt =====
-- Any sequence of calls of the repository, from any number of requests and the cleanup task, with
-- any of their requests to the database failing.
use rust_invite_system.Common.{refl, Option, List, [], ◌∷◌, Text, All}
use rust_invite_system.Invites.Schema.{Tables, Db}
use rust_invite_system.Invites.Repository.{
  create_invite, consume_invite, revoke_invite, cleanup_stale, new_row,
}
use rust_invite_system.Invites.Spec.{create_spec, consume_spec, revoke_spec, cleanup_spec}
use rust_invite_system.Invites.Atomicity.{
  Refines-keeps, create_invite-Refines, consume_invite-Refines, revoke_invite-Refines,
  cleanup_stale-Refines,
}
use rust_invite_system.Invites.Audit.{
  WellFormed, create-WellFormed, consume-WellFormed, revoke-WellFormed, cleanup-WellFormed,
}

-- The calls that write, with their arguments.
pub data Call : Type 0 where
  create : (id hash groups created_at expires_at : Text) → Option Text → Call
  consume : (hash at by : Text) → Call
  revoke : (id at : Text) → Call
  cleanup : (cutoff : Text) → Call

abbrev pub step : Call → Db → Db
step (create id hash groups created_at expires_at by) db =
    (create_invite id hash groups created_at expires_at by db).1
step (consume hash at by) db = (consume_invite hash at by db).1
step (revoke id at) db = (revoke_invite id at db).1
step (cleanup cutoff) db = (cleanup_stale cutoff db).1

abbrev pub run : List Call → Db → Db
run [] db = db
run (c ∷ cs) db = run cs (step c db)

-- The tables that the specification of a call gives.
abbrev pub step_spec : Call → Tables → Tables
step_spec (create id hash groups created_at expires_at by) t =
    (create_spec (new_row id hash groups created_at expires_at) by t).1
step_spec (consume hash at by) t = (consume_spec hash at by t).1
step_spec (revoke id at) t = (revoke_spec id at t).1
step_spec (cleanup cutoff) t = (cleanup_spec cutoff t).1

-- What the specification of a call keeps, the call keeps.
pub step-keeps :
    (P : Tables → Type 0) (c : Call) (db : Db)
    → P db.tables
    → P (step_spec c db.tables)
    → P (step c db).tables
step-keeps P (create id hash groups created_at expires_at by) db =
    Refines-keeps (create_invite-Refines id hash groups created_at expires_at by) P db
step-keeps P (consume hash at by) db = Refines-keeps (consume_invite-Refines hash at by) P db
step-keeps P (revoke id at) db = Refines-keeps (revoke_invite-Refines id at) P db
step-keeps P (cleanup cutoff) db = Refines-keeps (cleanup_stale-Refines cutoff) P db

-- A property of the tables that each admitted call keeps holds after every history of such calls.
pub run-keeps :
    (P : Tables → Type 0) (admitted : Call → Type 0)
    → ((c : Call) (t : Tables) → admitted c → P t → P (step_spec c t))
    → (cs : List Call) (db : Db) → All admitted cs
    → P db.tables
    → P (run cs db).tables
run-keeps P admitted keep [] db a p = p
run-keeps P admitted keep (c ∷ cs) db a p =
    run-keeps P admitted keep cs (step c db) a.1 (step-keeps P c db p (keep c db.tables a.0 p))

pub step_spec-WellFormed : (c : Call) (t : Tables) → WellFormed t → WellFormed (step_spec c t)
step_spec-WellFormed (create id hash groups created_at expires_at by) t v =
    create-WellFormed t v (new_row id hash groups created_at expires_at) by refl refl refl
step_spec-WellFormed (consume hash at by) t v = consume-WellFormed t v hash at by
step_spec-WellFormed (revoke id at) t v = revoke-WellFormed t v id at
step_spec-WellFormed (cleanup cutoff) t v = cleanup-WellFormed t v cutoff

abbrev AnyCall : Call → Type 0
AnyCall c = Unit

pub any_calls : (cs : List Call) → All AnyCall cs
any_calls [] = tt
any_calls (c ∷ cs) = (tt, any_calls cs)

-- From well-formed tables, every history of calls leads to well-formed tables, whichever requests
-- to the database fail: the identifiers and the token hashes are unique, no invite is both used and
-- revoked, an invite names a user exactly when it is used, the keys of the events grow, and of each
-- invite the log says, in this order, that it was created at its time, that it was used at its time
-- by its user if it is used, and that it was revoked at its time if it is revoked, and says nothing
-- if the invite is not in the table.
pub run-WellFormed :
    (cs : List Call) (db : Db) → WellFormed db.tables → WellFormed (run cs db).tables
run-WellFormed cs db =
    run-keeps WellFormed AnyCall (λ c t _ v. step_spec-WellFormed c t v) cs db (any_calls cs)
