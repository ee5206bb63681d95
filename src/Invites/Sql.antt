-- ===== src/Invites/Sql.antt =====
-- Statements and transactions as sqlx runs them on SQLite. A request can fail; a transaction that
-- is dropped before its commit has changed nothing. SQLite runs one writing transaction at a time,
-- so a transaction is one step.
use rust_invite_system.Common.{Bool, false, List, [], ◌∷◌, Result, ok, err, if◌then◌else◌}
use rust_invite_system.Steps.{Step}
use rust_invite_system.Invites.Schema.{Tables, Db, SqlError, failure}

abbrev pub Sql : Type 0 → Type 0
Sql A = Step Db SqlError A

unfoldable pub fails : List Bool → Bool
fails [] = false
fails (b ∷ bs) = b

unfoldable pub later : List Bool → List Bool
later [] = []
later (b ∷ bs) = bs

module _ {A : Type 0} where
  -- One request: it fails, or reads and writes the tables.
  abbrev pub statement : (Tables → Result A SqlError × Tables) → Sql A
  statement f db =
      if fails db.faults
      then (err failure, record db { faults = later db.faults })
      else (let (r, t) = f db.tables in (r, record { tables = t; faults = later db.faults }))

  -- A request that reads.
  abbrev pub query : (Tables → A) → Sql A
  query f = statement (λ t. (ok (f t), t))

-- How the body of a transaction ends when it does not fail.
pub data Finish (A : Type 0) : Type 0 where
  commit : A → Finish A
  rollback : A → Finish A

module _ {A : Type 0} where
  -- `before` are the tables at the start, which a rollback or a drop restores.
  abbrev pub finish : Tables → Result (Finish A) SqlError → Sql A
  finish before (err e) db = (err e, record db { tables = before })
  finish before (ok (rollback a)) db =
      statement (λ _. (ok a, before)) (record db { tables = before })
  finish before (ok (commit a)) db =
      if fails db.faults
      then (err failure, record { tables = before; faults = later db.faults })
      else (ok a, record db { faults = later db.faults })

  abbrev pub transaction : Sql (Finish A) → Sql A
  transaction body db =
      if fails db.faults
      then (err failure, record db { faults = later db.faults })
      else (let (r, db') = body (record db { faults = later db.faults }) in finish db.tables r db')
