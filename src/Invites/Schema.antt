-- ===== src/Invites/Schema.antt =====
-- The rows of the two tables. The texts of `event_type` are the constructors of `EventType`.
use rust_invite_system.Common.{ℕ, Option, List, [], Text, Bool}

pub record InviteRecord : Type 0 where
  pub id : Text
  pub token_hash : Text
  pub groups_json : Text
  pub created_at : Text
  pub expires_at : Text
  pub consumed_at : Option Text
  pub consumed_by : Option Text
  pub revoked_at : Option Text

-- "created", "consumed" and "revoked"
pub data EventType : Type 0 where
  created consumed revoked : EventType

pub record InviteEvent : Type 0 where
  pub id : ℕ
  pub invite_id : Text
  pub event_type : EventType
  pub occurred_at : Text
  pub actor : Option Text
  pub metadata_json : Option Text

-- The database: both tables in the order of insertion, and the next key of `AUTOINCREMENT`.
pub record Tables : Type 0 where
  pub invites : List InviteRecord
  pub events : List InviteEvent
  pub next_event : ℕ

abbrev pub no_rows : Tables
no_rows = record { invites = []; events = []; next_event = 1 }

-- `sqlx::Error`: a violated constraint, a missing row of `fetch_one`, or any other failure.
pub data SqlError : Type 0 where
  constraint row_not_found failure : SqlError

-- The tables, and which of the coming requests to the database fail. Where the list has ended,
-- no request fails.
pub record Db : Type 0 where
  pub tables : Tables
  pub faults : List Bool
