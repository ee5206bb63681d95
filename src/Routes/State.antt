-- ===== src/Routes/State.antt =====
-- The state that the handlers share, requests, and the code outside the repository.
use rust_invite_system.Common.{ℕ, Option, List, Text}
use rust_invite_system.Config.{AppConfig}
use rust_invite_system.Validation.{CharTables}
use rust_invite_system.Auth.{AdminAuth}
use rust_invite_system.Auth.Primitives.{Crypto}
use rust_invite_system.Invites.Schema.{Db}
use rust_invite_system.Lldap.Service.{Service}

-- chrono: a time is the number of nanoseconds after its first one, up to `latest`; `parse` reads
-- RFC 3339 and `print` is `to_rfc3339`.
pub record Clock : Type 0 where
  pub parse : Text → Option ℕ
  pub print : ℕ → Text
  pub latest : ℕ

-- serde_json for lists of texts.
pub record Json : Type 0 where
  pub parse : Text → Option (List Text)
  pub print : List Text → Text

pub record Outside : Type 1 where
  pub crypto : Crypto
  pub chars : CharTables
  pub clock : Clock
  pub json : Json
  pub service : Service

-- `AppState`, with the database behind `invites` and the directory behind `lldap`.
pub record AppState (o : Outside) : Type 0 where
  pub admin : AdminAuth
  pub config : AppConfig
  pub db : Db
  pub directory : o.service.Directory

-- What handlers read of a request: cookies and headers by name, those that are texts.
pub record Request : Type 0 where
  pub cookie : Text → Option Text
  pub header : Text → Option Text

-- The statuses 400, 401, 403 and 500; a handler that panics.
pub data HttpError : Type 0 where
  bad_request unauthorized forbidden internal panicked : HttpError
