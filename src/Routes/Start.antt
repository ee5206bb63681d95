-- ===== src/Routes/Start.antt =====
-- src/app_state.rs: `AppState::initialize`.
use rust_invite_system.Common.{
  ℕ, ◌≡◌, inl, inr, true, not, ◌||◌, Option, none, some, Result, ok, err, ◌>>=◌, ◌>>◌, reject, Text,
  codes, text_eq, text_eq_iff, is_empty, Bool-cases, Option-cases, arith, if◌then◌else◌,
}
use rust_invite_system.Config.{AppConfig}
use rust_invite_system.Auth.{AdminAuth}
use rust_invite_system.Auth.Setup.{SetupError, with_username}
use rust_invite_system.Invites.Schema.{Db}
use rust_invite_system.Routes.State.{Outside, AppState}

-- What the crate for URLs finds in one: the scheme, and the origin as text.
pub record Url : Type 0 where
  pub scheme : Text
  pub origin : Text

-- Why the service does not start: the administrator's settings, "Admin origin must be an HTTPS
-- origin", the same "without a path", or the database.
pub data StartError : Type 0 where
  bad_admin : SetupError → StartError
  bad_origin bad_origin_path : StartError
  no_database : StartError

abbrev check_url : Text → Option Url → Result (Unit {0}) StartError
check_url origin none = err bad_origin
check_url origin (some url) =
    reject (not (text_eq url.scheme (codes "https")) || not (text_eq url.origin origin))
      bad_origin_path

unfoldable pub check_origin : (Text → Option Url) → AppConfig → Result (Unit {0}) StartError
unfolding text_eq
check_origin parse_url config =
    if is_empty config.admin.password_hash
    then ok tt
    else check_url config.admin.origin (parse_url config.admin.origin)

abbrev admin_or : Result AdminAuth SetupError → Result AdminAuth StartError
admin_or (ok a) = ok a
admin_or (err e) = err (bad_admin e)

abbrev connected : Option Db → Result Db StartError
connected none = err no_database
connected (some db) = ok db

module _ (o : Outside) where
  -- `opened` is the database once it is connected and migrated, `directory` the directory at start.
  unfoldable pub initialize :
      (Text → Option Url)
      → ℕ
      → Option Db
      → o.service.Directory
      → AppConfig
      → Result (AppState o) StartError
  unfolding with_username check_origin
  initialize parse_url now opened directory config = do
    admin ← admin_or (with_username o.crypto config.admin.username config.admin.password_hash now)
    check_origin parse_url config
    db ← connected opened
    ok (record { admin = admin; config = config; db = db; directory = directory })

  -- The administrator cannot sign in, or the origin is that of a URL by HTTPS, as it is written.
  pub data IsGuarded (parse_url : Text → Option Url) (config : AppConfig) : Type 0 where
    disabled : is_empty config.admin.password_hash ≡ true → IsGuarded parse_url config
    secure :
        (url : Url)
        → parse_url config.admin.origin ≡ some url
        → url.scheme ≡ codes "https"
        → url.origin ≡ config.admin.origin
        → IsGuarded parse_url config

  -- The service starts only with an administrator's origin by HTTPS, unless it has no password
  -- hash and so no one can sign in; it starts with the settings given and without a session.
  pub initialize-IsGuarded :
      (parse_url : Text → Option Url) (now : ℕ) (opened : Option Db)
      (directory : o.service.Directory) (config : AppConfig) (st : AppState o)
      → initialize parse_url now opened directory config ≡ ok st
      → IsGuarded parse_url config × (st.config ≡ config) × (st.admin.state.session ≡ none)
  unfolding initialize
  initialize-IsGuarded parse_url now opened directory config st h =
      (guarded, ground arith, ground arith)
    where
      guarded : IsGuarded parse_url config
      guarded = elim (Bool-cases (is_empty config.admin.password_hash)) [
        | inl e ↦ disabled e
        | inr e ↦ elim (Option-cases (parse_url config.admin.origin)) [
          | inl e' ↦ let bad : ⊥ = ground (arith, e, e') in elim bad [ ]
          | inr (url, e') ↦
              secure url e' ((text_eq_iff url.scheme (codes "https")).0 (ground (arith, e, e')))
                ((text_eq_iff url.origin config.admin.origin).0 (ground (arith, e, e')))
        ]
      ]
