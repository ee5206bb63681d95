-- ===== src/Config.antt =====
-- src/configuration.rs: the settings, their defaults, and their loading. What a file and the
-- environment say, and how one is laid over the other, is the work of the crate `config`.
use rust_invite_system.Common.{
  ℕ, ℤ, pos, Bool, true, false, Option, none, some, Result, ◌>>=◌, Text, codes,
}
use rust_invite_system.Validation.{PasswordPolicy, default_policy}

pub record AdminConfig : Type 0 where
  pub username : Text
  pub password_hash : Text
  pub origin : Text

abbrev pub default_admin : AdminConfig
default_admin = record { username = codes "admin"; password_hash = codes ""; origin = codes "" }

pub data Theme : Type 0 where
  light dark : Theme

abbrev pub css_class : Theme → Text
css_class light = codes "theme-light"
css_class dark = codes "theme-dark"

pub record AppearanceConfig : Type 0 where
  pub default_theme : Theme

abbrev pub default_appearance : AppearanceConfig
default_appearance = record { default_theme = light }

pub record LoggingConfig : Type 0 where
  pub message_field : Text

abbrev pub default_logging : LoggingConfig
default_logging = record { message_field = codes "msg" }

pub record DatabaseConfig : Type 0 where
  pub url : Text

abbrev pub default_database : DatabaseConfig
default_database = record { url = codes "sqlite://./data/invites.db" }

pub record ServerConfig : Type 0 where
  pub host : Text
  pub port : ℕ

abbrev pub default_server : ServerConfig
default_server = record { host = codes "127.0.0.1"; port = 8080 }

pub record LldapConfig : Type 0 where
  pub http_url : Text
  pub ldap_url : Text
  pub use_tls : Bool
  pub tls_insecure_skip_verify : Bool
  pub tls_ca_file : Option Text
  pub base_dn : Text
  pub username : Text
  pub password : Text

abbrev pub default_ldap : LldapConfig
default_ldap = record {
  http_url = codes "http://127.0.0.1:17170";
  ldap_url = codes "ldap://127.0.0.1:3890";
  use_tls = false;
  tls_insecure_skip_verify = false;
  tls_ca_file = none;
  base_dn = codes "dc=example,dc=com";
  username = codes "admin";
  password = codes "dev-only-password-change-me";
}

pub record InviteConfig : Type 0 where
  pub expiration_hours : ℤ

abbrev pub default_invites : InviteConfig
default_invites = record { expiration_hours = pos 48 }

pub record AppConfig : Type 0 where
  pub admin : AdminConfig
  pub database : DatabaseConfig
  pub server : ServerConfig
  pub ldap : LldapConfig
  pub invites : InviteConfig
  pub appearance : AppearanceConfig
  pub logging : LoggingConfig
  pub password_policy : PasswordPolicy

abbrev pub default_config : AppConfig
default_config = record {
  admin = default_admin;
  database = default_database;
  server = default_server;
  ldap = default_ldap;
  invites = default_invites;
  appearance = default_appearance;
  logging = default_logging;
  password_policy = default_policy;
}

-- The crate `config`: what it reads, as values of its own kind, and its errors.
pub record Sources : Type 1 where
  pub Values : Type 0
  pub Failure : Type 0
  -- no values
  pub empty : Values
  -- The values of a TOML file by its path: none if there is no such file.
  pub toml_file : Text → Result (Option Values) Failure
  -- The values of the environment, by the prefix of the names, the text between their parts, and
  -- whether numbers are read as such.
  pub environment : Text → Text → Bool → Result Values Failure
  -- The second values laid over the first.
  pub overlay : Values → Values → Values
  pub deserialize : Values → Result AppConfig Failure

module _ (s : Sources) where
  open s use {Values, Failure}

  abbrev file_source : Option Values → Values
  file_source none = s.empty
  file_source (some values) = values

  -- `load`, for the path as text. A file that is not there is left out.
  unfoldable pub load : Text → Result AppConfig Failure
  load path = do
    file ← s.toml_file path
    environment ← s.environment (codes "APP") (codes "__") true
    s.deserialize (s.overlay (s.overlay s.empty (file_source file)) environment)
