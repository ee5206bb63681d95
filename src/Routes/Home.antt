-- ===== src/Routes/Home.antt =====
-- src/routes.rs, src/views.rs and src/version.rs: the pages / and /health.
use rust_invite_system.Common.{ℤ, Text, codes}
use rust_invite_system.Config.{AppConfig}

-- `CARGO_PKG_VERSION`, the version of Cargo.toml
abbrev pub app_version : Text
app_version = codes "0.1.0"

abbrev pub page_title : Text
page_title = codes "Rust Invite System"

-- What `home` puts into its page.
pub record HomeView : Type 0 where
  pub title : Text
  pub heading : Text
  pub version : Text

abbrev pub home : HomeView
home = record { title = page_title; heading = page_title; version = app_version }

-- What `health` puts into its page.
pub record HealthView : Type 0 where
  pub version : Text
  pub expiration_hours : ℤ

abbrev pub health : AppConfig → HealthView
health config = record { version = app_version; expiration_hours = config.invites.expiration_hours }
