-- ===== src/Program.antt =====
-- src/main.rs: what happens when the program is started.
mod Tests
use rust_invite_system.Common.{
  ℕ, ◌≡◌, refl, sym, ap, Bool, true, false, not, Option, none, some, Result, ok, err, ok_or, ◌>>=◌,
  ◌>>◌, reject, Text, codes, text_eq, if◌then◌else◌, inl, inr, Bool-cases, Result-cases,
}
use rust_invite_system.Config.{AppConfig, Sources, load}
use rust_invite_system.Auth.Provisioned.{ProvisionError, provision_admin_password}
use rust_invite_system.Invites.Schema.{Db}
use rust_invite_system.Routes.State.{Outside, AppState}
use rust_invite_system.Routes.Start.{Url, StartError, initialize, IsGuarded, initialize-IsGuarded}

-- The file system and the bundler of topcoat, as `sync_assets` uses them.
pub record Bundler : Type 1 where
  pub FilePath : Type 0
  pub Bytes : Type 0
  pub Failure : Type 0
  pub current_exe : Result FilePath Failure
  pub parent : FilePath → Option FilePath
  pub join : FilePath → Text → FilePath
  pub read : FilePath → Result Bytes Failure
  pub bundle : (cache_dir : Text) → Bytes → (bundle_dir : FilePath) → Result (Unit {0}) Failure

pub data SyncError (b : Bundler) : Type 0 where
  -- "executable directory is unavailable"
  no_executable_directory : SyncError b
  failed : b.Failure → SyncError b

-- `?` on an error of the file system or the bundler.
abbrev try : {b : Bundler} {A : Type 0} → Result A b.Failure → Result A (SyncError b)
try (ok a) = ok a
try (err e) = err (failed e)

-- The assets in the executable are unpacked beside it.
unfoldable pub sync_assets : (b : Bundler) → Result (Unit {0}) (SyncError b)
sync_assets b = do
  executable ← try b.current_exe
  directory ← ok_or (b.parent executable) no_executable_directory
  binary ← try (b.read executable)
  try (b.bundle (codes "target/topcoat-cache") binary (b.join directory (codes "assets")))

-- What a start finds: the first argument, the bundler, whether the assets are read, the settings'
-- sources, whether the directory for data can be made, the database with an address once it is
-- connected and migrated, the directory server, the clock, and what the prompts and the random
-- numbers give.
pub record Host (o : Outside) : Type 1 where
  pub argument : Option Text
  pub bundler : Bundler
  pub assets_loaded : Bool
  pub sources : Sources
  pub data_directory : Bool
  pub connect : Text → Option Db
  pub directory : o.service.Directory
  pub parse_url : Text → Option Url
  pub now : ℕ
  pub password : Option Text
  pub confirmation : Option Text
  pub salt : Text

-- The messages of the `expect`s of `main`: "assets must be bundled", "configuration must be valid",
-- "database directory must be available", "application state must initialize" and "asset bundle
-- must be available".
pub data Panic : Type 0 where
  assets_not_bundled invalid_configuration : Panic
  no_data_directory : Panic
  not_initialized : StartError → Panic
  no_asset_bundle : Panic

unfoldable pub is_option : Option Text → Bool
unfolding text_eq
is_option none = false
is_option (some argument) = text_eq argument (codes "--hash-admin-password")

module _ (o : Outside) where
  -- The hash is printed; an error is, and the program exits with status 1; a panic; or the service
  -- runs from a state, with its cleanup task.
  pub data Ended : Type 0 where
    printed : Text → Ended
    exited : ProvisionError → Ended
    panicked : Panic → Ended
    serving : AppState o → Ended

  abbrev expect : {A E : Type 0} → Result A E → (E → Panic) → Result A Panic
  expect (ok a) message = ok a
  expect (err e) message = err (message e)

  -- `main` without the option, up to the router.
  unfoldable pub start : Host o → Result (AppState o) Panic
  unfolding sync_assets load initialize
  start h = do
    expect (sync_assets h.bundler) (λ e. assets_not_bundled)
    config ← expect (load h.sources (codes "config.toml")) (λ e. invalid_configuration)
    reject (not h.data_directory) no_data_directory
    st ←
        expect (initialize o h.parse_url h.now (h.connect config.database.url) h.directory config)
          not_initialized
    reject (not h.assets_loaded) no_asset_bundle
    ok st

  abbrev hashed : Result Text ProvisionError → Ended
  hashed (ok hash) = printed hash
  hashed (err e) = exited e

  abbrev started : Result (AppState o) Panic → Ended
  started (ok st) = serving st
  started (err panic) = panicked panic

  unfoldable pub main : Host o → Ended
  unfolding is_option provision_admin_password start
  main h =
      if is_option h.argument
      then hashed (provision_admin_password o.crypto h.password h.confirmation h.salt)
      else started (start h)

  hashed-serving : (r : Result Text ProvisionError) (st : AppState o) → ¬ (hashed r ≡ serving st)
  hashed-serving (ok hash) st h = cc
  hashed-serving (err e) st h = cc

  started-serving :
      (r : Result (AppState o) Panic) (st : AppState o) → started r ≡ serving st → r ≡ ok st
  started-serving (ok s) st h = cc
  started-serving (err e) st h = cc

  start-IsGuarded :
      (h : Host o) (st : AppState o)
      → start h ≡ ok st
      → (sync_assets h.bundler ≡ ok tt)
        × (load h.sources (codes "config.toml") ≡ ok st.config)
        × IsGuarded o h.parse_url st.config
        × (st.admin.state.session ≡ none)
  unfolding start
  start-IsGuarded h st e = elim (Result-cases (sync_assets h.bundler)) [
    | inr (x, a) ↦ let bad = rw (a, start) at e in cc
    | inl (u, a) ↦ elim (Result-cases (load h.sources (codes "config.toml"))) [
      | inr (x, l) ↦ let bad = rw (a, start, l) at e in cc
      | inl (config, l) ↦
          let made =
            initialize o h.parse_url h.now (h.connect config.database.url) h.directory config in
          elim (Bool-cases h.data_directory) [
            | inr d ↦ let bad = rw (a, start, l, d) at e in cc
            | inl d ↦ elim (Result-cases made) [
              | inr (x, i) ↦ let bad = rw (a, start, l, d, i) at e in cc
              | inl (s, i) ↦ elim (Bool-cases h.assets_loaded) [
                | inr b ↦ let bad = rw (a, start, l, d, i, b) at e in cc
                | inl b ↦
                    let same : s ≡ st = let ended = rw (a, start, l, d, i, b) at e in cc in
                    let (guarded, kept, fresh) =
                      initialize-IsGuarded o h.parse_url h.now (h.connect config.database.url)
                        h.directory config s i in
                    rw (← same) (rw kept (a, l, guarded, fresh))
              ]
            ]
          ]
    ]
  ]

  -- The service runs only without the option --hash-admin-password and with the assets unpacked; it
  -- runs with the settings that were loaded from config.toml and the environment, whose origin of the administrator is by HTTPS,
  -- unless they have no password hash and so no one can sign in; and it begins without a session.
  pub main-IsGuarded :
      (h : Host o) (st : AppState o)
      → main h ≡ serving st
      → (is_option h.argument ≡ false)
        × (sync_assets h.bundler ≡ ok tt)
        × (load h.sources (codes "config.toml") ≡ ok st.config)
        × IsGuarded o h.parse_url st.config
        × (st.admin.state.session ≡ none)
  unfolding main
  main-IsGuarded h st e = elim (Bool-cases (is_option h.argument)) [
    | inl f ↦ absurd (hashed-serving _ st (rw (f, main) at e))
    | inr f ↦
        let (synced, loaded, guarded, fresh) =
          start-IsGuarded h st (started-serving _ st (rw (f, main) at e)) in
        (f, synced, loaded, guarded, fresh)
  ]
