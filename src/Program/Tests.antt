-- ===== src/Program/Tests.antt =====
-- Starts of the program.
use rust_invite_system.Common.{
  ◌≡◌, refl, true, false, Option, none, some, List, [], ◌∷◌, Text, ok, err, codes, text_eq, trim,
  is_whitespace, byte_len,
}
use rust_invite_system.Config.{AppConfig, Sources, load}
use rust_invite_system.Auth.Provisioned.{no_match, provision_admin_password}
use rust_invite_system.Routes.Start.{IsGuarded, initialize}
use rust_invite_system.Routes.Fixture.{outside, state, start_config, parse_url, started}
use rust_invite_system.Program.{
  Bundler, sync_assets, assets_not_bundled, Host, no_data_directory, exited, panicked, start,
  is_option, main, main-IsGuarded,
}

-- No file, and an environment that says everything.
abbrev sources : Sources
sources = record {
  Values = Option AppConfig;
  Failure = Unit;
  empty = none;
  toml_file = λ path. ok none;
  environment = λ prefix separator parsing. ok (some start_config);
  overlay = λ below above. above;
  deserialize = λ values. elim values [ none ↦ err tt | some config ↦ ok config ];
}

-- The program stands in a directory, and everything can be read and written.
abbrev bundler : Bundler
bundler = record {
  FilePath = List Text;
  Bytes = Text;
  Failure = Unit {0};
  current_exe = ok (codes "service" ∷ codes "srv" ∷ []);
  parent = λ path. elim path [ [] ↦ none | name ∷ rest ↦ some rest ];
  join = λ path name. name ∷ path;
  read = λ path. ok (codes "binary");
  bundle = λ cache_dir binary bundle_dir. ok tt;
}

abbrev host : Host outside
host = record {
  argument = none;
  bundler = bundler;
  assets_loaded = true;
  sources = sources;
  data_directory = true;
  connect = λ url. some state.db;
  directory = state.directory;
  parse_url = parse_url;
  now = 3;
  password = some (codes "0123456789abcdef");
  confirmation = some (codes "0123456789abcdeF");
  salt = codes "salt";
}

runs : Unit {0}
unfolding main start sync_assets is_option load initialize provision_admin_password text_eq trim
    is_whitespace byte_len
runs = tt

mistyped :
    main outside (record host { argument = some (codes "--hash-admin-password") }) ≡ exited no_match
unfolding runs
mistyped = refl

no_directory : main outside (record host { data_directory = false }) ≡ panicked no_data_directory
unfolding runs
no_directory = refl

-- The root of the file system has no directory above it.
at_root :
    main outside (record host { bundler = record bundler { current_exe = ok [] } })
    ≡ panicked assets_not_bundled
unfolding runs
at_root = refl

main-IsGuarded_example :
    (is_option none ≡ false)
    × (sync_assets bundler ≡ ok tt)
    × (load sources (codes "config.toml") ≡ ok start_config)
    × IsGuarded outside parse_url start_config
    × (started.admin.state.session ≡ none)
unfolding runs
main-IsGuarded_example = main-IsGuarded outside host started refl
