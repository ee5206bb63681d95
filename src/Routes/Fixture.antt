-- ===== src/Routes/Fixture.antt =====
-- A service with a directory in memory, to run the handlers. Here a time is printed as one
-- character, and the digest of a text is the text.
use rust_invite_system.Common.{
  Option, ℕ, pos, refl, true, false, none, some, List, [], ◌∷◌, Text, codes, text_eq, text_ltb,
  trim, byte_len, replicate, ltb, ◌==◌, if◌then◌else◌, is_whitespace, split_once, count_char, arith,
}
use rust_invite_system.Config.{default_config, default_admin}
use rust_invite_system.Validation.{
  is_username_char, validate_username, validate_email, validate_password,
}
use rust_invite_system.Auth.{Session}
use rust_invite_system.Invites.Schema.{no_rows}
use rust_invite_system.Invites.Repository.{
  create_invite, consume_invite, update, find, find_by_token_hash,
}
use rust_invite_system.Invites.Sql.{fails, later}
use rust_invite_system.Invites.Histories.{Call, create, run, run-WellFormed}
use rust_invite_system.Invites.Audit.{WellFormed, no_rows-WellFormed}
use rust_invite_system.Invites.Lookup.{working}
use rust_invite_system.Lldap.{ldap_settings, find_group}
use rust_invite_system.Lldap.Memory.{has, memory}
use rust_invite_system.Routes.Start.{Url}
use rust_invite_system.Config.{AppConfig}
use rust_invite_system.Routes.State.{Clock, Outside, AppState, Request}
use rust_invite_system.Routes.Status.{invite_is_active, IsOrdered}
use rust_invite_system.Routes.Guards.{require_admin_mutation, session_cookie}
use rust_invite_system.Routes.Signup.{SubmitInviteForm, accept}
use rust_invite_system.Routes.Manage.{GenerateInviteForm, Draw, groups_of, generate_invite}
use rust_invite_system.Routes.SignIn.{LoginForm, SignInDraw, login}

abbrev pub clock : Clock
clock = record {
  parse = λ s. elim s [ [] ↦ none | n ∷ rest ↦ some n ];
  print = λ n. n ∷ [];
  latest = 1_000_000_000_000_000;
}

abbrev pub outside : Outside
outside = record {
  crypto = record {
    sha256_hex = λ s. s;
    parse_hash = λ s. some (record {
      algorithm = codes "argon2id";
      version = some 19;
      memory = some 19456;
      iterations = some 2;
      parallelism = some 1;
      salt_length = some 22;
      hash_length = some 32;
    });
    encode_b64 = λ bytes. some bytes;
    argon2 = λ salt password. some password;
    verify = text_eq;
  };
  chars = record {
    is_uppercase = λ c. c == b'S';
    is_lowercase = λ c. ltb b'`' c;
    is_numeric = λ c. c == b'1';
    is_alphanumeric = λ c. ltb b'/' c;
  };
  clock = clock;
  json = record { parse = λ s. some (s ∷ []); print = λ gs. elim gs [ [] ↦ [] | g ∷ rest ↦ g ] };
  service = memory;
}

-- 64 characters, as tokens are.
abbrev pub long : ℕ → Text
long c = replicate 64 c

abbrev pub session : Session
session = record { token_hash = long b'a'; csrf = long b'c'; expires = 50 }

abbrev pub origin : Text
origin = codes "https://invite.example.com"

abbrev pub setup : List Call
setup = create (codes "1") (codes "code") (codes "engineering") (1 ∷ []) (10 ∷ []) none ∷ []

abbrev pub state : AppState outside
state = record {
  admin = record {
    username = codes "admin";
    password_hash = codes "secret";
    state = record { session = some session; window_started = 0; attempts = 0 };
    poisoned = false;
    permits = 1;
  };
  config = record default_config { admin = record default_admin { origin = origin } };
  db = run setup (working no_rows);
  directory = record { users = codes "bob" ∷ []; joined = []; ldap_up = true };
}

pub state-WellFormed : WellFormed state.db.tables
state-WellFormed = run-WellFormed setup (working no_rows) no_rows-WellFormed

abbrev pub form : SubmitInviteForm
form = record {
  username = codes "ann";
  email = codes "ann@example.com";
  first_name = codes "Ann";
  last_name = codes "Lee";
  password = codes "Secret-1-secret";
}

unfoldable pub handlers : Unit {0}
unfolding accept create_invite consume_invite update find find_by_token_hash fails later text_eq
    text_ltb trim is_whitespace byte_len split_once count_char has ldap_settings find_group
    invite_is_active validate_username validate_email validate_password is_username_char
    generate_invite groups_of login require_admin_mutation
handlers = tt

unfoldable pub request : Request
unfolding text_eq
request = record {
  cookie = λ name. if text_eq name session_cookie then some (long b'a') else some (long b'l');
  header = λ name. if text_eq name (codes "origin") then some origin else none;
}

abbrev pub draw : Draw
draw = record { token = codes "new"; id = codes "2"; now = 5 }

abbrev pub generate_form : GenerateInviteForm
generate_form = record {
  csrf = long b'c';
  groups = codes " engineering ,, vpn";
  expiration_hours = pos 2;
}

abbrev pub login_form : LoginForm
login_form = record { username = codes "admin"; password = codes "secret"; csrf = long b'l' }

abbrev pub sign_in_draw : SignInDraw
sign_in_draw = record {
  started_at = 5;
  verified_at = 6;
  joined = true;
  token = long b't';
  session_csrf = long b'x';
  view_csrf = long b'v';
}

pub clock-IsOrdered : IsOrdered clock (λ n. Unit)
unfolding text_ltb
clock-IsOrdered = record { parse_print = λ n _. refl; compare = λ a b _ _. ground arith }

abbrev pub start_config : AppConfig
start_config = record default_config {
  admin = record { username = codes "admin"; password_hash = codes "secret"; origin = origin };
}

abbrev pub parse_url : Text → Option Url
parse_url url = some (record { scheme = codes "https"; origin = url })

abbrev pub started : AppState outside
started = record state {
  admin = record {
    username = codes "admin";
    password_hash = codes "secret";
    state = record { session = none; window_started = 3; attempts = 0 };
    poisoned = false;
    permits = 1;
  };
  config = start_config;
}
