-- ===== src/Routes/Tests/Admin.antt =====
-- The administrator's routes against a directory in memory, and the theorems at concrete inputs.
use rust_invite_system.Common.{
  ◌≡◌, refl, ◌↔◌, true, false, none, some, [], ◌∷◌, Text, codes, text_eq, ok, byte_len, is_ok,
  is_whitespace,
}
use rust_invite_system.Routes.State.{AppState, Request}
use rust_invite_system.Routes.Guards.{require_admin_mutation}
use rust_invite_system.Routes.Manage.{
  groups_of, generate_invite, revoke_invite_route, GeneratedView, ready,
}
use rust_invite_system.Routes.SignIn.{login_answer}
use rust_invite_system.Routes.Authorized.{IsAuthorized, require_admin_mutation_iff}
use rust_invite_system.Routes.Managed.{
  unauthorized_changes_nothing, Generated, generate_invite-Generated,
}
use rust_invite_system.Routes.Entered.{IsLetIn, login-IsLetIn}
use rust_invite_system.Common.{◌+◌, replicate, byte_len, ltb, text_eq, if◌then◌else◌, arith}
use rust_invite_system.Auth.{random_token, session_length}
use rust_invite_system.Routes.State.{Outside, Request}
use rust_invite_system.Routes.Guards.{session_cookie}
use rust_invite_system.Routes.SignIn.{LogoutForm, login, logout, login_answer}
use rust_invite_system.Routes.SignedIn.{cookie_of, login_admits}
use rust_invite_system.Routes.SignedOut.{at_once, looked, logout_ends}
use rust_invite_system.Common.{List, map, pos}
use rust_invite_system.Invites.Schema.{InviteRecord}
use rust_invite_system.Common.{ℕ}
use rust_invite_system.Invites.Schema.{no_rows}
use rust_invite_system.Invites.Histories.{Call, create, run, run-WellFormed}
use rust_invite_system.Invites.Audit.{no_rows-WellFormed}
use rust_invite_system.Invites.Lookup.{working}
use rust_invite_system.Invites.Recent.{Recent}
use rust_invite_system.Invites.Rows.{id_of, find_by}
use rust_invite_system.Invites.Repository.{new_row, list_recent}
use rust_invite_system.Routes.Status.{active}
use rust_invite_system.Routes.Guards.{require_admin}
use rust_invite_system.Routes.Manage.{Dashboard, admin, history_row, cleanup_round}
use rust_invite_system.Routes.Dashboard.{admin-Recent, cleanup_round_spares}
use rust_invite_system.Routes.Requests.{RequestLog, text, emit_json, start_line}
use rust_invite_system.Routes.Logged.{lookup, Distinct, writes, last_write, emit_json_last}
use rust_invite_system.Routes.Fixture.{
  clock-IsOrdered, outside, long, origin, state, handlers, request, draw, generate_form, login_form,
  sign_in_draw,
}

require_admin_mutation_iff_example :
    ((require_admin_mutation outside request 5 (long b'c') state).0 ≡ ok tt)
    ↔ IsAuthorized outside request 5 (long b'c') state
require_admin_mutation_iff_example = require_admin_mutation_iff outside request 5 (long b'c') state

require_admin_mutation-ok : (require_admin_mutation outside request 5 (long b'c') state).0 ≡ ok tt
unfolding handlers request
require_admin_mutation-ok = refl

groups_of-trims : groups_of (codes " engineering ,, vpn") ≡ codes "engineering" ∷ codes "vpn" ∷ []
unfolding groups_of is_whitespace
groups_of-trims = refl

abbrev stranger : Request
stranger = record { cookie = λ name. none; header = λ name. none }

stranger-unauthorized : (csrf : Text) → ¬ IsAuthorized outside stranger 5 csrf state
stranger-unauthorized csrf a = cc a.carried

unauthorized_changes_nothing_example :
    let generated = generate_invite outside 5 draw stranger generate_form state in
    let disabled =
      revoke_invite_route outside 5 6 stranger
        (record { csrf = long b'c'; id = codes "1" })
        state in
    ((is_ok generated.0 ≡ false) × (generated.1.db ≡ state.db))
    × ((is_ok disabled.0 ≡ false) × (disabled.1.db ≡ state.db))
unauthorized_changes_nothing_example =
    unauthorized_changes_nothing outside 5 6 draw stranger generate_form
      (record { csrf = long b'c'; id = codes "1" }) state (stranger-unauthorized (long b'c'))
      (stranger-unauthorized (long b'c'))

abbrev link : GeneratedView
link = record {
  message = ready 2;
  invite_url = some (codes "/invite?code=new");
  groups_text = some (codes "engineering, vpn");
}

generated : (generate_invite outside 5 draw request generate_form state).0 ≡ ok link
unfolding handlers request
generated = refl

generate_invite-Generated_example :
    IsAuthorized outside request 5 (long b'c') state
    × Generated outside draw generate_form state.db.tables link
        (generate_invite outside 5 draw request generate_form state).1.db.tables
generate_invite-Generated_example =
    generate_invite-Generated outside 5 draw request generate_form state link generated

login-IsLetIn_example : IsLetIn outside sign_in_draw request login_form state
unfolding handlers request
login-IsLetIn_example =
    login-IsLetIn outside sign_in_draw request login_form state
      (login_answer (codes "admin") (long b'v') (ok (long b't'))) refl refl

-- A digest of 64 characters, the first of which is the text's.
unfoldable digest : Text → Text
digest [] = long b'0'
digest (c ∷ s) = (if ltb c 128 then c else b'0') ∷ replicate 63 b'0'

digest-length : (s : Text) → byte_len (digest s) ≡ 64
unfolding digest byte_len
digest-length [] = refl
digest-length (c ∷ s) = ground arith

abbrev digesting : Outside
digesting = record outside { crypto = record outside.crypto { sha256_hex = digest } }

abbrev digested : AppState digesting
digested = record {
  admin = state.admin;
  config = state.config;
  db = state.db;
  directory = state.directory;
}

-- A request of the administrator, after the sign-in.
abbrev next_request : Request
next_request = record {
  cookie = λ name. some (long b't');
  header = λ name. if text_eq name (codes "origin") then some origin else none;
}

login_admits_example :
    ((require_admin_mutation digesting next_request 9
        (long b'x')
        (login digesting sign_in_draw request login_form digested).1).0
      ≡ ok tt)
    ↔ ((ltb 9 (6 + session_length) ≡ true) × (long b'x' ≡ long b'x'))
unfolding handlers request digest cookie_of random_token
login_admits_example =
    login_admits digesting (record { digest_length = digest-length }) sign_in_draw request
      login_form digested (login_answer (codes "admin") (long b'v') (ok (long b't'))) refl refl
      (λ i. b't') (λ i. b'x') (λ i. refl) (λ i. refl) refl refl next_request 9 (long b'x') refl refl

abbrev logout_form : LogoutForm
logout_form = record { csrf = long b'c' }

-- The state after the sign-out and another look at the dashboard.
abbrev left_state : AppState outside
left_state = (logout outside 5 request logout_form state).1

logout_ends_example : ¬ (
    (require_admin_mutation outside request 7
      (long b'c')
      (admin outside 6 6 request left_state).1).0
    ≡ ok tt)
unfolding handlers request logout
logout_ends_example =
    logout_ends outside 5 request logout_form state
      (codes "/admin/login", record { name = session_cookie; value = []; seconds = 0 }) refl
      (admin outside 6 6 request left_state).1 (looked 6 6 request at_once) request 7 (long b'c')

abbrev dashboard : Dashboard outside
dashboard = record {
  csrf = long b'c';
  theme_class = codes "theme-light";
  expiration_hours = pos 48;
  username = codes "admin";
  rows =
      record {
        groups = codes "engineering";
        hash_title = codes "code";
        hash = codes "code";
        created_at = 1 ∷ [];
        expires_at = 10 ∷ [];
        badge = active;
        disable = some (codes "1");
      }
      ∷ [];
}

admin-Recent_example :
    ((require_admin outside request 5 state).0 ≡ ok (long b'c'))
    × (rows : List InviteRecord) × Recent 20 rows state.db.tables.invites
    × (dashboard.rows ≡ map (history_row outside 5) rows)
unfolding handlers request admin history_row list_recent
admin-Recent_example =
    admin-Recent outside 5 5 request state (admin outside 5 5 request state).1 dashboard refl refl

-- 120 days and some after the first time of the clock.
abbrev today : ℕ
today = 10_368_000_000_000_005

abbrev row : InviteRecord
row = new_row (codes "1") (codes "code") (codes "engineering") (1 ∷ []) ((today + 5) ∷ [])

abbrev calls : List Call
calls =
    create (codes "1") (codes "code") (codes "engineering") (1 ∷ []) ((today + 5) ∷ []) none ∷ []

abbrev aged : AppState outside
aged = record state { db = run calls (working no_rows) }

cleanup_round_spares_example :
    find_by id_of (codes "1") (cleanup_round outside today aged).db.tables.invites ≡ some row
unfolding handlers
cleanup_round_spares_example =
    cleanup_round_spares outside clock-IsOrdered today (today + 5) row tt tt refl aged
      (run-WellFormed calls (working no_rows) no_rows-WellFormed) refl refl

abbrev logged : RequestLog
logged = record {
  method = codes "GET";
  path = codes "/admin";
  client_ip = codes "unknown";
  forwarded_for = codes "-";
  user_agent = codes "-";
  referer = codes "-";
  message_field = codes "path";
  started_at = 5;
}

emit_json_last_example :
    Distinct (emit_json logged (codes "now") (codes "info") (codes "request start") none)
    × ((k : Text)
        → lookup k (emit_json logged (codes "now") (codes "info") (codes "request start") none)
          ≡ last_write k (writes logged (codes "now") (codes "info") (codes "request start") none))
emit_json_last_example =
    emit_json_last logged (codes "now") (codes "info") (codes "request start") none

-- The message is lost where its key is that of the path.
message_lost :
    lookup (codes "path") (start_line logged (codes "now")) ≡ some (text (codes "/admin"))
unfolding lookup start_line
message_lost = refl
