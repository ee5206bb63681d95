-- ===== src/Routes/Tests.antt =====
-- Sign-ups against a directory in memory, and the theorems at concrete inputs.
mod Admin
use rust_invite_system.Common.{
  Option, ◌≡◌, refl, ◌↔◌, true, false, none, some, [], ◌∷◌, Text, codes, text_eq, ok, err, trim,
  byte_len, is_ok, is_whitespace,
}
use rust_invite_system.Config.{AppConfig, default_config}
use rust_invite_system.Invites.Schema.{no_rows, InviteRecord}
use rust_invite_system.Invites.Repository.{new_row}
use rust_invite_system.Invites.Lookup.{working, open_at}
use rust_invite_system.Lldap.Memory.{memory-IsAvailable, groups_listed, memory-IsDirectory}
use rust_invite_system.Routes.State.{AppState, Request}
use rust_invite_system.Routes.Status.{
  active, invite_status, invite_is_active, invite_status_active, open_at-invite_is_active,
}
use rust_invite_system.Routes.Guards.{require_admin_mutation}
use rust_invite_system.Routes.Signup.{not_active, accept}
use rust_invite_system.Routes.Accounts.{accept_needs_invite}
use rust_invite_system.Routes.Accepted.{SignedUp, accept-SignedUp}
use rust_invite_system.Routes.Refused.{accept_refused}
use rust_invite_system.Routes.Start.{Url, IsGuarded, initialize, initialize-IsGuarded}
use rust_invite_system.Routes.Once.{accept_once}
use rust_invite_system.Routes.Answered.{Answered, submit_invite-Answered}
use rust_invite_system.Routes.Signup.{submit_invite, blank_form, consume, not_marked}
use rust_invite_system.Routes.Undone.{Removed, consume_undoes}
use rust_invite_system.Routes.Manage.{
  GenerateInviteForm, groups_of, generate_invite, revoke_invite_route, GeneratedView, ready,
}
use rust_invite_system.Routes.SignIn.{login_answer}
use rust_invite_system.Routes.Authorized.{IsAuthorized, require_admin_mutation_iff}
use rust_invite_system.Routes.Managed.{
  unauthorized_changes_nothing, Generated, generate_invite-Generated,
}
use rust_invite_system.Routes.Entered.{IsLetIn, login-IsLetIn}
use rust_invite_system.Common.{◌+◌, replicate, byte_len, ltb, text_eq, if◌then◌else◌, arith}
use rust_invite_system.Auth.{session_length}
use rust_invite_system.Routes.State.{Outside, Request}
use rust_invite_system.Routes.Guards.{session_cookie}
use rust_invite_system.Routes.SignIn.{LogoutForm, login, logout, login_answer}
use rust_invite_system.Routes.SignedIn.{cookie_of, login_admits}
use rust_invite_system.Routes.Usable.{IsServing, accept_succeeds}
use rust_invite_system.Routes.Link.{generated_link_works}
use rust_invite_system.Lldap.{ldap_settings}
use rust_invite_system.Common.{pos}
use rust_invite_system.Routes.Fixture.{
  clock, outside, long, origin, state, state-WellFormed, form, handlers, request, draw,
  generate_form, login_form, sign_in_draw, clock-IsOrdered,
}

accepted : (accept outside 5 6 (codes "code") form state).0 ≡ ok tt
unfolding handlers
accepted = refl

late : (accept outside 11 12 (codes "code") form state).0 ≡ err (not_active ∷ [])
unfolding handlers
late = refl

abbrev after : AppState outside
unfolding accept
after = (accept outside 5 6 (codes "code") form state).1

accept-SignedUp_example : SignedUp outside memory-IsDirectory 5 6 (codes "code") form state after
unfolding handlers after
accept-SignedUp_example =
    accept-SignedUp outside memory-IsDirectory 5 6 form (codes "code") state after refl

submit_invite-Answered_example :
    Answered outside 5 6
      (codes "code")
      form
      state
      (blank_form state.config [] (some (codes "Your account has been created.")))
      (submit_invite outside 5 6 (some (some (codes "code"))) form state).1
unfolding handlers submit_invite
submit_invite-Answered_example =
    submit_invite-Answered outside 5 6 (codes "code") form state memory-IsDirectory
      (blank_form state.config [] (some (codes "Your account has been created."))) refl

accept_once_example : ¬ ((accept outside 7 8 (codes "code") form after).0 ≡ ok tt)
unfolding handlers after
accept_once_example =
    accept_once outside memory-IsDirectory 5 6 (codes "code") form state after [] 7 8 form after
      state-WellFormed refl refl

accept_refused_example :
    (accept outside 11 12 (codes "code") form state).1.db.tables ≡ state.db.tables
accept_refused_example =
    accept_refused outside memory-IsDirectory 11 12 (codes "code") form state (not_active ∷ []) late

accept_needs_invite_example :
    (memory-IsDirectory.account
        (accept outside 5 6 (codes "other") form state).1.directory
        (codes "ann")
      ≡ memory-IsDirectory.account state.directory (codes "ann"))
    × ((accept outside 5 6 (codes "other") form state).1.db.tables ≡ state.db.tables)
unfolding handlers
accept_needs_invite_example =
    accept_needs_invite outside memory-IsDirectory 5 6 (codes "other") (codes "ann") form state refl

abbrev link_form : GenerateInviteForm
link_form = record { csrf = long b'c'; groups = codes "engineering"; expiration_hours = pos 2 }

abbrev link_view : GeneratedView
link_view = record {
  message = ready 2;
  invite_url = some (codes "/invite?code=new");
  groups_text = some (codes "engineering");
}

abbrev serving : IsServing outside memory-IsAvailable groups_listed state.db.tables state
unfolding handlers memory-IsAvailable
serving = record {
  db = refl;
  up = (refl, refl);
  settings = record { no_tls_verify = false; own_roots = false };
  read = refl;
}

abbrev row : InviteRecord
row = new_row (codes "1") (codes "code") (codes "engineering") (1 ∷ []) (10 ∷ [])

accept_succeeds_example : (accept outside 5 6 (codes "code") form state).0 ≡ ok tt
unfolding handlers memory-IsAvailable
accept_succeeds_example =
    accept_succeeds outside memory-IsAvailable groups_listed form state.db.tables (codes "code") row
      refl state-WellFormed 5 6 (codes "code") (codes "engineering" ∷ []) state refl serving
      (record { name = refl; email = refl })
      (record { username = refl; email = refl; password = refl }) refl refl refl refl

generated_link_works_example :
    (accept outside 6 7
      (codes "new")
      form
      (generate_invite outside 5 draw request link_form state).1).0
    ≡ ok tt
unfolding handlers request memory-IsAvailable
generated_link_works_example =
    generated_link_works outside memory-IsAvailable groups_listed clock-IsOrdered draw link_form 2
      form 6 7 5 request link_view state state-WellFormed refl (λ e. cc) refl serving
      (record { name = refl; email = refl })
      (record { username = refl; email = refl; password = refl }) refl refl tt tt refl refl

-- Another sign-up used the invite while this one created its account.
abbrev raced : AppState outside
raced = record state {
  db = working no_rows;
  directory = record { users = codes "ann" ∷ codes "bob" ∷ []; joined = []; ldap_up = true };
}

consume_undoes_example :
    Removed outside memory-IsDirectory
      (codes "code")
      6
      form
      raced
      (consume outside (codes "code") 6 form raced).1.directory
unfolding handlers consume
consume_undoes_example =
    consume_undoes outside memory-IsDirectory (codes "code") 6 form raced (not_marked ∷ []) refl
