-- ===== src/Routes/Manage.antt =====
-- `generate_invite`, `revoke_invite_route`, the dashboard `admin`, and the cleanup task of
-- src/main.rs.
use rust_invite_system.Common.{
  ℕ, ℤ, pos, negsuc, ◌+◌, ◌-◌, ◌*◌, not, Option, none, some, List, [], ◌∷◌, ◌++◌, map, ok, err,
  unwrap_or, is_ok, Text, codes, trim, is_empty, filter, ltb, ◌==◌, len_utf8, if◌then◌else◌,
}
use rust_invite_system.Config.{css_class}
use rust_invite_system.Invites.Schema.{InviteRecord}
use rust_invite_system.Invites.Repository.{create_invite, revoke_invite, list_recent, cleanup_stale}
use rust_invite_system.Lldap.{join}
use rust_invite_system.Steps.{Step, ◌>>=◌, ◌>>◌}
use rust_invite_system.Routes.State.{Outside, AppState, Request, HttpError, panicked}
use rust_invite_system.Routes.Status.{
  Status, active, used, expired, revoked, invalid, invite_status,
}
use rust_invite_system.Routes.Guards.{require_admin, require_admin_mutation}

pub record GenerateInviteForm : Type 0 where
  pub csrf : Text
  pub groups : Text
  pub expiration_hours : ℤ

pub record RevokeInviteForm : Type 0 where
  pub csrf : Text
  pub id : Text

-- The messages of `generate_invite`: "Enter at least one directory group.", "Expiration must be at
-- least one hour.", "The invitation could not be stored. Try again.", and "This link expires in
-- {hours} hours and can be used once."
pub data Outcome : Type 0 where
  no_groups too_short not_stored : Outcome
  ready : (hours : ℕ) → Outcome

-- What `generate_invite` puts into its page.
pub record GeneratedView : Type 0 where
  pub message : Outcome
  pub invite_url : Option Text
  pub groups_text : Option Text

abbrev pub no_link : Outcome → GeneratedView
no_link message = record { message = message; invite_url = none; groups_text = none }

-- `split`
unfoldable pub split_on : ℕ → Text → List Text
split_on c [] = [] ∷ []
split_on c (d ∷ s) =
    let rest = split_on c s in
    if d == c
    then [] ∷ rest
    else elim rest [ [] ↦ (d ∷ []) ∷ [] | part ∷ parts ↦ (d ∷ part) ∷ parts ]

unfoldable pub groups_of : Text → List Text
unfolding split_on trim
groups_of text = filter (λ group. not (is_empty group)) (map trim (split_on b',' text))

abbrev pub hour : ℕ
hour = 3600 * 1_000_000_000

abbrev pub day : ℕ
day = 24 * hour

-- The random texts and the time that `generate_invite` draws.
pub record Draw : Type 0 where
  pub token : Text
  pub id : Text
  pub now : ℕ

module _ (o : Outside) where
  -- The invite is stored, to expire so many hours from now. A time after chrono's last one panics.
  unfoldable pub store_invite : Draw → List Text → ℕ → Step (AppState o) HttpError GeneratedView
  unfolding create_invite join
  store_invite draw groups hours st =
      if ltb o.clock.latest (draw.now + hours * hour)
      then (err panicked, st)
      else (let (r, db) =
            create_invite draw.id (o.crypto.sha256_hex draw.token) (o.json.print groups)
              (o.clock.print draw.now) (o.clock.print (draw.now + hours * hour)) none st.db in
          (
            ok (
                if is_ok r
                then record {
                  message = ready hours;
                  invite_url = some (codes "/invite?code=" ++ draw.token);
                  groups_text = some (join (codes ", ") groups);
                }
                else no_link not_stored),
            record st { db = db },
          ))

  unfoldable pub with_hours : Draw → List Text → ℤ → Step (AppState o) HttpError GeneratedView
  unfolding store_invite
  with_hours draw groups (negsuc n) st = (ok (no_link too_short), st)
  with_hours draw groups (pos n) st =
      if ltb n 1 then (ok (no_link too_short), st) else store_invite draw groups n st

  -- `generate_invite` after its guard.
  unfoldable pub generate : Draw → GenerateInviteForm → Step (AppState o) HttpError GeneratedView
  unfolding with_hours groups_of
  generate draw form st =
      let groups = groups_of form.groups in
      if is_empty groups
      then (ok (no_link no_groups), st)
      else with_hours draw groups form.expiration_hours st

  -- `guard_at` is the look at the clock of `csrf_token`.
  unfoldable pub generate_invite :
      ℕ → Draw → Request → GenerateInviteForm → Step (AppState o) HttpError GeneratedView
  unfolding require_admin_mutation generate
  generate_invite guard_at draw rq form = do
    require_admin_mutation o rq guard_at form.csrf
    generate draw form

  -- The redirect's target.
  unfoldable pub revoke_invite_route :
      ℕ → ℕ → Request → RevokeInviteForm → Step (AppState o) HttpError Text
  unfolding require_admin_mutation revoke_invite
  revoke_invite_route guard_at now rq form = do
    require_admin_mutation o rq guard_at form.csrf
    (λ st. (
      ok (codes "/admin"),
      record st { db = (revoke_invite form.id (o.clock.print now) st.db).1 },
    ))

  -- One round of the loop of `spawn_invite_cleanup_task`; its result is only logged. A time before
  -- chrono's first one panics, and nothing is removed.
  unfoldable pub cleanup_round : ℕ → AppState o → AppState o
  unfolding cleanup_stale
  cleanup_round now st =
      if ltb now (120 * day)
      then st
      else record st { db = (cleanup_stale (o.clock.print (now - 120 * day)) st.db).1 }

  -- `get(..12)`: the first twelve bytes, if they end with a character.
  unfoldable pub first_bytes : ℕ → Text → Option Text
  first_bytes n [] = if n == 0 then some [] else none
  first_bytes n (c ∷ s) =
      let rest = first_bytes (n - len_utf8 c) s in
      if n == 0
      then some []
      else if ltb n (len_utf8 c)
      then none
      else elim rest [ none ↦ none | some t ↦ some (c ∷ t) ]

  -- A row of the dashboard's table. `disable` is the identifier in the form that revokes the
  -- invite.
  pub record HistoryRow : Type 0 where
    pub groups : Text
    pub hash_title : Text
    pub hash : Text
    pub created_at : Text
    pub expires_at : Text
    pub badge : Status
    pub disable : Option Text

  -- The badge has no text for an invite whose expiry cannot be read, but "Revoked".
  abbrev pub badge_of : Status → Status
  badge_of active = active
  badge_of used = used
  badge_of expired = expired
  badge_of revoked = revoked
  badge_of invalid = revoked

  abbrev pub disable_of : Text → Status → Option Text
  disable_of id active = some id
  disable_of id used = none
  disable_of id expired = none
  disable_of id revoked = none
  disable_of id invalid = none

  abbrev or_else : {A : Type 0} → Option A → A → A
  or_else none a = a
  or_else (some b) a = b

  unfoldable pub history_row : ℕ → InviteRecord → HistoryRow
  unfolding invite_status first_bytes join
  history_row now r =
      let status = invite_status o.clock r now in
      record {
        groups = join (codes ", ") (or_else (o.json.parse r.groups_json) []);
        hash_title = r.token_hash;
        hash = or_else (first_bytes 12 r.token_hash) r.token_hash;
        created_at = r.created_at;
        expires_at = r.expires_at;
        badge = badge_of status;
        disable = disable_of r.id status;
      }

  -- What `admin` puts into its page.
  pub record Dashboard : Type 0 where
    pub csrf : Text
    pub theme_class : Text
    pub expiration_hours : ℤ
    pub username : Text
    pub rows : List HistoryRow

  unfoldable pub admin : ℕ → ℕ → Request → Step (AppState o) HttpError Dashboard
  unfolding require_admin list_recent history_row
  admin guard_at now rq = do
    csrf ← require_admin o rq guard_at
    (λ st.
        let (r, db) = list_recent 20 st.db in
        (
          ok (record {
            csrf = csrf;
            theme_class = css_class st.config.appearance.default_theme;
            expiration_hours = st.config.invites.expiration_hours;
            username = st.config.admin.username;
            rows = map (history_row now) (unwrap_or r []);
          }),
          record st { db = db },
        ))
