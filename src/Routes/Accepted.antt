-- ===== src/Routes/Accepted.antt =====
-- What an attempt to sign up has done when it succeeds.
use rust_invite_system.Common.{
  ℕ, ◌≡◌, sym, ◌∙◌, true, some, List, Text, ok, inl, inr, Bool-cases, Option-cases, ap, subst,
}
use rust_invite_system.Invites.Schema.{InviteRecord}
use rust_invite_system.Invites.Rows.{hash_of, find_by}
use rust_invite_system.Lldap.Directory.{IsDirectory}
use rust_invite_system.Lldap.Groups.{InGroups}
use rust_invite_system.Steps.{bind_Passed}
use rust_invite_system.Routes.State.{Outside, AppState}
use rust_invite_system.Routes.Status.{invite_is_active}
use rust_invite_system.Routes.Signup.{
  SubmitInviteForm, check_fields, check_username, check_email, find_invite, provision, consume,
  accept_record, accept,
}
use rust_invite_system.Routes.Passing.{
  ValidFields, Marked, check_fields_passed, check_username_passed, check_email_passed,
  find_invite_passed, provision_passed, consume_passed,
}

module _ (o : Outside) (i : IsDirectory o.service) where
  -- An attempt that succeeded: the fields were valid and the invite active; the account is there
  -- and joined the invite's groups; the tables are those after the invite was marked as used.
  pub record SignedUp (checked used : ℕ) (code : Text) (form : SubmitInviteForm)
      (st after : AppState o) : Type 0 where
    pub fields : ValidFields o form st
    pub row : InviteRecord
    pub found : find_by hash_of (o.crypto.sha256_hex code) st.db.tables.invites ≡ some row
    pub active : invite_is_active o.clock row checked ≡ true
    pub groups : List Text
    pub listed : o.json.parse row.groups_json ≡ some groups
    pub account : i.has_user after.directory form.username ≡ true
    pub joined : InGroups o.service st.config.ldap i form.username groups after.directory
    pub marked : Marked o form (o.crypto.sha256_hex code) used st.db.tables after.db.tables

  module _ (checked used : ℕ) (form : SubmitInviteForm) where
    -- What `accept_record` has done when it returned.
    record Recorded (hash : Text) (row : InviteRecord) (s t : AppState o) : Type 0 where
      active : invite_is_active o.clock row checked ≡ true
      groups : List Text
      listed : o.json.parse row.groups_json ≡ some groups
      account : i.has_user t.directory form.username ≡ true
      joined : InGroups o.service s.config.ldap i form.username groups t.directory
      marked : Marked o form hash used s.db.tables t.db.tables

    accept_record-Recorded :
        (hash : Text) (row : InviteRecord) (s t : AppState o)
        → accept_record o checked used hash form row s ≡ (ok tt, t)
        → Recorded hash row s t
    unfolding accept_record
    accept_record-Recorded hash row s t h =
        elim (Bool-cases (invite_is_active o.clock row checked)) [
          | inr e ↦ let bad = rw e at h in cc
          | inl e ↦ elim (Option-cases (o.json.parse row.groups_json)) [
            | inl e' ↦ let bad = rw (e, e') at h in cc
            | inr (groups, e') ↦
                let rest = rw (e, e') at h in
                let p =
                  bind_Passed (provision o form groups) (λ _. consume o hash used form) s t tt
                    rest in
                let (account, (joined, alike)) =
                  provision_passed o i form groups s p.between p.first in
                let (marked, same) = consume_passed o form hash used p.between t p.rest in
                record {
                  active = e;
                  groups = groups;
                  listed = e';
                  account = ap (λ d. i.has_user d form.username) same ∙ account;
                  joined =
                      subst (InGroups o.service s.config.ldap i form.username groups) (sym same)
                        joined;
                  marked = subst (λ x. Marked o form hash used x t.db.tables) alike.tables marked;
                }
          ]
        ]

    -- With a directory that keeps the laws relied on, an attempt to sign up that succeeds has
    -- checked the three fields, found the invite of the code active, and created the account,
    -- which is there; for every group that the invite lists the directory has a group with that
    -- name, to which the account belongs, unless the server answered the request to add it with
    -- `ok` false; and the invite is marked as used by that account, at a time at which
    -- `consume_invite` allowed it. Requests to the database may fail in between.
    pub accept-SignedUp :
        (code : Text) (st after : AppState o)
        → accept o checked used code form st ≡ (ok tt, after)
        → SignedUp checked used code form st after
    unfolding accept
    accept-SignedUp code st after h =
        let hash = o.crypto.sha256_hex code in
        let p = bind_Passed (check_fields o form) _ st after tt h in
        let (fields, same) = check_fields_passed o form st p.between p.first in
        let q = bind_Passed (check_username o form) _ p.between after tt p.rest in
        let a = check_username_passed o form p.between q.between q.first in
        let u = bind_Passed (check_email o form) _ q.between after tt q.rest in
        let b = check_email_passed o form q.between u.between u.first in
        let w = bind_Passed (find_invite o hash) _ u.between after tt u.rest in
        let (found, c) = find_invite_passed o hash w.value u.between w.between w.first in
        let r = accept_record-Recorded hash w.value w.between after w.rest in
        let tables : u.between.db.tables ≡ st.db.tables =
          b.tables ∙ (a.tables ∙ ap (λ x. x.db.tables) (sym same)) in
        let config : w.between.config ≡ st.config =
          c.config ∙ (b.config ∙ (a.config ∙ ap (λ x. x.config) (sym same))) in
        record {
          fields = fields;
          row = w.value;
          found = subst (λ t. find_by hash_of hash t.invites ≡ some w.value) tables found;
          active = r.active;
          groups = r.groups;
          listed = r.listed;
          account = r.account;
          joined =
              subst (λ k. InGroups o.service k.ldap i form.username r.groups after.directory) config
                r.joined;
          marked =
              subst (λ t. Marked o form hash used t after.db.tables) (c.tables ∙ tables) r.marked;
        }
