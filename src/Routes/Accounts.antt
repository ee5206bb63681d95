-- ===== src/Routes/Accounts.antt =====
-- What an attempt to sign up leaves alone: other accounts, and everything if the invite is not
-- open.
use rust_invite_system.Common.{ℕ, ◌≡◌, refl, sym, ◌∙◌, false, none, some, arith, Text, ok, err}
use rust_invite_system.Invites.Schema.{InviteRecord, Tables, Db}
use rust_invite_system.Invites.Repository.{find_by_token_hash}
use rust_invite_system.Invites.Rows.{hash_of, find_by, holds_in}
use rust_invite_system.Lldap.Directory.{IsDirectory}
use rust_invite_system.Lldap.Provision.{user_exists_spares}
use rust_invite_system.Lldap.Client.{username_exists, email_exists}
use rust_invite_system.Steps.{
  Post, Post-same, Post-always, Triple, Triple-bind, Triple-weaken, Keeps,
}
use rust_invite_system.Routes.State.{Outside, AppState}
use rust_invite_system.Routes.Status.{invite_is_active}
use rust_invite_system.Routes.Signup.{
  SubmitInviteForm, check_fields, check_username, check_email, find_invite, found_invite,
  accept_record, accept,
}

-- Looking a token up changes no table, and finds the first row with its hash.
pub find_by_token_hash-tables :
    (h : Text) (db : Db) → (find_by_token_hash h db).1.tables ≡ db.tables
unfolding find_by_token_hash
find_by_token_hash-tables h db = ground arith

pub find_by_token_hash-found :
    (h : Text) (db : Db) (r : InviteRecord)
    → (find_by_token_hash h db).0 ≡ ok (some r)
    → find_by hash_of h db.tables.invites ≡ some r
unfolding find_by_token_hash
find_by_token_hash-found h db r e = ground arith

module _ (o : Outside) (i : IsDirectory o.service) where
  -- What the directory holds for a name, and the tables, are the given ones.
  abbrev pub Same : Text → i.Account → Tables → AppState o → Type 0
  Same v b t st = (i.account st.directory v ≡ b) × (st.db.tables ≡ t)

  module _ (v : Text) (b : i.Account) (t : Tables) where
    pub check_fields-Keeps : (form : SubmitInviteForm) → Keeps (Same v b t) (check_fields o form)
    unfolding check_fields
    check_fields-Keeps form st h = Post-same (Same v b t) _ st h

    pub check_username-Keeps :
        (form : SubmitInviteForm) → Keeps (Same v b t) (check_username o form)
    unfolding check_username username_exists
    check_username-Keeps form st h =
        Post-same (Same v b t) _ _
          (user_exists_spares o.service st.config.ldap i _ form.username v st.directory ∙ h.0, h.1)

    pub check_email-Keeps : (form : SubmitInviteForm) → Keeps (Same v b t) (check_email o form)
    unfolding check_email email_exists
    check_email-Keeps form st h =
        Post-same (Same v b t) _ _
          (user_exists_spares o.service st.config.ldap i _ form.email v st.directory ∙ h.0, h.1)

    -- The row that is found is the token's.
    abbrev pub Found : Text → InviteRecord → AppState o → Type 0
    Found h r st = Same v b t st × (find_by hash_of h t.invites ≡ some r)

    pub find_invite-Found :
        (h : Text) → Triple (Same v b t) (find_invite o h) (Found h) (Same v b t)
    unfolding find_invite
    find_invite-Found h st p = go (find_by_token_hash h st.db).0 refl
      where
        same : st.db.tables ≡ t
        same = p.1

        tables : (find_by_token_hash h st.db).1.tables ≡ t
        tables = find_by_token_hash-tables h st.db ∙ same

        go :
            (r : _)
            → (find_by_token_hash h st.db).0 ≡ r
            → Post
                (Found h)
                (Same v b t)
                (found_invite o r)
                (record st { db = (find_by_token_hash h st.db).1 })
        go (ok (some r)) e = ((p.0, tables), rw (sym same) (find_by_token_hash-found h st.db r e))
        go (ok none) e = (p.0, tables)
        go (err x) e = (p.0, tables)

  module _ (form : SubmitInviteForm) (v : Text) (b : i.Account) where
    -- What the directory holds for the name.
    abbrev Holding : AppState o → Type 0
    Holding st = i.account st.directory v ≡ b

  -- `accept`, with what is known of the row that is used.
  module _ (v : Text) (b : i.Account) (t : Tables) (checked used : ℕ) (code : Text)
      (form : SubmitInviteForm) (T : Unit {0} → AppState o → Type 0) (R : AppState o → Type 0)
      (weaker : (st : AppState o) → Same v b t st → R st) where
    abbrev hash : Text
    hash = o.crypto.sha256_hex code

    pub accept-Triple :
        ((r : InviteRecord)
          → Triple (Found v b t hash r) (accept_record o checked used hash form r) T R)
        → Triple (Same v b t) (accept o checked used code form) T R
    unfolding accept
    accept-Triple rest =
        let P = Same v b t in
        Triple-bind P R (λ _. P) T (check_fields o form) _
          (Triple-weaken P P R (λ _. P) (check_fields o form) weaker
            (check_fields-Keeps v b t form))
          λ _.
            Triple-bind P R (λ _. P) T (check_username o form) _
              (Triple-weaken P P R (λ _. P) (check_username o form) weaker
                (check_username-Keeps v b t form))
              λ _.
                Triple-bind P R (λ _. P) T (check_email o form) _
                  (Triple-weaken P P R (λ _. P) (check_email o form) weaker
                    (check_email-Keeps v b t form))
                  λ _.
                    Triple-bind P R (Found v b t hash) T (find_invite o hash) _
                      (Triple-weaken P P R (Found v b t hash) (find_invite o hash) weaker
                        (find_invite-Found v b t hash))
                      rest

  -- With a directory that keeps the laws relied on: without an invite of the code that is active
  -- at the time of the check, an attempt to sign up changes nothing that the directory holds for
  -- a name, and no table.
  pub accept_needs_invite :
      (checked used : ℕ) (code v : Text) (form : SubmitInviteForm) (st : AppState o)
      → holds_in
          (λ r. invite_is_active o.clock r checked)
          (find_by hash_of (o.crypto.sha256_hex code) st.db.tables.invites)
        ≡ false
      → let after = (accept o checked used code form st).1 in
        (i.account after.directory v ≡ i.account st.directory v) × (after.db.tables ≡ st.db.tables)
  unfolding accept_record
  accept_needs_invite checked used code v form st closed =
      let b = i.account st.directory v in
      let t = st.db.tables in
      let P = Same v b t in
      Post-always P (accept o checked used code form st).0 (accept o checked used code form st).1 (
        accept-Triple v b t checked used code form (λ _. P) P (λ st' h. h)
          (λ r st' h.
            let inactive : invite_is_active o.clock r checked ≡ false = rw h.1 at closed in
            rw inactive h.0)
          st (refl, refl))
