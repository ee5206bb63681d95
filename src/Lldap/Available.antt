-- ===== src/Lldap/Available.antt =====
-- A directory server that answers, and what the client gets from it.
use rust_invite_system.Common.{
  ℕ, ◌≡◌, refl, Bool, true, false, some, List, [], ◌∷◌, ◌++◌, Text, codes, ok, is_some, all,
  Option-cases, inl, inr,
}
use rust_invite_system.Config.{LldapConfig}
use rust_invite_system.Lldap.{endpoint, ldap_transport_url, ldap_settings, find_group, read_reply}
use rust_invite_system.Lldap.Service.{
  LoginResponse, CreateUserResponse, AddUserToGroupResponse, Service, GroupRecord, LdapSettings,
}
use rust_invite_system.Steps.{Gives, Gives-bind, ◌>>=◌}
use rust_invite_system.Lldap.Client.{
  Action, or_undo, ldap, login, create_user, delete_user, list_groups, add_user_to_group,
  set_password, add_groups, equip_user, provision_user, user_exists, admin_dn, user_dn,
}

-- While the server is up it answers: lookups of a value that no account has find none, an account
-- whose name and address are free is created, and the groups are listed.
pub record IsAvailable (s : Service) : Type 1 where
  pub Up : List GroupRecord → s.Directory → Type 0
  -- No account has the value in the field.
  pub Free : Text → Text → s.Directory → Type 0
  pub login_answers :
      (e u p : Text) (gs : List GroupRecord) (d : s.Directory)
      → Up gs d
      → (r : LoginResponse) × (((s.post_login e u p d).0 ≡ some r) × Up gs (s.post_login e u p d).1)
  pub login_frees :
      (e u p f x : Text) (d : s.Directory) → Free f x d → Free f x (s.post_login e u p d).1
  pub lookup_answers :
      (e t f x : Text) (gs : List GroupRecord) (d : s.Directory)
      → Up gs d
      → Free f x d
      → (read_reply (s.post_lookup_users e t f x d).0 ≡ ok (record { users = [] }))
        × Up gs (s.post_lookup_users e t f x d).1
  pub lookup_frees :
      (e t f x f' x' : Text) (d : s.Directory)
      → Free f' x' d
      → Free f' x' (s.post_lookup_users e t f x d).1
  pub create_answers :
      (e t u m n f l : Text) (gs : List GroupRecord) (d : s.Directory)
      → Up gs d
      → Free (codes "id") u d
      → Free (codes "email") m d
      → (r : CreateUserResponse) × ((read_reply (s.post_create_user e t u m n f l d).0 ≡ ok r)
          × Up gs (s.post_create_user e t u m n f l d).1)
  pub list_answers :
      (e t : Text) (gs : List GroupRecord) (d : s.Directory)
      → Up gs d
      → (read_reply (s.post_list_groups e t d).0 ≡ ok (record { groups = gs }))
        × Up gs (s.post_list_groups e t d).1
  pub add_answers :
      (e t u : Text) (g : ℕ) (gs : List GroupRecord) (d : s.Directory)
      → Up gs d
      → (r : AddUserToGroupResponse) × ((read_reply (s.post_add_user_to_group e t u g d).0 ≡ ok r)
          × Up gs (s.post_add_user_to_group e t u g d).1)
  pub connect_answers :
      (c : LdapSettings) (url : Text) (gs : List GroupRecord) (d : s.Directory)
      → Up gs d
      → ((s.ldap_connect c url d).0 ≡ true) × Up gs (s.ldap_connect c url d).1
  pub bind_answers :
      (n p : Text) (gs : List GroupRecord) (d : s.Directory)
      → Up gs d
      → ((s.ldap_bind n p d).0 ≡ true) × Up gs (s.ldap_bind n p d).1
  pub modify_answers :
      (n p : Text) (gs : List GroupRecord) (d : s.Directory)
      → Up gs d
      → ((s.ldap_password_modify n p d).0 ≡ true) × Up gs (s.ldap_password_modify n p d).1
  pub unbind_answers :
      (gs : List GroupRecord) (d : s.Directory)
      → Up gs d
      → ((s.ldap_unbind d).0 ≡ true) × Up gs (s.ldap_unbind d).1

-- Every name is that of a listed group.
abbrev pub Listed : List GroupRecord → List Text → Type 0
Listed gs names = all (λ name. is_some (find_group name gs)) names ≡ true

module _ (s : Service) (config : LldapConfig) (v : IsAvailable s) (gs : List GroupRecord) where
  open s use {Directory}

  abbrev graphql_url : Text
  graphql_url = endpoint config (codes "/api/graphql")

  abbrev login_url : Text
  login_url = endpoint config (codes "/auth/simple/login")

  -- The action returns what `R` says, and the server stays up.
  abbrev Works : {A : Type 0} → Action Directory A → (A → Type 0) → Type 0
  Works m R = Gives (v.Up gs) m (λ a d. R a × v.Up gs d)

  abbrev Any : {A : Type 0} → A → Type 0
  Any a = Unit

  Works-bind :
      {A B : Type 0} (R : A → Type 0) (S : B → Type 0) (m : Action Directory A)
      (f : A → Action Directory B)
      → Works m R
      → ((a : A) → R a → Works (f a) S)
      → Works (m >>= f) S
  Works-bind R S m f first rest =
      Gives-bind (v.Up gs) (λ a d. R a × v.Up gs d) (λ b d. S b × v.Up gs d) m f first
        λ a d p. rest a p.0 d p.1

  Works-or_undo :
      {A : Type 0} (R : A → Type 0) (m : Action Directory A) (undo : Action Directory (Unit {0}))
      → Works m R
      → Works (or_undo m undo) R
  Works-or_undo R m undo first d up = let (a, (e, q)) = first d up in rw e (a, (refl, q))

  ldap-Works :
      (f : Directory → Bool × Directory)
      → ((d : Directory) → v.Up gs d → ((f d).0 ≡ true) × v.Up gs (f d).1)
      → Works (ldap f) Any
  ldap-Works f answers d up = let (e, up') = answers d up in rw e (tt, (refl, (tt, up')))

  login-Works : Works (login s config) Any
  unfolding login
  login-Works d up =
      let (t, (e, up')) = v.login_answers login_url config.username config.password gs d up in
      rw e (t.token, (refl, (tt, up')))

  list_groups-Works : (token : Text) → Works (list_groups s config token) (λ l. l ≡ gs)
  unfolding list_groups
  list_groups-Works token d up =
      let (e, up') = v.list_answers graphql_url token gs d up in (gs, (rw e refl, (refl, up')))

  add_user_to_group-Works :
      (token username : Text) (group : ℕ)
      → Works (add_user_to_group s config token username group) Any
  unfolding add_user_to_group
  add_user_to_group-Works token username group d up =
      let (b, (e, up')) = v.add_answers graphql_url token username group gs d up in
      rw e (tt, (refl, (tt, up')))

  create_user-succeeds :
      (token username email first last : Text) (d : Directory)
      → v.Up gs d
      → v.Free (codes "id") username d
      → v.Free (codes "email") email d
      → ((create_user s config token username email first last d).0 ≡ ok tt)
        × v.Up gs (create_user s config token username email first last d).1
  unfolding create_user
  create_user-succeeds token username email first last d up name_free email_free =
      let (id, (e, up')) =
        v.create_answers graphql_url token username email (first ++ (codes " " ++ last)) first last
          gs d up name_free email_free in
      rw e (refl, up')

  -- A lookup of a value that no account has finds none; what else was free still is.
  pub user_exists-absent :
      (field value : Text) (d : Directory)
      → v.Up gs d
      → v.Free field value d
      → let out = user_exists s config field value d in
        (out.0 ≡ ok false)
        × (v.Up gs out.1 × ((other taken : Text) → v.Free other taken d → v.Free other taken out.1))
  unfolding user_exists login
  user_exists-absent field value d up free =
      let (t, (e, up')) = v.login_answers login_url config.username config.password gs d up in
      let kept = λ (other taken : Text).
        v.login_frees login_url config.username config.password other taken d in
      let d' = (login s config d).1 in
      let (none_found, up'') =
        v.lookup_answers graphql_url t.token field value gs d' up' (kept field value free) in
      rw e (
        rw none_found (
          refl,
          (
            up'',
            λ other taken f.
                v.lookup_frees graphql_url t.token field value other taken d' (kept other taken f),
          ),
        ))

  module _ (settings : LdapSettings) (set : ldap_settings s.ca_file config ≡ ok settings) where
    set_password-Works :
        (username password : Text) → Works (set_password s config username password) Any
    unfolding set_password
    set_password-Works username password = rw set (
        Works-bind Any Any (ldap (s.ldap_connect settings (ldap_transport_url config))) _
          (ldap-Works _ (v.connect_answers settings (ldap_transport_url config) gs))
          λ _ _.
            Works-bind Any Any (ldap (s.ldap_bind (admin_dn config) config.password)) _
              (ldap-Works _ (v.bind_answers (admin_dn config) config.password gs))
              λ _ _.
                Works-bind Any Any
                  (ldap (s.ldap_password_modify (user_dn config username) password)) _
                  (ldap-Works _ (v.modify_answers (user_dn config username) password gs))
                  λ _ _. ldap-Works s.ldap_unbind (v.unbind_answers gs))

    add_groups-Works :
        (token username : Text) (names : List Text)
        → Listed gs names
        → Works (add_groups s config token username gs names) Any
    unfolding add_groups
    add_groups-Works token username [] h = λ d up. (tt, (refl, (tt, up)))
    add_groups-Works token username (name ∷ names) h = elim (Option-cases (find_group name gs)) [
      | inl e ↦ let bad = rw e at h in cc
      | inr (g, e) ↦
          let rest = rw e at h in
          rw e (
            Works-bind Any Any
              (or_undo (add_user_to_group s config token username g.id)
                (delete_user s config token username))
              _
              (Works-or_undo Any (add_user_to_group s config token username g.id)
                (delete_user s config token username) (add_user_to_group-Works token username g.id))
              λ _ _. add_groups-Works token username names rest)
    ]

    equip_user-Works :
        (token username password : Text) (names : List Text)
        → Listed gs names
        → Works (equip_user s config token username password names) Any
    unfolding equip_user
    equip_user-Works token username password names h =
        Works-bind Any Any
          (or_undo (set_password s config username password) (delete_user s config token username))
          _
          (Works-or_undo Any (set_password s config username password)
            (delete_user s config token username) (set_password-Works username password))
          λ _ _.
            Works-bind (λ l. l ≡ gs) Any
              (or_undo (list_groups s config token) (delete_user s config token username)) _
              (Works-or_undo (λ l. l ≡ gs) (list_groups s config token)
                (delete_user s config token username) (list_groups-Works token))
              λ l same. rw same (add_groups-Works token username names h)

    -- While the directory server answers, provisioning an account whose name and address no account
    -- has yet, for groups that the server lists, succeeds. The certificates that the settings name
    -- are read.
    pub provision_user_succeeds :
        (username email first last password : Text) (names : List Text) (d : Directory)
        → v.Up gs d
        → v.Free (codes "id") username d
        → v.Free (codes "email") email d
        → Listed gs names
        → (provision_user s config username email first last password names d).0 ≡ ok tt
    unfolding provision_user login
    provision_user_succeeds username email first last password names d up name_free email_free h =
        let (t, (e, up1)) = v.login_answers login_url config.username config.password gs d up in
        let d1 = (login s config d).1 in
        let keeps = v.login_frees login_url config.username config.password in
        let (e', up2) =
          create_user-succeeds t.token username email first last d1 up1 (keeps _ _ d name_free)
            (keeps _ _ d email_free) in
        let d2 = (create_user s config t.token username email first last d1).1 in
        let (_, (r, _)) = equip_user-Works t.token username password names h d2 up2 in
        rw e (rw e' r)
