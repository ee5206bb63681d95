-- ===== src/Lldap/Provision.antt =====
-- What provisioning an account leaves in the directory.
use rust_invite_system.Common.{
  ℕ, ◌≡◌, refl, ◌∙◌, Bool, false, List, [], ◌∷◌, Text, Result, ok, err, ok_or,
}
use rust_invite_system.Config.{LldapConfig}
use rust_invite_system.Lldap.{
  LldapError, graphql, unknown_group, ldap_transport_url, ldap_settings, find_group,
}
use rust_invite_system.Validation.{validate_username}
use rust_invite_system.Lldap.Service.{Service, GroupRecord, LdapSettings}
use rust_invite_system.Steps.{continue, ◌>>=◌, pure, lift}
use rust_invite_system.Lldap.Client.{
  Action, request, undo_on, or_undo, ldap, login, create_user, delete_user, list_groups,
  add_user_to_group, set_password, add_groups, equip_user, provision_user, delete_user_account,
  user_exists, admin_dn, user_dn,
}
use rust_invite_system.Lldap.Directory.{IsDirectory}

-- An action that keeps a property of the directory, whether it returns or fails.
abbrev pub Keeps : {D A : Type 0} → (D → Type 0) → Action D A → Type 0
Keeps {D} P m = (d : D) → P d → P (m d).1

pub Keeps-bind :
    {D A B : Type 0} {P : D → Type 0} (m : Action D A) (f : A → Action D B)
    → Keeps P m
    → ((a : A) → Keeps P (f a))
    → Keeps P (m >>= f)
Keeps-bind {D} {A} {B} {P} m f km kf d h = go (m d).0 (m d).1 (km d h)
  where
    go : (r : Result A LldapError) (d' : D) → P d' → P (continue r f d').1
    go (ok a) d' h' = kf a d' h'
    go (err e) d' h' = h'

Keeps-or_undo :
    {D A : Type 0} {P : D → Type 0} (m : Action D A) (undo : Action D (Unit {0}))
    → Keeps P m
    → Keeps P undo
    → Keeps P (or_undo m undo)
Keeps-or_undo {D} {A} {P} m undo km ku d h = go (m d).0 (m d).1 (km d h)
  where
    go : (r : Result A LldapError) (d' : D) → P d' → P (undo_on r undo d').1
    go (ok a) d' h' = h'
    go (err e) d' h' = ku d' h'

module _ (s : Service) (config : LldapConfig) (i : IsDirectory s) where
  open s use {Directory}

  -- What is held for a name.
  abbrev pub Holds : Text → i.Account → Directory → Type 0
  Holds v x d = i.account d v ≡ x

  -- Whether an account is there.
  abbrev pub Has : Text → Bool → Directory → Type 0
  Has v b d = i.has_user d v ≡ b

  -- What leaves all that is held for a name leaves the account there or not.
  pub Keeps-there :
      {A : Type 0} (m : Action Directory A) (v : Text)
      → ((x : i.Account) → Keeps (Holds v x) m)
      → (b : Bool) → Keeps (Has v b) m
  Keeps-there m v k b d h = i.has_account (m d).1 d v (k (i.account d v) d refl) ∙ h

  pub login-Keeps : (v : Text) (x : i.Account) → Keeps (Holds v x) (login s config)
  unfolding login
  login-Keeps v x d h = i.login_keeps _ _ _ d v ∙ h

  pub list_groups-Keeps :
      (v token : Text) (x : i.Account) → Keeps (Holds v x) (list_groups s config token)
  unfolding list_groups
  list_groups-Keeps v token x d h = i.list_keeps _ _ d v ∙ h

  pub add_user_to_group-Keeps :
      (v token username : Text) (group : ℕ) (b : Bool)
      → Keeps (Has v b) (add_user_to_group s config token username group)
  unfolding add_user_to_group
  add_user_to_group-Keeps v token username group b =
      Keeps-bind (request (s.post_add_user_to_group _ token username group)) (λ _. pure tt)
        (λ d h. i.add_keeps _ _ _ _ d v ∙ h) (λ a d h. h)

  -- The requests of `set_password` that change nothing, around the one that sets it.
  set_password_around :
      (P : Directory → Type 0) (username password : Text)
      → ((c : LdapSettings) (url : Text) → Keeps P (ldap (s.ldap_connect c url)))
      → Keeps P (ldap (s.ldap_bind (admin_dn config) config.password))
      → Keeps P (ldap s.ldap_unbind)
      → Keeps P (ldap (s.ldap_password_modify (user_dn config username) password))
      → Keeps P (set_password s config username password)
  unfolding set_password
  set_password_around P username password connects binds unbinds modifies =
      Keeps-bind (lift (ldap_settings s.ca_file config)) _ (λ d h. h)
        λ st.
          Keeps-bind (ldap (s.ldap_connect st (ldap_transport_url config))) _
            (connects st (ldap_transport_url config))
            λ _. Keeps-bind (ldap (s.ldap_bind (admin_dn config) config.password)) _ binds λ _.
              Keeps-bind (ldap (s.ldap_password_modify (user_dn config username) password)) _
                modifies λ _. unbinds

  pub set_password-Keeps :
      (v username password : Text) (b : Bool)
      → Keeps (Has v b) (set_password s config username password)
  set_password-Keeps v username password b =
      set_password_around (Has v b) username password
        (λ c url.
          Keeps-there (ldap (s.ldap_connect c url)) v (λ x d h. i.connect_keeps c url d v ∙ h) b)
        (Keeps-there (ldap (s.ldap_bind (admin_dn config) config.password)) v
          (λ x d h. i.bind_keeps _ _ d v ∙ h) b)
        (Keeps-there (ldap s.ldap_unbind) v (λ x d h. i.unbind_keeps d v ∙ h) b)
        (λ d h. i.modify_keeps _ _ d v ∙ h)

  module _ (v username : Text) (other : i.same username v ≡ false) (x : i.Account) where
    create_user-others :
        (token email first last : Text)
        → Keeps (Holds v x) (create_user s config token username email first last)
    unfolding create_user
    create_user-others token email first last =
        Keeps-bind (request (s.post_create_user _ token username email _ first last)) _
          (λ d h. i.create_others _ _ _ _ _ _ _ d v other ∙ h) (λ a d h. h)

    delete_user-others : (token : Text) → Keeps (Holds v x) (delete_user s config token username)
    unfolding delete_user
    delete_user-others token =
        Keeps-bind (request (s.post_delete_user _ token username)) _
          (λ d h. i.delete_others _ _ _ d v other ∙ h) (λ a d h. h)

    add_user_to_group-others :
        (token : Text) (group : ℕ)
        → Keeps (Holds v x) (add_user_to_group s config token username group)
    unfolding add_user_to_group
    add_user_to_group-others token group =
        Keeps-bind (request (s.post_add_user_to_group _ token username group)) (λ _. pure tt)
          (λ d h. i.add_others _ _ _ _ d v other ∙ h) (λ a d h. h)

    add_groups-others :
        (token : Text) (records : List GroupRecord) (names : List Text)
        → Keeps (Holds v x) (add_groups s config token username records names)
    unfolding add_groups
    add_groups-others token records [] = λ d h. h
    add_groups-others token records (name ∷ names) =
        Keeps-bind (lift (ok_or (find_group name records) (graphql (unknown_group name)))) _
          (λ d h. h)
          λ g.
            Keeps-bind
              (or_undo (add_user_to_group s config token username g.id)
                (delete_user s config token username))
              _
              (Keeps-or_undo (add_user_to_group s config token username g.id)
                (delete_user s config token username) (add_user_to_group-others token g.id)
                (delete_user-others token))
              λ _. add_groups-others token records names

    delete_user_account-Keeps : Keeps (Holds v x) (delete_user_account s config username)
    unfolding delete_user_account
    delete_user_account-Keeps =
        Keeps-bind (login s config) _ (login-Keeps v x) λ token. delete_user-others token

    module _ (valid : validate_username username ≡ ok tt) where
      set_password-others :
          (password : Text) → Keeps (Holds v x) (set_password s config username password)
      unfolding user_dn
      set_password-others password =
          set_password_around (Holds v x) username password
            (λ c url d h. i.connect_keeps c url d v ∙ h) (λ d h. i.bind_keeps _ _ d v ∙ h)
            (λ d h. i.unbind_keeps d v ∙ h)
            (λ d h. i.modify_others config.base_dn username password d v valid other ∙ h)

      equip_user-others :
          (token password : Text) (groups : List Text)
          → Keeps (Holds v x) (equip_user s config token username password groups)
      unfolding equip_user
      equip_user-others token password groups =
          Keeps-bind
            (or_undo (set_password s config username password)
              (delete_user s config token username))
            _
            (Keeps-or_undo (set_password s config username password)
              (delete_user s config token username) (set_password-others password)
              (delete_user-others token))
            λ _.
              Keeps-bind
                (or_undo (list_groups s config token) (delete_user s config token username)) _
                (Keeps-or_undo (list_groups s config token) (delete_user s config token username)
                  (list_groups-Keeps v token x) (delete_user-others token))
                λ records. add_groups-others token records groups

      provision_user-Keeps :
          (email first last password : Text) (groups : List Text)
          → Keeps (Holds v x) (provision_user s config username email first last password groups)
      unfolding provision_user
      provision_user-Keeps email first last password groups =
          Keeps-bind (login s config) _ (login-Keeps v x) λ token.
            Keeps-bind (create_user s config token username email first last) _
              (create_user-others token email first last)
              λ _. equip_user-others token password groups

  pub create_user-spares :
      (v username : Text) (other : i.same username v ≡ false) (b : Bool)
      (token email first last : Text)
      → Keeps (Has v b) (create_user s config token username email first last)
  create_user-spares v username other b token email first last =
      Keeps-there (create_user s config token username email first last) v
        (λ x. create_user-others v username other x token email first last) b

  pub delete_user-spares :
      (v username : Text) (other : i.same username v ≡ false) (b : Bool) (token : Text)
      → Keeps (Has v b) (delete_user s config token username)
  delete_user-spares v username other b token =
      Keeps-there (delete_user s config token username) v
        (λ x. delete_user-others v username other x token) b

  -- With a directory that keeps the laws relied on, provisioning an account with a valid name
  -- leaves all that is held for other names as it was, whichever requests fail.
  pub provision_user_spares :
      (username v email first last password : Text) (groups : List Text) (d : Directory)
      → validate_username username ≡ ok tt
      → i.same username v ≡ false
      → i.account (provision_user s config username email first last password groups d).1 v
        ≡ i.account d v
  provision_user_spares username v email first last password groups d valid other =
      provision_user-Keeps v username other (i.account d v) valid email first last password groups d
        refl

  -- With a directory that keeps the laws relied on, deleting an account leaves all that is held
  -- for other names as it was.
  pub delete_user_account_spares :
      (username v : Text) (d : Directory)
      → i.same username v ≡ false
      → i.account (delete_user_account s config username d).1 v ≡ i.account d v
  delete_user_account_spares username v d other =
      delete_user_account-Keeps v username other (i.account d v) d refl

  -- Looking an account up changes none.
  pub user_exists_spares :
      (field value v : Text) (d : Directory)
      → i.account (user_exists s config field value d).1 v ≡ i.account d v
  unfolding user_exists
  user_exists_spares field value v d =
      Keeps-bind {P = Holds v (i.account d v)} (login s config) _ (login-Keeps v (i.account d v))
        (λ token.
          Keeps-bind {P = Holds v (i.account d v)}
            (request (s.post_lookup_users _ token field value)) _
            (λ d' h. i.lookup_keeps _ _ _ _ d' v ∙ h) (λ a d' h. h))
        d refl
