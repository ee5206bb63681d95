-- ===== src/Lldap/Requests.antt =====
-- The operations of the client that make several requests, cut at them.
use rust_invite_system.Common.{
  Bool, not, List, [], ◌∷◌, ◌≡◌, refl, ◌∙◌, Text, codes, Result, ok, err, ok_or, is_empty,
}
use rust_invite_system.Config.{LldapConfig}
use rust_invite_system.Steps.Processes.{
  Process, done, ◌>>=◌, ◌>>◌, pure, atom, or_undo, run, Runs, atom-Runs, done-Runs, bind-Runs,
  undone, run-or_undo,
}
use rust_invite_system.Lldap.{
  LldapError, graphql, unknown_group, ldap_transport_url, ldap_settings, find_group, endpoint,
}
use rust_invite_system.Lldap.Service.{Service, GroupRecord}
use rust_invite_system.Lldap.Client.{
  Action, request, undo_on, ldap, login, create_user, delete_user, list_groups, user_exists,
  add_user_to_group, set_password, add_groups, equip_user, provision_user, delete_user_account,
  admin_dn, user_dn,
}
use rust_invite_system.Lldap.Client

module _ (s : Service) (config : LldapConfig) where
  open s use {Directory}

  abbrev pub Requests : Type 0 → Type 0
  Requests A = Process Directory LldapError A

  unfoldable pub user_exists_requests : Text → Text → Requests Bool
  unfolding login
  user_exists_requests field value = do
    token ← atom (login s config)
    response ←
        atom
          (request (s.post_lookup_users (endpoint config (codes "/api/graphql")) token field value))
    pure (not (is_empty response.users))

  unfoldable pub set_password_requests : Text → Text → Requests (Unit {0})
  set_password_requests username password = do
    settings ← done (ldap_settings s.ca_file config)
    atom (ldap (s.ldap_connect settings (ldap_transport_url config)))
    atom (ldap (s.ldap_bind (admin_dn config) config.password))
    atom (ldap (s.ldap_password_modify (user_dn config username) password))
    atom (ldap s.ldap_unbind)

  unfoldable pub add_groups_requests :
      Text → Text → List GroupRecord → List Text → Requests (Unit {0})
  unfolding add_user_to_group delete_user
  add_groups_requests token username records [] = pure tt
  add_groups_requests token username records (name ∷ names) = do
    group ← done (ok_or (find_group name records) (graphql (unknown_group name)))
    or_undo (atom (add_user_to_group s config token username group.id))
        (atom (delete_user s config token username))
    add_groups_requests token username records names

  unfoldable pub equip_user_requests : Text → Text → Text → List Text → Requests (Unit {0})
  unfolding set_password_requests delete_user list_groups add_groups_requests
  equip_user_requests token username password groups = do
    or_undo (set_password_requests username password) (atom (delete_user s config token username))
    records ←
        or_undo (atom (list_groups s config token)) (atom (delete_user s config token username))
    add_groups_requests token username records groups

  unfoldable pub provision_user_requests :
      Text → Text → Text → Text → Text → List Text → Requests (Unit {0})
  unfolding login create_user equip_user_requests
  provision_user_requests username email first_name last_name password groups = do
    token ← atom (login s config)
    atom (create_user s config token username email first_name last_name)
    equip_user_requests token username password groups

  unfoldable pub delete_user_account_requests : Text → Requests (Unit {0})
  unfolding login delete_user
  delete_user_account_requests username = do
    token ← atom (login s config)
    atom (delete_user s config token username)

  -- The undoing requests, all of them.
  or_undo-Runs :
      {A : Type 0} (p : Requests A) (m : Action Directory A) (undo : Action Directory (Unit {0}))
      → Runs p m
      → Runs (or_undo p (atom undo)) (Client.or_undo m undo)
  unfolding run
  or_undo-Runs {A} p m undo h d = run-or_undo p (atom undo) d ∙ rw (h d) (go (m d).0 (m d).1)
    where
      go :
          (r : Result A LldapError) (d' : Directory)
          → undone (atom undo) (r, d') ≡ undo_on r undo d'
      go (ok a) d' = refl
      go (err e) d' = refl

  pub user_exists-Runs :
      (field value : Text)
      → Runs (user_exists_requests field value) (user_exists s config field value)
  unfolding user_exists user_exists_requests
  user_exists-Runs field value =
      bind-Runs (atom (login s config)) (login s config) _ _ (atom-Runs (login s config)) λ token.
        let m =
          request
            (s.post_lookup_users (endpoint config (codes "/api/graphql")) token field value) in
        bind-Runs (atom m) m _ _ (atom-Runs m)
          λ response. done-Runs (ok (not (is_empty response.users)))

  set_password-Runs :
      (username password : Text)
      → Runs (set_password_requests username password) (set_password s config username password)
  unfolding set_password set_password_requests
  set_password-Runs username password =
      bind-Runs (done (ldap_settings s.ca_file config)) _ _ _ (done-Runs _) λ settings.
        bind-Runs (atom _) (ldap (s.ldap_connect settings (ldap_transport_url config))) _ _
          (atom-Runs _)
          λ _.
            bind-Runs (atom _) (ldap (s.ldap_bind (admin_dn config) config.password)) _ _
              (atom-Runs _)
              λ _.
                bind-Runs (atom _)
                  (ldap (s.ldap_password_modify (user_dn config username) password)) _ _
                  (atom-Runs _) λ _. atom-Runs (ldap s.ldap_unbind)

  add_groups-Runs :
      (token username : Text) (records : List GroupRecord) (names : List Text)
      → Runs
          (add_groups_requests token username records names)
          (add_groups s config token username records names)
  unfolding add_groups add_groups_requests
  add_groups-Runs token username records [] = done-Runs (ok tt)
  add_groups-Runs token username records (name ∷ names) =
      bind-Runs (done (ok_or (find_group name records) (graphql (unknown_group name)))) _ _ _
        (done-Runs _)
        λ group.
          bind-Runs
            (or_undo (atom (add_user_to_group s config token username group.id))
              (atom (delete_user s config token username)))
            (Client.or_undo (add_user_to_group s config token username group.id)
              (delete_user s config token username))
            _ _
            (or_undo-Runs (atom _) (add_user_to_group s config token username group.id)
              (delete_user s config token username) (atom-Runs _))
            λ _. add_groups-Runs token username records names

  equip_user-Runs :
      (token username password : Text) (groups : List Text)
      → Runs
          (equip_user_requests token username password groups)
          (equip_user s config token username password groups)
  unfolding equip_user equip_user_requests
  equip_user-Runs token username password groups =
      let undo = delete_user s config token username in
      bind-Runs (or_undo (set_password_requests username password) (atom undo))
        (Client.or_undo (set_password s config username password) undo) _ _
        (or_undo-Runs (set_password_requests username password)
          (set_password s config username password) undo (set_password-Runs username password))
        λ _.
          bind-Runs (or_undo (atom (list_groups s config token)) (atom undo))
            (Client.or_undo (list_groups s config token) undo) _ _
            (or_undo-Runs (atom _) (list_groups s config token) undo (atom-Runs _))
            λ records. add_groups-Runs token username records groups

  pub provision_user-Runs :
      (username email first last password : Text) (groups : List Text)
      → Runs
          (provision_user_requests username email first last password groups)
          (provision_user s config username email first last password groups)
  unfolding provision_user provision_user_requests
  provision_user-Runs username email first last password groups =
      bind-Runs (atom (login s config)) (login s config) _ _ (atom-Runs _) λ token.
        bind-Runs (atom _) (create_user s config token username email first last) _ _ (atom-Runs _)
          λ _. equip_user-Runs token username password groups

  pub delete_user_account-Runs :
      (username : Text)
      → Runs (delete_user_account_requests username) (delete_user_account s config username)
  unfolding delete_user_account delete_user_account_requests
  delete_user_account-Runs username =
      bind-Runs (atom (login s config)) (login s config) _ _ (atom-Runs _)
        λ token. atom-Runs (delete_user s config token username)
