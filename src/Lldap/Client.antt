-- ===== src/Lldap/Client.antt =====
-- The operations of `LldapClient` over a directory service.
use rust_invite_system.Common.{
  ℕ, Bool, not, Option, none, some, List, [], ◌∷◌, ◌++◌, Text, codes, Result, ok, err, ok_or,
  is_empty, if◌then◌else◌,
}
use rust_invite_system.Steps.{Step, ◌>>=◌, ◌>>◌, pure, lift}
use rust_invite_system.Config.{LldapConfig}
use rust_invite_system.Lldap.{
  LldapError, http, graphql, unknown_group, ldap_failed, read_reply, endpoint, ldap_transport_url,
  ldap_settings, find_group,
}
use rust_invite_system.Lldap.Service.{LoginResponse, Service, GroupRecord, Reply}

abbrev map_ok : {A B : Type 0} → (A → B) → Result A LldapError → Result B LldapError
map_ok f (ok a) = ok (f a)
map_ok f (err e) = err e

-- An action on the directory, with `?`.
abbrev pub Action : Type 0 → Type 0 → Type 0
Action D A = Step D LldapError A

module _ {D A : Type 0} where
  -- A GraphQL request, and `graphql` on its answer.
  abbrev pub request : (D → Reply A × D) → Action D A
  request f d = let (r, d') = f d in (read_reply r, d')

  -- The same, with a part of the data of the answer.
  abbrev pub request_part : {T : Type 0} → (T → A) → (D → Reply T × D) → Action D A
  request_part part f d = let (r, d') = f d in (map_ok part (read_reply r), d')

  -- `if let Err(error) = m { let _ = undo; return Err(error); }`
  abbrev pub undo_on : Result A LldapError → Action D (Unit {0}) → Action D A
  undo_on (ok a) undo d = (ok a, d)
  undo_on (err e) undo d = (err e, (undo d).1)

  abbrev pub or_undo : Action D A → Action D (Unit {0}) → Action D A
  or_undo m undo d = let (r, d') = m d in undo_on r undo d'

abbrev pub token_of : Option LoginResponse → Option Text
token_of none = none
token_of (some response) = some response.token

-- An LDAP request that succeeds or fails.
abbrev pub ldap : {D : Type 0} → (D → Bool × D) → Action D (Unit {0})
ldap f d = let (b, d') = f d in (if b then ok tt else err (graphql ldap_failed), d')

-- The account names that LDAP takes.
unfoldable pub admin_dn : LldapConfig → Text
admin_dn config = codes "cn=" ++ (config.username ++ (codes ",ou=people," ++ config.base_dn))

unfoldable pub user_dn : LldapConfig → Text → Text
user_dn config username = codes "uid=" ++ (username ++ (codes ",ou=people," ++ config.base_dn))

module _ (s : Service) (config : LldapConfig) where
  open s use {Directory}

  unfoldable pub login : Action Directory Text
  login d =
      let (r, d') =
        s.post_login (endpoint config (codes "/auth/simple/login")) config.username config.password
          d in
      (ok_or (token_of r) http, d')

  abbrev graphql_url : Text
  graphql_url = endpoint config (codes "/api/graphql")

  unfoldable pub create_user : Text → Text → Text → Text → Text → Action Directory (Unit {0})
  create_user token username email first_name last_name = do
    request (
        s.post_create_user graphql_url token username email (first_name ++ (codes " " ++ last_name))
          first_name last_name)
    pure tt

  -- The server's `ok` is not looked at.
  unfoldable pub delete_user : Text → Text → Action Directory (Unit {0})
  delete_user token username = do request (s.post_delete_user graphql_url token username); pure tt

  unfoldable pub list_groups : Text → Action Directory (List GroupRecord)
  list_groups token =
      request_part (λ response. response.groups) (s.post_list_groups graphql_url token)

  unfoldable pub user_exists : Text → Text → Action Directory Bool
  unfolding login
  user_exists field value = do
    token ← login
    response ← request (s.post_lookup_users graphql_url token field value)
    pure (not (is_empty response.users))

  unfoldable pub username_exists : Text → Action Directory Bool
  unfolding user_exists
  username_exists username = user_exists (codes "id") username

  unfoldable pub email_exists : Text → Action Directory Bool
  unfolding user_exists
  email_exists email = user_exists (codes "email") email

  -- The server's `ok` is not looked at.
  unfoldable pub add_user_to_group : Text → Text → ℕ → Action Directory (Unit {0})
  add_user_to_group token username group = do
    request (s.post_add_user_to_group graphql_url token username group)
    pure tt

  unfoldable pub set_password : Text → Text → Action Directory (Unit {0})
  set_password username password = do
    settings ← lift (ldap_settings s.ca_file config)
    ldap (s.ldap_connect settings (ldap_transport_url config))
    ldap (s.ldap_bind (admin_dn config) config.password)
    ldap (s.ldap_password_modify (user_dn config username) password)
    ldap s.ldap_unbind

  -- The loop over the invite's groups. A group that the directory does not have ends it by `?`,
  -- outside the handler that deletes the user.
  unfoldable pub add_groups :
      Text → Text → List GroupRecord → List Text → Action Directory (Unit {0})
  unfolding add_user_to_group delete_user
  add_groups token username records [] = pure tt
  add_groups token username records (name ∷ names) = do
    group ← lift (ok_or (find_group name records) (graphql (unknown_group name)))
    or_undo (add_user_to_group token username group.id) (delete_user token username)
    add_groups token username records names

  -- `provision_user` once the account is created.
  unfoldable pub equip_user : Text → Text → Text → List Text → Action Directory (Unit {0})
  unfolding set_password delete_user list_groups add_groups
  equip_user token username password groups = do
    or_undo (set_password username password) (delete_user token username)
    records ← or_undo (list_groups token) (delete_user token username)
    add_groups token username records groups

  unfoldable pub provision_user :
      Text → Text → Text → Text → Text → List Text → Action Directory (Unit {0})
  unfolding login create_user equip_user
  provision_user username email first_name last_name password groups = do
    token ← login
    create_user token username email first_name last_name
    equip_user token username password groups

  unfoldable pub delete_user_account : Text → Action Directory (Unit {0})
  unfolding login delete_user
  delete_user_account username = do token ← login; delete_user token username
