-- ===== src/Lldap/Owned.antt =====
-- Which account the requests of an operation may create and delete.
use rust_invite_system.Common.{
  ◌≡◌, refl, Bool, true, false, not, List, [], ◌∷◌, ◌++◌, Text, codes, Result, ok, err, ok_or,
  is_empty, Result-cases, inl, inr,
}
use rust_invite_system.Config.{LldapConfig}
use rust_invite_system.Steps.Processes.{Process, ◌>>=◌, atom, or_undo}
use rust_invite_system.Steps.Owners.{
  Careful, Careful-atom, Careful-given, Careful-bind, Careful-then, Then, OrUndo, Careful-or_undo,
}
use rust_invite_system.Lldap.Accounts.{There, Spares, Moves, Moves-unchanged}
use rust_invite_system.Lldap.{
  LldapError, graphql, unknown_group, ldap_settings, find_group, ldap_transport_url, endpoint,
  read_reply,
}
use rust_invite_system.Lldap.Service.{Service, GroupRecord}
use rust_invite_system.Lldap.Client.{
  Action, request, ldap, login, create_user, delete_user, list_groups, add_user_to_group, admin_dn,
  user_dn,
}
use rust_invite_system.Lldap.Directory.{IsDirectory, RefusesTaken}
use rust_invite_system.Lldap.Provision.{
  Keeps-there, list_groups-Keeps, create_user-spares, delete_user-spares, add_user_to_group-Keeps,
}
use rust_invite_system.Lldap.Requests.{
  user_exists_requests, set_password_requests, add_groups_requests, equip_user_requests,
  provision_user_requests, delete_user_account_requests,
}

-- An operation that succeeds has the account in the end.
abbrev pub Made : Bool → Result (Unit {0}) LldapError → Type 0
Made owner r = r ≡ ok tt → owner ≡ true

module _ (s : Service) (config : LldapConfig) (i : IsDirectory s) (username : Text) where
  open s use {Directory}

  abbrev Here : Directory → Type 0
  Here = There i.has_user i.same username

  abbrev Moving : Bool → Bool → Directory → Directory → Type 0
  Moving = Moves i.has_user i.same username

  abbrev Owns :
      {A : Type 0}
      → (Bool → Result A LldapError → Type 0)
      → Bool
      → Process Directory LldapError A
      → Type 0
  Owns = Careful Here Moving

  kept_atom :
      {A : Type 0} (Q : Bool → Result A LldapError → Type 0) (owner : Bool) (m : Action Directory A)
      → ((d : Directory) (v : Text) → i.has_user (m d).1 v ≡ i.has_user d v)
      → ((d : Directory) → Q owner (m d).0)
      → Owns Q owner (atom m)
  kept_atom Q owner m keeps q =
      Careful-atom Here Moving Q owner m
        (λ d there. Moves-unchanged i.has_user i.same username owner d (m d).1 (keeps d) there) q

  kept_then :
      {A B : Type 0} (Q : Bool → Result B LldapError → Type 0) (owner : Bool)
      (f : A → Process Directory LldapError B)
      → ((a : A) → Owns Q owner (f a))
      → ((e : LldapError) → Q owner (err e))
      → (m : Action Directory A)
      → ((d : Directory) (v : Text) → i.has_user (m d).1 v ≡ i.has_user d v)
      → Owns Q owner (atom m >>= f)
  kept_then Q owner f rest fails m keeps =
      Careful-then Here Moving Q owner f rest fails m
        (λ d there. Moves-unchanged i.has_user i.same username owner d (m d).1 (keeps d) there)

  pub user_exists-Careful :
      (Q : Bool → Result Bool LldapError → Type 0) (owner : Bool) (field value : Text)
      → ((r : Result Bool LldapError) → Q owner r)
      → Owns Q owner (user_exists_requests s config field value)
  unfolding user_exists_requests login
  user_exists-Careful Q owner field value q =
      kept_then Q owner _
        (λ token.
          kept_then Q owner _ (λ response. q (ok (not (is_empty response.users)))) (λ e. q (err e))
            (request
              (s.post_lookup_users (endpoint config (codes "/api/graphql")) token field value))
            (λ d v. i.has_account _ _ v (i.lookup_keeps _ _ _ _ d v)))
        (λ e. q (err e)) (login s config) (λ d v. i.has_account _ _ v (i.login_keeps _ _ _ d v))

  set_password-Careful :
      (Q : Bool → Result (Unit {0}) LldapError → Type 0) (owner : Bool) (password : Text)
      → ((r : Result (Unit {0}) LldapError) → Q owner r)
      → Owns Q owner (set_password_requests s config username password)
  unfolding set_password_requests
  set_password-Careful Q owner password q =
      Careful-given Here Moving Q owner _
        (λ settings.
          kept_then Q owner _
            (λ _.
              kept_then Q owner _
                (λ _.
                  kept_then Q owner _
                    (λ _.
                      kept_atom Q owner (ldap s.ldap_unbind)
                        (λ d v. i.has_account _ _ v (i.unbind_keeps d v)) (λ d. q _))
                    (λ e. q (err e))
                    (ldap (s.ldap_password_modify (user_dn config username) password))
                    (λ d v. i.modify_keeps _ _ d v))
                (λ e. q (err e)) (ldap (s.ldap_bind (admin_dn config) config.password))
                (λ d v. i.has_account _ _ v (i.bind_keeps _ _ d v)))
            (λ e. q (err e)) (ldap (s.ldap_connect settings (ldap_transport_url config)))
            (λ d v. i.has_account _ _ v (i.connect_keeps _ _ d v)))
        (λ e. q (err e)) (ldap_settings s.ca_file config)

  -- Deleting the account, as its owner.
  delete_user-Careful :
      (Q : Bool → Result (Unit {0}) LldapError → Type 0) (token : Text)
      → ((r : Result (Unit {0}) LldapError) → Q false r)
      → Owns Q true (atom (delete_user s config token username))
  delete_user-Careful Q token q d there = (
    false,
    ((λ v other. delete_user-spares s config i v username other (i.has_user d v) token d refl), tt),
    q _,
  )

  -- As the owner: whatever fails, or has the account deleted, and the operation fails.
  module _ (Q : Bool → Result (Unit {0}) LldapError → Type 0)
      (fails : (b : Bool) (e : LldapError) → Q b (err e)) (token : Text) where
    or_delete-Careful :
        {A : Type 0} (p : Process Directory LldapError A)
        (f : A → Process Directory LldapError (Unit {0}))
        → ((R : Bool → Result A LldapError → Type 0)
            → ((r : Result A LldapError) → R true r)
            → Owns R true p)
        → ((a : A) → Owns Q true (f a))
        → Owns Q true (or_undo p (atom (delete_user s config token username)) >>= f)
    or_delete-Careful {A} p f careful rest = Careful-bind Here Moving Q f true _ (
        Careful-or_undo Here Moving (Then Here Moving Q f)
          (atom (delete_user s config token username)) true p (careful _ go))
      where
        go :
            (r : Result A LldapError)
            → OrUndo Here Moving
                (Then Here Moving Q f)
                (atom (delete_user s config token username))
                true
                r
        go (ok a) = rest a
        go (err e) = delete_user-Careful (λ b _. Q b (err e)) token (λ r. fails false e)

    add_groups-Careful :
        Q true (ok tt)
        → (records : List GroupRecord) (names : List Text)
        → Owns Q true (add_groups_requests s config token username records names)
    unfolding add_groups_requests
    add_groups-Careful made records [] = made
    add_groups-Careful made records (name ∷ names) =
        Careful-given Here Moving Q true _
          (λ group.
            or_delete-Careful (atom (add_user_to_group s config token username group.id)) _
              (λ R r.
                kept_atom R true (add_user_to_group s config token username group.id)
                  (λ d v.
                    add_user_to_group-Keeps s config i v token username group.id (i.has_user d v) d
                      refl)
                  (λ d. r _))
              (λ _. add_groups-Careful made records names))
          (fails true) (ok_or (find_group name records) (graphql (unknown_group name)))

    equip_user-Careful :
        Q true (ok tt)
        → (password : Text) (groups : List Text)
        → Owns Q true (equip_user_requests s config token username password groups)
    unfolding equip_user_requests
    equip_user-Careful made password groups =
        or_delete-Careful (set_password_requests s config username password) _
          (λ R r. set_password-Careful R true password r)
          (λ _.
            or_delete-Careful (atom (list_groups s config token)) _
              (λ R r.
                kept_atom R true (list_groups s config token)
                  (λ d v.
                    Keeps-there s config i (list_groups s config token) v
                      (λ x. list_groups-Keeps s config i v token x) (i.has_user d v) d refl)
                  (λ d. r _))
              (λ records. add_groups-Careful made records groups))

  module _ (taken : RefusesTaken s i) (email first last token : Text) where
    abbrev create : Action Directory (Unit {0})
    create = create_user s config token username email first last

    -- It returns, and the account is new; or it fails, and an account that was there still is.
    data Created (d : Directory) (out : Result (Unit {0}) LldapError × Directory) : Type 0 where
      made :
          out.0 ≡ ok tt
          → i.has_user d username ≡ false
          → i.has_user out.1 username ≡ true
          → Created d out
      failed :
          (e : LldapError)
          → out.0 ≡ err e
          → (i.has_user d username ≡ true → i.has_user out.1 username ≡ true)
          → Created d out

    create_user-Created : (d : Directory) → Created d (create d)
    unfolding create_user
    create_user-Created d =
        let url = endpoint config (codes "/api/graphql") in
        let name = first ++ (codes " " ++ last) in
        let out = s.post_create_user url token username email name first last d in
        elim (Result-cases (read_reply out.0)) [
          | inr (e, r) ↦
              failed e (rw r refl)
                (λ there. rw r (taken.kept url token username email name first last d there))
          | inl (a, r) ↦
              made (rw r refl)
                (not_true (i.has_user d username)
                  (λ there. taken.refused url token username email name first last d a there r))
                (rw r (i.create_adds url token username email name first last d a r))
        ]
      where
        not_true : (b : Bool) → ¬ (b ≡ true) → b ≡ false
        not_true false n = refl
        not_true true n = elim (n refl) [ ]

    create_user-Careful :
        (R : Bool → Result (Unit {0}) LldapError → Type 0)
        → R true (ok tt)
        → ((e : LldapError) → R false (err e))
        → Owns R false (atom create)
    create_user-Careful R created refused d there = elim (create_user-Created d) [
      | made r absent now ↦ (true, (spares, (absent, now)), rw r created)
      | failed e r kept ↦ (false, (spares, kept), rw r (refused e))
    ]
      where
        spares : Spares i.has_user i.same username d (create d).1
        spares v other =
            create_user-spares s config i v username other (i.has_user d v) token email first last d
              refl

  -- Provisioning creates the account where it was not there, deletes it only after that, and
  -- succeeds only with the account still its own.
  pub provision_user-Careful :
      RefusesTaken s i
      → (email first last password : Text) (groups : List Text)
      → Owns Made false (provision_user_requests s config username email first last password groups)
  unfolding provision_user_requests
  provision_user-Careful taken email first last password groups =
      kept_then Made false _
        (λ token. Careful-bind Here Moving Made _ false (atom _) (
          create_user-Careful taken email first last token (Then Here Moving Made _)
            (equip_user-Careful Made (λ b e h. cc) token (λ _. refl) password groups) (λ e h. cc)))
        (λ e h. cc) (login s config) (λ d v. i.has_account _ _ v (i.login_keeps _ _ _ d v))

  pub delete_user_account-Careful :
      (Q : Bool → Result (Unit {0}) LldapError → Type 0)
      → ((b : Bool) (r : Result (Unit {0}) LldapError) → Q b r)
      → Owns Q true (delete_user_account_requests s config username)
  unfolding delete_user_account_requests
  delete_user_account-Careful Q q =
      kept_then Q true _ (λ token. delete_user-Careful Q token (q false)) (λ e. q true (err e))
        (login s config) (λ d v. i.has_account _ _ v (i.login_keeps _ _ _ d v))
