-- ===== src/Lldap/Outcome.antt =====
-- Whether the new account is there after provisioning, and what it belongs to.
use rust_invite_system.Common.{
  ◌≡◌, inl, inr, Bool, true, false, List, [], ◌∷◌, ◌++◌, Text, codes, Result, ok, err, Option-cases,
  Result-cases, Bool-cases, refl, ap, sym, ◌∙◌, ◌⊎◌,
}
use rust_invite_system.Config.{LldapConfig}
use rust_invite_system.Lldap.{LldapError, graphql, unknown_group, read_reply, endpoint, find_group}
use rust_invite_system.Lldap.Service.{Service, GroupRecord, Reply, DeleteUserResponse}
use rust_invite_system.Steps.{continue, ◌>>=◌}
use rust_invite_system.Lldap.Client.{
  Action, undo_on, or_undo, login, create_user, delete_user, list_groups, add_user_to_group,
  set_password, add_groups, equip_user, provision_user,
}
use rust_invite_system.Lldap.Directory.{IsDirectory}
use rust_invite_system.Lldap.Provision.{
  Keeps, Keeps-there, login-Keeps, list_groups-Keeps, add_user_to_group-Keeps, set_password-Keeps,
}

-- Where an action that began with the account in place can end: it returned, and the account is
-- there; it failed, and a request to delete the account was the last; or it failed over a group
-- that the directory does not list, and the account is left behind.
pub data Ends {D A : Type 0} (has : D → Bool) (Undone : D → Type 0)
    : Result A LldapError × D → Type 0 where
  done : {a : A} {d : D} → has d ≡ true → Ends has Undone (ok a, d)
  undone : {e : LldapError} {d : D} → Undone d → Ends has Undone (err e, d)
  leaked :
      {name : Text} {d : D} → has d ≡ true → Ends has Undone (err (graphql (unknown_group name)), d)

module _ {D : Type 0} {has : D → Bool} {Undone : D → Type 0} where
  Ends-continue :
      {A B : Type 0} {out : Result A LldapError × D} (f : A → Action D B)
      → ((a : A) (d : D) → has d ≡ true → Ends has Undone (f a d))
      → Ends has Undone out
      → Ends has Undone (continue out.0 f out.1)
  Ends-continue f k (done {a} {d} h) = k a d h
  Ends-continue f k (undone h) = undone h
  Ends-continue f k (leaked h) = leaked h

  Ends-bind :
      {A B : Type 0} (m : Action D A) (f : A → Action D B) (d : D)
      → Ends has Undone (m d)
      → ((a : A) (d' : D) → has d' ≡ true → Ends has Undone (f a d'))
      → Ends has Undone ((m >>= f) d)
  Ends-bind m f d e k = Ends-continue f k e

  -- A step that keeps the account, with the handler that deletes it.
  Ends-or_undo :
      {A : Type 0} (m : Action D A) (undo : Action D (Unit {0})) (d : D)
      → Keeps (λ d'. has d' ≡ true) m
      → ((d' : D) → Undone (undo d').1)
      → has d ≡ true
      → Ends has Undone (or_undo m undo d)
  Ends-or_undo {A} m undo d keeps gone h = go (m d).0 (m d).1 (keeps d h)
    where
      go : (r : Result A LldapError) (d' : D) → has d' ≡ true → Ends has Undone (undo_on r undo d')
      go (ok a) d' h' = done h'
      go (err e) d' h' = undone (gone d')

module _ (s : Service) (config : LldapConfig) (i : IsDirectory s) where
  open s use {Directory}

  create_user-adds :
      (token username email first last : Text) (d : Directory)
      → (create_user s config token username email first last d).0 ≡ ok tt
      → i.has_user (create_user s config token username email first last d).1 username ≡ true
  unfolding create_user
  create_user-adds token username email first last d e =
      let url = endpoint config (codes "/api/graphql") in
      let name = first ++ (codes " " ++ last) in
      elim (Result-cases
        (read_reply (s.post_create_user url token username email name first last d).0)) [
          | inl (made, r) ↦ rw r (i.create_adds url token username email name first last d made r)
          | inr (x, r) ↦ let bad = rw r at e in cc
        ]

  module _ (username : Text) where
    -- What a request to delete the account answered and left.
    abbrev Deletion : Text → Directory → Reply DeleteUserResponse × Directory
    Deletion token d = s.post_delete_user (endpoint config (codes "/api/graphql")) token username d

    -- The last request was to delete the account: it is gone, or the server did not answer that it
    -- deleted it.
    pub record Undone (after : Directory) : Type 0 where
      pub token : Text
      pub before : Directory
      pub last : after ≡ (Deletion token before).1
      pub outcome :
          (i.has_user after username ≡ false)
          ⊎ ((r : DeleteUserResponse)
              → read_reply (Deletion token before).0 ≡ ok r
              → r.delete_user.ok ≡ false)

    pub delete_user-Undone :
        (token : Text) (d : Directory) → Undone (delete_user s config token username d).1
    unfolding delete_user
    delete_user-Undone token d = elim (Result-cases (read_reply (Deletion token d).0)) [
      | inr (x, r) ↦
          let unanswered : (r' : DeleteUserResponse)
              → read_reply (Deletion token d).0 ≡ ok r'
              → r'.delete_user.ok ≡ false =
            λ r' h. let bad = rw r at h in cc in
          rw r (record { token = token; before = d; last = refl; outcome = inr unanswered })
      | inl (answer, r) ↦ elim (Bool-cases answer.delete_user.ok) [
        | inl confirmed ↦
            let gone =
              i.delete_removes (endpoint config (codes "/api/graphql")) token username d answer r
                confirmed in
            rw r (record { token = token; before = d; last = refl; outcome = inl gone })
        | inr unsaid ↦
            let denied : (r' : DeleteUserResponse)
                → read_reply (Deletion token d).0 ≡ ok r'
                → r'.delete_user.ok ≡ false =
              λ r' h.
                let h' : ◌≡◌ {A = Result DeleteUserResponse LldapError} (ok answer) (ok r') =
                  rw r at h in
                let same : answer ≡ r' = cc in ap (λ x. x.delete_user.ok) (sym same) ∙ unsaid in
            rw r (record { token = token; before = d; last = refl; outcome = inr denied })
      ]
    ]

  module _ (token username : Text) where
    abbrev has : Directory → Bool
    has d = i.has_user d username

    add_groups-Ends :
        (records : List GroupRecord) (names : List Text) (d : Directory)
        → has d ≡ true
        → Ends has (Undone username) (add_groups s config token username records names d)
    unfolding add_groups
    add_groups-Ends records [] d h = done h
    add_groups-Ends records (name ∷ names) d h = elim (Option-cases (find_group name records)) [
      | inl missing ↦ rw (missing, add_groups) (leaked h)
      | inr (g, found) ↦
          rw (found, add_groups)
            (Ends-bind
              (or_undo (add_user_to_group s config token username g.id)
                (delete_user s config token username))
              _ d
              (Ends-or_undo (add_user_to_group s config token username g.id)
                (delete_user s config token username) d
                (add_user_to_group-Keeps s config i username token username g.id true)
                (delete_user-Undone username token) h)
              (λ a d' h'. add_groups-Ends records names d' h'))
    ]

    equip_user-Ends :
        (password : Text) (groups : List Text) (d : Directory)
        → has d ≡ true
        → Ends has (Undone username) (equip_user s config token username password groups d)
    unfolding equip_user
    equip_user-Ends password groups d h =
        Ends-bind
          (or_undo (set_password s config username password) (delete_user s config token username))
          _ d
          (Ends-or_undo (set_password s config username password)
            (delete_user s config token username) d
            (set_password-Keeps s config i username username password true)
            (delete_user-Undone username token) h)
          λ a d' h'.
            Ends-bind (or_undo (list_groups s config token) (delete_user s config token username)) _
              d'
              (Ends-or_undo (list_groups s config token) (delete_user s config token username) d'
                (Keeps-there s config i (list_groups s config token) username
                  (λ x. list_groups-Keeps s config i username token x) true)
                (delete_user-Undone username token) h')
              λ records d'' h''. add_groups-Ends records groups d'' h''

  -- The account was not made for certain: the client could not sign in, and asked for nothing else;
  -- or the request to create the user failed, and was the last.
  pub data NotCreated (username email first last : Text) (d : Directory) (e : LldapError)
      (after : Directory) : Type 0 where
    no_login :
        (login s config d).0 ≡ err e
        → ((v : Text) → i.account after v ≡ i.account d v)
        → NotCreated username email first last d e after
    refused :
        (token : Text)
        → (login s config d).0 ≡ ok token
        → create_user s config token username email first last (login s config d).1 ≡ (err e, after)
        → NotCreated username email first last d e after

  pub data Provisioned (username email first last : Text) (d : Directory)
      : Result (Unit {0}) LldapError × Directory → Type 0 where
    ended :
        {out : Result (Unit {0}) LldapError × Directory}
        → Ends (λ d'. i.has_user d' username) (Undone username) out
        → Provisioned username email first last d out
    not_created :
        {e : LldapError} {after : Directory}
        → NotCreated username email first last d e after
        → Provisioned username email first last d (err e, after)

  -- With a directory that keeps the laws relied on, provisioning ends in one of five ways: it
  -- returns, and the account is there; the client cannot log in, and all accounts are as they were;
  -- the request to create the account fails, and is the last one made; provisioning fails later,
  -- and the last request deletes the account, which is gone unless the server did not confirm it;
  -- or it fails over a group that the directory does not list, and the account is still there.
  pub provision_user-Provisioned :
      (username email first last password : Text) (groups : List Text) (d : Directory)
      → Provisioned username email first last d
          (provision_user s config username email first last password groups d)
  unfolding provision_user
  provision_user-Provisioned username email first last password groups d =
      elim (Result-cases (login s config d).0) [
        | inr (e, r) ↦
            rw (r, provision_user)
              (not_created (no_login r (λ v. login-Keeps s config i v (i.account d v) d refl)))
        | inl (token, r) ↦
            let d1 = (login s config d).1 in
            elim (Result-cases (create_user s config token username email first last d1).0) [
              | inr (e, r') ↦
                  let after = (create_user s config token username email first last d1).1 in
                  rw (r, provision_user)
                    (rw r' (not_created (refused token r (ap (λ x. (x, after)) r'))))
              | inl (u, r') ↦
                  rw (r, provision_user)
                    (rw r' (
                      ended (
                        equip_user-Ends token username password groups _
                          (create_user-adds token username email first last d1 r'))))
            ]
      ]
