-- ===== src/Lldap/Groups.antt =====
-- The groups of a new account, and what a group that the directory does not list leads to.
use rust_invite_system.Common.{
  ℕ, ◌≡◌, refl, inl, inr, true, none, some, List, [], ◌∷◌, Text, codes, ok, err, All, Option-cases,
  Result-cases, Bool-cases, Result, true, false, text_eq, text_eq_iff, subst,
}
use rust_invite_system.Config.{LldapConfig}
use rust_invite_system.Lldap.{LldapError, graphql, unknown_group, read_reply, endpoint, find_group}
use rust_invite_system.Lldap.Service.{Service, GroupRecord, AddUserToGroupResponse}
use rust_invite_system.Lldap.Client.{
  login, create_user, list_groups, set_password, add_groups, equip_user, provision_user,
}
use rust_invite_system.Lldap.Directory.{IsDirectory}
use rust_invite_system.Lldap.Provision.{Keeps-there, list_groups-Keeps, set_password-Keeps}

module _ (s : Service) (config : LldapConfig) (i : IsDirectory s) where
  open s use {Directory}

  -- The groups that the directory answers with have the names that it gives.
  Listed : List GroupRecord → Directory → Type 0
  Listed records d =
      (name : Text) (g : GroupRecord)
      → find_group name records ≡ some g
      → i.named d g.id name ≡ true

  find_group-named :
      (d : Directory) (records : List GroupRecord)
      → All (λ g. i.named d g.id g.display_name ≡ true) records
      → Listed records d
  unfolding Listed find_group
  find_group-named d [] h name g e = cc
  find_group-named d (r ∷ records) h name g e = elim (Bool-cases (text_eq r.display_name name)) [
    | inl same ↦
        let e' : some r ≡ some g = rw (same, find_group) at e in
        let first : r ≡ g = cc in
        subst (λ x. i.named d x.id name ≡ true) first
          (subst (λ n. i.named d r.id n ≡ true) ((text_eq_iff r.display_name name).0 same) h.0)
    | inr other ↦ find_group-named d records h.1 name g (rw (other, find_group) at e)
  ]

  list_groups-Listed :
      (token : Text) (d : Directory) (records : List GroupRecord)
      → (list_groups s config token d).0 ≡ ok records
      → Listed records (list_groups s config token d).1
  unfolding list_groups
  list_groups-Listed token d records e =
      let url = endpoint config (codes "/api/graphql") in
      elim (Result-cases (read_reply (s.post_list_groups url token d).0)) [
        | inr (x, r) ↦ let bad = rw r at e in cc
        | inl (answer, r) ↦
            let e' : ◌≡◌ {A = Result (List GroupRecord) LldapError} (ok answer.groups)
                (ok records) =
              rw r at e in
            let same : answer.groups ≡ records = cc in
            subst (λ l. Listed l (s.post_list_groups url token d).1) same
              (find_group-named (s.post_list_groups url token d).1 answer.groups
                (i.list_names url token d answer r))
      ]

  module _ (username : Text) where
    -- The account is in the group; or the server answered the request to add it, but did not say
    -- that it had.
    pub data Joined (d : Directory) (group : ℕ) : Type 0 where
      joined : i.member d username group ≡ true → Joined d group
      denied :
          (token : Text) (before : Directory) (r : AddUserToGroupResponse)
          → read_reply
              (s.post_add_user_to_group
                (endpoint config (codes "/api/graphql"))
                token
                username
                group
                before).0
            ≡ ok r
          → r.add_user_to_group.ok ≡ false
          → Joined d group

    -- The directory has a group with the name, and the account joined it.
    pub record InGroup (d : Directory) (name : Text) : Type 0 where
      pub group : ℕ
      pub named : i.named d group name ≡ true
      pub joined : Joined d group

    -- Every group of the list.
    abbrev pub InGroups : List Text → Directory → Type 0
    InGroups groups d = All (InGroup d) groups

    -- What succeeding to add an account to groups has done.
    record Joins (names : List Text) (before after : Directory) : Type 0 where
      all : InGroups names after
      members : (k : ℕ) → i.member before username k ≡ true → i.member after username k ≡ true
      groups : (k : ℕ) (n : Text) → i.named before k n ≡ true → i.named after k n ≡ true

    Joined-kept :
        (before after : Directory) (group : ℕ)
        → (i.member before username group ≡ true → i.member after username group ≡ true)
        → Joined before group
        → Joined after group
    Joined-kept before after group k (joined h) = joined (k h)
    Joined-kept before after group k (denied token d r h unsaid) = denied token d r h unsaid

    answered_add :
        (token : Text) (group : ℕ) (d : Directory) (r : AddUserToGroupResponse)
        → let url = endpoint config (codes "/api/graphql") in
          read_reply (s.post_add_user_to_group url token username group d).0 ≡ ok r
          → Joined (s.post_add_user_to_group url token username group d).1 group
    answered_add token group d r h = elim (Bool-cases r.add_user_to_group.ok) [
      | inl done ↦ joined (i.add_joins _ token username group d r h done)
      | inr unsaid ↦ denied token d r h unsaid
    ]

    add_groups-Joins :
        (token : Text) (records : List GroupRecord) (names : List Text) (d : Directory)
        → Listed records d
        → (add_groups s config token username records names d).0 ≡ ok tt
        → Joins names d (add_groups s config token username records names d).1
    unfolding add_groups Listed
    add_groups-Joins token records [] d listed e = record {
      all = tt;
      members = λ k h. h;
      groups = λ k n h. h;
    }
    add_groups-Joins token records (name ∷ names) d listed e =
        elim (Option-cases (find_group name records)) [
          | inl missing ↦ let bad = rw (missing, add_groups) at e in cc
          | inr (g, found) ↦
              let url = endpoint config (codes "/api/graphql") in
              elim (Result-cases
                (read_reply (s.post_add_user_to_group url token username g.id d).0)) [
                  | inr (x, r) ↦ let bad = rw (found, add_groups, r) at e in cc
                  | inl (b, r) ↦
                      let d1 = (s.post_add_user_to_group url token username g.id d).1 in
                      let e' : (add_groups s config token username records names d1).0 ≡ ok tt =
                        rw (found, add_groups, r) at e in
                      let there : (k : ℕ) (n : Text)
                          → i.named d k n ≡ true
                          → i.named d1 k n ≡ true =
                        λ k n h. i.add_names url token username g.id d k n h in
                      let j =
                        add_groups-Joins token records names d1
                          (λ n x f. there x.id n (listed n x f)) e' in
                      rw (found, add_groups, r)
                        (record {
                          all = (
                            record {
                              group = g.id;
                              named = j.groups g.id name (there g.id name (listed name g found));
                              joined =
                                  Joined-kept d1 _ g.id (j.members g.id)
                                    (answered_add token g.id d b r);
                            },
                            j.all,
                          );
                          members = λ k h.
                              j.members k (i.add_members url token username g.id d username k h);
                          groups = λ k n h. j.groups k n (there k n h);
                        })
                ]
        ]

    equip_user-InGroups :
        (token password : Text) (groups : List Text) (d : Directory)
        → (equip_user s config token username password groups d).0 ≡ ok tt
        → InGroups groups (equip_user s config token username password groups d).1
    unfolding equip_user
    equip_user-InGroups token password groups d e =
        elim (Result-cases (set_password s config username password d).0) [
          | inr (x, r) ↦ let bad = rw (r, equip_user) at e in cc
          | inl (u, r) ↦
              let d1 = (set_password s config username password d).1 in
              elim (Result-cases (list_groups s config token d1).0) [
                | inr (x, r') ↦ let bad = rw (r, equip_user, r') at e in cc
                | inl (records, r') ↦
                    let d2 = (list_groups s config token d1).1 in
                    let e' : (add_groups s config token username records groups d2).0 ≡ ok tt =
                      rw (r, equip_user, r') at e in
                    rw (r, equip_user, r')
                      (add_groups-Joins token records groups d2
                        (list_groups-Listed token d1 records r') e').all
              ]
        ]

    -- With a directory that keeps the laws relied on: for every group of the invite, once an
    -- account was provisioned, the directory has a group with that name, which the account belongs
    -- to, unless the server answered the request to add it with `ok` false, which is not looked at.
    pub provision_user-InGroups :
        (email first last password : Text) (groups : List Text) (d : Directory)
        → (provision_user s config username email first last password groups d).0 ≡ ok tt
        → InGroups groups (provision_user s config username email first last password groups d).1
    unfolding provision_user
    provision_user-InGroups email first last password groups d e =
        elim (Result-cases (login s config d).0) [
          | inr (x, r) ↦ let bad = rw (r, provision_user) at e in cc
          | inl (token, r) ↦
              let d1 = (login s config d).1 in
              elim (Result-cases (create_user s config token username email first last d1).0) [
                | inr (x, r') ↦ let bad = rw (r, provision_user, r') at e in cc
                | inl (u, r') ↦
                    let d2 = (create_user s config token username email first last d1).1 in
                    let e' : (equip_user s config token username password groups d2).0 ≡ ok tt =
                      rw (r, provision_user, r') at e in
                    rw (r, provision_user, r') (equip_user-InGroups token password groups d2 e')
              ]
        ]

    -- With a directory that keeps the laws relied on: where the account was created, its password
    -- set and the groups listed, a first group that is not among them makes provisioning fail,
    -- and the account stays: no request deletes it.
    pub unknown_group_leaks :
        (token password name : Text) (names : List Text) (records : List GroupRecord)
        (d : Directory)
        → i.has_user d username ≡ true
        → (set_password s config username password d).0 ≡ ok tt
        → (list_groups s config token (set_password s config username password d).1).0 ≡ ok records
        → find_group name records ≡ none
        → ((equip_user s config token username password (name ∷ names) d).0
            ≡ err (graphql (unknown_group name)))
          × (i.has_user (equip_user s config token username password (name ∷ names) d).1 username
              ≡ true)
    unfolding equip_user add_groups
    unknown_group_leaks token password name names records d h p l missing =
        rw (p, equip_user, l, missing)
          (
            refl,
            Keeps-there s config i (list_groups s config token) username
                (λ x. list_groups-Keeps s config i username token x) true
                (set_password s config username password d).1
                (set_password-Keeps s config i username username password true d h),
          )
