-- ===== src/Lldap/Directory.antt =====
-- What the client relies on in the directory server: which accounts there are, what each holds and
-- which groups it is in, and how each request changes that. A failed request may have any effect on
-- the account that it names, and none on another; names are compared the way the server does, as
-- by their lower case without the white space around them.
use rust_invite_system.Common.{ℕ, ◌≡◌, Bool, true, false, Text, codes, ◌++◌, All, ok}
use rust_invite_system.Validation.{validate_username}
use rust_invite_system.Lldap.{read_reply}
use rust_invite_system.Lldap.Service.{
  CreateUserResponse, DeleteUserResponse, AddUserToGroupResponse, GroupListResponse, Service,
  LdapSettings,
}

pub record IsDirectory (s : Service) : Type 1 where
  pub same : Text → Text → Bool
  pub same_itself : (u : Text) → same u u ≡ true
  -- All that the directory holds for a name: whether there is an account, its data, its password
  -- and its groups.
  pub Account : Type 0
  pub account : s.Directory → Text → Account
  -- What of it is looked at: whether the account is there.
  pub has_user : s.Directory → Text → Bool
  pub has_account :
      (d d' : s.Directory) (v : Text) → account d v ≡ account d' v → has_user d v ≡ has_user d' v
  pub has_same : (d : s.Directory) (u v : Text) → same u v ≡ true → has_user d u ≡ has_user d v
  -- The account is in the group with this number.
  pub member : s.Directory → Text → ℕ → Bool
  -- The group with this number has this name.
  pub named : s.Directory → ℕ → Text → Bool
  pub login_keeps :
      (e u p : Text) (d : s.Directory) (v : Text) → account (s.post_login e u p d).1 v ≡ account d v
  pub create_others :
      (e t u m n f l : Text) (d : s.Directory) (v : Text)
      → same u v ≡ false
      → account (s.post_create_user e t u m n f l d).1 v ≡ account d v
  pub create_adds :
      (e t u m n f l : Text) (d : s.Directory) (r : CreateUserResponse)
      → read_reply (s.post_create_user e t u m n f l d).0 ≡ ok r
      → has_user (s.post_create_user e t u m n f l d).1 u ≡ true
  pub delete_others :
      (e t u : Text) (d : s.Directory) (v : Text)
      → same u v ≡ false
      → account (s.post_delete_user e t u d).1 v ≡ account d v
  -- Only an answer that says so promises that the account is gone.
  pub delete_removes :
      (e t u : Text) (d : s.Directory) (r : DeleteUserResponse)
      → read_reply (s.post_delete_user e t u d).0 ≡ ok r
      → r.delete_user.ok ≡ true
      → has_user (s.post_delete_user e t u d).1 u ≡ false
  pub list_keeps :
      (e t : Text) (d : s.Directory) (v : Text)
      → account (s.post_list_groups e t d).1 v ≡ account d v
  pub list_names :
      (e t : Text) (d : s.Directory) (r : GroupListResponse)
      → read_reply (s.post_list_groups e t d).0 ≡ ok r
      → All (λ g. named (s.post_list_groups e t d).1 g.id g.display_name ≡ true) r.groups
  pub lookup_keeps :
      (e t f x : Text) (d : s.Directory) (v : Text)
      → account (s.post_lookup_users e t f x d).1 v ≡ account d v
  pub add_others :
      (e t u : Text) (g : ℕ) (d : s.Directory) (v : Text)
      → same u v ≡ false
      → account (s.post_add_user_to_group e t u g d).1 v ≡ account d v
  pub add_keeps :
      (e t u : Text) (g : ℕ) (d : s.Directory) (v : Text)
      → has_user (s.post_add_user_to_group e t u g d).1 v ≡ has_user d v
  pub add_joins :
      (e t u : Text) (g : ℕ) (d : s.Directory) (r : AddUserToGroupResponse)
      → read_reply (s.post_add_user_to_group e t u g d).0 ≡ ok r
      → r.add_user_to_group.ok ≡ true
      → member (s.post_add_user_to_group e t u g d).1 u g ≡ true
  pub add_members :
      (e t u : Text) (g : ℕ) (d : s.Directory) (v : Text) (k : ℕ)
      → member d v k ≡ true
      → member (s.post_add_user_to_group e t u g d).1 v k ≡ true
  pub add_names :
      (e t u : Text) (g : ℕ) (d : s.Directory) (k : ℕ) (n : Text)
      → named d k n ≡ true
      → named (s.post_add_user_to_group e t u g d).1 k n ≡ true
  pub connect_keeps :
      (c : LdapSettings) (url : Text) (d : s.Directory) (v : Text)
      → account (s.ldap_connect c url d).1 v ≡ account d v
  pub bind_keeps :
      (n p : Text) (d : s.Directory) (v : Text) → account (s.ldap_bind n p d).1 v ≡ account d v
  pub modify_keeps :
      (n p : Text) (d : s.Directory) (v : Text)
      → has_user (s.ldap_password_modify n p d).1 v ≡ has_user d v
  -- The entry `uid=…` under `ou=people` is the account with that name, for a name without
  -- characters that LDAP would read otherwise.
  pub modify_others :
      (base u p : Text) (d : s.Directory) (v : Text)
      → validate_username u ≡ ok tt
      → same u v ≡ false
      → account
          (s.ldap_password_modify (codes "uid=" ++ (u ++ (codes ",ou=people," ++ base))) p d).1
          v
        ≡ account d v
  pub unbind_keeps : (d : s.Directory) (v : Text) → account (s.ldap_unbind d).1 v ≡ account d v

-- A request to create an account is refused where the name is taken, and leaves the account there.
pub record RefusesTaken (s : Service) (i : IsDirectory s) : Type 0 where
  pub refused :
      (e t u m n f l : Text) (d : s.Directory) (r : CreateUserResponse)
      → i.has_user d u ≡ true
      → ¬ (read_reply (s.post_create_user e t u m n f l d).0 ≡ ok r)
  pub kept :
      (e t u m n f l : Text) (d : s.Directory)
      → i.has_user d u ≡ true
      → i.has_user (s.post_create_user e t u m n f l d).1 u ≡ true
