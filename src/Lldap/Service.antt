-- ===== src/Lldap/Service.antt =====
-- The directory server and the network to it, which are outside the repository: what comes back for
-- each request of the client, and how the directory changes.
use rust_invite_system.Common.{ℕ, Bool, Option, List, Text}

-- `id`, an `i32`, is one of the server's numbers, which are not negative; a body with a number that an
-- `i32` does not hold is `malformed` (below).
pub record GroupRecord : Type 0 where
  pub id : ℕ
  pub display_name : Text

-- The data of the answers. The fields are named as in the source, but for `_id`.
pub record LoginResponse : Type 0 where
  pub token : Text

pub record CreatedUser : Type 0 where
  pub id : Text

pub record CreateUserResponse : Type 0 where
  pub create_user : CreatedUser

pub record SuccessValue : Type 0 where
  pub ok : Bool

pub record DeleteUserResponse : Type 0 where
  pub delete_user : SuccessValue

pub record AddUserToGroupResponse : Type 0 where
  pub add_user_to_group : SuccessValue

pub record GroupListResponse : Type 0 where
  pub groups : List GroupRecord

pub record UserLookupRecord : Type 0 where
  pub id : Text

pub record UserLookupResponse : Type 0 where
  pub users : List UserLookupRecord

pub record GraphqlError : Type 0 where
  pub message : Text

-- The body of an answer: not JSON of the expected form, or the two fields of `GraphqlResponse`.
pub data Body (T : Type 0) : Type 0 where
  malformed : Body T
  parsed : (contents : Option T) (errors : Option (List GraphqlError)) → Body T

-- `unreachable`: sending failed. `interrupted`: reading the answer failed.
pub data Reply (T : Type 0) : Type 0 where
  unreachable interrupted : Reply T
  answered : (status : ℕ) (body : Body T) → Reply T

-- `LdapConnSettings`: whether certificates are checked, and whether against the file's alone.
pub record LdapSettings : Type 0 where
  pub no_tls_verify : Bool
  pub own_roots : Bool

-- A file of certificates, with the numbers of the valid and of the invalid ones.
pub data CaFile : Type 0 where
  unreadable unparsable : CaFile
  certificates : (valid invalid : ℕ) → CaFile

pub record Service : Type 1 where
  pub Directory : Type 0
  pub ca_file : Text → CaFile
  -- endpoint, user name, password
  pub post_login : Text → Text → Text → Directory → Option LoginResponse × Directory
  -- endpoint, token, id, email, display name, first name, last name
  pub post_create_user :
      Text
      → Text
      → Text
      → Text
      → Text
      → Text
      → Text
      → Directory
      → Reply CreateUserResponse × Directory
  -- endpoint, token, id
  pub post_delete_user : Text → Text → Text → Directory → Reply DeleteUserResponse × Directory
  -- endpoint, token
  pub post_list_groups : Text → Text → Directory → Reply GroupListResponse × Directory
  -- endpoint, token, field, value
  pub post_lookup_users :
      Text → Text → Text → Text → Directory → Reply UserLookupResponse × Directory
  -- endpoint, token, user, group
  pub post_add_user_to_group :
      Text → Text → Text → ℕ → Directory → Reply AddUserToGroupResponse × Directory
  -- The LDAP requests succeed or fail: url; name and password; name and new password.
  pub ldap_connect : LdapSettings → Text → Directory → Bool × Directory
  pub ldap_bind : Text → Text → Directory → Bool × Directory
  pub ldap_password_modify : Text → Text → Directory → Bool × Directory
  pub ldap_unbind : Directory → Bool × Directory
