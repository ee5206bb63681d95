-- ===== src/Lldap.antt =====
-- src/lldap.rs: the client of the directory server. An action takes the directory and returns the
-- answer with the directory after it; what an action changed before it failed stays changed.
pub mod Service
pub mod Client
pub mod Directory
pub mod Provision
pub mod Outcome
pub mod Groups
pub mod Available
pub mod Requests
pub mod Accounts
pub mod Owned
pub mod Memory
mod Tests
use rust_invite_system.Common.{
  ℕ, ◌+◌, Bool, true, false, not, ◌&&◌, ◌||◌, Option, none, some, List, [], ◌∷◌, ◌++◌, map, Text,
  codes, text_eq, Result, ok, err, ok_or, leb, ltb, ◌==◌, is_empty, if◌then◌else◌,
}
use rust_invite_system.Config.{LldapConfig}
use Service.{
  GroupRecord, Body, malformed, parsed, Reply, unreachable, interrupted, answered, LdapSettings,
  CaFile, unreadable, unparsable, certificates,
}

-- The texts of `LldapError::Graphql`, a constructor for each place that makes one.
pub data Reason : Type 0 where
  -- "GraphQL request returned {status}: {body}"
  request_returned : ℕ → Reason
  -- the messages of the server joined by "; "
  server_errors : Text → Reason
  -- "GraphQL response had no data"
  no_data : Reason
  -- "Unknown group '{group_name}'"
  unknown_group : Text → Reason
  -- an error of ldap3
  ldap_failed : Reason
  -- "Unable to open LDAP CA file …", "Unable to parse LDAP CA file …"
  ca_unreadable ca_unparsable : Reason
  -- "LDAP CA file … did not contain any valid certificates"
  ca_none_valid : Reason
  -- "LDAP CA file … contained {invalid} invalid certificate(s)"
  ca_some_invalid : ℕ → Reason

pub data LldapError : Type 0 where
  http json : LldapError
  graphql : Reason → LldapError

unfoldable pub join : Text → List Text → Text
join separator [] = []
join separator (t ∷ []) = t
join separator (t ∷ u ∷ ts) = t ++ (separator ++ join separator (u ∷ ts))

-- `graphql` on the answer to its request.
abbrev pub read_body : {T : Type 0} → Body T → Result T LldapError
read_body malformed = err json
read_body (parsed contents (some errors)) =
    err (graphql (server_errors (join (codes "; ") (map (λ e. e.message) errors))))
read_body (parsed contents none) = ok_or contents (graphql no_data)

abbrev pub read_reply : {T : Type 0} → Reply T → Result T LldapError
read_reply unreachable = err http
read_reply interrupted = err http
read_reply (answered status body) =
    if not (leb 200 status && ltb status 300)
    then err (graphql (request_returned status))
    else read_body body

-- `trim_end_matches('/')`
unfoldable pub trim_end_slashes : Text → Text
trim_end_slashes [] = []
trim_end_slashes (c ∷ s) =
    let rest = trim_end_slashes s in if is_empty rest && c == b'/' then [] else c ∷ rest

abbrev drop_prefix : Text → Text → Option Text
drop_prefix [] s = some s
drop_prefix (c ∷ p) [] = none
drop_prefix (c ∷ p) (d ∷ s) = let rest = drop_prefix p s in if c == d then rest else none

-- `replacen(from, to, 1)`
unfoldable pub replace_first : Text → Text → Text → Text
replace_first from to [] = elim (drop_prefix from []) [ none ↦ [] | some rest ↦ to ++ rest ]
replace_first from to (c ∷ s) =
    let later = c ∷ replace_first from to s in
    elim (drop_prefix from (c ∷ s)) [ none ↦ later | some rest ↦ to ++ rest ]

unfoldable pub ldap_transport_url : LldapConfig → Text
unfolding replace_first
ldap_transport_url config =
    if config.use_tls
    then replace_first (codes "ldap://") (codes "ldaps://") config.ldap_url
    else config.ldap_url

unfoldable pub endpoint : LldapConfig → Text → Text
unfolding trim_end_slashes
endpoint config path = trim_end_slashes config.http_url ++ path

abbrev own_roots : CaFile → LdapSettings → Result LdapSettings LldapError
own_roots unreadable settings = err (graphql ca_unreadable)
own_roots unparsable settings = err (graphql ca_unparsable)
own_roots (certificates valid invalid) settings =
    if valid == 0
    then err (graphql ca_none_valid)
    else if ltb 0 invalid
    then err (graphql (ca_some_invalid invalid))
    else ok (record settings { own_roots = true })

abbrev with_ca : (Text → CaFile) → Option Text → LdapSettings → Result LdapSettings LldapError
with_ca files none settings = ok settings
with_ca files (some path) settings = own_roots (files path) settings

unfoldable pub ldap_settings : (Text → CaFile) → LldapConfig → Result LdapSettings LldapError
ldap_settings files config =
    with_ca files config.tls_ca_file
      (record { no_tls_verify = config.tls_insecure_skip_verify; own_roots = false })

-- `group_records.iter().find(…)`
unfoldable pub find_group : Text → List GroupRecord → Option GroupRecord
find_group name [] = none
find_group name (g ∷ gs) = if text_eq g.display_name name then some g else find_group name gs
