-- ===== src/Lldap/Tests.antt =====
-- The client against the directory in memory, and the theorems at concrete inputs.
use rust_invite_system.Common.{
  ◌≡◌, refl, true, false, some, List, [], ◌∷◌, Text, codes, text_eq, Result, ok, err,
}
use rust_invite_system.Config.{LldapConfig, default_ldap}
use rust_invite_system.Lldap.{
  LldapError, graphql, unknown_group, ca_some_invalid, endpoint, ldap_transport_url, ldap_settings,
  find_group,
}
use rust_invite_system.Lldap.Service.{certificates}
use rust_invite_system.Lldap.Client.{provision_user, equip_user, set_password, list_groups}
use rust_invite_system.Lldap.Outcome.{Provisioned, provision_user-Provisioned}
use rust_invite_system.Lldap.Groups.{InGroups, provision_user-InGroups, unknown_group_leaks}
use rust_invite_system.Lldap.Memory.{
  Memory, has, without, groups_listed, memory, memory-IsDirectory,
}

abbrev empty : Memory
empty = record { users = []; joined = []; ldap_up = true }

abbrev settings : LldapConfig
settings = record default_ldap { http_url = codes "https://directory.example//"; use_tls = true }

abbrev provisioned : List Text → Result (Unit {0}) LldapError × Memory
unfolding provision_user
provisioned groups =
    provision_user memory settings (codes "ann") (codes "ann@example.com") (codes "Ann")
      (codes "Lee") (codes "secret") groups empty

endpoint-slashes : endpoint settings (codes "/x") ≡ codes "https://directory.example/x"
unfolding endpoint
endpoint-slashes = refl

ldap_transport_url-tls : ldap_transport_url settings ≡ codes "ldaps://127.0.0.1:3890"
unfolding ldap_transport_url
ldap_transport_url-tls = refl

ldap_settings-invalid :
    ldap_settings (λ p. certificates 2 1) (record settings { tls_ca_file = some (codes "ca.pem") })
    ≡ err (graphql (ca_some_invalid 1))
unfolding ldap_settings
ldap_settings-invalid = refl

provisioned-ok :
    provisioned (codes "engineering" ∷ [])
    ≡ (ok tt, record { users = codes "ann" ∷ []; joined = (codes "ann", 4) ∷ []; ldap_up = true })
unfolding provisioned has ldap_settings find_group
provisioned-ok = refl

-- The account stays.
provisioned-unknown : provisioned (codes "sales" ∷ []) ≡ (
  err (graphql (unknown_group (codes "sales"))),
  record { users = codes "ann" ∷ []; joined = []; ldap_up = true },
)
unfolding provisioned has ldap_settings find_group
provisioned-unknown = refl

-- The account is deleted.
provision_user-down :
    (provision_user memory settings
      (codes "ann")
      (codes "ann@example.com")
      (codes "Ann")
      (codes "Lee")
      (codes "secret")
      []
      (record empty { ldap_up = false })).1.users
    ≡ []
unfolding provision_user has ldap_settings without
provision_user-down = refl

provision_user-Provisioned_example :
    Provisioned memory settings memory-IsDirectory
      (codes "ann")
      (codes "a@b.c")
      (codes "Ann")
      (codes "Lee")
      empty
      (provision_user memory settings
        (codes "ann")
        (codes "a@b.c")
        (codes "Ann")
        (codes "Lee")
        (codes "secret")
        (codes "sales" ∷ [])
        empty)
provision_user-Provisioned_example =
    provision_user-Provisioned memory settings memory-IsDirectory (codes "ann") (codes "a@b.c")
      (codes "Ann") (codes "Lee") (codes "secret") (codes "sales" ∷ []) empty

provision_user-InGroups_example :
    InGroups memory settings memory-IsDirectory
      (codes "ann")
      (codes "engineering" ∷ [])
      (provision_user memory settings
        (codes "ann")
        (codes "a@b.c")
        (codes "Ann")
        (codes "Lee")
        (codes "secret")
        (codes "engineering" ∷ [])
        empty).1
unfolding provision_user has ldap_settings find_group
provision_user-InGroups_example =
    provision_user-InGroups memory settings memory-IsDirectory (codes "ann") (codes "a@b.c")
      (codes "Ann") (codes "Lee") (codes "secret") (codes "engineering" ∷ []) empty refl

unknown_group_leaks_example :
    ((equip_user memory settings
        (codes "token")
        (codes "ann")
        (codes "secret")
        (codes "sales" ∷ [])
        (record empty { users = codes "ann" ∷ [] })).0
      ≡ err (graphql (unknown_group (codes "sales"))))
    × (memory-IsDirectory.has_user
          (equip_user memory settings
            (codes "token")
            (codes "ann")
            (codes "secret")
            (codes "sales" ∷ [])
            (record empty { users = codes "ann" ∷ [] })).1
          (codes "ann")
        ≡ true)
unfolding text_eq has set_password list_groups find_group memory-IsDirectory ldap_settings
unknown_group_leaks_example =
    unknown_group_leaks memory settings memory-IsDirectory (codes "ann") (codes "token")
      (codes "secret") (codes "sales") [] groups_listed (record empty { users = codes "ann" ∷ [] })
      refl refl refl refl
