-- ===== src/Auth/Provisioned.antt =====
-- From the password given to `--hash-admin-password` to a sign-in with it.
use rust_invite_system.Common.{
  ℕ, ◌≡◌, refl, sym, false, true, Option, none, some, [], ◌∷◌, arith, Result, ok, Text, codes,
  byte_len, is_empty, not, err, ltb, text_eq, if◌then◌else◌, Bool-cases, text_eq_refl, Option-cases,
  inl, inr, List, length,
}
use rust_invite_system.Auth.{AdminAuth, login}
use rust_invite_system.Auth.Primitives.{Crypto, PasswordHash}
use rust_invite_system.Auth.Setup.{
  SetupError, with_username, hash_password, IsUsable, with_username_iff, IsStrong,
}

pub data ProvisionError : Type 0 where
  -- an error of rpassword
  not_read : ProvisionError
  -- "Passwords do not match"
  no_match : ProvisionError
  not_hashed : SetupError → ProvisionError

abbrev pub printed_hash : Result Text SetupError → Result Text ProvisionError
printed_hash (ok hash) = ok hash
printed_hash (err e) = err (not_hashed e)

-- `provision_admin_password` of src/main.rs: the two texts typed at the prompts, if they could be
-- read, and the random bytes of the salt; the hash that is printed.
unfoldable pub provision_admin_password :
    Crypto → Option Text → Option Text → List ℕ → Result Text ProvisionError
unfolding hash_password text_eq
provision_admin_password c none confirmation salt = err not_read
provision_admin_password c (some password) none salt = err not_read
provision_admin_password c (some password) (some confirmation) salt =
    if not (text_eq password confirmation)
    then err no_match
    else printed_hash (hash_password c salt password)

-- The hash that `Argon2::default()` makes of a password and a salt with 22 characters.
abbrev pub default_hash : PasswordHash
default_hash = record {
  algorithm = codes "argon2id";
  version = some 19;
  memory = some 19456;
  iterations = some 2;
  parallelism = some 1;
  salt_length = some 22;
  hash_length = some 32;
}

-- What the service relies on in argon2: a hash with a salt of 16 bytes parses as one by the default
-- parameters, a hash verifies its password, and the empty text does not parse.
pub record IsArgon2 (c : Crypto) : Type 0 where
  pub parses :
      (bytes : List ℕ) (salt password hash : Text)
      → length bytes ≡ 16
      → c.encode_b64 bytes ≡ some salt
      → c.argon2 salt password ≡ some hash
      → c.parse_hash hash ≡ some default_hash
  pub verifies :
      (salt password hash : Text)
      → c.argon2 salt password ≡ some hash
      → c.verify hash password ≡ true
  pub empty : c.parse_hash [] ≡ none

default_hash-IsStrong : IsStrong default_hash
default_hash-IsStrong = record {
  argon2id = refl;
  version = refl;
  memory = (19456, refl, omega arith, omega arith);
  iterations = (2, refl, omega arith, omega arith);
  parallelism = (1, refl, omega arith, omega arith);
  salt = (22, refl, omega arith);
  hash = refl;
}

module _ (c : Crypto) (argon2 : IsArgon2 c) where
  parsed_given :
      (hash : Text) (h : PasswordHash) → c.parse_hash hash ≡ some h → is_empty hash ≡ false
  parsed_given [] h e = let bad = sym argon2.empty in cc
  parsed_given (x ∷ s) h e = refl

  hash_password_bounded :
      (bytes : List ℕ) (password hash : Text)
      → printed_hash (hash_password c bytes password) ≡ ok hash
      → ltb 1024 (byte_len password) ≡ false
  unfolding hash_password
  hash_password_bounded bytes password hash h = ground arith

  hashed_by :
      (bytes : List ℕ) (password hash : Text)
      → printed_hash (hash_password c bytes password) ≡ ok hash
      → (salt : Text) × (c.encode_b64 bytes ≡ some salt) × (c.argon2 salt password ≡ some hash)
  unfolding hash_password
  hashed_by bytes password hash h = elim (Option-cases (c.encode_b64 bytes)) [
    | inl e ↦ let bad = rw e at h in ground arith
    | inr (salt, e) ↦ elim (Option-cases (c.argon2 salt password)) [
      | inl e' ↦ let bad = rw (e, e') at h in ground arith
      | inr (made, e') ↦
          let same : made ≡ hash = let h' = rw (e, e') at h in ground arith in
          (salt, e, rw same at e')
    ]
  ]

  -- With an Argon2 that keeps the laws relied on: the hash printed for a password, with a salt of
  -- 16 random bytes, is accepted at the start of the service with a name that the settings accept, and the
  -- first sign-in with the name and the password is let in, at any time, if the task that verifies
  -- it does not panic.
  pub provisioned_password_signs_in :
      (password confirmation : Option Text) (salt : List ℕ) (hash username : Text) (started : ℕ)
      → length salt ≡ 16
      → provision_admin_password c password confirmation salt ≡ ok hash
      → IsUsable c username []
      → (a : AdminAuth) × (typed : Text) × (password ≡ some typed)
        × (with_username c username hash started ≡ ok a)
        × ((now verified_at : ℕ) (token csrf : Text)
            → (login c now username typed true verified_at token csrf a).0 ≡ ok token)
  unfolding provision_admin_password login
  provisioned_password_signs_in none confirmation salt hash username started salted printed name =
      cc
  provisioned_password_signs_in (some p) none salt hash username started salted printed name = cc
  provisioned_password_signs_in (some p) (some p') salt hash username started salted printed name =
      elim (Bool-cases (text_eq p p')) [
        | inr e ↦ let bad = rw e at printed in cc
        | inl e ↦
            let printed' = rw e at printed in
            let (text, encoded, made) = hashed_by salt p hash printed' in
            let parsed = argon2.parses salt text p hash salted encoded made in
            let given = parsed_given hash default_hash parsed in
            let verified = argon2.verifies text p hash made in
            (
              record {
                username = username;
                password_hash = hash;
                state = record { session = none; window_started = started; attempts = 0 };
                poisoned = false;
                permits = 1;
              },
              p,
              refl,
              (with_username_iff c username hash started).1 (record {
                given = name.given;
                bounded = name.bounded;
                trimmed = name.trimmed;
                printable = name.printable;
                hash = inr (default_hash, parsed, default_hash-IsStrong);
              }),
              λ now verified_at token csrf. ground (
                arith,
                given,
                verified,
                hash_password_bounded salt p hash printed',
                text_eq_refl username,
              ),
            )
      ]
