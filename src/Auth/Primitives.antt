-- ===== src/Auth/Primitives.antt =====
-- What the service takes from argon2 and sha2.
use rust_invite_system.Common.{ℕ, ◌≡◌, Bool, Option, List, Text, byte_len}

-- A parsed PHC string: `PasswordHash`. The sizes are those of the salt's text and of the hash.
pub record PasswordHash : Type 0 where
  pub algorithm : Text
  pub version : Option ℕ
  pub memory : Option ℕ
  pub iterations : Option ℕ
  pub parallelism : Option ℕ
  pub salt_length : Option ℕ
  pub hash_length : Option ℕ

pub record Crypto : Type 0 where
  -- `hash_token`: 64 hexadecimal digits
  pub sha256_hex : Text → Text
  -- `PasswordHash::new`
  pub parse_hash : Text → Option PasswordHash
  -- `SaltString::encode_b64`, of bytes
  pub encode_b64 : List ℕ → Option Text
  -- `Argon2::hash_password`, of a salt and a password
  pub argon2 : Text → Text → Option Text
  -- whether the stored hash parses and is that of the password
  pub verify : Text → Text → Bool

-- SHA-256 in hexadecimal has 64 digits.
pub record HasDigests (c : Crypto) : Type 0 where
  pub digest_length : (s : Text) → byte_len (c.sha256_hex s) ≡ 64
