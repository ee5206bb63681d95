-- ===== src/Validation.antt =====
-- src/validation.rs: the checks of a sign-up form's fields. A text is the list of its Unicode
-- scalar values, and an error is one of the messages of the source (Validation/Messages).
pub mod Messages
pub mod Username
pub mod Email
pub mod Password
mod Tests
use rust_invite_system.Common.{
  ℕ, Bool, true, not, ◌&&◌, ◌||◌, none, some, Result, ok, err, ◌>>=◌, ◌>>◌, reject, Text, ltb, leb,
  ◌==◌, all, any, is_empty, byte_len, is_whitespace, trim, contains, count_char, split_once,
  starts_with, ends_with,
}
use Messages.{
  Message, username_length, username_first, username_charset, email_invalid, password_length,
  password_uppercase, password_lowercase, password_number, password_symbol,
}

pub record PasswordPolicy : Type 0 where
  pub minimum_length : ℕ
  pub require_uppercase : Bool
  pub require_lowercase : Bool
  pub require_number : Bool
  pub require_special : Bool

-- `PasswordPolicy::default`
abbrev pub default_policy : PasswordPolicy
default_policy = record {
  minimum_length = 12;
  require_uppercase = true;
  require_lowercase = true;
  require_number = true;
  require_special = true;
}

-- `char::is_ascii_alphabetic`
abbrev pub is_ascii_alphabetic : ℕ → Bool
is_ascii_alphabetic c = (leb b'A' c && leb c b'Z') || (leb b'a' c && leb c b'z')

-- `char::is_ascii_alphanumeric`
abbrev pub is_ascii_alphanumeric : ℕ → Bool
is_ascii_alphanumeric c = is_ascii_alphabetic c || (leb b'0' c && leb c b'9')

-- The predicate of the last check of `validate_username`.
unfoldable pub is_username_char : ℕ → Bool
is_username_char c = is_ascii_alphanumeric c || c == b'_' || c == b'-' || c == b'.'

unfoldable pub validate_username : Text → Result (Unit {0}) Message
validate_username username = do
  let name = trim username
  reject (ltb (byte_len name) 3 || ltb 32 (byte_len name)) username_length
  reject (not (starts_with is_ascii_alphabetic name)) username_first
  reject (not (all is_username_char name)) username_charset
  ok tt

-- The test of the two parts of an address, after `split_once`.
unfoldable pub check_parts : Text × Text → Result (Unit {0}) Message
check_parts (local, domain) = do
  reject
      (is_empty local
        || is_empty domain
        || not (contains b'.' domain)
        || starts_with (λ c. c == b'.') domain
        || ends_with (λ c. c == b'.') domain)
      email_invalid
  ok tt

unfoldable pub validate_email : Text → Result (Unit {0}) Message
unfolding check_parts
validate_email email = do
  let address = trim email
  reject (is_empty address || any is_whitespace address) email_invalid
  reject (not (count_char b'@' address == 1)) email_invalid
  elim (split_once b'@' address) [ none ↦ err email_invalid | some parts ↦ check_parts parts ]

-- The tables of Unicode behind `char::is_uppercase` and its siblings.
pub record CharTables : Type 0 where
  pub is_uppercase : ℕ → Bool
  pub is_lowercase : ℕ → Bool
  pub is_numeric : ℕ → Bool
  pub is_alphanumeric : ℕ → Bool

-- `validate_password`
unfoldable pub validate_password : CharTables → Text → PasswordPolicy → Result (Unit {0}) Message
validate_password u password policy = do
  reject (ltb (byte_len password) policy.minimum_length) (password_length policy.minimum_length)
  reject (policy.require_uppercase && not (any u.is_uppercase password)) password_uppercase
  reject (policy.require_lowercase && not (any u.is_lowercase password)) password_lowercase
  reject (policy.require_number && not (any u.is_numeric password)) password_number
  reject (policy.require_special && not (any (λ c. not (u.is_alphanumeric c)) password))
      password_symbol
  ok tt
