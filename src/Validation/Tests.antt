-- ===== src/Validation/Tests.antt =====
-- The tests of src/validation.rs, and the theorems at concrete inputs.
use rust_invite_system.Common.{
  ◌≡◌, refl, ◌↔◌, false, ok, err, codes, leb, ◌&&◌, trim, is_whitespace, byte_len, count_char,
  split_once,
}
use rust_invite_system.Validation.{
  PasswordPolicy, default_policy, CharTables, is_ascii_alphanumeric, validate_username,
  validate_email, validate_password, is_username_char,
}
use rust_invite_system.Validation.Messages.{
  username_length, username_first, username_charset, email_invalid, password_length,
  password_uppercase, password_symbol,
}
use rust_invite_system.Validation.Username.{IsUsername, validate_username_iff}
use rust_invite_system.Validation.Email.{IsEmail, validate_email_iff}
use rust_invite_system.Validation.Password.{Meets, validate_password_iff}

-- The tables on ASCII.
abbrev ascii_tables : CharTables
ascii_tables = record {
  is_uppercase = λ c. leb b'A' c && leb c b'Z';
  is_lowercase = λ c. leb b'a' c && leb c b'z';
  is_numeric = λ c. leb b'0' c && leb c b'9';
  is_alphanumeric = is_ascii_alphanumeric;
}

running : Unit {0}
unfolding validate_username validate_email validate_password is_username_char trim is_whitespace
    byte_len count_char split_once
running = tt

username_tests :
    (validate_username (codes "bob_smith-1") ≡ ok tt)
    × (validate_username (codes " bob ") ≡ ok tt)
    × (validate_username (codes "ab") ≡ err username_length)
    × (validate_username (codes "1bob") ≡ err username_first)
    × (validate_username (codes "bob smith@") ≡ err username_charset)
unfolding running
username_tests = (refl, refl, refl, refl, refl)

email_tests :
    (validate_email (codes "new.user@example.com") ≡ ok tt)
    × (validate_email (codes "user-example.com") ≡ err email_invalid)
    × (validate_email (codes "user@sub@example.com") ≡ err email_invalid)
    × (validate_email (codes "user@localhost") ≡ err email_invalid)
    × (validate_email (codes "user@example.com.") ≡ err email_invalid)
unfolding running
email_tests = (refl, refl, refl, refl, refl)

abbrev relaxed : PasswordPolicy
relaxed = record {
  minimum_length = 4;
  require_uppercase = false;
  require_lowercase = false;
  require_number = false;
  require_special = false;
}

password_tests :
    (validate_password ascii_tables (codes "Str0ng!Passw0rd") default_policy ≡ ok tt)
    × (validate_password ascii_tables (codes "Sh0rt!") default_policy ≡ err (password_length 12))
    × (validate_password ascii_tables (codes "alllowercase123!") default_policy
        ≡ err password_uppercase)
    × (validate_password ascii_tables (codes "NoSymbols1234") default_policy ≡ err password_symbol)
    × (validate_password ascii_tables (codes "pass") relaxed ≡ ok tt)
unfolding running
password_tests = (refl, refl, refl, refl, refl)

validate_username_iff_example :
    (validate_username (codes "bob_smith-1") ≡ ok tt) ↔ IsUsername (trim (codes "bob_smith-1"))
validate_username_iff_example = validate_username_iff (codes "bob_smith-1")

validate_email_iff_example :
    (validate_email (codes "new.user@example.com") ≡ ok tt)
    ↔ IsEmail (trim (codes "new.user@example.com"))
validate_email_iff_example = validate_email_iff (codes "new.user@example.com")

validate_password_iff_example :
    (validate_password ascii_tables (codes "Str0ng!Passw0rd") default_policy ≡ ok tt)
    ↔ Meets ascii_tables default_policy (codes "Str0ng!Passw0rd")
validate_password_iff_example =
    validate_password_iff ascii_tables default_policy (codes "Str0ng!Passw0rd")
