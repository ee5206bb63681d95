-- ===== src/Validation/Password.antt =====
-- What `validate_password` accepts under a policy.
use rust_invite_system.Common.{◌≤◌, ◌≡◌, ◌↔◌, true, not, arith, ok, Text, any, byte_len}
use rust_invite_system.Validation.{PasswordPolicy, CharTables, validate_password}

-- Each requirement of the policy that is switched on is met by some character.
pub record Meets (u : CharTables) (policy : PasswordPolicy) (password : Text) : Type 0 where
  pub long : policy.minimum_length ≤ byte_len password
  pub uppercase : policy.require_uppercase ≡ true → any u.is_uppercase password ≡ true
  pub lowercase : policy.require_lowercase ≡ true → any u.is_lowercase password ≡ true
  pub number : policy.require_number ≡ true → any u.is_numeric password ≡ true
  pub symbol : policy.require_special ≡ true → any (λ c. not (u.is_alphanumeric c)) password ≡ true

-- A password is accepted exactly when it has the policy's minimum of bytes and a character for each
-- requirement that the policy switches on.
pub validate_password_iff :
    (u : CharTables) (policy : PasswordPolicy) (password : Text)
    → (validate_password u password policy ≡ ok tt) ↔ Meets u policy password
unfolding validate_password
validate_password_iff u policy password = (λ h. ground arith, λ h. ground arith)
