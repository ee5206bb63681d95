-- ===== src/Validation/Messages.antt =====
-- The messages of src/validation.rs, one constructor for each text of the source.
use rust_invite_system.Common.{ℕ}

pub data Message : Type 0 where
  -- "Username must be between 3 and 32 characters."
  username_length : Message
  -- "Username must start with a letter."
  username_first : Message
  -- "Username may only contain letters, numbers, periods, hyphens, and underscores."
  username_charset : Message
  -- "Enter a valid email address."
  email_invalid : Message
  -- "Password must be at least {} characters."
  password_length : ℕ → Message
  -- "Password must contain an uppercase letter."
  password_uppercase : Message
  -- "Password must contain a lowercase letter."
  password_lowercase : Message
  -- "Password must contain a number."
  password_number : Message
  -- "Password must contain a symbol."
  password_symbol : Message
