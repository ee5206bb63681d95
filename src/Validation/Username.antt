-- ===== src/Validation/Username.antt =====
-- What `validate_username` accepts, said without its order of checks.
use rust_invite_system.Common.{
  ℕ, ◌≤◌, ◌<◌, ◌≡◌, refl, ◌↔◌, true, [], ◌∷◌, arith, ok, Text, length, all, All, all-All, byte_len,
  trim, starts_with,
}
use rust_invite_system.Validation.{is_ascii_alphabetic, is_username_char, validate_username}

-- A letter of ASCII.
abbrev pub IsLetter : ℕ → Type 0
IsLetter c = is_ascii_alphabetic c ≡ true

-- A user name: 3 to 32 characters, a letter first, and only the allowed characters.
pub record IsUsername (name : Text) : Type 0 where
  pub shortest : 3 ≤ length name
  pub longest : length name ≤ 32
  pub first : starts_with is_ascii_alphabetic name ≡ true
  pub charset : All (λ c. is_username_char c ≡ true) name

is_username_char-lt : (c : ℕ) → is_username_char c ≡ true → c < 128
unfolding is_username_char
is_username_char-lt c h = ground arith

byte_len-charset : (s : Text) → all is_username_char s ≡ true → byte_len s ≡ length s
unfolding byte_len
byte_len-charset [] h = refl
byte_len-charset (c ∷ s) h = ground (arith, is_username_char-lt c, byte_len-charset s)

charset_iff : (s : Text) → (all is_username_char s ≡ true) ↔ All (λ c. is_username_char c ≡ true) s
charset_iff = all-All is_username_char _ (λ c. (λ h. h, λ h. h))

-- A user name is accepted exactly when, without the white space around it, it has 3 to 32
-- characters, begins with a letter and holds only letters, digits, `_`, `-` and `.`.
pub validate_username_iff : (s : Text) → (validate_username s ≡ ok tt) ↔ IsUsername (trim s)
unfolding validate_username
validate_username_iff s = (
  λ h. ground (arith, byte_len-charset (trim s), (charset_iff (trim s)).0),
  λ h. ground (arith, byte_len-charset (trim s), (charset_iff (trim s)).1 h.charset),
)
