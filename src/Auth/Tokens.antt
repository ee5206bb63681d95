-- ===== src/Auth/Tokens.antt =====
-- Tokens have 64 bytes.
use rust_invite_system.Common.{
  ℕ, zero, suc, ◌≡◌, refl, Bool, true, ◌&&◌, ◌||◌, arith, byte_len, leb, len_utf8,
}
use rust_invite_system.Auth.{samples_taken, random_token}

-- An ASCII letter or digit.
abbrev is_alphanumeric : ℕ → Bool
is_alphanumeric c =
    (leb b'0' c && leb c b'9') || (leb b'A' c && leb c b'Z') || (leb b'a' c && leb c b'z')

-- What `Alphanumeric` samples.
abbrev pub IsAlphanumeric : (ℕ → ℕ) → Type 0
IsAlphanumeric samples = (i : ℕ) → is_alphanumeric (samples i) ≡ true

len_utf8-alphanumeric : (c : ℕ) → is_alphanumeric c ≡ true → len_utf8 c ≡ 1
len_utf8-alphanumeric c h = ground arith

byte_len-samples_taken :
    (n : ℕ) (samples : ℕ → ℕ) → IsAlphanumeric samples → byte_len (samples_taken n samples) ≡ n
unfolding byte_len
byte_len-samples_taken zero samples h = refl
byte_len-samples_taken (suc n) samples h =
    let rest = byte_len-samples_taken n (λ i. samples (suc i)) (λ i. h (suc i)) in
    let one = len_utf8-alphanumeric (samples 0) (h 0) in omega (arith, rest, one)

pub byte_len-random_token :
    (samples : ℕ → ℕ) → IsAlphanumeric samples → byte_len (random_token samples) ≡ 64
unfolding random_token
byte_len-random_token samples h = byte_len-samples_taken 64 samples h
