-- ===== src/Auth/Setup.antt =====
-- `AdminAuth::with_username` and `hash_password`: which credentials the service starts with.
use rust_invite_system.Common.{
  List, ℕ, ◌≤◌, ◌<◌, ◌≡◌, refl, ◌↔◌, ◌⊎◌, inl, inr, Bool, true, false, not, ◌&&◌, ◌||◌, Option,
  none, some, arith, Result, ok, ◌>>=◌, ◌>>◌, reject, ok_or, Text, codes, text_eq, text_eq_iff,
  byte_len, is_empty, trim, any, ltb, leb, ◌==◌, if◌then◌else◌, Option-cases, Bool-cases,
}
use rust_invite_system.Auth.{AdminAuth}
use rust_invite_system.Auth.Primitives.{Crypto, PasswordHash}

pub data SetupError : Type 0 where
  -- "Admin username must contain 1 to 64 bytes without surrounding whitespace or control
  -- characters"
  bad_username : SetupError
  -- "Invalid admin hash"
  invalid_hash : SetupError
  -- "Admin hash must use bounded Argon2id v19 parameters"
  weak_hash : SetupError
  -- "Admin password must contain 16 to 1024 bytes"
  password_size : SetupError
  -- "Salt generation failed"
  salt_failed : SetupError
  -- "Password hashing failed"
  hashing_failed : SetupError

-- `char::is_control`, the category Cc of Unicode
abbrev pub is_control : ℕ → Bool
is_control c = ltb c 0x20 || (leb 0x7f c && leb c 0x9f)

abbrev or_zero : Option ℕ → ℕ
or_zero none = 0
or_zero (some n) = n

abbrev outside : ℕ → ℕ → ℕ → Bool
outside low high n = ltb n low || ltb high n

abbrev is_number : ℕ → Option ℕ → Bool
is_number n none = false
is_number n (some k) = k == n

-- `is_none_or(|salt| salt.len() < 22)`
abbrev short_or_none : ℕ → Option ℕ → Bool
short_or_none n none = true
short_or_none n (some k) = ltb k n

-- The check of a parsed hash.
unfoldable pub is_weak : PasswordHash → Bool
is_weak h =
    not (text_eq h.algorithm (codes "argon2id"))
    || not (is_number 19 h.version)
    || outside 19456 65536 (or_zero h.memory)
    || outside 2 5 (or_zero h.iterations)
    || outside 1 4 (or_zero h.parallelism)
    || short_or_none 22 h.salt_length
    || not (is_number 32 h.hash_length)

module _ (c : Crypto) where
  unfoldable pub check_hash : Text → Result (Unit {0}) SetupError
  unfolding is_weak
  check_hash password_hash = if is_empty password_hash then ok tt else (do
    parsed ← ok_or (c.parse_hash password_hash) invalid_hash
    reject (is_weak parsed) weak_hash)

  unfoldable pub with_username : Text → Text → ℕ → Result AdminAuth SetupError
  unfolding check_hash
  with_username username password_hash now = do
    reject
        (is_empty username
          || ltb 64 (byte_len username)
          || not (text_eq (trim username) username)
          || any is_control username)
        bad_username
    check_hash password_hash
    ok (record {
      username = username;
      password_hash = password_hash;
      state = record { session = none; window_started = now; attempts = 0 };
      poisoned = false;
      permits = 1;
    })

  -- `new`
  unfoldable pub new : Text → ℕ → Result AdminAuth SetupError
  unfolding with_username
  new password_hash now = with_username (codes "admin") password_hash now

  -- `salt_bytes` are the 16 random bytes drawn.
  unfoldable pub hash_password : List ℕ → Text → Result Text SetupError
  hash_password salt_bytes password = do
    reject (outside 16 1024 (byte_len password)) password_size
    salt ← ok_or (c.encode_b64 salt_bytes) salt_failed
    ok_or (c.argon2 salt password) hashing_failed

-- A hash by Argon2id, version 19, within the bounds on its cost, with a salt and 32 bytes of hash.
pub record IsStrong (h : PasswordHash) : Type 0 where
  pub argon2id : h.algorithm ≡ codes "argon2id"
  pub version : h.version ≡ some 19
  pub memory : (n : ℕ) × (h.memory ≡ some n) × (19456 ≤ n) × (n ≤ 65536)
  pub iterations : (n : ℕ) × (h.iterations ≡ some n) × (2 ≤ n) × (n ≤ 5)
  pub parallelism : (n : ℕ) × (h.parallelism ≡ some n) × (1 ≤ n) × (n ≤ 4)
  pub salt : (n : ℕ) × (h.salt_length ≡ some n) × (22 ≤ n)
  pub hash : h.hash_length ≡ some 32

in_range :
    (o : Option ℕ) (low high : ℕ)
    → 0 < low
    → outside low high (or_zero o) ≡ false
    → (n : ℕ) × (o ≡ some n) × (low ≤ n) × (n ≤ high)
in_range none low high p h = absurd (ground arith)
in_range (some n) low high p h = (n, refl, ground arith, ground arith)

long_salt : (o : Option ℕ) → short_or_none 22 o ≡ false → (n : ℕ) × (o ≡ some n) × (22 ≤ n)
long_salt none h = cc
long_salt (some n) h = (n, refl, ground arith)

exact : (o : Option ℕ) (k : ℕ) → is_number k o ≡ true → o ≡ some k
exact none k h = cc
exact (some n) k h = ground arith

is_weak-IsStrong : (h : PasswordHash) → is_weak h ≡ false → IsStrong h
unfolding is_weak
is_weak-IsStrong h e = record {
  argon2id = (text_eq_iff h.algorithm (codes "argon2id")).0 (ground arith);
  version = exact h.version 19 (ground arith);
  memory = in_range h.memory 19456 65536 (omega arith) (ground arith);
  iterations = in_range h.iterations 2 5 (omega arith) (ground arith);
  parallelism = in_range h.parallelism 1 4 (omega arith) (ground arith);
  salt = long_salt h.salt_length (ground arith);
  hash = exact h.hash_length 32 (ground arith);
}

in_range_converse :
    (o : Option ℕ) (low high : ℕ)
    → ((n : ℕ) × (o ≡ some n) × (low ≤ n) × (n ≤ high))
    → outside low high (or_zero o) ≡ false
in_range_converse o low high (n, e, p, q) = rw e (ground arith)

IsStrong-is_weak : (h : PasswordHash) → IsStrong h → is_weak h ≡ false
unfolding is_weak
IsStrong-is_weak h s =
    let id = (text_eq_iff h.algorithm (codes "argon2id")).1 s.argon2id in
    let m = in_range_converse h.memory 19456 65536 s.memory in
    let t = in_range_converse h.iterations 2 5 s.iterations in
    let p = in_range_converse h.parallelism 1 4 s.parallelism in
    let salt : short_or_none 22 h.salt_length ≡ false = rw s.salt.1 (ground arith) in
    let v : is_number 19 h.version ≡ true = rw s.version refl in
    let l : is_number 32 h.hash_length ≡ true = rw s.hash refl in rw (id, m, t, p, salt, v, l) refl

-- No password at all, or a hash that parses and is strong.
abbrev pub IsUsableHash : Crypto → Text → Type 0
IsUsableHash c password_hash =
    (is_empty password_hash ≡ true)
    ⊎ ((h : PasswordHash) × (c.parse_hash password_hash ≡ some h) × IsStrong h)

-- The credentials that the service accepts at its start.
pub record IsUsable (c : Crypto) (username password_hash : Text) : Type 0 where
  pub given : is_empty username ≡ false
  pub bounded : byte_len username ≤ 64
  pub trimmed : trim username ≡ username
  pub printable : any is_control username ≡ false
  pub hash : IsUsableHash c password_hash

check_hash_iff :
    (c : Crypto) (password_hash : Text)
    → (check_hash c password_hash ≡ ok tt) ↔ IsUsableHash c password_hash
unfolding check_hash
check_hash_iff c password_hash = (to, from)
  where
    to : check_hash c password_hash ≡ ok tt → IsUsableHash c password_hash
    to e = elim (Option-cases (c.parse_hash password_hash)) [
      | inl missing ↦ inl (ground arith)
      | inr (h, found) ↦ elim (Bool-cases (is_empty password_hash)) [
        | inl none_given ↦ inl none_given
        | inr given ↦ inr (h, found, is_weak-IsStrong h (ground arith))
      ]
    ]

    from : IsUsableHash c password_hash → check_hash c password_hash ≡ ok tt
    from (inl none_given) = rw none_given refl
    from (inr (h, found, strong)) = ground (arith, found, IsStrong-is_weak h strong)

-- The service starts with an administrator's name and password hash exactly when the name has 1 to
-- 64 bytes, no white space around it and no control character, and the hash is empty or parses as
-- one by Argon2id, version 19, within the bounds on its cost; it then starts with no session, no
-- attempt counted and one permit.
pub with_username_iff :
    (c : Crypto) (username password_hash : Text) (now : ℕ)
    → (with_username c username password_hash now
        ≡ ok (record {
          username = username;
          password_hash = password_hash;
          state = record { session = none; window_started = now; attempts = 0 };
          poisoned = false;
          permits = 1;
        }))
      ↔ IsUsable c username password_hash
unfolding with_username
with_username_iff c username password_hash now = (
  λ e. record {
    given = ground arith;
    bounded = ground arith;
    trimmed = (text_eq_iff (trim username) username).0 (ground arith);
    printable = ground arith;
    hash = (check_hash_iff c password_hash).0 (ground arith);
  },
  λ u. ground (
    arith,
    u.given,
    u.bounded,
    u.printable,
    (text_eq_iff (trim username) username).1 u.trimmed,
    (check_hash_iff c password_hash).1 u.hash,
  ),
)
