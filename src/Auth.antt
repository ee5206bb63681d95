-- ===== src/Auth.antt =====
-- src/admin_auth.rs: the single administrator's credentials, throttle and session. An `Instant` is
-- a number of nanoseconds, which does not overflow. Argon2, SHA-256 and the random numbers are
-- outside the repository: `Crypto` (Auth/Primitives), and arguments for what was drawn.
pub mod Primitives
pub mod Tokens
pub mod Setup
pub mod Provisioned
pub mod Sessions
pub mod Login
pub mod Machine
pub mod Throttle
pub mod Origins
mod Tests
use rust_invite_system.Common.{
  ℕ, zero, suc, ◌+◌, ◌-◌, ◌*◌, Bool, true, false, not, ◌&&◌, ◌||◌, Option, none, some, Result, ok,
  err, [], ◌∷◌, Text, text_eq, byte_len, is_empty, ltb, leb, ◌==◌, if◌then◌else◌,
}
use Primitives.{Crypto}

abbrev pub second : ℕ
second = 1_000_000_000

-- `SESSION_SECONDS`, `LOGIN_WINDOW` and `MAX_ATTEMPTS`
abbrev pub session_length : ℕ
session_length = 8 * 60 * 60 * second

abbrev pub login_window : ℕ
login_window = 60 * second

abbrev pub max_attempts : ℕ
max_attempts = 5

pub record Session : Type 0 where
  pub token_hash : Text
  pub csrf : Text
  pub expires : ℕ

pub record AuthState : Type 0 where
  pub session : Option Session
  pub window_started : ℕ
  pub attempts : ℕ

-- `poisoned`: a thread panicked while it held the mutex. `permits`: of the semaphore `verifier`.
pub record AdminAuth : Type 0 where
  pub username : Text
  pub password_hash : Text
  pub state : AuthState
  pub poisoned : Bool
  pub permits : ℕ

pub data LoginError : Type 0 where
  invalid_credentials throttled unavailable : LoginError

-- The first samples of a generator.
abbrev pub samples_taken : ℕ → (ℕ → ℕ) → Text
samples_taken zero samples = []
samples_taken (suc n) samples = samples 0 ∷ samples_taken n (λ i. samples (suc i))

-- `rand::rng().sample_iter(Alphanumeric)` is the argument.
unfoldable pub random_token : (ℕ → ℕ) → Text
random_token samples = samples_taken 64 samples

unfoldable pub tokens_match : Text → Text → Bool
unfolding text_eq
tokens_match expected supplied =
    byte_len expected == 64 && byte_len supplied == 64 && text_eq expected supplied

-- The state in which `reserve_attempt` counts: a new window begins when the old one has passed.
unfoldable pub roll_window : ℕ → AuthState → AuthState
roll_window now s =
    if leb login_window (now - s.window_started)
    then record s { window_started = now; attempts = 0 }
    else s

unfoldable pub reserve_attempt : ℕ → AdminAuth → Result (Unit {0}) LoginError × AdminAuth
unfolding roll_window
reserve_attempt now a =
    if a.poisoned
    then (err unavailable, a)
    else (let s = roll_window now a.state in
        if leb max_attempts s.attempts
        then (err throttled, record a { state = s })
        else (ok tt, record a { state = record s { attempts = s.attempts + 1 } }))

-- What the blocking task of `login` works on.
pub record Verification : Type 0 where
  pub stored_hash : Text
  pub password : Text
  pub valid_username : Bool

-- The part of `login` after `reserve_attempt` and up to the blocking task, which holds the permit.
unfoldable pub start_verification :
    Text → Text → AdminAuth → Result Verification LoginError × AdminAuth
start_verification username password a =
    if is_empty a.password_hash || ltb 1024 (byte_len password)
    then (err invalid_credentials, a)
    else if a.permits == 0
    then (err throttled, a)
    else (
      ok (record {
        stored_hash = a.password_hash;
        password = password;
        valid_username = text_eq username a.username;
      }),
      record a { permits = a.permits - 1 },
    )

abbrev after_reserve :
    Text
    → Text
    → Result (Unit {0}) LoginError × AdminAuth
    → Result Verification LoginError × AdminAuth
after_reserve username password (err e, a) = (err e, a)
after_reserve username password (ok _, a) = start_verification username password a

-- `login` up to the blocking task.
unfoldable pub login_begin :
    ℕ → Text → Text → AdminAuth → Result Verification LoginError × AdminAuth
unfolding reserve_attempt start_verification
login_begin now username password a = after_reserve username password (reserve_attempt now a)

-- The session after a look at the clock.
abbrev pub expire : ℕ → Option Session → Option Session
expire now none = none
expire now (some s) = if leb s.expires now then none else some s

-- The blocking task ends, and with it its permit is dropped.
abbrev pub drop_permit : AdminAuth → AdminAuth
drop_permit a = record a { permits = a.permits + 1 }

module _ (c : Crypto) where
  -- `token` and `csrf` are the random texts drawn.
  unfoldable pub issue_session : ℕ → Text → Text → AdminAuth → Result Text LoginError × AdminAuth
  issue_session now token csrf a = if a.poisoned then (err unavailable, a) else (
    ok token,
    record a {
      state = record a.state {
        session = some (record {
          token_hash = c.sha256_hex token;
          csrf = csrf;
          expires = now + session_length;
        });
      };
    },
  )

  -- What `login` makes of the blocking task's answer. `joined` is false if the task panicked.
  abbrev pub verdict : Bool → Verification → Result (Unit {0}) LoginError
  verdict joined v =
      if not joined
      then err unavailable
      else if not (c.verify v.stored_hash v.password) || not v.valid_username
      then err invalid_credentials
      else ok tt

  abbrev after_verdict :
      Result (Unit {0}) LoginError
      → ℕ
      → Text
      → Text
      → AdminAuth
      → Result Text LoginError × AdminAuth
  unfolding issue_session
  after_verdict (err e) now token csrf a = (err e, a)
  after_verdict (ok _) now token csrf a = issue_session now token csrf a

  -- `login` from the end of the blocking task, when nothing else happens before the session is
  -- issued.
  unfoldable pub login_end :
      Bool → Verification → ℕ → Text → Text → AdminAuth → Result Text LoginError × AdminAuth
  unfolding issue_session
  login_end joined v now token csrf a =
      after_verdict (verdict joined v) now token csrf (drop_permit a)

  abbrev after_begin :
      Bool
      → ℕ
      → Text
      → Text
      → Result Verification LoginError × AdminAuth
      → Result Text LoginError × AdminAuth
  after_begin joined now token csrf (err e, a) = (err e, a)
  after_begin joined now token csrf (ok v, a) = login_end joined v now token csrf a

  -- `login` when nothing else happens while the password is verified.
  unfoldable pub login :
      ℕ → Text → Text → Bool → ℕ → Text → Text → AdminAuth → Result Text LoginError × AdminAuth
  unfolding login_begin login_end
  login now username password joined verified_at token csrf a =
      after_begin joined verified_at token csrf (login_begin now username password a)

  abbrev pub csrf_of : Text → Option Session → Option Text
  csrf_of token none = none
  csrf_of token (some s) =
      if tokens_match s.token_hash (c.sha256_hex token) then some s.csrf else none

  -- `csrf_token` is this at the current time.
  unfoldable pub csrf_token_at : Text → ℕ → AdminAuth → Option Text × AdminAuth
  unfolding tokens_match
  csrf_token_at token now a =
      if not (byte_len token == 64) || a.poisoned
      then (none, a)
      else (let live = expire now a.state.session in
          (csrf_of token live, record a { state = record a.state { session = live } }))

  abbrev pub drop_matching : Text → Option Session → Option Session
  drop_matching token none = none
  drop_matching token (some s) =
      if tokens_match s.token_hash (c.sha256_hex token) then none else some s

  unfoldable pub logout : Text → AdminAuth → Result (Unit {0}) LoginError × AdminAuth
  unfolding tokens_match
  logout token a = if a.poisoned then (err unavailable, a) else (
    ok tt,
    record a { state = record a.state { session = drop_matching token a.state.session } },
  )
