-- ===== src/Auth/Login.antt =====
-- What a sign-in proves, and where a session comes from.
use rust_invite_system.Common.{
  ℕ, ◌+◌, ◌≤◌, ◌≡◌, Bool, true, false, some, arith, ok, err, Text, text_eq_iff, byte_len, is_empty,
}
use rust_invite_system.Auth.{AdminAuth, LoginError, session_length, login}
use rust_invite_system.Auth.Primitives.{Crypto}

-- The name and the password are those of the administrator.
pub record IsAdministrator (c : Crypto) (a : AdminAuth) (username password : Text) : Type 0 where
  pub name : username ≡ a.username
  pub configured : is_empty a.password_hash ≡ false
  pub bounded : byte_len password ≤ 1024
  pub verified : c.verify a.password_hash password ≡ true

-- A login that succeeds was given the administrator's name and a password of at most 1024 bytes
-- that verifies against the configured hash, which is not empty; it returns the token drawn, and
-- the session is that token's, until eight hours after the verification.
pub login_sound :
    (c : Crypto) (a : AdminAuth) (now : ℕ) (username password : Text) (joined : Bool)
    (verified_at : ℕ) (token csrf answer : Text)
    → (login c now username password joined verified_at token csrf a).0 ≡ ok answer
    → IsAdministrator c a username password
      × (answer ≡ token)
      × ((login c now username password joined verified_at token csrf a).1.state.session
          ≡ some (record {
            token_hash = c.sha256_hex token;
            csrf = csrf;
            expires = verified_at + session_length;
          }))
unfolding login
login_sound c a now username password joined verified_at token csrf answer e = (
  record {
    name = (text_eq_iff username a.username).0 (ground arith);
    configured = ground arith;
    bounded = ground arith;
    verified = ground arith;
  },
  ground arith,
  ground arith,
)

-- After a login that succeeds the mutex is not poisoned.
pub login-healthy :
    (c : Crypto) (a : AdminAuth) (now : ℕ) (username password : Text) (joined : Bool)
    (verified_at : ℕ) (token csrf answer : Text)
    → (login c now username password joined verified_at token csrf a).0 ≡ ok answer
    → (login c now username password joined verified_at token csrf a).1.poisoned ≡ false
unfolding login
login-healthy c a now username password joined verified_at token csrf answer e = ground arith

-- A login that fails leaves the session as it was.
pub login-failed :
    (c : Crypto) (a : AdminAuth) (now : ℕ) (username password : Text) (joined : Bool)
    (verified_at : ℕ) (token csrf : Text) (e : LoginError)
    → (login c now username password joined verified_at token csrf a).0 ≡ err e
    → (login c now username password joined verified_at token csrf a).1.state.session
      ≡ a.state.session
unfolding login
login-failed c a now username password joined verified_at token csrf e h = ground arith
