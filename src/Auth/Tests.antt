-- ===== src/Auth/Tests.antt =====
-- The tests of src/admin_auth.rs, and the theorems at concrete inputs. Here the hash of a password
-- is the password, and the digest of a token of 64 characters is the token.
use rust_invite_system.Common.{
  ◌+◌, ◌≡◌, refl, ◌↔◌, ◌≤◌, ◌⊎◌, true, false, Option, none, some, List, [], ◌∷◌, Result, ok, err,
  Text, codes, text_eq, byte_len, replicate, trim, is_whitespace, arith, if◌then◌else◌, ◌==◌,
}
use rust_invite_system.Auth.{
  AdminAuth, Session, LoginError, invalid_credentials, throttled, session_length, login_window,
  reserve_attempt, login, issue_session, csrf_token_at, logout, tokens_match,
}
use rust_invite_system.Auth.Primitives.{Crypto, HasDigests, PasswordHash}
use rust_invite_system.Auth.Setup.{
  with_username, hash_password, bad_username, weak_hash, invalid_hash, password_size,
  with_username_iff, IsUsable,
}
use rust_invite_system.Auth.Machine.{
  Event, begins, ends, issues, checks, signs_out, Machine, Inv, step, run, run-Inv,
}
use rust_invite_system.Auth.Throttle.{run_guesses}
use rust_invite_system.Common.{ℕ, text_eq_iff, is_empty}
use rust_invite_system.Auth.Provisioned.{
  default_hash, IsArgon2, provision_admin_password, provisioned_password_signs_in,
}
use rust_invite_system.Auth.Origins.{SignedIn, run-session}

-- A digest of 64 bytes that tells one first character from the others.
abbrev digest : Text → Text
digest [] = replicate 64 b'0'
digest (x ∷ s) = (if x == b'a' then b'a' else b'b') ∷ replicate 63 b'0'

digest-length : (s : Text) → byte_len (digest s) ≡ 64
unfolding byte_len
digest-length [] = refl
digest-length (x ∷ s) = ground arith

abbrev strong : PasswordHash
strong = record {
  algorithm = codes "argon2id";
  version = some 19;
  memory = some 19456;
  iterations = some 2;
  parallelism = some 1;
  salt_length = some 22;
  hash_length = some 32;
}

abbrev parse : Text → Option PasswordHash
parse s =
    if text_eq s (codes "secret")
    then some strong
    else if text_eq s (codes "weak")
    then some (record strong { memory = some 8 })
    else none

abbrev crypto : Crypto
crypto = record {
  sha256_hex = digest;
  parse_hash = parse;
  encode_b64 = λ bytes. some bytes;
  argon2 = λ salt password. some password;
  verify = text_eq;
}

crypto-HasDigests : HasDigests crypto
crypto-HasDigests = record { digest_length = digest-length }

authenticator : Unit {0}
unfolding with_username hash_password login reserve_attempt issue_session csrf_token_at logout
    tokens_match text_eq byte_len trim is_whitespace run step
authenticator = tt

abbrev auth : AdminAuth
auth = record {
  username = codes "operator";
  password_hash = codes "secret";
  state = record { session = none; window_started = 0; attempts = 0 };
  poisoned = false;
  permits = 1;
}

setup_tests :
    (with_username crypto (codes "operator") (codes "secret") 0 ≡ ok auth)
    × (with_username crypto (codes " operator") [] 0 ≡ err bad_username)
    × (with_username crypto (replicate 65 b'x') [] 0 ≡ err bad_username)
    × (with_username crypto (codes "operator") (codes "weak") 0 ≡ err weak_hash)
    × (with_username crypto (codes "operator") (codes "other") 0 ≡ err invalid_hash)
    × (hash_password crypto [] (codes "short") ≡ err password_size)
unfolding authenticator
setup_tests = (refl, refl, refl, refl, refl, refl)

abbrev token_a : Text
token_a = replicate 64 b'a'

abbrev token_b : Text
token_b = replicate 64 b'c'

abbrev signed_in : Result Text LoginError × AdminAuth
signed_in = login crypto 1 (codes "operator") (codes "secret") true 2 token_a (codes "csrf") auth

login_tests :
    (signed_in.0 ≡ ok token_a)
    × ((login crypto 1 (codes "admin") (codes "secret") true 2 token_a [] auth).0
        ≡ err invalid_credentials)
    × ((login crypto 1 (codes "operator") (codes "wrong") true 2 token_a [] auth).0
        ≡ err invalid_credentials)
    × ((reserve_attempt 3
          (record auth { state = record { session = none; window_started = 0; attempts = 5 } })).0
        ≡ err throttled)
    × ((reserve_attempt login_window
          (record auth { state = record { session = none; window_started = 0; attempts = 5 } })).0
        ≡ ok tt)
unfolding authenticator
login_tests = (refl, refl, refl, refl, refl)

with_username_iff_example :
    (with_username crypto (codes "operator") (codes "secret") 0 ≡ ok auth)
    ↔ IsUsable crypto (codes "operator") (codes "secret")
with_username_iff_example = with_username_iff crypto (codes "operator") (codes "secret") 0

abbrev open_session : Session
open_session = record {
  token_hash = digest token_a;
  csrf = codes "csrf";
  expires = 2 + session_length;
}

abbrev in_session : AdminAuth
in_session = record auth {
  state = record { session = some open_session; window_started = 0; attempts = 1 };
}

abbrev machine : Machine
machine = record { auth = auth; verifying = []; admitted = []; guesses = 0 }

-- Two logins at once: the second is turned away while the first is verified.
abbrev two_logins : List Event
two_logins =
    begins 1 (codes "operator") (codes "secret")
    ∷ begins 2 (codes "operator") (codes "guess")
    ∷ ends true
    ∷ issues 3 token_a (codes "csrf")
    ∷ checks token_a 4
    ∷ signs_out token_a
    ∷ []

two_logins_test : (run crypto two_logins machine).guesses ≡ 1
unfolding authenticator
two_logins_test = refl

run-Inv_example : Inv (run crypto two_logins machine)
run-Inv_example =
    run-Inv crypto two_logins machine (record { permit = refl; attempts = omega arith })

run_guesses_example : (run crypto two_logins machine).guesses ≤ 0 + 10
run_guesses_example =
    run_guesses crypto 1 two_logins machine (omega arith)
      ((omega arith, omega arith), ((omega arith, omega arith), (tt, (tt, (tt, (tt, tt))))))

-- A login whose session is issued.
abbrev one_login : List Event
one_login =
    begins 1 (codes "operator") (codes "secret") ∷ ends true ∷ issues 2 token_a (codes "csrf") ∷ []

session_opened : (run crypto one_login machine).auth.state.session ≡ some open_session
unfolding authenticator
session_opened = refl

run-session_example :
    (◌≡◌ {A = Option Session} none (some open_session))
    ⊎ SignedIn crypto auth one_login open_session
run-session_example = run-session crypto one_login machine open_session refl refl session_opened

-- The hash of a password is the password behind a dollar.
abbrev dollar : Crypto
dollar = record {
  sha256_hex = digest;
  parse_hash = λ s. if is_empty s then none else some default_hash;
  encode_b64 = λ bytes. some bytes;
  argon2 = λ salt password. some (b'$' ∷ password);
  verify = λ hash password. text_eq hash (b'$' ∷ password);
}

dollar-IsArgon2 : IsArgon2 dollar
dollar-IsArgon2 = record {
  parses = λ bytes salt password hash _ drawn e. ground arith;
  verifies = λ salt password hash e. ground (arith, text_eq_iff hash (b'$' ∷ password));
  empty = refl;
}

abbrev sixteen : Text
sixteen = codes "0123456789abcdef"

provisioned_password_signs_in_example :
    (a : AdminAuth) × (typed : Text) × (some sixteen ≡ some typed)
    × (with_username dollar (codes "admin") (b'$' ∷ sixteen) 0 ≡ ok a)
    × ((now verified_at : ℕ) (token csrf : Text)
        → (login dollar now (codes "admin") typed true verified_at token csrf a).0 ≡ ok token)
unfolding authenticator provision_admin_password
provisioned_password_signs_in_example =
    provisioned_password_signs_in dollar dollar-IsArgon2 (some sixteen) (some sixteen)
      (replicate 16 b's') (b'$' ∷ sixteen) (codes "admin") 0 refl refl
      ((with_username_iff dollar (codes "admin") [] 0).0 refl)
