-- ===== src/Auth/Throttle.antt =====
-- How many passwords can be tried.
use rust_invite_system.Common.{ℕ, ◌+◌, ◌≤◌, ◌<◌, ◌⊎◌, inl, Bool, List, [], ◌∷◌, arith, Text, All}
use rust_invite_system.Auth.{
  login_window, max_attempts, login_begin, issue_session, csrf_token_at, logout, Verification,
}
use rust_invite_system.Auth.Primitives.{Crypto}
use rust_invite_system.Auth.Machine.{
  Event, begins, ends, issues, checks, signs_out, Machine, ended, issued, step, run,
}

-- A login that begins does so within a minute of `from`.
abbrev pub Within : ℕ → Event → Type 0
Within from (begins now username password) = (from ≤ now) × (now < from + login_window)
Within from (ends joined) = Unit {0}
Within from (issues now token csrf) = Unit {0}
Within from (checks token now) = Unit {0}
Within from (signs_out token) = Unit {0}

-- Either no window began since `from`, or one did, and another will not.
pub record Paced (from start : ℕ) (m : Machine) : Type 0 where
  attempts : m.auth.state.attempts ≤ max_attempts
  paced :
      (m.guesses ≤ start + m.auth.state.attempts)
      ⊎ ((from ≤ m.auth.state.window_started)
          × (m.guesses ≤ start + max_attempts + m.auth.state.attempts))

ends-Paced :
    (c : Crypto) (from start : ℕ) (joined : Bool) (vs : List Verification) (m : Machine)
    → Paced from start m
    → Paced from start (ended c joined vs m)
ends-Paced c from start joined [] m v = v
ends-Paced c from start joined (x ∷ vs) m v = ground arith

issues-Paced :
    (c : Crypto) (from start now : ℕ) (token csrf : Text) (vs : List Verification) (m : Machine)
    → Paced from start m
    → Paced from start (issued c now token csrf vs m)
unfolding issue_session
issues-Paced c from start now token csrf [] m v = v
issues-Paced c from start now token csrf (x ∷ vs) m v = ground arith

step-Paced :
    (c : Crypto) (from start : ℕ) (e : Event) (m : Machine)
    → Within from e
    → Paced from start m
    → Paced from start (step c e m)
unfolding step login_begin csrf_token_at logout
step-Paced c from start (begins now username password) m w v = ground arith
step-Paced c from start (ends joined) m w v = ends-Paced c from start joined m.verifying m v
step-Paced c from start (issues now token csrf) m w v =
    issues-Paced c from start now token csrf m.admitted m v
step-Paced c from start (checks token now) m w v = ground arith
step-Paced c from start (signs_out token) m w v = ground arith

run-Paced :
    (c : Crypto) (from start : ℕ) (es : List Event) (m : Machine)
    → All (Within from) es
    → Paced from start m
    → Paced from start (run c es m)
unfolding run
run-Paced c from start [] m w v = v
run-Paced c from start (e ∷ es) m w v =
    run-Paced c from start es (step c e m) w.1 (step-Paced c from start e m w.0 v)

-- From a state with at most five attempts counted: in any minute, whenever it begins, at most ten
-- passwords are put to the test, whatever logins, checks and logouts interleave: five before a
-- window ends and five in the next.
pub run_guesses :
    (c : Crypto) (from : ℕ) (es : List Event) (m : Machine)
    → m.auth.state.attempts ≤ max_attempts
    → All (Within from) es
    → (run c es m).guesses ≤ m.guesses + 10
run_guesses c from es m a w =
    let p =
      run-Paced c from m.guesses es m w (record { attempts = a; paced = inl (omega arith) }) in
    omega (arith, p.attempts, p.paced)
