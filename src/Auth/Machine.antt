-- ===== src/Auth/Machine.antt =====
-- The authenticator under any interleaving of requests: each `login` is three steps, with the
-- verification of the password, which holds the permit, between the first two; the third issues the
-- session of a login whose verification succeeded.
use rust_invite_system.Common.{
  ℕ, ◌+◌, ◌≤◌, ◌≡◌, refl, Bool, List, [], ◌∷◌, arith, Result, ok, err, Text, length,
}
use rust_invite_system.Auth.{
  AdminAuth, Verification, LoginError, max_attempts, login_begin, drop_permit, verdict,
  issue_session, csrf_token_at, logout,
}
use rust_invite_system.Auth.Primitives.{Crypto}

pub data Event : Type 0 where
  begins : (now : ℕ) (username password : Text) → Event
  ends : (joined : Bool) → Event
  issues : (now : ℕ) (token csrf : Text) → Event
  checks : (token : Text) (now : ℕ) → Event
  signs_out : (token : Text) → Event

-- `verifying`: the verifications that run. `admitted`: those that succeeded, whose session is not yet
-- issued; no session tells which one it is for, so that they are issued in any order. `guesses`: how
-- many were started.
pub record Machine : Type 0 where
  pub auth : AdminAuth
  pub verifying : List Verification
  pub admitted : List Verification
  pub guesses : ℕ

abbrev pub begun : Machine → Result Verification LoginError × AdminAuth → Machine
begun m (err e, a) = record m { auth = a }
begun m (ok v, a) = record m { auth = a; verifying = v ∷ m.verifying; guesses = m.guesses + 1 }

abbrev admit : Verification → Result (Unit {0}) LoginError → List Verification → List Verification
admit v (ok _) vs = v ∷ vs
admit v (err e) vs = vs

module _ (c : Crypto) where
  abbrev pub ended : Bool → List Verification → Machine → Machine
  ended joined [] m = m
  ended joined (v ∷ vs) m = record m {
    auth = drop_permit m.auth;
    verifying = vs;
    admitted = admit v (verdict c joined v) m.admitted;
  }

  abbrev pub issued : ℕ → Text → Text → List Verification → Machine → Machine
  unfolding issue_session
  issued now token csrf [] m = m
  issued now token csrf (v ∷ vs) m = record m {
    auth = (issue_session c now token csrf m.auth).1;
    admitted = vs;
  }

  unfoldable pub step : Event → Machine → Machine
  step (begins now username password) m = begun m (login_begin now username password m.auth)
  step (ends joined) m = ended joined m.verifying m
  step (issues now token csrf) m = issued now token csrf m.admitted m
  step (checks token now) m = record m { auth = (csrf_token_at c token now m.auth).1 }
  step (signs_out token) m = record m { auth = (logout c token m.auth).1 }

  unfoldable pub run : List Event → Machine → Machine
  run [] m = m
  run (e ∷ es) m = run es (step e m)

-- One verification holds the permit, or none does and it is free; and attempts stay in bounds.
pub record Inv (m : Machine) : Type 0 where
  pub permit : m.auth.permits + length m.verifying ≡ 1
  pub attempts : m.auth.state.attempts ≤ max_attempts

ends-Inv :
    (c : Crypto) (joined : Bool) (vs : List Verification) (m : Machine)
    → m.verifying ≡ vs
    → Inv m
    → Inv (ended c joined vs m)
ends-Inv c joined [] m e v = v
ends-Inv c joined (x ∷ vs) m e v = ground (arith, e)

issues-Inv :
    (c : Crypto) (now : ℕ) (token csrf : Text) (vs : List Verification) (m : Machine)
    → Inv m
    → Inv (issued c now token csrf vs m)
unfolding issue_session
issues-Inv c now token csrf [] m v = v
issues-Inv c now token csrf (x ∷ vs) m v = ground arith

step-Inv : (c : Crypto) (e : Event) (m : Machine) → Inv m → Inv (step c e m)
unfolding step login_begin csrf_token_at logout
step-Inv c (begins now username password) m v = ground arith
step-Inv c (ends joined) m v = ends-Inv c joined m.verifying m refl v
step-Inv c (issues now token csrf) m v = issues-Inv c now token csrf m.admitted m v
step-Inv c (checks token now) m v = ground arith
step-Inv c (signs_out token) m v = ground arith

-- Whatever requests interleave, at most one password is verified at a time: the permit and the
-- running verifications are always one together. And at most five attempts are counted.
pub run-Inv : (c : Crypto) (es : List Event) (m : Machine) → Inv m → Inv (run c es m)
unfolding run
run-Inv c [] m v = v
run-Inv c (e ∷ es) m v = run-Inv c es (step c e m) (step-Inv c e m v)
