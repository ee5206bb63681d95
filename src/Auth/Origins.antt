-- ===== src/Auth/Origins.antt =====
-- Where a session comes from, whatever requests interleave.
use rust_invite_system.Common.{
  ℕ, ◌+◌, ◌≤◌, ◌≡◌, refl, sym, ◌∙◌, ap, subst, ◌⊎◌, inl, inr, Bool, true, false, some, List, [],
  ◌∷◌, arith, Result, ok, err, Text, text_eq, text_eq_iff, byte_len, is_empty, All, Bool-cases,
  Result-cases,
}
use mathlib.Core.List.{Mem, mem-cons_self, mem-cons_of_mem}
use rust_invite_system.Auth.{
  AdminAuth, Session, Verification, LoginError, session_length, login_begin, verdict, issue_session,
  csrf_token_at, logout,
}
use rust_invite_system.Auth.Primitives.{Crypto}
use rust_invite_system.Auth.Login.{IsAdministrator}
use rust_invite_system.Auth.Machine.{
  Event, begins, ends, issues, checks, signs_out, Machine, begun, ended, issued, step, run,
}

module _ (c : Crypto) (a : AdminAuth) (all : List Event) where
  -- A verification that one of the requests began: of its password against the configured hash.
  record Tried (v : Verification) : Type 0 where
    at : ℕ
    username : Text
    asked : Mem (begins at username v.password) all
    configured : is_empty a.password_hash ≡ false
    bounded : byte_len v.password ≤ 1024
    hash : v.stored_hash ≡ a.password_hash
    name : v.valid_username ≡ text_eq username a.username

  -- One of the requests gave the administrator's name and password.
  pub record Entered : Type 0 where
    pub at : ℕ
    pub username : Text
    pub password : Text
    pub asked : Mem (begins at username password) all
    pub right : IsAdministrator c a username password

  -- The session is one that was issued, for eight hours, with the token and the text drawn, to a
  -- request with the administrator's name and password.
  pub record SignedIn (s : Session) : Type 0 where
    pub entered : Entered
    pub at : ℕ
    pub token : Text
    pub csrf : Text
    pub issued : Mem (issues at token csrf) all
    pub session :
        s ≡ record { token_hash = c.sha256_hex token; csrf = csrf; expires = at + session_length }

  Origin : Machine → Type 0
  Origin m = (s : Session) → m.auth.state.session ≡ some s → (a.state.session ≡ some s) ⊎ SignedIn s

  -- What is known in every state.
  record Traced (m : Machine) : Type 0 where
    hash : m.auth.password_hash ≡ a.password_hash
    name : m.auth.username ≡ a.username
    running : All Tried m.verifying
    passed : All (λ v. Entered) m.admitted
    origin : Origin m

  -- What beginning a login makes of the state and of the verification.
  record Begun (at : ℕ) (username password : Text) (b : AdminAuth)
      (out : Result Verification LoginError × AdminAuth) : Type 0 where
    hash : out.1.password_hash ≡ b.password_hash
    name : out.1.username ≡ b.username
    session : out.1.state.session ≡ b.state.session
    started :
        (v : Verification)
        → out.0 ≡ ok v
        → (v ≡ record {
          stored_hash = b.password_hash;
          password = password;
          valid_username = text_eq username b.username;
        })
          × (is_empty b.password_hash ≡ false)
          × (byte_len password ≤ 1024)

  login_begin-Begun :
      (at : ℕ) (username password : Text) (b : AdminAuth)
      → Begun at username password b (login_begin at username password b)
  unfolding login_begin
  login_begin-Begun at username password b = record {
    hash = ground arith;
    name = ground arith;
    session = ground arith;
    started = λ v h. (ground arith, ground arith, ground arith);
  }

  begins-Traced :
      (at : ℕ) (username password : Text) (m : Machine)
      (out : Result Verification LoginError × AdminAuth)
      → Mem (begins at username password) all
      → Begun at username password m.auth out
      → Traced m
      → Traced (begun m out)
  unfolding Origin
  begins-Traced at username password m (err e, b) asked w t = record {
    hash = w.hash ∙ t.hash;
    name = w.name ∙ t.name;
    running = t.running;
    passed = t.passed;
    origin = λ s h. t.origin s (sym w.session ∙ h);
  }
  begins-Traced at username password m (ok v, b) asked w t =
      let (made, configured, bounded) = w.started v refl in
      let typed : v.password ≡ password = ap (λ x. x.password) made in
      record {
        hash = w.hash ∙ t.hash;
        name = w.name ∙ t.name;
        running = (
          record {
            at = at;
            username = username;
            asked = subst (λ p. Mem (begins at username p) all) (sym typed) asked;
            configured = ap is_empty (sym t.hash) ∙ configured;
            bounded = subst (λ p. byte_len p ≤ 1024) (sym typed) bounded;
            hash = ap (λ x. x.stored_hash) made ∙ t.hash;
            name = ap (λ x. x.valid_username) made ∙ ap (text_eq username) t.name;
          },
          t.running,
        );
        passed = t.passed;
        origin = λ s h. t.origin s (sym w.session ∙ h);
      }

  -- A verification that succeeds was of the administrator's name and password.
  Tried-Entered :
      (joined : Bool) (v : Verification) → Tried v → verdict c joined v ≡ ok tt → Entered
  Tried-Entered joined v t h = record {
    at = t.at;
    username = t.username;
    password = v.password;
    asked = t.asked;
    right = record {
      name = (text_eq_iff t.username a.username).0 (sym t.name ∙ ground arith);
      configured = t.configured;
      bounded = t.bounded;
      verified = subst (λ x. c.verify x v.password ≡ true) t.hash (ground arith);
    };
  }

  ends-Traced :
      (joined : Bool) (vs : List Verification) (m : Machine)
      → m.verifying ≡ vs
      → Traced m
      → Traced (ended c joined vs m)
  unfolding Origin
  ends-Traced joined [] m e t = t
  ends-Traced joined (v ∷ vs) m e t =
      let running : All Tried (v ∷ vs) = subst (All Tried) e t.running in
      elim (Result-cases (verdict c joined v)) [
        | inr (x, r) ↦ record {
          hash = t.hash;
          name = t.name;
          running = running.1;
          passed = rw r t.passed;
          origin = t.origin;
        }
        | inl (u, r) ↦ record {
          hash = t.hash;
          name = t.name;
          running = running.1;
          passed = rw r (Tried-Entered joined v running.0 r, t.passed);
          origin = t.origin;
        }
      ]

  issues-Traced :
      (at : ℕ) (token csrf : Text) (vs : List Verification) (m : Machine)
      → m.admitted ≡ vs
      → Mem (issues at token csrf) all
      → Traced m
      → Traced (issued c at token csrf vs m)
  unfolding issue_session Origin
  issues-Traced at token csrf [] m e drawn t = t
  issues-Traced at token csrf (v ∷ vs) m e drawn t =
      let passed : All (λ v'. Entered) (v ∷ vs) = subst (All (λ v'. Entered)) e t.passed in
      elim (Bool-cases m.auth.poisoned) [
        | inl p ↦
            rw (p, issue_session)
              (record {
                hash = t.hash;
                name = t.name;
                running = t.running;
                passed = passed.1;
                origin = t.origin;
              })
        | inr p ↦
            rw (p, issue_session)
              (record {
                hash = t.hash;
                name = t.name;
                running = t.running;
                passed = passed.1;
                origin = λ s h. inr (record {
                  entered = passed.0;
                  at = at;
                  token = token;
                  csrf = csrf;
                  issued = drawn;
                  session = ground arith;
                });
              })
      ]

  -- A change of the session only, which ends it or leaves it.
  kept-Traced :
      (m : Machine) (b : AdminAuth)
      → b.password_hash ≡ m.auth.password_hash
      → b.username ≡ m.auth.username
      → ((s : Session) → b.state.session ≡ some s → m.auth.state.session ≡ some s)
      → Traced m
      → Traced (record m { auth = b })
  unfolding Origin
  kept-Traced m b hash name kept t = record {
    hash = hash ∙ t.hash;
    name = name ∙ t.name;
    running = t.running;
    passed = t.passed;
    origin = λ s h. t.origin s (kept s h);
  }

  step-Traced : (e : Event) (m : Machine) → Mem e all → Traced m → Traced (step c e m)
  unfolding step csrf_token_at logout
  step-Traced (begins at username password) m h t =
      begins-Traced at username password m _ h (login_begin-Begun at username password m.auth) t
  step-Traced (ends joined) m h t = ends-Traced joined m.verifying m refl t
  step-Traced (issues at token csrf) m h t = issues-Traced at token csrf m.admitted m refl h t
  step-Traced (checks token now) m h t =
      kept-Traced m (csrf_token_at c token now m.auth).1 (ground arith) (ground arith)
        (λ s e. ground arith) t
  step-Traced (signs_out token) m h t =
      kept-Traced m (logout c token m.auth).1 (ground arith) (ground arith) (λ s e. ground arith) t

  run-Traced :
      (es : List Event) (m : Machine)
      → ((e : Event) → Mem e es → Mem e all)
      → Traced m
      → Traced (run c es m)
  unfolding run
  run-Traced [] m among t = t
  run-Traced (e ∷ es) m among t =
      run-Traced es (step c e m) (λ x h. among x (mem-cons_of_mem e h))
        (step-Traced e m (among e mem-cons_self) t)

-- Whatever logins, look-ups and logouts interleave, from a state in which no login is under way: a
-- session that was not there before was issued, with a token and a text that were drawn and for
-- eight hours, after a request that gave the administrator's name and a password of at most 1024
-- bytes that verifies against the configured hash, which is not empty.
pub run-session :
    (c : Crypto) (es : List Event) (m : Machine) (s : Session)
    → m.verifying ≡ []
    → m.admitted ≡ []
    → (run c es m).auth.state.session ≡ some s
    → (m.auth.state.session ≡ some s) ⊎ SignedIn c m.auth es s
unfolding Origin
run-session c es m s none_verifying none_admitted h =
    let start : Traced c m.auth es m = record {
      hash = refl;
      name = refl;
      running = subst (All (Tried c m.auth es)) (sym none_verifying) tt;
      passed = subst (All (λ v. Entered c m.auth es)) (sym none_admitted) tt;
      origin = λ s' e. inl e;
    } in
    (run-Traced c m.auth es es m (λ e x. x) start).origin s h
