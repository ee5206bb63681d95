-- ===== src/Routes/Concurrent/Underway.antt =====
-- The service: any number of sign-ups under way, each at one of its requests to the directory server
-- or the database, with the administrator's requests and the cleanup.
use rust_invite_system.Common.{ℕ, ◌≡◌, ok, Text}
use rust_invite_system.Steps.Processes.{done, advance}
use rust_invite_system.Steps.Families.{update}
use rust_invite_system.Routes.State.{Outside, AppState}
use rust_invite_system.Routes.Signup.{SubmitInviteForm}
use rust_invite_system.Routes.Concurrent.Requests.{Requests, accept_requests}
use rust_invite_system.Routes.Concurrent.Handlers.{Handled}

-- A request to sign up, with its looks at the clock.
pub record Arrival : Type 0 where
  pub code : Text
  pub form : SubmitInviteForm
  pub checked : ℕ
  pub used : ℕ

module _ (o : Outside) where
  -- The sign-ups by number, with what each has left to do. One that has not come yet has all left.
  pub record SignUps : Type 0 where
    pub state : AppState o
    pub left : ℕ → Requests o (Unit {0})

  -- Sign-up `n` makes its next request.
  unfoldable pub next_request : ℕ → SignUps → SignUps
  unfolding advance
  next_request n s =
      let (p, state) = advance (s.left n) s.state in
      record { state = state; left = update s.left n p }

  -- `may`: how the directory can change by others.
  pub data Step (may : o.service.Directory → o.service.Directory → Type 0) (s : SignUps)
      : SignUps → Type 0 where
    requests : (n : ℕ) → Step may s (next_request n s)
    handles : {st : AppState o} → Handled o s.state st → Step may s (record s { state = st })
    elsewhere :
        (d : o.service.Directory)
        → may s.state.directory d
        → Step may s (record s { state = record s.state { directory = d } })

  module _ (arrivals : ℕ → Arrival) where
    unfoldable pub arrived : AppState o → SignUps
    unfolding accept_requests
    arrived st = record {
      state = st;
      left = λ n. let a = arrivals n in accept_requests o st.config a.form a.checked a.used a.code;
    }

    -- The states that the service comes to.
    pub data Reach (may : o.service.Directory → o.service.Directory → Type 0) (st : AppState o)
        : SignUps → Type 0 where
      start : Reach may st (arrived st)
      later : {s t : SignUps} → Reach may st s → Step may s t → Reach may st t

  abbrev pub Succeeded : SignUps → ℕ → Type 0
  Succeeded s n = s.left n ≡ done (ok tt)
