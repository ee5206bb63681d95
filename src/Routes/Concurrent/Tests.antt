-- ===== src/Routes/Concurrent/Tests.antt =====
-- Three sign-ups in turns with the same invite, two of them with the same name.
use rust_invite_system.Common.{
  ℕ_discrete, ℕ, ◌≡◌, refl, if◌then◌else◌, ◌==◌, List, [], ◌∷◌, ◌++◌, codes, ok, err, replicate,
  arith, Text,
}
use rust_invite_system.Routes.Signup.{SubmitInviteForm, not_marked, not_created}
use rust_invite_system.Routes.Manage.{cleanup_round}
use rust_invite_system.Routes.Fixture.{outside, state, state-WellFormed, form, handlers}
use rust_invite_system.Lldap.Memory.{Memory, has, memory-IsDirectory, memory-RefusesTaken}
use rust_invite_system.Steps.Processes.{done, ◌>>=◌, zoom, or_undo}
use rust_invite_system.Routes.Concurrent.Handlers.{cleans}
use rust_invite_system.Routes.Concurrent.Underway.{
  Arrival, SignUps, next_request, arrived, requests, handles, elsewhere, Reach, start, later,
}
use rust_invite_system.Routes.Concurrent.Invariant.{Inv, Reach-Inv}
use rust_invite_system.Routes.Concurrent.Together.{DeletesNone, Together, Reach-Together}

-- Sign-up 1 is Eve's; sign-up 0 and all others are Ann's, the others with another address.
abbrev form_of : ℕ → SubmitInviteForm
form_of n =
    if n == 0
    then form
    else if n == 1
    then record form { username = codes "eve"; email = codes "eve@example.com" }
    else record form { email = codes "ann@example.org" }

abbrev arrivals : ℕ → Arrival
arrivals n = record { code = codes "code"; form = form_of n; checked = 5; used = 6 }

-- Before the sign-ups begin, the cleanup runs, and someone else adds an account.
abbrev cleaned : SignUps outside
cleaned = record (arrived outside arrivals state) { state = cleanup_round outside 5 state }

abbrev others : Memory
others = record cleaned.state.directory { users = codes "zed" ∷ cleaned.state.directory.users }

abbrev joined : SignUps outside
joined = record cleaned { state = record cleaned.state { directory = others } }

added-DeletesNone :
    (u : Text) (d : Memory)
    → DeletesNone outside memory-IsDirectory d (record d { users = u ∷ d.users })
unfolding memory-IsDirectory has
added-DeletesNone u d v there = ground arith

joined-Reach : Reach outside arrivals (DeletesNone outside memory-IsDirectory) state joined
unfolding arrived
joined-Reach =
    later (later start (handles (cleans 5)))
      (elsewhere others (added-DeletesNone (codes "zed") cleaned.state.directory))

unfoldable turns : List ℕ → SignUps outside → SignUps outside
unfolding next_request
turns [] s = s
turns (n ∷ ns) s = turns ns (next_request outside n s)

turns-Reach :
    (ns : List ℕ) (s : SignUps outside)
    → Reach outside arrivals (DeletesNone outside memory-IsDirectory) state s
    → Reach outside arrivals (DeletesNone outside memory-IsDirectory) state (turns ns s)
unfolding turns
turns-Reach [] s r = r
turns-Reach (n ∷ ns) s r = turns-Reach ns (next_request outside n s) (later r (requests n))

-- All look at the invite and find their name free before any creates an account; sign-up 2 comes too
-- late for its name, and sign-up 1 for its invite.
abbrev order : List ℕ
order =
    replicate 5 0
    ++ (replicate 5 1
        ++ (replicate 5 2
            ++ (replicate 2 0
                ++ (replicate 2 2 ++ (replicate 8 1 ++ (replicate 7 0 ++ replicate 3 1))))))

abbrev ended_all : SignUps outside
ended_all = turns order joined

first_wins : ended_all.left 0 ≡ done (ok tt)
unfolding turns arrived handlers ℕ_discrete ◌>>=◌ zoom or_undo cleanup_round
first_wins = refl

second_loses : ended_all.left 1 ≡ done (err (not_marked ∷ []))
unfolding turns arrived handlers ℕ_discrete ◌>>=◌ zoom or_undo cleanup_round
second_loses = refl

third_loses : ended_all.left 2 ≡ done (err (not_created ∷ []))
unfolding turns arrived handlers ℕ_discrete ◌>>=◌ zoom or_undo cleanup_round
third_loses = refl

Reach-Inv_example : Inv outside arrivals (DeletesNone outside memory-IsDirectory) state ended_all
Reach-Inv_example =
    Reach-Inv outside arrivals (DeletesNone outside memory-IsDirectory) state ended_all
      state-WellFormed (turns-Reach order joined joined-Reach)

Reach-Together_example : Together outside memory-IsDirectory arrivals state ended_all
Reach-Together_example =
    Reach-Together outside memory-IsDirectory arrivals memory-RefusesTaken state ended_all
      (turns-Reach order joined joined-Reach)
