-- ===== src/Routes/Concurrent/Reached.antt =====
-- In every state that the service comes to, no two sign-ups own the same thing.
use rust_invite_system.Common.{ℕ, ◌≡◌, refl, subst, Bool, true, false, Result, ok, List}
use rust_invite_system.Steps.Owners.{Careful}
use rust_invite_system.Steps.Families.{
  Sharing, Guarded, start-Guarded, advance-Guarded, elsewhere-Guarded,
}
use rust_invite_system.Routes.State.{Outside, AppState}
use rust_invite_system.Routes.Signup.{Problem}
use rust_invite_system.Routes.Concurrent.Handlers.{Handled}
use rust_invite_system.Routes.Concurrent.Underway.{
  Arrival, SignUps, next_request, arrived, Step, requests, handles, elsewhere, Reach, start, later,
  Succeeded,
}

-- A sign-up that succeeds owns, in the end, what it shares.
abbrev pub Enrolled : Bool → Result (Unit {0}) (List Problem) → Type 0
Enrolled owner r = r ≡ ok tt → owner ≡ true

module _ (o : Outside) {K : Type 0} (g : Sharing (AppState o) K) (key : ℕ → K)
    (arrivals : ℕ → Arrival) (may : o.service.Directory → o.service.Directory → Type 0) where
  -- Nothing is taken away.
  abbrev pub Lasts : AppState o → AppState o → Type 0
  Lasts st st' = (g.Valid st → g.Valid st') × ((u : K) → g.Holds u st → g.Holds u st')

  module _ (handled : (st st' : AppState o) → Handled o st st' → Lasts st st')
      (others : (st : AppState o) (d : o.service.Directory)
        → may st.directory d
        → Lasts st (record st { directory = d })) where
    Step-Guarded :
        (first : AppState o) (s t : SignUps o)
        → Step o may s t
        → Guarded g key Enrolled first s.state s.left
        → Guarded g key Enrolled first t.state t.left
    unfolding next_request
    Step-Guarded first s t (requests n) v = advance-Guarded g key Enrolled first s.state s.left n v
    Step-Guarded first s t (handles {st} h) v =
        elsewhere-Guarded g key Enrolled first s.state _ s.left (handled s.state st h).0
          (handled s.state st h).1 v
    Step-Guarded first s t (elsewhere d m) v =
        elsewhere-Guarded g key Enrolled first s.state _ s.left (others s.state d m).0
          (others s.state d m).1 v

    pub Reach-Guarded :
        (first : AppState o) (s : SignUps o)
        → g.Valid first
        → ((n : ℕ)
            → Careful
                (g.Holds (key n))
                (g.Moves (key n))
                Enrolled
                false
                ((arrived o arrivals first).left n))
        → Reach o arrivals may first s
        → Guarded g key Enrolled first s.state s.left
    unfolding arrived
    Reach-Guarded first s v careful start = start-Guarded g key Enrolled first _ v careful
    Reach-Guarded first t v careful (later {s} r step) =
        Step-Guarded first s t step (Reach-Guarded first s v careful r)

  pub Succeeded-owns :
      (first : AppState o) (s : SignUps o) (v : Guarded g key Enrolled first s.state s.left) (n : ℕ)
      → Succeeded o s n
      → v.owner n ≡ true
  Succeeded-owns first s v n w =
      subst (Careful (g.Holds (key n)) (g.Moves (key n)) Enrolled (v.owner n)) w (v.careful n) refl
