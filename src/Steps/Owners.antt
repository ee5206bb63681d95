-- ===== src/Steps/Owners.antt =====
-- Processes that share things: who takes one owns it, until it gives it back or ends.
use rust_invite_system.Common.{◌≡◌, Bool, true, Result, ok, err}
use rust_invite_system.Steps.{Step}
use rust_invite_system.Steps.Processes.{
  Process, done, call, ◌>>=◌, atom, failing, or_undo, advance, zoom,
}

-- `Holds`: the thing is there for its owner. `Moves`: what a call may do, from an owner or not to an
-- owner or not.
module _ {S : Type 0} (Holds : S → Type 0) (Moves : Bool → Bool → S → S → Type 0) where
  -- The process makes only calls that it may make, and `Q` holds at the end.
  abbrev pub Careful : {E A : Type 0} → (Bool → Result A E → Type 0) → Bool → Process S E A → Type 0
  Careful Q owner (done r) = Q owner r
  Careful Q owner (call next after) =
      (s : S)
      → (owner ≡ true → Holds s)
      → (owner' : Bool) × Moves owner owner' s (after s) × Careful Q owner' (next s)

  -- A step that an owner or not may make, and that leaves it so.
  abbrev pub Harmless : {E A : Type 0} → Bool → Step S E A → Type 0
  Harmless owner m = (s : S) → (owner ≡ true → Holds s) → Moves owner owner s (m s).1

  module _ {E A : Type 0} where
    pub Careful-weaken :
        (Q R : Bool → Result A E → Type 0) (owner : Bool) (p : Process S E A)
        → ((b : Bool) (r : Result A E) → Q b r → R b r)
        → Careful Q owner p
        → Careful R owner p
    Careful-weaken Q R owner (done r) weaker h = weaker owner r h
    Careful-weaken Q R owner (call next after) weaker h = λ s there.
        let (owner', moves, rest) = h s there in
        (owner', moves, Careful-weaken Q R owner' (next s) weaker rest)

    pub Careful-atom :
        (Q : Bool → Result A E → Type 0) (owner : Bool) (m : Step S E A)
        → Harmless owner m
        → ((s : S) → Q owner (m s).0)
        → Careful Q owner (atom m)
    Careful-atom Q owner m harmless q s there = (owner, harmless s there, q s)

    -- The next call, from a state where what an owner has is there.
    pub advance-Careful :
        ((b : Bool) (s : S) → (b ≡ true → Holds s) → Moves b b s s)
        → (Q : Bool → Result A E → Type 0) (owner : Bool) (p : Process S E A) (s : S)
        → Careful Q owner p
        → (owner ≡ true → Holds s)
        → (owner' : Bool) × Moves owner owner' s (advance p s).1 × Careful Q owner' (advance p s).0
    unfolding advance
    advance-Careful idle Q owner (done r) s h there = (owner, idle owner s there, h)
    advance-Careful idle Q owner (call next after) s h there = h s there

  module _ {E A B : Type 0} (Q : Bool → Result B E → Type 0) (f : A → Process S E B) where
    abbrev pub Then : Bool → Result A E → Type 0
    Then owner (ok a) = Careful Q owner (f a)
    Then owner (err e) = Q owner (err e)

    pub Careful-bind :
        (owner : Bool) (p : Process S E A) → Careful Then owner p → Careful Q owner (p >>= f)
    unfolding ◌>>=◌
    Careful-bind owner (done (ok a)) h = h
    Careful-bind owner (done (err e)) h = h
    Careful-bind owner (call next after) h = λ s there.
        let (owner', moves, rest) = h s there in (owner', moves, Careful-bind owner' (next s) rest)

  module _ {E A B : Type 0} (Q : Bool → Result B E → Type 0) (owner : Bool) (f : A → Process S E B)
      (rest : (a : A) → Careful Q owner (f a)) (fails : (e : E) → Q owner (err e)) where
    pub Then-always : (r : Result A E) → Then Q f owner r
    Then-always (ok a) = rest a
    Then-always (err e) = fails e

    -- A result, and what follows.
    pub Careful-given : (r : Result A E) → Careful Q owner (done r >>= f)
    Careful-given r = Careful-bind Q f owner (done r) (Then-always r)

    -- A call, and what follows.
    pub Careful-then : (m : Step S E A) → Harmless owner m → Careful Q owner (atom m >>= f)
    Careful-then m harmless =
        Careful-bind Q f owner (atom m)
          (Careful-atom (Then Q f) owner m harmless (λ s. Then-always (m s).0))

  module _ {E A : Type 0} (Q : Bool → Result A E → Type 0) (undo : Process S E (Unit {0})) where
    pub Careful-failing :
        (e : E) (owner : Bool) (p : Process S E (Unit {0}))
        → Careful (λ b _. Q b (err e)) owner p
        → Careful Q owner (failing e p)
    unfolding failing
    Careful-failing e owner (done r) h = h
    Careful-failing e owner (call next after) h = λ s there.
        let (owner', moves, rest) = h s there in
        (owner', moves, Careful-failing e owner' (next s) rest)

    abbrev pub OrUndo : Bool → Result A E → Type 0
    OrUndo owner (ok a) = Q owner (ok a)
    OrUndo owner (err e) = Careful (λ b _. Q b (err e)) owner undo

    pub Careful-or_undo :
        (owner : Bool) (p : Process S E A)
        → Careful OrUndo owner p
        → Careful Q owner (or_undo p undo)
    unfolding or_undo
    Careful-or_undo owner (done (ok a)) h = h
    Careful-or_undo owner (done (err e)) h = Careful-failing e owner undo h
    Careful-or_undo owner (call next after) h = λ s there.
        let (owner', moves, rest) = h s there in
        (owner', moves, Careful-or_undo owner' (next s) rest)

-- A process on a part of the state.
pub Careful-zoom :
    {S T E F A B : Type 0} (Holds : S → Type 0) (Moves : Bool → Bool → S → S → Type 0)
    (HoldsT : T → Type 0) (MovesT : Bool → Bool → T → T → Type 0) (get : T → S) (set : T → S → T)
    (answer : Result A E → Result B F) (Q : Bool → Result B F → Type 0)
    → ((t : T) → HoldsT t → Holds (get t))
    → ((b b' : Bool) (t : T) (s : S) → Moves b b' (get t) s → MovesT b b' t (set t s))
    → (owner : Bool) (p : Process S E A) → Careful Holds Moves (λ b r. Q b (answer r)) owner p
    → Careful HoldsT MovesT Q owner (zoom get set answer p)
unfolding zoom
Careful-zoom Holds Moves HoldsT MovesT get set answer Q holds moves owner (done r) h = h
Careful-zoom Holds Moves HoldsT MovesT get set answer Q holds moves owner (call next after) h =
    λ t there.
      let (owner', moved, rest) = h (get t) (λ e. holds t (there e)) in
      (
        owner',
        moves owner owner' t (after (get t)) moved,
        Careful-zoom Holds Moves HoldsT MovesT get set answer Q holds moves owner' (next (get t))
            rest,
      )
