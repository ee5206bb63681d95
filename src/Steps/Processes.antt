-- ===== src/Steps/Processes.antt =====
-- A step cut at its calls, so that others can run between them.
use rust_invite_system.Common.{◌≡◌, refl, ◌∙◌, Result, ok, err}
use rust_invite_system.Steps.{Step, continue, lift}
use rust_invite_system.Steps

-- It has ended, or makes a call: what follows depends on the state that the call finds, and the
-- call changes the state.
pub data Process (S E A : Type 0) : Type 0 where
  done : Result A E → Process S E A
  call : (next : S → Process S E A) (after : S → S) → Process S E A

module _ {S E A B : Type 0} where
  infixl 5 ◌>>=◌ ◌>>◌
  unfoldable pub ◌>>=◌ : Process S E A → (A → Process S E B) → Process S E B
  ◌>>=◌ (done (ok a)) f = f a
  ◌>>=◌ (done (err e)) f = done (err e)
  ◌>>=◌ (call next after) f = call (λ s. next s >>= f) after

  abbrev pub ◌>>◌ : Process S E A → Process S E B → Process S E B
  p >> q = p >>= λ _. q

module _ {S E A : Type 0} where
  abbrev pub pure : A → Process S E A
  pure a = done (ok a)

  -- One call.
  abbrev pub atom : Step S E A → Process S E A
  atom m = call (λ s. done (m s).0) (λ s. (m s).1)

  -- `undo` where the process failed, with the process's error.
  unfoldable pub failing : E → Process S E (Unit {0}) → Process S E A
  failing e (done r) = done (err e)
  failing e (call next after) = call (λ s. failing e (next s)) after

  unfoldable pub or_undo : Process S E A → Process S E (Unit {0}) → Process S E A
  unfolding failing
  or_undo (done (ok a)) undo = done (ok a)
  or_undo (done (err e)) undo = failing e undo
  or_undo (call next after) undo = call (λ s. or_undo (next s) undo) after

  -- All calls, with nothing in between.
  unfoldable pub run : Process S E A → Step S E A
  run (done r) s = (r, s)
  run (call next after) s = run (next s) (after s)

-- The next call, if it has not ended.
unfoldable pub advance : {S E A : Type 0} → Process S E A → S → Process S E A × S
advance (done r) s = (done r, s)
advance (call next after) s = (next s, after s)

-- A process on a part of the state, with what is made of its result.
unfoldable pub zoom :
    {S T E F A B : Type 0}
    → (get : T → S) (set : T → S → T) (answer : Result A E → Result B F) → Process S E A
    → Process T F B
zoom get set answer (done r) = done (answer r)
zoom get set answer (call next after) =
    call (λ t. zoom get set answer (next (get t))) (λ t. set t (after (get t)))

-- The process is the step, cut.
abbrev pub Runs : {S E A : Type 0} → Process S E A → Step S E A → Type 0
Runs {S} p m = (s : S) → run p s ≡ m s

pub atom-Runs : {S E A : Type 0} (m : Step S E A) → Runs (atom m) m
unfolding run
atom-Runs m s = refl

pub done-Runs : {S E A : Type 0} (r : Result A E) → Runs {S = S} (done r) (lift r)
unfolding run
done-Runs r s = refl

run-bind :
    {S E A B : Type 0} (p : Process S E A) (f : A → Process S E B) (s : S)
    → run (p >>= f) s ≡ continue (run p s).0 (λ a. run (f a)) (run p s).1
unfolding run ◌>>=◌
run-bind (done (ok a)) f s = refl
run-bind (done (err e)) f s = refl
run-bind (call next after) f s = run-bind (next s) f (after s)

-- The same, from states with a property.
abbrev pub RunsFrom : {S E A : Type 0} → (S → Type 0) → Process S E A → Step S E A → Type 0
RunsFrom {S} P p m = (s : S) → P s → run p s ≡ m s

pub bind-RunsFrom :
    {S E A B : Type 0} (P : S → Type 0) (p : Process S E A) (m : Step S E A) (f : A → Process S E B)
    (g : A → Step S E B)
    → RunsFrom P p m
    → ((s : S) → P s → P (m s).1)
    → ((a : A) → RunsFrom P (f a) (g a))
    → RunsFrom P (p >>= f) (Steps.◌>>=◌ m g)
bind-RunsFrom {S} {E} {A} P p m f g first kept rest s h =
    rw (run-bind p f s, first s h) (go (m s).0 (m s).1 (kept s h))
  where
    go : (r : Result A E) (s' : S) → P s' → continue r (λ a. run (f a)) s' ≡ continue r g s'
    go (ok a) s' h' = rest a s' h'
    go (err e) s' h' = refl

pub bind-Runs :
    {S E A B : Type 0} (p : Process S E A) (m : Step S E A) (f : A → Process S E B)
    (g : A → Step S E B)
    → Runs p m
    → ((a : A) → Runs (f a) (g a))
    → Runs (p >>= f) (Steps.◌>>=◌ m g)
bind-Runs p m f g first rest s =
    bind-RunsFrom (λ _. Unit {0}) p m f g (λ s' _. first s') (λ _ _. tt) (λ a s' _. rest a s') s tt

pub run-failing :
    {S E A : Type 0} (e : E) (undo : Process S E (Unit {0})) (s : S)
    → run (failing {A = A} e undo) s ≡ (err e, (run undo s).1)
unfolding run failing
run-failing e (done r) s = refl
run-failing {A = A} e (call next after) s = run-failing {A = A} e (next s) (after s)

-- What `undo` does depends on how the process ends.
abbrev pub undone : {S E A : Type 0} → Process S E (Unit {0}) → Result A E × S → Result A E × S
undone undo (ok a, s) = (ok a, s)
undone undo (err e, s) = (err e, (run undo s).1)

pub run-or_undo :
    {S E A : Type 0} (p : Process S E A) (undo : Process S E (Unit {0})) (s : S)
    → run (or_undo p undo) s ≡ undone undo (run p s)
unfolding run or_undo
run-or_undo (done (ok a)) undo s = refl
run-or_undo (done (err e)) undo s = run-failing e undo s
run-or_undo (call next after) undo s = run-or_undo (next s) undo (after s)

pub run-zoom :
    {S T E F A B : Type 0} (get : T → S) (set : T → S → T) (answer : Result A E → Result B F)
    → ((t : T) (x y : S) → set (set t x) y ≡ set t y)
    → ((t : T) (x : S) → get (set t x) ≡ x)
    → ((t : T) → set t (get t) ≡ t)
    → (p : Process S E A) (t : T)
    → run (zoom get set answer p) t ≡ (answer (run p (get t)).0, set t (run p (get t)).1)
unfolding run zoom
run-zoom get set answer twice got same (done r) t = rw (same t) refl
run-zoom get set answer twice got same (call next after) t =
    let x = after (get t) in
    run-zoom get set answer twice got same (next (get t)) (set t x)
    ∙ rw (got t x, twice t x (run (next (get t)) x).1) refl
