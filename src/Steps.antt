-- ===== src/Steps.antt =====
-- Steps on a state that return or fail, and what is true where they end: the actions on the
-- directory, the statements of the database and the handlers of requests are such steps.
pub mod Processes
pub mod Owners
pub mod Families
use rust_invite_system.Common.{◌≡◌, refl, Result, ok, err}

abbrev pub Step : Type 0 → Type 0 → Type 0 → Type 0
Step S E A = S → Result A E × S

module _ {S E A B : Type 0} where
  abbrev pub continue : Result A E → (A → Step S E B) → Step S E B
  continue (ok a) f s = f a s
  continue (err e) f s = (err e, s)

  infixl 5 ◌>>=◌ ◌>>◌
  abbrev pub ◌>>=◌ : Step S E A → (A → Step S E B) → Step S E B
  ◌>>=◌ m f s = let (r, s') = m s in continue r f s'

  abbrev pub ◌>>◌ : Step S E A → Step S E B → Step S E B
  m >> n = m >>= λ _. n

abbrev pub pure : {S E A : Type 0} → A → Step S E A
pure a s = (ok a, s)

abbrev pub lift : {S E A : Type 0} → Result A E → Step S E A
lift r s = (r, s)

-- What holds of a result and the state with it: `Q` if it returned, `R` if it failed.
abbrev pub Post : {S E A : Type 0} → (A → S → Type 0) → (S → Type 0) → Result A E → S → Type 0
Post Q R (ok a) s = Q a s
Post Q R (err e) s = R s

-- From a state with `P`, the step ends as `Post` says.
abbrev pub Triple :
    {S E A : Type 0} → (S → Type 0) → Step S E A → (A → S → Type 0) → (S → Type 0) → Type 0
Triple {S} P m Q R = (s : S) → P s → Post Q R (m s).0 (m s).1

-- The step keeps a property, whether it returns or fails.
abbrev pub Keeps : {S E A : Type 0} → (S → Type 0) → Step S E A → Type 0
Keeps P m = Triple P m (λ a. P) P

-- From a state with `P`, the step returns, with a result and a state that `Q` holds of.
abbrev pub Gives : {S E A : Type 0} → (S → Type 0) → Step S E A → (A → S → Type 0) → Type 0
Gives {S} {E} {A} P m Q = (s : S) → P s → (a : A) × (((m s).0 ≡ ok a) × Q a (m s).1)

pub Gives-bind :
    {S E A B : Type 0} (P : S → Type 0) (Q : A → S → Type 0) (R : B → S → Type 0) (m : Step S E A)
    (f : A → Step S E B)
    → Gives P m Q
    → ((a : A) → Gives (Q a) (f a) R)
    → Gives P (m >>= f) R
Gives-bind P Q R m f first rest s p = let (a, (e, q)) = first s p in rw e (rest a (m s).1 q)

-- A step to the state `s`, from one where the property holds as it does in `s`.
pub Post-same :
    {S E A : Type 0} (P : S → Type 0) (r : Result A E) (s : S) → P s → Post (λ a. P) P r s
Post-same P (ok a) s h = h
Post-same P (err e) s h = h

-- What holds however the step ends.
pub Post-always :
    {S E A : Type 0} (P : S → Type 0) (r : Result A E) (s : S) → Post (λ a. P) P r s → P s
Post-always P (ok a) s h = h
Post-always P (err e) s h = h

pub Triple-weaken :
    {S E A : Type 0} (P R R' : S → Type 0) (Q : A → S → Type 0) (m : Step S E A)
    → ((s : S) → R s → R' s)
    → Triple P m Q R
    → Triple P m Q R'
Triple-weaken {S} {E} {A} P R R' Q m weaker h s p = go (m s).0 (m s).1 (h s p)
  where
    go : (r : Result A E) (s' : S) → Post Q R r s' → Post Q R' r s'
    go (ok a) s' q = q
    go (err e) s' q = weaker s' q

module _ {S E A B : Type 0} where
  pub Triple-bind :
      (P R : S → Type 0) (Q : A → S → Type 0) (T : B → S → Type 0) (m : Step S E A)
      (f : A → Step S E B)
      → Triple P m Q R
      → ((a : A) → Triple (Q a) (f a) T R)
      → Triple P (m >>= f) T R
  Triple-bind P R Q T m f first rest s p = go (m s).0 (m s).1 (first s p)
    where
      go :
          (r : Result A E) (s' : S)
          → Post Q R r s'
          → Post T R (continue r f s').0 (continue r f s').1
      go (ok a) s' h = rest a s' h
      go (err e) s' h = h

  pub Keeps-bind :
      (P : S → Type 0) (m : Step S E A) (f : A → Step S E B)
      → Keeps P m
      → ((a : A) → Keeps P (f a))
      → Keeps P (m >>= f)
  Keeps-bind P m f = Triple-bind P P (λ a. P) (λ b. P) m f

  -- Where the first step of a step that returned ended.
  pub record Passed (m : Step S E A) (f : A → Step S E B) (s t : S) (b : B) : Type 0 where
    pub value : A
    pub between : S
    pub first : m s ≡ (ok value, between)
    pub rest : f value between ≡ (ok b, t)

  pub bind_Passed :
      (m : Step S E A) (f : A → Step S E B) (s t : S) (b : B)
      → (m >>= f) s ≡ (ok b, t)
      → Passed m f s t b
  bind_Passed m f s t b h = go (m s).0 (m s).1 refl h
    where
      go :
          (r : Result A E) (s' : S) → m s ≡ (r, s') → continue r f s' ≡ (ok b, t) → Passed m f s t b
      go (ok a) s' e h = record { value = a; between = s'; first = e; rest = h }
      go (err x) s' e h = cc
