-- ===== src/Steps/Families.antt =====
-- Any number of processes on one state that share things: no two own the same thing.
use rust_invite_system.Common.{
  ℕ, ◌≡◌, refl, subst, inl, inr, ◌⊎◌, Bool, true, false, Bool-cases, if_pos, if_neg, ite,
  ℕ_discrete, Result,
}
use rust_invite_system.Steps.Processes.{Process, advance}
use rust_invite_system.Steps.Owners.{Careful, advance-Careful}

abbrev pub update : {A : Type 0} → (ℕ → A) → ℕ → A → ℕ → A
update f i a j = ite (ℕ_discrete i j) a (f j)

-- What holds at the place that is updated and at all others.
update-both :
    {A B : Type 0} (R : ℕ → A → B → Type 0) (f : ℕ → A) (g : ℕ → B) (n : ℕ) (a : A) (b : B)
    → R n a b
    → ((k : ℕ) → ¬ (n ≡ k) → R k (f k) (g k))
    → (k : ℕ) → R k (update f n a k) (update g n b k)
update-both R f g n a b here there k = elim (ℕ_discrete n k) [
  | yes e ↦
      rw (if_pos (ℕ_discrete n k) e a (f k), if_pos (ℕ_discrete n k) e b (g k))
        (subst (λ m. R m a b) e here)
  | no m ↦ rw (if_neg (ℕ_discrete n k) m a (f k), if_neg (ℕ_discrete n k) m b (g k)) (there k m)
]

update-all :
    {A : Type 0} (R : ℕ → A → Type 0) (f : ℕ → A) (n : ℕ) (a : A)
    → R n a
    → ((k : ℕ) → ¬ (n ≡ k) → R k (f k))
    → (k : ℕ) → R k (update f n a k)
update-all R f n a = update-both (λ k a _. R k a) f f n a a

-- Things by their names in `K`. Names can be of the same thing; it is there or not in a state; and
-- `Moves` is what a call may do that is about a thing, from an owner or not to an owner or not.
pub record Sharing (S K : Type 0) : Type 1 where
  pub Valid : S → Type 0
  pub Holds : K → S → Type 0
  pub Same : K → K → Type 0
  pub Moves : K → Bool → Bool → S → S → Type 0
  pub forth : (k u : K) (s : S) → Same k u → Holds k s → Holds u s
  pub back : (k u : K) (s : S) → Same k u → Holds u s → Holds k s
  pub valid : (k : K) (b b' : Bool) (s t : S) → Moves k b b' s t → Valid s → Valid t
  pub gains : (k : K) (b : Bool) (s t : S) → Moves k b true s t → (b ≡ true) ⊎ (¬ Holds k s)
  pub has_own : (k : K) (b : Bool) (s t : S) → Valid s → Moves k b true s t → Holds k t
  pub stays :
      (k u : K) (b b' : Bool) (s t : S)
      → Moves k b b' s t
      → (Same k u → b ≡ false)
      → Holds u s
      → Holds u t
  pub idle : (k : K) (b : Bool) (s : S) → (b ≡ true → Holds k s) → Moves k b b s s

module _ {S K : Type 0} (g : Sharing S K) (key : ℕ → K) where
  -- What is owned is there, and by one process only; and what was there in the beginning still is,
  -- and is no one's own.
  pub record Owners (first now : S) (owner : ℕ → Bool) : Type 0 where
    pub valid : g.Valid now
    pub there : (n : ℕ) → owner n ≡ true → g.Holds (key n) now
    pub single : (n m : ℕ) → owner n ≡ true → owner m ≡ true → g.Same (key n) (key m) → n ≡ m
    pub stands : (u : K) → g.Holds u first → g.Holds u now
    pub apart : (u : K) → g.Holds u first → (n : ℕ) → owner n ≡ true → ¬ g.Same (key n) u

  -- One call of process `n`.
  module _ (first now now' : S) (owner : ℕ → Bool) (v : Owners first now owner) (n : ℕ)
      (owner' : Bool) (moves : g.Moves (key n) (owner n) owner' now now') where
    own : owner' ≡ true → g.Holds (key n) now'
    own mine =
        g.has_own (key n) (owner n) now now' v.valid
          (subst (λ b. g.Moves (key n) (owner n) b now now') mine moves)

    -- A process that gains a thing did not find it there.
    gained : {A : Type 0} → owner' ≡ true → (owner n ≡ true → A) → g.Holds (key n) now → A
    gained mine before here =
        elim (g.gains (key n) (owner n) now now'
          (subst (λ b. g.Moves (key n) (owner n) b now now') mine moves)) [
            | inl owned ↦ before owned
            | inr absent ↦ absurd (absent here)
          ]

    foreign : (u : K) → (owner n ≡ true → ¬ g.Same (key n) u) → g.Same (key n) u → owner n ≡ false
    foreign u other same = elim (Bool-cases (owner n)) [
      | inl mine ↦ absurd (other mine same)
      | inr e ↦ e
    ]

    next_there : (k : ℕ) → update owner n owner' k ≡ true → g.Holds (key k) now'
    next_there =
        update-all (λ k b. b ≡ true → g.Holds (key k) now') owner n owner' own
          (λ k other theirs.
            g.stays (key n) (key k) (owner n) owner' now now' moves
              (foreign (key k) (λ mine same. other (v.single n k mine theirs same)))
              (v.there k theirs))

    next_single :
        (k m : ℕ)
        → update owner n owner' k ≡ true
        → update owner n owner' m ≡ true
        → g.Same (key k) (key m)
        → k ≡ m
    next_single k m =
        update-all
          (λ k b. b ≡ true → update owner n owner' m ≡ true → g.Same (key k) (key m) → k ≡ m) owner
          n owner'
          (λ mine.
            update-all (λ m b. b ≡ true → g.Same (key n) (key m) → n ≡ m) owner n owner'
              (λ _ _. refl)
              (λ m _ theirs same.
                gained mine (λ owned. v.single n m owned theirs same)
                  (g.back (key n) (key m) now same (v.there m theirs)))
              m)
          (λ k _ theirs.
            update-all (λ m b. b ≡ true → g.Same (key k) (key m) → k ≡ m) owner n owner'
              (λ mine same.
                gained mine (λ owned. v.single k n theirs owned same)
                  (g.forth (key k) (key n) now same (v.there k theirs)))
              (λ m _ theirs' same. v.single k m theirs theirs' same) m)
          k

    next_Owners : Owners first now' (update owner n owner')
    next_Owners = record {
      valid = g.valid (key n) (owner n) owner' now now' moves v.valid;
      there = next_there;
      single = next_single;
      stands = λ u before.
          g.stays (key n) u (owner n) owner' now now' moves (foreign u (v.apart u before n))
            (v.stands u before);
      apart = λ u before.
          update-all (λ k b. b ≡ true → ¬ g.Same (key k) u) owner n owner'
            (λ mine same.
              gained mine (λ owned. v.apart u before n owned same)
                (g.back (key n) u now same (v.stands u before)))
            (λ k _ theirs. v.apart u before k theirs);
    }

  module _ {E A : Type 0} (Q : Bool → Result A E → Type 0) where
    -- Processes that are careful in what they have left.
    pub record Guarded (first now : S) (left : ℕ → Process S E A) : Type 0 where
      pub owner : ℕ → Bool
      pub careful : (n : ℕ) → Careful (g.Holds (key n)) (g.Moves (key n)) Q (owner n) (left n)
      pub owners : Owners first now owner

    -- None owns anything yet.
    pub start-Guarded :
        (first : S) (left : ℕ → Process S E A)
        → g.Valid first
        → ((n : ℕ) → Careful (g.Holds (key n)) (g.Moves (key n)) Q false (left n))
        → Guarded first first left
    start-Guarded first left v careful = record {
      owner = λ n. false;
      careful = careful;
      owners = record {
        valid = v;
        there = λ n h. cc;
        single = λ n m h h' same. cc;
        stands = λ u here. here;
        apart = λ u here n h. cc;
      };
    }

    -- The next call of one of them.
    pub advance-Guarded :
        (first now : S) (left : ℕ → Process S E A) (n : ℕ)
        → Guarded first now left
        → Guarded first (advance (left n) now).1 (update left n (advance (left n) now).0)
    advance-Guarded first now left n v =
        let (owner', moves, rest) =
          advance-Careful (g.Holds (key n)) (g.Moves (key n)) (g.idle (key n)) Q (v.owner n)
            (left n) now (v.careful n) (v.owners.there n) in
        record {
          owner = update v.owner n owner';
          careful =
              update-both (λ k b p. Careful (g.Holds (key k)) (g.Moves (key k)) Q b p) v.owner left
                n owner' (advance (left n) now).0 rest (λ k _. v.careful k);
          owners = next_Owners first now (advance (left n) now).1 v.owner v.owners n owner' moves;
        }

    -- A step of anyone else that takes nothing away.
    pub elsewhere-Guarded :
        (first now now' : S) (left : ℕ → Process S E A)
        → (g.Valid now → g.Valid now')
        → ((u : K) → g.Holds u now → g.Holds u now')
        → Guarded first now left
        → Guarded first now' left
    elsewhere-Guarded first now now' left valid keeps v = record {
      owner = v.owner;
      careful = v.careful;
      owners = record {
        valid = valid v.owners.valid;
        there = λ n mine. keeps (key n) (v.owners.there n mine);
        single = v.owners.single;
        stands = λ u before. keeps u (v.owners.stands u before);
        apart = v.owners.apart;
      };
    }
