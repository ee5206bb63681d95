-- ===== src/Routes/Concurrent/Invariant.antt =====
-- What holds of the invites in every state that the service comes to.
use rust_invite_system.Common.{ℕ, ◌≡◌, subst, Text}
use rust_invite_system.Invites.Audit.{WellFormed}
use rust_invite_system.Invites.Histories.{step_spec-WellFormed}
use rust_invite_system.Invites.SingleUse.{Spent, Spent-step_spec, Spent-user}
use rust_invite_system.Routes.State.{Outside, AppState}
use rust_invite_system.Routes.Concurrent.Handlers.{Handled}
use rust_invite_system.Routes.Concurrent.Closed.{Handled-Tabled}
use rust_invite_system.Routes.Concurrent.Underway.{Arrival, SignUps, arrived, Reach, Succeeded}
use rust_invite_system.Routes.Concurrent.Reached.{Lasts, Reach-Guarded, Succeeded-owns}
use rust_invite_system.Routes.Concurrent.Marking.{Use, using, accept-Careful}

module _ (o : Outside) (arrivals : ℕ → Arrival)
    (may : o.service.Directory → o.service.Directory → Type 0) where
  abbrev pub hash_of : ℕ → Text
  hash_of n = o.crypto.sha256_hex (arrivals n).code

  abbrev pub user_of : ℕ → Text
  user_of n = (arrivals n).form.username

  abbrev use_of : ℕ → Use
  use_of n = (hash_of n, user_of n)

  -- The tables are well formed; the invite of a sign-up that succeeded is used by the user of its
  -- form, and was used by no one in the beginning; and no two that succeeded have the same invite.
  pub record Inv (first : AppState o) (s : SignUps o) : Type 0 where
    pub valid : WellFormed s.state.db.tables
    pub spent : (n : ℕ) → Succeeded o s n → Spent (hash_of n) (user_of n) s.state.db.tables
    pub unspent :
        (n : ℕ) → Succeeded o s n → (user : Text) → ¬ Spent (hash_of n) user first.db.tables
    pub alone : (n m : ℕ) → Succeeded o s n → Succeeded o s m → hash_of n ≡ hash_of m → n ≡ m

  handled : (st st' : AppState o) → Handled o st st' → Lasts o (using o) use_of arrivals may st st'
  handled st st' h = (
    Handled-Tabled o (λ t d. WellFormed t) (λ c t d v. step_spec-WellFormed c t v) h,
    λ k. Handled-Tabled o (λ t d. Spent k.0 k.1 t) (λ c t d s. Spent-step_spec k.0 k.1 c t s) h,
  )

  -- From well-formed tables and for any forms and codes, however the single requests of any number of
  -- sign-ups to the directory and the database interleave, among themselves, with the administrator's
  -- requests and the cleanup, and with changes of the directory by others of whatever kind is allowed,
  -- and whichever requests to the database fail: the tables are well formed, the invite of each
  -- sign-up that succeeded is marked as used by the user of its form and was used by no one in the
  -- beginning, and no two sign-ups that succeeded had the same invite.
  pub Reach-Inv :
      (first : AppState o) (s : SignUps o)
      → WellFormed first.db.tables
      → Reach o arrivals may first s
      → Inv first s
  unfolding arrived
  Reach-Inv first s v r =
      let w =
        Reach-Guarded o (using o) use_of arrivals may handled (λ st d m. ((λ x. x), (λ h x. x)))
          first s v
          (λ n. let a = arrivals n in accept-Careful o first.config a.form a.checked a.used a.code)
          r in
      let owned = Succeeded-owns o (using o) use_of arrivals may first s w in
      record {
        valid = w.owners.valid;
        spent = λ n done. w.owners.there n (owned n done);
        unspent = λ n done user before.
            let now = w.owners.stands (hash_of n, user) before in
            let same =
              Spent-user (hash_of n) (user_of n) user s.state.db.tables
                (w.owners.there n (owned n done)) now in
            w.owners.apart (hash_of n, user) before n (owned n done) (λ j. (hash_of n, same j));
        alone = λ n m done done' same.
            let first_use = w.owners.there n (owned n done) in
            let second_use = w.owners.there m (owned m done') in
            let user =
              Spent-user (hash_of m) (user_of n) (user_of m) s.state.db.tables
                (subst (λ h. Spent h (user_of n) s.state.db.tables) same first_use) second_use in
            w.owners.single n m (owned n done) (owned m done') (λ j. (same j, user j));
      }
