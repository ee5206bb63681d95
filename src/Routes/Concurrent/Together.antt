-- ===== src/Routes/Concurrent/Together.antt =====
-- What holds of the accounts in every state that the service comes to.
use rust_invite_system.Common.{ℕ, ◌≡◌, Bool, true, false, Text, Bool-cases, inl, inr}
use rust_invite_system.Lldap.Accounts.{accounts}
use rust_invite_system.Lldap.Directory.{IsDirectory, RefusesTaken}
use rust_invite_system.Steps.Families.{Sharing}
use rust_invite_system.Routes.State.{Outside, AppState}
use rust_invite_system.Routes.Concurrent.Handlers.{Handled}
use rust_invite_system.Routes.Concurrent.Closed.{Handled-Tabled}
use rust_invite_system.Routes.Concurrent.Underway.{Arrival, SignUps, arrived, Reach, Succeeded}
use rust_invite_system.Routes.Concurrent.Reached.{Lasts, Reach-Guarded, Succeeded-owns}
use rust_invite_system.Routes.Concurrent.Owned.{has_account, accept-Careful}

module _ (o : Outside) (i : IsDirectory o.service) where
  -- Others delete no account.
  abbrev pub DeletesNone : o.service.Directory → o.service.Directory → Type 0
  DeletesNone d d' = (v : Text) → i.has_user d v ≡ true → i.has_user d' v ≡ true

module _ (o : Outside) (i : IsDirectory o.service) (arrivals : ℕ → Arrival) where
  abbrev pub name : ℕ → Text
  name n = (arrivals n).form.username

  abbrev has : AppState o → Text → Bool
  has = has_account o i

  -- Every account of the beginning is there; that of each sign-up that succeeded is there too, and
  -- was not in the beginning; and no two that succeeded have the same name, as the directory compares
  -- names.
  pub record Together (first : AppState o) (s : SignUps o) : Type 0 where
    pub kept : (v : Text) → has first v ≡ true → has s.state v ≡ true
    pub made : (n : ℕ) → Succeeded o s n → has s.state (name n) ≡ true
    pub fresh : (n : ℕ) → Succeeded o s n → has first (name n) ≡ false
    pub alone :
        (n m : ℕ) → Succeeded o s n → Succeeded o s m → i.same (name n) (name m) ≡ true → n ≡ m

  abbrev sharing : Sharing (AppState o) Text
  sharing = accounts has i.same (λ st u v same. i.has_same st.directory u v same)

  handled :
      (st st' : AppState o)
      → Handled o st st'
      → Lasts o sharing name arrivals (DeletesNone o i) st st'
  handled st st' h =
      ((λ v. v), (λ u. Handled-Tabled o (λ t d. i.has_user d u ≡ true) (λ c t d here. here) h))

  -- For any forms and codes, however the single requests of any number of sign-ups to the directory
  -- and the database interleave, among themselves, with the administrator's requests and the cleanup,
  -- and with changes of the directory by others that delete no account, where the directory keeps the
  -- laws relied on and refuses to create an account whose name is taken: every account that was there
  -- in the beginning is there; the account of every sign-up that succeeded is there and was not in
  -- the beginning; and no two sign-ups that succeeded have the same name, as the directory compares
  -- names.
  pub Reach-Together :
      RefusesTaken o.service i
      → (first : AppState o) (s : SignUps o) → Reach o arrivals (DeletesNone o i) first s
      → Together first s
  unfolding arrived
  Reach-Together taken first s r =
      let w =
        Reach-Guarded o sharing name arrivals (DeletesNone o i) handled (λ st d m. ((λ x. x), m))
          first s tt
          (λ n.
            let a = arrivals n in
            accept-Careful o i first.config a.form taken a.checked a.used a.code)
          r in
      let owned = Succeeded-owns o sharing name arrivals (DeletesNone o i) first s w in
      record {
        kept = λ u before. w.owners.stands u before;
        made = λ n done. w.owners.there n (owned n done);
        fresh = λ n done. elim (Bool-cases (has first (name n))) [
          | inl before ↦
              absurd (w.owners.apart (name n) before n (owned n done) (i.same_itself (name n)))
          | inr absent ↦ absent
        ];
        alone = λ n m done done' same. w.owners.single n m (owned n done) (owned m done') same;
      }
