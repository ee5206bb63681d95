-- ===== src/Invites/Recent.antt =====
-- Which invites `list_recent` answers with.
use rust_invite_system.Common.{
  ℕ, zero, suc, ◌≤◌, ◌≡◌, refl, ap, ◌⊎◌, inl, inr, false, List, [], ◌∷◌, ◌++◌, All, arith, ok,
  length, take, text_ltb, text_ltb_asym, text_ltb_cotrans, Bool-cases, Perm,
}
use mathlib.Core.List.Perm
use rust_invite_system.Invites.Schema.{InviteRecord, Db}
use rust_invite_system.Invites.Sql.{fails}
use rust_invite_system.Invites.Repository.{insert_newest, newest_first, list_recent}

-- Not created before the row.
abbrev pub IsNotBefore : InviteRecord → InviteRecord → Type 0
IsNotBefore r s = text_ltb r.created_at s.created_at ≡ false

-- From the newest to the oldest.
abbrev pub Descending : List InviteRecord → Type 0
Descending [] = Unit
Descending (r ∷ rs) = All (IsNotBefore r) rs × Descending rs

-- The rows are the first ones of all, put from the newest to the oldest: at most as many as the
-- limit says, and fewer only if these are all.
pub record Recent (limit : ℕ) (rows every : List InviteRecord) : Type 0 where
  pub older : List InviteRecord
  pub all_of : Perm (rows ++ older) every
  pub ordered : Descending (rows ++ older)
  pub few : length rows ≤ limit
  pub full : (length rows ≡ limit) ⊎ (older ≡ [])

All-insert_newest :
    (P : InviteRecord → Type 0) (r : InviteRecord) (rs : List InviteRecord)
    → P r
    → All P rs
    → All P (insert_newest r rs)
unfolding insert_newest
All-insert_newest P r [] p h = (p, tt)
All-insert_newest P r (s ∷ rs) p h = elim (Bool-cases (text_ltb r.created_at s.created_at)) [
  | inl e ↦ rw e (h.0, All-insert_newest P r rs p h.1)
  | inr e ↦ rw e (p, h)
]

IsNotBefore-trans :
    (r s : InviteRecord) (rs : List InviteRecord)
    → IsNotBefore r s
    → All (IsNotBefore s) rs
    → All (IsNotBefore r) rs
IsNotBefore-trans r s [] h a = tt
IsNotBefore-trans r s (t ∷ rs) h a = (
  ground (arith, text_ltb_cotrans r.created_at s.created_at t.created_at),
  IsNotBefore-trans r s rs h a.1,
)

insert_newest-Descending :
    (r : InviteRecord) (rs : List InviteRecord) → Descending rs → Descending (insert_newest r rs)
unfolding insert_newest
insert_newest-Descending r [] h = (tt, tt)
insert_newest-Descending r (s ∷ rs) h = elim (Bool-cases (text_ltb r.created_at s.created_at)) [
  | inl e ↦ rw e (
    All-insert_newest (IsNotBefore s) r rs (text_ltb_asym r.created_at s.created_at e) h.0,
    insert_newest-Descending r rs h.1,
  )
  | inr e ↦ rw e ((e, IsNotBefore-trans r s rs e h.0), h)
]

newest_first-Descending : (rs : List InviteRecord) → Descending (newest_first rs)
unfolding newest_first
newest_first-Descending [] = tt
newest_first-Descending (r ∷ rs) =
    insert_newest-Descending r (newest_first rs) (newest_first-Descending rs)

insert_newest-Perm :
    (r : InviteRecord) (rs : List InviteRecord) → Perm (insert_newest r rs) (r ∷ rs)
unfolding insert_newest
insert_newest-Perm r [] = Perm.rfl
insert_newest-Perm r (s ∷ rs) = elim (Bool-cases (text_ltb r.created_at s.created_at)) [
  | inl e ↦ rw e (Perm.trans (Perm.cons s (insert_newest-Perm r rs)) (Perm.swap r s rs))
  | inr e ↦ rw e Perm.rfl
]

newest_first-Perm : (rs : List InviteRecord) → Perm (newest_first rs) rs
unfolding newest_first
newest_first-Perm [] = Perm.rfl
newest_first-Perm (r ∷ rs) =
    Perm.trans (insert_newest-Perm r (newest_first rs)) (Perm.cons r (newest_first-Perm rs))

-- What `take` leaves.
record Split (n : ℕ) (rs : List InviteRecord) : Type 0 where
  rest : List InviteRecord
  whole : take n rs ++ rest ≡ rs
  few : length (take n rs) ≤ n
  full : (length (take n rs) ≡ n) ⊎ (rest ≡ [])

take-Split : (n : ℕ) (rs : List InviteRecord) → Split n rs
take-Split zero rs = record { rest = rs; whole = refl; few = omega arith; full = inl refl }
take-Split (suc n) [] = record { rest = []; whole = refl; few = omega arith; full = inr refl }
take-Split (suc n) (r ∷ rs) =
    let s = take-Split n rs in
    record {
      rest = s.rest;
      whole = ap (λ l. r ∷ l) s.whole;
      few = omega (arith, s.few);
      full = elim s.full [ inl e ↦ inl (ap suc e) | inr e ↦ inr e ];
    }

-- On a working database `list_recent` answers with the newest invites, from the newest to the
-- oldest, at most as many as the limit says, and fewer only if these are all.
pub list_recent-Recent :
    (limit : ℕ) (db : Db)
    → db.faults ≡ []
    → (rows : List InviteRecord) × ((list_recent limit db).0 ≡ ok rows)
      × Recent limit rows db.tables.invites
unfolding list_recent fails
list_recent-Recent limit db h =
    let all_rows = newest_first db.tables.invites in
    let s = take-Split limit all_rows in
    (
      take limit all_rows,
      rw h refl,
      record {
        older = s.rest;
        all_of = rw s.whole (newest_first-Perm db.tables.invites);
        ordered = rw s.whole (newest_first-Descending db.tables.invites);
        few = s.few;
        full = s.full;
      },
    )
