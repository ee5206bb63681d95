-- ===== src/Invites/Atomicity.antt =====
-- Each operation of the repository refines its specification, whichever requests fail.
use rust_invite_system.Common.{
  ◌≡◌, refl, sym, ◌∙◌, ◌⊎◌, inl, inr, Bool, true, false, Option, some, List, [], ◌∷◌, ◌++◌, arith,
  Text, text_eq_refl, Result, ok, err, any, any-append, Option-cases, Bool-cases,
}
use rust_invite_system.Invites.Schema.{InviteRecord, Tables, SqlError, failure, Db}
use rust_invite_system.Invites.Sql.{Sql, fails, later}
use rust_invite_system.Invites.Repository.{
  find, update, has_id, new_row, create_invite, consumable, mark_consumed, consume_invite,
  revocable, mark_revoked, revoke_invite, cleanup_stale,
}
use rust_invite_system.Invites.Rows.{id_of, find_by-append, find_by-any, find-any, any-update}
use rust_invite_system.Invites.Spec.{create_spec, consume_spec, revoke_spec, cleanup_spec}

-- The operation failed, and the tables are as they were.
abbrev pub Untouched : {A : Type 0} → Result A SqlError × Db → Db → Type 0
Untouched out db = (out.0 ≡ err failure) × (out.1.tables ≡ db.tables)

-- All or nothing: either the whole of the specification happened, or nothing did. Where no request
-- fails, the specification happens.
pub record Refines {A : Type 0} (m : Sql A) (spec : Tables → Result A SqlError × Tables)
    : Type 0 where
  pub atomic :
      (db : Db)
      → Untouched (m db) db
        ⊎ (((m db).0 ≡ (spec db.tables).0) × ((m db).1.tables ≡ (spec db.tables).1))
  pub faultless :
      (t : Tables)
      → m (record { tables = t; faults = [] })
        ≡ ((spec t).0, record { tables = (spec t).1; faults = [] })

module _ {A : Type 0} {m : Sql A} {spec : Tables → Result A SqlError × Tables}
    (h : Refines m spec) where
  -- What holds before and after the specification holds after the operation.
  pub Refines-keeps :
      (P : Tables → Type 0) (db : Db) → P db.tables → P (spec db.tables).1 → P (m db).1.tables
  Refines-keeps P db old new = elim (h.atomic db) [
    | inl (_, same) ↦ rw same old
    | inr (_, same) ↦ rw same new
  ]

  -- An operation that returned did what its specification says.
  pub Refines-ok :
      (db : Db) {a : A}
      → (m db).0 ≡ ok a
      → ((spec db.tables).0 ≡ ok a) × ((m db).1.tables ≡ (spec db.tables).1)
  Refines-ok db e = elim (h.atomic db) [
    | inl (failed, _) ↦ cc
    | inr (same, tables) ↦ (sym same ∙ e, tables)
  ]

-- An update that keeps the identifiers leaves the found row's identifier in the table.
found-any-update :
    (p : InviteRecord → Bool) (f : InviteRecord → InviteRecord) (rs : List InviteRecord)
    {r : InviteRecord}
    → ((s : InviteRecord) → (f s).id ≡ s.id)
    → find p rs ≡ some r
    → any (has_id r.id) (update r.id f rs) ≡ true
found-any-update p f rs {r} same e = any-update f same r.id r.id rs ∙ find-any p rs e

-- Removing the stale invites is all or nothing.
pub cleanup_stale-Refines : (cutoff : Text) → Refines (cleanup_stale cutoff) (cleanup_spec cutoff)
unfolding cleanup_stale fails later
cleanup_stale-Refines cutoff = record { atomic = λ db. ground arith; faultless = λ t. refl }

module _ (hash at by : Text) where
  any_marked :
      (t : Tables) {r : InviteRecord}
      → find (consumable hash at) t.invites ≡ some r
      → any (has_id r.id) (update r.id (mark_consumed at by) t.invites) ≡ true
  any_marked t e = found-any-update _ (mark_consumed at by) t.invites (λ s. refl) e

  consume_invite-atomic :
      (db : Db)
      → Untouched (consume_invite hash at by db) db
        ⊎ (((consume_invite hash at by db).0 ≡ (consume_spec hash at by db.tables).0)
            × ((consume_invite hash at by db).1.tables ≡ (consume_spec hash at by db.tables).1))
  unfolding consume_invite
  consume_invite-atomic db = elim (Option-cases (find (consumable hash at) db.tables.invites)) [
    | inl e ↦ ground arith
    | inr (r, e) ↦ let h = any_marked db.tables e in ground arith
  ]

  consume_invite-faultless :
      (t : Tables)
      → consume_invite hash at by (record { tables = t; faults = [] }) ≡ (
        (consume_spec hash at by t).0,
        record { tables = (consume_spec hash at by t).1; faults = [] },
      )
  unfolding consume_invite fails later
  consume_invite-faultless t = elim (Option-cases (find (consumable hash at) t.invites)) [
    | inl e ↦ ground arith
    | inr (r, e) ↦ let h = any_marked t e in ground arith
  ]

  -- Marking an invite as used is all or nothing.
  pub consume_invite-Refines : Refines (consume_invite hash at by) (consume_spec hash at by)
  consume_invite-Refines = record {
    atomic = consume_invite-atomic;
    faultless = consume_invite-faultless;
  }

module _ (id at : Text) where
  any_revoked :
      (t : Tables) {r : InviteRecord}
      → find (revocable id) t.invites ≡ some r
      → any (has_id r.id) (update r.id (mark_revoked at) t.invites) ≡ true
  any_revoked t e = found-any-update _ (mark_revoked at) t.invites (λ s. refl) e

  revoke_invite-atomic :
      (db : Db)
      → Untouched (revoke_invite id at db) db
        ⊎ (((revoke_invite id at db).0 ≡ (revoke_spec id at db.tables).0)
            × ((revoke_invite id at db).1.tables ≡ (revoke_spec id at db.tables).1))
  unfolding revoke_invite
  revoke_invite-atomic db = elim (Option-cases (find (revocable id) db.tables.invites)) [
    | inl e ↦ ground arith
    | inr (r, e) ↦ let h = any_revoked db.tables e in ground arith
  ]

  revoke_invite-faultless :
      (t : Tables)
      → revoke_invite id at (record { tables = t; faults = [] })
        ≡ ((revoke_spec id at t).0, record { tables = (revoke_spec id at t).1; faults = [] })
  unfolding revoke_invite fails later
  revoke_invite-faultless t = elim (Option-cases (find (revocable id) t.invites)) [
    | inl e ↦ ground arith
    | inr (r, e) ↦ let h = any_revoked t e in ground arith
  ]

  -- Revoking an invite is all or nothing.
  pub revoke_invite-Refines : Refines (revoke_invite id at) (revoke_spec id at)
  revoke_invite-Refines = record {
    atomic = revoke_invite-atomic;
    faultless = revoke_invite-faultless;
  }

module _ (id hash groups created_at expires_at : Text) (by : Option Text) where
  row : InviteRecord
  row = new_row id hash groups created_at expires_at

  any_new : (rs : List InviteRecord) → any (has_id id) (rs ++ row ∷ []) ≡ true
  unfolding row
  any_new rs = ground (arith, any-append (has_id id) rs (row ∷ []), text_eq_refl id)

  find_new :
      (rs : List InviteRecord)
      → any (has_id id) rs ≡ false
      → find (has_id id) (rs ++ row ∷ []) ≡ some row
  unfolding row
  find_new rs h =
      ground (arith, find_by-append id_of id rs row (find_by-any id_of id rs h), text_eq_refl id)

  create_invite-atomic :
      (db : Db)
      → let m = create_invite id hash groups created_at expires_at by db in
        let s = create_spec (new_row id hash groups created_at expires_at) by db.tables in
        Untouched m db ⊎ ((m.0 ≡ s.0) × (m.1.tables ≡ s.1))
  unfolding create_invite row
  create_invite-atomic db = elim (Bool-cases (any (has_id id) db.tables.invites)) [
    | inl e ↦ ground arith
    | inr e ↦
        let h = any_new db.tables.invites in let k = find_new db.tables.invites e in ground arith
  ]

  create_invite-faultless :
      (t : Tables)
      → create_invite id hash groups created_at expires_at by (record { tables = t; faults = [] })
        ≡ (
          (create_spec (new_row id hash groups created_at expires_at) by t).0,
          record {
            tables = (create_spec (new_row id hash groups created_at expires_at) by t).1;
            faults = [];
          },
        )
  unfolding create_invite fails later row
  create_invite-faultless t = elim (Bool-cases (any (has_id id) t.invites)) [
    | inl e ↦ ground arith
    | inr e ↦ let h = any_new t.invites in let k = find_new t.invites e in ground arith
  ]

  -- Storing an invite is all or nothing.
  pub create_invite-Refines :
      Refines
        (create_invite id hash groups created_at expires_at by)
        (create_spec (new_row id hash groups created_at expires_at) by)
  create_invite-Refines = record {
    atomic = create_invite-atomic;
    faultless = create_invite-faultless;
  }

-- Each operation that writes happens as a whole or, with a failure, not at all, and as a whole where
-- no request to the database fails: its answer and the tables after it are those that its
-- specification, one step on the tables, says.
pub operations-Refine :
    (id hash groups created_at expires_at at user cutoff : Text) (by : Option Text)
    → Refines
        (create_invite id hash groups created_at expires_at by)
        (create_spec (new_row id hash groups created_at expires_at) by)
      × Refines (consume_invite hash at user) (consume_spec hash at user)
      × Refines (revoke_invite id at) (revoke_spec id at)
      × Refines (cleanup_stale cutoff) (cleanup_spec cutoff)
operations-Refine id hash groups created_at expires_at at user cutoff by = (
  create_invite-Refines id hash groups created_at expires_at by,
  consume_invite-Refines hash at user,
  revoke_invite-Refines id at,
  cleanup_stale-Refines cutoff,
)
