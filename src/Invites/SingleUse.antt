-- ===== src/Invites/SingleUse.antt =====
-- An invite is used at most once, and never after it was revoked.
use rust_invite_system.Common.{
  Bool, ◌≡◌, refl, subst, ◌≢◌, true, false, not, Option, none, some, List, arith, Text, text_eq,
  text_eq_iff, text_eq_refl, ok, is_some, Option-cases, Bool-cases, inl, inr, any,
}
use rust_invite_system.Invites.Schema.{InviteRecord, Tables, Db}
use rust_invite_system.Invites.Repository.{
  find, update, has_id, has_hash, consumable, mark_consumed, consume_invite, revocable,
  mark_revoked, stale, new_row,
}
use rust_invite_system.Invites.Rows.{
  id_of, hash_of, find_by, find-All, find-accepts, find_by-found, find_by-any, find_by-append,
  find_by-update, find_by-filter, Unique-All,
}
use rust_invite_system.Invites.Spec.{create_spec, consume_spec, revoke_spec, cleanup_spec}
use rust_invite_system.Invites.Atomicity.{Refines-ok, consume_invite-Refines}
use rust_invite_system.Invites.Audit.{WellFormed, consume-WellFormed, revoke-WellFormed}
use rust_invite_system.Invites.Histories.{
  Call, create, consume, revoke, cleanup, run, step_spec, run-keeps, step_spec-WellFormed,
  any_calls,
}

-- The invite of a token is used, by the given user. (So it is not revoked.)
pub record Spent (hash user : Text) (t : Tables) : Type 0 where
  pub valid : WellFormed t
  pub row : InviteRecord
  pub found : find_by hash_of hash t.invites ≡ some row
  pub used : is_some row.consumed_at ≡ true
  pub kept : row.revoked_at ≡ none
  pub by : row.consumed_by ≡ some user

-- One user used it.
pub Spent-user : (hash u v : Text) (t : Tables) → Spent hash u t → Spent hash v t → u ≡ v
Spent-user hash u v t s s' =
    let same : s.row ≡ s'.row = let e = s.found in let e' = s'.found in cc in
    let by = s.by in let by' = s'.by in cc

-- What the query of `consume_invite` finds is the invite of the token.
pub consumable-found :
    (hash at : Text) (t : Tables) (r : InviteRecord)
    → WellFormed t
    → find (consumable hash at) t.invites ≡ some r
    → (find_by hash_of hash t.invites ≡ some r) × (consumable hash at r ≡ true)
consumable-found hash at t r v e =
    let c = find-accepts (consumable hash at) t.invites e in
    let k : r.token_hash ≡ hash = (text_eq_iff r.token_hash hash).0 (ground arith) in
    (
      subst (λ h. find_by hash_of h t.invites ≡ some r) k
          (find_by-found hash_of (consumable hash at) t.invites r v.hashes e),
      c,
    )

-- What the query of `revoke_invite` finds is the invite with the identifier.
pub revocable-found :
    (id : Text) (t : Tables) (r : InviteRecord)
    → WellFormed t
    → find (revocable id) t.invites ≡ some r
    → (find_by id_of id t.invites ≡ some r) × (revocable id r ≡ true)
revocable-found id t r v e =
    let c = find-accepts (revocable id) t.invites e in
    let k : r.id ≡ id = (text_eq_iff r.id id).0 (ground arith) in
    (
      subst (λ h. find_by id_of h t.invites ≡ some r) k
          (find_by-found id_of (revocable id) t.invites r v.ids e),
      c,
    )

-- A used invite is used no second time.
pub Spent-consume_spec :
    (hash user at by : Text) (t : Tables)
    → Spent hash user t
    → (consume_spec hash at by t).0 ≡ ok false
Spent-consume_spec hash user at by t s = elim (Option-cases (find (consumable hash at) t.invites)) [
  | inl e ↦ rw e
  | inr (r, e) ↦
      let f = consumable-found hash at t r s.valid e in absurd (ground (arith, f, s.found, s.used))
]

module _ (hash user : Text) (t : Tables) (s : Spent hash user t) where
  -- An invite that is found as not used is another one.
  other_row :
      (p : InviteRecord → Bool) (r x : InviteRecord)
      → find p t.invites ≡ some r
      → r.consumed_at ≡ none
      → find_by hash_of hash t.invites ≡ some x
      → has_id r.id x ≡ true
      → ⊥
  other_row p r x e unused found hit =
      let at_id = find_by-found id_of p t.invites r s.valid.ids e in
      let only = Unique-All id_of r.id t.invites r s.valid.ids at_id in
      let same : x ≡ r =
        find-All (λ y. text_eq y.id r.id ≡ true → y ≡ r) _ t.invites only found hit in
      ground (arith, unused, found, s.found, s.used, same)

  -- So an update of one that is found as not used leaves the used row.
  Spent-update :
      (p : InviteRecord → Bool) (r : InviteRecord) (f : InviteRecord → InviteRecord) (t' : Tables)
      → find p t.invites ≡ some r
      → r.consumed_at ≡ none
      → ((x : InviteRecord) → (f x).token_hash ≡ x.token_hash)
      → WellFormed t'
      → t'.invites ≡ update r.id f t.invites
      → Spent hash user t'
  Spent-update p r f t' at_row unused same v e = elim (Bool-cases (has_id r.id s.row)) [
    | inl hit ↦ absurd (other_row p r s.row at_row unused s.found hit)
    | inr miss ↦ record {
      valid = v;
      row = s.row;
      found = rw (e, find_by-update hash_of f same hash r.id t.invites, s.found, miss) refl;
      used = s.used;
      kept = s.kept;
      by = s.by;
    }
  ]

  Spent-consume : (h at by : Text) → Spent hash user (consume_spec h at by t).1
  Spent-consume h at by = elim (Option-cases (find (consumable h at) t.invites)) [
    | inl e ↦ rw e s
    | inr (r, e) ↦
        let c = find-accepts (consumable h at) t.invites e in
        rw e (
          Spent-update (consumable h at) r (mark_consumed at by) _ e (ground arith) (λ x. refl)
            (rw e at (consume-WellFormed t s.valid h at by)) refl)
  ]

  Spent-revoke : (id at : Text) → Spent hash user (revoke_spec id at t).1
  Spent-revoke id at = elim (Option-cases (find (revocable id) t.invites)) [
    | inl e ↦ rw e s
    | inr (r, e) ↦
        let c = find-accepts (revocable id) t.invites e in
        rw e (
          Spent-update (revocable id) r (mark_revoked at) _ e (ground arith) (λ x. refl)
            (rw e at (revoke-WellFormed t s.valid id at)) refl)
  ]

  Spent-cleanup : (cutoff : Text) → Spent hash user (cleanup_spec cutoff t).1
  unfolding stale
  Spent-cleanup cutoff = record {
    valid = step_spec-WellFormed (cleanup cutoff) t s.valid;
    row = s.row;
    found =
        rw
          (
            find_by-filter hash_of (λ r. not (stale cutoff r)) hash t.invites s.valid.hashes,
            s.found,
          )
          (ground (arith, s.used, s.kept));
    used = s.used;
    kept = s.kept;
    by = s.by;
  }

  Spent-create :
      (row : InviteRecord) (by : Option Text)
      → WellFormed (create_spec row by t).1
      → Spent hash user (create_spec row by t).1
  Spent-create row by v = elim (Bool-cases (any (has_id row.id) t.invites)) [
    | inl e ↦ rw e s
    | inr e ↦ elim (Bool-cases (any (has_hash row.token_hash) t.invites)) [
      | inl e' ↦ rw (e, e') s
      | inr e' ↦
          let fresh = find_by-any hash_of row.token_hash t.invites e' in
          let v' = rw (e, e') at v in
          rw (e, e')
            (record {
              valid = v';
              row = s.row;
              found =
                  rw (find_by-append hash_of hash t.invites row fresh)
                    (ground (arith, text_eq_iff row.token_hash hash, fresh, s.found));
              used = s.used;
              kept = s.kept;
              by = s.by;
            })
    ]
  ]

pub Spent-step_spec :
    (hash user : Text) (c : Call) (t : Tables) → Spent hash user t → Spent hash user (step_spec c t)
Spent-step_spec hash user (create id h groups created_at expires_at by) t s =
    Spent-create hash user t s (new_row id h groups created_at expires_at) by
      (step_spec-WellFormed (create id h groups created_at expires_at by) t s.valid)
Spent-step_spec hash user (consume h at by) t s = Spent-consume hash user t s h at by
Spent-step_spec hash user (revoke id at) t s = Spent-revoke hash user t s id at
Spent-step_spec hash user (cleanup cutoff) t s = Spent-cleanup hash user t s cutoff

-- What a successful `consume_invite` leaves.
pub consume_spec-Spent :
    (hash at by : Text) (t : Tables)
    → WellFormed t
    → (consume_spec hash at by t).0 ≡ ok true
    → Spent hash by (consume_spec hash at by t).1
consume_spec-Spent hash at by t v done = elim (Option-cases (find (consumable hash at) t.invites)) [
  | inl e ↦ let no_row : (consume_spec hash at by t).0 ≡ ok false = rw e in cc
  | inr (r, e) ↦
      let (found, c) = consumable-found hash at t r v e in
      rw e (record {
        valid = rw e at (consume-WellFormed t v hash at by);
        row = mark_consumed at by r;
        found =
            rw
              (
                find_by-update hash_of (mark_consumed at by) (λ x. refl) hash r.id t.invites,
                found,
                text_eq_refl r.id,
              )
              refl;
        used = refl;
        kept = ground (arith, c);
        by = refl;
      })
]

-- Once `consume_invite` has returned true for a token, it never does so again for that token: not
-- for any user at any time, and not after any calls in between, whichever requests to the database
-- fail.
pub consume_invite_once :
    (hash at by : Text) (db : Db)
    → WellFormed db.tables
    → (consume_invite hash at by db).0 ≡ ok true
    → (cs : List Call) (at' by' : Text)
    → (consume_invite hash at' by' (run cs (consume_invite hash at by db).1)).0 ≢ ok true
consume_invite_once hash at by db v done cs at' by' again =
    let (first, tables) = Refines-ok (consume_invite-Refines hash at by) db done in
    let spent : Spent hash by (consume_invite hash at by db).1.tables =
      rw tables (consume_spec-Spent hash at by db.tables v first) in
    let later =
      run-keeps (Spent hash by) (λ c. Unit {0}) (λ c t _ s. Spent-step_spec hash by c t s) cs
        (consume_invite hash at by db).1 (any_calls cs) spent in
    let (second, _) = Refines-ok (consume_invite-Refines hash at' by') _ again in
    cc (Spent-consume_spec hash by at' by' _ later, second)
