-- ===== src/Invites/Revocation.antt =====
-- A revoked invite cannot be used any more.
use rust_invite_system.Common.{
  ◌≡◌, refl, subst, ◌≢◌, Bool, true, false, not, Option, none, some, List, arith, Text, text_eq,
  text_eq_refl, ok, All, is_some, Option-cases, Bool-cases, inl, inr, if◌then◌else◌, any,
}
use rust_invite_system.Invites.Schema.{InviteRecord, Tables, Db}
use rust_invite_system.Invites.Repository.{
  find, update, has_id, has_hash, consumable, mark_consumed, consume_invite, revocable,
  mark_revoked, revoke_invite, stale, new_row,
}
use rust_invite_system.Invites.Rows.{
  id_of, hash_of, find_by, find_by-found, find_by-any, find_by-append, find_by-update,
  find_by-filter, keep_if,
}
use rust_invite_system.Invites.Spec.{create_spec, consume_spec, revoke_spec, cleanup_spec}
use rust_invite_system.Invites.Atomicity.{Refines-ok, consume_invite-Refines, revoke_invite-Refines}
use rust_invite_system.Invites.Audit.{WellFormed, consume-WellFormed, revoke-WellFormed}
use rust_invite_system.Invites.Histories.{
  Call, create, consume, revoke, cleanup, run, step_spec, run-keeps, step_spec-WellFormed,
}
use rust_invite_system.Invites.SingleUse.{consumable-found, revocable-found}

-- The invite of a token, if there is one, is revoked.
pub record Barred (hash : Text) (t : Tables) : Type 0 where
  pub valid : WellFormed t
  pub blocked :
      (r : InviteRecord) → find_by hash_of hash t.invites ≡ some r → is_some r.revoked_at ≡ true

-- The call stores no new invite with the token.
abbrev pub SparesHash : Text → Call → Type 0
SparesHash hash (create id h groups created_at expires_at by) = text_eq h hash ≡ false
SparesHash hash (consume h at by) = Unit {0}
SparesHash hash (revoke id at) = Unit {0}
SparesHash hash (cleanup cutoff) = Unit {0}

Barred-consume_spec :
    (hash at by : Text) (t : Tables) → Barred hash t → (consume_spec hash at by t).0 ≡ ok false
Barred-consume_spec hash at by t b = elim (Option-cases (find (consumable hash at) t.invites)) [
  | inl e ↦ rw e
  | inr (r, e) ↦
      let (found, c) = consumable-found hash at t r b.valid e in
      absurd (ground (arith, b.blocked r found, c))
]

module _ (hash : Text) (t : Tables) (b : Barred hash t) where
  Barred-update :
      (id : Text) (f : InviteRecord → InviteRecord)
      → ((r : InviteRecord) → (f r).token_hash ≡ r.token_hash)
      → ((r : InviteRecord) → is_some r.revoked_at ≡ true → is_some (f r).revoked_at ≡ true)
      → (r : InviteRecord) → find_by hash_of hash (update id f t.invites) ≡ some r
      → is_some r.revoked_at ≡ true
  Barred-update id f same keep r e = elim (Option-cases (find_by hash_of hash t.invites)) [
    | inl gone ↦
        let seen : none ≡ some r =
          rw (find_by-update hash_of f same hash id t.invites, gone) at e in
        cc
    | inr (s, found) ↦
        let seen : some (if has_id id s then f s else s) ≡ some r =
          rw (find_by-update hash_of f same hash id t.invites, found) at e in
        ground (arith, seen, b.blocked s found, keep s)
  ]

  Barred-consume : (h at by : Text) → Barred hash (consume_spec h at by t).1
  Barred-consume h at by = elim (Option-cases (find (consumable h at) t.invites)) [
    | inl e ↦ rw e b
    | inr (r, e) ↦ rw e (record {
      valid = rw e at (consume-WellFormed t b.valid h at by);
      blocked = Barred-update r.id (mark_consumed at by) (λ x. refl) (λ x k. k);
    })
  ]

  Barred-revoke : (id at : Text) → Barred hash (revoke_spec id at t).1
  Barred-revoke id at = elim (Option-cases (find (revocable id) t.invites)) [
    | inl e ↦ rw e b
    | inr (r, e) ↦ rw e (record {
      valid = rw e at (revoke-WellFormed t b.valid id at);
      blocked = Barred-update r.id (mark_revoked at) (λ x. refl) (λ x k. refl);
    })
  ]

  keep_if-some :
      (p : InviteRecord → Bool) (o : Option InviteRecord) {r : InviteRecord}
      → keep_if p o ≡ some r
      → o ≡ some r
  keep_if-some p none e = cc
  keep_if-some p (some s) e = ground arith

  Barred-cleanup : (cutoff : Text) → Barred hash (cleanup_spec cutoff t).1
  Barred-cleanup cutoff = record {
    valid = step_spec-WellFormed (cleanup cutoff) t b.valid;
    blocked = λ r e. b.blocked r (
        keep_if-some (λ x. not (stale cutoff x)) (find_by hash_of hash t.invites)
          (rw (find_by-filter hash_of (λ x. not (stale cutoff x)) hash t.invites b.valid.hashes) at
            e));
  }

  Barred-create :
      (row : InviteRecord) (by : Option Text)
      → text_eq row.token_hash hash ≡ false
      → WellFormed (create_spec row by t).1
      → Barred hash (create_spec row by t).1
  Barred-create row by other v = elim (Bool-cases (any (has_id row.id) t.invites)) [
    | inl e ↦ rw e b
    | inr e ↦ elim (Bool-cases (any (has_hash row.token_hash) t.invites)) [
      | inl e' ↦ rw (e, e') b
      | inr e' ↦
          let fresh = find_by-any hash_of row.token_hash t.invites e' in
          let v' = rw (e, e') at v in
          rw (e, e')
            (record {
              valid = v';
              blocked = λ r found.
                  b.blocked r
                    (rw (find_by-append hash_of hash t.invites row fresh, other) at found);
            })
    ]
  ]

Barred-step_spec :
    (hash : Text) (c : Call) (t : Tables)
    → SparesHash hash c
    → Barred hash t
    → Barred hash (step_spec c t)
Barred-step_spec hash (create id h groups created_at expires_at by) t a b =
    Barred-create hash t b (new_row id h groups created_at expires_at) by a
      (step_spec-WellFormed (create id h groups created_at expires_at by) t b.valid)
Barred-step_spec hash (consume h at by) t a b = Barred-consume hash t b h at by
Barred-step_spec hash (revoke id at) t a b = Barred-revoke hash t b id at
Barred-step_spec hash (cleanup cutoff) t a b = Barred-cleanup hash t b cutoff

-- What a successful `revoke_invite` leaves.
revoke_spec-Barred :
    (id at : Text) (t : Tables) (r : InviteRecord)
    → WellFormed t
    → find_by id_of id t.invites ≡ some r
    → (revoke_spec id at t).0 ≡ ok true
    → Barred r.token_hash (revoke_spec id at t).1
revoke_spec-Barred id at t r v at_id done = elim (Option-cases (find (revocable id) t.invites)) [
  | inl e ↦ let no_row : (revoke_spec id at t).0 ≡ ok false = rw e in cc
  | inr (s, e) ↦
      let (found, c) = revocable-found id t s v e in
      let same : s ≡ r = cc in
      let at_hash : find_by hash_of r.token_hash t.invites ≡ some s =
        subst (λ (x : InviteRecord). find_by hash_of x.token_hash t.invites ≡ some s) same
          (find_by-found hash_of (revocable id) t.invites s v.hashes e) in
      rw e (record {
        valid = rw e at (revoke-WellFormed t v id at);
        blocked = λ x seen.
            let marked : some (mark_revoked at s) ≡ some x =
              rw
                (
                  find_by-update hash_of (mark_revoked at) (λ y. refl) r.token_hash s.id t.invites,
                  at_hash,
                  text_eq_refl s.id,
                )
                at seen in
            ground (arith, marked);
      })
]

-- Once `revoke_invite` has returned true for an invite, `consume_invite` never returns true for
-- that invite's token: not for any user at any time, and not after any calls in between, as long as
-- none of them stores a new invite with the same token hash.
pub revoke_invite_bars :
    (id at : Text) (db : Db) (r : InviteRecord)
    → WellFormed db.tables
    → find_by id_of id db.tables.invites ≡ some r
    → (revoke_invite id at db).0 ≡ ok true
    → (cs : List Call) → All (SparesHash r.token_hash) cs
    → (at' by' : Text)
    → (consume_invite r.token_hash at' by' (run cs (revoke_invite id at db).1)).0 ≢ ok true
revoke_invite_bars id at db r v at_id done cs spared at' by' again =
    let (first, tables) = Refines-ok (revoke_invite-Refines id at) db done in
    let barred : Barred r.token_hash (revoke_invite id at db).1.tables =
      rw tables (revoke_spec-Barred id at db.tables r v at_id first) in
    let later =
      run-keeps (Barred r.token_hash) (SparesHash r.token_hash)
        (λ c t a b. Barred-step_spec r.token_hash c t a b) cs (revoke_invite id at db).1 spared
        barred in
    let (second, _) = Refines-ok (consume_invite-Refines r.token_hash at' by') _ again in
    cc (Barred-consume_spec r.token_hash at' by' _ later, second)
