-- ===== src/Invites/Audit.antt =====
-- The invariant of the two tables: unique keys, rows that are not both used and revoked, and an
-- audit log that says of every invite exactly what its row says.
use rust_invite_system.Common.{
  ◌≡◌, refl, sym, ◌∙◌, ap, true, false, not, ◌&&◌, Option, none, some, List, [], ◌∷◌, ◌++◌, arith,
  Text, text_eq, text_eq_iff, text_eq_refl, any, All, is_some, if◌then◌else◌, Bool-cases,
  Option-cases, inl, inr,
}
use mathlib.Core.List.{append-nil}
use rust_invite_system.Invites.Schema.{
  InviteRecord, EventType, created, consumed, revoked, Tables, no_rows,
}
use rust_invite_system.Invites.Repository.{
  find, update, has_id, has_hash, consumable, mark_consumed, revocable, mark_revoked, stale,
  stale_id,
}
use rust_invite_system.Invites.Log.{
  actor_of, notes, story, Ascending, Ascending-append, Ascending-filter, notes-append, notes-filter,
  new_grows, consumed_grows, revoked_grows,
}
use rust_invite_system.Invites.Rows.{
  id_of, hash_of, find_by, Unique, find-accepts, find_by-any, find_by-append, Unique-append,
  Unique-update, find_by-update, Unique-filter, find_by-filter, any-holds_in, All-append,
  Unique-All, find_by-found, find_by-key, All-update, All-filter, keep_if, holds_in,
}
use rust_invite_system.Invites.Spec.{
  logged, create_spec, consume_one, consume_spec, revoke_one, revoke_spec, cleanup_spec,
}

pub record IsRow (r : InviteRecord) : Type 0 where
  pub exclusive : (is_some r.consumed_at && is_some r.revoked_at) ≡ false
  pub attributed : is_some r.consumed_by ≡ is_some r.consumed_at

pub record WellFormed (t : Tables) : Type 0 where
  pub ids : Unique id_of t.invites
  pub hashes : Unique hash_of t.invites
  pub rows : All IsRow t.invites
  pub audited : (id : Text) → notes id t.events ≡ story (find_by id_of id t.invites)
  pub sequence : Ascending 0 t.events t.next_event

-- The empty tables are well formed.
pub no_rows-WellFormed : WellFormed no_rows
unfolding find
no_rows-WellFormed = record {
  ids = tt;
  hashes = tt;
  rows = tt;
  audited = λ id. refl;
  sequence = omega arith;
}

-- An update of the row with an identifier, seen at each identifier.
update_seen :
    (f : InviteRecord → InviteRecord) (rows : List InviteRecord) (r : InviteRecord)
    → ((s : InviteRecord) → (f s).id ≡ s.id)
    → find_by id_of r.id rows ≡ some r
    → (id : Text)
    → find_by id_of id (update r.id f rows)
      ≡ (if text_eq r.id id then some (f r) else find_by id_of id rows)
update_seen f rows r same found id =
    rw (find_by-update id_of f same id r.id rows) (elim (Bool-cases (text_eq r.id id)) [
      | inl hit ↦
          let e : find_by id_of id rows ≡ some r = rw (← (text_eq_iff r.id id).0 hit) found in
          rw (e, hit, text_eq_refl r.id) refl
      | inr miss ↦ elim (Option-cases (find_by id_of id rows)) [
        | inl e ↦ rw (e, miss) refl
        | inr (s, e) ↦
            let key : s.id ≡ id = find_by-key id_of id rows e in
            let off : text_eq s.id r.id ≡ false =
              ground (arith, text_eq_iff s.id r.id, text_eq_iff r.id id) in
            rw (e, miss, off) refl
      ]
    ])

module _ (t : Tables) (v : WellFormed t) where
  -- One event more for the row that changes: `o` is that row before and `r'` after.
  audited_step :
      (rid : Text) (kind : EventType) (at : Text) (actor : Option Text) (rows : List InviteRecord)
      (o : Option InviteRecord) (r' : InviteRecord)
      → find_by id_of rid t.invites ≡ o
      → story (some r') ≡ story o ++ (kind, at, actor_of kind actor) ∷ []
      → ((id : Text)
          → find_by id_of id rows
            ≡ (if text_eq rid id then some r' else find_by id_of id t.invites))
      → (id : Text) → notes id (logged rid kind at actor t).events ≡ story (find_by id_of id rows)
  audited_step rid kind at actor rows o r' found grows seen id =
      notes-append id t.events _ ∙ elim (Bool-cases (text_eq rid id)) [
        | inl same ↦
            let e : find_by id_of id t.invites ≡ o = rw (← (text_eq_iff rid id).0 same) found in
            rw (v.audited id, seen id, same, e) (sym grows)
        | inr other ↦ rw (v.audited id, seen id, other) (append-nil _)
      ]

  -- A new invite with fresh keys.
  pub create-WellFormed :
      (row : InviteRecord) (actor : Option Text)
      → row.consumed_at ≡ none
      → row.consumed_by ≡ none
      → row.revoked_at ≡ none
      → WellFormed (create_spec row actor t).1
  create-WellFormed row actor c b r = elim (Bool-cases (any (has_id row.id) t.invites)) [
    | inl e ↦ rw e v
    | inr e ↦ elim (Bool-cases (any (has_hash row.token_hash) t.invites)) [
      | inl e' ↦ rw (e, e') v
      | inr e' ↦
          let fresh = find_by-any id_of row.id t.invites e in
          let fresh' = find_by-any hash_of row.token_hash t.invites e' in
          rw (e, e')
            (record {
              ids = Unique-append id_of t.invites row v.ids fresh;
              hashes = Unique-append hash_of t.invites row v.hashes fresh';
              rows = All-append IsRow t.invites row v.rows (ground arith);
              audited =
                  audited_step row.id created row.created_at actor _ none row fresh
                    (new_grows row c r) (λ id. find_by-append id_of id t.invites row fresh);
              sequence = Ascending-append 0 t.next_event t.events _ v.sequence refl;
            })
    ]
  ]

  -- Marking the invite that the query found.
  consumed-WellFormed :
      (at by : Text) (r : InviteRecord)
      → r.consumed_at ≡ none
      → r.revoked_at ≡ none
      → find_by id_of r.id t.invites ≡ some r
      → WellFormed (consume_one at by (some r) t).1
  consumed-WellFormed at by r c d found = record {
    ids = Unique-update id_of (mark_consumed at by) (λ s. refl) r.id t.invites v.ids;
    hashes = Unique-update hash_of (mark_consumed at by) (λ s. refl) r.id t.invites v.hashes;
    rows =
        All-update IsRow (λ s. text_eq s.id r.id ≡ true → s ≡ r) r.id (mark_consumed at by)
          t.invites
          (λ s row only on.
            let same : s ≡ r = only on in ground (arith, ap (λ x. x.revoked_at) same))
          v.rows (Unique-All id_of r.id t.invites r v.ids found);
    audited =
        audited_step r.id consumed at (some by) _ (some r) (mark_consumed at by r) found
          (consumed_grows at by r c d)
          (update_seen (mark_consumed at by) t.invites r (λ s. refl) found);
    sequence = Ascending-append 0 t.next_event t.events _ v.sequence refl;
  }

  pub consume-WellFormed : (hash at by : Text) → WellFormed (consume_spec hash at by t).1
  consume-WellFormed hash at by = elim (Option-cases (find (consumable hash at) t.invites)) [
    | inl e ↦ rw e v
    | inr (r, e) ↦
        let ok = find-accepts (consumable hash at) t.invites e in
        rw e (
          consumed-WellFormed at by r (ground arith) (ground arith)
            (find_by-found id_of (consumable hash at) t.invites r v.ids e))
  ]

  revoked-WellFormed :
      (at : Text) (r : InviteRecord)
      → r.consumed_at ≡ none
      → r.revoked_at ≡ none
      → find_by id_of r.id t.invites ≡ some r
      → WellFormed (revoke_one at (some r) t).1
  revoked-WellFormed at r c d found = record {
    ids = Unique-update id_of (mark_revoked at) (λ s. refl) r.id t.invites v.ids;
    hashes = Unique-update hash_of (mark_revoked at) (λ s. refl) r.id t.invites v.hashes;
    rows =
        All-update IsRow (λ s. text_eq s.id r.id ≡ true → s ≡ r) r.id (mark_revoked at) t.invites
          (λ s row only on.
            let same : s ≡ r = only on in ground (arith, ap (λ x. x.consumed_at) same))
          v.rows (Unique-All id_of r.id t.invites r v.ids found);
    audited =
        audited_step r.id revoked at none _ (some r) (mark_revoked at r) found
          (revoked_grows at r c d) (update_seen (mark_revoked at) t.invites r (λ s. refl) found);
    sequence = Ascending-append 0 t.next_event t.events _ v.sequence refl;
  }

  pub revoke-WellFormed : (id at : Text) → WellFormed (revoke_spec id at t).1
  revoke-WellFormed id at = elim (Option-cases (find (revocable id) t.invites)) [
    | inl e ↦ rw e v
    | inr (r, e) ↦
        let ok = find-accepts (revocable id) t.invites e in
        rw e (
          revoked-WellFormed at r (ground arith) (ground arith)
            (find_by-found id_of (revocable id) t.invites r v.ids e))
  ]

  audited_kept :
      (cutoff : Text) (o : Option InviteRecord)
      → (if holds_in (stale cutoff) o then [] else story o)
        ≡ story (keep_if (λ r. not (stale cutoff r)) o)
  audited_kept cutoff none = refl
  audited_kept cutoff (some r) = elim (Bool-cases (stale cutoff r)) [
    | inl e ↦ rw e refl
    | inr e ↦ rw e refl
  ]

  pub cleanup-WellFormed : (cutoff : Text) → WellFormed (cleanup_spec cutoff t).1
  cleanup-WellFormed cutoff = record {
    ids = Unique-filter id_of _ t.invites v.ids;
    hashes = Unique-filter hash_of _ t.invites v.hashes;
    rows = All-filter IsRow _ t.invites v.rows;
    audited = λ id.
        notes-filter id (stale_id cutoff t.invites) t.events
        ∙ rw
            (
              any-holds_in id_of (stale cutoff) id t.invites v.ids,
              find_by-filter id_of (λ r. not (stale cutoff r)) id t.invites v.ids,
              v.audited id,
            )
            (audited_kept cutoff (find_by id_of id t.invites));
    sequence = Ascending-filter _ 0 t.next_event t.events v.sequence;
  }
