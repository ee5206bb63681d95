-- ===== src/Invites/Retention.antt =====
-- What `cleanup_stale` deletes and what it leaves.
use rust_invite_system.Common.{
  ℕ, ◌+◌, ◌-◌, ◌≡◌, ap, Bool, not, List, [], ◌∷◌, arith, Text, text_eq, text_eq_iff, ok, filter,
  length, if◌then◌else◌, Bool-cases, inl, inr,
}
use rust_invite_system.Invites.Schema.{InviteRecord, InviteEvent, Tables, Db}
use rust_invite_system.Invites.Repository.{cleanup_stale, stale, stale_id}
use rust_invite_system.Invites.Rows.{
  id_of, find_by, find_by-filter, any-holds_in, keep_if, holds_in,
}
use rust_invite_system.Invites.Atomicity.{Refines-ok, cleanup_stale-Refines}
use rust_invite_system.Invites.Audit.{WellFormed}

-- The events of an invite, in their order.
abbrev pub events_of : Text → Tables → List InviteEvent
events_of id t = filter (λ e. text_eq e.invite_id id) t.events

events_of-filter :
    (id : Text) (gone : Text → Bool) (es : List InviteEvent)
    → filter (λ e. text_eq e.invite_id id) (filter (λ e. not (gone e.invite_id)) es)
      ≡ (if gone id then [] else filter (λ e. text_eq e.invite_id id) es)
events_of-filter id gone [] = ground arith
events_of-filter id gone (e ∷ es) = elim (Bool-cases (text_eq e.invite_id id)) [
  | inl same ↦
      let eq = ap gone ((text_eq_iff e.invite_id id).0 same) in
      ground (arith, events_of-filter id gone es)
  | inr other ↦ ground (arith, events_of-filter id gone es)
]

length-filter :
    (p : InviteRecord → Bool) (rs : List InviteRecord)
    → length rs - length (filter (λ r. not (p r)) rs) ≡ length (filter p rs)
length-filter p rs = omega (arith, parts p rs)
  where
    parts :
        (p : InviteRecord → Bool) (rs : List InviteRecord)
        → length rs ≡ length (filter p rs) + length (filter (λ r. not (p r)) rs)
    parts p [] = omega arith
    parts p (r ∷ rs) = ground (arith, parts p rs)

-- What is left of the invite with an identifier, and of its events.
pub record Retained (cutoff id : Text) (t t' : Tables) : Type 0 where
  pub row :
      find_by id_of id t'.invites ≡ keep_if (λ r. not (stale cutoff r)) (find_by id_of id t.invites)
  pub log :
      events_of id t'
      ≡ (if holds_in (stale cutoff) (find_by id_of id t.invites) then [] else events_of id t)

-- A cleanup that returns has removed exactly the invites that are stale, each with all its events,
-- has left every other invite and its events as they were, and returns the number of the removed.
pub cleanup_stale-Retained :
    (cutoff id : Text) (db : Db) (n : ℕ)
    → WellFormed db.tables
    → (cleanup_stale cutoff db).0 ≡ ok n
    → Retained cutoff id db.tables (cleanup_stale cutoff db).1.tables
      × (n ≡ length (filter (stale cutoff) db.tables.invites))
cleanup_stale-Retained cutoff id db n v done =
    let (answer, tables) = Refines-ok (cleanup_stale-Refines cutoff) db done in
    let t = db.tables in
    (
      rw tables (record {
        row = find_by-filter id_of (λ r. not (stale cutoff r)) id t.invites v.ids;
        log =
            rw (← any-holds_in id_of (stale cutoff) id t.invites v.ids)
              (events_of-filter id (stale_id cutoff t.invites) t.events);
      }),
      ground (arith, answer, length-filter (stale cutoff) t.invites),
    )
