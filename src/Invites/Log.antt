-- ===== src/Invites/Log.antt =====
-- What the events of an invite say, and the order of their keys.
use rust_invite_system.Common.{
  ℕ, suc, ◌≤◌, ◌≡◌, refl, ◌∙◌, ap, map, Bool, not, Option, none, some, List, [], ◌∷◌, ◌++◌, arith,
  Text, text_eq, text_eq_iff, filter, if◌then◌else◌, Bool-cases, inl, inr,
}
use rust_invite_system.Invites.Schema.{
  InviteRecord, EventType, created, consumed, revoked, InviteEvent,
}
use rust_invite_system.Invites.Repository.{mark_consumed, mark_revoked}

-- What an event says: its type, its time, and who used the invite. The row does not say who created
-- it.
abbrev pub Note : Type 0
Note = EventType × Text × Option Text

abbrev pub actor_of : EventType → Option Text → Option Text
actor_of created actor = none
actor_of consumed actor = actor
actor_of revoked actor = actor

abbrev pub note : InviteEvent → Note
note e = (e.event_type, e.occurred_at, actor_of e.event_type e.actor)

-- What the events of an invite say, in their order.
abbrev pub notes : Text → List InviteEvent → List Note
notes id es = map note (filter (λ e. text_eq e.invite_id id) es)

abbrev pub note_at : EventType → Option Text → Option Text → List Note
note_at type none actor = []
note_at type (some at) actor = (type, at, actor) ∷ []

-- What they must say, by its row: it was created; then it was used or revoked, if it was.
abbrev pub story : Option InviteRecord → List Note
story none = []
story (some r) =
    (created, r.created_at, none)
    ∷ (note_at consumed r.consumed_at r.consumed_by ++ note_at revoked r.revoked_at none)

-- The keys of the events grow along the list and stay below the next key.
abbrev pub Ascending : ℕ → List InviteEvent → ℕ → Type 0
Ascending low [] high = low ≤ high
Ascending low (e ∷ es) high = (low ≤ e.id) × Ascending (suc e.id) es high

pub notes-append :
    (id : Text) (es : List InviteEvent) (e : InviteEvent)
    → notes id (es ++ e ∷ []) ≡ notes id es ++ (if text_eq e.invite_id id then note e ∷ [] else [])
notes-append id [] e = elim (Bool-cases (text_eq e.invite_id id)) [
  | inl hit ↦ rw (hit, filter) refl
  | inr miss ↦ rw (miss, filter) refl
]
notes-append id (x ∷ es) e = elim (Bool-cases (text_eq x.invite_id id)) [
  | inl hit ↦ rw (hit, filter) (ap (λ l. note x ∷ l) (notes-append id es e))
  | inr miss ↦ rw (miss, filter) (notes-append id es e)
]

pub notes-filter :
    (id : Text) (gone : Text → Bool) (es : List InviteEvent)
    → notes id (filter (λ e. not (gone e.invite_id)) es) ≡ (if gone id then [] else notes id es)
notes-filter id gone [] = elim (Bool-cases (gone id)) [
  | inl e ↦ rw (e, filter) refl
  | inr e ↦ rw (e, filter) refl
]
notes-filter id gone (e ∷ es) = elim (Bool-cases (text_eq e.invite_id id)) [
  | inl same ↦
      let eq : gone e.invite_id ≡ gone id = ap gone ((text_eq_iff e.invite_id id).0 same) in
      elim (Bool-cases (gone id)) [
        | inl drop ↦ rw (eq ∙ drop, drop, filter) (notes-filter id gone es ∙ rw drop refl)
        | inr keep ↦
            rw (eq ∙ keep, keep, same, filter)
              (ap (λ l. note e ∷ l) (notes-filter id gone es ∙ rw keep refl))
      ]
  | inr other ↦ elim (Bool-cases (gone e.invite_id)) [
    | inl drop ↦ rw (drop, other, filter) (notes-filter id gone es)
    | inr keep ↦ rw (keep, other, filter) (notes-filter id gone es)
  ]
]

pub Ascending-append :
    (low high : ℕ) (es : List InviteEvent) (e : InviteEvent)
    → Ascending low es high
    → e.id ≡ high
    → Ascending low (es ++ e ∷ []) (suc high)
Ascending-append low high [] e a h = (omega arith, omega arith)
Ascending-append low high (x ∷ es) e a h = (a.0, Ascending-append (suc x.id) high es e a.1 h)

Ascending-lower :
    (low low' high : ℕ) (es : List InviteEvent)
    → low ≤ low'
    → Ascending low' es high
    → Ascending low es high
Ascending-lower low low' high [] h a = omega arith
Ascending-lower low low' high (e ∷ es) h a = (omega arith, a.1)

pub Ascending-filter :
    (p : InviteEvent → Bool) (low high : ℕ) (es : List InviteEvent)
    → Ascending low es high
    → Ascending low (filter p es) high
Ascending-filter p low high [] a = a
Ascending-filter p low high (e ∷ es) a = elim (Bool-cases (p e)) [
  | inl keep ↦ rw (keep, filter) (a.0, Ascending-filter p (suc e.id) high es a.1)
  | inr drop ↦
      rw (drop, filter)
        (Ascending-lower low (suc e.id) high (filter p es) (omega (arith, a.0))
          (Ascending-filter p (suc e.id) high es a.1))
]

-- What a new row, a use and a revocation add.
pub new_grows :
    (row : InviteRecord)
    → row.consumed_at ≡ none
    → row.revoked_at ≡ none
    → story (some row) ≡ (created, row.created_at, none) ∷ []
new_grows row c r = rw (c, r) refl

pub consumed_grows :
    (at by : Text) (r : InviteRecord)
    → r.consumed_at ≡ none
    → r.revoked_at ≡ none
    → story (some (mark_consumed at by r)) ≡ story (some r) ++ (consumed, at, some by) ∷ []
consumed_grows at by r c d = rw (c, d) refl

pub revoked_grows :
    (at : Text) (r : InviteRecord)
    → r.consumed_at ≡ none
    → r.revoked_at ≡ none
    → story (some (mark_revoked at r)) ≡ story (some r) ++ (revoked, at, none) ∷ []
revoked_grows at r c d = rw (c, d) refl
