-- ===== src/Invites/Rows.antt =====
-- Lookups in the table of invites after an insertion, an update and a deletion, for either of the
-- two unique columns.
use rust_invite_system.Common.{
  ◌≡◌, refl, Bool, true, false, ◌&&◌, inl, inr, Option, none, some, List, [], ◌∷◌, ◌++◌, arith,
  Text, text_eq, text_eq_iff, text_eq_refl, any, filter, All, if◌then◌else◌, Bool-cases,
}
use rust_invite_system.Invites.Schema.{InviteRecord}
use rust_invite_system.Invites.Repository.{find, update, has_id}

abbrev pub id_of : InviteRecord → Text
id_of r = r.id

abbrev pub hash_of : InviteRecord → Text
hash_of r = r.token_hash

abbrev pub when {ℓ} : {A : Type ℓ} → Bool → Option A → Option A
when b o = if b then o else none

abbrev pub keep_if : (InviteRecord → Bool) → Option InviteRecord → Option InviteRecord
keep_if p none = none
keep_if p (some r) = if p r then some r else none

abbrev pub map_some : (InviteRecord → InviteRecord) → Option InviteRecord → Option InviteRecord
map_some f none = none
map_some f (some r) = some (f r)

abbrev pub holds_in : (InviteRecord → Bool) → Option InviteRecord → Bool
holds_in p none = false
holds_in p (some r) = p r

-- A row that is found is accepted.
pub find-accepts :
    (p : InviteRecord → Bool) (rs : List InviteRecord) {r : InviteRecord}
    → find p rs ≡ some r
    → p r ≡ true
unfolding find
find-accepts p [] h = cc
find-accepts p (x ∷ rs) {r} h = elim (Bool-cases (p x)) [
  | inl e ↦ let same : x ≡ r = ground arith in rw (← same) e
  | inr e ↦ find-accepts p rs (ground arith)
]

pub find-All :
    (P : InviteRecord → Type 0) (p : InviteRecord → Bool) (rs : List InviteRecord)
    {r : InviteRecord}
    → All P rs
    → find p rs ≡ some r
    → P r
unfolding find
find-All P p [] a h = cc
find-All P p (x ∷ rs) {r} a h = elim (Bool-cases (p x)) [
  | inl e ↦ let same : x ≡ r = ground arith in rw (← same) a.0
  | inr e ↦ find-All P p rs a.1 (ground arith)
]

All-map :
    {P Q : InviteRecord → Type 0}
    → ((r : InviteRecord) → P r → Q r)
    → (rs : List InviteRecord) → All P rs
    → All Q rs
All-map f [] a = tt
All-map f (r ∷ rs) a = (f r a.0, All-map f rs a.1)

module _ (key : InviteRecord → Text) where
  abbrev pub find_by : Text → List InviteRecord → Option InviteRecord
  find_by k = find (λ r. text_eq (key r) k)

  -- No two rows have the same key.
  abbrev pub Unique : List InviteRecord → Type 0
  Unique [] = Unit
  Unique (r ∷ rs) = (find_by (key r) rs ≡ none) × Unique rs

  pub find_by-key :
      (k : Text) (rs : List InviteRecord) {r : InviteRecord} → find_by k rs ≡ some r → key r ≡ k
  find_by-key k rs {r} h = (text_eq_iff (key r) k).0 (find-accepts _ rs h)

  pub find_by-append :
      (k : Text) (rs : List InviteRecord) (row : InviteRecord)
      → find_by (key row) rs ≡ none
      → find_by k (rs ++ row ∷ []) ≡ (if text_eq (key row) k then some row else find_by k rs)
  unfolding find
  find_by-append k [] row h = refl
  find_by-append k (r ∷ rs) row h = ground (
    arith,
    find_by-append k rs row,
    text_eq_iff (key r) (key row),
    text_eq_iff (key r) k,
    text_eq_iff (key row) k,
  )

  pub Unique-append :
      (rs : List InviteRecord) (row : InviteRecord)
      → Unique rs
      → find_by (key row) rs ≡ none
      → Unique (rs ++ row ∷ [])
  unfolding find
  Unique-append [] row u h = (refl, tt)
  Unique-append (r ∷ rs) row u h = ground (
    arith,
    Unique-append rs row u.1,
    find_by-append (key r) rs row,
    text_eq_iff (key r) (key row),
    text_eq_iff (key row) (key r),
  )

  pub find_by-any :
      (k : Text) (rs : List InviteRecord)
      → any (λ r. text_eq (key r) k) rs ≡ false
      → find_by k rs ≡ none
  unfolding find
  find_by-any k [] h = refl
  find_by-any k (r ∷ rs) h = ground (arith, find_by-any k rs)

  pub any-find_by :
      (k : Text) (rs : List InviteRecord) (r : InviteRecord)
      → find_by k rs ≡ some r
      → any (λ s. text_eq (key s) k) rs ≡ true
  unfolding find
  any-find_by k [] r h = cc
  any-find_by k (s ∷ rs) r h = ground (arith, any-find_by k rs r)

  -- With unique keys a found row is the row of its key.
  pub find_by-found :
      (p : InviteRecord → Bool) (rs : List InviteRecord) (r : InviteRecord)
      → Unique rs
      → find p rs ≡ some r
      → find_by (key r) rs ≡ some r
  unfolding find
  find_by-found p [] r u h = cc
  find_by-found p (x ∷ rs) r u h = elim (Bool-cases (p x)) [
    | inl e ↦
        let same : x ≡ r = ground arith in
        let hit : text_eq (key x) (key r) ≡ true = rw same (text_eq_refl (key r)) in ground arith
    | inr e ↦ ground (
      arith,
      find_by-found p rs r u.1,
      text_eq_iff (key x) (key r),
      λ (same : key x ≡ key r). let gone : find_by (key r) rs ≡ none = rw (← same) u.0 in gone,
    )
  ]

  absent-All :
      (k : Text) (rs : List InviteRecord)
      → find_by k rs ≡ none
      → All (λ s. text_eq (key s) k ≡ false) rs
  unfolding find
  absent-All k [] h = tt
  absent-All k (r ∷ rs) h = ground (arith, absent-All k rs)

  -- With unique keys the row of a key is the only one.
  pub Unique-All :
      (k : Text) (rs : List InviteRecord) (r : InviteRecord)
      → Unique rs
      → find_by k rs ≡ some r
      → All (λ s. text_eq (key s) k ≡ true → s ≡ r) rs
  unfolding find
  Unique-All k [] r u h = tt
  Unique-All k (x ∷ rs) r u h = elim (Bool-cases (text_eq (key x) k)) [
    | inl e ↦
        let same : x ≡ r = ground arith in
        let gone : find_by k rs ≡ none = rw (← (text_eq_iff (key x) k).0 e) u.0 in
        (λ _. same, All-map (λ s off on. cc) rs (absent-All k rs gone))
    | inr e ↦ (λ on. cc, Unique-All k rs r u.1 (ground arith))
  ]

  module _ (p : InviteRecord → Bool) where
    filter-absent :
        (k : Text) (rs : List InviteRecord) → find_by k rs ≡ none → find_by k (filter p rs) ≡ none
    unfolding find
    filter-absent k [] h = refl
    filter-absent k (r ∷ rs) h = ground (arith, filter-absent k rs)

    pub Unique-filter : (rs : List InviteRecord) → Unique rs → Unique (filter p rs)
    Unique-filter [] u = tt
    Unique-filter (r ∷ rs) u = ground (arith, Unique-filter rs u.1, filter-absent (key r) rs u.0)

    -- With unique keys a deletion is seen key by key.
    pub find_by-filter :
        (k : Text) (rs : List InviteRecord)
        → Unique rs
        → find_by k (filter p rs) ≡ keep_if p (find_by k rs)
    unfolding find
    find_by-filter k [] u = refl
    find_by-filter k (r ∷ rs) u = ground (
      arith,
      find_by-filter k rs u.1,
      text_eq_iff (key r) k,
      λ (e : key r ≡ k). filter-absent k rs (rw (← e) u.0),
    )

    -- With unique keys a test of the rows with a key is a test of the row with the key.
    pub any-holds_in :
        (k : Text) (rs : List InviteRecord)
        → Unique rs
        → any (λ r. text_eq (key r) k && p r) rs ≡ holds_in p (find_by k rs)
    unfolding find
    any-holds_in k [] u = refl
    any-holds_in k (r ∷ rs) u = ground (
      arith,
      any-holds_in k rs u.1,
      text_eq_iff (key r) k,
      λ (e : key r ≡ k). let gone : find_by k rs ≡ none = rw (← e) u.0 in gone,
    )

    -- With unique keys a search among the rows with a key looks at the row of the key.
    pub find-keep_if :
        (k : Text) (rs : List InviteRecord)
        → Unique rs
        → find (λ r. text_eq (key r) k && p r) rs ≡ keep_if p (find_by k rs)
    unfolding find
    find-keep_if k [] u = refl
    find-keep_if k (r ∷ rs) u = ground (
      arith,
      find-keep_if k rs u.1,
      text_eq_iff (key r) k,
      λ (e : key r ≡ k). let gone : find_by k rs ≡ none = rw (← e) u.0 in gone,
    )

  module _ (f : InviteRecord → InviteRecord) (same : (r : InviteRecord) → key (f r) ≡ key r) where
    update-absent :
        (k id : Text) (rs : List InviteRecord)
        → find_by k rs ≡ none
        → find_by k (update id f rs) ≡ none
    unfolding find update
    update-absent k id [] h = refl
    update-absent k id (r ∷ rs) h = ground (arith, update-absent k id rs, same r)

    pub Unique-update : (id : Text) (rs : List InviteRecord) → Unique rs → Unique (update id f rs)
    unfolding update
    Unique-update id [] u = tt
    Unique-update id (r ∷ rs) u =
        ground (arith, Unique-update id rs u.1, update-absent (key r) id rs u.0, same r)

    -- An update is seen at the rows with the identifier alone.
    pub find_by-update :
        (k id : Text) (rs : List InviteRecord)
        → find_by k (update id f rs) ≡ map_some (λ r. if has_id id r then f r else r) (find_by k rs)
    unfolding find update
    find_by-update k id [] = refl
    find_by-update k id (r ∷ rs) = ground (arith, find_by-update k id rs, same r)

-- `Q` tells of the rows with the identifier what `P` after the update needs.
pub All-update :
    (P Q : InviteRecord → Type 0) (id : Text) (f : InviteRecord → InviteRecord)
    (rs : List InviteRecord)
    → ((r : InviteRecord) → P r → Q r → has_id id r ≡ true → P (f r))
    → All P rs
    → All Q rs
    → All P (update id f rs)
unfolding update
All-update P Q id f [] keep a q = tt
All-update P Q id f (r ∷ rs) keep a q = elim (Bool-cases (has_id id r)) [
  | inl e ↦ rw e (keep r a.0 q.0 e, All-update P Q id f rs keep a.1 q.1)
  | inr e ↦ rw e (a.0, All-update P Q id f rs keep a.1 q.1)
]

pub All-filter :
    (P : InviteRecord → Type 0) (p : InviteRecord → Bool) (rs : List InviteRecord)
    → All P rs
    → All P (filter p rs)
All-filter P p [] a = tt
All-filter P p (r ∷ rs) a = ground (arith, All-filter P p rs a.1)

pub All-append :
    (P : InviteRecord → Type 0) (rs : List InviteRecord) (row : InviteRecord)
    → All P rs
    → P row
    → All P (rs ++ row ∷ [])
All-append P [] row a h = (h, tt)
All-append P (r ∷ rs) row a h = (a.0, All-append P rs row a.1 h)

-- A found row is in the table under its identifier.
pub find-any :
    (p : InviteRecord → Bool) (rs : List InviteRecord) {r : InviteRecord}
    → find p rs ≡ some r
    → any (has_id r.id) rs ≡ true
unfolding find
find-any p [] h = cc
find-any p (x ∷ rs) {r} h = elim (Bool-cases (p x)) [
  | inl e ↦ let same : x ≡ r = ground arith in rw (same, text_eq_refl r.id) refl
  | inr e ↦ let rest = find-any p rs {r = r} (ground arith) in ground arith
]

-- An update that keeps the identifiers leaves their set as it is.
pub any-update :
    (f : InviteRecord → InviteRecord)
    → ((r : InviteRecord) → (f r).id ≡ r.id)
    → (k id : Text) (rs : List InviteRecord) → any (has_id k) (update id f rs) ≡ any (has_id k) rs
unfolding update
any-update f same k id [] = refl
any-update f same k id (r ∷ rs) = ground (arith, any-update f same k id rs, same r)
