-- ===== src/Routes/Logged.antt =====
-- What a line of the log says.
use rust_invite_system.Common.{
  ℕ, ◌≡◌, refl, ◌∙◌, Option, none, some, List, [], ◌∷◌, Text, codes, text_eq, text_eq_iff, leb,
  arith, if◌then◌else◌, Bool-cases, inl, inr, subst,
}
use rust_invite_system.Routes.Requests.{
  RequestLog, Value, text, number, u64_max, insert_field, emit_json,
}

-- The value of a key.
unfoldable pub lookup : Text → List (Text × Value) → Option Value
unfolding text_eq
lookup k [] = none
lookup k ((k', v) ∷ fields) = let rest = lookup k fields in if text_eq k' k then some v else rest

-- Every key stands once.
abbrev pub Distinct : List (Text × Value) → Type 0
Distinct [] = Unit
Distinct ((k, v) ∷ fields) = (lookup k fields ≡ none) × Distinct fields

abbrev duration_write : Option ℕ → List (Text × Value)
duration_write none = []
duration_write (some ms) =
    (codes "duration_ms", number (if leb ms u64_max then ms else u64_max)) ∷ []

-- What is written into a line, in the order of the writes.
abbrev pub writes : RequestLog → Text → Text → Text → Option ℕ → List (Text × Value)
writes log ts level message duration_ms =
    (codes "ts", text ts)
    ∷ (codes "level", text level)
    ∷ (log.message_field, text message)
    ∷ (codes "method", text log.method)
    ∷ (codes "path", text log.path)
    ∷ (codes "client_ip", text log.client_ip)
    ∷ (codes "forwarded_for", text log.forwarded_for)
    ∷ (codes "user_agent", text log.user_agent)
    ∷ (codes "referer", text log.referer)
    ∷ duration_write duration_ms

abbrev or_else : Option Value → Option Value → Option Value
or_else none o = o
or_else (some v) o = some v

-- The value written last to a key.
unfoldable pub last_write : Text → List (Text × Value) → Option Value
unfolding text_eq
last_write k [] = none
last_write k ((k', v) ∷ ws) =
    let later = last_write k ws in or_else later (if text_eq k' k then some v else none)

or_else-none : (o : Option Value) → or_else o none ≡ o
or_else-none none = refl
or_else-none (some v) = refl

unfoldable insert_all : List (Text × Value) → List (Text × Value) → List (Text × Value)
unfolding insert_field
insert_all [] fields = fields
insert_all ((k, v) ∷ ws) fields = insert_all ws (insert_field k v fields)

lookup-insert_field :
    (k key : Text) (v : Value) (fields : List (Text × Value))
    → lookup k (insert_field key v fields) ≡ (if text_eq key k then some v else lookup k fields)
unfolding lookup insert_field
lookup-insert_field k key v [] = refl
lookup-insert_field k key v ((k', u) ∷ fields) = ground (
  arith,
  lookup-insert_field k key v fields,
  text_eq_iff k' key,
  text_eq_iff k' k,
  text_eq_iff key k,
)

insert_field-Distinct :
    (key : Text) (v : Value) (fields : List (Text × Value))
    → Distinct fields
    → Distinct (insert_field key v fields)
unfolding insert_field lookup
insert_field-Distinct key v [] d = (refl, tt)
insert_field-Distinct key v ((k, u) ∷ fields) d = elim (Bool-cases (text_eq k key)) [
  | inl e ↦ rw e (subst (λ x. lookup x fields ≡ none) ((text_eq_iff k key).0 e) d.0, d.1)
  | inr e ↦ rw e (
    ground
        (arith, lookup-insert_field k key v fields, text_eq_iff key k, text_eq_iff k key, d.0, e),
    insert_field-Distinct key v fields d.1,
  )
]

lookup-insert_all :
    (k : Text) (ws fields : List (Text × Value))
    → lookup k (insert_all ws fields) ≡ or_else (last_write k ws) (lookup k fields)
unfolding last_write insert_all
lookup-insert_all k [] fields = refl
lookup-insert_all k ((key, v) ∷ ws) fields =
    ground (
      arith,
      lookup-insert_all k ws (insert_field key v fields),
      lookup-insert_field k key v fields,
    )

insert_all-Distinct :
    (ws fields : List (Text × Value)) → Distinct fields → Distinct (insert_all ws fields)
unfolding insert_all
insert_all-Distinct [] fields d = d
insert_all-Distinct ((k, v) ∷ ws) fields d =
    insert_all-Distinct ws (insert_field k v fields) (insert_field-Distinct k v fields d)

emit_json-insert_all :
    (log : RequestLog) (ts level message : Text) (duration_ms : Option ℕ)
    → emit_json log ts level message duration_ms
      ≡ insert_all (writes log ts level message duration_ms) []
unfolding emit_json insert_all
emit_json-insert_all log ts level message none = refl
emit_json-insert_all log ts level message (some ms) = refl

-- A line of the log has each key once, with the value that is written to it last, in the order of
-- the source's writes, and no other key.
pub emit_json_last :
    (log : RequestLog) (ts level message : Text) (duration_ms : Option ℕ)
    → Distinct (emit_json log ts level message duration_ms)
      × ((k : Text)
          → lookup k (emit_json log ts level message duration_ms)
            ≡ last_write k (writes log ts level message duration_ms))
unfolding lookup last_write
emit_json_last log ts level message duration_ms =
    let ws = writes log ts level message duration_ms in
    rw (emit_json-insert_all log ts level message duration_ms) (
      insert_all-Distinct ws [] tt,
      λ k. lookup-insert_all k ws [] ∙ or_else-none (last_write k ws),
    )
