-- ===== src/Routes/Refused.antt =====
-- What an attempt to sign up has not done when it fails.
use rust_invite_system.Common.{
  ℕ, ◌≡◌, refl, ◌∙◌, false, not, List, [], Text, Result, ok, err, ok_or, reject, unwrap_or, inl,
  inr, Bool-cases, Option-cases,
}
use rust_invite_system.Invites.Schema.{InviteRecord, Tables, Db}
use rust_invite_system.Invites.Repository.{find, consumable, consume_invite}
use rust_invite_system.Invites.Atomicity.{consume_invite-Refines}
use rust_invite_system.Lldap.Directory.{IsDirectory}
use rust_invite_system.Steps.{lift, Post, Post-same, Triple, Triple-bind}
use rust_invite_system.Routes.State.{Outside, AppState}
use rust_invite_system.Routes.Status.{invite_is_active}
use rust_invite_system.Routes.Signup.{
  SubmitInviteForm, Problem, provision, consume, accept_record, accept,
}
use rust_invite_system.Routes.Accounts.{accept-Triple}

-- `consume_invite` that did not answer true changed no table.
consume_invite-refused :
    (hash at by : Text) (db : Db)
    → unwrap_or (consume_invite hash at by db).0 false ≡ false
    → (consume_invite hash at by db).1.tables ≡ db.tables
consume_invite-refused hash at by db e = elim ((consume_invite-Refines hash at by).atomic db) [
  | inl (_, same) ↦ same
  | inr (answer, tables) ↦ elim (Option-cases (find (consumable hash at) db.tables.invites)) [
    | inl missing ↦ rw missing at tables
    | inr (r, found) ↦ let bad = rw answer at e in let worse = rw found at bad in cc
  ]
]

module _ (o : Outside) (i : IsDirectory o.service) (t : Tables) where
  abbrev Tabled : AppState o → Type 0
  Tabled st = st.db.tables ≡ t

  abbrev AnyEnd : Unit {0} → AppState o → Type 0
  AnyEnd _ st = Unit

  consume-Refused :
      (hash : Text) (now : ℕ) (form : SubmitInviteForm)
      → Triple Tabled (consume o hash now form) AnyEnd Tabled
  unfolding consume
  consume-Refused hash now form st h =
      elim (Bool-cases
        (unwrap_or (consume_invite hash (o.clock.print now) form.username st.db).0 false)) [
          | inl e ↦ rw e tt
          | inr e ↦
              let same = consume_invite-refused hash (o.clock.print now) form.username st.db e in
              rw e (same ∙ h)
        ]

  provision-Tabled :
      (form : SubmitInviteForm) (groups : List Text)
      → Triple Tabled (provision o form groups) (λ _. Tabled) Tabled
  unfolding provision
  provision-Tabled form groups st h = Post-same Tabled _ _ h

  accept_record-Refused :
      (checked used : ℕ) (hash : Text) (form : SubmitInviteForm) (r : InviteRecord)
      → Triple Tabled (accept_record o checked used hash form r) AnyEnd Tabled
  unfolding accept_record
  accept_record-Refused checked used hash form r =
      Triple-bind Tabled Tabled (λ _. Tabled) AnyEnd
        (lift (reject (not (invite_is_active o.clock r checked)) _)) _
        (λ st h. Post-same Tabled _ st h)
        λ _.
          Triple-bind Tabled Tabled (λ _. Tabled) AnyEnd
            (lift (ok_or (o.json.parse r.groups_json) _)) _ (λ st h. Post-same Tabled _ st h)
            λ groups.
              Triple-bind Tabled Tabled (λ _. Tabled) AnyEnd (provision o form groups) _
                (provision-Tabled form groups) λ _. consume-Refused hash used form

Post-err :
    {S E A : Type 0} (Q : A → S → Type 0) (R : S → Type 0) (r : Result A E) (s : S) {e : E}
    → Post Q R r s
    → r ≡ err e
    → R s
Post-err Q R (ok a) s p h = cc
Post-err Q R (err e) s p h = p

-- With a directory that keeps the laws relied on, an attempt to sign up that reports problems
-- leaves the tables as they were: the invite is not used up, and nothing is logged, whichever of
-- the checks, the directory or the database failed.
pub accept_refused :
    (o : Outside) (i : IsDirectory o.service) (checked used : ℕ) (code : Text)
    (form : SubmitInviteForm) (st : AppState o) (problems : List Problem)
    → (accept o checked used code form st).0 ≡ err problems
    → (accept o checked used code form st).1.db.tables ≡ st.db.tables
accept_refused o i checked used code form st problems h =
    let t = st.db.tables in
    Post-err (AnyEnd o i t) (Tabled o i t) (accept o checked used code form st).0
      (accept o checked used code form st).1
      (accept-Triple o i [] (i.account st.directory []) t checked used code form (AnyEnd o i t)
        (Tabled o i t) (λ st' p. p.1)
        (λ r st' p.
          accept_record-Refused o i t checked used (o.crypto.sha256_hex code) form r st' p.0.1)
        st (refl, refl))
      h
