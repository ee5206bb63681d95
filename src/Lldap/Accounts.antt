-- ===== src/Lldap/Accounts.antt =====
-- What a request may do to accounts, as the owner of an account or not.
use rust_invite_system.Steps.Families.{Sharing}
use rust_invite_system.Common.{
  ◌≡◌, refl, sym, ◌∙◌, ◌⊎◌, inl, inr, Bool-cases, Bool, true, false, Text,
}

module _ {S : Type 0} (has : S → Text → Bool) (same : Text → Text → Bool) (u : Text) where
  abbrev pub There : S → Type 0
  There s = has s u ≡ true

  -- Other accounts, before and after.
  abbrev pub Spares : S → S → Type 0
  Spares s t = (v : Text) → same u v ≡ false → has t v ≡ has s v

  -- The account itself: who does not own it can only create it where it is not there, and then owns
  -- it; the owner can delete it, and then does not own it any more.
  abbrev pub Turns : Bool → Bool → S → S → Type 0
  Turns false false s t = There s → There t
  Turns false true s t = (has s u ≡ false) × There t
  Turns true true s t = There t
  Turns true false s t = Unit

  abbrev pub Moves : Bool → Bool → S → S → Type 0
  Moves b b' s t = Spares s t × Turns b b' s t

  -- What changes no account.
  pub Moves-unchanged :
      (b : Bool) (s t : S) → ((v : Text) → has t v ≡ has s v) → (b ≡ true → There s) → Moves b b s t
  Moves-unchanged false s t keeps there = ((λ v _. keeps v), λ h. rw (keeps u) h)
  Moves-unchanged true s t keeps there = ((λ v _. keeps v), rw (keeps u) (there refl))

-- The accounts, by their names.
module _ {S : Type 0} (has : S → Text → Bool) (same : Text → Text → Bool)
    (has_same : (s : S) (u v : Text) → same u v ≡ true → has s u ≡ has s v) where
  pub Moves-gains :
      (b : Bool) (u : Text) (s t : S)
      → Moves has same u b true s t
      → (b ≡ true) ⊎ (¬ There has same u s)
  Moves-gains true u s t m = inl refl
  Moves-gains false u s t m = inr (λ there. let bad : false ≡ true = sym m.1.0 ∙ there in cc)

  pub Moves-has_own :
      (b : Bool) (u : Text) (s t : S) → Moves has same u b true s t → There has same u t
  Moves-has_own true u s t m = m.1
  Moves-has_own false u s t m = m.1.1

  turned :
      (b b' : Bool) (u : Text) (s t : S)
      → Turns has same u b b' s t
      → b ≡ false
      → There has same u s
      → There has same u t
  turned false false u s t m foreign here = m here
  turned false true u s t m foreign here = m.1
  turned true b' u s t m foreign here = cc

  pub Moves-stays :
      (k u : Text) (b b' : Bool) (s t : S)
      → Moves has same k b b' s t
      → (same k u ≡ true → b ≡ false)
      → There has same u s
      → There has same u t
  Moves-stays k u b b' s t m foreign here = elim (Bool-cases (same k u)) [
    | inl e ↦ sym (has_same t k u e) ∙ turned b b' k s t m.1 (foreign e) (has_same s k u e ∙ here)
    | inr other ↦ m.0 u other ∙ here
  ]

  abbrev pub accounts : Sharing S Text
  accounts = record {
    Valid = λ s. Unit {0};
    Holds = There has same;
    Same = λ u v. same u v ≡ true;
    Moves = Moves has same;
    forth = λ u v s e here. sym (has_same s u v e) ∙ here;
    back = λ u v s e here. has_same s u v e ∙ here;
    valid = λ u b b' s t m v. v;
    gains = λ u b s t m. Moves-gains b u s t m;
    has_own = λ u b s t v m. Moves-has_own b u s t m;
    stays = Moves-stays;
    idle = λ u b s there. Moves-unchanged has same u b s s (λ v. refl) there;
  }
