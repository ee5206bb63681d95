-- ===== src/Routes/Status.antt =====
-- The state of an invite as the pages show it and as a sign-up checks it.
use rust_invite_system.Common.{
  ℕ, Bool, true, false, ◌&&◌, Option, none, some, text_ltb, leb, ltb, is_some, is_none,
  if◌then◌else◌, ◌≡◌, ◌↔◌, arith, Option-cases, inl, inr,
}
use rust_invite_system.Invites.Schema.{InviteRecord}
use rust_invite_system.Invites.Lookup.{open_at}
use rust_invite_system.Routes.State.{Clock}

-- "Active", "Used", "Expired", "Revoked" and "Invalid"
pub data Status : Type 0 where
  active used expired revoked invalid : Status

abbrev expiry_status : ℕ → Option ℕ → Status
expiry_status now none = invalid
expiry_status now (some expires_at) = if leb expires_at now then expired else active

abbrev pub expires_after : ℕ → Option ℕ → Bool
expires_after now none = false
expires_after now (some expires_at) = ltb now expires_at

module _ (k : Clock) where
  unfoldable pub invite_status : InviteRecord → ℕ → Status
  invite_status r now =
      if is_some r.revoked_at
      then revoked
      else if is_some r.consumed_at
      then used
      else expiry_status now (k.parse r.expires_at)

  unfoldable pub invite_is_active : InviteRecord → ℕ → Bool
  invite_is_active r now =
      is_none r.revoked_at && (is_none r.consumed_at && expires_after now (k.parse r.expires_at))

  -- The pages show "Active" exactly for the invites that a sign-up accepts.
  pub invite_status_active :
      (r : InviteRecord) (now : ℕ)
      → (invite_status r now ≡ active) ↔ (invite_is_active r now ≡ true)
  unfolding invite_status invite_is_active
  invite_status_active r now = elim (Option-cases (k.parse r.expires_at)) [
    | inl e ↦ rw e (λ h. ground arith, λ h. ground arith)
    | inr (n, e) ↦ rw e (λ h. ground arith, λ h. ground arith)
  ]

  -- Printed times are read back, and compare as texts the way the times compare. With
  -- `to_rfc3339` this is so for the years with four digits and a fixed number of decimals.
  pub record IsOrdered (Printed : ℕ → Type 0) : Type 0 where
    pub parse_print : (n : ℕ) → Printed n → k.parse (k.print n) ≡ some n
    pub compare : (a b : ℕ) → Printed a → Printed b → text_ltb (k.print a) (k.print b) ≡ ltb a b

  -- The check of a sign-up in Rust and the comparison of texts in `consume_invite` agree at every
  -- time, for an invite that expires at a printed time.
  pub open_at-invite_is_active :
      {Printed : ℕ → Type 0} (law : IsOrdered Printed) (r : InviteRecord) (now expires : ℕ)
      → Printed now
      → Printed expires
      → r.expires_at ≡ k.print expires
      → open_at (k.print now) r ≡ invite_is_active r now
  unfolding invite_is_active
  open_at-invite_is_active law r now expires a b e =
      rw (e, law.parse_print expires b, law.compare now expires a b) (ground arith)
