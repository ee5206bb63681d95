-- ===== src/Routes/Origin.antt =====
-- What the single tests of the guards say.
use rust_invite_system.Common.{
  ℕ, ◌≡◌, ◌<◌, ◌⊎◌, ◌||◌, Option, none, some, [], ◌∷◌, codes, text_eq, text_eq_iff, is_empty, sym,
  subst, refl, ◌↔◌, true, not, arith, Text, inl, inr, Bool-cases, byte_len, ap,
}
use rust_invite_system.Auth.{Session, tokens_match, expire}
use rust_invite_system.Routes.State.{Request}
use rust_invite_system.Routes.Guards.{is_text, is_none_or, same_origin}

-- The header `origin` is the given text, which is not empty, and the browser does not say that
-- another site made the request.
pub record IsFromOrigin (origin : Text) (rq : Request) : Type 0 where
  pub named : rq.header (codes "origin") ≡ some origin
  pub set : ¬ (origin ≡ [])
  pub site :
      (rq.header (codes "sec-fetch-site") ≡ none)
      ⊎ ((rq.header (codes "sec-fetch-site") ≡ some (codes "same-origin"))
          ⊎ (rq.header (codes "sec-fetch-site") ≡ some (codes "none")))

is_text_iff : (h : Option Text) (t : Text) → (is_text h t ≡ true) ↔ (h ≡ some t)
is_text_iff none t = (λ h. cc, λ h. cc)
is_text_iff (some x) t = (λ h. ap some ((text_eq_iff x t).0 h), λ h. (text_eq_iff x t).1 cc)

is_empty_iff : (t : Text) → (not (is_empty t) ≡ true) ↔ (¬ (t ≡ []))
is_empty_iff [] = (λ h. cc, λ h. elim (h refl) [ ])
is_empty_iff (c ∷ t) = (λ h e. cc, λ h. refl)

same_site_iff :
    (h : Option Text)
    → (is_none_or h (λ site. text_eq site (codes "same-origin") || text_eq site (codes "none"))
        ≡ true)
      ↔ ((h ≡ none) ⊎ ((h ≡ some (codes "same-origin")) ⊎ (h ≡ some (codes "none"))))
same_site_iff none = (λ h. inl refl, λ h. refl)
same_site_iff (some x) =
    let same = text_eq_iff x (codes "same-origin") in
    let alone = text_eq_iff x (codes "none") in
    (
      λ h. elim (Bool-cases (text_eq x (codes "same-origin"))) [
        | inl e ↦ inr (inl (ap some (same.0 e)))
        | inr e ↦ inr (inr (ap some (alone.0 (rw e at h))))
      ],
      λ h. elim h [
        | inl e ↦ cc
        | inr (inl e) ↦ let e' : x ≡ codes "same-origin" = cc in rw (same.1 e') refl
        | inr (inr e) ↦
            let e' : x ≡ codes "none" = cc in
            elim (Bool-cases (text_eq x (codes "same-origin"))) [
              | inl t ↦ rw t refl
              | inr t ↦ rw (t, alone.1 e') refl
            ]
      ],
    )

pub same_origin_iff :
    (origin : Text) (rq : Request) → (same_origin origin rq ≡ true) ↔ IsFromOrigin origin rq
unfolding same_origin
same_origin_iff origin rq =
    let named = is_text_iff (rq.header (codes "origin")) origin in
    let set = is_empty_iff origin in
    let site = same_site_iff (rq.header (codes "sec-fetch-site")) in
    (
      λ h. elim (Bool-cases (is_text (rq.header (codes "origin")) origin)) [
        | inr e ↦ let bad = rw (e, same_origin) at h in cc
        | inl e ↦ elim (Bool-cases (not (is_empty origin))) [
          | inr e' ↦ let bad = rw (e, same_origin, e') at h in cc
          | inl e' ↦ record {
            named = named.0 e;
            set = set.0 e';
            site = site.0 (rw (e, same_origin, e') at h);
          }
        ]
      ],
      λ a. rw (named.1 a.named, same_origin, set.1 a.set) (site.1 a.site),
    )

pub tokens_match_iff : (a b : Text) → (tokens_match a b ≡ true) ↔ ((a ≡ b) × (byte_len a ≡ 64))
unfolding tokens_match
tokens_match_iff a b = (
  λ h. ((text_eq_iff a b).0 (ground arith), ground arith),
  λ (same, long).
      let long' : byte_len b ≡ 64 = rw same at long in ground (arith, (text_eq_iff a b).1 same),
)

pub expire_iff :
    (now : ℕ) (s : Option Session) (live : Session)
    → (expire now s ≡ some live) ↔ ((s ≡ some live) × (now < live.expires))
expire_iff now none live = (λ h. cc, λ h. let bad = h.0 in cc)
expire_iff now (some s) live = (
  λ h.
      let same : s ≡ live = ground arith in
      (ap some same, subst (λ x. now < x.expires) same (ground arith)),
  λ (same, early).
      let same' : s ≡ live = cc in
      let early' : now < s.expires = subst (λ x. now < x.expires) (sym same') early in ground arith,
)
