-- ===== src/Routes/Authorized.antt =====
-- What the guards let through.
use rust_invite_system.Common.{
  ℕ, ◌≡◌, ◌<◌, sym, refl, ◌∙◌, ◌↔◌, true, false, not, some, arith, Text, ok, reject, inl, inr,
  Bool-cases, Option-cases, byte_len, ap,
}
use rust_invite_system.Auth.{Session, tokens_match, csrf_token_at, expire}
use rust_invite_system.Steps.{◌>>◌, lift}
use rust_invite_system.Routes.State.{Outside, AppState, Request, forbidden}
use rust_invite_system.Routes.Origin.{IsFromOrigin, same_origin_iff, tokens_match_iff, expire_iff}
use rust_invite_system.Routes.Guards.{
  session_cookie, same_origin, require_origin, require_admin_mutation,
}

module _ (o : Outside) (rq : Request) (now : ℕ) (csrf : Text) (st : AppState o) where
  -- The tests of the guards, one by one.
  pub record Passes : Type 0 where
    pub token : Text
    pub session : Session
    pub carried : rq.cookie session_cookie ≡ some token
    pub long : byte_len token ≡ 64
    pub healthy : st.admin.poisoned ≡ false
    pub live : expire now st.admin.state.session ≡ some session
    pub owned : tokens_match session.token_hash (o.crypto.sha256_hex token) ≡ true
    pub origin : same_origin st.config.admin.origin rq ≡ true
    pub unforged : tokens_match session.csrf csrf ≡ true

  -- The request carries a token whose digest is that of the session, before the session's end;
  -- comes from the configured origin; and its form has the session's text against forgery.
  pub record IsAuthorized : Type 0 where
    pub token : Text
    pub session : Session
    pub carried : rq.cookie session_cookie ≡ some token
    pub healthy : st.admin.poisoned ≡ false
    pub opened : st.admin.state.session ≡ some session
    pub early : now < session.expires
    pub owned : session.token_hash ≡ o.crypto.sha256_hex token
    pub origin : IsFromOrigin st.config.admin.origin rq
    pub unforged : csrf ≡ session.csrf
    pub lengths : (byte_len token ≡ 64) × (byte_len session.token_hash ≡ 64) × (byte_len csrf ≡ 64)

  -- The session whose text against forgery `csrf_token` returns.
  record IsOwner (token expected : Text) : Type 0 where
    session : Session
    long : byte_len token ≡ 64
    healthy : st.admin.poisoned ≡ false
    live : expire now st.admin.state.session ≡ some session
    owned : tokens_match session.token_hash (o.crypto.sha256_hex token) ≡ true
    text : session.csrf ≡ expected

  csrf_token_at-IsOwner :
      (token expected : Text)
      → (csrf_token_at o.crypto token now st.admin).0 ≡ some expected
      → IsOwner token expected
  unfolding csrf_token_at
  csrf_token_at-IsOwner token expected h = elim (Option-cases (expire now st.admin.state.session)) [
    | inl e ↦ let bad = rw (e, csrf_token_at) at h in ground arith
    | inr (s, e) ↦
        let h' = rw (e, csrf_token_at) at h in
        record {
          session = s;
          long = ground arith;
          healthy = ground arith;
          live = e;
          owned = ground arith;
          text = ground arith;
        }
  ]

  -- The guards after the session's.
  guards_both :
      (expected : Text) (s : AppState o)
      → ((require_origin o rq >> lift (reject (not (tokens_match expected csrf)) forbidden)) s).0
        ≡ ok tt
      → (same_origin s.config.admin.origin rq ≡ true) × (tokens_match expected csrf ≡ true)
  unfolding require_origin
  guards_both expected s h = elim (Bool-cases (same_origin s.config.admin.origin rq)) [
    | inr e ↦ let bad = rw e at h in cc
    | inl e ↦ elim (Bool-cases (tokens_match expected csrf)) [
      | inr e' ↦ let bad = rw (e, e') at h in cc
      | inl e' ↦ (e, e')
    ]
  ]

  Passes-passes : Passes → (require_admin_mutation o rq now csrf st).0 ≡ ok tt
  unfolding require_admin_mutation csrf_token_at
  Passes-passes a =
      rw
        (
          a.carried, require_admin_mutation, csrf_token_at, a.long, a.healthy, a.live, a.owned,
          a.origin, a.unforged,
        )
        refl

  pub require_admin_mutation-Passes : ((require_admin_mutation o rq now csrf st).0 ≡ ok tt) ↔ Passes
  unfolding require_admin_mutation
  require_admin_mutation-Passes = (
    λ h. elim (Option-cases (rq.cookie session_cookie)) [
      | inl e ↦ let bad = rw (e, require_admin_mutation) at h in cc
      | inr (token, e) ↦ elim (Option-cases (csrf_token_at o.crypto token now st.admin).0) [
        | inl e' ↦ let bad = rw (e, require_admin_mutation, e') at h in cc
        | inr (expected, e') ↦
            let h' = rw (e, require_admin_mutation, e') at h in
            let w = csrf_token_at-IsOwner token expected e' in
            record {
              token = token;
              session = w.session;
              carried = e;
              long = w.long;
              healthy = w.healthy;
              live = w.live;
              owned = w.owned;
              origin = (guards_both expected _ h').0;
              unforged = ap (λ t. tokens_match t csrf) w.text ∙ (guards_both expected _ h').1;
            }
      ]
    ],
    Passes-passes,
  )

  Passes_iff : Passes ↔ IsAuthorized
  Passes_iff = (
    λ p.
        let live = (expire_iff now st.admin.state.session p.session).0 p.live in
        let owned =
          (tokens_match_iff p.session.token_hash (o.crypto.sha256_hex p.token)).0 p.owned in
        let unforged = (tokens_match_iff p.session.csrf csrf).0 p.unforged in
        record {
          token = p.token;
          session = p.session;
          carried = p.carried;
          healthy = p.healthy;
          opened = live.0;
          early = live.1;
          owned = owned.0;
          origin = (same_origin_iff st.config.admin.origin rq).0 p.origin;
          unforged = sym unforged.0;
          lengths = (p.long, owned.1, rw unforged.0 at unforged.1);
        },
    λ a. record {
      token = a.token;
      session = a.session;
      carried = a.carried;
      long = a.lengths.0;
      healthy = a.healthy;
      live = (expire_iff now st.admin.state.session a.session).1 (a.opened, a.early);
      owned =
          (tokens_match_iff a.session.token_hash (o.crypto.sha256_hex a.token)).1
            (a.owned, a.lengths.1);
      origin = (same_origin_iff st.config.admin.origin rq).1 a.origin;
      unforged =
          (tokens_match_iff a.session.csrf csrf).1 (sym a.unforged, rw a.unforged at a.lengths.2);
    },
  )

  -- Requests that change something are let through exactly if they carry a token of 64 bytes whose
  -- digest is that of the session, before the session ends; their header `origin` is the configured
  -- origin, which is not empty, and no other site is said to have made them; and their form has
  -- the session's text against forgery. The digest and this text have 64 bytes, and the mutex is
  -- not poisoned.
  pub require_admin_mutation_iff :
      ((require_admin_mutation o rq now csrf st).0 ≡ ok tt) ↔ IsAuthorized
  require_admin_mutation_iff = (
    λ h. Passes_iff.0 (require_admin_mutation-Passes.0 h),
    λ a. require_admin_mutation-Passes.1 (Passes_iff.1 a),
  )
