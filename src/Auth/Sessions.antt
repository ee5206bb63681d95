-- ===== src/Auth/Sessions.antt =====
-- Who is signed in: the session as a look-up of its CSRF token sees it.
use rust_invite_system.Common.{
  ℕ, ◌+◌, ◌≡◌, false, ◌&&◌, none, some, arith, Text, text_eq, byte_len, ltb, ◌==◌, if◌then◌else◌,
}
use rust_invite_system.Auth.{
  AdminAuth, Session, session_length, issue_session, csrf_token_at, logout,
}
use rust_invite_system.Auth.Primitives.{Crypto, HasDigests}

module _ (c : Crypto) (digests : HasDigests c) where
  -- After `issue_session` a token is answered with the session's CSRF token exactly if it has 64
  -- bytes, its digest is that of the issued token, and less than eight hours have passed; any other
  -- token, and any token from then on, gets no answer. So a new session ends the old one.
  pub csrf_token_at-issue_session :
      (a : AdminAuth) (now later : ℕ) (token csrf other : Text)
      → a.poisoned ≡ false
      → (csrf_token_at c other later (issue_session c now token csrf a).1).0 ≡ (
          if byte_len other == 64
            && text_eq (c.sha256_hex token) (c.sha256_hex other)
            && ltb later (now + session_length)
          then some csrf
          else none)
  unfolding csrf_token_at issue_session
  csrf_token_at-issue_session a now later token csrf other p =
      ground (arith, digests.digest_length token, digests.digest_length other)

  -- After a logout with the token of the session nobody is signed in. A logout with any other
  -- token changes nothing.
  pub csrf_token_at-logout :
      (a : AdminAuth) (s : Session) (now : ℕ) (token other : Text)
      → a.poisoned ≡ false
      → a.state.session ≡ some s
      → byte_len s.token_hash ≡ 64
      → (csrf_token_at c other now (logout c token a).1).0 ≡ (
          if text_eq s.token_hash (c.sha256_hex token)
          then none
          else (csrf_token_at c other now a).0)
  unfolding csrf_token_at logout
  csrf_token_at-logout a s now token other p e h =
      ground (arith, digests.digest_length token, digests.digest_length other)
