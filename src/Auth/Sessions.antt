-- ===== src/Auth/Sessions.antt =====
-- The life of a session of sentinel_home/auth.py: login, use, logout and expiry.
use sentinel_home.Prelude.{
  ℕ, ◌+◌, ◌≤◌, String, ◌≡◌, ◌≢◌, true, false, Option, none, some, [], ◌∷◌, arith, eq_iff, truthy,
  string_eq, ◌==◌, leb, if◌then◌else◌, Option-cases, inl, inr, ==_refl, ◌↔◌, ◌⊎◌, ◌<◌,
}
use sentinel_home.Prelude.Dict.{Dict, lookup, insert, lookup-insert, lookup-erase}
use sentinel_home.Auth.{
  Auth, get_password_hash, Readings, session_ttl, is_login_locked, prune_sessions,
  clear_login_failures, issue_session, check_password, verify_login, invalidate_session,
  verify_session, live_session, is_authenticated, is_auth_enabled,
}

lookup-prune_sessions :
    (now : ℕ) (k : String) (v : ℕ) (d : Dict String ℕ)
    → lookup k d ≡ some v
    → now ≤ v
    → lookup k (prune_sessions now d) ≡ some v
unfolding lookup prune_sessions
lookup-prune_sessions now k v [] h le = cc
lookup-prune_sessions now k v ((j, w) ∷ d) h le = ground (arith, lookup-prune_sessions now k v d)

-- What a visit answers depends only on the entry of its token.
verify_session_lem :
    (now : ℕ) (k : String) (s t : Auth)
    → lookup k s.sessions ≡ lookup k t.sessions
    → (verify_session now (some k) s).0 ≡ (verify_session now (some k) t).0
unfolding verify_session live_session
verify_session_lem now k s t e = ground arith

-- A logout ends exactly the session of its token: no later visit with that token is let in, and a
-- visit with another token is answered as without the logout.
verify_session-invalidate_session :
    (now : ℕ) (k j : String) (s : Auth)
    → (verify_session now (some j) (invalidate_session (some k) s)).0
      ≡ (if k == j then false else (verify_session now (some j) s).0)
unfolding verify_session live_session invalidate_session
verify_session-invalidate_session now k j s =
    ground (arith, eq_iff k j, lookup-erase k j s.sessions)

module _ (pbkdf2 : String → String → String) where
  -- A successful login has issued a session for its own token.
  verify_login-eq-some :
      (r : Readings) (token password ip : String) (s : Auth) {t : String}
      → (verify_login pbkdf2 r token password ip s).0 ≡ some t
      → (t ≡ token)
        × ((verify_login pbkdf2 r token password ip s).1.sessions
            ≡ prune_sessions r.pruned (insert token (r.acted + session_ttl) s.sessions))
  unfolding verify_login is_login_locked check_password issue_session clear_login_failures
  verify_login-eq-some r token password ip s h = ground arith

  -- A session is good from its login up to seven days later, and no longer.
  pub session_lifetime :
      (r : Readings) (token password ip : String) (s : Auth) (now : ℕ)
      → r.pruned ≤ r.acted + session_ttl
      → truthy token ≡ true
      → (verify_login pbkdf2 r token password ip s).0 ≡ some token
      → (verify_session now (some token) (verify_login pbkdf2 r token password ip s).1).0
        ≡ leb now (r.acted + session_ttl)
  unfolding verify_session live_session
  session_lifetime r token password ip s now le set h =
      let expiry = r.acted + session_ttl in
      let found =
        lookup-prune_sessions r.pruned token expiry (insert token expiry s.sessions)
          (rw lookup-insert (rw ==_refl)) le in
      ground (arith, verify_login-eq-some r token password ip s h, found)

  -- A successful login leaves every other session that has not run out as it was.
  other_sessions_kept :
      (r : Readings) (token password ip : String) (s : Auth) (other : String) (expiry now : ℕ)
      → (verify_login pbkdf2 r token password ip s).0 ≡ some token
      → token ≢ other
      → lookup other s.sessions ≡ some expiry
      → r.pruned ≤ expiry
      → (verify_session now (some other) (verify_login pbkdf2 r token password ip s).1).0
        ≡ (verify_session now (some other) s).0
  other_sessions_kept r token password ip s other expiry now h ne here le =
      let fresh = r.acted + session_ttl in
      let found =
        lookup-prune_sessions r.pruned other expiry (insert token fresh s.sessions)
          (ground (arith, lookup-insert token other fresh s.sessions, eq_iff token other)) le in
      verify_session_lem now other (verify_login pbkdf2 r token password ip s).1 s
        (ground (arith, verify_login-eq-some r token password ip s h, found))

-- With no password set, or none that a session can read, every request is let in; with one, exactly those whose cookie names a session
-- that has not run out.
pub is_authenticated_iff :
    (now : ℕ) (cookie : Option String) (s : Auth)
    → ((is_authenticated now cookie s).0 ≡ true) ↔ (
        (get_password_hash s ≡ none)
        ⊎ ((token : String) × (expiry : ℕ) × (cookie ≡ some token)
            × (truthy token ≡ true)
            × (lookup token s.sessions ≡ some expiry)
            × (0 < expiry)
            × (now ≤ expiry)))
unfolding is_authenticated is_auth_enabled verify_session live_session
is_authenticated_iff now cookie s = (
  λ h. elim (Option-cases (get_password_hash s)) [
    | inl open_access ↦ inl open_access
    | inr (hash, set) ↦ elim (Option-cases cookie) [
      | inl absent ↦ absurd (ground arith)
      | inr (token, sent) ↦ elim (Option-cases (lookup token s.sessions)) [
        | inl unknown ↦ absurd (ground arith)
        | inr (expiry, known) ↦
            inr (token, expiry, sent, ground arith, known, ground arith, ground arith)
      ]
    ]
  ],
  λ h. ground arith,
)
