-- ===== src/Auth/Lockout.antt =====
-- The lockout of sentinel_home/auth.py over any sequence of requests.
use sentinel_home.Prelude.{
  ℕ, suc, ◌+◌, ◌-◌, ◌*◌, ◌^◌, ◌≤◌, String, ◌≡◌, refl, sym, ◌∙◌, ◌⊎◌, inl, inr, false, Option, none,
  some, List, [], ◌∷◌, arith, eq_iff, Bool-cases, if_cases, truthy, string_eq,
}
use sentinel_home.Prelude.Dict.{lookup, lookup-insert, lookup-erase}
use sentinel_home.Auth.{
  Auth, get_password_hash, Failures, Readings, max_failures, lockout, is_login_locked, next_count,
  record_login_failure, clear_login_failures, issue_session, check_password, verify_login,
  set_password, invalidate_session, verify_session, live_session,
}
use sentinel_home.Auth.Password.{verify_password}

-- What reaches the module from the dashboard's routes.
pub data Request : Type 0 where
  login : Readings → (token password ip : String) → Request
  probe : (checked rechecked : ℕ) → (ip : String) → Request
  logout : Option String → Request
  visit : ℕ → Option String → Request
  change_password : (salt new_password : String) → Request

module _ (pbkdf2 : String → String → String) where
  pub handle : Request → Auth → Auth
  handle (login r token password ip) s = (verify_login pbkdf2 r token password ip s).1
  handle (probe checked rechecked ip) s = (is_login_locked checked rechecked ip s).1
  handle (logout token) s = invalidate_session token s
  handle (visit now token) s = (verify_session now token s).1
  handle (change_password salt new_password) s = set_password pbkdf2 salt new_password s

  pub serve : List Request → Auth → Auth
  unfolding handle
  serve [] s = s
  serve (q ∷ qs) s = serve qs (handle q s)

-- The clock does not run backwards within a request, nor past `end`.
abbrev pub InOrder : ℕ → Request → Type 0
InOrder end (login r token password ip) = (r.checked ≤ r.rechecked) × (r.acted ≤ end)
InOrder end _ = Unit

abbrev pub AllInOrder : ℕ → List Request → Type 0
AllInOrder end [] = Unit
AllInOrder end (q ∷ qs) = InOrder end q × AllInOrder end qs

-- Every entry has at most five failures and ends at most one lockout after `end`.
pub record IsShort (end : ℕ) (s : Auth) : Type 0 where
  pub at_ip :
      (ip : String) (f : Failures)
      → lookup ip s.failures ≡ some f
      → (f.count ≤ max_failures) × (f.locked_until ≤ end + lockout)

-- The check drops at most the entry of its own address.
pub lookup-is_login_locked :
    (checked rechecked : ℕ) (ip j : String) (s : Auth)
    → (lookup j (is_login_locked checked rechecked ip s).1.failures ≡ none)
      ⊎ (lookup j (is_login_locked checked rechecked ip s).1.failures ≡ lookup j s.failures)
unfolding is_login_locked
lookup-is_login_locked checked rechecked ip j s = ground (arith, lookup-erase ip j s.failures)

-- An address that is let through has fewer than five recorded failures.
pub unlocked_lt :
    (checked rechecked : ℕ) (ip : String) (s : Auth) (f : Failures)
    → checked ≤ rechecked
    → (is_login_locked checked rechecked ip s).0 ≡ false
    → lookup ip (is_login_locked checked rechecked ip s).1.failures ≡ some f
    → suc f.count ≤ max_failures
unfolding is_login_locked
unlocked_lt checked rechecked ip s f le free e =
    ground (arith, lookup-erase ip ip s.failures, eq_iff ip ip)

next_count-le :
    (now : ℕ) (o : Option Failures)
    → ((f : Failures) → o ≡ some f → suc f.count ≤ max_failures)
    → next_count now o ≤ max_failures
unfolding next_count
next_count-le now none h = omega arith
next_count-le now (some f) h = ground (arith, h f refl)

-- No lockout is ever longer than the first one.
backoff_once : (count : ℕ) → count ≤ max_failures → lockout * 2 ^ (count - max_failures) ≡ lockout
backoff_once count h = let e : count - max_failures ≡ 0 = omega arith in rw e

module _ (end : ℕ) where
  is_login_locked-IsShort :
      (checked rechecked : ℕ) (ip : String) (s : Auth)
      → IsShort end s
      → IsShort end (is_login_locked checked rechecked ip s).1
  is_login_locked-IsShort checked rechecked ip s h = record {
    at_ip = λ j f e. elim (lookup-is_login_locked checked rechecked ip j s) [
      | inl gone ↦ cc
      | inr same ↦ h.at_ip j f (sym same ∙ e)
    ];
  }

  record_login_failure-IsShort :
      (now : ℕ) (ip : String) (s : Auth)
      → now ≤ end
      → ((f : Failures) → lookup ip s.failures ≡ some f → suc f.count ≤ max_failures)
      → IsShort end s
      → IsShort end (record_login_failure now ip s)
  unfolding record_login_failure
  record_login_failure-IsShort now ip s le fresh h = record {
    at_ip = λ j f e.
        let bound = next_count-le now (lookup ip s.failures) fresh in
        ground (
          arith,
          bound,
          backoff_once (next_count now (lookup ip s.failures)) bound,
          lookup-insert ip j
              (record {
                count = next_count now (lookup ip s.failures);
                locked_until =
                    now + lockout * 2 ^ (next_count now (lookup ip s.failures) - max_failures);
              })
              s.failures,
          h.at_ip j f,
        );
  }

  issue_session-IsShort :
      (r : Readings) (token ip : String) (s : Auth)
      → IsShort end s
      → IsShort end (issue_session r token ip s)
  unfolding issue_session clear_login_failures
  issue_session-IsShort r token ip s h = record {
    at_ip = λ j f e. h.at_ip j f (ground (arith, lookup-erase ip j s.failures, e));
  }

  live_session-IsShort :
      (now : ℕ) (token : String) (s : Auth)
      → IsShort end s
      → IsShort end (live_session now token s).1
  unfolding live_session
  live_session-IsShort now token s h = record { at_ip = λ j f e. h.at_ip j f (ground (arith, e)) }

  module _ (pbkdf2 : String → String → String) where
    check_password-IsShort :
        (r : Readings) (token password ip : String) (o : Option String) (s : Auth)
        → r.acted ≤ end
        → ((f : Failures) → lookup ip s.failures ≡ some f → suc f.count ≤ max_failures)
        → IsShort end s
        → IsShort end (check_password pbkdf2 r token password ip o s).1
    unfolding check_password
    check_password-IsShort r token password ip none s le fresh h = h
    check_password-IsShort r token password ip (some stored) s le fresh h =
        elim (Bool-cases (truthy stored)) [
          | inr empty ↦ rw empty h
          | inl full ↦ rw full (elim (Bool-cases (verify_password pbkdf2 password stored)) [
            | inr wrong ↦ rw wrong (record_login_failure-IsShort r.acted ip s le fresh h)
            | inl right ↦ rw right (issue_session-IsShort r token ip s h)
          ])
        ]

    verify_login-IsShort :
        (r : Readings) (token password ip : String) (s : Auth)
        → r.checked ≤ r.rechecked
        → r.acted ≤ end
        → IsShort end s
        → IsShort end (verify_login pbkdf2 r token password ip s).1
    unfolding verify_login
    verify_login-IsShort r token password ip s le le' h =
        let s' = (is_login_locked r.checked r.rechecked ip s).1 in
        let kept = is_login_locked-IsShort r.checked r.rechecked ip s h in
        elim (Bool-cases (is_login_locked r.checked r.rechecked ip s).0) [
          | inl locked ↦ rw locked kept
          | inr free ↦ rw free (
              check_password-IsShort r token password ip (get_password_hash s') s' le'
                (λ f e. unlocked_lt r.checked r.rechecked ip s f le free e) kept)
        ]

    handle-IsShort :
        (q : Request) (s : Auth) → InOrder end q → IsShort end s → IsShort end (handle pbkdf2 q s)
    unfolding handle verify_session invalidate_session set_password
    handle-IsShort (login r token password ip) s le h =
        verify_login-IsShort r token password ip s le.0 le.1 h
    handle-IsShort (probe checked rechecked ip) s le h =
        is_login_locked-IsShort checked rechecked ip s h
    handle-IsShort (logout none) s le h = h
    handle-IsShort (logout (some token)) s le h = record {
      at_ip = λ j f e. h.at_ip j f (ground (arith, e));
    }
    handle-IsShort (visit now none) s le h = h
    handle-IsShort (visit now (some token)) s le h = elim (Bool-cases (truthy token)) [
      | inl full ↦ rw (full, handle, verify_session) (live_session-IsShort now token s h)
      | inr empty ↦ rw (empty, handle, verify_session) h
    ]
    handle-IsShort (change_password salt new_password) s le h =
        if_cases (IsShort end) s.available _ s (λ up. record { at_ip = h.at_ip }) (λ down. h)

    -- Whatever the requests, no address ever has more than five recorded failures, and no lockout
    -- ends later than 60 seconds after the last clock reading.
    pub serve-IsShort :
        (qs : List Request) (s : Auth)
        → AllInOrder end qs
        → IsShort end s
        → IsShort end (serve pbkdf2 qs s)
    unfolding serve
    serve-IsShort [] s le h = h
    serve-IsShort (q ∷ qs) s le h =
        serve-IsShort qs (handle pbkdf2 q s) le.1 (handle-IsShort q s le.0 h)
