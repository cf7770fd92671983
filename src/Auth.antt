-- ===== src/Auth.antt =====
-- sentinel_home/auth.py: the dashboard's password, its sessions and the lockout after failed logins.
-- Times are whole microseconds. Where the source reads the clock several times in one call, each
-- reading is an argument of its own. Random tokens and salts are arguments too.
pub mod Password
pub mod Lockout
pub mod Burst
pub mod Sessions
mod Examples
use sentinel_home.Prelude.{
  ℕ, suc, ◌+◌, ◌-◌, ◌*◌, ◌^◌, String, Bool, true, false, not, ◌&&◌, Option, none, some, List, [],
  ◌∷◌, ltb, leb, ◌==◌, nat_eq, string_eq, if◌then◌else◌, truthy,
}
use sentinel_home.Prelude.Dict.{Dict, lookup, insert, erase}
use sentinel_home.Auth.Password.{hash_password, verify_password}

abbrev pub second : ℕ
second = 1000000

-- `_SESSION_TTL`, `_MAX_FAILURES`, `_LOCKOUT_SECONDS` and `_FAILURE_WINDOW`
abbrev pub session_ttl : ℕ
session_ttl = 86400 * 7 * second

abbrev pub max_failures : ℕ
max_failures = 5

abbrev pub lockout : ℕ
lockout = 60 * second

abbrev pub failure_window : ℕ
failure_window = 300 * second

-- the value of `_login_failures[ip]`
pub record Failures : Type 0 where
  pub count : ℕ
  pub locked_until : ℕ

-- The module's variables, `data["hash"]` of the table row that holds the password, and whether a
-- session can read that row; it is false while every session raises.
pub record Auth : Type 0 where
  pub sessions : Dict String ℕ
  pub failures : Dict String Failures
  pub stored : Option String
  pub available : Bool

-- What `verify_login` reads from the clock: twice in `is_login_locked`, once where it records a
-- failure or issues a session, and once where it prunes.
pub record Readings : Type 0 where
  pub checked : ℕ
  pub rechecked : ℕ
  pub acted : ℕ
  pub pruned : ℕ

pub is_login_locked : (checked rechecked : ℕ) → String → Auth → Bool × Auth
is_login_locked checked rechecked ip s = elim (lookup ip s.failures) [
  | none ↦ (false, s)
  | some f ↦
      if leb max_failures f.count && ltb checked f.locked_until
      then (true, s)
      else if leb f.locked_until rechecked
      then (false, record s { failures = erase ip s.failures })
      else (false, s)
]

-- the new count of `_record_login_failure`
next_count : ℕ → Option Failures → ℕ
next_count now none = 1
next_count now (some f) =
    (if ltb (f.locked_until + failure_window) now && ltb f.count max_failures then 0 else f.count)
    + 1

record_login_failure : ℕ → String → Auth → Auth
record_login_failure now ip s =
    let count : ℕ = next_count now (lookup ip s.failures) in
    record s {
      failures =
          insert ip
            (record { count = count; locked_until = now + lockout * 2 ^ (count - max_failures) })
            s.failures;
    }

clear_login_failures : String → Auth → Auth
clear_login_failures ip s = record s { failures = erase ip s.failures }

-- `for k in expired: del _sessions[k]`
pub prune_sessions : ℕ → Dict String ℕ → Dict String ℕ
prune_sessions now [] = []
prune_sessions now ((token, expiry) ∷ rest) =
    let kept = prune_sessions now rest in if ltb expiry now then kept else (token, expiry) ∷ kept

-- the part of `verify_login` below the verified password
issue_session : Readings → String → String → Auth → Auth
issue_session r token ip s =
    let cleared = clear_login_failures ip s in
    record cleared {
      sessions = prune_sessions r.pruned (insert token (r.acted + session_ttl) cleared.sessions);
    }

-- `_sessions.pop(token, None)` behind its test
pub invalidate_session : Option String → Auth → Auth
invalidate_session none s = s
invalidate_session (some token) s =
    if truthy token then record s { sessions = erase token s.sessions } else s

live_session : ℕ → String → Auth → Bool × Auth
live_session now token s = elim (lookup token s.sessions) [
  | none ↦ (false, s)
  | some expiry ↦
      if expiry == 0
      then (false, s)
      else if ltb expiry now
      then (false, record s { sessions = erase token s.sessions })
      else (true, s)
]

pub verify_session : ℕ → Option String → Auth → Bool × Auth
verify_session now none s = (false, s)
verify_session now (some token) s = if truthy token then live_session now token s else (false, s)

-- What the handler of `get_password_hash` swallows is no password.
abbrev pub get_password_hash : Auth → Option String
get_password_hash s = if s.available then s.stored else none

pub is_auth_enabled : Auth → Bool
is_auth_enabled s = elim (get_password_hash s) [ none ↦ false | some _ ↦ true ]

-- The request's cookie `sh_session` is the argument.
pub is_authenticated : ℕ → Option String → Auth → Bool × Auth
unfolding is_auth_enabled
is_authenticated now cookie s =
    if not (is_auth_enabled s) then (true, s) else verify_session now cookie s

-- `pbkdf2 password salt` is the hexadecimal digest of `hashlib.pbkdf2_hmac`.
module _ (pbkdf2 : String → String → String) where
  pub set_password : (salt new_password : String) → Auth → Auth
  set_password salt new_password s =
      if s.available then record s { stored = some (hash_password pbkdf2 salt new_password) } else s

  -- `verify_login` once the address is not locked
  check_password :
      Readings → (token password ip : String) → Option String → Auth → Option String × Auth
  check_password r token password ip none s = (none, s)
  check_password r token password ip (some stored) s =
      if not (truthy stored)
      then (none, s)
      else if not (verify_password pbkdf2 password stored)
      then (none, record_login_failure r.acted ip s)
      else (some token, issue_session r token ip s)

  pub verify_login : Readings → (token password ip : String) → Auth → Option String × Auth
  verify_login r token password ip s =
      let (locked, s') = is_login_locked r.checked r.rechecked ip s in
      if locked then (none, s') else check_password r token password ip (get_password_hash s') s'
