-- ===== src/Auth/Examples.antt =====
-- The theorems about sentinel_home/auth.py at concrete inputs.
use Prim.Native.String.{◌++◌}
use sentinel_home.Prelude.{
  ℕ, ◌+◌, ◌*◌, ◌≡◌, refl, true, false, none, some, List, [], ◌∷◌, String, arith, leb, string_eq,
}
use sentinel_home.Prelude.Dict.{lookup, insert, erase}
use sentinel_home.Auth.{
  Auth, Readings, second, session_ttl, is_login_locked, record_login_failure, next_count,
  prune_sessions, issue_session, clear_login_failures, check_password, verify_login, verify_session,
}
use sentinel_home.Auth.Password.{hash_password, verify_password}
use sentinel_home.Auth.Lockout.{Request, login, IsShort, serve, serve-IsShort}
use sentinel_home.Auth.Burst.{Attempt, try_all, five_failures_lock}
use sentinel_home.Auth.Sessions.{session_lifetime}

abbrev digest : String → String → String
digest password salt = salt ++ password

abbrev hash : String
hash = "ab$abright"

abbrev fresh : Auth
fresh = record { sessions = []; failures = []; stored = some hash; available = true }

abbrev at : ℕ → Readings
at n = record { checked = n; rechecked = n; acted = n; pruned = n }

abbrev wrong_at : ℕ → Attempt
wrong_at n = record { at = at n; token = "t"; password = "wrong" }

program : Unit {0}
unfolding lookup insert erase verify_password hash_password is_login_locked record_login_failure
    next_count prune_sessions issue_session clear_login_failures check_password verify_login
program = tt

login_wrong : verify_password digest "wrong" hash ≡ false
unfolding program
login_wrong = refl

login_right : (verify_login digest (at 5) "t" "right" "10.0.0.9" fresh).0 ≡ some "t"
unfolding program
login_right = refl

abbrev requests : List Request
requests =
    login (at (1 * second)) "t" "wrong" "10.0.0.9"
    ∷ login (at (2 * second)) "t" "right" "10.0.0.9"
    ∷ []

serve-IsShort_example : IsShort (2 * second) (serve digest requests fresh)
unfolding program
serve-IsShort_example =
    serve-IsShort (2 * second) digest requests fresh (omega arith)
      (record { at_ip = λ ip f e. absurd (ground arith) })

abbrev four_more : List Attempt
four_more =
    wrong_at (2 * second)
    ∷ wrong_at (3 * second)
    ∷ wrong_at (4 * second)
    ∷ wrong_at (5 * second)
    ∷ []

five_failures_lock_example :
    verify_login digest
      (at (64 * second))
      "t"
      "right"
      "10.0.0.9"
      (try_all digest "10.0.0.9" (wrong_at (1 * second) ∷ four_more) fresh)
    ≡ (none, try_all digest "10.0.0.9" (wrong_at (1 * second) ∷ four_more) fresh)
unfolding lookup
five_failures_lock_example =
    five_failures_lock digest "10.0.0.9" hash refl (wrong_at (1 * second)) four_more fresh
      (at (64 * second)) "t" "right" refl login_wrong
      (
        (login_wrong, omega arith, omega arith),
        (
          (login_wrong, omega arith, omega arith),
          ((login_wrong, omega arith, omega arith), ((login_wrong, omega arith, omega arith), tt)),
        ),
      )
      (record { hash = refl; entry = refl }) (omega arith)

session_lifetime_example :
    (verify_session 9 (some "t") (verify_login digest (at 5) "t" "right" "10.0.0.9" fresh).1).0
    ≡ leb 9 (5 + session_ttl)
session_lifetime_example =
    session_lifetime digest (at 5) "t" "right" "10.0.0.9" fresh 9 (omega arith) refl login_right

abbrev visited : Auth
visited = record { sessions = ("u", 50) ∷ []; failures = []; stored = some hash; available = true }

login_visited : (verify_login digest (at 5) "t" "right" "10.0.0.9" visited).0 ≡ some "t"
unfolding program
login_visited = refl
