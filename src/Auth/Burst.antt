-- ===== src/Auth/Burst.antt =====
-- Five failed logins in a row lock an address (sentinel_home/auth.py).
use sentinel_home.Prelude.{
  ℕ, suc, ◌+◌, ◌-◌, ◌*◌, ◌^◌, ◌≤◌, ◌<◌, String, ◌≡◌, true, false, Option, none, some, List, [], ◌∷◌,
  arith, eq_iff, truthy, string_eq, length,
}
use sentinel_home.Prelude.Dict.{lookup, lookup-insert}
use sentinel_home.Auth.{
  Auth, get_password_hash, Failures, Readings, max_failures, lockout, failure_window,
  is_login_locked, next_count, record_login_failure, check_password, verify_login,
}
use sentinel_home.Auth.Password.{verify_password}

pub record Attempt : Type 0 where
  pub at : Readings
  pub token : String
  pub password : String

module _ (pbkdf2 : String → String → String) (ip : String) where
  pub try_all : List Attempt → Auth → Auth
  try_all [] s = s
  try_all (a ∷ rest) s = try_all rest (verify_login pbkdf2 a.at a.token a.password ip s).1

  module _ (stored : String) where
    -- a wrong password, tried before the entry of the last failure has run out
    abbrev pub Fails : ℕ → Attempt → Type 0
    Fails until a =
        (verify_password pbkdf2 a.password stored ≡ false)
        × (a.at.rechecked < until)
        × (a.at.acted ≤ until + failure_window)

    abbrev pub FailInTurn : ℕ → List Attempt → Type 0
    FailInTurn until [] = Unit
    FailInTurn until (a ∷ rest) = Fails until a × FailInTurn (a.at.acted + lockout) rest

  -- where the lockout of the last attempt ends
  abbrev pub locked_after : ℕ → List Attempt → ℕ
  locked_after until [] = until
  locked_after until (a ∷ rest) = locked_after (a.at.acted + lockout) rest

  -- The entry of the address and the stored hash, which is all that an attempt reads.
  pub record Shows (stored : String) (o : Option Failures) (s : Auth) : Type 0 where
    pub hash : get_password_hash s ≡ some stored
    pub entry : lookup ip s.failures ≡ o

  module _ (stored : String) (set : truthy stored ≡ true) where
    first_failure :
        (a : Attempt) (s : Auth)
        → verify_password pbkdf2 a.password stored ≡ false
        → Shows stored none s
        → Shows stored
            (some (record { count = 1; locked_until = a.at.acted + lockout }))
            (verify_login pbkdf2 a.at a.token a.password ip s).1
    unfolding verify_login is_login_locked check_password record_login_failure next_count
    first_failure a s wrong h = record {
      hash = ground (arith, h.hash, h.entry);
      entry = ground (
        arith,
        h.hash,
        h.entry,
        lookup-insert ip ip
            (record { count = 1; locked_until = a.at.acted + lockout * 2 ^ (1 - max_failures) })
            s.failures,
        eq_iff ip ip,
      );
    }

    next_failure :
        (a : Attempt) (s : Auth) (count until : ℕ)
        → count < max_failures
        → Fails stored until a
        → Shows stored (some (record { count = count; locked_until = until })) s
        → Shows stored
            (some (record { count = count + 1; locked_until = a.at.acted + lockout }))
            (verify_login pbkdf2 a.at a.token a.password ip s).1
    unfolding verify_login is_login_locked check_password record_login_failure next_count
    next_failure a s count until few fails h =
        let e : count + 1 - max_failures ≡ 0 = omega arith in
        record {
          hash = ground (arith, h.hash, h.entry, e);
          entry = ground (
            arith,
            h.hash,
            h.entry,
            e,
            lookup-insert ip ip
                (record {
                  count = count + 1;
                  locked_until = a.at.acted + lockout * 2 ^ (count + 1 - max_failures);
                })
                s.failures,
            eq_iff ip ip,
          );
        }

    more_failures :
        (rest : List Attempt) (s : Auth) (count until : ℕ)
        → count + length rest ≤ max_failures
        → FailInTurn stored until rest
        → Shows stored (some (record { count = count; locked_until = until })) s
        → Shows stored
            (some (record { count = count + length rest; locked_until = locked_after until rest }))
            (try_all rest s)
    unfolding try_all
    more_failures [] s count until few fails h = let e : count + 0 ≡ count = omega arith in rw e h
    more_failures (a ∷ rest) s count until few fails h =
        let e : count + suc (length rest) ≡ count + 1 + length rest = omega arith in
        rw e (
          more_failures rest (verify_login pbkdf2 a.at a.token a.password ip s).1 (count + 1)
            (a.at.acted + lockout) (omega arith) fails.1
            (next_failure a s count until (omega arith) fails.0 h))

    -- After five wrong passwords in a row, each tried before the entry of the one before it has run
    -- out, every login from the address is refused and changes nothing until 60 seconds after the
    -- last of them, with the right password too.
    pub five_failures_lock :
        (a : Attempt) (rest : List Attempt) (s : Auth) (r : Readings) (token password : String)
        → length rest ≡ 4
        → verify_password pbkdf2 a.password stored ≡ false
        → FailInTurn stored (a.at.acted + lockout) rest
        → Shows stored none s
        → r.checked < locked_after (a.at.acted + lockout) rest
        → verify_login pbkdf2 r token password ip (try_all (a ∷ rest) s)
          ≡ (none, try_all (a ∷ rest) s)
    unfolding verify_login is_login_locked try_all
    five_failures_lock a rest s r token password four wrong fails h early =
        let s' = (verify_login pbkdf2 a.at a.token a.password ip s).1 in
        let shown =
          more_failures rest s' 1 (a.at.acted + lockout) (omega arith) fails
            (first_failure a s wrong h) in
        ground (arith, shown.entry)
