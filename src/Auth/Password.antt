-- ===== src/Auth/Password.antt =====
-- `_hash_password` and `_verify_password` of sentinel_home/auth.py: a salted digest, printed as
-- `salt$digest` and split again at the first `$`.
use Prim.Native.Char.{code}
use Prim.Native.String.{[], ◌∷◌, ◌++◌}
use Prim.Native.String.append
use sentinel_home.Prelude.{
  String, ◌≡◌, Bool, true, false, Option, none, some, arith, ◌==◌, nat_eq, string_eq, ==_refl,
  if◌then◌else◌,
}

-- `s.split("$", 1)`, where the text holds a `$`
split_dollar : String → Option (String × String)
split_dollar [] = none
split_dollar (c ∷ s) =
    if code c == b'$'
    then some ([], s)
    else elim (split_dollar s) [ none ↦ none | some (a, b) ↦ some (c ∷ a, b) ]

-- no character of a salt is the separator: `secrets.token_hex` gives hexadecimal digits
abbrev pub IsPlain : String → Type 0
IsPlain [] = Unit
IsPlain (c ∷ s) = ((code c == b'$') ≡ false) × IsPlain s

module _ (pbkdf2 : String → String → String) where
  unfoldable pub hash_password : (salt password : String) → String
  hash_password salt password = salt ++ "$" ++ pbkdf2 password salt

  -- A stored text with no `$` makes the unpacking raise, and the handler returns False.
  unfoldable pub verify_password : (password stored : String) → Bool
  unfolding split_dollar
  verify_password password stored = elim (split_dollar stored) [
    | none ↦ false
    | some (salt, digest) ↦ pbkdf2 password salt == digest
  ]

split_dollar_at :
    (salt digest : String)
    → IsPlain salt
    → split_dollar (salt ++ "$" ++ digest) ≡ some (salt, digest)
unfolding split_dollar
split_dollar_at [] digest h = rw append.nil (rw append.cons (rw append.nil))
split_dollar_at (c ∷ s) digest h = rw append.cons (ground (arith, split_dollar_at s digest h.1))

-- A password verifies against its own stored hash, if the salt holds no `$`.
verify_password-hash_password :
    (pbkdf2 : String → String → String) (salt password : String)
    → IsPlain salt
    → verify_password pbkdf2 password (hash_password pbkdf2 salt password) ≡ true
unfolding verify_password hash_password
verify_password-hash_password pbkdf2 salt password h =
    rw (split_dollar_at salt (pbkdf2 password salt) h, verify_password)
      (==_refl (pbkdf2 password salt))
