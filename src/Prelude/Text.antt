-- ===== src/Prelude/Text.antt =====
-- What the program uses of `str`: letter case (of ASCII), prefixes, containment and splitting.
use Prim.Native.Nat.{ℕ, zero, suc, ◌-◌, ◌/◌, ◌%◌}
use Prim.Native.Char.{Char, code}
use Prim.Native.String.{String, [], ◌∷◌, ◌++◌, char_at}
use mathlib.Core.Bool.{Bool, true, false, not, ◌&&◌, ◌||◌}
use mathlib.Core.List.{List, [], ◌∷◌}
use sentinel_home.Prelude.Lists.{any}
use sentinel_home.Prelude.Tests.{◌==◌, nat_eq, string_eq, if◌then◌else◌, leb}

lower_char : Char → Char
lower_char c =
    if leb b'A' (code c) && leb (code c) b'Z'
    then char_at "abcdefghijklmnopqrstuvwxyz" (code c - b'A')
    else c

upper_char : Char → Char
upper_char c =
    if leb b'a' (code c) && leb (code c) b'z'
    then char_at "ABCDEFGHIJKLMNOPQRSTUVWXYZ" (code c - b'a')
    else c

-- `s.lower()`
unfoldable pub lower : String → String
unfolding lower_char
lower [] = []
lower (c ∷ s) = lower_char c ∷ lower s

-- `s.upper()`
unfoldable pub upper : String → String
unfolding upper_char
upper [] = []
upper (c ∷ s) = upper_char c ∷ upper s

-- `s + t`, in a form that computes on the constructors of `s`
abbrev pub joined : String → String → String
joined [] t = t
joined (c ∷ s) t = c ∷ joined s t

-- `s.startswith(t)`
unfoldable pub has_prefix : String → String → Bool
has_prefix s [] = true
has_prefix [] (d ∷ t) = false
has_prefix (c ∷ s) (d ∷ t) = (code c == code d) && has_prefix s t

-- `t in s`
unfoldable pub has_substring : String → String → Bool
unfolding has_prefix
has_substring [] t = has_prefix [] t
has_substring (c ∷ s) t = has_prefix (c ∷ s) t || has_substring s t

-- `s[:n]`
unfoldable pub prefix_of : ℕ → String → String
prefix_of zero s = []
prefix_of (suc n) [] = []
prefix_of (suc n) (c ∷ s) = c ∷ prefix_of n s

-- `bool(s)`
abbrev pub truthy : String → Bool
truthy s = not (s == "")

-- `str(n)`, with fuel for as many digits as `n` can have
decimal_digits : ℕ → ℕ → String
decimal_digits zero n = []
decimal_digits (suc fuel) n =
    let last : String = char_at "0123456789" (n % 10) ∷ [] in
    let before = decimal_digits fuel (n / 10) in if n / 10 == 0 then last else before ++ last

unfoldable pub decimal : ℕ → String
unfolding decimal_digits
decimal n = decimal_digits (suc n) n

-- the ranges of `\s` and `str.isspace`
abbrev spaces : List (ℕ × ℕ)
spaces =
    (9, 13)
    ∷ (28, 32)
    ∷ (133, 133)
    ∷ (160, 160)
    ∷ (5760, 5760)
    ∷ (8192, 8202)
    ∷ (8232, 8233)
    ∷ (8239, 8239)
    ∷ (8287, 8287)
    ∷ (12288, 12288)
    ∷ []

unfoldable pub is_space : Char → Bool
is_space c = any (λ (r : ℕ × ℕ). leb r.0 (code c) && leb (code c) r.1) spaces

-- `s.lstrip()`
unfoldable pub strip_left : (Char → Bool) → String → String
strip_left p [] = []
strip_left p (c ∷ s) = let rest = strip_left p s in if p c then rest else c ∷ s

-- `s.rstrip()`
unfoldable pub strip_right : (Char → Bool) → String → String
strip_right p [] = []
strip_right p (c ∷ s) =
    let rest = strip_right p s in if p c && not (truthy rest) then [] else c ∷ rest

abbrev pub strip : String → String
strip s = strip_right is_space (strip_left is_space s)
