-- ===== src/Agent/Reading.antt =====
-- sentinel_home/agent/validator.py: how a choice and its reasons are read from a model's answer. Word
-- and digit characters are those of ASCII.
pub mod Choices
use Prim.Native.Char.{Char, code}
use Prim.Native.String.{[], ◌∷◌, ◌++◌ as str_append}
use sentinel_home.Prelude.{
  ℕ, suc, String, [], ◌∷◌, Bool, true, false, not, ◌&&◌, ◌||◌, Option, none, some, List, arith, any,
  all, is_nil, first, select, contains, upper, has_prefix, prefix_of, truthy, is_space, strip_left,
  strip_right, strip, ltb, leb, ◌==◌, nat_eq, string_eq, if◌then◌else◌,
}

-- `[\s\-—:,.]`
abbrev pub is_separator : Char → Bool
is_separator c =
    is_space c
    || (code c == b'-'
        || (code c == 8212 || (code c == b':' || (code c == b',' || code c == b'.'))))

abbrev is_digit : Char → Bool
is_digit c = leb b'0' (code c) && leb (code c) b'9'

-- `\w`
unfoldable pub is_word : Char → Bool
is_word c =
    is_digit c
    || ((leb b'A' (code c) && leb (code c) b'Z')
        || ((leb b'a' (code c) && leb (code c) b'z') || code c == b'_'))

-- `re.split(r'[\s\-—:,.]', s, maxsplit=1)[0]`
unfoldable pub first_token : String → String
first_token [] = []
first_token (c ∷ s) = let rest = first_token s in if is_separator c then [] else c ∷ rest

-- `s.split("\n")`: the first line, and the others
unfoldable pub lines : String → String × List String
lines [] = ([], [])
lines (c ∷ s) =
    let (line, rest) = lines s in if code c == 10 then ([], line ∷ rest) else (c ∷ line, rest)

abbrev differ : Bool → Bool → Bool
differ true b = not b
differ false b = b

abbrev starts_word : String → Bool
starts_word [] = false
starts_word (c ∷ s) = is_word c

-- what follows a prefix as long as `p`, and whether the prefix ends within a word
abbrev pub after : String → String → String
after [] s = s
after (d ∷ p) [] = []
after (d ∷ p) (c ∷ s) = after p s

abbrev ends_word : Bool → String → Bool
ends_word before [] = before
ends_word before (c ∷ p) = ends_word (is_word c) p

-- the position of `\bchoice\b`; `before` says whether a word character stands before `text`
unfoldable pub find_word : String → Bool → String → Option ℕ
find_word choice before [] =
    if has_prefix [] choice && before && ends_word before choice then some 0 else none
find_word choice before (c ∷ s) =
    let later = find_word choice (is_word c) s in
    if has_prefix (c ∷ s) choice
      && (differ before (is_word c)
          && differ (ends_word before choice) (starts_word (after choice (c ∷ s))))
    then some 0
    else elim later [ none ↦ none | some n ↦ some (suc n) ]

-- one round of the loop over the choices: an earlier match is better
abbrev pub better : String → Option (ℕ × String) → String → Option (ℕ × String)
better text_upper best choice = elim (find_word (upper choice) false text_upper) [
  | none ↦ best
  | some n ↦ elim best [
    | none ↦ some (n, choice)
    | some (m, old) ↦ if ltb n m then some (n, choice) else some (m, old)
  ]
]

unfoldable pub earliest : String → Option (ℕ × String) → List String → Option (ℕ × String)
earliest text_upper best [] = best
earliest text_upper best (choice ∷ choices) =
    earliest text_upper (better text_upper best choice) choices

-- the maximal runs of word characters; `run` is the one that is being read
unfoldable pub words : String → String → List String
words run [] = if truthy run then run ∷ [] else []
words run (c ∷ s) = elim (is_word c) [
  | true ↦ words (str_append run (c ∷ [])) s
  | false ↦ let rest = words [] s in if truthy run then run ∷ rest else rest
]

abbrev all_digits : String → Bool
all_digits [] = true
all_digits (c ∷ s) = is_digit c && all_digits s

-- `s.isdigit()`
abbrev pub is_number : String → Bool
is_number s = truthy s && all_digits s

-- the strategies in order
abbrev pub or_else : Option String → Option String → Option String
or_else none o = o
or_else (some c) o = some c

abbrev pub by_token : String → List String → Option String
by_token token choices = first (λ c. upper c == upper token) choices

abbrev pub by_prefix : String → List String → Option String
by_prefix text choices = first (λ c. has_prefix (upper text) (upper c)) choices

unfoldable pub by_line : List String → List String → Option String
by_line [] choices = none
by_line (line ∷ rest) choices =
    or_else (by_token (first_token (strip line)) choices) (by_line rest choices)

unfoldable pub by_word : String → List String → Option String
by_word text choices = elim (earliest (upper text) none choices) [
  | none ↦ none
  | some (n, c) ↦ if truthy c then some c else none
]

unfoldable pub by_number : String → List String → Option String
by_number text choices =
    if all is_number choices
    then first (λ d. contains d choices) (select is_number (words [] text))
    else none

unfoldable pub extract_choice : String → List String → Option String
extract_choice text valid_choices =
    let stripped = strip text in
    let (line, rest) = lines stripped in
    if not (truthy text) || is_nil valid_choices
    then none
    else or_else (by_token (first_token stripped) valid_choices) (
        or_else (by_prefix stripped valid_choices) (
          or_else (by_line (line ∷ rest) valid_choices)
            (or_else (by_word stripped valid_choices) (by_number stripped valid_choices))))
