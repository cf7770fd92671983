-- ===== src/Parsers/Iptables/Lines.antt =====
-- Lines as a firewall writes them, read by sentinel_home/parsers/iptables.py.
use Prim.Native.Char.{Char, code}
use Prim.Native.String.{[], ◌∷◌}
use sentinel_home.Prelude.{
  joined, String, ◌≡◌, refl, sym, ◌∙◌, ap, true, false, not, none, some, List, [], ◌∷◌, arith, All,
  truthy, has_prefix, is_space, strip_left, ◌==◌, nat_eq, string_eq,
}
use sentinel_home.Agent.Reading.{is_word}
use sentinel_home.Agent.Reading.Choices.{all_chars}
use sentinel_home.Parsers.Iptables.{
  cut_at, starts_blank, to_line_end, match_body, match_at, search_rule, find_fields, dict_of,
  classify, try_parse,
}

-- the pairs as the kernel prints them, each with a blank behind it
abbrev pub pairs_text : List (String × String) → String
pairs_text [] = []
pairs_text ((k, v) ∷ pairs) = joined k (joined "=" (joined v (joined " " (pairs_text pairs))))

-- `[chain] KEY=value KEY=value `
abbrev pub line_text : String → List (String × String) → String
line_text chain pairs = joined "[" (joined chain (joined "] " (pairs_text pairs)))

-- a key of word characters and a value without blanks, neither empty
abbrev pub IsPair : String × String → Type 0
IsPair (k, v) =
    (truthy k ≡ true)
    × (all_chars is_word k ≡ true)
    × (truthy v ≡ true)
    × (all_chars (λ c. not (is_space c)) v ≡ true)

-- a chain's name: not empty, and without the bracket that closes it
abbrev pub IsChain : String → Type 0
IsChain chain = (truthy chain ≡ true) × (all_chars (λ c. not (code c == b']')) chain ≡ true)

-- one line that starts neither with a blank nor with a description
abbrev pub IsPlain : String → Type 0
IsPlain s = (starts_blank s ≡ false) × (has_prefix s "DESCR=\"" ≡ false) × (to_line_end s ≡ s)

append_char : (w : String) (c : Char) (s : String) → joined (joined w (c ∷ [])) s ≡ joined w (c ∷ s)
append_char [] c s = refl
append_char (d ∷ w) c s = ap (λ (t : String). d ∷ t) (append_char w c s)

append_none : (w : String) → joined w [] ≡ w
append_none [] = refl
append_none (c ∷ w) = ap (λ (t : String). c ∷ t) (append_none w)

find_fields-key :
    (w k t : String)
    → all_chars is_word k ≡ true
    → find_fields none w (joined k t) ≡ find_fields none (joined w k) t
unfolding find_fields
find_fields-key w [] t h = ap (λ u. find_fields none u t) (sym (append_none w))
find_fields-key w (c ∷ k) t h =
    let word : is_word c ≡ true = ground (arith, h) in
    let step : find_fields none w (c ∷ joined k t)
        ≡ find_fields none (joined w (c ∷ [])) (joined k t) =
      rw (word, find_fields) refl in
    step
    ∙ find_fields-key (joined w (c ∷ [])) k t (ground (arith, h))
    ∙ ap (λ u. find_fields none u t) (append_char w c k)

find_fields-value :
    (key w v t : String)
    → all_chars (λ c. not (is_space c)) v ≡ true
    → find_fields (some key) w (joined v t) ≡ find_fields (some key) (joined w v) t
unfolding find_fields
find_fields-value key w [] t h = ap (λ u. find_fields (some key) u t) (sym (append_none w))
find_fields-value key w (c ∷ v) t h =
    let solid : is_space c ≡ false = ground (arith, h) in
    let step : find_fields (some key) w (c ∷ joined v t)
        ≡ find_fields (some key) (joined w (c ∷ [])) (joined v t) =
      rw (solid, find_fields) refl in
    step
    ∙ find_fields-value key (joined w (c ∷ [])) v t (ground (arith, h))
    ∙ ap (λ u. find_fields (some key) u t) (append_char w c v)

find_fields-pair :
    (k v t : String)
    → IsPair (k, v)
    → find_fields none [] (joined k (joined "=" (joined v (joined " " t))))
      ≡ (k, v) ∷ find_fields none [] t
unfolding find_fields is_word is_space
find_fields-pair k v t h =
    let after_key = joined "=" (joined v (joined " " t)) in
    let at_value : find_fields none k after_key
        ≡ find_fields (some k) [] (joined v (joined " " t)) =
      rw (h.0, find_fields) refl in
    let at_end : find_fields (some k) v (joined " " t) ≡ (k, v) ∷ find_fields none [] t =
      rw (h.2, find_fields) refl in
    find_fields-key [] k after_key h.1
    ∙ at_value
    ∙ find_fields-value k [] v (joined " " t) h.3
    ∙ at_end

find_fields-pairs_text :
    (pairs : List (String × String))
    → All IsPair pairs
    → find_fields none [] (pairs_text pairs) ≡ pairs
unfolding find_fields
find_fields-pairs_text [] h = refl
find_fields-pairs_text ((k, v) ∷ pairs) h =
    find_fields-pair k v (pairs_text pairs) h.0
    ∙ ap (λ (ps : List (String × String)). (k, v) ∷ ps) (find_fields-pairs_text pairs h.1)

cut_at-joined :
    (chain rest : String)
    → all_chars (λ c. not (code c == b']')) chain ≡ true
    → cut_at b']' (joined chain (joined "]" rest)) ≡ some (chain, rest)
unfolding cut_at
cut_at-joined [] rest h = refl
cut_at-joined (c ∷ chain) rest h =
    let other : (code c == b']') ≡ false = ground (arith, h) in
    rw (other, cut_at-joined chain rest (ground (arith, h))) refl

strip_left-solid : (s : String) → starts_blank s ≡ false → strip_left is_space s ≡ s
unfolding strip_left
strip_left-solid [] h = refl
strip_left-solid (c ∷ s) h = rw h refl

match_at-line :
    (chain body : String)
    → IsChain chain
    → IsPlain body
    → match_at (joined chain (joined "] " body))
      ≡ some (record { chain = chain; descr = ""; fields = body })
unfolding match_at match_body is_space strip_left
match_at-line chain body named plain =
    let cut = cut_at-joined chain (joined " " body) named.1 in
    rw (cut, match_at)
      (rw (named.0, strip_left-solid body plain.0) (rw (plain.1, match_body) (rw plain.2 refl)))

search_rule-line_text :
    (chain : String) (pairs : List (String × String))
    → IsChain chain
    → IsPlain (pairs_text pairs)
    → search_rule (line_text chain pairs)
      ≡ some (record { chain = chain; descr = ""; fields = pairs_text pairs })
unfolding search_rule
search_rule-line_text chain pairs named plain =
    rw (match_at-line chain (pairs_text pairs) named plain, search_rule) refl

-- A line of a chain's name in brackets and of keys with their values is read as it was written: the
-- parser classifies the packet by that chain and exactly these keys and values, a later one of the same
-- key before an earlier one. The name is not empty and has no closing bracket, keys are runs of word
-- characters, values have no blanks, none is empty, and the keys start neither with a blank nor with a
-- description and stand on one line.
pub try_parse-line_text :
    (program chain : String) (pairs : List (String × String))
    → IsChain chain
    → All IsPair pairs
    → IsPlain (pairs_text pairs)
    → try_parse program (line_text chain pairs)
      ≡ classify
          (record { chain = chain; descr = ""; fields = pairs_text pairs })
          (dict_of pairs [])
unfolding try_parse
try_parse-line_text program chain pairs named clean plain =
    rw (search_rule-line_text chain pairs named plain, try_parse)
      (rw (find_fields-pairs_text pairs clean) refl)
