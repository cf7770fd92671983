-- ===== src/Agent/Reading/Choices.antt =====
-- What `extract_choice` answers.
use Prim.Native.Char.{Char}
use Prim.Native.String.{[], ◌∷◌}
use sentinel_home.Prelude.{
  joined, is_space, strip_left, strip_right, strip, ℕ, subst, String, [], ◌∷◌, ◌≡◌, refl, ap, ◌∙◌,
  Bool, true, false, not, ◌&&◌, ◌||◌, Option, none, some, List, arith, first, contains, upper,
  truthy, all, is_nil, select, if_cases, option_cases, Bool-cases, inl, inr, ltb, ◌==◌, nat_eq,
  string_eq, ==_refl, if◌then◌else◌,
}
use sentinel_home.Agent.Reading.{
  is_separator, first_token, lines, find_word, better, earliest, is_number, words, or_else,
  by_token, by_line, by_word, by_number, extract_choice,
}

-- an answer that is one of the valid choices, if there is one
abbrev IsChoice : List String → Option String → Type 0
IsChoice choices none = Unit
IsChoice choices (some c) = contains c choices ≡ true

abbrev IsChoiceAt : List String → Option (ℕ × String) → Type 0
IsChoiceAt choices none = Unit
IsChoiceAt choices (some (n, c)) = contains c choices ≡ true

first-contains : (p : String → Bool) (xs : List String) → IsChoice xs (first p xs)
first-contains p [] = tt
first-contains p (x ∷ xs) =
    if_cases (IsChoice (x ∷ xs)) (p x) (some x) (first p xs) (λ h. ground (arith, ==_refl x))
      (λ h. weaken (first p xs) (first-contains p xs))
  where
    weaken : (o : Option String) → IsChoice xs o → IsChoice (x ∷ xs) o
    weaken none h = tt
    weaken (some c) h = ground (arith, h)

or_else-IsChoice :
    (choices : List String) (a b : Option String)
    → IsChoice choices a
    → IsChoice choices b
    → IsChoice choices (or_else a b)
or_else-IsChoice choices none b ha hb = hb
or_else-IsChoice choices (some c) b ha hb = ha

by_line-IsChoice : (ls choices : List String) → IsChoice choices (by_line ls choices)
unfolding by_line
by_line-IsChoice [] choices = tt
by_line-IsChoice (line ∷ ls) choices =
    or_else-IsChoice choices (by_token (first_token (strip line)) choices) (by_line ls choices)
      (first-contains (λ c. upper c == upper (first_token (strip line))) choices)
      (by_line-IsChoice ls choices)

better-IsChoiceAt :
    (all_choices : List String) (text c : String) (best : Option (ℕ × String))
    → contains c all_choices ≡ true
    → IsChoiceAt all_choices best
    → IsChoiceAt all_choices (better text best c)
better-IsChoiceAt choices text c best h b =
    option_cases (IsChoiceAt choices) (find_word (upper c) false text) best _ (λ e. b)
      (λ n e. go n best b)
  where
    go :
        (n : ℕ) (old : Option (ℕ × String))
        → IsChoiceAt choices old
        → IsChoiceAt choices (elim old [
          | none ↦ some (n, c)
          | some (m, d) ↦ if ltb n m then some (n, c) else some (m, d)
        ])
    go n none o = h
    go n (some (m, d)) o = if_cases (IsChoiceAt choices) (ltb n m) _ _ (λ e. h) (λ e. o)

earliest-IsChoiceAt :
    (all_choices choices : List String) (text : String) (best : Option (ℕ × String))
    → ((c : String) → contains c choices ≡ true → contains c all_choices ≡ true)
    → IsChoiceAt all_choices best
    → IsChoiceAt all_choices (earliest text best choices)
unfolding earliest
earliest-IsChoiceAt every [] text best sub b = b
earliest-IsChoiceAt every (c ∷ choices) text best sub b =
    earliest-IsChoiceAt every choices text (better text best c) (λ d h. sub d (ground (arith, h)))
      (better-IsChoiceAt every text c best (sub c (ground (arith, ==_refl c))) b)

by_word-IsChoice : (text : String) (choices : List String) → IsChoice choices (by_word text choices)
unfolding by_word
by_word-IsChoice text choices =
    go (earliest (upper text) none choices)
      (earliest-IsChoiceAt choices choices (upper text) none (λ c h. h) tt)
  where
    go :
        (o : Option (ℕ × String))
        → IsChoiceAt choices o
        → IsChoice choices
            (elim o [ none ↦ none | some (n, c) ↦ if truthy c then some c else none ])
    go none h = tt
    go (some (n, c)) h = if_cases (IsChoice choices) (truthy c) _ _ (λ e. h) (λ e. tt)

first-holds : (choices xs : List String) → IsChoice choices (first (λ d. contains d choices) xs)
first-holds choices [] = tt
first-holds choices (x ∷ xs) =
    if_cases (IsChoice choices) (contains x choices) _ _ (λ e. e) (λ e. first-holds choices xs)

by_number-IsChoice :
    (text : String) (choices : List String) → IsChoice choices (by_number text choices)
unfolding by_number
by_number-IsChoice text choices =
    if_cases (IsChoice choices) (all is_number choices) _ _
      (λ e. first-holds choices (select is_number (words "" text))) (λ e. tt)

extract_choice-IsChoice :
    (text : String) (choices : List String) → IsChoice choices (extract_choice text choices)
unfolding extract_choice
extract_choice-IsChoice text choices =
    let stripped = strip text in
    if_cases (IsChoice choices) (not (truthy text) || is_nil choices) _ _ (λ e. tt)
      (λ e. or_else-IsChoice choices _ _ (first-contains _ choices) (
        or_else-IsChoice choices _ _ (first-contains _ choices) (
          or_else-IsChoice choices _ _
            (by_line-IsChoice ((lines stripped).0 ∷ (lines stripped).1) choices)
            (or_else-IsChoice choices _ _ (by_word-IsChoice stripped choices)
              (by_number-IsChoice stripped choices)))))

abbrev pub all_chars : (Char → Bool) → String → Bool
all_chars p [] = true
all_chars p (c ∷ s) = p c && all_chars p s

-- nothing, or a separator first
abbrev pub is_cut : String → Bool
is_cut [] = true
is_cut (c ∷ s) = is_separator c

-- a word that a separator does not cut
abbrev pub is_token : String → Bool
is_token s = truthy s && all_chars (λ c. not (is_separator c)) s

first_token-strip_right : (s : String) → first_token (strip_right is_space s) ≡ first_token s
unfolding first_token strip_right
first_token-strip_right [] = refl
first_token-strip_right (c ∷ s) =
    if_cases (λ o. first_token o ≡ first_token (c ∷ s))
      (is_space c && not (truthy (strip_right is_space s))) _ _ (λ e. ground (arith, e))
      (λ e. ap (λ r. if is_separator c then "" else c ∷ r) (first_token-strip_right s))

first_token-append :
    (s rest : String)
    → all_chars (λ c. not (is_separator c)) s ≡ true
    → is_cut rest ≡ true
    → first_token (joined s rest) ≡ s
unfolding first_token
first_token-append [] [] h k = refl
first_token-append [] (c ∷ rest) h k = rw k refl
first_token-append (c ∷ s) rest h k =
    let rest_token = first_token-append s rest (ground (arith, h)) k in
    let plain : is_separator c ≡ false = ground (arith, h) in rw (plain, rest_token) refl

strip_left-append :
    (pad s : String)
    → all_chars is_space pad ≡ true
    → strip_left is_space (joined pad s) ≡ strip_left is_space s
unfolding strip_left
strip_left-append [] s h = refl
strip_left-append (c ∷ pad) s h =
    let blank : is_space c ≡ true = ground (arith, h) in
    rw blank (strip_left-append pad s (ground (arith, h)))

strip_left-token :
    (s rest : String) → is_token s ≡ true → strip_left is_space (joined s rest) ≡ joined s rest
unfolding strip_left
strip_left-token [] rest h = ground (arith, h)
strip_left-token (c ∷ s) rest h =
    let plain : is_space c ≡ false = ground (arith, h) in rw plain refl

by_token-found :
    (choice : String) (choices : List String)
    → contains choice choices ≡ true
    → (d : String) × (by_token choice choices ≡ some d) × (upper d ≡ upper choice)
by_token-found choice [] h = ground (arith, h)
by_token-found choice (c ∷ choices) h = elim (Bool-cases (upper c == upper choice)) [
  | inl hit ↦ (c, rw hit refl, (string_eq.decides (upper c) (upper choice)).0 hit)
  | inr miss ↦
      let other : (c == choice) ≡ false =
        ground (arith, miss, string_eq.decides c choice, ==_refl (upper choice)) in
      let there : contains choice choices ≡ true = ground (arith, h, other) in
      let (d, found, same) = by_token-found choice choices there in (d, rw miss found, same)
]

-- What is read from an answer is one of the valid choices.
pub extract_choice-IsValid :
    (text c : String) (choices : List String)
    → extract_choice text choices ≡ some c
    → contains c choices ≡ true
extract_choice-IsValid text c choices e =
    subst (IsChoice choices) e (extract_choice-IsChoice text choices)

abbrev is_filled : String → Bool
is_filled [] = false
is_filled (c ∷ s) = true

truthy-cons : (c : Char) (s : String) → truthy (c ∷ s) ≡ true
truthy-cons c s = elim (Bool-cases (truthy (c ∷ s))) [
  | inl h ↦ h
  | inr h ↦
      let empty : (c ∷ s) ≡ "" = (string_eq.decides (c ∷ s) "").0 (ground (arith, h)) in
      ground (arith, ap is_filled empty)
]

or_else-found : (a b : Option String) (c : String) → a ≡ some c → or_else a b ≡ some c
or_else-found a b c e = rw e refl

truthy-joined : (pad s : String) → truthy s ≡ true → truthy (joined pad s) ≡ true
truthy-joined [] s h = h
truthy-joined (c ∷ pad) s h = truthy-cons c (joined pad s)

truthy-token : (s rest : String) → is_token s ≡ true → truthy (joined s rest) ≡ true
truthy-token [] rest h = ground (arith, h)
truthy-token (c ∷ s) rest h = truthy-cons c (joined s rest)

is_nil-contains : (c : String) (cs : List String) → contains c cs ≡ true → is_nil cs ≡ false
is_nil-contains c [] h = ground (arith, h)
is_nil-contains c (d ∷ cs) h = refl

-- An answer that begins, after spaces, with a valid choice and ends there or goes on with a separator is
-- read as that choice, up to letter case. The choice must hold no separator and not be empty.
pub extract_choice-joined :
    (pad choice rest : String) (choices : List String)
    → all_chars is_space pad ≡ true
    → is_token choice ≡ true
    → is_cut rest ≡ true
    → contains choice choices ≡ true
    → (c : String) × (extract_choice (joined pad (joined choice rest)) choices ≡ some c)
      × (contains c choices ≡ true)
      × (upper c ≡ upper choice)
unfolding extract_choice
extract_choice-joined pad choice rest choices blank token cut valid =
    let text = joined pad (joined choice rest) in
    let (c, found, same) = by_token-found choice choices valid in
    let read : first_token (strip text) ≡ choice =
      first_token-strip_right (strip_left is_space text)
      ∙ ap first_token
          (strip_left-append pad (joined choice rest) blank ∙ strip_left-token choice rest token)
      ∙ first_token-append choice rest (ground (arith, token)) cut in
    let some_text : truthy text ≡ true =
      truthy-joined pad (joined choice rest) (truthy-token choice rest token) in
    let answer : extract_choice text choices ≡ some c =
      if_cases (λ o. o ≡ some c) (not (truthy text) || is_nil choices) _ _
        (λ e. ground (arith, e, some_text, is_nil-contains choice choices valid))
        (λ e. or_else-found _ _ c (ap (λ t. by_token t choices) read ∙ found)) in
    (c, answer, extract_choice-IsValid text c choices answer, same)
