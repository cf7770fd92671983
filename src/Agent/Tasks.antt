-- ===== src/Agent/Tasks.antt =====
-- sentinel_home/agent/tasks.py and validator.py, `_run_task` and `_device_info_str` of orchestrator.py:
-- one question to the model. The adapter is the argument `ask`: what its call of a given number
-- answers. What a task says of itself to the model goes with its name.
pub mod Answers
use Prim.Native.Char.{Char, code}
use Prim.Native.String.{[], ◌∷◌, ◌++◌ as str_append, len}
use sentinel_home.Prelude.{
  strip_left, strip_right, strip, ℕ, suc, String, [], ◌∷◌, Bool, true, false, not, ◌&&◌, ◌||◌,
  Option, none, some, List, is_nil, truthy, upper, has_prefix, prefix_of, ltb, ◌==◌, nat_eq,
  string_eq, if◌then◌else◌,
}
use sentinel_home.Models.{Value}
use sentinel_home.Critic.{Result}
use sentinel_home.Agent.Reading.{is_separator, after, extract_choice}

pub record Task : Type 0 where
  pub name : String
  pub valid_choices : List String
  pub needs_reasoning : Bool

abbrev pub triage_event : Task
triage_event = record {
  name = "triage_event";
  valid_choices = "1" ∷ "2" ∷ "3" ∷ "4" ∷ "5" ∷ [];
  needs_reasoning = true;
}

abbrev pub investigate_alert : Task
investigate_alert = record {
  name = "investigate_alert";
  valid_choices = "TRUE_POSITIVE" ∷ "FALSE_POSITIVE" ∷ "NEEDS_MORE_INFO" ∷ [];
  needs_reasoning = true;
}

abbrev pub classify_device : Task
classify_device = record {
  name = "classify_device";
  valid_choices =
      "phone" ∷ "laptop" ∷ "desktop" ∷ "tablet" ∷ "server" ∷ "router" ∷ "ap" ∷ "switch" ∷ "iot"
      ∷ "media" ∷ "printer" ∷ "unknown" ∷ [];
  needs_reasoning = false;
}

-- the user's part of a prompt: the task's template with its variables, or a plain text
pub data Prompt : Type 0 where
  template : List (String × Value) → Prompt
  plain : String → Prompt

-- `LLMResponse`
pub record Response : Type 0 where
  pub text : String
  pub success : Bool

-- the text behind the first match of `choice` and the separators that follow it, `re.IGNORECASE`
unfoldable pub behind : String → String → Option String
behind choice [] = if has_prefix [] choice then some [] else none
behind choice (c ∷ s) =
    let later = behind choice s in
    if has_prefix (upper (c ∷ s)) choice then some (after choice (c ∷ s)) else later

abbrev is_quote : Char → Bool
is_quote c = code c == b'"' || code c == 39

-- `s.rsplit(" ", 1)[0]` of a text with a space
unfoldable pub before_last_space : String → Option String
before_last_space [] = none
before_last_space (c ∷ s) = elim (before_last_space s) [
  | some t ↦ some (c ∷ t)
  | none ↦ if code c == b' ' then some [] else none
]

-- at most 200 characters and an ellipsis
unfoldable pub shorten : String → String
shorten s =
    if ltb 200 (len s)
    then str_append
        (elim (before_last_space (prefix_of 200 s)) [ none ↦ prefix_of 200 s | some t ↦ t ]) "…"
    else s

unfoldable pub extract_reasoning : String → String → Option String
extract_reasoning text choice =
    if not (truthy text) || not (truthy choice) then none else elim (behind (upper choice) text) [
      | none ↦ none
      | some rest ↦
          let remainder = strip (strip_left is_separator rest) in
          if truthy remainder
          then some (shorten (strip_right is_quote (strip_left is_quote remainder)))
          else none
    ]

abbrev pub invalid : Result
invalid = record { choice = ""; reasoning = none; valid = false }

unfoldable pub validate_response : String → List String → Bool → Result
validate_response raw_text valid_choices needs_reasoning =
    if not (truthy raw_text)
    then invalid
    else if is_nil valid_choices
    then record { choice = ""; reasoning = some (strip raw_text); valid = true }
    else elim (extract_choice raw_text valid_choices) [
      | none ↦ invalid
      | some choice ↦ record {
        choice = choice;
        reasoning = if needs_reasoning then extract_reasoning raw_text choice else none;
        valid = true;
      }
    ]

-- `" / ".join(choices)`
unfoldable pub join : String → List String → String
join glue [] = ""
join glue (s ∷ []) = s
join glue (s ∷ t ∷ rest) = str_append s (str_append glue (join glue (t ∷ rest)))

unfoldable pub build_retry_prompt : List String → String
build_retry_prompt valid_choices =
    str_append
      "Your previous response could not be parsed. Respond with ONLY one of these words, nothing else:\n"
      (join " / " valid_choices)

-- `_device_info_str`
abbrev pub present : Option String → List String
present none = []
present (some s) = if truthy s then s ∷ [] else []

module _ (ask : ℕ → Task → Prompt → Response) where
  -- the second question, from the call of number `calls` on
  unfoldable pub retry_task : Task → ℕ → Result × ℕ
  retry_task task calls =
      if is_nil task.valid_choices
      then (invalid, calls)
      else let response = ask calls task (plain (build_retry_prompt task.valid_choices)) in
        let result = validate_response response.text task.valid_choices false in
        (if response.success && result.valid then result else invalid, suc calls)

  -- the result, and how many calls have been made
  unfoldable pub run_task : Task → List (String × Value) → ℕ → Result × ℕ
  run_task task vars calls =
      let response = ask calls task (template vars) in
      let result = validate_response response.text task.valid_choices task.needs_reasoning in
      if not response.success
      then (invalid, suc calls)
      else if result.valid
      then (result, suc calls)
      else retry_task task (suc calls)
