-- ===== src/Adapter/Chat.antt =====
-- `LLMAdapter.chat` of sentinel_home/agent/llm_adapter.py: a streamed answer, read line by line.
use Prim.Native.String.{[], ◌∷◌, ◌++◌ as str_append}
use sentinel_home.Prelude.{
  ℕ, zero, suc, String, true, not, Option, none, some, List, [], ◌∷◌, ◌⊎◌, inl, inr, truthy, strip,
  prefix_of, has_prefix, ◌==◌, nat_eq, string_eq, if◌then◌else◌,
}
use sentinel_home.Adapter.{
  Failure, empty_stream, http_error, timeout_after, exception, Adapter, Request, Clock, Answer,
  timed_out, raised, replied, Entry, missing, null, present, Verdict, recorded, succeeded, Outcome,
  url_of, authorization_of, or_else, call,
}
use sentinel_home.Adapter.Complete.{none_has_no}

-- One object of the stream. A choice is its delta and a message, where they are objects, is its
-- content; a falsy `model` or `usage` is `none`.
pub record Chunk : Type 0 where
  pub choices : Option (List (Entry (Option String)))
  pub message : Entry (Option String)
  pub model : Option String
  pub usage : Option (Option ℕ)

-- how the stream ends after its lines
pub data Ending : Type 0 where
  closed late : Ending
  broken : String → Ending

pub record Stream : Type 0 where
  pub lines : List String
  pub ending : Ending

-- `chunks` (joined), `resp_model` and `total_tokens`
pub record Gathered : Type 0 where
  pub text : String
  pub model : String
  pub total_tokens : ℕ

-- what a line does: more are read, reading stops, or an exception
pub data Progress : Type 0 where
  more done : Gathered → Progress
  broke : Failure → Progress

abbrev add_content : Option String → Gathered → Gathered
add_content none g = g
add_content (some content) g = record g { text = str_append g.text content }

unfoldable pub add_choices : List (Entry (Option String)) → Gathered → Option Gathered
add_choices [] g = some g
add_choices (null ∷ choices) g = none
add_choices (missing ∷ choices) g = add_choices choices g
add_choices (present content ∷ choices) g = add_choices choices (add_content content g)

abbrev add_message : Entry (Option String) → Gathered → Option Gathered
add_message null g = none
add_message missing g = some g
add_message (present content) g = some (add_content content g)

abbrev add_model : Option String → Gathered → Gathered
add_model none g = g
add_model (some model) g = if truthy model then record g { model = model } else g

abbrev add_usage : Option (Option ℕ) → Gathered → Gathered
add_usage none g = g
add_usage (some none) g = record g { total_tokens = 0 }
add_usage (some (some tokens)) g = record g { total_tokens = tokens }

-- `none` when a key that is read is null
unfoldable pub add_chunk : Chunk → Gathered → Option Gathered
unfolding add_choices
add_chunk c g =
    let texts : Option Gathered = elim c.choices [
      | some choices ↦ add_choices choices g
      | none ↦ add_message c.message g
    ] in
    elim texts [ none ↦ none | some g' ↦ some (add_usage c.usage (add_model c.model g')) ]

abbrev drop_chars : ℕ → String → String
drop_chars zero s = s
drop_chars (suc n) [] = []
drop_chars (suc n) (c ∷ s) = drop_chars n s

-- `loads` is `json.loads`, and `none` where it raises JSONDecodeError
unfoldable pub read_line : (String → Option Chunk) → String → Gathered → Progress
unfolding add_chunk
read_line loads line g =
    let data_str = drop_chars 6 line in
    if not (has_prefix line "data: ")
    then more g
    else if strip data_str == "[DONE]"
    then done g
    else elim (loads data_str) [
      | none ↦ more g
      | some c ↦ elim (add_chunk c g) [ none ↦ broke (none_has_no "get") | some g' ↦ more g' ]
    ]

unfoldable pub read_lines :
    (String → Option Chunk) → ℕ → Ending → List String → Gathered → Failure ⊎ Gathered
unfolding read_line
read_lines loads timeout closed [] g = inr g
read_lines loads timeout late [] g = inl (timeout_after timeout)
read_lines loads timeout (broken error) [] g = inl (exception error)
read_lines loads timeout ending (line ∷ lines) g = elim (read_line loads line g) [
  | more g' ↦ read_lines loads timeout ending lines g'
  | done g' ↦ inr g'
  | broke failure ↦ inl failure
]

unfoldable pub gathered_verdict : Gathered → Verdict
gathered_verdict g =
    if truthy (strip g.text)
    then succeeded (strip g.text) g.model g.total_tokens
    else recorded g.model empty_stream

unfoldable pub read_stream : (String → Option Chunk) → ℕ → String → Answer Stream → Verdict
unfolding read_lines gathered_verdict
read_stream loads timeout model timed_out = recorded model (timeout_after timeout)
read_stream loads timeout model (raised error) = recorded model (exception error)
read_stream loads timeout model (replied status text s) =
    if status == 200
    then elim (read_lines loads timeout s.ending s.lines start) [
      | inl failure ↦ recorded model failure
      | inr g ↦ gathered_verdict g
    ]
    else recorded model (http_error status (prefix_of 200 text))
  where
    start : Gathered
    start = record { text = ""; model = model; total_tokens = 0 }

-- the arguments of `chat`; `model` is `none` or a name that overrides the chat model
pub record ChatPrompt : Type 0 where
  pub messages : List (String × String)
  pub max_tokens : ℕ
  pub temperature : ℕ
  pub model : Option String

unfoldable pub chat_request : Adapter → ChatPrompt → String → String → Request
chat_request a p model path = record {
  url = url_of a path;
  authorization = authorization_of a;
  model = model;
  messages = p.messages;
  max_tokens = p.max_tokens;
  temperature = p.temperature;
  stream = true;
  timeout = a.timeout;
}

-- `model or self._chat_model`
abbrev pub chat_model_of : ChatPrompt → Adapter → String
chat_model_of p a = elim p.model [ none ↦ a.chat_model | some model ↦ or_else model a.chat_model ]

unfoldable pub chat :
    (String → Option ℕ)
    → (String → Option Chunk)
    → Answer Stream
    → Clock
    → ChatPrompt
    → Adapter
    → Outcome
unfolding chat_request read_stream call
chat server loads answer clock p a =
    let model = chat_model_of p a in
    call server clock model (chat_request a p model) (read_stream loads a.timeout model answer) a
