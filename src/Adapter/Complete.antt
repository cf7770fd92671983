-- ===== src/Adapter/Complete.antt =====
-- `LLMAdapter.complete` of sentinel_home/agent/llm_adapter.py: one request, and how the text is read
-- from the object that the server returns.
use Prim.Native.Nat.{min}
use Prim.Native.Char.{Char, code}
use Prim.Native.String.{[], ◌∷◌, ◌++◌ as str_append}
use sentinel_home.Prelude.{
  ℕ, suc, String, Bool, false, ◌||◌, ◌&&◌, Option, none, some, List, [], ◌∷◌, ◌⊎◌, inl, inr, truthy,
  strip, prefix_of, ltb, leb, ◌==◌, nat_eq, string_eq, if◌then◌else◌,
}
use sentinel_home.Adapter.{
  Failure, no_choices, empty_content, http_error, unexpected_format, timeout_after, exception,
  Adapter, Request, Clock, Answer, timed_out, raised, replied, Entry, missing, null, present,
  Verdict, recorded, unrecorded, succeeded, Outcome, url_of, authorization_of, call,
}

pub record Message : Type 0 where
  pub content : Entry String
  pub reasoning_content : Entry String
  pub reasoning : Entry String

-- The object that the server returns. Of the choices only their messages count; `usage` holds
-- `total_tokens`.
pub record Reply : Type 0 where
  pub keys : List String
  pub choices : Option (List (Entry Message))
  pub message : Entry Message
  pub model : Option String
  pub usage : Entry (Option ℕ)

-- `resp.json()`: what it raises, or the object
abbrev pub Body : Type 0
Body = String ⊎ Reply

abbrev no_message : Message
no_message = record { content = missing; reasoning_content = missing; reasoning = missing }

-- `getattr` of None
abbrev pub none_has_no : String → Failure
none_has_no name =
    exception (str_append "'NoneType' object has no attribute '" (str_append name "'"))

abbrev entry_message : Verdict → Entry Message → Verdict ⊎ Message
entry_message none_raises missing = inr no_message
entry_message none_raises null = inl none_raises
entry_message none_raises (present m) = inr m

abbrev first_message : String → List (Entry Message) → Verdict ⊎ Message
first_message model [] = inl (unrecorded model 0 no_choices)
first_message model (m ∷ ms) = entry_message (recorded model (none_has_no "get")) m

unfoldable pub message_of : String → Reply → Verdict ⊎ Message
message_of model r = elim r.choices [
  | some choices ↦ first_message model choices
  | none ↦ elim r.message [
    | missing ↦ inl (unrecorded model 0 (unexpected_format r.keys))
    | m ↦ entry_message (recorded model (none_has_no "get")) m
  ]
]

-- `msg.get(key, "")`, where None counts as empty
abbrev text_or_empty : Entry String → String
text_or_empty (present s) = s
text_or_empty _ = ""

abbrev is_line_end : Char → Bool
is_line_end c =
    (leb 10 (code c) && leb (code c) 13)
    || ((leb 28 (code c) && leb (code c) 30)
        || ((code c == 133) || ((code c == 8232) || (code c == 8233))))

-- `s.splitlines()`: the first line and the others, but with an empty line between "\r" and "\n" and at
-- the end, which are both skipped
unfoldable pub split_lines : String → String × List String
split_lines [] = ([], [])
split_lines (c ∷ s) =
    let (line, rest) = split_lines s in
    if is_line_end c then ([], line ∷ rest) else (c ∷ line, rest)

-- the last line that is not blank, stripped
unfoldable pub last_line : String → List String → String
last_line found [] = found
last_line found (l ∷ ls) = last_line (if truthy (strip l) then strip l else found) ls

unfoldable pub char_count : String → ℕ
char_count [] = 0
char_count (c ∷ s) = suc (char_count s)

-- the answer of a model that puts it among its reasons
unfoldable pub from_reasoning : String → String → String
unfolding split_lines last_line char_count
from_reasoning text reasoning =
    let (line, lines) = split_lines (strip reasoning) in
    let found = last_line "" (line ∷ lines) in
    if truthy reasoning then (if ltb (char_count found) 50 then found else reasoning) else text

unfoldable pub text_of : Message → String → String
unfolding from_reasoning
text_of m text =
    let first_choice = text_or_empty m.reasoning_content in
    let reasoning = if truthy first_choice then first_choice else text_or_empty m.reasoning in
    if truthy (strip text) then text else from_reasoning text reasoning

abbrev model_or : String → Option String → String
model_or model none = model
model_or model (some m) = m

unfoldable pub read_text : String → Reply → String → Verdict
read_text model r text = elim r.usage [
  | null ↦ recorded model (none_has_no "get")
  | missing ↦ with_tokens 0
  | present none ↦ with_tokens 0
  | present (some tokens) ↦ with_tokens tokens
]
  where
    with_tokens : ℕ → Verdict
    with_tokens tokens =
        if truthy (strip text)
        then succeeded (strip text) (model_or model r.model) tokens
        else unrecorded model tokens empty_content

unfoldable pub read_message : String → Reply → Message → Verdict
unfolding text_of read_text
read_message model r m = elim m.content [
  | null ↦ recorded model (none_has_no "strip")
  | missing ↦ read_text model r (text_of m "")
  | present text ↦ read_text model r (text_of m text)
]

unfoldable pub read_body : String → Body → Verdict
unfolding message_of read_message
read_body model (inl error) = recorded model (exception error)
read_body model (inr r) = elim (message_of model r) [
  | inl verdict ↦ verdict
  | inr m ↦ read_message model r m
]

unfoldable pub read_answer : Adapter → Answer Body → Verdict
unfolding read_body
read_answer a timed_out = recorded a.model (timeout_after a.timeout)
read_answer a (raised error) = recorded a.model (exception error)
read_answer a (replied status text body) =
    if status == 200
    then read_body a.model body
    else recorded a.model (http_error status (prefix_of 200 text))

abbrev system_message : String → List (String × String) → List (String × String)
system_message prompt messages = if truthy prompt then ("system", prompt) ∷ messages else messages

pub record Prompt : Type 0 where
  pub system_prompt : String
  pub user_prompt : String
  pub max_tokens : ℕ
  pub temperature : ℕ

unfoldable pub completion_request : Adapter → Prompt → String → Request
completion_request a p path = record {
  url = url_of a path;
  authorization = authorization_of a;
  model = a.model;
  messages = system_message p.system_prompt (("user", str_append p.user_prompt "\n/no_think") ∷ []);
  max_tokens = p.max_tokens;
  temperature = p.temperature;
  stream = false;
  timeout = min a.timeout 30;
}

unfoldable pub complete : (String → Option ℕ) → Answer Body → Clock → Prompt → Adapter → Outcome
unfolding completion_request read_answer call
complete server answer clock p a =
    call server clock a.model (completion_request a p) (read_answer a answer) a
