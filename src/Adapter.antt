-- ===== src/Adapter.antt =====
-- sentinel_home/agent/llm_adapter.py: the client of the language model, its probing of the server and
-- its backoff. The server's answers and the clock readings of a call are arguments.
pub mod Complete
pub mod Chat
pub mod Calls
pub mod Backoff
pub mod Cooldown
pub mod Paths
mod Examples
use Prim.Native.Char.{Char, code}
use Prim.Native.String.{◌++◌ as str_append}
use sentinel_home.Prelude.{
  ℕ, ◌+◌, ◌-◌, ◌*◌, ◌^◌, min, String, Bool, true, false, ◌||◌, Option, none, some, List, [], ◌∷◌,
  ◌++◌, truthy, strip_right, leb, ◌==◌, nat_eq, string_eq, if◌then◌else◌,
}
use sentinel_home.Engine.State.{second}

-- why a call has no answer; an exception is its text
pub data Failure : Type 0 where
  in_cooldown no_choices empty_content empty_stream : Failure
  http_error : ℕ → String → Failure
  unexpected_format : List String → Failure
  timeout_after : ℕ → Failure
  exception : String → Failure

pub record LlmResponse : Type 0 where
  pub text : String
  pub model : String
  pub tokens_used : ℕ
  pub latency : ℕ
  pub success : Bool
  pub error : Option Failure

-- `completions_path` is the path that was detected, and `cooldown_until` 0 when there is no cooldown.
pub record Adapter : Type 0 where
  pub base_url : String
  pub api_key : String
  pub model : String
  pub chat_model : String
  pub investigator_model : String
  pub timeout : ℕ
  pub completions_path : Option String
  pub consecutive_failures : ℕ
  pub cooldown_until : ℕ

-- a POST; messages are roles with contents, and the temperature counts tenths
pub record Request : Type 0 where
  pub url : String
  pub authorization : Option String
  pub model : String
  pub messages : List (String × String)
  pub max_tokens : ℕ
  pub temperature : ℕ
  pub stream : Bool
  pub timeout : ℕ

-- The readings of one call: at the cooldown's test, before the request, in `_record_failure`, and for
-- the latency.
pub record Clock : Type 0 where
  pub checked : ℕ
  pub started : ℕ
  pub recorded : ℕ
  pub finished : ℕ

-- what a request ends with: an exception, or a status with its text and contents
pub data Answer (A : Type 0) : Type 0 where
  timed_out : Answer A
  raised : String → Answer A
  replied : ℕ → String → A → Answer A

-- a key of a JSON object
pub data Entry (A : Type 0) : Type 0 where
  missing : Entry A
  null : Entry A
  present : A → Entry A

-- What a call makes of an answer: a failure that counts for the backoff or does not, with the model's
-- name, or a text with the model's name and the tokens.
pub data Verdict : Type 0 where
  recorded : String → Failure → Verdict
  unrecorded : String → ℕ → Failure → Verdict
  succeeded : String → String → ℕ → Verdict

-- what a call leaves: the adapter, the requests it has sent, and its response
pub record Outcome : Type 0 where
  pub adapter : Adapter
  pub sent : List Request
  pub response : LlmResponse

abbrev pub or_else : String → String → String
or_else s t = if truthy s then s else t

unfoldable pub new_adapter :
    (url api_key model chat_model investigator_model : String) → ℕ → Adapter
new_adapter url api_key model chat_model investigator_model timeout = record {
  base_url = strip_right (λ c. code c == b'/') url;
  api_key = api_key;
  model = model;
  chat_model = or_else chat_model model;
  investigator_model = or_else investigator_model model;
  timeout = timeout;
  completions_path = none;
  consecutive_failures = 0;
  cooldown_until = 0;
}

abbrev pub max_backoff : ℕ
max_backoff = 60 * second

unfoldable pub record_failure : ℕ → Adapter → Adapter
record_failure now a =
    let failures = a.consecutive_failures + 1 in
    if leb 3 failures
    then record a {
      consecutive_failures = failures;
      cooldown_until = now + min (2 ^ failures * second) max_backoff;
    }
    else record a { consecutive_failures = failures }

unfoldable pub record_success : Adapter → Adapter
record_success a = record a { consecutive_failures = 0; cooldown_until = 0 }

-- `is_in_cooldown`, with the adapter that it leaves
unfoldable pub is_in_cooldown : ℕ → Adapter → Bool × Adapter
is_in_cooldown now a =
    if a.cooldown_until == 0
    then (false, a)
    else if leb a.cooldown_until now
    then (false, record a { cooldown_until = 0 })
    else (true, a)

unfoldable pub reset_backoff : Adapter → Adapter
reset_backoff a = record a { consecutive_failures = 0; cooldown_until = 0 }

abbrev completions_paths : List String
completions_paths = "/v1/chat/completions" ∷ "/api/chat/completions" ∷ "/api/chat" ∷ []

abbrev pub url_of : Adapter → String → String
url_of a path = str_append a.base_url path

abbrev pub authorization_of : Adapter → Option String
authorization_of a = if truthy a.api_key then some (str_append "Bearer " a.api_key) else none

abbrev probe_request : Adapter → String → Request
probe_request a path = record {
  url = url_of a path;
  authorization = authorization_of a;
  model = a.model;
  messages = ("user", "hi") ∷ [];
  max_tokens = 1;
  temperature = 0;
  stream = false;
  timeout = 15;
}

-- A probe that raises has no status.
abbrev is_endpoint : Option ℕ → Bool
is_endpoint none = false
is_endpoint (some status) = (status == 200) || ((status == 400) || (status == 422))

unfoldable pub probe_paths : (String → Option ℕ) → Adapter → List String → String × List Request
probe_paths server a [] = ("/api/chat/completions", [])
probe_paths server a (path ∷ paths) =
    let (found, sent) = probe_paths server a paths in
    if is_endpoint (server path)
    then (path, probe_request a path ∷ [])
    else (found, probe_request a path ∷ sent)

unfoldable pub detect_completions_path :
    (String → Option ℕ) → Adapter → Adapter × String × List Request
unfolding probe_paths
detect_completions_path server a = elim a.completions_path [
  | some path ↦ (a, path, [])
  | none ↦
      let (path, sent) = probe_paths server a completions_paths in
      (record a { completions_path = some path }, path, sent)
]

-- the backoff's part of a verdict
unfoldable pub settle : Verdict → ℕ → Adapter → Adapter
settle (recorded model failure) now a = record_failure now a
settle (unrecorded model tokens failure) now a = a
settle (succeeded text model tokens) now a = record_success a

abbrev failed : String → ℕ → ℕ → Failure → LlmResponse
failed model tokens latency failure = record {
  text = "";
  model = model;
  tokens_used = tokens;
  latency = latency;
  success = false;
  error = some failure;
}

unfoldable pub respond : Verdict → ℕ → LlmResponse
respond (recorded model failure) latency = failed model 0 latency failure
respond (unrecorded model tokens failure) latency = failed model tokens latency failure
respond (succeeded text model tokens) latency = record {
  text = text;
  model = model;
  tokens_used = tokens;
  latency = latency;
  success = true;
  error = none;
}

-- What `complete` and `chat` share: nothing is sent in a cooldown; otherwise the path is detected, the
-- request sent, and the verdict on its answer settled.
unfoldable pub call :
    (String → Option ℕ) → Clock → String → (String → Request) → Verdict → Adapter → Outcome
unfolding respond settle detect_completions_path
call server clock model request verdict a =
    let (cooling, ready) = is_in_cooldown clock.checked a in
    let (known, path, probes) = detect_completions_path server ready in
    if cooling
    then record { adapter = ready; sent = []; response = failed model 0 0 in_cooldown }
    else record {
      adapter = settle verdict clock.recorded known;
      sent = probes ++ request path ∷ [];
      response = respond verdict (clock.finished - clock.started);
    }
