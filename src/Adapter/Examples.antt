-- ===== src/Adapter/Examples.antt =====
-- The theorems about the language model's client at concrete inputs.
use sentinel_home.Prelude.{
  ℕ, ◌+◌, ◌-◌, ◌*◌, ◌≤◌, ◌≡◌, refl, String, true, Option, none, some, List, [], ◌∷◌, ◌++◌, arith,
  All, length, has_prefix, strip_right, strip_left, is_space, ◌==◌, string_eq, if◌then◌else◌, inr,
}
use sentinel_home.Engine.State.{second}
use sentinel_home.Adapter.{
  Adapter, Request, Clock, Answer, timed_out, replied, missing, present, in_cooldown, url_of,
  new_adapter, respond, is_in_cooldown, record_failure, record_success,
}
use sentinel_home.Adapter.Complete.{
  Body, Message, Prompt, completion_request, read_answer, complete,
}
use sentinel_home.Adapter.Chat.{Chunk, Stream, closed, ChatPrompt, chat}
use sentinel_home.Adapter.Calls.{Call, completion, conversation, reset, run_calls}
use sentinel_home.Adapter.Backoff.{run_calls-resumes}
use sentinel_home.Adapter.Cooldown.{run_calls-rests}
use sentinel_home.Adapter.Paths.{run_calls-one_path}

abbrev start : Adapter
start = record {
  base_url = "http://llm:8080";
  api_key = "key";
  model = "qwen";
  chat_model = "qwen";
  investigator_model = "qwen";
  timeout = 60;
  completions_path = none;
  consecutive_failures = 0;
  cooldown_until = 0;
}

started : new_adapter "http://llm:8080/" "key" "qwen" "" "" 60 ≡ start
unfolding new_adapter strip_right
started = refl

-- Only Open WebUI's path answers.
abbrev server : String → Option ℕ
server path = if path == "/api/chat/completions" then some 422 else some 404

abbrev at : ℕ → Clock
at t = record { checked = t; started = t; recorded = t + second; finished = t + second }

abbrev ask : Prompt
ask = record { system_prompt = ""; user_prompt = "Is it known?"; max_tokens = 200; temperature = 6 }

abbrev message : String → Message
message text = record {
  content = present text;
  reasoning_content = missing;
  reasoning = present "Hm.\nYES";
}

abbrev reply : String → Answer Body
reply text = replied 200 "" (
    inr (record {
      keys = "choices" ∷ [];
      choices = some (present (message text) ∷ []);
      message = missing;
      model = none;
      usage = present (some 12);
    }))

abbrev loads : String → Option Chunk
loads data_str =
    if data_str == "{}"
    then none
    else some (record {
      choices = some (present (some data_str) ∷ []);
      message = missing;
      model = some "qwen3";
      usage = none;
    })

abbrev lost : ℕ → Call
lost t = completion server timed_out (at t) ask

abbrev talk : ChatPrompt
talk = record {
  messages = ("user", "Hello") ∷ [];
  max_tokens = 1024;
  temperature = 10;
  model = none;
}

abbrev stream : Answer Stream
stream = replied 200 "" (record {
  lines = "data: Hi" ∷ ": ping" ∷ "data: {}" ∷ "data: there" ∷ "data: [DONE]" ∷ "data: no" ∷ [];
  ending = closed;
})

abbrev failures : List Call
failures = lost 1 ∷ lost 2 ∷ lost 3 ∷ []

three_cool :
    let (tired, sent) = run_calls loads failures start in
    (length sent ≡ 5)
    × ((complete server (reply "YES") (at 4) ask tired).response.error ≡ some in_cooldown)
unfolding run_calls complete is_in_cooldown record_failure
three_cool = (refl, refl)

from_stream :
    let o = chat server loads stream (at 1) talk start in
    (o.response.text ≡ "Hithere") × (o.response.model ≡ "qwen3") × (o.response.success ≡ true)
unfolding chat is_in_cooldown has_prefix strip_right strip_left is_space record_success
from_stream = (refl, refl, refl)

from_reasons : (complete server (reply " ") (at 1) ask start).response.text ≡ "YES"
unfolding complete is_in_cooldown strip_right strip_left is_space record_success
from_reasons = refl

run_calls-resumes_example :
    let a' = (run_calls loads failures start).0 in
    let o = complete server (reply "YES") (at (100 * second)) ask a' in
    ((path : String) × (probes : List Request) × (o.sent
        ≡ probes ++ completion_request a' ask path ∷ []))
    × (o.response ≡ respond (read_answer a' (reply "YES")) (101 * second - 100 * second))
run_calls-resumes_example =
    run_calls-resumes loads (2 * second) failures start server (reply "YES") (at (100 * second)) ask
      (omega arith, (omega arith, (omega arith, tt))) (omega arith) (omega arith)

abbrev twice : Adapter
twice = record {
  base_url = "http://llm:8080";
  api_key = "key";
  model = "qwen";
  chat_model = "qwen";
  investigator_model = "qwen";
  timeout = 60;
  completions_path = some "/api/chat/completions";
  consecutive_failures = 2;
  cooldown_until = 0;
}

two_failures : (run_calls loads (lost 1 ∷ lost 2 ∷ []) start).0 ≡ twice
unfolding run_calls complete is_in_cooldown record_failure
two_failures = refl

run_calls-rests_example :
    let a' = (complete server timed_out (at 3) ask twice).adapter in
    run_calls loads (lost second ∷ conversation server stream (at (5 * second)) talk ∷ []) a'
    ≡ (a', [])
run_calls-rests_example =
    run_calls-rests loads twice server timed_out (at 3) ask
      (lost second ∷ conversation server stream (at (5 * second)) talk ∷ []) (omega arith)
      (omega arith) tt (omega arith, (omega arith, tt))

run_calls-one_path_example :
    let r = run_calls loads (lost second ∷ reset ∷ lost (5 * second) ∷ []) twice in
    All (λ (q : Request). q.url ≡ url_of twice "/api/chat/completions") r.1
    × (length r.1 ≤ 3)
    × (r.0.completions_path ≡ some "/api/chat/completions")
run_calls-one_path_example =
    run_calls-one_path loads (lost second ∷ reset ∷ lost (5 * second) ∷ []) "/api/chat/completions"
      twice refl
