-- ===== src/Adapter/Calls.antt =====
-- A history of an adapter of sentinel_home/agent/llm_adapter.py: calls of `complete`, `chat` and
-- `reset_backoff`, one after the other.
use sentinel_home.Prelude.{ℕ, String, Option, List, [], ◌∷◌, ◌++◌}
use sentinel_home.Adapter.{Adapter, Request, Clock, Answer, reset_backoff}
use sentinel_home.Adapter.Complete.{Body, Prompt, complete}
use sentinel_home.Adapter.Chat.{Chunk, Stream, ChatPrompt, chat}

pub data Call : Type 0 where
  -- the server's statuses for probes, its answer, the clock and the arguments
  completion : (String → Option ℕ) → Answer Body → Clock → Prompt → Call
  conversation : (String → Option ℕ) → Answer Stream → Clock → ChatPrompt → Call
  reset : Call

-- `loads` is `json.loads`.
module _ (loads : String → Option Chunk) where
  -- the adapter that a call leaves, and the requests that it sends
  unfoldable pub perform : Call → Adapter → Adapter × List Request
  unfolding complete chat
  perform (completion server answer clock p) a =
      let o = complete server answer clock p a in (o.adapter, o.sent)
  perform (conversation server answer clock p) a =
      let o = chat server loads answer clock p a in (o.adapter, o.sent)
  perform reset a = (reset_backoff a, [])

  unfoldable pub run_calls : List Call → Adapter → Adapter × List Request
  unfolding perform
  run_calls [] a = (a, [])
  run_calls (c ∷ calls) a =
      let (next, sent) = perform c a in
      let (last, others) = run_calls calls next in (last, sent ++ others)
