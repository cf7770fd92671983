-- ===== src/Adapter/Backoff.antt =====
-- The backoff of sentinel_home/agent/llm_adapter.py over a history of calls: how long a cooldown lasts,
-- and what happens during and after it.
use sentinel_home.Prelude.{
  ℕ, ◌+◌, ◌-◌, ◌≤◌, ◌<◌, ◌≡◌, refl, String, true, false, Option, List, [], ◌∷◌, ◌++◌, inl, inr,
  arith, All, Option-cases, if_cases, nat_eq,
}
use sentinel_home.Adapter.{
  Adapter, Request, Clock, Answer, Verdict, recorded, unrecorded, succeeded, Outcome, max_backoff,
  record_failure, record_success, is_in_cooldown, reset_backoff, detect_completions_path, settle,
  respond, call,
}
use sentinel_home.Adapter.Complete.{Body, Prompt, completion_request, read_answer, complete}
use sentinel_home.Adapter.Chat.{Chunk, chat_model_of, chat_request, read_stream, chat}
use sentinel_home.Adapter.Calls.{Call, completion, conversation, reset, perform, run_calls}

-- No cooldown lasts longer than a minute after `t`.
abbrev pub IsPaced : ℕ → Adapter → Type 0
IsPaced t a = a.cooldown_until ≤ t + max_backoff

-- A call's failure is recorded at `t` or before.
abbrev pub IsBy : ℕ → Call → Type 0
IsBy t (completion server answer clock p) = clock.recorded ≤ t
IsBy t (conversation server answer clock p) = clock.recorded ≤ t
IsBy t reset = Unit

settle-IsPaced :
    (t : ℕ) (v : Verdict) (now : ℕ) (a : Adapter)
    → now ≤ t
    → IsPaced t a
    → IsPaced t (settle v now a)
unfolding settle record_failure record_success
settle-IsPaced t (recorded model failure) now a early paced = ground (arith, early, paced)
settle-IsPaced t (unrecorded model tokens failure) now a early paced = paced
settle-IsPaced t (succeeded text model tokens) now a early paced = omega arith

is_in_cooldown-le :
    (now : ℕ) (a : Adapter) → (is_in_cooldown now a).1.cooldown_until ≤ a.cooldown_until
unfolding is_in_cooldown
is_in_cooldown-le now a = ground arith

pub detect-backoff :
    (server : String → Option ℕ) (a : Adapter)
    → let a' = (detect_completions_path server a).0 in
      (a'.cooldown_until ≡ a.cooldown_until) × (a'.consecutive_failures ≡ a.consecutive_failures)
unfolding detect_completions_path
detect-backoff server a = elim (Option-cases a.completions_path) [
  | inl e ↦ rw e (refl, refl)
  | inr (path, e) ↦ rw e (refl, refl)
]

module _ (server : String → Option ℕ) (clock : Clock) (model : String) (request : String → Request)
    (v : Verdict) (a : Adapter) where
  call-IsPaced :
      (t : ℕ)
      → clock.recorded ≤ t
      → IsPaced t a
      → IsPaced t (call server clock model request v a).adapter
  unfolding call
  call-IsPaced t early paced =
      let ready = (is_in_cooldown clock.checked a).1 in
      let kept : IsPaced t ready = omega (arith, paced, is_in_cooldown-le clock.checked a) in
      if_cases (λ (o : Outcome). IsPaced t o.adapter) (is_in_cooldown clock.checked a).0 _ _
        (λ cooling. kept)
        (λ free.
          settle-IsPaced t v clock.recorded (detect_completions_path server ready).0 early
            (omega (arith, kept, (detect-backoff server ready).0)))

  -- Outside a cooldown the request goes out last, and the response is the verdict's.
  call-sends :
      a.cooldown_until ≤ clock.checked
      → let o = call server clock model request v a in
        ((path : String) × (probes : List Request) × (o.sent ≡ probes ++ request path ∷ []))
        × (o.response ≡ respond v (clock.finished - clock.started))
  unfolding call
  call-sends over =
      let found = detect_completions_path server (is_in_cooldown clock.checked a).1 in
      let free : (is_in_cooldown clock.checked a).0 ≡ false =
        unfold is_in_cooldown in ground (arith, over) in
      rw free ((found.1, found.2, refl), refl)

  -- In a cooldown nothing happens.
  pub call-waits :
      clock.checked < a.cooldown_until
      → let o = call server clock model request v a in (o.adapter ≡ a) × (o.sent ≡ [])
  unfolding call is_in_cooldown
  call-waits early =
      let wait : is_in_cooldown clock.checked a ≡ (true, a) = ground (arith, early) in
      rw wait (refl, refl)

perform-IsPaced :
    (loads : String → Option Chunk) (t : ℕ) (c : Call) (a : Adapter)
    → IsBy t c
    → IsPaced t a
    → IsPaced t (perform loads c a).0
unfolding perform complete chat reset_backoff
perform-IsPaced loads t (completion server answer clock p) a by paced =
    call-IsPaced server clock a.model (completion_request a p) (read_answer a answer) a t by paced
perform-IsPaced loads t (conversation server answer clock p) a by paced =
    let model = chat_model_of p a in
    call-IsPaced server clock model (chat_request a p model)
      (read_stream loads a.timeout model answer) a t by paced
perform-IsPaced loads t reset a by paced = omega arith

run_calls-IsPaced :
    (loads : String → Option Chunk) (t : ℕ) (calls : List Call) (a : Adapter)
    → All (IsBy t) calls
    → IsPaced t a
    → IsPaced t (run_calls loads calls a).0
unfolding run_calls
run_calls-IsPaced loads t [] a by paced = paced
run_calls-IsPaced loads t (c ∷ calls) a by paced =
    run_calls-IsPaced loads t calls (perform loads c a).0 by.1
      (perform-IsPaced loads t c a by.0 paced)

-- Whatever calls came before, a completion that is asked for a minute or more after the last of them is
-- sent to the server, and its response is what the server's answer says. At the start no cooldown may
-- last longer than that.
pub run_calls-resumes :
    (loads : String → Option Chunk) (t : ℕ) (calls : List Call) (a : Adapter)
    (server : String → Option ℕ) (answer : Answer Body) (clock : Clock) (p : Prompt)
    → All (IsBy t) calls
    → a.cooldown_until ≤ t + max_backoff
    → t + max_backoff ≤ clock.checked
    → let a' = (run_calls loads calls a).0 in
      let o = complete server answer clock p a' in
      ((path : String) × (probes : List Request) × (o.sent
          ≡ probes ++ completion_request a' p path ∷ []))
      × (o.response ≡ respond (read_answer a' answer) (clock.finished - clock.started))
unfolding complete
run_calls-resumes loads t calls a server answer clock p by paced after =
    let a' = (run_calls loads calls a).0 in
    call-sends server clock a'.model (completion_request a' p) (read_answer a' answer) a'
      (omega (arith, after, run_calls-IsPaced loads t calls a by paced))
