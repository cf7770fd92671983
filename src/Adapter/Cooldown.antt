-- ===== src/Adapter/Cooldown.antt =====
-- A cooldown of sentinel_home/agent/llm_adapter.py: what follows a third failure.
use sentinel_home.Prelude.{
  ℕ, zero, suc, ◌+◌, ◌*◌, ◌≤◌, ◌<◌, ◌^◌, ◌≡◌, refl, String, false, Option, List, [], ◌∷◌, ◌≢◌,
  arith, All, ◌==◌, nat_eq,
}
use sentinel_home.Engine.State.{second}
use sentinel_home.Adapter.{
  Failure, Adapter, Clock, Answer, timed_out, raised, replied, recorded, record_failure,
  is_in_cooldown, detect_completions_path, settle, call,
}
use sentinel_home.Adapter.Complete.{Body, Prompt, completion_request, read_answer, complete}
use sentinel_home.Adapter.Chat.{Chunk, chat_model_of, chat_request, read_stream, chat}
use sentinel_home.Adapter.Calls.{Call, completion, conversation, reset, perform, run_calls}
use sentinel_home.Adapter.Backoff.{detect-backoff, call-waits}

-- an answer that never comes, or with a status other than 200
abbrev pub IsLost : {A : Type 0} → Answer A → Type 0
IsLost timed_out = Unit
IsLost (raised error) = Unit
IsLost (replied status text contents) = status ≢ 200

-- a call, but no reset, that is made before `t`
abbrev pub IsCalledBefore : ℕ → Call → Type 0
IsCalledBefore t (completion server answer clock p) = clock.checked < t
IsCalledBefore t (conversation server answer clock p) = clock.checked < t
IsCalledBefore t reset = ⊥

read_answer-lost :
    (a : Adapter) (answer : Answer Body)
    → IsLost answer
    → (model : String) × (failure : Failure) × (read_answer a answer ≡ recorded model failure)
unfolding read_answer
read_answer-lost a timed_out lost = (_, _, refl)
read_answer-lost a (raised error) lost = (_, _, refl)
read_answer-lost a (replied status text body) lost =
    let other : (status == 200) ≡ false = ground (arith, lost) in rw other (_, _, refl)

perform-waits :
    (loads : String → Option Chunk) (c : Call) (a : Adapter)
    → IsCalledBefore a.cooldown_until c
    → perform loads c a ≡ (a, [])
unfolding perform complete chat
perform-waits loads (completion server answer clock p) a early =
    let idle =
      call-waits server clock a.model (completion_request a p) (read_answer a answer) a early in
    rw (idle.0, idle.1) refl
perform-waits loads (conversation server answer clock p) a early =
    let model = chat_model_of p a in
    let idle =
      call-waits server clock model (chat_request a p model)
        (read_stream loads a.timeout model answer) a early in
    rw (idle.0, idle.1) refl
perform-waits loads reset a early = absurd early

run_calls-waits :
    (loads : String → Option Chunk) (calls : List Call) (a : Adapter)
    → All (IsCalledBefore a.cooldown_until) calls
    → run_calls loads calls a ≡ (a, [])
unfolding run_calls
run_calls-waits loads [] a early = refl
run_calls-waits loads (c ∷ calls) a early =
    rw (perform-waits loads c a early.0, run_calls-waits loads calls a early.1) refl

power-positive : (n : ℕ) → 1 ≤ 2 ^ n
power-positive zero = omega arith
power-positive (suc n) = omega (arith, power-positive n)

power-eight : (n : ℕ) → 3 ≤ n → 8 ≤ 2 ^ n
power-eight (suc (suc (suc n))) h = omega (arith, power-positive n)
power-eight (suc (suc zero)) h = absurd (omega arith)
power-eight (suc zero) h = absurd (omega arith)
power-eight zero h = absurd (omega arith)

record_failure-cools :
    (now : ℕ) (a : Adapter)
    → 2 ≤ a.consecutive_failures
    → now + 8 * second ≤ (record_failure now a).cooldown_until
unfolding record_failure
record_failure-cools now a two =
    ground (arith, two, power-eight (a.consecutive_failures + 1) (omega (arith, two)))

All-before :
    (t u : ℕ) (calls : List Call)
    → t ≤ u
    → All (IsCalledBefore t) calls
    → All (IsCalledBefore u) calls
All-before t u [] le h = tt
All-before t u (completion server answer clock p ∷ calls) le h =
    (omega (arith, le, h.0), All-before t u calls le h.1)
All-before t u (conversation server answer clock p ∷ calls) le h =
    (omega (arith, le, h.0), All-before t u calls le h.1)
All-before t u (reset ∷ calls) le h = absurd h.0

complete-cools :
    (a : Adapter) (server : String → Option ℕ) (answer : Answer Body) (clock : Clock) (p : Prompt)
    → 2 ≤ a.consecutive_failures
    → a.cooldown_until ≤ clock.checked
    → IsLost answer
    → clock.recorded + 8 * second ≤ (complete server answer clock p a).adapter.cooldown_until
unfolding complete call settle
complete-cools a server answer clock p two over lost =
    let ready = (is_in_cooldown clock.checked a).1 in
    let free : ((is_in_cooldown clock.checked a).0 ≡ false)
        × (ready.consecutive_failures ≡ a.consecutive_failures) =
      unfold is_in_cooldown in ground (arith, over) in
    let known = (detect_completions_path server ready).0 in
    rw (free.0, (read_answer-lost a answer lost).2)
      (record_failure-cools clock.recorded known
        (omega (arith, two, free.1, (detect-backoff server ready).1)))

-- When a completion is lost after two failures in a row, no call that is made within the next eight
-- seconds sends anything to the server or changes the adapter, unless the backoff is reset.
pub run_calls-rests :
    (loads : String → Option Chunk) (a : Adapter) (server : String → Option ℕ)
    (answer : Answer Body) (clock : Clock) (p : Prompt) (calls : List Call)
    → 2 ≤ a.consecutive_failures
    → a.cooldown_until ≤ clock.checked
    → IsLost answer
    → All (IsCalledBefore (clock.recorded + 8 * second)) calls
    → let a' = (complete server answer clock p a).adapter in run_calls loads calls a' ≡ (a', [])
run_calls-rests loads a server answer clock p calls two over lost early =
    let a' = (complete server answer clock p a).adapter in
    run_calls-waits loads calls a' (
      All-before (clock.recorded + 8 * second) a'.cooldown_until calls
        (complete-cools a server answer clock p two over lost) early)
