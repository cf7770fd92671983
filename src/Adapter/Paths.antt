-- ===== src/Adapter/Paths.antt =====
-- The path of sentinel_home/agent/llm_adapter.py's requests, which is detected once.
use Prim.Native.String.{◌++◌ as str_append}
use sentinel_home.Prelude.{
  ℕ, ◌≤◌, ◌≡◌, refl, String, Option, some, List, [], ◌∷◌, ◌++◌, arith, All, if_cases, length,
  length-append,
}
use sentinel_home.Adapter.{
  Adapter, Request, Clock, Verdict, recorded, unrecorded, succeeded, Outcome, url_of,
  record_failure, record_success, is_in_cooldown, reset_backoff, detect_completions_path, settle,
  call,
}
use sentinel_home.Adapter.Complete.{completion_request, read_answer, complete}
use sentinel_home.Adapter.Chat.{Chunk, chat_model_of, chat_request, read_stream, chat}
use sentinel_home.Adapter.Calls.{Call, completion, conversation, reset, perform, run_calls}

-- An adapter sends to `path` of the server at `base`.
abbrev pub SendsTo : String → String → Adapter → Type 0
SendsTo base path a = (a.base_url ≡ base) × (a.completions_path ≡ some path)

-- what a call may leave: an adapter for the same path, and at most one request, to that path
abbrev IsSent : String → String → Adapter → List Request → Type 0
IsSent base path a sent =
    SendsTo base path a
    × All (λ (r : Request). r.url ≡ str_append base path) sent
    × (length sent ≤ 1)

settle-SendsTo :
    (base path : String) (v : Verdict) (now : ℕ) (a : Adapter)
    → SendsTo base path a
    → SendsTo base path (settle v now a)
unfolding settle record_failure record_success
settle-SendsTo base path (recorded model failure) now a h = ground (arith, h)
settle-SendsTo base path (unrecorded model tokens failure) now a h = h
settle-SendsTo base path (succeeded text model tokens) now a h = h

is_in_cooldown-SendsTo :
    (base path : String) (now : ℕ) (a : Adapter)
    → SendsTo base path a
    → SendsTo base path (is_in_cooldown now a).1
unfolding is_in_cooldown
is_in_cooldown-SendsTo base path now a h = ground (arith, h)

detect-known :
    (server : String → Option ℕ) (a : Adapter) (path : String)
    → a.completions_path ≡ some path
    → detect_completions_path server a ≡ (a, path, [])
unfolding detect_completions_path
detect-known server a path known = rw known refl

call-IsSent :
    (base path : String) (server : String → Option ℕ) (clock : Clock) (model : String)
    (request : String → Request) (v : Verdict) (a : Adapter)
    → ((path : String) → (request path).url ≡ url_of a path)
    → SendsTo base path a
    → let o = call server clock model request v a in IsSent base path o.adapter o.sent
unfolding call
call-IsSent base path server clock model request v a to h =
    let ready = is_in_cooldown-SendsTo base path clock.checked a h in
    if_cases (λ (o : Outcome). IsSent base path o.adapter o.sent) (is_in_cooldown clock.checked a).0
      _ _ (λ cooling. (ready, tt, omega arith))
      (λ free. rw (detect-known server (is_in_cooldown clock.checked a).1 path ready.1) (
        settle-SendsTo base path v clock.recorded (is_in_cooldown clock.checked a).1 ready,
        (rw (to path, h.0) refl, tt),
        omega arith,
      ))

perform-IsSent :
    (base path : String) (loads : String → Option Chunk) (c : Call) (a : Adapter)
    → SendsTo base path a
    → IsSent base path (perform loads c a).0 (perform loads c a).1
unfolding perform complete chat completion_request chat_request reset_backoff
perform-IsSent base path loads (completion server answer clock p) a h =
    call-IsSent base path server clock a.model (completion_request a p) (read_answer a answer) a
      (λ path. refl) h
perform-IsSent base path loads (conversation server answer clock p) a h =
    let model = chat_model_of p a in
    call-IsSent base path server clock model (chat_request a p model)
      (read_stream loads a.timeout model answer) a (λ path. refl) h
perform-IsSent base path loads reset a h = (h, tt, omega arith)

sent_append :
    (base path : String) (xs ys : List Request)
    → All (λ (r : Request). r.url ≡ str_append base path) xs
    → All (λ (r : Request). r.url ≡ str_append base path) ys
    → All (λ (r : Request). r.url ≡ str_append base path) (xs ++ ys)
sent_append base path [] ys hx hy = hy
sent_append base path (x ∷ xs) ys hx hy = (hx.0, sent_append base path xs ys hx.1 hy)

-- Once a path is known, every later request of any calls goes to it, each call sends one request at
-- most, and the adapter keeps the path, whatever the server answers on it or on another.
pub run_calls-one_path :
    (loads : String → Option Chunk) (calls : List Call) (path : String) (a : Adapter)
    → a.completions_path ≡ some path
    → let r = run_calls loads calls a in
      All (λ (q : Request). q.url ≡ url_of a path) r.1
      × (length r.1 ≤ length calls)
      × (r.0.completions_path ≡ some path)
unfolding run_calls
run_calls-one_path loads calls path a known = let r = go calls a (refl, known) in (r.0, r.1, r.2.1)
  where
    go :
        (calls : List Call) (b : Adapter)
        → SendsTo a.base_url path b
        → let r = run_calls loads calls b in
          All (λ (q : Request). q.url ≡ url_of a path) r.1
          × (length r.1 ≤ length calls)
          × SendsTo a.base_url path r.0
    go [] b h = (tt, omega arith, h)
    go (c ∷ calls) b h =
        let one = perform-IsSent a.base_url path loads c b h in
        let rest = go calls (perform loads c b).0 one.0 in
        let sent = (perform loads c b).1 in
        let others = (run_calls loads calls (perform loads c b).0).1 in
        (
          sent_append a.base_url path sent others one.1 rest.0,
          omega (arith, one.2, rest.1, length-append sent others),
          rest.2,
        )
