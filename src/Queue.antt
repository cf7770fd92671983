-- ===== src/Queue.antt =====
-- sentinel_home/queue/manager.py, sentinel_home/queue/compaction.py and the endpoints of
-- sentinel_home/api/routes/queue.py that read and write jobs.
pub mod Order
pub mod Verdicts
pub mod Compaction
mod Examples
use sentinel_home.Prelude.{
  ℕ, ◌+◌, String, Bool, true, false, not, ◌&&◌, ◌||◌, Option, none, some, List, [], ◌∷◌, ◌++◌, map,
  length, take, first, select, update_where, ltb, leb, ◌==◌, nat_eq, string_eq, if◌then◌else◌,
}
use sentinel_home.Prelude.Dict.{Dict}
use sentinel_home.Models.{
  Value, Status, pending, processing, done, compacted, failed, Job, Verdict, judged, Finding,
  Database, next_id, get_or,
}
use sentinel_home.Engine.Firing.{new_job}

abbrev pub status_is : Status → Status → Bool
status_is pending pending = true
status_is processing processing = true
status_is done done = true
status_is compacted compacted = true
status_is failed failed = true
status_is _ _ = false

-- an answer: a number of the payload, or the status and code of an error
pub data Answer : Type 0 where
  answered : ℕ → Answer
  refused : ℕ → String → Answer

-- `ORDER BY`, by insertion; `before` is the order of the keys.
unfoldable pub put_in {ℓ} : {A : Type ℓ} → (A → A → Bool) → A → List A → List A
put_in before x [] = x ∷ []
put_in before x (y ∷ ys) = if before x y then x ∷ y ∷ ys else y ∷ put_in before x ys

unfoldable pub order_by {ℓ} : {A : Type ℓ} → (A → A → Bool) → List A → List A
order_by before [] = []
order_by before (x ∷ xs) = put_in before x (order_by before xs)

-- `Job.priority.asc(), Job.created_at.asc()`
abbrev pub by_age : Job → Job → Bool
by_age a b =
    ltb a.priority b.priority || (a.priority == b.priority && leb a.created_at b.created_at)

-- `Job.priority.asc(), Job.created_at.desc()`
abbrev pub by_recency : Job → Job → Bool
by_recency a b =
    ltb a.priority b.priority || (a.priority == b.priority && leb b.created_at a.created_at)

-- `none` is a session that raises.
unfoldable pub get_pending_jobs : ℕ → Database → Option (List Job)
get_pending_jobs limit db =
    if db.available
    then some (take limit (order_by by_age (select (λ j. status_is j.status pending) db.jobs)))
    else none

-- `list_queue_jobs` with the status that the request names
unfoldable pub list_queue_jobs : Status → ℕ → Database → Option (List Job)
list_queue_jobs status limit db =
    if db.available
    then some (take limit (order_by by_recency (select (λ j. status_is j.status status) db.jobs)))
    else none

unfoldable pub count_status : Status → List Job → ℕ
count_status status jobs = length (select (λ j. status_is j.status status) jobs)

-- the counts of `get_queue_status`
pub record QueueCounts : Type 0 where
  pub pending_count : ℕ
  pub processing_count : ℕ
  pub compacted_count : ℕ
  pub done_count : ℕ

unfoldable pub get_queue_status : Database → Option QueueCounts
get_queue_status db =
    if db.available
    then some (record {
      pending_count = count_status pending db.jobs;
      processing_count = count_status processing db.jobs;
      compacted_count = count_status compacted db.jobs;
      done_count = count_status done db.jobs;
    })
    else none

abbrev pub find_job : ℕ → Database → Option Job
find_job id db = first (λ j. j.id == id) db.jobs

abbrev pub set_job : ℕ → (Job → Job) → Database → Database
set_job id f db = record db { jobs = update_where (λ j. j.id == id) f db.jobs }

unfoldable pub mark_processing : ℕ → Database → Database
mark_processing id db =
    if db.available
    then elim (find_job id db) [
      | none ↦ db
      | some job ↦ set_job id (λ (j : Job). record j { status = processing }) db
    ]
    else db

unfoldable pub new_finding : (now id : ℕ) → Job → Verdict → List Finding → Finding
new_finding now id job verdict findings = record {
  id = next_id (λ (f : Finding). f.id) findings;
  job_id = some id;
  ts = now;
  source = "agent";
  rule_id = none;
  rule_name = some job.rule_name;
  device_id = job.device_id;
  severity = get_or "medium" verdict.severity;
  confidence = get_or "medium" verdict.confidence;
  summary = get_or "" verdict.summary;
  reasoning = verdict.reasoning;
  likely_cause = verdict.likely_cause;
  recommended_action = verdict.recommended_action;
  mitre_reference = verdict.mitre_reference;
  needs_followup = get_or false verdict.needs_followup;
  followup_question = verdict.followup_question;
  acknowledged = false;
  dismissed = false;
}

-- the writes of `mark_done` to a job that is there
unfoldable pub finish_job : (now id : ℕ) → Job → Verdict → Database → Database
finish_job now id job verdict db =
    let marked =
      set_job id
        (λ (j : Job). record j {
          status = done;
          verdict = some (judged verdict);
          processed_at = some now;
        })
        db in
    record marked { findings = db.findings ++ new_finding now id job verdict db.findings ∷ [] }

unfoldable pub mark_done : ℕ → ℕ → Verdict → Database → Database
mark_done now id verdict db =
    if db.available
    then elim (find_job id db) [ none ↦ db | some job ↦ finish_job now id job verdict db ]
    else db

-- an endpoint's session that looks for its job first
unfoldable pub with_job : ℕ → Database → (Job → Database × Answer) → Database × Answer
with_job id db act =
    if db.available
    then elim (find_job id db) [ none ↦ (db, refused 404 "NOT_FOUND") | some job ↦ act job ]
    else (db, refused 500 "")

unfoldable pub prioritize_job : ℕ → Database → Database × Answer
prioritize_job id db =
    with_job id db (λ job. (set_job id (λ (j : Job). record j { priority = 1 }) db, answered id))

unfoldable pub update_job_status : ℕ → String → Database → Database × Answer
update_job_status id new_status db =
    if not (new_status == "processing" || new_status == "failed")
    then (db, refused 400 "BAD_REQUEST")
    else with_job id db (λ job. (
      set_job id
          (λ (j : Job). record j {
            status = if new_status == "processing" then processing else failed;
          })
          db,
      answered id,
    ))

unfoldable pub submit_verdict : ℕ → ℕ → Verdict → Database → Database × Answer
submit_verdict now id verdict db =
    with_job id db (λ job. (mark_done now id verdict db, answered id))

unfoldable pub submit_custom_job :
    ℕ → Dict String Value → Option String → Database → Database × Answer
submit_custom_job now context device_id db =
    if not db.available
    then (db, refused 500 "")
    else let job = new_job now "agent" "custom" none device_id 2 context db.jobs in
      (record db { jobs = db.jobs ++ job ∷ [] }, answered job.id)
