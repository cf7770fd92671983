-- ===== src/Agent/Actor.antt =====
-- sentinel_home/agent/orchestrator.py, `ActorOrchestrator`: the agent that judges pending jobs and
-- classifies devices.
pub mod Outcome
pub mod Progress
pub mod Queueing
pub mod Classes
use Prim.Native.Char.{code}
use Prim.Native.String.{[], ◌∷◌, ◌++◌ as str_append}
use sentinel_home.Prelude.{
  ℕ, suc, ◌+◌, ◌*◌, ◌-◌, String, [], ◌∷◌, ◌++◌, Bool, true, false, not, ◌&&◌, Option, none, some,
  List, map, select, first, take, update_where, is_nil, truthy, prefix_of, decimal, ltb, leb, ◌==◌,
  nat_eq, string_eq, if◌then◌else◌,
}
use sentinel_home.Prelude.Dict.{Dict, lookup}
use sentinel_home.Models.{
  Value, null, text, number, pending, processing, done, failed, Job, Triage, triaged, Finding, Rule,
  Device, Event, Database, next_id, get_or, get_text,
}
use sentinel_home.Rules.{set_rule}
use sentinel_home.Queue.{status_is, order_by, by_recency, set_job}
use sentinel_home.Critic.{Result}
use sentinel_home.Devices.{is_blank, set_device}
use sentinel_home.Agent.Briefs.{
  or_text, device_str, text_slice, triage_vars, investigate_vars, classify_vars,
}
use sentinel_home.Agent.Tasks.{
  Task, triage_event, investigate_alert, classify_device, Prompt, Response, join, present, run_task,
}

pub record Stats : Type 0 where
  pub triaged : ℕ
  pub investigated : ℕ
  pub findings_created : ℕ
  pub devices_classified : ℕ
  pub errors : ℕ

-- a cycle under way: the database, how many calls of the adapter have been made, and the counts
pub record Cycle : Type 0 where
  pub db : Database
  pub calls : ℕ
  pub stats : Stats

abbrev pub rule_of : Job → Database → Option Rule
rule_of job db = elim job.rule_id [
  | none ↦ none
  | some id ↦ if id == 0 then none else first (λ (r : Rule). r.id == id) db.rules
]

-- `int(s)` of digits
unfoldable pub int_of : ℕ → String → ℕ
int_of acc [] = acc
int_of acc (c ∷ s) = int_of (acc * 10 + (code c - b'0')) s

unfoldable pub actor_finding : ℕ → Job → Result → Result → List Finding → Finding
actor_finding now job triage invest findings = record {
  id = next_id (λ (f : Finding). f.id) findings;
  job_id = some job.id;
  ts = now;
  source = "agent";
  rule_id = job.rule_id;
  rule_name = some job.rule_name;
  device_id = job.device_id;
  severity = get_text "severity" "medium" job.context;
  confidence = "medium";
  summary = str_append "Agent triage: " (or_text triage.choice triage.reasoning);
  reasoning = invest.reasoning;
  likely_cause = none;
  recommended_action = some "Investigate further";
  mitre_reference = none;
  needs_followup = false;
  followup_question = none;
  acknowledged = false;
  dismissed = false;
}

-- a write to the rule of a job, if it has one
unfoldable pub count_for_rule : Job → (Rule → Rule) → Database → Database
count_for_rule job f db = elim (rule_of job db) [ none ↦ db | some rule ↦ set_rule rule.id f db ]

-- what an investigation changes
unfoldable pub conclude : ℕ → Job → Result → Result → Cycle → Cycle
conclude now job triage invest c =
    let counted = record c { stats = record c.stats { investigated = c.stats.investigated + 1 } } in
    if not invest.valid
    then c
    else if invest.choice == "TRUE_POSITIVE"
    then record counted {
      db =
          count_for_rule job
            (λ (r : Rule). record r { true_positive_count = r.true_positive_count + 1 })
            (record c.db {
              findings = c.db.findings ++ actor_finding now job triage invest c.db.findings ∷ [];
            });
      stats = record counted.stats { findings_created = c.stats.findings_created + 1 };
    }
    else if invest.choice == "FALSE_POSITIVE"
    then record counted {
      db =
          count_for_rule job
            (λ (r : Rule). record r { false_positive_count = r.false_positive_count + 1 }) c.db;
    }
    else counted

-- what follows the rating, which was asked with the calls before `calls`; the investigation counts, and
-- its calls, if the rating is 3 or more
unfoldable pub weigh : ℕ → Job → Result → ℕ → Result × ℕ → Cycle → Cycle × Triage
weigh now job triage calls (invest, calls') c =
    let rated = record c.stats { triaged = c.stats.triaged + 1 } in
    let unsure : Triage = record {
      triage_rating = if triage.valid then some triage.choice else none;
      triage_reasoning = triage.reasoning;
      investigation = none;
    } in
    if not triage.valid
    then (record c { calls = calls }, unsure)
    else if ltb (int_of 0 triage.choice) 3
    then (record c { calls = calls; stats = rated }, unsure)
    else (
      conclude now job triage invest (record c { calls = calls'; stats = rated }),
      record unsure { investigation = if invest.valid then some invest.choice else none },
    )

-- jobs that a crash has left in `processing` wait again
unfoldable pub reset_stuck : List Job → List Job
reset_stuck =
    update_where (λ j. status_is j.status processing) (λ (j : Job). record j { status = pending })

abbrev pub queue_of : List Job → List Job
queue_of jobs = take 20 (order_by by_recency (select (λ j. status_is j.status pending) jobs))

module _ (strftime : ℕ → String) (ask : ℕ → Task → Prompt → Response) (now : ℕ) where
  -- the questions about one job, from the sliced texts on
  unfoldable pub judge_job : Job → String → String → Cycle → Cycle × Triage
  judge_job job message extra c =
      let device = device_str job c.db in
      let (triage, calls) =
        run_task ask triage_event (triage_vars job device message extra) c.calls in
      weigh now job triage calls
        (run_task ask investigate_alert (investigate_vars strftime job device message c.db) calls) c

  -- the body of the `try`; `none` is an exception
  unfoldable pub try_job : Job → Cycle → Cycle × Option Triage
  try_job job c = elim (text_slice "message" 1000 job.context) [
    | none ↦ (c, none)
    | some message ↦ elim (text_slice "context" 500 job.context) [
      | none ↦ (c, none)
      | some extra ↦ let (c', verdict) = judge_job job message extra c in (c', some verdict)
    ]
  ]

  abbrev set_in : ℕ → (Job → Job) → Cycle → Cycle
  set_in id f c = record c { db = set_job id f c.db }

  unfoldable pub finish : Job → Cycle → Option Triage → Cycle
  finish job c none = record (set_in job.id (λ (j : Job). record j { status = failed }) c) {
    stats = record c.stats { errors = c.stats.errors + 1 };
  }
  finish job c (some verdict) =
      set_in job.id
        (λ (j : Job). record j {
          status = done;
          processed_at = some now;
          verdict = some (triaged verdict);
        })
        c

  unfoldable pub process_job : Job → Cycle → Cycle
  process_job job c =
      let (c', verdict) =
        try_job job (set_in job.id (λ (j : Job). record j { status = processing }) c) in
      finish job c' verdict

  unfoldable pub process_jobs : List Job → Cycle → Cycle
  process_jobs [] c = c
  process_jobs (job ∷ jobs) c = process_jobs jobs (process_job job c)

  unfoldable pub process_queue : Cycle → Cycle
  process_queue c =
      let jobs = reset_stuck c.db.jobs in
      process_jobs (queue_of jobs) (record c { db = record c.db { jobs = jobs } })

  -- The column `last_seen` has `onupdate=func.now()`: the update writes it too.
  unfoldable pub classify_one : Device → Cycle → Cycle
  classify_one device c =
      let (result, calls) = run_task ask classify_device (classify_vars device) c.calls in
      if result.valid
      then record c {
        db = record c.db {
          devices =
              set_device device.mac
                (λ (d : Device). record d {
                  device_type = some result.choice;
                  updated_by = some "agent";
                  last_seen = now;
                })
                c.db.devices;
        };
        calls = calls;
        stats = record c.stats { devices_classified = c.stats.devices_classified + 1 };
      }
      else record c { calls = calls }

  unfoldable pub classify_all : List Device → Cycle → Cycle
  classify_all [] c = c
  classify_all (device ∷ devices) c = classify_all devices (classify_one device c)

  unfoldable pub classify_new_devices : Cycle → Cycle
  classify_new_devices c =
      classify_all (take 5 (select (λ (d : Device). is_blank d.device_type) c.db.devices)) c

  -- `run`; `adapter` says whether there is an adapter that reaches its endpoint. `none` is a skipped
  -- cycle. While every session raises, the first of them ends the cycle.
  unfoldable pub run_actor : Bool → Database → Database × Option Stats
  run_actor adapter db =
      let zero_stats : Stats = record {
        triaged = 0;
        investigated = 0;
        findings_created = 0;
        devices_classified = 0;
        errors = 0;
      } in
      let start : Cycle = record { db = db; calls = 0; stats = zero_stats } in
      let end = classify_new_devices (process_queue start) in
      if not adapter
      then (db, none)
      else if db.available
      then (end.db, some end.stats)
      else (db, some (record zero_stats { errors = 1 }))
