-- ===== src/Queue/Examples.antt =====
-- The theorems about the queue at concrete inputs.
use sentinel_home.Prelude.{
  arith, ℕ, ◌≡◌, ◌⊎◌, refl, true, false, none, some, [], ◌∷◌, min, String, contains, if◌then◌else◌,
  ◌*◌, ◌+◌, string_eq, nat_eq,
}
use sentinel_home.Models.{pending, done, Job, Verdict, Database}
use sentinel_home.Queue.{
  answered, refused, get_pending_jobs, count_status, find_job, submit_verdict, order_by, put_in,
}
use sentinel_home.Prelude.Dict.{lookup, insert}
use sentinel_home.Engine.State.{second}
use sentinel_home.Queue.Compaction.{
  device_ids, devices_of, is_stale, pending_for, add_to_group, group_by_rule, compact_group,
  collapse, compact_groups, compact_device, compact_devices, run_compaction,
}
use sentinel_home.Queue.Compaction.Rows.{pending_count}
use sentinel_home.Queue.Compaction.OnePerRule.{of_rule, run_compaction-OnePerRule}
use sentinel_home.Queue.Verdicts.{Judged, submit_verdict_cases}

abbrev job : ℕ → ℕ → ℕ → Job
job id priority created_at = record {
  id = id;
  created_at = created_at;
  source = "rule_engine";
  rule_name = "port_scan";
  rule_id = none;
  device_id = some "aa:bb:cc:dd:ee:ff";
  priority = priority;
  status = pending;
  context = [];
  compacted_count = 0;
  processed_at = none;
  verdict = none;
}

abbrev db : Database
db = record {
  available = true;
  rules = [];
  versions = [];
  patterns = [];
  jobs = job 1 2 100 ∷ record (job 2 0 50) { status = done } ∷ job 3 1 300 ∷ job 4 1 200 ∷ [];
  findings = [];
  alerts = [];
  baselines = [];
  devices = [];
  events = [];
}

abbrev verdict : Verdict
verdict = record {
  severity = some "high";
  confidence = none;
  summary = some "a scan";
  reasoning = none;
  likely_cause = none;
  recommended_action = none;
  needs_followup = none;
  followup_question = none;
  mitre_reference = none;
}

handed_out : get_pending_jobs 2 db ≡ some (job 4 1 200 ∷ job 3 1 300 ∷ [])
unfolding get_pending_jobs order_by put_in
handed_out = refl

submit_verdict_cases_example :
    let (db', answer) = submit_verdict 500 3 verdict db in
    ((db' ≡ db)
      × ((answer ≡ refused 404 "NOT_FOUND" × find_job 3 db ≡ none)
          ⊎ (answer ≡ refused 500 "" × true ≡ false)))
    ⊎ ((answer ≡ answered 3)
        × ((j : Job) × (find_job 3 db ≡ some j) × Judged 500 3 verdict j db db'))
submit_verdict_cases_example = submit_verdict_cases 500 3 verdict db

abbrev stale_db : Database
stale_db = record db { jobs = job 1 2 100 ∷ job 2 1 300 ∷ job 3 1 200 ∷ [] }

abbrev noon : ℕ
noon = 40000 * second

iso : ℕ → String
iso t = "2026-03-18T12:00:00+00:00"

one_left : count_status pending (run_compaction iso noon false stale_db).0.jobs ≡ 1
unfolding count_status run_compaction device_ids devices_of is_stale compact_devices compact_device
    pending_for order_by put_in group_by_rule add_to_group lookup insert compact_groups
    compact_group collapse
one_left = refl

run_compaction-OnePerRule_example :
    let (db', answer) = run_compaction iso noon false stale_db in
    ((device r : String)
      → pending_count (of_rule device r) db'.jobs ≡ (
          if contains device (device_ids noon stale_db.jobs)
          then min 1 (pending_count (of_rule device r) stale_db.jobs)
          else pending_count (of_rule device r) stale_db.jobs))
    × ((total : ℕ) × (answer ≡ some total)
        × (count_status pending db'.jobs + total ≡ count_status pending stale_db.jobs))
run_compaction-OnePerRule_example =
    run_compaction-OnePerRule iso noon stale_db refl
      ((λ e. omega arith, (λ e. omega arith, tt)), ((λ e. omega arith, tt), (tt, tt)))
