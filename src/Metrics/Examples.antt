-- ===== src/Metrics/Examples.antt =====
-- The theorems about metrics at concrete inputs.
use sentinel_home.Prelude.{
  ℕ, ◌+◌, ◌*◌, ◌≡◌, refl, true, false, not, none, some, List, [], ◌∷◌, All, any, length, max,
  nat_eq, ◌==◌, if◌then◌else◌,
}
use sentinel_home.Models.{Value, Event, Finding, Rule, Database}
use sentinel_home.Engine.State.{second}
use sentinel_home.Metrics.{record_fields, Key, Buckets, EventRollup, record_event, flush_counters}
use sentinel_home.Metrics.Counting.{
  Happening, event, flush, held, rolled_up, happen, run_counters, seen, dropped_by,
  run_counters-counted,
}
use sentinel_home.Metrics.Caps.{AreCapped, run_counters-AreCapped}
use sentinel_home.Metrics.Windows.{
  windows_of, enabled_rules, compute_rule_metrics, compute_rule_metrics_once,
}
use sentinel_home.Metrics.Retention.{
  Store, RetentionConfig, is_expired, records_of, run_retention, run_retention-records_of,
}

abbrev wan_block : Key
wan_block = record { source = "iptables"; category = "network"; event_type = "wan_block" }

abbrev block : ℕ → Happening
block now = event now wan_block (("src", Value.text "203.0.113.9") ∷ ("dpt", Value.number 22) ∷ [])

-- two events and a flush, then one and a flush without the database, then one more
abbrev day : List Happening
day = block 1 ∷ block 2 ∷ flush true 3 ∷ block 4 ∷ flush false 5 ∷ block 6 ∷ []

abbrev start : Buckets × List EventRollup
start = ([], [])

run_counters-counted_example :
    let st' = run_counters day start in
    held wan_block st'.0 + rolled_up wan_block st'.1 + dropped_by wan_block day start
    ≡ 0 + 0 + seen wan_block day
run_counters-counted_example = run_counters-counted wan_block day start

one_dropped : dropped_by wan_block day start ≡ 1
unfolding happen record_event record_fields flush_counters
one_dropped = refl

run_counters-AreCapped_example : AreCapped (run_counters day start).0
run_counters-AreCapped_example = run_counters-AreCapped day start tt

abbrev rule : Rule
rule = record {
  id = 7;
  name = "dns_burst";
  description = "";
  category = "dns";
  severity = "low";
  priority = 2;
  source = "pihole";
  enabled = true;
  approved = true;
  frozen = false;
  parameters = record {
    match_source = none;
    match_event_types = none;
    match_fields = none;
    match_patterns = none;
    check_baseline = none;
    check_smb_whitelist = none;
    window_seconds = none;
    event_threshold = none;
    repeat_threshold = none;
    distinct_ports_threshold = none;
  };
  action = "alert";
  cooldown_seconds = 60;
  fire_count = 3;
  true_positive_count = 1;
  false_positive_count = 0;
  last_fired = none;
  last_tuned = none;
  created_by = "system";
  notes = none;
}

abbrev db : Database
db = record {
  available = true;
  rules = rule ∷ [];
  versions = [];
  patterns = [];
  jobs = [];
  findings = [];
  alerts = [];
  baselines = [];
  devices = [];
  events = [];
}

compute_rule_metrics_once_example :
    let (after, answer) = compute_rule_metrics 20000 db [] in
    ((id : ℕ)
      → windows_of 20000 id after
        ≡ (if any (λ (r : Rule). r.id == id) (enabled_rules db) then max 1 0 else 0))
    × ((added : ℕ) × (answer ≡ some added) × (length after ≡ 0 + added))
    × (compute_rule_metrics 20000 db after ≡ (after, some 0))
compute_rule_metrics_once_example = compute_rule_metrics_once 20000 db [] refl

abbrev finding : ℕ → ℕ → Finding
finding id ts = record {
  id = id;
  job_id = none;
  ts = ts;
  source = "agent";
  rule_id = none;
  rule_name = none;
  device_id = none;
  severity = "low";
  confidence = "low";
  summary = "";
  reasoning = none;
  likely_cause = none;
  recommended_action = none;
  mitre_reference = none;
  needs_followup = false;
  followup_question = none;
  acknowledged = true;
  dismissed = false;
}

abbrev settings : RetentionConfig
settings = record { events_days = 30; rollups_days = 90; findings_days = 365; stale_jobs_days = 30 }

abbrev now : ℕ
now = 400 * (86400 * second)

abbrev store : Store
store = record {
  available = true;
  events = [];
  rollups = [];
  findings = finding 1 0 ∷ finding 2 now ∷ [];
  archives = [];
  stale_jobs = [];
  dashboard_stats = [];
  infra_metrics = [];
}

run_retention-records_of_example :
    let s' = (run_retention settings now store).0 in
    All (λ (f : Finding). not (is_expired 365 now f.ts) ≡ true) s'.findings
    × All (λ (e : Event). not (is_expired 30 now e.ts) ≡ true) s'.events
    × ((id : ℕ) → records_of id s' ≡ records_of id store)
run_retention-records_of_example = run_retention-records_of settings now store refl
