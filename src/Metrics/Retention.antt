-- ===== src/Metrics/Retention.antt =====
-- `run_retention` of sentinel_home/metrics/rollup.py: old rows are deleted, old findings archived first.
use sentinel_home.Prelude.{
  ℕ, ◌+◌, ◌*◌, ◌≡◌, refl, ap, String, Bool, true, not, Option, none, some, List, [], ◌∷◌, ◌++◌,
  arith, All, map, length, select, is_nil, ltb, if_cases, select-append, length-append, ◌==◌,
  nat_eq, string_eq, if◌then◌else◌,
}
use sentinel_home.Prelude.Dict.{Dict, insert}
use sentinel_home.Models.{Event, Finding}
use sentinel_home.Engine.State.{second}
use sentinel_home.Metrics.{EventRollup}

pub record FindingArchive : Type 0 where
  pub original_id : ℕ
  pub ts : ℕ
  pub rule_name : Option String
  pub device_id : Option String
  pub severity : String
  pub confidence : String
  pub summary : String
  pub likely_cause : Option String
  pub recommended_action : Option String
  pub outcome : String
  pub source : String

-- the tables of the job; of the last three only the times
pub record Store : Type 0 where
  pub available : Bool
  pub events : List Event
  pub rollups : List EventRollup
  pub findings : List Finding
  pub archives : List FindingArchive
  pub stale_jobs : List ℕ
  pub dashboard_stats : List ℕ
  pub infra_metrics : List ℕ

pub record RetentionConfig : Type 0 where
  pub events_days : ℕ
  pub rollups_days : ℕ
  pub findings_days : ℕ
  pub stale_jobs_days : ℕ

-- `ts < now - timedelta(days=days)`
abbrev pub is_expired : (days now ts : ℕ) → Bool
is_expired days now ts = ltb (ts + days * (86400 * second)) now

unfoldable pub archive : Finding → FindingArchive
archive f = record {
  original_id = f.id;
  ts = f.ts;
  rule_name = f.rule_name;
  device_id = f.device_id;
  severity = f.severity;
  confidence = f.confidence;
  summary = f.summary;
  likely_cause = f.likely_cause;
  recommended_action = f.recommended_action;
  outcome = if f.dismissed then "dismissed" else if f.acknowledged then "ack" else "unresolved";
  source = f.source;
}

-- the rows that a delete leaves, and how many it deletes
unfoldable pub purge : {A : Type 0} → (A → Bool) → List A → List A × ℕ
purge expired rows = (select (λ x. not (expired x)) rows, length (select expired rows))

-- `if count: deleted[key] = count`
abbrev report : String → ℕ → Dict String ℕ → Dict String ℕ
report key count deleted = if count == 0 then deleted else insert key count deleted

unfoldable pub archive_expired : ℕ → ℕ → Store → Store × ℕ
archive_expired days now s =
    let is_old = λ (f : Finding). is_expired days now f.ts in
    let expiring = select is_old s.findings in
    if is_nil expiring then (s, 0) else (
      record s {
        archives = s.archives ++ map archive expiring;
        findings = (purge is_old s.findings).0;
      },
      length expiring,
    )

-- `none` is a session that raises.
unfoldable pub run_retention : RetentionConfig → ℕ → Store → Store × Option (Dict String ℕ)
run_retention settings now s =
    let (events, old_events) =
      purge (λ (e : Event). is_expired settings.events_days now e.ts) s.events in
    let (rollups, old_rollups) =
      purge (λ (r : EventRollup). is_expired settings.rollups_days now r.hour) s.rollups in
    let (archived, old_findings) = archive_expired settings.findings_days now s in
    let (stale_jobs, old_jobs) = purge (is_expired settings.stale_jobs_days now) s.stale_jobs in
    let (dashboard_stats, old_stats) = purge (is_expired 7 now) s.dashboard_stats in
    let (infra_metrics, old_metrics) = purge (is_expired 7 now) s.infra_metrics in
    if not s.available then (s, none) else (
      record archived {
        events = events;
        rollups = rollups;
        stale_jobs = stale_jobs;
        dashboard_stats = dashboard_stats;
        infra_metrics = infra_metrics;
      },
      some (
          report "infra_metrics" old_metrics (
            report "dashboard_stats" old_stats (
              report "stale_jobs" old_jobs (
                report "findings_archived" old_findings (
                  report "findings" old_findings
                    (report "rollups" old_rollups (report "events" old_events []))))))),
    )

-- how many rows of an id the findings and their archive hold
abbrev pub records_of : ℕ → Store → ℕ
records_of id s =
    length (select (λ (f : Finding). f.id == id) s.findings)
    + length (select (λ (a : FindingArchive). a.original_id == id) s.archives)

module _ {A : Type 0} (p : A → Bool) where
  All-select : (xs : List A) → All (λ x. p x ≡ true) (select p xs)
  All-select [] = tt
  All-select (x ∷ xs) =
      if_cases (All (λ y. p y ≡ true)) (p x) _ _ (λ e. (e, All-select xs)) (λ e. All-select xs)

  All-none : (xs : List A) → is_nil (select p xs) ≡ true → All (λ x. not (p x) ≡ true) xs
  All-none [] h = tt
  All-none (x ∷ xs) h = (ground (arith, h), All-none xs (ground (arith, h)))

split_records :
    (is_old : Finding → Bool) (id : ℕ) (findings : List Finding)
    → length (select (λ (f : Finding). f.id == id) (select (λ f. not (is_old f)) findings))
        + length (
            select
              (λ (a : FindingArchive). a.original_id == id)
              (map archive (select is_old findings)))
      ≡ length (select (λ (f : Finding). f.id == id) findings)
unfolding archive
split_records is_old id [] = refl
split_records is_old id (f ∷ findings) = ground (arith, split_records is_old id findings)

archive_expired-records_of :
    (days now id : ℕ) (s : Store) → records_of id (archive_expired days now s).0 ≡ records_of id s
unfolding archive_expired purge
archive_expired-records_of days now id s =
    let is_old = λ (f : Finding). is_expired days now f.ts in
    let expiring = select is_old s.findings in
    if_cases (λ (r : Store × ℕ). records_of id r.0 ≡ records_of id s) (is_nil expiring) _ _
      (λ e. refl)
      (λ e. omega (
        arith,
        split_records is_old id s.findings,
        ap length (
            select-append (λ (a : FindingArchive). a.original_id == id) s.archives
              (map archive expiring)),
        length-append (select (λ (a : FindingArchive). a.original_id == id) s.archives)
            (select (λ (a : FindingArchive). a.original_id == id) (map archive expiring)),
      ))

archive_expired-fresh :
    (days now : ℕ) (s : Store)
    → All
        (λ (f : Finding). not (is_expired days now f.ts) ≡ true)
        (archive_expired days now s).0.findings
unfolding archive_expired purge
archive_expired-fresh days now s =
    let is_old = λ (f : Finding). is_expired days now f.ts in
    if_cases (λ (r : Store × ℕ). All (λ (f : Finding). not (is_old f) ≡ true) r.0.findings)
      (is_nil (select is_old s.findings)) _ _ (λ e. All-none is_old s.findings e)
      (λ e. All-select (λ f. not (is_old f)) s.findings)

-- A run leaves no finding and no event that is older than the configuration allows, and every finding
-- has as many records as before in the table and the archive together, so that none is lost. The
-- database must answer.
pub run_retention-records_of :
    (settings : RetentionConfig) (now : ℕ) (s : Store)
    → s.available ≡ true
    → let s' = (run_retention settings now s).0 in
      All (λ (f : Finding). not (is_expired settings.findings_days now f.ts) ≡ true) s'.findings
      × All (λ (e : Event). not (is_expired settings.events_days now e.ts) ≡ true) s'.events
      × ((id : ℕ) → records_of id s' ≡ records_of id s)
unfolding run_retention purge
run_retention-records_of settings now s up =
    if_cases
      (λ (r : Store × Option (Dict String ℕ)).
        All (λ (f : Finding). not (is_expired settings.findings_days now f.ts) ≡ true) r.0.findings
        × All (λ (e : Event). not (is_expired settings.events_days now e.ts) ≡ true) r.0.events
        × ((id : ℕ) → records_of id r.0 ≡ records_of id s))
      (not s.available) _ _ (λ down. ground (arith, up, down))
      (λ e. (
        archive_expired-fresh settings.findings_days now s,
        All-select (λ (e : Event). not (is_expired settings.events_days now e.ts)) s.events,
        λ id. archive_expired-records_of settings.findings_days now id s,
      ))
