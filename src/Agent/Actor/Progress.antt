-- ===== src/Agent/Actor/Progress.antt =====
-- The loop over the jobs of a cycle: every round ends its job.
use sentinel_home.Prelude.{
  ℕ, ◌+◌, String, ◌≡◌, ◌≢◌, refl, sym, ◌∙◌, ap, subst, Option, none, some, List, [], ◌∷◌, arith,
  All, Distinct, first, length, update_where, map-update_where, ◌==◌, nat_eq,
}
use sentinel_home.Models.{pending, processing, done, failed, Status, Job, Triage, triaged}
use sentinel_home.Queue.{status_is, set_job, count_status}
use sentinel_home.Queue.Verdicts.{find_job-set_job, find_job-other}
use sentinel_home.Agent.Tasks.{Task, Prompt, Response}
use sentinel_home.Agent.Actor.{Cycle, try_job, finish, process_job, process_jobs}
use sentinel_home.Agent.Actor.Outcome.{Worked, bit, job_ids, update_where_count, try_job-Worked}

-- The cycle `b` has taken `n` jobs more than the cycle `a`, and each is done or has failed.
pub record Advanced (n : ℕ) (a b : Cycle) : Type 0 where
  pub waiting : count_status pending b.db.jobs + n ≡ count_status pending a.db.jobs
  pub under_way : count_status processing b.db.jobs ≡ count_status processing a.db.jobs
  pub failures :
      count_status failed b.db.jobs + a.stats.errors
      ≡ count_status failed a.db.jobs + b.stats.errors
  pub ended :
      count_status done b.db.jobs + b.stats.errors
      ≡ count_status done a.db.jobs + n + a.stats.errors
  pub findings :
      length b.db.findings + a.stats.findings_created
      ≡ length a.db.findings + b.stats.findings_created
  pub ids : job_ids b.db.jobs ≡ job_ids a.db.jobs

abbrev pub Waits : ℕ → List Job → Type 0
Waits k jobs = (row : Job) × (first (λ j. j.id == k) jobs ≡ some row) × (row.status ≡ pending)

-- two writes to the row of a key, the second of which sets its status
twice_count :
    (k : ℕ) (f g : Job → Job) (end s : Status) (jobs : List Job)
    → ((j : Job) → (f j).id ≡ j.id)
    → ((j : Job) → (g j).status ≡ end)
    → Distinct (job_ids jobs)
    → Waits k jobs
    → count_status s (update_where (λ j. j.id == k) g (update_where (λ j. j.id == k) f jobs))
        + bit (status_is pending s)
      ≡ count_status s jobs + bit (status_is end s)
unfolding count_status
twice_count k f g end s jobs keeps ends d (row, here, waits) =
    let p = λ (j : Job). status_is j.status s in
    let once = update_where_count p f k jobs row d here in
    let d' =
      subst Distinct (sym (map-update_where (λ (j : Job). j.id) (λ j. j.id == k) f jobs keeps)) d in
    let again =
      update_where_count p g k (update_where (λ j. j.id == k) f jobs) (f row) d'
        (find_job-set_job k f jobs row keeps here) in
    let from : bit (p row) ≡ bit (status_is pending s) = ap (λ t. bit (status_is t s)) waits in
    let to : bit (p (g (f row))) ≡ bit (status_is end s) =
      ap (λ t. bit (status_is t s)) (ends (f row)) in
    omega (arith, once, again, from, to)

module _ (strftime : ℕ → String) (ask : ℕ → Task → Prompt → Response) (now : ℕ) where
  abbrev started : Job → Cycle → Cycle
  started job c = record c {
    db = set_job job.id (λ (j : Job). record j { status = processing }) c.db;
  }

  -- a last write to the job after work on it
  last_count :
      (job : Job) (g : Job → Job) (end s : Status) (c c' : Cycle)
      → ((j : Job) → (g j).status ≡ end)
      → Distinct (job_ids c.db.jobs)
      → Waits job.id c.db.jobs
      → Worked (started job c) c'
      → count_status s (update_where (λ j. j.id == job.id) g c'.db.jobs) + bit (status_is pending s)
        ≡ count_status s c.db.jobs + bit (status_is end s)
  last_count job g end s c c' ends d waits w =
      ap
        (λ jobs.
          count_status s (update_where (λ j. j.id == job.id) g jobs) + bit (status_is pending s))
        w.jobs
      ∙ twice_count job.id (λ (j : Job). record j { status = processing }) g end s c.db.jobs
          (λ j. refl) ends d waits

  last_ids :
      (job : Job) (g : Job → Job) (c c' : Cycle)
      → ((j : Job) → (g j).id ≡ j.id)
      → Worked (started job c) c'
      → job_ids (update_where (λ j. j.id == job.id) g c'.db.jobs) ≡ job_ids c.db.jobs
  last_ids job g c c' keeps w =
      map-update_where (λ (j : Job). j.id) (λ j. j.id == job.id) g c'.db.jobs keeps
      ∙ ap job_ids w.jobs
      ∙ map-update_where (λ (j : Job). j.id) (λ j. j.id == job.id) _ c.db.jobs (λ j. refl)

  finish-Advanced :
      (job : Job) (c c' : Cycle) (verdict : Option Triage)
      → Distinct (job_ids c.db.jobs)
      → Waits job.id c.db.jobs
      → Worked (started job c) c'
      → Advanced 1 c (finish strftime ask now job c' verdict)
  unfolding finish
  finish-Advanced job c c' none d waits w =
      let count = λ (s : Status).
        last_count job (λ (j : Job). record j { status = failed }) failed s c c' (λ j. refl) d waits
          w in
      record {
        waiting = omega (arith, count pending);
        under_way = omega (arith, count processing);
        failures = omega (arith, count failed, w.errors);
        ended = omega (arith, count done, w.errors);
        findings = omega (arith, w.findings);
        ids = last_ids job _ c c' (λ j. refl) w;
      }
  finish-Advanced job c c' (some verdict) d waits w =
      let g = λ (j : Job). record j {
        status = done;
        processed_at = some now;
        verdict = some (triaged verdict);
      } in
      let count = λ (s : Status). last_count job g done s c c' (λ j. refl) d waits w in
      record {
        waiting = omega (arith, count pending);
        under_way = omega (arith, count processing);
        failures = omega (arith, count failed, w.errors);
        ended = omega (arith, count done, w.errors);
        findings = omega (arith, w.findings);
        ids = last_ids job _ c c' (λ j. refl) w;
      }

  finish-other :
      (k : ℕ) (job : Job) (c : Cycle) (verdict : Option Triage)
      → k ≢ job.id
      → first (λ j. j.id == k) (finish strftime ask now job c verdict).db.jobs
        ≡ first (λ j. j.id == k) c.db.jobs
  unfolding finish
  finish-other k job c none ne = find_job-other job.id k _ c.db.jobs ne (λ j. refl)
  finish-other k job c (some verdict) ne = find_job-other job.id k _ c.db.jobs ne (λ j. refl)

  process_job-Advanced :
      (job : Job) (c : Cycle)
      → Distinct (job_ids c.db.jobs)
      → Waits job.id c.db.jobs
      → Advanced 1 c (process_job strftime ask now job c)
  unfolding process_job
  process_job-Advanced job c d waits =
      let (c', verdict) = try_job strftime ask now job (started job c) in
      finish-Advanced job c c' verdict d waits (try_job-Worked strftime ask now job (started job c))

  process_job-Waits :
      (k : ℕ) (job : Job) (c : Cycle)
      → k ≢ job.id
      → Waits k c.db.jobs
      → Waits k (process_job strftime ask now job c).db.jobs
  unfolding process_job
  process_job-Waits k job c ne (row, here, waits) =
      let (c', verdict) = try_job strftime ask now job (started job c) in
      let w = try_job-Worked strftime ask now job (started job c) in
      (
        row,
        finish-other k job c' verdict ne
            ∙ ap (first (λ j. j.id == k)) w.jobs
            ∙ find_job-other job.id k _ c.db.jobs ne (λ j. refl)
            ∙ here,
        waits,
      )

  pub process_jobs-Advanced :
      (jobs : List Job) (c : Cycle)
      → Distinct (job_ids c.db.jobs)
      → Distinct (job_ids jobs)
      → All (λ (j : Job). Waits j.id c.db.jobs) jobs
      → Advanced (length jobs) c (process_jobs strftime ask now jobs c)
  unfolding process_jobs
  process_jobs-Advanced [] c d u waits = record {
    waiting = omega arith;
    under_way = refl;
    failures = refl;
    ended = omega arith;
    findings = refl;
    ids = refl;
  }
  process_jobs-Advanced (job ∷ jobs) c d u waits =
      let c' = process_job strftime ask now job c in
      let one = process_job-Advanced job c d waits.0 in
      let rest =
        process_jobs-Advanced jobs c' (subst Distinct (sym one.ids) d) u.1
          (still jobs u.0 waits.1) in
      record {
        waiting = omega (arith, one.waiting, rest.waiting);
        under_way = rest.under_way ∙ one.under_way;
        failures = omega (arith, one.failures, rest.failures);
        ended = omega (arith, one.ended, rest.ended);
        findings = omega (arith, one.findings, rest.findings);
        ids = rest.ids ∙ one.ids;
      }
    where
      still :
          (js : List Job)
          → All (λ n. job.id ≢ n) (job_ids js)
          → All (λ (j : Job). Waits j.id c.db.jobs) js
          → All (λ (j : Job). Waits j.id (process_job strftime ask now job c).db.jobs) js
      still [] apart h = tt
      still (j ∷ js) apart h =
          (process_job-Waits j.id job c (λ same. apart.0 (sym same)) h.0, still js apart.1 h.1)
