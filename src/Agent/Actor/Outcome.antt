-- ===== src/Agent/Actor/Outcome.antt =====
-- What the work on one job changes.
use sentinel_home.Prelude.{
  ◌≢◌, Bool-cases, inl, inr, subst, ℕ, ◌+◌, String, ◌≡◌, refl, sym, ap, Bool, false, Option, some,
  List, [], ◌∷◌, ◌++◌, arith, first, select, length, update_where, if_cases, option_cases,
  length-append, ltb, not, ◌==◌, nat_eq, string_eq, if◌then◌else◌, Distinct, All, map,
}
use sentinel_home.Models.{Job, Triage, Rule, Database}
use sentinel_home.Critic.{Result}
use sentinel_home.Agent.Tasks.{Task, Prompt, Response}
use sentinel_home.Agent.Briefs.{text_slice}
use sentinel_home.Agent.Actor.{
  Cycle, rule_of, count_for_rule, actor_finding, conclude, judge_job, try_job, int_of, weigh,
}

-- The work on a job between its writes to the job: jobs, errors and the count of findings.
pub record Worked (a b : Cycle) : Type 0 where
  pub jobs : b.db.jobs ≡ a.db.jobs
  pub errors : b.stats.errors ≡ a.stats.errors
  pub findings :
      length b.db.findings + a.stats.findings_created
      ≡ length a.db.findings + b.stats.findings_created

count_for_rule-jobs :
    (job : Job) (f : Rule → Rule) (db : Database) → (count_for_rule job f db).jobs ≡ db.jobs
unfolding count_for_rule
count_for_rule-jobs job f db =
    option_cases (λ (d : Database). d.jobs ≡ db.jobs) (rule_of job db) db _ (λ e. refl)
      (λ r e. refl)

count_for_rule-findings :
    (job : Job) (f : Rule → Rule) (db : Database) → (count_for_rule job f db).findings ≡ db.findings
unfolding count_for_rule
count_for_rule-findings job f db =
    option_cases (λ (d : Database). d.findings ≡ db.findings) (rule_of job db) db _ (λ e. refl)
      (λ r e. refl)

conclude-Worked :
    (now : ℕ) (job : Job) (triage invest : Result) (c : Cycle)
    → Worked c (conclude now job triage invest c)
unfolding conclude
conclude-Worked now job triage invest c =
    if_cases (Worked c) (not invest.valid) _ _
      (λ e. record { jobs = refl; errors = refl; findings = refl })
      (λ e.
        if_cases (Worked c) (invest.choice == "TRUE_POSITIVE") _ _
          (λ e. record {
            jobs = count_for_rule-jobs job _ _;
            errors = refl;
            findings =
                rw
                  (
                    count_for_rule-findings job
                        (λ (r : Rule). record r { true_positive_count = r.true_positive_count + 1 })
                        (record c.db {
                          findings =
                              c.db.findings
                              ++ actor_finding now job triage invest c.db.findings ∷ [];
                        }),
                    length-append c.db.findings
                        (actor_finding now job triage invest c.db.findings ∷ []),
                  )
                  (omega arith);
          })
          (λ e.
            if_cases (Worked c) (invest.choice == "FALSE_POSITIVE") _ _
              (λ e. record {
                jobs = count_for_rule-jobs job _ _;
                errors = refl;
                findings =
                    ap (λ fs. length fs + c.stats.findings_created)
                      (count_for_rule-findings job _ c.db);
              })
              (λ e. record { jobs = refl; errors = refl; findings = refl })))

weigh-Worked :
    (now : ℕ) (job : Job) (triage : Result) (calls : ℕ) (invest : Result × ℕ) (c : Cycle)
    → Worked c (weigh now job triage calls invest c).0
unfolding weigh
weigh-Worked now job triage calls (invest, calls') c =
    let kept : Worked c (record c { calls = calls }) = record {
      jobs = refl;
      errors = refl;
      findings = refl;
    } in
    let rated : Cycle = record c {
      calls = calls';
      stats = record c.stats { triaged = c.stats.triaged + 1 };
    } in
    let w = conclude-Worked now job triage invest rated in
    if_cases (λ (r : Cycle × Triage). Worked c r.0) (not triage.valid) _ _ (λ e. kept)
      (λ e.
        if_cases (λ (r : Cycle × Triage). Worked c r.0) (ltb (int_of 0 triage.choice) 3) _ _
          (λ e. record { jobs = refl; errors = refl; findings = refl })
          (λ e. record { jobs = w.jobs; errors = w.errors; findings = w.findings }))

module _ (strftime : ℕ → String) (ask : ℕ → Task → Prompt → Response) (now : ℕ) where
  judge_job-Worked :
      (job : Job) (message extra : String) (c : Cycle)
      → Worked c (judge_job strftime ask now job message extra c).0
  unfolding judge_job
  judge_job-Worked job message extra c = weigh-Worked now job _ _ _ c

  pub try_job-Worked : (job : Job) (c : Cycle) → Worked c (try_job strftime ask now job c).0
  unfolding try_job
  try_job-Worked job c =
      option_cases (λ (r : Cycle × Option Triage). Worked c r.0)
        (text_slice "message" 1000 job.context) _ _ (λ e. same c)
        (λ message e.
          option_cases (λ (r : Cycle × Option Triage). Worked c r.0)
            (text_slice "context" 500 job.context) _ _ (λ e. same c)
            (λ extra e. judge_job-Worked job message extra c))
    where
      same : (d : Cycle) → Worked d d
      same d = record { jobs = refl; errors = refl; findings = refl }

-- Writes to the row of a key, and how many rows answer a question afterwards.
abbrev pub bit : Bool → ℕ
bit b = if b then 1 else 0

abbrev pub job_ids : List Job → List ℕ
job_ids = map (λ (j : Job). j.id)

module _ (p : Job → Bool) (f : Job → Job) where
  update_where-absent :
      (k : ℕ) (jobs : List Job)
      → All (λ n. k ≢ n) (job_ids jobs)
      → update_where (λ j. j.id == k) f jobs ≡ jobs
  update_where-absent k [] h = refl
  update_where-absent k (j ∷ jobs) h =
      let other : (j.id == k) ≡ false = ground (arith, h.0) in
      rw (other, update_where-absent k jobs h.1) refl

  pub update_where_count :
      (k : ℕ) (jobs : List Job) (job : Job)
      → Distinct (job_ids jobs)
      → first (λ j. j.id == k) jobs ≡ some job
      → length (select p (update_where (λ j. j.id == k) f jobs)) + bit (p job)
        ≡ length (select p jobs) + bit (p (f job))
  update_where_count k [] job d e = ground (arith, e)
  update_where_count k (j ∷ jobs) job d e = elim (Bool-cases (j.id == k)) [
    | inl hit ↦
        let same : j ≡ job = ground (arith, hit, e) in
        let key : j.id ≡ k = (nat_eq.decides j.id k).0 hit in
        let rest =
          update_where-absent k jobs (subst (λ i. All (λ n. i ≢ n) (job_ids jobs)) key d.0) in
        rw (hit, rest, sym same) (ground arith)
    | inr miss ↦
        let rest = update_where_count k jobs job d.1 (ground (arith, miss, e)) in
        ground (arith, miss, rest)
  ]
