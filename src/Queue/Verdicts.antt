-- ===== src/Queue/Verdicts.antt =====
-- Verdicts: what `submit_verdict` leaves, on each of its branches.
use sentinel_home.Prelude.{
  ℕ, ◌≡◌, ◌≢◌, ◌⊎◌, inl, inr, refl, sym, subst, false, none, some, List, [], ◌∷◌, ◌++◌, arith,
  first, update_where, Option-cases, Bool-cases, ◌==◌, nat_eq,
}
use sentinel_home.Models.{done, Job, Verdict, StoredVerdict, Finding, Database}
use sentinel_home.Queue.{
  answered, refused, find_job, new_finding, finish_job, mark_done, with_job, submit_verdict,
}

-- the job as a verdict leaves it
abbrev pub judged : ℕ → Verdict → Job → Job
judged now verdict j = record j {
  status = done;
  verdict = some (StoredVerdict.judged verdict);
  processed_at = some now;
}

pub find_job-set_job :
    (id : ℕ) (f : Job → Job) (jobs : List Job) (job : Job)
    → ((j : Job) → (f j).id ≡ j.id)
    → first (λ j. j.id == id) jobs ≡ some job
    → first (λ j. j.id == id) (update_where (λ j. j.id == id) f jobs) ≡ some (f job)
find_job-set_job id f [] job keeps e = ground (arith, e)
find_job-set_job id f (j ∷ jobs) job keeps e =
    ground (arith, keeps j, e, find_job-set_job id f jobs job keeps)

pub find_job-other :
    (id other : ℕ) (f : Job → Job) (jobs : List Job)
    → other ≢ id
    → ((j : Job) → (f j).id ≡ j.id)
    → first (λ j. j.id == other) (update_where (λ j. j.id == id) f jobs)
      ≡ first (λ j. j.id == other) jobs
find_job-other id other f [] ne keeps = refl
find_job-other id other f (j ∷ jobs) ne keeps =
    ground (arith, ne, keeps j, find_job-other id other f jobs ne keeps)

-- A verdict on the job was taken: the job is done and holds the verdict, every other job is found as
-- before, and there is one finding more, of this job, device and rule.
pub record Judged (now id : ℕ) (verdict : Verdict) (job : Job) (db db' : Database) : Type 0 where
  pub own : find_job id db' ≡ some (judged now verdict job)
  pub others : (other : ℕ) → other ≢ id → find_job other db' ≡ find_job other db
  pub finding :
      (f : Finding) × (db'.findings ≡ db.findings ++ f ∷ [])
      × (f.job_id ≡ some id)
      × (f.device_id ≡ job.device_id)
      × (f.rule_name ≡ some job.rule_name)

finish_job-Judged :
    (now id : ℕ) (verdict : Verdict) (job : Job) (db : Database)
    → find_job id db ≡ some job
    → Judged now id verdict job db (finish_job now id job verdict db)
unfolding finish_job new_finding
finish_job-Judged now id verdict job db e = record {
  own = find_job-set_job id (judged now verdict) db.jobs job (λ j. refl) e;
  others = λ other ne. find_job-other id other (judged now verdict) db.jobs ne (λ j. refl);
  finding = (new_finding now id job verdict db.findings, refl, refl, refl, refl);
}

-- A submitted verdict on a job that is there is answered and taken, with one new finding; on a job
-- that is not, or while the database raises, it is refused and the database stays as it was.
pub submit_verdict_cases :
    (now id : ℕ) (verdict : Verdict) (db : Database)
    → let (db', answer) = submit_verdict now id verdict db in
      ((db' ≡ db)
        × ((answer ≡ refused 404 "NOT_FOUND" × find_job id db ≡ none)
            ⊎ (answer ≡ refused 500 "" × db.available ≡ false)))
      ⊎ ((answer ≡ answered id)
          × ((job : Job) × (find_job id db ≡ some job) × Judged now id verdict job db db'))
unfolding submit_verdict with_job mark_done
submit_verdict_cases now id verdict db = elim (Bool-cases db.available) [
  | inr down ↦ inl (ground (arith, down), inr (ground (arith, down), down))
  | inl up ↦ elim (Option-cases (find_job id db)) [
    | inl missing ↦ inl (ground (arith, up, missing), inl (ground (arith, up, missing), missing))
    | inr (job, e) ↦
        let left : (submit_verdict now id verdict db).0 ≡ finish_job now id job verdict db =
          ground (arith, up, e) in
        inr (
          ground (arith, up, e),
          (
            job,
            e,
            subst (Judged now id verdict job db) (sym left)
                (finish_job-Judged now id verdict job db e),
          ),
        )
  ]
]
