-- ===== src/Agent/Actor/Queueing.antt =====
-- A cycle and the queue: which jobs it takes, and what becomes of them.
use sentinel_home.Prelude.{
  ℕ, ◌+◌, String, ◌≡◌, refl, sym, ◌∙◌, ap, subst, Bool, true, some, List, [], ◌∷◌, arith, All,
  Distinct, first, select, min, length, map-update_where, Distinct-select, Distinct-take, All-first,
  All-take, select-All, length-take, if_cases, ◌==◌, nat_eq,
}
use sentinel_home.Models.{pending, processing, done, failed, Status, Job}
use sentinel_home.Queue.{status_is, order_by, put_in, by_recency, count_status}
use sentinel_home.Queue.Order.{length-order_by}
use sentinel_home.Queue.Compaction.Counts.{All-imp, order_by-Distinct}
use sentinel_home.Agent.Tasks.{Task, Prompt, Response}
use sentinel_home.Agent.Actor.{Cycle, reset_stuck, queue_of, process_queue}
use sentinel_home.Agent.Actor.Progress.{Waits, process_jobs-Advanced}
use sentinel_home.Agent.Actor.Outcome.{job_ids}

module _ {κ} (before : Job → Job → Bool) (P : Job → Type κ) where
  put_in-All : (j : Job) (jobs : List Job) → P j → All P jobs → All P (put_in before j jobs)
  unfolding put_in
  put_in-All j [] p h = (p, tt)
  put_in-All j (k ∷ jobs) p h =
      if_cases (All P) (before j k) _ _ (λ e. (p, h)) (λ e. (h.0, put_in-All j jobs p h.1))

  order_by-All : (jobs : List Job) → All P jobs → All P (order_by before jobs)
  unfolding order_by
  order_by-All [] h = tt
  order_by-All (j ∷ jobs) h = put_in-All j (order_by before jobs) h.0 (order_by-All jobs h.1)

status_is_pending : (s : Status) → status_is s pending ≡ true → s ≡ pending
status_is_pending pending e = refl
status_is_pending processing e = ground (arith, e)
status_is_pending done e = ground (arith, e)
status_is_pending Status.compacted e = ground (arith, e)
status_is_pending failed e = ground (arith, e)

-- The jobs that a cycle takes are different rows that wait.
queue_of-Waits :
    (jobs : List Job)
    → Distinct (job_ids jobs)
    → Distinct (job_ids (queue_of jobs)) × All (λ (j : Job). Waits j.id jobs) (queue_of jobs)
queue_of-Waits jobs d =
    let key = λ (j : Job). j.id in
    let is_waiting = λ (j : Job). status_is j.status pending in
    let found = All-first key jobs d in
    let here =
      order_by-All by_recency _ (select is_waiting jobs)
        (select-All (λ (j : Job). first (λ k. k.id == j.id) jobs ≡ some j) is_waiting jobs found) in
    (
      Distinct-take key 20 (order_by by_recency (select is_waiting jobs)) (
          order_by-Distinct by_recency (select is_waiting jobs)
            (Distinct-select key is_waiting jobs d)),
      All-imp _ (λ (j : Job). Waits j.id jobs) (queue_of jobs)
          (λ j h. (j, h.0, status_is_pending j.status h.1))
          (All-take _ 20 (order_by by_recency (select is_waiting jobs)) here),
    )

-- Jobs that were being worked on wait again.
reset_stuck_counts :
    (jobs : List Job)
    → (count_status pending (reset_stuck jobs)
        ≡ count_status pending jobs + count_status processing jobs)
      × (count_status processing (reset_stuck jobs) ≡ 0)
      × (count_status done (reset_stuck jobs) ≡ count_status done jobs)
      × (count_status failed (reset_stuck jobs) ≡ count_status failed jobs)
unfolding reset_stuck count_status
reset_stuck_counts [] = (refl, refl, refl, refl)
reset_stuck_counts (j ∷ jobs) =
    let (a, b, c, d) = reset_stuck_counts jobs in
    (ground (arith, a), ground (arith, b), ground (arith, c), ground (arith, d))

reset_stuck_ids : (jobs : List Job) → job_ids (reset_stuck jobs) ≡ job_ids jobs
unfolding reset_stuck
reset_stuck_ids jobs = map-update_where (λ (j : Job). j.id) _ _ jobs (λ j. refl)

queue_of-length : (jobs : List Job) → length (queue_of jobs) ≡ min 20 (count_status pending jobs)
unfolding count_status
queue_of-length jobs =
    let waiting = select (λ j. status_is j.status pending) jobs in
    length-take 20 (order_by by_recency waiting) ∙ ap (min 20) (length-order_by by_recency waiting)

-- After the queue has been worked through no job is being worked on. The cycle has taken the jobs that
-- were waiting or left over from a crash, at most twenty; those it has not taken wait, and of those it
-- has taken as many have failed as it counts errors, and the others are done. As many findings are new
-- as it counts. The ids of the jobs must be without repetition.
pub process_queue-ended :
    (strftime : ℕ → String) (ask : ℕ → Task → Prompt → Response) (now : ℕ) (c : Cycle)
    → Distinct (job_ids c.db.jobs)
    → let c' = process_queue strftime ask now c in
      let unfinished = count_status pending c.db.jobs + count_status processing c.db.jobs in
      let taken = min 20 unfinished in
      (count_status processing c'.db.jobs ≡ 0)
      × (count_status pending c'.db.jobs + taken ≡ unfinished)
      × (count_status failed c'.db.jobs + c.stats.errors
          ≡ count_status failed c.db.jobs + c'.stats.errors)
      × (count_status done c'.db.jobs + c'.stats.errors
          ≡ count_status done c.db.jobs + taken + c.stats.errors)
      × (length c'.db.findings + c.stats.findings_created
          ≡ length c.db.findings + c'.stats.findings_created)
unfolding process_queue
process_queue-ended strftime ask now c d =
    let jobs = reset_stuck c.db.jobs in
    let start : Cycle = record c { db = record c.db { jobs = jobs } } in
    let d' : Distinct (job_ids jobs) = subst Distinct (sym (reset_stuck_ids c.db.jobs)) d in
    let (different, waits) = queue_of-Waits jobs d' in
    let all_done =
      process_jobs-Advanced strftime ask now (queue_of jobs) start d' different waits in
    let (more, none_left, same_done, same_failed) = reset_stuck_counts c.db.jobs in
    let taken = queue_of-length jobs in
    (
      all_done.under_way ∙ none_left,
      omega (arith, all_done.waiting, more, taken),
      omega (arith, all_done.failures, same_failed),
      omega (arith, all_done.ended, more, taken, same_done),
      all_done.findings,
    )
