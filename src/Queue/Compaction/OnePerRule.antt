-- ===== src/Queue/Compaction/OnePerRule.antt =====
-- A compaction leaves one pending job of each device and rule, and counts the ones it drops.
use sentinel_home.Prelude.{
  ℕ, ◌+◌, String, ◌≡◌, ◌≢◌, refl, sym, ◌∙◌, ap, subst, Bool, true, false, not, ◌&&◌, Option, none,
  some, List, [], ◌∷◌, arith, All, length, select, contains, min, Distinct, if_cases, Bool-cases,
  inl, inr, ◌==◌, nat_eq, string_eq, if◌then◌else◌,
}
use sentinel_home.Prelude.Dict.{lookup}
use sentinel_home.Models.{Job, Database, pending}
use sentinel_home.Queue.{order_by, by_recency, count_status}
use sentinel_home.Queue.Order.{length-select-order_by}
use sentinel_home.Queue.Compaction.{
  ids_of, is_of, group_by_rule, pending_for, compact_device, compact_devices, device_ids,
  run_compaction,
}
use sentinel_home.Queue.Compaction.Rows.{
  Question, pending_count, spared_count, compact_groups-count, compact_groups-ids,
  spared_count-cong,
}
use sentinel_home.Queue.Compaction.Drops.{
  drops_of, repeats, group_by_rule-dropped, group_by_rule-tally, compact_groups-tally,
}
use sentinel_home.Queue.Compaction.Counts.{kept, kept_count, drop_count, repeats_count}
use sentinel_home.Queue.Compaction.Waiting.{
  is_waiting, drops_for, drops_for-others, pending_for-Distinct, two_devices,
}

-- the pending jobs of a device and a rule
abbrev pub of_rule : String → String → Question
of_rule device r id device_id rule_name = is_of device device_id && rule_name == r

any_job : Question
any_job id device_id rule_name = true

module _ (isoformat : ℕ → String) (now : ℕ) where
  compact_device-count :
      (q : Question) (device : String) (jobs : List Job)
      → pending_count q (compact_device isoformat now device jobs).0
        ≡ spared_count q (drops_for device jobs) jobs
  unfolding compact_device lookup
  compact_device-count q device jobs =
      compact_groups-count isoformat now q (group_by_rule (pending_for device jobs) []) jobs
      ∙ spared_count-cong isoformat now q _ (drops_for device jobs) jobs
          (λ x. group_by_rule-dropped [] (pending_for device jobs) [] x tt (λ r. refl))

  compact_device-ids :
      (device : String) (jobs : List Job)
      → ids_of (compact_device isoformat now device jobs).0 ≡ ids_of jobs
  unfolding compact_device
  compact_device-ids device jobs = compact_groups-ids isoformat now _ jobs

  compact_device-total :
      (device : String) (jobs : List Job)
      → (compact_device isoformat now device jobs).1 ≡ repeats [] (pending_for device jobs)
  unfolding compact_device lookup
  compact_device-total device jobs =
      compact_groups-tally isoformat now (group_by_rule (pending_for device jobs) []) jobs
      ∙ group_by_rule-tally [] (pending_for device jobs) [] tt (λ r. refl)
      ∙ zero_plus (repeats [] (pending_for device jobs))
    where
      zero_plus : (n : ℕ) → 0 + n ≡ n
      zero_plus n = omega arith

  waiting_spared :
      (device r : String) (out : ℕ → Bool) (jobs : List Job)
      → spared_count (of_rule device r) out jobs
        ≡ length (
            select
              (λ (j : Job). j.rule_name == r && not (out j.id))
              (select (is_waiting device) jobs))
  waiting_spared device r out [] = refl
  waiting_spared device r out (j ∷ jobs) = ground (arith, waiting_spared device r out jobs)

  waiting_count :
      (device r : String) (jobs : List Job)
      → length (select (λ (j : Job). j.rule_name == r) (select (is_waiting device) jobs))
        ≡ pending_count (of_rule device r) jobs
  waiting_count device r [] = refl
  waiting_count device r (j ∷ jobs) = ground (arith, waiting_count device r jobs)

  compact_device-own :
      (device r : String) (jobs : List Job)
      → Distinct (ids_of jobs)
      → pending_count (of_rule device r) (compact_device isoformat now device jobs).0
        ≡ min 1 (pending_count (of_rule device r) jobs)
  unfolding pending_for
  compact_device-own device r jobs d =
      let queued = order_by by_recency (select (is_waiting device) jobs) in
      compact_device-count (of_rule device r) device jobs
      ∙ waiting_spared device r (drops_for device jobs) jobs
      ∙ sym (length-select-order_by by_recency (kept [] queued r) (select (is_waiting device) jobs))
      ∙ kept_count [] queued r (pending_for-Distinct device jobs d)
      ∙ ap (min 1) (
          length-select-order_by by_recency (λ (j : Job). j.rule_name == r)
            (select (is_waiting device) jobs)
          ∙ waiting_count device r jobs)

  spared_others :
      (device other r : String) (out : ℕ → Bool) (jobs : List Job)
      → device ≢ other
      → All (λ (j : Job). is_waiting device j ≡ false → out j.id ≡ false) jobs
      → spared_count (of_rule other r) out jobs ≡ pending_count (of_rule other r) jobs
  spared_others device other r out [] ne h = refl
  spared_others device other r out (j ∷ jobs) ne h =
      let rest = spared_others device other r out jobs ne h.1 in
      elim (Bool-cases (is_waiting device j)) [
        | inl own ↦
            let foreign : is_of other j.device_id ≡ false =
              two_devices device other j.device_id ne (ground (arith, own)) in
            ground (arith, foreign, rest)
        | inr e ↦ ground (arith, h.0 e, rest)
      ]

  spared_total :
      (device : String) (out : ℕ → Bool) (jobs : List Job)
      → All (λ (j : Job). is_waiting device j ≡ false → out j.id ≡ false) jobs
      → spared_count any_job out jobs + drop_count out (select (is_waiting device) jobs)
        ≡ pending_count any_job jobs
  unfolding any_job
  spared_total device out [] h = omega arith
  spared_total device out (j ∷ jobs) h = ground (arith, h.0, spared_total device out jobs h.1)

  compact_device-other :
      (device other r : String) (jobs : List Job)
      → Distinct (ids_of jobs)
      → device ≢ other
      → pending_count (of_rule other r) (compact_device isoformat now device jobs).0
        ≡ pending_count (of_rule other r) jobs
  compact_device-other device other r jobs d ne =
      compact_device-count (of_rule other r) device jobs
      ∙ spared_others device other r (drops_for device jobs) jobs ne
          (drops_for-others device jobs d)

  compact_device-counted :
      (device : String) (jobs : List Job)
      → Distinct (ids_of jobs)
      → pending_count any_job (compact_device isoformat now device jobs).0
          + (compact_device isoformat now device jobs).1
        ≡ pending_count any_job jobs
  unfolding pending_for
  compact_device-counted device jobs d =
      let waiting = select (is_waiting device) jobs in
      let queued = order_by by_recency waiting in
      let total : (compact_device isoformat now device jobs).1
          ≡ drop_count (drops_for device jobs) waiting =
        compact_device-total device jobs
        ∙ sym (repeats_count [] queued (pending_for-Distinct device jobs d))
        ∙ length-select-order_by by_recency (λ (j : Job). drops_of [] queued j.id) waiting in
      let left = compact_device-count any_job device jobs in
      rw (left, total)
        (spared_total device (drops_for device jobs) jobs (drops_for-others device jobs d))

  compact_devices-own :
      (devices : List String) (device r : String) (jobs : List Job)
      → Distinct (ids_of jobs)
      → pending_count (of_rule device r) (compact_devices isoformat now devices jobs).0 ≡ (
          if contains device devices
          then min 1 (pending_count (of_rule device r) jobs)
          else pending_count (of_rule device r) jobs)
  unfolding compact_devices
  compact_devices-own [] device r jobs d = refl
  compact_devices-own (next ∷ devices) device r jobs d =
      let after = (compact_device isoformat now next jobs).0 in
      let d' : Distinct (ids_of after) =
        subst (λ ns. Distinct ns) (sym (compact_device-ids next jobs)) d in
      let rest = compact_devices-own devices device r after d' in
      elim (Bool-cases (next == device)) [
        | inl own ↦
            let same : next ≡ device = (string_eq.decides next device).0 own in
            let here : pending_count (of_rule device r) after
                ≡ min 1 (pending_count (of_rule device r) jobs) =
              subst
                (λ s. pending_count (of_rule s r) after ≡ min 1 (pending_count (of_rule s r) jobs))
                same (compact_device-own next r jobs d) in
            ground (arith, own, rest, here)
        | inr other ↦
            let ne : next ≢ device =
              λ e. ground (arith, other, (string_eq.decides next device).1 e) in
            ground (arith, other, rest, compact_device-other next device r jobs d ne)
      ]

  compact_devices-counted :
      (devices : List String) (jobs : List Job)
      → Distinct (ids_of jobs)
      → pending_count any_job (compact_devices isoformat now devices jobs).0
          + (compact_devices isoformat now devices jobs).1
        ≡ pending_count any_job jobs
  unfolding compact_devices
  compact_devices-counted [] jobs d = omega arith
  compact_devices-counted (next ∷ devices) jobs d =
      let after = (compact_device isoformat now next jobs).0 in
      let d' : Distinct (ids_of after) =
        subst (λ ns. Distinct ns) (sym (compact_device-ids next jobs)) d in
      omega (arith, compact_devices-counted devices after d', compact_device-counted next jobs d)

  all_pending : (jobs : List Job) → pending_count any_job jobs ≡ count_status pending jobs
  unfolding any_job count_status
  all_pending [] = refl
  all_pending (j ∷ jobs) = ground (arith, all_pending jobs)

  -- A run that gets the lock and the database leaves one pending job of each rule on each device that
  -- had two or more stale jobs, if that device had a pending one of the rule, and as many as before of
  -- each rule on every other device; and it answers with the number of jobs that are no longer
  -- pending. The ids of the jobs must be without repetition.
  pub run_compaction-OnePerRule :
      (db : Database)
      → db.available ≡ true
      → Distinct (ids_of db.jobs)
      → let (db', answer) = run_compaction isoformat now false db in
        ((device r : String)
          → pending_count (of_rule device r) db'.jobs ≡ (
              if contains device (device_ids now db.jobs)
              then min 1 (pending_count (of_rule device r) db.jobs)
              else pending_count (of_rule device r) db.jobs))
        × ((total : ℕ) × (answer ≡ some total)
            × (count_status pending db'.jobs + total ≡ count_status pending db.jobs))
  unfolding run_compaction
  run_compaction-OnePerRule db up d =
      let devices = device_ids now db.jobs in
      let (jobs, total) = compact_devices isoformat now devices db.jobs in
      let ran : run_compaction isoformat now false db ≡ (record db { jobs = jobs }, some total) =
        if_cases (λ (out : Database × Option ℕ). out ≡ (record db { jobs = jobs }, some total))
          (not db.available) (db, none) _ (λ down. ground (arith, up, down)) (λ e. refl) in
      let counted = compact_devices-counted devices db.jobs d in
      rw ran (
        (λ device r. compact_devices-own devices device r db.jobs d),
        (total, refl, rw (sym (all_pending jobs), sym (all_pending db.jobs)) counted),
      )
