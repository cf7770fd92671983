-- ===== src/Queue/Compaction.antt =====
-- sentinel_home/queue/compaction.py: collapsing the pending jobs of a device, rule by rule.
pub mod Rows
pub mod Drops
pub mod Counts
pub mod Waiting
pub mod OnePerRule
use Prim.Native.String.{◌++◌ as str_append}
use sentinel_home.Prelude.{
  ℕ, suc, ◌+◌, ◌*◌, ◌-◌, String, Bool, true, false, not, ◌&&◌, Option, none, some, List, [], ◌∷◌,
  ◌++◌, map, length, select, update_where, contains, decimal, min, ltb, leb, ◌==◌, nat_eq,
  string_eq, if◌then◌else◌,
}
use sentinel_home.Prelude.Dict.{Dict, lookup, insert}
use sentinel_home.Models.{Value, pending, compacted, Job, Database, get_or}
use sentinel_home.Engine.State.{second}
use sentinel_home.Queue.{status_is, order_by, by_recency}

abbrev pub is_pending : Job → Bool
is_pending j = status_is j.status pending

abbrev pub is_of : String → Option String → Bool
is_of device none = false
is_of device (some d) = d == device

-- `by_rule.setdefault(job.rule_name, []).append(job)`
unfoldable pub add_to_group : Job → Dict String (List Job) → Dict String (List Job)
add_to_group job groups =
    insert job.rule_name (get_or [] (lookup job.rule_name groups) ++ job ∷ []) groups

unfoldable pub group_by_rule : List Job → Dict String (List Job) → Dict String (List Job)
group_by_rule [] groups = groups
group_by_rule (job ∷ jobs) groups = group_by_rule jobs (add_to_group job groups)

abbrev pub ids_of : List Job → List ℕ
ids_of = map (λ (j : Job). j.id)

abbrev pub oldest : Job → List Job → ℕ
oldest job [] = job.created_at
oldest job (next ∷ rest) = min job.created_at (oldest next rest)

-- the query of `_compact_device`
unfoldable pub pending_for : String → List Job → List Job
pending_for device jobs =
    order_by by_recency (select (λ j. is_of device j.device_id && is_pending j) jobs)

-- pending for two hours or more
unfoldable pub is_stale : ℕ → Job → Bool
is_stale now j = is_pending j && leb (j.created_at + 2 * 3600 * second) now

unfoldable pub devices_of : List Job → List String
devices_of [] = []
devices_of (j ∷ jobs) =
    let rest = devices_of jobs in
    elim j.device_id [ none ↦ rest | some d ↦ if contains d rest then rest else d ∷ rest ]

-- the devices with more than one stale job
unfoldable pub device_ids : ℕ → List Job → List String
device_ids now jobs =
    select (λ d. ltb 1 (length (select (λ j. is_stale now j && is_of d j.device_id) jobs)))
      (devices_of (select (is_stale now) jobs))

-- `isoformat` is `datetime.isoformat`.
module _ (isoformat : ℕ → String) where
  unfoldable pub compaction_note : (now total_dropped : ℕ) → String → ℕ → String
  compaction_note now total_dropped rule_name oldest_ts = str_append (decimal total_dropped) (
      str_append " similar " (
        str_append rule_name (
          str_append " event(s) for this device were collapsed covering the period from " (
            str_append (isoformat oldest_ts)
              (str_append " to " (str_append (isoformat now) "."))))))

  -- the writes to the job that is kept
  unfoldable pub collapse : ℕ → String → Job → List Job → Job → Job
  collapse now rule_name next rest keep =
      let total_dropped = suc (length rest) in
      record keep {
        context = insert "collapsed_events" (Value.number total_dropped) (
            insert "compaction_note"
              (Value.text (compaction_note now total_dropped rule_name (oldest next rest)))
              keep.context);
        compacted_count = keep.compacted_count + total_dropped;
      }

  -- one group: the table after it, and how many jobs were dropped
  unfoldable pub compact_group : ℕ → String → List Job → List Job → List Job × ℕ
  compact_group now rule_name [] jobs = (jobs, 0)
  compact_group now rule_name (keep ∷ []) jobs = (jobs, 0)
  compact_group now rule_name (keep ∷ next ∷ rest) jobs = (
    update_where (λ j. contains j.id (ids_of (next ∷ rest)))
        (λ (j : Job). record j { status = compacted })
        (update_where (λ j. j.id == keep.id) (collapse now rule_name next rest) jobs),
    suc (length rest),
  )

  unfoldable pub compact_groups : ℕ → Dict String (List Job) → List Job → List Job × ℕ
  compact_groups now [] jobs = (jobs, 0)
  compact_groups now ((rule_name, group) ∷ groups) jobs =
      let (collapsed, dropped) = compact_group now rule_name group jobs in
      let (rest, more) = compact_groups now groups collapsed in (rest, dropped + more)

  unfoldable pub compact_device : ℕ → String → List Job → List Job × ℕ
  compact_device now device jobs =
      compact_groups now (group_by_rule (pending_for device jobs) []) jobs

  unfoldable pub compact_devices : ℕ → List String → List Job → List Job × ℕ
  compact_devices now [] jobs = (jobs, 0)
  compact_devices now (device ∷ devices) jobs =
      let (compacted_jobs, dropped) = compact_device now device jobs in
      let (rest, more) = compact_devices now devices compacted_jobs in (rest, dropped + more)

  -- `held` says whether another thread holds the lock; `none` is a session that raises.
  unfoldable pub run_compaction : ℕ → Bool → Database → Database × Option ℕ
  run_compaction now held db =
      if held
      then (db, some 0)
      else if not db.available
      then (db, none)
      else let (jobs, total) = compact_devices now (device_ids now db.jobs) db.jobs in
        (record db { jobs = jobs }, some total)
