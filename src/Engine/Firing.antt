-- ===== src/Engine/Firing.antt =====
-- Cooldowns, and what a rule does when it fires: `_check_cooldown`, `_do_fire`,
-- `_update_rule_counters`, `_create_alert` and `_enqueue_job`. Where the session raises, the handler
-- in each of these logs the error and the caller goes on.
use sentinel_home.Prelude.{
  ℕ, ◌+◌, ◌*◌, String, Bool, true, not, Option, none, some, List, [], ◌∷◌, ◌++◌, ltb, leb,
  update_where, contains, prefix_of, ◌==◌, nat_eq, string_eq, if◌then◌else◌,
}
use sentinel_home.Prelude.Dict.{Dict, lookup, insert}
use sentinel_home.Models.{Rule, Job, Status, Alert, Database, Value, get_text, next_id}
use sentinel_home.Notifications.{send_alert}
use sentinel_home.Engine.State.{CachedRule, Engine, World, Settings, second}

-- `_last_fired.get(rule["id"], 0)`
unfoldable pub last_fire : ℕ → Engine → ℕ
last_fire rule_id engine = elim (lookup rule_id engine.last_fired) [ none ↦ 0 | some t ↦ t ]

unfoldable pub check_cooldown : ℕ → CachedRule → Engine → Bool
check_cooldown now rule engine =
    if leb rule.cooldown_seconds 0
    then true
    else not (ltb now (last_fire rule.id engine + rule.cooldown_seconds * second))

unfoldable pub count_fire : ℕ → Rule → Rule
count_fire now r = record r { fire_count = r.fire_count + 1; last_fired = some now }

unfoldable pub update_rule_counters : ℕ → ℕ → Database → Database
update_rule_counters now rule_id db =
    if db.available
    then record db { rules = update_where (λ r. r.id == rule_id) (count_fire now) db.rules }
    else db

-- `k not in ("rule_name", "rule_id")`
unfoldable pub alert_context : Dict String Value → Dict String Value
alert_context [] = []
alert_context ((k, v) ∷ rest) =
    let kept = alert_context rest in
    if contains k ("rule_name" ∷ "rule_id" ∷ []) then kept else (k, v) ∷ kept

unfoldable pub new_alert :
    ℕ → CachedRule → Option String → String → Dict String Value → List Alert → Alert
new_alert now rule device_id message context alerts = record {
  id = next_id (λ (a : Alert). a.id) alerts;
  ts = now;
  rule_name = rule.name;
  rule_id = some rule.id;
  device_id = device_id;
  severity = rule.severity;
  message = prefix_of 500 message;
  rule_parameters = rule.parameters;
  context = alert_context context;
}

-- A stored alert is sent on to the notification router; one that could not be stored is not.
unfoldable pub create_alert :
    Settings → ℕ → CachedRule → Option String → String → Dict String Value → World → World
create_alert cfg now rule device_id message context w =
    if w.db.available
    then record w {
      db = record (w.db) {
        alerts = w.db.alerts ++ new_alert now rule device_id message context w.db.alerts ∷ [];
      };
      sent =
          (send_alert cfg.channel
            (record {
              rule_name = rule.name;
              severity = rule.severity;
              message = prefix_of 500 message;
              device_id = device_id;
            })
            w.sent).1;
    }
    else w

unfoldable pub new_job :
    ℕ
    → (source rule_name : String) → (rule_id : Option ℕ) → (device_id : Option String)
    → (priority : ℕ) → Dict String Value
    → List Job
    → Job
new_job now source rule_name rule_id device_id priority context jobs = record {
  id = next_id (λ (j : Job). j.id) jobs;
  created_at = now;
  source = source;
  rule_name = rule_name;
  rule_id = rule_id;
  device_id = device_id;
  priority = priority;
  status = Status.pending;
  context = context;
  compacted_count = 0;
  processed_at = none;
  verdict = none;
}

unfoldable pub enqueue_job : ℕ → CachedRule → Option String → Dict String Value → World → World
enqueue_job now rule device_id context w =
    if w.db.available
    then record w {
      db = record (w.db) {
        jobs =
            w.db.jobs
            ++ new_job now "rule_engine" rule.name (some rule.id) device_id rule.priority context
                w.db.jobs
              ∷ [];
      };
    }
    else w

-- what `_do_fire` returns
pub record Fired : Type 0 where
  pub rule : String
  pub action : String
  pub severity : String

-- the writes of `_do_fire` before it branches on the action
unfoldable pub note_fire : ℕ → CachedRule → World → World
note_fire now rule w = record w {
  engine = record (w.engine) { last_fired = insert rule.id now w.engine.last_fired };
  db = update_rule_counters now rule.id w.db;
}

unfoldable pub do_fire :
    Settings → ℕ → CachedRule → Option String → Dict String Value → World → Fired × World
do_fire cfg now rule device_id context w =
    let noted = note_fire now rule w in
    (
      record { rule = rule.name; action = rule.action; severity = rule.severity },
      if rule.action == "alert"
          then create_alert cfg now rule device_id (get_text "message" rule.name context) context
              noted
          else if rule.action == "investigate"
          then enqueue_job now rule device_id context noted
          else noted,
    )
