-- ===== src/Rules.antt =====
-- sentinel_home/api/routes/rules.py: the rule endpoints. A handler answers with a payload or an HTTP
-- error and returns the database it leaves; a session that raises makes it answer 500.
pub mod Frame
pub mod Numbering
pub mod Rollback
pub mod Keeping
pub mod Frozen
pub mod Reload
pub mod Actions
mod Examples
use sentinel_home.Prelude.{
  ℕ, suc, ◌+◌, String, Bool, true, false, not, ◌&&◌, ◌||◌, Option, none, some, List, [], ◌∷◌, ◌++◌,
  map, first, any, select, update_where, lower, truthy, ◌==◌, nat_eq, string_eq, if◌then◌else◌,
}
use sentinel_home.Models.{
  Parameters, Rule, RuleVersion, Job, Finding, Alert, Database, greatest, next_id, get_or,
}
use sentinel_home.Engine.State.{Engine, World}

-- The keys of the request bodies; `none` is an absent key. `notes` may be there and null.
pub record Body : Type 0 where
  pub name : Option String
  pub source : Option String
  pub description : Option String
  pub category : Option String
  pub severity : Option String
  pub priority : Option ℕ
  pub enabled : Option Bool
  pub parameters : Option Parameters
  pub action : Option String
  pub cooldown_seconds : Option ℕ
  pub notes : Option (Option String)
  pub changed_by : Option String
  pub change_reason : Option String

-- `{}` as parameters
abbrev pub no_parameters : Parameters
no_parameters = record {
  match_source = none;
  match_event_types = none;
  match_fields = none;
  match_patterns = none;
  check_baseline = none;
  check_smb_whitelist = none;
  window_seconds = none;
  event_threshold = none;
  repeat_threshold = none;
  distinct_ports_threshold = none;
}

-- an answer: the id that the payload carries, or the status and code of an error
pub data Answer : Type 0 where
  answered : ℕ → Answer
  refused : ℕ → String → Answer

-- `session.query(Rule).filter(Rule.id == id).first()`
abbrev pub find_rule : ℕ → Database → Option Rule
find_rule id db = first (λ r. r.id == id) db.rules

-- writes to the attributes of a row that a session has loaded
abbrev pub set_rule : ℕ → (Rule → Rule) → Database → Database
set_rule id f db = record db { rules = update_where (λ r. r.id == id) f db.rules }

-- a handler's session that looks for its rule first
unfoldable pub with_rule : ℕ → Database → (Rule → Database × Answer) → Database × Answer
with_rule id db act =
    if db.available
    then elim (find_rule id db) [ none ↦ (db, refused 404 "NOT_FOUND") | some rule ↦ act rule ]
    else (db, refused 500 "")

abbrev pub versions_of : ℕ → List RuleVersion → List RuleVersion
versions_of id = select (λ v. v.rule_id == id)

-- `coalesce(max(version), 0)` over the versions of a rule
abbrev pub newest_version : ℕ → List RuleVersion → ℕ
newest_version id versions =
    greatest (map (λ (v : RuleVersion). v.version) (versions_of id versions))

unfoldable pub snapshot : Rule → String → String → List RuleVersion → RuleVersion
snapshot rule changed_by reason versions = record {
  rule_id = rule.id;
  version = newest_version rule.id versions + 1;
  parameters = rule.parameters;
  severity = rule.severity;
  enabled = rule.enabled;
  cooldown_seconds = rule.cooldown_seconds;
  changed_by = changed_by;
  change_reason = reason;
  fire_count_at_change = rule.fire_count;
  tp_count_at_change = rule.true_positive_count;
  fp_count_at_change = rule.false_positive_count;
}

abbrev pub snapshot_rule : Rule → String → String → Database → Database
snapshot_rule rule changed_by reason db = record db {
  versions = db.versions ++ snapshot rule changed_by reason db.versions ∷ [];
}

unfoldable pub new_rule : String → String → Body → List Rule → Rule
new_rule name source body rules = record {
  id = next_id (λ (r : Rule). r.id) rules;
  name = name;
  description = get_or "" body.description;
  category = get_or "network" body.category;
  severity = get_or "medium" body.severity;
  priority = get_or 2 body.priority;
  source = source;
  enabled = get_or true body.enabled;
  approved = source == "user";
  frozen = false;
  parameters = get_or no_parameters body.parameters;
  action = get_or "alert" body.action;
  cooldown_seconds = get_or 300 body.cooldown_seconds;
  fire_count = 0;
  true_positive_count = 0;
  false_positive_count = 0;
  last_fired = none;
  last_tuned = none;
  created_by = source;
  notes = get_or none body.notes;
}

-- `create_rule` once the name is known
unfoldable pub create_named : String → Body → Database → Database × Answer
create_named name body db =
    let source = get_or "agent" body.source in
    if not (source == "agent" || source == "user")
    then (db, refused 400 "BAD_REQUEST")
    else if not db.available
    then (db, refused 500 "")
    else if any (λ (r : Rule). r.name == name) db.rules
    then (db, refused 409 "CONFLICT")
    else (
      record db { rules = db.rules ++ new_rule name source body db.rules ∷ [] },
      answered (next_id (λ (r : Rule). r.id) db.rules),
    )

unfoldable pub create_rule : Body → Database → Database × Answer
create_rule body db = elim body.name [
  | none ↦ (db, refused 400 "BAD_REQUEST")
  | some name ↦ if truthy name then create_named name body db else (db, refused 400 "BAD_REQUEST")
]

-- the assignments of `update_rule`
unfoldable pub apply_update : ℕ → Body → Rule → Rule
apply_update now body rule = record rule {
  parameters = get_or rule.parameters body.parameters;
  severity = get_or rule.severity body.severity;
  enabled = get_or rule.enabled body.enabled;
  cooldown_seconds = get_or rule.cooldown_seconds body.cooldown_seconds;
  action = get_or rule.action body.action;
  priority = get_or rule.priority body.priority;
  description = get_or rule.description body.description;
  notes = get_or rule.notes body.notes;
  last_tuned = some now;
}

-- the session of `update_rule`
unfoldable pub update_row : ℕ → ℕ → Body → Database → Database × Answer
update_row now id body db = with_rule id db (λ rule.
    let changed_by = get_or "agent" body.changed_by in
    if rule.frozen && not (changed_by == "user") then (db, refused 403 "FROZEN") else (
      set_rule id (apply_update now body)
          (snapshot_rule rule changed_by (get_or "" body.change_reason) db),
      answered id,
    ))

-- An update that is answered makes the rule engine read its rules again.
unfoldable pub update_rule : ℕ → ℕ → Body → World → World × Answer
update_rule now id body w =
    let (db, answer) = update_row now id body w.db in
    elim answer [
      | refused status code ↦ (record w { db = db }, refused status code)
      | answered n ↦ (record w { db = db; engine = record (w.engine) { cache_ts = 0 } }, answered n)
    ]

abbrev refers : ℕ → Option ℕ → Bool
refers id none = false
refers id (some n) = n == id

-- an alert, a job or a finding of the rule: SQLite refuses to delete the row under them (`PRAGMA
-- foreign_keys`); no code writes `rule_id` of an event
abbrev pub is_referenced : ℕ → Database → Bool
is_referenced id db =
    any (λ (a : Alert). refers id a.rule_id) db.alerts
    || any (λ (j : Job). refers id j.rule_id) db.jobs
    || any (λ (f : Finding). refers id f.rule_id) db.findings

-- The versions of the rule go with it.
unfoldable pub delete_rule : ℕ → Database → Database × Answer
delete_rule id db = with_rule id db (λ rule.
    if rule.source == "system"
    then (db, refused 403 "FORBIDDEN")
    else if is_referenced id db
    then (db, refused 500 "")
    else (
      record db {
        rules = select (λ r. not (r.id == id)) db.rules;
        versions = select (λ v. not (v.rule_id == id)) db.versions;
      },
      answered id,
    ))

unfoldable pub rule_feedback : ℕ → String → Database → Database × Answer
rule_feedback id feedback db =
    let said = lower feedback in
    if not (said == "tp" || said == "fp")
    then (db, refused 400 "BAD_REQUEST")
    else with_rule id db (λ rule. (
      set_rule id
          (λ (r : Rule).
            if said == "tp"
            then record r { true_positive_count = r.true_positive_count + 1 }
            else record r { false_positive_count = r.false_positive_count + 1 })
          db,
      answered id,
    ))

unfoldable pub freeze_rule : ℕ → Database → Database × Answer
freeze_rule id db =
    with_rule id db
      (λ rule. (set_rule id (λ (r : Rule). record r { frozen = true }) db, answered id))

unfoldable pub unfreeze_rule : ℕ → Database → Database × Answer
unfreeze_rule id db =
    with_rule id db
      (λ rule. (set_rule id (λ (r : Rule). record r { frozen = false }) db, answered id))

unfoldable pub approve_rule : ℕ → Database → Database × Answer
approve_rule id db =
    with_rule id db
      (λ rule. (set_rule id (λ (r : Rule). record r { approved = true }) db, answered id))

abbrev pub find_version : ℕ → ℕ → List RuleVersion → Option RuleVersion
find_version id version = first (λ v. v.rule_id == id && v.version == version)

-- the assignments of `rollback_rule`
unfoldable pub restore : ℕ → RuleVersion → Rule → Rule
restore now target rule = record rule {
  parameters = target.parameters;
  severity = target.severity;
  enabled = target.enabled;
  cooldown_seconds = target.cooldown_seconds;
  last_tuned = some now;
}

-- `reason` is the text of the snapshot, "rollback to v" and the version.
unfoldable pub rollback_rule : ℕ → ℕ → ℕ → String → Database → Database × Answer
rollback_rule now id version reason db = with_rule id db (λ rule.
    elim (find_version id version db.versions) [
      | none ↦ (db, refused 404 "NOT_FOUND")
      | some target ↦
          (set_rule id (restore now target) (snapshot_rule rule "user" reason db), answered id)
    ])

-- the requests that change something, and the router
pub data Request : Type 0 where
  create : Body → Request
  update : ℕ → Body → Request
  delete : ℕ → Request
  feedback : ℕ → String → Request
  freeze unfreeze approve : ℕ → Request
  rollback : ℕ → ℕ → String → Request

-- the database after a request; `update_rule` also writes to the engine
unfoldable pub serve_db : ℕ → Request → Database → Database
serve_db now (create body) db = (create_rule body db).0
serve_db now (update id body) db = (update_row now id body db).0
serve_db now (delete id) db = (delete_rule id db).0
serve_db now (feedback id said) db = (rule_feedback id said db).0
serve_db now (freeze id) db = (freeze_rule id db).0
serve_db now (unfreeze id) db = (unfreeze_rule id db).0
serve_db now (approve id) db = (approve_rule id db).0
serve_db now (rollback id version reason) db = (rollback_rule now id version reason db).0
