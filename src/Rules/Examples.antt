-- ===== src/Rules/Examples.antt =====
-- The theorems about sentinel_home/api/routes/rules.py at concrete inputs.
use sentinel_home.Prelude.{
  strip_right, strip_left, is_space, ℕ, ◌+◌, ◌*◌, ◌≡◌, refl, true, false, none, some, List, [], ◌∷◌,
  arith, string_eq,
}
use sentinel_home.Models.{Rule, ParseResult, Database, next_id}
use sentinel_home.Engine.State.{World, Engine, Settings, second}
use sentinel_home.Engine.Loading.{cached_rule, get_rules, active_rules}
use sentinel_home.Engine.Evaluate.{visit_rule}
use sentinel_home.Rules.{
  Body, answered, no_parameters, find_rule, newest_version, snapshot, with_rule, apply_update,
  update_row, update_rule, restore, rollback_rule, Request, create, update, delete, feedback,
  rollback, serve_db,
}
use sentinel_home.Rules.Numbering.{IsNumbered, serve_all, serve_all-IsNumbered}
use sentinel_home.Rules.Rollback.{rollback_rule-update_row}
use sentinel_home.Rules.Keeping.{HasKeys, system_rules, serve_all-system_rules}
use sentinel_home.Rules.Frozen.{Keeps}
use sentinel_home.Rules.Actions.{
  with_row, action_toggle_rule, Form, form_rule, is_refused, create_row, action_create_rule,
  approve_suggestion, lock, toggle, fill_in, Step, api, board, serve_steps,
}
use sentinel_home.Rules.Actions.Locked.{serve_steps-Keeps}
use sentinel_home.Rules.Actions.Unmatched.{visit_rule-action_create_rule}
use sentinel_home.Rules.Reload.{get_rules-update_rule}

abbrev system_rule : Rule
system_rule = record {
  id = 1;
  name = "port_scan";
  description = "";
  category = "network";
  severity = "high";
  priority = 1;
  source = "system";
  enabled = true;
  approved = true;
  frozen = false;
  parameters = no_parameters;
  action = "alert";
  cooldown_seconds = 300;
  fire_count = 0;
  true_positive_count = 0;
  false_positive_count = 0;
  last_fired = none;
  last_tuned = none;
  created_by = "system";
  notes = none;
}

abbrev locked_rule : Rule
locked_rule = record system_rule { id = 2; name = "new_device"; frozen = true }

abbrev db : Database
db = record {
  available = true;
  rules = system_rule ∷ locked_rule ∷ [];
  versions = [];
  patterns = [];
  jobs = [];
  findings = [];
  alerts = [];
  baselines = [];
  devices = [];
  events = [];
}

abbrev no_body : Body
no_body = record {
  name = none;
  source = none;
  description = none;
  category = none;
  severity = none;
  priority = none;
  enabled = none;
  parameters = none;
  action = none;
  cooldown_seconds = none;
  notes = none;
  changed_by = none;
  change_reason = none;
}

abbrev louder : Body
louder = record no_body { severity = some "critical"; cooldown_seconds = some 60 }

abbrev requests : List (ℕ × Request)
requests =
    (1 * second, create (record no_body { name = some "dns_burst" }))
    ∷ (2 * second, update 1 louder)
    ∷ (3 * second, update 2 louder)
    ∷ (4 * second, feedback 1 "TP")
    ∷ (5 * second, rollback 1 1 "rollback to v1")
    ∷ (6 * second, delete 1)
    ∷ (7 * second, delete 3)
    ∷ []

abbrev engine : Engine
engine = record {
  rules_cache = active_rules (db.rules);
  cache_ts = 100 * second;
  windows = [];
  last_fired = [];
  known_macs = none;
  suppressions = [];
  suppressions_ts = 0;
  eval_count = 0;
}

abbrev world : World
world = record { engine = engine; db = db; sent = [] }

db-HasKeys : HasKeys db.rules
db-HasKeys = record {
  ids = ((λ e. omega arith, tt), (tt, tt));
  names = (
    (
      (λ e.
          let h : string_eq.equals "port_scan" "new_device" ≡ true =
            (string_eq.decides "port_scan" "new_device").1 e in
          ground (arith, h)),
      tt,
    ),
    (tt, tt),
  );
}

serve_all-IsNumbered_example : IsNumbered (serve_all requests db)
serve_all-IsNumbered_example = serve_all-IsNumbered requests db (λ id. refl)

serve_all-system_rules_example : system_rules (serve_all requests db) ≡ system_rules db
serve_all-system_rules_example = serve_all-system_rules requests db db-HasKeys

rollback_rule-update_row_example :
    find_rule 1
      (rollback_rule
        (9 * second)
        1
        (newest_version 1 db.versions + 1)
        "rollback to v1"
        (update_row (5 * second) 1 louder db).0).0
    ≡ some (record (apply_update (5 * second) louder system_rule) {
      parameters = no_parameters;
      severity = "high";
      enabled = true;
      cooldown_seconds = 300;
      last_tuned = some (9 * second);
    })
rollback_rule-update_row_example =
    rollback_rule-update_row (5 * second) (9 * second) 1 louder "rollback to v1" db system_rule refl
      refl refl

abbrev form : Form
form = record {
  name = "my rule ";
  description = "";
  severity = "high";
  category = "network";
  action = "alert";
  cooldown_seconds = 300;
  event_type = "fw_block";
  threshold = 5;
  window_seconds = 60;
}

abbrev event : ParseResult
event = record {
  event_type = "fw_block";
  severity = "low";
  category = "network";
  message = "";
  fields = [];
}

abbrev cfg : Settings
cfg = record {
  smb_whitelist = [];
  channel = record { min_severity = "high"; ready = false; notify = λ n. true };
}

found : find_rule 3 (action_create_rule form world).db ≡ some (form_rule form db.rules)
unfolding action_create_rule is_refused create_row form_rule next_id strip_right strip_left is_space
found = refl

locked-Keeps : Keeps 2 locked_rule db
locked-Keeps = (
  locked_rule,
  refl,
  record {
    parameters = refl;
    severity = refl;
    enabled = refl;
    cooldown_seconds = refl;
    action = refl;
    priority = refl;
    frozen = refl;
  },
)

abbrev steps : List Step
steps =
    board (lock 2)
    ∷ api 5 (update 1 louder)
    ∷ board (toggle 1)
    ∷ board (fill_in form)
    ∷ board (approve_suggestion 2)
    ∷ []

serve_steps-Keeps_example : Keeps 2 locked_rule (serve_steps steps db)
serve_steps-Keeps_example = serve_steps-Keeps 2 locked_rule refl steps db refl locked-Keeps

-- The dashboard turns the switch of a frozen rule.
frozen_is_switched :
    find_rule 2 (action_toggle_rule 2 db) ≡ some (record locked_rule { enabled = false })
unfolding action_toggle_rule with_row
frozen_is_switched = refl

abbrev created : Rule
created = form_rule form db.rules

visit_rule-action_create_rule_example :
    visit_rule cfg 7 (cached_rule created) event none world ≡ (some none, world)
visit_rule-action_create_rule_example =
    visit_rule-action_create_rule form cfg 7 event none 3 created world world refl found

updated : (update_rule (101 * second) 1 louder world).1 ≡ answered 1
unfolding update_rule update_row with_rule
updated = refl

get_rules-update_rule_example :
    let w' = (update_rule (101 * second) 1 louder world).0 in
    (get_rules (102 * second) w').engine.rules_cache ≡ active_rules w'.db.rules
get_rules-update_rule_example =
    get_rules-update_rule (101 * second) (102 * second) 1 1 louder world updated (omega arith)

-- A rollback of a frozen rule is not refused: `rollback_rule` does not look at the lock.
frozen_is_rolled_back :
    (serve_all
      ((1, update 2 (record louder { changed_by = some "user" }))
        ∷ (2, rollback 2 1 "rollback to v1")
        ∷ [])
      db).rules
    ≡ system_rule ∷ record locked_rule { last_tuned = some 2 } ∷ []
unfolding serve_db update_row with_rule apply_update snapshot restore rollback_rule
frozen_is_rolled_back = refl
