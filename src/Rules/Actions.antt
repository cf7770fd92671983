-- ===== src/Rules/Actions.antt =====
-- What the dashboard does to rules (sentinel_home/dashboard/routes.py). An exception is swallowed into the
-- answer, which is a page; a session that raises leaves the table as it was.
pub mod Locked
pub mod Unmatched
use sentinel_home.Prelude.{
  ℕ, String, Bool, true, false, not, ◌||◌, Option, none, some, List, [], ◌∷◌, ◌++◌, any, ltb,
  select, strip, truthy, ◌==◌, nat_eq, string_eq, if◌then◌else◌,
}
use sentinel_home.Models.{Parameters, Rule, RuleVersion, Database, next_id}
use sentinel_home.Engine.State.{Engine, World}
use sentinel_home.Rules.{find_rule, set_rule, is_referenced, no_parameters, Request, serve_db}

-- a session that looks for its rule and does nothing if there is none
unfoldable pub with_row : ℕ → Database → (Rule → Database) → Database
with_row id db act =
    if db.available then elim (find_rule id db) [ none ↦ db | some rule ↦ act rule ] else db

unfoldable pub action_approve_rule : ℕ → Database → Database
action_approve_rule id db =
    with_row id db (λ rule. set_rule id (λ (r : Rule). record r { approved = true }) db)

-- The versions of the rule go with it; a rule that alerts, jobs or findings refer to stays.
unfoldable pub action_reject_rule : ℕ → Database → Database
action_reject_rule id db = with_row id db (λ rule.
    if rule.source == "system" || is_referenced id db then db else (record db {
      rules = select (λ (r : Rule). not (r.id == id)) db.rules;
      versions = select (λ (v : RuleVersion). not (v.rule_id == id)) db.versions;
    }))

unfoldable pub action_freeze_rule : ℕ → Database → Database
action_freeze_rule id db =
    with_row id db (λ rule. set_rule id (λ (r : Rule). record r { frozen = true }) db)

unfoldable pub action_unfreeze_rule : ℕ → Database → Database
action_unfreeze_rule id db =
    with_row id db (λ rule. set_rule id (λ (r : Rule). record r { frozen = false }) db)

-- The lock is not looked at.
unfoldable pub action_toggle_rule : ℕ → Database → Database
action_toggle_rule id db =
    with_row id db (λ rule. set_rule id (λ (r : Rule). record r { enabled = not r.enabled }) db)

-- the form of `action_create_rule`
pub record Form : Type 0 where
  pub name : String
  pub description : String
  pub severity : String
  pub category : String
  pub action : String
  pub cooldown_seconds : ℕ
  pub event_type : String
  pub threshold : ℕ
  pub window_seconds : ℕ

-- The parameters that it writes. Its keys `strategy`, `event_type` and `threshold` are none of those that
-- the engine reads.
unfoldable pub form_parameters : Form → Parameters
form_parameters f =
    if ltb 1 f.threshold
    then record no_parameters { window_seconds = some f.window_seconds }
    else no_parameters

unfoldable pub form_rule : Form → List Rule → Rule
unfolding form_parameters
form_rule f rules = record {
  id = next_id (λ (r : Rule). r.id) rules;
  name = strip f.name;
  description = f.description;
  category = f.category;
  severity = f.severity;
  priority = 2;
  source = "user";
  enabled = true;
  approved = true;
  frozen = false;
  parameters = form_parameters f;
  action = f.action;
  cooldown_seconds = f.cooldown_seconds;
  fire_count = 0;
  true_positive_count = 0;
  false_positive_count = 0;
  last_fired = none;
  last_tuned = none;
  created_by = "user";
  notes = none;
}

abbrev is_named : String → Rule → Bool
is_named name r = r.name == name

-- whether the form is turned down: the name is empty or taken, or, once it is stripped, breaks the
-- uniqueness of the column
unfoldable pub is_refused : Form → Database → Bool
is_refused f db =
    not (truthy (strip f.name))
    || not db.available
    || any (is_named f.name) db.rules
    || any (is_named (strip f.name)) db.rules

-- the session of `action_create_rule`
unfoldable pub create_row : Form → Database → Database
create_row f db =
    if is_refused f db then db else record db { rules = db.rules ++ form_rule f db.rules ∷ [] }

-- A new rule makes the rule engine read its rules again.
unfoldable pub action_create_rule : Form → World → World
action_create_rule f w =
    if is_refused f w.db
    then w
    else record w { db = create_row f w.db; engine = record (w.engine) { cache_ts = 0 } }

pub data Action : Type 0 where
  approve_suggestion reject_suggestion lock unlock toggle : ℕ → Action
  fill_in : Form → Action

unfoldable pub act : Action → Database → Database
act (approve_suggestion id) db = action_approve_rule id db
act (reject_suggestion id) db = action_reject_rule id db
act (lock id) db = action_freeze_rule id db
act (unlock id) db = action_unfreeze_rule id db
act (toggle id) db = action_toggle_rule id db
act (fill_in f) db = create_row f db

-- a request to the endpoints of rules, with its clock reading, or an action of the dashboard
pub data Step : Type 0 where
  api : ℕ → Request → Step
  board : Action → Step

unfoldable pub serve_step : Step → Database → Database
serve_step (api now request) db = serve_db now request db
serve_step (board action) db = act action db

abbrev pub serve_steps : List Step → Database → Database
serve_steps [] db = db
serve_steps (step ∷ steps) db = serve_steps steps (serve_step step db)
