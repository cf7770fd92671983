-- ===== src/Critic.antt =====
-- sentinel_home/agent/orchestrator.py, `CriticOrchestrator` with `_run_consensus`, and the checks of
-- sentinel_home/agent/validator.py that it uses: the agent that tunes rules. What the calls of
-- `_run_task` about a rule return, one after the other, is the argument `ask`.
pub mod Consensus
pub mod Tuning
pub mod Limits
mod Examples
use Prim.Native.String.{◌++◌ as str_append}
use sentinel_home.Prelude.{
  ℕ, zero, suc, ◌+◌, ◌*◌, ◌/◌, ◌-◌, String, Bool, true, false, not, ◌&&◌, ◌||◌, Option, none, some,
  List, [], ◌∷◌, select, min, max, ltb, leb, truthy, ◌==◌, nat_eq, string_eq, if◌then◌else◌,
}
use sentinel_home.Models.{Rule, RuleVersion, Database, get_or}
use sentinel_home.Engine.State.{Engine, second}
use sentinel_home.Rules.{snapshot_rule, set_rule, versions_of}

-- `ValidatedResult`, without the parser's confidence
pub record Result : Type 0 where
  pub choice : String
  pub reasoning : Option String
  pub valid : Bool

unfoldable pub check_consensus : Result → Result → Bool
check_consensus a b = a.valid && b.valid && a.choice == b.choice

-- `choices.count(candidate) >= 2` of three choices
abbrev pub has_majority : Result → Result → Result → Result → Bool
has_majority a b c candidate =
    let one_if = λ (r : Result). if r.choice == candidate.choice then 1 else 0 in
    leb 2 (one_if a + one_if b + one_if c)

-- the vote after a tiebreaker
unfoldable pub majority : Result → Result → Result → Option Result
majority a b c =
    if has_majority a b c a
    then some a
    else if has_majority a b c b
    then some b
    else if has_majority a b c c
    then some c
    else none

unfoldable pub run_consensus : (ℕ → Result) → Option Result
run_consensus ask =
    if not (ask 0).valid
    then none
    else if not (ask 1).valid
    then none
    else if check_consensus (ask 0) (ask 1)
    then some (ask 0)
    else if not (ask 2).valid
    then none
    else majority (ask 0) (ask 1) (ask 2)

unfoldable pub sanity_check_rule_eval : String → (fire_count tp_count : ℕ) → Bool
sanity_check_rule_eval choice fire_count tp_count =
    if choice == "DISABLE" && ltb 0 tp_count
    then false
    else if choice == "RAISE" && fire_count == 0
    then false
    else true

-- `AgentCriticConfig`; the threshold of the false positives is a fraction.
pub record CriticConfig : Type 0 where
  pub min_samples : ℕ
  pub fp_threshold : ℕ × ℕ
  pub require_consensus : Bool
  pub conservatism : String
  pub auto_tuning : Bool
  pub max_rule_changes_per_day : ℕ

-- `severity_order.index(severity) if severity in severity_order else 1`
unfoldable pub severity_index : String → ℕ
severity_index severity =
    if severity == "low"
    then 0
    else if severity == "high"
    then 2
    else if severity == "critical"
    then 3
    else 1

abbrev pub severity_at : ℕ → String
severity_at n =
    if n == 0 then "low" else if n == 1 then "medium" else if n == 2 then "high" else "critical"

abbrev pub raised_severity : String → String
raised_severity severity = severity_at (min (severity_index severity + 1) 3)

abbrev pub lowered_severity : String → String
lowered_severity severity = severity_at (severity_index severity - 1)

-- the assignments of `_apply_rule_change` to the rule
unfoldable pub tune : ℕ → String → String → Rule → Rule
tune now choice conservatism rule =
    let tuned = record rule { last_tuned = some now } in
    if choice == "RAISE"
    then record tuned {
      severity = raised_severity rule.severity;
      cooldown_seconds =
          if conservatism == "aggressive" && ltb 60 rule.cooldown_seconds
          then max 60 (rule.cooldown_seconds / 2)
          else rule.cooldown_seconds;
    }
    else if choice == "LOWER"
    then record tuned {
      severity = lowered_severity rule.severity;
      cooldown_seconds =
          if conservatism == "moderate" || conservatism == "aggressive"
          then min 3600 (rule.cooldown_seconds * 3 / 2)
          else rule.cooldown_seconds;
    }
    else if choice == "DISABLE"
    then if conservatism == "conservative"
      then record tuned { severity = lowered_severity rule.severity }
      else record tuned { enabled = false }
    else tuned

unfoldable pub change_reason : Result → String
change_reason result =
    let given = get_or "" result.reasoning in
    let why = if truthy given then given else "no reason" in
    str_append "Critic: " (str_append result.choice (str_append " — " why))

unfoldable pub apply_rule_change : ℕ → Rule → Result → String → Database → Database
apply_rule_change now rule result conservatism db =
    set_rule rule.id (tune now result.choice conservatism)
      (snapshot_rule rule "agent" (change_reason result) db)

-- the newest version of a rule: `.order_by(version.desc()).first()`
abbrev pub newest : List RuleVersion → Option RuleVersion
newest [] = none
newest (v ∷ versions) = elim (newest versions) [
  | none ↦ some v
  | some u ↦ if ltb v.version u.version then some u else some v
]

-- `fire_count` has grown by 50 since the newest version
abbrev pub has_grown : ℕ → Option RuleVersion → Bool
has_grown fire_count none = false
has_grown fire_count (some v) = leb (v.fire_count_at_change + 50) fire_count

-- `none` is a TypeError: SQLite gives `last_fired` back without a time zone, and the idle gate
-- subtracts it from a time with one.
unfoldable pub idle_gate : Rule → Option Bool
idle_gate rule = elim rule.last_fired [ none ↦ some false | some fired ↦ none ]

unfoldable pub needs_evaluation : CriticConfig → Rule → List RuleVersion → Option Bool
needs_evaluation cfg rule versions =
    let total_feedback = rule.true_positive_count + rule.false_positive_count in
    let (part, whole) = cfg.fp_threshold in
    if ltb rule.fire_count cfg.min_samples
    then some false
    else if ltb 0 total_feedback && ltb (part * total_feedback) (rule.false_positive_count * whole)
    then some true
    else if total_feedback == 0 && ltb 50 rule.fire_count && elim rule.last_tuned [
      | none ↦ true
      | some tuned ↦ has_grown rule.fire_count (newest (versions_of rule.id versions))
    ]
    then some true
    else idle_gate rule

pub record Stats : Type 0 where
  pub rules_evaluated : ℕ
  pub changes_applied : ℕ
  pub consensus_failures : ℕ
  pub sanity_blocks : ℕ

-- what the loop of `_evaluate_rules` carries along
pub record Loop : Type 0 where
  pub db : Database
  pub engine : Engine
  pub changes_today : ℕ
  pub stats : Stats

-- the result that the critic acts on: of a consensus, or of one task
unfoldable pub proposal : CriticConfig → (ℕ → Result) → Option Result
proposal cfg ask =
    if cfg.require_consensus
    then run_consensus ask
    else if (ask 0).valid
    then some (ask 0)
    else none

-- the end of a round, from the check of the choice on
unfoldable pub act_on : CriticConfig → ℕ → Rule → Result → Loop → Loop
act_on cfg now rule result s =
    if result.choice == "KEEP"
    then s
    else if not (sanity_check_rule_eval result.choice rule.fire_count rule.true_positive_count)
    then record s { stats = record (s.stats) { sanity_blocks = s.stats.sanity_blocks + 1 } }
    else record {
      db = apply_rule_change now rule result cfg.conservatism s.db;
      engine = record (s.engine) { cache_ts = 0 };
      changes_today = s.changes_today + 1;
      stats = record (s.stats) { changes_applied = s.stats.changes_applied + 1 };
    }

-- a round for a rule that needs evaluation
unfoldable pub evaluate_rule : CriticConfig → ℕ → (ℕ → Result) → Rule → Loop → Loop
evaluate_rule cfg now ask rule s =
    let counted = record s {
      stats = record (s.stats) { rules_evaluated = s.stats.rules_evaluated + 1 };
    } in
    elim (proposal cfg ask) [
      | some result ↦ act_on cfg now rule result counted
      | none ↦
          if cfg.require_consensus
          then record counted {
            stats = record (counted.stats) {
              consensus_failures = counted.stats.consensus_failures + 1;
            };
          }
          else counted
    ]

-- how the loop ends: at the end of the rules or at the daily limit, or by an exception
pub data End : Type 0 where
  finished raised : End

-- The rules are the ones that the query found, as they were then.
unfoldable pub evaluate_all : CriticConfig → ℕ → (ℕ → ℕ → Result) → List Rule → Loop → End × Loop
evaluate_all cfg now ask [] s = (finished, s)
evaluate_all cfg now ask (rule ∷ rules) s = elim (needs_evaluation cfg rule s.db.versions) [
  | none ↦ (raised, s)
  | some false ↦ evaluate_all cfg now ask rules s
  | some true ↦
      if leb cfg.max_rule_changes_per_day s.changes_today
      then (finished, s)
      else evaluate_all cfg now ask rules (evaluate_rule cfg now (ask rule.id) rule s)
]

abbrev pub is_tunable : Rule → Bool
is_tunable r = r.enabled && not r.frozen && r.approved

-- An exception takes back what the session wrote; the counter and the engine's cache stay.
unfoldable pub evaluate_rules : CriticConfig → ℕ → (ℕ → ℕ → Result) → Loop → End × Loop
evaluate_rules cfg now ask s =
    if not s.db.available
    then (raised, s)
    else let (end, s') = evaluate_all cfg now ask (select is_tunable s.db.rules) s in
      elim end [ finished ↦ (finished, s') | raised ↦ (raised, record s' { db = s.db }) ]

pub record Critic : Type 0 where
  pub last_run : Option ℕ
  pub changes_today : ℕ
  pub last_change_reset : Option ℕ

abbrev pub no_stats : Stats
no_stats = record {
  rules_evaluated = 0;
  changes_applied = 0;
  consensus_failures = 0;
  sanity_blocks = 0;
}

-- the daily reset of the counter
unfoldable pub reset_changes : ℕ → Critic → Critic
reset_changes now critic =
    if elim critic.last_change_reset [ none ↦ true | some t ↦ ltb (t + 86400 * second) now ]
    then record critic { changes_today = 0; last_change_reset = some now }
    else critic

-- a cycle with an adapter that can be reached; `none` is a cycle that is skipped
unfoldable pub run_critic :
    CriticConfig → ℕ → (ℕ → ℕ → Result) → Critic → Engine → Database → Option (End × Loop) × Critic
run_critic cfg now ask critic engine db =
    if not cfg.auto_tuning
    then (none, critic)
    else let due = record (reset_changes now critic) { last_run = some now } in
      let out = evaluate_rules cfg now ask (record {
        db = db;
        engine = engine;
        changes_today = due.changes_today;
        stats = no_stats;
      }) in
      (some out, record due { changes_today = out.1.changes_today })
