-- ===== src/Critic/Examples.antt =====
-- The theorems about the critic at concrete inputs: a noisy rule, a frozen one and one with confirmed
-- true positives.
use sentinel_home.Prelude.{
  ℕ, zero, suc, ◌+◌, ◌-◌, ◌*◌, ◌≤◌, ◌≡◌, ◌↔◌, refl, true, false, none, some, [], ◌∷◌, arith, String,
  length, string_eq,
}
use sentinel_home.Models.{Rule, Database}
use sentinel_home.Engine.State.{Engine, second}
use sentinel_home.Rules.{no_parameters, find_rule}
use sentinel_home.Rules.Keeping.{HasKeys}
use sentinel_home.Critic.{
  Result, CriticConfig, Critic, run_critic, reset_changes, needs_evaluation, run_consensus,
  check_consensus, evaluate_rules, evaluate_all, majority, evaluate_rule, act_on, proposal,
  apply_rule_change, tune, sanity_check_rule_eval, severity_index,
}
use sentinel_home.Critic.Tuning.{database_after, run_critic-untunable, run_critic-confirmed}
use sentinel_home.Critic.Consensus.{Agreed, choice_of, run_consensus_iff}
use sentinel_home.Critic.Limits.{Moves, run_critic_limit, tune_bounds}

abbrev noisy_rule : Rule
noisy_rule = record {
  id = 1;
  name = "port_scan";
  description = "";
  category = "network";
  severity = "high";
  priority = 1;
  source = "system";
  enabled = true;
  approved = true;
  frozen = false;
  parameters = no_parameters;
  action = "alert";
  cooldown_seconds = 300;
  fire_count = 40;
  true_positive_count = 1;
  false_positive_count = 9;
  last_fired = none;
  last_tuned = none;
  created_by = "system";
  notes = none;
}

abbrev locked_rule : Rule
locked_rule = record noisy_rule { id = 2; name = "new_device"; frozen = true }

abbrev db : Database
db = record {
  available = true;
  rules = noisy_rule ∷ locked_rule ∷ [];
  versions = [];
  patterns = [];
  jobs = [];
  findings = [];
  alerts = [];
  baselines = [];
  devices = [];
  events = [];
}

abbrev cfg : CriticConfig
cfg = record {
  min_samples = 20;
  fp_threshold = (1, 2);
  require_consensus = true;
  conservatism = "moderate";
  auto_tuning = true;
  max_rule_changes_per_day = 5;
}

abbrev says : String → Result
says choice = record { choice = choice; reasoning = some "too many false positives"; valid = true }

-- the second answer about a rule differs from the first and the third
abbrev ask : ℕ → ℕ → Result
ask id zero = says "LOWER"
ask id (suc zero) = says "KEEP"
ask id (suc (suc n)) = says "LOWER"

abbrev critic : Critic
critic = record { last_run = none; changes_today = 0; last_change_reset = none }

abbrev engine : Engine
engine = record {
  rules_cache = [];
  cache_ts = 0;
  windows = [];
  last_fired = [];
  known_macs = none;
  suppressions = [];
  suppressions_ts = 0;
  eval_count = 0;
}

abbrev now : ℕ
now = 100000 * second

db-HasKeys : HasKeys db.rules
db-HasKeys = record {
  ids = ((λ e. omega arith, tt), (tt, tt));
  names = (
    (
      λ e.
          let h : string_eq.equals "port_scan" "new_device" ≡ true =
            (string_eq.decides "port_scan" "new_device").1 e in
          ground (arith, h),
      tt,
    ),
    (tt, tt),
  );
}

-- the cycle lowers the severity of the noisy rule and stretches its cooldown
lowered :
    find_rule 1 (database_after db (run_critic cfg now ask critic engine db).0)
    ≡ some
        (record noisy_rule { severity = "medium"; cooldown_seconds = 450; last_tuned = some now })
unfolding run_critic reset_changes evaluate_rules evaluate_all needs_evaluation evaluate_rule
    proposal run_consensus check_consensus majority act_on sanity_check_rule_eval apply_rule_change
    tune severity_index
lowered = refl

run_consensus_iff_example :
    (choice_of (run_consensus (ask 1)) ≡ some "LOWER") ↔ Agreed "LOWER" (ask 1)
run_consensus_iff_example = run_consensus_iff (ask 1) "LOWER"

run_critic-untunable_example :
    find_rule 2 (database_after db (run_critic cfg now ask critic engine db).0) ≡ some locked_rule
run_critic-untunable_example =
    run_critic-untunable cfg now ask critic engine db 2 locked_rule db-HasKeys refl refl

run_critic-confirmed_example :
    (s : Rule) × (find_rule 1 (database_after db (run_critic cfg now ask critic engine db).0)
      ≡ some s)
    × (s.enabled ≡ true)
run_critic-confirmed_example =
    run_critic-confirmed cfg now ask critic engine db 1 noisy_rule db-HasKeys refl (omega arith)

run_critic_limit_example :
    (length (database_after db (run_critic cfg now ask critic engine db).0).versions
      ≤ 0 + (5 - (reset_changes now critic).changes_today))
    × ((run_critic cfg now ask critic engine db).1.changes_today ≤ 5)
run_critic_limit_example = run_critic_limit cfg now ask critic engine db (omega arith)

-- A rule with the severity info is raised by three steps of the ladder.
info_raised :
    (tune now "RAISE" "moderate" (record noisy_rule { severity = "info" })).severity ≡ "high"
unfolding tune severity_index
info_raised = refl

tune_bounds_example :
    let t = tune now "LOWER" "moderate" noisy_rule in
    Moves "high" t.severity
    × (60 ≤ t.cooldown_seconds)
    × (t.cooldown_seconds ≤ 3600)
    × (t ≡ record noisy_rule {
      severity = t.severity;
      cooldown_seconds = t.cooldown_seconds;
      enabled = t.enabled;
      last_tuned = some now;
    })
tune_bounds_example = tune_bounds now "LOWER" "moderate" noisy_rule
