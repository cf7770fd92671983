-- ===== src/Pipeline/Frame.antt =====
-- What an evaluation leaves alone: the table of events, and whether the database answers.
use sentinel_home.Prelude.{
  ℕ, String, ◌≡◌, refl, ◌∙◌, Bool, true, false, not, ◌&&◌, Option, none, some, List, [], ◌∷◌, arith,
  if_cases, string_eq, nat_eq,
}
use sentinel_home.Prelude.Dict.{Dict}
use sentinel_home.Models.{Value, ParseResult}
use sentinel_home.Engine.State.{CachedRule, World, Settings}
use sentinel_home.Engine.Firing.{
  check_cooldown, update_rule_counters, create_alert, enqueue_job, note_fire, do_fire, Fired,
}
use sentinel_home.Engine.Loading.{get_rules, load_suppressions, is_suppressed}
use sentinel_home.Engine.Windows.{check_windowed}
use sentinel_home.Engine.Matching.{rule_matches}
use sentinel_home.Engine.Evaluate.{
  device_of, fire_context, whitelist_allows, baseline_allows, is_known_device, count_and_fire,
  execute_rule, visit_rule, visit_rules, evaluate, count_evaluation, add_fired,
}

pub record Leaves (w w' : World) : Type 0 where
  pub available : w'.db.available ≡ w.db.available
  pub events : w'.db.events ≡ w.db.events

Leaves-refl : (w : World) → Leaves w w
Leaves-refl w = record { available = refl; events = refl }

Leaves-trans : {u v w : World} → Leaves u v → Leaves v w → Leaves u w
Leaves-trans p q = record { available = q.available ∙ p.available; events = q.events ∙ p.events }

do_fire-Leaves :
    (cfg : Settings) (now : ℕ) (rule : CachedRule) (device : Option String)
    (context : Dict String Value) (w : World)
    → Leaves w (do_fire cfg now rule device context w).1
unfolding do_fire note_fire update_rule_counters create_alert enqueue_job
do_fire-Leaves cfg now rule device context w = record {
  available = ground arith;
  events = ground arith;
}

get_rules-Leaves : (now : ℕ) (w : World) → Leaves w (get_rules now w)
unfolding get_rules
get_rules-Leaves now w = record { available = ground arith; events = ground arith }

is_suppressed-Leaves :
    (now : ℕ) (result : ParseResult) (w : World) → Leaves w (is_suppressed now result w).1
unfolding is_suppressed load_suppressions
is_suppressed-Leaves now result w = record { available = ground arith; events = ground arith }

module _ (cfg : Settings) (now : ℕ) (result : ParseResult) (source_ip : Option String) where
  count_and_fire-Leaves :
      (rule : CachedRule) (w : World) → Leaves w (count_and_fire cfg now rule result source_ip w).1
  unfolding count_and_fire
  count_and_fire-Leaves rule w =
      let w' = record w { engine = (check_windowed now rule result w.engine).1 } in
      let same : Leaves w w' = record { available = refl; events = refl } in
      let fired =
        do_fire-Leaves cfg now rule (device_of result) (fire_context result source_ip) w' in
      if_cases (λ (r : Option Fired × World). Leaves w r.1)
        (not (check_windowed now rule result w.engine).0) _ _ (λ e. same)
        (λ e.
          if_cases (λ (r : Option Fired × World). Leaves w r.1)
            (not (whitelist_allows cfg rule result)) _ _ (λ l. same)
            (λ l. record { available = fired.available; events = fired.events }))

  baseline_allows-Leaves :
      (rule : CachedRule) (w : World) → Leaves w (baseline_allows rule result w).1
  unfolding baseline_allows is_known_device
  baseline_allows-Leaves rule w = record { available = ground arith; events = ground arith }

  execute_rule-Leaves :
      (rule : CachedRule) (w : World) → Leaves w (execute_rule cfg now rule result source_ip w).1
  unfolding execute_rule
  execute_rule-Leaves rule w =
      go (baseline_allows rule result w).0 (baseline_allows rule result w).1
        (baseline_allows-Leaves rule w)
    where
      go :
          (o : Option Bool) (v : World)
          → Leaves w v
          → Leaves w
              (elim o as (λ _. Option (Option Fired) × World) [
                | none ↦ (none, v)
                | some b ↦ elim b as (λ _. Option (Option Fired) × World) [
                  | false ↦ (some none, v)
                  | true ↦
                      let (fired, w'') = count_and_fire cfg now rule result source_ip v in
                      (some fired, w'')
                ]
              ]).1
      go none v same = same
      go (some false) v same = same
      go (some true) v same = Leaves-trans same (count_and_fire-Leaves rule v)

  visit_rule-Leaves :
      (rule : CachedRule) (w : World) → Leaves w (visit_rule cfg now rule result source_ip w).1
  unfolding visit_rule
  visit_rule-Leaves rule w =
      if_cases (λ (r : Option (Option Fired) × World). Leaves w r.1)
        (rule_matches rule result && check_cooldown now rule w.engine) _ _
        (λ e. execute_rule-Leaves rule w) (λ e. Leaves-refl w)

  visit_rules-Leaves :
      (rules : List CachedRule) (fired : List Fired) (w : World)
      → Leaves w (visit_rules cfg now result source_ip rules fired w).1
  unfolding visit_rules
  visit_rules-Leaves [] fired w = Leaves-refl w
  visit_rules-Leaves (rule ∷ rules) fired w =
      go (visit_rule cfg now rule result source_ip w).0
        (visit_rule cfg now rule result source_ip w).1 (visit_rule-Leaves rule w)
        (λ f v. visit_rules-Leaves rules (add_fired f fired) v)
    where
      go :
          (o : Option (Option Fired)) (v : World)
          → Leaves w v
          → ((f : Option Fired) (u : World)
              → Leaves u (visit_rules cfg now result source_ip rules (add_fired f fired) u).1)
          → Leaves w
              (elim o as (λ _. Option (List Fired) × World) [
                | none ↦ (none, v)
                | some f ↦ visit_rules cfg now result source_ip rules (add_fired f fired) v
              ]).1
      go none v same rest = same
      go (some f) v same rest = Leaves-trans same (rest f v)

  pub evaluate-Leaves : (w : World) → Leaves w (evaluate cfg now result source_ip w).1
  unfolding evaluate
  evaluate-Leaves w =
      let (suppressed, w') = is_suppressed now result w in
      let first_step = is_suppressed-Leaves now result w in
      let counted : World = record w' { engine = count_evaluation now w'.engine } in
      let same : Leaves w' counted = record { available = refl; events = refl } in
      let loaded = get_rules now counted in
      if_cases (λ (r : Option (List Fired) × World). Leaves w r.1) suppressed _ _ (λ e. first_step)
        (λ e. Leaves-trans first_step (
          Leaves-trans same (
            Leaves-trans (get_rules-Leaves now counted)
              (visit_rules-Leaves loaded.engine.rules_cache [] loaded))))
