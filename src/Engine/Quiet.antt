-- ===== src/Engine/Quiet.antt =====
-- Events that a rule must stay silent on: those that it does not match, and those in its cooldown.
use sentinel_home.Prelude.{
  ℕ, ◌+◌, ◌*◌, ◌<◌, String, ◌≡◌, refl, sym, subst, ap, ◌⊎◌, inl, inr, true, false, Option, some,
  List, [], ◌∷◌, arith, All, Bool-cases, Option-cases, any, string_eq,
}
use sentinel_home.Models.{ParseResult}
use sentinel_home.Engine.State.{CachedRule, World, Settings, second}
use sentinel_home.Engine.Loading.{is_suppressed, load_suppressions, suppresses}
use sentinel_home.Engine.Matching.{rule_matches, source_allows, has_criteria}
use sentinel_home.Engine.Firing.{Fired, check_cooldown, last_fire}
use sentinel_home.Engine.Evaluate.{visit_rule, visit_rules, add_fired, evaluate}
use sentinel_home.Engine.Footprint.{Untouched, Untouched-refl, Untouched-trans}
use sentinel_home.Engine.Footstep.{visit_rule_cases}
use sentinel_home.Engine.Cooldown.{
  rules_seen, prepared, prepared-Untouched, suppressed-Untouched, rules_seen-prepared,
  last_fire-Untouched,
}

-- every rule of that id misses the event or is in the cooldown of a fire at `last`
abbrev pub IsQuiet : (id now last : ℕ) → ParseResult → List CachedRule → Type 0
IsQuiet id now last result = All (λ (r : CachedRule).
    r.id ≡ id
    → (rule_matches r result ≡ false)
      ⊎ ((0 < r.cooldown_seconds) × (now < last + r.cooldown_seconds * second)))

check_cooldown-cooling :
    (id now : ℕ) (rule : CachedRule) (w : World)
    → rule.id ≡ id
    → 0 < rule.cooldown_seconds
    → now < last_fire id w.engine + rule.cooldown_seconds * second
    → check_cooldown now rule w.engine ≡ false
unfolding check_cooldown
check_cooldown-cooling id now rule w own positive early =
    let e : last_fire rule.id w.engine ≡ last_fire id w.engine =
      ap (λ n. last_fire n w.engine) own in
    ground (arith, e)

module _ (cfg : Settings) (id now : ℕ) (result : ParseResult) (source_ip : Option String) where
  visit_rule-Untouched :
      (rule : CachedRule) (w : World)
      → (rule.id ≡ id
          → (rule_matches rule result ≡ false)
            ⊎ ((0 < rule.cooldown_seconds)
                × (now < last_fire id w.engine + rule.cooldown_seconds * second)))
      → Untouched id w (visit_rule cfg now rule result source_ip w).1
  visit_rule-Untouched rule w quiet = elim (visit_rule_cases cfg id now rule result source_ip w) [
    | inl same ↦ same
    | inr (matches, f) ↦ elim (quiet f.own) [
      | inl misses ↦ cc
      | inr (positive, early) ↦
          cc (f.allowed, check_cooldown-cooling id now rule w f.own positive early)
    ]
  ]

  visit_rules-Untouched :
      (rules : List CachedRule) (fired : List Fired) (w : World)
      → IsQuiet id now (last_fire id w.engine) result rules
      → Untouched id w (visit_rules cfg now result source_ip rules fired w).1
  unfolding visit_rules
  visit_rules-Untouched [] fired w quiet = Untouched-refl id w
  visit_rules-Untouched (rule ∷ rules) fired w quiet =
      let w' = (visit_rule cfg now rule result source_ip w).1 in
      let same = visit_rule-Untouched rule w quiet.0 in
      elim (Option-cases (visit_rule cfg now rule result source_ip w).0) [
        | inl raised ↦ rw (raised, visit_rules) same
        | inr (f, returned) ↦
            rw (returned, visit_rules)
              (Untouched-trans same (
                visit_rules-Untouched rules (add_fired f fired) w' (
                  subst (λ t. IsQuiet id now t result rules)
                    (sym (last_fire-Untouched id w w' same)) quiet.1)))
      ]

  -- An evaluation leaves the last fire, the counters, the alerts and the jobs of a rule exactly as
  -- they were if the rule does not match the event, or if the clock is within its cooldown.
  pub evaluate-Untouched :
      (w : World)
      → IsQuiet id now (last_fire id w.engine) result (rules_seen now w)
      → Untouched id w (evaluate cfg now result source_ip w).1
  unfolding evaluate
  evaluate-Untouched w quiet = elim (Bool-cases (is_suppressed now result w).0) [
    | inl hushed ↦ rw hushed (suppressed-Untouched id now result w)
    | inr heard ↦ rw heard (
        let start = prepared now result w in
        let same = prepared-Untouched id now result w in
        Untouched-trans same (
          visit_rules-Untouched start.engine.rules_cache [] start (
            subst (IsQuiet id now (last_fire id start.engine) result)
              (sym (rules_seen-prepared now result w))
              (subst (λ t. IsQuiet id now t result (rules_seen now w))
                (sym (last_fire-Untouched id w start same)) quiet))))
  ]

-- the rules of the UniFi collector, which fire by `fire_rule` only, and rules without criteria
abbrev pub OnlyDirect : ℕ → List CachedRule → Type 0
OnlyDirect id = All (λ (r : CachedRule).
    r.id ≡ id → (r.parameters.match_source ≡ some "unifi") ⊎ (has_criteria r.parameters ≡ false))

rule_matches-OnlyDirect :
    (rule : CachedRule) (result : ParseResult)
    → (rule.parameters.match_source ≡ some "unifi") ⊎ (has_criteria rule.parameters ≡ false)
    → rule_matches rule result ≡ false
unfolding rule_matches source_allows
rule_matches-OnlyDirect rule result (inl unifi) = ground arith
rule_matches-OnlyDirect rule result (inr bare) = ground arith

OnlyDirect-IsQuiet :
    (id now last : ℕ) (result : ParseResult) (rules : List CachedRule)
    → OnlyDirect id rules
    → IsQuiet id now last result rules
OnlyDirect-IsQuiet id now last result [] h = tt
OnlyDirect-IsQuiet id now last result (r ∷ rules) h = (
  λ own. inl (rule_matches-OnlyDirect r result (h.0 own)),
  OnlyDirect-IsQuiet id now last result rules h.1,
)

-- No event, whatever its type and fields, makes `evaluate` fire a rule of the UniFi collector or a
-- rule whose parameters hold none of the criteria.
evaluate-OnlyDirect :
    (cfg : Settings) (id now : ℕ) (result : ParseResult) (source_ip : Option String) (w : World)
    → OnlyDirect id (rules_seen now w)
    → Untouched id w (evaluate cfg now result source_ip w).1
evaluate-OnlyDirect cfg id now result source_ip w h =
    evaluate-Untouched cfg id now result source_ip w
      (OnlyDirect-IsQuiet id now (last_fire id w.engine) result (rules_seen now w) h)

-- what stays as it was when an event is suppressed
pub record Ignores (w w' : World) : Type 0 where
  pub db : w'.db ≡ w.db
  pub sent : w'.sent ≡ w.sent
  pub windows : w'.engine.windows ≡ w.engine.windows
  pub last_fired : w'.engine.last_fired ≡ w.engine.last_fired
  pub eval_count : w'.engine.eval_count ≡ w.engine.eval_count
  pub rules_cache : w'.engine.rules_cache ≡ w.engine.rules_cache

load_suppressions-Ignores : (now : ℕ) (w : World) → Ignores w (load_suppressions now w)
unfolding load_suppressions
load_suppressions-Ignores now w = record {
  db = ground arith;
  sent = ground arith;
  windows = ground arith;
  last_fired = ground arith;
  eval_count = ground arith;
  rules_cache = ground arith;
}

-- An event that a loaded suppression covers (its scope is `*` or the event's MAC, and its event type
-- and source agree where they are given) fires nothing and leaves the database, the notifications,
-- the windows, the cooldowns, the counter and the cached rules as they were.
pub evaluate_suppressed :
    (cfg : Settings) (now : ℕ) (result : ParseResult) (source_ip : Option String) (w : World)
    → any (suppresses result) (load_suppressions now w).engine.suppressions ≡ true
    → ((evaluate cfg now result source_ip w).0 ≡ some [])
      × Ignores w (evaluate cfg now result source_ip w).1
unfolding evaluate is_suppressed
evaluate_suppressed cfg now result source_ip w covered =
    rw covered (refl, load_suppressions-Ignores now w)
