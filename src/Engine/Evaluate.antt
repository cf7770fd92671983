-- ===== src/Engine/Evaluate.antt =====
-- `evaluate`, `_execute_rule`, `_is_known_device` and `fire_rule`. A call that raises returns `none`
-- beside the world that it leaves: the only statement that may raise is the loading of the known
-- MACs, which no handler of the engine guards.
use sentinel_home.Prelude.{
  ℕ, ◌+◌, ◌%◌, String, Bool, true, false, not, ◌&&◌, ◌||◌, Option, none, some, List, [], ◌∷◌, ◌++◌,
  first, contains, truthy, lower, ◌==◌, nat_eq, string_eq, if◌then◌else◌,
}
use sentinel_home.Prelude.Dict.{Dict, lookup, insert}
use sentinel_home.Models.{Value, ParseResult, get_text}
use sentinel_home.Baselines.{get_all_known_macs}
use sentinel_home.Engine.State.{CachedRule, Engine, World, Settings, window_prune_interval}
use sentinel_home.Engine.Loading.{get_rules, is_suppressed}
use sentinel_home.Engine.Matching.{rule_matches}
use sentinel_home.Engine.Windows.{check_windowed, prune_windows}
use sentinel_home.Engine.Firing.{Fired, check_cooldown, do_fire}

abbrev pub is_set : Option Bool → Bool
is_set none = false
is_set (some b) = b

unfoldable pub is_known_device : String → World → Option Bool × World
is_known_device mac w = elim w.engine.known_macs [
  | some macs ↦ (some (contains (lower mac) macs), w)
  | none ↦ elim (get_all_known_macs w.db) [
    | none ↦ (none, w)
    | some macs ↦ (
      some (contains (lower mac) macs),
      record w { engine = record (w.engine) { known_macs = some macs } },
    )
  ]
]

-- the baseline check: whether the rule goes on
unfoldable pub baseline_allows : CachedRule → ParseResult → World → Option Bool × World
baseline_allows rule result w =
    let mac = get_text "mac" "" result.fields in
    if not (is_set rule.parameters.check_baseline && truthy mac)
    then (some true, w)
    else (let (known, w') = is_known_device mac w in
        (elim known [ none ↦ none | some b ↦ some (not b) ], w'))

-- the whitelist check: whether the rule goes on
unfoldable pub whitelist_allows : Settings → CachedRule → ParseResult → Bool
whitelist_allows cfg rule result =
    not (is_set rule.parameters.check_smb_whitelist)
    || not (
        contains (get_text "src" "" result.fields) cfg.smb_whitelist
        || contains (get_text "dst" "" result.fields) cfg.smb_whitelist)

-- `{**d, **e}`
unfoldable pub merge : Dict String Value → Dict String Value → Dict String Value
merge d [] = d
merge d ((k, v) ∷ rest) = merge (insert k v d) rest

unfoldable pub fire_context : ParseResult → Option String → Dict String Value
unfolding merge
fire_context result source_ip =
    let base : Dict String Value =
      merge
        (("event_type", Value.text result.event_type)
          ∷ ("message", Value.text result.message)
          ∷ ("severity", Value.text result.severity)
          ∷ ("category", Value.text result.category)
          ∷ [])
        result.fields in
    elim source_ip [
      | none ↦ base
      | some ip ↦ if truthy ip then insert "source_ip" (Value.text ip) base else base
    ]

-- `result.fields.get("mac")`
unfoldable pub device_of : ParseResult → Option String
device_of result = elim (lookup "mac" result.fields) [ some (Value.text mac) ↦ some mac | _ ↦ none ]

-- `_execute_rule` below the baseline check
unfoldable pub count_and_fire :
    Settings → ℕ → CachedRule → ParseResult → Option String → World → Option Fired × World
count_and_fire cfg now rule result source_ip w =
    let (reached, engine') = check_windowed now rule result w.engine in
    let w' = record w { engine = engine' } in
    if not reached
    then (none, w')
    else if not (whitelist_allows cfg rule result)
    then (none, w')
    else (let (fired, w'') =
          do_fire cfg now rule (device_of result) (fire_context result source_ip) w' in
        (some fired, w''))

-- The outer `none` is an exception, the inner one a rule that did not fire.
unfoldable pub execute_rule :
    Settings → ℕ → CachedRule → ParseResult → Option String → World → Option (Option Fired) × World
execute_rule cfg now rule result source_ip w =
    let (allowed, w') = baseline_allows rule result w in
    elim allowed [
      | none ↦ (none, w')
      | some false ↦ (some none, w')
      | some true ↦
          let (fired, w'') = count_and_fire cfg now rule result source_ip w' in (some fired, w'')
    ]

-- the body of the loop of `evaluate`
unfoldable pub visit_rule :
    Settings → ℕ → CachedRule → ParseResult → Option String → World → Option (Option Fired) × World
visit_rule cfg now rule result source_ip w =
    if rule_matches rule result && check_cooldown now rule w.engine
    then execute_rule cfg now rule result source_ip w
    else (some none, w)

abbrev pub add_fired : Option Fired → List Fired → List Fired
add_fired none fired = fired
add_fired (some f) fired = fired ++ f ∷ []

unfoldable pub visit_rules :
    Settings
    → ℕ
    → ParseResult
    → Option String
    → List CachedRule
    → List Fired
    → World
    → Option (List Fired) × World
visit_rules cfg now result source_ip [] fired w = (some fired, w)
visit_rules cfg now result source_ip (rule ∷ rules) fired w =
    let (answer, w') = visit_rule cfg now rule result source_ip w in
    elim answer [
      | none ↦ (none, w')
      | some f ↦ visit_rules cfg now result source_ip rules (add_fired f fired) w'
    ]

-- the counter of `evaluate`, and the pruning at every 500th evaluation
unfoldable pub count_evaluation : ℕ → Engine → Engine
count_evaluation now engine =
    let counted = record engine { eval_count = engine.eval_count + 1 } in
    if counted.eval_count % window_prune_interval == 0 then prune_windows now counted else counted

unfoldable pub evaluate :
    Settings → ℕ → ParseResult → Option String → World → Option (List Fired) × World
evaluate cfg now result source_ip w =
    let (suppressed, w') = is_suppressed now result w in
    if suppressed
    then (some [], w')
    else (let loaded = get_rules now (record w' { engine = count_evaluation now w'.engine }) in
        visit_rules cfg now result source_ip loaded.engine.rules_cache [] loaded)

unfoldable pub fire_rule : Settings → ℕ → String → Option String → Dict String Value → World → World
fire_rule cfg now rule_name device_id context w =
    let w' = get_rules now w in
    elim (first (λ (r : CachedRule). r.name == rule_name) w'.engine.rules_cache) [
      | none ↦ w'
      | some rule ↦
          if check_cooldown now rule w'.engine
          then (do_fire cfg now rule device_id context w').1
          else w'
    ]
