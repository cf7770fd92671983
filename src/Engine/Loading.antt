-- ===== src/Engine/Loading.antt =====
-- `_load_suppressions`, `_is_suppressed` and `_get_rules`: rows read through a cache of 30 seconds.
-- Where the session raises, the old cache is used on.
use sentinel_home.Prelude.{
  ℕ, ◌+◌, String, Bool, true, not, ◌&&◌, ◌||◌, Option, none, some, List, map, ltb, any, select,
  is_nil, truthy, ◌==◌, string_eq, if◌then◌else◌,
}
use sentinel_home.Models.{Rule, Pattern, ParseResult, get_text}
use sentinel_home.Engine.State.{CachedRule, Suppression, World, cache_ttl}

abbrev pub cached_rule : Rule → CachedRule
cached_rule r = record {
  id = r.id;
  name = r.name;
  category = r.category;
  severity = r.severity;
  priority = r.priority;
  parameters = r.parameters;
  action = r.action;
  cooldown_seconds = r.cooldown_seconds;
  frozen = r.frozen;
}

-- the query of `_get_rules`
unfoldable pub active_rules : List Rule → List CachedRule
active_rules rules = map cached_rule (select (λ r. r.enabled && r.approved) rules)

-- Afterwards `rules_cache` is what the method returns.
unfoldable pub get_rules : ℕ → World → World
get_rules now w =
    if ltb now (w.engine.cache_ts + cache_ttl) && not (is_nil w.engine.rules_cache)
    then w
    else if w.db.available
    then record w {
      engine = record (w.engine) { rules_cache = active_rules w.db.rules; cache_ts = now };
    }
    else w

unfoldable pub active_suppressions : List Pattern → List Suppression
active_suppressions patterns =
    map (λ p. record { scope = p.scope; definition = p.definition })
      (select (λ p. p.pattern_type == "suppression") patterns)

-- Afterwards `suppressions` is what the method returns.
unfoldable pub load_suppressions : ℕ → World → World
load_suppressions now w =
    if ltb now (w.engine.suppressions_ts + cache_ttl) && not (is_nil w.engine.suppressions)
    then w
    else if w.db.available
    then record w {
      engine = record (w.engine) {
        suppressions = active_suppressions w.db.patterns;
        suppressions_ts = now;
      };
    }
    else w

-- an optional criterion: absent and empty ones let everything pass
unfoldable pub meets : Option String → String → Bool
meets none actual = true
meets (some wanted) actual = not (truthy wanted) || wanted == actual

-- one round of the loop of `_is_suppressed`
unfoldable pub suppresses : ParseResult → Suppression → Bool
unfolding meets
suppresses result s =
    (s.scope == "*" || s.scope == get_text "mac" "" result.fields)
    && meets s.definition.event_type result.event_type
    && meets s.definition.source (get_text "source" "" result.fields)

unfoldable pub is_suppressed : ℕ → ParseResult → World → Bool × World
is_suppressed now result w =
    let w' = load_suppressions now w in (any (suppresses result) w'.engine.suppressions, w')
