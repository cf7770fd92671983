-- ===== src/Patterns/Suppression.antt =====
-- A suppression made through sentinel_home/api/routes/patterns.py, as the rule engine sees it.
use sentinel_home.Prelude.{
  ℕ, ◌+◌, ◌≤◌, String, string_eq, ◌≡◌, refl, ◌∙◌, ap, true, Option, some, List, [], ◌∷◌, ◌++◌,
  arith, map, any, inl, inr,
}
use sentinel_home.Models.{ParseResult, get_or}
use sentinel_home.Engine.State.{Settings, World, Suppression, cache_ttl}
use sentinel_home.Engine.Loading.{active_suppressions, load_suppressions, suppresses}
use sentinel_home.Engine.Evaluate.{evaluate}
use sentinel_home.Engine.Quiet.{Ignores, evaluate_suppressed}
use sentinel_home.Patterns.{
  PatternRow, PatternStore, PatternBody, answered, no_definition, pattern_of, create_pattern,
}
use sentinel_home.Patterns.Creation.{IsNew, create_pattern-IsCreated}

-- the engine's world over the table of patterns
abbrev pub with_patterns : PatternStore → World → World
with_patterns s w = record w { db = record (w.db) { patterns = map pattern_of s.patterns } }

-- the suppression that a body describes
abbrev pub suppression_of : PatternBody → Suppression
suppression_of body = record {
  scope = get_or "*" body.scope;
  definition = get_or no_definition body.definition;
}

any-last :
    (result : ParseResult) (ps : List PatternRow) (p : PatternRow)
    → p.pattern_type ≡ "suppression"
    → suppresses result (record { scope = p.scope; definition = p.definition }) ≡ true
    → any (suppresses result) (active_suppressions (map pattern_of (ps ++ p ∷ []))) ≡ true
unfolding active_suppressions
any-last result [] p typed covers = rw (typed, covers) refl
any-last result (q ∷ ps) p typed covers =
    let rest = any-last result ps p typed covers in ground (arith, rest)

load-fresh :
    (now : ℕ) (w : World)
    → w.db.available ≡ true
    → w.engine.suppressions_ts + cache_ttl ≤ now
    → (load_suppressions now w).engine.suppressions ≡ active_suppressions w.db.patterns
unfolding load_suppressions
load-fresh now w up stale = ground (arith, up, stale)

created-covers :
    (result : ParseResult) (body : PatternBody) (p : PatternRow) (ps : List PatternRow)
    → body.pattern_type ≡ some "suppression"
    → suppresses result (suppression_of body) ≡ true
    → IsNew body p
    → any (suppresses result) (active_suppressions (map pattern_of (ps ++ p ∷ []))) ≡ true
created-covers result body p ps typed covers new =
    any-last result ps p (new.pattern_type ∙ ap (get_or "baseline") typed)
      (rw (new.scope, new.definition) covers)

-- After a suppression is created, and once the engine's copy of the suppressions has expired, an event
-- that it covers fires nothing and leaves the database, the notifications, the windows, the cooldowns,
-- the counter and the cached rules as they were. The database must answer.
pub create_pattern-evaluate :
    (cfg : Settings) (now : ℕ) (result : ParseResult) (source_ip : Option String) (w : World)
    (body : PatternBody) (s : PatternStore) (id : ℕ)
    → body.pattern_type ≡ some "suppression"
    → (create_pattern body s).1 ≡ answered id
    → suppresses result (suppression_of body) ≡ true
    → w.db.available ≡ true
    → w.engine.suppressions_ts + cache_ttl ≤ now
    → let w' = with_patterns (create_pattern body s).0 w in
      ((evaluate cfg now result source_ip w').0 ≡ some [])
      × Ignores w' (evaluate cfg now result source_ip w').1
create_pattern-evaluate cfg now result source_ip w body s id typed made covers up stale =
    let w' = with_patterns (create_pattern body s).0 w in
    elim (create_pattern-IsCreated body s) [
      | inl bad ↦ absurd cc
      | inr new ↦ evaluate_suppressed cfg now result source_ip w' (
          rw (load-fresh now w' up stale, new.3)
            (created-covers result body new.0 s.patterns typed covers new.1))
    ]
