-- ===== src/Rules/Reload.antt =====
-- An update of a rule and the rule engine's cache of 30 seconds.
use sentinel_home.Prelude.{
  ℕ, ◌≤◌, ◌≡◌, refl, ◌∙◌, true, false, not, ◌&&◌, ltb, arith, if_cases, option_cases, ◌==◌, nat_eq,
  string_eq,
}
use sentinel_home.Models.{Rule, Database, get_or}
use sentinel_home.Engine.State.{World, cache_ttl}
use sentinel_home.Engine.Loading.{get_rules, active_rules}
use sentinel_home.Rules.{
  Body, Answer, answered, refused, find_rule, with_rule, update_row, update_rule,
}

-- A session that answers has reached the database.
with_rule_answered :
    (id n : ℕ) (db : Database) (act : Rule → Database × Answer)
    → ((rule : Rule) → (act rule).0.available ≡ db.available)
    → (with_rule id db act).1 ≡ answered n
    → (with_rule id db act).0.available ≡ true
unfolding with_rule
with_rule_answered id n db act keeps =
    if_cases (λ (out : Database × Answer). out.1 ≡ answered n → out.0.available ≡ true) db.available
      _ _
      (λ up.
        option_cases (λ (out : Database × Answer). out.1 ≡ answered n → out.0.available ≡ true)
          (find_rule id db) _ act (λ missing said. up) (λ rule found said. keeps rule ∙ up))
      (λ down said. ground (arith, said))

update_row_answered :
    (now id n : ℕ) (body : Body) (db : Database)
    → (update_row now id body db).1 ≡ answered n
    → (update_row now id body db).0.available ≡ true
unfolding update_row
update_row_answered now id n body db = with_rule_answered id n db _ (λ rule.
    if_cases (λ (out : Database × Answer). out.0.available ≡ db.available)
      (rule.frozen && not (get_or "agent" body.changed_by == "user")) _ _ (λ shut. refl)
      (λ granted. refl))

-- After an update that is answered, the engine's next look at its rules, at any clock reading from
-- 30 seconds after the epoch on, is at the table as the update left it.
pub get_rules-update_rule :
    (now now' id n : ℕ) (body : Body) (w : World)
    → (update_rule now id body w).1 ≡ answered n
    → cache_ttl ≤ now'
    → let w' = (update_rule now id body w).0 in
      (get_rules now' w').engine.rules_cache ≡ active_rules w'.db.rules
unfolding get_rules update_rule
get_rules-update_rule now now' id n body w said late =
    go (update_row now id body w.db) (update_row_answered now id n body w.db) said
  where
    after : Database × Answer → World × Answer
    after out = elim out.1 [
      | refused status code ↦ (record w { db = out.0 }, refused status code)
      | answered m ↦
          (record w { db = out.0; engine = record (w.engine) { cache_ts = 0 } }, answered m)
    ]

    go :
        (out : Database × Answer)
        → (out.1 ≡ answered n → out.0.available ≡ true)
        → (after out).1 ≡ answered n
        → (get_rules now' (after out).0).engine.rules_cache ≡ active_rules (after out).0.db.rules
    go (db, refused status code) up said = ground (arith, said)
    go (db, answered m) up said =
        let reached : db.available ≡ true = up said in
        let stale : ltb now' cache_ttl ≡ false = ground (arith, late) in
        ground (arith, reached, stale)
