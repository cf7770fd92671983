-- ===== src/Rules/Actions/Unmatched.antt =====
-- What the rule engine makes of a rule that was created on the dashboard.
use sentinel_home.Prelude.{
  ℕ, String, ◌≡◌, refl, sym, ◌∙◌, ap, false, Option, none, some, List, [], ◌∷◌, ◌++◌, arith, first,
  Bool-cases, inl, inr, ◌==◌, nat_eq,
}
use sentinel_home.Models.{ParseResult, Rule, Database}
use sentinel_home.Engine.State.{Settings, World}
use sentinel_home.Engine.Loading.{cached_rule}
use sentinel_home.Engine.Matching.{has_criteria, rule_matches}
use sentinel_home.Engine.Evaluate.{visit_rule}
use sentinel_home.Rules.{find_rule}
use sentinel_home.Rules.Actions.{
  Form, form_parameters, form_rule, is_refused, create_row, action_create_rule,
}

form_rule-unmatched :
    (f : Form) (rules : List Rule) (result : ParseResult)
    → rule_matches (cached_rule (form_rule f rules)) result ≡ false
unfolding rule_matches form_rule form_parameters has_criteria
form_rule-unmatched f rules result = ground arith

first_new :
    (id : ℕ) (rules : List Rule) (new r : Rule)
    → first (λ (x : Rule). x.id == id) rules ≡ none
    → first (λ (x : Rule). x.id == id) (rules ++ new ∷ []) ≡ some r
    → r ≡ new
first_new id [] new r absent e = ground (arith, e)
first_new id (x ∷ rules) new r absent e = elim (Bool-cases (x.id == id)) [
  | inl hit ↦ absurd (ground (arith, hit, absent))
  | inr miss ↦ first_new id rules new r (ground (arith, miss, absent)) (ground (arith, miss, e))
]

create_row-new :
    (f : Form) (id : ℕ) (db : Database) (r : Rule)
    → find_rule id db ≡ none
    → find_rule id (create_row f db) ≡ some r
    → r ≡ form_rule f db.rules
unfolding create_row
create_row-new f id db r absent found = elim (Bool-cases (is_refused f db)) [
  | inl no_row ↦ absurd (ground (arith, no_row, absent, found))
  | inr row ↦
      first_new id db.rules (form_rule f db.rules) r absent
        (ap (find_rule id) (sym (created row)) ∙ found)
]
  where
    created :
        is_refused f db ≡ false
        → create_row f db ≡ record db { rules = db.rules ++ form_rule f db.rules ∷ [] }
    created row = rw row refl

action_create_rule-db : (f : Form) (w : World) → (action_create_rule f w).db ≡ create_row f w.db
unfolding action_create_rule create_row
action_create_rule-db f w = ground arith

-- A rule that the dashboard's form has created never fires on an event, whatever the form says of event
-- types and thresholds: the engine's visit of it changes nothing and answers that it did not fire.
pub visit_rule-action_create_rule :
    (f : Form) (cfg : Settings) (now : ℕ) (result : ParseResult) (source_ip : Option String)
    (id : ℕ) (r : Rule) (w w' : World)
    → find_rule id w.db ≡ none
    → find_rule id (action_create_rule f w).db ≡ some r
    → visit_rule cfg now (cached_rule r) result source_ip w' ≡ (some none, w')
unfolding visit_rule
visit_rule-action_create_rule f cfg now result source_ip id r w w' absent found =
    let new : r ≡ form_rule f w.db.rules =
      create_row-new f id w.db r absent
        (ap (find_rule id) (sym (action_create_rule-db f w)) ∙ found) in
    let unmatched : rule_matches (cached_rule r) result ≡ false =
      ap (λ x. rule_matches (cached_rule x) result) new ∙ form_rule-unmatched f w.db.rules result in
    rw unmatched refl
