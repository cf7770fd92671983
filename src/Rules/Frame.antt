-- ===== src/Rules/Frame.antt =====
-- What a rule request can do to the database, whatever it asks: five effects.
use sentinel_home.Prelude.{
  ℕ, String, ◌≡◌, ◌≢◌, refl, subst, if_cases, option_cases, true, false, not, ◌&&◌, ◌||◌, some, [],
  ◌∷◌, ◌++◌, arith, any, select, lower, truthy, ◌==◌, nat_eq, string_eq,
}
use sentinel_home.Models.{Rule, RuleVersion, Database, get_or}
use sentinel_home.Rules.{
  Body, Answer, answered, find_rule, set_rule, with_rule, snapshot_rule, new_rule, create_named,
  create_rule, apply_update, update_row, is_referenced, delete_rule, rule_feedback, freeze_rule,
  unfreeze_rule, approve_rule, find_version, restore, rollback_rule, Request, create, update,
  delete, feedback, freeze, unfreeze, approve, rollback, serve_db,
}

-- a write that keeps what identifies a rule
pub record KeepsIdentity (f : Rule → Rule) : Type 0 where
  pub id : (r : Rule) → (f r).id ≡ r.id
  pub name : (r : Rule) → (f r).name ≡ r.name
  pub source : (r : Rule) → (f r).source ≡ r.source

abbrev pub removed_rule : ℕ → Database → Database
removed_rule id db = record db {
  rules = select (λ r. not (r.id == id)) db.rules;
  versions = select (λ v. not (v.rule_id == id)) db.versions;
}

pub data Effect (db : Database) : Database → Type 0 where
  same : Effect db db
  added :
      (name source : String) (body : Body)
      → any (λ (r : Rule). r.name == name) db.rules ≡ false
      → source ≢ "system"
      → Effect db (record db { rules = db.rules ++ new_rule name source body db.rules ∷ [] })
  marked : (id : ℕ) (f : Rule → Rule) → KeepsIdentity f → Effect db (set_rule id f db)
  tuned :
      (id : ℕ) (rule : Rule) (changed_by reason : String) (f : Rule → Rule)
      → KeepsIdentity f
      → find_rule id db ≡ some rule
      → Effect db (set_rule id f (snapshot_rule rule changed_by reason db))
  removed :
      (id : ℕ) (rule : Rule)
      → find_rule id db ≡ some rule
      → rule.source ≢ "system"
      → Effect db (removed_rule id db)

pub with_rule_cases {ℓ} :
    (P : Database → Type ℓ) (id : ℕ) (db : Database) (act : Rule → Database × Answer)
    → P db
    → ((rule : Rule) → find_rule id db ≡ some rule → P (act rule).0)
    → P (with_rule id db act).0
unfolding with_rule
with_rule_cases P id db act kept acts =
    if_cases (λ (out : Database × Answer). P out.0) db.available _ _
      (λ up.
        option_cases (λ (out : Database × Answer). P out.0) (find_rule id db) _ act (λ e. kept)
          acts)
      (λ down. kept)

-- of a session's result: the database it leaves is one of the effects
abbrev Leaves : Database → Database × Answer → Type 0
Leaves db out = Effect db out.0

marks :
    (id : ℕ) (f : Rule → Rule) (db : Database)
    → KeepsIdentity f
    → Effect db (with_rule id db (λ rule. (set_rule id f db, answered id))).0
marks id f db keeps =
    with_rule_cases (Effect db) id db (λ rule. (set_rule id f db, answered id)) same
      (λ rule e. marked id f keeps)

not_system :
    (source : String) → not (source == "agent" || source == "user") ≡ false → source ≢ "system"
not_system source known system =
    let wrong : true ≡ false =
      subst (λ s. not (s == "agent" || s == "user") ≡ false) system known in
    ground arith

create_named-Effect :
    (name : String) (body : Body) (db : Database) → Effect db (create_named name body db).0
unfolding create_named
create_named-Effect name body db =
    let source = get_or "agent" body.source in
    if_cases (Leaves db) (not (source == "agent" || source == "user")) _ _ (λ other. same)
      (λ known.
        if_cases (Leaves db) (not db.available) _ _ (λ down. same)
          (λ up.
            if_cases (Leaves db) (any (λ (r : Rule). r.name == name) db.rules) _ _ (λ taken. same)
              (λ free. added name source body free (not_system source known))))

create_rule-Effect : (body : Body) (db : Database) → Effect db (create_rule body db).0
unfolding create_rule
create_rule-Effect body db =
    option_cases (Leaves db) body.name _ _ (λ missing. same)
      (λ name e.
        if_cases (Leaves db) (truthy name) _ _ (λ named. create_named-Effect name body db)
          (λ empty. same))

apply_update-KeepsIdentity : (now : ℕ) (body : Body) → KeepsIdentity (apply_update now body)
unfolding apply_update
apply_update-KeepsIdentity now body = record {
  id = λ r. refl;
  name = λ r. refl;
  source = λ r. refl;
}

restore-KeepsIdentity : (now : ℕ) (target : RuleVersion) → KeepsIdentity (restore now target)
unfolding restore
restore-KeepsIdentity now target = record { id = λ r. refl; name = λ r. refl; source = λ r. refl }

update_row-Effect :
    (now id : ℕ) (body : Body) (db : Database) → Effect db (update_row now id body db).0
unfolding update_row
update_row-Effect now id body db = with_rule_cases (Effect db) id db _ same (λ rule e.
    let by = get_or "agent" body.changed_by in
    if_cases (Leaves db) (rule.frozen && not (by == "user")) _ _ (λ frozen. same)
      (λ free.
        tuned id rule by (get_or "" body.change_reason) (apply_update now body)
          (apply_update-KeepsIdentity now body) e))

delete_rule-Effect : (id : ℕ) (db : Database) → Effect db (delete_rule id db).0
unfolding delete_rule
delete_rule-Effect id db = with_rule_cases (Effect db) id db _ same (λ rule e.
    if_cases (Leaves db) (rule.source == "system") _ _ (λ system. same)
      (λ own.
        if_cases (Leaves db) (is_referenced id db) _ _ (λ held. same)
          (λ free.
            removed id rule e
              (λ system. ground (arith, string_eq.decides rule.source "system", own, system)))))

rule_feedback-Effect :
    (id : ℕ) (said : String) (db : Database) → Effect db (rule_feedback id said db).0
unfolding rule_feedback
rule_feedback-Effect id said db =
    if_cases (Leaves db) (not (lower said == "tp" || lower said == "fp")) _ _ (λ other. same)
      (λ known.
        marks id _ db
          (record { id = λ r. ground arith; name = λ r. ground arith; source = λ r. ground arith }))

rollback_rule-Effect :
    (now id version : ℕ) (reason : String) (db : Database)
    → Effect db (rollback_rule now id version reason db).0
unfolding rollback_rule
rollback_rule-Effect now id version reason db = with_rule_cases (Effect db) id db _ same (λ rule e.
    option_cases (Leaves db) (find_version id version db.versions) _ _ (λ missing. same)
      (λ target found.
        tuned id rule "user" reason (restore now target) (restore-KeepsIdentity now target) e))

pub serve_db-Effect :
    (now : ℕ) (request : Request) (db : Database) → Effect db (serve_db now request db)
unfolding serve_db freeze_rule unfreeze_rule approve_rule
serve_db-Effect now (create body) db = create_rule-Effect body db
serve_db-Effect now (update id body) db = update_row-Effect now id body db
serve_db-Effect now (delete id) db = delete_rule-Effect id db
serve_db-Effect now (feedback id said) db = rule_feedback-Effect id said db
serve_db-Effect now (freeze id) db =
    marks id _ db (record { id = λ r. refl; name = λ r. refl; source = λ r. refl })
serve_db-Effect now (unfreeze id) db =
    marks id _ db (record { id = λ r. refl; name = λ r. refl; source = λ r. refl })
serve_db-Effect now (approve id) db =
    marks id _ db (record { id = λ r. refl; name = λ r. refl; source = λ r. refl })
serve_db-Effect now (rollback id version reason) db = rollback_rule-Effect now id version reason db
