-- ===== src/Rules/Rollback.antt =====
-- A rollback to the version that an update made takes the update back.
use sentinel_home.Prelude.{
  ℕ, ◌+◌, ◌<◌, String, ◌≡◌, refl, ◌∙◌, ap, true, false, not, ◌&&◌, some, List, [], ◌∷◌, ◌++◌, arith,
  first, update_where, if_cases, option_cases, ◌==◌, nat_eq, string_eq,
}
use sentinel_home.Models.{Rule, RuleVersion, Database, get_or}
use sentinel_home.Rules.{
  Body, Answer, find_rule, set_rule, with_rule, newest_version, snapshot, snapshot_rule,
  apply_update, update_row, find_version, restore, rollback_rule,
}

pub find_rule-set_rule :
    (id : ℕ) (f : Rule → Rule) (rules : List Rule) (rule : Rule)
    → ((r : Rule) → (f r).id ≡ r.id)
    → first (λ r. r.id == id) rules ≡ some rule
    → first (λ r. r.id == id) (update_where (λ r. r.id == id) f rules) ≡ some (f rule)
find_rule-set_rule id f [] rule keeps e = ground (arith, e)
find_rule-set_rule id f (r ∷ rules) rule keeps e =
    ground (arith, keeps r, e, find_rule-set_rule id f rules rule keeps)

pub with_rule_found :
    (id : ℕ) (db : Database) (act : Rule → Database × Answer) (rule : Rule)
    → db.available ≡ true
    → find_rule id db ≡ some rule
    → with_rule id db act ≡ act rule
unfolding with_rule
with_rule_found id db act rule up e =
    if_cases (λ (out : Database × Answer). out ≡ act rule) db.available _ _
      (λ _.
        option_cases (λ (out : Database × Answer). out ≡ act rule) (find_rule id db) _ act
          (λ missing. ground (arith, missing, e)) (λ r found. ap act (ground (arith, found, e))))
      (λ down. ground (arith, up, down))

-- A new version with a number above the others is found under that number.
find_version-append_one :
    (id : ℕ) (versions : List RuleVersion) (v : RuleVersion)
    → v.rule_id ≡ id
    → newest_version id versions < v.version
    → find_version id v.version (versions ++ v ∷ []) ≡ some v
find_version-append_one id [] v own new = ground (arith, own)
find_version-append_one id (u ∷ versions) v own new =
    ground (arith, own, new, find_version-append_one id versions v own)

first-id :
    (id : ℕ) (rules : List Rule) (rule : Rule)
    → first (λ r. r.id == id) rules ≡ some rule
    → rule.id ≡ id
first-id id [] rule e = ground (arith, e)
first-id id (r ∷ rules) rule e = ground (arith, e, first-id id rules rule)

pub update_row_allowed :
    (now id : ℕ) (body : Body) (db : Database) (rule : Rule)
    → db.available ≡ true
    → find_rule id db ≡ some rule
    → (rule.frozen && not (get_or "agent" body.changed_by == "user")) ≡ false
    → (update_row now id body db).0
      ≡ set_rule id
          (apply_update now body)
          (snapshot_rule rule (get_or "agent" body.changed_by) (get_or "" body.change_reason) db)
unfolding update_row
update_row_allowed now id body db rule up e allowed =
    ap (λ (out : Database × Answer). out.0) (with_rule_found id db _ rule up e) ∙ (rw allowed refl)

rollback_rule_found :
    (now id version : ℕ) (reason : String) (db : Database) (rule : Rule) (target : RuleVersion)
    → db.available ≡ true
    → find_rule id db ≡ some rule
    → find_version id version db.versions ≡ some target
    → (rollback_rule now id version reason db).0
      ≡ set_rule id (restore now target) (snapshot_rule rule "user" reason db)
unfolding rollback_rule
rollback_rule_found now id version reason db rule target up e found =
    ap (λ (out : Database × Answer). out.0) (with_rule_found id db _ rule up e)
    ∙ option_cases
        (λ (out : Database × Answer).
          out.0 ≡ set_rule id (restore now target) (snapshot_rule rule "user" reason db))
        (find_version id version db.versions) _ _ (λ missing. ground (arith, missing, found))
        (λ t hit.
          ap
            (λ (v : RuleVersion). set_rule id (restore now v) (snapshot_rule rule "user" reason db))
            (ground (arith, hit, found)))

-- Rolling a rule back to the version that an update made brings back the parameters, the severity,
-- the switch and the cooldown from before the update and keeps the rest of what the update wrote, if
-- the database answers, the rule exists and the update was not refused for a frozen rule.
pub rollback_rule-update_row :
    (now now' id : ℕ) (body : Body) (reason : String) (db : Database) (rule : Rule)
    → db.available ≡ true
    → find_rule id db ≡ some rule
    → (rule.frozen && not (get_or "agent" body.changed_by == "user")) ≡ false
    → let version = newest_version id db.versions + 1 in
      let updated = (update_row now id body db).0 in
      find_rule id (rollback_rule now' id version reason updated).0
      ≡ some (record (apply_update now body rule) {
        parameters = rule.parameters;
        severity = rule.severity;
        enabled = rule.enabled;
        cooldown_seconds = rule.cooldown_seconds;
        last_tuned = some now';
      })
unfolding apply_update restore snapshot
rollback_rule-update_row now now' id body reason db rule up e allowed =
    let by = get_or "agent" body.changed_by in
    let why = get_or "" body.change_reason in
    let taken = snapshot rule by why db.versions in
    let updated = set_rule id (apply_update now body) (snapshot_rule rule by why db) in
    let here : find_rule id updated ≡ some (apply_update now body rule) =
      find_rule-set_rule id (apply_update now body) db.rules rule (λ r. refl) e in
    let own : rule.id ≡ id = first-id id db.rules rule e in
    let found : find_version id (newest_version id db.versions + 1) updated.versions ≡ some taken =
      rw⁻¹ own (find_version-append_one rule.id db.versions taken refl (omega arith)) in
    rw (update_row_allowed now id body db rule up e allowed) (
      rw
        (rollback_rule_found now' id (newest_version id db.versions + 1) reason updated _ taken up
          here found)
        (find_rule-set_rule id (restore now' taken) updated.rules (apply_update now body rule)
          (λ r. refl) here))
