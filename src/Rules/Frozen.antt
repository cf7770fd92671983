-- ===== src/Rules/Frozen.antt =====
-- A frozen rule, and what the agent's requests can do to it.
use sentinel_home.Prelude.{
  ℕ, String, ◌≡◌, refl, sym, subst, ◌∙◌, ap, inl, inr, Bool-cases, Bool, true, false, not, ◌&&◌,
  ◌||◌, some, List, [], ◌∷◌, ◌++◌, arith, first, any, select, update_where, lower, truthy, if_cases,
  option_cases, ◌==◌, nat_eq, string_eq,
}
use sentinel_home.Models.{Rule, Database, get_or}
use sentinel_home.Rules.{
  Body, Answer, find_rule, set_rule, snapshot_rule, new_rule, create_named, create_rule,
  apply_update, update_row, is_referenced, delete_rule, rule_feedback, freeze_rule, unfreeze_rule,
  approve_rule, find_version, restore, rollback_rule, Request, create, update, delete, feedback,
  freeze, unfreeze, approve, rollback, serve_db,
}
use sentinel_home.Rules.Frame.{with_rule_cases}
use sentinel_home.Rules.Rollback.{find_rule-set_rule}

-- what the detection of a rule depends on, and its lock
pub record SameConfig (r s : Rule) : Type 0 where
  pub parameters : s.parameters ≡ r.parameters
  pub severity : s.severity ≡ r.severity
  pub enabled : s.enabled ≡ r.enabled
  pub cooldown_seconds : s.cooldown_seconds ≡ r.cooldown_seconds
  pub action : s.action ≡ r.action
  pub priority : s.priority ≡ r.priority
  pub frozen : s.frozen ≡ r.frozen

SameConfig-refl : (r : Rule) → SameConfig r r
SameConfig-refl r = record {
  parameters = refl;
  severity = refl;
  enabled = refl;
  cooldown_seconds = refl;
  action = refl;
  priority = refl;
  frozen = refl;
}

-- The rule `id` is in the table, configured and locked as `rule` is.
abbrev pub Keeps : ℕ → Rule → Database → Type 0
Keeps id rule db = (s : Rule) × (find_rule id db ≡ some s) × SameConfig rule s

-- requests that are not a user's decision on the rule: neither its unlocking, rollback or deletion,
-- nor an update in the user's name
abbrev pub is_agents : ℕ → Request → Bool
is_agents id (update n body) = not (n == id) || not (get_or "agent" body.changed_by == "user")
is_agents id (delete n) = not (n == id)
is_agents id (unfreeze n) = not (n == id)
is_agents id (rollback n version reason) = not (n == id)
is_agents id request = true

pub first-append_one :
    (id : ℕ) (rules : List Rule) (r s : Rule)
    → first (λ x. x.id == id) rules ≡ some s
    → first (λ x. x.id == id) (rules ++ r ∷ []) ≡ some s
first-append_one id [] r s e = ground (arith, e)
first-append_one id (x ∷ rules) r s e = ground (arith, e, first-append_one id rules r s)

pub first-update_other :
    (id n : ℕ) (f : Rule → Rule) (rules : List Rule) (s : Rule)
    → (n == id) ≡ false
    → ((r : Rule) → (f r).id ≡ r.id)
    → first (λ x. x.id == id) rules ≡ some s
    → first (λ x. x.id == id) (update_where (λ x. x.id == n) f rules) ≡ some s
first-update_other id n f [] s ne keeps e = ground (arith, e)
first-update_other id n f (x ∷ rules) s ne keeps e =
    ground (arith, e, ne, keeps x, first-update_other id n f rules s ne keeps)

pub first-remove_other :
    (id n : ℕ) (rules : List Rule) (s : Rule)
    → (n == id) ≡ false
    → first (λ x. x.id == id) rules ≡ some s
    → first (λ x. x.id == id) (select (λ x. not (x.id == n)) rules) ≡ some s
first-remove_other id n [] s ne e = ground (arith, e)
first-remove_other id n (x ∷ rules) s ne e =
    ground (arith, e, ne, first-remove_other id n rules s ne)

module _ (id : ℕ) (rule : Rule) (locked : rule.frozen ≡ true) where
  abbrev Out : Database × Answer → Type 0
  Out out = Keeps id rule out.0

  pub set_other :
      (n : ℕ) (f : Rule → Rule) (db : Database)
      → (n == id) ≡ false
      → ((r : Rule) → (f r).id ≡ r.id)
      → Keeps id rule db
      → Keeps id rule (set_rule n f db)
  set_other n f db ne keeps (s, e, c) = (s, first-update_other id n f db.rules s ne keeps e, c)

  pub set_any :
      (n : ℕ) (f : Rule → Rule) (db : Database)
      → ((r : Rule) → (f r).id ≡ r.id)
      → ((r : Rule) → SameConfig rule r → SameConfig rule (f r))
      → Keeps id rule db
      → Keeps id rule (set_rule n f db)
  set_any n f db keeps config (s, e, c) = elim (Bool-cases (n == id)) [
    | inr ne ↦ set_other n f db ne keeps (s, e, c)
    | inl own ↦
        let same : n ≡ id = (nat_eq.decides n id).0 own in
        rw same (f s, find_rule-set_rule id f db.rules s keeps e, config s c)
  ]

  create_rule-Keeps :
      (body : Body) (db : Database) → Keeps id rule db → Keeps id rule (create_rule body db).0
  unfolding create_rule create_named
  create_rule-Keeps body db (s, e, c) =
      option_cases Out body.name _ _ (λ missing. (s, e, c))
        (λ name named.
          let source = get_or "agent" body.source in
          if_cases Out (truthy name) _ _
            (λ _.
              if_cases Out (not (source == "agent" || source == "user")) _ _ (λ other. (s, e, c))
                (λ known.
                  if_cases Out (not db.available) _ _ (λ down. (s, e, c))
                    (λ up.
                      if_cases Out (any (λ (r : Rule). r.name == name) db.rules) _ _
                        (λ taken. (s, e, c))
                        (λ free. (
                          s,
                          first-append_one id db.rules (new_rule name source body db.rules) s e,
                          c,
                        )))))
            (λ empty. (s, e, c)))

  -- An update in the agent's name that is not refused is of another rule.
  updates_other :
      (n : ℕ) (body : Body) (db : Database) (s r : Rule)
      → is_agents id (update n body) ≡ true
      → find_rule id db ≡ some s
      → SameConfig rule s
      → find_rule n db ≡ some r
      → (r.frozen && not (get_or "agent" body.changed_by == "user")) ≡ false
      → (n == id) ≡ false
  updates_other n body db s r agents e c found allowed = elim (Bool-cases (n == id)) [
    | inr ne ↦ ne
    | inl own ↦
        let found' : find_rule id db ≡ some r =
          subst (λ i. find_rule i db ≡ some r) ((nat_eq.decides n id).0 own) found in
        let same : r ≡ s = ground (arith, found', e) in
        let shut : r.frozen ≡ true = ap (λ (x : Rule). x.frozen) same ∙ c.frozen ∙ locked in
        ground (arith, agents, own, allowed, shut)
  ]

  update_row-Keeps :
      (now n : ℕ) (body : Body) (db : Database)
      → is_agents id (update n body) ≡ true
      → Keeps id rule db
      → Keeps id rule (update_row now n body db).0
  unfolding update_row apply_update
  update_row-Keeps now n body db agents (s, e, c) =
      with_rule_cases (Keeps id rule) n db _ (s, e, c)
        (λ r found.
          if_cases Out (r.frozen && not (get_or "agent" body.changed_by == "user")) _ _
            (λ refused. (s, e, c))
            (λ allowed.
              set_other n (apply_update now body)
                (snapshot_rule r (get_or "agent" body.changed_by) (get_or "" body.change_reason) db)
                (updates_other n body db s r agents e c found allowed) (λ r. refl) (s, e, c)))

  delete_rule-Keeps :
      (n : ℕ) (db : Database)
      → (n == id) ≡ false
      → Keeps id rule db
      → Keeps id rule (delete_rule n db).0
  unfolding delete_rule
  delete_rule-Keeps n db ne (s, e, c) =
      with_rule_cases (Keeps id rule) n db _ (s, e, c)
        (λ r found.
          if_cases Out (r.source == "system") _ _ (λ system. (s, e, c))
            (λ own.
              if_cases Out (is_referenced n db) _ _ (λ held. (s, e, c))
                (λ free. (s, first-remove_other id n db.rules s ne e, c))))

  rule_feedback-Keeps :
      (n : ℕ) (said : String) (db : Database)
      → Keeps id rule db
      → Keeps id rule (rule_feedback n said db).0
  unfolding rule_feedback
  rule_feedback-Keeps n said db h =
      if_cases Out (not (lower said == "tp" || lower said == "fp")) _ _ (λ other. h)
        (λ known. with_rule_cases (Keeps id rule) n db _ h (λ r found.
          set_any n _ db (λ x. ground arith)
            (λ x c. record {
              parameters = ground (arith, c.parameters);
              severity = ground (arith, c.severity);
              enabled = ground (arith, c.enabled);
              cooldown_seconds = ground (arith, c.cooldown_seconds);
              action = ground (arith, c.action);
              priority = ground (arith, c.priority);
              frozen = ground (arith, c.frozen);
            })
            h))

  freeze_rule-Keeps :
      (n : ℕ) (db : Database) → Keeps id rule db → Keeps id rule (freeze_rule n db).0
  unfolding freeze_rule
  freeze_rule-Keeps n db h = with_rule_cases (Keeps id rule) n db _ h (λ r found.
      set_any n _ db (λ x. refl)
        (λ x c. record {
          parameters = c.parameters;
          severity = c.severity;
          enabled = c.enabled;
          cooldown_seconds = c.cooldown_seconds;
          action = c.action;
          priority = c.priority;
          frozen = sym locked;
        })
        h)

  approve_rule-Keeps :
      (n : ℕ) (db : Database) → Keeps id rule db → Keeps id rule (approve_rule n db).0
  unfolding approve_rule
  approve_rule-Keeps n db h = with_rule_cases (Keeps id rule) n db _ h (λ r found.
      set_any n _ db (λ x. refl)
        (λ x c. record {
          parameters = c.parameters;
          severity = c.severity;
          enabled = c.enabled;
          cooldown_seconds = c.cooldown_seconds;
          action = c.action;
          priority = c.priority;
          frozen = c.frozen;
        })
        h)

  unfreeze_rule-Keeps :
      (n : ℕ) (db : Database)
      → (n == id) ≡ false
      → Keeps id rule db
      → Keeps id rule (unfreeze_rule n db).0
  unfolding unfreeze_rule
  unfreeze_rule-Keeps n db ne h =
      with_rule_cases (Keeps id rule) n db _ h (λ r found. set_other n _ db ne (λ x. refl) h)

  rollback_rule-Keeps :
      (now n version : ℕ) (reason : String) (db : Database)
      → (n == id) ≡ false
      → Keeps id rule db
      → Keeps id rule (rollback_rule now n version reason db).0
  unfolding rollback_rule restore
  rollback_rule-Keeps now n version reason db ne h =
      with_rule_cases (Keeps id rule) n db _ h (λ r found.
        option_cases Out (find_version n version db.versions) _ _ (λ missing. h)
          (λ target hit.
            set_other n (restore now target) (snapshot_rule r "user" reason db) ne (λ x. refl) h))

  pub serve_db-Keeps :
      (now : ℕ) (request : Request) (db : Database)
      → is_agents id request ≡ true
      → Keeps id rule db
      → Keeps id rule (serve_db now request db)
  unfolding serve_db
  serve_db-Keeps now (create body) db agents h = create_rule-Keeps body db h
  serve_db-Keeps now (update n body) db agents h = update_row-Keeps now n body db agents h
  serve_db-Keeps now (delete n) db agents h = delete_rule-Keeps n db (ground (arith, agents)) h
  serve_db-Keeps now (feedback n said) db agents h = rule_feedback-Keeps n said db h
  serve_db-Keeps now (freeze n) db agents h = freeze_rule-Keeps n db h
  serve_db-Keeps now (unfreeze n) db agents h = unfreeze_rule-Keeps n db (ground (arith, agents)) h
  serve_db-Keeps now (approve n) db agents h = approve_rule-Keeps n db h
  serve_db-Keeps now (rollback n version reason) db agents h =
      rollback_rule-Keeps now n version reason db (ground (arith, agents)) h
