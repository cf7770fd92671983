-- ===== src/Critic/Tuning.antt =====
-- What a cycle of the critic does to the rules and their versions.
use sentinel_home.Prelude.{
  ℕ, ◌+◌, ◌<◌, String, ◌≡◌, ◌≢◌, refl, sym, subst, ◌∙◌, ap, inl, inr, Bool, true, false, not,
  Option, none, some, List, [], ◌∷◌, arith, All, first, select, update_where, leb, Bool-cases,
  if_cases, option_cases, ◌==◌, nat_eq, string_eq, if◌then◌else◌, Distinct, map, ◌&&◌,
}
use sentinel_home.Models.{Rule, Database}
use sentinel_home.Engine.State.{Engine}
use sentinel_home.Rules.{find_rule}
use sentinel_home.Rules.Numbering.{IsNumbered, IsNumbered-snapshot}
use sentinel_home.Rules.Keeping.{HasKeys, id_of}
use sentinel_home.Rules.Rollback.{find_rule-set_rule}
use sentinel_home.Rules.Frozen.{first-update_other}
use sentinel_home.Critic.{
  Result, CriticConfig, Loop, End, finished, raised, Critic, sanity_check_rule_eval, tune,
  apply_rule_change, needs_evaluation, proposal, act_on, evaluate_rule, evaluate_all, is_tunable,
  evaluate_rules, run_critic,
}

-- the database that a cycle leaves: a skipped one leaves it alone
abbrev pub database_after : Database → Option (End × Loop) → Database
database_after db none = db
database_after db (some out) = out.1.db

All-Unit : (rules : List Rule) → All (λ rule. Unit {0}) rules
All-Unit [] = tt
All-Unit (r ∷ rules) = (tt, All-Unit rules)

-- Where ids are keys, the rows with the id of a rule that is found are that rule.
only_row :
    (id : ℕ) (r : Rule) (rules : List Rule)
    → Distinct (map id_of rules)
    → first (λ x. x.id == id) rules ≡ some r
    → All (λ x. x.id ≡ id → x ≡ r) rules
only_row id r [] d e = tt
only_row id r (x ∷ rules) d e = elim (Bool-cases (x.id == id)) [
  | inr other ↦ (
    λ own. ground (arith, other, own, nat_eq.decides x.id id),
    only_row id r rules d.1 (ground (arith, other, e)),
  )
  | inl hit ↦ (λ own. ground (arith, hit, e), others rules ((nat_eq.decides x.id id).0 hit) d.0)
]
  where
    others :
        (xs : List Rule)
        → x.id ≡ id
        → All (λ n. x.id ≢ n) (map id_of xs)
        → All (λ y. y.id ≡ id → y ≡ r) xs
    others [] same h = tt
    others (y ∷ xs) same h = (λ own. ground (arith, own, same, h.0), others xs same h.1)

tunable_rows :
    (id : ℕ) (r : Rule) (rules : List Rule)
    → All (λ x. x.id ≡ id → x ≡ r) rules
    → All (λ x. (x.id ≡ id → x ≡ r) × (is_tunable x ≡ true)) (select is_tunable rules)
tunable_rows id r [] h = tt
tunable_rows id r (x ∷ rules) h = elim (Bool-cases (is_tunable x)) [
  | inl e ↦ rw e ((h.0, e), tunable_rows id r rules h.1)
  | inr e ↦ rw e (tunable_rows id r rules h.1)
]

tune-id :
    (now : ℕ) (choice conservatism : String) (r : Rule) → (tune now choice conservatism r).id ≡ r.id
unfolding tune
tune-id now choice conservatism r = ground arith

module _ (cfg : CriticConfig) (now : ℕ) where
  -- of the database and the counter: a round leaves them alone, or makes one change and counts it
  pub evaluate_rule_cases {ℓ} :
      (P : Database → ℕ → Type ℓ) (ask : ℕ → Result) (rule : Rule) (s : Loop)
      → P s.db s.changes_today
      → ((result : Result)
          → sanity_check_rule_eval result.choice rule.fire_count rule.true_positive_count ≡ true
          → P (apply_rule_change now rule result cfg.conservatism s.db) (s.changes_today + 1))
      → P (evaluate_rule cfg now ask rule s).db (evaluate_rule cfg now ask rule s).changes_today
  unfolding evaluate_rule act_on
  evaluate_rule_cases P ask rule s kept changed =
      let Q = λ (t : Loop). P t.db t.changes_today in
      option_cases Q (proposal cfg ask) _ _
        (λ missing. if_cases Q cfg.require_consensus _ _ (λ e. kept) (λ e. kept))
        (λ result e.
          if_cases Q (result.choice == "KEEP") _ _ (λ keep. kept)
            (λ other.
              if_cases Q
                (not
                  (sanity_check_rule_eval result.choice rule.fire_count rule.true_positive_count))
                _ _ (λ insane. kept) (λ sane. changed result (ground (arith, sane)))))

  -- What every change of one of the rules keeps, the loop keeps.
  evaluate_all_keeps {ℓ κ} :
      (P : Database → Type ℓ) (Q : Rule → Type κ) (ask : ℕ → ℕ → Result) (rules : List Rule)
      (s : Loop)
      → ((rule : Rule) (result : Result) (db : Database)
          → Q rule
          → sanity_check_rule_eval result.choice rule.fire_count rule.true_positive_count ≡ true
          → P db
          → P (apply_rule_change now rule result cfg.conservatism db))
      → All Q rules
      → P s.db
      → P (evaluate_all cfg now ask rules s).1.db
  unfolding evaluate_all
  evaluate_all_keeps P Q ask [] s change q p = p
  evaluate_all_keeps P Q ask (rule ∷ rules) s change q p =
      let evaluated = evaluate_rule cfg now (ask rule.id) rule s in
      let judged =
        evaluate_rule_cases (λ d n. P d) (ask rule.id) rule s p
          (λ result sane. change rule result s.db q.0 sane p) in
      go (needs_evaluation cfg rule s.db.versions) (evaluate_all_keeps P Q ask rules s change q.1 p)
        (evaluate_all_keeps P Q ask rules evaluated change q.1 judged)
    where
      go :
          (o : Option Bool)
          → P (evaluate_all cfg now ask rules s).1.db
          → P (evaluate_all cfg now ask rules (evaluate_rule cfg now (ask rule.id) rule s)).1.db
          → P
              (elim o as (λ _. End × Loop) [
                | none ↦ (raised, s)
                | some false ↦ evaluate_all cfg now ask rules s
                | some true ↦
                    if leb cfg.max_rule_changes_per_day s.changes_today
                    then (finished, s)
                    else evaluate_all cfg now ask rules (evaluate_rule cfg now (ask rule.id) rule s)
              ]).1.db
      go none passed over = p
      go (some false) passed over = passed
      go (some true) passed over =
          if_cases (λ (out : End × Loop). P out.1.db)
            (leb cfg.max_rule_changes_per_day s.changes_today) _ _ (λ limit. p) (λ free. over)

  evaluate_rules_keeps {ℓ κ} :
      (P : Database → Type ℓ) (Q : Rule → Type κ) (ask : ℕ → ℕ → Result) (s : Loop)
      → ((rule : Rule) (result : Result) (db : Database)
          → Q rule
          → sanity_check_rule_eval result.choice rule.fire_count rule.true_positive_count ≡ true
          → P db
          → P (apply_rule_change now rule result cfg.conservatism db))
      → All Q (select is_tunable s.db.rules)
      → P s.db
      → P (evaluate_rules cfg now ask s).1.db
  unfolding evaluate_rules
  evaluate_rules_keeps P Q ask s change q p =
      if_cases (λ (out : End × Loop). P out.1.db) (not s.db.available) _ _ (λ down. p)
        (λ up.
          go (evaluate_all cfg now ask (select is_tunable s.db.rules) s)
            (evaluate_all_keeps P Q ask (select is_tunable s.db.rules) s change q p))
    where
      go :
          (out : End × Loop)
          → P out.1.db
          → P
              (elim out.0 as (λ _. End × Loop) [
                | finished ↦ (finished, out.1)
                | raised ↦ (raised, record (out.1) { db = s.db })
              ]).1.db
      go (finished, s') h = h
      go (raised, s') h = p

  run_critic_keeps {ℓ κ} :
      (P : Database → Type ℓ) (Q : Rule → Type κ) (ask : ℕ → ℕ → Result) (critic : Critic)
      (engine : Engine) (db : Database)
      → ((rule : Rule) (result : Result) (db : Database)
          → Q rule
          → sanity_check_rule_eval result.choice rule.fire_count rule.true_positive_count ≡ true
          → P db
          → P (apply_rule_change now rule result cfg.conservatism db))
      → All Q (select is_tunable db.rules)
      → P db
      → P (database_after db (run_critic cfg now ask critic engine db).0)
  unfolding run_critic
  run_critic_keeps P Q ask critic engine db change q p =
      if_cases (λ (out : Option (End × Loop) × Critic). P (database_after db out.0))
        (not cfg.auto_tuning) _ _ (λ skipped. p)
        (λ running. evaluate_rules_keeps P Q ask _ change q p)

  -- A cycle keeps the versions of every rule numbered 1, 2, 3 and so on.
  run_critic-IsNumbered :
      (ask : ℕ → ℕ → Result) (critic : Critic) (engine : Engine) (db : Database)
      → IsNumbered db
      → IsNumbered (database_after db (run_critic cfg now ask critic engine db).0)
  unfolding apply_rule_change
  run_critic-IsNumbered ask critic engine db h =
      run_critic_keeps IsNumbered (λ rule. Unit {0}) ask critic engine db
        (λ rule result db' q sane p. IsNumbered-snapshot rule "agent" _ db' p)
        (All-Unit (select is_tunable db.rules)) h

  -- A change of another rule is not seen at a rule.
  apply_rule_change-other :
      (id : ℕ) (r rule : Rule) (result : Result) (db : Database)
      → (rule.id == id) ≡ false
      → find_rule id db ≡ some r
      → find_rule id (apply_rule_change now rule result cfg.conservatism db) ≡ some r
  unfolding apply_rule_change
  apply_rule_change-other id r rule result db ne e =
      first-update_other id rule.id (tune now result.choice cfg.conservatism) db.rules r ne
        (tune-id now result.choice cfg.conservatism) e

  -- A rule that is frozen, disabled or not approved comes out of a cycle as it was, if ids and names of
  -- the rules are without repetition.
  pub run_critic-untunable :
      (ask : ℕ → ℕ → Result) (critic : Critic) (engine : Engine) (db : Database) (id : ℕ) (r : Rule)
      → HasKeys db.rules
      → find_rule id db ≡ some r
      → (r.enabled && not r.frozen && r.approved) ≡ false
      → find_rule id (database_after db (run_critic cfg now ask critic engine db).0) ≡ some r
  run_critic-untunable ask critic engine db id r keys e shut =
      run_critic_keeps (λ d. find_rule id d ≡ some r)
        (λ x. (x.id ≡ id → x ≡ r) × (is_tunable x ≡ true)) ask critic engine db
        (λ rule result db' q sane p.
          apply_rule_change-other id r rule result db' (different rule q) p)
        (tunable_rows id r db.rules (only_row id r db.rules keys.ids e)) e
    where
      different :
          (rule : Rule)
          → (rule.id ≡ id → rule ≡ r) × (is_tunable rule ≡ true)
          → (rule.id == id) ≡ false
      different rule q = elim (Bool-cases (rule.id == id)) [
        | inr ne ↦ ne
        | inl own ↦
            let same : rule ≡ r = q.0 ((nat_eq.decides rule.id id).0 own) in
            let both : is_tunable rule ≡ is_tunable r = ap (λ (x : Rule). is_tunable x) same in
            ground (arith, both, q.1, shut)
      ]

  tune_enabled :
      (choice conservatism : String) (fires : ℕ) (r : Rule) (tps : ℕ)
      → 0 < tps
      → sanity_check_rule_eval choice fires tps ≡ true
      → (tune now choice conservatism r).enabled ≡ r.enabled
  unfolding tune sanity_check_rule_eval
  tune_enabled choice conservatism fires r tps confirmed sane = ground (arith, confirmed, sane)

  -- No cycle disables a rule with confirmed true positives, if ids and names of the rules are without
  -- repetition.
  pub run_critic-confirmed :
      (ask : ℕ → ℕ → Result) (critic : Critic) (engine : Engine) (db : Database) (id : ℕ) (r : Rule)
      → HasKeys db.rules
      → find_rule id db ≡ some r
      → 0 < r.true_positive_count
      → (s : Rule) × (find_rule id (database_after db (run_critic cfg now ask critic engine db).0)
          ≡ some s)
        × (s.enabled ≡ r.enabled)
  unfolding apply_rule_change
  run_critic-confirmed ask critic engine db id r keys e confirmed =
      run_critic_keeps (λ d. (s : Rule) × (find_rule id d ≡ some s) × (s.enabled ≡ r.enabled))
        (λ x. (x.id ≡ id → x ≡ r) × (is_tunable x ≡ true)) ask critic engine db change
        (tunable_rows id r db.rules (only_row id r db.rules keys.ids e)) (r, e, refl)
    where
      change :
          (rule : Rule) (result : Result) (d : Database)
          → (rule.id ≡ id → rule ≡ r) × (is_tunable rule ≡ true)
          → sanity_check_rule_eval result.choice rule.fire_count rule.true_positive_count ≡ true
          → (s : Rule) × (find_rule id d ≡ some s) × (s.enabled ≡ r.enabled)
          → (s : Rule) × (find_rule id (apply_rule_change now rule result cfg.conservatism d)
              ≡ some s)
            × (s.enabled ≡ r.enabled)
      change rule result d q sane (s, found, on) = elim (Bool-cases (rule.id == id)) [
        | inr ne ↦ (s, apply_rule_change-other id s rule result d ne found, on)
        | inl own ↦
            let here : rule.id ≡ id = (nat_eq.decides rule.id id).0 own in
            let tps : 0 < rule.true_positive_count =
              subst (λ (x : Rule). 0 < x.true_positive_count) (sym (q.0 here)) confirmed in
            (
              tune now result.choice cfg.conservatism s,
              subst
                  (λ i.
                    first (λ x. x.id == id)
                      (update_where (λ x. x.id == i) (tune now result.choice cfg.conservatism)
                        d.rules)
                    ≡ some (tune now result.choice cfg.conservatism s))
                  (sym here)
                  (find_rule-set_rule id (tune now result.choice cfg.conservatism) d.rules s
                    (tune-id now result.choice cfg.conservatism) found),
              tune_enabled result.choice cfg.conservatism rule.fire_count s rule.true_positive_count
                    tps sane
                  ∙ on,
            )
      ]
