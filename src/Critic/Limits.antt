-- ===== src/Critic/Limits.antt =====
-- How much the critic may change: at most so many changes a day, and small ones.
use sentinel_home.Prelude.{
  ℕ, ◌+◌, ◌*◌, ◌-◌, ◌≤◌, ◌<◌, String, ◌≡◌, ◌⊎◌, inl, inr, Bool-cases, subst, sym, refl, Bool, true,
  false, not, Option, none, some, List, [], ◌∷◌, arith, select, ltb, leb, min, max, if_cases, ◌==◌,
  nat_eq, string_eq, if◌then◌else◌, length, length-append,
}
use sentinel_home.Models.{Rule, Database}
use sentinel_home.Engine.State.{Engine, second}
use sentinel_home.Rules.{snapshot}
use sentinel_home.Critic.{
  Result, CriticConfig, Loop, End, finished, raised, Critic, tune, apply_rule_change,
  needs_evaluation, evaluate_rule, evaluate_all, is_tunable, evaluate_rules, reset_changes,
  run_critic, no_stats, change_reason, severity_index, raised_severity, lowered_severity,
}
use sentinel_home.Critic.Tuning.{database_after, evaluate_rule_cases}

-- the changes that the loop may still make
abbrev pub left : CriticConfig → ℕ → ℕ
left cfg changes = cfg.max_rule_changes_per_day - changes

-- From a database and a counter to later ones: the counter stays within the limit and counts every
-- version that is written.
record Counts (cfg : CriticConfig) (d : Database) (n : ℕ) (e : Database) (m : ℕ) : Type 0 where
  pub written : length e.versions + n ≤ length d.versions + m
  pub within : m ≤ max n cfg.max_rule_changes_per_day

abbrev CountsLoop : CriticConfig → Loop → Loop → Type 0
CountsLoop cfg s t = Counts cfg s.db s.changes_today t.db t.changes_today

module _ (cfg : CriticConfig) (now : ℕ) where
  evaluate_rule-Counts :
      (ask : ℕ → Result) (rule : Rule) (s : Loop)
      → s.changes_today < cfg.max_rule_changes_per_day
      → CountsLoop cfg s (evaluate_rule cfg now ask rule s)
  unfolding apply_rule_change
  evaluate_rule-Counts ask rule s free =
      evaluate_rule_cases cfg now (Counts cfg s.db s.changes_today) ask rule s
        (record { written = omega arith; within = omega arith })
        (λ result sane. record {
          written = omega (
            arith,
            length-append s.db.versions
                (snapshot rule "agent" (change_reason result) s.db.versions ∷ []),
          );
          within = omega arith;
        })

  evaluate_all-Counts :
      (ask : ℕ → ℕ → Result) (rules : List Rule) (s : Loop)
      → CountsLoop cfg s (evaluate_all cfg now ask rules s).1
  unfolding evaluate_all
  evaluate_all-Counts ask [] s = record { written = omega arith; within = omega arith }
  evaluate_all-Counts ask (rule ∷ rules) s =
      go (needs_evaluation cfg rule s.db.versions) (evaluate_all-Counts ask rules s) (λ free.
        let first_step = evaluate_rule-Counts (ask rule.id) rule s free in
        let rest = evaluate_all-Counts ask rules (evaluate_rule cfg now (ask rule.id) rule s) in
        record {
          written = omega (arith, first_step.written, rest.written);
          within = omega (arith, first_step.within, rest.within);
        })
    where
      go :
          (o : Option Bool)
          → CountsLoop cfg s (evaluate_all cfg now ask rules s).1
          → (s.changes_today < cfg.max_rule_changes_per_day
              → CountsLoop cfg s
                  (evaluate_all cfg now ask rules (evaluate_rule cfg now (ask rule.id) rule s)).1)
          → CountsLoop cfg s
              (elim o as (λ _. End × Loop) [
                | none ↦ (raised, s)
                | some false ↦ evaluate_all cfg now ask rules s
                | some true ↦
                    if leb cfg.max_rule_changes_per_day s.changes_today
                    then (finished, s)
                    else evaluate_all cfg now ask rules (evaluate_rule cfg now (ask rule.id) rule s)
              ]).1
      go none passed over = record { written = omega arith; within = omega arith }
      go (some false) passed over = passed
      go (some true) passed over =
          if_cases (λ (out : End × Loop). CountsLoop cfg s out.1)
            (leb cfg.max_rule_changes_per_day s.changes_today) (finished, s)
            (evaluate_all cfg now ask rules (evaluate_rule cfg now (ask rule.id) rule s))
            (λ limit. record { written = omega arith; within = omega arith })
            (λ free. over (ground (arith, free)))

  evaluate_rules-Counts :
      (ask : ℕ → ℕ → Result) (s : Loop)
      → (length (evaluate_rules cfg now ask s).1.db.versions + s.changes_today
          ≤ length s.db.versions + max s.changes_today cfg.max_rule_changes_per_day)
        × ((evaluate_rules cfg now ask s).1.changes_today
            ≤ max s.changes_today cfg.max_rule_changes_per_day)
  unfolding evaluate_rules
  evaluate_rules-Counts ask s =
      if_cases
        (λ (out : End × Loop).
          (length out.1.db.versions + s.changes_today
            ≤ length s.db.versions + max s.changes_today cfg.max_rule_changes_per_day)
          × (out.1.changes_today ≤ max s.changes_today cfg.max_rule_changes_per_day))
        (not s.db.available) (raised, s) _ (λ down. (omega arith, omega arith))
        (λ up.
          go (evaluate_all cfg now ask (select is_tunable s.db.rules) s)
            (evaluate_all-Counts ask (select is_tunable s.db.rules) s))
    where
      go :
          (out : End × Loop)
          → CountsLoop cfg s out.1
          → let out' = elim out.0 as (λ _. End × Loop) [
            | finished ↦ (finished, out.1)
            | raised ↦ (raised, record (out.1) { db = s.db })
          ] in
            (length out'.1.db.versions + s.changes_today
              ≤ length s.db.versions + max s.changes_today cfg.max_rule_changes_per_day)
            × (out'.1.changes_today ≤ max s.changes_today cfg.max_rule_changes_per_day)
      go (finished, s') h = (omega (arith, h.written, h.within), h.within)
      go (raised, s') h = (omega arith, h.within)

  reset_changes-le :
      (critic : Critic) → (reset_changes now critic).changes_today ≤ critic.changes_today
  unfolding reset_changes
  reset_changes-le critic =
      if_cases (λ (c : Critic). c.changes_today ≤ critic.changes_today)
        (elim critic.last_change_reset [ none ↦ true | some t ↦ ltb (t + 86400 * second) now ]) _
        critic (λ due. omega arith) (λ fresh. omega arith)

  -- A cycle writes at most as many versions of rules as the daily limit leaves after the changes
  -- counted since the last reset, and the counter stays within the limit if it was.
  pub run_critic_limit :
      (ask : ℕ → ℕ → Result) (critic : Critic) (engine : Engine) (db : Database)
      → critic.changes_today ≤ cfg.max_rule_changes_per_day
      → (length (database_after db (run_critic cfg now ask critic engine db).0).versions
          ≤ length db.versions
            + (cfg.max_rule_changes_per_day - (reset_changes now critic).changes_today))
        × ((run_critic cfg now ask critic engine db).1.changes_today ≤ cfg.max_rule_changes_per_day)
  unfolding run_critic
  run_critic_limit ask critic engine db h =
      let limit = cfg.max_rule_changes_per_day in
      let changes = (reset_changes now critic).changes_today in
      let fewer : changes ≤ critic.changes_today = reset_changes-le critic in
      let start : Loop = record {
        db = db;
        engine = engine;
        changes_today = changes;
        stats = no_stats;
      } in
      let (versions, counter) = evaluate_rules-Counts ask start in
      if_cases
        (λ (out : Option (End × Loop) × Critic).
          (length (database_after db out.0).versions ≤ length db.versions + (limit - changes))
          × (out.1.changes_today ≤ limit))
        (not cfg.auto_tuning) (none, critic) _ (λ skipped. (omega arith, h))
        (λ running. (omega arith, omega arith))

-- the ladder of `_SEVERITY_ORDER` in notifications/router.py; 0 is info, or no severity
abbrev pub rank : String → ℕ
rank severity =
    if severity == "critical"
    then 4
    else if severity == "high"
    then 3
    else if severity == "medium"
    then 2
    else if severity == "low"
    then 1
    else 0

-- From low to critical, one step up or down the ladder at most and never off its end; from info or a text
-- off the ladder, what medium would become.
abbrev pub Moves : String → String → Type 0
Moves old new =
    if rank old == 0
    then (new ≡ old) ⊎ ((new ≡ "low") ⊎ (new ≡ "high"))
    else (1 ≤ rank new) × (rank new ≤ rank old + 1) × (rank old ≤ rank new + 1)

-- a severity is one of the four of the critic's ladder, or off it
rung_cases :
    (P : String → Type 0) (severity : String)
    → P "low"
    → P "medium"
    → P "high"
    → P "critical"
    → (rank severity ≡ 0 → severity_index severity ≡ 1 → P severity)
    → P severity
unfolding severity_index
rung_cases P severity low medium high critical other = elim (Bool-cases (severity == "low")) [
  | inl e ↦ subst P (sym ((string_eq.decides severity "low").0 e)) low
  | inr l ↦ elim (Bool-cases (severity == "medium")) [
    | inl e ↦ subst P (sym ((string_eq.decides severity "medium").0 e)) medium
    | inr m ↦ elim (Bool-cases (severity == "high")) [
      | inl e ↦ subst P (sym ((string_eq.decides severity "high").0 e)) high
      | inr h ↦ elim (Bool-cases (severity == "critical")) [
        | inl e ↦ subst P (sym ((string_eq.decides severity "critical").0 e)) critical
        | inr c ↦ other (rw (c, h, m, l) refl) (rw (l, h, c) refl)
      ]
    ]
  ]
]

raised_severity-Moves : (severity : String) → Moves severity (raised_severity severity)
unfolding severity_index
raised_severity-Moves severity =
    rung_cases (λ s. Moves s (raised_severity s)) severity (omega arith, omega arith, omega arith)
      (omega arith, omega arith, omega arith) (omega arith, omega arith, omega arith)
      (omega arith, omega arith, omega arith) (λ off middle. rw off (inr (inr (rw middle refl))))

lowered_severity-Moves : (severity : String) → Moves severity (lowered_severity severity)
unfolding severity_index
lowered_severity-Moves severity =
    rung_cases (λ s. Moves s (lowered_severity s)) severity (omega arith, omega arith, omega arith)
      (omega arith, omega arith, omega arith) (omega arith, omega arith, omega arith)
      (omega arith, omega arith, omega arith) (λ off middle. rw off (inr (inl (rw middle refl))))

Moves-refl : (severity : String) → Moves severity severity
Moves-refl severity = ground arith

tune-Moves :
    (now : ℕ) (choice conservatism : String) (r : Rule)
    → Moves r.severity (tune now choice conservatism r).severity
unfolding tune
tune-Moves now choice conservatism r =
    let P : Rule → Type 0 = λ t. Moves r.severity t.severity in
    if_cases P (choice == "RAISE") _ _ (λ e. raised_severity-Moves r.severity)
      (λ e.
        if_cases P (choice == "LOWER") _ _ (λ l. lowered_severity-Moves r.severity)
          (λ l.
            if_cases P (choice == "DISABLE") _ _
              (λ d.
                if_cases P (conservatism == "conservative") _ _
                  (λ c. lowered_severity-Moves r.severity) (λ c. Moves-refl r.severity))
              (λ d. Moves-refl r.severity)))

-- A change moves a severity from low to critical by at most one step of the ladder info, low, medium,
-- high, critical, and never to info; any other severity, so also the info of a shipped rule, it keeps or
-- makes low or high. It keeps the cooldown between the smaller of itself and a minute and the greater of
-- itself and an hour, and changes nothing else but the switch and the time of the last tuning.
pub tune_bounds :
    (now : ℕ) (choice conservatism : String) (r : Rule)
    → let t = tune now choice conservatism r in
      Moves r.severity t.severity
      × (min 60 r.cooldown_seconds ≤ t.cooldown_seconds)
      × (t.cooldown_seconds ≤ max 3600 r.cooldown_seconds)
      × (t ≡ record r {
        severity = t.severity;
        cooldown_seconds = t.cooldown_seconds;
        enabled = t.enabled;
        last_tuned = some now;
      })
unfolding tune
tune_bounds now choice conservatism r =
    (tune-Moves now choice conservatism r, ground arith, ground arith, ground arith)
