-- ===== src/Engine/Cooldown.antt =====
-- Cooldowns over a whole run of the engine: evaluations and direct fires, interleaved with whatever
-- the rest of the program does that leaves the alerts and the last fire of the rule alone.
use sentinel_home.Prelude.{
  ℕ, ◌+◌, ◌*◌, ◌≤◌, ◌<◌, String, ◌≡◌, sym, subst, ◌∙◌, ap, inl, inr, Bool, true, Option, some, List,
  [], ◌∷◌, arith, All, first, Bool-cases, Option-cases, ◌==◌, nat_eq, string_eq,
}
use sentinel_home.Prelude.Dict.{Dict}
use sentinel_home.Models.{Value, ParseResult}
use sentinel_home.Engine.State.{CachedRule, World, Settings, second}
use sentinel_home.Engine.Loading.{get_rules, load_suppressions, is_suppressed}
use sentinel_home.Engine.Windows.{prune_windows}
use sentinel_home.Engine.Firing.{Fired, check_cooldown, last_fire}
use sentinel_home.Engine.Evaluate.{
  visit_rule, visit_rules, add_fired, count_evaluation, evaluate, fire_rule,
}
use sentinel_home.Engine.Spacing.{Spaced, NotAfter, Spaced-append, NotAfter-append, NotAfter-mono}
use sentinel_home.Engine.Footprint.{Untouched, Fires, alerts_for, do_fire_cases}
use sentinel_home.Engine.Footstep.{visit_rule_cases}

-- the rules that an entry point goes through, called at `now`
abbrev pub rules_seen : ℕ → World → List CachedRule
rules_seen now w = (get_rules now w).engine.rules_cache

-- the world in which `evaluate` goes through the rules of an event that is not suppressed
abbrev pub prepared : ℕ → ParseResult → World → World
prepared now result w =
    let w' = (is_suppressed now result w).1 in
    get_rules now (record w' { engine = count_evaluation now w'.engine })

pub prepared-Untouched :
    (id now : ℕ) (result : ParseResult) (w : World) → Untouched id w (prepared now result w)
unfolding get_rules is_suppressed load_suppressions count_evaluation prune_windows
prepared-Untouched id now result w = record {
  fired = ground arith;
  rows = ground arith;
  alerts = ground arith;
  jobs = ground arith;
}

pub suppressed-Untouched :
    (id now : ℕ) (result : ParseResult) (w : World) → Untouched id w (is_suppressed now result w).1
unfolding is_suppressed load_suppressions
suppressed-Untouched id now result w = record {
  fired = ground arith;
  rows = ground arith;
  alerts = ground arith;
  jobs = ground arith;
}

get_rules-Untouched : (id now : ℕ) (w : World) → Untouched id w (get_rules now w)
unfolding get_rules
get_rules-Untouched id now w = record {
  fired = ground arith;
  rows = ground arith;
  alerts = ground arith;
  jobs = ground arith;
}

pub rules_seen-prepared :
    (now : ℕ) (result : ParseResult) (w : World)
    → (prepared now result w).engine.rules_cache ≡ rules_seen now w
unfolding get_rules is_suppressed load_suppressions count_evaluation prune_windows
rules_seen-prepared now result w = ground arith

-- The alerts of the rule are spaced by its cooldown, and none is newer than its last fire.
pub record IsSpaced (id cooldown : ℕ) (w : World) : Type 0 where
  pub gaps : Spaced (cooldown * second) (alerts_for id w.db.alerts)
  pub newest : NotAfter (last_fire id w.engine) (alerts_for id w.db.alerts)

-- the cooldown of the rule `id`, as a list of rules gives it
abbrev pub CoolsFor : (id cooldown : ℕ) → List CachedRule → Type 0
CoolsFor id cooldown = All (λ (r : CachedRule). r.id ≡ id → cooldown ≤ r.cooldown_seconds)

pub last_fire-Untouched :
    (id : ℕ) (w w' : World) → Untouched id w w' → last_fire id w'.engine ≡ last_fire id w.engine
unfolding last_fire
last_fire-Untouched id w w' same = ground (arith, same.fired)

IsSpaced-Untouched :
    (id cooldown : ℕ) (w w' : World)
    → Untouched id w w'
    → IsSpaced id cooldown w
    → IsSpaced id cooldown w'
IsSpaced-Untouched id cooldown w w' same h = record {
  gaps = subst (Spaced (cooldown * second)) (sym same.alerts) h.gaps;
  newest = subst (NotAfter (last_fire id w'.engine)) (sym same.alerts) (
      subst (λ t. NotAfter t (alerts_for id w.db.alerts)) (sym (last_fire-Untouched id w w' same))
        h.newest);
}

allowed_gap :
    (id cooldown now : ℕ) (rule : CachedRule) (w : World)
    → 0 < cooldown
    → cooldown ≤ rule.cooldown_seconds
    → rule.id ≡ id
    → check_cooldown now rule w.engine ≡ true
    → last_fire id w.engine + cooldown * second ≤ now
unfolding check_cooldown
allowed_gap id cooldown now rule w positive le own allowed =
    let e : last_fire rule.id w.engine ≡ last_fire id w.engine =
      ap (λ n. last_fire n w.engine) own in
    ground (arith, e)

last_fire-Fires :
    (id now : ℕ) (rule : CachedRule) (w w' : World)
    → Fires id now rule w w'
    → last_fire id w'.engine ≡ now
unfolding last_fire
last_fire-Fires id now rule w w' f = ground (arith, f.noted)

IsSpaced-Fires :
    (id cooldown now : ℕ) (rule : CachedRule) (w w' : World)
    → 0 < cooldown
    → cooldown ≤ rule.cooldown_seconds
    → Fires id now rule w w'
    → IsSpaced id cooldown w
    → IsSpaced id cooldown w'
IsSpaced-Fires id cooldown now rule w w' positive le f h =
    let old = alerts_for id w.db.alerts in
    let last = last_fire id w.engine in
    let gap = allowed_gap id cooldown now rule w positive le f.own f.allowed in
    let at = sym (last_fire-Fires id now rule w w' f) in
    elim f.alerted [
      | inl same ↦ record {
        gaps = subst (Spaced (cooldown * second)) (sym same) h.gaps;
        newest =
            subst (NotAfter (last_fire id w'.engine)) (sym same)
              (NotAfter-mono last (last_fire id w'.engine) old (omega arith) h.newest);
      }
      | inr (a, e, longer) ↦ record {
        gaps =
            subst (Spaced (cooldown * second)) (sym longer)
              (Spaced-append (cooldown * second) now last old a h.newest gap e h.gaps);
        newest =
            subst (NotAfter (last_fire id w'.engine)) (sym longer)
              (NotAfter-append (last_fire id w'.engine) last old a h.newest (omega arith) (e ∙ at));
      }
    ]

first-CoolsFor :
    (id cooldown : ℕ) (p : CachedRule → Bool) (rules : List CachedRule) (rule : CachedRule)
    → first p rules ≡ some rule
    → CoolsFor id cooldown rules
    → rule.id ≡ id
    → cooldown ≤ rule.cooldown_seconds
first-CoolsFor id cooldown p [] rule e cools own = cc
first-CoolsFor id cooldown p (r ∷ rules) rule e cools own = elim (Bool-cases (p r)) [
  | inl hit ↦
      let same : r ≡ rule = ground arith in
      subst (λ (x : CachedRule). x.id ≡ id → cooldown ≤ x.cooldown_seconds) same cools.0 own
  | inr miss ↦ first-CoolsFor id cooldown p rules rule (rw miss at e) cools.1 own
]

module _ (cfg : Settings) (id cooldown now : ℕ) (positive : 0 < cooldown) where
  visit_rules-IsSpaced :
      (result : ParseResult) (source_ip : Option String) (rules : List CachedRule)
      (fired : List Fired) (w : World)
      → CoolsFor id cooldown rules
      → IsSpaced id cooldown w
      → IsSpaced id cooldown (visit_rules cfg now result source_ip rules fired w).1
  unfolding visit_rules
  visit_rules-IsSpaced result source_ip [] fired w cools h = h
  visit_rules-IsSpaced result source_ip (rule ∷ rules) fired w cools h =
      let w' = (visit_rule cfg now rule result source_ip w).1 in
      let h' : IsSpaced id cooldown w' =
        elim (visit_rule_cases cfg id now rule result source_ip w) [
          | inl same ↦ IsSpaced-Untouched id cooldown w w' same h
          | inr (_, f) ↦ IsSpaced-Fires id cooldown now rule w w' positive (cools.0 f.own) f h
        ] in
      elim (Option-cases (visit_rule cfg now rule result source_ip w).0) [
        | inl raised ↦ rw (raised, visit_rules) h'
        | inr (f, returned) ↦
            rw (returned, visit_rules)
              (visit_rules-IsSpaced result source_ip rules (add_fired f fired) w' cools.1 h')
      ]

  evaluate-IsSpaced :
      (result : ParseResult) (source_ip : Option String) (w : World)
      → CoolsFor id cooldown (rules_seen now w)
      → IsSpaced id cooldown w
      → IsSpaced id cooldown (evaluate cfg now result source_ip w).1
  unfolding evaluate
  evaluate-IsSpaced result source_ip w cools h = elim (Bool-cases (is_suppressed now result w).0) [
    | inl quiet ↦
        rw quiet (IsSpaced-Untouched id cooldown w _ (suppressed-Untouched id now result w) h)
    | inr heard ↦ rw heard (
        visit_rules-IsSpaced result source_ip (prepared now result w).engine.rules_cache []
          (prepared now result w)
          (subst (CoolsFor id cooldown) (sym (rules_seen-prepared now result w)) cools)
          (IsSpaced-Untouched id cooldown w _ (prepared-Untouched id now result w) h))
  ]

  fire_rule-IsSpaced :
      (name : String) (device : Option String) (context : Dict String Value) (w : World)
      → CoolsFor id cooldown (rules_seen now w)
      → IsSpaced id cooldown w
      → IsSpaced id cooldown (fire_rule cfg now name device context w)
  unfolding fire_rule
  fire_rule-IsSpaced name device context w cools h =
      let w' = get_rules now w in
      let h' = IsSpaced-Untouched id cooldown w w' (get_rules-Untouched id now w) h in
      let named = λ (r : CachedRule). r.name == name in
      elim (Option-cases (first named (rules_seen now w))) [
        | inl unknown ↦ rw (unknown, fire_rule) h'
        | inr (rule, found) ↦
            rw (found, fire_rule)
              (elim (Bool-cases (check_cooldown now rule w'.engine)) [
                | inr cooling ↦ rw cooling h'
                | inl allowed ↦
                    rw allowed (elim (do_fire_cases cfg id now rule device context w' allowed) [
                      | inl same ↦ IsSpaced-Untouched id cooldown w' _ same h'
                      | inr f ↦
                          IsSpaced-Fires id cooldown now rule w' _ positive
                            (first-CoolsFor id cooldown named (rules_seen now w) rule found cools
                              f.own)
                            f h'
                    ])
              ])
      ]

-- A run of the engine, with moves of the rest of the program between its calls.
pub data Runs (cfg : Settings) (id cooldown : ℕ) (w : World) : World → Type 0 where
  start : Runs cfg id cooldown w w
  evaluated :
      {u : World} (now : ℕ) (result : ParseResult) (source_ip : Option String)
      → Runs cfg id cooldown w u
      → CoolsFor id cooldown (rules_seen now u)
      → Runs cfg id cooldown w (evaluate cfg now result source_ip u).1
  fired_directly :
      {u : World} (now : ℕ) (name : String) (device : Option String) (context : Dict String Value)
      → Runs cfg id cooldown w u
      → CoolsFor id cooldown (rules_seen now u)
      → Runs cfg id cooldown w (fire_rule cfg now name device context u)
  elsewhere : {u v : World} → Runs cfg id cooldown w u → Untouched id u v → Runs cfg id cooldown w v

-- In every run, any two alerts of a rule lie at least its cooldown apart, whatever the events, the
-- direct fires, the clock readings and the other rules: as long as each call sees the rule with that
-- cooldown, and the rest of the program leaves the alerts and the last fire of the rule alone.
pub Runs-IsSpaced :
    {cfg : Settings} {id cooldown : ℕ} {w u : World}
    → 0 < cooldown
    → IsSpaced id cooldown w
    → Runs cfg id cooldown w u
    → IsSpaced id cooldown u
Runs-IsSpaced positive h start = h
Runs-IsSpaced {cfg} {id} {cooldown} positive h (evaluated {u} now result source_ip r cools) =
    evaluate-IsSpaced cfg id cooldown now positive result source_ip u cools
      (Runs-IsSpaced positive h r)
Runs-IsSpaced {cfg} {id} {cooldown} positive h
      (fired_directly {u} now name device context r cools) =
    fire_rule-IsSpaced cfg id cooldown now positive name device context u cools
      (Runs-IsSpaced positive h r)
Runs-IsSpaced {cfg} {id} {cooldown} positive h (elsewhere {u} {v} r same) =
    IsSpaced-Untouched id cooldown u v same (Runs-IsSpaced positive h r)
