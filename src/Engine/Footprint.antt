-- ===== src/Engine/Footprint.antt =====
-- What one rule leaves behind in the world: its last fire, its row, its alerts and its jobs. Each
-- step of an evaluation either leaves the footprint of a rule alone or is a fire of that rule.
use sentinel_home.Prelude.{
  ℕ, String, ◌≡◌, ◌≢◌, refl, subst, ◌∙◌, ◌⊎◌, inl, inr, Bool, true, false, ◌&&◌, Option, none, some,
  List, [], ◌∷◌, ◌++◌, arith, select, update_where, select-append_one, Bool-cases, ◌==◌, nat_eq,
  string_eq,
}
use native.Mathlib.Decide.{ℕ_discrete}
use sentinel_home.Prelude.Dict.{Dict, lookup, lookup-insert}
use sentinel_home.Models.{Rule, Job, Alert, Value, get_text}
use sentinel_home.Engine.State.{CachedRule, World, Settings}
use sentinel_home.Engine.Firing.{
  check_cooldown, count_fire, update_rule_counters, create_alert, new_alert, new_job, enqueue_job,
  note_fire, do_fire,
}

abbrev pub is_for : ℕ → Option ℕ → Bool
is_for id none = false
is_for id (some n) = n == id

abbrev pub alerts_for : ℕ → List Alert → List Alert
alerts_for id = select (λ a. is_for id a.rule_id)

abbrev pub jobs_for : ℕ → List Job → List Job
jobs_for id = select (λ j. is_for id j.rule_id)

abbrev pub rows_for : ℕ → List Rule → List Rule
rows_for id = select (λ r. r.id == id)

pub record Untouched (id : ℕ) (w w' : World) : Type 0 where
  pub fired : lookup id w'.engine.last_fired ≡ lookup id w.engine.last_fired
  pub rows : rows_for id w'.db.rules ≡ rows_for id w.db.rules
  pub alerts : alerts_for id w'.db.alerts ≡ alerts_for id w.db.alerts
  pub jobs : jobs_for id w'.db.jobs ≡ jobs_for id w.db.jobs

pub Untouched-refl : (id : ℕ) (w : World) → Untouched id w w
Untouched-refl id w = record { fired = refl; rows = refl; alerts = refl; jobs = refl }

pub Untouched-trans :
    {id : ℕ} {u v w : World} → Untouched id u v → Untouched id v w → Untouched id u w
Untouched-trans p q = record {
  fired = q.fired ∙ p.fired;
  rows = q.rows ∙ p.rows;
  alerts = q.alerts ∙ p.alerts;
  jobs = q.jobs ∙ p.jobs;
}

-- A write to the rows of one rule is not seen at another.
rows_for-count :
    (id other now : ℕ) (rows : List Rule)
    → other ≢ id
    → rows_for id (update_where (λ r. r.id == other) (count_fire now) rows) ≡ rows_for id rows
unfolding count_fire
rows_for-count id other now [] ne = refl
rows_for-count id other now (r ∷ rows) ne = ground (arith, rows_for-count id other now rows ne)

pub note_fire-Untouched :
    (id now : ℕ) (rule : CachedRule) (w : World)
    → rule.id ≢ id
    → Untouched id w (note_fire now rule w)
unfolding note_fire update_rule_counters
note_fire-Untouched id now rule w ne = record {
  fired = ground (arith, lookup-insert rule.id id now w.engine.last_fired);
  rows = ground (arith, rows_for-count id rule.id now w.db.rules ne);
  alerts = ground arith;
  jobs = ground arith;
}

create_alert-Untouched :
    (cfg : Settings) (id now : ℕ) (rule : CachedRule) (device : Option String) (message : String)
    (context : Dict String Value) (w : World)
    → rule.id ≢ id
    → Untouched id w (create_alert cfg now rule device message context w)
unfolding create_alert new_alert
create_alert-Untouched cfg id now rule device message context w ne = record {
  fired = ground arith;
  rows = ground arith;
  alerts = ground (
    arith,
    select-append_one (λ (a : Alert). is_for id a.rule_id) w.db.alerts
        (new_alert now rule device message context w.db.alerts),
  );
  jobs = ground arith;
}

enqueue_job-Untouched :
    (id now : ℕ) (rule : CachedRule) (device : Option String) (context : Dict String Value)
    (w : World)
    → rule.id ≢ id
    → Untouched id w (enqueue_job now rule device context w)
unfolding enqueue_job new_job
enqueue_job-Untouched id now rule device context w ne = record {
  fired = ground arith;
  rows = ground arith;
  alerts = ground arith;
  jobs = ground (
    arith,
    select-append_one (λ (j : Job). is_for id j.rule_id) w.db.jobs
        (new_job now "rule_engine" rule.name (some rule.id) device rule.priority context w.db.jobs),
  );
}

do_fire-Untouched :
    (cfg : Settings) (id now : ℕ) (rule : CachedRule) (device : Option String)
    (context : Dict String Value) (w : World)
    → rule.id ≢ id
    → Untouched id w (do_fire cfg now rule device context w).1
unfolding do_fire
do_fire-Untouched cfg id now rule device context w ne =
    let noted = note_fire-Untouched id now rule w ne in
    elim (Bool-cases (rule.action == "alert")) [
      | inl e ↦ rw e (
          Untouched-trans noted (
            create_alert-Untouched cfg id now rule device (get_text "message" rule.name context)
              context (note_fire now rule w) ne))
      | inr n ↦ rw n (elim (Bool-cases (rule.action == "investigate")) [
        | inl e ↦ rw e (
            Untouched-trans noted
              (enqueue_job-Untouched id now rule device context (note_fire now rule w) ne))
        | inr m ↦ rw m noted
      ])
    ]

-- A fire of the rule `id` that its cooldown allowed: it is noted, and at most one alert is added,
-- with the time of the fire.
pub record Fires (id now : ℕ) (rule : CachedRule) (w w' : World) : Type 0 where
  pub own : rule.id ≡ id
  pub allowed : check_cooldown now rule w.engine ≡ true
  pub noted : lookup id w'.engine.last_fired ≡ some now
  pub alerted :
      (alerts_for id w'.db.alerts ≡ alerts_for id w.db.alerts)
      ⊎ ((a : Alert) × (a.ts ≡ now)
          × (alerts_for id w'.db.alerts ≡ alerts_for id w.db.alerts ++ a ∷ []))

do_fire-noted :
    (cfg : Settings) (now : ℕ) (rule : CachedRule) (device : Option String)
    (context : Dict String Value) (w : World)
    → lookup rule.id (do_fire cfg now rule device context w).1.engine.last_fired ≡ some now
unfolding do_fire note_fire create_alert enqueue_job
do_fire-noted cfg now rule device context w =
    ground (arith, lookup-insert rule.id rule.id now w.engine.last_fired)

do_fire-alerted :
    (cfg : Settings) (now : ℕ) (rule : CachedRule) (device : Option String)
    (context : Dict String Value) (w : World)
    → let w' = (do_fire cfg now rule device context w).1 in
      (alerts_for rule.id w'.db.alerts ≡ alerts_for rule.id w.db.alerts)
      ⊎ ((a : Alert) × (a.ts ≡ now)
          × (alerts_for rule.id w'.db.alerts ≡ alerts_for rule.id w.db.alerts ++ a ∷ []))
unfolding do_fire note_fire update_rule_counters create_alert enqueue_job new_alert
do_fire-alerted cfg now rule device context w =
    let alert =
      new_alert now rule device (get_text "message" rule.name context) context w.db.alerts in
    elim (Bool-cases (rule.action == "alert" && w.db.available)) [
      | inl e ↦ inr (
        alert,
        refl,
        ground
            (arith, select-append_one (λ (a : Alert). is_for rule.id a.rule_id) w.db.alerts alert),
      )
      | inr n ↦ inl (ground arith)
    ]

-- Either the footprint of `id` stays, or the rule fires.
abbrev pub Footstep : ℕ → ℕ → CachedRule → World → World → Type 0
Footstep id now rule w w' = Untouched id w w' ⊎ Fires id now rule w w'

pub do_fire_cases :
    (cfg : Settings) (id now : ℕ) (rule : CachedRule) (device : Option String)
    (context : Dict String Value) (w : World)
    → check_cooldown now rule w.engine ≡ true
    → Footstep id now rule w (do_fire cfg now rule device context w).1
do_fire_cases cfg id now rule device context w allowed = elim (ℕ_discrete rule.id id) [
  | no ne ↦ inl (do_fire-Untouched cfg id now rule device context w ne)
  | yes e ↦ inr (record {
    own = e;
    allowed = allowed;
    noted =
        subst (λ n. lookup n (do_fire cfg now rule device context w).1.engine.last_fired ≡ some now)
          e (do_fire-noted cfg now rule device context w);
    alerted =
        subst
          (λ n.
            let w' = (do_fire cfg now rule device context w).1 in
            (alerts_for n w'.db.alerts ≡ alerts_for n w.db.alerts)
            ⊎ ((a : Alert) × (a.ts ≡ now)
                × (alerts_for n w'.db.alerts ≡ alerts_for n w.db.alerts ++ a ∷ [])))
          e (do_fire-alerted cfg now rule device context w);
  })
]
