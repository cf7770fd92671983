-- ===== src/Engine/Footstep.antt =====
-- One round of an evaluation, for a rule that may fire in it: the windowed check and the baseline
-- leave the footprint alone, so the round does, or the rule fires.
use sentinel_home.Prelude.{
  ℕ, String, ◌≡◌, refl, sym, ◌∙◌, ◌⊎◌, inl, inr, Bool, true, false, Option, none, some, arith,
  Bool-cases, nat_eq, string_eq,
}
use sentinel_home.Models.{ParseResult}
use sentinel_home.Engine.State.{CachedRule, World, Settings}
use sentinel_home.Engine.Windows.{check_windowed}
use sentinel_home.Engine.Matching.{rule_matches}
use sentinel_home.Engine.Firing.{Fired, check_cooldown, last_fire}
use sentinel_home.Engine.Evaluate.{
  is_known_device, baseline_allows, whitelist_allows, device_of, fire_context, count_and_fire,
  execute_rule, visit_rule,
}
use sentinel_home.Engine.Footprint.{
  Untouched, Untouched-refl, Untouched-trans, Fires, Footstep, do_fire_cases,
}

-- from a world with the same footprint
Footstep-after :
    (id now : ℕ) (rule : CachedRule) (u v w : World)
    → Untouched id u v
    → check_cooldown now rule v.engine ≡ check_cooldown now rule u.engine
    → Footstep id now rule v w
    → Footstep id now rule u w
Footstep-after id now rule u v w same cool (inl q) = inl (Untouched-trans same q)
Footstep-after id now rule u v w same cool (inr f) = inr (record {
  own = f.own;
  allowed = sym cool ∙ f.allowed;
  noted = f.noted;
  alerted = rw same.alerts at f.alerted;
})

module _ (cfg : Settings) (id now : ℕ) (rule : CachedRule) (result : ParseResult)
    (source_ip : Option String) where
  baseline_allows-Untouched :
      (w : World)
      → Untouched id w (baseline_allows rule result w).1
        × (check_cooldown now rule (baseline_allows rule result w).1.engine
            ≡ check_cooldown now rule w.engine)
  unfolding baseline_allows is_known_device check_cooldown last_fire
  baseline_allows-Untouched w = (
    record {
      fired = ground arith;
      rows = ground arith;
      alerts = ground arith;
      jobs = ground arith;
    },
    ground arith,
  )

  check_windowed-Untouched :
      (w : World)
      → Untouched id w (record w { engine = (check_windowed now rule result w.engine).1 })
  unfolding check_windowed
  check_windowed-Untouched w = record {
    fired = ground arith;
    rows = refl;
    alerts = refl;
    jobs = refl;
  }

  check_cooldown-check_windowed :
      (w : World)
      → check_cooldown now rule (check_windowed now rule result w.engine).1
        ≡ check_cooldown now rule w.engine
  unfolding check_windowed check_cooldown last_fire
  check_cooldown-check_windowed w = ground arith

  count_and_fire_cases :
      (w : World)
      → check_cooldown now rule w.engine ≡ true
      → Footstep id now rule w (count_and_fire cfg now rule result source_ip w).1
  unfolding count_and_fire
  count_and_fire_cases w allowed =
      let w' = record w { engine = (check_windowed now rule result w.engine).1 } in
      let same = check_windowed-Untouched w in
      let cool = check_cooldown-check_windowed w in
      elim (Bool-cases (check_windowed now rule result w.engine).0) [
        | inr below ↦ rw below (inl same)
        | inl reached ↦ rw reached (elim (Bool-cases (whitelist_allows cfg rule result)) [
          | inr listed ↦ rw listed (inl same)
          | inl free ↦ rw free (
              Footstep-after id now rule w w' _ same cool (
                do_fire_cases cfg id now rule (device_of result) (fire_context result source_ip) w'
                  (cool ∙ allowed)))
        ])
      ]

  execute_rule_cases :
      (w : World)
      → check_cooldown now rule w.engine ≡ true
      → Footstep id now rule w (execute_rule cfg now rule result source_ip w).1
  unfolding execute_rule
  execute_rule_cases w allowed =
      let w' = (baseline_allows rule result w).1 in
      let (same, cool) = baseline_allows-Untouched w in
      go (baseline_allows rule result w).0 w' same cool
    where
      go :
          (o : Option Bool) (v : World)
          → Untouched id w v
          → check_cooldown now rule v.engine ≡ check_cooldown now rule w.engine
          → Footstep id now rule w
              (elim o as (λ _. Option (Option Fired) × World) [
                | none ↦ (none, v)
                | some b ↦ elim b as (λ _. Option (Option Fired) × World) [
                  | false ↦ (some none, v)
                  | true ↦
                      let (fired, w'') = count_and_fire cfg now rule result source_ip v in
                      (some fired, w'')
                ]
              ]).1
      go none v same cool = inl same
      go (some false) v same cool = inl same
      go (some true) v same cool =
          Footstep-after id now rule w v _ same cool (count_and_fire_cases v (cool ∙ allowed))

  -- One round of the loop: the footprint of `id` stays, or the rule fires because it matches and its
  -- cooldown is over.
  pub visit_rule_cases :
      (w : World)
      → Untouched id w (visit_rule cfg now rule result source_ip w).1
        ⊎ ((rule_matches rule result ≡ true)
            × Fires id now rule w (visit_rule cfg now rule result source_ip w).1)
  unfolding visit_rule
  visit_rule_cases w = elim (Bool-cases (rule_matches rule result)) [
    | inr passes ↦ rw passes (inl (Untouched-refl id w))
    | inl matches ↦ rw matches (elim (Bool-cases (check_cooldown now rule w.engine)) [
      | inr cooling ↦ rw cooling (inl (Untouched-refl id w))
      | inl allowed ↦
          rw allowed
            (elim (execute_rule_cases w allowed) [ inl same ↦ inl same | inr f ↦ inr (refl, f) ])
    ])
  ]
