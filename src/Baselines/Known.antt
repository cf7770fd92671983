-- ===== src/Baselines/Known.antt =====
-- What the writes of the baseline manager do to its answers.
use sentinel_home.Prelude.{
  ℕ, String, ◌≡◌, refl, sym, ◌∙◌, ap, Bool, true, false, Option, none, some, List, [], ◌∷◌, ◌++◌,
  arith, first, update_where, if_cases, option_cases, Bool-cases, inl, inr, ◌==◌, nat_eq, string_eq,
  if◌then◌else◌,
}
use sentinel_home.Prelude.Dict.{Dict}
use sentinel_home.Models.{Value, Baseline, Database}
use sentinel_home.Baselines.{
  is_baseline_of, new_baseline, build_device_rows, build_device_baseline, is_known_device,
  build_topology_rows, build_topology_baseline, is_topology, get_topology_baseline,
}

is_found : Option Baseline → Bool
is_found none = false
is_found (some b) = true

found_after_append :
    (mac other : String) (contents : Dict String Value) (rows all_rows : List Baseline)
    → is_found
        (first (is_baseline_of other) (rows ++ new_baseline "device" mac contents all_rows ∷ []))
      ≡ (if mac == other then true else is_found (first (is_baseline_of other) rows))
unfolding is_found new_baseline
found_after_append mac other contents [] all_rows = ground arith
found_after_append mac other contents (b ∷ rows) all_rows =
    ground (arith, found_after_append mac other contents rows all_rows)

found_after_update :
    (id : ℕ) (other : String) (contents : Dict String Value) (rows : List Baseline)
    → is_found (
        first (is_baseline_of other) (
          update_where
            (λ b. b.id == id)
            (λ (b : Baseline). record b { data_fields = contents })
            rows))
      ≡ is_found (first (is_baseline_of other) rows)
unfolding is_found
found_after_update id other contents [] = refl
found_after_update id other contents (b ∷ rows) =
    ground (arith, found_after_update id other contents rows)

found_after_build :
    (mac other : String) (contents : Dict String Value) (rows : List Baseline)
    → is_found (first (is_baseline_of other) (build_device_rows mac contents rows))
      ≡ (if mac == other then true else is_found (first (is_baseline_of other) rows))
unfolding build_device_rows is_found
found_after_build mac other contents rows =
    option_cases
      (λ rs.
        is_found (first (is_baseline_of other) rs)
        ≡ (if mac == other then true else is_found (first (is_baseline_of other) rows)))
      (first (is_baseline_of mac) rows) _ _
      (λ missing. found_after_append mac other contents rows rows)
      (λ b e. found_after_update b.id other contents rows ∙ already b e)
  where
    already :
        (b : Baseline)
        → first (is_baseline_of mac) rows ≡ some b
        → is_found (first (is_baseline_of other) rows)
          ≡ (if mac == other then true else is_found (first (is_baseline_of other) rows))
    already b e = elim (Bool-cases (mac == other)) [
      | inr ne ↦ rw ne refl
      | inl eq ↦
          let same : mac ≡ other = (string_eq.decides mac other).0 eq in
          rw eq (ap is_found (ap (λ m. first (is_baseline_of m) rows) (sym same) ∙ e))
    ]

-- Once a device's baseline is built the device is known, and for every other device the answer is
-- the one from before, if the database answers.
is_known_device-build_device_baseline :
    (mac other : String) (contents : Dict String Value) (db : Database)
    → db.available ≡ true
    → is_known_device other (build_device_baseline mac contents db)
      ≡ (if mac == other then some true else is_known_device other db)
unfolding is_known_device build_device_baseline is_found
is_known_device-build_device_baseline mac other contents db up =
    ground (arith, up, found_after_build mac other contents db.baselines)

first-retired :
    (contents : Dict String Value) (rows all_rows : List Baseline)
    → first is_topology (
        update_where
          (λ b. b.baseline_type == "topology")
          (λ (b : Baseline). record b { active = false })
          rows
        ++ new_baseline "topology" "global" contents all_rows ∷ [])
      ≡ some (new_baseline "topology" "global" contents all_rows)
unfolding new_baseline
first-retired contents [] all_rows = ground arith
first-retired contents (b ∷ rows) all_rows = ground (arith, first-retired contents rows all_rows)

-- The topology that is read is the one that was stored last, whatever was stored before, if the
-- database answers.
get_topology_baseline-build_topology_baseline :
    (topology : Dict String Value) (db : Database)
    → db.available ≡ true
    → get_topology_baseline (build_topology_baseline topology db) ≡ some topology
unfolding get_topology_baseline build_topology_baseline build_topology_rows new_baseline
get_topology_baseline-build_topology_baseline topology db up =
    let retired =
      update_where (λ b. b.baseline_type == "topology")
        (λ (b : Baseline). record b { active = false }) db.baselines in
    let stored : Database = record db { baselines = build_topology_rows topology db.baselines } in
    let built : build_topology_baseline topology db ≡ stored =
      if_cases (λ (d : Database). d ≡ stored) db.available stored db (λ e. refl)
        (λ down. ground (arith, up, down)) in
    let found : first is_topology stored.baselines
        ≡ some (new_baseline "topology" "global" topology retired) =
      first-retired topology db.baselines retired in
    ap get_topology_baseline built
    ∙ if_cases (λ o. o ≡ some topology) db.available _ none (λ e. rw found refl)
        (λ down. ground (arith, up, down))
