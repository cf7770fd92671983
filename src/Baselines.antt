-- ===== src/Baselines.antt =====
-- sentinel_home/baseline/manager.py: which devices are known, and the snapshot of the topology. The
-- rule engine caches `get_all_known_macs`.
pub mod Known
use sentinel_home.Prelude.{
  ℕ, String, Bool, true, false, ◌&&◌, Option, none, some, List, [], ◌∷◌, ◌++◌, map, any, first,
  select, update_where, lower, ◌==◌, nat_eq, string_eq, if◌then◌else◌,
}
use sentinel_home.Prelude.Dict.{Dict}
use sentinel_home.Models.{Value, Baseline, Database, next_id}

-- the rows of active device baselines
unfoldable pub is_device_baseline : Baseline → Bool
is_device_baseline b = b.baseline_type == "device" && b.active

unfoldable pub known_macs_of : List Baseline → List String
known_macs_of rows = map (λ b. lower b.subject_id) (select is_device_baseline rows)

-- `none` where the session raises
unfoldable pub get_all_known_macs : Database → Option (List String)
get_all_known_macs db = if db.available then some (known_macs_of db.baselines) else none

-- the query for the active baseline of one device
abbrev pub is_baseline_of : String → Baseline → Bool
is_baseline_of mac b = b.baseline_type == "device" && (b.subject_id == mac && b.active)

unfoldable pub new_baseline : (kind subject : String) → Dict String Value → List Baseline → Baseline
new_baseline kind subject contents rows = record {
  id = next_id (λ (b : Baseline). b.id) rows;
  baseline_type = kind;
  subject_id = subject;
  data_fields = contents;
  active = true;
}

-- the rows after the session of `build_device_baseline`
unfoldable pub build_device_rows : String → Dict String Value → List Baseline → List Baseline
build_device_rows mac contents rows = elim (first (is_baseline_of mac) rows) [
  | none ↦ rows ++ new_baseline "device" mac contents rows ∷ []
  | some existing ↦
      update_where (λ b. b.id == existing.id)
        (λ (b : Baseline). record b { data_fields = contents }) rows
]

unfoldable pub build_device_baseline : String → Dict String Value → Database → Database
build_device_baseline mac contents db =
    if db.available
    then record db { baselines = build_device_rows mac contents db.baselines }
    else db

unfoldable pub is_known_device : String → Database → Option Bool
is_known_device mac db =
    if db.available
    then some (elim (first (is_baseline_of mac) db.baselines) [ none ↦ false | some b ↦ true ])
    else none

unfoldable pub build_topology_rows : Dict String Value → List Baseline → List Baseline
build_topology_rows topology rows =
    let retired =
      update_where (λ b. b.baseline_type == "topology")
        (λ (b : Baseline). record b { active = false }) rows in
    retired ++ new_baseline "topology" "global" topology retired ∷ []

unfoldable pub build_topology_baseline : Dict String Value → Database → Database
build_topology_baseline topology db =
    if db.available then record db { baselines = build_topology_rows topology db.baselines } else db

abbrev pub is_topology : Baseline → Bool
is_topology b = b.baseline_type == "topology" && b.active

-- `{}` without a row
unfoldable pub get_topology_baseline : Database → Option (Dict String Value)
get_topology_baseline db =
    if db.available
    then some (elim (first is_topology db.baselines) [ none ↦ [] | some b ↦ b.data_fields ])
    else none
