-- ===== src/Engine/Examples.antt =====
-- The theorems about sentinel_home/rules/engine.py at a port-scan rule and a few events.
use sentinel_home.Prelude.{
  ℕ, ◌*◌, ◌≡◌, refl, String, true, false, none, some, List, [], ◌∷◌, arith, inl, inr, map, nat_eq,
  string_eq,
}
use sentinel_home.Prelude.Dict.{lookup}
use sentinel_home.Models.{Parameters, Database, Value, ParseResult, get_text}
use sentinel_home.Engine.State.{CachedRule, Engine, World, Settings, Suppression, second}
use sentinel_home.Engine.Loading.{get_rules, load_suppressions}
use sentinel_home.Engine.Windows.{get_group_key, entries_of, groups_of}
use sentinel_home.Engine.Firing.{last_fire}
use sentinel_home.Engine.Evaluate.{evaluate}
use sentinel_home.Engine.Footprint.{Untouched}
use sentinel_home.Engine.Cooldown.{IsSpaced, start, evaluated, Runs-IsSpaced}
use sentinel_home.Engine.Quiet.{evaluate-Untouched}
use sentinel_home.Engine.WindowSpec.{Call, entry_of, answers, spec_fires, answers-eq-spec_fires}

abbrev no_parameters : Parameters
no_parameters = record {
  match_source = none;
  match_event_types = none;
  match_fields = none;
  match_patterns = none;
  check_baseline = none;
  check_smb_whitelist = none;
  window_seconds = none;
  event_threshold = none;
  repeat_threshold = none;
  distinct_ports_threshold = none;
}

abbrev rule_with : ℕ → Parameters → CachedRule
rule_with id p = record {
  id = id;
  name = "port_scan";
  category = "network";
  severity = "high";
  priority = 1;
  parameters = p;
  action = "alert";
  cooldown_seconds = 300;
  frozen = false;
}

abbrev scan_rule : CachedRule
scan_rule = rule_with 7 (record no_parameters {
  match_event_types = some ("fw_wan_block" ∷ []);
  window_seconds = some 60;
  distinct_ports_threshold = some 2;
})

abbrev block_on : String → ParseResult
block_on port = record {
  event_type = "fw_wan_block";
  severity = "info";
  category = "network";
  message = "WAN block";
  fields = ("src", Value.text "1.2.3.4") ∷ ("dpt", Value.text port) ∷ [];
}

abbrev empty_db : Database
empty_db = record {
  available = true;
  rules = [];
  versions = [];
  patterns = [];
  jobs = [];
  findings = [];
  alerts = [];
  baselines = [];
  devices = [];
  events = [];
}

abbrev engine_with : List CachedRule → List Suppression → Engine
engine_with rules suppressions = record {
  rules_cache = rules;
  cache_ts = 100 * second;
  windows = [];
  last_fired = (7, 90 * second) ∷ [];
  known_macs = some [];
  suppressions = suppressions;
  suppressions_ts = 100 * second;
  eval_count = 0;
}

abbrev world_with : List CachedRule → List Suppression → World
world_with rules suppressions = record {
  engine = engine_with rules suppressions;
  db = empty_db;
  sent = [];
}

abbrev cfg : Settings
cfg = record {
  smb_whitelist = [];
  channel = record { min_severity = "high"; ready = false; notify = λ n. true };
}

abbrev now : ℕ
now = 110 * second

cached : Unit {0}
unfolding get_rules load_suppressions lookup last_fire
cached = tt

Runs-IsSpaced_example :
    IsSpaced 7 300 (evaluate cfg now (block_on "22") none (world_with (scan_rule ∷ []) [])).1
unfolding cached
Runs-IsSpaced_example =
    Runs-IsSpaced {w = world_with (scan_rule ∷ []) []} (omega arith)
      (record { gaps = tt; newest = tt })
      (evaluated now (block_on "22") none start ((λ e. omega arith), tt))

evaluate-Untouched_example :
    Untouched 7
      (world_with (scan_rule ∷ []) [])
      (evaluate cfg now (block_on "22") none (world_with (scan_rule ∷ []) [])).1
unfolding cached
evaluate-Untouched_example =
    evaluate-Untouched cfg 7 now (block_on "22") none (world_with (scan_rule ∷ []) [])
      ((λ e. inr (omega arith, omega arith)), tt)

abbrev unifi_rule : CachedRule
unifi_rule = rule_with 8 (record no_parameters { match_source = some "unifi" })

abbrev all_blocks : Suppression
all_blocks = record {
  scope = "*";
  definition = record { event_type = some "fw_wan_block"; source = none };
}

abbrev hushed : World
hushed = world_with (scan_rule ∷ []) (all_blocks ∷ [])

abbrev fresh : Engine
fresh = engine_with (scan_rule ∷ []) []

abbrev scan : List Call
scan =
    record { now = 1 * second; result = block_on "22" }
    ∷ record { now = 2 * second; result = block_on "22" }
    ∷ record { now = 3 * second; result = block_on "80" }
    ∷ []

answers-eq-spec_fires_example :
    answers scan_rule fresh scan
    ≡ spec_fires scan_rule.parameters (60 * second) [] (map entry_of scan)
unfolding get_group_key get_text lookup entries_of groups_of
answers-eq-spec_fires_example =
    answers-eq-spec_fires scan_rule 59 "1.2.3.4" refl fresh scan (inl (omega arith)) refl
      (refl, (refl, (refl, tt))) (omega arith)
