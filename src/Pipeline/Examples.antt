-- ===== src/Pipeline/Examples.antt =====
-- The theorem about the routing of events at a concrete input.
use sentinel_home.Prelude.{
  has_substring, has_prefix, ℕ, ◌+◌, ◌≡◌, refl, String, true, false, none, some, List, [], ◌∷◌,
  ◌++◌, length,
}
use sentinel_home.Models.{Value, ParseResult}
use sentinel_home.Engine.State.{Settings}
use sentinel_home.Metrics.{Key}
use sentinel_home.Metrics.Counting.{held}
use sentinel_home.Pipeline.{Intake, Received, process_results, should_pre_filter}
use sentinel_home.Pipeline.Routing.{rows_of, counted_for, process_results-Routed}

abbrev parsed : String → ParseResult
parsed event_type = record {
  event_type = event_type;
  severity = "info";
  category = "network";
  message = "";
  fields = ("src", Value.text "203.0.113.9") ∷ [];
}

abbrev line : ℕ → String → Received
line now event_type = record {
  now = now;
  result = parsed event_type;
  source_name = "syslog";
  source_ip = some "192.168.1.1";
}

abbrev start : Intake
start = record {
  world = record {
    engine = record {
      rules_cache = [];
      cache_ts = 0;
      windows = [];
      last_fired = [];
      known_macs = none;
      suppressions = [];
      suppressions_ts = 0;
      eval_count = 0;
    };
    db = record {
      available = true;
      rules = [];
      versions = [];
      patterns = [];
      jobs = [];
      findings = [];
      alerts = [];
      baselines = [];
      devices = [];
      events = [];
    };
    sent = [];
  };
  buckets = [];
}

abbrev cfg : Settings
cfg = record {
  smb_whitelist = [];
  channel = record { min_severity = "high"; ready = false; notify = λ n. true };
}

abbrev traffic : List Received
traffic = line 1 "fw_wan_block" ∷ line 2 "dhcp_ack" ∷ line 3 "fw_wan_block" ∷ []

process_results-Routed_example :
    let s' = process_results cfg traffic start in
    (s'.world.db.events ≡ [] ++ rows_of traffic)
    × ((q : Key) → held q s'.buckets ≡ counted_for q traffic + 0)
    × (s'.world.db.available ≡ true)
process_results-Routed_example = process_results-Routed cfg traffic start

one_row : length (rows_of traffic) ≡ 1
one_row = refl

mdns_is_noise : should_pre_filter "IN=br0 DPT=5353" ≡ true
unfolding should_pre_filter has_substring has_prefix
mdns_is_noise = refl
