-- ===== src/Nmap/Examples.antt =====
-- The theorems about port scans at concrete inputs.
use sentinel_home.Prelude.{
  ℕ, ◌+◌, ◌*◌, ◌≤◌, ◌≡◌, refl, String, string_eq, true, false, not, ◌&&◌, none, some, List, [], ◌∷◌,
  ◌++◌, arith, contains, length, is_nil, Distinct, decimal, min,
}
use sentinel_home.Models.{Value, Database, Parameters}
use sentinel_home.Engine.State.{second, CachedRule, Settings, Engine, World}
use sentinel_home.Nmap.{PortInfo, HostData, Collector, Surroundings, diff, process_result}
use sentinel_home.Nmap.Ports.{has_port, diff-has_port}
use sentinel_home.Nmap.Cooling.{process_result-one_alert}

abbrev info : String → PortInfo
info state = record { state = some state; name = some "http"; product = none }

abbrev host : List (ℕ × PortInfo) → HostData
host ports = record {
  ipv4 = some "10.0.0.5";
  mac = none;
  tcp = ports;
  udp = [];
  osmatch = [];
  hostnames = [];
  vendor = [];
}

abbrev before : List HostData
before = host ((22, info "open") ∷ []) ∷ []

abbrev later : List HostData
later = host ((22, info "closed") ∷ (80, info "open") ∷ (443, info "open") ∷ []) ∷ []

two_new :
    let d = diff (some before) later in
    (d.new_ports ≡ "10.0.0.5:tcp/80" ∷ "10.0.0.5:tcp/443" ∷ [])
    × (d.closed_ports ≡ "10.0.0.5:tcp/22" ∷ [])
unfolding diff decimal
two_new = (refl, refl)

diff-has_port_example :
    let d = diff (some before) later in
    (contains "10.0.0.5:tcp/80" d.new_ports
      ≡ has_port "10.0.0.5:tcp/80" later && not (has_port "10.0.0.5:tcp/80" before))
    × (contains "10.0.0.5:tcp/80" d.closed_ports
        ≡ has_port "10.0.0.5:tcp/80" before && not (has_port "10.0.0.5:tcp/80" later))
    × Distinct d.new_ports
    × Distinct d.closed_ports
    × (is_nil ((diff none later).new_ports ++ (diff none later).closed_ports) ≡ true)
diff-has_port_example = diff-has_port before later "10.0.0.5:tcp/80"

abbrev parameters : Parameters
parameters = record {
  match_source = some "nmap";
  match_event_types = none;
  match_fields = none;
  match_patterns = none;
  check_baseline = none;
  check_smb_whitelist = none;
  window_seconds = none;
  event_threshold = none;
  repeat_threshold = none;
  distinct_ports_threshold = none;
}

abbrev rule : CachedRule
rule = record {
  id = 3;
  name = "new_open_port";
  category = "network";
  severity = "high";
  priority = 1;
  parameters = parameters;
  action = "alert";
  cooldown_seconds = 3600;
  frozen = false;
}

abbrev db : Database
db = record {
  available = true;
  rules = [];
  versions = [];
  patterns = [];
  jobs = [];
  findings = [];
  alerts = [];
  baselines = [];
  devices = [];
  events = [];
}

abbrev now : ℕ
now = 10000 * second

abbrev engine : Engine
engine = record {
  rules_cache = rule ∷ [];
  cache_ts = now;
  windows = [];
  last_fired = [];
  known_macs = none;
  suppressions = [];
  suppressions_ts = 0;
  eval_count = 0;
}

abbrev world : World
world = record { engine = engine; db = db; sent = [] }

abbrev settings : Settings
settings = record {
  smb_whitelist = [];
  channel = record { min_severity = "high"; ready = false; notify = λ n. true };
}

abbrev around : Surroundings
around = record {
  settings = settings;
  tracks = false;
  oui = none;
  entry = λ proto info. Value.text proto;
}

abbrev collector : Collector
collector = record { last_scan = some before; scans = []; total_events = 1; errors = 0 }

-- two seconds from one port to the next, up to 29 seconds
slow_clock : ℕ → ℕ
slow_clock i = now + min (i * 2 * second) (29 * second)

process_result-one_alert_example :
    length (process_result around now slow_clock later collector world).1.db.alerts
    ≤ length db.alerts + 1
unfolding slow_clock
process_result-one_alert_example =
    process_result-one_alert around now slow_clock now rule later collector world (omega arith)
      (λ i. (omega arith, omega arith)) (λ i. (ground arith, refl))
