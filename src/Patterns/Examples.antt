-- ===== src/Patterns/Examples.antt =====
-- The theorems about patterns at concrete inputs.
use sentinel_home.Prelude.{
  ℕ, ◌*◌, ◌≡◌, refl, Bool, true, false, none, some, List, [], ◌∷◌, arith, map,
}
use sentinel_home.Models.{Value, Definition, ParseResult, Database, next_id}
use sentinel_home.Engine.State.{second, Settings, Engine, World}
use sentinel_home.Engine.Loading.{suppresses}
use sentinel_home.Engine.Evaluate.{evaluate}
use sentinel_home.Engine.Quiet.{Ignores}
use sentinel_home.Patterns.{
  PatternRow, PatternVersion, PatternStore, PatternBody, answered, PatternRequest, reading,
  creation, update, deletion, create_pattern, update_pattern, delete_pattern, serve,
}
use sentinel_home.Patterns.History.{Remembers, contents, serve_all, serve_all-Remembers}
use sentinel_home.Patterns.Suppression.{with_patterns, create_pattern-evaluate}

abbrev blocks : Definition
blocks = record { event_type = some "fw_wan_block"; source = none }

abbrev body : PatternBody
body = record {
  name = some "quiet blocks";
  pattern_type = some "suppression";
  scope = none;
  definition = some blocks;
  confidence = none;
  sample_count = none;
  created_by = none;
  notes = none;
  changed_by = none;
  change_reason = none;
}

abbrev row : PatternRow
row = record {
  id = 1;
  name = "quiet blocks";
  pattern_type = "suppression";
  scope = "*";
  definition = blocks;
  confidence = 50;
  sample_count = 0;
  created_by = "agent";
  notes = none;
}

abbrev store : List PatternRow → PatternStore
store patterns = record { available = true; patterns = patterns; versions = [] }

created : create_pattern body (store []) ≡ (store (row ∷ []), answered 1)
unfolding create_pattern next_id
created = refl

abbrev requests : List (Bool × PatternRequest)
requests =
    (true, update 1 (record body { confidence = some 90; scope = some "aa:bb" }))
    ∷ (true, creation (record body { name = some "other" }))
    ∷ (true, deletion 2)
    ∷ (false, deletion 3)
    ∷ (true, update 1 (record body { confidence = some 95 }))
    ∷ (true, reading 1)
    ∷ []

two_versions :
    let s = serve_all requests (store (row ∷ [])) in
    (map {B = ℕ × ℕ} (λ (v : PatternVersion). (v.version, v.confidence)) s.versions
      ≡ (1, 50) ∷ (2, 90) ∷ [])
    × (map {B = ℕ × ℕ} (λ (p : PatternRow). (p.id, p.confidence)) s.patterns ≡ (1, 95) ∷ [])
unfolding create_pattern update_pattern delete_pattern next_id serve
two_versions = (refl, refl)

serve_all-Remembers_example : Remembers 1 (contents row) (serve_all requests (store (row ∷ [])))
serve_all-Remembers_example =
    serve_all-Remembers requests (store (row ∷ [])) 1 row refl
      (tt, (tt, ((λ e. omega arith), ((λ e. omega arith), (tt, (tt, tt))))))

abbrev block : ParseResult
block = record {
  event_type = "fw_wan_block";
  severity = "info";
  category = "network";
  message = "WAN block";
  fields = ("src", Value.text "1.2.3.4") ∷ [];
}

abbrev db : Database
db = record {
  available = true;
  rules = [];
  versions = [];
  patterns = [];
  jobs = [];
  findings = [];
  alerts = [];
  baselines = [];
  devices = [];
  events = [];
}

abbrev engine : Engine
engine = record {
  rules_cache = [];
  cache_ts = 0;
  windows = [];
  last_fired = [];
  known_macs = none;
  suppressions = [];
  suppressions_ts = 0;
  eval_count = 0;
}

abbrev world : World
world = record { engine = engine; db = db; sent = [] }

abbrev settings : Settings
settings = record {
  smb_whitelist = [];
  channel = record { min_severity = "high"; ready = false; notify = λ n. true };
}

create_pattern-evaluate_example :
    let w' = with_patterns (create_pattern body (store [])).0 world in
    ((evaluate settings (1000 * second) block none w').0 ≡ some [])
    × Ignores w' (evaluate settings (1000 * second) block none w').1
unfolding create_pattern suppresses next_id
create_pattern-evaluate_example =
    create_pattern-evaluate settings (1000 * second) block none world body (store []) 1 refl refl
      refl refl (omega arith)
