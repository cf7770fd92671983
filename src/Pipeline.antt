-- ===== src/Pipeline.antt =====
-- sentinel_home/collectors/syslog_base.py: where a parsed event goes. The rule engine, the counters and
-- the table of events are those of the other modules.
pub mod Frame
pub mod Routing
mod Examples
use Prim.Native.String.{len}
use sentinel_home.Prelude.{
  ℕ, String, Bool, true, false, Option, none, some, List, [], ◌∷◌, ◌++◌, any, first, contains,
  has_substring, prefix_of, truthy, ◌==◌, string_eq, if◌then◌else◌,
}
use sentinel_home.Prelude.Dict.{Dict, lookup, insert}
use sentinel_home.Models.{Value, text, Event, Device, ParseResult, Database}
use sentinel_home.Engine.State.{World, Settings}
use sentinel_home.Engine.Evaluate.{evaluate}
use sentinel_home.Metrics.{Key, Buckets, record_event}
use sentinel_home.Devices.{Sighting, enrich_device}

abbrev pre_filter : List String
pre_filter =
    "DPT=5353" ∷ "DPT=10001" ∷ "SPT=10001" ∷ "no input for event" ∷ "hostapd-global-check"
    ∷ "Hostapd Global Check" ∷ []

unfoldable pub should_pre_filter : String → Bool
should_pre_filter line = any (has_substring line) pre_filter

abbrev pub is_counter_event : ParseResult → Bool
is_counter_event result = contains result.event_type ("fw_wan_block" ∷ "fw_lan_traffic" ∷ [])

-- what the collectors keep
pub record Intake : Type 0 where
  pub world : World
  pub buckets : Buckets

-- one parsed line with its collector and sender
pub record Received : Type 0 where
  pub now : ℕ
  pub result : ParseResult
  pub source_name : String
  pub source_ip : Option String

abbrev pub key_of : Received → Key
key_of r = record {
  source = r.source_name;
  category = r.result.category;
  event_type = r.result.event_type;
}

-- the row of `persist_event`
unfoldable pub event_of : Received → Event
event_of r = record {
  ts = r.now;
  source = r.source_name;
  event_type = r.result.event_type;
  severity = r.result.severity;
  category = r.result.category;
  kind = "event";
  device_id = none;
  message = some (prefix_of 500 r.result.message);
  raw = elim r.source_ip [
    | none ↦ r.result.fields
    | some ip ↦
        if truthy ip then insert "source_ip" (Value.text ip) r.result.fields else r.result.fields
  ];
}

unfoldable pub persist_event : Received → Database → Database
persist_event r db =
    if db.available then record db { events = db.events ++ event_of r ∷ [] } else db

unfoldable pub record_counter : Received → Buckets → Buckets
record_counter r buckets = record_event r.now (key_of r) r.result.fields buckets

-- `evaluate_rules`: an exception is swallowed, what was written before it stays
unfoldable pub evaluate_rules : Settings → Received → World → World
evaluate_rules cfg r w = (evaluate cfg r.now r.result r.source_ip w).1

unfoldable pub process_result : Settings → Received → Intake → Intake
process_result cfg r s =
    let w = evaluate_rules cfg r s.world in
    if is_counter_event r.result
    then record s { world = w; buckets = record_counter r s.buckets }
    else record s { world = record w { db = persist_event r w.db } }

unfoldable pub process_results : Settings → List Received → Intake → Intake
process_results cfg [] s = s
process_results cfg (r ∷ rs) s = process_results cfg rs (process_result cfg r s)

abbrev no_sighting : Sighting
no_sighting = record {
  ip = none;
  vendor = none;
  os_family = none;
  device_type_hint = none;
  hostnames = [];
  services = [];
  connection_type = none;
  ap = none;
  channel = none;
  band = none;
  unifi_id = none;
  vlan_id = none;
  infra_state = none;
}

module _ (tracks : Bool) (oui : Option (Dict String String)) (now : ℕ) where
  unfoldable pub update_device_type : String → String → Database → Database
  update_device_type ip device_type db =
      elim (first (λ (d : Device). elim d.ip [ none ↦ false | some i ↦ i == ip ]) db.devices) [
        | none ↦ db
        | some d ↦
            if db.available
            then enrich_device tracks oui now d.mac
                (record no_sighting { ip = some ip; device_type_hint = some device_type }) db
            else db
      ]

  abbrev text_at : String → Dict String Value → Option String
  text_at key fields = elim (lookup key fields) [ some (text s) ↦ some s | _ ↦ none ]

  unfoldable pub upsert_wifi_device : String → Dict String Value → Database → Database
  upsert_wifi_device mac fields db =
      let hostnames : Dict String Value = elim (text_at "hostname" fields) [
        | none ↦ []
        | some h ↦ if truthy h then ("wifi", Value.text h) ∷ [] else []
      ] in
      enrich_device tracks oui now mac
        (record no_sighting {
          ip = text_at "ip" fields;
          connection_type = some "wifi";
          ap = text_at "vap" fields;
          hostnames = hostnames;
        })
        db
