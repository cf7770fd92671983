-- ===== src/Agent/Briefs.antt =====
-- sentinel_home/agent/orchestrator.py, `_device_info_str`, `_get_recent_events_text` and the variables
-- of the actor's prompts.
use Prim.Native.String.{[], ◌∷◌, ◌++◌ as str_append}
use sentinel_home.Prelude.{
  ℕ, String, [], ◌∷◌, ◌++◌, not, Option, none, some, List, map, select, first, take, is_nil, truthy,
  prefix_of, decimal, leb, ◌==◌, nat_eq, string_eq, if◌then◌else◌,
}
use sentinel_home.Prelude.Dict.{Dict, lookup}
use sentinel_home.Models.{
  value_str, Value, null, text, number, Job, Device, Event, Database, get_or,
}
use sentinel_home.Queue.{order_by}
use sentinel_home.Agent.Tasks.{join, present}

unfoldable pub device_info_str : Device → String
device_info_str device = join " — " (
    present device.label
    ++ present device.vendor
    ++ present device.ip
    ++ device.mac ∷ map (λ t. str_append "(" (str_append t ")")) (present device.device_type))

-- `job.device_id` where the code tests it for truth
abbrev device_of : Job → Database → Option Device
device_of job db = elim job.device_id [
  | none ↦ none
  | some mac ↦ if truthy mac then first (λ (d : Device). d.mac == mac) db.devices else none
]

abbrev pub or_text : String → Option String → String
or_text default none = default
or_text default (some s) = if truthy s then s else default

unfoldable pub device_str : Job → Database → String
device_str job db = elim (device_of job db) [
  | some device ↦ device_info_str device
  | none ↦ or_text "unknown" job.device_id
]

-- `context.get(key, "")[:n]`; slicing null or a number raises
unfoldable pub text_slice : String → ℕ → Dict String Value → Option String
text_slice key n context = elim (lookup key context) [
  | none ↦ some ""
  | some (text s) ↦ some (prefix_of n s)
  | some _ ↦ none
]

-- `context.get(key, default)`
abbrev value_or : String → String → Dict String Value → Value
value_or key default context = elim (lookup key context) [ none ↦ Value.text default | some v ↦ v ]

abbrev pub triage_vars : Job → String → String → String → List (String × Value)
triage_vars job device message extra =
    ("event_type", value_or "event_type" job.rule_name job.context)
    ∷ ("severity", value_or "severity" "medium" job.context)
    ∷ ("source", value_or "source" "unknown" job.context)
    ∷ ("device_info", Value.text device)
    ∷ ("message", Value.text message)
    ∷ ("context", Value.text extra)
    ∷ []

-- `strftime` prints the time of an event.
module _ (strftime : ℕ → String) where
  unfoldable pub event_line : Event → String
  event_line e = str_append "  [" (
      str_append (strftime e.ts) (
        str_append "] " (
          str_append e.event_type (
            str_append " ("
              (str_append e.severity (str_append "): " (prefix_of 500 (get_or "" e.message))))))))

  -- `_get_recent_events_text`
  unfoldable pub recent_events_text : Option String → Database → String
  recent_events_text none db = "No device events available"
  recent_events_text (some device) db =
      let events = take 25 (
        order_by (λ (a b : Event). leb b.ts a.ts)
          (select (λ (e : Event). get_or "" e.device_id == device) db.events)) in
      if not (truthy device)
      then "No device events available"
      else if is_nil events
      then "No recent events for this device"
      else join "\n" (map event_line events)

  abbrev pub investigate_vars : Job → String → String → Database → List (String × Value)
  investigate_vars job device message db =
      ("rule_name", Value.text job.rule_name)
      ∷ ("severity", value_or "severity" "medium" job.context)
      ∷ ("message", Value.text message)
      ∷ ("device_info", Value.text device)
      ∷ ("recent_events", Value.text (recent_events_text job.device_id db))
      ∷ []

abbrev host_parts : Dict String Value → List String
host_parts [] = []
host_parts ((k, null) ∷ d) = host_parts d
host_parts ((k, text s) ∷ d) =
    let rest = host_parts d in if truthy s then str_append k (str_append ": " s) ∷ rest else rest
host_parts ((k, number n) ∷ d) =
    let rest = host_parts d in
    if n == 0 then rest else str_append k (str_append ": " (decimal n)) ∷ rest

abbrev or_none : String → String
or_none s = if truthy s then s else "none"

abbrev pub classify_vars : Device → List (String × Value)
classify_vars d =
    ("mac", Value.text d.mac)
    ∷ ("ip", Value.text (or_text "unknown" d.ip))
    ∷ ("vendor", Value.text (or_text "unknown" d.vendor))
    ∷ ("hostnames", Value.text (or_none (join ", " (host_parts (get_or [] d.hostnames)))))
    ∷ (
      "services",
      Value.text (
          or_none (
            join ", " (
              map (λ (e : String × Value). str_append e.0 (str_append "/" (value_str e.1)))
                (get_or [] d.services)))),
    )
    ∷ ("os_family", Value.text (or_text "unknown" d.os_family))
    ∷ ("connection_type", Value.text (or_text "unknown" d.connection_type))
    ∷ []
