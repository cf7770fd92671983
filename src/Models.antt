-- ===== src/Models.antt =====
-- sentinel_home/models.py: the rows of the tables that the modelled code reads and writes, and the
-- database as a record of tables. A table is the list of its rows in the order of their keys.
-- `available` is false while every session raises (sentinel_home/database.py).
mod Values
unfoldable pub use Values.*
use sentinel_home.Prelude.{
  ℕ, suc, ◌+◌, ◌≤◌, ◌<◌, ◌≡◌, String, Bool, true, false, Option, none, some, List, [], ◌∷◌, map,
  arith, leb, ltb, if◌then◌else◌, max,
}
use sentinel_home.Prelude.Dict.{Dict}

-- The keys of `Rule.parameters` that the engine reads; `none` is an absent key.
pub record Parameters : Type 0 where
  pub match_source : Option String
  pub match_event_types : Option (List String)
  pub match_fields : Option (List (String × Expected))
  pub match_patterns : Option (List String)
  pub check_baseline : Option Bool
  pub check_smb_whitelist : Option Bool
  pub window_seconds : Option ℕ
  pub event_threshold : Option ℕ
  pub repeat_threshold : Option ℕ
  pub distinct_ports_threshold : Option ℕ

pub record Rule : Type 0 where
  pub id : ℕ
  pub name : String
  pub description : String
  pub category : String
  pub severity : String
  pub priority : ℕ
  pub source : String
  pub enabled : Bool
  pub approved : Bool
  pub frozen : Bool
  pub parameters : Parameters
  pub action : String
  pub cooldown_seconds : ℕ
  pub fire_count : ℕ
  pub true_positive_count : ℕ
  pub false_positive_count : ℕ
  pub last_fired : Option ℕ
  pub last_tuned : Option ℕ
  pub created_by : String
  pub notes : Option String

pub record RuleVersion : Type 0 where
  pub rule_id : ℕ
  pub version : ℕ
  pub parameters : Parameters
  pub severity : String
  pub enabled : Bool
  pub cooldown_seconds : ℕ
  pub changed_by : String
  pub change_reason : String
  pub fire_count_at_change : ℕ
  pub tp_count_at_change : ℕ
  pub fp_count_at_change : ℕ

-- `definition` of a suppression pattern
pub record Definition : Type 0 where
  pub event_type : Option String
  pub source : Option String

pub record Pattern : Type 0 where
  pub pattern_type : String
  pub scope : String
  pub definition : Definition

-- The keys of a worker's verdict; `none` is an absent key.
pub record Verdict : Type 0 where
  pub severity : Option String
  pub confidence : Option String
  pub summary : Option String
  pub reasoning : Option String
  pub likely_cause : Option String
  pub recommended_action : Option String
  pub needs_followup : Option Bool
  pub followup_question : Option String
  pub mitre_reference : Option String

-- what the actor stores as the verdict of a job
pub record Triage : Type 0 where
  pub triage_rating : Option String
  pub triage_reasoning : Option String
  pub investigation : Option String

-- the JSON of `Job.verdict`, by who writes it
pub data StoredVerdict : Type 0 where
  judged : Verdict → StoredVerdict
  triaged : Triage → StoredVerdict

pub data Status : Type 0 where
  pending processing done compacted failed : Status

pub record Job : Type 0 where
  pub id : ℕ
  pub created_at : ℕ
  pub source : String
  pub rule_name : String
  pub rule_id : Option ℕ
  pub device_id : Option String
  pub priority : ℕ
  pub status : Status
  pub context : Dict String Value
  pub compacted_count : ℕ
  pub processed_at : Option ℕ
  pub verdict : Option StoredVerdict

pub record Finding : Type 0 where
  pub id : ℕ
  pub job_id : Option ℕ
  pub ts : ℕ
  pub source : String
  pub rule_id : Option ℕ
  pub rule_name : Option String
  pub device_id : Option String
  pub severity : String
  pub confidence : String
  pub summary : String
  pub reasoning : Option String
  pub likely_cause : Option String
  pub recommended_action : Option String
  pub mitre_reference : Option String
  pub needs_followup : Bool
  pub followup_question : Option String
  pub acknowledged : Bool
  pub dismissed : Bool

pub record Alert : Type 0 where
  pub id : ℕ
  pub ts : ℕ
  pub rule_name : String
  pub rule_id : Option ℕ
  pub device_id : Option String
  pub severity : String
  pub message : String
  pub rule_parameters : Parameters
  pub context : Dict String Value

pub record Baseline : Type 0 where
  pub id : ℕ
  pub baseline_type : String
  pub subject_id : String
  pub data_fields : Dict String Value
  pub active : Bool

-- `expected_behavior`, `first_seen` and the strength of the signal are left out.
pub record Device : Type 0 where
  pub mac : String
  pub ip : Option String
  pub vendor : Option String
  pub os_family : Option String
  pub device_type : Option String
  pub hostnames : Option (Dict String Value)
  pub services : Option (Dict String Value)
  pub connection_type : Option String
  pub ap : Option String
  pub channel : Option ℕ
  pub band : Option String
  pub unifi_id : Option String
  pub vlan_id : Option ℕ
  pub infra_state : Option String
  pub last_seen : ℕ
  pub label : Option String
  pub network_role : Option String
  pub device_notes : Option String
  pub updated_by : Option String

pub record Event : Type 0 where
  pub ts : ℕ
  pub source : String
  pub event_type : String
  pub severity : String
  pub category : String
  pub kind : String
  pub device_id : Option String
  pub message : Option String
  pub raw : Dict String Value

pub record Database : Type 0 where
  pub available : Bool
  pub rules : List Rule
  pub versions : List RuleVersion
  pub patterns : List Pattern
  pub jobs : List Job
  pub findings : List Finding
  pub alerts : List Alert
  pub baselines : List Baseline
  pub devices : List Device
  pub events : List Event

-- SQLite gives a new row of an integer key one more than the greatest key of the table.
abbrev pub greatest : List ℕ → ℕ
greatest [] = 0
greatest (n ∷ ns) = max n (greatest ns)

unfoldable pub next_id {ℓ} : {A : Type ℓ} → (A → ℕ) → List A → ℕ
next_id key rows = suc (greatest (map key rows))

-- the fields of a parsed event: `ParseResult` of sentinel_home/parsers/__init__.py
pub record ParseResult : Type 0 where
  pub event_type : String
  pub severity : String
  pub category : String
  pub message : String
  pub fields : Dict String Value

-- `d.get(key, default)` of a JSON body whose keys are the fields of a record
abbrev pub get_or {ℓ} : {A : Type ℓ} → A → Option A → A
get_or default none = default
get_or default (some a) = a
