-- ===== src/Agent/Examples.antt =====
-- The theorems about the agent at concrete inputs.
use sentinel_home.Prelude.{
  joined, is_space, strip_left, strip_right, ℕ, eq_iff, ◌+◌, ◌≡◌, refl, String, true, none, some,
  Option, [], ◌∷◌, arith, length, contains, upper, string_eq, nat_eq, if◌then◌else◌, ◌==◌,
}
use sentinel_home.Models.{pending, processing, done, failed, Value, Status, Job, Device}
use sentinel_home.Queue.{count_status}
use sentinel_home.Devices.{is_blank, find_device}
use sentinel_home.Agent.Reading.{first_token, extract_choice}
use sentinel_home.Agent.Reading.Choices.{extract_choice-joined}
use sentinel_home.Agent.Tasks.{
  Task, Prompt, Response, investigate_alert, run_task, validate_response,
}
use sentinel_home.Agent.Actor.{
  Cycle, process_queue, classify_all, classify_one, classify_new_devices,
}
use sentinel_home.Agent.Actor.Queueing.{process_queue-ended}
use sentinel_home.Agent.Actor.Classes.{IsClassed, classify_new_devices-IsClassed}

extract_choice-joined_example :
    (c : String) × (extract_choice
        (joined " \n" (joined "TRUE_POSITIVE" " — beaconing"))
        investigate_alert.valid_choices
      ≡ some c)
    × (contains c investigate_alert.valid_choices ≡ true)
    × (upper c ≡ upper "TRUE_POSITIVE")
unfolding is_space
extract_choice-joined_example =
    extract_choice-joined " \n" "TRUE_POSITIVE" " — beaconing" investigate_alert.valid_choices refl
      refl refl refl

abbrev job : ℕ → Status → Value → Job
job id status message = record {
  id = id;
  created_at = id;
  source = "pihole";
  rule_name = "dns_burst";
  rule_id = some 7;
  device_id = some "aa:bb:cc:dd:ee:01";
  priority = 2;
  status = status;
  context = ("message", message) ∷ [];
  compacted_count = 0;
  processed_at = none;
  verdict = none;
}

abbrev device : String → Option String → Device
device mac type = record {
  mac = mac;
  ip = some "192.168.1.9";
  vendor = some "Roku";
  os_family = none;
  device_type = type;
  hostnames = none;
  services = none;
  connection_type = none;
  ap = none;
  channel = none;
  band = none;
  unifi_id = none;
  vlan_id = none;
  infra_state = none;
  last_seen = 0;
  label = none;
  network_role = none;
  device_notes = none;
  updated_by = none;
}

-- one job waits, one was left by a crash, and one has no text to slice
abbrev start : Cycle
start = record {
  db = record {
    available = true;
    rules = [];
    versions = [];
    patterns = [];
    jobs =
        job 1 pending (Value.text "a")
        ∷ job 2 processing (Value.text "b")
        ∷ job 3 pending Value.null
        ∷ [];
    findings = [];
    alerts = [];
    baselines = [];
    devices = device "aa:bb:cc:dd:ee:01" none ∷ device "aa:bb:cc:dd:ee:02" (some "phone") ∷ [];
    events = [];
  };
  calls = 0;
  stats = record {
    triaged = 0;
    investigated = 0;
    findings_created = 0;
    devices_classified = 0;
    errors = 0;
  };
}

clock : ℕ → String
clock t = "2026-03-18 12:00"

-- a model that rates with 4, confirms every alert and takes every device for a media player
model : ℕ → Task → Prompt → Response
model call task prompt = record {
  text =
      if task.name == "triage_event"
      then "4 — unusual"
      else if task.name == "investigate_alert"
      then "TRUE_POSITIVE: it beacons"
      else "Media";
  success = true;
}

process_queue-ended_example :
    let c' = process_queue clock model 50 start in
    (count_status processing c'.db.jobs ≡ 0)
    × (count_status pending c'.db.jobs + 3 ≡ 3)
    × (count_status failed c'.db.jobs + 0 ≡ 0 + c'.stats.errors)
    × (count_status done c'.db.jobs + c'.stats.errors ≡ 0 + 3 + 0)
    × (length c'.db.findings + 0 ≡ 0 + c'.stats.findings_created)
unfolding count_status
process_queue-ended_example =
    process_queue-ended clock model 50 start
      ((λ e. omega arith, (λ e. omega arith, tt)), ((λ e. omega arith, tt), (tt, tt)))

-- The model's answer is no valid class in its own case, but in the end the device is a media player.
found_class :
    find_device "aa:bb:cc:dd:ee:01" (classify_new_devices clock model 50 start).db.devices
    ≡ some (record (device "aa:bb:cc:dd:ee:01" (some "media")) {
      updated_by = some "agent";
      last_seen = 50;
    })
unfolding classify_new_devices classify_all classify_one run_task validate_response extract_choice
    upper first_token strip_right strip_left is_space model
found_class = refl

classify_new_devices-IsClassed_example :
    let after =
      find_device "aa:bb:cc:dd:ee:01" (classify_new_devices clock model 50 start).db.devices in
    if is_blank none
    then IsClassed 50 (device "aa:bb:cc:dd:ee:01" none) after
    else (after ≡ some (device "aa:bb:cc:dd:ee:01" none))
classify_new_devices-IsClassed_example =
    classify_new_devices-IsClassed clock model 50 "aa:bb:cc:dd:ee:01" start
      (device "aa:bb:cc:dd:ee:01" none)
      ((ground (arith, eq_iff "aa:bb:cc:dd:ee:01" "aa:bb:cc:dd:ee:02"), tt), (tt, tt)) refl
