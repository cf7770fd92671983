-- ===== src/Nmap.antt =====
-- sentinel_home/collectors/nmap.py: what a scan's result does. nmap itself is not modelled; its result
-- is an argument. `entry` gives a service's dict as a value. A set keeps the order of insertion, which
-- Python leaves open.
pub mod Ports
pub mod Cooling
mod Examples
use Prim.Native.Nat.{◌+◌}
use Prim.Native.Char.{code}
use Prim.Native.String.{[], ◌∷◌, ◌++◌ as str_append}
use sentinel_home.Prelude.{
  ℕ, suc, String, Bool, true, false, not, ◌||◌, Option, none, some, List, [], ◌∷◌, ◌++◌, select,
  contains, length, truthy, lower, upper, decimal, ◌==◌, nat_eq, string_eq, if◌then◌else◌,
}
use sentinel_home.Prelude.Dict.{Dict, lookup, insert}
use sentinel_home.Models.{Value, Device, Database, get_or}
use sentinel_home.Engine.State.{Settings, World}
use sentinel_home.Engine.Evaluate.{fire_rule}
use sentinel_home.Devices.{Sighting, enrich_device, is_blank}

pub record PortInfo : Type 0 where
  pub state : Option String
  pub name : Option String
  pub product : Option String

-- one host of `result["scan"]`; `none` is an absent key
pub record HostData : Type 0 where
  pub ipv4 : Option String
  pub mac : Option String
  pub tcp : Dict ℕ PortInfo
  pub udp : Dict ℕ PortInfo
  pub osmatch : List (Option String)
  pub hostnames : List (Option String × Option String)
  pub vendor : Dict String String

abbrev pub is_open : PortInfo → Bool
is_open info = elim info.state [ none ↦ false | some state ↦ state == "open" ]

-- `f"{ipv4}:{proto}/{port}"`
abbrev pub port_text : HostData → String → ℕ → String
port_text h proto port =
    str_append (get_or "unknown" h.ipv4)
      (str_append ":" (str_append proto (str_append "/" (decimal port))))

-- `s.add(x)`
abbrev pub add : String → List String → List String
add x xs = if contains x xs then xs else xs ++ x ∷ []

unfoldable pub add_ports : HostData → String → Dict ℕ PortInfo → List String → List String
add_ports h proto [] found = found
add_ports h proto ((port, info) ∷ ports) found =
    add_ports h proto ports (if is_open info then add (port_text h proto port) found else found)

unfoldable pub add_hosts : List HostData → List String → List String
unfolding add_ports
add_hosts [] found = found
add_hosts (h ∷ hosts) found =
    add_hosts hosts (add_ports h "udp" h.udp (add_ports h "tcp" h.tcp found))

unfoldable pub extract_ports : List HostData → List String
unfolding add_hosts
extract_ports scan = add_hosts scan []

pub record Diff : Type 0 where
  pub new_ports : List String
  pub closed_ports : List String
  pub first_scan : Bool

-- `a - b` of sets
abbrev pub minus : List String → List String → List String
minus xs ys = select (λ x. not (contains x ys)) xs

unfoldable pub diff : Option (List HostData) → List HostData → Diff
unfolding extract_ports
diff none current = record { new_ports = []; closed_ports = []; first_scan = true }
diff (some previous) current =
    let prev_ports = extract_ports previous in
    let curr_ports = extract_ports current in
    record {
      new_ports = minus curr_ports prev_ports;
      closed_ports = minus prev_ports curr_ports;
      first_scan = false;
    }

pub record ScanRow : Type 0 where
  pub target : String
  pub scan_type : String
  pub result : List HostData
  pub diff : Diff
  pub findings_count : ℕ

-- the collector with its counts, and the table of scans
pub record Collector : Type 0 where
  pub last_scan : Option (List HostData)
  pub scans : List ScanRow
  pub total_events : ℕ
  pub errors : ℕ

abbrev open_services :
    (String → PortInfo → Value) → String → Dict ℕ PortInfo → Dict String Value → Dict String Value
open_services entry proto [] services = services
open_services entry proto ((port, info) ∷ ports) services =
    open_services entry proto ports
      (if is_open info then insert (decimal port) (entry proto info) services else services)

abbrev names_of : List (Option String × Option String) → Dict String Value → Dict String Value
names_of [] names = names
names_of ((name, type) ∷ rest) names = names_of rest (
    if is_blank name
    then names
    else insert (get_or "unknown" type) (Value.text (get_or "" name)) names)

abbrev first_name : List (Option String) → Option String
first_name [] = none
first_name (name ∷ names) = some (get_or "" name)

unfoldable pub sighting_of : (String → PortInfo → Value) → String → HostData → Sighting
sighting_of entry mac h = record {
  ip = h.ipv4;
  vendor = lookup (upper mac) h.vendor;
  os_family = first_name h.osmatch;
  device_type_hint = none;
  hostnames = names_of h.hostnames [];
  services = open_services entry "udp" h.udp (open_services entry "tcp" h.tcp []);
  connection_type = none;
  ap = none;
  channel = none;
  band = none;
  unifi_id = none;
  vlan_id = none;
  infra_state = none;
}

-- what `enrich_device` takes besides: `tracks` and the vendor file
pub record Surroundings : Type 0 where
  pub settings : Settings
  pub tracks : Bool
  pub oui : Option (Dict String String)
  pub entry : String → PortInfo → Value

unfoldable pub enrich_from_scan : Surroundings → ℕ → List HostData → Database → Database
unfolding sighting_of
enrich_from_scan e now [] db = db
enrich_from_scan e now (h ∷ hosts) db =
    let mac = lower (get_or "" h.mac) in
    enrich_from_scan e now hosts (
      if not (truthy mac) || is_blank h.ipv4
      then db
      else enrich_device e.tracks e.oui now mac (sighting_of e.entry mac h) db)

-- `s.split(":")`: the first part and the others
unfoldable pub split_colons : String → String × List String
split_colons [] = ([], [])
split_colons (c ∷ s) =
    let (part, parts) = split_colons s in
    if code c == b':' then ([], part ∷ parts) else (c ∷ part, parts)

-- `ip_to_mac`: the MAC of the last device with that address
unfoldable pub mac_of_ip : String → List Device → Option String
mac_of_ip host [] = none
mac_of_ip host (d ∷ devices) = elim (mac_of_ip host devices) [
  | some mac ↦ some mac
  | none ↦ elim d.ip [ none ↦ none | some ip ↦ if ip == host then some d.mac else none ]
]

-- the label and vendor of the device with that MAC, if it has an address
unfoldable pub names_of_mac : String → List Device → Option String × Option String
names_of_mac mac [] = (none, none)
names_of_mac mac (d ∷ devices) =
    let others = names_of_mac mac devices in
    elim d.ip [ none ↦ others | some ip ↦ if d.mac == mac then (d.label, d.vendor) else others ]

unfoldable pub device_label : String → Option String → List Device → String
unfolding names_of_mac
device_label host none devices = host
device_label host (some mac) devices =
    let (label, vendor) = names_of_mac mac devices in
    if not (truthy mac)
    then host
    else if not (is_blank label)
    then str_append (get_or "" label) (str_append " (" (str_append host ")"))
    else if not (is_blank vendor)
    then str_append host (str_append " (" (str_append (get_or "" vendor) ")"))
    else host

abbrev second_part : List String → String
second_part [] = ""
second_part (part ∷ parts) = part

unfoldable pub port_context : List Device → String → Option String × Dict String Value
unfolding split_colons mac_of_ip device_label
port_context devices port_str =
    let (host, parts) = split_colons port_str in
    let proto_port = second_part parts in
    let device_mac = mac_of_ip host devices in
    let message =
      str_append "New port "
        (str_append proto_port (str_append " opened on " (device_label host device_mac devices))) in
    (
      device_mac,
      ("host", Value.text host)
          ∷ ("port_info", Value.text proto_port)
          ∷ ("raw", Value.text port_str)
          ∷ ("message", Value.text message)
          ∷ [],
    )

-- `clock i` is the reading of the clock for the i-th port.
unfoldable pub fire_new_ports :
    Settings → (clock : ℕ → ℕ) → ℕ → List Device → List String → World → World
unfolding port_context
fire_new_ports settings clock i devices [] w = w
fire_new_ports settings clock i devices (port ∷ ports) w =
    let (mac, context) = port_context devices port in
    fire_new_ports settings clock (suc i) devices ports
      (fire_rule settings (clock i) "new_open_port" mac context w)

-- `_process_result` with the counts of `_run_scan` and `_scan_loop`. When the session raises, the scan
-- is already the last one. `now` is the time of the enrichment, `clock` are the later readings.
unfoldable pub process_result :
    Surroundings
    → (now : ℕ) → (clock : ℕ → ℕ) → List HostData
    → Collector
    → World
    → Collector × World
unfolding diff enrich_from_scan fire_new_ports
process_result e now clock result c w =
    let changes = diff c.last_scan result in
    let counted : Collector = record c {
      total_events = c.total_events + 1;
      last_scan = some result;
    } in
    let row : ScanRow = record {
      target = "lan";
      scan_type = "lan";
      result = result;
      diff = changes;
      findings_count = length changes.new_ports;
    } in
    let enriched : World = record w { db = enrich_from_scan e now result w.db } in
    if not w.db.available then (record counted { errors = c.errors + 1 }, w) else (
      record counted { scans = c.scans ++ row ∷ [] },
      fire_new_ports e.settings clock 0 enriched.db.devices changes.new_ports enriched,
    )
