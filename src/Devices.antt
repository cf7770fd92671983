-- ===== src/Devices.antt =====
-- sentinel_home/fingerprint.py: what collectors learn about a device is merged into its row. The vendor
-- file of the package mac_vendor_lookup is the argument `oui`, `none` if there is none; `tracks` says
-- whether the mapper writes a JSON column whose dict was changed in place.
pub mod Found
pub mod Merging
pub mod Storing
pub mod Hostnames
mod Examples
use Prim.Native.Char.{Char, code}
use Prim.Native.String.{[], ◌∷◌, len}
use sentinel_home.Prelude.{
  strip, ℕ, String, [], ◌∷◌, ◌++◌, Bool, true, false, not, ◌&&◌, ◌||◌, Option, none, some, List,
  first, any, is_nil, update_where, contains, truthy, lower, upper, prefix_of, has_substring, ◌==◌,
  nat_eq, string_eq, if◌then◌else◌,
}
use sentinel_home.Prelude.Dict.{Dict, lookup, insert}
use sentinel_home.Models.{Value, Device, Database, get_or}

-- `not s` of an optional text
abbrev pub is_blank : Option String → Bool
is_blank none = true
is_blank (some s) = not (truthy s)

abbrev pub set_device : String → (Device → Device) → List Device → List Device
set_device mac = update_where (λ (d : Device). d.mac == mac)

abbrev pub find_device : String → List Device → Option Device
find_device mac = first (λ (d : Device). d.mac == mac)

-- `mac.replace(":", "").replace("-", "").replace(".", "")`
unfoldable pub without_marks : String → String
without_marks [] = []
without_marks (c ∷ s) =
    let rest = without_marks s in
    if code c == b':' || (code c == b'-' || code c == b'.') then rest else c ∷ rest

unfoldable pub lookup_vendor : Option (Dict String String) → String → Option String
lookup_vendor none mac = none
lookup_vendor (some prefixes) mac =
    elim (lookup (prefix_of 6 (upper (without_marks mac))) prefixes) [
      | none ↦ none
      | some vendor ↦ if truthy vendor then some vendor else none
    ]

abbrev infra_vendors : List String
infra_vendors =
    "ubiquiti" ∷ "cisco" ∷ "netgear" ∷ "tp-link" ∷ "aruba" ∷ "mikrotik" ∷ "juniper" ∷ "fortinet"
    ∷ "meraki" ∷ "ruckus" ∷ "zyxel" ∷ "unifi" ∷ []

abbrev iot_vendors : List String
iot_vendors =
    "espressif" ∷ "tuya" ∷ "shelly" ∷ "sonoff" ∷ "philips lighting" ∷ "ring" ∷ "nest" ∷ "ecobee"
    ∷ "wyze" ∷ "lifx" ∷ "meross" ∷ []

abbrev phone_vendors : List String
phone_vendors =
    "apple" ∷ "samsung" ∷ "google" ∷ "oneplus" ∷ "xiaomi" ∷ "huawei" ∷ "oppo" ∷ "motorola"
    ∷ "sony mobile" ∷ []

abbrev names_any : String → List String → Bool
names_any v vendors = any (λ iv. has_substring v iv) vendors

-- the part of `infer_device_type` about the operating system
unfoldable pub type_of_os : String → Option String
type_of_os osf =
    if has_substring osf "windows"
    then some "desktop"
    else if has_substring osf "linux"
    then some "server"
    else if has_substring osf "ios" || (has_substring osf "iphone" || has_substring osf "ipad")
    then some "phone"
    else if has_substring osf "android"
    then some "phone"
    else if has_substring osf "mac os" || has_substring osf "macos"
    then some "desktop"
    else none

abbrev has_key : String → Dict String Value → Bool
has_key k d = any (λ (e : String × Value). e.0 == k) d

-- the part about services; the keys are texts
unfoldable pub type_of_services : Dict String Value → Option String
type_of_services services =
    if has_key "32400" services
    then some "media"
    else if has_key "445" services
    then some "server"
    else none

-- `x if x is not None else o`
abbrev pub or_try : Option String → Option String → Option String
or_try none o = o
or_try (some s) o = some s

unfoldable pub infer_device_type :
    (vendor os_family : Option String) → Dict String Value → Option String → Option String
infer_device_type vendor os_family services parser_hint =
    let v = lower (get_or "" vendor) in
    if not (is_blank parser_hint)
    then parser_hint
    else if names_any v infra_vendors
    then some "infrastructure"
    else if names_any v iot_vendors
    then some "iot"
    else if names_any v phone_vendors
    then some "phone"
    else or_try (type_of_os (lower (get_or "" os_family))) (type_of_services services)

-- the role of a type that is not none
unfoldable pub role_of : String → Option String
role_of type =
    if contains type ("router" ∷ "ap" ∷ "switch" ∷ "infrastructure" ∷ [])
    then some "infrastructure"
    else if type == "server"
    then some "server"
    else if type == "iot"
    then some "iot"
    else if contains type ("phone" ∷ "tablet" ∷ "desktop" ∷ "laptop" ∷ [])
    then some "client"
    else if type == "media"
    then some "server"
    else none

unfoldable pub infer_network_role : Option String → Option String
infer_network_role none = none
infer_network_role (some type) = role_of type

-- the arguments of `enrich_device` but for the MAC, without the strength of the signal
pub record Sighting : Type 0 where
  pub ip : Option String
  pub vendor : Option String
  pub os_family : Option String
  pub device_type_hint : Option String
  pub hostnames : Dict String Value
  pub services : Dict String Value
  pub connection_type : Option String
  pub ap : Option String
  pub channel : Option ℕ
  pub band : Option String
  pub unifi_id : Option String
  pub vlan_id : Option ℕ
  pub infra_state : Option String

-- `if new: field = new`, `if new and not old: field = new`, `if new is not None: field = new`
abbrev pub newer : Option String → Option String → Option String
newer new old = if is_blank new then old else new

abbrev pub older : Option String → Option String → Option String
older new old = if not (is_blank new) && is_blank old then new else old

abbrev pub newer_number : Option ℕ → Option ℕ → Option ℕ
newer_number none old = old
newer_number (some n) old = some n

-- `existing.update(new)`
unfoldable pub update_dict : Dict String Value → Dict String Value → Dict String Value
update_dict [] existing = existing
update_dict ((k, v) ∷ new) existing = update_dict new (insert k v existing)

-- the merged dict, which the rest of the call sees, and the column as it is stored
abbrev pub merged : Dict String Value → Option (Dict String Value) → Option (Dict String Value)
merged new old = if is_nil new then old else some (update_dict new (get_or [] old))

unfoldable pub stored :
    Bool → Dict String Value → Option (Dict String Value) → Option (Dict String Value)
stored tracks new old = if not tracks && not (is_nil (get_or [] old)) then old else merged new old

unfoldable pub next_type : Sighting → Device → Option String
next_type s d =
    let inferred =
      infer_device_type (older s.vendor d.vendor) (older s.os_family d.os_family)
        (get_or [] (merged s.services d.services)) s.device_type_hint in
    if (not (is_blank s.device_type_hint) || is_blank d.device_type) && not (is_blank inferred)
    then inferred
    else d.device_type

abbrev is_system : Option String → Bool
is_system none = false
is_system (some who) = who == "system"

unfoldable pub next_role : Sighting → Device → Option String
next_role s d =
    let role = infer_network_role (next_type s d) in
    if (is_blank d.network_role || is_system d.updated_by) && not (is_blank role)
    then role
    else d.network_role

unfoldable pub merge_device : Bool → ℕ → Sighting → Device → Device
merge_device tracks now s d = record d {
  ip = newer s.ip d.ip;
  vendor = older s.vendor d.vendor;
  os_family = older s.os_family d.os_family;
  connection_type = newer s.connection_type d.connection_type;
  ap = newer s.ap d.ap;
  channel = newer_number s.channel d.channel;
  band = newer s.band d.band;
  unifi_id = newer s.unifi_id d.unifi_id;
  vlan_id = newer_number s.vlan_id d.vlan_id;
  infra_state = newer s.infra_state d.infra_state;
  hostnames = stored tracks s.hostnames d.hostnames;
  services = stored tracks s.services d.services;
  device_type = next_type s d;
  network_role = next_role s d;
  last_seen = now;
  updated_by = if is_blank d.updated_by then some "system" else d.updated_by;
}

abbrev pub new_device : String → ℕ → Device
new_device mac now = record {
  mac = mac;
  ip = none;
  vendor = none;
  os_family = none;
  device_type = none;
  hostnames = none;
  services = none;
  connection_type = none;
  ap = none;
  channel = none;
  band = none;
  unifi_id = none;
  vlan_id = none;
  infra_state = none;
  last_seen = now;
  label = none;
  network_role = none;
  device_notes = none;
  updated_by = none;
}

-- `mac.lower().strip()`
abbrev pub clean_mac : String → String
clean_mac mac = strip (lower mac)

unfoldable pub enrich_rows : Bool → ℕ → String → Sighting → List Device → List Device
enrich_rows tracks now mac s devices = elim (find_device mac devices) [
  | none ↦ devices ++ merge_device tracks now s (new_device mac now) ∷ []
  | some d ↦ set_device mac (merge_device tracks now s) devices
]

unfoldable pub enrich_device :
    Bool → Option (Dict String String) → ℕ → String → Sighting → Database → Database
enrich_device tracks oui now raw_mac s db =
    let mac = clean_mac raw_mac in
    let vendor = if is_blank s.vendor then lookup_vendor oui mac else s.vendor in
    if not (truthy mac) || not (len mac == 17)
    then db
    else if db.available
    then record db {
      devices = enrich_rows tracks now mac (record s { vendor = vendor }) db.devices;
    }
    else db
