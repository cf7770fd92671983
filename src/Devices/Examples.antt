-- ===== src/Devices/Examples.antt =====
-- The theorems about devices at concrete inputs.
use sentinel_home.Prelude.{
  has_substring, has_prefix, ◌≡◌, refl, true, false, none, some, [], ◌∷◌, is_space, strip_left,
  strip_right, lower, ◌==◌, nat_eq, string_eq, if◌then◌else◌,
}
use sentinel_home.Models.{Value, Device, Database}
use sentinel_home.Devices.{
  Sighting, is_blank, find_device, new_device, clean_mac, enrich_device, infer_device_type,
}
use sentinel_home.Devices.Merging.{Keeps}
use sentinel_home.Devices.Storing.{enrich_device-Keeps}
use sentinel_home.Devices.Hostnames.{hostnames_of, IsStored, enrich_device-IsStored}

abbrev printer : Device
printer = record (new_device "aa:bb:cc:dd:ee:01" 5) {
  vendor = some "Brother";
  device_type = some "printer";
  hostnames = some (("dhcp", Value.text "brw") ∷ []);
}

abbrev db : Database
db = record {
  available = true;
  rules = [];
  versions = [];
  patterns = [];
  jobs = [];
  findings = [];
  alerts = [];
  baselines = [];
  devices = printer ∷ [];
  events = [];
}

abbrev sighting : Sighting
sighting = record {
  ip = some "192.168.1.7";
  vendor = some "Cisco";
  os_family = none;
  device_type_hint = none;
  hostnames = ("mdns", Value.text "printer.local") ∷ [];
  services = [];
  connection_type = none;
  ap = none;
  channel = none;
  band = none;
  unifi_id = none;
  vlan_id = none;
  infra_state = none;
}

-- The names of two vendors are in that of a third.
vendor_within : infer_device_type (some "Murata Manufacturing Co., Ltd.") none [] none ≡ some "iot"
unfolding infer_device_type lower has_substring has_prefix
vendor_within = refl

enrich_device-Keeps_example :
    (d' : Device) × (find_device "aa:bb:cc:dd:ee:01"
        (enrich_device false none 9 " AA:BB:CC:DD:EE:01" sighting db).devices
      ≡ some d')
    × (if clean_mac " AA:BB:CC:DD:EE:01" == "aa:bb:cc:dd:ee:01"
        then Keeps sighting printer d'
        else (d' ≡ printer))
enrich_device-Keeps_example =
    enrich_device-Keeps false none 9 " AA:BB:CC:DD:EE:01" sighting db "aa:bb:cc:dd:ee:01" printer
      refl

enrich_device-IsStored_example :
    (d : Device) × (find_device
        (clean_mac " AA:BB:CC:DD:EE:01")
        (enrich_device false none 9 " AA:BB:CC:DD:EE:01" sighting db).devices
      ≡ some d)
    × (d.last_seen ≡ 9)
    × (is_blank d.updated_by ≡ false)
    × IsStored false sighting
        (hostnames_of (find_device (clean_mac " AA:BB:CC:DD:EE:01") db.devices))
        d
unfolding lower is_space strip_left strip_right
enrich_device-IsStored_example =
    enrich_device-IsStored false none 9 " AA:BB:CC:DD:EE:01" sighting db refl refl (tt, tt)
