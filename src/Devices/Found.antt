-- ===== src/Devices/Found.antt =====
-- Finding a device after a write to a row.
use sentinel_home.Prelude.{String, ◌≡◌, refl, false, some, List, [], ◌∷◌, arith, ◌==◌, string_eq}
use sentinel_home.Models.{Device}
use sentinel_home.Devices.{find_device, set_device}

pub find_device-update :
    (mac : String) (f : Device → Device) (devices : List Device) (d : Device)
    → ((x : Device) → (f x).mac ≡ x.mac)
    → find_device mac devices ≡ some d
    → find_device mac (set_device mac f devices) ≡ some (f d)
find_device-update mac f [] d keeps e = ground (arith, e)
find_device-update mac f (x ∷ devices) d keeps e =
    ground (arith, keeps x, e, find_device-update mac f devices d keeps)

pub find_device-other :
    (mac other : String) (f : Device → Device) (devices : List Device)
    → (mac == other) ≡ false
    → ((x : Device) → (f x).mac ≡ x.mac)
    → find_device other (set_device mac f devices) ≡ find_device other devices
find_device-other mac other f [] ne keeps = refl
find_device-other mac other f (x ∷ devices) ne keeps = ground (
  arith,
  string_eq.decides x.mac mac,
  ne,
  keeps x,
  find_device-other mac other f devices ne keeps,
)
