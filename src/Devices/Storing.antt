-- ===== src/Devices/Storing.antt =====
-- `enrich_device` on the table of devices.
use Prim.Native.String.{len}
use sentinel_home.Prelude.{
  ℕ, String, ◌≡◌, refl, sym, ◌∙◌, subst, Bool, true, false, not, ◌||◌, Option, some, List, [], ◌∷◌,
  ◌++◌, arith, truthy, if_cases, option_cases, Bool-cases, inl, inr, ◌==◌, nat_eq, string_eq,
  if◌then◌else◌,
}
use sentinel_home.Prelude.Dict.{Dict}
use sentinel_home.Models.{Device, Database}
use sentinel_home.Devices.{
  Sighting, is_blank, set_device, find_device, merge_device, clean_mac, lookup_vendor, enrich_rows,
  enrich_device,
}
use sentinel_home.Devices.Found.{find_device-update, find_device-other}
use sentinel_home.Devices.Merging.{Keeps, merge_device-Keeps}

Keeps-refl : (s : Sighting) (d : Device) → Keeps s d d
Keeps-refl s d = record {
  mac = refl;
  ip = λ h. h;
  connection_type = λ h. h;
  ap = λ h. h;
  channel = λ h. h;
  unseen_channel = λ h. refl;
  band = λ h. h;
  unifi_id = λ h. h;
  vlan_id = λ h. h;
  unseen_vlan = λ h. refl;
  infra_state = λ h. h;
  vendor = λ h. refl;
  os_family = λ h. refl;
  some_type = λ h. h;
  device_type = λ b h. refl;
  some_role = λ h. h;
  network_role = λ o h. refl;
  updated_by = λ h. refl;
  label = refl;
  device_notes = refl;
  hostnames = λ k h. refl;
  services = λ k h. refl;
}

-- what becomes of a device when there is a sighting of a MAC
abbrev pub Becomes : String → String → Sighting → Device → Option Device → Type 0
Becomes seen mac s d after =
    (d' : Device) × (after ≡ some d') × (if seen == mac then Keeps s d d' else (d' ≡ d))

find_device-append :
    (mac : String) (devices : List Device) (new d : Device)
    → find_device mac devices ≡ some d
    → find_device mac (devices ++ new ∷ []) ≡ some d
find_device-append mac [] new d e = ground (arith, e)
find_device-append mac (x ∷ devices) new d e =
    ground (arith, e, find_device-append mac devices new d)

unchanged :
    (seen mac : String) (s : Sighting) (d : Device) (after : Option Device)
    → after ≡ some d
    → Becomes seen mac s d after
unchanged seen mac s d after e = (
  d,
  e,
  if_cases (λ (T : Type 0). T) (seen == mac) (Keeps s d d) (d ≡ d) (λ h. Keeps-refl s d)
      (λ h. refl),
)

enrich_rows-Becomes :
    (tracks : Bool) (now : ℕ) (seen mac : String) (s : Sighting) (devices : List Device)
    (d : Device)
    → find_device mac devices ≡ some d
    → Becomes seen mac s d (find_device mac (enrich_rows tracks now seen s devices))
unfolding enrich_rows
enrich_rows-Becomes tracks now seen mac s devices d here =
    option_cases (λ rows. Becomes seen mac s d (find_device mac rows)) (find_device seen devices) _
      _ (λ absent. unchanged seen mac s d _ (find_device-append mac devices _ d here))
      (λ e found. elim (Bool-cases (seen == mac)) [
        | inr other ↦ unchanged seen mac s d _ (
            find_device-other seen mac (merge_device tracks now s) devices other (keeps_mac) ∙ here)
        | inl hit ↦
            let same : seen ≡ mac = (string_eq.decides seen mac).0 hit in
            (
              merge_device tracks now s d,
              subst
                  (λ m.
                    find_device mac (set_device m (merge_device tracks now s) devices)
                    ≡ some (merge_device tracks now s d))
                  (sym same)
                  (find_device-update mac (merge_device tracks now s) devices d keeps_mac here),
              rw hit (merge_device-Keeps tracks now s d),
            )
      ])
  where
    keeps_mac : (x : Device) → (merge_device tracks now s x).mac ≡ x.mac
    keeps_mac x = (merge_device-Keeps tracks now s x).mac

with_vendor :
    (s : Sighting) (v : Option String) (d d' : Device)
    → Keeps (record s { vendor = v }) d d'
    → Keeps s d d'
with_vendor s v d d' k = record {
  mac = k.mac;
  ip = k.ip;
  connection_type = k.connection_type;
  ap = k.ap;
  channel = k.channel;
  unseen_channel = k.unseen_channel;
  band = k.band;
  unifi_id = k.unifi_id;
  vlan_id = k.vlan_id;
  unseen_vlan = k.unseen_vlan;
  infra_state = k.infra_state;
  vendor = k.vendor;
  os_family = k.os_family;
  some_type = k.some_type;
  device_type = k.device_type;
  some_role = k.some_role;
  network_role = k.network_role;
  updated_by = k.updated_by;
  label = k.label;
  device_notes = k.device_notes;
  hostnames = k.hostnames;
  services = k.services;
}

either :
    (b : Bool) (s : Sighting) (v : Option String) (d d' : Device)
    → (if b then Keeps (record s { vendor = v }) d d' else (d' ≡ d))
    → if b then Keeps s d d' else (d' ≡ d)
either true s v d d' k = with_vendor s v d d' k
either false s v d d' k = k

-- A device that is in the table is in it after a sighting. If the sighting is of its MAC, what was known
-- of it is known, its channel and VLAN as they were if the sighting has none, and vendor, system, label, notes, the hostnames and services under other keys, a
-- type without a hint and a role that the system has not set are as they were, if they were known; if
-- it is of another MAC, the device is as it was.
pub enrich_device-Keeps :
    (tracks : Bool) (oui : Option (Dict String String)) (now : ℕ) (raw_mac : String) (s : Sighting)
    (db : Database) (mac : String) (d : Device)
    → find_device mac db.devices ≡ some d
    → (d' : Device) × (find_device mac (enrich_device tracks oui now raw_mac s db).devices
        ≡ some d')
      × (if clean_mac raw_mac == mac then Keeps s d d' else (d' ≡ d))
unfolding enrich_device
enrich_device-Keeps tracks oui now raw_mac s db mac d here =
    let seen = clean_mac raw_mac in
    let vendor = if is_blank s.vendor then lookup_vendor oui seen else s.vendor in
    if_cases (λ (db' : Database). Becomes seen mac s d (find_device mac db'.devices))
      (not (truthy seen) || not (len seen == 17)) _ _ (λ e. unchanged seen mac s d _ here)
      (λ e.
        if_cases (λ (db' : Database). Becomes seen mac s d (find_device mac db'.devices))
          db.available _ _
          (λ up.
            let (d', found, kept) =
              enrich_rows-Becomes tracks now seen mac (record s { vendor = vendor }) db.devices d
                here in
            (d', found, either (seen == mac) s vendor d d' kept))
          (λ down. unchanged seen mac s d _ here))
