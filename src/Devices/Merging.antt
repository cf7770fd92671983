-- ===== src/Devices/Merging.antt =====
-- What a sighting leaves of what was known.
use sentinel_home.Prelude.{
  ℕ, String, ◌≡◌, refl, ◌∙◌, Bool, true, false, not, ◌&&◌, Option, none, some, [], ◌∷◌, arith,
  is_nil, if_cases, ◌==◌, nat_eq, string_eq,
}
use sentinel_home.Prelude.Dict.{Dict, lookup, insert, lookup-insert}
use sentinel_home.Models.{Value, Device, get_or}
use sentinel_home.Devices.{
  Sighting, is_blank, is_system, newer, older, newer_number, has_key, update_dict, stored,
  next_type, next_role, merge_device,
}

abbrev pub is_number : Option ℕ → Bool
is_number none = false
is_number (some n) = true

abbrev pub Known : Option String → Option String → Type 0
Known old new = is_blank old ≡ false → is_blank new ≡ false

abbrev pub KnownNumber : Option ℕ → Option ℕ → Type 0
KnownNumber old new = is_number old ≡ true → is_number new ≡ true

abbrev pub Fixed : Option String → Option String → Type 0
Fixed old new = is_blank old ≡ false → new ≡ old

-- What was known of a device is known after a sighting, and the fields that a sighting may only fill in
-- are as they were.
pub record Keeps (s : Sighting) (d d' : Device) : Type 0 where
  pub mac : d'.mac ≡ d.mac
  pub ip : Known d.ip d'.ip
  pub connection_type : Known d.connection_type d'.connection_type
  pub ap : Known d.ap d'.ap
  pub channel : KnownNumber d.channel d'.channel
  pub unseen_channel : s.channel ≡ none → d'.channel ≡ d.channel
  pub band : Known d.band d'.band
  pub unifi_id : Known d.unifi_id d'.unifi_id
  pub vlan_id : KnownNumber d.vlan_id d'.vlan_id
  pub unseen_vlan : s.vlan_id ≡ none → d'.vlan_id ≡ d.vlan_id
  pub infra_state : Known d.infra_state d'.infra_state
  pub vendor : Fixed d.vendor d'.vendor
  pub os_family : Fixed d.os_family d'.os_family
  pub some_type : Known d.device_type d'.device_type
  pub device_type : is_blank s.device_type_hint ≡ true → Fixed d.device_type d'.device_type
  pub some_role : Known d.network_role d'.network_role
  pub network_role : is_system d.updated_by ≡ false → Fixed d.network_role d'.network_role
  pub updated_by : Fixed d.updated_by d'.updated_by
  pub label : d'.label ≡ d.label
  pub device_notes : d'.device_notes ≡ d.device_notes
  pub hostnames :
      (k : String)
      → has_key k s.hostnames ≡ false
      → lookup k (get_or [] d'.hostnames) ≡ lookup k (get_or [] d.hostnames)
  pub services :
      (k : String)
      → has_key k s.services ≡ false
      → lookup k (get_or [] d'.services) ≡ lookup k (get_or [] d.services)

update_dict-other :
    (k : String) (new old : Dict String Value)
    → has_key k new ≡ false
    → lookup k (update_dict new old) ≡ lookup k old
unfolding update_dict
update_dict-other k [] old h = refl
update_dict-other k ((j, v) ∷ new) old h =
    let other : (j == k) ≡ false = ground (arith, h) in
    update_dict-other k new (insert j v old) (ground (arith, h))
    ∙ lookup-insert j k v old
    ∙ (rw other refl)

stored-other :
    (tracks : Bool) (k : String) (new : Dict String Value) (old : Option (Dict String Value))
    → has_key k new ≡ false
    → lookup k (get_or [] (stored tracks new old)) ≡ lookup k (get_or [] old)
unfolding stored
stored-other tracks k new old h =
    if_cases (λ o. lookup k (get_or [] o) ≡ lookup k (get_or [] old))
      (not tracks && not (is_nil (get_or [] old))) _ _ (λ e. refl)
      (λ e.
        if_cases (λ o. lookup k (get_or [] o) ≡ lookup k (get_or [] old)) (is_nil new) _ _
          (λ n. refl) (λ n. update_dict-other k new (get_or [] old) h))

newer-Known : (new old : Option String) → Known old (newer new old)
newer-Known new old h = ground (arith, h)

newer_number-KnownNumber : (new old : Option ℕ) → KnownNumber old (newer_number new old)
newer_number-KnownNumber none old h = h
newer_number-KnownNumber (some n) old h = refl

newer_number-unseen : (new old : Option ℕ) → new ≡ none → newer_number new old ≡ old
newer_number-unseen new old h = rw h refl

older-Fixed : (new old : Option String) → Fixed old (older new old)
older-Fixed new old h = ground (arith, h)

pub merge_device-Keeps :
    (tracks : Bool) (now : ℕ) (s : Sighting) (d : Device) → Keeps s d (merge_device tracks now s d)
unfolding merge_device next_type next_role
merge_device-Keeps tracks now s d = record {
  mac = refl;
  ip = newer-Known s.ip d.ip;
  connection_type = newer-Known s.connection_type d.connection_type;
  ap = newer-Known s.ap d.ap;
  channel = newer_number-KnownNumber s.channel d.channel;
  unseen_channel = newer_number-unseen s.channel d.channel;
  band = newer-Known s.band d.band;
  unifi_id = newer-Known s.unifi_id d.unifi_id;
  vlan_id = newer_number-KnownNumber s.vlan_id d.vlan_id;
  unseen_vlan = newer_number-unseen s.vlan_id d.vlan_id;
  infra_state = newer-Known s.infra_state d.infra_state;
  vendor = older-Fixed s.vendor d.vendor;
  os_family = older-Fixed s.os_family d.os_family;
  some_type = λ h. ground (arith, h);
  device_type = λ blank h. ground (arith, blank, h);
  some_role = λ h. ground (arith, h);
  network_role = λ own h. ground (arith, own, h);
  updated_by = λ h. ground (arith, h);
  label = refl;
  device_notes = refl;
  hostnames = λ k h. stored-other tracks k s.hostnames d.hostnames h;
  services = λ k h. stored-other tracks k s.services d.services h;
}
