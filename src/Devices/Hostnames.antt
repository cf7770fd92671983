-- ===== src/Devices/Hostnames.antt =====
-- The hostnames that `enrich_device` stores.
use Prim.Native.String.{len}
use sentinel_home.Prelude.{
  ℕ, String, ◌≡◌, ◌≢◌, refl, ◌∙◌, ap, subst, Bool, true, false, not, ◌&&◌, ◌||◌, Option, none, some,
  List, [], ◌∷◌, ◌++◌, arith, All, Distinct, map, is_nil, truthy, if_cases, Bool-cases,
  Option-cases, inl, inr, ◌==◌, nat_eq, string_eq, ==_refl, if◌then◌else◌,
}
use sentinel_home.Prelude.Dict.{Dict, lookup, insert, lookup-insert}
use sentinel_home.Models.{Value, Device, Database, get_or}
use sentinel_home.Devices.{
  Sighting, is_blank, set_device, find_device, update_dict, stored, merge_device, new_device,
  clean_mac, lookup_vendor, enrich_rows, enrich_device,
}
use sentinel_home.Devices.Found.{find_device-update}

find_device-new :
    (mac : String) (devices : List Device) (new : Device)
    → find_device mac devices ≡ none
    → new.mac ≡ mac
    → find_device mac (devices ++ new ∷ []) ≡ some new
find_device-new mac [] new e same = rw (same, ==_refl mac) refl
find_device-new mac (x ∷ devices) new e same =
    ground (arith, e, find_device-new mac devices new, same)

lookup-absent :
    (k : String) (new : Dict String Value)
    → All (λ j. k ≢ j) (map (λ (e : String × Value). e.0) new)
    → lookup k new ≡ none
unfolding lookup
lookup-absent k [] h = refl
lookup-absent k ((j, v) ∷ new) h =
    ground (arith, string_eq.decides j k, h.0, lookup-absent k new h.1)

-- what `update` leaves at a key
abbrev over : Option Value → Option Value → Option Value
over none old = old
over (some v) old = some v

lookup-update_dict :
    (k : String) (new old : Dict String Value)
    → Distinct (map (λ (e : String × Value). e.0) new)
    → lookup k (update_dict new old) ≡ over (lookup k new) (lookup k old)
unfolding update_dict lookup
lookup-update_dict k [] old d = refl
lookup-update_dict k ((j, v) ∷ new) old d =
    let rest = lookup-update_dict k new (insert j v old) d.1 in
    let written = lookup-insert j k v old in
    elim (Bool-cases (j == k)) [
      | inl hit ↦
          let same : j ≡ k = (string_eq.decides j k).0 hit in
          let gone : lookup k new ≡ none =
            lookup-absent k new
              (subst (λ i. All (λ n. i ≢ n) (map (λ (e : String × Value). e.0) new)) same d.0) in
          ground (arith, hit, rest, gone, written)
      | inr miss ↦ ground (arith, miss, rest, written)
    ]

-- the hostnames of a device, if it is in the table
abbrev pub hostnames_of : Option Device → Dict String Value
hostnames_of none = []
hostnames_of (some d) = get_or [] d.hostnames

-- the hostnames that a sighting leaves where `before` were stored
abbrev pub IsStored : Bool → Sighting → Dict String Value → Device → Type 0
IsStored tracks s before d =
    (k : String)
    → lookup k (get_or [] d.hostnames) ≡ (
        if not tracks && not (is_nil before)
        then lookup k before
        else over (lookup k s.hostnames) (lookup k before))

merge_device-IsStored :
    (tracks : Bool) (now : ℕ) (s : Sighting) (d : Device)
    → Distinct (map (λ (e : String × Value). e.0) s.hostnames)
    → IsStored tracks s (get_or [] d.hostnames) (merge_device tracks now s d)
unfolding merge_device stored lookup
merge_device-IsStored tracks now s d once k =
    let old = get_or [] d.hostnames in
    let updated = lookup-update_dict k s.hostnames old once in
    elim (Bool-cases (not tracks && not (is_nil old))) [
      | inl kept ↦ rw kept refl
      | inr written ↦ rw written (
          if_cases (λ o. lookup k (get_or [] o) ≡ over (lookup k s.hostnames) (lookup k old))
            (is_nil s.hostnames) _ _ (λ none_new. go s.hostnames none_new) (λ e. updated))
    ]
  where
    go :
        (new : Dict String Value)
        → is_nil new ≡ true
        → lookup k (get_or [] d.hostnames) ≡ over (lookup k new) (lookup k (get_or [] d.hostnames))
    go [] e = refl
    go (x ∷ new) e = ground (arith, e)

stamped :
    (tracks : Bool) (now : ℕ) (s : Sighting) (d : Device)
    → ((merge_device tracks now s d).last_seen ≡ now)
      × (is_blank (merge_device tracks now s d).updated_by ≡ false)
      × ((merge_device tracks now s d).mac ≡ d.mac)
unfolding merge_device
stamped tracks now s d = (refl, ground arith, refl)

abbrev Seen : Bool → ℕ → Sighting → Dict String Value → Option Device → Type 0
Seen tracks now s before after =
    (d : Device) × (after ≡ some d)
    × (d.last_seen ≡ now)
    × (is_blank d.updated_by ≡ false)
    × IsStored tracks s before d

enrich_rows-Seen :
    (tracks : Bool) (now : ℕ) (mac : String) (s : Sighting) (devices : List Device)
    → Distinct (map (λ (e : String × Value). e.0) s.hostnames)
    → Seen tracks now s
        (hostnames_of (find_device mac devices))
        (find_device mac (enrich_rows tracks now mac s devices))
unfolding enrich_rows
enrich_rows-Seen tracks now mac s devices once = elim (Option-cases (find_device mac devices)) [
  | inl absent ↦
      let new = merge_device tracks now s (new_device mac now) in
      let (time, who, same) = stamped tracks now s (new_device mac now) in
      let rows : enrich_rows tracks now mac s devices ≡ devices ++ new ∷ [] =
        rw (enrich_rows, absent) refl in
      (
        new,
        ap (find_device mac) rows ∙ find_device-new mac devices new absent same,
        time,
        who,
        rw absent (merge_device-IsStored tracks now s (new_device mac now) once),
      )
  | inr (d, found) ↦
      let (time, who, same) = stamped tracks now s d in
      let rows : enrich_rows tracks now mac s devices
          ≡ set_device mac (merge_device tracks now s) devices =
        rw (enrich_rows, found) refl in
      (
        merge_device tracks now s d,
        ap (find_device mac) rows
            ∙ find_device-update mac (merge_device tracks now s) devices d
                (λ x. (stamped tracks now s x).2) found,
        time,
        who,
        rw found (merge_device-IsStored tracks now s d once),
      )
]

-- A sighting whose MAC has 17 characters leaves the device in the table, stamped with its time and with
-- who has updated it. Its hostnames are the ones that were stored, with those of the sighting written
-- over them; but if there were some and the mapper does not track changes in place, they are only the
-- ones that were stored. The database must answer, and the sighting names no source of hostnames twice.
pub enrich_device-IsStored :
    (tracks : Bool) (oui : Option (Dict String String)) (now : ℕ) (raw_mac : String) (s : Sighting)
    (db : Database)
    → db.available ≡ true
    → len (clean_mac raw_mac) ≡ 17
    → Distinct (map (λ (e : String × Value). e.0) s.hostnames)
    → (d : Device) × (find_device
          (clean_mac raw_mac)
          (enrich_device tracks oui now raw_mac s db).devices
        ≡ some d)
      × (d.last_seen ≡ now)
      × (is_blank d.updated_by ≡ false)
      × IsStored tracks s (hostnames_of (find_device (clean_mac raw_mac) db.devices)) d
unfolding enrich_device
enrich_device-IsStored tracks oui now raw_mac s db up long once =
    let mac = clean_mac raw_mac in
    let vendor = if is_blank s.vendor then lookup_vendor oui mac else s.vendor in
    let before = hostnames_of (find_device mac db.devices) in
    if_cases (λ (db' : Database). Seen tracks now s before (find_device mac db'.devices))
      (not (truthy mac) || not (len mac == 17)) _ _
      (λ e. ground (arith, long_truthy mac long, long, e))
      (λ e.
        if_cases (λ (db' : Database). Seen tracks now s before (find_device mac db'.devices))
          db.available _ _
          (λ a. enrich_rows-Seen tracks now mac (record s { vendor = vendor }) db.devices once)
          (λ down. ground (arith, up, down)))
  where
    long_truthy : (m : String) → len m ≡ 17 → truthy m ≡ true
    long_truthy m l = elim (Bool-cases (truthy m)) [
      | inl h ↦ h
      | inr h ↦
          let empty : m ≡ "" = (string_eq.decides m "").0 (ground (arith, h)) in
          ground (arith, ap len empty, l)
    ]
