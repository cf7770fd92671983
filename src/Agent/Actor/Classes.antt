-- ===== src/Agent/Actor/Classes.antt =====
-- The devices that a cycle classifies.
use sentinel_home.Prelude.{
  ℕ, String, ◌≡◌, ◌≢◌, ◌⊎◌, inl, inr, refl, sym, ◌∙◌, ap, subst, true, false, Option, some, List,
  [], ◌∷◌, arith, All, Distinct, select, take, map, contains, All-first, All-take, select-All,
  Distinct-take, Distinct-select, if_cases, Bool-cases, ◌==◌, nat_eq, string_eq, if◌then◌else◌,
}
use sentinel_home.Models.{Device}
use sentinel_home.Agent.Tasks.{Task, Prompt, Response, classify_device, run_task}
use sentinel_home.Agent.Tasks.Answers.{run_task-IsAnswer}
use sentinel_home.Devices.{is_blank, find_device}
use sentinel_home.Devices.Found.{find_device-update, find_device-other}
use sentinel_home.Agent.Briefs.{classify_vars}
use sentinel_home.Agent.Actor.{Cycle, is_blank, classify_one, classify_all, classify_new_devices}

-- a device as the agent's class leaves it
abbrev pub classed : ℕ → String → Device → Device
classed now choice d = record d {
  device_type = some choice;
  updated_by = some "agent";
  last_seen = now;
}

-- the device as it was, or with one of the twelve classes
abbrev pub IsClassed : ℕ → Device → Option Device → Type 0
IsClassed now d after =
    (after ≡ some d)
    ⊎ ((choice : String) × (after ≡ some (classed now choice d))
        × (contains choice classify_device.valid_choices ≡ true))

abbrev mac_of : Device → String
mac_of d = d.mac

module _ (strftime : ℕ → String) (ask : ℕ → Task → Prompt → Response) (now : ℕ) where
  classify_one-other :
      (mac : String) (device : Device) (c : Cycle)
      → (device.mac == mac) ≡ false
      → find_device mac (classify_one strftime ask now device c).db.devices
        ≡ find_device mac c.db.devices
  unfolding classify_one
  classify_one-other mac device c ne =
      let result = (run_task ask classify_device (classify_vars device) c.calls).0 in
      if_cases (λ (c' : Cycle). find_device mac c'.db.devices ≡ find_device mac c.db.devices)
        result.valid _ _ (λ e. find_device-other device.mac mac _ c.db.devices ne (λ x. refl))
        (λ e. refl)

  classify_one-own :
      (device d : Device) (c : Cycle)
      → find_device device.mac c.db.devices ≡ some d
      → IsClassed now d (find_device device.mac (classify_one strftime ask now device c).db.devices)
  unfolding classify_one
  classify_one-own device d c here =
      let (result, calls) = run_task ask classify_device (classify_vars device) c.calls in
      if_cases (λ (c' : Cycle). IsClassed now d (find_device device.mac c'.db.devices)) result.valid
        _ _
        (λ e. inr (
          result.choice,
          find_device-update device.mac (classed now result.choice) c.db.devices d (λ x. refl) here,
          run_task-IsAnswer ask classify_device _ c.calls refl e,
        ))
        (λ e. inl here)

  classify_all-other :
      (mac : String) (devices : List Device) (c : Cycle)
      → All (λ m. mac ≢ m) (map mac_of devices)
      → find_device mac (classify_all strftime ask now devices c).db.devices
        ≡ find_device mac c.db.devices
  unfolding classify_all
  classify_all-other mac [] c apart = refl
  classify_all-other mac (device ∷ devices) c apart =
      let ne : (device.mac == mac) ≡ false =
        ground (arith, string_eq.decides device.mac mac, apart.0) in
      classify_all-other mac devices (classify_one strftime ask now device c) apart.1
      ∙ classify_one-other mac device c ne

  -- devices with a type are not among the ones that are asked about
  classify_all-IsClassed :
      (mac : String) (devices : List Device) (c : Cycle) (d : Device)
      → Distinct (map mac_of devices)
      → find_device mac c.db.devices ≡ some d
      → IsClassed now d (find_device mac (classify_all strftime ask now devices c).db.devices)
  unfolding classify_all
  classify_all-IsClassed mac [] c d u here = inl here
  classify_all-IsClassed mac (device ∷ devices) c d u here = elim (Bool-cases (device.mac == mac)) [
    | inr ne ↦
        classify_all-IsClassed mac devices (classify_one strftime ask now device c) d u.1
          (classify_one-other mac device c ne ∙ here)
    | inl hit ↦
        let same : device.mac ≡ mac = (string_eq.decides device.mac mac).0 hit in
        let c' = classify_one strftime ask now device c in
        let later =
          classify_all-other mac devices c'
            (subst (λ m. All (λ n. m ≢ n) (map mac_of devices)) same u.0) in
        subst (IsClassed now d) (sym later) (
          subst (λ m. IsClassed now d (find_device m c'.db.devices)) same
            (classify_one-own device d c (ap (λ m. find_device m c.db.devices) same ∙ here)))
  ]

  typed-absent :
      (mac : String) (d : Device) (devices rows : List Device)
      → find_device mac devices ≡ some d
      → is_blank d.device_type ≡ false
      → All
          (λ (x : Device). (find_device x.mac devices ≡ some x) × (is_blank x.device_type ≡ true))
          rows
      → All (λ m. mac ≢ m) (map mac_of rows)
  typed-absent mac d devices [] here typed h = tt
  typed-absent mac d devices (x ∷ rows) here typed h = (
    λ same.
        let one_row : some d ≡ some x = sym here ∙ ap (λ m. find_device m devices) same ∙ h.0.0 in
        ground (arith, one_row, typed, h.0.1),
    typed-absent mac d devices rows here typed h.1,
  )

  -- A device that has a type keeps it and stays as it was. One that has none stays as it was, or gets one
  -- of the twelve types that the agent may choose, the mark that the agent has changed it and the time
  -- of the cycle as that at which it was last seen, though it was not; nothing else of it changes,
  -- whatever the model answers. No two devices may have the same MAC.
  pub classify_new_devices-IsClassed :
      (mac : String) (c : Cycle) (d : Device)
      → Distinct (map (λ (x : Device). x.mac) c.db.devices)
      → find_device mac c.db.devices ≡ some d
      → let after = find_device mac (classify_new_devices strftime ask now c).db.devices in
        if is_blank d.device_type then IsClassed now d after else (after ≡ some d)
  unfolding classify_new_devices
  classify_new_devices-IsClassed mac c d u here =
      let devices = c.db.devices in
      let is_new = λ (x : Device). is_blank x.device_type in
      let rows = take 5 (select is_new devices) in
      let after = find_device mac (classify_all strftime ask now rows c).db.devices in
      let new_rows = All-take _ 5 (select is_new devices) (
        select-All (λ (x : Device). find_device x.mac devices ≡ some x) is_new devices
          (All-first mac_of devices u)) in
      let different =
        Distinct-take mac_of 5 (select is_new devices) (Distinct-select mac_of is_new devices u) in
      elim (Bool-cases (is_blank d.device_type)) [
        | inl new ↦ rw new (classify_all-IsClassed mac rows c d different here)
        | inr typed ↦ rw typed (
            classify_all-other mac rows c (typed-absent mac d devices rows here typed new_rows)
            ∙ here)
      ]
