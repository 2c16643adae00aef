-- ===== src/Unifi/Observe/Whole.antt =====
-- The keys of the whole fleet, from the devices that the console lists to the published state.
use unifi_reactor.Base.{
  false, ◌||◌, List, [], ◌∷◌, Option, none, some, if◌then◌else◌, ◌≡◌, inl, inr, refl, sym, ap, ◌∙◌,
  arith, Bool-cases, ◌==◌, ltb,
}
use unifi_reactor.Base.Text.{Text, same, same_refl}
use unifi_reactor.Base.Int.{ℤ, pos}
use unifi_reactor.Base.Dict.{Dict, lookup, insert, get_or, lookup-insert}
use unifi_reactor.Unifi.Vocabulary.{
  state_key_devices, state_key_firmware, state_key_poe, state_key_temperature, value_all_online,
  value_current, value_degraded, value_updates_available,
}
use unifi_reactor.Unifi.Device.{ClientConfig, DeviceRecord, Floats, HealthSubsystem}
use unifi_reactor.Unifi.Fleet.{
  DeviceTally, FirmwareTally, TemperatureTally, new_device_tally, publish_devices, publish_firmware,
  publish_temperature,
}
use unifi_reactor.Unifi.Draw.{PoeTally, publish_poe}
use unifi_reactor.Unifi.Outlets.{OutletTally, publish_outlets}
use unifi_reactor.Unifi.Observe.Apart.{HasNone, IsApart, insert-apart, publish_values-apart}
use unifi_reactor.Unifi.Observe.Tallied.{
  any_device, firmware_value, fleet-scan_devices, fleet_value, has_state, has_upgrade,
  reports_upgrade,
}
use unifi_reactor.Unifi.Observe.Lacking.{merge_health-apart, scan_devices-Lacks}
use unifi_reactor.Unifi.Observe.{
  Scan, new_scan, no_keys, observe_console, publish, scan_devices, state_from_devices,
}
use unifi_reactor.Unifi.Observe.Counted.{counted-observe_fleet, reporting-observe_upgrades}

devices-IsApart : IsApart state_key_devices
unfolding same
devices-IsApart = record {
  device = λ s. refl;
  outlet = λ s. refl;
  wan = refl;
  wan_quality = refl;
  isp = refl;
  internet = refl;
  data_usage = refl;
  ups = refl;
  ups_battery = refl;
  ups_runtime = refl;
  ups_load = refl;
  wifi = refl;
}

firmware-IsApart : IsApart state_key_firmware
unfolding same
firmware-IsApart = record {
  device = λ s. refl;
  outlet = λ s. refl;
  wan = refl;
  wan_quality = refl;
  isp = refl;
  internet = refl;
  data_usage = refl;
  ups = refl;
  ups_battery = refl;
  ups_runtime = refl;
  ups_load = refl;
  wifi = refl;
}

lookup-publish_devices :
    (t : DeviceTally) (state : Dict Text)
    → lookup state_key_devices t.per_device ≡ none
    → lookup state_key_devices (publish_devices t state) ≡ (
        if ltb 0 t.counted
        then some (if ltb 0 t.offline then value_degraded else value_all_online)
        else lookup state_key_devices state)
unfolding publish_devices
lookup-publish_devices t state h =
    let value = if ltb 0 t.offline then value_degraded else value_all_online in
    let fleet = insert state_key_devices value state in
    ground (
      arith,
      publish_values-apart state_key_devices t.shared t.per_device fleet h,
      lookup-insert state_key_devices state_key_devices value state,
      same_refl state_key_devices,
    )

lookup-publish_firmware :
    (t : FirmwareTally) (state : Dict Text)
    → lookup state_key_firmware (publish_firmware t state) ≡ (
        if ltb 0 t.reporting
        then some (if ltb 0 t.upgradable then value_updates_available else value_current)
        else lookup state_key_firmware state)
unfolding publish_firmware
lookup-publish_firmware t state =
    let value = if ltb 0 t.upgradable then value_updates_available else value_current in
    ground (
      arith,
      lookup-insert state_key_firmware state_key_firmware value state,
      same_refl state_key_firmware,
    )

publish_firmware-apart :
    (key : Text) (t : FirmwareTally) (state : Dict Text)
    → same state_key_firmware key ≡ false
    → lookup key (publish_firmware t state) ≡ lookup key state
unfolding publish_firmware
publish_firmware-apart key t state h =
    let value = if ltb 0 t.upgradable then value_updates_available else value_current in
    ground (arith, insert-apart key state_key_firmware value state h)

publish_devices-apart :
    (key : Text) (t : DeviceTally) (state : Dict Text)
    → same state_key_devices key ≡ false
    → lookup key t.per_device ≡ none
    → lookup key (publish_devices t state) ≡ lookup key state
unfolding publish_devices
publish_devices-apart key t state h k =
    let value = if ltb 0 t.offline then value_degraded else value_all_online in
    let fleet = insert state_key_devices value state in
    ground (
      arith,
      publish_values-apart key t.shared t.per_device fleet k,
      insert-apart key state_key_devices value state h,
    )

publish_outlets-apart :
    (key : Text) (apart : IsApart key) (t : OutletTally) (state : Dict Text)
    → HasNone key apart t
    → lookup key (publish_outlets t state) ≡ lookup key state
unfolding publish_outlets
publish_outlets-apart key apart none state h = refl
publish_outlets-apart key apart (some (values, shared)) state h =
    publish_values-apart key shared values state h

module _ (f : Floats) where
  open f use {Float}

  publish_temperature-apart :
      (key : Text) (c : ClientConfig Float) (t : TemperatureTally f) (state : Dict Text)
      → same state_key_temperature key ≡ false
      → lookup key (publish_temperature f c t state) ≡ lookup key state
  unfolding publish_temperature
  publish_temperature-apart key c t state h = elim (Bool-cases (t.devices == 0)) [
    | inl e ↦ rw (publish_temperature, e, if◌then◌else◌) refl
    | inr e ↦
        rw (publish_temperature, e, if◌then◌else◌)
          (insert-apart key state_key_temperature _ state h)
  ]

  publish_poe-apart :
      (key : Text) (c : ClientConfig Float) (t : PoeTally f) (state : Dict Text)
      → same state_key_poe key ≡ false
      → lookup key (publish_poe f c t state) ≡ lookup key state
  unfolding publish_poe
  publish_poe-apart key c t state h = elim (Bool-cases (t.switches == 0)) [
    | inl e ↦ rw (publish_poe, e, if◌then◌else◌) refl
    | inr e ↦ rw (publish_poe, e, if◌then◌else◌) (insert-apart key state_key_poe _ state h)
  ]

  -- A key that the later tallies do not write.
  published-apart :
      (key : Text) (apart : IsApart key) (c : ClientConfig Float) (s : Scan f)
      → same state_key_temperature key ≡ false
      → same state_key_poe key ≡ false
      → HasNone key apart s.outlets
      → lookup key (publish f c s)
        ≡ lookup key (publish_firmware s.firmware (publish_devices s.fleet s.state))
  unfolding publish
  published-apart key apart c s h k o =
      publish_outlets-apart key apart s.outlets _ o
      ∙ publish_poe-apart key c s.poe _ k
      ∙ publish_temperature-apart key c s.heat _ h

  published_devices :
      (c : ClientConfig Float) (ds : List (DeviceRecord Float))
      → lookup state_key_devices (publish f c (scan_devices f c ds (new_scan f c)))
        ≡ fleet_value f ds
  unfolding same lookup new_scan fleet_value
  published_devices c ds =
      let s = scan_devices f c ds (new_scan f c) in
      let lacks =
        scan_devices-Lacks f state_key_devices devices-IsApart c ds (new_scan f c)
          (refl, refl, tt) in
      let counts = counted-observe_fleet f ds (new_device_tally c.per_device_keys) in
      let fleet = (fleet-scan_devices f c ds (new_scan f c)).0 in
      let counted : ltb 0 s.fleet.counted
          ≡ (any_device f (has_state f 0) ds || any_device f (has_state f 1) ds) =
        ap (λ (t : DeviceTally). ltb 0 t.counted) fleet ∙ counts.0 in
      let offline : ltb 0 s.fleet.offline ≡ any_device f (has_state f 0) ds =
        ap (λ (t : DeviceTally). ltb 0 t.offline) fleet ∙ counts.1 in
      published-apart state_key_devices devices-IsApart c s refl refl lacks.2
      ∙ publish_firmware-apart state_key_devices s.firmware _ refl
      ∙ lookup-publish_devices s.fleet s.state lacks.1
      ∙ (rw (counted, offline, lacks.0) refl)

  published_firmware :
      (c : ClientConfig Float) (ds : List (DeviceRecord Float))
      → lookup state_key_firmware (publish f c (scan_devices f c ds (new_scan f c)))
        ≡ firmware_value f ds
  unfolding same lookup new_scan firmware_value
  published_firmware c ds =
      let s = scan_devices f c ds (new_scan f c) in
      let lacks =
        scan_devices-Lacks f state_key_firmware firmware-IsApart c ds (new_scan f c)
          (refl, refl, tt) in
      let counts = reporting-observe_upgrades f ds (record { reporting = 0; upgradable = 0 }) in
      let fleet = (fleet-scan_devices f c ds (new_scan f c)).1 in
      let reporting : ltb 0 s.firmware.reporting ≡ any_device f (reports_upgrade f) ds =
        ap (λ (t : FirmwareTally). ltb 0 t.reporting) fleet ∙ counts.0 in
      let upgradable : ltb 0 s.firmware.upgradable ≡ any_device f (has_upgrade f) ds =
        ap (λ (t : FirmwareTally). ltb 0 t.upgradable) fleet ∙ counts.1 in
      let before : lookup state_key_firmware (publish_devices s.fleet s.state) ≡ none =
        publish_devices-apart state_key_firmware s.fleet s.state refl lacks.1 ∙ lacks.0 in
      published-apart state_key_firmware firmware-IsApart c s refl refl lacks.2
      ∙ lookup-publish_firmware s.firmware _
      ∙ (rw (reporting, upgradable, before) refl)

  returned :
      (merged state : Dict Text)
      → (if no_keys merged then none else some merged) ≡ some state
      → merged ≡ state
  returned [] state e = ground arith
  returned (x ∷ merged) state e = cc e

  -- What the devices give under the key.
  lookup-state_from_devices :
      (key : Text) (c : ClientConfig Float) (ds : List (DeviceRecord Float))
      → lookup key (get_or ([], pos 0) (state_from_devices f c ds)).0
        ≡ lookup key (publish f c (scan_devices f c ds (new_scan f c)))
  unfolding state_from_devices lookup
  lookup-state_from_devices key c ds =
      by_keys (publish f c (scan_devices f c ds (new_scan f c)))
        (scan_devices f c ds (new_scan f c)).wan_index
    where
      by_keys :
          (m : Dict Text) (index : ℤ)
          → lookup key
              (get_or {A = Dict Text × ℤ}
                ([], pos 0)
                (if no_keys m then none else some (m, index))).0
            ≡ lookup key m
      by_keys [] index = refl
      by_keys (x ∷ m) index = refl

  observed-apart :
      (key : Text) (apart : IsApart key) (c : ClientConfig Float) (ds : List (DeviceRecord Float))
      (health : Option (List (HealthSubsystem Float))) (state : Dict Text)
      → observe_console f c (some ds) health ≡ some state
      → lookup key state ≡ lookup key (publish f c (scan_devices f c ds (new_scan f c)))
  unfolding observe_console
  observed-apart key apart c ds none state e =
      ap (lookup key) (sym (returned _ state e)) ∙ lookup-state_from_devices key c ds
  observed-apart key apart c ds (some hs) state e =
      ap (lookup key) (sym (returned _ state e))
      ∙ merge_health-apart f key apart c _ _ hs _
      ∙ lookup-state_from_devices key c ds

  -- Once the devices are known, `devices` is absent if no adopted device is in the state 0 or 1, it is
  -- degraded if an adopted device is in the state 0, and all-online otherwise, whatever the order of the
  -- devices and the answer of the health endpoint.
  pub lookup-observe_console-fleet_value :
      (c : ClientConfig Float) (ds : List (DeviceRecord Float))
      (health : Option (List (HealthSubsystem Float))) (state : Dict Text)
      → observe_console f c (some ds) health ≡ some state
      → lookup state_key_devices state ≡ fleet_value f ds
  lookup-observe_console-fleet_value c ds health state e =
      observed-apart state_key_devices devices-IsApart c ds health state e ∙ published_devices c ds

  -- Once the devices are known, `firmware` is absent if no adopted device says whether it has an update,
  -- updates-available if an adopted device has one, and current otherwise.
  pub lookup-observe_console-firmware_value :
      (c : ClientConfig Float) (ds : List (DeviceRecord Float))
      (health : Option (List (HealthSubsystem Float))) (state : Dict Text)
      → observe_console f c (some ds) health ≡ some state
      → lookup state_key_firmware state ≡ firmware_value f ds
  lookup-observe_console-firmware_value c ds health state e =
      observed-apart state_key_firmware firmware-IsApart c ds health state e
      ∙ published_firmware c ds
