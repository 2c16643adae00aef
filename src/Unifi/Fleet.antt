-- ===== src/Unifi/Fleet.antt =====
-- devices.go, firmware.go and temperature.go: the tallies over the adopted devices, with what their
-- keys are derived from. Names and readings that only a log line shows are left out.
use unifi_reactor.Base.{
  ℕ, Bool, true, false, ◌||◌, List, [], ◌∷◌, ◌++◌, Option, none, some, if◌then◌else◌, ◌+◌, ◌==◌,
  ltb,
}
use unifi_reactor.Base.Text.{Text}
use unifi_reactor.Base.Int.{ℤ, pos, same_ℤ}
use unifi_reactor.Base.Dict.{Dict, lookup, insert, is_some}
use unifi_reactor.Unifi.Vocabulary.{
  contains_text, state_key_device_prefix, state_key_devices, state_key_firmware,
  state_key_temperature, value_all_online, value_current, value_degraded, value_high, value_normal,
  value_offline, value_online, value_updates_available,
}
use unifi_reactor.Unifi.Slug.{slugify}
use unifi_reactor.Unifi.Device.{ClientConfig, DeviceRecord, Floats}
use unifi_reactor.Unifi.Levels.{float_or}

-- `*b` where `b` is not nil.
abbrev pub is_true : Option Bool → Bool
is_true none = false
is_true (some b) = b

-- `deviceTally`: `shared` lists its keys.
pub record DeviceTally : Type 0 where
  pub per_device : Dict Text
  pub shared : List Text
  pub counted : ℕ
  pub offline : ℕ
  pub per_device_keys : Bool

abbrev pub new_device_tally : Bool → DeviceTally
new_device_tally keys = record {
  per_device = [];
  shared = [];
  counted = 0;
  offline = 0;
  per_device_keys = keys;
}

-- The states that are translated into a value.
unfoldable pub device_value : ℤ → Option Text
device_value n =
    if same_ℤ n (pos 1)
    then some value_online
    else if same_ℤ n (pos 0)
    then some value_offline
    else none

-- A value under a key: a key that is met again is shared.
unfoldable pub put_value : Text → Text → Dict Text × List Text → Dict Text × List Text
put_value key value (values, shared) =
    (insert key value values, if is_some (lookup key values) then key ∷ shared else shared)

unfoldable pub count_device : Text → Text → Bool → DeviceTally → DeviceTally
count_device slug value offline t =
    let (values, shared) =
      put_value (state_key_device_prefix ++ slug) value (t.per_device, t.shared) in
    let nameless : Bool = elim slug [ [] ↦ true | r ∷ s ↦ false ] in
    record {
      per_device = if nameless then t.per_device else values;
      shared = if nameless then t.shared else shared;
      counted = t.counted + 1;
      offline = if offline then t.offline + 1 else t.offline;
      per_device_keys = t.per_device_keys;
    }

-- `deviceTally.observe`, on the state and the name of a device
unfoldable pub observe_state : Option ℤ → Text → DeviceTally → DeviceTally
unfolding count_device
observe_state none name t = t
observe_state (some n) name t = elim (device_value n) [
  | none ↦ t
  | some value ↦ count_device (slugify name) value (same_ℤ n (pos 0)) t
]

-- The loop that publishes the values whose key is not shared.
unfoldable pub publish_values : List Text → Dict Text → Dict Text → Dict Text
publish_values shared [] state = state
publish_values shared ((key, value) ∷ values) state =
    publish_values shared values
      (if contains_text shared key then state else insert key value state)

-- `deviceTally.publish`
unfoldable pub publish_devices : DeviceTally → Dict Text → Dict Text
publish_devices t state =
    let fleet =
      insert state_key_devices (if ltb 0 t.offline then value_degraded else value_all_online)
        state in
    let all = publish_values t.shared t.per_device fleet in
    if t.counted == 0 then state else if t.per_device_keys then all else fleet

-- `firmwareTally`: how many devices answer, and how many of them have an update.
pub record FirmwareTally : Type 0 where
  pub reporting : ℕ
  pub upgradable : ℕ

-- `firmwareTally.observe`
unfoldable pub observe_firmware : Option Bool → FirmwareTally → FirmwareTally
observe_firmware none t = t
observe_firmware (some upgradable) t = record {
  reporting = t.reporting + 1;
  upgradable = if upgradable then t.upgradable + 1 else t.upgradable;
}

-- `firmwareTally.publish`
unfoldable pub publish_firmware : FirmwareTally → Dict Text → Dict Text
publish_firmware t state =
    if t.reporting == 0
    then state
    else insert state_key_firmware
        (if ltb 0 t.upgradable then value_updates_available else value_current) state

module _ (f : Floats) where
  open f use {Float, at_least, less, of_count}

  -- The loops that keep the largest reading.
  unfoldable pub larger : Option Float → Float → Option Float
  larger none x = some x
  larger (some best) x = if less best x then some x else some best

  unfoldable pub hottest_sensor : Option Float → List (Option Float) → Option Float
  hottest_sensor best [] = best
  hottest_sensor best (none ∷ sensors) = hottest_sensor best sensors
  hottest_sensor best (some x ∷ sensors) = hottest_sensor (larger best x) sensors

  -- `deviceRecord.hottest`
  unfoldable pub hottest : DeviceRecord Float → Option Float
  hottest d = elim (hottest_sensor none d.temperatures) [
    | some x ↦ some x
    | none ↦ d.general_temperature
  ]

  -- `deviceRecord.instrumented`
  unfoldable pub instrumented : DeviceRecord Float → Bool
  instrumented d = is_true d.has_temperature || is_some (hottest d) || is_true d.overheating

  -- `temperatureTally`: how many devices report, how many are overheating, and the hottest reading.
  pub record TemperatureTally : Type 0 where
    pub devices : ℕ
    pub overheating : ℕ
    pub hottest_reading : Option Float

  -- `temperatureTally.observe`
  unfoldable pub observe_temperature : DeviceRecord Float → TemperatureTally → TemperatureTally
  observe_temperature d t =
      let reading : Option Float = elim (hottest d) [
        | none ↦ t.hottest_reading
        | some x ↦ larger t.hottest_reading x
      ] in
      if instrumented d
      then record {
        devices = t.devices + 1;
        overheating = if is_true d.overheating then t.overheating + 1 else t.overheating;
        hottest_reading = reading;
      }
      else t

  -- `known && x >= threshold`
  unfoldable pub reaches : Float → Option Float → Bool
  reaches threshold none = false
  reaches threshold (some x) = at_least x threshold

  -- `temperatureTally.publish`
  unfoldable pub publish_temperature : ClientConfig Float → TemperatureTally → Dict Text → Dict Text
  publish_temperature c t state =
      let high =
        ltb 0 t.overheating
        || reaches (float_or f (of_count 75) c.high_temperature_celsius) t.hottest_reading in
      if t.devices == 0
      then state
      else insert state_key_temperature (if high then value_high else value_normal) state
