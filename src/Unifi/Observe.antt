-- ===== src/Unifi/Observe.antt =====
-- client.go: `stateFromDevices` and `Observe`.
pub mod Closed
pub mod Fit
pub mod Apart
pub mod Lacking
pub mod Scanned
pub mod Tallied
pub mod Counted
pub mod Whole
use unifi_reactor.Base.{
  ℕ, Bool, true, false, not, ◌&&◌, ◌||◌, List, [], ◌∷◌, Option, none, some, if◌then◌else◌,
}
use unifi_reactor.Base.Text.{Text}
use unifi_reactor.Base.Int.{ℤ, pos}
use unifi_reactor.Base.Dict.{Dict, lookup, insert, is_some, get_or}
use unifi_reactor.Unifi.Vocabulary.{
  state_key_data_usage, state_key_isp, state_key_ups, state_key_ups_battery, state_key_ups_load,
  state_key_ups_runtime, state_key_wan, value_on_battery, value_online,
}
use unifi_reactor.Unifi.Device.{
  ClientConfig, DeviceRecord, Floats, HealthSubsystem, VbmsTable, WanEntry,
}
use unifi_reactor.Unifi.Levels.{battery_level, data_usage_from, load_level, runtime_level}
use unifi_reactor.Unifi.Fleet.{
  DeviceTally, FirmwareTally, TemperatureTally, is_true, new_device_tally, observe_firmware,
  observe_state, observe_temperature, publish_devices, publish_firmware, publish_temperature,
}
use unifi_reactor.Unifi.Draw.{PoeTally, observe_poe, publish_poe}
use unifi_reactor.Unifi.Outlets.{OutletTally, observe_outlets, publish_outlets}
use unifi_reactor.Unifi.Wan.{isp_from, wan_from}
use unifi_reactor.Unifi.Health.{merge_health, put_unless_empty}

abbrev pub no_wans : List WanEntry → Bool
no_wans [] = true
no_wans (w ∷ wans) = false

abbrev pub no_keys : Dict Text → Bool
no_keys [] = true
no_keys (e ∷ state) = false

module _ (f : Floats) where
  open f use {Float, of_count}

  -- The variables of the loop of `stateFromDevices`.
  pub record Scan : Type 0 where
    pub state : Dict Text
    pub gateway_seen : Bool
    pub wan_index : ℤ
    pub mbb_seen : Bool
    pub fleet : DeviceTally
    pub firmware : FirmwareTally
    pub heat : TemperatureTally f
    pub poe : PoeTally f
    pub outlets : OutletTally

  unfoldable pub new_scan : ClientConfig Float → Scan
  new_scan c = record {
    state = [];
    gateway_seen = false;
    wan_index = pos 0;
    mbb_seen = false;
    fleet = new_device_tally c.per_device_keys;
    firmware = record { reporting = 0; upgradable = 0 };
    heat = record { devices = 0; overheating = 0; hottest_reading = none };
    poe = record { switches = 0; worst = none };
    outlets = none;
  }

  -- The tallies, over an adopted device.
  unfoldable pub scan_fleet : DeviceRecord Float → Scan → Scan
  scan_fleet d s =
      if is_true d.adopted
      then record s {
        fleet = observe_state d.state d.name s.fleet;
        firmware = observe_firmware d.upgradable s.firmware;
        heat = observe_temperature f d s.heat;
        poe = observe_poe f d s.poe;
        outlets = observe_outlets d.outlet_table s.outlets;
      }
      else s

  -- The first gateway.
  unfoldable pub scan_gateway : DeviceRecord Float → Scan → Scan
  scan_gateway d s =
      let (wan, index) = wan_from d.wans d.uplink in
      if s.gateway_seen || no_wans d.wans then s else record s {
        gateway_seen = true;
        wan_index = index;
        state = insert state_key_isp (isp_from d.isp) (put_unless_empty state_key_wan wan s.state);
      }

  -- The first modem.
  unfoldable pub scan_modem : DeviceRecord Float → Scan → Scan
  scan_modem d s = elim d.mbb [
    | none ↦ s
    | some slots ↦ if s.mbb_seen then s else record s {
      mbb_seen = true;
      state = put_unless_empty state_key_data_usage (data_usage_from slots) s.state;
    }
  ]

  unfoldable pub ups_keys : ClientConfig Float → VbmsTable Float → Dict Text → Dict Text
  ups_keys c v state =
      put_unless_empty state_key_ups_load (load_level f c v.total_power_output v.total_power_budget)
        (put_unless_empty state_key_ups_runtime (runtime_level f c v.time_to_remain) (
          insert state_key_ups_battery (battery_level f c v.battery_level) (
            insert state_key_ups (if v.is_battery_mode then value_on_battery else value_online)
              state)))

  -- The first UPS.
  unfoldable pub scan_ups : ClientConfig Float → DeviceRecord Float → Scan → Scan
  unfolding ups_keys
  scan_ups c d s = elim d.vbms [
    | none ↦ s
    | some v ↦
        if is_some (lookup state_key_ups s.state)
        then s
        else record s { state = ups_keys c v s.state }
  ]

  -- The loop of `stateFromDevices`.
  unfoldable pub scan_devices : ClientConfig Float → List (DeviceRecord Float) → Scan → Scan
  scan_devices c [] s = s
  scan_devices c (d ∷ devices) s =
      scan_devices c devices (scan_ups c d (scan_modem d (scan_gateway d (scan_fleet d s))))

  -- The keys of the tallies.
  unfoldable pub publish : ClientConfig Float → Scan → Dict Text
  publish c s = publish_outlets s.outlets (
      publish_poe f c s.poe (
        publish_temperature f c s.heat
          (publish_firmware s.firmware (publish_devices s.fleet s.state))))

  -- `stateFromDevices`: the state and the index of the uplink. An empty state is its error.
  unfoldable pub state_from_devices :
      ClientConfig Float → List (DeviceRecord Float) → Option (Dict Text × ℤ)
  state_from_devices c devices =
      let s = scan_devices c devices (new_scan c) in
      let state = publish c s in if no_keys state then none else some (state, s.wan_index)

  -- `Observe`, on what the two endpoints answered, where `none` is an error.
  unfoldable pub observe_console :
      ClientConfig Float
      → Option (List (DeviceRecord Float))
      → Option (List (HealthSubsystem Float))
      → Option (Dict Text)
  observe_console c devices health =
      let from_devices : Option (Dict Text × ℤ) = elim devices [
        | none ↦ none
        | some ds ↦ state_from_devices c ds
      ] in
      let (state, index) = get_or ([], pos 0) from_devices in
      let merged : Dict Text = elim health [
        | none ↦ state
        | some subsystems ↦
            merge_health f c (get_or [] (lookup state_key_wan state)) index subsystems state
      ] in
      if no_keys merged then none else some merged
