-- ===== src/Unifi/Device.antt =====
-- internal/providers/unifi: the records that the console's two endpoints are decoded into, with the
-- fields that a state key is derived from. Those that only a log line reads are left out, and so is
-- the decoding itself.
use unifi_reactor.Base.{ℕ, Bool, List, Option}
use unifi_reactor.Base.Text.{Text}
use unifi_reactor.Base.Int.{ℤ}
use unifi_reactor.Base.Dict.{Dict}

-- The float64 arithmetic that the provider uses: `<`, `>=`, `+`, `*`, `/` and whole numbers.
pub record Floats : Type 1 where
  pub Float : Type 0
  pub less : Float → Float → Bool
  pub at_least : Float → Float → Bool
  pub plus : Float → Float → Float
  pub times : Float → Float → Float
  pub over : Float → Float → Float
  pub of_count : ℕ → Float

-- `wanEntry` and its `wanPort`
pub record WanEntry : Type 0 where
  pub index : ℤ
  pub is_uplink : Bool
  pub if_name : Text
  pub port_name : Text

pub record SimSlot : Type 0 where
  pub active : Bool
  pub card_present : Bool
  pub has_data_plan : Bool
  pub data_warning : Bool
  pub data_limited : Bool

pub record OutletRecord : Type 0 where
  pub index : Option ℤ
  pub name : Text
  pub relay_state : Option Bool

module _ (F : Type 0) where
  -- `vbmsTable`
  pub record VbmsTable : Type 0 where
    pub is_battery_mode : Bool
    pub battery_level : ℤ
    pub time_to_remain : ℤ
    pub total_power_output : Option F
    pub total_power_budget : Option F

  -- `poe_power` is `none` where the flexible number is not known.
  pub record DevicePort : Type 0 where
    pub poe_enable : Option Bool
    pub poe_power : Option F

  -- `deviceRecord`: `uplink` is the name in the uplink block, `mbb` the slots of the modem block.
  pub record DeviceRecord : Type 0 where
    pub name : Text
    pub wans : List WanEntry
    pub uplink : Option Text
    pub isp : Text
    pub vbms : Option VbmsTable
    pub state : Option ℤ
    pub adopted : Option Bool
    pub upgradable : Option Bool
    pub has_temperature : Option Bool
    pub overheating : Option Bool
    pub temperatures : List (Option F)
    pub general_temperature : Option F
    pub total_max_power : Option F
    pub port_table : List DevicePort
    pub outlet_table : List OutletRecord
    pub mbb : Option (List SimSlot)

  pub record HealthMonitor : Type 0 where
    pub availability : Option F
    pub latency_average : Option F

  -- `uplinkHealth`
  pub record UplinkHealth : Type 0 where
    pub availability : Option F
    pub latency_average : Option F
    pub monitors : List HealthMonitor
    pub alerting_monitors : List HealthMonitor

  pub record HealthSubsystem : Type 0 where
    pub subsystem : Text
    pub status : Text
    pub uptime_stats : Dict UplinkHealth
    pub num_adopted : Option ℤ
    pub num_disconnected : Option ℤ

  -- The thresholds of `Client`, and what `PerDeviceKeys` says.
  pub record ClientConfig : Type 0 where
    pub low_battery_percent : ℤ
    pub critical_battery_percent : ℤ
    pub short_runtime_seconds : ℤ
    pub critical_runtime_seconds : ℤ
    pub high_load_percent : F
    pub min_availability_percent : F
    pub max_latency_ms : F
    pub high_temperature_celsius : F
    pub max_poe_utilization_percent : F
    pub per_device_keys : Bool
