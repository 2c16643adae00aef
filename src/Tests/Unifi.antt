-- ===== src/Tests/Unifi.antt =====
-- The UniFi provider at concrete inputs, with natural numbers in place of the floats.
use unifi_reactor.Base.{
  ℕ, Bool, true, false, List, [], ◌∷◌, none, some, ◌≡◌, refl, ◌+◌, ◌*◌, ◌/◌, ltb, leb,
}
use unifi_reactor.Base.Text.{Text, codes, same}
use unifi_reactor.Base.Int.{pos, same_ℤ}
use unifi_reactor.Base.Dict.{Dict, delete, lookup, insert}
use unifi_reactor.Unifi.Vocabulary.{
  legal, state_key_devices, state_key_firmware, value_degraded, value_updates_available,
}
use unifi_reactor.Unifi.Device.{ClientConfig, DeviceRecord, Floats, HealthSubsystem}
use unifi_reactor.Unifi.Slug.{slugify, slug_loop}
use unifi_reactor.Unifi.Fleet.{
  count_device, device_value, hottest, hottest_sensor, instrumented, observe_firmware,
  observe_state, observe_temperature, publish_devices, publish_firmware, publish_temperature,
  publish_values, put_value,
}
use unifi_reactor.Unifi.Draw.{observe_poe, publish_poe, sum_ports, utilization}
use unifi_reactor.Unifi.Outlets.{observe_outlets, publish_outlets}
use unifi_reactor.Unifi.Health.{internet_from, merge_health, merge_subsystem, put_unless_empty}
use unifi_reactor.Unifi.Observe.{
  new_scan, observe_console, publish, scan_devices, scan_fleet, scan_gateway, scan_modem, scan_ups,
  state_from_devices,
}
use unifi_reactor.Engine.Store.{
  StateStore, get, observe, observe_key, observe_keys, observe_provider, report, vanish_keys,
}
use unifi_reactor.Controller.Poller.{poll, provider_name}
use unifi_reactor.Controller.Poller.Legal.{Answers, get-legal, poll_all}
use unifi_reactor.Unifi.Observe.Scanned.{observe_console-legal}
use unifi_reactor.Unifi.Observe.Tallied.{fleet_value}
use unifi_reactor.Unifi.Observe.Whole.{lookup-observe_console-fleet_value}

abbrev whole_numbers : Floats
whole_numbers = record {
  Float = ℕ;
  less = ltb;
  at_least = λ a b. leb b a;
  plus = λ a b. a + b;
  times = λ a b. a * b;
  over = λ a b. a / b;
  of_count = λ n. n;
}

abbrev thresholds : ClientConfig ℕ
thresholds = record {
  low_battery_percent = pos 30;
  critical_battery_percent = pos 10;
  short_runtime_seconds = pos 600;
  critical_runtime_seconds = pos 180;
  high_load_percent = 80;
  min_availability_percent = 99;
  max_latency_ms = 150;
  high_temperature_celsius = 75;
  max_poe_utilization_percent = 90;
  per_device_keys = false;
}

-- A switch that is adopted, in the state, with an update if so.
abbrev switch_in : ℕ → Bool → DeviceRecord ℕ
switch_in n upgradable = record {
  name = codes "sw";
  wans = [];
  uplink = none;
  isp = [];
  vbms = none;
  state = some (pos n);
  adopted = some true;
  upgradable = some upgradable;
  has_temperature = none;
  overheating = none;
  temperatures = [];
  general_temperature = none;
  total_max_power = none;
  port_table = [];
  outlet_table = [];
  mbb = none;
}

abbrev two_switches : List (DeviceRecord ℕ)
two_switches = switch_in 1 true ∷ switch_in 0 false ∷ []

abbrev internet_down : List (HealthSubsystem ℕ)
internet_down =
    record {
      subsystem = codes "www";
      status = codes "error";
      uptime_stats = [];
      num_adopted = none;
      num_disconnected = none;
    }
    ∷ []

abbrev two_switches_state : Dict Text
two_switches_state =
    (state_key_devices, value_degraded)
    ∷ (state_key_firmware, value_updates_available)
    ∷ (codes "internet", codes "down")
    ∷ []

two_switches_run :
    observe_console whole_numbers thresholds (some two_switches) (some internet_down)
    ≡ some two_switches_state
unfolding observe_console merge_health merge_subsystem same put_unless_empty internet_from insert
    state_from_devices publish publish_outlets publish_poe publish_temperature publish_firmware
    publish_devices scan_devices scan_ups scan_modem scan_gateway scan_fleet new_scan
    observe_outlets observe_poe utilization sum_ports observe_temperature instrumented hottest
    hottest_sensor observe_firmware observe_state count_device put_value slugify slug_loop
    device_value same_ℤ publish_values lookup
two_switches_run = refl

observe_console-legal_example : legal state_key_devices value_degraded ≡ true
unfolding lookup same
observe_console-legal_example =
    observe_console-legal whole_numbers thresholds (some two_switches) (some internet_down)
      two_switches_state state_key_devices value_degraded two_switches_run refl

lookup-observe_console-fleet_value_example :
    lookup state_key_devices two_switches_state ≡ fleet_value whole_numbers two_switches
lookup-observe_console-fleet_value_example =
    lookup-observe_console-fleet_value whole_numbers thresholds two_switches (some internet_down)
      two_switches_state two_switches_run

abbrev silent_console : Answers whole_numbers
silent_console = record { devices = none; health = none; now = pos 2 }

abbrev two_polls : List (Answers whole_numbers)
two_polls =
    record { devices = some two_switches; health = some internet_down; now = pos 1 }
    ∷ silent_console
    ∷ []

abbrev empty_store : StateStore
empty_store = record { current = []; debounce = []; stale_after = [] }

two_polls_run :
    get (poll_all whole_numbers thresholds two_polls empty_store) provider_name
    ≡ some (record { provider = provider_name; state = two_switches_state; observed_at = pos 1 })
unfolding poll_all poll get observe observe_provider observe_keys observe_key report vanish_keys
    delete observe_console merge_health merge_subsystem same put_unless_empty internet_from insert
    state_from_devices publish publish_outlets publish_poe publish_temperature publish_firmware
    publish_devices scan_devices scan_ups scan_modem scan_gateway scan_fleet new_scan
    observe_outlets observe_poe utilization sum_ports observe_temperature instrumented hottest
    hottest_sensor observe_firmware observe_state count_device put_value slugify slug_loop
    device_value same_ℤ publish_values lookup
two_polls_run = refl

get-legal_example : legal state_key_devices value_degraded ≡ true
unfolding lookup same
get-legal_example =
    get-legal whole_numbers thresholds two_polls empty_store
      (record { provider = provider_name; state = two_switches_state; observed_at = pos 1 })
      state_key_devices value_degraded refl two_polls_run refl
