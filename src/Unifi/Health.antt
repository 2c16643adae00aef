-- ===== src/Unifi/Health.antt =====
-- health.go and wifi.go: the keys that the health endpoint gives. The cross checks, which only report,
-- are left out.
use unifi_reactor.Base.{
  ℕ, Bool, false, ◌||◌, List, [], ◌∷◌, ◌++◌, Option, none, some, if◌then◌else◌, ◌==◌, ◌+◌,
}
use unifi_reactor.Base.Text.{Text, codes, same}
use unifi_reactor.Base.Int.{ℤ, pos, ltb_ℤ, same_ℤ}
use unifi_reactor.Base.Decimal.{format_int}
use unifi_reactor.Base.Dict.{Dict, lookup, insert}
use unifi_reactor.Unifi.Vocabulary.{
  state_key_internet, state_key_wan_quality, state_key_wifi, value_degraded, value_down,
  value_error, value_good, value_ok, value_warning,
}
use unifi_reactor.Unifi.Device.{ClientConfig, Floats, HealthMonitor, HealthSubsystem, UplinkHealth}
use unifi_reactor.Unifi.Levels.{float_or, leb_ℤ}
use unifi_reactor.Unifi.Wan.{wan_primary_index}

-- The statuses and subsystems of the console.
abbrev pub subsystem_www : Text
subsystem_www = codes "www"

abbrev pub subsystem_wan : Text
subsystem_wan = codes "wan"

abbrev pub subsystem_wlan : Text
subsystem_wlan = codes "wlan"

-- `internetFrom`
unfoldable pub internet_from : Text → Text
internet_from status =
    if same status (codes "ok")
    then value_ok
    else if same status (codes "warning")
    then value_degraded
    else if same status (codes "error")
    then value_down
    else []

-- `wifiFrom`
unfoldable pub wifi_from : Option ℤ → Option ℤ → Text
wifi_from none disconnected = []
wifi_from (some adopted) none = []
wifi_from (some adopted) (some disconnected) =
    if same_ℤ adopted (pos 0)
    then []
    else if leb_ℤ adopted disconnected
    then value_error
    else if ltb_ℤ (pos 0) disconnected
    then value_warning
    else value_ok

-- `uptimeStatsKey`
unfoldable pub uptime_stats_key : ℤ → Text
uptime_stats_key index =
    if same_ℤ index wan_primary_index then codes "WAN" else codes "WAN" ++ format_int index

-- A key that is published unless its value is empty.
unfoldable pub put_unless_empty : Text → Text → Dict Text → Dict Text
put_unless_empty key [] state = state
put_unless_empty key (c ∷ value) state = insert key (c ∷ value) state

module _ (f : Floats) where
  open f use {Float, less, of_count, over, plus}

  -- One list of the loop of `meanOf`, on the values of one field: the sum and the count.
  unfoldable pub add_readings : List (Option Float) → Float × ℕ → Float × ℕ
  add_readings [] acc = acc
  add_readings (none ∷ values) acc = add_readings values acc
  add_readings (some x ∷ values) (sum, count) = add_readings values (plus sum x, count + 1)

  -- `meanOf`
  unfoldable pub mean_of : List (Option Float) → Option Float
  mean_of values =
      let (sum, count) = add_readings values (of_count 0, 0) in
      if count == 0 then none else some (over sum (of_count count))

  availabilities : List (HealthMonitor Float) → List (Option Float)
  availabilities [] = []
  availabilities (m ∷ ms) = m.availability ∷ availabilities ms

  latencies : List (HealthMonitor Float) → List (Option Float)
  latencies [] = []
  latencies (m ∷ ms) = m.latency_average ∷ latencies ms

  -- `uplinkHealth.availability`
  unfoldable pub availability : UplinkHealth Float → Option Float
  unfolding availabilities
  availability u = elim u.availability [
    | some x ↦ some x
    | none ↦ mean_of (availabilities u.monitors ++ availabilities u.alerting_monitors)
  ]

  -- `uplinkHealth.latency`
  unfoldable pub latency : UplinkHealth Float → Option Float
  unfolding latencies
  latency u = elim u.latency_average [
    | some x ↦ some x
    | none ↦ mean_of (latencies u.monitors ++ latencies u.alerting_monitors)
  ]

  pub exceeds : Float → Option Float → Bool
  exceeds bound none = false
  exceeds bound (some x) = less bound x

  -- `wanQualityFrom`
  unfoldable pub wan_quality_from : ClientConfig Float → UplinkHealth Float → Text
  unfolding exceeds
  wan_quality_from c u = elim (availability u) [
    | none ↦ []
    | some x ↦
        if less x (float_or f (of_count 99) c.min_availability_percent)
          || exceeds (float_or f (of_count 150) c.max_latency_ms) (latency u)
        then value_degraded
        else value_good
  ]

  -- The case of the wan subsystem in `mergeHealth`.
  unfoldable pub quality_of : ClientConfig Float → Text → ℤ → HealthSubsystem Float → Text
  quality_of c wan index h = elim (lookup (uptime_stats_key index) h.uptime_stats) [
    | none ↦ []
    | some u ↦ if same wan [] || ltb_ℤ index wan_primary_index then [] else wan_quality_from c u
  ]

  -- The body of the loop of `mergeHealth`.
  unfoldable pub merge_subsystem :
      ClientConfig Float → Text → ℤ → HealthSubsystem Float → Dict Text → Dict Text
  unfolding quality_of
  merge_subsystem c wan index h state =
      if same h.subsystem subsystem_www
      then put_unless_empty state_key_internet (internet_from h.status) state
      else if same h.subsystem subsystem_wlan
      then put_unless_empty state_key_wifi (wifi_from h.num_adopted h.num_disconnected) state
      else if same h.subsystem subsystem_wan
      then put_unless_empty state_key_wan_quality (quality_of c wan index h) state
      else state

  -- `mergeHealth`
  unfoldable pub merge_health :
      ClientConfig Float → Text → ℤ → List (HealthSubsystem Float) → Dict Text → Dict Text
  merge_health c wan index [] state = state
  merge_health c wan index (h ∷ health) state =
      merge_health c wan index health (merge_subsystem c wan index h state)
