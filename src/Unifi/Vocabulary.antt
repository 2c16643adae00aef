-- ===== src/Unifi/Vocabulary.antt =====
-- internal/providers/unifi/state.go: the keys and the values that the provider publishes.
use unifi_reactor.Base.{Bool, false, not, ◌&&◌, ◌||◌, List, [], ◌∷◌, none, some}
use unifi_reactor.Base.Text.{Text, codes, same, has_prefix}
use unifi_reactor.Base.Dict.{Dict, lookup}

abbrev pub state_key_wan : Text
state_key_wan = codes "wan"

abbrev pub state_key_wan_quality : Text
state_key_wan_quality = codes "wan.quality"

abbrev pub state_key_isp : Text
state_key_isp = codes "isp"

abbrev pub state_key_internet : Text
state_key_internet = codes "internet"

abbrev pub state_key_data_usage : Text
state_key_data_usage = codes "data.usage"

abbrev pub state_key_ups : Text
state_key_ups = codes "ups"

abbrev pub state_key_ups_battery : Text
state_key_ups_battery = codes "ups.battery"

abbrev pub state_key_ups_runtime : Text
state_key_ups_runtime = codes "ups.runtime"

abbrev pub state_key_ups_load : Text
state_key_ups_load = codes "ups.load"

abbrev pub state_key_devices : Text
state_key_devices = codes "devices"

abbrev pub state_key_firmware : Text
state_key_firmware = codes "firmware"

abbrev pub state_key_temperature : Text
state_key_temperature = codes "temperature"

abbrev pub state_key_wifi : Text
state_key_wifi = codes "wifi"

abbrev pub state_key_poe : Text
state_key_poe = codes "poe"

abbrev pub state_key_device_prefix : Text
state_key_device_prefix = codes "device."

abbrev pub state_key_outlet_prefix : Text
state_key_outlet_prefix = codes "outlet."

-- The values. Those that are spelled alike for several keys are one name here: `ok`, `warning`,
-- `error`, `degraded`, `normal`, `high` and `critical`.
abbrev pub value_primary : Text
value_primary = codes "primary"

abbrev pub value_backup : Text
value_backup = codes "backup"

abbrev pub value_good : Text
value_good = codes "good"

abbrev pub value_degraded : Text
value_degraded = codes "degraded"

abbrev pub value_ok : Text
value_ok = codes "ok"

abbrev pub value_down : Text
value_down = codes "down"

abbrev pub value_warning : Text
value_warning = codes "warning"

abbrev pub value_error : Text
value_error = codes "error"

abbrev pub value_under : Text
value_under = codes "under"

abbrev pub value_over : Text
value_over = codes "over"

abbrev pub value_online : Text
value_online = codes "online"

abbrev pub value_offline : Text
value_offline = codes "offline"

abbrev pub value_on_battery : Text
value_on_battery = codes "on-battery"

abbrev pub value_normal : Text
value_normal = codes "normal"

abbrev pub value_low : Text
value_low = codes "low"

abbrev pub value_critical : Text
value_critical = codes "critical"

abbrev pub value_ample : Text
value_ample = codes "ample"

abbrev pub value_short : Text
value_short = codes "short"

abbrev pub value_high : Text
value_high = codes "high"

abbrev pub value_all_online : Text
value_all_online = codes "all-online"

abbrev pub value_current : Text
value_current = codes "current"

abbrev pub value_updates_available : Text
value_updates_available = codes "updates-available"

abbrev pub value_insufficient : Text
value_insufficient = codes "insufficient"

abbrev pub value_on : Text
value_on = codes "on"

abbrev pub value_off : Text
value_off = codes "off"

abbrev pub isp_unknown : Text
isp_unknown = codes "unknown"

-- `StateVocabulary`
abbrev pub state_vocabulary : Dict (List Text)
state_vocabulary =
    (state_key_wan, value_primary ∷ value_backup ∷ [])
    ∷ (state_key_wan_quality, value_good ∷ value_degraded ∷ [])
    ∷ (state_key_internet, value_ok ∷ value_degraded ∷ value_down ∷ [])
    ∷ (state_key_data_usage, value_under ∷ value_warning ∷ value_over ∷ [])
    ∷ (state_key_ups, value_online ∷ value_on_battery ∷ [])
    ∷ (state_key_ups_battery, value_normal ∷ value_low ∷ value_critical ∷ [])
    ∷ (state_key_ups_runtime, value_ample ∷ value_short ∷ value_critical ∷ [])
    ∷ (state_key_ups_load, value_normal ∷ value_high ∷ [])
    ∷ (state_key_devices, value_all_online ∷ value_degraded ∷ [])
    ∷ (state_key_firmware, value_current ∷ value_updates_available ∷ [])
    ∷ (state_key_temperature, value_normal ∷ value_high ∷ [])
    ∷ (state_key_wifi, value_ok ∷ value_warning ∷ value_error ∷ [])
    ∷ (state_key_poe, value_ok ∷ value_insufficient ∷ [])
    ∷ []

unfoldable pub contains_text : List Text → Text → Bool
contains_text [] t = false
contains_text (s ∷ ts) t = same s t || contains_text ts t

-- What the vocabulary allows to be published: a value of a key that it lists, a carrier's name, or the
-- state of a device or an outlet.
unfoldable pub legal : Text → Text → Bool
unfolding contains_text
legal key value = elim (lookup key state_vocabulary) [
  | some values ↦ contains_text values value
  | none ↦
      (same key state_key_isp && not (same value []))
      || (has_prefix key state_key_device_prefix
          && contains_text (value_online ∷ value_offline ∷ []) value)
      || (has_prefix key state_key_outlet_prefix && contains_text (value_on ∷ value_off ∷ []) value)
]
