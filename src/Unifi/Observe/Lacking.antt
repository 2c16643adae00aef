-- ===== src/Unifi/Observe/Lacking.antt =====
-- A key that the loop over the devices does not write is not in what it gathers.
use unifi_reactor.Base.{
  ◌||◌, List, [], ◌∷◌, none, if◌then◌else◌, ◌≡◌, inl, inr, refl, ◌∙◌, Bool-cases, Option-cases,
}
use unifi_reactor.Base.Text.{Text, same}
use unifi_reactor.Base.Int.{ℤ}
use unifi_reactor.Base.Dict.{Dict, lookup, is_some}
use unifi_reactor.Unifi.Vocabulary.{
  state_key_data_usage, state_key_internet, state_key_isp, state_key_ups, state_key_ups_battery,
  state_key_ups_load, state_key_ups_runtime, state_key_wan, state_key_wan_quality, state_key_wifi,
}
use unifi_reactor.Unifi.Device.{ClientConfig, DeviceRecord, Floats, HealthSubsystem, VbmsTable}
use unifi_reactor.Unifi.Levels.{data_usage_from}
use unifi_reactor.Unifi.Fleet.{is_true}
use unifi_reactor.Unifi.Wan.{isp_from, wan_from}
use unifi_reactor.Unifi.Health.{
  internet_from, merge_health, merge_subsystem, put_unless_empty, quality_of, subsystem_wan,
  subsystem_wlan, subsystem_www, wifi_from,
}
use unifi_reactor.Unifi.Observe.Apart.{
  HasNone, IsApart, insert-apart, put_unless_empty-apart, observe_state-apart,
  observe_outlets-apart,
}
use unifi_reactor.Unifi.Observe.{
  Scan, no_wans, scan_devices, scan_fleet, scan_gateway, scan_modem, scan_ups, ups_keys,
}

module _ (f : Floats) (key : Text) (apart : IsApart key) where
  open f use {Float}

  merge_subsystem-apart :
      (c : ClientConfig Float) (wan : Text) (index : ℤ) (h : HealthSubsystem Float)
      (state : Dict Text)
      → lookup key (merge_subsystem f c wan index h state) ≡ lookup key state
  unfolding merge_subsystem
  merge_subsystem-apart c wan index h state = elim (Bool-cases (same h.subsystem subsystem_www)) [
    | inl e ↦
        rw (merge_subsystem, e, if◌then◌else◌)
          (put_unless_empty-apart key state_key_internet (internet_from h.status) state
            apart.internet)
    | inr e ↦ elim (Bool-cases (same h.subsystem subsystem_wlan)) [
      | inl k ↦
          rw (merge_subsystem, e, k, if◌then◌else◌)
            (put_unless_empty-apart key state_key_wifi (wifi_from h.num_adopted h.num_disconnected)
              state apart.wifi)
      | inr k ↦ elim (Bool-cases (same h.subsystem subsystem_wan)) [
        | inl w ↦
            rw (merge_subsystem, e, k, w, if◌then◌else◌)
              (put_unless_empty-apart key state_key_wan_quality (quality_of f c wan index h) state
                apart.wan_quality)
        | inr w ↦ rw (merge_subsystem, e, k, w, if◌then◌else◌) refl
      ]
    ]
  ]

  pub merge_health-apart :
      (c : ClientConfig Float) (wan : Text) (index : ℤ) (hs : List (HealthSubsystem Float))
      (state : Dict Text)
      → lookup key (merge_health f c wan index hs state) ≡ lookup key state
  unfolding merge_health
  merge_health-apart c wan index [] state = refl
  merge_health-apart c wan index (h ∷ hs) state =
      merge_health-apart c wan index hs (merge_subsystem f c wan index h state)
      ∙ merge_subsystem-apart c wan index h state

  -- What the loop has gathered has no such key.
  abbrev pub Lacks : Scan f → Type 0
  Lacks s =
      (lookup key s.state ≡ none)
      × (lookup key s.fleet.per_device ≡ none)
      × HasNone key apart s.outlets

  scan_fleet-Lacks : (d : DeviceRecord Float) (s : Scan f) → Lacks s → Lacks (scan_fleet f d s)
  unfolding scan_fleet
  scan_fleet-Lacks d s h = elim (Bool-cases (is_true d.adopted)) [
    | inl e ↦
        rw (scan_fleet, e, if◌then◌else◌)
          (
            h.0,
            observe_state-apart key apart d.state d.name s.fleet h.1,
            observe_outlets-apart key apart d.outlet_table s.outlets h.2,
          )
    | inr e ↦ rw (scan_fleet, e, if◌then◌else◌) h
  ]

  scan_gateway-Lacks : (d : DeviceRecord Float) (s : Scan f) → Lacks s → Lacks (scan_gateway f d s)
  unfolding scan_gateway
  scan_gateway-Lacks d s h = elim (Bool-cases (s.gateway_seen || no_wans d.wans)) [
    | inl e ↦ rw (scan_gateway, e, if◌then◌else◌) h
    | inr e ↦
        rw (scan_gateway, e, if◌then◌else◌)
          (
            insert-apart key state_key_isp (isp_from d.isp)
                  (put_unless_empty state_key_wan (wan_from d.wans d.uplink).0 s.state) apart.isp
                ∙ put_unless_empty-apart key state_key_wan (wan_from d.wans d.uplink).0 s.state
                    apart.wan
                ∙ h.0,
            h.1,
            h.2,
          )
  ]

  scan_modem-Lacks : (d : DeviceRecord Float) (s : Scan f) → Lacks s → Lacks (scan_modem f d s)
  unfolding scan_modem
  scan_modem-Lacks d s h = elim (Option-cases d.mbb) [
    | inl e ↦ rw (scan_modem, e) h
    | inr (slots, e) ↦ elim (Bool-cases s.mbb_seen) [
      | inl k ↦ rw (scan_modem, e, k, if◌then◌else◌) h
      | inr k ↦
          rw (scan_modem, e, k, if◌then◌else◌)
            (
              put_unless_empty-apart key state_key_data_usage (data_usage_from slots) s.state
                    apart.data_usage
                  ∙ h.0,
              h.1,
              h.2,
            )
    ]
  ]

  ups_keys-apart :
      (c : ClientConfig Float) (v : VbmsTable Float) (state : Dict Text)
      → lookup key (ups_keys f c v state) ≡ lookup key state
  unfolding ups_keys
  ups_keys-apart c v state =
      put_unless_empty-apart key state_key_ups_load _ _ apart.ups_load
      ∙ put_unless_empty-apart key state_key_ups_runtime _ _ apart.ups_runtime
      ∙ insert-apart key state_key_ups_battery _ _ apart.ups_battery
      ∙ insert-apart key state_key_ups _ state apart.ups

  scan_ups-Lacks :
      (c : ClientConfig Float) (d : DeviceRecord Float) (s : Scan f)
      → Lacks s
      → Lacks (scan_ups f c d s)
  unfolding scan_ups
  scan_ups-Lacks c d s h = elim (Option-cases d.vbms) [
    | inl e ↦ rw (scan_ups, e) h
    | inr (v, e) ↦ elim (Bool-cases (is_some (lookup state_key_ups s.state))) [
      | inl k ↦ rw (scan_ups, e, k, if◌then◌else◌) h
      | inr k ↦ rw (scan_ups, e, k, if◌then◌else◌) (ups_keys-apart c v s.state ∙ h.0, h.1, h.2)
    ]
  ]

  pub scan_devices-Lacks :
      (c : ClientConfig Float) (ds : List (DeviceRecord Float)) (s : Scan f)
      → Lacks s
      → Lacks (scan_devices f c ds s)
  unfolding scan_devices
  scan_devices-Lacks c [] s h = h
  scan_devices-Lacks c (d ∷ ds) s h = scan_devices-Lacks c ds _ (
      scan_ups-Lacks c d _ (scan_modem-Lacks d _ (scan_gateway-Lacks d _ (scan_fleet-Lacks d s h))))
