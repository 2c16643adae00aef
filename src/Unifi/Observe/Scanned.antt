-- ===== src/Unifi/Observe/Scanned.antt =====
-- The whole of `Observe` keeps to the vocabulary.
use unifi_reactor.Base.{
  true, ◌||◌, List, [], ◌∷◌, Option, none, some, if◌then◌else◌, ◌≡◌, inl, inr, refl, subst, arith,
  Bool-cases, Option-cases,
}
use unifi_reactor.Base.Text.{Text, same, same→eq}
use unifi_reactor.Base.Int.{ℤ, pos}
use unifi_reactor.Base.Dict.{Dict, lookup, is_some, get_or}
use unifi_reactor.Unifi.Vocabulary.{
  contains_text, legal, state_key_data_usage, state_key_internet, state_key_isp, state_key_ups,
  state_key_ups_battery, state_key_ups_load, state_key_ups_runtime, state_key_wan,
  state_key_wan_quality, state_key_wifi, value_on_battery, value_online,
}
use unifi_reactor.Unifi.Slug.{slugify}
use unifi_reactor.Unifi.Device.{ClientConfig, DeviceRecord, Floats, HealthSubsystem, VbmsTable}
use unifi_reactor.Unifi.Levels.{active_slots, battery_level, data_usage_from, runtime_level}
use unifi_reactor.Unifi.Fleet.{is_true}
use unifi_reactor.Unifi.Wan.{by_is_uplink, by_uplink_name, isp_from, wan_from}
use unifi_reactor.Unifi.Health.{
  internet_from, merge_health, merge_subsystem, quality_of, subsystem_wan, subsystem_wlan,
  subsystem_www, wifi_from,
}
use unifi_reactor.Unifi.Observe.Closed.{
  AreLegal, IsLegal, insert-IsLegal, insert_if-IsLegal, observe_outlets-AreLegal,
  observe_state-IsLegal, publish_devices-IsLegal, publish_firmware-IsLegal, publish_outlets-IsLegal,
  publish_poe-IsLegal, publish_temperature-IsLegal, put_unless_empty-IsLegal,
}
use unifi_reactor.Unifi.Observe.Fit.{
  battery_at-legal, choose_signal-IsFit, internet_from-IsFit, load_level-IsFit, only_usage-IsFit,
  or_unknown-legal, quality_of-IsFit, runtime_at-IsFit, wifi_from-IsFit,
}
use unifi_reactor.Unifi.Observe.{
  Scan, new_scan, no_keys, no_wans, observe_console, publish, scan_devices, scan_fleet,
  scan_gateway, scan_modem, scan_ups, state_from_devices, ups_keys,
}

module _ (f : Floats) where
  open f use {Float}

  merge_subsystem-IsLegal :
      (c : ClientConfig Float) (wan : Text) (index : ℤ) (h : HealthSubsystem Float)
      (state : Dict Text)
      → IsLegal state
      → IsLegal (merge_subsystem f c wan index h state)
  unfolding merge_subsystem
  merge_subsystem-IsLegal c wan index h state s =
      elim (Bool-cases (same h.subsystem subsystem_www)) [
        | inl e ↦
            rw (merge_subsystem, e, if◌then◌else◌)
              (put_unless_empty-IsLegal state_key_internet (internet_from h.status) state
                (internet_from-IsFit h.status) s)
        | inr e ↦ elim (Bool-cases (same h.subsystem subsystem_wlan)) [
          | inl k ↦
              rw (merge_subsystem, e, k, if◌then◌else◌)
                (put_unless_empty-IsLegal state_key_wifi
                  (wifi_from h.num_adopted h.num_disconnected) state
                  (wifi_from-IsFit h.num_adopted h.num_disconnected) s)
          | inr k ↦ elim (Bool-cases (same h.subsystem subsystem_wan)) [
            | inl w ↦
                rw (merge_subsystem, e, k, w, if◌then◌else◌)
                  (put_unless_empty-IsLegal state_key_wan_quality (quality_of f c wan index h) state
                    (quality_of-IsFit f c wan index h) s)
            | inr w ↦ rw (merge_subsystem, e, k, w, if◌then◌else◌) s
          ]
        ]
      ]

  merge_health-IsLegal :
      (c : ClientConfig Float) (wan : Text) (index : ℤ) (hs : List (HealthSubsystem Float))
      (state : Dict Text)
      → IsLegal state
      → IsLegal (merge_health f c wan index hs state)
  unfolding merge_health
  merge_health-IsLegal c wan index [] state s = s
  merge_health-IsLegal c wan index (h ∷ hs) state s =
      merge_health-IsLegal c wan index hs _ (merge_subsystem-IsLegal c wan index h state s)

  -- What the loop has gathered is allowed.
  abbrev IsSound : Scan f → Type 0
  IsSound s = IsLegal s.state × IsLegal s.fleet.per_device × AreLegal s.outlets

  scan_fleet-IsSound :
      (d : DeviceRecord Float) (s : Scan f) → IsSound s → IsSound (scan_fleet f d s)
  unfolding scan_fleet
  scan_fleet-IsSound d s h = elim (Bool-cases (is_true d.adopted)) [
    | inl e ↦
        rw (scan_fleet, e, if◌then◌else◌)
          (
            h.0,
            observe_state-IsLegal d.state d.name s.fleet h.1,
            observe_outlets-AreLegal d.outlet_table s.outlets h.2,
          )
    | inr e ↦ rw (scan_fleet, e, if◌then◌else◌) h
  ]

  scan_gateway-IsSound :
      (d : DeviceRecord Float) (s : Scan f) → IsSound s → IsSound (scan_gateway f d s)
  unfolding scan_gateway wan_from isp_from
  scan_gateway-IsSound d s h = elim (Bool-cases (s.gateway_seen || no_wans d.wans)) [
    | inl e ↦ rw (scan_gateway, e, if◌then◌else◌) h
    | inr e ↦
        rw (scan_gateway, e, if◌then◌else◌)
          (
            insert-IsLegal state_key_isp (isp_from d.isp) _ (or_unknown-legal (slugify d.isp)) (
                put_unless_empty-IsLegal state_key_wan (wan_from d.wans d.uplink).0 s.state
                  (choose_signal-IsFit (by_is_uplink d.wans) (by_uplink_name d.uplink d.wans)) h.0),
            h.1,
            h.2,
          )
  ]

  scan_modem-IsSound :
      (d : DeviceRecord Float) (s : Scan f) → IsSound s → IsSound (scan_modem f d s)
  unfolding scan_modem data_usage_from
  scan_modem-IsSound d s h = elim (Option-cases d.mbb) [
    | inl e ↦ rw (scan_modem, e) h
    | inr (slots, e) ↦ elim (Bool-cases s.mbb_seen) [
      | inl k ↦ rw (scan_modem, e, k, if◌then◌else◌) h
      | inr k ↦
          rw (scan_modem, e, k, if◌then◌else◌)
            (
              put_unless_empty-IsLegal state_key_data_usage (data_usage_from slots) s.state
                  (only_usage-IsFit (active_slots slots)) h.0,
              h.1,
              h.2,
            )
    ]
  ]

  ups_keys-IsLegal :
      (c : ClientConfig Float) (v : VbmsTable Float) (state : Dict Text)
      → IsLegal state
      → IsLegal (ups_keys f c v state)
  unfolding ups_keys battery_level runtime_level legal lookup same contains_text
  ups_keys-IsLegal c v state s =
      put_unless_empty-IsLegal state_key_ups_load _ _ (load_level-IsFit f c _ _) (
        put_unless_empty-IsLegal state_key_ups_runtime _ _ (runtime_at-IsFit _ _ _) (
          insert-IsLegal state_key_ups_battery _ _ (battery_at-legal _ _ _) (
            insert_if-IsLegal v.is_battery_mode state_key_ups value_on_battery value_online state
              refl refl s)))

  scan_ups-IsSound :
      (c : ClientConfig Float) (d : DeviceRecord Float) (s : Scan f)
      → IsSound s
      → IsSound (scan_ups f c d s)
  unfolding scan_ups
  scan_ups-IsSound c d s h = elim (Option-cases d.vbms) [
    | inl e ↦ rw (scan_ups, e) h
    | inr (v, e) ↦ elim (Bool-cases (is_some (lookup state_key_ups s.state))) [
      | inl k ↦ rw (scan_ups, e, k, if◌then◌else◌) h
      | inr k ↦ rw (scan_ups, e, k, if◌then◌else◌) (ups_keys-IsLegal c v s.state h.0, h.1, h.2)
    ]
  ]

  scan_devices-IsSound :
      (c : ClientConfig Float) (ds : List (DeviceRecord Float)) (s : Scan f)
      → IsSound s
      → IsSound (scan_devices f c ds s)
  unfolding scan_devices
  scan_devices-IsSound c [] s h = h
  scan_devices-IsSound c (d ∷ ds) s h = scan_devices-IsSound c ds _ (
      scan_ups-IsSound c d _
        (scan_modem-IsSound d _ (scan_gateway-IsSound d _ (scan_fleet-IsSound d s h))))

  publish-IsLegal : (c : ClientConfig Float) (s : Scan f) → IsSound s → IsLegal (publish f c s)
  unfolding publish
  publish-IsLegal c s h = publish_outlets-IsLegal s.outlets _ h.2 (
      publish_poe-IsLegal f c s.poe _ (
        publish_temperature-IsLegal f c s.heat _ (
          publish_firmware-IsLegal s.firmware _ (publish_devices-IsLegal s.fleet s.state h.1 h.0))))

  -- The state that the devices give, where there is one.
  abbrev IsLegalOrError : Option (Dict Text × ℤ) → Type 0
  IsLegalOrError none = Unit
  IsLegalOrError (some (state, index)) = IsLegal state

  state_from_devices-IsLegal :
      (c : ClientConfig Float) (ds : List (DeviceRecord Float))
      → IsLegalOrError (state_from_devices f c ds)
  unfolding state_from_devices new_scan
  state_from_devices-IsLegal c ds =
      let s : Scan f = scan_devices f c ds (new_scan f c) in
      elim (Bool-cases (no_keys (publish f c s))) [
        | inl e ↦ rw (state_from_devices, e, if◌then◌else◌) tt
        | inr e ↦
            rw (state_from_devices, e, if◌then◌else◌)
              (publish-IsLegal c s (scan_devices-IsSound c ds (new_scan f c) (tt, tt, tt)))
      ]

pub lookup-IsLegal :
    (key value : Text) (state : Dict Text)
    → IsLegal state
    → lookup key state ≡ some value
    → legal key value ≡ true
unfolding lookup
lookup-IsLegal key value [] h e = ground arith
lookup-IsLegal key value ((j, w) ∷ state) h e =
    ground (arith, same→eq j key, lookup-IsLegal key value state h.1)

module _ (f : Floats) where
  open f use {Float}

  state_or_empty-IsLegal :
      (from_devices : Option (Dict Text × ℤ))
      → IsLegalOrError f from_devices
      → IsLegal (get_or ([], pos 0) from_devices).0
  state_or_empty-IsLegal none h = tt
  state_or_empty-IsLegal (some x) h = h

  -- The state that is returned is the merged one.
  returned-IsLegal :
      (merged state : Dict Text)
      → (if no_keys merged then none else some merged) ≡ some state
      → IsLegal merged
      → IsLegal state
  returned-IsLegal [] state e h = ground arith
  returned-IsLegal (x ∷ merged) state e h = let k : (x ∷ merged) ≡ state = cc e in subst IsLegal k h

  pub observed-IsLegal :
      (c : ClientConfig Float) (devices : Option (List (DeviceRecord Float)))
      (health : Option (List (HealthSubsystem Float))) (state : Dict Text)
      → observe_console f c devices health ≡ some state
      → IsLegal state
  unfolding observe_console lookup
  observed-IsLegal c none none state e = returned-IsLegal [] state e tt
  observed-IsLegal c none (some hs) state e =
      returned-IsLegal _ state e (merge_health-IsLegal f c [] (pos 0) hs [] tt)
  observed-IsLegal c (some ds) none state e =
      returned-IsLegal _ state e (state_or_empty-IsLegal _ (state_from_devices-IsLegal f c ds))
  observed-IsLegal c (some ds) (some hs) state e = returned-IsLegal _ state e (
      merge_health-IsLegal f c _ _ hs _
        (state_or_empty-IsLegal _ (state_from_devices-IsLegal f c ds)))

  -- Whatever the devices and the health endpoint answer, each key of a state that `Observe` returns is
  -- one of the vocabulary, a carrier, a device or an outlet, with a value that the vocabulary gives it.
  pub observe_console-legal :
      (c : ClientConfig Float) (devices : Option (List (DeviceRecord Float)))
      (health : Option (List (HealthSubsystem Float))) (state : Dict Text) (key value : Text)
      → observe_console f c devices health ≡ some state
      → lookup key state ≡ some value
      → legal key value ≡ true
  observe_console-legal c devices health state key value e k =
      lookup-IsLegal key value state (observed-IsLegal c devices health state e) k
