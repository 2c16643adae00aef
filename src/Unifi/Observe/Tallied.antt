-- ===== src/Unifi/Observe/Tallied.antt =====
-- The tallies of the loop over the devices, and what they come to.
use unifi_reactor.Base.{
  ℕ, Bool, false, ◌&&◌, ◌||◌, List, [], ◌∷◌, Option, none, some, if◌then◌else◌, ◌≡◌, inl, inr, refl,
  ap, ◌∙◌, Bool-cases, Option-cases,
}
use unifi_reactor.Base.Text.{Text}
use unifi_reactor.Base.Int.{pos, same_ℤ}
use unifi_reactor.Base.Dict.{lookup, is_some}
use unifi_reactor.Unifi.Vocabulary.{
  state_key_ups, value_all_online, value_current, value_degraded, value_updates_available,
}
use unifi_reactor.Unifi.Device.{ClientConfig, DeviceRecord, Floats}
use unifi_reactor.Unifi.Fleet.{DeviceTally, FirmwareTally, is_true, observe_firmware, observe_state}
use unifi_reactor.Unifi.Observe.{
  Scan, no_wans, scan_devices, scan_fleet, scan_gateway, scan_modem, scan_ups,
}

module _ (f : Floats) where
  open f use {Float}

  -- One device's part in the tallies.
  abbrev pub observe_device : DeviceRecord Float → DeviceTally → DeviceTally
  observe_device d t = if is_true d.adopted then observe_state d.state d.name t else t

  abbrev pub observe_upgrade : DeviceRecord Float → FirmwareTally → FirmwareTally
  observe_upgrade d t = if is_true d.adopted then observe_firmware d.upgradable t else t

  fleet-scan_fleet :
      (d : DeviceRecord Float) (s : Scan f)
      → ((scan_fleet f d s).fleet ≡ observe_device d s.fleet)
        × ((scan_fleet f d s).firmware ≡ observe_upgrade d s.firmware)
  unfolding scan_fleet
  fleet-scan_fleet d s = elim (Bool-cases (is_true d.adopted)) [
    | inl e ↦ rw (scan_fleet, e, if◌then◌else◌) (refl, refl)
    | inr e ↦ rw (scan_fleet, e, if◌then◌else◌) (refl, refl)
  ]

  abbrev Keeps : Scan f → Scan f → Type 0
  Keeps s t = (t.fleet ≡ s.fleet) × (t.firmware ≡ s.firmware)

  fleet-scan_gateway : (d : DeviceRecord Float) (s : Scan f) → Keeps s (scan_gateway f d s)
  unfolding scan_gateway
  fleet-scan_gateway d s = elim (Bool-cases (s.gateway_seen || no_wans d.wans)) [
    | inl e ↦ rw (scan_gateway, e, if◌then◌else◌) (refl, refl)
    | inr e ↦ rw (scan_gateway, e, if◌then◌else◌) (refl, refl)
  ]

  fleet-scan_modem : (d : DeviceRecord Float) (s : Scan f) → Keeps s (scan_modem f d s)
  unfolding scan_modem
  fleet-scan_modem d s = elim (Option-cases d.mbb) [
    | inl e ↦ rw (scan_modem, e) (refl, refl)
    | inr (slots, e) ↦ elim (Bool-cases s.mbb_seen) [
      | inl k ↦ rw (scan_modem, e, k, if◌then◌else◌) (refl, refl)
      | inr k ↦ rw (scan_modem, e, k, if◌then◌else◌) (refl, refl)
    ]
  ]

  fleet-scan_ups :
      (c : ClientConfig Float) (d : DeviceRecord Float) (s : Scan f) → Keeps s (scan_ups f c d s)
  unfolding scan_ups
  fleet-scan_ups c d s = elim (Option-cases d.vbms) [
    | inl e ↦ rw (scan_ups, e) (refl, refl)
    | inr (v, e) ↦ elim (Bool-cases (is_some (lookup state_key_ups s.state))) [
      | inl k ↦ rw (scan_ups, e, k, if◌then◌else◌) (refl, refl)
      | inr k ↦ rw (scan_ups, e, k, if◌then◌else◌) (refl, refl)
    ]
  ]

  -- What the tallies come to.
  unfoldable pub observe_fleet : List (DeviceRecord Float) → DeviceTally → DeviceTally
  observe_fleet [] t = t
  observe_fleet (d ∷ ds) t = observe_fleet ds (observe_device d t)

  unfoldable pub observe_upgrades : List (DeviceRecord Float) → FirmwareTally → FirmwareTally
  observe_upgrades [] t = t
  observe_upgrades (d ∷ ds) t = observe_upgrades ds (observe_upgrade d t)

  pub fleet-scan_devices :
      (c : ClientConfig Float) (ds : List (DeviceRecord Float)) (s : Scan f)
      → ((scan_devices f c ds s).fleet ≡ observe_fleet ds s.fleet)
        × ((scan_devices f c ds s).firmware ≡ observe_upgrades ds s.firmware)
  unfolding scan_devices observe_fleet observe_upgrades
  fleet-scan_devices c [] s = (refl, refl)
  fleet-scan_devices c (d ∷ ds) s =
      let a = scan_fleet f d s in
      let b = scan_gateway f d a in
      let m = scan_modem f d b in
      let rest = fleet-scan_devices c ds (scan_ups f c d m) in
      let i = fleet-scan_fleet d s in
      let j = fleet-scan_gateway d a in
      let k = fleet-scan_modem d b in
      let l = fleet-scan_ups c d m in
      (
        rest.0 ∙ ap (observe_fleet ds) (l.0 ∙ k.0 ∙ j.0 ∙ i.0),
        rest.1 ∙ ap (observe_upgrades ds) (l.1 ∙ k.1 ∙ j.1 ∙ i.1),
      )

  -- An adopted device whose state is the number.
  unfoldable pub has_state : ℕ → DeviceRecord Float → Bool
  has_state n d = is_true d.adopted && (elim d.state [ none ↦ false | some m ↦ same_ℤ m (pos n) ])

  -- An adopted device that says whether it has an update.
  unfoldable pub reports_upgrade : DeviceRecord Float → Bool
  reports_upgrade d = is_true d.adopted && is_some d.upgradable

  unfoldable pub has_upgrade : DeviceRecord Float → Bool
  has_upgrade d = is_true d.adopted && is_true d.upgradable

  unfoldable pub any_device : (DeviceRecord Float → Bool) → List (DeviceRecord Float) → Bool
  any_device p [] = false
  any_device p (d ∷ ds) = p d || any_device p ds

  -- The value of `devices`: whether a device is offline, once one is in a state that is recognised.
  unfoldable pub fleet_value : List (DeviceRecord Float) → Option Text
  fleet_value ds =
      if any_device (has_state 0) ds || any_device (has_state 1) ds
      then some (if any_device (has_state 0) ds then value_degraded else value_all_online)
      else none

  -- The value of `firmware`.
  unfoldable pub firmware_value : List (DeviceRecord Float) → Option Text
  firmware_value ds =
      if any_device reports_upgrade ds
      then some (if any_device has_upgrade ds then value_updates_available else value_current)
      else none
