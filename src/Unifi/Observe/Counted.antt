-- ===== src/Unifi/Observe/Counted.antt =====
-- The counts of the tallies, against the devices themselves.
use unifi_reactor.Base.{
  zero, suc, true, false, ◌||◌, List, [], ◌∷◌, none, some, ◌≡◌, ◌⊎◌, inl, inr, refl, arith,
  Option-cases, ltb,
}
use unifi_reactor.Base.Text.{Text}
use unifi_reactor.Base.Int.{ℤ, pos, negsuc, same_ℤ}
use unifi_reactor.Unifi.Vocabulary.{value_offline, value_online}
use unifi_reactor.Unifi.Device.{DeviceRecord, Floats}
use unifi_reactor.Unifi.Fleet.{
  DeviceTally, FirmwareTally, count_device, device_value, observe_firmware, observe_state,
  put_value,
}
use unifi_reactor.Unifi.Observe.Tallied.{
  any_device, has_state, has_upgrade, observe_device, observe_fleet, observe_upgrade,
  observe_upgrades, reports_upgrade,
}

-- The translated states, by the number.
device_value-cases :
    (n : ℤ)
    → ((same_ℤ n (pos 0) ≡ true) × (device_value n ≡ some value_offline))
      ⊎ ((same_ℤ n (pos 0) ≡ false)
          × (same_ℤ n (pos 1) ≡ true)
          × (device_value n ≡ some value_online))
      ⊎ ((same_ℤ n (pos 0) ≡ false) × (same_ℤ n (pos 1) ≡ false) × (device_value n ≡ none))
unfolding device_value same_ℤ
device_value-cases (pos zero) = inl (refl, refl)
device_value-cases (pos (suc zero)) = inr (inl (refl, refl, refl))
device_value-cases (pos (suc (suc n))) = inr (inr (ground arith, ground arith, ground arith))
device_value-cases (negsuc n) = inr (inr (refl, refl, refl))

-- What one state adds to the counts.
counted-observe_state :
    (n : ℤ) (name : Text) (t : DeviceTally)
    → (ltb 0 (observe_state (some n) name t).counted
        ≡ (ltb 0 t.counted || (same_ℤ n (pos 0) || same_ℤ n (pos 1))))
      × (ltb 0 (observe_state (some n) name t).offline ≡ (ltb 0 t.offline || same_ℤ n (pos 0)))
unfolding observe_state count_device put_value
counted-observe_state n name t = elim (device_value-cases n) [
  | inl h ↦ rw (observe_state, h.1) (ground (arith, h.0))
  | inr (inl h) ↦ rw (observe_state, h.2) (ground (arith, h.0, h.1))
  | inr (inr h) ↦ rw (observe_state, h.2) (ground (arith, h.0, h.1))
]

module _ (f : Floats) where
  open f use {Float}

  counted-observe_device :
      (d : DeviceRecord Float) (t : DeviceTally)
      → (ltb 0 (observe_device f d t).counted
          ≡ (ltb 0 t.counted || (has_state f 0 d || has_state f 1 d)))
        × (ltb 0 (observe_device f d t).offline ≡ (ltb 0 t.offline || has_state f 0 d))
  unfolding has_state observe_state
  counted-observe_device d t = elim (Option-cases d.state) [
    | inl e ↦ rw (e, has_state) (ground arith)
    | inr (n, e) ↦ rw (e, has_state) (ground (arith, counted-observe_state n d.name t))
  ]

  pub counted-observe_fleet :
      (ds : List (DeviceRecord Float)) (t : DeviceTally)
      → (ltb 0 (observe_fleet f ds t).counted ≡ (
          ltb 0 t.counted || (any_device f (has_state f 0) ds || any_device f (has_state f 1) ds)))
        × (ltb 0 (observe_fleet f ds t).offline
            ≡ (ltb 0 t.offline || any_device f (has_state f 0) ds))
  unfolding observe_fleet any_device
  counted-observe_fleet [] t = ground arith
  counted-observe_fleet (d ∷ ds) t =
      ground (arith, counted-observe_device d t, counted-observe_fleet ds (observe_device f d t))

  pub reporting-observe_upgrades :
      (ds : List (DeviceRecord Float)) (t : FirmwareTally)
      → (ltb 0 (observe_upgrades f ds t).reporting
          ≡ (ltb 0 t.reporting || any_device f (reports_upgrade f) ds))
        × (ltb 0 (observe_upgrades f ds t).upgradable
            ≡ (ltb 0 t.upgradable || any_device f (has_upgrade f) ds))
  unfolding observe_upgrades any_device observe_firmware reports_upgrade has_upgrade
  reporting-observe_upgrades [] t = ground arith
  reporting-observe_upgrades (d ∷ ds) t =
      ground
        (arith, Option-cases d.upgradable, reporting-observe_upgrades ds (observe_upgrade f d t))
