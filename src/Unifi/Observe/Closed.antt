-- ===== src/Unifi/Observe/Closed.antt =====
-- Every key that is published is one that the vocabulary allows, with a value that it allows.
use unifi_reactor.Base.{
  Bool, true, false, List, [], ◌∷◌, ◌++◌, Option, none, some, if◌then◌else◌, ◌≡◌, ◌⊎◌, inl, inr,
  refl, sym, subst, arith, Bool-cases, Option-cases, ◌==◌, ltb,
}
use unifi_reactor.Base.Text.{Text, same, same→eq, has_prefix}
use unifi_reactor.Base.Int.{ℤ, pos, same_ℤ}
use unifi_reactor.Base.Dict.{Dict, lookup, insert}
use unifi_reactor.Unifi.Vocabulary.{
  contains_text, legal, state_key_device_prefix, state_key_devices, state_key_firmware,
  state_key_outlet_prefix, value_all_online, value_current, value_degraded, value_off,
  value_offline, value_on, value_online, value_updates_available, state_key_temperature, value_high,
  value_normal, state_key_poe, value_insufficient, value_ok,
}
use unifi_reactor.Unifi.Slug.{slugify}
use unifi_reactor.Unifi.Device.{ClientConfig, Floats, OutletRecord}
use unifi_reactor.Unifi.Fleet.{
  DeviceTally, FirmwareTally, TemperatureTally, count_device, device_value, observe_state,
  publish_devices, publish_firmware, publish_temperature, publish_values, put_value,
}
use unifi_reactor.Unifi.Draw.{PoeTally, publish_poe}
use unifi_reactor.Unifi.Outlets.{
  OutletTally, observe_outlets, outlet_suffix, publish_outlets, put_outlet, put_outlets,
}
use unifi_reactor.Unifi.Health.{put_unless_empty}

-- Every entry is allowed.
abbrev pub IsLegal : Dict Text → Type 0
IsLegal [] = Unit
IsLegal ((key, value) ∷ state) = (legal key value ≡ true) × IsLegal state

pub insert-IsLegal :
    (key value : Text) (state : Dict Text)
    → legal key value ≡ true
    → IsLegal state
    → IsLegal (insert key value state)
unfolding insert
insert-IsLegal key value [] h k = (h, tt)
insert-IsLegal key value ((j, w) ∷ state) h k = elim (Bool-cases (same j key)) [
  | inl e ↦ rw (e, if◌then◌else◌) (subst (λ t. legal t value ≡ true) (sym (same→eq j key e)) h, k.1)
  | inr e ↦ rw (e, if◌then◌else◌) (k.0, insert-IsLegal key value state h k.1)
]

-- A choice between two allowed values.
pub insert_if-IsLegal :
    (b : Bool) (key v w : Text) (state : Dict Text)
    → legal key v ≡ true
    → legal key w ≡ true
    → IsLegal state
    → IsLegal (insert key (if b then v else w) state)
insert_if-IsLegal true key v w state h k s = insert-IsLegal key v state h s
insert_if-IsLegal false key v w state h k s = insert-IsLegal key w state k s

pub put_unless_empty-IsLegal :
    (key value : Text) (state : Dict Text)
    → (value ≡ []) ⊎ (legal key value ≡ true)
    → IsLegal state
    → IsLegal (put_unless_empty key value state)
unfolding put_unless_empty
put_unless_empty-IsLegal key [] state h s = s
put_unless_empty-IsLegal key (c ∷ value) state (inl e) s = ground arith
put_unless_empty-IsLegal key (c ∷ value) state (inr h) s = insert-IsLegal key (c ∷ value) state h s

publish_values-IsLegal :
    (shared : List Text) (values state : Dict Text)
    → IsLegal values
    → IsLegal state
    → IsLegal (publish_values shared values state)
unfolding publish_values
publish_values-IsLegal shared [] state h s = s
publish_values-IsLegal shared ((key, value) ∷ values) state h s =
    elim (Bool-cases (contains_text shared key)) [
      | inl e ↦ rw (e, if◌then◌else◌) (publish_values-IsLegal shared values state h.1 s)
      | inr e ↦
          rw (e, if◌then◌else◌)
            (publish_values-IsLegal shared values _ h.1 (insert-IsLegal key value state h.0 s))
    ]

legal_device :
    (slug value : Text)
    → contains_text (value_online ∷ value_offline ∷ []) value ≡ true
    → legal (state_key_device_prefix ++ slug) value ≡ true
unfolding legal lookup same has_prefix
legal_device slug value h = ground (arith, h)

legal_outlet :
    (suffix value : Text)
    → contains_text (value_on ∷ value_off ∷ []) value ≡ true
    → legal (state_key_outlet_prefix ++ suffix) value ≡ true
unfolding legal lookup same has_prefix
legal_outlet suffix value h = ground (arith, h)

-- The values after one device is counted.
counted_device-IsLegal :
    (slug value : Text) (values : Dict Text)
    → contains_text (value_online ∷ value_offline ∷ []) value ≡ true
    → IsLegal values
    → IsLegal (
        if (elim slug as (λ s. Bool) [ [] ↦ true | r ∷ s ↦ false ])
        then values
        else insert (state_key_device_prefix ++ slug) value values)
counted_device-IsLegal [] value values k h = h
counted_device-IsLegal (r ∷ s) value values k h =
    insert-IsLegal (state_key_device_prefix ++ (r ∷ s)) value values (legal_device (r ∷ s) value k)
      h

-- An optional value that is one of two.
abbrev IsKnown : Option Text → Type 0
IsKnown none = Unit
IsKnown (some v) = contains_text (value_online ∷ value_offline ∷ []) v ≡ true

device_value-IsKnown : (n : ℤ) → IsKnown (device_value n)
unfolding device_value contains_text same
device_value-IsKnown n = elim (Bool-cases (same_ℤ n (pos 1))) [
  | inl x ↦ rw (device_value, x, if◌then◌else◌) refl
  | inr x ↦ elim (Bool-cases (same_ℤ n (pos 0))) [
    | inl y ↦ rw (device_value, x, y, if◌then◌else◌) refl
    | inr y ↦ rw (device_value, x, y, if◌then◌else◌) tt
  ]
]

pub observe_state-IsLegal :
    (state : Option ℤ) (name : Text) (t : DeviceTally)
    → IsLegal t.per_device
    → IsLegal (observe_state state name t).per_device
unfolding observe_state count_device put_value
observe_state-IsLegal none name t h = h
observe_state-IsLegal (some n) name t h = elim (Option-cases (device_value n)) [
  | inl e ↦ rw (observe_state, e) h
  | inr (v, e) ↦
      let known = subst IsKnown e (device_value-IsKnown n) in
      rw (observe_state, e) (counted_device-IsLegal (slugify name) v t.per_device known h)
]

pub publish_devices-IsLegal :
    (t : DeviceTally) (state : Dict Text)
    → IsLegal t.per_device
    → IsLegal state
    → IsLegal (publish_devices t state)
unfolding publish_devices legal lookup same contains_text
publish_devices-IsLegal t state h s =
    let fleet : Dict Text =
      insert state_key_devices (if ltb 0 t.offline then value_degraded else value_all_online)
        state in
    let fleet_legal : IsLegal fleet =
      insert_if-IsLegal (ltb 0 t.offline) state_key_devices value_degraded value_all_online state
        refl refl s in
    elim (Bool-cases (t.counted == 0)) [
      | inl e ↦ rw (publish_devices, e, if◌then◌else◌) s
      | inr e ↦ elim (Bool-cases t.per_device_keys) [
        | inl k ↦
            rw (publish_devices, e, k, if◌then◌else◌)
              (publish_values-IsLegal t.shared t.per_device fleet h fleet_legal)
        | inr k ↦ rw (publish_devices, e, k, if◌then◌else◌) fleet_legal
      ]
    ]

pub publish_firmware-IsLegal :
    (t : FirmwareTally) (state : Dict Text) → IsLegal state → IsLegal (publish_firmware t state)
unfolding publish_firmware legal lookup same contains_text
publish_firmware-IsLegal t state s = elim (Bool-cases (t.reporting == 0)) [
  | inl e ↦ rw (publish_firmware, e, if◌then◌else◌) s
  | inr e ↦
      rw (publish_firmware, e, if◌then◌else◌)
        (insert_if-IsLegal (ltb 0 t.upgradable) state_key_firmware value_updates_available
          value_current state refl refl s)
]

put_outlet-IsLegal :
    (o : OutletRecord) (acc : Dict Text × List Text) → IsLegal acc.0 → IsLegal (put_outlet o acc).0
unfolding put_outlet put_value contains_text same
put_outlet-IsLegal o acc h = elim (Option-cases (outlet_suffix o.index o.name)) [
  | inl e ↦ rw (put_outlet, e) h
  | inr (suffix, e) ↦ elim (Option-cases o.relay_state) [
    | inl k ↦ rw (put_outlet, e, k) h
    | inr (closed, k) ↦
        rw (put_outlet, e, k)
          (insert_if-IsLegal closed (state_key_outlet_prefix ++ suffix) value_on value_off acc.0
            (legal_outlet suffix value_on refl) (legal_outlet suffix value_off refl) h)
  ]
]

put_outlets-IsLegal :
    (outlets : List OutletRecord) (acc : Dict Text × List Text)
    → IsLegal acc.0
    → IsLegal (put_outlets outlets acc).0
unfolding put_outlets
put_outlets-IsLegal [] acc h = h
put_outlets-IsLegal (o ∷ outlets) acc h =
    put_outlets-IsLegal outlets (put_outlet o acc) (put_outlet-IsLegal o acc h)

-- The values of the outlets, once a device with outlets is taken.
abbrev pub AreLegal : OutletTally → Type 0
AreLegal none = Unit
AreLegal (some (values, shared)) = IsLegal values

pub observe_outlets-AreLegal :
    (outlets : List OutletRecord) (t : OutletTally)
    → AreLegal t
    → AreLegal (observe_outlets outlets t)
unfolding observe_outlets
observe_outlets-AreLegal outlets (some acc) h = h
observe_outlets-AreLegal [] none h = tt
observe_outlets-AreLegal (o ∷ outlets) none h = put_outlets-IsLegal (o ∷ outlets) ([], []) tt

pub publish_outlets-IsLegal :
    (t : OutletTally) (state : Dict Text)
    → AreLegal t
    → IsLegal state
    → IsLegal (publish_outlets t state)
unfolding publish_outlets
publish_outlets-IsLegal none state h s = s
publish_outlets-IsLegal (some (values, shared)) state h s =
    publish_values-IsLegal shared values state h s

module _ (f : Floats) where
  pub publish_temperature-IsLegal :
      (c : ClientConfig f.Float) (t : TemperatureTally f) (state : Dict Text)
      → IsLegal state
      → IsLegal (publish_temperature f c t state)
  unfolding publish_temperature legal lookup same contains_text
  publish_temperature-IsLegal c t state s = elim (Bool-cases (t.devices == 0)) [
    | inl e ↦ rw (publish_temperature, e, if◌then◌else◌) s
    | inr e ↦
        rw (publish_temperature, e, if◌then◌else◌)
          (insert_if-IsLegal _ state_key_temperature value_high value_normal state refl refl s)
  ]

  pub publish_poe-IsLegal :
      (c : ClientConfig f.Float) (t : PoeTally f) (state : Dict Text)
      → IsLegal state
      → IsLegal (publish_poe f c t state)
  unfolding publish_poe legal lookup same contains_text
  publish_poe-IsLegal c t state s = elim (Bool-cases (t.switches == 0)) [
    | inl e ↦ rw (publish_poe, e, if◌then◌else◌) s
    | inr e ↦
        rw (publish_poe, e, if◌then◌else◌)
          (insert_if-IsLegal _ state_key_poe value_insufficient value_ok state refl refl s)
  ]
