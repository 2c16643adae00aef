-- ===== src/Unifi/Observe/Apart.antt =====
-- A key that neither the loop over the devices nor the health endpoint writes keeps its value.
use unifi_reactor.Base.{
  false, List, [], ◌∷◌, ◌++◌, Option, none, some, if◌then◌else◌, ◌≡◌, inl, inr, refl, ◌∙◌, arith,
  Bool-cases, Option-cases,
}
use unifi_reactor.Base.Text.{Text, same}
use unifi_reactor.Base.Int.{ℤ, pos, same_ℤ}
use unifi_reactor.Base.Dict.{Dict, lookup, insert, lookup-insert}
use unifi_reactor.Unifi.Vocabulary.{
  contains_text, state_key_data_usage, state_key_device_prefix, state_key_internet, state_key_isp,
  state_key_outlet_prefix, state_key_ups, state_key_ups_battery, state_key_ups_load,
  state_key_ups_runtime, state_key_wan, state_key_wan_quality, state_key_wifi, value_off, value_on,
}
use unifi_reactor.Unifi.Slug.{slugify}
use unifi_reactor.Unifi.Device.{OutletRecord}
use unifi_reactor.Unifi.Fleet.{
  DeviceTally, count_device, device_value, observe_state, publish_values, put_value,
}
use unifi_reactor.Unifi.Outlets.{
  OutletTally, observe_outlets, outlet_suffix, put_outlet, put_outlets,
}
use unifi_reactor.Unifi.Health.{put_unless_empty}

pub insert-apart :
    (key j v : Text) (m : Dict Text) → same j key ≡ false → lookup key (insert j v m) ≡ lookup key m
insert-apart key j v m h = rw (lookup-insert j key v m, h, if◌then◌else◌) refl

pub put_unless_empty-apart :
    (key j v : Text) (m : Dict Text)
    → same j key ≡ false
    → lookup key (put_unless_empty j v m) ≡ lookup key m
unfolding put_unless_empty
put_unless_empty-apart key j [] m h = refl
put_unless_empty-apart key j (c ∷ v) m h = insert-apart key j (c ∷ v) m h

pub publish_values-apart :
    (key : Text) (shared : List Text) (values state : Dict Text)
    → lookup key values ≡ none
    → lookup key (publish_values shared values state) ≡ lookup key state
unfolding publish_values lookup
publish_values-apart key shared [] state h = refl
publish_values-apart key shared ((j, v) ∷ values) state h =
    elim (Bool-cases (contains_text shared j)) [
      | inl e ↦ rw (e, if◌then◌else◌) (publish_values-apart key shared values state (ground arith))
      | inr e ↦
          rw (e, if◌then◌else◌)
            (publish_values-apart key shared values (insert j v state) (ground arith)
              ∙ insert-apart key j v state (ground arith))
    ]

-- The key is none of those that the loop or the health endpoint writes.
pub record IsApart (key : Text) : Type 0 where
  pub device : (s : Text) → same (state_key_device_prefix ++ s) key ≡ false
  pub outlet : (s : Text) → same (state_key_outlet_prefix ++ s) key ≡ false
  pub wan : same state_key_wan key ≡ false
  pub wan_quality : same state_key_wan_quality key ≡ false
  pub isp : same state_key_isp key ≡ false
  pub internet : same state_key_internet key ≡ false
  pub data_usage : same state_key_data_usage key ≡ false
  pub ups : same state_key_ups key ≡ false
  pub ups_battery : same state_key_ups_battery key ≡ false
  pub ups_runtime : same state_key_ups_runtime key ≡ false
  pub ups_load : same state_key_ups_load key ≡ false
  pub wifi : same state_key_wifi key ≡ false

module _ (key : Text) (apart : IsApart key) where
  pub observe_state-apart :
      (state : Option ℤ) (name : Text) (t : DeviceTally)
      → lookup key t.per_device ≡ none
      → lookup key (observe_state state name t).per_device ≡ none
  unfolding observe_state count_device put_value
  observe_state-apart none name t h = h
  observe_state-apart (some n) name t h = elim (Option-cases (device_value n)) [
    | inl e ↦ rw (observe_state, e) h
    | inr (v, e) ↦ rw (observe_state, e) (named (slugify name) v)
  ]
    where
      named :
          (slug v : Text) → lookup key (count_device slug v (same_ℤ n (pos 0)) t).per_device ≡ none
      named [] v = h
      named (r ∷ slug) v =
          insert-apart key (state_key_device_prefix ++ (r ∷ slug)) v t.per_device
            (apart.device (r ∷ slug))
          ∙ h

  put_outlet-apart :
      (o : OutletRecord) (acc : Dict Text × List Text)
      → lookup key acc.0 ≡ none
      → lookup key (put_outlet o acc).0 ≡ none
  unfolding put_outlet put_value
  put_outlet-apart o acc h = elim (Option-cases (outlet_suffix o.index o.name)) [
    | inl e ↦ rw (put_outlet, e) h
    | inr (suffix, e) ↦ elim (Option-cases o.relay_state) [
      | inl k ↦ rw (put_outlet, e, k) h
      | inr (closed, k) ↦
          rw (put_outlet, e, k)
            (insert-apart key (state_key_outlet_prefix ++ suffix)
                (if closed then value_on else value_off) acc.0 (apart.outlet suffix)
              ∙ h)
    ]
  ]

  put_outlets-apart :
      (outlets : List OutletRecord) (acc : Dict Text × List Text)
      → lookup key acc.0 ≡ none
      → lookup key (put_outlets outlets acc).0 ≡ none
  unfolding put_outlets
  put_outlets-apart [] acc h = h
  put_outlets-apart (o ∷ outlets) acc h =
      put_outlets-apart outlets (put_outlet o acc) (put_outlet-apart o acc h)

  -- No outlet has the key.
  abbrev pub HasNone : OutletTally → Type 0
  HasNone none = Unit
  HasNone (some (values, shared)) = lookup key values ≡ none

  pub observe_outlets-apart :
      (outlets : List OutletRecord) (t : OutletTally)
      → HasNone t
      → HasNone (observe_outlets outlets t)
  unfolding observe_outlets lookup
  observe_outlets-apart outlets (some acc) h = h
  observe_outlets-apart [] none h = tt
  observe_outlets-apart (o ∷ outlets) none h = put_outlets-apart (o ∷ outlets) ([], []) refl
