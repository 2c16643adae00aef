-- ===== src/Engine/Store/Key.antt =====
-- What the store holds of one key, and how one observation moves it: the specification that the
-- loops of `Observe` are measured against.
use unifi_reactor.Base.{◌&&◌, Option, none, some, if◌then◌else◌, ◌≡◌, arith}
use unifi_reactor.Base.Text.{Text, same}
use unifi_reactor.Base.Int.{ℤ, pos, ltb_ℤ}
use unifi_reactor.Base.Dict.{lookup, get_or}
use unifi_reactor.Engine.Store.{Candidate, ProviderState, StateStore, prove, unproven, unseen}

pub record KeyState : Type 0 where
  pub stable : Option Text
  pub pending : Option Candidate

abbrev pub view : Text → ProviderState → KeyState
view key p = record { stable = lookup key p.stable; pending = lookup key p.pending }

abbrev pub settled : Text → KeyState
settled v = record { stable = some v; pending = none }

-- A different value is seen while `from` is reported.
unfoldable pub key_change : ℤ → Text → Text → Option Candidate → KeyState
key_change samples from to pending =
    let c = prove to (get_or unproven pending) in
    if ltb_ℤ (pos 1) samples && ltb_ℤ (pos c.count) samples
    then record { stable = some from; pending = some c }
    else settled to

-- One observation of the key: `some to` reports a value, `none` is an observation that lacks it.
unfoldable pub key_step : ℤ → Option Text → KeyState → KeyState
unfolding key_change
key_step samples none k = elim k.stable [
  | none ↦ k
  | some from ↦ record { stable = none; pending = none }
]
key_step samples (some to) k = elim k.stable [
  | none ↦ settled to
  | some from ↦ if same from to then settled from else key_change samples from to k.pending
]

-- What is left of `k` when a key that is observed or not, and reported or not, is swept.
abbrev pub swept : Option Text → Option Text → KeyState → KeyState
swept (some v) reported k = k
swept none none k = k
swept none (some from) k = record { stable = none; pending = none }

pub key_step_unseen : (samples : ℤ) (k : KeyState) → key_step samples none k ≡ swept none k.stable k
unfolding key_step
key_step_unseen samples k = ground arith

-- A loop that only touches the keys it is given.
abbrev pub step_if_given : ℤ → Option Text → KeyState → KeyState
step_if_given samples none k = k
step_if_given samples (some to) k = key_step samples (some to) k

abbrev pub provider_state : Text → StateStore → ProviderState
provider_state provider s = get_or unseen (lookup provider s.current)
