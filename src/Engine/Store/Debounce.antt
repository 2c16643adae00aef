-- ===== src/Engine/Store/Debounce.antt =====
-- What the debounce promises of one key: a changed value is reported after exactly the configured
-- number of consecutive observations, and never on less evidence.
use unifi_reactor.Base.{ℕ, zero, suc, false, [], some, ◌≡◌, refl, arith, if◌then◌else◌, ◌∙◌, ap}
use unifi_reactor.Base.Text.{Text, same, same_refl, same→eq}
use unifi_reactor.Base.Int.{ℤ, pos, ltb_ℤ}
use unifi_reactor.Base.Dict.{Distinct, lookup}
use unifi_reactor.Engine.Store.{Observation, StateStore, prove, observe, samples_for}
use unifi_reactor.Engine.Store.Key.{KeyState, view, settled, key_step, provider_state}
use unifi_reactor.Engine.Store.Pointwise.{observe-view}

-- After `k` further observations of a value that was never reported, while `from` is.
abbrev pub proven : ℤ → Text → Text → ℕ → KeyState
proven samples from to k =
    if ltb_ℤ (pos k) samples
    then record { stable = some from; pending = some (record { value = to; count = k }) }
    else settled to

abbrev repeat_step : ℤ → Text → ℕ → KeyState → KeyState
repeat_step samples to zero k = k
repeat_step samples to (suc n) k = key_step samples (some to) (repeat_step samples to n k)

key_step-settled :
    (samples : ℤ) (from to : Text)
    → same from to ≡ false
    → key_step samples (some to) (settled from) ≡ proven samples from to 1
unfolding key_step prove ltb_ℤ
key_step-settled samples from to ne = ground (arith, same→eq [] to)

key_step-proven :
    (samples : ℤ) (from to : Text) (k : ℕ)
    → same from to ≡ false
    → key_step samples (some to) (proven samples from to (suc k))
      ≡ proven samples from to (suc (suc k))
unfolding key_step prove ltb_ℤ
key_step-proven samples from to k ne = ground (arith, same_refl to)

repeat_step-proven :
    (samples : ℤ) (from to : Text) (k : ℕ)
    → same from to ≡ false
    → repeat_step samples to (suc k) (settled from) ≡ proven samples from to (suc k)
repeat_step-proven samples from to zero ne = key_step-settled samples from to ne
repeat_step-proven samples from to (suc k) ne =
    ap (key_step samples (some to)) (repeat_step-proven samples from to k ne)
    ∙ key_step-proven samples from to k ne

-- The same observation, `n` times over.
unfoldable pub observe_times : ℕ → StateStore → Observation → StateStore
observe_times zero s o = s
observe_times (suc n) s o = (observe (observe_times n s o) o).0

samples_for-observe_times :
    (n : ℕ) (s : StateStore) (o : Observation) (provider key : Text)
    → samples_for (observe_times n s o) provider key ≡ samples_for s provider key
unfolding observe_times observe samples_for
samples_for-observe_times zero s o provider key = refl
samples_for-observe_times (suc n) s o provider key = samples_for-observe_times n s o provider key

observe_times-view :
    (n : ℕ) (s : StateStore) (o : Observation) (key to : Text)
    → Distinct o.state
    → lookup key o.state ≡ some to
    → view key (provider_state o.provider (observe_times n s o))
      ≡ repeat_step (samples_for s o.provider key) to n (view key (provider_state o.provider s))
unfolding observe_times
observe_times-view zero s o key to d e = refl
observe_times-view (suc n) s o key to d e = cc (
  observe-view (observe_times n s o) o key d,
  samples_for-observe_times n s o o.provider key,
  observe_times-view n s o key to d e,
)

-- While `from` is reported and nothing is proving itself, observing another value `k + 1` times in
-- a row leaves `from` reported, with the new value proving itself, as long as `k + 1` is below the
-- key's sample count, and reports the new value from then on.
pub observe_times-debounced :
    (s : StateStore) (o : Observation) (key from to : Text) (k : ℕ)
    → Distinct o.state
    → lookup key o.state ≡ some to
    → view key (provider_state o.provider s) ≡ settled from
    → same from to ≡ false
    → view key (provider_state o.provider (observe_times (suc k) s o))
      ≡ proven (samples_for s o.provider key) from to (suc k)
observe_times-debounced s o key from to k d e v ne =
    observe_times-view (suc k) s o key to d e
    ∙ (ap (repeat_step (samples_for s o.provider key) to (suc k)) v
        ∙ repeat_step-proven (samples_for s o.provider key) from to k ne)
