-- ===== src/Tests/Store.antt =====
-- internal/engine/state.go: the WAN fails over, under a debounce of three observations.
use mathlib.Core.List.{Memᴰ}
use unifi_reactor.Base.{List, [], ◌∷◌, ◌≡◌, refl, ◌≤◌}
use unifi_reactor.Base.Text.{Text, codes, same, has_prefix, len, cut_suffix}
use unifi_reactor.Base.Int.{pos, ltb_ℤ, pos_part}
use unifi_reactor.Base.Dict.{Distinct, lookup, insert, delete}
use unifi_reactor.Engine.Store.{
  Observation, DebounceConfig, StateStore, with_debounce, new_state_store, samples_for,
  pattern_samples, longest_pattern, observe_key, observe_keys, vanish_keys, observe_provider,
  observe, prove, report,
}
use unifi_reactor.Engine.Store.Key.{settled, view, key_step, provider_state}
use unifi_reactor.Engine.Store.Pointwise.{observe-view}
use unifi_reactor.Engine.Store.Debounce.{observe_times, observe_times-debounced, proven}
use unifi_reactor.Engine.Store.Evidence.{Streak, run, run-Streak, seen_of}
use unifi_reactor.Engine.Store.Reports.{reports_of, changed, observe-reports}
use unifi_reactor.Engine.Store.Patterns.{Matches, Entry, samples_for-longest}

abbrev unifi : Text
unifi = codes "unifi"

abbrev config : DebounceConfig
config = record { default = pos 3; per_key = (codes "device.*", pos 2) ∷ [] }

abbrev fresh : StateStore
fresh = record { current = []; debounce = (unifi, config) ∷ []; stale_after = [] }

abbrev saw_wan : Text → Observation
saw_wan v = record { provider = unifi; state = (codes "wan", v) ∷ []; observed_at = pos 7 }

abbrev primary : Text
primary = codes "primary"

abbrev backup : Text
backup = codes "backup"

runs : Unit {0}
unfolding with_debounce new_state_store samples_for pattern_samples longest_pattern observe
    observe_provider observe_keys vanish_keys observe_key prove report lookup insert delete same
    has_prefix len cut_suffix ltb_ℤ run observe_times Distinct
runs = tt

starts : new_state_store (with_debounce unifi config ∷ []) ≡ fresh
unfolding runs
starts = refl

one_key : (v : Text) → Distinct (saw_wan v).state
unfolding runs
one_key v = (refl, tt)

abbrev before : StateStore
before = run fresh (saw_wan primary ∷ [])

reported : view (codes "wan") (provider_state unifi before) ≡ settled primary
unfolding runs
reported = refl

samples : samples_for before unifi (codes "wan") ≡ pos 3
unfolding runs
samples = refl

observe-view_example :
    view (codes "wan") (provider_state unifi (observe before (saw_wan backup)).0)
    ≡ key_step
        (samples_for before unifi (codes "wan"))
        (lookup (codes "wan") (saw_wan backup).state)
        (view (codes "wan") (provider_state unifi before))
observe-view_example = observe-view before (saw_wan backup) (codes "wan") (one_key backup)

observe_times-debounced_example :
    view (codes "wan") (provider_state unifi (observe_times 2 before (saw_wan backup)))
    ≡ proven (samples_for before unifi (codes "wan")) primary backup 2
observe_times-debounced_example =
    observe_times-debounced before (saw_wan backup) (codes "wan") primary backup 1 (one_key backup)
      (unfold runs in refl) reported (unfold runs in refl)

abbrev history : List Observation
history = saw_wan backup ∷ saw_wan backup ∷ saw_wan primary ∷ []

run-Streak_example :
    Streak backup
      (pos_part (samples_for fresh unifi (codes "wan")))
      (seen_of (codes "wan") (saw_wan backup ∷ history))
run-Streak_example =
    run-Streak fresh unifi (codes "wan") history (saw_wan backup) primary backup
      (unfold runs in refl)
      (
        refl,
        one_key backup,
        (refl, one_key backup, (refl, one_key backup, (refl, one_key primary, tt))),
      )
      (unfold runs in refl) (unfold runs in refl) (unfold runs in refl) (unfold runs in refl)

observe-reports_example :
    reports_of (codes "wan") (observe before (saw_wan backup)).1
    ≡ changed
        (lookup (codes "wan") (provider_state unifi before).stable)
        (lookup (codes "wan") (provider_state unifi (observe before (saw_wan backup)).0).stable)
observe-reports_example =
    observe-reports before (saw_wan backup) (codes "wan") (one_key backup)
      (unfold runs in (refl, tt))

abbrev by_prefix : Matches (codes "device.switch") (codes "device.*")
by_prefix = record {
  prefix = codes "device.";
  cut = unfold runs in refl;
  starts = unfold runs in refl;
}

samples_for-longest_example :
    (c : Entry (codes "device.switch") config.per_key) × (samples_for fresh unifi
        (codes "device.switch")
      ≡ c.samples)
    × (len by_prefix.prefix ≤ len c.fits.prefix)
samples_for-longest_example =
    samples_for-longest fresh unifi (codes "device.switch") (codes "device.*") config (pos 2)
      by_prefix (unfold runs in refl) (unfold runs in refl) (Memᴰ.head refl)
