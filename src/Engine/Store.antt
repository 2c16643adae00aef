-- ===== src/Engine/Store.antt =====
-- internal/engine/state.go: the latest reported state of each provider, and the debounce that a
-- changed value has to pass before it is reported. The lock is left out: every method holds it for
-- its whole body, so a run of the program is a sequence of these calls. An instant and a duration
-- are whole numbers of nanoseconds. A loop over a map runs over the association list, in its order.
pub mod Key
pub mod Pointwise
pub mod Debounce
pub mod Evidence
pub mod Reports
pub mod Patterns
use mathlib.Core.Option
use unifi_reactor.Base.{
  ℕ, suc, Bool, true, false, ◌&&◌, not, ◌||◌, List, [], ◌∷◌, ◌++◌, Option, none, some,
  if◌then◌else◌, leb,
}
use unifi_reactor.Base.Text.{Text, same, has_prefix, len, cut_suffix}
use unifi_reactor.Base.Int.{ℤ, pos, negsuc, ltb_ℤ, sub_ℤ}
use unifi_reactor.Base.Dict.{Dict, lookup, insert, delete, is_some, get_or}

-- internal/events/event.go
pub record Observation : Type 0 where
  pub provider : Text
  pub state : Dict Text
  pub observed_at : ℤ

pub record Transition : Type 0 where
  pub provider : Text
  pub key : Text
  pub from : Text
  pub to : Text

pub record DebounceConfig : Type 0 where
  pub default : ℤ
  pub per_key : Dict ℤ

-- The body of the loop of `patternSamples`: `best` is the length of the longest prefix so far, -1
-- at first.
unfoldable pub better_pattern : Text → Text → ℤ → ℤ × ℤ → ℤ × ℤ
better_pattern key pattern configured (best, samples) = elim (cut_suffix pattern b'*') [
  | none ↦ (best, samples)
  | some prefix ↦
      if not (has_prefix key prefix) || not (ltb_ℤ best (pos (len prefix)))
      then (best, samples)
      else (pos (len prefix), configured)
]

unfoldable pub longest_pattern : Text → Dict ℤ → ℤ × ℤ → ℤ × ℤ
unfolding better_pattern
longest_pattern key [] acc = acc
longest_pattern key ((pattern, configured) ∷ rest) acc =
    longest_pattern key rest (better_pattern key pattern configured acc)

-- `patternSamples`
unfoldable pub pattern_samples : DebounceConfig → Text → Option ℤ
unfolding longest_pattern
pattern_samples d key =
    let (best, samples) = longest_pattern key d.per_key (negsuc 0, pos 0) in
    if ltb_ℤ best (pos 0) then none else some samples

pub record Candidate : Type 0 where
  pub value : Text
  pub count : ℕ

pub record ProviderState : Type 0 where
  pub stable : Dict Text
  pub pending : Dict Candidate
  pub observed_at : ℤ

pub record StateStore : Type 0 where
  pub current : Dict ProviderState
  pub debounce : Dict DebounceConfig
  pub stale_after : Dict ℤ

-- `StoreOption`, as the function on the store that it is.
abbrev pub StoreOption : Type 0
StoreOption = StateStore → StateStore

-- `WithDebounce`
unfoldable pub with_debounce : Text → DebounceConfig → StoreOption
with_debounce provider config s = record s { debounce = insert provider config s.debounce }

-- `WithStaleAfter`
unfoldable pub with_stale_after : Text → ℤ → StoreOption
with_stale_after provider bound s =
    if ltb_ℤ (pos 0) bound
    then record s { stale_after = insert provider bound s.stale_after }
    else s

apply_options : List StoreOption → StateStore → StateStore
apply_options [] s = s
apply_options (option ∷ options) s = apply_options options (option s)

-- `NewStateStore`
unfoldable pub new_state_store : List StoreOption → StateStore
unfolding apply_options
new_state_store options =
    apply_options options (record { current = []; debounce = []; stale_after = [] })

default_samples : ℤ → ℤ
default_samples n = if ltb_ℤ n (pos 1) then pos 1 else n

-- `samplesFor`
unfoldable pub samples_for : StateStore → Text → Text → ℤ
unfolding default_samples
samples_for s provider key = elim (lookup provider s.debounce) [
  | none ↦ pos 1
  | some config ↦ elim (lookup key config.per_key) [
    | some samples ↦ samples
    | none ↦ elim (pattern_samples config key) [
      | some samples ↦ samples
      | none ↦ default_samples config.default
    ]
  ]
]

-- What one observation reports about a key: the store keeps the value and the transition is added.
unfoldable pub report :
    Text → Text → Text → Text → ProviderState × List Transition → ProviderState × List Transition
report provider key from to (current, transitions) = (
  record current { stable = insert key to current.stable; pending = delete key current.pending },
  transitions ++ (record { provider = provider; key = key; from = from; to = to } ∷ []),
)

-- One more observation of the value that is proving itself; another value starts over.
unfoldable pub prove : Text → Candidate → Candidate
prove to proving =
    if same proving.value to
    then record { value = proving.value; count = suc proving.count }
    else record { value = to; count = 1 }

abbrev unproven : Candidate
unproven = record { value = []; count = 0 }

-- The body of the first loop of `Observe`, for one key of the observation.
unfoldable pub observe_key :
    ℤ → Text → Text → Text → ProviderState × List Transition → ProviderState × List Transition
observe_key samples provider key to (current, transitions) =
    let from = get_or [] (lookup key current.stable) in
    let known = is_some (lookup key current.stable) in
    if known && same from to
    then (record current { pending = delete key current.pending }, transitions)
    else if not known || not (ltb_ℤ (pos 1) samples)
    then report provider key from to (current, transitions)
    else let proving = prove to (get_or unproven (lookup key current.pending)) in
      if ltb_ℤ (pos proving.count) samples
      then (record current { pending = insert key proving current.pending }, transitions)
      else report provider key from to (current, transitions)

-- The first loop of `Observe`.
unfoldable pub observe_keys :
    (Text → ℤ)
    → Text
    → Dict Text
    → ProviderState × List Transition
    → ProviderState × List Transition
unfolding observe_key
observe_keys samples provider [] acc = acc
observe_keys samples provider ((key, to) ∷ rest) acc =
    observe_keys samples provider rest (observe_key (samples key) provider key to acc)

-- The second loop of `Observe`, over the keys that are reported: one that the observation lacks
-- goes at once.
unfoldable pub vanish_keys :
    Text → Dict Text → Dict Text → ProviderState × List Transition → ProviderState × List Transition
vanish_keys provider state [] acc = acc
vanish_keys provider state ((key, from) ∷ rest) (current, transitions) =
    vanish_keys provider state rest (
      if is_some (lookup key state) then (current, transitions) else (
        record current { stable = delete key current.stable; pending = delete key current.pending },
        transitions ++ (record { provider = provider; key = key; from = from; to = [] } ∷ []),
      ))

abbrev pub unseen : ProviderState
unseen = record { stable = []; pending = []; observed_at = pos 0 }

-- `Observe` on the state of one provider.
unfoldable pub observe_provider :
    (Text → ℤ) → Observation → ProviderState → ProviderState × List Transition
unfolding observe_keys vanish_keys
observe_provider samples o p =
    let (current, transitions) =
      observe_keys samples o.provider o.state (record p { observed_at = o.observed_at }, []) in
    vanish_keys o.provider o.state current.stable (current, transitions)

-- `Observe`
unfoldable pub observe : StateStore → Observation → StateStore × List Transition
unfolding observe_provider
observe s o =
    let (current, transitions) =
      observe_provider (samples_for s o.provider) o (get_or unseen (lookup o.provider s.current)) in
    (record s { current = insert o.provider current s.current }, transitions)

-- `Proving`
unfoldable pub proving : StateStore → Text → Bool
proving s provider = elim (get_or unseen (lookup provider s.current)).pending [
  | [] ↦ false
  | c ∷ cs ↦ true
]

-- `Get`
unfoldable pub get : StateStore → Text → Option Observation
get s provider =
    Option.map (λ p. record { provider = provider; state = p.stable; observed_at = p.observed_at })
      (lookup provider s.current)

pub record Freshness : Type 0 where
  pub observed_at : ℤ
  pub age : ℤ
  pub bound : ℤ
  pub stale : Bool

-- `Freshness`, at the instant `now`. A bound that is not configured is zero.
unfoldable pub freshness : ℤ → StateStore → Text → Option Freshness
freshness now s provider =
    Option.map
      (λ p.
        let age = sub_ℤ now p.observed_at in
        let bound = get_or (pos 0) (lookup provider s.stale_after) in
        record {
          observed_at = p.observed_at;
          age = age;
          bound = bound;
          stale = ltb_ℤ (pos 0) bound && ltb_ℤ bound age;
        })
      (lookup provider s.current)
