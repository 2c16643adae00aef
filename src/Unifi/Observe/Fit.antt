-- ===== src/Unifi/Observe/Fit.antt =====
-- The values that are published unless they are empty.
use unifi_reactor.Base.{
  Bool, true, false, not, ◌||◌, List, [], ◌∷◌, Option, none, some, if◌then◌else◌, ◌≡◌, ◌⊎◌, inl,
  inr, refl, Bool-cases, Option-cases,
}
use unifi_reactor.Base.Text.{Text, codes, same}
use unifi_reactor.Base.Int.{ℤ, pos, ltb_ℤ, same_ℤ}
use unifi_reactor.Base.Dict.{lookup}
use unifi_reactor.Unifi.Vocabulary.{
  contains_text, legal, state_key_data_usage, state_key_internet, state_key_isp,
  state_key_ups_battery, state_key_ups_load, state_key_ups_runtime, state_key_wan,
  state_key_wan_quality, state_key_wifi, value_critical, value_short, value_ample, value_over,
  value_warning, value_under, value_ok, value_degraded, value_down, value_error, value_normal,
  value_high, value_good,
}
use unifi_reactor.Unifi.Device.{ClientConfig, Floats, HealthSubsystem, SimSlot, UplinkHealth}
use unifi_reactor.Unifi.Levels.{
  battery_at, only_usage, usage_of, leb_ℤ, load_level, runtime_at, float_or,
}
use unifi_reactor.Unifi.Wan.{
  WanSignal, silent, ambiguous, answer, choose_signal, or_unknown, wan_value, wan_primary_index,
}
use unifi_reactor.Unifi.Health.{
  availability, exceeds, latency, quality_of, uptime_stats_key, internet_from, wan_quality_from,
  wifi_from,
}

-- A value that is allowed under the key, or empty.
abbrev pub IsFit : Text → Text → Type 0
IsFit key value = (value ≡ []) ⊎ (legal key value ≡ true)

wan_value-legal : (index : ℤ) → legal state_key_wan (wan_value index) ≡ true
unfolding legal lookup same contains_text
wan_value-legal index = elim (Bool-cases (same_ℤ index wan_primary_index)) [
  | inl e ↦ rw (e, if◌then◌else◌) refl
  | inr e ↦ rw (e, if◌then◌else◌) refl
]

pub choose_signal-IsFit : (a b : WanSignal) → IsFit state_key_wan (choose_signal a b).0
unfolding choose_signal legal lookup same contains_text
choose_signal-IsFit (answer index) b = inr (wan_value-legal index)
choose_signal-IsFit silent (answer index) = inr (wan_value-legal index)
choose_signal-IsFit ambiguous (answer index) = inr (wan_value-legal index)
choose_signal-IsFit ambiguous silent = inr refl
choose_signal-IsFit ambiguous ambiguous = inr refl
choose_signal-IsFit silent silent = inl refl
choose_signal-IsFit silent ambiguous = inl refl

pub or_unknown-legal : (t : Text) → legal state_key_isp (or_unknown t) ≡ true
unfolding or_unknown legal lookup same
or_unknown-legal [] = refl
or_unknown-legal (r ∷ s) = refl

pub battery_at-legal :
    (low critical n : ℤ) → legal state_key_ups_battery (battery_at low critical n) ≡ true
unfolding battery_at legal lookup same contains_text
battery_at-legal low critical n = elim (Bool-cases (leb_ℤ n critical)) [
  | inl e ↦ rw (battery_at, e, if◌then◌else◌) refl
  | inr e ↦ elim (Bool-cases (leb_ℤ n low)) [
    | inl k ↦ rw (battery_at, e, k, if◌then◌else◌) refl
    | inr k ↦ rw (battery_at, e, k, if◌then◌else◌) refl
  ]
]

-- A choice among four values by three tests.
abbrev choice_of_four : (a b c : Bool) → (v w x y : Text) → Text
choice_of_four a b c v w x y = if a then v else if b then w else if c then x else y

choice_of_four-IsFit :
    (key : Text) (a b c : Bool) (v w x y : Text)
    → IsFit key v
    → IsFit key w
    → IsFit key x
    → IsFit key y
    → IsFit key (choice_of_four a b c v w x y)
choice_of_four-IsFit key true b c v w x y i j k l = i
choice_of_four-IsFit key false true c v w x y i j k l = j
choice_of_four-IsFit key false false true v w x y i j k l = k
choice_of_four-IsFit key false false false v w x y i j k l = l

pub runtime_at-IsFit :
    (short critical n : ℤ) → IsFit state_key_ups_runtime (runtime_at short critical n)
unfolding runtime_at legal lookup same contains_text
runtime_at-IsFit short critical n =
    choice_of_four-IsFit state_key_ups_runtime (leb_ℤ n (pos 0)) (leb_ℤ n critical) (leb_ℤ n short)
      [] value_critical value_short value_ample (inl refl) (inr refl) (inr refl) (inr refl)

pub only_usage-IsFit : (slots : List SimSlot) → IsFit state_key_data_usage (only_usage slots)
unfolding only_usage usage_of legal lookup same contains_text
only_usage-IsFit [] = inl refl
only_usage-IsFit (s ∷ []) =
    choice_of_four-IsFit state_key_data_usage (not s.card_present || not s.has_data_plan)
      s.data_limited s.data_warning [] value_over value_warning value_under (inl refl) (inr refl)
      (inr refl) (inr refl)
only_usage-IsFit (s ∷ t ∷ slots) = inl refl

pub internet_from-IsFit : (status : Text) → IsFit state_key_internet (internet_from status)
unfolding internet_from legal lookup same contains_text
internet_from-IsFit status =
    choice_of_four-IsFit state_key_internet (same status (codes "ok"))
      (same status (codes "warning")) (same status (codes "error")) value_ok value_degraded
      value_down [] (inr refl) (inr refl) (inr refl) (inl refl)

pub wifi_from-IsFit :
    (adopted disconnected : Option ℤ) → IsFit state_key_wifi (wifi_from adopted disconnected)
unfolding wifi_from legal lookup same contains_text
wifi_from-IsFit none disconnected = inl refl
wifi_from-IsFit (some adopted) none = inl refl
wifi_from-IsFit (some adopted) (some disconnected) =
    choice_of_four-IsFit state_key_wifi (same_ℤ adopted (pos 0)) (leb_ℤ adopted disconnected)
      (ltb_ℤ (pos 0) disconnected) [] value_error value_warning value_ok (inl refl) (inr refl)
      (inr refl) (inr refl)

module _ (f : Floats) where
  open f use {Float, at_least, less, of_count, over, times}

  pub load_level-IsFit :
      (c : ClientConfig Float) (output budget : Option Float)
      → IsFit state_key_ups_load (load_level f c output budget)
  unfolding load_level legal lookup same contains_text
  load_level-IsFit c none budget = inl refl
  load_level-IsFit c (some output) none = inl refl
  load_level-IsFit c (some output) (some budget) =
      choice_of_four-IsFit state_key_ups_load (at_least (of_count 0) budget)
        (at_least (times (over output budget) (of_count 100))
          (float_or f (of_count 80) c.high_load_percent))
        true [] value_high value_normal value_normal (inl refl) (inr refl) (inr refl) (inr refl)

  wan_quality_from-IsFit :
      (c : ClientConfig Float) (u : UplinkHealth Float)
      → IsFit state_key_wan_quality (wan_quality_from f c u)
  unfolding wan_quality_from legal lookup same contains_text
  wan_quality_from-IsFit c u = elim (Option-cases (availability f u)) [
    | inl e ↦ rw (wan_quality_from, e) (inl refl)
    | inr (x, e) ↦
        rw (wan_quality_from, e)
          (choice_of_four-IsFit state_key_wan_quality
            (less x (float_or f (of_count 99) c.min_availability_percent)
              || exceeds f (float_or f (of_count 150) c.max_latency_ms) (latency f u))
            true true value_degraded value_good value_good value_good (inr refl) (inr refl)
            (inr refl) (inr refl))
  ]

  pub quality_of-IsFit :
      (c : ClientConfig Float) (wan : Text) (index : ℤ) (h : HealthSubsystem Float)
      → IsFit state_key_wan_quality (quality_of f c wan index h)
  unfolding quality_of
  quality_of-IsFit c wan index h =
      elim (Option-cases (lookup (uptime_stats_key index) h.uptime_stats)) [
        | inl e ↦ rw (quality_of, e) (inl refl)
        | inr (u, e) ↦ elim (Bool-cases (same wan [] || ltb_ℤ index wan_primary_index)) [
          | inl k ↦ rw (quality_of, e, k, if◌then◌else◌) (inl refl)
          | inr k ↦ rw (quality_of, e, k, if◌then◌else◌) (wan_quality_from-IsFit c u)
        ]
      ]
