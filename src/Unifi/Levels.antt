-- ===== src/Unifi/Levels.antt =====
-- client.go and datausage.go: the levels of a UPS, and the data plan of the active SIM. The empty text
-- is a key that is not published.
use unifi_reactor.Base.{Bool, not, ◌||◌, List, [], ◌∷◌, Option, none, some, if◌then◌else◌}
use unifi_reactor.Base.Text.{Text}
use unifi_reactor.Base.Int.{ℤ, pos, ltb_ℤ}
use unifi_reactor.Unifi.Vocabulary.{
  value_ample, value_critical, value_high, value_low, value_normal, value_over, value_short,
  value_under, value_warning,
}
use unifi_reactor.Unifi.Device.{ClientConfig, Floats, SimSlot}

-- `a <= b`
unfoldable pub leb_ℤ : ℤ → ℤ → Bool
leb_ℤ a b = not (ltb_ℤ b a)

-- A threshold that is not positive is the default.
unfoldable pub threshold_or : ℤ → ℤ → ℤ
unfolding leb_ℤ
threshold_or default n = if leb_ℤ n (pos 0) then default else n

unfoldable pub battery_at : (low critical percent : ℤ) → Text
unfolding leb_ℤ
battery_at low critical percent =
    if leb_ℤ percent critical
    then value_critical
    else if leb_ℤ percent low
    then value_low
    else value_normal

unfoldable pub runtime_at : (short critical seconds : ℤ) → Text
unfolding leb_ℤ
runtime_at short critical seconds =
    if leb_ℤ seconds (pos 0)
    then []
    else if leb_ℤ seconds critical
    then value_critical
    else if leb_ℤ seconds short
    then value_short
    else value_ample

pub active_slots : List SimSlot → List SimSlot
active_slots [] = []
active_slots (s ∷ slots) = let rest = active_slots slots in if s.active then s ∷ rest else rest

unfoldable pub usage_of : SimSlot → Text
usage_of sim =
    if not sim.card_present || not sim.has_data_plan
    then []
    else if sim.data_limited
    then value_over
    else if sim.data_warning
    then value_warning
    else value_under

unfoldable pub only_usage : List SimSlot → Text
unfolding usage_of
only_usage [] = []
only_usage (s ∷ []) = usage_of s
only_usage (s ∷ t ∷ slots) = []

-- `dataUsageFrom`, on the slots of a modem block
unfoldable pub data_usage_from : List SimSlot → Text
unfolding active_slots only_usage
data_usage_from slots = only_usage (active_slots slots)

module _ (f : Floats) where
  open f use {Float, at_least, less, of_count, over, times}

  -- `batteryLevel`
  unfoldable pub battery_level : ClientConfig Float → ℤ → Text
  battery_level c percent =
      battery_at (threshold_or (pos 30) c.low_battery_percent)
        (threshold_or (pos 10) c.critical_battery_percent) percent

  -- `runtimeLevel`
  unfoldable pub runtime_level : ClientConfig Float → ℤ → Text
  runtime_level c seconds =
      runtime_at (threshold_or (pos 600) c.short_runtime_seconds)
        (threshold_or (pos 180) c.critical_runtime_seconds) seconds

  -- A float threshold that is not positive is the default.
  unfoldable pub float_or : Float → Float → Float
  float_or default x = if at_least (of_count 0) x then default else x

  -- `loadLevel`
  unfoldable pub load_level : ClientConfig Float → Option Float → Option Float → Text
  load_level c none budget = []
  load_level c (some output) none = []
  load_level c (some output) (some budget) =
      if at_least (of_count 0) budget
      then []
      else if at_least (times (over output budget) (of_count 100))
          (float_or (of_count 80) c.high_load_percent)
      then value_high
      else value_normal
