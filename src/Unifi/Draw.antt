-- ===== src/Unifi/Draw.antt =====
-- poe.go: how much of its PoE budget a switch delivers.
use unifi_reactor.Base.{ℕ, List, [], ◌∷◌, Option, none, some, if◌then◌else◌, ◌+◌, ◌==◌}
use unifi_reactor.Base.Text.{Text}
use unifi_reactor.Base.Dict.{Dict, insert}
use unifi_reactor.Unifi.Vocabulary.{state_key_poe, value_insufficient, value_ok}
use unifi_reactor.Unifi.Device.{ClientConfig, DevicePort, DeviceRecord, Floats}
use unifi_reactor.Unifi.Levels.{float_or}
use unifi_reactor.Unifi.Fleet.{is_true, reaches}

module _ (f : Floats) where
  open f use {Float, at_least, of_count, over, plus, times}

  -- The loop of `poe` over the ports: the watts, or `none` once a port that is powering something does
  -- not say how much.
  unfoldable pub sum_ports : List (DevicePort Float) → Float → Option Float
  sum_ports [] watts = some watts
  sum_ports (p ∷ ports) watts = elim p.poe_power [
    | some x ↦ sum_ports ports (if is_true p.poe_enable then plus watts x else watts)
    | none ↦ let rest = sum_ports ports watts in if is_true p.poe_enable then none else rest
  ]

  watts_of : List (DevicePort Float) → Option Float
  watts_of [] = none
  watts_of (p ∷ ports) = sum_ports (p ∷ ports) (of_count 0)

  usable_budget : Option Float → Option Float
  usable_budget none = none
  usable_budget (some budget) = if at_least (of_count 0) budget then none else some budget

  -- `deviceRecord.poe` and `utilization`: `none` is a switch that is not measurable.
  unfoldable pub utilization : DeviceRecord Float → Option Float
  unfolding watts_of usable_budget
  utilization d = elim (usable_budget d.total_max_power) [
    | none ↦ none
    | some budget ↦ elim (watts_of d.port_table) [
      | none ↦ none
      | some watts ↦ some (times (over watts budget) (of_count 100))
    ]
  ]

  -- `poeTally`: how many switches are measured, and the worst of them.
  pub record PoeTally : Type 0 where
    pub switches : ℕ
    pub worst : Option Float

  -- `poeTally.observe`
  unfoldable pub observe_poe : DeviceRecord Float → PoeTally → PoeTally
  observe_poe d t = elim (utilization d) [
    | none ↦ t
    | some used ↦ record {
      switches = t.switches + 1;
      worst =
          some (elim t.worst [ none ↦ used | some best ↦ if f.less best used then used else best ]);
    }
  ]

  -- `poeTally.publish`
  unfoldable pub publish_poe : ClientConfig Float → PoeTally → Dict Text → Dict Text
  publish_poe c t state =
      let short = reaches f (float_or f (of_count 90) c.max_poe_utilization_percent) t.worst in
      if t.switches == 0
      then state
      else insert state_key_poe (if short then value_insufficient else value_ok) state
