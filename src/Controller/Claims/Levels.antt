-- ===== src/Controller/Claims/Levels.antt =====
-- The levels that an Automation asks for are 32-bit integers, so that `int32(level)` loses nothing.
use unifi_reactor.Base.{Bool, true, List, [], ◌∷◌, some, ◌≡◌, arith}
use unifi_reactor.Base.Int.{ℤ, IsInt32}
use unifi_reactor.Engine.Arbiter.{Intent}
use unifi_reactor.Controller.Automation.{Action, Automation}
use unifi_reactor.Controller.Handlers.{level_of_action, level_of_flag}
use unifi_reactor.Controller.Claims.{TargetKey, level_for, claim_for, claimant_of}

-- The API's `replicas` is an int32.
abbrev pub ActionFits : Action → Type 0
ActionFits action = (n : ℤ) → action.replicas ≡ some n → IsInt32 n

abbrev pub ActionsFit : List Action → Type 0
ActionsFit [] = Unit
ActionsFit (action ∷ actions) = ActionFits action × ActionsFit actions

level_of_action-IsInt32 :
    (action : Action) (n : ℤ) → ActionFits action → level_of_action action ≡ some n → IsInt32 n
unfolding level_of_action level_of_flag
level_of_action-IsInt32 action n h e = ground (arith, h n)

pub level_for-IsInt32 :
    (a : Automation) (actions : List Action) (key : TargetKey) (n : ℤ)
    → ActionsFit actions
    → level_for a actions key ≡ some n
    → IsInt32 n
unfolding level_for
level_for-IsInt32 a [] key n h e = ground arith
level_for-IsInt32 a (action ∷ actions) key n h e =
    ground (arith, e, level_of_action-IsInt32 action n h.0, level_for-IsInt32 a actions key n h.1)

-- An Automation that does not claim, or that names no level for the target, has no claim; one that
-- claims speaks under its own name.
pub claim_for-claimant :
    (a : Automation) (key : TargetKey) (matching : Bool) (i : Intent)
    → claim_for a key matching ≡ some i
    → (matching ≡ true)
      × (i.claimant ≡ claimant_of a)
      × (level_for a a.spec.actions key ≡ some i.level)
unfolding claim_for
claim_for-claimant a key matching i e = ground (arith, e)
