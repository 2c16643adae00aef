-- ===== src/Controller/Automation.antt =====
-- api/v1alpha1/automation_types.go: the fields of an Automation that arbitration reads. The
-- payloads of the actions that leave the cluster (`request`, `notification`, ...) are left out.
use unifi_reactor.Base.{Bool, false, not, ◌&&◌, List, [], ◌∷◌, Option, none, some}
use unifi_reactor.Base.Text.{Text}
use unifi_reactor.Base.Int.{ℤ}
use unifi_reactor.Base.Dict.{Dict}

pub record StateTrigger : Type 0 where
  pub provider : Text
  pub state : Dict Text

pub record TargetRef : Type 0 where
  pub kind : Text
  pub name : Text
  pub namespace : Text

pub record Action : Type 0 where
  pub action_type : Text
  pub target : Option TargetRef
  pub replicas : Option ℤ
  pub suspended : Option Bool
  pub cordoned : Option Bool
  pub timeout_seconds : Option ℤ

-- `ReversalPolicy`: the three constants, the empty text of a field that is not set, and any other
-- text, which the code treats as `Declared`.
pub data ReversalPolicy : Type 0 where
  declared baseline left_alone unset : ReversalPolicy
  unknown : Text → ReversalPolicy

pub record AutomationSpec : Type 0 where
  pub when : Option StateTrigger
  pub actions : List Action
  pub on_exit : List Action
  pub reversal : ReversalPolicy
  pub dry_run : Bool
  pub suspend : Bool

pub record ExecutionStatus : Type 0 where
  pub succeeded : Bool
  pub on_exit : Bool
  pub attempts : ℤ

pub record AutomationStatus : Type 0 where
  pub matching : Option Bool
  pub observed_state : Dict Text
  pub last_execution : Option ExecutionStatus
  pub release_attempts : ℤ

pub record Automation : Type 0 where
  pub namespace : Text
  pub name : Text
  pub deleting : Bool
  pub finalizers : List Text
  pub spec : AutomationSpec
  pub status : AutomationStatus

default_reversal : List Action → ReversalPolicy
default_reversal [] = baseline
default_reversal (a ∷ actions) = declared

policy_or : ReversalPolicy → ReversalPolicy → ReversalPolicy
policy_or d unset = d
policy_or d declared = declared
policy_or d baseline = baseline
policy_or d left_alone = left_alone
policy_or d (unknown t) = unknown t

-- `EffectiveReversal`
unfoldable pub effective_reversal : AutomationSpec → ReversalPolicy
unfolding policy_or default_reversal
effective_reversal s = policy_or (default_reversal s.on_exit) s.reversal

-- `IsMatching`
unfoldable pub is_matching : AutomationStatus → Bool
is_matching s = elim s.matching [ none ↦ false | some b ↦ b ]

-- `InForce`
unfoldable pub in_force : Automation → Bool
in_force a = not a.deleting && not a.spec.suspend && not a.spec.dry_run
