-- ===== src/Controller/Claims.antt =====
-- internal/controller/arbitration.go, the part that only computes: which targets an Automation
-- names, what it asks of each while its condition holds, and what it wants once it does not.
pub mod Targets
pub mod Levels
pub mod Disagreement
use unifi_reactor.Base.{
  Bool, true, false, not, ◌&&◌, ◌||◌, List, [], ◌∷◌, ◌++◌, map, Option, none, some, if◌then◌else◌,
}
use unifi_reactor.Base.Text.{Text, codes, same, leb_text}
use unifi_reactor.Base.Int.{ℤ, pos, same_ℤ, to_int32, mul_ℤ}
use unifi_reactor.Base.Sort.{text_order, sort_by}
use unifi_reactor.Base.Dict.{Dict, lookup, is_some}
use unifi_reactor.Engine.Arbiter.{Intent}
use unifi_reactor.Controller.Automation.{
  Action, Automation, TargetRef, declared, baseline, left_alone, unset, unknown, effective_reversal,
}
use unifi_reactor.Controller.Handlers.{
  Shape, TargetHandler, action_scale, action_cron_job_suspend, action_cordon, cluster_scoped_kind,
  describe, handler_for, level_of_action, parse,
}

pub record TargetKey : Type 0 where
  pub kind : Text
  pub namespace : Text
  pub name : Text

-- `==` on `targetKey`
unfoldable pub same_key : TargetKey → TargetKey → Bool
same_key a b = same a.kind b.kind && same a.namespace b.namespace && same a.name b.name

-- `targetKey.String`
unfoldable pub key_text : TargetKey → Text
key_text k =
    if same k.namespace []
    then k.kind ++ (codes "/" ++ k.name)
    else k.kind ++ (codes "/" ++ (k.namespace ++ (codes "/" ++ k.name)))

target_namespace : Text → TargetRef → Text
target_namespace own t =
    if cluster_scoped_kind t.kind then [] else if same t.namespace [] then own else t.namespace

-- `targetKeyFor`
unfoldable pub target_key_for : Automation → Action → Option TargetKey
unfolding target_namespace
target_key_for a action = elim action.target [
  | none ↦ none
  | some t ↦
      some (record { kind = t.kind; namespace = target_namespace a.namespace t; name = t.name })
]

-- `claimantOf`
unfoldable pub claimant_of : Automation → Text
claimant_of a = a.namespace ++ (codes "/" ++ a.name)

-- `isDesiredState`
unfoldable pub is_desired_state : Text → Bool
is_desired_state t = same t action_scale || same t action_cron_job_suspend || same t action_cordon

-- `slices.Contains`
unfoldable pub contains_key : List TargetKey → TargetKey → Bool
contains_key [] k = false
contains_key (j ∷ keys) k = same_key j k || contains_key keys k

add_target : Automation → Action → List TargetKey → List TargetKey
add_target a action keys = elim (target_key_for a action) [
  | none ↦ keys
  | some key ↦
      if not (is_desired_state action.action_type) || contains_key keys key
      then keys
      else keys ++ (key ∷ [])
]

-- The loop of `targetsOf` over one list of actions.
unfoldable pub collect_targets : Automation → List Action → List TargetKey → List TargetKey
unfolding add_target
collect_targets a [] keys = keys
collect_targets a (action ∷ actions) keys = collect_targets a actions (add_target a action keys)

-- `targetsOf`
unfoldable pub targets_of : Automation → List TargetKey
targets_of a =
    sort_by (λ x y. leb_text (key_text x) (key_text y))
      (collect_targets a a.spec.on_exit (collect_targets a a.spec.actions []))

-- `references`
unfoldable pub references : Automation → TargetKey → Bool
references a key = contains_key (targets_of a) key

unfoldable pub targets_key : Automation → Action → TargetKey → Bool
targets_key a action key = elim (target_key_for a action) [ none ↦ false | some k ↦ same_key k key ]

-- `levelFor`
unfoldable pub level_for : Automation → List Action → TargetKey → Option ℤ
unfolding targets_key
level_for a [] key = none
level_for a (action ∷ actions) key =
    let rest = level_for a actions key in
    if is_desired_state action.action_type && targets_key a action key
    then elim (level_of_action action) [ none ↦ rest | some level ↦ some level ]
    else rest

intent_of : Automation → Option ℤ → Option Intent
intent_of a none = none
intent_of a (some level) = some (record { claimant = claimant_of a; level = level })

-- `claimFor`
unfoldable pub claim_for : Automation → TargetKey → Bool → Option Intent
unfolding intent_of
claim_for a key matching = if matching then intent_of a (level_for a a.spec.actions key) else none

-- `reversalFor`
unfoldable pub reversal_for : Automation → TargetKey → Option ℤ → Option Intent
unfolding intent_of
reversal_for a key found = elim (effective_reversal a.spec) [
  | left_alone ↦ none
  | baseline ↦ intent_of a found
  | _ ↦ intent_of a (level_for a a.spec.on_exit key)
]

-- `reversalIntents`
unfoldable pub reversal_intents : List Automation → TargetKey → Option ℤ → List Intent
reversal_intents [] key found = []
reversal_intents (peer ∷ peers) key found =
    let rest = reversal_intents peers key found in
    elim (reversal_for peer key found) [ none ↦ rest | some intent ↦ intent ∷ rest ]

pub record ReversalIntent : Type 0 where
  pub claimant : Text
  pub desired : ℤ
  pub level : Text

unfoldable pub any_other_level : ℤ → List Intent → Bool
any_other_level level [] = false
any_other_level level (i ∷ intents) = not (same_ℤ i.level level) || any_other_level level intents

unfoldable pub reported : Shape → Intent → ReversalIntent
reported shape i = record {
  claimant = i.claimant;
  desired = to_int32 i.level;
  level = describe shape i.level;
}

-- `disagreementOver`: with fewer than two intents, or with one level only, there is none.
unfoldable pub disagreement_over : Shape → List Intent → List ReversalIntent
unfolding any_other_level reported
disagreement_over shape [] = []
disagreement_over shape (i ∷ []) = []
disagreement_over shape (i ∷ j ∷ intents) =
    if any_other_level i.level (i ∷ j ∷ intents)
    then sort_by (λ x y. leb_text x.claimant y.claimant) (map (reported shape) (i ∷ j ∷ intents))
    else []

-- `baselineOf`: the level, and whether one is recorded at all.
unfoldable pub baseline_of : TargetHandler → Dict Text → Option ℤ × Bool
baseline_of handler annotations = elim (lookup handler.baseline annotations) [
  | none ↦ (none, false)
  | some raw ↦ (parse handler.shape raw, true)
]

-- `actionsFor`
unfoldable pub actions_for : Automation → Bool → List Action
actions_for a matching = if matching then a.spec.actions else a.spec.on_exit

-- `selfLevel`
unfoldable pub self_level : Automation → TargetKey → Bool → Option ℤ → Option ℤ
self_level a key matching found =
    if matching
    then level_for a a.spec.actions key
    else elim (reversal_for a key found) [ none ↦ none | some i ↦ some i.level ]

-- `withoutClaimant`. A nil slice and an empty one are both written [].
unfoldable pub without_claimant : List Text → Text → List Text
without_claimant [] self = []
without_claimant (c ∷ claimants) self =
    let rest = without_claimant claimants self in if same c self then rest else c ∷ rest

contains_text : List Text → Text → Bool
contains_text [] t = false
contains_text (s ∷ ts) t = same s t || contains_text ts t

-- `newlyDeferred`
unfoldable pub newly_deferred : List Text → List Text → Text → List Text
unfolding contains_text
newly_deferred before [] self = []
newly_deferred before (c ∷ after) self =
    let rest = newly_deferred before after self in
    if same c self || contains_text before c then rest else c ∷ rest

-- `describeLevel`
unfoldable pub describe_level : Shape → Option ℤ → Text
describe_level shape none = codes "left as found"
describe_level shape (some level) = describe shape level

-- `defaultActionTimeout`, in nanoseconds.
abbrev pub default_action_timeout : ℤ
default_action_timeout = pos 30000000000

timeout_in : Automation → TargetKey → List Action → ℤ
timeout_in a key [] = default_action_timeout
timeout_in a key (action ∷ actions) =
    let rest = timeout_in a key actions in
    elim action.timeout_seconds [
      | none ↦ rest
      | some seconds ↦
          if is_desired_state action.action_type && targets_key a action key
          then mul_ℤ seconds (pos 1000000000)
          else rest
    ]

-- `timeoutFor`
unfoldable pub timeout_for : Automation → TargetKey → Bool → ℤ
unfolding timeout_in
timeout_for a key matching = timeout_in a key (actions_for a matching)

action_type_in : Automation → TargetKey → List Action → Text
action_type_in a key [] = elim (handler_for key.kind) [
  | none ↦ action_scale
  | some h ↦ h.action_type
]
action_type_in a key (action ∷ actions) =
    let rest = action_type_in a key actions in
    if is_desired_state action.action_type && targets_key a action key
    then action.action_type
    else rest

-- `actionTypeFor`
unfoldable pub action_type_for : Automation → TargetKey → Bool → Text
unfolding action_type_in
action_type_for a key matching = action_type_in a key (actions_for a matching)
