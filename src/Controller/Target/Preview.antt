-- ===== src/Controller/Target/Preview.antt =====
-- arbitration.go: what a target would be set to if the condition held.
use unifi_reactor.Base.{Bool, true, false, List, [], ◌∷◌, ◌++◌, Option, none, some, if◌then◌else◌}
use unifi_reactor.Base.Text.{Text}
use unifi_reactor.Base.Int.{ℤ, same_ℤ, to_int32}
use unifi_reactor.Engine.Arbiter.{Intent, Resolution, resolve}
use unifi_reactor.Controller.Automation.{Automation, ReversalPolicy, baseline, effective_reversal}
use unifi_reactor.Controller.Handlers.{Shape, TargetHandler, describe}
use unifi_reactor.Controller.Claims.{
  TargetKey, claim_for, reversal_for, describe_level, newly_deferred, without_claimant,
}
use unifi_reactor.Controller.Cluster.{Cluster, Object, ok, err, read}

pub record TargetPreview : Type 0 where
  pub desired : Option ℤ
  pub effective : Option ℤ
  pub level : Text
  pub deferred_by : List Text
  pub would_defer : List Text
  pub on_exit : Text

is_baseline : ReversalPolicy → Bool
is_baseline baseline = true
is_baseline _ = false

exit_text : Shape → Automation → TargetKey → Option ℤ → Text
exit_text shape self key found = elim (reversal_for self key found) [
  | none ↦ describe_level shape none
  | some intent ↦ describe shape intent.level
]

-- `previewOnExit`
unfoldable pub preview_on_exit :
    (c : Cluster) → TargetHandler → Automation → TargetKey → Object → Option ℤ → c.World → Text
unfolding is_baseline exit_text
preview_on_exit c handler self key target (some found) w =
    exit_text handler.shape self key (some found)
preview_on_exit c handler self key target none w =
    if is_baseline (effective_reversal self.spec)
    then elim (read c handler.shape target w) [
      | err e ↦ []
      | ok found ↦ exit_text handler.shape self key (some found)
    ]
    else exit_text handler.shape self key none

deferred_of : Option Resolution → List Text
deferred_of none = []
deferred_of (some r) = r.deferred

-- The answer once one more claim is among the claims.
unfoldable pub preview_claim : Shape → Text → List Intent → Intent → TargetPreview
unfolding deferred_of
preview_claim shape on_exit claims claim = elim (resolve (claims ++ (claim ∷ []))) [
  | none ↦ record {
    desired = some (to_int32 claim.level);
    effective = none;
    level = [];
    deferred_by = [];
    would_defer = [];
    on_exit = on_exit;
  }
  | some resolution ↦ record {
    desired = some (to_int32 claim.level);
    effective = some (to_int32 resolution.level);
    level = describe shape resolution.level;
    deferred_by =
        if same_ℤ resolution.level claim.level
        then []
        else without_claimant resolution.winners claim.claimant;
    would_defer = newly_deferred (deferred_of (resolve claims)) resolution.deferred claim.claimant;
    on_exit = on_exit;
  }
]

-- `previewFor`
unfoldable pub preview_for :
    (c : Cluster)
    → TargetHandler
    → Automation
    → TargetKey
    → Object
    → List Intent
    → Option ℤ
    → c.World
    → TargetPreview
preview_for c handler self key target claims found w =
    let on_exit = preview_on_exit c handler self key target found w in
    elim (claim_for self key true) [
      | none ↦ record {
        desired = none;
        effective = none;
        level = [];
        deferred_by = [];
        would_defer = [];
        on_exit = on_exit;
      }
      | some claim ↦ preview_claim handler.shape on_exit claims claim
    ]
