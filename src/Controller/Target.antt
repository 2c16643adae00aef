-- ===== src/Controller/Target.antt =====
-- arbitration.go: `reconcileTarget`, which resolves one target across every Automation that names it
-- and writes the outcome. The context's deadline, the log and the metrics are left out.
pub mod Managers
pub mod Preview
pub mod Reach
pub mod Withheld
pub mod Unclaimed
pub mod Driven
pub mod Settled
use unifi_reactor.Base.{
  Bool, true, false, not, ◌&&◌, ◌||◌, List, [], ◌∷◌, ◌++◌, Option, none, some, if◌then◌else◌,
}
use unifi_reactor.Base.Text.{Text, codes, same, has_prefix}
use unifi_reactor.Base.Int.{ℤ, same_ℤ, to_int32}
use unifi_reactor.Engine.Arbiter.{Intent, Resolution, resolve}
use unifi_reactor.Engine.Store.{StateStore}
use unifi_reactor.Controller.Automation.{Automation}
use unifi_reactor.Controller.Handlers.{TargetHandler, cluster_scoped_kind, describe, handler_for}
use unifi_reactor.Controller.Claims.{
  ReversalIntent, TargetKey, baseline_of, claimant_of, describe_level, disagreement_over, key_text,
  reversal_intents, self_level, without_claimant,
}
use unifi_reactor.Controller.Peers.{gather, peer_matching, referencing_automations}
use unifi_reactor.Controller.Cluster.{
  Cluster, Done, Error, ErrorClass, forbidden, Object, ok, err, failure, wrap,
}
use unifi_reactor.Controller.Holding.{claim_target, release_target}
use unifi_reactor.Controller.Target.Managers.{foreign_manager_of}
use unifi_reactor.Controller.Target.Preview.{TargetPreview, preview_for}

-- `permissionHint`
unfoldable pub permission_hint : Text → Text
permission_hint kind =
    if cluster_scoped_kind kind
    then codes "node actions are opt-in: install with rbac.allowNodeActions=true"
    else codes "cross-namespace targets need cluster-wide permissions"

-- `strings.Contains`
unfoldable pub contains : Text → Text → Bool
contains [] part = has_prefix [] part
contains (a ∷ s) part = has_prefix (a ∷ s) part || contains s part

is_forbidden : ErrorClass → Bool
is_forbidden forbidden = true
is_forbidden _ = false

-- `outOfScope`
unfoldable pub out_of_scope : Error → Bool
unfolding is_forbidden
out_of_scope e =
    is_forbidden e.class || contains e.message (codes "unknown namespace for the cache")

-- How the Automation in hand takes part.
pub record Stance : Type 0 where
  pub matching : Bool
  pub claiming : Bool
  pub preview : Bool

pub record TargetOutcome : Type 0 where
  pub ref : Text
  pub desired : Option ℤ
  pub effective : Option ℤ
  pub level : Text
  pub deferred_by : List Text
  pub changed : Bool
  pub preview : Option TargetPreview
  pub withheld : Bool
  pub disagreement : List ReversalIntent
  pub managed_by : Text

-- The fields of `AutomationReconciler` that a pass reads: `now` is the store's clock and `stamp` the
-- time as `claimed-at` has it.
pub record Reconciler : Type 0 where
  pub dry_run : Bool
  pub detect_hpa : Bool
  pub store : StateStore
  pub now : ℤ
  pub stamp : Text

-- What a pass over one target returns, and the world after it.
pub record Pass (World : Type 0) : Type 0 where
  pub outcome : TargetOutcome
  pub error : Option Error
  pub world : World

-- `targetOutcome{ref: key.String()}`
unfoldable pub blank : TargetKey → TargetOutcome
blank key = record {
  ref = key_text key;
  desired = none;
  effective = none;
  level = [];
  deferred_by = [];
  changed = false;
  preview = none;
  withheld = false;
  disagreement = [];
  managed_by = [];
}

-- `withhold`
unfoldable pub withhold : TargetOutcome → TargetOutcome
withhold outcome = record outcome { withheld = true }

int32_of : Option ℤ → Option ℤ
int32_of none = none
int32_of (some level) = some (to_int32 level)

level_of : Option Resolution → Option ℤ
level_of none = none
level_of (some r) = some r.level

-- Whether a wanted value differs from the resolved one.
unfoldable pub outvoted : Option ℤ → ℤ → Bool
outvoted none value = false
outvoted (some desired) value = not (same_ℤ desired value)

-- What the pass reports before it looks for managers.
unfoldable pub asked :
    TargetHandler → TargetKey → Automation → Stance → List Automation → Option ℤ → TargetOutcome
unfolding int32_of
asked handler key self s peers found = record (blank key) {
  desired = int32_of (self_level self key s.claiming found);
  disagreement = disagreement_over handler.shape (reversal_intents peers key found);
}

-- `getting target`: the two sentences for a target that cannot be read.
unreachable : TargetKey → Error → Error
unreachable key e =
    if out_of_scope e
    then wrap
        (codes "target "
          ++ (key_text key
              ++ (codes " not reachable with current RBAC ("
                  ++ (permission_hint key.kind ++ codes ")"))))
        e
    else wrap (codes "getting target " ++ key_text key) e

module _ (c : Cluster) where
  open c use {World, get_object, list_automations}

  written : TargetOutcome → Done World → Pass World
  written outcome d = record {
    outcome = record outcome { changed = d.changed };
    error = d.error;
    world = d.world;
  }

  stopped : TargetOutcome → Error → World → Pass World
  stopped outcome e w = record { outcome = outcome; error = some e; world = w }

  left : TargetOutcome → World → Pass World
  left outcome w = record { outcome = outcome; error = none; world = w }

  -- `declineTarget`
  unfoldable pub decline_target :
      Reconciler → TargetHandler → Object → TargetOutcome → Option ℤ → Bool → World → Pass World
  unfolding left written
  decline_target r handler target outcome found recorded w =
      if not recorded || r.dry_run
      then left outcome w
      else written (record outcome { level = describe_level handler.shape found })
          (release_target c handler target found w)

  -- The case of the switch with a claim.
  unfoldable pub settle_claimed :
      Reconciler
      → TargetHandler
      → Automation
      → Object
      → TargetOutcome
      → List Intent
      → Resolution
      → World
      → Pass World
  unfolding left written
  settle_claimed r handler self target outcome claims resolution w =
      let value = to_int32 resolution.level in
      let resolved = record outcome {
        effective = some value;
        level = describe handler.shape resolution.level;
        deferred_by =
            if outvoted outcome.desired value
            then without_claimant resolution.winners (claimant_of self)
            else [];
      } in
      if r.dry_run
      then left (withhold resolved) w
      else written resolved (claim_target c handler r.stamp target resolution claims w)

  -- The case without a claim but with a baseline.
  unfoldable pub settle_recorded :
      Reconciler → TargetHandler → Object → TargetOutcome → List Intent → World → Pass World
  unfolding left written level_of
  settle_recorded r handler target outcome reversals w =
      if r.dry_run
      then left (withhold outcome) w
      else written outcome (release_target c handler target (level_of (resolve reversals)) w)

  -- The switch at the end of `reconcileTarget`.
  unfoldable pub settle :
      Reconciler
      → TargetHandler
      → Automation
      → Object
      → TargetOutcome
      → List Intent
      → List Intent
      → Bool
      → World
      → Pass World
  unfolding left
  settle r handler self target outcome claims reversals recorded w = elim (resolve claims) [
    | some resolution ↦ settle_claimed r handler self target outcome claims resolution w
    | none ↦
        if recorded then settle_recorded r handler target outcome reversals w else left outcome w
  ]

  -- `reconcileTarget` from the managers on.
  unfoldable pub decide :
      Reconciler
      → TargetHandler
      → TargetKey
      → Automation
      → Stance
      → Object
      → TargetOutcome
      → Option ℤ
      → Bool
      → List Intent
      → List Intent
      → World
      → Pass World
  unfolding stopped
  decide r handler key self s target outcome found recorded claims reversals w =
      elim (foreign_manager_of c r.detect_hpa handler key w) [
        | err e ↦ stopped outcome e w
        | ok manager ↦
            if not (same manager [])
            then decline_target r handler target (record outcome { managed_by = manager }) found
                recorded w
            else settle r handler self target
                (record outcome {
                  preview =
                      if s.preview
                      then some (preview_for c handler self key target claims found w)
                      else none;
                })
                claims reversals recorded w
      ]

  -- The part of `reconcileTarget` between reading the target and asking for its managers.
  unfoldable pub arbitrate :
      Reconciler
      → TargetHandler
      → TargetKey
      → Automation
      → Stance
      → List Automation
      → Object
      → World
      → Pass World
  arbitrate r handler key self s items target w =
      let peers = referencing_automations key self items in
      let (found, recorded) = baseline_of handler target.annotations in
      let (claims, reversals) =
        gather key found (peer_matching r.now r.store self s.claiming) peers in
      decide r handler key self s target (asked handler key self s peers found) found recorded
        claims reversals w

  -- `reconcileTarget`
  unfoldable pub reconcile_target :
      Reconciler → TargetKey → Automation → Stance → World → Pass World
  unfolding stopped unreachable
  reconcile_target r key self s w = elim (handler_for key.kind) [
    | none ↦ stopped (blank key) (failure (codes "no handler for target kind " ++ key.kind)) w
    | some handler ↦ elim (list_automations w) [
      | err e ↦
          stopped (blank key) (wrap (codes "listing automations sharing target " ++ key_text key) e)
            w
      | ok items ↦ elim (get_object key w) [
        | err e ↦ stopped (blank key) (unreachable key e) w
        | ok target ↦ arbitrate r handler key self s items target w
      ]
    ]
  ]
