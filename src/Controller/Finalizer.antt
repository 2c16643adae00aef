-- ===== src/Controller/Finalizer.antt =====
-- internal/controller/automation_controller.go: `reconcileTargets`, and the finalizer that lets a
-- deleted Automation hand its targets back. Conditions, Events and logs are left out.
pub mod Registry
pub mod Release
use unifi_reactor.Base.{
  Bool, true, false, not, ◌&&◌, ◌||◌, List, [], ◌∷◌, ◌++◌, Option, none, some, if◌then◌else◌,
}
use unifi_reactor.Base.Text.{Text, codes, same}
use unifi_reactor.Base.Int.{ℤ, pos, ltb_ℤ, add_ℤ, mul_ℤ, to_int32}
use unifi_reactor.Controller.Automation.{Automation}
use unifi_reactor.Controller.Claims.{TargetKey, targets_of}
use unifi_reactor.Controller.Cluster.{Cluster, Error}
use unifi_reactor.Controller.Target.{Pass, Reconciler, Stance, TargetOutcome, reconcile_target}

abbrev pub finalizer_release_claims : Text
finalizer_release_claims = codes "reactor.robbeverhelst.com/release-claims"

abbrev pub max_release_attempts : ℤ
max_release_attempts = pos 3

-- In nanoseconds.
abbrev pub release_retry_interval : ℤ
release_retry_interval = pos 5000000000

-- What `reconcileTargets` returns, and the world after it.
pub record Passes (World : Type 0) : Type 0 where
  pub outcomes : List TargetOutcome
  pub error : Option Error
  pub world : World

-- What `finalize` or `reconcileFinalizer` leaves of the Automation in memory, when it asks to be called again (0 is never),
-- its error and the world.
pub record Finalized (World : Type 0) : Type 0 where
  pub automation : Automation
  pub requeue_after : ℤ
  pub error : Option Error
  pub world : World

abbrev pub no_targets : List TargetKey → Bool
no_targets [] = true
no_targets (key ∷ keys) = false

-- The stance of an Automation that is being deleted.
abbrev pub gone : Stance
gone = record { matching = false; claiming = false; preview = false }

module _ (c : Cluster) where
  open c use {
    World, add_finalizer, contains_finalizer, remove_finalizer, update_automation, update_status,
  }

  -- The loop of `reconcileTargets`, which ends at the first error.
  unfoldable pub reconcile_keys :
      Reconciler → Automation → Stance → List TargetKey → List TargetOutcome → World → Passes World
  reconcile_keys r self s [] outcomes w = record { outcomes = outcomes; error = none; world = w }
  reconcile_keys r self s (key ∷ keys) outcomes w =
      let p = reconcile_target c r key self s w in
      let rest = reconcile_keys r self s keys (outcomes ++ (p.outcome ∷ [])) p.world in
      elim p.error [
        | some e ↦ record {
          outcomes = outcomes ++ (p.outcome ∷ []);
          error = some e;
          world = p.world;
        }
        | none ↦ rest
      ]

  -- `reconcileTargets`
  unfoldable pub reconcile_targets : Reconciler → Automation → Stance → World → Passes World
  reconcile_targets r self s w = reconcile_keys r self s (targets_of self) [] w

  abbrev pub untouched : Automation → World → Finalized World
  untouched a w = record { automation = a; requeue_after = pos 0; error = none; world = w }

  -- `r.Update` of the Automation in memory
  pub updated : Automation → World → Finalized World
  updated a w =
      let (sent, w') = update_automation a w in
      record { automation = a; requeue_after = pos 0; error = sent; world = w' }

  -- `reconcileFinalizer`: nothing is asked to be called again.
  unfoldable pub reconcile_finalizer : Reconciler → Automation → World → Finalized World
  unfolding updated
  reconcile_finalizer r a w =
      let has = contains_finalizer a.finalizers finalizer_release_claims in
      let wanted = not (no_targets (targets_of a)) && not r.dry_run in
      let added = record a { finalizers = add_finalizer a.finalizers finalizer_release_claims } in
      let removed = record a {
        finalizers = remove_finalizer a.finalizers finalizer_release_claims;
      } in
      if wanted
      then if has then untouched a w else updated added w
      else if has
      then updated removed w
      else untouched a w

  -- The end of `finalize`: the finalizer goes.
  pub let_delete : Automation → World → Finalized World
  unfolding updated
  let_delete a w =
      updated (record a { finalizers = remove_finalizer a.finalizers finalizer_release_claims }) w

  -- A release that failed: it is tried again after a while, or given up.
  retry_release : Automation → World → Finalized World
  unfolding let_delete
  retry_release a w =
      let attempts = to_int32 (add_ℤ a.status.release_attempts (pos 1)) in
      let after = record a { status = record a.status { release_attempts = attempts } } in
      let (sent, w') = update_status after w in
      let again : Finalized World = elim sent [
        | some e ↦ record { automation = after; requeue_after = pos 0; error = some e; world = w' }
        | none ↦ record {
          automation = after;
          requeue_after = mul_ℤ attempts release_retry_interval;
          error = none;
          world = w';
        }
      ] in
      if ltb_ℤ attempts max_release_attempts then again else let_delete a w

  -- `finalize`
  unfoldable pub finalize : Reconciler → Automation → World → Finalized World
  unfolding let_delete retry_release
  finalize r a w =
      let p = reconcile_targets r a gone w in
      let released : Finalized World = elim p.error [
        | none ↦ let_delete a p.world
        | some e ↦ retry_release a p.world
      ] in
      if contains_finalizer a.finalizers finalizer_release_claims then released else untouched a w
