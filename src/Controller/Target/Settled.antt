-- ===== src/Controller/Target/Settled.antt =====
-- A pass over a target that somebody claims, on a cluster that accepts every call.
use unifi_reactor.Base.{
  Bool, false, List, [], Option, none, some, if◌then◌else◌, ◌≡◌, refl, subst, sym,
}
use unifi_reactor.Base.Text.{same}
use unifi_reactor.Base.Int.{ℤ, to_int32}
use unifi_reactor.Base.Sort.{text_order}
use unifi_reactor.Engine.Arbiter.{Intent, Resolution, resolve}
use unifi_reactor.Controller.Automation.{Automation}
use unifi_reactor.Controller.Handlers.{TargetHandler, handler_for}
use unifi_reactor.Controller.Claims.{TargetKey, baseline_of}
use unifi_reactor.Controller.Peers.{gather, peer_matching, referencing_automations}
use unifi_reactor.Controller.Cluster.{Cluster, Object, ok, read}
use unifi_reactor.Controller.Cluster.Quiet.{At, Attainable, Quiet}
use unifi_reactor.Controller.Holding.{claim_target}
use unifi_reactor.Controller.Holding.Held.{claim_target-At}
use unifi_reactor.Controller.Target.{
  Reconciler, Stance, TargetOutcome, decide, reconcile_target, settle, settle_claimed,
}
use unifi_reactor.Controller.Target.Reach.{reconcile_target-decide}
use unifi_reactor.Controller.Target.Managers.{foreign_manager_of}

module _ (c : Cluster) (q : Quiet c) (r : Reconciler) (key : TargetKey) (self : Automation)
    (s : Stance) (items : List Automation) (handler : TargetHandler) (target : Object) (w : c.World)
    (kind : handler_for key.kind ≡ some handler) (got : c.get_object key w ≡ ok target)
    (named : target.key ≡ key) (wet : r.dry_run ≡ false) where
  settle_lem :
      (outcome : TargetOutcome) (claims reversals : List Intent) (recorded : Bool)
      (resolution : Resolution) (v : ℤ)
      → resolve claims ≡ some resolution
      → read c handler.shape target w ≡ ok v
      → Attainable handler.shape resolution.level
      → let p = settle c r handler self target outcome claims reversals recorded w in
        (p.error ≡ none)
        × (p.outcome.effective ≡ some (to_int32 resolution.level))
        × At c handler.shape key resolution.level p.world
  unfolding settle settle_claimed
  settle_lem outcome claims reversals recorded resolution v e h i =
      let stored = subst (λ k. c.get_object k w ≡ ok target) (sym named) got in
      let l =
        claim_target-At c q key.kind handler r.stamp target resolution claims v w kind stored h i in
      let d = claim_target c handler r.stamp target resolution claims w in
      rw (settle, e, settle_claimed, wet, if◌then◌else◌)
        (l.0, refl, subst (λ k. At c handler.shape k resolution.level d.world) named l.1)

  -- On an API server that accepts every call, a pass over a target that can be read, which no
  -- other controller drives and which at least one Automation claims, at a resolved level that the
  -- target can be brought to: without a dry run it succeeds, reports the resolved level as the
  -- effective one, and the API server then holds the target at that level.
  pub reconcile_target_settled :
      (found : Option ℤ) (recorded : Bool) (claims reversals : List Intent)
      (resolution : Resolution) (v : ℤ)
      → c.list_automations w ≡ ok items
      → baseline_of handler target.annotations ≡ (found, recorded)
      → gather key found
          (peer_matching r.now r.store self s.claiming)
          (referencing_automations key self items)
        ≡ (claims, reversals)
      → foreign_manager_of c r.detect_hpa handler key w ≡ ok []
      → resolve claims ≡ some resolution
      → read c handler.shape target w ≡ ok v
      → Attainable handler.shape resolution.level
      → let p = reconcile_target c r key self s w in
        (p.error ≡ none)
        × (p.outcome.effective ≡ some (to_int32 resolution.level))
        × At c handler.shape key resolution.level p.world
  unfolding decide same
  reconcile_target_settled found recorded claims reversals resolution v listed b g m e h i =
      rw
        (
          reconcile_target-decide c r key self s items handler target w kind listed got found
              recorded claims reversals b g,
          decide,
          m,
          if◌then◌else◌,
        )
        (settle_lem _ claims reversals recorded resolution v e h i)
