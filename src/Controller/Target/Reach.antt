-- ===== src/Controller/Target/Reach.antt =====
-- A pass over a target that can be read comes to the question of who manages it.
use unifi_reactor.Base.{Bool, List, Option, some, ◌≡◌, refl}
use unifi_reactor.Base.Int.{ℤ}
use unifi_reactor.Engine.Arbiter.{Intent}
use unifi_reactor.Controller.Automation.{Automation}
use unifi_reactor.Controller.Handlers.{TargetHandler, handler_for}
use unifi_reactor.Controller.Claims.{TargetKey, baseline_of}
use unifi_reactor.Controller.Peers.{gather, peer_matching, referencing_automations}
use unifi_reactor.Controller.Cluster.{Cluster, Object, ok}
use unifi_reactor.Controller.Target.{Reconciler, Stance, arbitrate, asked, decide, reconcile_target}

module _ (c : Cluster) (r : Reconciler) (key : TargetKey) (self : Automation) (s : Stance)
    (items : List Automation) (handler : TargetHandler) (target : Object) (w : c.World)
    (kind : handler_for key.kind ≡ some handler) (listed : c.list_automations w ≡ ok items)
    (got : c.get_object key w ≡ ok target) where
  arbitrate-decide :
      (found : Option ℤ) (recorded : Bool) (claims reversals : List Intent)
      → baseline_of handler target.annotations ≡ (found, recorded)
      → gather key found
          (peer_matching r.now r.store self s.claiming)
          (referencing_automations key self items)
        ≡ (claims, reversals)
      → arbitrate c r handler key self s items target w
        ≡ decide c r handler key self s target
            (asked handler key self s (referencing_automations key self items) found)
            found
            recorded
            claims
            reversals
            w
  unfolding arbitrate
  arbitrate-decide found recorded claims reversals b g = rw (b, g) refl

  pub reconcile_target-decide :
      (found : Option ℤ) (recorded : Bool) (claims reversals : List Intent)
      → baseline_of handler target.annotations ≡ (found, recorded)
      → gather key found
          (peer_matching r.now r.store self s.claiming)
          (referencing_automations key self items)
        ≡ (claims, reversals)
      → reconcile_target c r key self s w
        ≡ decide c r handler key self s target
            (asked handler key self s (referencing_automations key self items) found)
            found
            recorded
            claims
            reversals
            w
  unfolding reconcile_target
  reconcile_target-decide found recorded claims reversals b g =
      rw (reconcile_target, kind, listed, got)
        (arbitrate-decide found recorded claims reversals b g)
