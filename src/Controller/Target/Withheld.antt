-- ===== src/Controller/Target/Withheld.antt =====
-- When a pass over a target writes nothing.
use unifi_reactor.Base.{
  Bool, true, false, List, [], Option, if◌then◌else◌, ◌≡◌, inl, inr, refl, Bool-cases, Option-cases,
}
use unifi_reactor.Base.Text.{same}
use unifi_reactor.Base.Int.{ℤ}
use unifi_reactor.Engine.Arbiter.{Intent, resolve}
use unifi_reactor.Controller.Automation.{Automation}
use unifi_reactor.Controller.Handlers.{TargetHandler, handler_for}
use unifi_reactor.Controller.Claims.{TargetKey}
use unifi_reactor.Controller.Cluster.{Cluster, Object}
use unifi_reactor.Controller.Cluster.Quiet.{Result-cases}
use unifi_reactor.Controller.Target.{
  Pass, Reconciler, Stance, TargetOutcome, asked, blank, withhold, arbitrate, decide,
  decline_target, reconcile_target, settle, settle_claimed, settle_recorded,
}
use unifi_reactor.Controller.Target.Managers.{foreign_manager_of}

-- The pass left the world as it was and reports no change.
abbrev pub Unwritten : {World : Type 0} → World → Pass World → Type 0
Unwritten w p = (p.world ≡ w) × (p.outcome.changed ≡ false)

module _ (c : Cluster) (r : Reconciler) (dry : r.dry_run ≡ true) where
  settle-Unwritten :
      (handler : TargetHandler) (self : Automation) (target : Object) (outcome : TargetOutcome)
      (claims reversals : List Intent) (recorded : Bool) (w : c.World)
      → outcome.changed ≡ false
      → Unwritten w (settle c r handler self target outcome claims reversals recorded w)
  unfolding settle settle_claimed settle_recorded withhold
  settle-Unwritten handler self target outcome claims reversals recorded w h =
      elim (Option-cases (resolve claims)) [
        | inr (res, e) ↦ rw (settle, e, settle_claimed, dry, if◌then◌else◌) (refl, h)
        | inl e ↦ elim (Bool-cases recorded) [
          | inl k ↦ rw (settle, e, k, if◌then◌else◌, settle_recorded, dry) (refl, h)
          | inr k ↦ rw (settle, e, k, if◌then◌else◌) (refl, h)
        ]
      ]

  decline-Unwritten :
      (handler : TargetHandler) (target : Object) (outcome : TargetOutcome) (found : Option ℤ)
      (recorded : Bool) (w : c.World)
      → outcome.changed ≡ false
      → Unwritten w (decline_target c r handler target outcome found recorded w)
  unfolding decline_target
  decline-Unwritten handler target outcome found true w h = rw (dry, if◌then◌else◌) (refl, h)
  decline-Unwritten handler target outcome found false w h = (refl, h)

  decide-Unwritten :
      (handler : TargetHandler) (key : TargetKey) (self : Automation) (s : Stance) (target : Object)
      (outcome : TargetOutcome) (found : Option ℤ) (recorded : Bool)
      (claims reversals : List Intent) (w : c.World)
      → outcome.changed ≡ false
      → Unwritten w (decide c r handler key self s target outcome found recorded claims reversals w)
  unfolding decide
  decide-Unwritten handler key self s target outcome found recorded claims reversals w h =
      elim (Result-cases (foreign_manager_of c r.detect_hpa handler key w)) [
        | inr (e, x) ↦ rw (decide, x) (refl, h)
        | inl (manager, x) ↦ elim (Bool-cases (same manager [])) [
          | inl y ↦
              rw (decide, x, y, if◌then◌else◌)
                (settle-Unwritten handler self target _ claims reversals recorded w h)
          | inr y ↦
              rw (decide, x, y, if◌then◌else◌)
                (decline-Unwritten handler target _ found recorded w h)
        ]
      ]

  -- In a dry run a pass over a target writes nothing on any of its branches.
  pub reconcile_target-Unwritten :
      (key : TargetKey) (self : Automation) (s : Stance) (w : c.World)
      → Unwritten w (reconcile_target c r key self s w)
  unfolding reconcile_target arbitrate blank asked
  reconcile_target-Unwritten key self s w = elim (Option-cases (handler_for key.kind)) [
    | inl e ↦ rw (reconcile_target, e) (refl, refl)
    | inr (handler, e) ↦ elim (Result-cases (c.list_automations w)) [
      | inr (x, y) ↦ rw (reconcile_target, e, y) (refl, refl)
      | inl (items, y) ↦ elim (Result-cases (c.get_object key w)) [
        | inr (x, z) ↦ rw (reconcile_target, e, y, z) (refl, refl)
        | inl (target, z) ↦
            rw (reconcile_target, e, y, z)
              (decide-Unwritten handler key self s target _ _ _ _ _ w refl)
      ]
    ]
  ]
