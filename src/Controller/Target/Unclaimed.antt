-- ===== src/Controller/Target/Unclaimed.antt =====
-- A target that nobody holds, and one that another controller drives.
use mathlib.Core.List.{Memᴰ}
use unifi_reactor.Base.{
  Bool, false, List, [], ◌∷◌, Option, none, some, if◌then◌else◌, ◌≡◌, inl, inr, refl, ◌∙◌, arith,
  Bool-cases,
}
use unifi_reactor.Base.Text.{Text, same}
use unifi_reactor.Base.Int.{ℤ}
use unifi_reactor.Base.Dict.{lookup}
use unifi_reactor.Engine.Arbiter.{Intent, resolve}
use unifi_reactor.Controller.Automation.{Automation}
use unifi_reactor.Controller.Handlers.{TargetHandler, handler_for}
use unifi_reactor.Controller.Claims.{TargetKey, baseline_of, claim_for}
use unifi_reactor.Controller.Peers.{gather, gather_peer, peer_matching, referencing_automations}
use unifi_reactor.Controller.Cluster.{Cluster, Object, ok}
use unifi_reactor.Controller.Cluster.Quiet.{Result-cases}
use unifi_reactor.Controller.Target.{
  Reconciler, Stance, TargetOutcome, asked, blank, decide, decline_target, reconcile_target, settle,
}
use unifi_reactor.Controller.Target.Reach.{reconcile_target-decide}
use unifi_reactor.Controller.Target.Managers.{foreign_manager_of}
use unifi_reactor.Controller.Target.Withheld.{Unwritten}

-- What one peer without a claim adds to the claims: nothing.
gather_peer_unclaimed :
    (key : TargetKey) (found : Option ℤ) (matching : Bool) (peer : Automation)
    (acc : List Intent × List Intent)
    → claim_for peer key matching ≡ none
    → (gather_peer key found matching peer acc).0 ≡ acc.0
unfolding gather_peer
gather_peer_unclaimed key found matching peer (claims, reversals) h = ground arith

gather_unclaimed :
    (key : TargetKey) (found : Option ℤ) (matching : Automation → Bool) (peers : List Automation)
    → ((peer : Automation) → Memᴰ peer peers → claim_for peer key (matching peer) ≡ none)
    → (gather key found matching peers).0 ≡ []
unfolding gather
gather_unclaimed key found matching [] h = refl
gather_unclaimed key found matching (peer ∷ peers) h =
    gather_peer_unclaimed key found (matching peer) peer _ (h peer (Memᴰ.head refl))
    ∙ gather_unclaimed key found matching peers (λ p m. h p (Memᴰ.tail m))

module _ (c : Cluster) (r : Reconciler) (key : TargetKey) (self : Automation) (s : Stance)
    (items : List Automation) (handler : TargetHandler) (target : Object) (w : c.World)
    (kind : handler_for key.kind ≡ some handler) (listed : c.list_automations w ≡ ok items)
    (got : c.get_object key w ≡ ok target)
    (unrecorded : lookup handler.baseline target.annotations ≡ none) where
  baseline_of_unrecorded : baseline_of handler target.annotations ≡ (none, false)
  unfolding baseline_of
  baseline_of_unrecorded = rw (baseline_of, unrecorded) refl

  abbrev gathered : List Intent × List Intent
  gathered =
      gather key none (peer_matching r.now r.store self s.claiming)
        (referencing_automations key self items)

  reach :
      reconcile_target c r key self s w
      ≡ decide c r handler key self s target
          (asked handler key self s (referencing_automations key self items) none)
          none
          false
          gathered.0
          gathered.1
          w
  reach =
      reconcile_target-decide c r key self s items handler target w kind listed got none false
        gathered.0 gathered.1 baseline_of_unrecorded refl

  decide_unclaimed :
      (reversals : List Intent) (outcome : TargetOutcome)
      → outcome.changed ≡ false
      → Unwritten w (decide c r handler key self s target outcome none false [] reversals w)
  unfolding decide settle decline_target resolve
  decide_unclaimed reversals outcome h =
      elim (Result-cases (foreign_manager_of c r.detect_hpa handler key w)) [
        | inr (e, x) ↦ rw (decide, x) (refl, h)
        | inl (manager, x) ↦ elim (Bool-cases (same manager [])) [
          | inl y ↦ rw (decide, x, y, if◌then◌else◌) (refl, h)
          | inr y ↦ rw (decide, x, y, if◌then◌else◌) (refl, h)
        ]
      ]

  -- A target without a recorded baseline that no referencing Automation claims is left alone,
  -- whether or not it has a foreign manager and whatever the stance asks for.
  pub reconcile_target_unclaimed :
      ((peer : Automation)
        → Memᴰ peer (referencing_automations key self items)
        → claim_for peer key (peer_matching r.now r.store self s.claiming peer) ≡ none)
      → Unwritten w (reconcile_target c r key self s w)
  unfolding asked blank
  reconcile_target_unclaimed h =
      rw (reach, gather_unclaimed key none _ (referencing_automations key self items) h)
        (decide_unclaimed gathered.1 _ refl)

  decide_managed :
      (claims reversals : List Intent) (outcome : TargetOutcome) (manager : Text)
      → outcome.changed ≡ false
      → foreign_manager_of c r.detect_hpa handler key w ≡ ok manager
      → same manager [] ≡ false
      → Unwritten w (decide c r handler key self s target outcome none false claims reversals w)
        × ((decide c r handler key self s target outcome none false claims reversals
              w).outcome.managed_by
            ≡ manager)
  unfolding decide decline_target
  decide_managed claims reversals outcome manager h x y =
      rw (decide, x, y, if◌then◌else◌) ((refl, h), refl)

  -- A target without a recorded baseline that another controller drives is left alone also when
  -- Automations claim it, and the outcome names that controller.
  pub reconcile_target_managed :
      (manager : Text)
      → foreign_manager_of c r.detect_hpa handler key w ≡ ok manager
      → same manager [] ≡ false
      → Unwritten w (reconcile_target c r key self s w)
        × ((reconcile_target c r key self s w).outcome.managed_by ≡ manager)
  unfolding asked blank
  reconcile_target_managed manager x y =
      rw reach (decide_managed gathered.0 gathered.1 _ manager refl x y)
