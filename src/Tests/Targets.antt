-- ===== src/Tests/Targets.antt =====
-- internal/controller at one Deployment of a cluster that accepts every call.
use mathlib.Core.List.{Memᴰ}
use unifi_reactor.Base.{
  zero, inl, inr, Bool-cases, suc, Option, not, ◌&&◌, ◌⊎◌, ◌||◌, if◌then◌else◌, true, false, List,
  [], ◌∷◌, none, some, ◌≡◌, refl, sym, subst, arith, Bool,
}
use unifi_reactor.Base.Text.{Text, codes, same, same_refl, same→eq}
use unifi_reactor.Base.Int.{ltb_ℤ, add_ℤ, ℤ, pos, negsuc, to_int32, same_ℤ}
use unifi_reactor.Base.Sort.{sort_by}
use unifi_reactor.Base.Dict.{lookup}
use unifi_reactor.Engine.Arbiter.{Intent, Resolution, resolve, lowest, winners_at, deferred_at}
use unifi_reactor.Controller.Automation.{Action, Automation, unset}
use unifi_reactor.Controller.Handlers.{
  Shape, TargetHandler, annotation_baseline_replicas, format, handler_for, replica, switch,
  replica_handler, level_of_action, level_of_flag, cluster_scoped_kind,
}
use unifi_reactor.Controller.Claims.{
  TargetKey, baseline_of, claim_for, claimant_of, targets_of, level_for, is_desired_state,
  targets_key, target_key_for, same_key,
}
use unifi_reactor.Controller.Peers.{
  gather, gather_peer, other_peers, is_peer, peer_matching, referencing_automations,
}
use unifi_reactor.Controller.Cluster.{
  Autoscaler, Cluster, Object, Replicas, Result, unset_replicas, ok, err, failure, count, read,
  apply, map_error, nested_bool, scale_of, replicas_or,
}
use unifi_reactor.Controller.Cluster.Quiet.{Applied, At, Quiet, Shows, apply_lem}
use unifi_reactor.Controller.Holding.{claim_target, release_target}
use unifi_reactor.Controller.Holding.Held.{claim_target_recorded, claim_target_unrecorded}
use unifi_reactor.Controller.Holding.Restored.{
  Unclaimed, release_target_lem, release_target-claim_target,
}
use unifi_reactor.Controller.Finalizer.{
  finalize, finalizer_release_claims, no_targets, reconcile_finalizer, reconcile_keys,
  reconcile_targets,
}
use unifi_reactor.Controller.Finalizer.Registry.{
  FinalizerLaws, IsLetGo, IsRefused, IsRetried, Kept, Registry, holds,
}
use unifi_reactor.Controller.Finalizer.Release.{
  finalize_lem, finalize_thrice, reconcile_finalizer_lem, reconcile_targets_dry_run,
}
use unifi_reactor.Controller.Sweep.{group_claimants}
use unifi_reactor.Controller.Sweep.Groups.{
  IsOncePerTarget, all_naming, claimants_of, group_claimants_lem,
}
use unifi_reactor.Controller.Target.{Reconciler, Stance, reconcile_target}
use unifi_reactor.Controller.Target.Managers.{foreign_manager_of, first_driver}
use unifi_reactor.Controller.Target.Settled.{reconcile_target_settled}
use unifi_reactor.Controller.Target.Driven.{Drives, autoscaler_text, reconcile_target_driven}
use unifi_reactor.Controller.Target.Unclaimed.{reconcile_target_unclaimed}
use unifi_reactor.Controller.Target.Withheld.{Unwritten, reconcile_target-Unwritten}

abbrev key : TargetKey
key = record { kind = codes "Deployment"; namespace = codes "media"; name = codes "qbit" }

abbrev scale : ℤ → Action
scale n = record {
  action_type = codes "kubernetes.scale";
  target = some (record { kind = codes "Deployment"; name = codes "qbit"; namespace = [] });
  replicas = some n;
  suspended = none;
  cordoned = none;
  timeout_seconds = none;
}

abbrev self : Automation
self = record {
  namespace = codes "media";
  name = codes "wan";
  deleting = false;
  finalizers = [];
  spec = record {
    when = some (record { provider = codes "unifi"; state = (codes "wan", codes "backup") ∷ [] });
    actions = scale (pos 1) ∷ [];
    on_exit = [];
    reversal = unset;
    dry_run = false;
    suspend = false;
  };
  status = record {
    matching = none;
    observed_state = [];
    last_execution = none;
    release_attempts = pos 0;
  };
}

abbrev leaving : Automation
leaving = record self { deleting = true; finalizers = finalizer_release_claims ∷ [] }

abbrev hpa : Autoscaler
hpa = record {
  name = codes "h";
  target_ref = some (
      (codes "apiVersion", codes "apps/v1")
      ∷ (codes "kind", codes "Deployment")
      ∷ (codes "name", codes "qbit")
      ∷ []);
}

some_same : List Text → Text → Bool
some_same [] f = false
some_same (g ∷ fs) f = same g f || some_same fs f

all_others : List Text → Text → List Text
all_others [] f = []
all_others (g ∷ fs) f = let rest = all_others fs f in if same g f then rest else g ∷ rest

-- A scale leaves its replicas out at 0.
abbrev scaled : ℤ → Replicas
scaled (pos zero) = unset_replicas
scaled (pos (suc n)) = count (pos (suc n))
scaled (negsuc n) = count (negsuc n)

scaled-Shows : (n : ℤ) → Shows n (scaled n)
scaled-Shows (pos zero) = refl
scaled-Shows (pos (suc n)) = refl
scaled-Shows (negsuc n) = refl

-- One object, its scale, the Automation above and some autoscalers.
abbrev listing : Result (List Automation) → List Autoscaler → Cluster
listing listed scalers = record {
  World = Object × Replicas × Option Automation;
  get_object = λ k w. ok w.0;
  get_scale = λ k w. ok w.1;
  update_scale = λ k n w. (none, (w.0, scaled n, w.2));
  patch_object = λ guard before after w. (ok after, (after, w.1, w.2));
  list_automations = λ w. listed;
  list_automations_in = λ namespace w. ok (self ∷ []);
  update_automation = λ a w. (none, (w.0, w.1, some a));
  update_status = λ a w. (none, (w.0, w.1, some a));
  contains_finalizer = some_same;
  add_finalizer = λ fs f. f ∷ fs;
  remove_finalizer = all_others;
  list_autoscalers = λ namespace w. ok scalers;
}

abbrev one : List Autoscaler → Cluster
one scalers = listing (ok (self ∷ [])) scalers

quiet : (scalers : List Autoscaler) → Quiet (one scalers)
quiet scalers = record {
  patch_accepted = λ guard before after w st same_key. refl;
  patch_stored = λ guard before after w st same_key. refl;
  patch_keeps_scale = λ guard before after w k. refl;
  update_accepted = λ k n w r i h. refl;
  update_stored = λ k n w r i h. (scaled n, refl, scaled-Shows n);
  update_keeps_object = λ k n w. refl;
}

abbrev fresh : Object
fresh = record { key = key; annotations = []; spec = [] }

abbrev held : Object
held = record { key = key; annotations = (annotation_baseline_replicas, codes "3") ∷ []; spec = [] }

abbrev deployment : TargetHandler
deployment = record {
  group = codes "apps";
  kind = codes "Deployment";
  cluster_scoped = false;
  contested = true;
  baseline = annotation_baseline_replicas;
  action_type = codes "kubernetes.scale";
  shape = replica;
}

abbrev reconciler : Bool → Reconciler
reconciler dry = record {
  dry_run = dry;
  detect_hpa = true;
  store = record { current = []; debounce = []; stale_after = [] };
  now = pos 9;
  stamp = codes "t";
}

abbrev stance : Bool → Stance
stance claiming = record { matching = claiming; claiming = claiming; preview = false }

abbrev claims : List Intent
claims = record { claimant = codes "media/wan"; level = pos 1 } ∷ []

abbrev verdict : Resolution
verdict = record { level = pos 1; winners = codes "media/wan" ∷ []; deferred = [] }

known : handler_for key.kind ≡ some deployment
unfolding handler_for replica_handler same
known = refl

abbrev suspend : Shape
suspend = switch (codes "suspend") (codes "suspended") (codes "running")

abbrev start : Object → Object × Replicas × Option Automation
start obj = (obj, count (pos 3), some leaving)

reads_switch : read (one []) suspend fresh (start fresh) ≡ ok (pos 1)
unfolding read map_error nested_bool lookup level_of_flag
reads_switch = refl

reads_replica :
    (scalers : List Autoscaler) (obj : Object)
    → read (one scalers) replica obj (start obj) ≡ ok (pos 3)
unfolding read map_error scale_of replicas_or
reads_replica scalers obj = refl

apply_lem_example :
    Applied (one []) suspend fresh (pos 0) (apply (one []) suspend fresh (pos 0) (start fresh))
apply_lem_example =
    apply_lem (one []) (quiet []) suspend fresh (pos 0) (pos 1) (start fresh) refl reads_switch tt

claim_target_recorded_example :
    let d = claim_target (one []) deployment (codes "t") held verdict claims (start held) in
    (d.error ≡ none)
    × At (one []) replica key (pos 1) d.world
    × ((one []).get_object key d.world ≡ ok d.target)
    × (lookup annotation_baseline_replicas d.target.annotations ≡ some (codes "3"))
claim_target_recorded_example =
    claim_target_recorded (one []) (quiet []) key.kind deployment (codes "t") held verdict claims
      (pos 3) (start held) known refl (reads_replica [] held) (omega arith) (codes "3")
      (unfold lookup same in refl)

claim_target_unrecorded_example :
    let d = claim_target (one []) deployment (codes "t") fresh verdict claims (start fresh) in
    (d.error ≡ none)
    × At (one []) replica key (pos 1) d.world
    × ((one []).get_object key d.world ≡ ok d.target)
    × (lookup annotation_baseline_replicas d.target.annotations ≡ some (format replica (pos 3)))
claim_target_unrecorded_example =
    claim_target_unrecorded (one []) (quiet []) key.kind deployment (codes "t") fresh verdict claims
      (pos 3) (start fresh) known refl (reads_replica [] fresh) (omega arith)
      (unfold lookup in refl) (omega arith)

release_target_lem_example :
    let d = release_target (one []) deployment held (some (pos 5)) (start held) in
    (d.error ≡ none)
    × At (one []) replica key (pos 5) d.world
    × ((one []).get_object key d.world ≡ ok d.target)
    × Unclaimed d.target
release_target_lem_example =
    release_target_lem (one []) (quiet []) deployment held (pos 5) (pos 3) (start held) refl
      (reads_replica [] held) (omega arith)

release_target-claim_target_example :
    let d = claim_target (one []) deployment (codes "t") fresh verdict claims (start fresh) in
    let e =
      release_target
        (one [])
        deployment
        d.target
        (baseline_of deployment d.target.annotations).0
        d.world in
    (e.error ≡ none)
    × At (one []) replica key (pos 3) e.world
    × ((one []).get_object key e.world ≡ ok e.target)
    × Unclaimed e.target
release_target-claim_target_example =
    release_target-claim_target (one []) (quiet []) key.kind deployment (codes "t") fresh verdict
      claims (pos 3) (start fresh) known refl (reads_replica [] fresh) (omega arith)
      (unfold lookup in refl) (omega arith) (omega arith)

reconcile_target-Unwritten_example :
    Unwritten
      (start fresh)
      (reconcile_target (one []) (reconciler true) key self (stance true) (start fresh))
reconcile_target-Unwritten_example =
    reconcile_target-Unwritten (one []) (reconciler true) refl key self (stance true) (start fresh)

alone : referencing_automations key self (self ∷ []) ≡ self ∷ []
unfolding referencing_automations other_peers is_peer claimant_of same
alone = refl

self_unclaiming :
    claim_for self key
      (peer_matching (reconciler false).now (reconciler false).store self false self)
    ≡ none
unfolding claim_for peer_matching claimant_of same
self_unclaiming = refl

no_claim_of :
    (peer : Automation)
    → Memᴰ peer (self ∷ [])
    → claim_for peer key
        (peer_matching (reconciler false).now (reconciler false).store self false peer)
      ≡ none
no_claim_of peer (Memᴰ.head e) =
    subst
      (λ p.
        claim_for p key (peer_matching (reconciler false).now (reconciler false).store self false p)
        ≡ none)
      (sym e) self_unclaiming
no_claim_of peer (Memᴰ.tail m) = elim m [ ]

no_claim :
    (peer : Automation)
    → Memᴰ peer (referencing_automations key self (self ∷ []))
    → claim_for peer key
        (peer_matching (reconciler false).now (reconciler false).store self false peer)
      ≡ none
no_claim peer m = no_claim_of peer (subst (λ l. Memᴰ peer l) alone m)

reconcile_target_unclaimed_example :
    Unwritten
      (start fresh)
      (reconcile_target (one []) (reconciler false) key self (stance false) (start fresh))
reconcile_target_unclaimed_example =
    reconcile_target_unclaimed (one []) (reconciler false) key self (stance false) (self ∷ [])
      deployment fresh (start fresh) known refl refl (unfold lookup in refl) no_claim

driven : Drives deployment (codes "qbit") hpa
unfolding lookup same
driven = (_, refl, inr (codes "v1", (refl, (refl, (refl, (refl, tt)))), refl), refl, refl)

reconcile_target_driven_example :
    let p =
      reconcile_target (one (hpa ∷ [])) (reconciler false) key self (stance true) (start fresh) in
    Unwritten (start fresh) p
    × (h : Autoscaler) × Memᴰ h (hpa ∷ [])
    × Drives deployment (codes "qbit") h
    × (p.outcome.managed_by ≡ autoscaler_text (codes "media") h.name)
reconcile_target_driven_example =
    reconcile_target_driven (one (hpa ∷ [])) (reconciler false) key self (stance true) (self ∷ [])
      deployment fresh (start fresh) (hpa ∷ []) hpa known refl refl (unfold lookup in refl) refl
      refl refl (Memᴰ.head refl) driven

gathered :
    gather key none
      (peer_matching (reconciler false).now (reconciler false).store self true)
      (referencing_automations key self (self ∷ []))
    ≡ (claims, [])
unfolding gather gather_peer peer_matching referencing_automations other_peers is_peer claim_for
    claimant_of level_for is_desired_state targets_key target_key_for cluster_scoped_kind
    handler_for same_key same level_of_action
gathered = refl

unrecorded : baseline_of deployment fresh.annotations ≡ (none, false)
unfolding baseline_of lookup
unrecorded = refl

undriven : foreign_manager_of (one []) true deployment key (start fresh) ≡ ok []
unfolding foreign_manager_of first_driver
undriven = refl

resolved : resolve claims ≡ some verdict
unfolding resolve lowest winners_at deferred_at sort_by same_ℤ
resolved = refl

reconcile_target_settled_example :
    let p = reconcile_target (one []) (reconciler false) key self (stance true) (start fresh) in
    (p.error ≡ none)
    × (p.outcome.effective ≡ some (to_int32 (pos 1)))
    × At (one []) replica key (pos 1) p.world
reconcile_target_settled_example =
    reconcile_target_settled (one []) (quiet []) (reconciler false) key self (stance true)
      (self ∷ []) deployment fresh (start fresh) known refl refl refl none false claims [] verdict
      (pos 3) refl unrecorded gathered undriven resolved (reads_replica [] fresh) (omega arith)

some_same-all_others : (fs : List Text) (f : Text) → some_same (all_others fs f) f ≡ false
unfolding some_same all_others
some_same-all_others [] f = refl
some_same-all_others (g ∷ fs) f = ground (arith, some_same-all_others fs f)

some_same_first : (fs : List Text) (f : Text) → some_same (f ∷ fs) f ≡ true
unfolding some_same
some_same_first fs f = ground (arith, same_refl f)

laws : (listed : Result (List Automation)) → FinalizerLaws (listing listed [])
unfolding some_same
laws listed = record { removed = some_same-all_others; added = some_same_first; absent = λ f. refl }

-- The Automation of the world, as long as it bears this name.
bears : Automation → Option Automation → Option Automation
bears a none = none
bears a (some b) = if same b.namespace a.namespace && same b.name a.name then some b else none

bears-named :
    (o : Option Automation) (b : Automation)
    → bears self o ≡ some b
    → (b.namespace ≡ codes "media") × (b.name ≡ codes "wan")
unfolding bears
bears-named none b h = ground arith
bears-named (some d) b h =
    elim (Bool-cases (same d.namespace self.namespace && same d.name self.name)) [
      | inr e ↦ ground (arith, e, h)
      | inl e ↦
          let there : d ≡ b = ground (arith, e, h) in
          subst (λ t. (t.namespace ≡ codes "media") × (t.name ≡ codes "wan")) there
            (
              ground (arith, e, same→eq d.namespace self.namespace),
              ground (arith, e, same→eq d.name self.name),
            )
    ]

bears_kept :
    (b : Automation)
    → (b.namespace ≡ codes "media") × (b.name ≡ codes "wan")
    → bears self (some b) ≡ some b
unfolding bears
bears_kept b (e, f) = rw (e, f, same_refl self.namespace, same_refl self.name) refl

registry :
    (listed : Result (List Automation)) → Registry (listing listed []) (codes "media") (codes "wan")
registry listed = record {
  stored = λ w. bears self w.2;
  named = λ w a h. bears-named w.2 a h;
  update_stored = λ a w n h. subst (Kept a) (sym (bears_kept a n)) refl;
  status_stored = λ a w n h. (a, bears_kept a n, refl);
}

abbrev at_home : Registry (one []) (codes "media") (codes "wan")
at_home = registry (ok (self ∷ []))

there : at_home.stored (start held) ≡ some leaving
unfolding registry bears same
there = refl

reconcile_targets_dry_run_example :
    (reconcile_targets (one []) (reconciler true) self (stance true) (start held)).world
    ≡ start held
reconcile_targets_dry_run_example =
    reconcile_targets_dry_run (one []) (reconciler true) self (stance true) (start held) refl

reconcile_finalizer_lem_example :
    (((reconcile_finalizer (one []) (reconciler false) leaving (start held)).error ≡ none)
      × (holds (one []) (
            at_home.stored
              (reconcile_finalizer (one []) (reconciler false) leaving (start held)).world)
          ≡ (not (no_targets (targets_of leaving)) && true)))
    ⊎ IsRefused
        (one [])
        at_home
        (reconcile_finalizer (one []) (reconciler false) leaving (start held))
reconcile_finalizer_lem_example =
    reconcile_finalizer_lem (one []) at_home (laws (ok (self ∷ []))) (reconciler false) leaving
      (start held) there

finalize_lem_example :
    IsLetGo (one []) at_home (finalize (one []) (reconciler false) leaving (start held))
    ⊎ (IsRetried
          (one [])
          at_home
          leaving
          (finalize (one []) (reconciler false) leaving (start held))
        ⊎ IsRefused (one []) at_home (finalize (one []) (reconciler false) leaving (start held)))
finalize_lem_example =
    finalize_lem (one []) at_home (laws (ok (self ∷ []))) (reconciler false) leaving (start held)
      there

-- A server that lists no Automation: no target can be released.
abbrev unlisted : Result (List Automation)
unlisted = err (failure (codes "timeout"))

abbrev attempted : ℤ → Automation
attempted n = record leaving { status = record leaving.status { release_attempts = n } }

abbrev keeps : ℤ → Object × Replicas × Option Automation
keeps n = (held, count (pos 3), some (attempted n))

kept : (n : ℤ) → (registry unlisted).stored (keeps n) ≡ some (attempted n)
unfolding registry bears same
kept n = refl

finalize_thrice_example :
    holds (listing unlisted []) (
      (registry unlisted).stored
        (finalize
          (listing unlisted [])
          (reconciler false)
          (attempted (pos 2))
          (keeps (pos 2))).world)
    ≡ false
unfolding finalize some_same same reconcile_targets reconcile_keys targets_of reconcile_target
    registry bears handler_for replica_handler ltb_ℤ to_int32 add_ℤ is_desired_state targets_key
    target_key_for cluster_scoped_kind same_key sort_by
    unifi_reactor.Controller.Claims.collect_targets unifi_reactor.Controller.Claims.contains_key
finalize_thrice_example =
    finalize_thrice (listing unlisted []) (registry unlisted) (laws unlisted) (reconciler false)
      (attempted (pos 0)) (attempted (pos 1)) (attempted (pos 2)) (keeps (pos 0)) (keeps (pos 1))
      (keeps (pos 2)) refl (kept (pos 0)) refl refl (kept (pos 1)) refl refl (kept (pos 2)) refl

group_claimants_lem_example :
    IsOncePerTarget (group_claimants (self ∷ leaving ∷ []) [])
    × (claimants_of (group_claimants (self ∷ leaving ∷ []) []) key
        ≡ all_naming (self ∷ leaving ∷ []) key)
group_claimants_lem_example = group_claimants_lem (self ∷ leaving ∷ []) key
