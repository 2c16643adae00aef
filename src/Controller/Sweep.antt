-- ===== src/Controller/Sweep.antt =====
-- internal/controller/release.go: the sweep that hands back every target before the operator is
-- uninstalled. Stopping the operator first (`stopManager`) is left out: the world given is the one
-- after it, and its failure is only logged.
pub mod Groups
use unifi_reactor.Base.{
  ℕ, suc, Bool, true, false, not, ◌&&◌, ◌||◌, List, [], ◌∷◌, ◌++◌, Option, none, some,
  if◌then◌else◌,
}
use unifi_reactor.Base.Text.{Text, codes, same}
use unifi_reactor.Base.Int.{ℤ}
use unifi_reactor.Base.Dict.{is_some}
use unifi_reactor.Engine.Arbiter.{Resolution, resolve}
use unifi_reactor.Controller.Automation.{Automation}
use unifi_reactor.Controller.Handlers.{TargetHandler, handler_for}
use unifi_reactor.Controller.Claims.{
  TargetKey, baseline_of, key_text, reversal_intents, same_key, targets_of,
}
use unifi_reactor.Controller.Cluster.{
  Cluster, Done, Error, ErrorClass, not_found, Object, Result, ok, err, failure, wrap,
}
use unifi_reactor.Controller.Holding.{release_target}
use unifi_reactor.Controller.Finalizer.{finalizer_release_claims}

-- The map `claimants` together with `order`: the targets in the order in which they are met.
abbrev pub Groups : Type 0
Groups = List (TargetKey × List Automation)

unfoldable pub add_claimant : Automation → Groups → TargetKey → Groups
add_claimant a [] key = (key, a ∷ []) ∷ []
add_claimant a ((k, automations) ∷ groups) key =
    let rest = add_claimant a groups key in
    if same_key k key then (k, automations ++ (a ∷ [])) ∷ groups else (k, automations) ∷ rest

-- The loop over the targets of one Automation.
unfoldable pub add_claimants : Automation → List TargetKey → Groups → Groups
add_claimants a [] groups = groups
add_claimants a (key ∷ keys) groups = add_claimants a keys (add_claimant a groups key)

-- The loop over the Automations.
unfoldable pub group_claimants : List Automation → Groups → Groups
group_claimants [] groups = groups
group_claimants (a ∷ items) groups =
    group_claimants items
      (if is_some a.spec.when then add_claimants a (targets_of a) groups else groups)

is_not_found : ErrorClass → Bool
is_not_found not_found = true
is_not_found _ = false

level_of : Option Resolution → Option ℤ
level_of none = none
level_of (some r) = some r.level

module _ (c : Cluster) where
  open c use {
    World, contains_finalizer, get_object, list_automations, list_automations_in, remove_finalizer,
    update_automation,
  }

  hand_back : TargetHandler → TargetKey → List Automation → Object → World → Option Error × World
  unfolding level_of
  hand_back handler key automations target w =
      let (found, recorded) = baseline_of handler target.annotations in
      let level = level_of (resolve (reversal_intents automations key found)) in
      let d = release_target c handler target level w in
      if recorded then (d.error, d.world) else (none, w)

  -- `releaseClaimedTarget`
  unfoldable pub release_claimed_target : TargetKey → List Automation → World → Option Error × World
  unfolding hand_back is_not_found
  release_claimed_target key automations w = elim (handler_for key.kind) [
    | none ↦ (some (failure (codes "no handler for target kind " ++ key.kind)), w)
    | some handler ↦ elim (get_object key w) [
      | ok target ↦ hand_back handler key automations target w
      | err e ↦
          if is_not_found e.class
          then (none, w)
          else (some (wrap (codes "getting target " ++ key_text key) e), w)
    ]
  ]

  -- The loop over `order`: a failure is counted and the next target is tried.
  unfoldable pub release_groups : Groups → ℕ → World → ℕ × World
  release_groups [] failures w = (failures, w)
  release_groups ((key, automations) ∷ groups) failures w =
      let (e, w') = release_claimed_target key automations w in
      release_groups groups (if is_some e then suc failures else failures) w'

  -- The loop that removes the finalizers.
  unfoldable pub drop_finalizers : List Automation → ℕ → World → ℕ × World
  drop_finalizers [] failures w = (failures, w)
  drop_finalizers (a ∷ items) failures w =
      let (e, w') =
        update_automation
          (record a { finalizers = remove_finalizer a.finalizers finalizer_release_claims }) w in
      let has = contains_finalizer a.finalizers finalizer_release_claims in
      drop_finalizers items (if has && is_some e then suc failures else failures)
        (if has then w' else w)

  -- `ReleaseAllClaims` from the listing on: its error, the number of failures that it logs, and the
  -- world.
  unfoldable pub release_all_claims : Text → World → Option Error × ℕ × World
  release_all_claims namespace w =
      let listed =
        if same namespace [] then list_automations w else list_automations_in namespace w in
      elim listed [
        | err e ↦ (some (wrap (codes "listing automations") e), 0, w)
        | ok items ↦
            let (failures, w') = release_groups (group_claimants items []) 0 w in
            let (failures', w'') = drop_finalizers items failures w' in (none, failures', w'')
      ]
