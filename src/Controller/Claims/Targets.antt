-- ===== src/Controller/Claims/Targets.antt =====
-- Which targets an Automation names.
use unifi_reactor.Base.{
  Bool, true, false, ◌&&◌, ◌||◌, List, [], ◌∷◌, ◌++◌, ◌≡◌, inl, inr, refl, arith, Option-cases, ◌∙◌,
}
use unifi_reactor.Base.Text.{same_refl, same→eq}
use mathlib.Core.List.{Permᴰ}
use unifi_reactor.Base.Sort.{sort_by-permᴰ}
use unifi_reactor.Controller.Automation.{Action, Automation}
use unifi_reactor.Controller.Claims.{
  TargetKey, same_key, target_key_for, is_desired_state, contains_key, add_target, targets_key,
  collect_targets, targets_of, references,
}

pub same_key_refl : (k : TargetKey) → same_key k k ≡ true
unfolding same_key
same_key_refl k = ground (arith, same_refl k.kind, same_refl k.namespace, same_refl k.name)

pub same_key→eq : (j k : TargetKey) → same_key j k ≡ true → j ≡ k
unfolding same_key
same_key→eq j k e =
    ground (arith, same→eq j.kind k.kind, same→eq j.namespace k.namespace, same→eq j.name k.name)

-- An action that holds the target at a level.
abbrev pub holds : Automation → TargetKey → Action → Bool
holds a key action = is_desired_state action.action_type && targets_key a action key

abbrev pub any_holds : Automation → TargetKey → List Action → Bool
any_holds a key [] = false
any_holds a key (action ∷ actions) = holds a key action || any_holds a key actions

contains_key-append :
    (keys : List TargetKey) (j k : TargetKey)
    → contains_key (keys ++ (j ∷ [])) k ≡ (contains_key keys k || same_key j k)
unfolding contains_key
contains_key-append [] j k = ground arith
contains_key-append (i ∷ keys) j k = ground (arith, contains_key-append keys j k)

contains-add_target :
    (a : Automation) (action : Action) (keys : List TargetKey) (k : TargetKey)
    → contains_key (add_target a action keys) k ≡ (contains_key keys k || holds a k action)
unfolding add_target targets_key
contains-add_target a action keys k = elim (Option-cases (target_key_for a action)) [
  | inl e ↦ ground (arith, e)
  | inr (j, e) ↦ ground (arith, e, contains_key-append keys j k, same_key→eq j k)
]

contains-collect :
    (a : Automation) (actions : List Action) (keys : List TargetKey) (k : TargetKey)
    → contains_key (collect_targets a actions keys) k
      ≡ (contains_key keys k || any_holds a k actions)
unfolding collect_targets
contains-collect a [] keys k = ground arith
contains-collect a (action ∷ actions) keys k = ground (
  arith,
  contains-collect a actions (add_target a action keys) k,
  contains-add_target a action keys k,
)

contains_key-perm :
    (k : TargetKey) {xs ys : List TargetKey} → Permᴰ xs ys → contains_key xs k ≡ contains_key ys k
unfolding contains_key
contains_key-perm k Permᴰ.nil = refl
contains_key-perm k (Permᴰ.cons e p) = ground (arith, contains_key-perm k p)
contains_key-perm k (Permᴰ.swap e f) = ground arith
contains_key-perm k (Permᴰ.trans p q) = contains_key-perm k p ∙ contains_key-perm k q

-- An Automation references a target exactly when one of its actions, on either list, is a
-- desired-state action on that target.
pub references-holds :
    (a : Automation) (k : TargetKey)
    → references a k ≡ (any_holds a k a.spec.actions || any_holds a k a.spec.on_exit)
unfolding references targets_of contains_key
references-holds a k =
    contains_key-perm k
      (sort_by-permᴰ _ (collect_targets a a.spec.on_exit (collect_targets a a.spec.actions [])))
    ∙ ground (
      arith,
      contains-collect a a.spec.on_exit (collect_targets a a.spec.actions []) k,
      contains-collect a a.spec.actions [] k,
    )
