-- ===== src/Controller/Target/Driven.antt =====
-- internal/controller/hpa.go: which autoscaler a pass finds to drive a target, and what it then leaves
-- alone.
use mathlib.Core.List.{Memᴰ}
use unifi_reactor.Base.{
  true, false, ◌&&◌, List, [], ◌∷◌, ◌++◌, Option, none, some, if◌then◌else◌, ◌≡◌, ◌⊎◌, inl, inr,
  refl, sym, ap, subst, arith, Bool-cases, Option-cases, ◌==◌,
}
use unifi_reactor.Base.Text.{Text, codes, same, same_refl, same→eq}
use unifi_reactor.Base.Sort.{Memᴰ-cons}
use unifi_reactor.Base.Dict.{Dict, get_or, lookup}
use unifi_reactor.Controller.Automation.{Automation}
use unifi_reactor.Controller.Handlers.{TargetHandler, handler_for}
use unifi_reactor.Controller.Claims.{TargetKey}
use unifi_reactor.Controller.Cluster.{Autoscaler, Cluster, Object, ok}
use unifi_reactor.Controller.Target.{Reconciler, Stance, reconcile_target}
use unifi_reactor.Controller.Target.Managers.{
  api_group, before_slash, drives, first_driver, foreign_manager_of, kind_horizontal_pod_autoscaler,
  slash,
}
use unifi_reactor.Controller.Target.Unclaimed.{reconcile_target_managed}
use unifi_reactor.Controller.Target.Withheld.{Unwritten}

-- The text has no "/".
abbrev pub Slashless : Text → Type 0
Slashless [] = Unit
Slashless (r ∷ s) = ((r == slash) ≡ false) × Slashless s

-- An apiVersion is of a group: `group/version`, or without a "/" of the core group, which has no name.
abbrev pub IsOfGroup : Text → Text → Type 0
IsOfGroup version group =
    (Slashless version × (group ≡ []))
    ⊎ ((rest : Text) × Slashless group × (version ≡ group ++ (slash ∷ rest)))

-- The autoscaler's reference names the kind, in its API group, and the name. A field that is absent is
-- empty.
abbrev pub Drives : TargetHandler → Text → Autoscaler → Type 0
Drives handler name hpa =
    (ref : Dict Text) × (hpa.target_ref ≡ some ref)
    × IsOfGroup (get_or [] (lookup (codes "apiVersion") ref)) handler.group
    × (get_or [] (lookup (codes "kind") ref) ≡ handler.kind)
    × (get_or [] (lookup (codes "name") ref) ≡ name)

-- Where the text is cut.
IsCut : Text → Option Text → Type 0
IsCut s none = Slashless s
IsCut s (some g) = (rest : Text) × Slashless g × (s ≡ g ++ (slash ∷ rest))

before_slash-IsCut : (s : Text) → IsCut s (before_slash s)
unfolding before_slash IsCut
before_slash-IsCut [] = tt
before_slash-IsCut (a ∷ s) = elim (Bool-cases (a == slash)) [
  | inl e ↦ rw (before_slash, e, if◌then◌else◌) (s, tt, ap (λ r. r ∷ s) (ground (arith, e)))
  | inr e ↦ rw (before_slash, e, if◌then◌else◌) (later (before_slash s) (before_slash-IsCut s) e)
]
  where
    later :
        (o : Option Text)
        → IsCut s o
        → (a == slash) ≡ false
        → IsCut (a ∷ s) (elim o as (λ x. Option Text) [ none ↦ none | some t ↦ some (a ∷ t) ])
    later none h e = (e, h)
    later (some g) (rest, h, cut) e = (rest, (e, h), ap (λ t. a ∷ t) cut)

before_slash-++ : (g rest : Text) → Slashless g → before_slash (g ++ (slash ∷ rest)) ≡ some g
unfolding before_slash
before_slash-++ [] rest h = refl
before_slash-++ (r ∷ g) rest (e, h) = rw (before_slash-++ g rest h, e, if◌then◌else◌) refl

before_slash-Slashless : (s : Text) → Slashless s → before_slash s ≡ none
unfolding before_slash
before_slash-Slashless [] h = refl
before_slash-Slashless (r ∷ s) (e, h) = rw (before_slash-Slashless s h, e, if◌then◌else◌) refl

api_group-IsOfGroup : (version : Text) → IsOfGroup version (api_group version)
unfolding api_group IsCut
api_group-IsOfGroup version = by_cut (before_slash version) (before_slash-IsCut version)
  where
    by_cut :
        (o : Option Text)
        → IsCut version o
        → IsOfGroup version (elim o as (λ x. Text) [ none ↦ [] | some group ↦ group ])
    by_cut none h = inl (h, refl)
    by_cut (some g) h = inr h

IsOfGroup-api_group : (version group : Text) → IsOfGroup version group → api_group version ≡ group
unfolding api_group
IsOfGroup-api_group version group (inl (h, e)) =
    rw (api_group, before_slash-Slashless version h) (sym e)
IsOfGroup-api_group version group (inr (rest, h, e)) =
    rw (e, api_group, before_slash-++ group rest h) refl

Drives-drives :
    (handler : TargetHandler) (name : Text) (hpa : Autoscaler)
    → Drives handler name hpa
    → drives handler name hpa ≡ true
unfolding drives
Drives-drives handler name hpa (ref, e, g, k, n) =
    rw
      (
        e,
        IsOfGroup-api_group _ handler.group g,
        k,
        n,
        same_refl handler.group,
        same_refl handler.kind,
        same_refl name,
      )
      refl

drives-Drives :
    (handler : TargetHandler) (name : Text) (hpa : Autoscaler)
    → drives handler name hpa ≡ true
    → Drives handler name hpa
unfolding drives
drives-Drives handler name hpa h = elim (Option-cases hpa.target_ref) [
  | inl e ↦ absurd (ground (arith, h, e))
  | inr (ref, e) ↦
      let version = get_or [] (lookup (codes "apiVersion") ref) in
      let kind = get_or [] (lookup (codes "kind") ref) in
      let named = get_or [] (lookup (codes "name") ref) in
      let all : (same (api_group version) handler.group
            && same kind handler.kind
            && same named name)
          ≡ true =
        rw e at h in
      let group : api_group version ≡ handler.group =
        ground (arith, all, same→eq (api_group version) handler.group) in
      (
        ref,
        e,
        subst (IsOfGroup version) group (api_group-IsOfGroup version),
        ground (arith, all, same→eq kind handler.kind),
        ground (arith, all, same→eq named name),
      )
]

-- How the outcome names an autoscaler.
unfoldable pub autoscaler_text : Text → Text → Text
autoscaler_text namespace name =
    kind_horizontal_pod_autoscaler ++ (codes "/" ++ (namespace ++ (codes "/" ++ name)))

first_driver-Drives :
    (handler : TargetHandler) (key : TargetKey) (items : List Autoscaler) (hpa : Autoscaler)
    → Memᴰ hpa items
    → drives handler key.name hpa ≡ true
    → (h : Autoscaler) × Memᴰ h items
      × (drives handler key.name h ≡ true)
      × (first_driver handler key items ≡ autoscaler_text key.namespace h.name)
unfolding first_driver autoscaler_text
first_driver-Drives handler key [] hpa m d = elim m [ ]
first_driver-Drives handler key (item ∷ items) hpa m d =
    elim (Bool-cases (drives handler key.name item)) [
      | inl e ↦ (item, Memᴰ.head refl, e, rw (e, if◌then◌else◌) refl)
      | inr e ↦ elim (Memᴰ-cons m) [
        | inl here ↦
            let driven : drives handler key.name item ≡ true =
              subst (λ x. drives handler key.name x ≡ true) here d in
            absurd (ground (arith, e, driven))
        | inr later ↦
            let (h, among, k, text) = first_driver-Drives handler key items hpa later d in
            (h, Memᴰ.tail among, k, rw (e, if◌then◌else◌) text)
      ]
    ]

module _ (c : Cluster) (r : Reconciler) (key : TargetKey) (self : Automation) (s : Stance)
    (items : List Automation) (handler : TargetHandler) (target : Object) (w : c.World)
    (scalers : List Autoscaler) (hpa : Autoscaler) (kind : handler_for key.kind ≡ some handler)
    (listed : c.list_automations w ≡ ok items) (got : c.get_object key w ≡ ok target)
    (unrecorded : lookup handler.baseline target.annotations ≡ none)
    (detecting : r.detect_hpa ≡ true) (contested : handler.contested ≡ true)
    (scaled : c.list_autoscalers key.namespace w ≡ ok scalers) where
  foreign_manager_of-first_driver :
      (text : Text)
      → first_driver handler key scalers ≡ text
      → foreign_manager_of c r.detect_hpa handler key w ≡ ok text
  unfolding foreign_manager_of
  foreign_manager_of-first_driver text e =
      rw (foreign_manager_of, detecting, if◌then◌else◌) (ground (arith, contested, scaled, e))

  -- A pass over a target of a contested kind that can be read, with no recorded baseline, where
  -- detection is on and the list of the autoscalers in its namespace has one whose reference names the
  -- target by API group, kind and name: whoever claims the target, nothing is written, and the outcome
  -- names such an autoscaler of the list.
  pub reconcile_target_driven :
      Memᴰ hpa scalers
      → Drives handler key.name hpa
      → Unwritten w (reconcile_target c r key self s w)
        × (h : Autoscaler) × Memᴰ h scalers
        × Drives handler key.name h
        × ((reconcile_target c r key self s w).outcome.managed_by
            ≡ autoscaler_text key.namespace h.name)
  unfolding autoscaler_text same
  reconcile_target_driven m d =
      let (h, among, k, text) =
        first_driver-Drives handler key scalers hpa m (Drives-drives handler key.name hpa d) in
      let manager = foreign_manager_of-first_driver (autoscaler_text key.namespace h.name) text in
      let p =
        reconcile_target_managed c r key self s items handler target w kind listed got unrecorded
          (autoscaler_text key.namespace h.name) manager refl in
      (p.0, h, among, drives-Drives handler key.name h k, p.1)
