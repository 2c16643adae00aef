-- ===== src/Controller/Sweep/Groups.antt =====
-- The targets that the sweep visits.
use mathlib.Core.List.{append-nil, append_assoc}
use unifi_reactor.Base.{
  Bool, false, ◌||◌, List, [], ◌∷◌, ◌++◌, if◌then◌else◌, ◌≡◌, inl, inr, refl, sym, ap, ◌∙◌, arith,
  Bool-cases,
}
use unifi_reactor.Base.Dict.{is_some}
use unifi_reactor.Controller.Automation.{Automation}
use unifi_reactor.Controller.Claims.{TargetKey, same_key, targets_of}
use unifi_reactor.Controller.Claims.Targets.{same_key→eq, same_key_refl}
use unifi_reactor.Controller.Sweep.{Groups, add_claimant, add_claimants, group_claimants}

unfoldable pub has_group : Groups → TargetKey → Bool
has_group [] key = false
has_group ((k, automations) ∷ groups) key = same_key k key || has_group groups key

-- No target has two groups.
abbrev pub IsOncePerTarget : Groups → Type 0
IsOncePerTarget [] = Unit
IsOncePerTarget ((k, automations) ∷ groups) = (has_group groups k ≡ false) × IsOncePerTarget groups

has_group-add_claimant :
    (a : Automation) (groups : Groups) (key j : TargetKey)
    → has_group (add_claimant a groups key) j ≡ (same_key key j || has_group groups j)
unfolding has_group add_claimant
has_group-add_claimant a [] key j = ground arith
has_group-add_claimant a ((k, automations) ∷ groups) key j = elim (Bool-cases (same_key k key)) [
  | inl e ↦ rw (e, if◌then◌else◌) (ground (arith, same_key→eq k key))
  | inr e ↦ rw (e, if◌then◌else◌) (ground (arith, has_group-add_claimant a groups key j))
]

-- Adding an Automation to the group of a target keeps one group per target.
add_claimant-IsOncePerTarget :
    (a : Automation) (groups : Groups) (key : TargetKey)
    → IsOncePerTarget groups
    → IsOncePerTarget (add_claimant a groups key)
unfolding add_claimant
add_claimant-IsOncePerTarget a [] key h = (unfold has_group in refl, tt)
add_claimant-IsOncePerTarget a ((k, automations) ∷ groups) key h =
    elim (Bool-cases (same_key k key)) [
      | inl e ↦ rw (e, if◌then◌else◌) h
      | inr e ↦
          rw (e, if◌then◌else◌)
            (
              ground (
                arith,
                h.0,
                e,
                has_group-add_claimant a groups key k,
                same_key→eq key k,
                same_key_refl k,
              ),
              add_claimant-IsOncePerTarget a groups key h.1,
            )
    ]

add_claimants-IsOncePerTarget :
    (a : Automation) (keys : List TargetKey) (groups : Groups)
    → IsOncePerTarget groups
    → IsOncePerTarget (add_claimants a keys groups)
unfolding add_claimants
add_claimants-IsOncePerTarget a [] groups h = h
add_claimants-IsOncePerTarget a (key ∷ keys) groups h =
    add_claimants-IsOncePerTarget a keys _ (add_claimant-IsOncePerTarget a groups key h)

group_claimants-IsOncePerTarget :
    (items : List Automation) (groups : Groups)
    → IsOncePerTarget groups
    → IsOncePerTarget (group_claimants items groups)
unfolding group_claimants
group_claimants-IsOncePerTarget [] groups h = h
group_claimants-IsOncePerTarget (a ∷ items) groups h = elim (Bool-cases (is_some a.spec.when)) [
  | inl e ↦
      rw (e, if◌then◌else◌)
        (group_claimants-IsOncePerTarget items _
          (add_claimants-IsOncePerTarget a (targets_of a) groups h))
  | inr e ↦ rw (e, if◌then◌else◌) (group_claimants-IsOncePerTarget items groups h)
]

-- The Automations that a target is released for.
unfoldable pub claimants_of : Groups → TargetKey → List Automation
claimants_of [] key = []
claimants_of ((k, automations) ∷ groups) key =
    let rest = claimants_of groups key in if same_key k key then automations else rest

-- An Automation as often as its list of targets names the target.
unfoldable pub naming : Automation → List TargetKey → TargetKey → List Automation
naming a [] key = []
naming a (k ∷ keys) key = let rest = naming a keys key in if same_key k key then a ∷ rest else rest

-- The Automations with a condition that name the target, in the order of the list.
unfoldable pub all_naming : List Automation → TargetKey → List Automation
all_naming [] key = []
all_naming (a ∷ items) key =
    let rest = all_naming items key in
    if is_some a.spec.when then naming a (targets_of a) key ++ rest else rest

claimants_of-add_claimant :
    (a : Automation) (groups : Groups) (key j : TargetKey)
    → claimants_of (add_claimant a groups key) j ≡ claimants_of groups j ++ naming a (key ∷ []) j
unfolding claimants_of add_claimant naming
claimants_of-add_claimant a [] key j = refl
claimants_of-add_claimant a ((k, automations) ∷ groups) key j = elim (Bool-cases (same_key k key)) [
  | inl e ↦
      let q : same_key key j ≡ same_key k j = ap (λ x. same_key x j) (sym (same_key→eq k key e)) in
      elim (Bool-cases (same_key k j)) [
        | inl f ↦ rw (e, q, f, if◌then◌else◌) refl
        | inr f ↦ rw (e, q, f, if◌then◌else◌) (sym (append-nil (claimants_of groups j)))
      ]
  | inr e ↦ elim (Bool-cases (same_key k j)) [
    | inl f ↦
        let q : same_key key j ≡ false =
          ground (arith, e, f, same_key→eq k j, same_key→eq key j, same_key_refl k) in
        rw (e, q, f, if◌then◌else◌) (sym (append-nil automations))
    | inr f ↦ rw (e, f, if◌then◌else◌) (claimants_of-add_claimant a groups key j)
  ]
]

naming-append :
    (a : Automation) (key : TargetKey) (keys : List TargetKey) (j : TargetKey)
    → naming a (key ∷ []) j ++ naming a keys j ≡ naming a (key ∷ keys) j
unfolding naming
naming-append a key keys j = elim (Bool-cases (same_key key j)) [
  | inl e ↦ rw (e, if◌then◌else◌) refl
  | inr e ↦ rw (e, if◌then◌else◌) refl
]

claimants_of-add_claimants :
    (a : Automation) (keys : List TargetKey) (groups : Groups) (j : TargetKey)
    → claimants_of (add_claimants a keys groups) j ≡ claimants_of groups j ++ naming a keys j
unfolding add_claimants naming
claimants_of-add_claimants a [] groups j = sym (append-nil (claimants_of groups j))
claimants_of-add_claimants a (key ∷ keys) groups j =
    claimants_of-add_claimants a keys (add_claimant a groups key) j
    ∙ ap (λ l. l ++ naming a keys j) (claimants_of-add_claimant a groups key j)
    ∙ append_assoc (claimants_of groups j) (naming a (key ∷ []) j) (naming a keys j)
    ∙ ap (λ l. claimants_of groups j ++ l) (naming-append a key keys j)

claimants_of-group_claimants :
    (items : List Automation) (groups : Groups) (j : TargetKey)
    → claimants_of (group_claimants items groups) j ≡ claimants_of groups j ++ all_naming items j
unfolding group_claimants all_naming
claimants_of-group_claimants [] groups j = sym (append-nil (claimants_of groups j))
claimants_of-group_claimants (a ∷ items) groups j = elim (Bool-cases (is_some a.spec.when)) [
  | inl e ↦
      rw (e, if◌then◌else◌)
        (claimants_of-group_claimants items (add_claimants a (targets_of a) groups) j
          ∙ ap (λ l. l ++ all_naming items j) (claimants_of-add_claimants a (targets_of a) groups j)
          ∙ append_assoc (claimants_of groups j) (naming a (targets_of a) j) (all_naming items j))
  | inr e ↦ rw (e, if◌then◌else◌) (claimants_of-group_claimants items groups j)
]

-- The sweep visits each target once, and releases it for exactly the Automations with a condition
-- that name it, in the order in which they are listed.
pub group_claimants_lem :
    (items : List Automation) (key : TargetKey)
    → IsOncePerTarget (group_claimants items [])
      × (claimants_of (group_claimants items []) key ≡ all_naming items key)
unfolding claimants_of
group_claimants_lem items key =
    (group_claimants-IsOncePerTarget items [] tt, claimants_of-group_claimants items [] key)
