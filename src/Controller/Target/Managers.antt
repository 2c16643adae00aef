-- ===== src/Controller/Target/Managers.antt =====
-- internal/controller/hpa.go: an autoscaler that already drives a target.
use unifi_reactor.Base.{
  ℕ, Bool, false, not, ◌&&◌, ◌||◌, List, [], ◌∷◌, ◌++◌, Option, none, some, if◌then◌else◌, ◌==◌,
}
use unifi_reactor.Base.Text.{Text, codes, same}
use unifi_reactor.Base.Dict.{lookup, get_or}
use unifi_reactor.Controller.Handlers.{TargetHandler}
use unifi_reactor.Controller.Claims.{TargetKey}
use unifi_reactor.Controller.Cluster.{Autoscaler, Cluster, Result, ok, err, wrap}

abbrev pub kind_horizontal_pod_autoscaler : Text
kind_horizontal_pod_autoscaler = codes "HorizontalPodAutoscaler"

-- The code of "/".
abbrev pub slash : ℕ
slash = 47

-- `before, _, found := strings.Cut(s, "/")`: `none` is `found = false`.
unfoldable pub before_slash : Text → Option Text
before_slash [] = none
before_slash (a ∷ s) =
    let rest = before_slash s in
    if a == slash then some [] else elim rest [ none ↦ none | some t ↦ some (a ∷ t) ]

unfoldable pub api_group : Text → Text
api_group version = elim (before_slash version) [ none ↦ [] | some group ↦ group ]

-- `drives`
unfoldable pub drives : TargetHandler → Text → Autoscaler → Bool
unfolding api_group
drives handler name hpa = elim hpa.target_ref [
  | none ↦ false
  | some ref ↦
      let field : Text → Text = λ f. get_or [] (lookup f ref) in
      same (api_group (field (codes "apiVersion"))) handler.group
      && same (field (codes "kind")) handler.kind
      && same (field (codes "name")) name
]

-- The loop of `foreignManagerOf`.
unfoldable pub first_driver : TargetHandler → TargetKey → List Autoscaler → Text
first_driver handler key [] = []
first_driver handler key (hpa ∷ items) =
    let rest = first_driver handler key items in
    if drives handler key.name hpa
    then kind_horizontal_pod_autoscaler ++ (codes "/" ++ (key.namespace ++ (codes "/" ++ hpa.name)))
    else rest

-- `foreignManagerOf`: the empty text is no manager.
unfoldable pub foreign_manager_of :
    (c : Cluster) → Bool → TargetHandler → TargetKey → c.World → Result Text
foreign_manager_of c detect_hpa handler key w =
    if not detect_hpa || not handler.contested
    then ok []
    else elim (c.list_autoscalers key.namespace w) [
      | err e ↦ err (
          wrap
            (codes "listing HorizontalPodAutoscalers in "
              ++ (key.namespace
                  ++ codes
                      ", which detection needs before it may claim a target (install with safety.detectHPA=true to grant it, or turn detection off)"))
            e)
      | ok items ↦ ok (first_driver handler key items)
    ]
