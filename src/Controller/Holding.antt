-- ===== src/Controller/Holding.antt =====
-- internal/controller/arbitration.go: holding a target at a level and letting it go, with the
-- annotations that say who holds it and what it was found at.
pub mod Annotations
pub mod Held
pub mod Restored
use unifi_reactor.Base.{
  ℕ, zero, suc, Bool, true, false, not, ◌&&◌, ◌||◌, List, [], ◌∷◌, ◌++◌, map, Option, none, some,
  if◌then◌else◌,
}
use unifi_reactor.Base.Text.{Text, codes, same, join}
use unifi_reactor.Base.Int.{ℤ}
use unifi_reactor.Base.Sort.{text_order, sort}
use unifi_reactor.Base.Dict.{Dict, lookup, insert, delete, is_some, get_or}
use unifi_reactor.Engine.Arbiter.{Intent, Resolution}
use unifi_reactor.Controller.Handlers.{
  TargetHandler, annotation_claimed_by, annotation_claimed_at, claim_annotations, format,
}
use unifi_reactor.Controller.Claims.{key_text}
use unifi_reactor.Controller.Cluster.{
  Cluster, Done, Error, ErrorClass, conflict, Object, Result, ok, err, apply, failed, read,
  unchanged, wrap, failure,
}

-- The loop of `setAnnotations`: the annotations that result, and whether any differs.
unfoldable pub merge_annotations : Dict Text → Dict Text → Dict Text × Bool → Dict Text × Bool
merge_annotations current [] acc = acc
merge_annotations current ((annotation, value) ∷ want) (next, dirty) =
    merge_annotations current want (
      if same (get_or [] (lookup annotation current)) value
      then (next, dirty)
      else (insert annotation value next, true))

-- The loop of `clearAnnotations`.
unfoldable pub strip_annotations : List Text → Dict Text × Bool → Dict Text × Bool
strip_annotations [] acc = acc
strip_annotations (annotation ∷ rest) (next, dirty) =
    strip_annotations rest
      (if is_some (lookup annotation next) then (delete annotation next, true) else (next, dirty))

is_conflict : Error → Bool
is_conflict e = elim e.class [ conflict ↦ true | _ ↦ false ]

-- What `recordClaim` writes: always who claims, and the baseline and the time only once.
unfoldable pub claim_record : TargetHandler → Text → Text → Option ℤ → Dict Text
claim_record handler now claimed_by none = (annotation_claimed_by, claimed_by) ∷ []
claim_record handler now claimed_by (some found) =
    (annotation_claimed_by, claimed_by)
    ∷ (handler.baseline, format handler.shape found)
    ∷ (annotation_claimed_at, now)
    ∷ []

module _ (c : Cluster) where
  open c use {World, get_object, patch_object}

  -- `patchAnnotations`
  unfoldable pub patch_annotations : Object → Dict Text × Bool → Bool → World → Done World
  patch_annotations target (next, dirty) guard w =
      let after = record target { annotations = next } in
      let (sent, w') = patch_object guard target after w in
      let patched : Done World = elim sent [
        | ok obj ↦ record { changed = true; error = none; target = obj; world = w' }
        | err e ↦ failed c false e after w'
      ] in
      if dirty then patched else unchanged c target w

  -- `setAnnotations`
  unfoldable pub set_annotations : Object → Dict Text → Bool → World → Done World
  unfolding patch_annotations
  set_annotations target want guard w =
      patch_annotations target
        (merge_annotations target.annotations want (target.annotations, false)) guard w

  -- `clearAnnotations`
  unfoldable pub clear_annotations : Object → World → Done World
  unfolding patch_annotations
  clear_annotations target w =
      patch_annotations target (strip_annotations claim_annotations (target.annotations, false))
        false w

  -- The body of the loop of `recordClaim` up to its write: the annotations, or the error of `read`.
  claim_wanted : TargetHandler → Text → Text → Object → World → Result (Dict Text)
  claim_wanted handler now claimed_by target w =
      if is_some (lookup handler.baseline target.annotations)
      then ok (claim_record handler now claimed_by none)
      else elim (read c handler.shape target w) [
        | ok found ↦ ok (claim_record handler now claimed_by (some found))
        | err e ↦ err e
      ]

  -- One round of the loop of `recordClaim`: whether the next round is to be made, and what is left
  -- behind otherwise.
  try_claim : TargetHandler → Text → Text → Object → World → Bool × Done World
  unfolding claim_wanted is_conflict
  try_claim handler now claimed_by target w = elim (claim_wanted handler now claimed_by target w) [
    | err e ↦ (false, failed c false e target w)
    | ok want ↦
        let recorded = is_some (lookup handler.baseline target.annotations) in
        let d = set_annotations target want (not recorded) w in
        elim d.error [
          | none ↦ (false, d)
          | some e ↦ (
            not recorded && is_conflict e,
            failed c d.changed (wrap (codes "recording the claim on " ++ key_text target.key) e)
                d.target d.world,
          )
        ]
  ]

  -- `recordClaim` with `left` rounds after this one: one at first, since a conflict is tried again
  -- once, on the object as it then is.
  unfoldable pub record_claim : ℕ → TargetHandler → Text → Text → Object → World → Done World
  unfolding try_claim
  record_claim zero handler now claimed_by target w = (try_claim handler now claimed_by target w).1
  record_claim (suc left) handler now claimed_by target w =
      let (retry, d) = try_claim handler now claimed_by target w in
      let again : Done World = elim (get_object d.target.key d.world) [
        | err e ↦
            failed c false
              (wrap
                (codes "re-reading " ++ (key_text target.key ++ codes " after a claim conflict")) e)
              d.target d.world
        | ok obj ↦ record_claim left handler now claimed_by obj d.world
      ] in
      if retry then again else d

  hold : TargetHandler → ℤ → Done World → Done World
  hold handler level r = elim r.error [
    | some e ↦ r
    | none ↦
        let a = apply c handler.shape r.target level r.world in
        record a { changed = r.changed || a.changed }
  ]

  -- `claimTarget`
  unfoldable pub claim_target :
      TargetHandler → Text → Object → Resolution → List Intent → World → Done World
  unfolding hold
  claim_target handler now target resolution claims w =
      let claimed_by = join (sort (map (λ i. i.claimant) claims)) (codes ",") in
      hold handler resolution.level (record_claim 1 handler now claimed_by target w)

  let_go : Done World → Done World
  let_go a = elim a.error [
    | some e ↦ a
    | none ↦
        let d = clear_annotations a.target a.world in
        elim d.error [
          | none ↦ record d { changed = a.changed || d.changed }
          | some e ↦
              failed c a.changed (wrap (codes "releasing " ++ key_text a.target.key) e) d.target
                d.world
        ]
  ]

  -- `releaseTarget`: without a level the target is left as it is.
  unfoldable pub release_target : TargetHandler → Object → Option ℤ → World → Done World
  unfolding let_go
  release_target handler target none w = let_go (unchanged c target w)
  release_target handler target (some level) w = let_go (apply c handler.shape target level w)
