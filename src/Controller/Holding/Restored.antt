-- ===== src/Controller/Holding/Restored.antt =====
-- `releaseTarget` on a cluster that accepts every call, and a claim followed by a release.
use mathlib.Core.List.{Memᴰ}
use unifi_reactor.Base.{false, List, none, some, ◌≡◌, refl, sym, subst, ap, ◌∙◌}
use unifi_reactor.Base.Text.{Text}
use unifi_reactor.Base.Int.{ℤ}
use unifi_reactor.Base.Dict.{Dict, lookup}
use unifi_reactor.Engine.Arbiter.{Intent, Resolution}
use unifi_reactor.Controller.Handlers.{TargetHandler, claim_annotations, handler_for, parse}
use unifi_reactor.Controller.Handlers.Levels.{IsLevel, parse-format}
use unifi_reactor.Controller.Claims.{baseline_of}
use unifi_reactor.Controller.Cluster.{Cluster, Done, Object, ok, read, apply}
use unifi_reactor.Controller.Cluster.Quiet.{At, At-read, Attainable, Quiet, Stored, apply_lem}
use unifi_reactor.Controller.Holding.{
  strip_annotations, clear_annotations, claim_target, let_go, release_target,
}
use unifi_reactor.Controller.Holding.Annotations.{
  Patched, strip_annotations-Clean, strip_mem, patch_annotations_lem,
}
use unifi_reactor.Controller.Holding.Held.{claim_target-key, claim_target_unrecorded}

abbrev stripped : Object → Dict Text
stripped target = (strip_annotations claim_annotations (target.annotations, false)).0

-- No annotation of a claim is left.
abbrev pub Unclaimed : Object → Type 0
Unclaimed target = (k : Text) → Memᴰ k claim_annotations → lookup k target.annotations ≡ none

module _ (c : Cluster) (q : Quiet c) (handler : TargetHandler) where
  clear_annotations_lem :
      (target : Object) (w : c.World)
      → Stored c target w
      → Patched c target (stripped target) w (clear_annotations c target w)
  unfolding clear_annotations
  clear_annotations_lem target w st =
      patch_annotations_lem c q target _ _ false w st
        (λ h. (strip_annotations-Clean claim_annotations target.annotations false h).0)

  let_go_lem :
      (a : Done c.World) (v : ℤ)
      → a.error ≡ none
      → Stored c a.target a.world
      → At c handler.shape a.target.key v a.world
      → let d = let_go c a in
        (d.error ≡ none)
        × At c handler.shape a.target.key v d.world
        × (c.get_object a.target.key d.world ≡ ok d.target)
        × Unclaimed d.target
  unfolding let_go
  let_go_lem a v e st h =
      let d = clear_annotations c a.target a.world in
      let p = clear_annotations_lem a.target a.world st in
      rw (let_go, e, p.0)
        (
          p.0,
          p.4 handler.shape v h,
          subst (λ k. c.get_object k d.world ≡ ok d.target) (ap (λ o. o.key) p.1) p.2,
          λ k m.
              ap (λ o. lookup k o.annotations) p.1
              ∙ strip_mem k claim_annotations (a.target.annotations, false) m,
        )

  -- On an API server that accepts every call, for a target in memory that it holds and that can be
  -- read, a release to a level that the target can be brought to succeeds: the API server then
  -- holds the target at that level, and no annotation of a claim is on it.
  pub release_target_lem :
      (target : Object) (level v : ℤ) (w : c.World)
      → Stored c target w
      → read c handler.shape target w ≡ ok v
      → Attainable handler.shape level
      → let d = release_target c handler target (some level) w in
        (d.error ≡ none)
        × At c handler.shape target.key level d.world
        × (c.get_object target.key d.world ≡ ok d.target)
        × Unclaimed d.target
  unfolding release_target
  release_target_lem target level v w st h i =
      let a = apply_lem c q handler.shape target level v w st h i in
      let done = apply c handler.shape target level w in
      let held =
        let_go_lem done level a.0
          (subst (λ k. c.get_object k done.world ≡ ok done.target) (sym a.4) a.2)
          (subst (λ k. At c handler.shape k level done.world) (sym a.4) a.1) in
      let d = let_go c done in
      (
        held.0,
        subst (λ k. At c handler.shape k level d.world) a.4 held.1,
        subst (λ k. c.get_object k d.world ≡ ok d.target) a.4 held.2,
        held.3,
      )

baseline_of-some :
    (handler : TargetHandler) (m : Dict Text) (raw : Text)
    → lookup handler.baseline m ≡ some raw
    → (baseline_of handler m).0 ≡ parse handler.shape raw
unfolding baseline_of
baseline_of-some handler m raw h = rw (baseline_of, h) refl

module _ (c : Cluster) (q : Quiet c) (kind : Text) (handler : TargetHandler) (now : Text)
    (target : Object) (resolution : Resolution) (claims : List Intent) (v : ℤ) (w : c.World)
    (known : handler_for kind ≡ some handler) (st : Stored c target w)
    (found : read c handler.shape target w ≡ ok v)
    (attainable : Attainable handler.shape resolution.level) where
  -- On an API server that accepts every call, for a target in memory that it holds, which nobody
  -- claimed, and where the resolved level and the level that is read are ones that the target can
  -- be brought to: a claim, and then a release of what the claim leaves to the baseline that it
  -- recorded, succeed. Whatever the resolved level, the API server then holds the target at the
  -- level that was read before the claim (1 where the scale leaves its replicas out), and no
  -- annotation of the claim is on it.
  pub release_target-claim_target :
      lookup handler.baseline target.annotations ≡ none
      → IsLevel handler.shape v
      → Attainable handler.shape v
      → let d = claim_target c handler now target resolution claims w in
        let e =
          release_target c handler d.target (baseline_of handler d.target.annotations).0 d.world in
        (e.error ≡ none)
        × At c handler.shape target.key v e.world
        × (c.get_object target.key e.world ≡ ok e.target)
        × Unclaimed e.target
  release_target-claim_target h level back_to =
      let d = claim_target c handler now target resolution claims w in
      let held =
        claim_target_unrecorded c q kind handler now target resolution claims v w known st found
          attainable h level in
      let same_key =
        claim_target-key c q kind handler now target resolution claims v w known st found
          attainable in
      let back =
        baseline_of-some handler d.target.annotations _ held.3
        ∙ parse-format handler.shape v level in
      let there = subst (λ k. c.get_object k d.world ≡ ok d.target) (sym same_key) held.2 in
      let readable =
        At-read c handler.shape d.target resolution.level d.world there
          (subst (λ k. At c handler.shape k resolution.level d.world) (sym same_key) held.1) in
      let e =
        release_target_lem c q handler d.target v readable.0 d.world there readable.1 back_to in
      let f = release_target c handler d.target (some v) d.world in
      rw back (
        e.0,
        subst (λ k. At c handler.shape k v f.world) same_key e.1,
        subst (λ k. c.get_object k f.world ≡ ok f.target) same_key e.2,
        e.3,
      )
