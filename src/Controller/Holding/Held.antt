-- ===== src/Controller/Holding/Held.antt =====
-- `claimTarget` on a cluster that accepts every call: the level that results, and the baseline that
-- is on record.
use mathlib.Core.List.{Memᴰ}
use unifi_reactor.Base.{
  Bool, false, not, List, [], ◌∷◌, Option, none, some, if◌then◌else◌, ◌≡◌, inl, inr, refl, ap, ◌∙◌,
  subst, arith, Bool-cases, Option-cases, map,
}
use unifi_reactor.Base.Text.{Text, codes, same, same_refl, same→eq, join}
use unifi_reactor.Base.Int.{ℤ}
use unifi_reactor.Base.Decimal.{parse_int32, parse_bool}
use unifi_reactor.Base.Sort.{text_order, sort}
use unifi_reactor.Base.Dict.{Dict, lookup, is_some, lookup-insert}
use unifi_reactor.Engine.Arbiter.{Intent, Resolution}
use unifi_reactor.Controller.Handlers.{
  Shape, TargetHandler, annotation_claimed_by, annotation_claimed_at, claim_annotations, format,
  handler_for, parse, replica_handler, switch_handler, cluster_scoped_handler, kind_deployment,
  kind_stateful_set, kind_cron_job, kind_node, replica, switch,
}
use unifi_reactor.Controller.Handlers.Levels.{IsLevel, parse-format}
use unifi_reactor.Controller.Cluster.{Cluster, Done, Object, apply, ok, read}
use unifi_reactor.Controller.Cluster.Quiet.{At, Attainable, Quiet, Stored, apply_lem}
use unifi_reactor.Controller.Holding.{
  merge_annotations, set_annotations, claim_record, claim_wanted, try_claim, record_claim, hold,
  claim_target,
}
use unifi_reactor.Controller.Holding.Annotations.{
  Patched, merge_annotations-Clean, lookup-merge_annotations, patch_annotations_lem,
}

-- The annotations after a claim that wants `want`.
abbrev pub merged : Object → Dict Text → Dict Text
merged target want = (merge_annotations target.annotations want (target.annotations, false)).0

module _ (c : Cluster) (q : Quiet c) (handler : TargetHandler) (now : Text) (target : Object)
    (w : c.World) (st : Stored c target w) where
  set_annotations_lem :
      (want : Dict Text) (guard : Bool)
      → Patched c target (merged target want) w (set_annotations c target want guard w)
  unfolding set_annotations
  set_annotations_lem want guard =
      patch_annotations_lem c q target _ _ guard w st
        (λ h. (merge_annotations-Clean target.annotations want target.annotations false h).0)

  record_claim_lem :
      (claimed_by : Text) (want : Dict Text)
      → claim_wanted c handler now claimed_by target w ≡ ok want
      → record_claim c 1 handler now claimed_by target w
        ≡ set_annotations c target want
            (not (is_some (lookup handler.baseline target.annotations)))
            w
  unfolding record_claim try_claim
  record_claim_lem claimed_by want h =
      let guard = not (is_some (lookup handler.baseline target.annotations)) in
      let done = (set_annotations_lem want guard).0 in
      rw (record_claim, try_claim, h, done, if◌then◌else◌)
        (ap (λ e. record (set_annotations c target want guard w) { error = e }) done)

  hold_lem :
      (level v : ℤ) (next : Dict Text) (r : Done c.World)
      → Patched c target next w r
      → read c handler.shape target w ≡ ok v
      → Attainable handler.shape level
      → let d = hold c handler level r in
        (d.error ≡ none)
        × At c handler.shape target.key level d.world
        × (c.get_object target.key d.world ≡ ok d.target)
        × (d.target.annotations ≡ next)
        × (d.target.key ≡ target.key)
  unfolding hold
  hold_lem level v next r p h i =
      let a = apply_lem c q handler.shape r.target level v r.world p.2 (p.3 handler.shape ∙ h) i in
      let d = apply c handler.shape r.target level r.world in
      let same_key : r.target.key ≡ target.key = ap (λ o. o.key) p.1 in
      rw (hold, p.0)
        (
          a.0,
          subst (λ k. At c handler.shape k level d.world) same_key a.1,
          subst (λ k. c.get_object k d.world ≡ ok d.target) same_key a.2,
          a.3 ∙ ap (λ o. o.annotations) p.1,
          a.4 ∙ same_key,
        )

  claim_target_lem :
      (resolution : Resolution) (claims : List Intent) (v : ℤ) (want : Dict Text)
      → read c handler.shape target w ≡ ok v
      → Attainable handler.shape resolution.level
      → claim_wanted c handler now (join (sort (map (λ i. i.claimant) claims)) (codes ",")) target w
        ≡ ok want
      → let d = claim_target c handler now target resolution claims w in
        (d.error ≡ none)
        × At c handler.shape target.key resolution.level d.world
        × (c.get_object target.key d.world ≡ ok d.target)
        × (d.target.annotations ≡ merged target want)
        × (d.target.key ≡ target.key)
  unfolding claim_target
  claim_target_lem resolution claims v want h i k =
      rw (claim_target, record_claim_lem _ want k)
        (hold_lem resolution.level v (merged target want) _ (set_annotations_lem want _) h i)

-- The baseline annotation of a handler is one that a release clears, and is neither of the other
-- two that a claim writes.
abbrev pub OwnBaseline : TargetHandler → Type 0
OwnBaseline h =
    (same annotation_claimed_by h.baseline ≡ false)
    × (same annotation_claimed_at h.baseline ≡ false)
    × Memᴰ h.baseline claim_annotations

abbrev Own : Option TargetHandler → Type 0
Own none = Unit
Own (some h) = OwnBaseline h

handler_for-Own : (kind : Text) → Own (handler_for kind)
unfolding handler_for replica_handler switch_handler cluster_scoped_handler same
handler_for-Own kind = elim (Bool-cases (same kind kind_deployment)) [
  | inl a ↦ rw (a, if◌then◌else◌) (refl, refl, Memᴰ.head refl)
  | inr a ↦ elim (Bool-cases (same kind kind_stateful_set)) [
    | inl b ↦ rw (a, b, if◌then◌else◌) (refl, refl, Memᴰ.head refl)
    | inr b ↦ elim (Bool-cases (same kind kind_cron_job)) [
      | inl d ↦ rw (a, b, d, if◌then◌else◌) (refl, refl, Memᴰ.tail (Memᴰ.head refl))
      | inr d ↦ elim (Bool-cases (same kind kind_node)) [
        | inl e ↦
            rw (a, b, d, e, if◌then◌else◌) (refl, refl, Memᴰ.tail (Memᴰ.tail (Memᴰ.head refl)))
        | inr e ↦ rw (a, b, d, e, if◌then◌else◌) tt
      ]
    ]
  ]
]

pub handler_for-OwnBaseline :
    (kind : Text) (h : TargetHandler) → handler_for kind ≡ some h → OwnBaseline h
handler_for-OwnBaseline kind h e = subst Own e (handler_for-Own kind)

parse_nil : (shape : Shape) → parse shape [] ≡ none
unfolding parse parse_int32 parse_bool same
parse_nil replica = refl
parse_nil (switch field set clear) = refl

format_nonempty : (shape : Shape) (v : ℤ) → IsLevel shape v → same [] (format shape v) ≡ false
format_nonempty shape v l = elim (Bool-cases (same [] (format shape v))) [
  | inr e ↦ e
  | inl e ↦
      let k = ap (λ t. parse shape t) (same→eq [] (format shape v) e) ∙ parse-format shape v l in
      ground (arith, parse_nil shape, k)
]

module _ (c : Cluster) (q : Quiet c) (kind : Text) (handler : TargetHandler) (now : Text)
    (target : Object) (resolution : Resolution) (claims : List Intent) (v : ℤ) (w : c.World)
    (known : handler_for kind ≡ some handler) (st : Stored c target w)
    (found : read c handler.shape target w ≡ ok v)
    (attainable : Attainable handler.shape resolution.level) where
  claim_wanted_recorded :
      (claimed_by raw : Text)
      → lookup handler.baseline target.annotations ≡ some raw
      → claim_wanted c handler now claimed_by target w
        ≡ ok (claim_record handler now claimed_by none)
  unfolding claim_wanted
  claim_wanted_recorded claimed_by raw h = rw (claim_wanted, h, if◌then◌else◌) refl

  claim_wanted_unrecorded :
      (claimed_by : Text)
      → lookup handler.baseline target.annotations ≡ none
      → claim_wanted c handler now claimed_by target w
        ≡ ok (claim_record handler now claimed_by (some v))
  unfolding claim_wanted
  claim_wanted_unrecorded claimed_by h = rw (claim_wanted, h, if◌then◌else◌, found) refl

  -- Whether or not a baseline is on record, there is something to write.
  claim_wanted_ok :
      (claimed_by : Text)
      → (want : Dict Text) × (claim_wanted c handler now claimed_by target w ≡ ok want)
  claim_wanted_ok claimed_by = elim (Option-cases (lookup handler.baseline target.annotations)) [
    | inl h ↦ (_, claim_wanted_unrecorded claimed_by h)
    | inr (raw, h) ↦ (_, claim_wanted_recorded claimed_by raw h)
  ]

  -- In both cases the claim succeeds and leaves the target at the resolved level.
  pub claim_target-At :
      let d = claim_target c handler now target resolution claims w in
      (d.error ≡ none) × At c handler.shape target.key resolution.level d.world
  claim_target-At =
      let (want, k) = claim_wanted_ok (join (sort (map (λ i. i.claimant) claims)) (codes ",")) in
      let l =
        claim_target_lem c q handler now target w st resolution claims v want found attainable k in
      (l.0, l.1)

  -- Nor does a claim change which target the object is.
  pub claim_target-key :
      (claim_target c handler now target resolution claims w).target.key ≡ target.key
  claim_target-key =
      let (want, k) = claim_wanted_ok (join (sort (map (λ i. i.claimant) claims)) (codes ",")) in
      (claim_target_lem c q handler now target w st resolution claims v want found attainable k).4

  -- On an API server that accepts every call, for a target in memory that it holds and that can be
  -- read, which is already claimed, and a resolved level that the target can be brought to: the
  -- claim succeeds, and the API server then holds the target at the resolved level, with the
  -- baseline that was recorded first.
  pub claim_target_recorded :
      (raw : Text)
      → lookup handler.baseline target.annotations ≡ some raw
      → let d = claim_target c handler now target resolution claims w in
        (d.error ≡ none)
        × At c handler.shape target.key resolution.level d.world
        × (c.get_object target.key d.world ≡ ok d.target)
        × (lookup handler.baseline d.target.annotations ≡ some raw)
  unfolding claim_record
  claim_target_recorded raw h =
      let l =
        claim_target_lem c q handler now target w st resolution claims v _ found attainable
          (claim_wanted_recorded _ raw h) in
      let own = handler_for-OwnBaseline kind handler known in
      (
        l.0,
        l.1,
        l.2,
        ap (λ x. lookup handler.baseline x) l.3
            ∙ lookup-merge_annotations handler.baseline target.annotations _ _ (own.0, tt)
            ∙ h,
      )

  -- On an API server that accepts every call, for a target in memory that it holds and that can be
  -- read, which nobody claimed, and a resolved level that the target can be brought to: the claim
  -- succeeds, and the API server then holds the target at the resolved level, with the level that
  -- was read before the claim as its baseline (1 where the scale leaves its replicas out).
  pub claim_target_unrecorded :
      lookup handler.baseline target.annotations ≡ none
      → IsLevel handler.shape v
      → let d = claim_target c handler now target resolution claims w in
        (d.error ≡ none)
        × At c handler.shape target.key resolution.level d.world
        × (c.get_object target.key d.world ≡ ok d.target)
        × (lookup handler.baseline d.target.annotations ≡ some (format handler.shape v))
  unfolding claim_record merge_annotations
  claim_target_unrecorded h level =
      let l =
        claim_target_lem c q handler now target w st resolution claims v _ found attainable
          (claim_wanted_unrecorded _ h) in
      let own = handler_for-OwnBaseline kind handler known in
      (
        l.0,
        l.1,
        l.2,
        ap (λ x. lookup handler.baseline x) l.3
            ∙ lookup-merge_annotations handler.baseline target.annotations
                ((annotation_claimed_at, now) ∷ []) _ (own.1, tt)
            ∙ rw (h, format_nonempty handler.shape v level, if◌then◌else◌)
                (lookup-insert handler.baseline handler.baseline (format handler.shape v) _
                  ∙ rw (same_refl handler.baseline, if◌then◌else◌) refl),
      )
