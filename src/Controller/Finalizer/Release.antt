-- ===== src/Controller/Finalizer/Release.antt =====
-- What a deleted Automation's finalizer comes to, and passes over all targets.
use unifi_reactor.Base.{
  ℕ, suc, true, false, not, ◌&&◌, List, [], ◌∷◌, ◌++◌, Option, none, some, if◌then◌else◌, ◌≡◌, ◌⊎◌,
  inl, inr, refl, sym, subst, ap, ◌∙◌, arith, Bool-cases, Option-cases,
}
use unifi_reactor.Base.Text.{Text}
use unifi_reactor.Base.Int.{pos, ltb_ℤ, add_ℤ, mul_ℤ, to_int32}
use unifi_reactor.Controller.Automation.{Automation}
use unifi_reactor.Controller.Claims.{TargetKey, targets_of}
use unifi_reactor.Controller.Cluster.{Cluster}
use unifi_reactor.Controller.Target.{Reconciler, Stance, TargetOutcome, reconcile_target}
use unifi_reactor.Controller.Target.Withheld.{reconcile_target-Unwritten}
use unifi_reactor.Controller.Finalizer.{
  no_targets, finalize, finalizer_release_claims, gone, max_release_attempts, reconcile_finalizer,
  reconcile_keys, reconcile_targets, release_retry_interval, retry_release,
}
use unifi_reactor.Controller.Finalizer.Registry.{
  FinalizerLaws, IsLetGo, IsRefused, IsRetried, Registry, holds, let_delete_cases, updated_cases,
}

module _ (c : Cluster) {namespace name : Text} (st : Registry c namespace name) where
  -- The finalizer is gone, or `n` attempts are on record.
  abbrev Reached : ℕ → Option Automation → Type 0
  Reached n none = Unit
  Reached n (some a) =
      (c.contains_finalizer a.finalizers finalizer_release_claims ≡ false)
      ⊎ (a.status.release_attempts ≡ pos n)

  module _ (laws : FinalizerLaws c) where
    retry_release_cases :
        (a : Automation) (w : c.World)
        → (a.namespace ≡ namespace) × (a.name ≡ name)
        → IsLetGo c st (retry_release c a w)
          ⊎ (IsRetried c st a (retry_release c a w) ⊎ IsRefused c st (retry_release c a w))
    unfolding retry_release
    retry_release_cases a w n =
        let attempts = to_int32 (add_ℤ a.status.release_attempts (pos 1)) in
        let after = record a { status = record a.status { release_attempts = attempts } } in
        elim (Bool-cases (ltb_ℤ attempts max_release_attempts)) [
          | inr x ↦
              rw (retry_release, x, if◌then◌else◌)
                (elim (let_delete_cases c st laws a w n) [
                  | inl gone ↦ inl gone
                  | inr refused ↦ inr (inr refused)
                ])
          | inl x ↦ elim (Option-cases (c.update_status after w).0) [
            | inl y ↦
                let (b, held, status) = st.status_stored after w n y in
                let count : b.status.release_attempts ≡ attempts =
                  ap (λ t. t.release_attempts) status in
                rw (retry_release, x, if◌then◌else◌, y)
                  (inr (
                    inl (
                      refl,
                      b,
                      held,
                      count,
                      ap (λ t. ltb_ℤ t max_release_attempts) count ∙ x,
                      ap (λ t. mul_ℤ t release_retry_interval) (sym count),
                    )))
            | inr (e, y) ↦ rw (retry_release, x, if◌then◌else◌, y) (inr (inr (e, w, refl, inr y)))
          ]
        ]

    -- For an Automation that the API server holds, whatever it answers: `finalize` ends without an
    -- error and the API server then holds the Automation without the finalizer or no more; or without
    -- an error, with one more attempt on record at the API server, which is below the bound, and asks
    -- to be called again after that many intervals; or the API server refused the write of the
    -- Automation and its error is returned.
    pub finalize_lem :
        (r : Reconciler) (a : Automation) (w : c.World)
        → st.stored w ≡ some a
        → IsLetGo c st (finalize c r a w)
          ⊎ (IsRetried c st a (finalize c r a w) ⊎ IsRefused c st (finalize c r a w))
    unfolding finalize holds
    finalize_lem r a w h =
        let n = st.named w a h in
        elim (Bool-cases (c.contains_finalizer a.finalizers finalizer_release_claims)) [
          | inr x ↦ rw (finalize, x, if◌then◌else◌) (inl (refl, ap (λ o. holds c o) h ∙ x))
          | inl x ↦ elim (Option-cases (reconcile_targets c r a gone w).error) [
            | inl y ↦
                rw (finalize, x, if◌then◌else◌, y)
                  (elim (let_delete_cases c st laws a (reconcile_targets c r a gone w).world n) [
                    | inl free ↦ inl free
                    | inr refused ↦ inr (inr refused)
                  ])
            | inr (e, y) ↦
                rw (finalize, x, if◌then◌else◌, y)
                  (retry_release_cases a (reconcile_targets c r a gone w).world n)
          ]
        ]

    free-Reached : (n : ℕ) (o : Option Automation) → holds c o ≡ false → Reached n o
    unfolding holds
    free-Reached n none h = tt
    free-Reached n (some a) h = inl h

    -- One call without an error takes the state of the Automation on by one attempt.
    finalize-Reached :
        (r : Reconciler) (a : Automation) (w : c.World) (n : ℕ)
        → to_int32 (add_ℤ (pos n) (pos 1)) ≡ pos (suc n)
        → st.stored w ≡ some a
        → (finalize c r a w).error ≡ none
        → Reached n (some a)
        → Reached (suc n) (st.stored (finalize c r a w).world)
    unfolding finalize
    finalize-Reached r a w n i h e (inl free) = rw (finalize, free, if◌then◌else◌, h) (inl free)
    finalize-Reached r a w n i h e (inr at) = elim (finalize_lem r a w h) [
      | inl free ↦ free-Reached (suc n) _ free.1
      | inr (inl (f, b, held, count, below, x)) ↦
          rw held (inr (count ∙ ap (λ t. to_int32 (add_ℤ t (pos 1))) at ∙ i))
      | inr (inr (f, u, x, y)) ↦ ground (arith, e, x)
    ]

    Reached-last :
        (r : Reconciler) (a : Automation) (w : c.World)
        → st.stored w ≡ some a
        → (finalize c r a w).error ≡ none
        → Reached 2 (some a)
        → holds c (st.stored (finalize c r a w).world) ≡ false
    unfolding finalize holds to_int32 add_ℤ ltb_ℤ
    Reached-last r a w h e (inl free) = rw (finalize, free, if◌then◌else◌, h) free
    Reached-last r a w h e (inr at) = elim (finalize_lem r a w h) [
      | inl gone ↦ gone.1
      | inr (inl (f, b, held, count, below, x)) ↦
          let third = count ∙ ap (λ t. to_int32 (add_ℤ t (pos 1))) at in
          ground (arith, third, below)
      | inr (inr (f, u, x, y)) ↦ ground (arith, e, x)
    ]

    -- Three calls of `finalize` without an error, each on the Automation that the API server then
    -- holds, the first with no attempt on record, and where nobody else writes the Automation in
    -- between: after the third the API server holds it without the finalizer or no more, however the
    -- rest of the world changes between the calls and whatever keeps its targets from being released.
    pub finalize_thrice :
        (r : Reconciler) (a₁ a₂ a₃ : Automation) (w₁ w₂ w₃ : c.World)
        → a₁.status.release_attempts ≡ pos 0
        → st.stored w₁ ≡ some a₁
        → (finalize c r a₁ w₁).error ≡ none
        → st.stored (finalize c r a₁ w₁).world ≡ some a₂
        → st.stored w₂ ≡ some a₂
        → (finalize c r a₂ w₂).error ≡ none
        → st.stored (finalize c r a₂ w₂).world ≡ some a₃
        → st.stored w₃ ≡ some a₃
        → (finalize c r a₃ w₃).error ≡ none
        → holds c (st.stored (finalize c r a₃ w₃).world) ≡ false
    unfolding to_int32 add_ℤ
    finalize_thrice r a₁ a₂ a₃ w₁ w₂ w₃ new h₁ e₁ s₁ h₂ e₂ s₂ h₃ e₃ =
        let one = subst (Reached 1) s₁ (finalize-Reached r a₁ w₁ 0 refl h₁ e₁ (inr new)) in
        let two = subst (Reached 2) s₂ (finalize-Reached r a₂ w₂ 1 refl h₂ e₂ one) in
        Reached-last r a₃ w₃ h₃ e₃ two

    -- For an Automation that the API server holds, whatever it answers: after `reconcileFinalizer`
    -- without an error, it holds the Automation with the finalizer exactly if that names a target and
    -- the install is no dry run; otherwise the API server refused the write and its error is returned.
    pub reconcile_finalizer_lem :
        (r : Reconciler) (a : Automation) (w : c.World)
        → st.stored w ≡ some a
        → (((reconcile_finalizer c r a w).error ≡ none)
            × (holds c (st.stored (reconcile_finalizer c r a w).world)
                ≡ (not (no_targets (targets_of a)) && not r.dry_run)))
          ⊎ IsRefused c st (reconcile_finalizer c r a w)
    unfolding reconcile_finalizer holds
    reconcile_finalizer_lem r a w h =
        let n = st.named w a h in
        let has = c.contains_finalizer a.finalizers finalizer_release_claims in
        let added = c.add_finalizer a.finalizers finalizer_release_claims in
        let removed = c.remove_finalizer a.finalizers finalizer_release_claims in
        elim (Bool-cases (not (no_targets (targets_of a)) && not r.dry_run)) [
          | inl x ↦ elim (Bool-cases has) [
            | inl y ↦
                rw (reconcile_finalizer, x, y, if◌then◌else◌)
                  (inl (refl, ap (λ o. holds c o) h ∙ y))
            | inr y ↦
                rw (reconcile_finalizer, x, y, if◌then◌else◌)
                  (updated_cases c st laws (record a { finalizers = added }) w true n
                    (laws.added a.finalizers finalizer_release_claims))
          ]
          | inr x ↦ elim (Bool-cases has) [
            | inl y ↦
                rw (reconcile_finalizer, x, y, if◌then◌else◌)
                  (updated_cases c st laws (record a { finalizers = removed }) w false n
                    (laws.removed a.finalizers finalizer_release_claims))
            | inr y ↦
                rw (reconcile_finalizer, x, y, if◌then◌else◌)
                  (inl (refl, ap (λ o. holds c o) h ∙ y))
          ]
        ]

module _ (c : Cluster) where
  reconcile_keys_dry_run :
      (r : Reconciler) (self : Automation) (s : Stance)
      → r.dry_run ≡ true
      → (keys : List TargetKey) (outcomes : List TargetOutcome) (w : c.World)
      → (reconcile_keys c r self s keys outcomes w).world ≡ w
  unfolding reconcile_keys
  reconcile_keys_dry_run r self s dry [] outcomes w = refl
  reconcile_keys_dry_run r self s dry (key ∷ keys) outcomes w =
      let p = reconcile_target c r key self s w in
      let still = (reconcile_target-Unwritten c r dry key self s w).0 in
      elim (Option-cases p.error) [
        | inr (e, x) ↦ rw (reconcile_keys, x) still
        | inl x ↦
            rw (reconcile_keys, x)
              (reconcile_keys_dry_run r self s dry keys (outcomes ++ (p.outcome ∷ [])) p.world
                ∙ still)
      ]

  -- In a dry run the passes over all targets of an Automation leave the world as it was, also where
  -- one of them ends with an error.
  pub reconcile_targets_dry_run :
      (r : Reconciler) (self : Automation) (s : Stance) (w : c.World)
      → r.dry_run ≡ true
      → (reconcile_targets c r self s w).world ≡ w
  unfolding reconcile_targets
  reconcile_targets_dry_run r self s w dry =
      reconcile_keys_dry_run r self s dry (targets_of self) [] w
