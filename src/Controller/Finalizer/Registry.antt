-- ===== src/Controller/Finalizer/Registry.antt =====
-- The Automation that the API server holds, before and after the writes of its finalizer.
use unifi_reactor.Base.{
  true, false, List, [], Option, none, some, ◌≡◌, ◌⊎◌, inl, inr, sym, ap, ◌∙◌, Bool, Option-cases,
}
use unifi_reactor.Base.Text.{Text}
use unifi_reactor.Base.Int.{ltb_ℤ, add_ℤ, mul_ℤ, to_int32, pos}
use unifi_reactor.Controller.Automation.{Automation}
use unifi_reactor.Controller.Cluster.{Cluster, Error}
use unifi_reactor.Controller.Finalizer.{
  Finalized, finalizer_release_claims, let_delete, max_release_attempts, release_retry_interval,
  updated,
}

-- What controllerutil documents of its functions.
pub record FinalizerLaws (c : Cluster) : Type 0 where
  pub removed :
      (fs : List Text) (f : Text) → c.contains_finalizer (c.remove_finalizer fs f) f ≡ false
  pub added : (fs : List Text) (f : Text) → c.contains_finalizer (c.add_finalizer fs f) f ≡ true
  pub absent : (f : Text) → c.contains_finalizer [] f ≡ false

-- What the API server holds after it accepted an update of `a`: its finalizers, or nothing, which it
-- documents of an object that is being deleted and has no finalizer left.
abbrev pub Kept : Automation → Option Automation → Type 0
Kept a none = a.finalizers ≡ []
Kept a (some b) = b.finalizers ≡ a.finalizers

-- The Automation that the API server holds under one name, and what it documents of writes of it that
-- it accepts. A write that it refuses may leave anything behind.
pub record Registry (c : Cluster) (namespace name : Text) : Type 0 where
  pub stored : c.World → Option Automation
  pub named :
      (w : c.World) (a : Automation)
      → stored w ≡ some a
      → (a.namespace ≡ namespace) × (a.name ≡ name)
  pub update_stored :
      (a : Automation) (w : c.World)
      → (a.namespace ≡ namespace) × (a.name ≡ name)
      → (c.update_automation a w).0 ≡ none
      → Kept a (stored ((c.update_automation a w).1))
  pub status_stored :
      (a : Automation) (w : c.World)
      → (a.namespace ≡ namespace) × (a.name ≡ name)
      → (c.update_status a w).0 ≡ none
      → (b : Automation) × (stored ((c.update_status a w).1) ≡ some b) × (b.status ≡ a.status)

-- The finalizer is on the Automation that the API server holds.
unfoldable pub holds : Cluster → Option Automation → Bool
holds c none = false
holds c (some a) = c.contains_finalizer a.finalizers finalizer_release_claims

module _ (c : Cluster) {namespace name : Text} (st : Registry c namespace name) where
  -- Without an error, and the Automation is gone or free to go.
  abbrev pub IsLetGo : Finalized c.World → Type 0
  IsLetGo d = (d.error ≡ none) × (holds c (st.stored d.world) ≡ false)

  -- Without an error, and the API server holds the Automation with one more attempt on record, which
  -- is below the bound; the next call is asked for after so many intervals.
  abbrev pub IsRetried : Automation → Finalized c.World → Type 0
  IsRetried a d =
      (d.error ≡ none)
      × (b : Automation) × (st.stored d.world ≡ some b)
      × (b.status.release_attempts ≡ to_int32 (add_ℤ a.status.release_attempts (pos 1)))
      × (ltb_ℤ b.status.release_attempts max_release_attempts ≡ true)
      × (d.requeue_after ≡ mul_ℤ b.status.release_attempts release_retry_interval)

  -- The API server refused the write of the Automation as it is left in memory, and its error is
  -- returned.
  abbrev pub IsRefused : Finalized c.World → Type 0
  IsRefused d =
      (e : Error) × (w : c.World) × (d.error ≡ some e)
      × (((c.update_automation d.automation w).0 ≡ some e)
          ⊎ ((c.update_status d.automation w).0 ≡ some e))

  -- An update that is accepted: what the API server then holds has the finalizer if the Automation in
  -- memory has.
  module _ (laws : FinalizerLaws c) where
    Kept-holds :
        (a : Automation) (o : Option Automation)
        → Kept a o
        → holds c o ≡ c.contains_finalizer a.finalizers finalizer_release_claims
    unfolding holds
    Kept-holds a none h = sym (
        ap (λ fs. c.contains_finalizer fs finalizer_release_claims) h
        ∙ laws.absent finalizer_release_claims)
    Kept-holds a (some b) h = ap (λ fs. c.contains_finalizer fs finalizer_release_claims) h

    pub updated_cases :
        (a : Automation) (w : c.World) (f : Bool)
        → (a.namespace ≡ namespace) × (a.name ≡ name)
        → c.contains_finalizer a.finalizers finalizer_release_claims ≡ f
        → ((((updated c a w).error ≡ none) × (holds c (st.stored (updated c a w).world) ≡ f))
            ⊎ IsRefused (updated c a w))
    unfolding updated
    updated_cases a w f n h = elim (Option-cases (c.update_automation a w).0) [
      | inl e ↦ inl (e, Kept-holds a _ (st.update_stored a w n e) ∙ h)
      | inr (e, x) ↦ inr (e, w, x, inl x)
    ]

    pub let_delete_cases :
        (a : Automation) (w : c.World)
        → (a.namespace ≡ namespace) × (a.name ≡ name)
        → IsLetGo (let_delete c a w) ⊎ IsRefused (let_delete c a w)
    unfolding let_delete
    let_delete_cases a w n =
        updated_cases
          (record a { finalizers = c.remove_finalizer a.finalizers finalizer_release_claims }) w
          false n (laws.removed a.finalizers finalizer_release_claims)
