-- ===== src/Controller/Peers/Agreement.antt =====
-- Every Automation that shares a target gathers the same claims, whichever of them is reconciled.
use mathlib.Core.List.{Memᴰ, Permᴰ}
use mathlib.Core.List.Permᴰ
use mathlib.Core.Path.{subst₂}
use unifi_reactor.Base.{
  Bool, true, false, ◌&&◌, List, [], ◌∷◌, Option, none, some, ◌≡◌, refl, sym, ap, ◌∙◌, arith,
  if◌then◌else◌, Bool-cases, inl, inr, subst,
}
use unifi_reactor.Base.Text.{Text, same, same_refl, same→eq}
use unifi_reactor.Base.Int.{ℤ}
use unifi_reactor.Base.Dict.{is_some}
use unifi_reactor.Engine.Arbiter.{Intent, resolve}
use unifi_reactor.Engine.Arbiter.Meet.{resolve-permᴰ}
use unifi_reactor.Engine.Store.{StateStore}
use unifi_reactor.Controller.Automation.{Automation, in_force}
use unifi_reactor.Controller.Evaluate.{matching_of}
use unifi_reactor.Controller.Claims.{TargetKey, claimant_of, references, claim_for}
use unifi_reactor.Controller.Peers.{
  is_peer, other_peers, referencing_automations, peer_matching, gather,
}

-- The Automations that take part in the arbitration of a target, with none singled out.
abbrev pub is_sharer : TargetKey → Automation → Bool
is_sharer key a = is_some a.spec.when && references a key

abbrev pub sharers : TargetKey → List Automation → List Automation
sharers key [] = []
sharers key (a ∷ items) = let rest = sharers key items in if is_sharer key a then a ∷ rest else rest

-- No item claims under the name `c`.
abbrev pub Absent : Text → List Automation → Type 0
Absent c [] = Unit
Absent c (a ∷ items) = (same (claimant_of a) c ≡ false) × Absent c items

-- The items of a cluster differ in namespace or name.
abbrev pub DistinctNames : List Automation → Type 0
DistinctNames [] = Unit
DistinctNames (a ∷ items) = Absent (claimant_of a) items × DistinctNames items

other_peers-Absent :
    (key : TargetKey) (self : Automation) (items : List Automation)
    → Absent (claimant_of self) items
    → other_peers key self items ≡ sharers key items
unfolding other_peers
other_peers-Absent key self [] h = refl
other_peers-Absent key self (a ∷ items) h = ground (arith, other_peers-Absent key self items h.1)

Absent-mem :
    (c : Text) (items : List Automation) (a : Automation)
    → Absent c items
    → Memᴰ a items
    → same (claimant_of a) c ≡ false
Absent-mem c [] a h m = elim m [ ]
Absent-mem c (b ∷ items) a h (Memᴰ.head e) = ap (λ x. same (claimant_of x) c) e ∙ h.0
Absent-mem c (b ∷ items) a h (Memᴰ.tail m) = Absent-mem c items a h.1 m

referencing_head :
    (key : TargetKey) (a : Automation) (items : List Automation)
    → Absent (claimant_of a) items
    → is_sharer key a ≡ true
    → referencing_automations key a (a ∷ items) ≡ sharers key (a ∷ items)
unfolding referencing_automations other_peers is_peer
referencing_head key a items d h =
    ground (arith, h, same_refl (claimant_of a), other_peers-Absent key a items d)

is_peer-sharer :
    (key : TargetKey) (self a : Automation)
    → same (claimant_of self) (claimant_of a) ≡ false
    → is_peer key self a ≡ is_sharer key a
unfolding is_peer
is_peer-sharer key self a ne =
    ground (arith, ne, same→eq (claimant_of a) (claimant_of self), same_refl (claimant_of self))

referencing-permᴰ :
    (key : TargetKey) (self : Automation) (items : List Automation)
    → DistinctNames items
    → Memᴰ self items
    → is_sharer key self ≡ true
    → Permᴰ (referencing_automations key self items) (sharers key items)
unfolding referencing_automations other_peers
referencing-permᴰ key self [] d m h = elim m [ ]
referencing-permᴰ key self (a ∷ items) d (Memᴰ.head e) h =
    subst (λ l. Permᴰ l (sharers key (a ∷ items)))
      (sym (
        ap (λ x. referencing_automations key x (a ∷ items)) e
        ∙ referencing_head key a items d.0 (ap (is_sharer key) (sym e) ∙ h)))
      (Permᴰ.refl (sharers key (a ∷ items)))
referencing-permᴰ key self (a ∷ items) d (Memᴰ.tail m) h =
    let other = is_peer-sharer key self a (Absent-mem (claimant_of a) items self d.0 m) in
    let ih = referencing-permᴰ key self items d.1 m h in
    elim (Bool-cases (is_sharer key a)) [
      | inl e ↦
          rw (other, e)
            (Permᴰ.trans (Permᴰ.swap {l = other_peers key self items} refl refl)
              (Permᴰ.cons refl ih))
      | inr e ↦ rw (other, e) ih
    ]

-- What a list of peers adds, as two lists apart.
abbrev claim_of : TargetKey → (Automation → Bool) → Automation → Option Intent
claim_of key matching a = claim_for a key (matching a)

abbrev push : Option Intent → List Intent → List Intent
push none l = l
push (some i) l = i ∷ l

abbrev collect : (Automation → Option Intent) → List Automation → List Intent
collect f [] = []
collect f (a ∷ l) = push (f a) (collect f l)

push-permᴰ : (o : Option Intent) {xs ys : List Intent} → Permᴰ xs ys → Permᴰ (push o xs) (push o ys)
push-permᴰ none p = p
push-permᴰ (some i) p = Permᴰ.cons refl p

push_swap : (o p : Option Intent) (l : List Intent) → Permᴰ (push o (push p l)) (push p (push o l))
push_swap none p l = Permᴰ.refl (push p l)
push_swap (some i) none l = Permᴰ.refl (i ∷ l)
push_swap (some i) (some j) l = Permᴰ.swap {l = l} refl refl

collect-permᴰ :
    (f : Automation → Option Intent) {xs ys : List Automation}
    → Permᴰ xs ys
    → Permᴰ (collect f xs) (collect f ys)
collect-permᴰ f Permᴰ.nil = Permᴰ.nil
collect-permᴰ f (Permᴰ.cons {a} {b} {l₁} {l₂} e p) =
    subst (λ x. Permᴰ (collect f (a ∷ l₁)) (collect f (x ∷ l₂))) e
      (push-permᴰ (f a) (collect-permᴰ f p))
collect-permᴰ f (Permᴰ.swap {a} {b} {l = l} e g) =
    subst₂ (λ x y. Permᴰ (collect f (a ∷ b ∷ l)) (collect f (x ∷ y ∷ l))) g e
      (push_swap (f a) (f b) (collect f l))
collect-permᴰ f (Permᴰ.trans p q) = Permᴰ.trans (collect-permᴰ f p) (collect-permᴰ f q)

gather-claims :
    (key : TargetKey) (found : Option ℤ) (matching : Automation → Bool) (l : List Automation)
    → (gather key found matching l).0 ≡ collect (claim_of key matching) l
unfolding gather
gather-claims key found matching [] = refl
gather-claims key found matching (a ∷ l) = ground (arith, gather-claims key found matching l)

-- Whether an Automation claims, by its own condition alone.
abbrev pub stands : ℤ → StateStore → Automation → Bool
stands now s a = in_force a && matching_of now s a

module _ (now : ℤ) (s : StateStore) (key : TargetKey) where
  -- The claims on the target that one reconcile gathers.
  abbrev pub claims_seen_by : Option ℤ → List Automation → Automation → List Intent
  claims_seen_by found items self =
      (gather key found (peer_matching now s self (stands now s self))
        (referencing_automations key self items)).0

  collect-others :
      (self : Automation) (claiming : Bool) (items : List Automation)
      → collect (claim_of key (peer_matching now s self claiming)) (other_peers key self items)
        ≡ collect (claim_of key (stands now s)) (other_peers key self items)
  unfolding other_peers is_peer peer_matching
  collect-others self claiming [] = refl
  collect-others self claiming (a ∷ items) = ground (arith, collect-others self claiming items)

  claims-collect :
      (found : Option ℤ) (items : List Automation) (self : Automation)
      → claims_seen_by found items self
        ≡ collect (claim_of key (stands now s)) (referencing_automations key self items)
  unfolding referencing_automations peer_matching
  claims-collect found items self =
      gather-claims key found _ (referencing_automations key self items)
      ∙ ground (arith, same_refl (claimant_of self), collect-others self (stands now s self) items)

  claims-permᴰ :
      (found : Option ℤ) (items : List Automation) (self : Automation)
      → DistinctNames items
      → Memᴰ self items
      → is_sharer key self ≡ true
      → Permᴰ
          (claims_seen_by found items self)
          (collect (claim_of key (stands now s)) (sharers key items))
  claims-permᴰ found items self d m h =
      subst (λ l. Permᴰ l (collect (claim_of key (stands now s)) (sharers key items)))
        (sym (claims-collect found items self))
        (collect-permᴰ _ (referencing-permᴰ key self items d m h))

  -- Two Automations that share a target, both as the cluster lists them, arbitrate it to the same
  -- resolution at one moment: whichever is reconciled, the same level wins, with the same winners
  -- and the same deferred.
  pub claims_agree :
      (found : Option ℤ) (items : List Automation) (a b : Automation)
      → DistinctNames items
      → Memᴰ a items
      → Memᴰ b items
      → is_sharer key a ≡ true
      → is_sharer key b ≡ true
      → resolve (claims_seen_by found items a) ≡ resolve (claims_seen_by found items b)
  claims_agree found items a b d m n h k = resolve-permᴰ (
      Permᴰ.trans (claims-permᴰ found items a d m h)
        (Permᴰ.symm (claims-permᴰ found items b d n k)))
