-- ===== src/Engine/Arbiter/Verdict.antt =====
-- What a resolution says of each claim: the level is the least asked for, every claimant is named
-- once, and on the side that its level puts it.
use mathlib.Core.Option.{some-injective}
use mathlib.Core.List.{Memᴰ, Permᴰ}
use mathlib.Core.List.Permᴰ
use unifi_reactor.Base.{
  List, [], ◌∷◌, ◌++◌, map, some, ◌≡◌, ◌⊎◌, inl, inr, refl, sym, ◌∙◌, subst, arith, true, false,
  Bool-cases,
}
use unifi_reactor.Base.Text.{Text}
use unifi_reactor.Base.Int.{
  ℤ, ◌≤ℤ◌, ◌<ℤ◌, min_cases, lt_of_le_ne, min, same_ℤ, same_ℤ→eq, min-le_left, min-le_right,
}
use unifi_reactor.Base.Sort.{text_order, sort, sort-permᴰ, Permᴰ-Memᴰ, Memᴰ-cons}
use unifi_reactor.Engine.Arbiter.{Intent, Resolution, lowest, winners_at, deferred_at, resolve}

lowest-le_start : (a : ℤ) (l : List Intent) → lowest a l ≤ℤ a
unfolding lowest
lowest-le_start a [] = omega arith
lowest-le_start a (i ∷ l) = omega (arith, lowest-le_start (min a i.level) l, min-le_left a i.level)

lowest-le : (a : ℤ) (l : List Intent) (i : Intent) → Memᴰ i l → lowest a l ≤ℤ i.level
unfolding lowest
lowest-le a [] i m = elim m [ ]
lowest-le a (j ∷ l) i (Memᴰ.head e) =
    rw e (omega (arith, lowest-le_start (min a j.level) l, min-le_right a j.level))
lowest-le a (j ∷ l) i (Memᴰ.tail m) = lowest-le (min a j.level) l i m

winners-mem :
    (v : ℤ) (l : List Intent) (i : Intent)
    → Memᴰ i l
    → same_ℤ i.level v ≡ true
    → Memᴰ i.claimant (winners_at v l)
unfolding winners_at
winners-mem v [] i m e = elim m [ ]
winners-mem v (j ∷ l) i (Memᴰ.head h) e =
    subst (λ x. Memᴰ i.claimant (winners_at v (x ∷ l))) h (rw e (Memᴰ.head refl))
winners-mem v (j ∷ l) i (Memᴰ.tail m) e = elim (Bool-cases (same_ℤ j.level v)) [
  | inl k ↦ rw k (Memᴰ.tail (winners-mem v l i m e))
  | inr k ↦ rw k (winners-mem v l i m e)
]

deferred-mem :
    (v : ℤ) (l : List Intent) (i : Intent)
    → Memᴰ i l
    → same_ℤ i.level v ≡ false
    → Memᴰ i.claimant (deferred_at v l)
unfolding deferred_at
deferred-mem v [] i m e = elim m [ ]
deferred-mem v (j ∷ l) i (Memᴰ.head h) e =
    subst (λ x. Memᴰ i.claimant (deferred_at v (x ∷ l))) h (rw e (Memᴰ.head refl))
deferred-mem v (j ∷ l) i (Memᴰ.tail m) e = elim (Bool-cases (same_ℤ j.level v)) [
  | inl k ↦ rw k (deferred-mem v l i m e)
  | inr k ↦ rw k (Memᴰ.tail (deferred-mem v l i m e))
]

-- Some claim among `l` is by `c`, at the level `v`.
pub record IsAsked (v : ℤ) (c : Text) (l : List Intent) : Type 0 where
  pub intent : Intent
  pub among : Memᴰ intent l
  pub by : intent.claimant ≡ c
  pub at : intent.level ≡ v

IsAsked-cons :
    {v : ℤ} {c : Text} {l : List Intent} (j : Intent) → IsAsked v c l → IsAsked v c (j ∷ l)
IsAsked-cons j a = record { intent = a.intent; among = Memᴰ.tail a.among; by = a.by; at = a.at }

winners-IsAsked : (v : ℤ) (l : List Intent) (c : Text) → Memᴰ c (winners_at v l) → IsAsked v c l
unfolding winners_at
winners-IsAsked v [] c m = elim m [ ]
winners-IsAsked v (j ∷ l) c m = elim (Bool-cases (same_ℤ j.level v)) [
  | inl k ↦ elim (Memᴰ-cons (rw k at m)) [
    | inl e ↦ record { intent = j; among = Memᴰ.head refl; by = sym e; at = same_ℤ→eq j.level v k }
    | inr n ↦ IsAsked-cons j (winners-IsAsked v l c n)
  ]
  | inr k ↦ IsAsked-cons j (winners-IsAsked v l c (rw k at m))
]

winners-append-deferred-permᴰ :
    (v : ℤ) (l : List Intent) → Permᴰ (winners_at v l ++ deferred_at v l) (map (λ i. i.claimant) l)
unfolding winners_at deferred_at
winners-append-deferred-permᴰ v [] = Permᴰ.nil
winners-append-deferred-permᴰ v (j ∷ l) = elim (Bool-cases (same_ℤ j.level v)) [
  | inl k ↦ rw k (Permᴰ.cons refl (winners-append-deferred-permᴰ v l))
  | inr k ↦ rw k (
      Permᴰ.trans (Permᴰ.middle j.claimant (winners_at v l) (deferred_at v l))
        (Permᴰ.cons refl (winners-append-deferred-permᴰ v l)))
]

-- The running minimum is its start or the level of some claim.
lowest-attained :
    (a : ℤ) (l : List Intent)
    → (lowest a l ≡ a) ⊎ ((k : Intent) × Memᴰ k l × (k.level ≡ lowest a l))
unfolding lowest
lowest-attained a [] = inl refl
lowest-attained a (j ∷ l) = elim (lowest-attained (min a j.level) l) [
  | inr (k, m, e) ↦ inr (k, Memᴰ.tail m, e)
  | inl e ↦ elim (min_cases a j.level) [
    | inl q ↦ inl (e ∙ q)
    | inr q ↦ inr (j, Memᴰ.head refl, sym (e ∙ q))
  ]
]

-- What the resolved level and lists say of one claim.
abbrev pub IsHeard : Resolution → Intent → Type 0
IsHeard r i =
    (i.level ≡ r.level) × Memᴰ i.claimant r.winners
    ⊎ (r.level <ℤ i.level) × Memᴰ i.claimant r.deferred

module _ (j : Intent) (l : List Intent) where
  abbrev resolved : Resolution
  resolved =
      let v = lowest j.level l in
      record {
        level = v;
        winners = sort (winners_at v (j ∷ l));
        deferred = sort (deferred_at v (j ∷ l));
      }

  start-le : (i : Intent) → Memᴰ i (j ∷ l) → lowest j.level l ≤ℤ i.level
  start-le i (Memᴰ.head e) = rw e (lowest-le_start j.level l)
  start-le i (Memᴰ.tail m) = lowest-le j.level l i m

  resolved-IsHeard : (i : Intent) → Memᴰ i (j ∷ l) → IsHeard resolved i
  resolved-IsHeard i m =
      let v = lowest j.level l in
      elim (Bool-cases (same_ℤ i.level v)) [
        | inl k ↦ inl (
          same_ℤ→eq i.level v k,
          Permᴰ-Memᴰ i.claimant (Permᴰ.symm (sort-permᴰ _)) (winners-mem v (j ∷ l) i m k),
        )
        | inr k ↦ inr (
          lt_of_le_ne v i.level (start-le i m) k,
          Permᴰ-Memᴰ i.claimant (Permᴰ.symm (sort-permᴰ _)) (deferred-mem v (j ∷ l) i m k),
        )
      ]

  resolved-attained : (k : Intent) × Memᴰ k (j ∷ l) × (k.level ≡ lowest j.level l)
  resolved-attained = elim (lowest-attained j.level l) [
    | inl e ↦ (j, Memᴰ.head refl, sym e)
    | inr (k, m, e) ↦ (k, Memᴰ.tail m, e)
  ]

-- Every claim is heard: whoever asked for the resolved level is a winner, and whoever did not asked
-- for a less restrictive one and is deferred.
pub resolve-IsHeard :
    (l : List Intent) (r : Resolution) (i : Intent) → resolve l ≡ some r → Memᴰ i l → IsHeard r i
unfolding resolve
resolve-IsHeard [] r i e m = elim m [ ]
resolve-IsHeard (j ∷ l) r i e m =
    subst (λ s. IsHeard s i) (some-injective (resolved j l) r e) (resolved-IsHeard j l i m)

-- The resolved level is one that somebody asked for.
pub resolve-attained :
    (l : List Intent) (r : Resolution)
    → resolve l ≡ some r
    → (k : Intent) × Memᴰ k l × (k.level ≡ r.level)
unfolding resolve
resolve-attained [] r e = cc
resolve-attained (j ∷ l) r e =
    subst (λ s. (k : Intent) × Memᴰ k (j ∷ l) × (k.level ≡ s.level))
      (some-injective (resolved j l) r e) (resolved-attained j l)

-- Nobody is a winner without having asked for the resolved level.
pub resolve-IsAsked :
    (l : List Intent) (r : Resolution) (c : Text)
    → resolve l ≡ some r
    → Memᴰ c r.winners
    → IsAsked r.level c l
unfolding resolve
resolve-IsAsked [] r c e m = cc
resolve-IsAsked (j ∷ l) r c e m =
    let same_r = some-injective (resolved j l) r e in
    let won = subst (λ s. Memᴰ c s.winners) (sym same_r) m in
    subst (λ s. IsAsked s.level c (j ∷ l)) same_r
      (winners-IsAsked _ (j ∷ l) c (Permᴰ-Memᴰ c (sort-permᴰ _) won))

sorted-append : (xs ys : List Text) → Permᴰ (sort xs ++ sort ys) (xs ++ ys)
sorted-append xs ys =
    Permᴰ.trans (Permᴰ.append_right (sort ys) (sort-permᴰ xs))
      (Permᴰ.append_left xs (sort-permᴰ ys))

-- Winners and deferred together are the claimants, each as often as it claimed.
pub resolve-permᴰ :
    (l : List Intent) (r : Resolution)
    → resolve l ≡ some r
    → Permᴰ (r.winners ++ r.deferred) (map (λ i. i.claimant) l)
unfolding resolve
resolve-permᴰ [] r e = cc
resolve-permᴰ (j ∷ l) r e =
    subst (λ s. Permᴰ (s.winners ++ s.deferred) (map (λ i. i.claimant) (j ∷ l)))
      (some-injective (resolved j l) r e)
      (Permᴰ.trans (sorted-append _ _) (winners-append-deferred-permᴰ _ (j ∷ l)))
