-- ===== src/Engine/Arbiter/Meet.antt =====
-- The arbitrated level as a meet: it depends on the set of claims only.
use mathlib.Core.Option
use mathlib.Core.List.{Perm, Permᴰ}
use mathlib.Core.Logic.{∥∥₁_elim}
use unifi_reactor.Base.{
  List, [], ◌∷◌, Option, Option-cases, inl, inr, none, some, ◌≡◌, refl, ◌∙◌, ap, arith,
}
use unifi_reactor.Base.Int.{ℤ, min, min_comm, min_assoc}
use unifi_reactor.Base.Sort.{text_order, sort, sort_by, insert_comm}
use unifi_reactor.Engine.Arbiter.{Intent, Resolution, lowest, winners_at, deferred_at, resolve}

-- The meet of the levels asked for, with no first element singled out.
abbrev pub meet : List Intent → Option ℤ
meet [] = none
meet (i ∷ intents) = elim (meet intents) [ none ↦ some i.level | some l ↦ some (min i.level l) ]

lowest-min : (a b : ℤ) (l : List Intent) → lowest (min a b) l ≡ min a (lowest b l)
unfolding lowest
lowest-min a b [] = refl
lowest-min a b (i ∷ l) = rw min_assoc (lowest-min a (min b i.level) l)

meet-lowest : (i : Intent) (l : List Intent) → meet (i ∷ l) ≡ some (lowest i.level l)
unfolding lowest
meet-lowest i [] = refl
meet-lowest i (j ∷ l) = ground (arith, meet-lowest j l, lowest-min i.level j.level l)

min_left_comm : (a b c : ℤ) → min a (min b c) ≡ min b (min a c)
min_left_comm a b c = cc (min_assoc a b c, min_assoc b a c, min_comm a b)

meet_swap : (a b : Intent) (l : List Intent) → meet (a ∷ b ∷ l) ≡ meet (b ∷ a ∷ l)
meet_swap a b l = elim (Option-cases (meet l)) [
  | inl e ↦ rw e (ap some (min_comm a.level b.level))
  | inr (m, e) ↦ rw e (ap some (min_left_comm a.level b.level m))
]

meet-perm : {xs ys : List Intent} → Permᴰ xs ys → meet xs ≡ meet ys
meet-perm Permᴰ.nil = refl
meet-perm (Permᴰ.cons {a} {b} {l₁} {l₂} e p) = cc (meet-perm p)
meet-perm (Permᴰ.swap {a} {b} {l = l} e f) = cc (meet_swap a b l)
meet-perm (Permᴰ.trans p q) = meet-perm p ∙ meet-perm q

-- Which claimants a rule keeps, sorted, does not depend on the order either.
winners-perm :
    {xs ys : List Intent} (v : ℤ) → Permᴰ xs ys → sort (winners_at v xs) ≡ sort (winners_at v ys)
unfolding winners_at sort_by
winners-perm v Permᴰ.nil = refl
winners-perm v (Permᴰ.cons e p) = ground (arith, winners-perm v p)
winners-perm v (Permᴰ.swap {a} {b} {l = l} e f) =
    ground (arith, insert_comm a.claimant b.claimant (sort (winners_at v l)))
winners-perm v (Permᴰ.trans p q) = winners-perm v p ∙ winners-perm v q

deferred-perm :
    {xs ys : List Intent} (v : ℤ) → Permᴰ xs ys → sort (deferred_at v xs) ≡ sort (deferred_at v ys)
unfolding deferred_at sort_by
deferred-perm v Permᴰ.nil = refl
deferred-perm v (Permᴰ.cons e p) = ground (arith, deferred-perm v p)
deferred-perm v (Permᴰ.swap {a} {b} {l = l} e f) =
    ground (arith, insert_comm a.claimant b.claimant (sort (deferred_at v l)))
deferred-perm v (Permᴰ.trans p q) = deferred-perm v p ∙ deferred-perm v q

abbrev verdict : List Intent → ℤ → Resolution
verdict intents level = record {
  level = level;
  winners = sort (winners_at level intents);
  deferred = sort (deferred_at level intents);
}

resolve-meet : (xs : List Intent) → resolve xs ≡ Option.map (verdict xs) (meet xs)
unfolding resolve
resolve-meet [] = refl
resolve-meet (i ∷ l) = cc (meet-lowest i l)

verdict-perm : {xs ys : List Intent} (m : ℤ) → Permᴰ xs ys → verdict xs m ≡ verdict ys m
verdict-perm m p = cc (winners-perm m p, deferred-perm m p)

pub resolve-permᴰ : {xs ys : List Intent} → Permᴰ xs ys → resolve xs ≡ resolve ys
resolve-permᴰ {xs} {ys} p = elim (Option-cases (meet xs)) [
  | inl e ↦ cc (resolve-meet xs, resolve-meet ys, meet-perm p)
  | inr (m, e) ↦ cc (resolve-meet xs, resolve-meet ys, meet-perm p, verdict-perm m p)
]

Resolution-set : IsSet (Option Resolution)
Resolution-set = hlevel

-- Arbitration is a function of the set of claims: in whatever order they were gathered, the level,
-- the winners and the deferred are the same.
pub resolve-perm : (xs ys : List Intent) → Perm xs ys → resolve xs ≡ resolve ys
resolve-perm xs ys p = ∥∥₁_elim p (Resolution-set (resolve xs) (resolve ys)) resolve-permᴰ
