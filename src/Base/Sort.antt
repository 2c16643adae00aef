-- ===== src/Base/Sort.antt =====
-- `slices.Sort` over a total order: the order as an interface, an insertion sort, and the fact that
-- its result depends only on which elements there are. Any correct sort gives the same result.
use mathlib.Core.Path.{◌≡◌, refl, ap₂, ◌∙◌}
use mathlib.Core.Logic.{◌⊎◌, inl, inr}
use mathlib.Core.Bool.{Bool, true, false}
use mathlib.Core.List.Permᴰ
use mathlib.Core.List.{List, [], ◌∷◌, Memᴰ, Permᴰ}
use native.Mathlib.Omega.{arith}
use unifi_reactor.Base.Tests.{if◌then◌else◌, Bool-cases}
use unifi_reactor.Base.Text.{Text, leb_text, leb_text-total, leb_text_antisymm, leb_text_trans}

pub Memᴰ-cons {ℓ} : {A : Type ℓ} {a x : A} {xs : List A} → Memᴰ a (x ∷ xs) → (a ≡ x) ⊎ Memᴰ a xs
Memᴰ-cons (Memᴰ.head e) = inl e
Memᴰ-cons (Memᴰ.tail m) = inr m

pub Permᴰ-Memᴰ {ℓ} : {A : Type ℓ} {xs ys : List A} (a : A) → Permᴰ xs ys → Memᴰ a xs → Memᴰ a ys
Permᴰ-Memᴰ a Permᴰ.nil m = elim m [ ]
Permᴰ-Memᴰ a (Permᴰ.cons e p) (Memᴰ.head h) = Memᴰ.head (h ∙ e)
Permᴰ-Memᴰ a (Permᴰ.cons e p) (Memᴰ.tail m) = Memᴰ.tail (Permᴰ-Memᴰ a p m)
Permᴰ-Memᴰ a (Permᴰ.swap e f) (Memᴰ.head h) = Memᴰ.tail (Memᴰ.head (h ∙ e))
Permᴰ-Memᴰ a (Permᴰ.swap e f) (Memᴰ.tail (Memᴰ.head h)) = Memᴰ.head (h ∙ f)
Permᴰ-Memᴰ a (Permᴰ.swap e f) (Memᴰ.tail (Memᴰ.tail m)) = Memᴰ.tail (Memᴰ.tail m)
Permᴰ-Memᴰ a (Permᴰ.trans p q) m = Permᴰ-Memᴰ a q (Permᴰ-Memᴰ a p m)

-- A total order given by a test.
pub record TotalOrder (A : Type 0) : Type 0 where
  pub leq : A → A → Bool
  pub total : (a b : A) → leq a b ≡ false → leq b a ≡ true
  pub antisymm : (a b : A) → leq a b ≡ true → leq b a ≡ true → a ≡ b
  pub trans : (a b c : A) → leq a b ≡ true → leq b c ≡ true → leq a c ≡ true

instance abbrev pub text_order : TotalOrder Text
text_order = record {
  leq = leb_text;
  total = leb_text-total;
  antisymm = leb_text_antisymm;
  trans = leb_text_trans;
}

module _ {A : Type 0} (leq : A → A → Bool) where
  unfoldable pub insert_by : A → List A → List A
  insert_by x [] = x ∷ []
  insert_by x (y ∷ ys) = let rest = y ∷ insert_by x ys in if leq x y then x ∷ y ∷ ys else rest

  -- `slices.SortFunc`
  unfoldable pub sort_by : List A → List A
  unfolding insert_by
  sort_by [] = []
  sort_by (x ∷ xs) = insert_by x (sort_by xs)

  insert_by-permᴰ : (x : A) (l : List A) → Permᴰ (insert_by x l) (x ∷ l)
  unfolding insert_by
  insert_by-permᴰ x [] = Permᴰ.refl (x ∷ [])
  insert_by-permᴰ x (y ∷ l) = elim (Bool-cases (leq x y)) [
    | inl e ↦ rw e (Permᴰ.refl (x ∷ y ∷ l))
    | inr e ↦
        rw e (Permᴰ.trans (Permᴰ.cons refl (insert_by-permᴰ x l)) (Permᴰ.swap {l = l} refl refl))
  ]

  -- Sorting keeps every element, as often as it stands there.
  pub sort_by-permᴰ : (l : List A) → Permᴰ (sort_by l) l
  unfolding sort_by
  sort_by-permᴰ [] = Permᴰ.nil
  sort_by-permᴰ (x ∷ l) =
      Permᴰ.trans (insert_by-permᴰ x (sort_by l)) (Permᴰ.cons refl (sort_by-permᴰ l))

module _ {A : Type 0} ⦃o : TotalOrder A⦄ where
  abbrev pub insert : A → List A → List A
  insert = insert_by o.leq

  -- `slices.Sort`
  abbrev pub sort : List A → List A
  sort = sort_by o.leq

  pub insert_comm : (x y : A) (l : List A) → insert x (insert y l) ≡ insert y (insert x l)
  unfolding insert_by
  insert_comm x y [] = ground (arith, o.total x y, o.antisymm x y)
  insert_comm x y (z ∷ l) =
      ground (arith, o.total x y, o.antisymm x y, o.trans x y z, o.trans y x z, insert_comm x y l)

  -- Sorting forgets the order of its input.
  pub sort-perm : {xs ys : List A} → Permᴰ xs ys → sort xs ≡ sort ys
  unfolding sort_by
  sort-perm Permᴰ.nil = refl
  sort-perm (Permᴰ.cons e p) = ap₂ insert e (sort-perm p)
  sort-perm (Permᴰ.swap {a} {b} {l = l} e f) = rw (← e, ← f) (insert_comm a b (sort l))
  sort-perm (Permᴰ.trans p q) = sort-perm p ∙ sort-perm q

  pub sort-permᴰ : (l : List A) → Permᴰ (sort l) l
  sort-permᴰ = sort_by-permᴰ o.leq
