-- ===== src/Base/Dict.antt =====
-- Go maps with string keys, as association lists. A Go map holds a key at most once: `Distinct`.
use mathlib.Core.Path.{◌≡◌, refl}
use mathlib.Core.Logic.{inl, inr}
use mathlib.Core.Bool.{Bool, true, false}
use mathlib.Core.Option.{Option, none, some}
use mathlib.Core.List.{List, [], ◌∷◌}
use native.Mathlib.Omega.{arith}
use unifi_reactor.Base.Tests.{if◌then◌else◌, Bool-cases}
use unifi_reactor.Base.Text.{Text, same, same_refl, same→eq}

abbrev pub is_some {ℓ} : {A : Type ℓ} → Option A → Bool
is_some none = false
is_some (some a) = true

abbrev pub get_or {ℓ} : {A : Type ℓ} → A → Option A → A
get_or d none = d
get_or d (some a) = a

abbrev pub Dict {ℓ} : Type ℓ → Type ℓ
Dict V = List (Text × V)

module _ {ℓ} {V : Type ℓ} where
  -- `v, ok := m[k]`
  unfoldable pub lookup : Text → Dict V → Option V
  lookup k [] = none
  lookup k ((j, v) ∷ m) = if same j k then some v else lookup k m

  -- `m[k] = v`
  unfoldable pub insert : Text → V → Dict V → Dict V
  insert k v [] = (k, v) ∷ []
  insert k v ((j, w) ∷ m) = if same j k then (j, v) ∷ m else (j, w) ∷ insert k v m

  -- `delete(m, k)`
  unfoldable pub delete : Text → Dict V → Dict V
  delete k [] = []
  delete k ((j, w) ∷ m) = let rest = delete k m in if same j k then rest else (j, w) ∷ rest

  unfoldable pub Distinct : Dict V → Type ℓ
  Distinct [] = Unit
  Distinct ((k, v) ∷ m) = (lookup k m ≡ none) × Distinct m

  pub lookup-insert :
      (k j : Text) (v : V) (m : Dict V)
      → lookup j (insert k v m) ≡ (if same k j then some v else lookup j m)
  unfolding lookup insert
  lookup-insert k j v [] = refl
  lookup-insert k j v ((i, w) ∷ m) =
      ground (arith, same→eq k j, same→eq i k, same→eq i j, same_refl j, lookup-insert k j v m)

  pub lookup-delete :
      (k j : Text) (m : Dict V) → lookup j (delete k m) ≡ (if same k j then none else lookup j m)
  unfolding lookup delete
  lookup-delete k j [] = ground arith
  lookup-delete k j ((i, w) ∷ m) =
      ground (arith, same→eq k j, same→eq i k, same→eq i j, same_refl j, lookup-delete k j m)

  pub lookup-cons :
      (k j : Text) (v : V) (m : Dict V)
      → lookup j ((k, v) ∷ m) ≡ (if same k j then some v else lookup j m)
  unfolding lookup
  lookup-cons k j v m = refl

  pub Distinct-insert : (k : Text) (v : V) (m : Dict V) → Distinct m → Distinct (insert k v m)
  unfolding insert Distinct
  Distinct-insert k v [] d = (unfold lookup in refl, tt)
  Distinct-insert k v ((j, w) ∷ m) d = elim (Bool-cases (same j k)) [
    | inl e ↦ rw e d
    | inr e ↦ rw e (
      ground (arith, d.0, same→eq k j, same_refl j, lookup-insert k j v m),
      Distinct-insert k v m d.1,
    )
  ]

  pub Distinct-delete : (k : Text) (m : Dict V) → Distinct m → Distinct (delete k m)
  unfolding delete Distinct
  Distinct-delete k [] d = tt
  Distinct-delete k ((j, w) ∷ m) d = elim (Bool-cases (same j k)) [
    | inl e ↦ rw e (Distinct-delete k m d.1)
    | inr e ↦ rw e (ground (arith, d.0, lookup-delete k j m), Distinct-delete k m d.1)
  ]
