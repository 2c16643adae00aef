-- ===== src/Base/Text.antt =====
-- Go strings as sequences of bytes: equality, `strings.Compare`, `HasPrefix`, `CutSuffix` and
-- `Join`, in the forms that the engine and the controller use.
use Prim.Native.Char.{code}
use Prim.Native.String.{String}
use unifi_reactor.Base.Tests.{ltb, ◌==◌, if◌then◌else◌}
use Prim.Native.Nat.{ℕ, suc}
use mathlib.Core.Path.{◌≡◌, refl, subst}
use mathlib.Core.Logic.{◌↔◌}
use mathlib.Core.Bool.{Bool, true, false, ◌&&◌}
use mathlib.Core.Option.{Option, none, some}
use mathlib.Core.List.{List, [], ◌∷◌, ◌++◌}
use native.Mathlib.Omega.{arith}

abbrev pub Text : Type 0
Text = List ℕ

-- A literal of the source. All literals in the modelled code are ASCII.
abbrev pub codes : String → Text
codes String.[] = []
codes (String.◌∷◌ c s) = code c ∷ codes s

-- `a == b` on strings.
unfoldable pub same : Text → Text → Bool
same [] [] = true
same (a ∷ s) (b ∷ t) = a == b && same s t
same _ _ = false

pub same_refl : (s : Text) → same s s ≡ true
unfolding same
same_refl [] = refl
same_refl (a ∷ s) = ground (arith, same_refl s)

pub same→eq : (s t : Text) → same s t ≡ true → s ≡ t
unfolding same
same→eq [] [] h = refl
same→eq [] (b ∷ t) h = ground arith
same→eq (a ∷ s) [] h = ground arith
same→eq (a ∷ s) (b ∷ t) h = ground (arith, same→eq s t)

pub same_iff : (s t : Text) → (same s t ≡ true) ↔ (s ≡ t)
same_iff s t = (same→eq s t, λ e. subst (λ u. same s u ≡ true) e (same_refl s))

-- `strings.Compare(a, b) <= 0`: the lexicographic order of the bytes.
unfoldable pub leb_text : Text → Text → Bool
leb_text [] t = true
leb_text (a ∷ s) [] = false
leb_text (a ∷ s) (b ∷ t) = if ltb a b then true else a == b && leb_text s t

pub leb_text-total : (s t : Text) → leb_text s t ≡ false → leb_text t s ≡ true
unfolding leb_text
leb_text-total [] t h = ground arith
leb_text-total (a ∷ s) [] h = refl
leb_text-total (a ∷ s) (b ∷ t) h = ground (arith, leb_text-total s t)

pub leb_text_antisymm : (s t : Text) → leb_text s t ≡ true → leb_text t s ≡ true → s ≡ t
unfolding leb_text
leb_text_antisymm [] [] h k = refl
leb_text_antisymm [] (b ∷ t) h k = ground arith
leb_text_antisymm (a ∷ s) [] h k = ground arith
leb_text_antisymm (a ∷ s) (b ∷ t) h k = ground (arith, leb_text_antisymm s t)

pub leb_text_trans :
    (s t u : Text) → leb_text s t ≡ true → leb_text t u ≡ true → leb_text s u ≡ true
unfolding leb_text
leb_text_trans [] t u h k = refl
leb_text_trans (a ∷ s) [] u h k = ground arith
leb_text_trans (a ∷ s) (b ∷ t) [] h k = ground arith
leb_text_trans (a ∷ s) (b ∷ t) (c ∷ u) h k = ground (arith, leb_text_trans s t u)

-- `strings.HasPrefix(s, p)`.
unfoldable pub has_prefix : Text → Text → Bool
has_prefix s [] = true
has_prefix [] (b ∷ p) = false
has_prefix (a ∷ s) (b ∷ p) = a == b && has_prefix s p

-- `len(s)`.
unfoldable pub len : Text → ℕ
len [] = 0
len (a ∷ s) = suc (len s)

-- `strings.CutSuffix(s, c)` for a suffix of one byte: what stands before it, if `s` ends in it.
unfoldable pub cut_suffix : Text → ℕ → Option Text
cut_suffix [] c = none
cut_suffix (a ∷ []) c = if a == c then some [] else none
cut_suffix (a ∷ b ∷ s) c = elim (cut_suffix (b ∷ s) c) [ none ↦ none | some p ↦ some (a ∷ p) ]

-- `strings.Join(parts, sep)`.
unfoldable pub join : List Text → Text → Text
join [] sep = []
join (s ∷ []) sep = s
join (s ∷ t ∷ ts) sep = s ++ (sep ++ join (t ∷ ts) sep)
