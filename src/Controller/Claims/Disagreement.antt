-- ===== src/Controller/Claims/Disagreement.antt =====
-- When the Automations that reference a target declare different reversal levels for it.
use mathlib.Core.List.{Memᴰ, Permᴰ}
use unifi_reactor.Base.{
  false, List, [], ◌∷◌, map, ◌≡◌, ◌≢◌, inl, inr, refl, sym, subst, arith, Bool-cases, ◌∙◌, ap,
}
use unifi_reactor.Base.Int.{ℤ, same_ℤ→eq, same_ℤ_refl}
use unifi_reactor.Base.Sort.{sort_by-permᴰ}
use unifi_reactor.Engine.Arbiter.{Intent}
use unifi_reactor.Controller.Handlers.{Shape}
use unifi_reactor.Controller.Claims.{any_other_level, reported, disagreement_over}

-- Every intent asks for `level`.
abbrev pub AllAt : ℤ → List Intent → Type 0
AllAt level [] = Unit
AllAt level (i ∷ intents) = (i.level ≡ level) × AllAt level intents

any_other-AllAt : (v : ℤ) (l : List Intent) → AllAt v l → any_other_level v l ≡ false
unfolding any_other_level
any_other-AllAt v [] h = refl
any_other-AllAt v (i ∷ l) h = ground (arith, same_ℤ_refl v, any_other-AllAt v l)

AllAt-any_other : (v : ℤ) (l : List Intent) → any_other_level v l ≡ false → AllAt v l
unfolding any_other_level
AllAt-any_other v [] h = tt
AllAt-any_other v (i ∷ l) h =
    (ground (arith, same_ℤ→eq i.level v), AllAt-any_other v l (ground arith))

AllAt-mem : (v : ℤ) (l : List Intent) (i : Intent) → AllAt v l → Memᴰ i l → i.level ≡ v
AllAt-mem v [] i h m = elim m [ ]
AllAt-mem v (j ∷ l) i h (Memᴰ.head e) = ap (λ x. x.level) e ∙ h.0
AllAt-mem v (j ∷ l) i h (Memᴰ.tail m) = AllAt-mem v l i h.1 m

-- Reversals that all name one level are no disagreement, however many they are.
pub disagreement_over-AllAt :
    (shape : Shape) (v : ℤ) (l : List Intent) → AllAt v l → disagreement_over shape l ≡ []
unfolding disagreement_over
disagreement_over-AllAt shape v [] h = refl
disagreement_over-AllAt shape v (i ∷ []) h = refl
disagreement_over-AllAt shape v (i ∷ j ∷ l) h =
    let all : AllAt i.level (i ∷ j ∷ l) = subst (λ x. AllAt x (i ∷ j ∷ l)) (sym h.0) h in
    rw (any_other-AllAt i.level (i ∷ j ∷ l) all)

-- Two reversals with different levels are a disagreement, and it names every reversal, also those
-- that agree with one another.
pub disagreement_over-permᴰ :
    (shape : Shape) (l : List Intent) (i j : Intent)
    → Memᴰ i l
    → Memᴰ j l
    → i.level ≢ j.level
    → Permᴰ (disagreement_over shape l) (map (reported shape) l)
unfolding disagreement_over
disagreement_over-permᴰ shape [] i j m n ne = elim m [ ]
disagreement_over-permᴰ shape (k ∷ []) i j m n ne =
    absurd (ne (AllAt-mem k.level _ i (refl, tt) m ∙ sym (AllAt-mem k.level _ j (refl, tt) n)))
disagreement_over-permᴰ shape (k ∷ k' ∷ l) i j m n ne =
    elim (Bool-cases (any_other_level k.level (k ∷ k' ∷ l))) [
      | inl e ↦ rw e (sort_by-permᴰ _ (map (reported shape) (k ∷ k' ∷ l)))
      | inr e ↦
          let all = AllAt-any_other k.level (k ∷ k' ∷ l) e in
          absurd (ne (AllAt-mem k.level _ i all m ∙ sym (AllAt-mem k.level _ j all n)))
    ]
