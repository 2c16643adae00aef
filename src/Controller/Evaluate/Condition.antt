-- ===== src/Controller/Evaluate/Condition.antt =====
-- When an Automation's condition holds, by the code and by the meaning of `spec.when`.
use unifi_reactor.Base.{
  true, [], ◌∷◌, some, ◌≡◌, ◌↔◌, refl, sym, ◌∙◌, arith, Option-cases, inl, inr,
}
use unifi_reactor.Base.Text.{Text, same_refl, same→eq}
use unifi_reactor.Base.Int.{ℤ}
use unifi_reactor.Base.Sort.{text_order, sort, sort_by}
use unifi_reactor.Base.Dict.{Dict, lookup}
use unifi_reactor.Engine.Store.{Observation, StateStore, get, freshness}
use unifi_reactor.Controller.Automation.{Automation, StateTrigger}
use unifi_reactor.Controller.Evaluate.{
  Evaluation, unread, evaluate_key, evaluate_keys, evaluate_trigger, evaluate, is_nil, matching_of,
}

-- Every wanted key is observed at the value that is wanted.
abbrev pub Holds : Dict Text → Dict Text → Type 0
Holds state [] = Unit
Holds state ((key, want) ∷ wanted) = (lookup key state ≡ some want) × Holds state wanted

-- Every wanted key is observed.
abbrev pub Readable : Dict Text → Dict Text → Type 0
Readable state [] = Unit
Readable state ((key, want) ∷ wanted) =
    ((got : Text) × (lookup key state ≡ some got)) × Readable state wanted

keeps_matching :
    (state wanted : Dict Text) (e : Evaluation)
    → (evaluate_keys state wanted e).matching ≡ true
    → e.matching ≡ true
unfolding evaluate_keys
keeps_matching state [] e h = h
keeps_matching state ((key, want) ∷ wanted) e h =
    let ih = keeps_matching state wanted (evaluate_key key want (lookup key state) e) h in
    elim (Option-cases (lookup key state)) [
      | inl q ↦ ground (arith, q, ih)
      | inr (got, q) ↦ ground (arith, q, ih)
    ]

keeps_known :
    (state wanted : Dict Text) (e : Evaluation) → (evaluate_keys state wanted e).known ≡ e.known
unfolding evaluate_keys
keeps_known state [] e = refl
keeps_known state ((key, want) ∷ wanted) e =
    keeps_known state wanted (evaluate_key key want (lookup key state) e) ∙ ground arith

module _ (state : Dict Text) where
  Readable-missing :
      (wanted : Dict Text) (e : Evaluation)
      → Readable state wanted
      → (evaluate_keys state wanted e).missing ≡ e.missing
  unfolding evaluate_keys
  Readable-missing [] e r = refl
  Readable-missing ((key, want) ∷ wanted) e r =
      let (got, q) = r.0 in
      Readable-missing wanted (evaluate_key key want (lookup key state) e) r.1 ∙ ground (arith, q)

  matching-Holds :
      (wanted : Dict Text) (e : Evaluation)
      → Readable state wanted
      → (evaluate_keys state wanted e).matching ≡ true
      → Holds state wanted
  unfolding evaluate_keys
  matching-Holds [] e r h = tt
  matching-Holds ((key, want) ∷ wanted) e r h =
      let (got, q) = r.0 in
      let e' = evaluate_key key want (lookup key state) e in
      let now = keeps_matching state wanted e' h in
      (ground (arith, q, now, same→eq got want), matching-Holds wanted e' r.1 h)

  Holds-matching :
      (wanted : Dict Text) (e : Evaluation)
      → Holds state wanted
      → e.matching ≡ true
      → (evaluate_keys state wanted e).matching ≡ true
  unfolding evaluate_keys
  Holds-matching [] e h m = m
  Holds-matching ((key, want) ∷ wanted) e h m =
      Holds-matching wanted (evaluate_key key want (lookup key state) e) h.1
        (ground (arith, h.0, m, same_refl want))

module _ (now : ℤ) (s : StateStore) (a : Automation) (when : StateTrigger) (o : Observation)
    (e : a.spec.when ≡ some when) (g : get s when.provider ≡ some o) where
  abbrev start : Evaluation
  start = record unread {
    known = true;
    observed_at = some o.observed_at;
    fresh = freshness now s when.provider;
  }

  evaluate-start :
      let read = evaluate_keys o.state when.state start in
      evaluate now s a ≡ record read { missing = sort read.missing }
  unfolding evaluate evaluate_trigger
  evaluate-start = ground (arith, e, g)

  matching_of-start :
      Readable o.state when.state
      → matching_of now s a ≡ (evaluate_keys o.state when.state start).matching
  unfolding matching_of sort_by is_nil
  matching_of-start r =
      rw (evaluate-start, Readable-missing o.state when.state start r)
        (rw (keeps_known o.state when.state start))

-- While every key of its condition is reported, an Automation matches exactly when each of them has
-- the wanted value.
pub matching_of-Holds :
    (now : ℤ) (s : StateStore) (a : Automation) (when : StateTrigger) (o : Observation)
    → a.spec.when ≡ some when
    → get s when.provider ≡ some o
    → Readable o.state when.state
    → (matching_of now s a ≡ true) ↔ Holds o.state when.state
matching_of-Holds now s a when o e g r =
    let same_test = matching_of-start now s a when o e g r in
    let begin = start now s a when o e g in
    (
      λ h. matching-Holds o.state when.state begin r (sym same_test ∙ h),
      λ h. same_test ∙ Holds-matching o.state when.state begin h refl,
    )
