-- ===== src/Engine/Store/Evidence.antt =====
-- A reported change is backed by evidence: the history of a key, and of a whole store.
use unifi_reactor.Base.{
  ℕ, zero, suc, false, List, [], ◌∷◌, Option, none, some, ◌≡◌, ◌≢◌, refl, sym, arith, inl, inr, ◌∙◌,
  ap, ◌&&◌, ◌≤◌, Bool-cases, Option-cases,
}
use unifi_reactor.Base.Text.{Text, same, same_refl, same→eq}
use unifi_reactor.Base.Int.{ℤ, pos, ltb_ℤ, pos_part}
use unifi_reactor.Base.Dict.{Distinct, lookup, get_or}
use unifi_reactor.Engine.Store.{
  Observation, Candidate, StateStore, prove, unproven, observe, samples_for,
}
use unifi_reactor.Engine.Store.Key.{KeyState, view, key_change, key_step, provider_state}
use unifi_reactor.Engine.Store.Pointwise.{observe-view}

-- The first `n` entries of a history are all `some v`.
abbrev pub Streak : Text → ℕ → List (Option Text) → Type 0
Streak v zero h = Unit
Streak v (suc n) [] = ⊥
Streak v (suc n) (o ∷ h) = (o ≡ some v) × Streak v n h

-- A key that saw a history, the latest observation first.
abbrev pub saw : ℤ → List (Option Text) → KeyState
saw samples [] = record { stable = none; pending = none }
saw samples (o ∷ h) = key_step samples o (saw samples h)

-- A candidate's count is backed by the latest observations.
abbrev Backed : Option Candidate → List (Option Text) → Type 0
Backed none h = Unit
Backed (some c) h = Streak c.value c.count h

prove-Backed :
    (to : Text) (c : Candidate) (h : List (Option Text))
    → Streak c.value c.count h
    → Backed (some (prove to c)) (some to ∷ h)
unfolding prove
prove-Backed to c h b = elim (Bool-cases (same c.value to)) [
  | inl e ↦ rw e (ap some (sym (same→eq c.value to e)), b)
  | inr e ↦ rw e (refl, tt)
]

get_or-Backed :
    (p : Option Candidate) (h : List (Option Text))
    → Backed p h
    → Streak (get_or unproven p).value (get_or unproven p).count h
get_or-Backed none h b = tt
get_or-Backed (some c) h b = b

key_change-Backed :
    (samples : ℤ) (from to : Text) (p : Option Candidate) (h : List (Option Text))
    → Backed p h
    → Backed (key_change samples from to p).pending (some to ∷ h)
unfolding key_change
key_change-Backed samples from to p h b =
    let c = prove to (get_or unproven p) in
    elim (Bool-cases (ltb_ℤ (pos 1) samples && ltb_ℤ (pos c.count) samples)) [
      | inl e ↦ rw e (prove-Backed to (get_or unproven p) h (get_or-Backed p h b))
      | inr e ↦ rw e tt
    ]

key_change-ne-none :
    (samples : ℤ) (from to : Text) (p : Option Candidate)
    → (key_change samples from to p).stable ≢ none
unfolding key_change
key_change-ne-none samples from to p = ground arith

-- Only a reported key has a candidate, and the latest observations back it.
abbrev Evidence : KeyState → List (Option Text) → Type 0
Evidence k h = ((k.stable ≡ none) → (k.pending ≡ none)) × Backed k.pending h

Evidence-step :
    (samples : ℤ) (o : Option Text) (k : KeyState) (h : List (Option Text))
    → Evidence k h
    → Evidence (key_step samples o k) (o ∷ h)
unfolding key_step
Evidence-step samples none k h b = elim (Option-cases k.stable) [
  | inl e ↦ rw (e, b.0 e) (λ _. refl, tt)
  | inr (v, e) ↦ rw e (λ _. refl, tt)
]
Evidence-step samples (some to) k h b = elim (Option-cases k.stable) [
  | inl e ↦ rw e (λ _. refl, tt)
  | inr (from, e) ↦ elim (Bool-cases (same from to)) [
    | inl q ↦ rw (e, q) (λ _. refl, tt)
    | inr q ↦
        rw (e, q)
          (
            λ n. absurd (key_change-ne-none samples from to k.pending n),
            key_change-Backed samples from to k.pending h b.1,
          )
  ]
]

saw-Evidence : (samples : ℤ) (h : List (Option Text)) → Evidence (saw samples h) h
saw-Evidence samples [] = (λ _. refl, tt)
saw-Evidence samples (o ∷ h) = Evidence-step samples o (saw samples h) h (saw-Evidence samples h)

Streak-mono : (v : Text) (m n : ℕ) (h : List (Option Text)) → m ≤ n → Streak v n h → Streak v m h
Streak-mono v zero n h le s = tt
Streak-mono v (suc m) zero h le s = absurd (omega arith)
Streak-mono v (suc m) (suc n) [] le s = s
Streak-mono v (suc m) (suc n) (o ∷ h) le s = (s.0, Streak-mono v m n h (omega arith) s.1)

prove-value : (to : Text) (c : Candidate) → (prove to c).value ≡ to
unfolding prove
prove-value to c = ground (arith, same→eq c.value to)

changed-Streak :
    (samples : ℤ) (from to : Text) (p : Option Candidate) (h : List (Option Text))
    → Backed p h
    → (key_change samples from to p).stable ≡ some to
    → same from to ≡ false
    → Streak to (pos_part samples) (some to ∷ h)
unfolding key_change ltb_ℤ
changed-Streak samples from to p h b e ne =
    let c = prove to (get_or unproven p) in
    elim (Bool-cases (ltb_ℤ (pos 1) samples)) [
      | inr few ↦ Streak-mono to (pos_part samples) 1 (some to ∷ h) (ground (arith, few)) (refl, tt)
      | inl more ↦ elim (Bool-cases (ltb_ℤ (pos c.count) samples)) [
        | inl below ↦ absurd (ground (arith, same_refl to, more, below))
        | inr enough ↦
            Streak-mono to (pos_part samples) c.count (some to ∷ h) (ground (arith, enough)) (
              rw (prove-value to (get_or unproven p)) at
                (prove-Backed to (get_or unproven p) h (get_or-Backed p h b)))
      ]
    ]

-- A change is never reported on less evidence than its sample count: when the observation `to`
-- turns the reported value of a key from `from` into `to`, the latest observations, as many as the
-- sample count, were all `to`.
pub saw-Streak :
    (samples : ℤ) (h : List (Option Text)) (from to : Text)
    → (saw samples h).stable ≡ some from
    → same from to ≡ false
    → (saw samples (some to ∷ h)).stable ≡ some to
    → Streak to (pos_part samples) (some to ∷ h)
unfolding key_step
saw-Streak samples h from to was ne now =
    changed-Streak samples from to (saw samples h).pending h (saw-Evidence samples h).1
      (rw (was, key_step, ne) at now) ne

-- The store after a history of observations, the latest first.
unfoldable pub run : StateStore → List Observation → StateStore
run s [] = s
run s (o ∷ h) = (observe (run s h) o).0

-- Every observation comes from `provider` and is a map.
abbrev pub Observes : Text → List Observation → Type 0
Observes provider [] = Unit
Observes provider (o ∷ h) = (o.provider ≡ provider) × Distinct o.state × Observes provider h

abbrev pub seen_of : Text → List Observation → List (Option Text)
seen_of key [] = []
seen_of key (o ∷ h) = lookup key o.state ∷ seen_of key h

module _ (s : StateStore) (provider key : Text) where
  samples_for-run :
      (h : List Observation) → samples_for (run s h) provider key ≡ samples_for s provider key
  unfolding run observe samples_for
  samples_for-run [] = refl
  samples_for-run (o ∷ h) = samples_for-run h

  run-saw :
      (h : List Observation)
      → lookup provider s.current ≡ none
      → Observes provider h
      → view key (provider_state provider (run s h))
        ≡ saw (samples_for s provider key) (seen_of key h)
  unfolding run
  run-saw [] new obs = rw new (unfold lookup in refl)
  run-saw (o ∷ h) new obs =
      cc (observe-view (run s h) o key obs.1, samples_for-run h, run-saw h new obs.2, obs.0)

  -- From the first observation of a provider on, a reported value `from` of a key gives way to
  -- another value `to` only when the latest observations, as many as the key's sample count, all
  -- held `to`.
  pub run-Streak :
      (h : List Observation) (o : Observation) (from to : Text)
      → lookup provider s.current ≡ none
      → Observes provider (o ∷ h)
      → (view key (provider_state provider (run s h))).stable ≡ some from
      → (view key (provider_state provider (run s (o ∷ h)))).stable ≡ some to
      → lookup key o.state ≡ some to
      → same from to ≡ false
      → Streak to (pos_part (samples_for s provider key)) (seen_of key (o ∷ h))
  run-Streak h o from to new obs was now is ne =
      let n = samples_for s provider key in
      let before = run-saw h new obs.2 in
      let after = run-saw (o ∷ h) new obs in
      rw is (
        saw-Streak n (seen_of key h) from to (ap (λ k. k.stable) (sym before) ∙ was) ne (
          ap (λ v. (saw n (v ∷ seen_of key h)).stable) (sym is)
          ∙ (ap (λ k. k.stable) (sym after) ∙ now)))
