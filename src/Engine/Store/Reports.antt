-- ===== src/Engine/Store/Reports.antt =====
-- The transitions that `Observe` returns are exactly the changes of the reported values.
use mathlib.Core.List.{append-nil}
use unifi_reactor.Base.{
  false, List, [], ◌∷◌, ◌++◌, Option, none, some, ◌≡◌, refl, sym, ap, arith, subst, if◌then◌else◌,
  inl, inr, ◌∙◌, Bool-cases, Option-cases,
}
use unifi_reactor.Base.Text.{Text, same, same_refl, same→eq}
use unifi_reactor.Base.Int.{ℤ}
use unifi_reactor.Base.Dict.{
  Dict, Distinct, lookup, get_or, lookup-insert, lookup-cons, Distinct-insert, Distinct-delete,
}
use unifi_reactor.Engine.Store.{
  Observation, Transition, ProviderState, StateStore, report, observe_key, observe_keys,
  vanish_keys, observe_provider, observe, samples_for, unseen,
}
use unifi_reactor.Engine.Store.Key.{KeyState, view, key_step, provider_state, key_step_unseen}
use unifi_reactor.Engine.Store.Pointwise.{
  observe_key-other, observe_keys-view, vanished, observe-view,
}

-- What a list of transitions says of one key: from what to what, in order.
abbrev pub reports_of : Text → List Transition → List (Text × Text)
reports_of j [] = []
reports_of j (t ∷ ts) =
    let rest = reports_of j ts in if same t.key j then (t.from, t.to) ∷ rest else rest

-- What should be said of a key that went from one reported value to another. An unreported key is
-- written as the empty text.
abbrev pub changed : Option Text → Option Text → List (Text × Text)
changed none none = []
changed none (some to) = ([], to) ∷ []
changed (some from) none = (from, []) ∷ []
changed (some from) (some to) = if same from to then [] else (from, to) ∷ []

reports_of-append :
    (j : Text) (xs ys : List Transition)
    → reports_of j (xs ++ ys) ≡ reports_of j xs ++ reports_of j ys
reports_of-append j [] ys = refl
reports_of-append j (t ∷ xs) ys = ground (arith, reports_of-append j xs ys)

abbrev key_report : ℤ → Option Text → KeyState → List (Text × Text)
key_report samples o k = changed k.stable (key_step samples o k).stable

abbrev report_if_given : ℤ → Option Text → KeyState → List (Text × Text)
report_if_given samples none k = []
report_if_given samples (some to) k = key_report samples (some to) k

module _ (samples : ℤ) (provider key to : Text) (p : ProviderState) (ts : List Transition) where
  reports-observe_key :
      reports_of key (observe_key samples provider key to (p, ts)).1
      ≡ reports_of key ts ++ key_report samples (some to) (view key p)
  unfolding observe_key key_step report
  reports-observe_key = ground (
    arith,
    same_refl key,
    same_refl to,
    same_refl (get_or [] (lookup key p.stable)),
    append-nil (reports_of key ts),
    reports_of-append key ts (
        record { provider = provider; key = key; from = get_or [] (lookup key p.stable); to = to }
        ∷ []),
  )

  reports-observe_key_other :
      (j : Text)
      → same key j ≡ false
      → reports_of j (observe_key samples provider key to (p, ts)).1 ≡ reports_of j ts
  unfolding observe_key report
  reports-observe_key_other j ne = ground (
    arith,
    append-nil (reports_of j ts),
    reports_of-append j ts (
        record { provider = provider; key = key; from = get_or [] (lookup key p.stable); to = to }
        ∷ []),
  )

  observe_key-Distinct :
      Distinct p.stable → Distinct (observe_key samples provider key to (p, ts)).0.stable
  unfolding observe_key report
  observe_key-Distinct d = ground (arith, d, Distinct-insert key to p.stable d)

observe_keys-Distinct :
    (samples : Text → ℤ) (provider : Text) (state : Dict Text) (p : ProviderState)
    (ts : List Transition)
    → Distinct p.stable
    → Distinct (observe_keys samples provider state (p, ts)).0.stable
unfolding observe_keys
observe_keys-Distinct samples provider [] p ts d = d
observe_keys-Distinct samples provider ((key, to) ∷ rest) p ts d =
    let (p', ts') = observe_key (samples key) provider key to (p, ts) in
    observe_keys-Distinct samples provider rest p' ts'
      (observe_key-Distinct (samples key) provider key to p ts d)

vanish_keys-Distinct :
    (provider : Text) (state snapshot : Dict Text) (p : ProviderState) (ts : List Transition)
    → Distinct p.stable
    → Distinct (vanish_keys provider state snapshot (p, ts)).0.stable
unfolding vanish_keys
vanish_keys-Distinct provider state [] p ts d = d
vanish_keys-Distinct provider state ((key, from) ∷ rest) p ts d =
    let (p', ts') = vanished provider key from p ts in
    elim (Option-cases (lookup key state)) [
      | inr (v, e) ↦ rw (e, vanish_keys) (vanish_keys-Distinct provider state rest p ts d)
      | inl e ↦
          rw (e, vanish_keys)
            (vanish_keys-Distinct provider state rest p' ts' (Distinct-delete key p.stable d))
    ]

reports-observe_keys :
    (samples : Text → ℤ) (provider j : Text) (state : Dict Text) (p : ProviderState)
    (ts : List Transition)
    → Distinct state
    → reports_of j (observe_keys samples provider state (p, ts)).1
      ≡ reports_of j ts ++ report_if_given (samples j) (lookup j state) (view j p)
unfolding observe_keys Distinct lookup
reports-observe_keys samples provider j [] p ts d = sym (append-nil (reports_of j ts))
reports-observe_keys samples provider j ((key, to) ∷ rest) p ts d =
    let (p', ts') = observe_key (samples key) provider key to (p, ts) in
    let ih = reports-observe_keys samples provider j rest p' ts' d.1 in
    elim (Bool-cases (same key j)) [
      | inl e ↦
          let k = same→eq key j e in
          ih
          ∙ ground (
            arith,
            k,
            d.0,
            append-nil (reports_of j ts'),
            reports-observe_key (samples j) provider j to p ts,
          )
      | inr e ↦
          ih
          ∙ ground (
            arith,
            observe_key-other (samples key) provider key to p ts j e,
            reports-observe_key_other (samples key) provider key to p ts j e,
          )
    ]

abbrev sweep_report : Option Text → Option Text → List (Text × Text)
sweep_report (some v) reported = []
sweep_report none none = []
sweep_report none (some from) = (from, []) ∷ []

reports-vanish_keys :
    (provider j : Text) (state snapshot : Dict Text) (p : ProviderState) (ts : List Transition)
    → Distinct snapshot
    → reports_of j (vanish_keys provider state snapshot (p, ts)).1
      ≡ reports_of j ts ++ sweep_report (lookup j state) (lookup j snapshot)
unfolding vanish_keys Distinct
reports-vanish_keys provider j state [] p ts d =
    unfold lookup in ground (arith, append-nil (reports_of j ts))
reports-vanish_keys provider j state ((key, from) ∷ rest) p ts d =
    let (p', ts') = vanished provider key from p ts in
    ground (
      arith,
      d.0,
      lookup-cons key j from rest,
      same→eq key j,
      append-nil (reports_of j ts),
      append-nil (reports_of j ts'),
      reports_of-append j ts (record { provider = provider; key = key; from = from; to = [] } ∷ []),
      reports-vanish_keys provider j state rest p ts d.1,
      reports-vanish_keys provider j state rest p' ts' d.1,
    )

module _ (samples : Text → ℤ) (o : Observation) (p : ProviderState) where
  reports-observe_provider :
      (j : Text)
      → Distinct o.state
      → Distinct p.stable
      → reports_of j (observe_provider samples o p).1
        ≡ key_report (samples j) (lookup j o.state) (view j p)
  unfolding observe_provider
  reports-observe_provider j d ds =
      let q = record p { observed_at = o.observed_at } in
      let (mid, ts) = observe_keys samples o.provider o.state (q, []) in
      ground (
        arith,
        key_step_unseen (samples j) (view j p),
        observe_keys-view samples o.provider j o.state q [] d,
        reports-observe_keys samples o.provider j o.state q [] d,
        append-nil (report_if_given (samples j) (lookup j o.state) (view j p)),
        append-nil (reports_of j ts),
        reports-vanish_keys o.provider j o.state mid.stable mid ts
            (observe_keys-Distinct samples o.provider o.state q [] ds),
      )

  observe_provider-Distinct : Distinct p.stable → Distinct (observe_provider samples o p).0.stable
  unfolding observe_provider
  observe_provider-Distinct ds =
      let q = record p { observed_at = o.observed_at } in
      let (mid, ts) = observe_keys samples o.provider o.state (q, []) in
      vanish_keys-Distinct o.provider o.state mid.stable mid ts
        (observe_keys-Distinct samples o.provider o.state q [] ds)

-- `Observe` returns exactly the changes: for a key whose reported value changed, appeared or went,
-- one transition from the old value to the new one, and for any other key none.
pub observe-reports :
    (s : StateStore) (o : Observation) (j : Text)
    → Distinct o.state
    → Distinct (provider_state o.provider s).stable
    → reports_of j (observe s o).1
      ≡ changed
          (lookup j (provider_state o.provider s).stable)
          (lookup j (provider_state o.provider (observe s o).0).stable)
unfolding observe
observe-reports s o j d ds =
    let p = provider_state o.provider s in
    reports-observe_provider (samples_for s o.provider) o p j d ds
    ∙ ap (λ k. changed (lookup j p.stable) k.stable) (sym (observe-view s o j d))

-- The reported values of the observing provider stay a map: no key stands in it twice.
pub observe-Distinct :
    (s : StateStore) (o : Observation)
    → Distinct (provider_state o.provider s).stable
    → Distinct (provider_state o.provider (observe s o).0).stable
unfolding observe
observe-Distinct s o ds =
    let p = provider_state o.provider s in
    let p' = (observe_provider (samples_for s o.provider) o p).0 in
    subst (λ q. Distinct (get_or unseen q).stable)
      (sym (
        lookup-insert o.provider o.provider p' s.current
        ∙ ap (λ b. if b then some p' else lookup o.provider s.current) (same_refl o.provider)))
      (observe_provider-Distinct (samples_for s o.provider) o p ds)
