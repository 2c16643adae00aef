-- ===== src/Engine/Store/Pointwise.antt =====
-- The loops of `Observe` act on every key apart: each key moves by `key_step`.
use unifi_reactor.Base.{
  false, List, [], ◌∷◌, some, ◌≡◌, refl, arith, ◌++◌, Bool-cases, inl, inr, ◌∙◌,
}
use unifi_reactor.Base.Text.{Text, same, same_refl, same→eq}
use unifi_reactor.Base.Int.{ℤ}
use unifi_reactor.Base.Dict.{
  Dict, Distinct, lookup, delete, get_or, lookup-insert, lookup-delete, lookup-cons,
}
use unifi_reactor.Engine.Store.{
  Observation, Transition, ProviderState, StateStore, prove, unproven, report, observe_key,
  observe_keys, vanish_keys, observe_provider, observe, samples_for,
}
use unifi_reactor.Engine.Store.Key.{
  view, key_step, step_if_given, swept, key_step_unseen, provider_state,
}

module _ (samples : ℤ) (provider key to : Text) (p : ProviderState) (ts : List Transition) where
  pub observe_key-own :
      view key (observe_key samples provider key to (p, ts)).0
      ≡ key_step samples (some to) (view key p)
  unfolding observe_key key_step report
  observe_key-own = ground (
    arith,
    same_refl key,
    lookup-insert key key to p.stable,
    lookup-delete key key p.pending,
    lookup-insert key key (prove to (get_or unproven (lookup key p.pending))) p.pending,
  )

  pub observe_key-other :
      (j : Text)
      → same key j ≡ false
      → view j (observe_key samples provider key to (p, ts)).0 ≡ view j p
  unfolding observe_key report
  observe_key-other j ne = ground (
    arith,
    lookup-insert key j to p.stable,
    lookup-delete key j p.pending,
    lookup-insert key j (prove to (get_or unproven (lookup key p.pending))) p.pending,
  )

pub observe_keys-view :
    (samples : Text → ℤ) (provider j : Text) (state : Dict Text) (p : ProviderState)
    (ts : List Transition)
    → Distinct state
    → view j (observe_keys samples provider state (p, ts)).0
      ≡ step_if_given (samples j) (lookup j state) (view j p)
unfolding observe_keys Distinct lookup
observe_keys-view samples provider j [] p ts d = refl
observe_keys-view samples provider j ((key, to) ∷ rest) p ts d =
    let (p', ts') = observe_key (samples key) provider key to (p, ts) in
    let ih = observe_keys-view samples provider j rest p' ts' d.1 in
    elim (Bool-cases (same key j)) [
      | inl e ↦
          let k = same→eq key j e in
          ih ∙ ground (arith, k, d.0, observe_key-own (samples j) provider j to p ts)
      | inr e ↦ ih ∙ ground (arith, observe_key-other (samples key) provider key to p ts j e)
    ]

abbrev pub vanished :
    Text → Text → Text → ProviderState → List Transition → ProviderState × List Transition
vanished provider key from p ts = (
  record p { stable = delete key p.stable; pending = delete key p.pending },
  ts ++ (record { provider = provider; key = key; from = from; to = [] } ∷ []),
)

-- The second loop removes exactly the reported keys that the observation lacks.
pub vanish_keys-view :
    (provider j : Text) (state snapshot : Dict Text) (p : ProviderState) (ts : List Transition)
    → view j (vanish_keys provider state snapshot (p, ts)).0
      ≡ swept (lookup j state) (lookup j snapshot) (view j p)
unfolding vanish_keys
vanish_keys-view provider j state [] p ts = unfold lookup in ground arith
vanish_keys-view provider j state ((key, from) ∷ rest) p ts =
    let (p', ts') = vanished provider key from p ts in
    ground (
      arith,
      lookup-cons key j from rest,
      same→eq key j,
      lookup-delete key j p.stable,
      lookup-delete key j p.pending,
      vanish_keys-view provider j state rest p ts,
      vanish_keys-view provider j state rest p' ts',
    )

-- `Observe` moves every key of the provider by one step of its own.
pub observe_provider-view :
    (samples : Text → ℤ) (o : Observation) (p : ProviderState) (j : Text)
    → Distinct o.state
    → view j (observe_provider samples o p).0 ≡ key_step (samples j) (lookup j o.state) (view j p)
unfolding observe_provider
observe_provider-view samples o p j d =
    let q = record p { observed_at = o.observed_at } in
    let (mid, ts) = observe_keys samples o.provider o.state (q, []) in
    ground (
      arith,
      key_step_unseen (samples j) (view j p),
      observe_keys-view samples o.provider j o.state q [] d,
      vanish_keys-view o.provider j o.state mid.stable mid ts,
    )

-- Each key of the observing provider moves by one step of its own machine, at its own sample count,
-- whatever the order in which the loops visit the keys.
pub observe-view :
    (s : StateStore) (o : Observation) (j : Text)
    → Distinct o.state
    → view j (provider_state o.provider (observe s o).0)
      ≡ key_step
          (samples_for s o.provider j)
          (lookup j o.state)
          (view j (provider_state o.provider s))
unfolding observe
observe-view s o j d =
    let p = provider_state o.provider s in
    let (p', ts) = observe_provider (samples_for s o.provider) o p in
    ground (
      arith,
      same_refl o.provider,
      lookup-insert o.provider o.provider p' s.current,
      observe_provider-view (samples_for s o.provider) o p j d,
    )

-- Observing one provider leaves every other provider, and the configuration, alone.
pub observe_elsewhere :
    (s : StateStore) (o : Observation) (q : Text)
    → same o.provider q ≡ false
    → (lookup q (observe s o).0.current ≡ lookup q s.current)
      × ((observe s o).0.debounce ≡ s.debounce)
      × ((observe s o).0.stale_after ≡ s.stale_after)
unfolding observe
observe_elsewhere s o q ne =
    let p' = (observe_provider (samples_for s o.provider) o (provider_state o.provider s)).0 in
    (ground (arith, lookup-insert o.provider q p' s.current), refl, refl)
