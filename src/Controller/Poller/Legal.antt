-- ===== src/Controller/Poller/Legal.antt =====
-- From the console to the store: what the engine holds of this provider is in the vocabulary.
use unifi_reactor.Base.{
  Bool, true, false, not, ◌&&◌, ◌||◌, List, [], ◌∷◌, Option, none, some, if◌then◌else◌, ◌≡◌, inl,
  inr, refl, sym, ap, subst, ◌∙◌, arith, Bool-cases, Option-cases,
}
use unifi_reactor.Base.Text.{Text, same, same_refl}
use unifi_reactor.Base.Int.{ℤ, pos, ltb_ℤ}
use unifi_reactor.Base.Dict.{Dict, delete, get_or, insert, is_some, lookup, lookup-insert}
use unifi_reactor.Engine.Store.{
  Observation, ProviderState, StateStore, Transition, get, observe, observe_key, observe_keys,
  observe_provider, report, samples_for, unseen, vanish_keys,
}
use unifi_reactor.Unifi.Vocabulary.{legal}
use unifi_reactor.Unifi.Device.{ClientConfig, DeviceRecord, Floats, HealthSubsystem}
use unifi_reactor.Unifi.Observe.{observe_console}
use unifi_reactor.Unifi.Observe.Closed.{IsLegal, insert-IsLegal}
use unifi_reactor.Unifi.Observe.Scanned.{lookup-IsLegal, observed-IsLegal}
use unifi_reactor.Controller.Poller.{poll, provider_name}

delete-IsLegal : (key : Text) (state : Dict Text) → IsLegal state → IsLegal (delete key state)
unfolding delete
delete-IsLegal key [] h = tt
delete-IsLegal key ((j, w) ∷ state) h = elim (Bool-cases (same j key)) [
  | inl e ↦ rw (e, if◌then◌else◌) (delete-IsLegal key state h.1)
  | inr e ↦ rw (e, if◌then◌else◌) (h.0, delete-IsLegal key state h.1)
]

-- What is reported is allowed.
abbrev Holds : ProviderState × List Transition → Type 0
Holds acc = IsLegal acc.0.stable

choice-Holds :
    (b : Bool) (x y : ProviderState × List Transition)
    → Holds x
    → Holds y
    → Holds (if b then x else y)
choice-Holds true x y h k = h
choice-Holds false x y h k = k

observe_key-Holds :
    (samples : ℤ) (provider key to : Text) (acc : ProviderState × List Transition)
    → legal key to ≡ true
    → Holds acc
    → Holds (observe_key samples provider key to acc)
unfolding observe_key report
observe_key-Holds samples provider key to acc h k =
    let stable = acc.0.stable in
    let known = is_some (lookup key stable) in
    let put = insert-IsLegal key to stable h k in
    choice-Holds (known && same (get_or [] (lookup key stable)) to) _ _ k
      (choice-Holds (not known || not (ltb_ℤ (pos 1) samples)) _ _ put (choice-Holds _ _ _ k put))

observe_keys-Holds :
    (samples : Text → ℤ) (provider : Text) (state : Dict Text)
    (acc : ProviderState × List Transition)
    → IsLegal state
    → Holds acc
    → Holds (observe_keys samples provider state acc)
unfolding observe_keys
observe_keys-Holds samples provider [] acc h k = k
observe_keys-Holds samples provider ((key, to) ∷ rest) acc h k =
    observe_keys-Holds samples provider rest _ h.1
      (observe_key-Holds (samples key) provider key to acc h.0 k)

vanish_keys-Holds :
    (provider : Text) (state reported : Dict Text) (acc : ProviderState × List Transition)
    → Holds acc
    → Holds (vanish_keys provider state reported acc)
unfolding vanish_keys
vanish_keys-Holds provider state [] acc k = k
vanish_keys-Holds provider state ((key, from) ∷ rest) acc k =
    vanish_keys-Holds provider state rest _
      (choice-Holds (is_some (lookup key state)) _ _ k (delete-IsLegal key acc.0.stable k))

-- The store holds only allowed values of this provider.
abbrev StoreHolds : StateStore → Type 0
StoreHolds s = IsLegal (get_or unseen (lookup provider_name s.current)).stable

observe-StoreHolds :
    (s : StateStore) (state : Dict Text) (now : ℤ)
    → IsLegal state
    → StoreHolds s
    → StoreHolds
        (observe s (record { provider = provider_name; state = state; observed_at = now })).0
unfolding observe observe_provider
observe-StoreHolds s state now h k =
    let o : Observation = record { provider = provider_name; state = state; observed_at = now } in
    let p = get_or unseen (lookup provider_name s.current) in
    let seen : ProviderState × List Transition = (record p { observed_at = now }, []) in
    let mid = observe_keys (samples_for s provider_name) provider_name state seen in
    let after = vanish_keys provider_name state mid.0.stable mid in
    let kept : Holds after =
      vanish_keys-Holds provider_name state mid.0.stable mid
        (observe_keys-Holds (samples_for s provider_name) provider_name state seen h k) in
    let found : lookup provider_name (insert provider_name after.0 s.current) ≡ some after.0 =
      lookup-insert provider_name provider_name after.0 s.current
      ∙ rw (same_refl provider_name, if◌then◌else◌) refl in
    subst (λ (x : Option ProviderState). IsLegal (get_or unseen x).stable) (sym found) kept

state-get :
    (s : StateStore) (provider : Text) (o : Observation)
    → get s provider ≡ some o
    → (get_or unseen (lookup provider s.current)).stable ≡ o.state
unfolding get
state-get s provider o g = elim (Option-cases (lookup provider s.current)) [
  | inl e ↦ let nothing : none ≡ some o = rw (get, e) at g in absurd (ground arith)
  | inr (p, e) ↦
      let found : some
            (record { provider = provider; state = p.stable; observed_at = p.observed_at })
          ≡ some o =
        rw (get, e) at g in
      rw (e) (ap (λ (x : Option Observation). (get_or o x).state) found)
]

module _ (f : Floats) where
  open f use {Float}

  -- What one poll is given: the answers of the two endpoints, and the time.
  pub record Answers : Type 0 where
    pub devices : Option (List (DeviceRecord Float))
    pub health : Option (List (HealthSubsystem Float))
    pub now : ℤ

  -- The store after the polls.
  unfoldable pub poll_all : ClientConfig Float → List Answers → StateStore → StateStore
  poll_all c [] s = s
  poll_all c (a ∷ polls) s =
      poll_all c polls (poll (observe_console f c a.devices a.health) a.now s).0

  poll-StoreHolds :
      (c : ClientConfig Float) (a : Answers) (s : StateStore)
      → StoreHolds s
      → StoreHolds (poll (observe_console f c a.devices a.health) a.now s).0
  unfolding poll
  poll-StoreHolds c a s k = elim (Option-cases (observe_console f c a.devices a.health)) [
    | inl e ↦ rw (e) k
    | inr (state, e) ↦
        rw (e)
          (observe-StoreHolds s state a.now (observed-IsLegal f c a.devices a.health state e) k)
  ]

  poll_all-StoreHolds :
      (c : ClientConfig Float) (polls : List Answers) (s : StateStore)
      → StoreHolds s
      → StoreHolds (poll_all c polls s)
  unfolding poll_all
  poll_all-StoreHolds c [] s k = k
  poll_all-StoreHolds c (a ∷ polls) s k = poll_all-StoreHolds c polls _ (poll-StoreHolds c a s k)

  -- After any polls, whatever the endpoints answered and however the store debounces, each value that the
  -- store, empty at first, reports of this provider is one that the vocabulary gives its key.
  pub get-legal :
      (c : ClientConfig Float) (polls : List Answers) (s : StateStore) (o : Observation)
      (key value : Text)
      → s.current ≡ []
      → get (poll_all c polls s) provider_name ≡ some o
      → lookup key o.state ≡ some value
      → legal key value ≡ true
  unfolding get lookup
  get-legal c polls s o key value e g h =
      let start : StoreHolds s =
        subst (λ (m : Dict ProviderState). IsLegal (get_or unseen (lookup provider_name m)).stable)
          (sym e) tt in
      let held = poll_all-StoreHolds c polls s start in
      let state : (get_or unseen (lookup provider_name (poll_all c polls s).current)).stable
          ≡ o.state =
        state-get (poll_all c polls s) provider_name o g in
      lookup-IsLegal key value o.state (subst IsLegal state held) h
