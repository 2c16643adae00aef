-- ===== src/Controller/Poller.antt =====
-- internal/controller/unifi_poller.go: one observation, the wake-ups that follow it, and the wait for the
-- next one. Logs and metrics are left out.
pub mod Legal
use unifi_reactor.Base.{
  ℕ, zero, suc, Bool, true, false, not, ◌&&◌, ◌||◌, List, [], ◌∷◌, Option, none, some,
  if◌then◌else◌,
}
use unifi_reactor.Base.Text.{Text, codes, same}
use unifi_reactor.Base.Int.{ℤ}
use unifi_reactor.Base.Dict.{Dict}
use unifi_reactor.Engine.Store.{Observation, StateStore, Transition, observe, proving}
use unifi_reactor.Controller.Automation.{Automation}
use unifi_reactor.Controller.Evaluate.{is_nil}

-- `unifi.ProviderName`
abbrev pub provider_name : Text
provider_name = codes "unifi"

-- `UniFiPoller.observe`, on what the client observed, where `none` is an error: the store, and whether
-- Automations are woken.
unfoldable pub poll : Option (Dict Text) → ℤ → StateStore → StateStore × Bool
poll none now s = (s, false)
poll (some state) now s =
    let (after, transitions) =
      observe s (record { provider = provider_name; state = state; observed_at = now }) in
    (after, not (is_nil transitions))

-- Whether the condition of an Automation is on this provider.
unfoldable pub watches_unifi : Automation → Bool
watches_unifi a = elim a.spec.when [ none ↦ false | some t ↦ same t.provider provider_name ]

-- The loop of `wake`, with the free places of the queue: those that are sent.
unfoldable pub wake : ℕ → List Automation → List Automation
wake room [] = []
wake zero (a ∷ list) = wake zero list
wake (suc room) (a ∷ list) =
    let sent = wake room list in
    let rest = wake (suc room) list in if watches_unifi a then a ∷ sent else rest

-- What `awaitNextObservation` receives.
pub data Arrival : Type 0 where
  ended tick nudge : Arrival

-- `awaitNextObservation`: whether to observe again, once something that decides it has arrived. A nudge
-- counts only while no value is settling, and after a wait that may end early.
unfoldable pub await_next_observation : Bool → StateStore → List Arrival → Option Bool
await_next_observation waited s [] = none
await_next_observation waited s (ended ∷ arrivals) = some false
await_next_observation waited s (tick ∷ arrivals) = some true
await_next_observation waited s (nudge ∷ arrivals) =
    let rest = await_next_observation waited s arrivals in
    if proving s provider_name then rest else some waited
