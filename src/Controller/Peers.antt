-- ===== src/Controller/Peers.antt =====
-- arbitration.go: `referencingAutomations`, and the loop of `reconcileTarget` that gathers what
-- they all want of the target.
pub mod Agreement
use unifi_reactor.Base.{
  Bool, true, false, not, ◌&&◌, ◌||◌, List, [], ◌∷◌, Option, none, some, if◌then◌else◌,
}
use unifi_reactor.Base.Text.{Text, same}
use unifi_reactor.Base.Int.{ℤ}
use unifi_reactor.Base.Dict.{is_some}
use unifi_reactor.Engine.Arbiter.{Intent}
use unifi_reactor.Engine.Store.{StateStore}
use unifi_reactor.Controller.Automation.{Automation, in_force}
use unifi_reactor.Controller.Evaluate.{matching_of}
use unifi_reactor.Controller.Claims.{TargetKey, claimant_of, references, claim_for, reversal_for}

unfoldable pub is_peer : TargetKey → Automation → Automation → Bool
is_peer key self peer =
    is_some peer.spec.when
    && not (same (claimant_of peer) (claimant_of self))
    && references peer key

-- The loop of `referencingAutomations` over the listed items.
unfoldable pub other_peers : TargetKey → Automation → List Automation → List Automation
unfolding is_peer
other_peers key self [] = []
other_peers key self (peer ∷ items) =
    let rest = other_peers key self items in if is_peer key self peer then peer ∷ rest else rest

-- `referencingAutomations`: the object in hand stands for its listed copy.
unfoldable pub referencing_automations : TargetKey → Automation → List Automation → List Automation
unfolding other_peers
referencing_automations key self items = self ∷ other_peers key self items

-- Whether a peer claims: the caller's stance for `self`, the live evaluation for the others.
unfoldable pub peer_matching : ℤ → StateStore → Automation → Bool → Automation → Bool
peer_matching now s self claiming peer =
    if not (same (claimant_of peer) (claimant_of self))
    then in_force peer && matching_of now s peer
    else claiming

-- What one peer adds to the claims and to the reversals.
unfoldable pub gather_peer :
    TargetKey → Option ℤ → Bool → Automation → List Intent × List Intent → List Intent × List Intent
gather_peer key found matching peer (claims, reversals) = elim (claim_for peer key matching) [
  | some claim ↦ (claim ∷ claims, reversals)
  | none ↦ if matching then (claims, reversals) else elim (reversal_for peer key found) [
    | some reversal ↦ (claims, reversal ∷ reversals)
    | none ↦ (claims, reversals)
  ]
]

-- The loop: claims and reversals, each in the order of the peers.
unfoldable pub gather :
    TargetKey → Option ℤ → (Automation → Bool) → List Automation → List Intent × List Intent
unfolding gather_peer
gather key found matching [] = ([], [])
gather key found matching (peer ∷ peers) =
    gather_peer key found (matching peer) peer (gather key found matching peers)
