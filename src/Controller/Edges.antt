-- ===== src/Controller/Edges.antt =====
-- internal/controller/edge_actions.go: the actions that run once on a transition. Events, logs, metrics
-- and the times of the entries are left out.
pub mod Skipped
use unifi_reactor.Base.{
  ℕ, Bool, true, false, not, ◌&&◌, ◌||◌, List, [], ◌∷◌, ◌++◌, Option, none, some, if◌then◌else◌,
}
use unifi_reactor.Base.Text.{Text, codes, same, has_prefix}
use unifi_reactor.Controller.Automation.{Action, Automation}
use unifi_reactor.Controller.Claims.{is_desired_state}
use unifi_reactor.Actions.Exchange.{Request}

abbrev pub execution_success : Text
execution_success = codes "Success"

abbrev pub execution_failed : Text
execution_failed = codes "Failed"

abbrev pub execution_skipped : Text
execution_skipped = codes "Skipped"

abbrev pub reason_dry_run : Text
reason_dry_run = codes "dry run: this action was not sent"

abbrev pub reason_out_of_time : Text
reason_out_of_time = codes "ran out of time for the remaining actions on this transition"

abbrev pub reason_disabled : Text
reason_disabled = codes "outbound actions are disabled on this install: no destination is allowed"

abbrev pub action_prefix_kubernetes : Text
action_prefix_kubernetes = codes "kubernetes."

-- `consoleTypes`
abbrev pub console_types : List Text
console_types =
    codes "unifi.wlan.enable"
    ∷ codes "unifi.wlan.disable"
    ∷ codes "unifi.poe.cycle"
    ∷ codes "unifi.outlet.cut"
    ∷ codes "unifi.outlet.restore"
    ∷ []

unfoldable pub is_one_of : List Text → Text → Bool
is_one_of [] t = false
is_one_of (s ∷ ts) t = same s t || is_one_of ts t

-- `isKubernetesAction`
unfoldable pub is_kubernetes_action : Text → Bool
is_kubernetes_action t = has_prefix t action_prefix_kubernetes

-- `IsConsole`
unfoldable pub is_console : Text → Bool
is_console t = is_one_of console_types t

-- `EdgeExecutionStatus`
pub record EdgeExecution : Type 0 where
  pub action_type : Text
  pub on_exit : Bool
  pub status : Text
  pub reason : Text
  pub destination : Text
  pub attempts : ℕ

-- What `runEdgeAction` returns: the fields of the result that are read, and the error's text.
pub record Delivered : Type 0 where
  pub origin : Text
  pub attempts : ℕ
  pub error : Option Text

pub data Built : Type 0 where
  built : Request → Built
  unbuilt : Text → Built

-- What a transition's actions go through: the cluster, the console and the outbound client, how a
-- request is built, and whether the minute that they have together is over.
pub record Runners (World : Type 0) : Type 0 where
  pub run_cluster_action : Automation → Action → World → Delivered × World
  pub run_console_action : Action → World → Delivered × World
  pub outbound_enabled : Bool
  pub build_request : Automation → Action → Bool → World → Built
  pub do_request : Request → World → Delivered × World
  pub out_of_time : World → Bool

-- The loop of `edgeActionsOf`.
unfoldable pub keep_edges : List Action → List Action
keep_edges [] = []
keep_edges (a ∷ actions) =
    let rest = keep_edges actions in if is_desired_state a.action_type then rest else a ∷ rest

-- `edgeActionsOf`
unfoldable pub edge_actions_of : Automation → Bool → List Action
edge_actions_of a matching = keep_edges (if matching then a.spec.actions else a.spec.on_exit)

-- `destinationFrom`: `none` is its error.
unfoldable pub destination_from : Text → Text → Option Text
destination_from from_automation from_secret =
    if not (same from_automation []) && not (same from_secret [])
    then none
    else if not (same from_automation [])
    then some from_automation
    else if not (same from_secret [])
    then some from_secret
    else none

-- `retryable`
unfoldable pub retryable : Text → Option Bool → Bool
retryable method (some idempotent) = idempotent
retryable method none = same method (codes "GET") || same method (codes "PUT")

-- `edgeVerbs`
unfoldable pub edge_verbs : Text → Text × Text
edge_verbs t =
    if is_kubernetes_action t || is_console t
    then (codes "applied to", codes "was not applied")
    else if same t (codes "homeassistant.service")
        || same t (codes "qbittorrent.pause")
        || same t (codes "qbittorrent.resume")
    then (codes "applied at", codes "was not applied at")
    else (codes "delivered to", codes "was not delivered")

module _ {World : Type 0} (x : Runners World) where
  refused_run : Text → Delivered
  refused_run reason = record { origin = []; attempts = 0; error = some reason }

  -- The end of `runEdgeAction`.
  unfoldable pub run_outbound : Automation → Action → Bool → World → Delivered × World
  unfolding refused_run
  run_outbound a action matching w = elim (x.build_request a action matching w) [
    | unbuilt reason ↦ (refused_run reason, w)
    | built r ↦ x.do_request r w
  ]

  -- `runEdgeAction`
  unfoldable pub run_edge_action : Automation → Action → Bool → World → Delivered × World
  unfolding refused_run
  run_edge_action a action matching w =
      if is_kubernetes_action action.action_type
      then x.run_cluster_action a action w
      else if is_console action.action_type
      then x.run_console_action action w
      else if not x.outbound_enabled
      then (refused_run reason_disabled, w)
      else run_outbound a action matching w

  unfoldable pub skipped : Action → Bool → Text → EdgeExecution
  skipped action matching reason = record {
    action_type = action.action_type;
    on_exit = not matching;
    status = execution_skipped;
    reason = reason;
    destination = [];
    attempts = 0;
  }

  unfoldable pub executed : Action → Bool → Delivered → EdgeExecution
  executed action matching d = record {
    action_type = action.action_type;
    on_exit = not matching;
    status = elim d.error as (λ e. Text) [ none ↦ execution_success | some e ↦ execution_failed ];
    reason = elim d.error as (λ e. Text) [ none ↦ [] | some e ↦ e ];
    destination = d.origin;
    attempts = d.attempts;
  }

  -- The loop of `runEdgeActions`.
  unfoldable pub run_edges :
      Bool → Automation → Bool → List Action → World → List EdgeExecution × World
  run_edges dry_run a matching [] w = ([], w)
  run_edges dry_run a matching (action ∷ actions) w =
      let (delivered, after) = run_edge_action a action matching w in
      let (entry, w') : EdgeExecution × World =
        if dry_run
        then (skipped action matching reason_dry_run, w)
        else if x.out_of_time w
        then (skipped action matching reason_out_of_time, w)
        else (executed action matching delivered, after) in
      let (entries, w'') = run_edges dry_run a matching actions w' in (entry ∷ entries, w'')

  -- `runEdgeActions`
  unfoldable pub run_edge_actions : Bool → Automation → Bool → World → List EdgeExecution × World
  run_edge_actions dry_run a matching w =
      run_edges dry_run a matching (edge_actions_of a matching) w
