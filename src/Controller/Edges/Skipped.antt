-- ===== src/Controller/Edges/Skipped.antt =====
-- What is recorded of the edge actions of a transition.
use unifi_reactor.Base.{
  Bool, true, false, not, List, [], ◌∷◌, if◌then◌else◌, ◌≡◌, inl, inr, refl, Bool-cases,
}
use unifi_reactor.Controller.Automation.{Action, Automation}
use unifi_reactor.Controller.Edges.{
  EdgeExecution, Runners, edge_actions_of, executed, execution_skipped, reason_dry_run,
  run_edge_actions, run_edges, skipped,
}

-- One entry for each action, in order, for the direction of the transition.
abbrev pub Records : Bool → List Action → List EdgeExecution → Type 0
Records matching [] [] = Unit
Records matching [] (e ∷ entries) = ⊥
Records matching (a ∷ actions) [] = ⊥
Records matching (a ∷ actions) (e ∷ entries) =
    (e.action_type ≡ a.action_type) × (e.on_exit ≡ not matching) × Records matching actions entries

abbrev pub AllSkipped : List EdgeExecution → Type 0
AllSkipped [] = Unit
AllSkipped (e ∷ entries) =
    (e.status ≡ execution_skipped) × (e.reason ≡ reason_dry_run) × AllSkipped entries

module _ {World : Type 0} (x : Runners World) where
  run_edges-Records :
      (dry_run : Bool) (a : Automation) (matching : Bool) (actions : List Action) (w : World)
      → Records matching actions (run_edges x dry_run a matching actions w).0
  unfolding run_edges skipped executed
  run_edges-Records dry_run a matching [] w = tt
  run_edges-Records true a matching (action ∷ actions) w =
      (refl, refl, run_edges-Records true a matching actions w)
  run_edges-Records false a matching (action ∷ actions) w = elim (Bool-cases (x.out_of_time w)) [
    | inl e ↦
        rw (run_edges, e, if◌then◌else◌) (refl, refl, run_edges-Records false a matching actions w)
    | inr e ↦
        rw (run_edges, e, if◌then◌else◌) (refl, refl, run_edges-Records false a matching actions _)
  ]

  run_edges-AllSkipped :
      (a : Automation) (matching : Bool) (actions : List Action) (w : World)
      → AllSkipped (run_edges x true a matching actions w).0
        × ((run_edges x true a matching actions w).1 ≡ w)
  unfolding run_edges skipped
  run_edges-AllSkipped a matching [] w = (tt, refl)
  run_edges-AllSkipped a matching (action ∷ actions) w =
      let rest = run_edges-AllSkipped a matching actions w in ((refl, refl, rest.0), rest.1)

  -- Whatever the actions do, the edge actions of a transition have one entry each, in their order and
  -- with its direction; and in a dry run each of them is recorded as skipped for that reason, and none
  -- of them touches the world.
  pub run_edge_actions-Records :
      (dry_run : Bool) (a : Automation) (matching : Bool) (w : World)
      → Records matching (edge_actions_of a matching) (run_edge_actions x dry_run a matching w).0
        × AllSkipped (run_edge_actions x true a matching w).0
        × ((run_edge_actions x true a matching w).1 ≡ w)
  unfolding run_edge_actions
  run_edge_actions-Records dry_run a matching w =
      let quiet = run_edges-AllSkipped a matching (edge_actions_of a matching) w in
      (run_edges-Records dry_run a matching (edge_actions_of a matching) w, quiet.0, quiet.1)
