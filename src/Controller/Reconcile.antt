-- ===== src/Controller/Reconcile.antt =====
-- internal/controller/automation_controller.go: `Reconcile`, once the object is read. Of the status,
-- what a later pass reads is kept: the conditions, observedAt, lastTransition and the statuses of
-- targets and edge actions are left out, and so are Events, logs and metrics.
pub mod Committed
use unifi_reactor.Base.{
  Bool, true, false, not, ◌&&◌, ◌||◌, List, [], ◌∷◌, Option, none, some, if◌then◌else◌,
}
use unifi_reactor.Base.Text.{Text}
use unifi_reactor.Base.Int.{ℤ, pos}
use unifi_reactor.Controller.Automation.{
  Automation, AutomationStatus, ExecutionStatus, in_force, is_matching,
}
use unifi_reactor.Controller.Evaluate.{Evaluation, evaluate, is_nil}
use unifi_reactor.Controller.Retry.{record_apply_failure, reevaluate_interval}
use unifi_reactor.Controller.Cluster.{Cluster, Error}
use unifi_reactor.Controller.Target.{Reconciler, Stance, TargetOutcome}
use unifi_reactor.Controller.Finalizer.{Finalized, finalize, reconcile_finalizer, reconcile_targets}
use unifi_reactor.Controller.Edges.{EdgeExecution, Runners, run_edge_actions}

-- What a reconcile leaves: the Automation in memory, the edge actions that ran or were skipped, when
-- it is queued again (0 is never), its error, and the world. `none` for the time is a panic.
pub record Reconciled (World : Type 0) : Type 0 where
  pub automation : Automation
  pub edges : List EdgeExecution
  pub requeue_after : Option ℤ
  pub error : Option Error
  pub world : World

-- `slices.ContainsFunc(outcomes, changed)`
unfoldable pub any_changed : List TargetOutcome → Bool
any_changed [] = false
any_changed (o ∷ outcomes) = o.changed || any_changed outcomes

abbrev pub same_bool : Bool → Bool → Bool
same_bool true b = b
same_bool false b = not b

-- Whether the condition could be read.
abbrev pub readable : Evaluation → Bool
readable e = e.known && is_nil e.missing

-- What a reconcile takes the condition to be.
unfoldable pub matching_after : Automation → Evaluation → Bool
matching_after a e = if readable e then e.matching else is_matching a.status

-- The status before it is written: the outcome is committed unless a target failed.
unfoldable pub status_after :
    AutomationStatus → Evaluation → (matching claiming failed changed : Bool) → AutomationStatus
status_after s e matching claiming failed changed = record s {
  matching = if failed then s.matching else some matching;
  last_execution =
      if changed
      then some (record { succeeded = true; on_exit = not claiming; attempts = pos 0 })
      else s.last_execution;
  observed_state = if readable e then e.observed else s.observed_state;
}

module _ (c : Cluster) (x : Runners c.World) where
  open c use {World, update_status}

  unfoldable pub done : Automation → Option ℤ → Option Error → World → Reconciled World
  done a after e w = record {
    automation = a;
    edges = [];
    requeue_after = after;
    error = e;
    world = w;
  }

  -- The status is written, and the Automation is queued again after a while unless that failed.
  unfoldable pub write_status : Automation → Option ℤ → World → Reconciled World
  write_status a after w =
      let (sent, w') = update_status a w in
      elim sent [ some e ↦ done a (some (pos 0)) (some e) w' | none ↦ done a after none w' ]

  -- The end of `Reconcile` on a transition of an Automation that is in force.
  unfoldable pub fire : Reconciler → Automation → Bool → World → Reconciled World
  fire r a matching w =
      let (entries, w') = run_edge_actions x r.dry_run a matching w in
      let (sent, w'') = update_status a w' in
      record {
        automation = a;
        edges = entries;
        requeue_after = some reevaluate_interval;
        error = none;
        world = if is_nil entries then w' else w'';
      }

  -- `Reconcile` once every target is applied: the status, and then the edge actions.
  unfoldable pub commit : Reconciler → Automation → (was matching : Bool) → World → Reconciled World
  commit r a was matching w =
      let (sent, w') = update_status a w in
      elim sent [
        | some e ↦ done a (some (pos 0)) (some e) w'
        | none ↦
            if not (same_bool matching was) && in_force a
            then fire r a matching w'
            else done a (some reevaluate_interval) none w'
      ]

  -- `recordApplyFailure`
  unfoldable pub fail : Automation → Bool → World → Reconciled World
  fail a claiming w =
      let (execution, after) = record_apply_failure a.status.last_execution claiming in
      write_status (record a { status = record a.status { last_execution = some execution } }) after
        w

  -- `Reconcile` from the passes over the targets on.
  unfoldable pub act : Reconciler → Automation → Evaluation → World → Reconciled World
  act r a e w =
      let matching = matching_after a e in
      let claiming = matching && in_force a in
      let p =
        reconcile_targets c r a
          (record { matching = matching; claiming = claiming; preview = not (in_force a) }) w in
      let changed = any_changed p.outcomes in
      let uncommitted : Automation = record a {
        status = status_after a.status e matching claiming true changed;
      } in
      let committed : Automation = record a {
        status = status_after a.status e matching claiming false changed;
      } in
      elim p.error [
        | some f ↦ fail uncommitted claiming p.world
        | none ↦ commit r committed (is_matching a.status) matching p.world
      ]

  -- `Reconcile` from the evaluation on.
  unfoldable pub decide : Reconciler → Automation → Evaluation → World → Reconciled World
  decide r a e w =
      if in_force a && not e.known
      then write_status a (some reevaluate_interval) w
      else if in_force a && not (is_nil e.missing)
      then write_status (record a { status = record a.status { observed_state = e.observed } })
          (some reevaluate_interval) w
      else act r a e w

  abbrev pub of_finalized : Finalized World → Reconciled World
  of_finalized f = done f.automation (some f.requeue_after) f.error f.world

  -- `Reconcile` of an object that is not being deleted.
  unfoldable pub reconcile_live : Reconciler → Automation → World → Reconciled World
  reconcile_live r a w =
      let f = reconcile_finalizer c r a w in
      elim f.error [
        | some e ↦ done f.automation (some (pos 0)) (some e) f.world
        | none ↦ decide r f.automation (evaluate r.now r.store f.automation) f.world
      ]

  -- `Reconcile`
  unfoldable pub reconcile : Reconciler → Automation → World → Reconciled World
  reconcile r a w =
      if a.deleting
      then of_finalized (finalize c r a w)
      else elim a.spec.when [ none ↦ done a (some (pos 0)) none w | some t ↦ reconcile_live r a w ]
