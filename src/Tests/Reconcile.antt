-- ===== src/Tests/Reconcile.antt =====
-- A reconcile of one Automation that announces that the uplink is the backup.
use unifi_reactor.Base.{ℕ, true, false, [], ◌∷◌, none, some, ◌≡◌, refl, ◌+◌}
use unifi_reactor.Base.Text.{codes, same, has_prefix}
use unifi_reactor.Base.Int.{pos}
use unifi_reactor.Base.Sort.{sort, sort_by}
use unifi_reactor.Base.Dict.{lookup, insert}
use unifi_reactor.Engine.Store.{freshness, get}
use unifi_reactor.Controller.Automation.{Action, Automation, in_force, is_matching, unset}
use unifi_reactor.Controller.Claims.{collect_targets, is_desired_state, target_key_for, targets_of}
use unifi_reactor.Controller.Evaluate.{
  evaluate, evaluate_key, evaluate_keys, evaluate_trigger, is_nil,
}
use unifi_reactor.Controller.Cluster.{Cluster, failure, err, ok}
use unifi_reactor.Controller.Target.{Reconciler}
use unifi_reactor.Controller.Finalizer.{
  no_targets, reconcile_finalizer, reconcile_keys, reconcile_targets,
}
use unifi_reactor.Controller.Edges.{
  Runners, edge_actions_of, executed, is_console, is_kubernetes_action, is_one_of, keep_edges,
  run_edge_action, run_edge_actions, run_edges, run_outbound, unbuilt,
}
use unifi_reactor.Controller.Edges.Skipped.{AllSkipped, Records, run_edge_actions-Records}
use unifi_reactor.Controller.Reconcile.{
  act, any_changed, commit, decide, done, fire, matching_after, reconcile, reconcile_live,
  status_after,
}
use unifi_reactor.Controller.Reconcile.Committed.{Fired, finalized_of, reconcile-Fired}

abbrev announce : Action
announce = record {
  action_type = codes "notification.ntfy";
  target = none;
  replicas = none;
  suspended = none;
  cordoned = none;
  timeout_seconds = none;
}

abbrev announcer : Automation
announcer = record {
  namespace = codes "media";
  name = codes "wan";
  deleting = false;
  finalizers = [];
  spec = record {
    when = some (record { provider = codes "unifi"; state = (codes "wan", codes "backup") ∷ [] });
    actions = announce ∷ [];
    on_exit = [];
    reversal = unset;
    dry_run = false;
    suspend = false;
  };
  status = record {
    matching = none;
    observed_state = [];
    last_execution = none;
    release_attempts = pos 0;
  };
}

-- A cluster without objects, which counts the writes of a status.
abbrev counting : Cluster
counting = record {
  World = ℕ;
  get_object = λ k w. err (failure (codes "not found"));
  get_scale = λ k w. err (failure (codes "not found"));
  update_scale = λ k n w. (none, w);
  patch_object = λ guard before after w. (ok after, w);
  list_automations = λ w. ok [];
  list_automations_in = λ namespace w. ok [];
  update_automation = λ a w. (none, w);
  update_status = λ a w. (none, w + 1);
  contains_finalizer = λ fs f. false;
  add_finalizer = λ fs f. f ∷ fs;
  remove_finalizer = λ fs f. fs;
  list_autoscalers = λ namespace w. ok [];
}

abbrev nowhere : Runners ℕ
nowhere = record {
  run_cluster_action = λ a action w. (record { origin = []; attempts = 0; error = none }, w);
  run_console_action = λ action w. (record { origin = []; attempts = 0; error = none }, w);
  outbound_enabled = true;
  build_request = λ a action matching w. unbuilt (codes "no secret");
  do_request = λ r w. (record { origin = []; attempts = 0; error = none }, w);
  out_of_time = λ w. false;
}

abbrev on_backup : Reconciler
on_backup = record {
  dry_run = false;
  detect_hpa = true;
  store = record {
    current =
        (
          codes "unifi",
          record { stable = (codes "wan", codes "backup") ∷ []; pending = []; observed_at = pos 1 },
        )
        ∷ [];
    debounce = [];
    stale_after = [];
  };
  now = pos 9;
  stamp = codes "t";
}

announced : is_nil (reconcile counting nowhere on_backup announcer 0).edges ≡ false
unfolding reconcile reconcile_live reconcile_finalizer targets_of collect_targets target_key_for
    no_targets sort_by is_desired_state same evaluate evaluate_trigger get lookup evaluate_keys
    evaluate_key insert freshness sort decide in_force is_nil act matching_after reconcile_targets
    reconcile_keys status_after any_changed commit is_matching fire run_edge_actions edge_actions_of
    keep_edges run_edges run_edge_action is_kubernetes_action has_prefix is_console is_one_of
    run_outbound executed done
announced = refl

reconcile-Fired_example :
    (false ≡ false)
    × ((finalized_of counting nowhere on_backup announcer 0).error ≡ none)
    × Fired counting nowhere on_backup
        (finalized_of counting nowhere on_backup announcer 0).automation
        (evaluate on_backup.now on_backup.store
          (finalized_of counting nowhere on_backup announcer 0).automation)
        (finalized_of counting nowhere on_backup announcer 0).world
        (reconcile counting nowhere on_backup announcer 0).edges
reconcile-Fired_example = reconcile-Fired counting nowhere on_backup announcer 0 announced

run_edge_actions-Records_example :
    Records true
      (edge_actions_of announcer true)
      (run_edge_actions nowhere false announcer true 0).0
    × AllSkipped (run_edge_actions nowhere true announcer true 0).0
    × ((run_edge_actions nowhere true announcer true 0).1 ≡ 0)
run_edge_actions-Records_example = run_edge_actions-Records nowhere false announcer true 0
