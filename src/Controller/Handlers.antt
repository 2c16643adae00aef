-- ===== src/Controller/Handlers.antt =====
-- internal/controller/targets.go: the kinds of target, what one level means for each, and how a
-- baseline is written to an annotation and read back. The parts of a handler that call the cluster
-- (`read`, `apply`) are in Cluster.
pub mod Levels
use unifi_reactor.Base.{Bool, true, false, List, [], ◌∷◌, ◌++◌, Option, none, some, if◌then◌else◌}
use unifi_reactor.Base.Text.{Text, codes, same}
use unifi_reactor.Base.Int.{ℤ, pos, same_ℤ}
use unifi_reactor.Base.Decimal.{format_int, parse_int32, format_bool, parse_bool}
use unifi_reactor.Controller.Automation.{Action}

abbrev pub kind_deployment : Text
kind_deployment = codes "Deployment"

abbrev pub kind_stateful_set : Text
kind_stateful_set = codes "StatefulSet"

abbrev pub kind_cron_job : Text
kind_cron_job = codes "CronJob"

abbrev pub kind_node : Text
kind_node = codes "Node"

-- `levelSet` and `levelClear`
abbrev pub level_set : ℤ
level_set = pos 0

abbrev pub level_clear : ℤ
level_clear = pos 1

abbrev pub annotation_baseline_replicas : Text
annotation_baseline_replicas = codes "reactor.robbeverhelst.com/baseline-replicas"

abbrev pub annotation_baseline_suspend : Text
annotation_baseline_suspend = codes "reactor.robbeverhelst.com/baseline-suspend"

abbrev pub annotation_baseline_unschedulable : Text
annotation_baseline_unschedulable = codes "reactor.robbeverhelst.com/baseline-unschedulable"

abbrev pub annotation_claimed_by : Text
annotation_claimed_by = codes "reactor.robbeverhelst.com/claimed-by"

abbrev pub annotation_claimed_at : Text
annotation_claimed_at = codes "reactor.robbeverhelst.com/claimed-at"

-- `claimAnnotations`
abbrev pub claim_annotations : List Text
claim_annotations =
    annotation_baseline_replicas ∷ annotation_baseline_suspend ∷ annotation_baseline_unschedulable
    ∷ annotation_claimed_by ∷ annotation_claimed_at ∷ []

abbrev pub action_scale : Text
action_scale = codes "kubernetes.scale"

abbrev pub action_cron_job_suspend : Text
action_cron_job_suspend = codes "kubernetes.cronjob.suspend"

abbrev pub action_cordon : Text
action_cordon = codes "kubernetes.cordon"

-- What sets `replicaHandler` and `switchHandler` apart: the functions that they put in the fields
-- `read`, `apply`, `format`, `parse` and `describe`.
pub data Shape : Type 0 where
  replica : Shape
  switch : (field set clear : Text) → Shape

pub record TargetHandler : Type 0 where
  pub group : Text
  pub kind : Text
  pub cluster_scoped : Bool
  pub contested : Bool
  pub baseline : Text
  pub action_type : Text
  pub shape : Shape

-- `replicaHandler`
unfoldable pub replica_handler : Text → Text → TargetHandler
replica_handler group kind = record {
  group = group;
  kind = kind;
  cluster_scoped = false;
  contested = true;
  baseline = annotation_baseline_replicas;
  action_type = action_scale;
  shape = replica;
}

-- `switchHandler`
unfoldable pub switch_handler :
    (group kind field baseline action_type set clear : Text) → TargetHandler
switch_handler group kind field baseline action_type set clear = record {
  group = group;
  kind = kind;
  cluster_scoped = false;
  contested = false;
  baseline = baseline;
  action_type = action_type;
  shape = switch field set clear;
}

-- `clusterScopedHandler`
unfoldable pub cluster_scoped_handler : TargetHandler → TargetHandler
cluster_scoped_handler h = record h { cluster_scoped = true }

-- The table `handlers`, and `handlerFor` on it: `none` is its error.
unfoldable pub handler_for : Text → Option TargetHandler
unfolding replica_handler switch_handler cluster_scoped_handler
handler_for kind =
    if same kind kind_deployment
    then some (replica_handler (codes "apps") kind_deployment)
    else if same kind kind_stateful_set
    then some (replica_handler (codes "apps") kind_stateful_set)
    else if same kind kind_cron_job
    then some (
        switch_handler (codes "batch") kind_cron_job (codes "suspend") annotation_baseline_suspend
          action_cron_job_suspend (codes "suspended") (codes "running"))
    else if same kind kind_node
    then some (
        cluster_scoped_handler (
          switch_handler [] kind_node (codes "unschedulable") annotation_baseline_unschedulable
            action_cordon (codes "cordoned") (codes "schedulable")))
    else none

-- `clusterScopedKind`: a kind with no handler reads the zero value of the table.
unfoldable pub cluster_scoped_kind : Text → Bool
cluster_scoped_kind kind = elim (handler_for kind) [ none ↦ false | some h ↦ h.cluster_scoped ]

-- `levelOfFlag`
unfoldable pub level_of_flag : Bool → ℤ
level_of_flag flag = if flag then level_set else level_clear

-- `handler.format`
unfoldable pub format : Shape → ℤ → Text
format replica level = format_int level
format (switch field set clear) level = format_bool (same_ℤ level level_set)

-- `handler.parse`: `none` is its error.
unfoldable pub parse : Shape → Text → Option ℤ
parse replica raw = parse_int32 raw
parse (switch field set clear) raw = elim (parse_bool raw) [
  | none ↦ none
  | some flag ↦ some (level_of_flag flag)
]

-- `handler.describe`
unfoldable pub describe : Shape → ℤ → Text
describe replica level = format_int level ++ codes " replicas"
describe (switch field set clear) level = if same_ℤ level level_set then set else clear

flag_or_set : Option Bool → Bool
flag_or_set none = true
flag_or_set (some b) = b

-- `levelOfAction`
unfoldable pub level_of_action : Action → Option ℤ
unfolding flag_or_set
level_of_action a =
    if same a.action_type action_scale
    then a.replicas
    else if same a.action_type action_cron_job_suspend
    then some (level_of_flag (flag_or_set a.suspended))
    else if same a.action_type action_cordon
    then some (level_of_flag (flag_or_set a.cordoned))
    else none
