-- ===== src/Controller/Provision.antt =====
-- internal/controller/task_controller.go: the middle of Reconcile, from the effective allowlists to
-- the Job. Each step that fails ends the reconcile: with the reason under which the Task fails for
-- good, or with an error that makes the controller try again.
pub mod Ordered
pub mod Silent
pub mod Single
use openconveyor.Prelude.{
  ℕ, Bool, true, false, Option, none, some, List, [], ◌∷◌, Text, codes, if◌then◌else◌,
}
use openconveyor.Errors.{Err, wrap, Result, ok, err, is_permanent}
use openconveyor.Net.{Net}
use openconveyor.Kube.{ServiceAccount, Role, RoleBinding, NetworkPolicy, ConfigMap, Job}
use openconveyor.Api.{Task, ClusterAgentClass}
use openconveyor.Machinery.{Machinery}
use openconveyor.Policy.Labels.{merge_string_sets}
use openconveyor.Policy.Egress.{Resolver}
use openconveyor.Policy.Config.{Decoder}
use openconveyor.Controller.Phase.{reason_invalid_spec, reason_egress_resolve_fail}
use openconveyor.Metrics.{
  step_service_account, step_role, step_role_binding, step_network_policy, step_prompt_config_map,
  step_agent_config_map, step_job,
}
use openconveyor.Controller.Cluster.{Run, Store, Exec}
use openconveyor.Controller.Ensure.{
  account_kind, role_kind, binding_kind, policy_kind, config_map_kind, job_kind,
  ensure_service_account, ensure_role, ensure_role_binding, ensure_network_policy,
  ensure_prompt_config_map, ensure_agent_config_map, ensure_job,
}

-- How the steps end. `step` is the label under which the metrics count the failed step.
pub data Provision : Type 0 where
  provisioned : Job → Provision
  -- failTask with the reason
  task_failed : (step reason : Text) → Err → Provision
  -- the error of the reconcile
  retried : (step : Text) → Err → Provision

pub record Clients (W : Type 0) : Type 0 where
  pub accounts : Store W ServiceAccount account_kind
  pub roles : Store W Role role_kind
  pub bindings : Store W RoleBinding binding_kind
  pub policies : Store W NetworkPolicy policy_kind
  pub maps : Store W ConfigMap config_map_kind
  pub jobs : Store W Job job_kind

unfoldable pub effective_egress : Task → ClusterAgentClass → List Text
effective_egress task agent =
    merge_string_sets (task.spec.permissions.egress ∷ agent.spec.requires.egress ∷ [])

unfoldable pub effective_secrets : Task → ClusterAgentClass → List Text
effective_secrets task agent =
    merge_string_sets (task.spec.permissions.secrets ∷ agent.spec.requires.secrets ∷ [])

-- `reason` is the invalidReason of a step, if it has one.
unfoldable pub step_failure : Text → Text → Option Text → Err → Provision
step_failure step name none e = retried step (wrap (codes "%s: %w") (name ∷ []) e)
step_failure step name (some reason) e =
    if is_permanent e
    then task_failed step reason e
    else retried step (wrap (codes "%s: %w") (name ∷ []) e)

unfoldable pub job_failure : Err → Provision
job_failure e =
    if is_permanent e
    then task_failed step_job reason_invalid_spec e
    else retried step_job (wrap (codes "ensure job: %w") [] e)

module _ {W : Type 0} where
  -- One round of the loop, and what comes after it.
  after_step :
      (Err → Provision)
      → (Run W → Provision × Run W)
      → Result (Unit {0}) × Run W
      → Provision × Run W
  after_step failure rest (ok u, next) = rest next
  after_step failure rest (err e, next) = (failure e, next)

  after_job : Result Job × Run W → Provision × Run W
  unfolding job_failure
  after_job (ok job, next) = (provisioned job, next)
  after_job (err e, next) = (job_failure e, next)

  module _ (clients : Clients W) (net : Net) (resolver : Resolver) (machinery : Machinery)
      (decode : Decoder) (ttl_seconds : ℕ) (task : Task) (agent : ClusterAgentClass) where
    job_step : Run W → Provision × Run W
    unfolding after_job
    job_step run = after_job (
        ensure_job clients.jobs machinery decode task agent (effective_secrets task agent)
          ttl_seconds run)

    maps_steps : Run W → Provision × Run W
    unfolding after_step job_step
    maps_steps run =
        after_step (step_failure step_prompt_config_map (codes "ensure prompt configmap") none)
          (λ r.
            after_step (step_failure step_agent_config_map (codes "ensure config configmap") none)
              job_step (ensure_agent_config_map clients.maps task agent r))
          (ensure_prompt_config_map clients.maps task run)

    policy_step : Run W → Provision × Run W
    unfolding after_step maps_steps
    policy_step run =
        after_step
          (step_failure step_network_policy (codes "ensure network policy")
            (some reason_egress_resolve_fail))
          maps_steps
          (ensure_network_policy clients.policies net resolver task (effective_egress task agent)
            run)

    unfoldable pub provision : Run W → Provision × Run W
    unfolding after_step policy_step
    provision run =
        after_step (step_failure step_service_account (codes "ensure service account") none)
          (λ r.
            after_step (step_failure step_role (codes "ensure role") none)
              (λ s.
                after_step (step_failure step_role_binding (codes "ensure rolebinding") none)
                  policy_step (ensure_role_binding clients.bindings task s))
              (ensure_role clients.roles task r))
          (ensure_service_account clients.accounts task run)
