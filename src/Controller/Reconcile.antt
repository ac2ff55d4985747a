-- ===== src/Controller/Reconcile.antt =====
-- internal/controller/task_controller.go and result.go: Reconcile, from the Task that it reads to the
-- result and the error that it returns.
pub mod Caused
pub mod Idle
pub mod Guarded
pub mod Lifecycle
pub mod Agreement
pub mod Awakened
pub mod Refreshed
pub mod Single
pub mod Once
use openconveyor.Prelude.{
  is_empty, ℕ, not, ◌&&◌, some, List, [], ◌∷◌, Text, is_positive, pos_part, if◌then◌else◌,
}
use openconveyor.Errors.{Result, ok, err, is_not_found}
use openconveyor.Kube.{Key}
use openconveyor.Api.{Task, ClusterAgentClass}
use openconveyor.Metrics.{step_validate, step_agent_class_lookup, step_status}
use openconveyor.Policy.Egress.{has_hostnames}
use openconveyor.Controller.Phase.{is_terminal, reason_invalid_spec}
use openconveyor.Controller.Validate.{validate_task}
use openconveyor.Controller.Cluster.{error_counted, Run}
use openconveyor.Controller.Provision.{
  Provision, provisioned, task_failed, retried, effective_egress, provision,
}
use openconveyor.Controller.Report.{min_requeue}
use openconveyor.Controller.Reconciler.{Reconciler, note}
use openconveyor.Controller.Status.{sync_status, fail_task, mark_waiting_for_agent_class}
use openconveyor.Controller.Terminal.{
  Outcome, stop, again, ignore_not_found, task_key, Pass, reconcile_terminal,
}

-- agentClassMissingRequeue, in nanoseconds
abbrev pub agent_class_missing_requeue : ℕ
agent_class_missing_requeue = 30_000_000_000

-- The index of Tasks by the agent of their spec, which SetupWithManager registers.
unfoldable pub index_agent_ref : Task → List Text
index_agent_ref task = if is_empty task.spec.agent.ref then [] else task.spec.agent.ref ∷ []

module _ {W : Type 0} (r : Reconciler W) where
  -- An error of failTask ends the reconcile, and so does nil.
  unfoldable pub ended : ℕ → Result (Unit {0}) × Run W → Outcome × Run W
  ended requeue (ok u, run) = (again requeue, run)
  ended requeue (err e, run) = (stop (some e), run)

  unfoldable pub ended_waiting : Result Task × Run W → Outcome × Run W
  ended_waiting (ok task, run) = (again agent_class_missing_requeue, run)
  ended_waiting (err e, run) = (stop (some e), run)

  -- When the hostnames of a living Task are resolved again.
  unfoldable pub refresh_requeue : Task → List Text → ℕ → ℕ
  refresh_requeue task egress requeue =
      if is_positive r.egress_refresh_interval
        && (not (is_terminal task.status.phase) && has_hostnames r.net egress)
      then min_requeue requeue (pos_part r.egress_refresh_interval)
      else requeue

  after_sync : List Text → Result (Task × ℕ) × Run W → Outcome × Run W
  unfolding refresh_requeue
  after_sync egress (err e, run) = (stop (some e), note (error_counted step_status) run)
  after_sync egress (ok (task, requeue), run) =
      (again (refresh_requeue task egress (min_requeue 0 requeue)), run)

  unfoldable pub after_provision : Task → ClusterAgentClass → Provision × Run W → Outcome × Run W
  unfolding ended after_sync
  after_provision task agent (provisioned job, run) =
      after_sync (effective_egress task agent)
        (sync_status r task job (effective_egress task agent) run)
  after_provision task agent (task_failed step reason e, run) =
      ended 0 (fail_task r task reason e (note (error_counted step) run))
  after_provision task agent (retried step e, run) = (stop (some e), note (error_counted step) run)

  -- On the answer for the ClusterAgentClass.
  with_class : Task → Result ClusterAgentClass → Pass W
  unfolding after_provision ended_waiting
  with_class task (ok agent) run =
      after_provision task agent
        (provision r.clients r.net r.resolver r.machinery r.decode r.job_ttl_seconds task agent run)
  with_class task (err e) run =
      let counted = note (error_counted step_agent_class_lookup) run in
      if is_not_found e
      then ended_waiting (mark_waiting_for_agent_class r task counted)
      else (stop (some e), counted)

  after_validate : Task → Result (Unit {0}) → Pass W
  unfolding with_class ended
  after_validate task (err e) run =
      ended 0 (fail_task r task reason_invalid_spec e (note (error_counted step_validate) run))
  after_validate task (ok u) run =
      let (agent, world) = r.get_class task.spec.agent.ref run.world in
      with_class task agent (record { world = world; log = run.log })

  -- Reconcile, on the Task that it read.
  unfoldable pub reconcile_task : Task → Pass W
  unfolding after_validate reconcile_terminal
  reconcile_task task run =
      if is_terminal task.status.phase
      then reconcile_terminal r task run
      else after_validate task (validate_task r.machinery task) run

  on_task : Run W → Result Task × W → Outcome × Run W
  unfolding reconcile_task ignore_not_found
  on_task run (err e, world) = (stop (ignore_not_found e), record { world = world; log = run.log })
  on_task run (ok task, world) = reconcile_task task (record { world = world; log = run.log })

  unfoldable pub reconcile : Key → Pass W
  unfolding on_task
  reconcile key run = on_task run (r.get_task key run.world)

  requests : List Task → List Key
  requests [] = []
  requests (task ∷ tasks) =
      let rest = requests tasks in
      if is_terminal task.status.phase then rest else task_key task ∷ rest

  requests_of : Result (List Task) × W → List Key × W
  unfolding requests
  requests_of (err e, world) = ([], world)
  requests_of (ok tasks, world) = (requests tasks, world)

  unfoldable pub tasks_for_agent_class : (name : Text) → W → List Key × W
  unfolding requests_of
  tasks_for_agent_class name world = requests_of (r.tasks_of_class name world)
