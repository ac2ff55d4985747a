-- ===== src/Controller/Terminal.antt =====
-- internal/controller/task_controller.go and result.go: the branch of Reconcile for a terminal Task,
-- which completes the Result and collects the Task.
pub mod Settled
pub mod Harmless
pub mod Told
pub mod Awaited
use openconveyor.Prelude.{
  ℕ, ◌-◌, true, false, ◌||◌, Option, none, some, [], ◌∷◌, codes, is_empty, ltb, if◌then◌else◌,
}
use openconveyor.Errors.{Err, wrap, Result, ok, err, is_not_found}
use openconveyor.Kube.{Time, Key, Job}
use openconveyor.Api.{Task, ClusterAgentClass}
use openconveyor.Metrics.{step_status}
use openconveyor.Controller.Phase.{equal_status, deletion_deadline}
use openconveyor.Controller.Cluster.{task_deleted, error_counted, Run, Exec, try_get}
use openconveyor.Controller.Ensure.{job_kind}
use openconveyor.Controller.Report.{
  min_requeue, result_decided, set_result_condition, observe_result, terminal_egress,
  reason_result_unavailable,
}
use openconveyor.Controller.Reconciler.{Reconciler, note}
use openconveyor.Controller.Status.{delayed, write_status}

-- ctrl.Result and the error, `none` for nil
pub record Outcome : Type 0 where
  pub requeue_after : ℕ
  pub error : Option Err

abbrev pub stop : Option Err → Outcome
stop e = record { requeue_after = 0; error = e }

abbrev pub again : ℕ → Outcome
again d = record { requeue_after = d; error = none }

-- client.IgnoreNotFound
unfoldable pub ignore_not_found : Err → Option Err
ignore_not_found e = if is_not_found e then none else some e

-- client.ObjectKeyFromObject
abbrev pub task_key : Task → Key
task_key task = record { namespace = task.meta.namespace; name = task.meta.name }

abbrev pub Pass : Type 0 → Type 0
Pass W = Run W → Outcome × Run W

module _ {W : Type 0} (r : Reconciler W) where
  removed : Task → Run W → Result (Unit {0}) × W → Outcome × Run W
  unfolding ignore_not_found
  removed task run (ok u, world) = (
    stop none,
    record { world = world; log = task_deleted (task_key task) task.meta.uid true ∷ run.log },
  )
  removed task run (err e, world) = (
    stop (ignore_not_found e),
    record { world = world; log = task_deleted (task_key task) task.meta.uid false ∷ run.log },
  )

  collect_after : Task → Option Time → Pass W
  unfolding removed
  collect_after task none run = (stop none, run)
  collect_after task (some deadline) run =
      if ltb (r.clock run.world) deadline
      then (again (deadline - r.clock run.world), run)
      else removed task run (r.delete_task (task_key task) task.meta.uid run.world)

  unfoldable pub collect_terminal : Task → Pass W
  unfolding collect_after
  collect_terminal task run =
      collect_after task (deletion_deadline r.machinery task r.default_task_ttl_seconds) run

  store_result : Task → Result (Task × ℕ) → Exec W (Task × ℕ)
  unfolding delayed write_status
  store_result before (err e) run = (err e, run)
  store_result before (ok (task, requeue)) run =
      if equal_status r.machinery before.status task.status
      then (ok (task, requeue), run)
      else delayed requeue (write_status r (λ answer after. after) task run)

  observe_terminal : Task → Job → Result ClusterAgentClass × W → Run W → Result (Task × ℕ)
  observe_terminal task job (agent, world) run =
      observe_result r.machinery r.parsers r.net (r.clock world) r.result_wait (r.list_pods world)
        task job.meta.uid (terminal_egress task agent)

  -- Nothing can prove any more that a pod belonged to the Task.
  unfoldable pub without_job : Time → Task → Task
  without_job now task =
      set_result_condition r.machinery now task reason_result_unavailable
        (codes "The agent pod was gone before the controller read its termination message")

  -- On the Job that the Task names, or its absence.
  read_job : Task → Result (Option Job) × Run W → Result (Task × ℕ) × Run W
  unfolding store_result observe_terminal without_job
  read_job task (err e, run) = (err (wrap (codes "get job: %w") [] e), run)
  read_job task (ok none, run) =
      store_result task (ok (without_job (r.clock run.world) task, 0)) run
  read_job task (ok (some job), run) =
      let answer = r.get_class task.spec.agent.ref run.world in
      store_result task (observe_terminal task job answer run)
        (record { world = answer.1; log = run.log })

  unfoldable pub record_terminal_result : Task → Exec W (Task × ℕ)
  unfolding read_job
  record_terminal_result task run =
      if result_decided r.machinery task || is_empty task.status.job_name
      then (ok (task, 0), run)
      else read_job task (
          try_get job_kind r.clients.jobs
            (record { namespace = task.meta.namespace; name = task.status.job_name }) run)

  merged : ℕ → Outcome × Run W → Outcome × Run W
  merged requeue (o, run) =
      (record { requeue_after = min_requeue o.requeue_after requeue; error = o.error }, run)

  after_result : Result (Task × ℕ) × Run W → Outcome × Run W
  unfolding merged
  after_result (err e, run) = (stop (some e), note (error_counted step_status) run)
  after_result (ok (task, requeue), run) = merged requeue (collect_terminal task run)

  -- The branch of Reconcile for a terminal Task.
  unfoldable pub reconcile_terminal : Task → Pass W
  unfolding after_result
  reconcile_terminal task run = after_result (record_terminal_result task run)
