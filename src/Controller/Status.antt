-- ===== src/Controller/Status.antt =====
-- internal/controller/status.go: the writes of the status of a Task and the reports that follow them.
pub mod Told
pub mod Entering
pub mod Causes
pub mod Frame
pub mod Failing
pub mod Lasting
use openconveyor.Prelude.{
  ℕ, true, false, Option, none, some, List, ◌∷◌, ◌++◌, Text, codes, text_eq, if◌then◌else◌,
}
use openconveyor.Errors.{Err, join, Result, ok, err}
use openconveyor.Kube.{Time, is_false, is_unknown, ConditionStatus, Condition, Job}
use openconveyor.Api.{Task, TaskPhase, pending, failed, phase_eq}
use openconveyor.Controller.Phase.{
  EventType, warning, event_type_for, is_terminal, Derived, derive_phase, condition_status_for,
  condition_ready, equal_status, reason_agent_class_missing, reason_egress_resolve_fail,
}
use openconveyor.Controller.Cluster.{status_written, event, transition, duration, Run, Exec}
use openconveyor.Controller.Report.{observe_result}
use openconveyor.Controller.Reconciler.{Reconciler, note}

unfoldable pub invalid_event_message : Text → Text → Text
invalid_event_message reason msg =
    (if text_eq reason reason_egress_resolve_fail
      then codes "Egress allowlist could not be resolved"
      else codes "Task spec is invalid")
    ++ codes ": "
    ++ msg

module _ {W : Type 0} where
  written : (Task → Run W → Run W) → Task → Run W → Result Task × W → Result Task × Run W
  written report task run (err e, world) =
      (err e, record { world = world; log = status_written task false ∷ run.log })
  written report task run (ok answer, world) = (
    ok answer,
    report answer (record { world = world; log = status_written task true ∷ run.log }),
  )

  observe_duration : TaskPhase → Option Time → Option Time → Run W → Run W
  observe_duration phase (some start) (some completion) run =
      note (duration phase start completion) run
  observe_duration phase _ _ run = run

  unfoldable pub delayed : ℕ → Result Task × Run W → Result (Task × ℕ) × Run W
  delayed requeue (ok task, run) = (ok (task, requeue), run)
  delayed requeue (err e, run) = (err e, run)

  marked : Err → Result Task × Run W → Result (Unit {0}) × Run W
  marked cause (ok task, run) = (ok tt, run)
  marked cause (err e, run) = (err (join cause e), run)

module _ {W : Type 0} (r : Reconciler W) where
  unfoldable pub record_event : EventType → Text → Text → Run W → Run W
  record_event kind reason msg run =
      if r.has_recorder then note (event kind reason msg) run else run

  -- The Ready condition of a Task, with the generation that the controller has seen.
  unfoldable pub set_ready : Time → Task → ConditionStatus → Text → Text → List Condition
  set_ready now task status reason msg = r.machinery.set now task.status.conditions (record {
    kind = condition_ready;
    status = status;
    reason = reason;
    message = msg;
    observed_generation = task.meta.generation;
    last_transition = none;
  })

  -- r.Status().Update: the report is made only after the write, on the Task of the answer.
  unfoldable pub write_status : (Task → Run W → Run W) → Task → Exec W Task
  unfolding written
  write_status report task run = written report task run (r.update_status task run.world)

  -- The phase, the reason and the message that the pass derived, and the phase before it.
  unfoldable pub report_phase : TaskPhase → Derived → Task → Run W → Run W
  unfolding record_event observe_duration
  report_phase before d answer run =
      let counted = note (transition d.phase d.reason) run in
      let told = record_event (event_type_for d.phase) d.reason d.message counted in
      if phase_eq before d.phase
      then run
      else (if is_terminal d.phase
          then observe_duration d.phase answer.status.start_time answer.status.completion_time told
          else told)

  -- The status that syncStatus sets before it reads the Result.
  unfoldable pub status_of_job : Time → Task → Job → Task
  unfolding set_ready
  status_of_job now task job =
      let d = derive_phase job in
      record task {
        status = record task.status {
          job_name = job.meta.name;
          start_time = job.status.start_time;
          completion_time = job.status.completion_time;
          observed_generation = task.meta.generation;
          phase = d.phase;
          conditions = set_ready now task (condition_status_for d.phase) d.reason d.message;
        };
      }

  sync_observed : Task → Job → Result (Task × ℕ) → Exec W (Task × ℕ)
  unfolding delayed write_status
  sync_observed before job (err e) run = (err e, run)
  sync_observed before job (ok (task, requeue)) run =
      if equal_status r.machinery before.status task.status
      then (ok (task, requeue), run)
      else delayed requeue
          (write_status (report_phase before.status.phase (derive_phase job)) task run)

  unfoldable pub sync_status : Task → Job → List Text → Exec W (Task × ℕ)
  unfolding sync_observed
  sync_status task job egress run =
      sync_observed task job
        (observe_result r.machinery r.parsers r.net (r.clock run.world) r.result_wait
          (r.list_pods run.world) (status_of_job (r.clock run.world) task job) job.meta.uid egress)
        run

  unfoldable pub invalid_task : Time → Task → Text → Text → Task
  unfolding set_ready
  invalid_task now task reason msg = record task {
    status = record task.status {
      phase = failed;
      observed_generation = task.meta.generation;
      conditions = set_ready now task is_false reason msg;
    };
  }

  unfoldable pub report_invalid : TaskPhase → Text → Text → Task → Run W → Run W
  unfolding record_event invalid_event_message
  report_invalid before reason msg answer run =
      if phase_eq before failed
      then run
      else record_event warning reason (invalid_event_message reason msg)
          (note (transition failed reason) run)

  unfoldable pub mark_invalid : Task → Text → Text → Exec W Task
  unfolding report_invalid write_status
  mark_invalid task reason msg run =
      write_status (report_invalid task.status.phase reason msg)
        (invalid_task (r.clock run.world) task reason msg) run

  -- `ok tt` is nil.
  unfoldable pub fail_task : Task → Text → Err → Exec W (Unit {0})
  unfolding marked mark_invalid
  fail_task task reason cause run = marked cause (mark_invalid task reason (r.error_text cause) run)

  unfoldable pub waiting_message : Task → Text
  waiting_message task =
      codes "Waiting for ClusterAgentClass "
      ++ r.quote task.spec.agent.ref
      ++ codes " to be created"

  unfoldable pub waiting_task : Time → Task → Task
  unfolding set_ready waiting_message
  waiting_task now task = record task {
    status = record task.status {
      phase = pending;
      observed_generation = task.meta.generation;
      conditions = set_ready now task is_unknown reason_agent_class_missing (waiting_message task);
    };
  }

  report_waiting : Task → Task → Run W → Run W
  unfolding record_event waiting_message
  report_waiting task answer run =
      record_event warning reason_agent_class_missing (waiting_message task) run

  unfoldable pub mark_waiting_for_agent_class : Task → Exec W Task
  unfolding report_waiting write_status waiting_task
  mark_waiting_for_agent_class task run =
      let next = waiting_task (r.clock run.world) task in
      if equal_status r.machinery task.status next.status
      then (ok next, run)
      else write_status (report_waiting task) next run
