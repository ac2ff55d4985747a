-- ===== src/Controller/Status/Entering.antt =====
-- What the operations on the status add to a log, whatever is wanted of the Task that they write.
use openconveyor.Prelude.{ℕ, not, ◌≡◌, refl, inl, inr, Option, none, some, List, Text, Bool-cases}
use openconveyor.Errors.{Err, Result, ok, err}
use openconveyor.Kube.{Time, Job}
use openconveyor.Api.{Task, TaskPhase, failed, phase_eq}
use openconveyor.Controller.Phase.{
  Derived, derive_phase, reason_agent_class_missing, is_terminal, equal_status, event_type_for,
  warning,
}
use openconveyor.Controller.Cluster.{Action, transition, duration, Run}
use openconveyor.Controller.Report.Kept.{Keeps, observe_result-Keeps}
use openconveyor.Controller.Cluster.Trace.{one_for, Says, nothing-Says, one-Says, then-Says}
use openconveyor.Controller.Reconciler.{Reconciler, note}
use openconveyor.Controller.Status.{
  status_of_job, record_event, report_phase, observe_duration, waiting_message,
  invalid_event_message, report_invalid, report_waiting, invalid_task, waiting_task, mark_invalid,
  fail_task, marked, mark_waiting_for_agent_class, sync_status, sync_observed, delayed,
  write_status,
}
use openconveyor.Controller.Status.Told.{Entries, Tells, record_event-Says, write_status-Entries}

module _ {W : Type 0} where
  observe_duration-Says :
      (phase : TaskPhase) (start completion : Option Time) (run : Run W)
      → Says 0 run.log (observe_duration phase start completion run).log
  unfolding observe_duration
  observe_duration-Says phase none completion run = nothing-Says run.log
  observe_duration-Says phase (some start) none run = nothing-Says run.log
  observe_duration-Says phase (some start) (some completion) run =
      one-Says (duration phase start completion) run.log refl

module _ {W : Type 0} (r : Reconciler W) where
  report_phase-Tells :
      (before : TaskPhase) (d : Derived)
      → Tells {W = W} (report_phase r before d) (one_for (not (phase_eq before d.phase)))
  unfolding report_phase
  report_phase-Tells before d answer run = elim (Bool-cases (phase_eq before d.phase)) [
    | inl same ↦ rw same (nothing-Says run.log)
    | inr changed ↦
        let counted = note (transition d.phase d.reason) run in
        let told = record_event r (event_type_for d.phase) d.reason d.message counted in
        let says : Says 1 run.log told.log =
          then-Says 1 0 run.log counted.log told.log
            (one-Says (transition d.phase d.reason) run.log refl)
            (record_event-Says r (event_type_for d.phase) d.reason d.message counted) in
        elim (Bool-cases (is_terminal d.phase)) [
          | inr alive ↦ rw (changed, alive) says
          | inl ended ↦
              let start = answer.status.start_time in
              let completion = answer.status.completion_time in
              rw (changed, ended)
                (then-Says 1 0 run.log told.log (observe_duration d.phase start completion told).log
                  says (observe_duration-Says d.phase start completion told))
        ]
  ]

  pub report_invalid-Tells :
      (before : TaskPhase) (reason msg : Text)
      → Tells {W = W} (report_invalid r before reason msg) (one_for (not (phase_eq before failed)))
  unfolding report_invalid
  report_invalid-Tells before reason msg answer run = elim (Bool-cases (phase_eq before failed)) [
    | inl same ↦ rw same (nothing-Says run.log)
    | inr changed ↦
        let counted = note (transition failed reason) run in
        let text = invalid_event_message reason msg in
        rw changed (
          then-Says 1 0 run.log counted.log (record_event r warning reason text counted).log
            (one-Says (transition failed reason) run.log refl)
            (record_event-Says r warning reason text counted))
  ]

  report_waiting-Tells : (task : Task) → Tells {W = W} (report_waiting r task) 0
  unfolding report_waiting
  report_waiting-Tells task answer run =
      record_event-Says r warning reason_agent_class_missing (waiting_message r task) run

module _ {W : Type 0} (r : Reconciler W) (task : Task) (Wanted : Task → ℕ → Type 0) where
  marked-Entries :
      (log : List Action) (cause : Err) (p : Result Task × Run W)
      → Entries Wanted log p.1.log
      → Entries Wanted log (marked cause p).1.log
  unfolding marked
  marked-Entries log cause (ok u, run) h = h
  marked-Entries log cause (err e, run) h = h

  pub delayed-Entries :
      (log : List Action) (requeue : ℕ) (p : Result Task × Run W)
      → Entries Wanted log p.1.log
      → Entries Wanted log (delayed requeue p).1.log
  unfolding delayed
  delayed-Entries log requeue (ok u, run) h = h
  delayed-Entries log requeue (err e, run) h = h

  pub fail_task-Entries :
      (reason : Text) (e : Err) (run : Run W)
      → Wanted
          (invalid_task r (r.clock run.world) task reason (r.error_text e))
          (one_for (not (phase_eq task.status.phase failed)))
      → Entries Wanted run.log (fail_task r task reason e run).1.log
  unfolding fail_task mark_invalid
  fail_task-Entries reason e run wanted =
      let text = r.error_text e in
      let u = invalid_task r (r.clock run.world) task reason text in
      let report = report_invalid r task.status.phase reason text in
      marked-Entries run.log e (write_status r report u run) (
        write_status-Entries r report Wanted u (one_for (not (phase_eq task.status.phase failed)))
          run wanted (report_invalid-Tells r task.status.phase reason text))

  pub mark_waiting-Entries :
      (run : Run W)
      → Wanted (waiting_task r (r.clock run.world) task) 0
      → Entries Wanted run.log (mark_waiting_for_agent_class r task run).1.log
  unfolding mark_waiting_for_agent_class
  mark_waiting-Entries run wanted =
      let next = waiting_task r (r.clock run.world) task in
      elim (Bool-cases (equal_status r.machinery task.status next.status)) [
        | inl same ↦ rw same (inl refl)
        | inr differs ↦ rw differs (
            write_status-Entries r (report_waiting r task) Wanted next 0 run wanted
              (report_waiting-Tells r task))
      ]

  sync_observed-Entries :
      (job : Job) (observed : Result (Task × ℕ)) (run : Run W)
      → ((next : Task) (requeue : ℕ)
          → observed ≡ ok (next, requeue)
          → Wanted next (one_for (not (phase_eq task.status.phase (derive_phase job).phase))))
      → Entries Wanted run.log (sync_observed r task job observed run).1.log
  unfolding sync_observed
  sync_observed-Entries job (err e) run because = inl refl
  sync_observed-Entries job (ok (next, requeue)) run because =
      elim (Bool-cases (equal_status r.machinery task.status next.status)) [
        | inl same ↦ rw same (inl refl)
        | inr differs ↦
            let report = report_phase r task.status.phase (derive_phase job) in
            rw differs (
              delayed-Entries run.log requeue (write_status r report next run) (
                write_status-Entries r report Wanted next
                  (one_for (not (phase_eq task.status.phase (derive_phase job).phase))) run
                  (because next requeue refl)
                  (report_phase-Tells r task.status.phase (derive_phase job))))
      ]

  pub sync_status-Entries :
      (job : Job) (egress : List Text) (run : Run W)
      → ((now : Time) (next : Task)
          → Keeps r.machinery (status_of_job r now task job) next
          → Wanted next (one_for (not (phase_eq task.status.phase (derive_phase job).phase))))
      → Entries Wanted run.log (sync_status r task job egress run).1.log
  unfolding sync_status
  sync_status-Entries job egress run because = sync_observed-Entries job _ run (λ next requeue h.
      because (r.clock run.world) next (
        observe_result-Keeps r.machinery r.parsers r.net (r.clock run.world) r.result_wait _ egress
          (r.list_pods run.world) job.meta.uid next requeue h))
