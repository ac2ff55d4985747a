-- ===== src/Controller/Status/Lasting.antt =====
-- A property of the cluster that the writes of the status do not end, in Controller/Status.antt.
use openconveyor.Prelude.{
  ℕ, ◌≡◌, refl, sym, ◌∙◌, subst, Option, none, some, List, Text, inl, inr, Bool-cases,
}
use openconveyor.Errors.{Err, Result, ok, err}
use openconveyor.Kube.{Time, Job}
use openconveyor.Api.{Task, TaskPhase, failed, phase_eq}
use openconveyor.Controller.Phase.{EventType, is_terminal, Derived, derive_phase, equal_status}
use openconveyor.Controller.Cluster.{Run}
use openconveyor.Controller.Reconciler.{Reconciler}
use openconveyor.Controller.Status.{
  written, observe_duration, delayed, marked, record_event, write_status, report_phase,
  sync_observed, sync_status, report_invalid, mark_invalid, invalid_task, fail_task, waiting_task,
  report_waiting, mark_waiting_for_agent_class,
}

-- A report makes no call.
abbrev Tells : {W : Type 0} → (Task → Run W → Run W) → Type 0
Tells {W} report = (answer : Task) (run : Run W) → (report answer run).world ≡ run.world

module _ {W : Type 0} (r : Reconciler W) (I : W → Type 0)
    (updates : (task : Task) (w : W) → I w → I (r.update_status task w).1) where
  record_event-world :
      (kind : EventType) (reason msg : Text) (run : Run W)
      → (record_event r kind reason msg run).world ≡ run.world
  unfolding record_event
  record_event-world kind reason msg run = elim (Bool-cases r.has_recorder) [
    | inl on ↦ rw on refl
    | inr off ↦ rw off refl
  ]

  observe_duration-world :
      (phase : TaskPhase) (start completion : Option Time) (run : Run W)
      → (observe_duration phase start completion run).world ≡ run.world
  unfolding observe_duration
  observe_duration-world phase (some start) (some completion) run = refl
  observe_duration-world phase (some start) none run = refl
  observe_duration-world phase none completion run = refl

  report_phase-Tells : (before : TaskPhase) (d : Derived) → Tells (report_phase r before d)
  unfolding report_phase
  report_phase-Tells before d answer run = elim (Bool-cases (phase_eq before d.phase)) [
    | inl same ↦ rw same refl
    | inr entered ↦ elim (Bool-cases (is_terminal d.phase)) [
      | inl ended ↦
          rw (entered, ended)
            (observe_duration-world d.phase answer.status.start_time answer.status.completion_time _
              ∙ record_event-world _ _ _ _)
      | inr alive ↦ rw (entered, alive) (record_event-world _ _ _ _)
    ]
  ]

  report_invalid-Tells :
      (before : TaskPhase) (reason msg : Text) → Tells (report_invalid r before reason msg)
  unfolding report_invalid
  report_invalid-Tells before reason msg answer run = elim (Bool-cases (phase_eq before failed)) [
    | inl same ↦ rw same refl
    | inr entered ↦ rw entered (record_event-world _ _ _ _)
  ]

  report_waiting-Tells : (task : Task) → Tells (report_waiting r task)
  unfolding report_waiting
  report_waiting-Tells task answer run = record_event-world _ _ _ _

  written-Lasts :
      (report : Task → Run W → Run W) (task : Task) (run : Run W) (a : Result Task × W)
      → Tells report
      → I a.1
      → I (written report task run a).1.world
  unfolding written
  written-Lasts report task run (ok answer, w) tells i = subst I (sym (tells answer _)) i
  written-Lasts report task run (err e, w) tells i = i

  write_status-Lasts :
      (report : Task → Run W → Run W) (task : Task) (run : Run W)
      → Tells report
      → I run.world
      → I (write_status r report task run).1.world
  unfolding write_status
  write_status-Lasts report task run tells i =
      written-Lasts report task run (r.update_status task run.world) tells
        (updates task run.world i)

  delayed-Lasts :
      (requeue : ℕ) (p : Result Task × Run W) → I p.1.world → I (delayed requeue p).1.world
  unfolding delayed
  delayed-Lasts requeue (ok task, run) i = i
  delayed-Lasts requeue (err e, run) i = i

  marked-Lasts : (cause : Err) (p : Result Task × Run W) → I p.1.world → I (marked cause p).1.world
  unfolding marked
  marked-Lasts cause (ok task, run) i = i
  marked-Lasts cause (err e, run) i = i

  sync_observed-Lasts :
      (task : Task) (job : Job) (o : Result (Task × ℕ)) (run : Run W)
      → I run.world
      → I (sync_observed r task job o run).1.world
  unfolding sync_observed
  sync_observed-Lasts task job (err e) run i = i
  sync_observed-Lasts task job (ok (t, requeue)) run i =
      elim (Bool-cases (equal_status r.machinery task.status t.status)) [
        | inl same ↦ rw same i
        | inr differs ↦ rw differs (
            delayed-Lasts requeue _ (
              write_status-Lasts (report_phase r task.status.phase (derive_phase job)) t run
                (report_phase-Tells task.status.phase (derive_phase job)) i))
      ]

  pub sync_status-Lasts :
      (task : Task) (job : Job) (egress : List Text) (run : Run W)
      → I run.world
      → I (sync_status r task job egress run).1.world
  unfolding sync_status
  sync_status-Lasts task job egress run i = sync_observed-Lasts task job _ run i

  pub fail_task-Lasts :
      (task : Task) (reason : Text) (cause : Err) (run : Run W)
      → I run.world
      → I (fail_task r task reason cause run).1.world
  unfolding fail_task mark_invalid
  fail_task-Lasts task reason cause run i =
      let msg = r.error_text cause in
      marked-Lasts cause _ (
        write_status-Lasts (report_invalid r task.status.phase reason msg)
          (invalid_task r (r.clock run.world) task reason msg) run
          (report_invalid-Tells task.status.phase reason msg) i)

  pub mark_waiting-Lasts :
      (task : Task) (run : Run W)
      → I run.world
      → I (mark_waiting_for_agent_class r task run).1.world
  unfolding mark_waiting_for_agent_class
  mark_waiting-Lasts task run i =
      let next = waiting_task r (r.clock run.world) task in
      elim (Bool-cases (equal_status r.machinery task.status next.status)) [
        | inl same ↦ rw same i
        | inr differs ↦
            rw differs
              (write_status-Lasts (report_waiting r task) next run (report_waiting-Tells task) i)
      ]
