-- ===== src/Controller/Status/Causes.antt =====
-- Why the controller writes the status of a Task, and what it then writes.
use openconveyor.Prelude.{ℕ, true, not, ◌≡◌, refl, sym, ap, ◌∙◌, ◌⊎◌, some, List, Text}
use openconveyor.Errors.{Err, Result, ok, err, is_permanent, is_not_found}
use openconveyor.Kube.{Time, Job, Condition, ConditionStatus, is_false, is_unknown}
use openconveyor.Machinery.{Machinery}
use openconveyor.Api.{Task, failed, pending, phase_eq, ClusterAgentClass}
use openconveyor.Controller.Phase.{
  derive_phase, condition_ready, condition_status_for, reason_agent_class_missing,
  reason_invalid_spec, is_terminal,
}
use openconveyor.Controller.Validate.{validate_task}
use openconveyor.Controller.Provision.{Provision, provisioned, task_failed, provision}
use openconveyor.Controller.Cluster.{Action, Run}
use openconveyor.Controller.Report.Kept.{Keeps}
use openconveyor.Controller.Cluster.Trace.{one_for}
use openconveyor.Controller.Reconciler.{Reconciler}
use openconveyor.Controller.Status.{
  set_ready, status_of_job, waiting_message, invalid_task, waiting_task, fail_task,
  mark_waiting_for_agent_class, sync_status,
}
use openconveyor.Controller.Status.Told.{Writes, Entries}
use openconveyor.Controller.Status.Entering.{
  fail_task-Entries, mark_waiting-Entries, sync_status-Entries,
}

pub data Cause : Type 0 where
  invalid : (reason : Text) → Err → Cause
  no_class : Cause
  follows : Job → Cause
  result_only : Cause

-- The Ready condition of a Task that is written.
pub record Shown (machinery : Machinery) (u : Task) (status : ConditionStatus)
    (reason message : Text) : Type 0 where
  pub condition : Condition
  pub found : machinery.find u.status.conditions condition_ready ≡ some condition
  pub same_status : condition.status ≡ status
  pub same_reason : condition.reason ≡ reason
  pub same_message : condition.message ≡ message

set_ready-Shown :
    {W : Type 0} (r : Reconciler W) (now : Time) (t u : Task) (status : ConditionStatus)
    (reason message : Text)
    → r.machinery.find u.status.conditions condition_ready
      ≡ r.machinery.find (set_ready r now t status reason message) condition_ready
    → Shown r.machinery u status reason message
unfolding set_ready
set_ready-Shown r now t u status reason message e =
    let (d, there, same) = r.machinery.find-set_self now t.status.conditions _ in
    record {
      condition = d;
      found = e ∙ there;
      same_status = sym same.status;
      same_reason = sym same.reason;
      same_message = sym same.message;
    }

-- A reconcile of the Task that begins with `start`.
module _ {W : Type 0} (r : Reconciler W) (task : Task) (start : Run W) where
  -- The read of the ClusterAgentClass, and the run behind it.
  abbrev pub class_answer : Result ClusterAgentClass
  class_answer = (r.get_class task.spec.agent.ref start.world).0

  abbrev pub classed : Run W
  classed = record { world = (r.get_class task.spec.agent.ref start.world).1; log = start.log }

  -- How the steps of this reconcile end, with the class that it read.
  abbrev pub StepsEnd : Provision → Type 0
  StepsEnd p =
      (agent : ClusterAgentClass) × (class_answer ≡ ok agent)
      × ((provision r.clients r.net r.resolver r.machinery r.decode r.job_ttl_seconds task agent
            classed).0
          ≡ p)

  -- validateTask refuses the spec, or a step fails with a permanent error.
  abbrev pub Fault : Text → Err → Type 0
  Fault reason e =
      ((validate_task r.machinery task ≡ err e) × (reason ≡ reason_invalid_spec))
      ⊎ ((step : Text) × StepsEnd (task_failed step reason e) × (is_permanent e ≡ true))

  -- The Task that is written, for each cause.
  abbrev pub Because : Cause → Task → Type 0
  Because (invalid reason e) u =
      (now : Time) × (u ≡ invalid_task r now task reason (r.error_text e))
      × (u.status.phase ≡ failed)
      × Shown r.machinery u is_false reason (r.error_text e)
      × Fault reason e
  Because no_class u =
      (now : Time) × (u ≡ waiting_task r now task)
      × (u.status.phase ≡ pending)
      × Shown r.machinery u is_unknown reason_agent_class_missing (waiting_message r task)
      × (e : Err) × (class_answer ≡ err e)
      × (is_not_found e ≡ true)
  Because (follows job) u =
      (now : Time) × Keeps r.machinery (status_of_job r now task job) u
      × (u.status.phase ≡ (derive_phase job).phase)
      × Shown r.machinery u (condition_status_for (derive_phase job).phase)
          (derive_phase job).reason (derive_phase job).message
      × StepsEnd (provisioned job)
  Because result_only u = (is_terminal task.status.phase ≡ true) × Keeps r.machinery task u

  -- The phase transitions that the controller counts.
  abbrev pub count_of : Cause → Task → ℕ
  count_of no_class u = 0
  count_of c u = one_for (not (phase_eq task.status.phase u.status.phase))

  abbrev pub Caused : Task → ℕ → Type 0
  Caused u count = (c : Cause) × Because c u × (count ≡ count_of c u)

  abbrev pub Reports : List Action → List Action → Type 0
  Reports log later = Writes Caused log later

  abbrev pub Entered : List Action → List Action → Type 0
  Entered log later = Entries Caused log later

module _ {W : Type 0} (r : Reconciler W) (task : Task) (start : Run W) where
  pub fail_task-Entered :
      (reason : Text) (e : Err) (run : Run W)
      → Fault r task start reason e
      → Entered r task start run.log (fail_task r task reason e run).1.log
  unfolding invalid_task
  fail_task-Entered reason e run why =
      let now = r.clock run.world in
      fail_task-Entries r task (Caused r task start) reason e run
        (invalid reason e, (now, refl, refl, set_ready-Shown r now task _ _ _ _ refl, why), refl)

  pub mark_waiting-Entered :
      (e : Err) (run : Run W)
      → class_answer r task start ≡ err e
      → is_not_found e ≡ true
      → Entered r task start run.log (mark_waiting_for_agent_class r task run).1.log
  unfolding waiting_task
  mark_waiting-Entered e run answered missing =
      let now = r.clock run.world in
      mark_waiting-Entries r task (Caused r task start) run (
        no_class,
        (now, refl, refl, set_ready-Shown r now task _ _ _ _ refl, e, answered, missing),
        refl,
      )

  same_phase :
      (job : Job) (now : Time) (next : Task)
      → Keeps r.machinery (status_of_job r now task job) next
      → (derive_phase job).phase ≡ next.status.phase
  unfolding status_of_job
  same_phase job now next kept = sym (ap (λ t. t.status.phase) kept.only)

  status_of_job-Shown :
      (job : Job) (now : Time) (next : Task)
      → Keeps r.machinery (status_of_job r now task job) next
      → Shown r.machinery next
          (condition_status_for (derive_phase job).phase)
          (derive_phase job).reason
          (derive_phase job).message
  unfolding status_of_job
  status_of_job-Shown job now next kept = set_ready-Shown r now task next _ _ _ kept.ready

  pub sync_status-Entered :
      (job : Job)
      → StepsEnd r task start (provisioned job)
      → (egress : List Text) (run : Run W)
      → Entered r task start run.log (sync_status r task job egress run).1.log
  sync_status-Entered job ended egress run =
      sync_status-Entries r task (Caused r task start) job egress run (λ now next kept. (
        follows job,
        (
          now,
          kept,
          sym (same_phase job now next kept),
          status_of_job-Shown job now next kept,
          ended,
        ),
        ap (λ p. one_for (not (phase_eq task.status.phase p))) (same_phase job now next kept),
      ))
