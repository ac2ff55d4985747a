-- ===== src/Controller/Phase.antt =====
-- internal/controller/status.go, its pure part: the phase of a Task from its Job, the conditions,
-- the deadline of a terminal Task and the comparison of two statuses.
pub mod Lifecycle
pub mod Deadline
pub mod Comparison
use openconveyor.Prelude.{
  ℕ, ◌+◌, ◌*◌, Bool, true, false, not, Option, none, some, List, [], ◌∷◌, ◌++◌, Text, codes,
  text_eq, is_empty, length, ltb, ◌==◌, ◌&&◌, ◌||◌, if◌then◌else◌, is_some,
}
use openconveyor.Api.{
  TaskPhase, unset, pending, running, completed, failed, timed_out, phase_eq, Task, TaskStatus,
  TaskResult, ResultLink,
}
use openconveyor.Kube.{
  Time, ConditionStatus, is_true, is_false, is_unknown, Condition, Job, JobStatus, JobCondition,
  JobConditionType, complete, success_criteria_met, suspended,
}
use openconveyor.Kube
use openconveyor.Machinery.{Machinery}

abbrev pub condition_ready : Text
condition_ready = codes "Ready"

abbrev pub reason_agent_class_missing : Text
reason_agent_class_missing = codes "AgentClassMissing"

abbrev pub reason_invalid_spec : Text
reason_invalid_spec = codes "InvalidSpec"

abbrev pub reason_pending : Text
reason_pending = codes "Pending"

abbrev pub reason_suspended : Text
reason_suspended = codes "Suspended"

abbrev pub reason_running : Text
reason_running = codes "Running"

abbrev pub reason_completed : Text
reason_completed = codes "Completed"

abbrev pub reason_failed : Text
reason_failed = codes "Failed"

abbrev pub reason_timed_out : Text
reason_timed_out = codes "TimedOut"

abbrev pub reason_egress_resolve_fail : Text
reason_egress_resolve_fail = codes "EgressResolveFailed"

-- batchv1.JobReasonDeadlineExceeded
abbrev pub job_reason_deadline_exceeded : Text
job_reason_deadline_exceeded = codes "DeadlineExceeded"

pub data EventType : Type 0 where
  normal warning : EventType

unfoldable pub event_type_for : TaskPhase → EventType
event_type_for failed = warning
event_type_for timed_out = warning
event_type_for _ = normal

unfoldable pub is_terminal : TaskPhase → Bool
is_terminal completed = true
is_terminal failed = true
is_terminal timed_out = true
is_terminal _ = false

unfoldable pub message_or : Text → Text → Text
message_or msg fallback = if is_empty msg then fallback else msg

pub record Derived : Type 0 where
  pub phase : TaskPhase
  pub reason : Text
  pub message : Text

abbrev derived : TaskPhase → Text → Text → Derived
derived phase reason message = record { phase = phase; reason = reason; message = message }

abbrev holds : ConditionStatus → Bool
holds is_true = true
holds _ = false

-- The switch on a condition that holds; `none` goes on with the loop.
condition_phase : JobCondition → JobConditionType → Option Derived
unfolding message_or
condition_phase c complete =
    some (derived completed reason_completed (message_or c.message (codes "Job completed")))
condition_phase c success_criteria_met =
    some (derived completed reason_completed (message_or c.message (codes "Job completed")))
condition_phase c JobConditionType.failed =
    if text_eq c.reason job_reason_deadline_exceeded
    then some (
        derived timed_out reason_timed_out
          (message_or c.message (codes "Job exceeded its deadline")))
    else some (derived failed reason_failed (message_or c.message (codes "Job failed")))
condition_phase c suspended =
    some (derived pending reason_suspended (message_or c.message (codes "Job is suspended")))
condition_phase c JobConditionType.other = none

abbrev or_else : Option Derived → Derived → Derived
or_else none d = d
or_else (some d) e = d

phase_from : List JobCondition → Derived → Derived
unfolding condition_phase
phase_from [] otherwise = otherwise
phase_from (c ∷ cs) otherwise =
    or_else (if holds c.status then condition_phase c c.kind else none) (phase_from cs otherwise)

unfoldable pub derive_phase : Job → Derived
unfolding phase_from
derive_phase job = phase_from job.status.conditions (
    if ltb 0 job.status.active || is_some job.status.start_time
    then derived running reason_running (codes "Job is running")
    else derived pending reason_pending (codes "Waiting for pod to start"))

unfoldable pub condition_status_for : TaskPhase → ConditionStatus
condition_status_for completed = is_true
condition_status_for failed = is_false
condition_status_for timed_out = is_false
condition_status_for _ = is_unknown

-- The deadline of a terminal Task with that TTL in seconds; a second has 1000000000 nanoseconds.
deadline_after : Option ℕ → Option Time → Option Time
deadline_after none finished = none
deadline_after (some ttl) none = none
deadline_after (some ttl) (some finished) = some (finished + ttl * 1_000_000_000)

abbrev or_default : Option ℕ → Option ℕ → Option ℕ
or_default none default = default
or_default (some ttl) default = some ttl

unfoldable pub times_equal : Option Time → Option Time → Bool
times_equal none none = true
times_equal (some a) (some b) = a == b
times_equal _ _ = false

unfoldable pub condition_status_eq : ConditionStatus → ConditionStatus → Bool
condition_status_eq is_true is_true = true
condition_status_eq is_false is_false = true
condition_status_eq is_unknown is_unknown = true
condition_status_eq _ _ = false

module _ (machinery : Machinery) where
  -- The last transition of the Ready condition, or nothing.
  unfoldable pub ready_since : Task → Option Time
  ready_since task = elim (machinery.find task.status.conditions condition_ready) [
    | none ↦ none
    | some c ↦ c.last_transition
  ]

  finished_at : Task → Option Time → Option Time
  unfolding ready_since
  finished_at task (some t) = some t
  finished_at task none = ready_since task

  -- `none` is a Task that is never collected.
  unfoldable pub deletion_deadline : Task → Option ℕ → Option Time
  unfolding finished_at deadline_after
  deletion_deadline task default_ttl =
      deadline_after (or_default task.spec.ttl_seconds_after_finished default_ttl)
        (finished_at task task.status.completion_time)

  condition_matches : Condition → Option Condition → Bool
  unfolding condition_status_eq
  condition_matches a none = false
  condition_matches a (some b) =
      condition_status_eq a.status b.status
      && text_eq a.reason b.reason
      && text_eq a.message b.message
      && a.observed_generation == b.observed_generation

  conditions_match : List Condition → List Condition → Bool
  unfolding condition_matches
  conditions_match [] bs = true
  conditions_match (a ∷ rest) bs =
      condition_matches a (machinery.find bs a.kind) && conditions_match rest bs

  unfoldable pub equal_status : TaskStatus → TaskStatus → Bool
  unfolding times_equal conditions_match
  equal_status a b =
      phase_eq a.phase b.phase
      && text_eq a.job_name b.job_name
      && a.observed_generation == b.observed_generation
      && times_equal a.start_time b.start_time
      && times_equal a.completion_time b.completion_time
      && machinery.same_result a.task_result b.task_result
      && length a.conditions == length b.conditions
      && conditions_match a.conditions b.conditions
