-- ===== src/Controller/Report.antt =====
-- internal/controller/result.go: how the Result of an agent reaches the status of its Task. The list
-- of pods and the time are parameters; the two readings of the clock in one call are one time.
pub mod Observed
pub mod Requeue
pub mod Fallback
pub mod Labelled
pub mod Kept
use openconveyor.Prelude.{
  ℕ, ◌-◌, ℤ, Bool, true, false, not, ◌&&◌, ◌||◌, Option, none, some, List, [], ◌∷◌, Text, codes,
  text_eq, is_empty, is_some, ltb, ◌==◌, Map, lookup_text, is_positive, pos_part, if◌then◌else◌,
}
use openconveyor.Errors.{Err, wrap, Result, ok, err}
use openconveyor.Kube.{
  Time, Owner, ConditionStatus, is_true, is_false, Condition, Pod, ContainerStatus, Key,
}
use openconveyor.Api.{Task, TaskStatus, ClusterAgentClass}
use openconveyor.Net.{Net}
use openconveyor.Machinery.{Machinery}
use openconveyor.Policy.Labels.{
  label_task_name, label_managed_by, managed_by_value, merge_string_sets,
}
use openconveyor.Policy.Outcome.{
  Parsers, ParsedResult, ResultOutcome, recorded, not_provided, invalid, parse_result,
}
use openconveyor.Controller.Phase.{is_terminal, ready_since}
use openconveyor.Controller.Build.{agent_container_name}

abbrev pub condition_result : Text
condition_result = codes "Result"

abbrev pub reason_result_recorded : Text
reason_result_recorded = codes "Recorded"

abbrev pub reason_result_not_provided : Text
reason_result_not_provided = codes "NotProvided"

abbrev pub reason_result_unavailable : Text
reason_result_unavailable = codes "Unavailable"

abbrev pub reason_result_invalid : Text
reason_result_invalid = codes "Invalid"

-- Durations are in nanoseconds.
abbrev pub default_result_wait : ℕ
default_result_wait = 120_000_000_000

abbrev pub result_requeue : ℕ
result_requeue = 5_000_000_000

-- The list of the pods of a namespace with a label selector.
abbrev pub PodLister : Type 0
PodLister = (namespace : Text) (selector : Map Text) → Result (List Pod)

unfoldable pub result_wait : ℤ → ℕ
result_wait w = if is_positive w then pos_part w else default_result_wait

unfoldable pub agent_termination_message : List ContainerStatus → Option Text
agent_termination_message [] = none
agent_termination_message (cs ∷ rest) =
    let later = agent_termination_message rest in
    if not (text_eq cs.name agent_container_name) || not (is_some cs.terminated)
    then later
    else cs.terminated

-- The Job with that UID controls the pod.
unfoldable pub is_controlled_by : Text → Option Owner → Bool
is_controlled_by job_uid none = false
is_controlled_by job_uid (some o) = text_eq o.kind (codes "Job") && text_eq o.uid job_uid

-- What the loop over the pods ends with: a message, or whether it saw a pod of the Job.
pub data Scan : Type 0 where
  message : Text → Scan
  no_message : (pod_seen : Bool) → Scan

scan_message : Option Text → Scan → Scan
scan_message none next = next
scan_message (some msg) next = message msg

scan_pods : Text → Bool → List Pod → Scan
unfolding scan_message
scan_pods job_uid seen [] = no_message seen
scan_pods job_uid seen (pod ∷ pods) =
    let skipped = scan_pods job_uid seen pods in
    let next = scan_pods job_uid true pods in
    if is_controlled_by job_uid pod.meta.controller
    then scan_message (agent_termination_message pod.container_statuses) next
    else skipped

unfoldable pub task_for_pod : Map Text → Text → List Key
task_for_pod labels namespace =
    let name = lookup_text label_task_name labels in
    if is_empty name || not (text_eq (lookup_text label_managed_by labels) managed_by_value)
    then []
    else record { namespace = namespace; name = name } ∷ []

-- ctrl.Result, as far as the controller uses it, and minRequeue
unfoldable pub min_requeue : ℕ → ℕ → ℕ
min_requeue requeue_after d =
    if ltb 0 d && (requeue_after == 0 || ltb d requeue_after) then d else requeue_after

-- terminalEgress, on the answer for the ClusterAgentClass
unfoldable pub terminal_egress : Task → Result ClusterAgentClass → List Text
terminal_egress task (err e) = merge_string_sets (task.spec.permissions.egress ∷ [])
terminal_egress task (ok agent) =
    merge_string_sets (task.spec.permissions.egress ∷ agent.spec.requires.egress ∷ [])

status_for_reason : Text → ConditionStatus
status_for_reason reason = if text_eq reason reason_result_recorded then is_true else is_false

module _ (machinery : Machinery) where
  unfoldable pub result_decided : Task → Bool
  result_decided task = is_some (machinery.find task.status.conditions condition_result)

  unfoldable pub set_result_condition : Time → Task → Text → Text → Task
  unfolding status_for_reason
  set_result_condition now task reason msg = record task {
    status = record task.status {
      conditions = machinery.set now task.status.conditions (record {
        kind = condition_result;
        status = status_for_reason reason;
        reason = reason;
        message = msg;
        observed_generation = task.meta.generation;
        last_transition = none;
      });
    };
  }

  reason_of : ResultOutcome → Text
  reason_of recorded = reason_result_recorded
  reason_of invalid = reason_result_invalid
  reason_of not_provided = reason_result_not_provided

  message_of : ResultOutcome → Text → Text
  message_of recorded problem = codes "The agent reported a Result"
  message_of invalid problem = problem
  message_of not_provided problem = problem

  unfoldable pub apply_parsed_result : Time → Task → ParsedResult → Task
  unfolding reason_of message_of
  apply_parsed_result now task parsed =
      set_result_condition now
        (record task { status = record task.status { task_result = parsed.task_result } })
        (reason_of parsed.outcome) (message_of parsed.outcome parsed.problem)

  or_now : Time → Option Time → Time
  or_now now none = now
  or_now now (some t) = t

  unfoldable pub terminal_since : Time → Task → Time
  unfolding or_now
  terminal_since now task = or_now now (ready_since machinery task)

  unavailable_message : Bool → Text
  unavailable_message true =
      codes "The agent container did not terminate before the controller stopped to wait"
  unavailable_message false =
      codes "The agent pod was gone before the controller read its termination message"

  module _ (parsers : Parsers) (net : Net) (now : Time) (wait : ℤ) where
    after_scan : Task → List Text → Scan → Task × ℕ
    unfolding unavailable_message
    after_scan task egress (message msg) =
        (apply_parsed_result now task (parse_result parsers net msg egress), 0)
    after_scan task egress (no_message seen) =
        if is_terminal task.status.phase
        then (if ltb (now - terminal_since now task) (result_wait wait)
            then (task, result_requeue)
            else (
              set_result_condition now task reason_result_unavailable (unavailable_message seen),
              0,
            ))
        else (task, 0)

    after_list : Task → Text → List Text → Result (List Pod) → Result (Task × ℕ)
    unfolding after_scan scan_pods
    after_list task job_uid egress (err e) = err (wrap (codes "list task pods: %w") [] e)
    after_list task job_uid egress (ok pods) =
        ok (after_scan task egress (scan_pods job_uid false pods))

    -- The Task with its new status, and the delay until the next reconcile.
    unfoldable pub observe_result : PodLister → Task → Text → List Text → Result (Task × ℕ)
    unfolding after_list
    observe_result list task job_uid egress =
        if result_decided task
        then ok (task, 0)
        else after_list task job_uid egress
            (list task.meta.namespace ((label_task_name, task.meta.name) ∷ []))
