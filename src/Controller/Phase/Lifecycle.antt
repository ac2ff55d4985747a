-- ===== src/Controller/Phase/Lifecycle.antt =====
-- The phase of a Task against the state of its Job.
use openconveyor.Prelude.{
  Bool, true, false, ◌||◌, ◌&&◌, ◌≡◌, ◌≢◌, refl, Option, none, some, List, [], ◌∷◌, ◌↔◌, ◌⊎◌, inl,
  inr, Text, text_eq, is_some, ltb, if◌then◌else◌, arith, Bool-cases, Option-cases,
}
use openconveyor.Api.{TaskPhase, unset, pending, running, completed, failed, timed_out}
use openconveyor.Kube.{
  Job, JobCondition, JobConditionType, complete, success_criteria_met, suspended, is_false,
  is_unknown,
}
use openconveyor.Controller.Phase.{
  Derived, derive_phase, phase_from, condition_phase, holds, is_terminal, event_type_for,
  condition_status_for, warning, job_reason_deadline_exceeded,
}

-- The kinds of condition that decide a phase.
abbrev decides : JobConditionType → Bool
decides JobConditionType.other = false
decides _ = true

-- The first condition that holds and decides.
abbrev pub deciding : List JobCondition → Option JobCondition
deciding [] = none
deciding (c ∷ cs) = if holds c.status && decides c.kind then some c else deciding cs

-- The phase that a deciding condition stands for.
abbrev phase_of_failure : Text → TaskPhase
phase_of_failure reason = if text_eq reason job_reason_deadline_exceeded then timed_out else failed

abbrev phase_of_kind : JobConditionType → Text → TaskPhase
phase_of_kind complete reason = completed
phase_of_kind success_criteria_met reason = completed
phase_of_kind JobConditionType.failed reason = phase_of_failure reason
phase_of_kind suspended reason = pending
phase_of_kind JobConditionType.other reason = unset

abbrev pub phase_of : Option JobCondition → Bool → TaskPhase
phase_of none started = if started then running else pending
phase_of (some c) started = phase_of_kind c.kind c.reason

condition_phase-phase :
    (c : JobCondition) (k : JobConditionType)
    → ((decides k ≡ false) × (condition_phase c k ≡ none))
      ⊎ ((decides k ≡ true)
          × (e : Derived) × (condition_phase c k ≡ some e)
          × (e.phase ≡ phase_of_kind k c.reason))
unfolding condition_phase
condition_phase-phase c complete = inr (refl, _, refl, refl)
condition_phase-phase c success_criteria_met = inr (refl, _, refl, refl)
condition_phase-phase c suspended = inr (refl, _, refl, refl)
condition_phase-phase c JobConditionType.other = inl (refl, refl)
condition_phase-phase c JobConditionType.failed =
    elim (Option-cases (condition_phase c JobConditionType.failed)) [
      | inl never ↦ absurd (ground arith)
      | inr (e, made) ↦ inr (refl, e, made, ground arith)
    ]

phase-phase_from :
    (cs : List JobCondition) (d : Derived) (started : Bool)
    → d.phase ≡ (if started then running else pending)
    → (phase_from cs d).phase ≡ phase_of (deciding cs) started
unfolding phase_from
phase-phase_from [] d started h = h
phase-phase_from (c ∷ cs) d started h =
    ground (arith, phase-phase_from cs d started h, condition_phase-phase c c.kind)

-- The phase of a Task is decided by the first condition of its Job that holds and is of a known
-- kind: Completed for Complete and SuccessCriteriaMet, TimedOut for a failure by the deadline,
-- Failed for any other failure, Pending for Suspended. Without one it is Running exactly if the Job
-- has active pods or a start time, and else Pending.
pub phase-derive_phase :
    (job : Job)
    → (derive_phase job).phase
      ≡ phase_of
          (deciding job.status.conditions)
          (ltb 0 job.status.active || is_some job.status.start_time)
unfolding derive_phase
phase-derive_phase job =
    elim (Bool-cases (ltb 0 job.status.active || is_some job.status.start_time)) [
      | inl started ↦ rw started (phase-phase_from job.status.conditions _ true refl)
      | inr waiting ↦ rw waiting (phase-phase_from job.status.conditions _ false refl)
    ]

-- The three ways in which the program speaks of the end of a Task agree: the Ready condition is not
-- unknown exactly for a terminal phase, and an Event is a warning exactly for a terminal phase whose
-- Ready condition is false.
pub terminal_agrees :
    (p : TaskPhase)
    → ((is_terminal p ≡ true) ↔ (condition_status_for p ≢ is_unknown))
      × ((event_type_for p ≡ warning) ↔ (condition_status_for p ≡ is_false))
unfolding is_terminal condition_status_for event_type_for
terminal_agrees unset = ((λ h. cc, λ h. absurd (h refl)), (λ h. cc, λ h. cc))
terminal_agrees pending = ((λ h. cc, λ h. absurd (h refl)), (λ h. cc, λ h. cc))
terminal_agrees running = ((λ h. cc, λ h. absurd (h refl)), (λ h. cc, λ h. cc))
terminal_agrees completed = ((λ h. cc, λ h. refl), (λ h. cc, λ h. cc))
terminal_agrees failed = ((λ h. cc, λ h. refl), (λ h. refl, λ h. refl))
terminal_agrees timed_out = ((λ h. cc, λ h. refl), (λ h. refl, λ h. refl))
