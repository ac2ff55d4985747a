-- ===== src/Controller/Phase/Comparison.antt =====
-- What equalStatus means: it decides whether a status write may be skipped.
use openconveyor.Prelude.{
  true, ◌≡◌, refl, Option, none, some, List, [], ◌∷◌, ◌↔◌, text_eq_iff, length, arith,
}
use openconveyor.Api.{TaskStatus, TaskPhase, phase_eq}
use openconveyor.Kube.{Time, Condition, ConditionStatus}
use openconveyor.Machinery.{Machinery}
use openconveyor.Controller.Phase.{
  times_equal, condition_status_eq, condition_matches, conditions_match, equal_status,
}

pub phase_eq_iff : (a b : TaskPhase) → (phase_eq a b ≡ true) ↔ (a ≡ b)
unfolding phase_eq
phase_eq_iff a b = ground arith

times_equal_iff : (a b : Option Time) → (times_equal a b ≡ true) ↔ (a ≡ b)
unfolding times_equal
times_equal_iff none none = ground arith
times_equal_iff (some a) (some b) = ground arith
times_equal_iff none (some b) = ground arith
times_equal_iff (some a) none = ground arith

condition_status_eq_iff : (a b : ConditionStatus) → (condition_status_eq a b ≡ true) ↔ (a ≡ b)
unfolding condition_status_eq
condition_status_eq_iff a b = ground arith

module _ (machinery : Machinery) where
  -- The statuses agree in every field; each condition of the first is found in the second by its
  -- type, with the same status, reason, message and generation.
  abbrev Found : List Condition → List Condition → Type 0
  Found [] bs = Unit
  Found (a ∷ rest) bs =
      ((b : Condition) × (machinery.find bs a.kind ≡ some b)
        × (a.status ≡ b.status)
        × (a.reason ≡ b.reason)
        × (a.message ≡ b.message)
        × (a.observed_generation ≡ b.observed_generation))
      × Found rest bs

  condition_matches_sound :
      (a : Condition) (o : Option Condition)
      → condition_matches machinery a o ≡ true
      → (b : Condition) × (o ≡ some b)
        × (a.status ≡ b.status)
        × (a.reason ≡ b.reason)
        × (a.message ≡ b.message)
        × (a.observed_generation ≡ b.observed_generation)
  unfolding condition_matches
  condition_matches_sound a none h = cc
  condition_matches_sound a (some b) h = (
    b,
    refl,
    ground (arith, condition_status_eq_iff a.status b.status),
    ground (arith, text_eq_iff a.reason b.reason),
    ground (arith, text_eq_iff a.message b.message),
    ground arith,
  )

  conditions_match-Found :
      (xs bs : List Condition) → conditions_match machinery xs bs ≡ true → Found xs bs
  unfolding conditions_match
  conditions_match-Found [] bs h = tt
  conditions_match-Found (a ∷ xs) bs h = (
    condition_matches_sound a (machinery.find bs a.kind) (ground arith),
    conditions_match-Found xs bs (ground arith),
  )

  -- What two statuses that count as equal have in common.
  pub record Agree (a b : TaskStatus) : Type 0 where
    pub phase : a.phase ≡ b.phase
    pub job_name : a.job_name ≡ b.job_name
    pub observed_generation : a.observed_generation ≡ b.observed_generation
    pub start_time : a.start_time ≡ b.start_time
    pub completion_time : a.completion_time ≡ b.completion_time
    pub task_result : a.task_result ≡ b.task_result
    pub condition_count : length a.conditions ≡ length b.conditions
    pub conditions : Found a.conditions b.conditions

  equal_status-Agree : (a b : TaskStatus) → equal_status machinery a b ≡ true → Agree a b
  unfolding equal_status
  equal_status-Agree a b h = record {
    phase = ground (arith, phase_eq_iff a.phase b.phase);
    job_name = ground (arith, text_eq_iff a.job_name b.job_name);
    observed_generation = ground arith;
    start_time = ground (arith, times_equal_iff a.start_time b.start_time);
    completion_time = ground (arith, times_equal_iff a.completion_time b.completion_time);
    task_result = ground (arith, machinery.same_result_iff a.task_result b.task_result);
    condition_count = ground arith;
    conditions = conditions_match-Found a.conditions b.conditions (ground arith);
  }

  conditions_match_complete :
      (xs bs : List Condition) → Found xs bs → conditions_match machinery xs bs ≡ true
  unfolding conditions_match condition_matches
  conditions_match_complete [] bs h = refl
  conditions_match_complete (a ∷ xs) bs ((b, found, st, re, me, og), h) = ground (
    arith,
    conditions_match_complete xs bs h,
    condition_status_eq_iff a.status b.status,
    text_eq_iff a.reason b.reason,
    text_eq_iff a.message b.message,
  )

  -- equalStatus is exact: the write is skipped if and only if the two statuses agree in the phase,
  -- the Job name, the generation, the times and the Result, have as many conditions, and each
  -- condition of the first is in the second with the same status, reason, message and generation.
  pub equal_status_iff : (a b : TaskStatus) → (equal_status machinery a b ≡ true) ↔ Agree a b
  unfolding equal_status
  equal_status_iff a b = (equal_status-Agree a b, λ h. equal_status_of a b h)
    where
      equal_status_of : (a b : TaskStatus) → Agree a b → equal_status machinery a b ≡ true
      equal_status_of a b h = ground (
        arith,
        phase_eq_iff a.phase b.phase,
        text_eq_iff a.job_name b.job_name,
        times_equal_iff a.start_time b.start_time,
        times_equal_iff a.completion_time b.completion_time,
        machinery.same_result_iff a.task_result b.task_result,
        conditions_match_complete a.conditions b.conditions h.conditions,
        h.phase,
        h.job_name,
        h.observed_generation,
        h.start_time,
        h.completion_time,
        h.task_result,
        h.condition_count,
      )
