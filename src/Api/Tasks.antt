-- ===== src/Api/Tasks.antt =====
-- api/v1alpha1/task_types.go: the Task, its spec and its status.
use openconveyor.Prelude.{ℕ, ℤ, Bool, true, false, Option, Text, List}
use openconveyor.Kube.{ObjectMeta, KeySelector, Condition, Time}

-- The phase of a Task; `unset` is the empty string of a Task that no reconcile has written.
pub data TaskPhase : Type 0 where
  unset pending running completed failed timed_out : TaskPhase

-- spec.agent; `config` holds the raw JSON of the extension.
pub record AgentRef : Type 0 where
  pub ref : Text
  pub config : Option Text

pub record PromptSource : Type 0 where
  pub inline : Text
  pub secret_ref : Option KeySelector
  pub config_map_ref : Option KeySelector

pub record RbacRule : Type 0 where
  pub api_groups : List Text
  pub resources : List Text
  pub verbs : List Text
  pub resource_names : List Text

-- A port is a number from 1 to 65535, as the CRD demands.
pub record Permissions : Type 0 where
  pub secrets : List Text
  pub egress : List Text
  pub egress_ports : List ℕ
  pub rbac : List RbacRule

-- The timeout is a duration in nanoseconds.
pub record TaskResources : Type 0 where
  pub cpu : Text
  pub memory : Text
  pub timeout : ℤ

-- The TTL is a number of seconds, at least 0, as the CRD demands.
pub record TaskSpec : Type 0 where
  pub agent : AgentRef
  pub prompt : PromptSource
  pub permissions : Permissions
  pub resources : TaskResources
  pub ttl_seconds_after_finished : Option ℕ

pub record ResultLink : Type 0 where
  pub name : Text
  pub url : Text

pub record TaskResult : Type 0 where
  pub summary : Text
  pub links : List ResultLink

pub record TaskStatus : Type 0 where
  pub phase : TaskPhase
  pub observed_generation : ℕ
  pub job_name : Text
  pub start_time : Option Time
  pub completion_time : Option Time
  pub task_result : Option TaskResult
  pub conditions : List Condition

pub record Task : Type 0 where
  pub meta : ObjectMeta
  pub spec : TaskSpec
  pub status : TaskStatus

-- a == b on phases
unfoldable pub phase_eq : TaskPhase → TaskPhase → Bool
phase_eq unset unset = true
phase_eq pending pending = true
phase_eq running running = true
phase_eq completed completed = true
phase_eq failed failed = true
phase_eq timed_out timed_out = true
phase_eq _ _ = false
