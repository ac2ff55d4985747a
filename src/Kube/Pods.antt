-- ===== src/Kube/Pods.antt =====
-- corev1 and batchv1: volumes, containers, pods and jobs.
use openconveyor.Prelude.{ℕ, Option, Text, Map, List, Bool}
use package.openconveyor.Kube.Meta.{ObjectMeta, ConditionStatus, Time}

pub data VolumeSource : Type 0 where
  empty_dir : VolumeSource
  from_config_map : (name : Text) → VolumeSource
  from_secret : (name : Text) → VolumeSource

pub record Volume : Type 0 where
  pub name : Text
  pub source : VolumeSource

pub record VolumeMount : Type 0 where
  pub name : Text
  pub mount_path : Text
  pub sub_path : Text
  pub read_only : Bool

pub record EnvVar : Type 0 where
  pub name : Text
  pub value : Text

-- corev1.SecurityContext with its pointers set
pub record SecurityContext : Type 0 where
  pub run_as_non_root : Bool
  pub run_as_user : ℕ
  pub run_as_group : ℕ
  pub read_only_root_filesystem : Bool
  pub allow_privilege_escalation : Bool
  pub drop_capabilities : List Text
  pub seccomp_profile : Text

pub record PodSecurityContext : Type 0 where
  pub run_as_non_root : Bool
  pub run_as_user : ℕ
  pub run_as_group : ℕ
  pub seccomp_profile : Text

-- The quantities of corev1.ResourceRequirements, by resource name.
pub record ResourceRequirements : Type 0 where
  pub requests : Map ℕ
  pub limits : Map ℕ

pub record Container : Type 0 where
  pub name : Text
  pub image : Text
  pub image_pull_policy : Text
  pub command : List Text
  pub args : List Text
  pub env : List EnvVar
  pub resources : ResourceRequirements
  pub security_context : SecurityContext
  pub volume_mounts : List VolumeMount
  pub termination_message_path : Text
  pub termination_message_policy : Text

pub record PodSpec : Type 0 where
  pub restart_policy : Text
  pub service_account_name : Text
  pub automount_service_account_token : Bool
  pub security_context : PodSecurityContext
  pub containers : List Container
  pub volumes : List Volume

pub record PodTemplate : Type 0 where
  pub labels : Map Text
  pub spec : PodSpec

pub record JobSpec : Type 0 where
  pub backoff_limit : ℕ
  pub active_deadline_seconds : ℕ
  pub ttl_seconds_after_finished : ℕ
  pub template : PodTemplate

pub data JobConditionType : Type 0 where
  complete success_criteria_met failed suspended other : JobConditionType

pub record JobCondition : Type 0 where
  pub kind : JobConditionType
  pub status : ConditionStatus
  pub reason : Text
  pub message : Text

pub record JobStatus : Type 0 where
  pub conditions : List JobCondition
  pub active : ℕ
  pub start_time : Option Time
  pub completion_time : Option Time

pub record Job : Type 0 where
  pub meta : ObjectMeta
  pub spec : JobSpec
  pub status : JobStatus

-- corev1.ContainerStatus: the message of a terminated container
pub record ContainerStatus : Type 0 where
  pub name : Text
  pub terminated : Option Text

pub record Pod : Type 0 where
  pub meta : ObjectMeta
  pub container_statuses : List ContainerStatus

pub record ServiceAccount : Type 0 where
  pub meta : ObjectMeta
  pub automount_token : Bool

pub record ConfigMap : Type 0 where
  pub meta : ObjectMeta
  pub contents : Map Text
