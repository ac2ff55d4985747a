-- ===== src/Controller/Build.antt =====
-- internal/controller/build.go: the ServiceAccount and the Job of a Task.
pub mod Hardened
pub mod Named
pub mod Volumes
pub mod Total
use openconveyor.Prelude.{
  ℕ, zero, suc, ◌/◌, ◌&&◌, Bool, true, false, Option, none, some, List, [], ◌∷◌, ◌++◌, Text, codes,
  Map, copy, store, is_empty, pos_part, if◌then◌else◌,
}
use openconveyor.Errors.{Err, wrap, permanent, Result, ok, err, ◌>>=◌}
use openconveyor.Api.{Task, TaskResources, ClusterAgentClass}
use openconveyor.Kube.{
  ObjectMeta, empty_meta, ServiceAccount, Volume, empty_dir, VolumeMount, EnvVar,
  ResourceRequirements, SecurityContext, PodSecurityContext, Container, PodSpec, PodTemplate, Job,
  JobSpec, JobStatus,
}
use openconveyor.Machinery.{Machinery}
use openconveyor.Policy.Labels.{
  label_component, component_task, ownership_labels, pod_selector_labels,
}
use openconveyor.Policy.Rbac.{needs_service_account_token}
use openconveyor.Policy.Secrets.{build_secret_volumes}
use openconveyor.Policy.Prompt.{PromptProjection, build_prompt_projection}
use openconveyor.Policy.Config.{Decoder, ConfigProjection, build_config_projection}

abbrev pub non_root_uid : ℕ
non_root_uid = 65532

abbrev pub default_job_ttl_seconds : ℕ
default_job_ttl_seconds = 3600

abbrev pub scratch_volume_name : Text
scratch_volume_name = codes "scratch"

abbrev pub agent_container_name : Text
agent_container_name = codes "agent"

abbrev pub termination_message_path : Text
termination_message_path = codes "/dev/termination-log"

unfoldable pub task_resource_name : Task → Text
task_resource_name task = task.meta.name

-- ownershipLabels of the controller: the labels of the policy package and the component.
unfoldable pub task_labels : Task → Map Text
task_labels task = store label_component component_task (ownership_labels task.meta.name)

unfoldable pub pod_labels : Task → Map Text
unfolding task_labels
pod_labels task = copy (task_labels task) (pod_selector_labels task.meta.name)

unfoldable pub build_service_account : Task → ServiceAccount
build_service_account task = record {
  meta = record empty_meta {
    name = task_resource_name task;
    namespace = task.meta.namespace;
    labels = task_labels task;
  };
  automount_token = needs_service_account_token task.spec.permissions.rbac;
}

-- One quantity of the resource list, if the Task declares it.
quantity_entry : Text → Text → Text → Result ℕ → Result (Map ℕ)
quantity_entry name format q (ok n) = ok ((name, n) ∷ [])
quantity_entry name format q (err e) = err (permanent (wrap format (q ∷ []) e))

quantity_list : Machinery → Text → Text → Text → Result (Map ℕ)
unfolding quantity_entry
quantity_list machinery name format q =
    if is_empty q then ok [] else quantity_entry name format q (machinery.parse_quantity q)

unfoldable pub build_resource_requirements : Machinery → TaskResources → Result ResourceRequirements
unfolding quantity_list
build_resource_requirements machinery r = do
  cpu ← quantity_list machinery (codes "cpu") (codes "spec.resources.cpu %q: %w") r.cpu
  memory ← quantity_list machinery (codes "memory") (codes "spec.resources.memory %q: %w") r.memory
  ok (record { requests = cpu ++ memory; limits = cpu ++ memory })

abbrev pub as_list {ℓ} : {A : Type ℓ} → Option A → List A
as_list none = []
as_list (some a) = a ∷ []

-- int64(timeout.Seconds()) of a positive timeout
unfoldable pub timeout_seconds : TaskResources → ℕ
timeout_seconds r = pos_part r.timeout / 1_000_000_000

abbrev runtime_default : Text
runtime_default = codes "RuntimeDefault"

container_security : SecurityContext
container_security = record {
  run_as_non_root = true;
  run_as_user = non_root_uid;
  run_as_group = non_root_uid;
  read_only_root_filesystem = true;
  allow_privilege_escalation = false;
  drop_capabilities = codes "ALL" ∷ [];
  seccomp_profile = runtime_default;
}

pod_security : PodSecurityContext
pod_security = record {
  run_as_non_root = true;
  run_as_user = non_root_uid;
  run_as_group = non_root_uid;
  seccomp_profile = runtime_default;
}

-- cmp.Or(policy, "IfNotPresent")
unfoldable pub pull_policy : Text → Text
pull_policy p = if is_empty p then codes "IfNotPresent" else p

unfoldable pub job_volumes : List Text → PromptProjection → ConfigProjection → List Volume
job_volumes secrets prompt config =
    record { name = scratch_volume_name; source = empty_dir } ∷ (build_secret_volumes secrets).0
    ++ as_list prompt.volume
    ++ as_list config.volume

unfoldable pub job_mounts : List Text → PromptProjection → ConfigProjection → List VolumeMount
job_mounts secrets prompt config =
    record {
      name = scratch_volume_name;
      mount_path = codes "/tmp";
      sub_path = [];
      read_only = false;
    }
      ∷ (build_secret_volumes secrets).1
    ++ as_list prompt.mount
    ++ as_list config.mount

agent_container :
    ClusterAgentClass → List EnvVar → ResourceRequirements → List VolumeMount → Container
unfolding container_security
agent_container agent env resources mounts = record {
  name = agent_container_name;
  image = agent.spec.image;
  image_pull_policy = pull_policy agent.spec.image_pull_policy;
  command = agent.spec.command;
  args = agent.spec.args;
  env = env;
  resources = resources;
  security_context = container_security;
  volume_mounts = mounts;
  termination_message_path = termination_message_path;
  termination_message_policy = codes "File";
}

pod_template : Task → Container → List Volume → PodTemplate
unfolding pod_security
pod_template task container volumes = record {
  labels = pod_labels task;
  spec = record {
    restart_policy = codes "Never";
    service_account_name = task_resource_name task;
    automount_service_account_token = needs_service_account_token task.spec.permissions.rbac;
    security_context = pod_security;
    containers = container ∷ [];
    volumes = volumes;
  };
}

-- The status of a Job that the API server has not seen.
abbrev pub empty_job_status : JobStatus
empty_job_status = record { conditions = []; active = 0; start_time = none; completion_time = none }

assemble_job :
    Task
    → ClusterAgentClass
    → List Text
    → ℕ
    → PromptProjection
    → ConfigProjection
    → ResourceRequirements
    → Job
unfolding pod_template agent_container
assemble_job task agent secrets ttl_seconds prompt config resources = record {
  meta = record empty_meta {
    name = task_resource_name task;
    namespace = task.meta.namespace;
    labels = task_labels task;
  };
  spec = record {
    backoff_limit = 0;
    active_deadline_seconds = timeout_seconds task.spec.resources;
    ttl_seconds_after_finished = ttl_seconds;
    template =
        pod_template task
          (agent_container agent config.env resources (job_mounts secrets prompt config))
          (job_volumes secrets prompt config);
  };
  status = empty_job_status;
}

unfoldable pub build_job :
    Machinery → Decoder → Task → ClusterAgentClass → List Text → ℕ → Result Job
unfolding assemble_job
build_job machinery decode task agent secrets ttl_seconds = do
  prompt ← build_prompt_projection task.meta.name task.spec.prompt agent.spec.inputs
  config ← build_config_projection decode task.meta.name task.spec.agent.config agent.spec.inputs
  resources ← build_resource_requirements machinery task.spec.resources
  ok (assemble_job task agent secrets ttl_seconds prompt config resources)
