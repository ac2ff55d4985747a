-- ===== src/Examples/Tasks.antt =====
-- The theorems on phases, deadlines, validation and Jobs, on one Task.
use openconveyor.Prelude.{
  true, ◌≡◌, refl, ◌↔◌, ◌||◌, none, some, List, [], ◌∷◌, Text, codes, text_eq, text_le, sort,
  lookup, Distinct, is_some, ltb,
}
use openconveyor.Errors.{Err, ok, err, is_permanent, new, wrap, permanent}
use openconveyor.Kube.{Job, JobConditionType, is_true, Container}
use openconveyor.Api.{Task}
use openconveyor.Policy.Config.{
  build_config_projection, decode_config_object, env_value, is_env_name, keys,
}
use openconveyor.Policy.Prompt.{build_prompt_projection}
use openconveyor.Policy.Secrets.Mounts.{volume_names, mount_names}
use openconveyor.Controller.Phase.{derive_phase, equal_status}
use openconveyor.Controller.Phase.Lifecycle.{phase_of, deciding, phase-derive_phase}
use openconveyor.Controller.Phase.Comparison.{Agree, equal_status_iff}
use openconveyor.Controller.Validate.{source_count, validate_task}
use openconveyor.Controller.Build.{build_job, build_resource_requirements}
use openconveyor.Controller.Build.Volumes.{job_volumes_lem}
use openconveyor.Controller.Build.Total.{build_job-permanent}
use openconveyor.Examples.Instances.{task, agent, small_decoder}
use openconveyor.Examples.Conditions.{machinery}

abbrev pub secrets : List Text
secrets = codes "token" ∷ codes "agent" ∷ []

secrets-Distinct_here : Distinct secrets
unfolding text_eq
secrets-Distinct_here = (refl, (refl, tt))

-- buildJob makes a Job of the Task.
pub built :
    (job : Job) × (container : Container) × (build_job machinery small_decoder task agent secrets
        3600
      ≡ ok job)
    × (job.spec.template.spec.containers ≡ container ∷ [])
unfolding build_job build_prompt_projection build_config_projection decode_config_object env_value
    is_env_name keys lookup sort text_eq text_le machinery build_resource_requirements
built = (_, _, refl, refl)

job_volumes_lem_example :
    (mount_names built.1.volume_mounts ≡ volume_names built.0.spec.template.spec.volumes)
    × Distinct (volume_names built.0.spec.template.spec.volumes)
job_volumes_lem_example =
    job_volumes_lem machinery small_decoder task agent secrets 3600 built.0 built.1
      secrets-Distinct_here built.2 built.3

-- The Task with a config that is no JSON object.
abbrev bad_task : Task
bad_task = record task {
  spec = record task.spec { agent = record { ref = codes "coder"; config = some (codes "x") } };
}

bad_task_accepted : validate_task machinery bad_task ≡ ok tt
unfolding validate_task source_count
bad_task_accepted = refl

abbrev json_error : Err
json_error = permanent (
    wrap (codes "spec.agent.config: %w") []
      (wrap (codes "must be a JSON object: %w") [] (new (codes "invalid character") [])))

bad_job : build_job machinery small_decoder bad_task agent secrets 3600 ≡ err json_error
unfolding build_job build_prompt_projection build_config_projection decode_config_object text_eq
bad_job = refl

build_job-permanent_example :
    (build_config_projection small_decoder bad_task.meta.name bad_task.spec.agent.config
        agent.spec.inputs
      ≡ err json_error)
    × (is_permanent json_error ≡ true)
build_job-permanent_example =
    build_job-permanent machinery bad_task bad_task_accepted small_decoder agent secrets 3600
      json_error bad_job

abbrev late_job : Job
late_job = record {
  meta = task.meta;
  spec = built.0.spec;
  status = record {
    conditions =
        record {
          kind = JobConditionType.failed;
          status = is_true;
          reason = codes "DeadlineExceeded";
          message = [];
        }
        ∷ [];
    active = 0;
    start_time = some 5;
    completion_time = none;
  };
}

phase-derive_phase_example :
    (derive_phase late_job).phase
    ≡ phase_of
        (deciding late_job.status.conditions)
        (ltb 0 late_job.status.active || is_some late_job.status.start_time)
phase-derive_phase_example = phase-derive_phase late_job

equal_status_iff_example :
    (equal_status machinery task.status task.status ≡ true)
    ↔ Agree machinery task.status task.status
equal_status_iff_example = equal_status_iff machinery task.status task.status
