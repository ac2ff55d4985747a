-- ===== src/Controller/Build/Named.antt =====
-- The name of the Job of a Task and the labels of its pods.
use openconveyor.Prelude.{ℕ, ◌≡◌, refl, subst, List, Text}
use openconveyor.Errors.{ok, >>=-eq-ok, ok-injective}
use openconveyor.Kube.{Job}
use openconveyor.Api.{Task, ClusterAgentClass}
use openconveyor.Machinery.{Machinery}
use openconveyor.Policy.Prompt.{build_prompt_projection}
use openconveyor.Policy.Config.{Decoder, build_config_projection}
use openconveyor.Controller.Build.{
  build_job, assemble_job, build_resource_requirements, task_resource_name, pod_labels,
  pod_template,
}

-- The Job has the name and the namespace by which the Task finds it again, and its pods the labels.
pub build_job-named :
    (machinery : Machinery) (decode : Decoder) (task : Task) (agent : ClusterAgentClass)
    (secrets : List Text) (ttl_seconds : ℕ) (job : Job)
    → build_job machinery decode task agent secrets ttl_seconds ≡ ok job
    → (job.meta.name ≡ task_resource_name task)
      × (job.meta.namespace ≡ task.meta.namespace)
      × (job.spec.template.labels ≡ pod_labels task)
unfolding build_job assemble_job pod_template
build_job-named machinery decode task agent secrets ttl_seconds job h =
    let (prompt, prompted, rest) =
      >>=-eq-ok (build_prompt_projection task.meta.name task.spec.prompt agent.spec.inputs) _ h in
    let (config, configured, rest') =
      >>=-eq-ok
        (build_config_projection decode task.meta.name task.spec.agent.config agent.spec.inputs) _
        rest in
    let (resources, required, made) =
      >>=-eq-ok (build_resource_requirements machinery task.spec.resources) _ rest' in
    subst
      (λ (j : Job).
        (j.meta.name ≡ task_resource_name task)
        × (j.meta.namespace ≡ task.meta.namespace)
        × (j.spec.template.labels ≡ pod_labels task))
      (ok-injective _ job made) (refl, refl, refl)

pub build_job-name :
    (machinery : Machinery) (decode : Decoder) (task : Task) (agent : ClusterAgentClass)
    (secrets : List Text) (ttl_seconds : ℕ) (job : Job)
    → build_job machinery decode task agent secrets ttl_seconds ≡ ok job
    → (job.meta.name ≡ task_resource_name task) × (job.meta.namespace ≡ task.meta.namespace)
build_job-name machinery decode task agent secrets ttl_seconds job h =
    let (name, namespace, labels) =
      build_job-named machinery decode task agent secrets ttl_seconds job h in
    (name, namespace)
