-- ===== src/Controller/Build/Hardened.antt =====
-- The fields of the Job that buildJob makes.
use openconveyor.Prelude.{
  ℕ, ◌/◌, true, false, ◌≡◌, refl, List, [], ◌∷◌, Text, codes, subst, pos_part,
}
use openconveyor.Errors.{ok, >>=-eq-ok, ok-injective}
use openconveyor.Api.{Task, ClusterAgentClass}
use openconveyor.Kube.{Job, Container}
use openconveyor.Machinery.{Machinery}
use openconveyor.Policy.Rbac.{needs_service_account_token}
use openconveyor.Policy.Prompt.{PromptProjection, build_prompt_projection}
use openconveyor.Policy.Config.{Decoder, ConfigProjection, build_config_projection}
use openconveyor.Controller.Build.{
  build_job, assemble_job, pod_template, agent_container, container_security, pod_security,
  job_volumes, job_mounts, build_resource_requirements, build_service_account, task_resource_name,
  timeout_seconds,
}

-- No privilege that a container can give up.
pub record IsRestricted (c : Container) : Type 0 where
  pub non_root : c.security_context.run_as_non_root ≡ true
  pub user : c.security_context.run_as_user ≡ 65532
  pub read_only : c.security_context.read_only_root_filesystem ≡ true
  pub no_escalation : c.security_context.allow_privilege_escalation ≡ false
  pub no_capabilities : c.security_context.drop_capabilities ≡ codes "ALL" ∷ []
  pub seccomp : c.security_context.seccomp_profile ≡ codes "RuntimeDefault"

pub record IsHardened (task : Task) (ttl_seconds : ℕ) (job : Job) : Type 0 where
  pub container : Container
  pub one_container : job.spec.template.spec.containers ≡ container ∷ []
  pub restricted : IsRestricted container
  pub pod_non_root : job.spec.template.spec.security_context.run_as_non_root ≡ true
  pub never_restarts : job.spec.template.spec.restart_policy ≡ codes "Never"
  pub no_retries : job.spec.backoff_limit ≡ 0
  pub bounded :
      job.spec.active_deadline_seconds ≡ pos_part task.spec.resources.timeout / 1_000_000_000
  pub expires : job.spec.ttl_seconds_after_finished ≡ ttl_seconds
  pub own_account :
      job.spec.template.spec.service_account_name ≡ (build_service_account task).meta.name
  pub same_token :
      job.spec.template.spec.automount_service_account_token
      ≡ (build_service_account task).automount_token
  pub token :
      job.spec.template.spec.automount_service_account_token
      ≡ needs_service_account_token task.spec.permissions.rbac
  pub reports_in_file : container.termination_message_policy ≡ codes "File"

module _ (machinery : Machinery) (decode : Decoder) (task : Task) (agent : ClusterAgentClass)
    (secrets : List Text) (ttl_seconds : ℕ) where
  pub build_job-eq-ok :
      (job : Job)
      → build_job machinery decode task agent secrets ttl_seconds ≡ ok job
      → (prompt : PromptProjection) × (config : ConfigProjection) × (build_prompt_projection
            task.meta.name task.spec.prompt agent.spec.inputs
          ≡ ok prompt)
        × (build_config_projection decode task.meta.name task.spec.agent.config agent.spec.inputs
            ≡ ok config)
        × (job.spec.template.spec.volumes ≡ job_volumes secrets prompt config)
        × ((container : Container) × (job.spec.template.spec.containers ≡ container ∷ [])
            × (container.volume_mounts ≡ job_mounts secrets prompt config)
            × (container.env ≡ config.env))
        × IsHardened task ttl_seconds job
  unfolding build_job assemble_job pod_template agent_container container_security pod_security
      build_service_account task_resource_name timeout_seconds
  build_job-eq-ok job h =
      let (prompt, prompted, rest) =
        >>=-eq-ok (build_prompt_projection task.meta.name task.spec.prompt agent.spec.inputs) _ h in
      let (config, configured, rest') =
        >>=-eq-ok
          (build_config_projection decode task.meta.name task.spec.agent.config agent.spec.inputs) _
          rest in
      let (resources, required, made) =
        >>=-eq-ok (build_resource_requirements machinery task.spec.resources) _ rest' in
      subst
        (λ (j : Job).
          (prompt : PromptProjection) × (config : ConfigProjection) × (build_prompt_projection
              task.meta.name task.spec.prompt agent.spec.inputs
            ≡ ok prompt)
          × (build_config_projection decode task.meta.name task.spec.agent.config agent.spec.inputs
              ≡ ok config)
          × (j.spec.template.spec.volumes ≡ job_volumes secrets prompt config)
          × ((container : Container) × (j.spec.template.spec.containers ≡ container ∷ [])
              × (container.volume_mounts ≡ job_mounts secrets prompt config)
              × (container.env ≡ config.env))
          × IsHardened task ttl_seconds j)
        (ok-injective _ job made)
        (
          prompt,
          config,
          prompted,
          configured,
          refl,
          (_, refl, refl, refl),
          record {
            container = _;
            one_container = refl;
            restricted = record {
              non_root = refl;
              user = refl;
              read_only = refl;
              no_escalation = refl;
              no_capabilities = refl;
              seccomp = refl;
            };
            pod_non_root = refl;
            never_restarts = refl;
            no_retries = refl;
            bounded = refl;
            expires = refl;
            own_account = refl;
            same_token = refl;
            token = refl;
            reports_in_file = refl;
          },
        )
