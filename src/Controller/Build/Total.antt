-- ===== src/Controller/Build/Total.antt =====
-- What can go wrong with the Job of a validated Task.
use openconveyor.Prelude.{ℕ, true, ◌≡◌, ap, none, inl, inr, List, Text, is_empty, arith, codes}
use openconveyor.Errors.{Err, ok, err, is_ok, is_permanent, >>=-eq-err}
use openconveyor.Api.{Task, ClusterAgentClass, PromptSource}
use openconveyor.Machinery.{Machinery}
use openconveyor.Policy.Prompt.{build_prompt_projection}
use openconveyor.Policy.Prompt.Delivery.{build_prompt_projection-eq-err}
use openconveyor.Policy.Config.{Decoder, build_config_projection}
use openconveyor.Policy.Config.Variables.{build_config_projection-permanent}
use openconveyor.Controller.Validate.{source_count, validate_task}
use openconveyor.Controller.Validate.Accepts.{IsValid, quantity_ok, validate_task_iff}
use openconveyor.Controller.Build.{
  build_job, quantity_list, quantity_entry, build_resource_requirements,
}

quantity_list-eq-err :
    (machinery : Machinery) (name format q : Text) (e : Err)
    → quantity_ok machinery q ≡ true
    → quantity_list machinery name format q ≡ err e
    → ⊥
unfolding quantity_list quantity_entry
quantity_list-eq-err machinery name format q e v h = ground arith

module _ (machinery : Machinery) (task : Task) (valid : IsValid machinery task) where
  resources_never_fail :
      (e : Err) → build_resource_requirements machinery task.spec.resources ≡ err e → ⊥
  unfolding build_resource_requirements
  resources_never_fail e h =
      elim (>>=-eq-err
        (quantity_list machinery (codes "cpu") (codes "spec.resources.cpu %q: %w")
          task.spec.resources.cpu)
        _ h) [
          | inl failed ↦
              quantity_list-eq-err machinery _ _ task.spec.resources.cpu e valid.cpu failed
          | inr (cpu, first, rest) ↦
              elim (>>=-eq-err
                (quantity_list machinery (codes "memory") (codes "spec.resources.memory %q: %w")
                  task.spec.resources.memory)
                _ rest) [
                  | inl failed ↦
                      quantity_list-eq-err machinery _ _ task.spec.resources.memory e valid.memory
                        failed
                  | inr (memory, second, made) ↦ cc
                ]
        ]

  prompt_never_fails :
      (agent : ClusterAgentClass) (e : Err)
      → build_prompt_projection task.meta.name task.spec.prompt agent.spec.inputs ≡ err e
      → ⊥
  unfolding source_count
  prompt_never_fails agent e h =
      let (mounted, inline, config_map, secret, perm) =
        build_prompt_projection-eq-err task.meta.name task.meta.namespace task.spec.prompt
          agent.spec.inputs e h in
      no_source task.spec.prompt valid.one_source inline config_map secret
    where
      no_source :
          (p : PromptSource)
          → source_count p ≡ 1
          → is_empty p.inline ≡ true
          → p.config_map_ref ≡ none
          → p.secret_ref ≡ none
          → ⊥
      no_source p c i m s = ground arith

  valid-permanent :
      (decode : Decoder) (agent : ClusterAgentClass) (secrets : List Text) (ttl_seconds : ℕ)
      (e : Err)
      → build_job machinery decode task agent secrets ttl_seconds ≡ err e
      → (build_config_projection decode task.meta.name task.spec.agent.config agent.spec.inputs
          ≡ err e)
        × (is_permanent e ≡ true)
  unfolding build_job
  valid-permanent decode agent secrets ttl_seconds e h =
      elim (>>=-eq-err (build_prompt_projection task.meta.name task.spec.prompt agent.spec.inputs) _
        h) [
          | inl failed ↦ absurd (prompt_never_fails agent e failed)
          | inr (prompt, prompted, rest) ↦
              elim (>>=-eq-err
                (build_config_projection decode task.meta.name task.spec.agent.config
                  agent.spec.inputs)
                _ rest) [
                  | inl failed ↦ (
                    failed,
                    build_config_projection-permanent decode task.meta.name task.spec.agent.config
                        agent.spec.inputs e failed,
                  )
                  | inr (config, configured, rest') ↦
                      elim (>>=-eq-err (build_resource_requirements machinery task.spec.resources) _
                        rest') [
                          | inl failed ↦ absurd (resources_never_fail e failed)
                          | inr (resources, required, made) ↦ cc
                        ]
                ]
        ]

-- For a Task that validateTask accepts, buildJob fails only over the agent config, and then with a
-- permanent error.
pub build_job-permanent :
    (machinery : Machinery) (task : Task)
    → validate_task machinery task ≡ ok tt
    → (decode : Decoder) (agent : ClusterAgentClass) (secrets : List Text) (ttl_seconds : ℕ)
      (e : Err)
    → build_job machinery decode task agent secrets ttl_seconds ≡ err e
    → (build_config_projection decode task.meta.name task.spec.agent.config agent.spec.inputs
        ≡ err e)
      × (is_permanent e ≡ true)
build_job-permanent machinery task accepted =
    valid-permanent machinery task ((validate_task_iff machinery task).0 (ap is_ok accepted))
