-- ===== src/Controller/Provision/Single.antt =====
-- A Job that exists, through the steps of a reconcile.
use openconveyor.Prelude.{ℕ, ◌∙◌}
use openconveyor.Errors.{Err, Result, ok, err}
use openconveyor.Net.{Net}
use openconveyor.Kube.{Job}
use openconveyor.Api.{Task, ClusterAgentClass}
use openconveyor.Machinery.{Machinery}
use openconveyor.Policy.Egress.{Resolver}
use openconveyor.Policy.Config.{Decoder}
use openconveyor.Controller.Cluster.{Run}
use openconveyor.Controller.Ensure.{
  account_kind, role_kind, binding_kind, policy_kind, config_map_kind, resource_key,
  ensure_service_account, ensure_role, ensure_role_binding, ensure_network_policy,
  ensure_prompt_config_map, ensure_agent_config_map, ensure_job,
}
use openconveyor.Controller.Ensure.Lasting.{
  Spares, ensure_service_account-Lasts, ensure_role-Lasts, ensure_role_binding-Lasts,
  ensure_network_policy-Lasts, ensure_prompt_config_map-Lasts, ensure_agent_config_map-Lasts,
}
use openconveyor.Controller.Ensure.Quiet.{
  QuietRun, ensure_service_account-QuietRun, ensure_role-QuietRun, ensure_role_binding-QuietRun,
  ensure_network_policy-QuietRun, ensure_prompt_config_map-QuietRun,
  ensure_agent_config_map-QuietRun,
}
use openconveyor.Controller.Ensure.Single.{HoldsJob, Kept, Clean, Clean-Kept, ensure_job-Kept}
use openconveyor.Controller.Provision.{
  Provision, Clients, effective_egress, effective_secrets, after_step, after_job, job_step,
  maps_steps, policy_step, provision,
}

module _ {W : Type 0} (I : W → Type 0) where
  -- No call for another kind of object ends the property.
  pub record SparesJob (clients : Clients W) : Type 0 where
    pub accounts : Spares I account_kind clients.accounts
    pub roles : Spares I role_kind clients.roles
    pub bindings : Spares I binding_kind clients.bindings
    pub policies : Spares I policy_kind clients.policies
    pub maps : Spares I config_map_kind clients.maps

  module _ (clients : Clients W) (spares : SparesJob clients) (net : Net) (resolver : Resolver)
      (machinery : Machinery) (decode : Decoder) (ttl_seconds : ℕ) (task : Task)
      (agent : ClusterAgentClass) (holds : HoldsJob I clients.jobs (resource_key task))
      (H : Type 0) where
    abbrev Keeps : Provision × Run W → Type 0
    Keeps p = Kept I H p.1

    after_step-Keeps :
        (failure : Err → Provision) (rest : Run W → Provision × Run W) (run : Run W)
        (r : Result (Unit {0}) × Run W)
        → Clean I H run
        → QuietRun run.log r
        → (I run.world → I r.1.world)
        → ((next : Run W) → Clean I H next → Keeps (rest next))
        → Keeps (after_step failure rest r)
    unfolding after_step
    after_step-Keeps failure rest run (ok u, next) c q i k =
        k next (record { clean = q.jobs ∙ c.clean; lasts = λ h. i (c.lasts h) })
    after_step-Keeps failure rest run (err e, next) c q i k =
        Clean-Kept I H next (record { clean = q.jobs ∙ c.clean; lasts = λ h. i (c.lasts h) })

    after_job-Keeps : (r : Result Job × Run W) → Kept I H r.1 → Keeps (after_job r)
    unfolding after_job
    after_job-Keeps (ok job, next) k = k
    after_job-Keeps (err e, next) k = k

    job_step-Keeps :
        (run : Run W)
        → Clean I H run
        → Keeps (job_step clients net resolver machinery decode ttl_seconds task agent run)
    unfolding job_step
    job_step-Keeps run c =
        let secrets = effective_secrets task agent in
        after_job-Keeps
          (ensure_job clients.jobs machinery decode task agent secrets ttl_seconds run)
          (ensure_job-Kept I clients.jobs machinery decode task agent secrets ttl_seconds holds H
            run c)

    maps_steps-Keeps :
        (run : Run W)
        → Clean I H run
        → Keeps (maps_steps clients net resolver machinery decode ttl_seconds task agent run)
    unfolding maps_steps
    maps_steps-Keeps run c =
        after_step-Keeps _ _ run (ensure_prompt_config_map clients.maps task run) c
          (ensure_prompt_config_map-QuietRun task run clients.maps)
          (ensure_prompt_config_map-Lasts I task clients.maps spares.maps run)
          (λ r c'.
            after_step-Keeps _ _ r (ensure_agent_config_map clients.maps task agent r) c'
              (ensure_agent_config_map-QuietRun task r clients.maps agent)
              (ensure_agent_config_map-Lasts I task clients.maps agent spares.maps r)
              job_step-Keeps)

    policy_step-Keeps :
        (run : Run W)
        → Clean I H run
        → Keeps (policy_step clients net resolver machinery decode ttl_seconds task agent run)
    unfolding policy_step
    policy_step-Keeps run c =
        let egress = effective_egress task agent in
        after_step-Keeps _ _ run
          (ensure_network_policy clients.policies net resolver task egress run) c
          (ensure_network_policy-QuietRun task run clients.policies net resolver egress)
          (ensure_network_policy-Lasts I task clients.policies net resolver egress spares.policies
            run)
          maps_steps-Keeps

    -- Until the Job step, no Job is made, and there none while one is known.
    pub provision-Keeps :
        (run : Run W)
        → Clean I H run
        → Keeps (provision clients net resolver machinery decode ttl_seconds task agent run)
    unfolding provision
    provision-Keeps run c =
        after_step-Keeps _ _ run (ensure_service_account clients.accounts task run) c
          (ensure_service_account-QuietRun task run clients.accounts)
          (ensure_service_account-Lasts I task clients.accounts spares.accounts run)
          (λ r c'.
            after_step-Keeps _ _ r (ensure_role clients.roles task r) c'
              (ensure_role-QuietRun task r clients.roles)
              (ensure_role-Lasts I task clients.roles spares.roles r)
              (λ s c''.
                after_step-Keeps _ _ s (ensure_role_binding clients.bindings task s) c''
                  (ensure_role_binding-QuietRun task s clients.bindings)
                  (ensure_role_binding-Lasts I task clients.bindings spares.bindings s)
                  policy_step-Keeps))
