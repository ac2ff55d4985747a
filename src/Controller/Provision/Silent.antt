-- ===== src/Controller/Provision/Silent.antt =====
-- The steps of a reconcile write no status and report nothing, and give up for good only on a
-- permanent error.
use openconveyor.Prelude.{
  ℕ, true, Option, none, some, List, ◌≡◌, refl, ◌∙◌, inl, inr, Text, ap, Bool-cases,
}
use openconveyor.Errors.{Err, Result, ok, err, is_permanent}
use openconveyor.Net.{Net}
use openconveyor.Kube.{Job}
use openconveyor.Api.{Task, ClusterAgentClass}
use openconveyor.Machinery.{Machinery}
use openconveyor.Policy.Egress.{Resolver}
use openconveyor.Policy.Config.{Decoder}
use openconveyor.Controller.Cluster.{Action, Run}
use openconveyor.Controller.Cluster.Trace.{statuses}
use openconveyor.Controller.Ensure.{
  ensure_service_account, ensure_role, ensure_role_binding, ensure_network_policy,
  ensure_prompt_config_map, ensure_agent_config_map, ensure_job,
}
use openconveyor.Controller.Ensure.Once.{Ensures, ensure_job-Ensures}
use openconveyor.Controller.Ensure.Quiet.{
  QuietRun, ensure_service_account-QuietRun, ensure_role-QuietRun, ensure_role_binding-QuietRun,
  ensure_network_policy-QuietRun, ensure_prompt_config_map-QuietRun,
  ensure_agent_config_map-QuietRun,
}
use openconveyor.Controller.Provision.{
  Provision, task_failed, Clients, effective_egress, effective_secrets, after_step, after_job,
  job_step, maps_steps, policy_step, provision, step_failure, job_failure,
}

abbrev pub IsSound : Provision → Type 0
IsSound (task_failed step reason e) = is_permanent e ≡ true
IsSound _ = Unit

pub record IsSilent {W : Type 0} (log : List Action) (p : Provision × Run W) : Type 0 where
  pub silent : statuses p.1.log ≡ statuses log
  pub sound : IsSound p.0

step_failure-IsSound :
    (step name : Text) (reason : Option Text) (e : Err) → IsSound (step_failure step name reason e)
unfolding step_failure
step_failure-IsSound step name none e = tt
step_failure-IsSound step name (some reason) e = elim (Bool-cases (is_permanent e)) [
  | inl final ↦ rw final final
  | inr transient ↦ rw transient tt
]

job_failure-IsSound : (e : Err) → IsSound (job_failure e)
unfolding job_failure
job_failure-IsSound e = elim (Bool-cases (is_permanent e)) [
  | inl final ↦ rw final final
  | inr transient ↦ rw transient tt
]

module _ {W : Type 0} where
  after_step-IsSilent :
      (failure : Err → Provision) (rest : Run W → Provision × Run W) (log mid : List Action)
      (p : Result (Unit {0}) × Run W)
      → ((e : Err) → IsSound (failure e))
      → statuses mid ≡ statuses log
      → QuietRun mid p
      → ((next : Run W) → statuses next.log ≡ statuses log → IsSilent log (rest next))
      → IsSilent log (after_step failure rest p)
  unfolding after_step
  after_step-IsSilent failure rest log mid (ok u, next) sound s q k = k next (q.silent ∙ s)
  after_step-IsSilent failure rest log mid (err e, next) sound s q k = record {
    silent = q.silent ∙ s;
    sound = sound e;
  }

  module _ (clients : Clients W) (net : Net) (resolver : Resolver) (machinery : Machinery)
      (decode : Decoder) (ttl_seconds : ℕ) (task : Task) (agent : ClusterAgentClass) where
    after_job-IsSilent :
        (log mid : List Action) (p : Result Job × Run W)
        → statuses mid ≡ statuses log
        → Ensures clients.jobs machinery decode task agent
            (effective_secrets task agent)
            ttl_seconds
            mid
            p
        → IsSilent log (after_job p)
    unfolding after_job
    after_job-IsSilent log mid (ok job, next) s (inl e) = record {
      silent = ap statuses e ∙ s;
      sound = tt;
    }
    after_job-IsSilent log mid (ok job, next) s (inr (owned, b, e)) = record {
      silent = ap statuses e ∙ s;
      sound = tt;
    }
    after_job-IsSilent log mid (err x, next) s (inl e) = record {
      silent = ap statuses e ∙ s;
      sound = job_failure-IsSound x;
    }
    after_job-IsSilent log mid (err x, next) s (inr (owned, b, e)) = record {
      silent = ap statuses e ∙ s;
      sound = job_failure-IsSound x;
    }

    maps_steps-IsSilent :
        (log : List Action) (run : Run W)
        → statuses run.log ≡ statuses log
        → IsSilent log (maps_steps clients net resolver machinery decode ttl_seconds task agent run)
    unfolding maps_steps job_step
    maps_steps-IsSilent log run s =
        after_step-IsSilent _ _ log run.log (ensure_prompt_config_map clients.maps task run)
          (step_failure-IsSound _ _ none) s
          (ensure_prompt_config_map-QuietRun task run clients.maps)
          (λ a s'.
            after_step-IsSilent _ _ log a.log (ensure_agent_config_map clients.maps task agent a)
              (step_failure-IsSound _ _ none) s'
              (ensure_agent_config_map-QuietRun task a clients.maps agent)
              (λ b s''.
                after_job-IsSilent log b.log
                  (ensure_job clients.jobs machinery decode task agent
                    (effective_secrets task agent) ttl_seconds b)
                  s''
                  (ensure_job-Ensures clients.jobs machinery decode task agent
                    (effective_secrets task agent) ttl_seconds b)))

    policy_step-IsSilent :
        (log : List Action) (run : Run W)
        → statuses run.log ≡ statuses log
        → IsSilent log
            (policy_step clients net resolver machinery decode ttl_seconds task agent run)
    unfolding policy_step
    policy_step-IsSilent log run s =
        after_step-IsSilent _ _ log run.log
          (ensure_network_policy clients.policies net resolver task (effective_egress task agent)
            run)
          (step_failure-IsSound _ _ (some _)) s
          (ensure_network_policy-QuietRun task run clients.policies net resolver
            (effective_egress task agent))
          (λ next. maps_steps-IsSilent log next)

    pub provision-IsSilent :
        (run : Run W)
        → IsSilent run.log
            (provision clients net resolver machinery decode ttl_seconds task agent run)
    unfolding provision
    provision-IsSilent run =
        after_step-IsSilent _ _ run.log run.log (ensure_service_account clients.accounts task run)
          (step_failure-IsSound _ _ none) refl
          (ensure_service_account-QuietRun task run clients.accounts)
          (λ a s.
            after_step-IsSilent _ _ run.log a.log (ensure_role clients.roles task a)
              (step_failure-IsSound _ _ none) s (ensure_role-QuietRun task a clients.roles)
              (λ b s'.
                after_step-IsSilent _ _ run.log b.log (ensure_role_binding clients.bindings task b)
                  (step_failure-IsSound _ _ none) s'
                  (ensure_role_binding-QuietRun task b clients.bindings)
                  (λ c. policy_step-IsSilent run.log c)))
