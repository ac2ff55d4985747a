-- ===== src/Controller/Provision/Ordered.antt =====
-- The NetworkPolicy before the Job.
use openconveyor.Prelude.{ℕ, true, false, List, [], ◌∷◌, ◌≡◌, refl, ◌∙◌, ◌⊎◌, inl, inr, any, ap}
use openconveyor.Errors.{Err, Result, ok, err}
use openconveyor.Net.{Net}
use openconveyor.Kube.{NetworkPolicy, Job}
use openconveyor.Api.{Task, ClusterAgentClass}
use openconveyor.Machinery.{Machinery}
use openconveyor.Policy.Egress.{Resolver, build_network_policy}
use openconveyor.Policy.Config.{Decoder}
use openconveyor.Controller.Cluster.{Object, Action, created, Run}
use openconveyor.Controller.Ensure.{
  ensure_service_account, ensure_role, ensure_role_binding, ensure_network_policy,
  ensure_prompt_config_map, ensure_agent_config_map, ensure_job,
}
use openconveyor.Controller.Ensure.InPlace.{InPlace, ensure_network_policy-InPlace}
use openconveyor.Controller.Ensure.Once.{Ensures, ensure_job-Ensures}
use openconveyor.Controller.Ensure.Quiet.{
  creates_job, IsQuiet, QuietRun, ensure_service_account-QuietRun, ensure_role-QuietRun,
  ensure_role_binding-QuietRun, ensure_network_policy-QuietRun, ensure_prompt_config_map-QuietRun,
  ensure_agent_config_map-QuietRun,
}
use openconveyor.Controller.Provision.{
  Provision, Clients, effective_egress, effective_secrets, after_step, after_job, job_step,
  maps_steps, policy_step, provision,
}

module _ {W : Type 0} (clients : Clients W) (net : Net) (resolver : Resolver)
    (machinery : Machinery) (decode : Decoder) (ttl_seconds : ℕ) (task : Task)
    (agent : ClusterAgentClass) where
  -- The log has no create call for a Job, or one as its last entry. The API server then already had
  -- the NetworkPolicy of the effective allowlist.
  abbrev pub IsOrdered : List Action → Type 0
  IsOrdered log =
      (any creates_job log ≡ false)
      ⊎ ((policy : NetworkPolicy) × (last : Action) × (before : List Action) × (build_network_policy
              net resolver task.meta.name task.meta.namespace (effective_egress task agent)
              task.spec.permissions.egress_ports
            ≡ ok policy)
          × (log ≡ last ∷ before)
          × InPlace policy before
          × (any creates_job before ≡ false))

  abbrev Ends : Provision × Run W → Type 0
  Ends p = IsOrdered p.1.log

  after_step_lem :
      (failure : Err → Provision) (rest : Run W → Provision × Run W) (log : List Action)
      (r : Result (Unit {0}) × Run W)
      → any creates_job log ≡ false
      → QuietRun log r
      → ((u : Unit {0}) (next : Run W)
          → r ≡ (ok u, next)
          → any creates_job next.log ≡ false
          → IsQuiet log next.log
          → Ends (rest next))
      → Ends (after_step failure rest r)
  unfolding after_step
  after_step_lem failure rest log (ok u, next) n q k = k u next refl (q.jobs ∙ n) q
  after_step_lem failure rest log (err e, next) n q k = inl (q.jobs ∙ n)

  module _ (policy : NetworkPolicy)
      (built : build_network_policy net resolver task.meta.name task.meta.namespace
          (effective_egress task agent)
          task.spec.permissions.egress_ports
        ≡ ok policy) where
    after_job-Ends :
        (log : List Action) (r : Result Job × Run W)
        → any creates_job log ≡ false
        → InPlace policy log
        → Ensures clients.jobs machinery decode task agent
            (effective_secrets task agent)
            ttl_seconds
            log
            r
        → Ends (after_job r)
    unfolding after_job
    after_job-Ends log (ok j, next) n p (inl e) = inl (ap (any creates_job) e ∙ n)
    after_job-Ends log (ok j, next) n p (inr (owned, b, e)) =
        inr (policy, created (Object.job owned) true, log, built, e, p, n)
    after_job-Ends log (err x, next) n p (inl e) = inl (ap (any creates_job) e ∙ n)
    after_job-Ends log (err x, next) n p (inr (owned, b, e)) =
        inr (policy, created (Object.job owned) false, log, built, e, p, n)

    maps_steps-Ends :
        (run : Run W)
        → any creates_job run.log ≡ false
        → InPlace policy run.log
        → Ends (maps_steps clients net resolver machinery decode ttl_seconds task agent run)
    unfolding maps_steps job_step
    maps_steps-Ends run n p =
        after_step_lem _ _ run.log (ensure_prompt_config_map clients.maps task run) n
          (ensure_prompt_config_map-QuietRun task run clients.maps)
          (λ u r e n' q.
            after_step_lem _ _ r.log (ensure_agent_config_map clients.maps task agent r) n'
              (ensure_agent_config_map-QuietRun task r clients.maps agent)
              (λ v s f n'' q'.
                after_job-Ends s.log
                  (ensure_job clients.jobs machinery decode task agent
                    (effective_secrets task agent) ttl_seconds s)
                  n'' (q'.keeps policy (q.keeps policy p))
                  (ensure_job-Ensures clients.jobs machinery decode task agent
                    (effective_secrets task agent) ttl_seconds s)))

  policy_step-Ends :
      (run : Run W)
      → any creates_job run.log ≡ false
      → Ends (policy_step clients net resolver machinery decode ttl_seconds task agent run)
  unfolding policy_step
  policy_step-Ends run n =
      after_step_lem _ _ run.log
        (ensure_network_policy clients.policies net resolver task (effective_egress task agent) run)
        n
        (ensure_network_policy-QuietRun task run clients.policies net resolver
          (effective_egress task agent))
        (λ u next e n' q.
          let (policy, built, placed) =
            ensure_network_policy-InPlace clients.policies net resolver task
              (effective_egress task agent) run next e in
          maps_steps-Ends policy built next n' placed)

  -- In every run of the steps, on every outcome, the controller makes at most one create call for a
  -- Job, as the last call. Before it, the API server has the NetworkPolicy with the spec of the
  -- effective allowlist, the Task's and the agent's, and the labels that go with it.
  pub provision-IsOrdered :
      (run : Run W)
      → run.log ≡ []
      → IsOrdered (provision clients net resolver machinery decode ttl_seconds task agent run).1.log
  unfolding provision
  provision-IsOrdered run fresh =
      after_step_lem _ _ run.log (ensure_service_account clients.accounts task run)
        (ap (any creates_job) fresh) (ensure_service_account-QuietRun task run clients.accounts)
        (λ u r e n q.
          after_step_lem _ _ r.log (ensure_role clients.roles task r) n
            (ensure_role-QuietRun task r clients.roles)
            (λ v s f n' q'.
              after_step_lem _ _ s.log (ensure_role_binding clients.bindings task s) n'
                (ensure_role_binding-QuietRun task s clients.bindings)
                (λ w t g n'' q''. policy_step-Ends t n'')))
