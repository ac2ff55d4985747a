-- ===== src/Controller/Reconcile/Guarded.antt =====
-- When a reconcile creates a Job, and behind what.
use openconveyor.Prelude.{
  false, ◌≡◌, refl, ap, ◌∙◌, ◌⊎◌, inl, inr, List, [], ◌∷◌, ◌++◌, any, any-append, arith, Bool-cases,
}
use openconveyor.Errors.{Result, ok, err, is_not_found}
use openconveyor.Kube.{NetworkPolicy}
use openconveyor.Api.{Task, ClusterAgentClass}
use openconveyor.Metrics.{step_validate, step_agent_class_lookup}
use openconveyor.Policy.Egress.{build_network_policy}
use openconveyor.Controller.Phase.{is_terminal, reason_invalid_spec}
use openconveyor.Controller.Validate.{validate_task}
use openconveyor.Controller.Cluster.{Action, error_counted, Run}
use openconveyor.Controller.Ensure.InPlace.{InPlace}
use openconveyor.Controller.Ensure.Quiet.{creates_job}
use openconveyor.Controller.Provision.{provision, effective_egress}
use openconveyor.Controller.Provision.Silent.{provision-IsSilent}
use openconveyor.Controller.Provision.Ordered.{IsOrdered, provision-IsOrdered}
use openconveyor.Controller.Reconciler.{Reconciler, note}
use openconveyor.Controller.Status.{fail_task, mark_waiting_for_agent_class}
use openconveyor.Controller.Status.Entering.{fail_task-Entries, mark_waiting-Entries}
use openconveyor.Controller.Terminal.{reconcile_terminal}
use openconveyor.Controller.Terminal.Harmless.{reconcile_terminal-Harmless}
use openconveyor.Controller.Reconcile.{with_class, after_validate, reconcile_task}
use openconveyor.Controller.Reconcile.Idle.{
  Idle, Harmless-Idle, ended-Idle, ended_waiting-Idle, after_provision-Idle,
}

module _ {W : Type 0} (r : Reconciler W) (task : Task) where
  -- The log has no create call for a Job. Or it has one, for a Task that is not terminal, with a
  -- valid spec and a ClusterAgentClass; the API server then already had the NetworkPolicy of the
  -- allowlists of both.
  pub record Guards (run : Run W) (log : List Action) : Type 0 where
    pub alive : is_terminal task.status.phase ≡ false
    pub valid : validate_task r.machinery task ≡ ok tt
    pub agent : ClusterAgentClass
    pub answered : (r.get_class task.spec.agent.ref run.world).0 ≡ ok agent
    pub policy : NetworkPolicy
    pub built :
        build_network_policy r.net r.resolver task.meta.name task.meta.namespace
          (effective_egress task agent)
          task.spec.permissions.egress_ports
        ≡ ok policy
    pub after : List Action
    pub create : Action
    pub before : List Action
    pub sequence : log ≡ after ++ (create ∷ before)
    pub in_place : InPlace policy before
    pub none_before : any creates_job before ≡ false
    pub none_after : any creates_job after ≡ false

  abbrev pub IsGuarded : Run W → List Action → Type 0
  IsGuarded run log = (any creates_job log ≡ false) ⊎ Guards run log

  Idle-fresh :
      (run : Run W) (log later : List Action)
      → any creates_job log ≡ false
      → Idle log later
      → IsGuarded run later
  Idle-fresh run log later h (after, e, i) =
      inl (ap (any creates_job) e ∙ ground (arith, any-append creates_job after log))

  module _ (run : Run W) (fresh : run.log ≡ []) (alive : is_terminal task.status.phase ≡ false)
      (valid : validate_task r.machinery task ≡ ok tt) where
    ordered-IsGuarded :
        (agent : ClusterAgentClass) (log later : List Action)
        → (r.get_class task.spec.agent.ref run.world).0 ≡ ok agent
        → IsOrdered r.clients r.net r.resolver r.machinery r.decode r.job_ttl_seconds task agent log
        → Idle log later
        → IsGuarded run later
    ordered-IsGuarded agent log later answered (inl clean) idle =
        Idle-fresh run log later clean idle
    ordered-IsGuarded agent log later answered
          (inr (policy, create, before, built, s, placed, clean)) (after, e, i) =
        inr (record {
          alive = alive;
          valid = valid;
          agent = agent;
          answered = answered;
          policy = policy;
          built = built;
          after = after;
          create = create;
          before = before;
          sequence = e ∙ ap (λ l. after ++ l) s;
          in_place = placed;
          none_before = clean;
          none_after = i;
        })

    with_class-IsGuarded :
        (answer : Result ClusterAgentClass) (world : W)
        → (r.get_class task.spec.agent.ref run.world).0 ≡ answer
        → IsGuarded run (with_class r task answer (record { world = world; log = run.log })).1.log
    unfolding with_class
    with_class-IsGuarded (ok agent) world answered =
        let next : Run W = record { world = world; log = run.log } in
        let p =
          provision r.clients r.net r.resolver r.machinery r.decode r.job_ttl_seconds task agent
            next in
        ordered-IsGuarded agent p.1.log _ answered
          (provision-IsOrdered r.clients r.net r.resolver r.machinery r.decode r.job_ttl_seconds
            task agent next fresh)
          (after_provision-Idle r task agent next p
            (provision-IsSilent r.clients r.net r.resolver r.machinery r.decode r.job_ttl_seconds
              task agent next)
            refl)
    with_class-IsGuarded (err e) world answered =
        let next : Run W = record { world = world; log = run.log } in
        let counted = note (error_counted step_agent_class_lookup) next in
        let clean : any creates_job counted.log ≡ false = ap (any creates_job) fresh in
        elim (Bool-cases (is_not_found e)) [
          | inl missing ↦ rw missing (
              Idle-fresh run counted.log _ clean (
                ended_waiting-Idle r task counted.log (mark_waiting_for_agent_class r task counted)
                  (mark_waiting-Entries r task (λ u count. Unit) counted tt)))
          | inr broken ↦ rw broken (inl clean)
        ]

  after_validate-IsGuarded :
      (v : Result (Unit {0})) (run : Run W)
      → run.log ≡ []
      → is_terminal task.status.phase ≡ false
      → validate_task r.machinery task ≡ v
      → IsGuarded run (after_validate r task v run).1.log
  unfolding after_validate
  after_validate-IsGuarded (err e) run fresh alive invalid =
      let counted = note (error_counted step_validate) run in
      Idle-fresh run counted.log _ (ap (any creates_job) fresh) (
        ended-Idle r task counted.log 0 (fail_task r task reason_invalid_spec e counted)
          (fail_task-Entries r task (λ u count. Unit) reason_invalid_spec e counted tt))
  after_validate-IsGuarded (ok u) run fresh alive valid =
      let answer = r.get_class task.spec.agent.ref run.world in
      with_class-IsGuarded run fresh alive valid answer.0 answer.1 refl

  -- In every reconcile, on every outcome, at most one create call is made for a Job. It is made only
  -- for a Task that is not terminal, has a valid spec and names a ClusterAgentClass that exists, and
  -- only behind the NetworkPolicy of the egress allowlists of both.
  pub reconcile_task-IsGuarded :
      (run : Run W) → run.log ≡ [] → IsGuarded run (reconcile_task r task run).1.log
  unfolding reconcile_task
  reconcile_task-IsGuarded run fresh = elim (Bool-cases (is_terminal task.status.phase)) [
    | inl terminal ↦ rw terminal (
        Idle-fresh run run.log (reconcile_terminal r task run).1.log (ap (any creates_job) fresh)
          (Harmless-Idle r task run.log _ (reconcile_terminal-Harmless r task run)))
    | inr alive ↦
        rw alive (after_validate-IsGuarded (validate_task r.machinery task) run fresh alive refl)
  ]
