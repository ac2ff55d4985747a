-- ===== src/Controller/Reconcile/Single.antt =====
-- The Jobs that the reconciles of a Task make, in Controller/Reconcile.antt.
use openconveyor.Prelude.{
  ℕ, true, false, ◌≡◌, refl, sym, ap, ◌∙◌, inl, inr, List, [], Text, any, any-append, arith,
  Bool-cases,
}
use openconveyor.Errors.{Result, ok, err, is_not_found}
use openconveyor.Kube.{Key}
use openconveyor.Api.{Task, ClusterAgentClass}
use openconveyor.Metrics.{step_validate, step_agent_class_lookup}
use openconveyor.Controller.Phase.{is_terminal, reason_invalid_spec}
use openconveyor.Controller.Validate.{validate_task}
use openconveyor.Controller.Cluster.{error_counted, Run}
use openconveyor.Controller.Ensure.{resource_key}
use openconveyor.Controller.Ensure.Quiet.{creates_job}
use openconveyor.Controller.Ensure.Single.{
  makes_job, makes-creates, HoldsJob, Kept, Clean, Clean-Kept,
}
use openconveyor.Controller.Provision.{
  Provision, provisioned, task_failed, retried, provision, effective_egress,
}
use openconveyor.Controller.Provision.Silent.{provision-IsSilent}
use openconveyor.Controller.Provision.Single.{SparesJob, provision-Keeps}
use openconveyor.Controller.Reconciler.{Reconciler, note}
use openconveyor.Controller.Status.{sync_status, fail_task, mark_waiting_for_agent_class}
use openconveyor.Controller.Status.Entering.{fail_task-Entries, mark_waiting-Entries}
use openconveyor.Controller.Status.Lasting.{sync_status-Lasts, fail_task-Lasts, mark_waiting-Lasts}
use openconveyor.Controller.Terminal.{Outcome, reconcile_terminal}
use openconveyor.Controller.Terminal.Harmless.{reconcile_terminal-Harmless}
use openconveyor.Controller.Reconcile.{
  ended, ended_waiting, after_sync, after_provision, with_class, after_validate, reconcile_task,
}
use openconveyor.Controller.Reconcile.Idle.{
  Idle, Harmless-Idle, ended-Idle, ended_waiting-Idle, after_provision-Idle,
}

module _ {W : Type 0} (r : Reconciler W) (I : W → Type 0) where
  -- The property holds from the creation of the Job with the key on, through every call that the
  -- reconcile of a Task makes before the Task is terminal, and as long as it holds, the Job is known.
  pub record KeepsJob (key : Key) : Type 0 where
    pub classes : (name : Text) (w : W) → I w → I (r.get_class name w).1
    pub others : SparesJob I r.clients
    pub jobs : HoldsJob I r.clients.jobs key
    pub updates : (task : Task) (w : W) → I w → I (r.update_status task w).1

  Idle-Kept :
      (H : Type 0) (run next : Run W)
      → Kept I H run
      → Idle run.log next.log
      → (I run.world → I next.world)
      → Kept I H next
  Idle-Kept H run next k (after, e, i) lasts =
      let same : any makes_job next.log ≡ any makes_job run.log =
        rw e (ground (arith, any-append makes_job after run.log, makes-creates after i)) in
      record {
        clean = λ h. same ∙ k.clean h;
        made = λ m. lasts (k.made (sym same ∙ m));
        lasts = λ h. lasts (k.lasts h);
      }

  ended-world : (n : ℕ) (p : Result (Unit {0}) × Run W) → (ended r n p).1.world ≡ p.1.world
  unfolding ended
  ended-world n (ok u, run) = refl
  ended-world n (err e, run) = refl

  ended_waiting-world : (p : Result Task × Run W) → (ended_waiting r p).1.world ≡ p.1.world
  unfolding ended_waiting
  ended_waiting-world (ok t, run) = refl
  ended_waiting-world (err e, run) = refl

  after_sync-world :
      (egress : List Text) (p : Result (Task × ℕ) × Run W)
      → (after_sync r egress p).1.world ≡ p.1.world
  unfolding after_sync
  after_sync-world egress (ok t, run) = refl
  after_sync-world egress (err e, run) = refl

  module _ (task : Task) (keeps : KeepsJob (resource_key task)) where
    after_provision-Lasts :
        (agent : ClusterAgentClass) (p : Provision × Run W)
        → I p.1.world
        → I (after_provision r task agent p).1.world
    unfolding after_provision
    after_provision-Lasts agent (provisioned job, run) i =
        let egress = effective_egress task agent in
        rw (after_sync-world egress (sync_status r task job egress run))
          (sync_status-Lasts r I keeps.updates task job egress run i)
    after_provision-Lasts agent (task_failed step reason e, run) i =
        let counted = note (error_counted step) run in
        rw (ended-world 0 (fail_task r task reason e counted))
          (fail_task-Lasts r I keeps.updates task reason e counted i)
    after_provision-Lasts agent (retried step e, run) i = i

    module _ (H : Type 0) where
      abbrev Keeps : Outcome × Run W → Type 0
      Keeps p = Kept I H p.1

      with_class-Keeps :
          (answer : Result ClusterAgentClass) (run : Run W)
          → Clean I H run
          → Keeps (with_class r task answer run)
      unfolding with_class
      with_class-Keeps (ok agent) run c =
          let p =
            provision r.clients r.net r.resolver r.machinery r.decode r.job_ttl_seconds task agent
              run in
          Idle-Kept H p.1 _
            (provision-Keeps I r.clients keeps.others r.net r.resolver r.machinery r.decode
              r.job_ttl_seconds task agent keeps.jobs H run c)
            (after_provision-Idle r task agent run p
              (provision-IsSilent r.clients r.net r.resolver r.machinery r.decode r.job_ttl_seconds
                task agent run)
              refl)
            (after_provision-Lasts agent p)
      with_class-Keeps (err e) run c =
          let counted = note (error_counted step_agent_class_lookup) run in
          let marked = mark_waiting_for_agent_class r task counted in
          let kept : Kept I H counted =
            Clean-Kept I H counted (record { clean = c.clean; lasts = c.lasts }) in
          elim (Bool-cases (is_not_found e)) [
            | inl missing ↦ rw missing (
                Idle-Kept H counted _ kept
                  (ended_waiting-Idle r task counted.log marked
                    (mark_waiting-Entries r task (λ u count. Unit) counted tt))
                  (λ i.
                    rw (ended_waiting-world marked)
                      (mark_waiting-Lasts r I keeps.updates task counted i)))
            | inr broken ↦ rw broken kept
          ]

      after_validate-Keeps :
          (v : Result (Unit {0})) (run : Run W)
          → validate_task r.machinery task ≡ v
          → Clean I H run
          → Keeps (after_validate r task v run)
      unfolding after_validate
      after_validate-Keeps (err e) run invalid c =
          let counted = note (error_counted step_validate) run in
          let failed = fail_task r task reason_invalid_spec e counted in
          Idle-Kept H counted _
            (Clean-Kept I H counted (record { clean = c.clean; lasts = c.lasts }))
            (ended-Idle r task counted.log 0 failed
              (fail_task-Entries r task (λ u count. Unit) reason_invalid_spec e counted tt))
            (λ i.
              rw (ended-world 0 failed)
                (fail_task-Lasts r I keeps.updates task reason_invalid_spec e counted i))
      after_validate-Keeps (ok u) run valid c =
          let answer = r.get_class task.spec.agent.ref run.world in
          with_class-Keeps answer.0 (record { world = answer.1; log = run.log })
            (record {
              clean = c.clean;
              lasts = λ h. keeps.classes task.spec.agent.ref run.world (c.lasts h);
            })

      reconcile_alive-Keeps :
          (run : Run W)
          → is_terminal task.status.phase ≡ false
          → Clean I H run
          → Keeps (reconcile_task r task run)
      unfolding reconcile_task
      reconcile_alive-Keeps run alive c =
          rw alive (after_validate-Keeps (validate_task r.machinery task) run refl c)

  terminal-clean :
      (task : Task) (run : Run W)
      → is_terminal task.status.phase ≡ true
      → any creates_job run.log ≡ false
      → any makes_job (reconcile_task r task run).1.log ≡ false
  unfolding reconcile_task
  terminal-clean task run terminal clean =
      let (after, e, i) =
        Harmless-Idle r task run.log (reconcile_terminal r task run).1.log
          (reconcile_terminal-Harmless r task run) in
      rw terminal (
        rw e (
          ground (
            arith,
            any-append makes_job after run.log,
            makes-creates after i,
            makes-creates run.log clean,
          )))

  -- `settled`: the reconcile of a terminal Task leaves its Job.
  pub reconcile_task-Kept :
      (task : Task) (run : Run W) (H : Type 0)
      → KeepsJob (resource_key task)
      → run.log ≡ []
      → (H → I run.world)
      → (settled : is_terminal task.status.phase ≡ true
          → I run.world
          → I (reconcile_task r task run).1.world)
      → Kept I H (reconcile_task r task run).1
  reconcile_task-Kept task run H keeps fresh i settled =
      let clean : any creates_job run.log ≡ false = ap (any creates_job) fresh in
      elim (Bool-cases (is_terminal task.status.phase)) [
        | inl terminal ↦
            let none = terminal-clean task run terminal clean in
            record {
              clean = λ h. none;
              made = λ m. absurd (cc (m, none));
              lasts = λ h. settled terminal (i h);
            }
        | inr alive ↦
            reconcile_alive-Keeps task keeps H run alive (record { clean = clean; lasts = i })
      ]
