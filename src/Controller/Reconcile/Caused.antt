-- ===== src/Controller/Reconcile/Caused.antt =====
-- Why a reconcile writes the status of its Task, and what it reports.
use openconveyor.Prelude.{ℕ, ◌≡◌, refl, inl, inr, List, Text, Bool-cases}
use openconveyor.Errors.{Result, ok, err, is_not_found}
use openconveyor.Api.{Task, ClusterAgentClass}
use openconveyor.Metrics.{step_validate, step_agent_class_lookup}
use openconveyor.Controller.Phase.{is_terminal, reason_invalid_spec}
use openconveyor.Controller.Validate.{validate_task}
use openconveyor.Controller.Cluster.{Action, error_counted, Run}
use openconveyor.Controller.Provision.{
  Provision, provisioned, task_failed, retried, provision, effective_egress,
}
use openconveyor.Controller.Provision.Silent.{IsSilent, provision-IsSilent}
use openconveyor.Controller.Reconciler.{Reconciler, note}
use openconveyor.Controller.Status.{sync_status, fail_task, mark_waiting_for_agent_class}
use openconveyor.Controller.Status.Causes.{
  Reports, class_answer, classed, fail_task-Entered, mark_waiting-Entered, sync_status-Entered,
}
use openconveyor.Controller.Status.Frame.{Entered-Reports}
use openconveyor.Controller.Terminal.{Outcome}
use openconveyor.Controller.Terminal.Told.{reconcile_terminal-Reports}
use openconveyor.Controller.Reconcile.{
  ended, ended_waiting, after_sync, after_provision, with_class, after_validate, reconcile_task,
}

module _ {W : Type 0} (r : Reconciler W) (task : Task) (start : Run W) where
  abbrev ReportsEnd : List Action → Outcome × Run W → Type 0
  ReportsEnd log p = Reports r task start log p.1.log

  ended-Reports :
      (log : List Action) (requeue : ℕ) (p : Result (Unit {0}) × Run W)
      → Reports r task start log p.1.log
      → ReportsEnd log (ended r requeue p)
  unfolding ended
  ended-Reports log requeue (ok u, run) h = h
  ended-Reports log requeue (err e, run) h = h

  ended_waiting-Reports :
      (log : List Action) (p : Result Task × Run W)
      → Reports r task start log p.1.log
      → ReportsEnd log (ended_waiting r p)
  unfolding ended_waiting
  ended_waiting-Reports log (ok u, run) h = h
  ended_waiting-Reports log (err e, run) h = h

  after_sync-Reports :
      (log : List Action) (egress : List Text) (p : Result (Task × ℕ) × Run W)
      → Reports r task start log p.1.log
      → ReportsEnd log (after_sync r egress p)
  unfolding after_sync
  after_sync-Reports log egress (ok u, run) h = h
  after_sync-Reports log egress (err e, run) h = h

  after_provision-Reports :
      (agent : ClusterAgentClass) (p : Provision × Run W)
      → class_answer r task start ≡ ok agent
      → IsSilent start.log p
      → (provision r.clients r.net r.resolver r.machinery r.decode r.job_ttl_seconds task agent
          (classed r task start)).0
        ≡ p.0
      → ReportsEnd start.log (after_provision r task agent p)
  unfolding after_provision
  after_provision-Reports agent (provisioned job, next) answered s e =
      let egress = effective_egress task agent in
      let p = sync_status r task job egress next in
      after_sync-Reports start.log egress p (
        Entered-Reports r task start start.log next.log p.1.log s.silent
          (sync_status-Entered r task start job (agent, answered, e) egress next))
  after_provision-Reports agent (task_failed step reason x, next) answered s e =
      let counted = note (error_counted step) next in
      let p = fail_task r task reason x counted in
      ended-Reports start.log 0 p (
        Entered-Reports r task start start.log counted.log p.1.log s.silent (
          fail_task-Entered r task start reason x counted
            (inr (step, (agent, answered, e), s.sound))))
  after_provision-Reports agent (retried step x, next) answered s e = inl s.silent

  with_class-Reports :
      (answer : Result ClusterAgentClass)
      → class_answer r task start ≡ answer
      → ReportsEnd start.log (with_class r task answer (classed r task start))
  unfolding with_class
  with_class-Reports (ok agent) answered =
      let run = classed r task start in
      after_provision-Reports agent
        (provision r.clients r.net r.resolver r.machinery r.decode r.job_ttl_seconds task agent run)
        answered
        (provision-IsSilent r.clients r.net r.resolver r.machinery r.decode r.job_ttl_seconds task
          agent run)
        refl
  with_class-Reports (err e) answered =
      let counted = note (error_counted step_agent_class_lookup) (classed r task start) in
      let p = mark_waiting_for_agent_class r task counted in
      elim (Bool-cases (is_not_found e)) [
        | inl missing ↦ rw missing (
            ended_waiting-Reports start.log p (
              Entered-Reports r task start start.log counted.log p.1.log refl
                (mark_waiting-Entered r task start e counted answered missing)))
        | inr broken ↦ rw broken (inl refl)
      ]

  after_validate-Reports :
      (v : Result (Unit {0}))
      → validate_task r.machinery task ≡ v
      → ReportsEnd start.log (after_validate r task v start)
  unfolding after_validate
  after_validate-Reports (err e) invalid =
      let counted = note (error_counted step_validate) start in
      let p = fail_task r task reason_invalid_spec e counted in
      ended-Reports start.log 0 p (
        Entered-Reports r task start start.log counted.log p.1.log refl
          (fail_task-Entered r task start reason_invalid_spec e counted (inl (invalid, refl))))
  after_validate-Reports (ok u) valid = with_class-Reports (class_answer r task start) refl

module _ {W : Type 0} (r : Reconciler W) (task : Task) where
  pub reconcile_task-Reports :
      (run : Run W) → Reports r task run run.log (reconcile_task r task run).1.log
  unfolding reconcile_task
  reconcile_task-Reports run = elim (Bool-cases (is_terminal task.status.phase)) [
    | inl terminal ↦ rw terminal (reconcile_terminal-Reports r task terminal run)
    | inr alive ↦ rw alive (after_validate-Reports r task run (validate_task r.machinery task) refl)
  ]
