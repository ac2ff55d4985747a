-- ===== src/Controller/Reconcile/Refreshed.antt =====
-- When the controller resolves the hostnames of a Task again.
use openconveyor.Prelude.{
  ℕ, zero, suc, ◌≤◌, ◌<◌, ℤ, pos, negsuc, true, false, ◌≡◌, refl, some, is_positive, pos_part,
  arith, inl, inr, Bool-cases, Text,
}
use openconveyor.Errors.{Err, Result, ok, err, is_not_found}
use openconveyor.Kube.{Job}
use openconveyor.Api.{Task, ClusterAgentClass, failed}
use openconveyor.Metrics.{step_validate}
use openconveyor.Policy.Egress.{has_hostnames}
use openconveyor.Controller.Phase.{is_terminal, reason_invalid_spec}
use openconveyor.Controller.Validate.{validate_task}
use openconveyor.Controller.Cluster.{Run, error_counted}
use openconveyor.Controller.Provision.{
  Provision, provisioned, task_failed, retried, provision, effective_egress,
}
use openconveyor.Controller.Report.{min_requeue}
use openconveyor.Controller.Report.Requeue.{min_requeue_lem}
use openconveyor.Controller.Reconciler.{Reconciler, note}
use openconveyor.Controller.Status.{sync_status, fail_task}
use openconveyor.Controller.Status.Causes.{class_answer, classed}
use openconveyor.Controller.Status.Failing.{Wrote, Fails, fail_task-Fails}
use openconveyor.Controller.Terminal.{Outcome}
use openconveyor.Controller.Reconcile.{
  ended, ended_waiting, refresh_requeue, after_sync, after_provision, with_class, after_validate,
  reconcile_task,
}

pos_part_positive : (i : ℤ) → is_positive i ≡ true → 0 < pos_part i
pos_part_positive (pos zero) h = cc
pos_part_positive (pos (suc n)) h = omega arith
pos_part_positive (negsuc n) h = cc

module _ {W : Type 0} (r : Reconciler W) (task : Task) (run : Run W)
    (interval : is_positive r.egress_refresh_interval ≡ true) where
  -- The steps ended with a Job, the status was synced with it, and the Task that the reconcile then had
  -- is terminal.
  abbrev pub IsOver : Type 0
  IsOver =
      (agent : ClusterAgentClass) × (job : Job) × (between : Run W) × (u : Task) × (requeue : ℕ)
      × (after : Run W) × (class_answer r task run ≡ ok agent)
      × (provision r.clients r.net r.resolver r.machinery r.decode r.job_ttl_seconds task agent
            (classed r task run)
          ≡ (provisioned job, between))
      × (sync_status r task job (effective_egress task agent) between ≡ (ok (u, requeue), after))
      × (is_terminal u.status.phase ≡ true)

  -- The allowlists of the Task and of its class have no hostname.
  abbrev pub IsStatic : Type 0
  IsStatic =
      (agent : ClusterAgentClass) × (class_answer r task run ≡ ok agent)
      × (has_hostnames r.net (effective_egress task agent) ≡ false)

  abbrev pub IsMissing : Type 0
  IsMissing = (e : Err) × (class_answer r task run ≡ err e) × (is_not_found e ≡ true)

  -- How a reconcile of a living Task ends.
  pub data Refreshes (p : Outcome × Run W) : Type 0 where
    tried_again : (e : Err) → p.0.error ≡ some e → Refreshes p
    waiting : IsMissing → p.0.requeue_after ≡ 30_000_000_000 → Refreshes p
    failed_for_good : (u : Task) → u.status.phase ≡ failed → Wrote u p.1.log → Refreshes p
    over : IsOver → Refreshes p
    static : IsStatic → Refreshes p
    refreshed :
        0 < p.0.requeue_after → p.0.requeue_after ≤ pos_part r.egress_refresh_interval → Refreshes p

  ended-Refreshes :
      (reason : Text) (cause : Err) (requeue : ℕ) (start : W) (p : Result (Unit {0}) × Run W)
      → Fails r task reason cause start p
      → Refreshes (ended r requeue p)
  unfolding ended
  ended-Refreshes reason cause requeue start (ok u, next) (t, f, inl (e, after, asked, x)) = cc
  ended-Refreshes reason cause requeue start (ok u, next) (t, f, inr (x, wrote)) =
      failed_for_good t f.phase wrote
  ended-Refreshes reason cause requeue start (err e, next) f = tried_again e refl

  ended_waiting-Refreshes : (p : Result Task × Run W) → IsMissing → Refreshes (ended_waiting r p)
  unfolding ended_waiting
  ended_waiting-Refreshes (ok t, next) missing = waiting missing refl
  ended_waiting-Refreshes (err e, next) missing = tried_again e refl

  module _ (agent : ClusterAgentClass) (answered : class_answer r task run ≡ ok agent) where
    after_sync-Refreshes :
        (job : Job) (between : Run W) (p : Result (Task × ℕ) × Run W)
        → provision r.clients r.net r.resolver r.machinery r.decode r.job_ttl_seconds task agent
            (classed r task run)
          ≡ (provisioned job, between)
        → sync_status r task job (effective_egress task agent) between ≡ p
        → Refreshes (after_sync r (effective_egress task agent) p)
    unfolding after_sync refresh_requeue
    after_sync-Refreshes job between (err e, next) made synced = tried_again e refl
    after_sync-Refreshes job between (ok (u, requeue), next) made synced =
        elim (Bool-cases (is_terminal u.status.phase)) [
          | inl ended ↦ over (agent, job, between, u, requeue, next, answered, made, synced, ended)
          | inr living ↦ elim (Bool-cases (has_hostnames r.net (effective_egress task agent))) [
            | inr none_named ↦ static (agent, answered, none_named)
            | inl named ↦
                let (low, high) =
                  (min_requeue_lem (min_requeue 0 requeue) (pos_part r.egress_refresh_interval) 0).2
                    (pos_part_positive r.egress_refresh_interval interval) in
                rw (interval, living, named) (refreshed high low)
          ]
        ]

    after_provision-Refreshes :
        (p : Provision × Run W)
        → provision r.clients r.net r.resolver r.machinery r.decode r.job_ttl_seconds task agent
            (classed r task run)
          ≡ p
        → Refreshes (after_provision r task agent p)
    unfolding after_provision
    after_provision-Refreshes (provisioned job, next) made =
        after_sync-Refreshes job next _ made refl
    after_provision-Refreshes (task_failed step reason e, next) made =
        let counted = note (error_counted step) next in
        ended-Refreshes reason e 0 counted.world (fail_task r task reason e counted)
          (fail_task-Fails r task reason e counted)
    after_provision-Refreshes (retried step e, next) made = tried_again e refl

  with_class-Refreshes :
      (answer : Result ClusterAgentClass)
      → class_answer r task run ≡ answer
      → Refreshes (with_class r task answer (classed r task run))
  unfolding with_class
  with_class-Refreshes (ok agent) answered = after_provision-Refreshes agent answered _ refl
  with_class-Refreshes (err e) answered = elim (Bool-cases (is_not_found e)) [
    | inl missing ↦ rw missing (ended_waiting-Refreshes _ (e, answered, missing))
    | inr broken ↦ rw broken (tried_again e refl)
  ]

  after_validate-Refreshes : (v : Result (Unit {0})) → Refreshes (after_validate r task v run)
  unfolding after_validate
  after_validate-Refreshes (err e) =
      let counted = note (error_counted step_validate) run in
      ended-Refreshes reason_invalid_spec e 0 counted.world
        (fail_task r task reason_invalid_spec e counted)
        (fail_task-Fails r task reason_invalid_spec e counted)
  after_validate-Refreshes (ok u) = with_class-Refreshes _ refl

  -- When there is a refresh interval, every reconcile of a living Task ends in one of six ways: with
  -- an error, after which it is tried again; with a delay of thirty seconds, as the class that it
  -- names was not found; with a write that makes the Task Failed; with a Task that is terminal after
  -- the status was synced with its Job; with allowlists that have no hostname; or with a positive
  -- delay that is no longer than the interval, after which the hostnames are resolved again.
  pub reconcile_task-Refreshes :
      is_terminal task.status.phase ≡ false → Refreshes (reconcile_task r task run)
  unfolding reconcile_task
  reconcile_task-Refreshes alive =
      rw alive (after_validate-Refreshes (validate_task r.machinery task))
