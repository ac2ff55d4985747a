-- ===== src/Controller/Reconcile/Idle.antt =====
-- The parts of a reconcile that create no Job.
use openconveyor.Prelude.{
  ℕ, true, false, ◌≡◌, refl, ap, ◌∙◌, inl, inr, List, [], ◌∷◌, ◌++◌, Text, any, any-append, all,
  All, arith,
}
use openconveyor.Errors.{Result, ok, err}
use openconveyor.Api.{Task, ClusterAgentClass}
use openconveyor.Metrics.{step_status}
use openconveyor.Controller.Cluster.{Action, error_counted, status_written, Run}
use openconveyor.Controller.Cluster.Trace.{is_report, append_assoc, Adds}
use openconveyor.Controller.Ensure.Quiet.{creates_job}
use openconveyor.Controller.Provision.{
  Provision, provisioned, task_failed, retried, provision, effective_egress,
}
use openconveyor.Controller.Provision.Silent.{IsSilent}
use openconveyor.Controller.Reconciler.{Reconciler, note}
use openconveyor.Controller.Status.{sync_status, fail_task}
use openconveyor.Controller.Status.Told.{Enters}
use openconveyor.Controller.Status.Entering.{fail_task-Entries, sync_status-Entries}
use openconveyor.Controller.Terminal.Harmless.{Harmless}
use openconveyor.Controller.Reconcile.{ended, ended_waiting, after_sync, after_provision}

-- A log that gets entries, none of which creates a Job.
abbrev pub Idle : List Action → List Action → Type 0
Idle log later = (after : List Action) × (later ≡ after ++ log) × (any creates_job after ≡ false)

report-creates_job : (a : Action) → is_report a ≡ true → creates_job a ≡ false
report-creates_job a h = ground arith

reports-creates_job :
    (tells : List Action) → all is_report tells ≡ true → any creates_job tells ≡ false
reports-creates_job [] h = refl
reports-creates_job (a ∷ tells) h =
    ground (arith, report-creates_job a (ground arith), reports-creates_job tells (ground arith))

module _ {W : Type 0} (r : Reconciler W) (task : Task) where
  pub Enters-Idle : (log later : List Action) → Enters log later → Idle log later
  Enters-Idle log later (inl e) = ([], e, refl)
  Enters-Idle log later (inr (u, n, c, inl e)) = (status_written u false ∷ [], e, refl)
  Enters-Idle log later (inr (u, n, c, inr (tells, told, e))) =
      let wrote = status_written u true ∷ [] in
      (
        tells ++ wrote,
        e ∙ append_assoc tells wrote log,
        ground (arith, any-append creates_job tells wrote, reports-creates_job tells told.reports),
      )

  Harmless-creates_job : (a : Action) → Harmless r task a → creates_job a ≡ false
  Harmless-creates_job a h = ground arith

  pub Harmless-Idle : (log later : List Action) → Adds (Harmless r task) log later → Idle log later
  Harmless-Idle log later (new, e, h) = (new, e, none_creates new h)
    where
      none_creates : (new : List Action) → All (Harmless r task) new → any creates_job new ≡ false
      none_creates [] h = refl
      none_creates (a ∷ rest) (h, hs) =
          ground (arith, Harmless-creates_job a h, none_creates rest hs)

  note-Idle :
      (a : Action) (log later : List Action)
      → creates_job a ≡ false
      → Idle (a ∷ log) later
      → Idle log later
  note-Idle a log later h (after, e, i) = (
    after ++ (a ∷ []),
    e ∙ append_assoc after (a ∷ []) log,
    ground (arith, any-append creates_job after (a ∷ [])),
  )

  pub ended-Idle :
      (log : List Action) (requeue : ℕ) (p : Result (Unit {0}) × Run W)
      → Enters log p.1.log
      → Idle log (ended r requeue p).1.log
  unfolding ended
  ended-Idle log requeue (ok u, run) h = Enters-Idle log run.log h
  ended-Idle log requeue (err e, run) h = Enters-Idle log run.log h

  pub ended_waiting-Idle :
      (log : List Action) (p : Result Task × Run W)
      → Enters log p.1.log
      → Idle log (ended_waiting r p).1.log
  unfolding ended_waiting
  ended_waiting-Idle log (ok u, run) h = Enters-Idle log run.log h
  ended_waiting-Idle log (err e, run) h = Enters-Idle log run.log h

  after_sync-Idle :
      (log : List Action) (egress : List Text) (p : Result (Task × ℕ) × Run W)
      → Enters log p.1.log
      → Idle log (after_sync r egress p).1.log
  unfolding after_sync
  after_sync-Idle log egress (ok u, run) h = Enters-Idle log run.log h
  after_sync-Idle log egress (err e, run) h =
      let (after, s, i) = Enters-Idle log run.log h in
      (error_counted step_status ∷ after, ap (λ l. error_counted step_status ∷ l) s, i)

  pub after_provision-Idle :
      (agent : ClusterAgentClass) (run : Run W) (p : Provision × Run W)
      → IsSilent run.log p
      → (provision r.clients r.net r.resolver r.machinery r.decode r.job_ttl_seconds task agent
          run).0
        ≡ p.0
      → Idle p.1.log (after_provision r task agent p).1.log
  unfolding after_provision
  after_provision-Idle agent run (provisioned job, next) s e =
      let egress = effective_egress task agent in
      after_sync-Idle next.log egress (sync_status r task job egress next)
        (sync_status-Entries r task (λ u count. Unit) job egress next (λ now u kept. tt))
  after_provision-Idle agent run (task_failed step reason x, next) s e =
      let counted = note (error_counted step) next in
      note-Idle (error_counted step) next.log _ refl (
        ended-Idle counted.log 0 (fail_task r task reason x counted)
          (fail_task-Entries r task (λ u count. Unit) reason x counted tt))
  after_provision-Idle agent run (retried step x, next) s e = (error_counted step ∷ [], refl, refl)
