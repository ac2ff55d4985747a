-- ===== src/Controller/Terminal/Awaited.antt =====
-- What the result of a reconcile of a terminal Task promises.
use openconveyor.Prelude.{ℕ, ◌-◌, ◌≤◌, ◌<◌, Bool, true, ◌≡◌, ◌⊎◌, none, some, List, ◌∷◌, is_empty}
use openconveyor.Errors.{Err}
use openconveyor.Kube.{Time}
use openconveyor.Api.{Task}
use openconveyor.Controller.Phase.{deletion_deadline, equal_status}
use openconveyor.Controller.Report.{result_decided, result_requeue}
use openconveyor.Controller.Cluster.{Action, task_deleted, Run}
use openconveyor.Controller.Status.Failing.{Wrote}
use openconveyor.Controller.Reconciler.{Reconciler}
use openconveyor.Controller.Terminal.{Outcome, task_key}
use openconveyor.Controller.Terminal.Settled.{Settles}
use openconveyor.Controller.Terminal.Harmless.{Held}

module _ {W : Type 0} (r : Reconciler W) where
  -- The collection of a Task: it has no TTL; or, by the clock at the end of the reconcile, the
  -- controller returns no later than at the deadline; or the deadline had passed by the clock of the
  -- cluster on which the Delete of the Task was called, as the last call.
  abbrev pub Collects : Task → ℕ → Run W → Type 0
  Collects t requeue end =
      (deletion_deadline r.machinery t r.default_task_ttl_seconds ≡ none)
      ⊎ ((deadline : Time) × (deletion_deadline r.machinery t r.default_task_ttl_seconds
            ≡ some deadline)
          × (((r.clock end.world < deadline)
                × (0 < requeue)
                × (requeue ≤ deadline - r.clock end.world))
              ⊎ ((w : W) × (deadline ≤ r.clock w)
                  × ((r.delete_task (task_key t) t.meta.uid w).1 ≡ end.world)
                  × (success : Bool) × (older : List Action) × (end.log
                      ≡ task_deleted (task_key t) t.meta.uid success ∷ older))))

  abbrev CollectsEnd : Task → Outcome × Run W → Type 0
  CollectsEnd t p = Collects t p.0.requeue_after p.1

module _ {W : Type 0} (r : Reconciler W) (task : Task) where
  -- The Result of the Task is decided, cannot be, or was decided by this reconcile: the status with it
  -- was written, or counts as equal to the one that the Task has.
  abbrev pub Settled : List Action → Type 0
  Settled log =
      (result_decided r.machinery task ≡ true)
      ⊎ ((is_empty task.status.job_name ≡ true)
          ⊎ ((u : Task) × Settles r task u
              × (result_decided r.machinery u ≡ true)
              × (Wrote u log ⊎ (equal_status r.machinery task.status u.status ≡ true))))

  -- Or the controller returns for it in time.
  abbrev pub Decides : ℕ → List Action → Type 0
  Decides requeue log = Settled log ⊎ ((0 < requeue) × (requeue ≤ result_requeue))

  abbrev pub Awaits : ℕ → Run W → Type 0
  Awaits requeue end =
      (t : Task) × Held r task t × Collects r t requeue end × Decides requeue end.log

  abbrev AwaitsEnd : Outcome × Run W → Type 0
  AwaitsEnd p = ((e : Err) × (p.0.error ≡ some e)) ⊎ Awaits p.0.requeue_after p.1

  -- The delay for the Result, before it is merged with the delay for the collection.
  abbrev Waits : ℕ → List Action → Type 0
  Waits requeue log = Settled log ⊎ (requeue ≡ result_requeue)
