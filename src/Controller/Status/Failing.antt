-- ===== src/Controller/Status/Failing.antt =====
-- How a Task fails for good.
use openconveyor.Prelude.{true, ◌≡◌, refl, sym, subst, ◌⊎◌, inl, inr, some, List, ◌∷◌, ◌++◌, Text}
use openconveyor.Errors.{Err, join, Result, ok, err}
use openconveyor.Kube.{Condition, is_false}
use openconveyor.Api.{Task, failed}
use openconveyor.Controller.Phase.{condition_ready}
use openconveyor.Controller.Cluster.{Action, status_written, Run}
use openconveyor.Controller.Reconciler.{Reconciler}
use openconveyor.Controller.Status.{
  set_ready, invalid_task, report_invalid, mark_invalid, marked, fail_task, write_status,
}
use openconveyor.Controller.Status.Told.{Writing, refused, accepted, write_status-Writing}
use openconveyor.Controller.Status.Entering.{report_invalid-Tells}

-- The log has a status write of the Task that succeeded.
abbrev pub Wrote : Task → List Action → Type 0
Wrote v log =
    (newer : List Action) × (older : List Action) × (log ≡ newer ++ (status_written v true ∷ older))

module _ {W : Type 0} (r : Reconciler W) (task : Task) (reason : Text) (cause : Err) where
  -- The Task that is written has failed, and its Ready condition says why.
  pub record Failed (u : Task) : Type 0 where
    pub phase : u.status.phase ≡ failed
    pub condition : Condition
    pub found : r.machinery.find u.status.conditions condition_ready ≡ some condition
    pub not_ready : condition.status ≡ is_false
    pub says : condition.reason ≡ reason
    pub text : condition.message ≡ r.error_text cause

  -- The write of that Task at `start` succeeds, or fails with the error `e`.
  abbrev pub Fails : W → Result (Unit {0}) × Run W → Type 0
  Fails start p =
      (u : Task) × Failed u
      × (((e : Err) × (after : W) × (r.update_status u start ≡ (err e, after))
            × (p.0 ≡ err (join cause e)))
          ⊎ ((p.0 ≡ ok tt) × Wrote u p.1.log))

  invalid_task-Failed :
      (run : Run W) → Failed (invalid_task r (r.clock run.world) task reason (r.error_text cause))
  unfolding invalid_task set_ready
  invalid_task-Failed run =
      let (d, there, same) =
        r.machinery.find-set_self (r.clock run.world) task.status.conditions _ in
      record {
        phase = refl;
        condition = d;
        found = there;
        not_ready = sym same.status;
        says = sym same.reason;
        text = sym same.message;
      }

  marked-Fails :
      (u : Task) (run : Run W) (p : Result Task × Run W)
      → Failed u
      → Writing r (report_invalid r task.status.phase reason (r.error_text cause)) u run p
      → Fails run.world (marked cause p)
  unfolding marked
  marked-Fails u run p f (refused e world asked x) =
      subst (λ q. Fails run.world (marked cause q)) (sym x) (u, f, inl (e, world, asked, refl))
  marked-Fails u run p f (accepted answer world asked x) =
      let (tells, told, e) =
        report_invalid-Tells r task.status.phase reason (r.error_text cause) answer
          (record { world = world; log = status_written u true ∷ run.log }) in
      subst (λ q. Fails run.world (marked cause q)) (sym x) (u, f, inr (refl, (tells, run.log, e)))

  -- failTask sends a status in which the Task has failed and its Ready condition is false, with the
  -- reason and the text of the cause. When that write succeeds, it returns nil; when it fails, it
  -- returns an error that joins the cause to the error of the write. The cause is never lost.
  pub fail_task-Fails : (run : Run W) → Fails run.world (fail_task r task reason cause run)
  unfolding fail_task mark_invalid
  fail_task-Fails run =
      let text = r.error_text cause in
      let u = invalid_task r (r.clock run.world) task reason text in
      let report = report_invalid r task.status.phase reason text in
      marked-Fails u run (write_status r report u run) (invalid_task-Failed run)
        (write_status-Writing r report u run)
