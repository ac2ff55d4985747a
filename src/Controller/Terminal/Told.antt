-- ===== src/Controller/Terminal/Told.antt =====
-- The one write of the reconcile of a terminal Task.
use openconveyor.Prelude.{
  ℕ, true, ◌≡◌, refl, ap, ◌∙◌, inl, inr, Option, none, some, Bool-cases, ltb, arith,
}
use openconveyor.Errors.{Result, ok, err}
use openconveyor.Kube.{Time}
use openconveyor.Api.{Task}
use openconveyor.Controller.Phase.{is_terminal}
use openconveyor.Controller.Phase.Comparison.{phase_eq_iff}
use openconveyor.Controller.Cluster.{Run}
use openconveyor.Controller.Cluster.Trace.{statuses, nothing-Says}
use openconveyor.Controller.Reconciler.{Reconciler}
use openconveyor.Controller.Status.{delayed, write_status}
use openconveyor.Controller.Status.Told.{write_status-Entries}
use openconveyor.Controller.Status.Causes.{result_only, Caused, Reports}
use openconveyor.Controller.Status.Entering.{delayed-Entries}
use openconveyor.Controller.Status.Frame.{Entered-Reports, to-Reports}
use openconveyor.Controller.Terminal.{
  task_key, Outcome, removed, collect_after, collect_terminal, record_terminal_result, merged,
  after_result, reconcile_terminal,
}
use openconveyor.Controller.Terminal.Settled.{
  Settles, Reads, Recording, untouched, failed, same, stored, record_terminal_result-Recording,
}

module _ {W : Type 0} (r : Reconciler W) where
  removed-silent :
      (t : Task) (run : Run W) (a : Result (Unit {0}) × W)
      → statuses (removed r t run a).1.log ≡ statuses run.log
  unfolding removed
  removed-silent t run (ok u, world) = refl
  removed-silent t run (err e, world) = refl

  collect_after-silent :
      (t : Task) (o : Option Time) (run : Run W)
      → statuses (collect_after r t o run).1.log ≡ statuses run.log
  unfolding collect_after
  collect_after-silent t none run = refl
  collect_after-silent t (some d) run = elim (Bool-cases (ltb (r.clock run.world) d)) [
    | inl early ↦ rw early refl
    | inr late ↦ rw late (removed-silent t run (r.delete_task (task_key t) t.meta.uid run.world))
  ]

  merged-silent :
      (requeue : ℕ) (p : Outcome × Run W) → statuses (merged r requeue p).1.log ≡ statuses p.1.log
  unfolding merged
  merged-silent requeue (o, run) = refl

  collect_terminal-silent :
      (t : Task) (run : Run W) → statuses (collect_terminal r t run).1.log ≡ statuses run.log
  unfolding collect_terminal
  collect_terminal-silent t run = collect_after-silent t _ run

  after_result-silent :
      (p : Result (Task × ℕ) × Run W) → statuses (after_result r p).1.log ≡ statuses p.1.log
  unfolding after_result
  after_result-silent (err e, run) = refl
  after_result-silent (ok (task, requeue), run) =
      merged-silent requeue (collect_terminal r task run) ∙ collect_terminal-silent task run

  Reads-silent :
      (task : Task) (run next : Run W)
      → Reads r task run next
      → statuses next.log ≡ statuses run.log
  Reads-silent task run next (inl e) = ap statuses e
  Reads-silent task run next (inr (o, e)) = ap statuses e

  module _ (task : Task) (terminal : is_terminal task.status.phase ≡ true) where
    Settles-Caused : (run : Run W) (u : Task) → Settles r task u → Caused r task run u 0
    Settles-Caused run u s = (
      result_only,
      (terminal, s.keeps),
      ground (
        arith,
        phase_eq_iff task.status.phase u.status.phase,
        ap (λ t. t.status.phase) s.keeps.only,
      ),
    )

    recorded-Reports :
        (run : Run W) (p : Result (Task × ℕ) × Run W)
        → Recording r task run p
        → Reports r task run run.log p.1.log
    recorded-Reports run p (untouched why e) = inl (ap (λ q. statuses q.1.log) e)
    recorded-Reports run p (failed x next reads e) =
        inl (ap (λ q. statuses q.1.log) e ∙ Reads-silent task run next reads)
    recorded-Reports run p (same u requeue next reads s back equal e) =
        inl (ap (λ q. statuses q.1.log) e ∙ Reads-silent task run next reads)
    recorded-Reports run p (stored u requeue next reads s back e) =
        let silent : Task → Run W → Run W = λ answer after. after in
        let wrote = write_status r silent u next in
        let later = (delayed requeue wrote).1.log in
        to-Reports r task run run.log later p.1.log (ap (λ q. statuses q.1.log) e) (
          Entered-Reports r task run run.log next.log later (Reads-silent task run next reads) (
            delayed-Entries r task (Caused r task run) next.log requeue wrote (
              write_status-Entries r silent (Caused r task run) u 0 next (Settles-Caused run u s)
                (λ answer after. nothing-Says after.log))))

    pub reconcile_terminal-Reports :
        (run : Run W) → Reports r task run run.log (reconcile_terminal r task run).1.log
    unfolding reconcile_terminal
    reconcile_terminal-Reports run =
        let p = record_terminal_result r task run in
        to-Reports r task run run.log p.1.log (after_result r p).1.log (after_result-silent p)
          (recorded-Reports run p (record_terminal_result-Recording r task run))
