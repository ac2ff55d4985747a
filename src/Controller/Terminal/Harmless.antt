-- ===== src/Controller/Terminal/Harmless.antt =====
-- What a reconcile of a terminal Task can do to the cluster.
use openconveyor.Prelude.{
  ℕ, Bool, true, false, ◌≡◌, refl, sym, ap, subst, ◌∙◌, ◌⊎◌, inl, inr, Option, none, some, [], ◌∷◌,
  ltb, Bool-cases,
}
use openconveyor.Errors.{Err, Result, ok, err}
use openconveyor.Kube.{Time}
use openconveyor.Api.{Task}
use openconveyor.Metrics.{step_status}
use openconveyor.Controller.Phase.{deletion_deadline}
use openconveyor.Controller.Cluster.{
  Action, found, status_written, task_deleted, error_counted, Run,
}
use openconveyor.Controller.Cluster.Trace.{Adds, no-Adds, one-Adds, then-Adds}
use openconveyor.Controller.Reconciler.{Reconciler, SameTask}
use openconveyor.Controller.Status.{delayed}
use openconveyor.Controller.Status.Told.{Writing, refused, accepted, write_status-Writing}
use openconveyor.Controller.Terminal.{
  Outcome, task_key, removed, collect_after, collect_terminal, record_terminal_result, merged,
  after_result, reconcile_terminal,
}
use openconveyor.Controller.Terminal.Settled.{
  Settles, Reads, Recording, untouched, failed, same, stored, record_terminal_result-Recording,
}

module _ {W : Type 0} (r : Reconciler W) (task : Task) where
  -- What the reconcile has of the Task after the Result: the one that it read, with the Result at
  -- most, or the answer to the write of that one.
  abbrev pub Held : Task → Type 0
  Held t =
      (t ≡ task)
      ⊎ (Settles r task t
          ⊎ ((u : Task) × (before : W) × (after : W) × Settles r task u
              × (r.update_status u before ≡ (ok t, after))))

  -- The TTL of the Task that the reconcile has is over, by the clock at that moment.
  pub record Due : Type 0 where
    pub held : Task
    pub known : Held held
    pub deadline : Time
    pub world : W
    pub limited : deletion_deadline r.machinery held r.default_task_ttl_seconds ≡ some deadline
    pub over : ltb (r.clock world) deadline ≡ false

  abbrev pub Harmless : Action → Type 0
  Harmless (found o) = Unit
  Harmless (status_written u success) = Settles r task u
  Harmless (task_deleted key uid success) = (key ≡ task_key task) × (uid ≡ task.meta.uid) × Due
  Harmless (error_counted step) = step ≡ step_status
  Harmless _ = ⊥

  abbrev Safely : Run W → Outcome × Run W → Type 0
  Safely run p = Adds Harmless run.log p.1.log

  Held-SameTask : (t : Task) → Held t → SameTask task t
  Held-SameTask t (inl e) =
      subst (λ x. SameTask task x) (sym e) (record { name = refl; namespace = refl; uid = refl })
  Held-SameTask t (inr (inl s)) =
      subst (λ x. SameTask task x) (sym s.keeps.only)
        (record { name = refl; namespace = refl; uid = refl })
  Held-SameTask t (inr (inr (u, before, after, s, e))) =
      let k = r.update_status_keeps u t before after e in
      record {
        name = k.name ∙ ap (λ x. x.meta.name) s.keeps.only;
        namespace = k.namespace ∙ ap (λ x. x.meta.namespace) s.keeps.only;
        uid = k.uid ∙ ap (λ x. x.meta.uid) s.keeps.only;
      }

  removed-Safely :
      (t : Task) (run : Run W) (a : Result (Unit {0}) × W)
      → SameTask task t
      → Due
      → Safely run (removed r t run a)
  unfolding removed
  removed-Safely t run (ok u, world) s due =
      one-Adds Harmless _ run.log (rw (s.name, s.namespace) refl, s.uid, due)
  removed-Safely t run (err e, world) s due =
      one-Adds Harmless _ run.log (rw (s.name, s.namespace) refl, s.uid, due)

  collect_after-Safely :
      (t : Task) (run : Run W) (o : Option Time)
      → Held t
      → deletion_deadline r.machinery t r.default_task_ttl_seconds ≡ o
      → Safely run (collect_after r t o run)
  unfolding collect_after
  collect_after-Safely t run none held limited = no-Adds Harmless run.log run.log refl
  collect_after-Safely t run (some deadline) held limited =
      elim (Bool-cases (ltb (r.clock run.world) deadline)) [
        | inl early ↦ rw early (no-Adds Harmless run.log run.log refl)
        | inr late ↦ rw late (
            removed-Safely t run (r.delete_task (task_key t) t.meta.uid run.world)
              (Held-SameTask t held)
              (record {
                held = t;
                known = held;
                deadline = deadline;
                world = run.world;
                limited = limited;
                over = late;
              }))
      ]

  merged-Safely :
      (run : Run W) (requeue : ℕ) (p : Outcome × Run W)
      → Safely run p
      → Safely run (merged r requeue p)
  unfolding merged
  merged-Safely run requeue (o, next) h = h

  collected-Safely :
      (run : Run W) (t : Task) (requeue : ℕ) (next : Run W)
      → Held t
      → Adds Harmless run.log next.log
      → Safely run (after_result r (ok (t, requeue), next))
  unfolding after_result collect_terminal
  collected-Safely run t requeue next held before =
      merged-Safely run requeue (collect_terminal r t next) (
        then-Adds Harmless run.log next.log (collect_terminal r t next).1.log before
          (collect_after-Safely t next _ held refl))

  counted-Safely :
      (run : Run W) (e : Err) (next : Run W)
      → Adds Harmless run.log next.log
      → Safely run (after_result r (err e, next))
  unfolding after_result
  counted-Safely run e next before =
      then-Adds Harmless run.log next.log (error_counted step_status ∷ next.log) before
        (one-Adds Harmless (error_counted step_status) next.log refl)

  Reads-Adds : (run next : Run W) → Reads r task run next → Adds Harmless run.log next.log
  Reads-Adds run next (inl e) = no-Adds Harmless run.log next.log e
  Reads-Adds run next (inr (o, e)) = (found o ∷ [], e, (tt, tt))

  recorded-Safely :
      (run : Run W) (p : Result (Task × ℕ) × Run W)
      → Recording r task run p
      → Safely run (after_result r p)
  unfolding delayed
  recorded-Safely run p (untouched why e) =
      subst (λ q. Safely run (after_result r q)) (sym e)
        (collected-Safely run task 0 run (inl refl) (no-Adds Harmless run.log run.log refl))
  recorded-Safely run p (failed x next reads e) =
      subst (λ q. Safely run (after_result r q)) (sym e)
        (counted-Safely run x next (Reads-Adds run next reads))
  recorded-Safely run p (same u requeue next reads s back equal e) =
      subst (λ q. Safely run (after_result r q)) (sym e)
        (collected-Safely run u requeue next (inr (inl s)) (Reads-Adds run next reads))
  recorded-Safely run p (stored u requeue next reads s back e) =
      subst (λ q. Safely run (after_result r q)) (sym e)
        (stored-Safely run u requeue next _ reads s (write_status-Writing r _ u next))
    where
      wrote :
          (run next : Run W) (u : Task) (success : Bool)
          → Reads r task run next
          → Settles r task u
          → Adds Harmless run.log (status_written u success ∷ next.log)
      wrote run next u success reads s =
          then-Adds Harmless run.log next.log _ (Reads-Adds run next reads)
            (one-Adds Harmless (status_written u success) next.log s)

      stored-Safely :
          (run : Run W) (u : Task) (requeue : ℕ) (next : Run W) (p : Result Task × Run W)
          → Reads r task run next
          → Settles r task u
          → Writing r (λ answer after. after) u next p
          → Safely run (after_result r (delayed requeue p))
      stored-Safely run u requeue next p reads s (refused x world asked e) =
          subst (λ q. Safely run (after_result r (delayed requeue q))) (sym e)
            (counted-Safely run x
              (record { world = world; log = status_written u false ∷ next.log })
              (wrote run next u false reads s))
      stored-Safely run u requeue next p reads s (accepted answer world asked e) =
          subst (λ q. Safely run (after_result r (delayed requeue q))) (sym e)
            (collected-Safely run answer requeue
              (record { world = world; log = status_written u true ∷ next.log })
              (inr (inr (u, next.world, world, s, asked))) (wrote run next u true reads s))

  -- The reconcile of a terminal Task creates, changes and deletes no other object. Of the Task it
  -- writes at most the Result and its condition, and only while there is no Result. It deletes the
  -- Task only by its own name and UID, and only when the TTL of the Task that it has is over. It
  -- tells no Event and no transition.
  pub reconcile_terminal-Harmless :
      (run : Run W) → Adds Harmless run.log (reconcile_terminal r task run).1.log
  unfolding reconcile_terminal
  reconcile_terminal-Harmless run =
      recorded-Safely run (record_terminal_result r task run)
        (record_terminal_result-Recording r task run)
