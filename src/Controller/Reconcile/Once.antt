-- ===== src/Controller/Reconcile/Once.antt =====
-- The Jobs of a Task over its life, as a sequence of reconciles and of changes between them.
use openconveyor.Prelude.{
  ℕ, ◌+◌, ◌≤◌, true, false, ◌≡◌, refl, ap, ◌∙◌, ◌⊎◌, inl, inr, List, [], ◌∷◌, ◌++◌, any, any-append,
  arith, subst, sym, Bool-cases, if◌then◌else◌,
}
use openconveyor.Kube.{Key}
use openconveyor.Api.{Task}
use openconveyor.Controller.Phase.{is_terminal}
use openconveyor.Controller.Cluster.{Action, Run}
use openconveyor.Controller.Ensure.{resource_key}
use openconveyor.Controller.Ensure.Single.{makes_job, makes-creates}
use openconveyor.Controller.Reconciler.{Reconciler}
use openconveyor.Controller.Reconcile.{reconcile_task}
use openconveyor.Controller.Reconcile.Guarded.{IsGuarded, reconcile_task-IsGuarded}
use openconveyor.Controller.Reconcile.Single.{KeepsJob, reconcile_task-Kept}

-- How many Jobs the calls of a log made.
abbrev pub made_jobs : List Action → ℕ
made_jobs [] = 0
made_jobs (a ∷ log) = (if makes_job a then 1 else 0) + made_jobs log

made_jobs-append : (xs ys : List Action) → made_jobs (xs ++ ys) ≡ made_jobs xs + made_jobs ys
made_jobs-append [] ys = ground arith
made_jobs-append (x ∷ xs) ys = ground (arith, made_jobs-append xs ys)

made_jobs-any : (log : List Action) → any makes_job log ≡ false → made_jobs log ≡ 0
made_jobs-any [] h = refl
made_jobs-any (a ∷ log) h = ground (arith, made_jobs-any log (ground arith))

module _ {W : Type 0} (r : Reconciler W) (I : W → Type 0) (key : Key) where
  -- What happened from `start` on, with the calls of all reconciles, the newest first.
  pub data Life (start : W) : List Action → W → Type 0 where
    unborn : Life start [] start
    -- A reconcile of a version of the Task, which has the names of its objects from its name. It may
    -- delete a Task that is terminal, with its Job; here it did not.
    passed :
        {log : List Action} {w : W} (task : Task)
        → Life start log w
        → resource_key task ≡ key
        → (is_terminal task.status.phase ≡ true
            → I w
            → I (reconcile_task r task (record { world = w; log = [] })).1.world)
        → Life start
            ((reconcile_task r task (record { world = w; log = [] })).1.log ++ log)
            (reconcile_task r task (record { world = w; log = [] })).1.world
    -- Anything else that does not delete the Job.
    meanwhile : {log : List Action} {w v : W} → Life start log w → (I w → I v) → Life start log v

  abbrev Accounted : List Action → W → Type 0
  Accounted log w = (made_jobs log ≡ 0) ⊎ ((made_jobs log ≡ 1) × I w)

  guarded-made_jobs :
      (task : Task) (run : Run W) (log : List Action)
      → IsGuarded r task run log
      → (made_jobs log ≡ 0) ⊎ ((made_jobs log ≡ 1) × (any makes_job log ≡ true))
  guarded-made_jobs task run log (inl clean) = inl (made_jobs-any log (makes-creates log clean))
  guarded-made_jobs task run log (inr g) =
      let after = made_jobs-any g.after (makes-creates g.after g.none_after) in
      let before = made_jobs-any g.before (makes-creates g.before g.none_before) in
      let count : made_jobs log ≡ (if makes_job g.create then 1 else 0) =
        ap made_jobs g.sequence
        ∙ ground (arith, made_jobs-append g.after (g.create ∷ g.before), after, before) in
      elim (Bool-cases (makes_job g.create)) [
        | inl made ↦ inr (
          ground arith,
          ap (any makes_job) g.sequence
              ∙ ground (arith, any-append makes_job g.after (g.create ∷ g.before)),
        )
        | inr failed ↦ inl (ground arith)
      ]

  module _ (keeps : KeepsJob r I key) where
    passed-Accounted :
        (task : Task) (log : List Action) (w : W)
        → Accounted log w
        → resource_key task ≡ key
        → (is_terminal task.status.phase ≡ true
            → I w
            → I (reconcile_task r task (record { world = w; log = [] })).1.world)
        → Accounted
            ((reconcile_task r task (record { world = w; log = [] })).1.log ++ log)
            (reconcile_task r task (record { world = w; log = [] })).1.world
    passed-Accounted task log w (inl none) named settled =
        let run : Run W = record { world = w; log = [] } in
        let kept =
          reconcile_task-Kept r I task run (I w) (subst (KeepsJob r I) (sym named) keeps) refl
            (λ i. i) settled in
        let p = (reconcile_task r task run).1 in
        elim (guarded-made_jobs task run p.log (reconcile_task-IsGuarded r task run refl)) [
          | inl none_made ↦ inl (ground (arith, made_jobs-append p.log log))
          | inr (one, made) ↦ inr (ground (arith, made_jobs-append p.log log), kept.made made)
        ]
    passed-Accounted task log w (inr (one, i)) named settled =
        let run : Run W = record { world = w; log = [] } in
        let kept =
          reconcile_task-Kept r I task run (I w) (subst (KeepsJob r I) (sym named) keeps) refl
            (λ i. i) settled in
        let p = (reconcile_task r task run).1 in
        inr (
          ground (arith, made_jobs-append p.log log, made_jobs-any p.log (kept.clean i)),
          kept.lasts i,
        )

    Life-Accounted : {start w : W} {log : List Action} → Life start log w → Accounted log w
    Life-Accounted unborn = inl refl
    Life-Accounted (passed {log} {w} task life named settled) =
        passed-Accounted task log w (Life-Accounted life) named settled
    Life-Accounted (meanwhile life kept) = elim (Life-Accounted life) [
      | inl none_made ↦ inl none_made
      | inr (one, i) ↦ inr (one, kept i)
    ]

    -- Over the life of a Task, in any sequence of reconciles on any versions of it, stale ones too, and
    -- of changes between them, the controller makes at most one Job. The conditions are that nothing in
    -- the sequence deletes that Job, and that while it exists, the controller reads it or the API server
    -- refuses another one with its name.
    pub Life-made_jobs : {start w : W} {log : List Action} → Life start log w → made_jobs log ≤ 1
    Life-made_jobs life = elim (Life-Accounted life) [
      | inl none_made ↦ ground arith
      | inr (one, i) ↦ ground arith
    ]
