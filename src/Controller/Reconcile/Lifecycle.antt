-- ===== src/Controller/Reconcile/Lifecycle.antt =====
-- The life of a stored Task, as a sequence of the writes of reconciles and the edits of its users.
use openconveyor.Prelude.{
  true, ◌≡◌, refl, sym, ap, subst, ◌∙◌, List, [], ◌∷◌, ◌++◌, any, any-append, All, is_some, arith,
}
use openconveyor.Kube.{ObjectMeta}
use openconveyor.Api.{Task, TaskSpec}
use openconveyor.Controller.Phase.{is_terminal, condition_ready}
use openconveyor.Controller.Report.{result_decided, condition_result}
use openconveyor.Controller.Cluster.{Action, status_written, Run}
use openconveyor.Controller.Cluster.Trace.{Adds}
use openconveyor.Controller.Ensure.Quiet.{creates_job}
use openconveyor.Controller.Reconciler.{Reconciler}
use openconveyor.Controller.Status.Failing.{Wrote}
use openconveyor.Controller.Terminal.Settled.{Settles}
use openconveyor.Controller.Terminal.Harmless.{Harmless, reconcile_terminal-Harmless}
use openconveyor.Controller.Reconcile.{reconcile_task}
use openconveyor.Controller.Reconcile.Idle.{Harmless-Idle}

pub All-member :
    (P : Action → Type 0) (newer : List Action) (a : Action) (older : List Action)
    → All P (newer ++ (a ∷ older))
    → P a
All-member P [] a older (p, h) = p
All-member P (x ∷ newer) a older (p, h) = All-member P newer a older h

append_nil : (xs : List Action) → xs ++ [] ≡ xs
append_nil [] = refl
append_nil (x ∷ xs) = ap (λ l. x ∷ l) (append_nil xs)

module _ {W : Type 0} (r : Reconciler W) where
  -- A write succeeds only on the version of the Task that the reconcile read, and changes the status
  -- only. An edit by a user changes anything else.
  pub data Step (t u : Task) : Type 0 where
    reconciled :
        (run : Run W) (v : Task)
        → run.log ≡ []
        → Wrote v (reconcile_task r t run).1.log
        → u ≡ record t { status = v.status }
        → Step t u
    edited :
        (meta : ObjectMeta) (spec : TaskSpec) → u ≡ record t { meta = meta; spec = spec } → Step t u

  pub data Reach (t : Task) : Task → Type 0 where
    here : Reach t t
    next : {u v : Task} → Reach t u → Step u v → Reach t v

  -- Nothing changes but the Result and its condition, and those only once.
  pub record Fixed (t u : Task) : Type 0 where
    pub phase : u.status.phase ≡ t.status.phase
    pub job_name : u.status.job_name ≡ t.status.job_name
    pub start_time : u.status.start_time ≡ t.status.start_time
    pub completion_time : u.status.completion_time ≡ t.status.completion_time
    pub ready :
        r.machinery.find u.status.conditions condition_ready
        ≡ r.machinery.find t.status.conditions condition_ready
    pub decided : result_decided r.machinery t ≡ true → u.status ≡ t.status

  same-Fixed : (t u : Task) → u.status ≡ t.status → Fixed t u
  same-Fixed t u e = record {
    phase = ap (λ s. s.phase) e;
    job_name = ap (λ s. s.job_name) e;
    start_time = ap (λ s. s.start_time) e;
    completion_time = ap (λ s. s.completion_time) e;
    ready = ap (λ s. r.machinery.find s.conditions condition_ready) e;
    decided = λ d. e;
  }

  decided_by_status :
      (t u : Task)
      → u.status ≡ t.status
      → result_decided r.machinery u ≡ result_decided r.machinery t
  unfolding result_decided
  decided_by_status t u e = ap (λ s. is_some (r.machinery.find s.conditions condition_result)) e

  then-Fixed : (t u v : Task) → Fixed t u → Fixed u v → Fixed t v
  then-Fixed t u v f g = record {
    phase = g.phase ∙ f.phase;
    job_name = g.job_name ∙ f.job_name;
    start_time = g.start_time ∙ f.start_time;
    completion_time = g.completion_time ∙ f.completion_time;
    ready = g.ready ∙ f.ready;
    decided = λ d. g.decided (decided_by_status t u (f.decided d) ∙ d) ∙ f.decided d;
  }

  Settles-Fixed : (t v : Task) → Settles r t v → Fixed t (record t { status = v.status })
  Settles-Fixed t v s = record {
    phase = ap (λ x. x.status.phase) s.keeps.only;
    job_name = ap (λ x. x.status.job_name) s.keeps.only;
    start_time = ap (λ x. x.status.start_time) s.keeps.only;
    completion_time = ap (λ x. x.status.completion_time) s.keeps.only;
    ready = s.keeps.ready;
    decided = λ d. absurd (cc (d, s.open_yet));
  }

  terminal-Adds :
      (t : Task) (run : Run W)
      → is_terminal t.status.phase ≡ true
      → Adds (Harmless r t) run.log (reconcile_task r t run).1.log
  unfolding reconcile_task
  terminal-Adds t run terminal = rw terminal (reconcile_terminal-Harmless r t run)

  written-Settles :
      (t v : Task) (run : Run W)
      → is_terminal t.status.phase ≡ true
      → run.log ≡ []
      → Wrote v (reconcile_task r t run).1.log
      → Settles r t v
  written-Settles t v run terminal fresh (newer, older, e) =
      let (new, f, all) = terminal-Adds t run terminal in
      let same : new ≡ newer ++ (status_written v true ∷ older) =
        sym (append_nil new) ∙ ap (λ l. new ++ l) (sym fresh) ∙ sym f ∙ e in
      All-member (Harmless r t) newer (status_written v true) older
        (subst (All (Harmless r t)) same all)

  Step-Fixed : (t u : Task) → Step t u → is_terminal t.status.phase ≡ true → Fixed t u
  Step-Fixed t u (reconciled run v fresh wrote e) terminal =
      subst (Fixed t) (sym e) (Settles-Fixed t v (written-Settles t v run terminal fresh wrote))
  Step-Fixed t u (edited meta spec e) terminal = same-Fixed t u (ap (λ x. x.status) e)

  Reach-Fixed : {t u : Task} → is_terminal t.status.phase ≡ true → Reach t u → Fixed t u
  Reach-Fixed {t} terminal here = same-Fixed t t refl
  Reach-Fixed {t} terminal (next {u} {v} reach step) =
      let fixed = Reach-Fixed terminal reach in
      then-Fixed t u v fixed
        (Step-Fixed u v step (subst (λ p. is_terminal p ≡ true) (sym fixed.phase) terminal))

  -- A terminal Task is final, whatever writes of reconciles and edits follow in whatever order: its
  -- phase, its Job, its times and its Ready condition never change, its Result is decided at most
  -- once, after which the whole status stays, and no reconcile of it creates a Job.
  pub Reach-IsFinal :
      (t u : Task)
      → is_terminal t.status.phase ≡ true
      → Reach t u
      → Fixed t u
        × ((run : Run W) → any creates_job (reconcile_task r u run).1.log ≡ any creates_job run.log)
  Reach-IsFinal t u terminal reach =
      let fixed = Reach-Fixed terminal reach in
      let still = subst (λ p. is_terminal p ≡ true) (sym fixed.phase) terminal in
      (
        fixed,
        λ run.
            let (after, e, idle) = Harmless-Idle r u run.log _ (terminal-Adds u run still) in
            ap (any creates_job) e ∙ ground (arith, any-append creates_job after run.log),
      )
