-- ===== src/Controller/Reconcile/Agreement.antt =====
-- The Ready condition of a stored Task against its phase.
use openconveyor.Prelude.{
  ℕ, true, ◌≡◌, refl, sym, ap, subst, ◌∙◌, ◌⊎◌, inl, inr, some, List, [], ◌∷◌, ◌++◌, Text, all, All,
  All-append, arith, Bool-cases,
}
use openconveyor.Kube.{Time, Condition, ConditionStatus, is_true, is_false, is_unknown}
use openconveyor.Api.{Task, TaskPhase, unset, pending, running, completed, failed, timed_out}
use openconveyor.Controller.Phase.{condition_ready, condition_status_for}
use openconveyor.Controller.Report.Kept.{Keeps}
use openconveyor.Controller.Cluster.{Action, status_written, Run}
use openconveyor.Controller.Cluster.Trace.{is_report, is_status, statuses}
use openconveyor.Controller.Reconciler.{Reconciler}
use openconveyor.Controller.Status.{set_ready, status_of_job, invalid_task, waiting_task}
use openconveyor.Controller.Status.Causes.{
  Cause, invalid, no_class, follows, result_only, Because, Caused, Reports,
}
use openconveyor.Controller.Status.Failing.{Wrote}
use openconveyor.Controller.Reconcile.{reconcile_task}
use openconveyor.Controller.Reconcile.Caused.{reconcile_task-Reports}
use openconveyor.Controller.Reconcile.Lifecycle.{
  All-member, Step, reconciled, edited, Reach, here, next,
}

statuses-member :
    (newer : List Action) (v : Task) (older : List Action)
    → statuses (newer ++ (status_written v true ∷ older))
      ≡ statuses newer ++ (status_written v true ∷ statuses older)
statuses-member [] v older = refl
statuses-member (a ∷ newer) v older = elim (Bool-cases (is_status a)) [
  | inl counts ↦ rw counts (ap (λ l. a ∷ l) (statuses-member newer v older))
  | inr skipped ↦ rw skipped (statuses-member newer v older)
]

module _ {W : Type 0} (r : Reconciler W) where
  -- A successful write has a cause.
  abbrev HasCause : Run W → Task → Action → Type 0
  HasCause run t a = (v : Task) → a ≡ status_written v true → (count : ℕ) × Caused r t run v count

  report-HasCause : (run : Run W) (t : Task) (a : Action) → is_report a ≡ true → HasCause run t a
  report-HasCause run t a h v e = absurd (cc (h, ap is_report e))

  reports-HasCause :
      (run : Run W) (t : Task) (tells : List Action)
      → all is_report tells ≡ true
      → All (HasCause run t) tells
  reports-HasCause run t [] h = tt
  reports-HasCause run t (a ∷ tells) h =
      (report-HasCause run t a (ground arith), reports-HasCause run t tells (ground arith))

  Reports-HasCause :
      (run : Run W) (t : Task) (log : List Action)
      → Reports r t run [] log
      → All (HasCause run t) (statuses log)
  Reports-HasCause run t log (inl e) = subst (All (HasCause run t)) (sym e) tt
  Reports-HasCause run t log (inr (u, n, c, inl e)) =
      subst (All (HasCause run t)) (sym e) ((λ v h. absurd (cc h)), tt)
  Reports-HasCause run t log (inr (u, n, c, inr (tells, told, e))) =
      let own : HasCause run t (status_written u true) =
        λ v h. (n, subst (λ x. Caused r t run x n) (cc h) c) in
      subst (All (HasCause run t)) (sym e) (
        All-append (HasCause run t) tells (status_written u true ∷ [])
          (reports-HasCause run t tells told.reports) (own, tt))

  pub written-Caused :
      (t v : Task) (run : Run W)
      → run.log ≡ []
      → Wrote v (reconcile_task r t run).1.log
      → (count : ℕ) × Caused r t run v count
  written-Caused t v run fresh (newer, older, e) =
      let log = (reconcile_task r t run).1.log in
      let all =
        Reports-HasCause run t log
          (subst (λ l. Reports r t run l log) fresh (reconcile_task-Reports r t run)) in
      All-member (HasCause run t) (statuses newer) (status_written v true) (statuses older)
        (subst (All (HasCause run t)) (ap statuses e ∙ statuses-member newer v older) all) v refl

  -- The status of the Ready condition in each phase.
  abbrev pub Shows : TaskPhase → ConditionStatus → Type 0
  Shows completed s = s ≡ is_true
  Shows failed s = s ≡ is_false
  Shows timed_out s = s ≡ is_false
  Shows _ s = s ≡ is_unknown

  condition_status_for-Shows : (p : TaskPhase) → Shows p (condition_status_for p)
  unfolding condition_status_for
  condition_status_for-Shows completed = refl
  condition_status_for-Shows failed = refl
  condition_status_for-Shows timed_out = refl
  condition_status_for-Shows unset = refl
  condition_status_for-Shows pending = refl
  condition_status_for-Shows running = refl

  -- The Task was never written, or it has a Ready condition with the status of its phase, for the
  -- generation that the status is about.
  pub record Agreed (t : Task) : Type 0 where
    pub condition : Condition
    pub found : r.machinery.find t.status.conditions condition_ready ≡ some condition
    pub status : Shows t.status.phase condition.status
    pub generation : condition.observed_generation ≡ t.status.observed_generation

  abbrev pub Agrees : Task → Type 0
  Agrees t = (t.status.phase ≡ unset) ⊎ Agreed t

  set_ready-found :
      (now : Time) (t : Task) (status : ConditionStatus) (reason msg : Text)
      → (d : Condition) × (r.machinery.find (set_ready r now t status reason msg) condition_ready
          ≡ some d)
        × (d.status ≡ status)
        × (d.observed_generation ≡ t.meta.generation)
  unfolding set_ready
  set_ready-found now t status reason msg =
      let (d, there, same) = r.machinery.find-set_self now t.status.conditions _ in
      (d, there, sym same.status, sym same.observed_generation)

  set_ready-Agreed :
      (now : Time) (t v : Task) (reason msg : Text)
      → v.status.conditions ≡ set_ready r now t (condition_status_for v.status.phase) reason msg
      → v.status.observed_generation ≡ t.meta.generation
      → Agreed v
  set_ready-Agreed now t v reason msg e g =
      let (d, there, s, o) =
        set_ready-found now t (condition_status_for v.status.phase) reason msg in
      record {
        condition = d;
        found = ap (λ cs. r.machinery.find cs condition_ready) e ∙ there;
        status = subst (Shows v.status.phase) (sym s) (condition_status_for-Shows v.status.phase);
        generation = o ∙ sym g;
      }

  Keeps-Agrees : (t v : Task) → Keeps r.machinery t v → Agrees t → Agrees v
  Keeps-Agrees t v k (inl never) = inl (ap (λ x. x.status.phase) k.only ∙ never)
  Keeps-Agrees t v k (inr a) = inr (record {
    condition = a.condition;
    found = k.ready ∙ a.found;
    status = subst (λ x. Shows x.status.phase a.condition.status) (sym k.only) a.status;
    generation = a.generation ∙ ap (λ x. x.status.observed_generation) (sym k.only);
  })

  Because-Agrees :
      (run : Run W) (t v : Task) (c : Cause) → Because r t run c v → Agrees t → Agrees v
  unfolding invalid_task waiting_task status_of_job condition_status_for
  Because-Agrees run t v (invalid reason e) (now, made, phase, shown, why) before =
      subst Agrees (sym made)
        (inr (set_ready-Agreed now t (invalid_task r now t reason (r.error_text e)) _ _ refl refl))
  Because-Agrees run t v no_class (now, made, phase, shown, e, answered, missing) before =
      subst Agrees (sym made) (inr (set_ready-Agreed now t (waiting_task r now t) _ _ refl refl))
  Because-Agrees run t v (follows job) (now, kept, phase, shown, ended) before =
      Keeps-Agrees (status_of_job r now t job) v kept
        (inr (set_ready-Agreed now t (status_of_job r now t job) _ _ refl refl))
  Because-Agrees run t v result_only (terminal, kept) before = Keeps-Agrees t v kept before

  Agrees-status : (t u : Task) → u.status ≡ t.status → Agrees t → Agrees u
  Agrees-status t u e (inl never) = inl (ap (λ s. s.phase) e ∙ never)
  Agrees-status t u e (inr a) = inr (record {
    condition = a.condition;
    found = ap (λ s. r.machinery.find s.conditions condition_ready) e ∙ a.found;
    status = subst (λ s. Shows s.phase a.condition.status) (sym e) a.status;
    generation = a.generation ∙ ap (λ s. s.observed_generation) (sym e);
  })

  Step-Agrees : (t u : Task) → Step r t u → Agrees t → Agrees u
  Step-Agrees t u (reconciled run v fresh wrote e) before =
      let (count, (cause, why, n)) = written-Caused t v run fresh wrote in
      Agrees-status v u (ap (λ x. x.status) e) (Because-Agrees run t v cause why before)
  Step-Agrees t u (edited meta spec e) before = Agrees-status t u (ap (λ x. x.status) e) before

  -- In every state that a Task reaches by the writes of reconciles and by edits, it was never
  -- written, or its Ready condition is there with the status of its phase: true if it is Completed,
  -- false if it is Failed or TimedOut, unknown otherwise. The condition is about the generation that
  -- the status says it has seen.
  pub Reach-Agrees : {t u : Task} → Agrees t → Reach r t u → Agrees u
  Reach-Agrees before here = before
  Reach-Agrees before (next {u} {v} reach step) = Step-Agrees u v step (Reach-Agrees before reach)
