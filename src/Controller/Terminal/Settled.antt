-- ===== src/Controller/Terminal/Settled.antt =====
-- How the Result of a terminal Task is recorded.
use openconveyor.Prelude.{
  Bool, ℕ, true, false, ◌||◌, ◌≡◌, refl, subst, ◌⊎◌, inl, inr, Option, none, some, List, [], ◌∷◌,
  Text, is_empty, arith, Bool-cases,
}
use openconveyor.Errors.{Err, Result, ok, err, ok-injective}
use openconveyor.Kube.{Time, Key, Job}
use openconveyor.Api.{Task}
use openconveyor.Controller.Phase.{is_terminal, equal_status}
use openconveyor.Controller.Cluster.{Object, found, Run, read_answer, try_get}
use openconveyor.Controller.Ensure.{job_kind}
use openconveyor.Controller.Report.{result_requeue, PodLister, result_decided, observe_result}
use openconveyor.Controller.Report.Observed.{observe_result-Observes, decided-set_result_condition}
use openconveyor.Controller.Report.Kept.{Keeps, set_result_condition-Keeps, observe_result-Keeps}
use openconveyor.Controller.Reconciler.{Reconciler}
use openconveyor.Controller.Status.{write_status, delayed}
use openconveyor.Controller.Terminal.{
  without_job, store_result, observe_terminal, read_job, record_terminal_result,
}

either_true : (a b : Bool) → (a || b) ≡ true → (a ≡ true) ⊎ (b ≡ true)
either_true true b h = inl refl
either_true false b h = inr h

module _ {W : Type 0} (r : Reconciler W) (task : Task) where
  -- A status that differs in the Result and its condition alone, and only while there is no Result.
  pub record Settles (u : Task) : Type 0 where
    pub keeps : Keeps r.machinery task u
    pub open_yet : result_decided r.machinery task ≡ false
    pub closes : (u ≡ task) ⊎ (result_decided r.machinery u ≡ true)

  -- There is a Result, or the reconcile of a terminal Task comes again for it.
  abbrev pub Returns : Task → ℕ → Type 0
  Returns u requeue =
      (result_decided r.machinery u ≡ true)
      ⊎ ((requeue ≡ result_requeue) ⊎ (is_terminal task.status.phase ≡ false))

  -- The log at most gets the Job that was read.
  abbrev pub Reads : Run W → Run W → Type 0
  Reads run next = (next.log ≡ run.log) ⊎ ((o : Object) × (next.log ≡ found o ∷ run.log))

  abbrev SettlesPair : Task × ℕ → Type 0
  SettlesPair p = Settles p.0 × Returns p.0 p.1

  -- How the Result of a terminal Task is recorded.
  pub data Recording (run : Run W) (p : Result (Task × ℕ) × Run W) : Type 0 where
    untouched :
        (result_decided r.machinery task ≡ true) ⊎ (is_empty task.status.job_name ≡ true)
        → p ≡ (ok (task, 0), run)
        → Recording run p
    failed : (e : Err) (next : Run W) → Reads run next → p ≡ (err e, next) → Recording run p
    same :
        (u : Task) (requeue : ℕ) (next : Run W)
        → Reads run next
        → Settles u
        → Returns u requeue
        → equal_status r.machinery task.status u.status ≡ true
        → p ≡ (ok (u, requeue), next)
        → Recording run p
    stored :
        (u : Task) (requeue : ℕ) (next : Run W)
        → Reads run next
        → Settles u
        → Returns u requeue
        → p ≡ delayed requeue (write_status r (λ answer after. after) u next)
        → Recording run p

  store_result-Recording :
      (run next : Run W) (observed : Result (Task × ℕ))
      → Reads run next
      → ((u : Task) (requeue : ℕ) → observed ≡ ok (u, requeue) → SettlesPair (u, requeue))
      → Recording run (store_result r task observed next)
  unfolding store_result
  store_result-Recording run next (err e) reads settles = failed e next reads refl
  store_result-Recording run next (ok (u, requeue)) reads settles =
      let (s, back) = settles u requeue refl in
      elim (Bool-cases (equal_status r.machinery task.status u.status)) [
        | inl equal ↦ rw equal (same u requeue next reads s back equal refl)
        | inr differs ↦ rw differs (stored u requeue next reads s back refl)
      ]

  observed-Settles :
      (now : Time) (pods : PodLister) (uid : Text) (egress : List Text) (u : Task) (requeue : ℕ)
      → result_decided r.machinery task ≡ false
      → observe_result r.machinery r.parsers r.net now r.result_wait pods task uid egress
        ≡ ok (u, requeue)
      → Settles u
  observed-Settles now pods uid egress u requeue unset h = record {
    keeps =
        observe_result-Keeps r.machinery r.parsers r.net now r.result_wait task egress pods uid u
          requeue h;
    open_yet = unset;
    closes =
        elim (observe_result-Observes r.machinery r.parsers r.net now r.result_wait pods task uid
          egress u requeue h) [
            | inl (e, z, why) ↦ inl e
            | inr (inl (e, z, t, o)) ↦ inl e
            | inr (inr (inl got)) ↦ inr got.decided
            | inr (inr (inr gone)) ↦ inr gone.decided
          ];
  }

  without_job-SettlesPair :
      (now : Time)
      → result_decided r.machinery task ≡ false
      → SettlesPair (without_job r now task, 0)
  unfolding without_job
  without_job-SettlesPair now unset =
      let decided =
        decided-set_result_condition r.machinery r.parsers r.net now r.result_wait
          (λ namespace selector. ok []) task [] [] task _ _ in
      (
        record {
          keeps = set_result_condition-Keeps r.machinery now task _ _;
          open_yet = unset;
          closes = inr decided;
        },
        inl decided,
      )

  observed-Returns :
      (now : Time) (pods : PodLister) (uid : Text) (egress : List Text) (u : Task) (requeue : ℕ)
      → result_decided r.machinery task ≡ false
      → observe_result r.machinery r.parsers r.net now r.result_wait pods task uid egress
        ≡ ok (u, requeue)
      → Returns u requeue
  observed-Returns now pods uid egress u requeue unset h =
      elim (observe_result-Observes r.machinery r.parsers r.net now r.result_wait pods task uid
        egress u requeue h) [
          | inl (e, z, inl decided) ↦ absurd (cc (decided, unset))
          | inl (e, z, inr alive) ↦ inr (inr alive)
          | inr (inl (e, again, t, o)) ↦ inr (inl again)
          | inr (inr (inl got)) ↦ inl got.decided
          | inr (inr (inr gone)) ↦ inl gone.decided
        ]

  read_job-Recording :
      (run next : Run W) (found_job : Result (Option Job))
      → result_decided r.machinery task ≡ false
      → Reads run next
      → Recording run (read_job r task (found_job, next))
  unfolding read_job observe_terminal
  read_job-Recording run next (err e) unset reads = failed _ next reads refl
  read_job-Recording run next (ok none) unset reads =
      let gone = without_job r (r.clock next.world) task in
      store_result-Recording run next (ok (gone, 0)) reads (λ u requeue h.
        subst SettlesPair (ok-injective (gone, 0) (u, requeue) h)
          (without_job-SettlesPair (r.clock next.world) unset))
  read_job-Recording run next (ok (some job)) unset reads =
      let answer = r.get_class task.spec.agent.ref next.world in
      store_result-Recording run (record { world = answer.1; log = next.log }) _ reads
        (λ u requeue h.
          (observed-Settles _ _ _ _ u requeue unset h, observed-Returns _ _ _ _ u requeue unset h))

  read_answer-Reads :
      (run : Run W) (a : Result Job × W)
      → Reads run (read_answer job_kind r.clients.jobs run.log a).1
  unfolding read_answer
  read_answer-Reads run (ok job, world) = inr (Object.job job, refl)
  read_answer-Reads run (err e, world) = inl refl

  try_get-Reads : (key : Key) (run : Run W) → Reads run (try_get job_kind r.clients.jobs key run).1
  unfolding try_get
  try_get-Reads key run = read_answer-Reads run (r.clients.jobs.get key run.world)

  pub record_terminal_result-Recording :
      (run : Run W) → Recording run (record_terminal_result r task run)
  unfolding record_terminal_result
  record_terminal_result-Recording run =
      elim (Bool-cases (result_decided r.machinery task || is_empty task.status.job_name)) [
        | inl skip ↦ rw skip (untouched (either_true _ _ skip) refl)
        | inr go ↦
            let key : Key = record {
              namespace = task.meta.namespace;
              name = task.status.job_name;
            } in
            let got = try_get job_kind r.clients.jobs key run in
            rw go (read_job-Recording run got.1 got.0 (ground arith) (try_get-Reads key run))
      ]
