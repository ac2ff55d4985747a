-- ===== src/Examples/Making.antt =====
-- The theorem on the Jobs of a Task, on an API server with room for one Job.
use openconveyor.Prelude.{false, true, ◌≡◌, ◌≤◌, refl, Option, none, some, is_some, inl, [], ◌++◌}
use openconveyor.Errors.{Err, err, is_not_found}
use openconveyor.Kube.{Job}
use openconveyor.Controller.Phase.{is_terminal}
use openconveyor.Controller.Cluster.{Kind, Run}
use openconveyor.Controller.Ensure.{job_kind, resource_key}
use openconveyor.Controller.Ensure.Lasting.{Spares}
use openconveyor.Controller.Reconciler.{Reconciler}
use openconveyor.Controller.Reconcile.{reconcile_task}
use openconveyor.Controller.Reconcile.Single.{KeepsJob}
use openconveyor.Controller.Reconcile.Once.{made_jobs, Life, unborn, passed, Life-made_jobs}
use openconveyor.Examples.Instances.{task}
use openconveyor.Examples.Ensuring.{read_one, one_object, forgetful, clients_with}
use openconveyor.Examples.Reconciling.{reconciler_with}

abbrev Exists : Option Job → Type 0
Exists w = is_some w ≡ true

abbrev one_job : Reconciler (Option Job)
one_job = reconciler_with (clients_with (one_object job_kind))

forgetful-Spares : {T : Type 0} (kind : Kind T) → Spares Exists kind (forgetful kind)
unfolding forgetful
forgetful-Spares kind = record {
  get = λ key w i. i;
  create = λ t w i. i;
  update = λ t w i. i;
  remove = λ key w i. i;
}

read_one-Exists : (w : Option Job) → Exists w → Exists (read_one job_kind w).1
unfolding read_one
read_one-Exists (some job) i = refl
read_one-Exists none i = absurd (cc i)

read_one-found :
    (w : Option Job)
    → Exists w
    → (e : Err) → (read_one job_kind w).0 ≡ err e
    → is_not_found e ≡ false
unfolding read_one
read_one-found (some job) i e h = absurd (cc h)
read_one-found none i e h = absurd (cc i)

one_job-KeepsJob : KeepsJob one_job Exists (resource_key task)
unfolding one_object
one_job-KeepsJob = record {
  classes = λ name w i. i;
  others = record {
    accounts = forgetful-Spares _;
    roles = forgetful-Spares _;
    bindings = forgetful-Spares _;
    policies = forgetful-Spares _;
    maps = forgetful-Spares _;
  };
  jobs = record {
    get = read_one-Exists;
    create = λ t w i. refl;
    made = λ t u w k h. refl;
    known = λ w i. inl (read_one-found w i);
  };
  updates = λ t w i. i;
}

alive : is_terminal task.status.phase ≡ false
unfolding is_terminal
alive = refl

abbrev first : Run (Option Job)
first = (reconcile_task one_job task (record { world = none; log = [] })).1

abbrev second : Run (Option Job)
second = (reconcile_task one_job task (record { world = first.world; log = [] })).1

two_passes :
    Life one_job Exists (resource_key task) none (second.log ++ (first.log ++ [])) second.world
two_passes =
    passed task (passed task unborn refl (λ t. absurd (cc (t, alive)))) refl
      (λ t. absurd (cc (t, alive)))

Life-made_jobs_example : made_jobs (second.log ++ (first.log ++ [])) ≤ 1
Life-made_jobs_example =
    Life-made_jobs one_job Exists (resource_key task) one_job-KeepsJob two_passes
