-- ===== src/Examples/Starting.antt =====
-- The theorems on the process, on a manager that refuses nothing.
use openconveyor.Prelude.{
  is_empty, Bool, true, false, ◌≡◌, ◌≢◌, refl, ap, ◌∙◌, Option, none, some, [], Text, codes,
  text_eq, text_eq_iff, is_some, lookup, Map, all,
}
use openconveyor.Errors.{ok}
use openconveyor.Examples.Instances.{task, agent, small_decoder}
use openconveyor.Examples.Conditions.{machinery}
use openconveyor.Examples.Tasks.{built, secrets}
use openconveyor.Controller.Report.{task_for_pod}
use openconveyor.Process.Options.{
  Requirement, exists, equals, Flags, default_flags, task_pod_selector, validate_job_ttl,
  check_task_ttl,
}
use openconveyor.Process.Options.Selection.{meets-task_pod_selector}
use openconveyor.Process.Running.{Manager, run, setup_trigger}
use openconveyor.Process.Running.Start.{Running, run-Running}

abbrev accepting : Manager
accepting = record {
  new_manager = λ options. ok tt;
  set_up_controller = λ config. ok tt;
  add = λ server. ok tt;
  add_healthz_check = ok tt;
  add_readyz_check = ok tt;
  start = ok tt;
}

-- With the adapter on port 9090.
abbrev flags : Flags
flags = record default_flags { trigger_addr = codes ":9090" }

runs : run accepting [] flags ≡ ok tt
unfolding run validate_job_ttl check_task_ttl setup_trigger
runs = refl

run-Running_example : Running accepting [] flags
run-Running_example = (run-Running accepting [] flags).0 runs

has_value : Text → Option Text → Bool
has_value v none = false
has_value v (some w) = text_eq w v

meets : Map Text → Requirement → Bool
unfolding has_value
meets labels (exists key) = is_some (lookup key labels)
meets labels (equals key value) = has_value value (lookup key labels)

meets_exists :
    (labels : Map Text) (key value : Text)
    → lookup key labels ≡ some value
    → meets labels (exists key) ≡ true
unfolding meets
meets_exists labels key value h = ap is_some h

meets_equals :
    (labels : Map Text) (key value : Text)
    → lookup key labels ≡ some value
    → meets labels (equals key value) ≡ true
unfolding meets has_value
meets_equals labels key value h = ap (has_value value) h ∙ (text_eq_iff value value).1 refl

task_named : is_empty task.meta.name ≡ false
task_named = refl

meets-task_pod_selector_example :
    (all (meets built.0.spec.template.labels) task_pod_selector ≡ true)
    × ((labels : Map Text) (namespace : Text)
        → task_for_pod labels namespace ≢ []
        → all (meets labels) task_pod_selector ≡ true)
meets-task_pod_selector_example =
    meets-task_pod_selector meets meets_exists meets_equals machinery small_decoder task agent
      secrets 3600 built.0 task_named built.2
