-- ===== src/Process/Options/Selection.antt =====
-- The pods that the cache of the manager holds.
use openconveyor.Prelude.{
  Bool, true, false, ℕ, List, not, ◌||◌, ◌≡◌, ◌≢◌, refl, ap, Option, none, some, [], ◌∷◌, Text,
  text_eq, text_eq_iff, is_empty, Map, lookup, lookup_text, all, arith, Bool-cases, inl, inr,
  if◌then◌else◌,
}
use openconveyor.Errors.{ok}
use openconveyor.Kube.{Key, Job}
use openconveyor.Api.{Task, ClusterAgentClass}
use openconveyor.Machinery.{Machinery}
use openconveyor.Policy.Config.{Decoder}
use openconveyor.Controller.Build.{build_job, pod_labels}
use openconveyor.Controller.Build.Named.{build_job-named}
use openconveyor.Controller.Report.Labelled.{task_for_pod-pod_labels}
use openconveyor.Policy.Labels.{label_task_name, label_managed_by, managed_by_value}
use openconveyor.Controller.Report.{task_for_pod}
use openconveyor.Process.Options.{Requirement, exists, equals, task_pod_selector}

text_of : Option Text → Text
text_of none = []
text_of (some v) = v

both_there :
    (a b : Option Text) (key : Key)
    → (if is_empty (text_of a) || not (text_eq (text_of b) managed_by_value) then [] else key ∷ [])
      ≢ []
    → (v : Text) × (a ≡ some v) × (b ≡ some managed_by_value)
unfolding text_of text_eq
both_there none b key wakes = absurd (wakes refl)
both_there (some v) none key wakes = absurd (wakes (ground arith))
both_there (some v) (some w) key wakes = elim (Bool-cases (text_eq w managed_by_value)) [
  | inl same ↦ (v, refl, ap some ((text_eq_iff w managed_by_value).0 same))
  | inr other ↦ absurd (wakes (ground (arith, other)))
]

-- Labels meet `exists` if they have the key, and `equals` if the key has the value.
module _ (meets : Map Text → Requirement → Bool)
    (meets_exists : (labels : Map Text) (key value : Text)
      → lookup key labels ≡ some value
      → meets labels (exists key) ≡ true)
    (meets_equals : (labels : Map Text) (key value : Text)
      → lookup key labels ≡ some value
      → meets labels (equals key value) ≡ true) where
  waking_meets :
      (labels : Map Text) (namespace : Text)
      → task_for_pod labels namespace ≢ []
      → all (meets labels) task_pod_selector ≡ true
  unfolding task_pod_selector task_for_pod lookup_text text_of
  waking_meets labels namespace wakes =
      let (v, named, managed) =
        both_there (lookup label_task_name labels) (lookup label_managed_by labels)
          (record { namespace = namespace; name = lookup_text label_task_name labels }) wakes in
      rw
        (
          meets_exists labels label_task_name v named,
          meets_equals labels label_managed_by managed_by_value managed,
        )
        refl

  -- The pods of the Job that buildJob makes for a named Task are in the cache of the manager, as the
  -- labels of the Job's template meet the requirements of its selector; and so is every other pod
  -- whose event would wake a Task.
  pub meets-task_pod_selector :
      (machinery : Machinery) (decode : Decoder) (task : Task) (agent : ClusterAgentClass)
      (secrets : List Text) (ttl_seconds : ℕ) (job : Job)
      → is_empty task.meta.name ≡ false
      → build_job machinery decode task agent secrets ttl_seconds ≡ ok job
      → (all (meets job.spec.template.labels) task_pod_selector ≡ true)
        × ((labels : Map Text) (namespace : Text)
            → task_for_pod labels namespace ≢ []
            → all (meets labels) task_pod_selector ≡ true)
  meets-task_pod_selector machinery decode task agent secrets ttl_seconds job named made =
      let (name, namespace, labels) =
        build_job-named machinery decode task agent secrets ttl_seconds job made in
      (
        rw labels (
            waking_meets (pod_labels task) task.meta.namespace
              (λ none_woken. absurd (cc (none_woken, task_for_pod-pod_labels task named)))),
        waking_meets,
      )
