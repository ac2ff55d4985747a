-- ===== src/Controller/Report/Labelled.antt =====
-- The labels of the pods of a Task tie them to its policy and to its reconciles.
use openconveyor.Prelude.{
  ℕ, true, false, ◌≡◌, refl, List, [], ◌∷◌, Text, text_eq, text_eq_refl, is_empty, lookup,
  lookup_text, store, copy, subst, arith,
}
use openconveyor.Errors.{ok, >>=-eq-ok, ok-injective}
use openconveyor.Kube.{NetworkPolicy, Job}
use openconveyor.Machinery.{Machinery}
use openconveyor.Policy.Config.{Decoder}
use openconveyor.Controller.Build.Named.{build_job-named}
use openconveyor.Net.{Net}
use openconveyor.Api.{Task, ClusterAgentClass}
use openconveyor.Policy.Labels.{pod_selector_labels, ownership_labels, owned_meta}
use openconveyor.Policy.Egress.{Resolver, build_network_policy, resolve_egress}
use openconveyor.Policy.Egress.Traffic.{selects}
use openconveyor.Controller.Build.{pod_labels, task_labels, build_job}
use openconveyor.Controller.Report.{task_for_pod}

selects-pod_labels :
    (task : Task) → selects (pod_selector_labels task.meta.name) (pod_labels task) ≡ true
unfolding selects pod_selector_labels pod_labels task_labels ownership_labels lookup store copy
    text_eq
selects-pod_labels task = ground (arith, text_eq_refl task.meta.name)

policy-selects :
    (net : Net) (resolver : Resolver) (task : Task) (egress : List Text) (ports : List ℕ)
    (p : NetworkPolicy)
    → build_network_policy net resolver task.meta.name task.meta.namespace egress ports ≡ ok p
    → (selects p.pod_selector (pod_labels task) ≡ true) × (p.meta.namespace ≡ task.meta.namespace)
unfolding build_network_policy owned_meta
policy-selects net resolver task egress ports p h =
    let (cidrs, resolved, made) = >>=-eq-ok (resolve_egress net resolver egress) _ h in
    subst
      (λ (q : NetworkPolicy).
        (selects q.pod_selector (pod_labels task) ≡ true)
        × (q.meta.namespace ≡ task.meta.namespace))
      (ok-injective _ p made) (selects-pod_labels task, refl)

pub task_for_pod-pod_labels :
    (task : Task)
    → is_empty task.meta.name ≡ false
    → task_for_pod (pod_labels task) task.meta.namespace
      ≡ record { namespace = task.meta.namespace; name = task.meta.name } ∷ []
unfolding task_for_pod pod_labels task_labels ownership_labels lookup_text lookup store copy text_eq
    pod_selector_labels
task_for_pod-pod_labels task named = rw named refl

module _ (net : Net) (resolver : Resolver) (machinery : Machinery) (decode : Decoder) (task : Task)
    (agent : ClusterAgentClass) (secrets egress : List Text) (ports : List ℕ)
    (ttl_seconds : ℕ) where
  -- For the Job and the NetworkPolicy that are built for a named Task: the policy is in the namespace
  -- of the Job, it selects every pod with the labels of the Job's template, and an event of such a
  -- pod wakes that Task and no other.
  pub pod_labels_lem :
      (job : Job) (p : NetworkPolicy)
      → is_empty task.meta.name ≡ false
      → build_job machinery decode task agent secrets ttl_seconds ≡ ok job
      → build_network_policy net resolver task.meta.name task.meta.namespace egress ports ≡ ok p
      → (p.meta.namespace ≡ job.meta.namespace)
        × (selects p.pod_selector job.spec.template.labels ≡ true)
        × (task_for_pod job.spec.template.labels job.meta.namespace
            ≡ record { namespace = task.meta.namespace; name = task.meta.name } ∷ [])
  pod_labels_lem job p named made allowed =
      let (name, namespace, labels) =
        build_job-named machinery decode task agent secrets ttl_seconds job made in
      let (selected, same) = policy-selects net resolver task egress ports p allowed in
      rw (labels, namespace) (same, selected, task_for_pod-pod_labels task named)
