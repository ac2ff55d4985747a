-- ===== src/Examples/Observing.antt =====
-- The theorems on the observation of Results, on one terminal Task and one pod.
use openconveyor.Prelude.{
  ℕ, pos, true, false, ◌≡◌, refl, some, [], ◌∷◌, codes, text_eq, is_empty, trim_space, trim_suffix,
}
use openconveyor.Errors.{ok, err, new}
use openconveyor.Kube.{Pod, empty_meta}
use openconveyor.Api.{Task, completed}
use openconveyor.Policy.Labels.{merge_string_sets}
use openconveyor.Policy.Egress.Traffic.{selects}
use openconveyor.Policy.Outcome.{host_allowed, host_name}
use openconveyor.Controller.Report.{
  PodLister, observe_result, result_decided, terminal_egress, task_for_pod,
}
use openconveyor.Controller.Report.Observed.{Observes, observe_result-Observes}
use openconveyor.Controller.Report.Labelled.{pod_labels_lem}
use openconveyor.Examples.Instances.{
  agent, small_decoder, small_net, small_resolver, small_parsers, entries, message, task, host,
}
use openconveyor.Examples.Conditions.{machinery}
use openconveyor.Examples.Tasks.{built, secrets}
use openconveyor.Examples.Network.{the_policy, policy_built}

abbrev pub finished_task : Task
finished_task = record task { status = record task.status { phase = completed } }

abbrev agent_pod : Pod
agent_pod = record {
  meta = record empty_meta {
    name = codes "t1-x";
    controller = some (record { kind = codes "Job"; uid = codes "u1" });
  };
  container_statuses = record { name = codes "agent"; terminated = some message } ∷ [];
}

abbrev pub pods : PodLister
pods namespace selector = ok (agent_pod ∷ [])

observed :
    (next : Task) × (delay : ℕ) × (observe_result machinery small_parsers small_net 100
        (pos 0)
        pods
        finished_task
        (codes "u1")
        entries
      ≡ ok (next, delay))
unfolding observe_result machinery result_decided
observed = (_, _, refl)

observe_result-Observes_example :
    Observes machinery small_parsers small_net 100
      (pos 0)
      pods
      finished_task
      (codes "u1")
      entries
      observed.0
      observed.1
observe_result-Observes_example =
    observe_result-Observes machinery small_parsers small_net 100 (pos 0) pods finished_task
      (codes "u1") entries observed.0 observed.1 observed.2

host_accepted :
    host_allowed small_parsers small_net host (terminal_egress task (err (new (codes "gone") [])))
    ≡ true
unfolding terminal_egress host_allowed host_name merge_string_sets text_eq trim_space trim_suffix
host_accepted = refl

task_named : is_empty task.meta.name ≡ false
task_named = refl

pod_labels_lem_example :
    (the_policy.meta.namespace ≡ built.0.meta.namespace)
    × (selects the_policy.pod_selector built.0.spec.template.labels ≡ true)
    × (task_for_pod built.0.spec.template.labels built.0.meta.namespace
        ≡ record { namespace = task.meta.namespace; name = task.meta.name } ∷ [])
pod_labels_lem_example =
    pod_labels_lem small_net small_resolver machinery small_decoder task agent secrets entries []
      3600 built.0 the_policy task_named built.2 policy_built
