-- ===== src/Examples/Reconciling.antt =====
-- The theorems on a whole reconcile, on an API server that keeps nothing.
use openconveyor.Prelude.{
  inr, List, sym, false, pos, true, none, some, ◌≡◌, refl, inl, ◌↔◌, [], ◌∷◌, codes, text_eq, any,
  subst,
}
use openconveyor.Errors.{new, Result, ok, is_not_found}
use openconveyor.Api.{Task, unset, phase_eq}
use openconveyor.Controller.Phase.{is_terminal, equal_status, deletion_deadline}
use openconveyor.Controller.Cluster.{Run, try_get}
use openconveyor.Controller.Cluster.Trace.{Adds}
use openconveyor.Controller.Ensure.Quiet.{creates_job}
use openconveyor.Controller.Reconciler.{Reconciler, SameTask}
use openconveyor.Controller.Validate.{validate_task}
use openconveyor.Controller.Report.{result_decided, set_result_condition}
use openconveyor.Controller.Status.{fail_task}
use openconveyor.Controller.Status.Failing.{Wrote, Fails, fail_task-Fails}
use openconveyor.Controller.Terminal.{
  record_terminal_result, collect_terminal, reconcile_terminal, task_key,
}
use openconveyor.Controller.Terminal.Harmless.{Harmless, reconcile_terminal-Harmless}
use openconveyor.Controller.Reconcile.{index_agent_ref, reconcile_task, tasks_for_agent_class}
use openconveyor.Controller.Reconcile.Guarded.{IsGuarded, reconcile_task-IsGuarded}
use openconveyor.Controller.Reconcile.Lifecycle.{
  edited, reconciled, Reach, here, next, Fixed, Reach-IsFinal,
}
use openconveyor.Controller.Reconcile.Agreement.{Agrees, Reach-Agrees}
use openconveyor.Controller.Reconcile.Awakened.{Listed, tasks_for_agent_class_iff}
use openconveyor.Controller.Provision.{Clients}
use openconveyor.Examples.Instances.{
  small_net, small_resolver, small_parsers, small_decoder, task, agent,
}
use openconveyor.Examples.Conditions.{machinery}
use openconveyor.Examples.Ensuring.{clients, fresh_run, forgetful}
use openconveyor.Examples.Observing.{finished_task, pods}

pub answer_keeps :
    {W : Type 0} (t answer : Task) (world after : W)
    → ◌≡◌ {A = Result Task × W} (ok t, world) (ok answer, after)
    → SameTask t answer
answer_keeps t answer world after h =
    let same : t ≡ answer = cc h in
    subst (SameTask t) same (record { name = refl; namespace = refl; uid = refl })

abbrev pub reconciler_with : {W : Type 0} → Clients W → Reconciler W
reconciler_with clients = record {
  clients = clients;
  get_task = λ key world. (ok task, world);
  get_class = λ name world. (ok agent, world);
  update_status = λ t world. (ok t, world);
  update_status_keeps = answer_keeps;
  delete_task = λ key uid world. (ok tt, world);
  tasks_of_class = λ name world. (ok (task ∷ finished_task ∷ []), world);
  list_pods = λ world. pods;
  clock = λ world. 100;
  net = small_net;
  resolver = small_resolver;
  machinery = machinery;
  decode = small_decoder;
  parsers = small_parsers;
  error_text = λ e. codes "error";
  quote = λ t. t;
  has_recorder = true;
  egress_refresh_interval = pos 300_000_000_000;
  job_ttl_seconds = 3600;
  default_task_ttl_seconds = some 0;
  result_wait = pos 0;
}

abbrev pub reconciler : Reconciler (Unit {0})
reconciler = reconciler_with clients

reconcile_task-IsGuarded_example :
    IsGuarded reconciler task fresh_run (reconcile_task reconciler task fresh_run).1.log
reconcile_task-IsGuarded_example = reconcile_task-IsGuarded reconciler task fresh_run refl

reconcile_terminal-Harmless_example :
    Adds
      (Harmless reconciler finished_task)
      []
      (reconcile_terminal reconciler finished_task fresh_run).1.log
reconcile_terminal-Harmless_example = reconcile_terminal-Harmless reconciler finished_task fresh_run

finished : is_terminal finished_task.status.phase ≡ true
unfolding is_terminal
finished = refl

fail_task-Fails_example :
    Fails reconciler task
      (codes "InvalidSpec")
      (new (codes "bad") [])
      fresh_run.world
      (fail_task reconciler task (codes "InvalidSpec") (new (codes "bad") []) fresh_run)
fail_task-Fails_example =
    fail_task-Fails reconciler task (codes "InvalidSpec") (new (codes "bad") []) fresh_run

-- The Job of the Task is gone, and its status gets a Result condition.
settled : (v : Task) × Wrote v (reconcile_task reconciler finished_task fresh_run).1.log
unfolding reconcile_task is_terminal record_terminal_result result_decided machinery try_get
    forgetful is_not_found equal_status phase_eq set_result_condition text_eq collect_terminal
    deletion_deadline
settled = (_, ([], [], refl))

abbrev settled_task : Task
settled_task = record finished_task { status = settled.0.status }

abbrev edited_task : Task
edited_task = record settled_task {
  spec = record settled_task.spec { ttl_seconds_after_finished = some 0 };
}

settled_then_edited : Reach reconciler finished_task edited_task
settled_then_edited =
    next (next here (reconciled fresh_run settled.0 refl settled.1 refl))
      (edited settled_task.meta edited_task.spec refl)

Reach-IsFinal_example :
    Fixed reconciler finished_task edited_task
    × ((run : Run (Unit {0}))
        → any creates_job (reconcile_task reconciler edited_task run).1.log
          ≡ any creates_job run.log)
Reach-IsFinal_example =
    Reach-IsFinal reconciler finished_task edited_task finished settled_then_edited

-- A Task that nobody has written yet, and that has no agent.
abbrev nameless_task : Task
nameless_task = record task {
  spec = record task.spec { agent = record { ref = []; config = none } };
  status = record {
    phase = unset;
    observed_generation = 0;
    job_name = [];
    start_time = none;
    completion_time = none;
    task_result = none;
    conditions = [];
  };
}

refused_task : (v : Task) × Wrote v (reconcile_task reconciler nameless_task fresh_run).1.log
unfolding reconcile_task is_terminal validate_task fail_task phase_eq
refused_task = (_, (_ ∷ _ ∷ [], _ ∷ [], refl))

Reach-Agrees_example : Agrees reconciler (record nameless_task { status = refused_task.0.status })
Reach-Agrees_example =
    Reach-Agrees reconciler (inl refl)
      (next here (reconciled fresh_run refused_task.0 refl refused_task.1 refl))

abbrev stored : List Task
stored = task ∷ finished_task ∷ []

indexed_coder : (t : Task) → Listed t stored → Listed (codes "coder") (index_agent_ref t)
unfolding index_agent_ref
indexed_coder t (inl e) = subst (λ x. Listed (codes "coder") (index_agent_ref x)) (sym e) (inl refl)
indexed_coder t (inr (inl e)) =
    subst (λ x. Listed (codes "coder") (index_agent_ref x)) (sym e) (inl refl)
indexed_coder t (inr (inr never)) = absurd never

tasks_for_agent_class_iff_example :
    Listed (task_key task) (tasks_for_agent_class reconciler (codes "coder") tt).0 ↔ (
      (t : Task) × Listed t stored
      × (t.spec.agent.ref ≡ codes "coder")
      × (is_terminal t.status.phase ≡ false)
      × (task_key task ≡ task_key t))
tasks_for_agent_class_iff_example =
    tasks_for_agent_class_iff reconciler (codes "coder") tt stored stored (task_key task) refl refl
      (λ t. (λ l. (l, indexed_coder t l), λ p. p.0))
