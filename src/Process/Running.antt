-- ===== src/Process/Running.antt =====
-- cmd/main.go: how run puts the parts together. The manager of controller-runtime is a parameter: a
-- function from what it is given to its error.
pub mod Start
use openconveyor.Prelude.{
  ℤ, Bool, true, false, not, Option, none, some, List, [], ◌∷◌, Text, codes, is_empty,
  if◌then◌else◌,
}
use openconveyor.Errors.{Err, wrap, Result, ok, err, ◌>>=◌}
use openconveyor.Trigger.Handler.{Settings}
use openconveyor.Process.Options.{
  Flags, default_trigger_namespace, as_int32, validate_job_ttl, check_task_ttl, task_ttl,
  build_tls_opts, WebhookOptions, build_webhook_server, MetricsOptions, build_metrics_options,
  Requirement, task_pod_selector,
}

-- The priority is: the flag, then POD_NAMESPACE, then the default.
unfoldable pub resolve_trigger_namespace : (pod_namespace : Text) → Text → Text
resolve_trigger_namespace pod_namespace flag_value =
    if not (is_empty flag_value)
    then flag_value
    else (if not (is_empty pod_namespace) then pod_namespace else default_trigger_namespace)

-- trigger.Server with its Handler
pub record TriggerServer : Type 0 where
  pub addr : Text
  pub settings : Settings

-- ctrl.Options; the kinds in `uncached` are read from the API server, and the pods of the cache match
-- the selector.
pub record ManagerOptions : Type 0 where
  pub uncached : List Text
  pub pods : List Requirement
  pub metrics : MetricsOptions
  pub webhook : WebhookOptions
  pub probe_addr : Text
  pub leader_election : Bool
  pub leader_election_id : Text

-- The fields of the TaskReconciler that run sets.
pub record ControllerConfig : Type 0 where
  pub egress_refresh_interval : ℤ
  pub job_ttl_seconds : ℤ
  pub default_task_ttl_seconds : Option ℤ

-- `ok tt` is nil.
pub record Manager : Type 0 where
  pub new_manager : ManagerOptions → Result (Unit {0})
  pub set_up_controller : ControllerConfig → Result (Unit {0})
  pub add : TriggerServer → Result (Unit {0})
  pub add_healthz_check : Result (Unit {0})
  pub add_readyz_check : Result (Unit {0})
  pub start : Result (Unit {0})

-- fmt.Errorf with that format, for an error
wrapped : Text → Result (Unit {0}) → Result (Unit {0})
wrapped format (ok u) = ok tt
wrapped format (err e) = err (wrap format [] e)

unfoldable pub trigger_server : (pod_namespace : Text) → Flags → TriggerServer
trigger_server pod_namespace fl =
    let ns = resolve_trigger_namespace pod_namespace fl.trigger_namespace in
    record {
      addr = fl.trigger_addr;
      settings = record { secret_namespace = ns; default_task_namespace = ns };
    }

unfoldable pub manager_options : Flags → ManagerOptions
unfolding build_tls_opts
manager_options fl = record {
  uncached = codes "Secret" ∷ [];
  pods = task_pod_selector;
  metrics = build_metrics_options fl (build_tls_opts fl);
  webhook = build_webhook_server fl (build_tls_opts fl);
  probe_addr = fl.probe_addr;
  leader_election = fl.enable_leader_election;
  leader_election_id = codes "17b16654.openconveyor.ai";
}

unfoldable pub controller_config : Flags → ControllerConfig
controller_config fl = record {
  egress_refresh_interval = fl.egress_refresh;
  job_ttl_seconds = as_int32 fl.job_ttl_seconds;
  default_task_ttl_seconds = task_ttl fl.task_ttl_seconds;
}

module _ (manager : Manager) (pod_namespace : Text) (fl : Flags) where
  unfoldable pub setup_trigger : Result (Unit {0})
  unfolding wrapped
  setup_trigger =
      if is_empty fl.trigger_addr
      then ok tt
      else wrapped (codes "register trigger server: %w")
          (manager.add (trigger_server pod_namespace fl))

  -- run, on the flags that were parsed
  unfoldable pub run : Result (Unit {0})
  unfolding wrapped
  run = do
    job ← validate_job_ttl fl.job_ttl_seconds
    task ← check_task_ttl fl.task_ttl_seconds
    made ← wrapped (codes "start manager: %w") (manager.new_manager (manager_options fl))
    controlled ←
        wrapped (codes "create Task controller: %w")
          (manager.set_up_controller (controller_config fl))
    triggered ← setup_trigger
    healthy ← wrapped (codes "set up health check: %w") manager.add_healthz_check
    ready ← wrapped (codes "set up ready check: %w") manager.add_readyz_check
    wrapped (codes "run manager: %w") manager.start
