-- ===== src/Controller/Ensure.antt =====
-- internal/controller/task_controller.go: the steps that create or update the objects of a Task.
pub mod InPlace
pub mod Once
pub mod Quiet
pub mod Lasting
pub mod Single
use openconveyor.Prelude.{
  Bool, true, false, Option, none, some, List, [], ◌∷◌, ℕ, Text, ◌≡◌, if◌then◌else◌,
}
use openconveyor.Errors.{Err, Result, ok, err}
use openconveyor.Net.{Net}
use openconveyor.Kube.{
  ObjectMeta, Key, ServiceAccount, Role, RoleBinding, NetworkPolicy, ConfigMap, Job,
}
use openconveyor.Api.{Task, ClusterAgentClass}
use openconveyor.Machinery.{Machinery}
use openconveyor.Policy.Egress.{Resolver, build_network_policy}
use openconveyor.Policy.Rbac.{build_role, build_role_binding}
use openconveyor.Policy.Prompt.{inline_prompt_config_map_name, build_inline_prompt_config_map}
use openconveyor.Policy.Config.{Decoder, agent_config_map_name, build_agent_config_map}
use openconveyor.Controller.Build.{build_service_account, build_job, task_resource_name}
use openconveyor.Controller.Cluster.{
  Object, Run, Kind, Store, Exec, ◌>>=◌, lift, key_of, try_get, do_create, do_update,
  delete_if_exists,
}

abbrev pub account_kind : Kind ServiceAccount
account_kind = record {
  meta = λ t. t.meta;
  with_meta = λ t m. record t { meta = m };
  as_object = Object.account;
}

abbrev pub role_kind : Kind Role
role_kind = record {
  meta = λ t. t.meta;
  with_meta = λ t m. record t { meta = m };
  as_object = Object.role;
}

abbrev pub binding_kind : Kind RoleBinding
binding_kind = record {
  meta = λ t. t.meta;
  with_meta = λ t m. record t { meta = m };
  as_object = Object.binding;
}

abbrev pub policy_kind : Kind NetworkPolicy
policy_kind = record {
  meta = λ t. t.meta;
  with_meta = λ t m. record t { meta = m };
  as_object = Object.policy;
}

abbrev pub config_map_kind : Kind ConfigMap
config_map_kind = record {
  meta = λ t. t.meta;
  with_meta = λ t m. record t { meta = m };
  as_object = Object.config_map;
}

abbrev pub job_kind : Kind Job
job_kind = record {
  meta = λ t. t.meta;
  with_meta = λ t m. record t { meta = m };
  as_object = Object.job;
}

module _ {W T : Type 0} (kind : Kind T) (store : Store W T kind) (mutate : T → T → T) where
  -- The live object with the fields of the desired one; labels always follow.
  reconciled : T → T → T
  reconciled existing desired =
      let changed = mutate existing desired in
      kind.with_meta changed (record (kind.meta changed) { labels = (kind.meta desired).labels })

  discard : Exec W T → Exec W (Unit {0})
  discard m = m >>= λ t. lift (ok tt)

  -- What follows the read of the live object.
  write_owned : T → Option T → Exec W (Unit {0})
  unfolding reconciled discard
  write_owned desired none = discard (do_create kind store desired)
  write_owned desired (some existing) =
      if store.same existing (reconciled existing desired)
      then lift (ok tt)
      else discard (do_update kind store (reconciled existing desired))

  unfoldable pub ensure_owned : Task → T → Exec W (Unit {0})
  unfolding write_owned
  ensure_owned task desired = do
    owned ← lift (store.own task desired)
    live ← try_get kind store (key_of kind owned)
    write_owned owned live

abbrev pub resource_key : Task → Key
resource_key task = record { namespace = task.meta.namespace; name = task_resource_name task }

-- existing.Spec = desired.Spec
unfoldable pub with_policy_spec : NetworkPolicy → NetworkPolicy → NetworkPolicy
with_policy_spec existing desired = record desired { meta = existing.meta }

module _ {W : Type 0} where
  unfoldable pub ensure_service_account :
      Store W ServiceAccount account_kind → Task → Exec W (Unit {0})
  ensure_service_account store task =
      ensure_owned account_kind store
        (λ existing desired. record existing { automount_token = desired.automount_token }) task
        (build_service_account task)

  ensure_built_role : Store W Role role_kind → Task → Option Role → Exec W (Unit {0})
  ensure_built_role store task none = delete_if_exists role_kind store (resource_key task)
  ensure_built_role store task (some desired) =
      ensure_owned role_kind store (λ existing desired. record existing { rules = desired.rules })
        task desired

  unfoldable pub ensure_role : Store W Role role_kind → Task → Exec W (Unit {0})
  unfolding ensure_built_role
  ensure_role store task =
      ensure_built_role store task
        (build_role task.meta.name task.meta.namespace task.spec.permissions.rbac)

  ensure_built_binding :
      Store W RoleBinding binding_kind → Task → Option RoleBinding → Exec W (Unit {0})
  ensure_built_binding store task none = delete_if_exists binding_kind store (resource_key task)
  ensure_built_binding store task (some desired) =
      ensure_owned binding_kind store
        (λ existing desired. record existing { subjects = desired.subjects }) task desired

  unfoldable pub ensure_role_binding : Store W RoleBinding binding_kind → Task → Exec W (Unit {0})
  unfolding ensure_built_binding
  ensure_role_binding store task =
      ensure_built_binding store task
        (build_role_binding task.meta.name task.meta.namespace task.spec.permissions.rbac)

  unfoldable pub ensure_network_policy :
      Store W NetworkPolicy policy_kind → Net → Resolver → Task → List Text → Exec W (Unit {0})
  unfolding with_policy_spec
  ensure_network_policy store net resolver task egress = do
    desired ← lift (
        build_network_policy net resolver task.meta.name task.meta.namespace egress
          task.spec.permissions.egress_ports)
    ensure_owned policy_kind store with_policy_spec task desired

  ensure_built_map :
      Store W ConfigMap config_map_kind → Task → Text → Option ConfigMap → Exec W (Unit {0})
  ensure_built_map store task name none =
      delete_if_exists config_map_kind store
        (record { namespace = task.meta.namespace; name = name })
  ensure_built_map store task name (some desired) =
      ensure_owned config_map_kind store
        (λ existing desired. record existing { contents = desired.contents }) task desired

  unfoldable pub ensure_prompt_config_map :
      Store W ConfigMap config_map_kind → Task → Exec W (Unit {0})
  unfolding ensure_built_map
  ensure_prompt_config_map store task =
      ensure_built_map store task (inline_prompt_config_map_name task.meta.name)
        (build_inline_prompt_config_map task.meta.name task.meta.namespace task.spec.prompt)

  unfoldable pub ensure_agent_config_map :
      Store W ConfigMap config_map_kind → Task → ClusterAgentClass → Exec W (Unit {0})
  unfolding ensure_built_map
  ensure_agent_config_map store task agent =
      ensure_built_map store task (agent_config_map_name task.meta.name) (
        build_agent_config_map task.meta.name task.meta.namespace task.spec.agent.config
          agent.spec.inputs)

  created_or_live : Store W Job job_kind → Job → Option Job → Exec W Job
  created_or_live store desired none = do_create job_kind store desired
  created_or_live store desired (some existing) = lift (ok existing)

  -- A live Job stays as it is.
  unfoldable pub ensure_job :
      Store W Job job_kind
      → Machinery
      → Decoder
      → Task
      → ClusterAgentClass
      → List Text
      → ℕ
      → Exec W Job
  unfolding created_or_live
  ensure_job store machinery decode task agent secrets ttl_seconds = do
    desired ← lift (build_job machinery decode task agent secrets ttl_seconds)
    owned ← lift (store.own task desired)
    live ← try_get job_kind store (key_of job_kind owned)
    created_or_live store owned live
