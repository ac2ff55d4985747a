-- ===== src/Controller/Ensure/Quiet.antt =====
-- The steps that create no Job.
use openconveyor.Prelude.{
  Bool, true, false, not, ◌&&◌, Option, none, some, List, ◌∷◌, ◌≡◌, refl, ◌∙◌, inl, inr, Text, any,
  Bool-cases, arith,
}
use openconveyor.Errors.{Result, ok, err, is_not_found, Result-cases}
use openconveyor.Net.{Net}
use openconveyor.Kube.{Key, ServiceAccount, Role, RoleBinding, NetworkPolicy, ConfigMap}
use openconveyor.Api.{Task, ClusterAgentClass}
use openconveyor.Policy.Egress.{Resolver, build_network_policy}
use openconveyor.Controller.Cluster.{
  Object, Action, found, created, updated, deleted, Run, Kind, Store, continue, lift, key_of,
  try_get, read_answer, do_create, do_update, write_answer, delete_if_exists, remove_answer,
}
use openconveyor.Controller.Cluster.Trace.{is_status, statuses}
use openconveyor.Controller.Ensure.{
  account_kind, role_kind, binding_kind, policy_kind, config_map_kind, with_policy_spec,
  ensure_owned, write_owned, discard, reconciled, ensure_service_account, ensure_role,
  ensure_built_role, ensure_role_binding, ensure_built_binding, ensure_network_policy,
  ensure_built_map, ensure_prompt_config_map, ensure_agent_config_map,
}
use openconveyor.Controller.Ensure.InPlace.{InPlace}

-- A create call for a Job, whether it succeeds or not.
abbrev pub creates_job : Action → Bool
creates_job (created (Object.job j) b) = true
creates_job _ = false

-- Neither a create call for a Job, nor a status write or a report.
abbrev is_quiet : Action → Bool
is_quiet a = not (creates_job a) && not (is_status a)

-- The later log has no new create call for a Job, no new status write and no new report, and keeps
-- what is in place.
pub record IsQuiet (log later : List Action) : Type 0 where
  pub jobs : any creates_job later ≡ any creates_job log
  pub silent : statuses later ≡ statuses log
  pub keeps : (d : NetworkPolicy) → InPlace d log → InPlace d later

same-IsQuiet : (log : List Action) → IsQuiet log log
same-IsQuiet log = record { jobs = refl; silent = refl; keeps = λ d p. p }

one-IsQuiet : (a : Action) (log : List Action) → is_quiet a ≡ true → IsQuiet log (a ∷ log)
one-IsQuiet a log h = record { jobs = ground arith; silent = ground arith; keeps = λ d p. inr p }

pub then-IsQuiet : (a b c : List Action) → IsQuiet a b → IsQuiet b c → IsQuiet a c
then-IsQuiet a b c p q = record {
  jobs = q.jobs ∙ p.jobs;
  silent = q.silent ∙ p.silent;
  keeps = λ d i. q.keeps d (p.keeps d i);
}

abbrev pub QuietRun : {W A : Type 0} → List Action → Result A × Run W → Type 0
QuietRun log p = IsQuiet log p.1.log

module _ {W T : Type 0} (kind : Kind T) (store : Store W T kind) where
  removed-QuietRun :
      (key : Key) (log : List Action) (a : Result (Unit {0}) × W)
      → QuietRun log (remove_answer kind store key log a)
  unfolding remove_answer
  removed-QuietRun key log (ok u, w) = one-IsQuiet (deleted key true) log refl
  removed-QuietRun key log (err e, w) = one-IsQuiet (deleted key false) log refl

  delete-QuietRun :
      (key : Key) (run : Run W) → QuietRun run.log (delete_if_exists kind store key run)
  unfolding delete_if_exists
  delete-QuietRun key run = removed-QuietRun key run.log (store.remove key run.world)

  module _ (mutate : T → T → T)
      (no_job : (t : T) (b : Bool) → is_quiet (created (kind.as_object t) b) ≡ true) where
    written-QuietRun :
        (yes_action no_action : Action) (log : List Action) (a : Result T × W)
        → is_quiet yes_action ≡ true
        → is_quiet no_action ≡ true
        → QuietRun log (
            continue {B = Unit {0}}
              (λ t. lift (ok tt))
              (write_answer kind store yes_action no_action log a))
    unfolding write_answer
    written-QuietRun yes_action no_action log (ok t, w) y n = one-IsQuiet yes_action log y
    written-QuietRun yes_action no_action log (err e, w) y n = one-IsQuiet no_action log n

    read-QuietRun :
        (owned : T) (log : List Action) (a : Result T × W)
        → QuietRun log
            (continue (write_owned kind store mutate owned) (read_answer kind store log a))
    unfolding read_answer write_owned discard do_create do_update
    read-QuietRun owned log (err e, w) = elim (Bool-cases (is_not_found e)) [
      | inl missing ↦ rw missing (
          written-QuietRun (created (kind.as_object owned) true)
            (created (kind.as_object owned) false) log (store.create owned w) (no_job owned true)
            (no_job owned false))
      | inr broken ↦ rw broken (same-IsQuiet log)
    ]
    read-QuietRun owned log (ok live, w) =
        let next = reconciled kind store mutate live owned in
        let read = one-IsQuiet (found (kind.as_object live)) log refl in
        elim (Bool-cases (store.same live next)) [
          | inl same ↦ rw same read
          | inr differs ↦ rw differs (
              then-IsQuiet log (found (kind.as_object live) ∷ log) _ read (
                written-QuietRun (updated (kind.as_object next) true)
                  (updated (kind.as_object next) false) (found (kind.as_object live) ∷ log)
                  (store.update next w) refl refl))
        ]

    ensure_owned-QuietRun :
        (task : Task) (desired : T) (run : Run W)
        → QuietRun run.log (ensure_owned kind store mutate task desired run)
    unfolding ensure_owned try_get
    ensure_owned-QuietRun task desired run = elim (Result-cases (store.own task desired)) [
      | inr (e, failed) ↦ rw failed (same-IsQuiet run.log)
      | inl (owned, made) ↦
          rw made (read-QuietRun owned run.log (store.get (key_of kind owned) run.world))
    ]

module _ {W : Type 0} (task : Task) (run : Run W) where
  pub ensure_service_account-QuietRun :
      (store : Store W ServiceAccount account_kind)
      → QuietRun run.log (ensure_service_account store task run)
  unfolding ensure_service_account
  ensure_service_account-QuietRun store =
      ensure_owned-QuietRun account_kind store _ (λ t b. refl) task _ run

  role_step :
      (store : Store W Role role_kind) (o : Option Role)
      → QuietRun run.log (ensure_built_role store task o run)
  unfolding ensure_built_role
  role_step store none = delete-QuietRun role_kind store _ run
  role_step store (some r) = ensure_owned-QuietRun role_kind store _ (λ t b. refl) task r run

  pub ensure_role-QuietRun :
      (store : Store W Role role_kind) → QuietRun run.log (ensure_role store task run)
  unfolding ensure_role
  ensure_role-QuietRun store = role_step store _

  binding_step :
      (store : Store W RoleBinding binding_kind) (o : Option RoleBinding)
      → QuietRun run.log (ensure_built_binding store task o run)
  unfolding ensure_built_binding
  binding_step store none = delete-QuietRun binding_kind store _ run
  binding_step store (some r) = ensure_owned-QuietRun binding_kind store _ (λ t b. refl) task r run

  pub ensure_role_binding-QuietRun :
      (store : Store W RoleBinding binding_kind)
      → QuietRun run.log (ensure_role_binding store task run)
  unfolding ensure_role_binding
  ensure_role_binding-QuietRun store = binding_step store _

  pub ensure_network_policy-QuietRun :
      (store : Store W NetworkPolicy policy_kind) (net : Net) (resolver : Resolver)
      (egress : List Text)
      → QuietRun run.log (ensure_network_policy store net resolver task egress run)
  unfolding ensure_network_policy
  ensure_network_policy-QuietRun store net resolver egress =
      elim (Result-cases (
        build_network_policy net resolver task.meta.name task.meta.namespace egress
          task.spec.permissions.egress_ports)) [
            | inr (e, failed) ↦ rw failed (same-IsQuiet run.log)
            | inl (desired, built) ↦ rw built (
                ensure_owned-QuietRun policy_kind store with_policy_spec (λ t b. refl) task desired
                  run)
          ]

  map_step :
      (store : Store W ConfigMap config_map_kind) (name : Text) (o : Option ConfigMap)
      → QuietRun run.log (ensure_built_map store task name o run)
  unfolding ensure_built_map
  map_step store name none = delete-QuietRun config_map_kind store _ run
  map_step store name (some c) =
      ensure_owned-QuietRun config_map_kind store _ (λ t b. refl) task c run

  pub ensure_prompt_config_map-QuietRun :
      (store : Store W ConfigMap config_map_kind)
      → QuietRun run.log (ensure_prompt_config_map store task run)
  unfolding ensure_prompt_config_map
  ensure_prompt_config_map-QuietRun store = map_step store _ _

  pub ensure_agent_config_map-QuietRun :
      (store : Store W ConfigMap config_map_kind) (agent : ClusterAgentClass)
      → QuietRun run.log (ensure_agent_config_map store task agent run)
  unfolding ensure_agent_config_map
  ensure_agent_config_map-QuietRun store agent = map_step store _ _
