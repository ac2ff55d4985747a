-- ===== src/Controller/Ensure/Lasting.antt =====
-- A property of the cluster that the calls of the steps do not end, such as that a Job exists.
use openconveyor.Prelude.{Option, none, some, List, Text, Bool-cases, inl, inr}
use openconveyor.Errors.{Result, ok, err}
use openconveyor.Net.{Net}
use openconveyor.Kube.{Key, ServiceAccount, Role, RoleBinding, NetworkPolicy, ConfigMap}
use openconveyor.Api.{Task, ClusterAgentClass}
use openconveyor.Policy.Egress.{Resolver, build_network_policy}
use openconveyor.Controller.Cluster.{
  Action, Run, Kind, Store, Exec, ◌>>=◌, continue, lift, key_of, try_get, read_answer, do_create,
  do_update, write_answer, delete_if_exists, remove_answer,
}
use openconveyor.Controller.Ensure.{
  account_kind, role_kind, binding_kind, policy_kind, config_map_kind, with_policy_spec,
  ensure_owned, write_owned, discard, reconciled, ensure_service_account, ensure_role,
  ensure_built_role, ensure_role_binding, ensure_built_binding, ensure_network_policy,
  ensure_built_map, ensure_prompt_config_map, ensure_agent_config_map,
}

module _ {W : Type 0} (I : W → Type 0) where
  -- A client, none of whose calls ends the property.
  pub record Spares {T : Type 0} (kind : Kind T) (store : Store W T kind) : Type 0 where
    pub get : (key : Key) (w : W) → I w → I (store.get key w).1
    pub create : (t : T) (w : W) → I w → I (store.create t w).1
    pub update : (t : T) (w : W) → I w → I (store.update t w).1
    pub remove : (key : Key) (w : W) → I w → I (store.remove key w).1

  abbrev pub Lasts : {A : Type 0} → Exec W A → Type 0
  Lasts m = (run : Run W) → I run.world → I (m run).1.world

  continue-Lasts :
      {A B : Type 0} (f : A → Exec W B) (p : Result A × Run W)
      → I p.1.world
      → ((a : A) → Lasts (f a))
      → I (continue f p).1.world
  continue-Lasts f (ok a, next) i k = k a next i
  continue-Lasts f (err e, next) i k = i

  then-Lasts :
      {A B : Type 0} (m : Exec W A) (f : A → Exec W B)
      → Lasts m
      → ((a : A) → Lasts (f a))
      → Lasts (m >>= f)
  then-Lasts m f first k run i = continue-Lasts f (m run) (first run i) k

  lift-Lasts : {A : Type 0} (r : Result A) → Lasts (lift r)
  lift-Lasts r run i = i

  module _ {T : Type 0} (kind : Kind T) (store : Store W T kind) (s : Spares kind store) where
    read_answer-Lasts :
        (log : List Action) (a : Result T × W) → I a.1 → I (read_answer kind store log a).1.world
    unfolding read_answer
    read_answer-Lasts log (ok t, w) i = i
    read_answer-Lasts log (err e, w) i = i

    write_answer-Lasts :
        (b c : Action) (log : List Action) (a : Result T × W)
        → I a.1
        → I (write_answer kind store b c log a).1.world
    unfolding write_answer
    write_answer-Lasts b c log (ok t, w) i = i
    write_answer-Lasts b c log (err e, w) i = i

    remove_answer-Lasts :
        (key : Key) (log : List Action) (a : Result (Unit {0}) × W)
        → I a.1
        → I (remove_answer kind store key log a).1.world
    unfolding remove_answer
    remove_answer-Lasts key log (ok t, w) i = i
    remove_answer-Lasts key log (err e, w) i = i

    delete-Lasts : (key : Key) → Lasts (delete_if_exists kind store key)
    unfolding delete_if_exists
    delete-Lasts key run i = remove_answer-Lasts key run.log _ (s.remove key run.world i)

    try_get-Lasts : (key : Key) → Lasts (try_get kind store key)
    unfolding try_get
    try_get-Lasts key run i = read_answer-Lasts run.log _ (s.get key run.world i)

    module _ (mutate : T → T → T) where
      write_owned-Lasts :
          (desired : T) (o : Option T) → Lasts (write_owned kind store mutate desired o)
      unfolding write_owned discard do_create do_update
      write_owned-Lasts desired none run i =
          continue-Lasts (λ t. lift (ok tt)) _
            (write_answer-Lasts _ _ run.log _ (s.create desired run.world i))
            (λ t. lift-Lasts (ok tt))
      write_owned-Lasts desired (some existing) run i =
          let next = reconciled kind store mutate existing desired in
          elim (Bool-cases (store.same existing next)) [
            | inl same ↦ rw same i
            | inr differs ↦ rw differs (
                continue-Lasts (λ t. lift (ok tt)) _
                  (write_answer-Lasts _ _ run.log _ (s.update next run.world i))
                  (λ t. lift-Lasts (ok tt)))
          ]

      pub ensure_owned-Lasts :
          (task : Task) (desired : T) → Lasts (ensure_owned kind store mutate task desired)
      unfolding ensure_owned
      ensure_owned-Lasts task desired =
          then-Lasts (lift (store.own task desired)) _ (lift-Lasts (store.own task desired))
            (λ owned.
              then-Lasts (try_get kind store (key_of kind owned)) _
                (try_get-Lasts (key_of kind owned)) (write_owned-Lasts owned))

  module _ (task : Task) where
    pub ensure_service_account-Lasts :
        (store : Store W ServiceAccount account_kind)
        → Spares account_kind store
        → Lasts (ensure_service_account store task)
    unfolding ensure_service_account
    ensure_service_account-Lasts store s = ensure_owned-Lasts account_kind store s _ task _

    role_step :
        (store : Store W Role role_kind) (o : Option Role)
        → Spares role_kind store
        → Lasts (ensure_built_role store task o)
    unfolding ensure_built_role
    role_step store none s = delete-Lasts role_kind store s _
    role_step store (some r) s = ensure_owned-Lasts role_kind store s _ task r

    pub ensure_role-Lasts :
        (store : Store W Role role_kind) → Spares role_kind store → Lasts (ensure_role store task)
    unfolding ensure_role
    ensure_role-Lasts store s = role_step store _ s

    binding_step :
        (store : Store W RoleBinding binding_kind) (o : Option RoleBinding)
        → Spares binding_kind store
        → Lasts (ensure_built_binding store task o)
    unfolding ensure_built_binding
    binding_step store none s = delete-Lasts binding_kind store s _
    binding_step store (some r) s = ensure_owned-Lasts binding_kind store s _ task r

    pub ensure_role_binding-Lasts :
        (store : Store W RoleBinding binding_kind)
        → Spares binding_kind store
        → Lasts (ensure_role_binding store task)
    unfolding ensure_role_binding
    ensure_role_binding-Lasts store s = binding_step store _ s

    pub ensure_network_policy-Lasts :
        (store : Store W NetworkPolicy policy_kind) (net : Net) (resolver : Resolver)
        (egress : List Text)
        → Spares policy_kind store
        → Lasts (ensure_network_policy store net resolver task egress)
    unfolding ensure_network_policy
    ensure_network_policy-Lasts store net resolver egress s =
        let built =
          build_network_policy net resolver task.meta.name task.meta.namespace egress
            task.spec.permissions.egress_ports in
        then-Lasts (lift built) _ (lift-Lasts built)
          (λ desired. ensure_owned-Lasts policy_kind store s with_policy_spec task desired)

    map_step :
        (store : Store W ConfigMap config_map_kind) (name : Text) (o : Option ConfigMap)
        → Spares config_map_kind store
        → Lasts (ensure_built_map store task name o)
    unfolding ensure_built_map
    map_step store name none s = delete-Lasts config_map_kind store s _
    map_step store name (some c) s = ensure_owned-Lasts config_map_kind store s _ task c

    pub ensure_prompt_config_map-Lasts :
        (store : Store W ConfigMap config_map_kind)
        → Spares config_map_kind store
        → Lasts (ensure_prompt_config_map store task)
    unfolding ensure_prompt_config_map
    ensure_prompt_config_map-Lasts store s = map_step store _ _ s

    pub ensure_agent_config_map-Lasts :
        (store : Store W ConfigMap config_map_kind) (agent : ClusterAgentClass)
        → Spares config_map_kind store
        → Lasts (ensure_agent_config_map store task agent)
    unfolding ensure_agent_config_map
    ensure_agent_config_map-Lasts store agent s = map_step store _ _ s
