-- ===== src/Examples/Ensuring.antt =====
-- The theorems on the steps of a reconcile, on an API server with room for one object of a kind.
use openconveyor.Prelude.{
  true, false, ◌≡◌, refl, sym, Option, none, some, [], ◌∷◌, codes, text_eq, trim_space, has_byte,
}
use openconveyor.Errors.{status, Result, ok, err, ok-injective, is_not_found}
use openconveyor.Kube.{Owner, NetworkPolicy, Job}
use openconveyor.Api.{Task}
use openconveyor.Policy.Egress.{build_network_policy, resolve_egress}
use openconveyor.Controller.Cluster.{Run, Kind, Store, try_get, do_create}
use openconveyor.Controller.Ensure.{
  account_kind, role_kind, binding_kind, config_map_kind, policy_kind, job_kind,
  ensure_network_policy, ensure_job, ensure_owned,
}
use openconveyor.Controller.Ensure.InPlace.{InPlace, ensure_network_policy-InPlace}
use openconveyor.Controller.Ensure.Once.{Ensures, ensure_job-Ensures}
use openconveyor.Controller.Provision.{Clients}
use openconveyor.Examples.Instances.{small_net, small_resolver, small_decoder, entries, task, agent}
use openconveyor.Examples.Conditions.{machinery}

module _ {T : Type 0} (kind : Kind T) where
  unfoldable pub read_one : Option T → Result T × Option T
  read_one none = (err (status true (codes "not found")), none)
  read_one (some t) = (ok t, some t)

  pub own_one : Task → T → Result T
  own_one owner t = ok (
      kind.with_meta t (record (kind.meta t) {
        controller = some (record { kind = codes "Task"; uid = owner.meta.uid });
      }))

  pub own_one_keeps :
      (owner : Task) (t u : T)
      → own_one owner t ≡ ok u
      → (o : Option Owner) × (u ≡ kind.with_meta t (record (kind.meta t) { controller = o }))
  unfolding own_one
  own_one_keeps owner t u h = (_, sym (ok-injective _ u h))

  pub never_same : (t u : T) → false ≡ true → t ≡ u
  never_same t u h = cc

  unfoldable pub one_object : Store (Option T) T kind
  unfolding read_one own_one
  one_object = record {
    get = λ key w. read_one w;
    create = λ t w. (ok t, some t);
    update = λ t w. (ok t, some t);
    remove = λ key w. (ok tt, none);
    own = own_one;
    same = λ t u. false;
    own_keeps = own_one_keeps;
    same_equal = never_same;
  }

  -- A store in which nothing lasts.
  unfoldable pub forgetful : {W : Type 0} → Store W T kind
  unfolding own_one
  forgetful = record {
    get = λ key w. (err (status true (codes "not found")), w);
    create = λ t w. (ok t, w);
    update = λ t w. (ok t, w);
    remove = λ key w. (ok tt, w);
    own = own_one;
    same = λ t u. false;
    own_keeps = own_one_keeps;
    same_equal = never_same;
  }

abbrev pub clients_with : {W : Type 0} → Store W Job job_kind → Clients W
clients_with jobs = record {
  accounts = forgetful account_kind;
  roles = forgetful role_kind;
  bindings = forgetful binding_kind;
  policies = forgetful policy_kind;
  maps = forgetful config_map_kind;
  jobs = jobs;
}

abbrev pub clients : Clients (Unit {0})
clients = clients_with (forgetful job_kind)

abbrev no_policy : Run (Option NetworkPolicy)
no_policy = record { world = none; log = [] }

policy_ensured :
    (next : Run (Option NetworkPolicy)) × (ensure_network_policy
        (one_object policy_kind)
        small_net
        small_resolver
        task
        entries
        no_policy
      ≡ (ok tt, next))
unfolding ensure_network_policy one_object build_network_policy resolve_egress trim_space has_byte
    text_eq ensure_owned try_get is_not_found do_create
policy_ensured = (_, refl)

ensure_network_policy-InPlace_example :
    (desired : NetworkPolicy) × (build_network_policy small_net small_resolver task.meta.name
        task.meta.namespace entries task.spec.permissions.egress_ports
      ≡ ok desired)
    × InPlace desired policy_ensured.0.log
ensure_network_policy-InPlace_example =
    ensure_network_policy-InPlace (one_object policy_kind) small_net small_resolver task entries
      no_policy policy_ensured.0 policy_ensured.1

abbrev no_job : Run (Option Job)
no_job = record { world = none; log = [] }

ensure_job-Ensures_example :
    Ensures (one_object job_kind) machinery small_decoder task agent (codes "token" ∷ []) 3600 [] (
      ensure_job
        (one_object job_kind)
        machinery
        small_decoder
        task
        agent
        (codes "token" ∷ [])
        3600
        no_job)
ensure_job-Ensures_example =
    ensure_job-Ensures (one_object job_kind) machinery small_decoder task agent (codes "token" ∷ [])
      3600 no_job

abbrev pub fresh_run : Run (Unit {0})
fresh_run = record { world = tt; log = [] }
