-- ===== src/Controller/Reconciler.antt =====
-- internal/controller/task_controller.go: the TaskReconciler, with the calls of the API server that
-- are on Tasks and ClusterAgentClasses, the cache of the pods and the clock.
use openconveyor.Prelude.{ℕ, ℤ, Bool, List, ◌∷◌, Option, Text, ◌≡◌}
use openconveyor.Errors.{Err, Result, ok}
use openconveyor.Net.{Net}
use openconveyor.Kube.{Time, Key}
use openconveyor.Api.{Task, ClusterAgentClass}
use openconveyor.Machinery.{Machinery}
use openconveyor.Policy.Egress.{Resolver}
use openconveyor.Policy.Config.{Decoder}
use openconveyor.Policy.Outcome.{Parsers}
use openconveyor.Controller.Cluster.{Action, Run}
use openconveyor.Controller.Provision.{Clients}
use openconveyor.Controller.Report.{PodLister}

-- An update and a conflict cannot turn a Task into another: the identity of the object is immutable.
pub record SameTask (t u : Task) : Type 0 where
  pub name : u.meta.name ≡ t.meta.name
  pub namespace : u.meta.namespace ≡ t.meta.namespace
  pub uid : u.meta.uid ≡ t.meta.uid

pub record Reconciler (W : Type 0) : Type 0 where
  pub clients : Clients W
  pub get_task : Key → W → Result Task × W
  pub get_class : (name : Text) → W → Result ClusterAgentClass × W
  -- Status().Update, which answers with the Task as the API server then has it
  pub update_status : Task → W → Result Task × W
  pub update_status_keeps :
      (task answer : Task) (world after : W)
      → update_status task world ≡ (ok answer, after)
      → SameTask task answer
  -- Delete with client.Preconditions{UID: &uid}
  pub delete_task : Key → (uid : Text) → W → Result (Unit {0}) × W
  -- List with client.MatchingFields on the agent of the spec
  pub tasks_of_class : (name : Text) → W → Result (List Task) × W
  pub list_pods : W → PodLister
  pub clock : W → Time
  pub net : Net
  pub resolver : Resolver
  pub machinery : Machinery
  pub decode : Decoder
  pub parsers : Parsers
  -- the Error method of an error, and the %q verb of fmt
  pub error_text : Err → Text
  pub quote : Text → Text
  -- whether r.Recorder is set
  pub has_recorder : Bool
  -- in nanoseconds; zero is no refresh
  pub egress_refresh_interval : ℤ
  pub job_ttl_seconds : ℕ
  pub default_task_ttl_seconds : Option ℕ
  -- in nanoseconds; zero is the default
  pub result_wait : ℤ

-- A report, or an answer, as the newest entry of the log.
abbrev pub note : {W : Type 0} → Action → Run W → Run W
note a run = record { world = run.world; log = a ∷ run.log }
