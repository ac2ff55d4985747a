-- ===== src/Controller/Cluster.antt =====
-- The API server as the controller sees it. A call takes the state of the cluster, whatever that is,
-- to an answer and the next state, and other clients may act in between. The log of a run, newest
-- first, records what each call did.
pub mod Trace
use openconveyor.Prelude.{
  Bool, true, false, Option, none, some, List, ◌∷◌, ◌≡◌, Text, if◌then◌else◌,
}
use openconveyor.Errors.{Result, ok, err, is_not_found}
use openconveyor.Kube.{
  Time, ObjectMeta, Owner, Key, ServiceAccount, Role, RoleBinding, NetworkPolicy, ConfigMap, Job,
}
use openconveyor.Api.{Task, TaskPhase}
use openconveyor.Controller.Phase.{EventType}

pub data Object : Type 0 where
  account : ServiceAccount → Object
  role : Role → Object
  binding : RoleBinding → Object
  policy : NetworkPolicy → Object
  config_map : ConfigMap → Object
  job : Job → Object

pub data Action : Type 0 where
  found : Object → Action
  created : Object → (success : Bool) → Action
  updated : Object → (success : Bool) → Action
  deleted : Key → (success : Bool) → Action
  -- Status().Update of a Task, with the status that is sent
  status_written : Task → (success : Bool) → Action
  -- the Delete of a Task, with the UID of its precondition
  task_deleted : Key → (uid : Text) → (success : Bool) → Action
  -- what the controller reports: Events and the calls of internal/metrics
  event : EventType → (reason message : Text) → Action
  transition : TaskPhase → (reason : Text) → Action
  duration : TaskPhase → (start completion : Time) → Action
  error_counted : (step : Text) → Action

pub record Run (W : Type 0) : Type 0 where
  pub world : W
  pub log : List Action

-- What the controller reads and writes of an object of any kind.
pub record Kind (T : Type 0) : Type 0 where
  pub meta : T → ObjectMeta
  pub with_meta : T → ObjectMeta → T
  pub as_object : T → Object

-- The client of one kind of object.
pub record Store (W T : Type 0) (kind : Kind T) : Type 0 where
  pub get : Key → W → Result T × W
  pub create : T → W → Result T × W
  pub update : T → W → Result T × W
  pub remove : Key → W → Result (Unit {0}) × W
  -- controllerutil.SetControllerReference
  pub own : Task → T → Result T
  -- apiequality.Semantic.DeepEqual
  pub same : T → T → Bool
  -- The reference changes the metadata only, and there neither the name, the namespace nor labels.
  pub own_keeps :
      (task : Task) (t u : T)
      → own task t ≡ ok u
      → (o : Option Owner) × (u ≡ kind.with_meta t (record (kind.meta t) { controller = o }))
  pub same_equal : (t u : T) → same t u ≡ true → t ≡ u

abbrev pub Exec : Type 0 → Type 0 → Type 0
Exec W A = Run W → Result A × Run W

abbrev pub continue : {W A B : Type 0} → (A → Exec W B) → Result A × Run W → Result B × Run W
continue f (ok a, next) = f a next
continue f (err e, next) = (err e, next)

infixl 5 ◌>>=◌
abbrev pub ◌>>=◌ : {W A B : Type 0} → Exec W A → (A → Exec W B) → Exec W B
(m >>= f) run = continue f (m run)

-- A value or an error that no call makes.
abbrev pub lift : {W A : Type 0} → Result A → Exec W A
lift r run = (r, run)

-- client.ObjectKeyFromObject
abbrev pub key_of : {T : Type 0} → Kind T → T → Key
key_of kind t = record { namespace = (kind.meta t).namespace; name = (kind.meta t).name }

module _ {W T : Type 0} (kind : Kind T) (store : Store W T kind) where
  unfoldable pub read_answer : List Action → Result T × W → Result (Option T) × Run W
  read_answer log (ok t, world) =
      (ok (some t), record { world = world; log = found (kind.as_object t) ∷ log })
  read_answer log (err e, world) =
      (if is_not_found e then ok none else err e, record { world = world; log = log })

  -- r.Get, with `none` for an object that does not exist
  unfoldable pub try_get : Key → Exec W (Option T)
  unfolding read_answer
  try_get key run = read_answer run.log (store.get key run.world)

  unfoldable pub write_answer : Action → Action → List Action → Result T × W → Result T × Run W
  write_answer yes_action no_action log (ok t, world) =
      (ok t, record { world = world; log = yes_action ∷ log })
  write_answer yes_action no_action log (err e, world) =
      (err e, record { world = world; log = no_action ∷ log })

  unfoldable pub do_create : T → Exec W T
  unfolding write_answer
  do_create t run =
      write_answer (created (kind.as_object t) true) (created (kind.as_object t) false) run.log
        (store.create t run.world)

  unfoldable pub do_update : T → Exec W T
  unfolding write_answer
  do_update t run =
      write_answer (updated (kind.as_object t) true) (updated (kind.as_object t) false) run.log
        (store.update t run.world)

  unfoldable pub remove_answer :
      Key → List Action → Result (Unit {0}) × W → Result (Unit {0}) × Run W
  remove_answer key log (ok u, world) =
      (ok tt, record { world = world; log = deleted key true ∷ log })
  remove_answer key log (err e, world) = (
    if is_not_found e then ok tt else err e,
    record { world = world; log = deleted key false ∷ log },
  )

  -- deleteIfExists
  unfoldable pub delete_if_exists : Key → Exec W (Unit {0})
  unfolding remove_answer
  delete_if_exists key run = remove_answer key run.log (store.remove key run.world)
