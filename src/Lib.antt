-- ===== src/Lib.antt =====
-- OpenConveyor runs agents as Kubernetes Jobs. A Task names a ClusterAgentClass, a prompt, its
-- permissions and its resources. The controller (internal/controller) turns it into a
-- ServiceAccount, a Role and its binding, a NetworkPolicy, ConfigMaps and a Job, and reports the
-- state of the Job and the Result of the agent in the status. The policy package (internal/policy)
-- holds the pure functions that build those resources and that read the untrusted Result. The
-- webhook adapter (internal/trigger) builds Tasks from signed webhooks by a ClusterTriggerClass.
--
-- Parts and files:
--   Prelude        names of the libraries, Boolean tests, lists, byte strings, sorting, maps, runes
--   Errors         internal/policy/errors.go, and Go error chains as errors.As walks them
--   Net            the functions of Go's net package, as a parameter
--   Machinery      what the controller calls of k8s.io/apimachinery, with its behaviour as laws
--   Kube           the Kubernetes types that the program builds and reads
--   Api            api/v1alpha1: Task, ClusterAgentClass and ClusterTriggerClass
--   Policy.Labels  internal/policy/labels.go: labels, MergeStringSets
--   Policy.Egress  internal/policy/networkpolicy.go: resolveEgress, HasHostnames, BuildNetworkPolicy
--   Policy.Rbac    internal/policy/rbac.go
--   Policy.Secrets internal/policy/secrets.go
--   Policy.Prompt  internal/policy/prompt.go
--   Policy.Config  internal/policy/config.go
--   Policy.Outcome internal/policy/result.go: ParseResult and what it calls
--   Metrics        internal/metrics/metrics.go: the labels of the steps
--   Controller.Phase     internal/controller/status.go, its pure functions
--   Controller.Validate  internal/controller/validate.go
--   Controller.Build     internal/controller/build.go: buildJob and buildServiceAccount
--   Controller.Report    internal/controller/result.go: observeResult, taskForPod, minRequeue
--   Controller.Cluster   the API server: the state is any type, a call takes it to an answer and the
--                        next state, and a log records what the calls did
--   Controller.Ensure    internal/controller/task_controller.go: ensureOwned and the ensure steps
--   Controller.Provision internal/controller/task_controller.go: the steps of Reconcile, in order
--   Controller.Reconciler  the TaskReconciler: its fields, and its calls on Tasks and classes
--   Controller.Status    internal/controller/status.go: syncStatus, failTask, markInvalid and
--                        markWaitingForAgentClass, with the Events and metrics behind each write
--   Controller.Terminal  recordTerminalResult and collectTerminal: Reconcile of a terminal Task
--   Controller.Reconcile Reconcile from the read of the Task to its result; tasksForAgentClass; and
--                        the life of a stored Task as step relations, of writes and edits, and of
--                        reconciles and the changes between them
--   Trigger.Signature    internal/trigger/signature.go: VerifyHMAC
--   Trigger.Mapping      internal/trigger/mapping.go: ApplyFilters and BuildTask
--   Trigger.Dedupe       internal/trigger/dedupe.go: stampTriggerClass and findActiveDuplicate
--   Trigger.Handler      internal/trigger/handler.go: ServeHTTP, with the Task that it submits
--   Trigger.Listener     internal/trigger/server.go: the routes, and how Start ends
--   Process.Options      cmd/main.go: the flags, the checks of the TTLs and the options
--   Process.Running      cmd/main.go: run, setupTrigger
--   Examples       concrete parameters, and the theorems applied to them
--
-- A Go string is the list of its bytes (Text), a map is an association list, a nil pointer is
-- `none`, an error is a value of Err with its format and arguments unrendered, and a function that
-- returns an error returns a Result. A loop over a slice is structural recursion on a list, so no
-- definition has fuel. Numbers are natural numbers; the CRD bounds ports to 1..65535 and TTLs to
-- 0 and more. A timeout is an integer of nanoseconds, and its whole seconds are its integer
-- quotient, where the source goes through a floating-point number of seconds.
--
-- Parameters: a DNS resolver is a function from a host to its answer, the snapshot that one call of
-- resolveEgress sees, and the timeout of a lookup is one of its errors. The parser of IP addresses
-- and blocks, the JSON decoders, url.Parse, strings.ToLower, the table of format characters,
-- ParseQuantity and the status conditions are functions that the definitions take.
--
-- For the webhook adapter the HMAC, the path query, the JSON codec of the config, the validity of a
-- label value and the answers of the API server are parameters too. A request creates at most one
-- Task, so the Task of the create call is a field of the response.
--
-- The controller's client of one kind of object is a Store. Its laws: SetControllerReference changes
-- the owner only, and objects that Semantic.DeepEqual calls equal are equal.
--
-- A write of a status answers with the Task as the API server then has it, which has the same name,
-- namespace and UID. In the step relation a write succeeds only on the version of the Task that the
-- reconcile read, which is the optimistic locking of the API server.
--
-- An int of a flag is an integer, and its conversion to 32 bits keeps the low 32 bits. The manager of
-- controller-runtime is a record of functions that answer with an error or none.
--
-- Not modelled: the registration of the watches and of the types, the parsing of the command line, the
-- sockets and timeouts of the adapter, the registry of the metrics and generated code.
mod Prelude
pub mod Errors
pub mod Net
pub mod Kube
pub mod Api
pub mod Machinery
pub mod Metrics
pub mod Policy
pub mod Controller
pub mod Trigger
pub mod Process
pub mod Examples
