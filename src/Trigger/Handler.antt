-- ===== src/Trigger/Handler.antt =====
-- internal/trigger/handler.go: the answer to one webhook request. What the API server answers is a
-- parameter; the Task that the handler asks it to create is part of the response.
pub mod Routes
pub mod Authorized
pub mod Replies
use openconveyor.Prelude.{
  ℕ, Bool, true, false, Option, none, some, List, [], ◌∷◌, ◌++◌, Text, codes, text_eq, is_empty,
  length, ltb, Map, lookup, if◌then◌else◌, ◌||◌, trim_right, decimal,
}
use openconveyor.Errors.{Err, new, wrap, Result, ok, err, ◌>>=◌, is_not_found}
use openconveyor.Api.{Task, ClusterTriggerClass}
use openconveyor.Trigger.Signature.{
  Crypto, VerifyError, missing_signature, signature_mismatch, empty_secret, unsupported_algorithm,
  verify_hmac,
}
use openconveyor.Trigger.Mapping.{Query, Codec, apply_filters, build_task}
use openconveyor.Trigger.Dedupe.{Lister, stamp_trigger_class, find_active_duplicate}

abbrev pub max_body_bytes : ℕ
max_body_bytes = 1_048_576

-- The bytes that a client sends, or a connection that breaks.
pub data Body : Type 0 where
  sent : Text → Body
  broken : Body

pub record Request : Type 0 where
  pub method : Text
  pub path : Text
  pub header : Text → Text
  pub body : Body

-- The JSON of a response; an error may go on with the text of a Go error.
pub data Reply : Type 0 where
  failure : (message : Text) → Option Err → Reply
  filtered : Reply
  duplicate : (task : Text) → Reply
  created : (task namespace : Text) → Reply

-- The response, the labels of the webhook counter, and the Task of the create call, if one is made.
pub record Response : Type 0 where
  pub status : ℕ
  pub reply : Reply
  pub metric_class : Text
  pub metric_result : Text
  pub submitted : Option Task

-- The answers of the API server.
pub record Server : Type 0 where
  pub classes : Result (List ClusterTriggerClass)
  pub secret : (namespace name : Text) → Result (Map Text)
  pub list : Lister
  pub create : Task → Result Task

pub record Settings : Type 0 where
  pub secret_namespace : Text
  pub default_task_namespace : Text

-- strings.TrimRight(path, "/"), and "/" for what is then empty
unfoldable pub route : Text → Text
route path = let trimmed = trim_right b'/' path in if is_empty trimmed then codes "/" else trimmed

unfoldable pub matches : Text → List ClusterTriggerClass → List ClusterTriggerClass
unfolding route
matches path [] = []
matches path (c ∷ cs) =
    let rest = matches path cs in if text_eq (route c.spec.path) path then c ∷ rest else rest

only_match : Text → List ClusterTriggerClass → Result (Option ClusterTriggerClass)
only_match path [] = ok none
only_match path (c ∷ []) = ok (some c)
only_match path (c ∷ d ∷ cs) = err (
    new (codes "path %q is claimed by %d ClusterTriggerClasses")
      (path ∷ decimal (length (c ∷ d ∷ cs)) ∷ []))

unfoldable pub find_trigger_class :
    Result (List ClusterTriggerClass) → Text → Result (Option ClusterTriggerClass)
unfolding only_match route matches
find_trigger_class classes path = do
  items ← classes
  only_match (route path) (matches (route path) items)

secret_value : Text → Text → Text → Option Text → Result Text
secret_value namespace name key (some v) = ok v
secret_value namespace name key none =
    err (new (codes "secret %s/%s has no key %q") (namespace ∷ name ∷ key ∷ []))

secret_error : Text → Text → Err → Err
secret_error namespace name e =
    if is_not_found e
    then wrap (codes "secret %s/%s not found: %w") (namespace ∷ name ∷ []) e
    else e

secret_data : Text → Text → Text → Result (Map Text) → Result Text
unfolding secret_value secret_error
secret_data namespace name key (ok contents) = secret_value namespace name key (lookup key contents)
secret_data namespace name key (err e) = err (secret_error namespace name e)

unfoldable pub lookup_signature_secret : Server → Settings → ClusterTriggerClass → Result Text
unfolding secret_data
lookup_signature_secret server settings ctc =
    let ref = ctc.spec.signature.secret_ref in
    if is_empty ref.name || is_empty ref.key
    then err (new (codes "signature.secretRef is incomplete") [])
    else secret_data settings.secret_namespace ref.name ref.key
        (server.secret settings.secret_namespace ref.name)

-- writeStatus after the counter: no Task is created.
refuse : ℕ → Text → Text → Text → Response
refuse status message class result = record {
  status = status;
  reply = failure message none;
  metric_class = class;
  metric_result = result;
  submitted = none;
}

accepted : ℕ → Reply → Text → Text → Response
accepted status reply class result = record {
  status = status;
  reply = reply;
  metric_class = class;
  metric_result = result;
  submitted = none;
}

-- task.Namespace = h.DefaultTaskNamespace where it is empty
unfoldable pub with_namespace : Settings → Task → Task
with_namespace settings task =
    if is_empty task.meta.namespace
    then (record task { meta = record task.meta { namespace = settings.default_task_namespace } })
    else task

after_create : ClusterTriggerClass → Task → Result Task → Response
after_create ctc task (err e) = record {
  status = 500;
  reply = failure (codes "create task: ") (some e);
  metric_class = ctc.meta.name;
  metric_result = codes "error";
  submitted = some task;
}
after_create ctc task (ok stored) = record {
  status = 200;
  reply = created stored.meta.name stored.meta.namespace;
  metric_class = ctc.meta.name;
  metric_result = codes "accepted";
  submitted = some task;
}

after_dedupe : Server → ClusterTriggerClass → Task → Result Text → Response
unfolding refuse accepted after_create
after_dedupe server ctc task (err e) =
    refuse 500 (codes "dedupe check failed") ctc.meta.name (codes "error")
after_dedupe server ctc task (ok []) = after_create ctc task (server.create task)
after_dedupe server ctc task (ok (c ∷ existing)) =
    accepted 202 (duplicate (c ∷ existing)) ctc.meta.name (codes "duplicate")

module _ (server : Server) (settings : Settings) (valid_label : Text → Bool) where
  -- The Task as it is submitted.
  unfoldable pub prepared : ClusterTriggerClass → Task → Task
  unfolding with_namespace
  prepared ctc task = stamp_trigger_class valid_label (with_namespace settings task) ctc

  after_build : ClusterTriggerClass → Result Task → Response
  unfolding prepared after_dedupe
  after_build ctc (err e) = record {
    status = 400;
    reply = failure (codes "build task: ") (some e);
    metric_class = ctc.meta.name;
    metric_result = codes "build_failed";
    submitted = none;
  }
  after_build ctc (ok task) =
      after_dedupe server ctc (prepared ctc task)
        (find_active_duplicate server.list ctc (prepared ctc task))

  module _ {V : Type 0} (codec : Codec V) (query : Query) (crypto : Crypto)
      (json_valid : Text → Bool) (request : Request) where
    after_signature : ClusterTriggerClass → Text → Option VerifyError → Response
    unfolding after_build
    after_signature ctc body (some empty_secret) =
        refuse 500 (codes "signature configuration error") ctc.meta.name (codes "error")
    after_signature ctc body (some (unsupported_algorithm a)) =
        refuse 500 (codes "signature configuration error") ctc.meta.name (codes "error")
    after_signature ctc body (some missing_signature) =
        refuse 401 (codes "signature verification failed") ctc.meta.name
          (codes "rejected_signature")
    after_signature ctc body (some signature_mismatch) =
        refuse 401 (codes "signature verification failed") ctc.meta.name
          (codes "rejected_signature")
    after_signature ctc body none =
        if apply_filters query body ctc.spec.filters
        then after_build ctc (build_task codec query body ctc.spec.task)
        else accepted 202 filtered ctc.meta.name (codes "filtered")

    after_secret : ClusterTriggerClass → Text → Result Text → Response
    unfolding after_signature
    after_secret ctc body (err e) =
        refuse 500 (codes "load signature secret") ctc.meta.name (codes "error")
    after_secret ctc body (ok secret) = after_signature ctc body (
        verify_hmac crypto ctc.spec.signature.algorithm ctc.spec.signature.prefix
          (request.header ctc.spec.signature.header) secret body)

    after_class : Text → Result (Option ClusterTriggerClass) → Response
    unfolding after_secret
    after_class body (err e) = refuse 500 (codes "lookup trigger class") [] (codes "error")
    after_class body (ok none) =
        refuse 404 (codes "no ClusterTriggerClass registered for path " ++ request.path) []
          (codes "not_found")
    after_class body (ok (some ctc)) =
        after_secret ctc body (lookup_signature_secret server settings ctc)

    after_body : Body → Response
    unfolding after_class
    after_body broken = refuse 400 (codes "malformed request body") [] (codes "rejected_bad_body")
    after_body (sent body) =
        if ltb max_body_bytes (length body)
        then refuse 413 (codes "body too large") [] (codes "rejected_body_too_large")
        else if json_valid body
        then after_class body (find_trigger_class server.classes request.path)
        else refuse 400 (codes "body is not valid JSON") [] (codes "rejected_bad_body")

    unfoldable pub serve_http : Response
    unfolding after_body
    serve_http =
        if text_eq request.method (codes "POST")
        then after_body request.body
        else refuse 405 (codes "method not allowed") [] (codes "rejected_method")
