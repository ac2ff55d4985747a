-- ===== src/Process/Options.antt =====
-- cmd/main.go: the flags, their checks, and the options that are made of them.
pub mod Ranges
pub mod Selection
use openconveyor.Prelude.{
  ℕ, suc, ◌+◌, ◌-◌, ◌%◌, ℤ, pos, negsuc, is_positive, Bool, true, false, not, ◌||◌, Option, none,
  some, List, [], ◌∷◌, ◌++◌, Text, codes, is_empty, ltb, decimal, if◌then◌else◌,
}
use openconveyor.Errors.{Err, new, wrap, Result, ok, err, ◌>>=◌}
use openconveyor.Policy.Labels.{label_task_name, label_managed_by, managed_by_value}
use openconveyor.Trigger.Handler.{Settings}

abbrev pub default_trigger_namespace : Text
default_trigger_namespace = codes "conveyor-system"

-- In nanoseconds.
abbrev pub default_egress_refresh : ℕ
default_egress_refresh = 300_000_000_000

-- An int is an integer of 64 bits, as its flag parses it.
pub record Flags : Type 0 where
  pub metrics_addr : Text
  pub metrics_cert_path : Text
  pub metrics_cert_name : Text
  pub metrics_cert_key : Text
  pub webhook_cert_path : Text
  pub webhook_cert_name : Text
  pub webhook_cert_key : Text
  pub probe_addr : Text
  pub enable_leader_election : Bool
  pub secure_metrics : Bool
  pub enable_http2 : Bool
  pub trigger_addr : Text
  pub trigger_namespace : Text
  pub egress_refresh : ℤ
  pub job_ttl_seconds : ℤ
  pub task_ttl_seconds : ℤ

-- The flags of a command line without any.
abbrev pub default_flags : Flags
default_flags = record {
  metrics_addr = codes "0";
  metrics_cert_path = [];
  metrics_cert_name = codes "tls.crt";
  metrics_cert_key = codes "tls.key";
  webhook_cert_path = [];
  webhook_cert_name = codes "tls.crt";
  webhook_cert_key = codes "tls.key";
  probe_addr = codes ":8081";
  enable_leader_election = false;
  secure_metrics = true;
  enable_http2 = false;
  trigger_addr = [];
  trigger_namespace = [];
  egress_refresh = pos default_egress_refresh;
  job_ttl_seconds = pos 3600;
  task_ttl_seconds = negsuc 0;
}

-- math.MaxInt32
abbrev pub max_int32 : ℕ
max_int32 = 2_147_483_647

-- The integer that the low 32 bits of a natural number below 2 ^ 32 stand for.
signed32 : ℕ → ℤ
signed32 n = if ltb n 2_147_483_648 then pos n else negsuc (4_294_967_295 - n)

-- int32(v), which keeps the low 32 bits
unfoldable pub as_int32 : ℤ → ℤ
unfolding signed32
as_int32 (pos n) = signed32 (n % 4_294_967_296)
as_int32 (negsuc n) = signed32 (4_294_967_295 - n % 4_294_967_296)

-- v > max_int32
abbrev pub exceeds_int32 : ℤ → Bool
exceeds_int32 (pos n) = ltb max_int32 n
exceeds_int32 (negsuc n) = false

-- v >= 0
abbrev pub is_natural : ℤ → Bool
is_natural (pos n) = true
is_natural (negsuc n) = false

-- %d
integer_text : ℤ → Text
integer_text (pos n) = decimal n
integer_text (negsuc n) = codes "-" ++ decimal (suc n)

unfoldable pub validate_job_ttl : ℤ → Result (Unit {0})
unfolding integer_text
validate_job_ttl v =
    if not (is_positive v) || exceeds_int32 v
    then err (
        new
          (codes
            "--job-ttl-seconds must be between 1 and %d, got %d: 0 deletes the pod before the controller can read the agent Result")
          (decimal max_int32 ∷ integer_text v ∷ []))
    else ok tt

unfoldable pub check_task_ttl : ℤ → Result (Unit {0})
unfolding integer_text
check_task_ttl v =
    if exceeds_int32 v
    then err (
        new (codes "--task-ttl-seconds must be at most %d, got %d")
          (decimal max_int32 ∷ integer_text v ∷ []))
    else ok tt

-- The default TTL of Tasks, `none` for a nil pointer.
unfoldable pub task_ttl : ℤ → Option ℤ
task_ttl v = if is_natural v then some (as_int32 v) else none

-- A function on a tls.Config, by the NextProtos that it sets.
abbrev pub TlsOption : Type 0
TlsOption = List Text

unfoldable pub build_tls_opts : Flags → List TlsOption
build_tls_opts fl = if fl.enable_http2 then [] else (codes "http/1.1" ∷ []) ∷ []

pub record Certificate : Type 0 where
  pub directory : Text
  pub name : Text
  pub key : Text

-- `none` for the empty fields of a server without a directory of certificates
certificate : Text → Text → Text → Option Certificate
certificate directory name key =
    if is_empty directory
    then none
    else some (record { directory = directory; name = name; key = key })

pub record WebhookOptions : Type 0 where
  pub tls : List TlsOption
  pub certs : Option Certificate

unfoldable pub build_webhook_server : Flags → List TlsOption → WebhookOptions
unfolding certificate
build_webhook_server fl tls = record {
  tls = tls;
  certs = certificate fl.webhook_cert_path fl.webhook_cert_name fl.webhook_cert_key;
}

-- `protected` is whether the filter with authentication and authorization stands before the endpoint.
pub record MetricsOptions : Type 0 where
  pub bind_address : Text
  pub secure_serving : Bool
  pub tls : List TlsOption
  pub protected : Bool
  pub certs : Option Certificate

unfoldable pub build_metrics_options : Flags → List TlsOption → MetricsOptions
unfolding certificate
build_metrics_options fl tls = record {
  bind_address = fl.metrics_addr;
  secure_serving = fl.secure_metrics;
  tls = tls;
  protected = fl.secure_metrics;
  certs = certificate fl.metrics_cert_path fl.metrics_cert_name fl.metrics_cert_key;
}

-- labels.Requirement, with the operators that the program uses
pub data Requirement : Type 0 where
  exists : (key : Text) → Requirement
  equals : (key value : Text) → Requirement

unfoldable pub task_pod_selector : List Requirement
task_pod_selector = exists label_task_name ∷ equals label_managed_by managed_by_value ∷ []
