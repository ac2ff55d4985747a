-- ===== src/Examples/Webhooks.antt =====
-- The theorems on the webhook adapter, on one request.
use openconveyor.Prelude.{
  All, IsPlain, ◌<◌, ◌++◌, arith, trim_space, true, false, ◌≡◌, ◌↔◌, refl, none, some, List, [],
  ◌∷◌, ◌++◌, Text, codes, text_eq, is_empty, All, Map, lookup, lookup_text, store, if◌then◌else◌,
  trim_space, trim_prefix, trim_right, has_prefix,
}
use openconveyor.Errors.{ok}
use openconveyor.Kube.{empty_meta}
use openconveyor.Api.{Task, AgentRef, TaskTemplate, ClusterTriggerClass}
use openconveyor.Policy.Labels.{label_trigger_class}
use openconveyor.Trigger.Signature.Roundtrip.{verify_hmac-hex_encode}
use openconveyor.Trigger.Signature.{
  supported, hex_encode, Crypto, VerifyError, hex_encode, verify_hmac,
}
use openconveyor.Trigger.Signature.Genuine.{IsSigned, Explains, verify_hmac_iff}
use openconveyor.Trigger.Mapping.{
  Query, set_config_key, build_task, resolve_mapping, apply_mapping, apply_filters, template_task,
}
use openconveyor.Trigger.Mapping.Built.{KeepsTemplate, build_task-KeepsTemplate}
use openconveyor.Trigger.Dedupe.{
  find_active_duplicate, dedupe_selector, is_inactive, stamp_trigger_class,
}
use openconveyor.Trigger.Dedupe.Blocking.{Blocks, find_active_duplicate_lem}
use openconveyor.Trigger.Handler.{
  Request, sent, Server, Settings, serve_http, find_trigger_class, lookup_signature_secret,
}
use openconveyor.Trigger.Handler.Authorized.{IsAuthorized, serve_http-IsAuthorized}
use openconveyor.Trigger.Handler.Replies.{Stored, serve_http-Stored}
use openconveyor.Examples.Instances.{task}
use openconveyor.Examples.Lists.{pool_lister, pool_lister-IsSelective, member_codec}

-- The MAC of everything under every secret is the byte 171, "ab".
abbrev small_crypto : Crypto
small_crypto = record { mac = λ secret body. 171 ∷ []; to_lower = λ s. s }

abbrev small_query : Query
small_query body path = if text_eq path (codes "issue.title") then some (codes "fix it") else none

abbrev template : TaskTemplate
template = record {
  namespace = codes "ns";
  generate_name_prefix = [];
  agent = record { ref = codes "coder"; config = none };
  permissions = task.spec.permissions;
  resources = task.spec.resources;
  ttl_seconds_after_finished = none;
  mappings =
      record { from = codes "issue.title"; to = codes "prompt"; fallback = [] }
      ∷ record { from = codes "issue.repo"; to = codes "config.REPO"; fallback = codes "x" }
      ∷ record { from = codes "issue.url"; to = codes "labels.issue"; fallback = codes "7" }
      ∷ [];
}

abbrev class : ClusterTriggerClass
class = record {
  meta = record empty_meta { name = codes "issues" };
  spec = record {
    path = codes "/hook/";
    signature = record {
      header = codes "X-Sig";
      algorithm = [];
      prefix = codes "sha256=";
      secret_ref = record { name = codes "hmac"; key = codes "key" };
    };
    filters = record { path = codes "issue.title"; equals = codes "fix it" } ∷ [];
    task = template;
    dedupe = some (record { unique_by = codes "issue" ∷ [] });
  };
}

abbrev request : Request
request = record {
  method = codes "POST";
  path = codes "/hook";
  header = λ name. codes "sha256=ab";
  body = sent (codes "{}");
}

abbrev running_task : Task
running_task = record task {
  meta = record task.meta {
    name = codes "issues-1";
    labels = (label_trigger_class, codes "issues") ∷ (codes "issue", codes "8") ∷ [];
  };
}

-- The Task of the pool has another value of the label.
abbrev server : Server
server = record {
  classes = ok (class ∷ []);
  secret = λ namespace name. ok ((codes "key", codes "s") ∷ []);
  list = pool_lister (running_task ∷ []);
  create = λ t. ok t;
}

abbrev settings : Settings
settings = record { secret_namespace = codes "sys"; default_task_namespace = codes "tasks" }

verify_hmac_iff_example :
    ((verify_hmac small_crypto [] (codes "sha256=") (codes "sha256=ab") (codes "s") (codes "{}")
        ≡ none)
      ↔ IsSigned small_crypto [] (codes "sha256=") (codes "sha256=ab") (codes "s") (codes "{}"))
    × ((e : VerifyError)
        → verify_hmac small_crypto [] (codes "sha256=") (codes "sha256=ab") (codes "s") (codes "{}")
          ≡ some e
        → Explains small_crypto [] (codes "sha256=") (codes "sha256=ab") (codes "s") (codes "{}") e)
verify_hmac_iff_example =
    verify_hmac_iff small_crypto [] (codes "sha256=") (codes "sha256=ab") (codes "s") (codes "{}")

known_algorithm : supported small_crypto [] ≡ true
unfolding supported trim_space
known_algorithm = refl

mac_bytes : (secret body : Text) → All (λ c. c < 256) (small_crypto.mac secret body)
mac_bytes secret body = (omega arith, tt)

prefix-IsPlain : All IsPlain (codes "sha256=")
prefix-IsPlain = ground arith

verify_hmac-hex_encode_example :
    (verify_hmac small_crypto []
        (codes "sha256=")
        (codes "sha256=" ++ hex_encode (small_crypto.mac (codes "s") (codes "{}")))
        (codes "s")
        (codes "{}")
      ≡ none)
    ↔ (small_crypto.mac (codes "s") (codes "{}") ≡ small_crypto.mac (codes "s") (codes "{}"))
verify_hmac-hex_encode_example =
    verify_hmac-hex_encode small_crypto (λ s h. refl) mac_bytes [] (codes "sha256=") (codes "s")
      (codes "{}") (codes "{}") known_algorithm refl refl prefix-IsPlain

built_task : (t : Task) × (build_task member_codec small_query (codes "{}") template ≡ ok t)
unfolding build_task resolve_mapping apply_mapping text_eq has_prefix set_config_key trim_prefix
    template_task member_codec store
built_task = (_, refl)

build_task-KeepsTemplate_example :
    KeepsTemplate template built_task.0 × (is_empty built_task.0.spec.prompt.inline ≡ false)
build_task-KeepsTemplate_example =
    build_task-KeepsTemplate member_codec template small_query (codes "{}") built_task.0
      built_task.1

abbrev bare : AgentRef
bare = record { ref = codes "coder"; config = none }

configured : (a : AgentRef) × (set_config_key member_codec bare (codes "REPO") (codes "x") ≡ ok a)
unfolding set_config_key member_codec store
configured = (_, refl)

-- The event of the running Task comes again.
abbrev again : Task
again = record running_task { meta = record running_task.meta { name = [] } }

blocked_again :
    find_active_duplicate (pool_lister (running_task ∷ [])) class again ≡ ok (codes "issues-1")
unfolding find_active_duplicate lookup_text text_eq pool_lister store
blocked_again = refl

find_active_duplicate_lem_example :
    (is_empty (codes "issues-1") ≡ false
      → (t : Task) × (t.meta.name ≡ codes "issues-1")
        × Blocks
            (pool_lister (running_task ∷ []))
            (pool_lister-IsSelective (running_task ∷ []))
            class
            again
            t)
    × (is_empty (codes "issues-1") ≡ true
        → (selector : Map Text) (ts : List Task) → dedupe_selector class again ≡ some selector
        → pool_lister (running_task ∷ []) again.meta.namespace selector ≡ ok ts
        → All (λ (t : Task). is_inactive t ≡ true) ts)
find_active_duplicate_lem_example =
    find_active_duplicate_lem (pool_lister (running_task ∷ []))
      (pool_lister-IsSelective (running_task ∷ [])) class again (codes "issues-1") blocked_again

made :
    (t : Task) × ((serve_http server settings
        (λ name. true)
        member_codec
        small_query
        small_crypto
        (λ b. true)
        request).submitted
      ≡ some t)
unfolding serve_http text_eq find_trigger_class trim_right lookup_signature_secret lookup
    verify_hmac trim_space trim_prefix hex_encode apply_filters build_task resolve_mapping
    apply_mapping set_config_key template_task member_codec store lookup_text has_prefix
    find_active_duplicate pool_lister stamp_trigger_class
made = (_, refl)

serve_http-IsAuthorized_example :
    IsAuthorized member_codec small_query small_crypto
      (λ b. true)
      (λ name. true)
      server
      settings
      request
      made.0
serve_http-IsAuthorized_example =
    serve_http-IsAuthorized member_codec small_query small_crypto (λ b. true) (λ name. true) server
      settings request made.0 made.1

serve_http-Stored_example :
    ((serve_http server settings
        (λ name. true)
        member_codec
        small_query
        small_crypto
        (λ b. true)
        request).status
      ≡ 200)
    ↔ Stored server (
        serve_http server settings
          (λ name. true)
          member_codec
          small_query
          small_crypto
          (λ b. true)
          request)
serve_http-Stored_example =
    serve_http-Stored server settings (λ name. true) member_codec small_query small_crypto
      (λ b. true) request
