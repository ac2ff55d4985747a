-- ===== src/Trigger/Mapping.antt =====
-- internal/trigger/mapping.go: the Task of a webhook payload. The path query of gjson and the JSON
-- codec of the config are parameters.
pub mod Built
pub mod Configured
use openconveyor.Prelude.{
  Bool, true, false, ◌≡◌, Option, none, some, List, [], ◌∷◌, Text, codes, text_eq, is_empty, Map,
  lookup, store, has_prefix, trim_prefix, if◌then◌else◌, ◌&&◌, pos,
}
use openconveyor.Errors.{Err, new, wrap, Result, ok, err, ◌>>=◌}
use openconveyor.Kube.{empty_meta}
use openconveyor.Api.{
  Task, TaskSpec, TaskStatus, TaskPhase, unset, AgentRef, PromptSource, WebhookFilter, FieldMapping,
  TaskTemplate,
}

abbrev pub default_generate_name_prefix : Text
default_generate_name_prefix = codes "task-"

-- gjson.GetBytes(body, path): the String of what it finds, if it exists.
abbrev pub Query : Type 0
Query = (body path : Text) → Option Text

-- The JSON objects of a config, with values of a type that only the codec knows.
pub record Codec (V : Type 0) : Type 0 where
  -- a string as a value
  pub of_text : Text → V
  -- json.Decoder with UseNumber into map[string]any
  pub decode : Text → Result (Map V)
  -- json.Marshal of a map
  pub marshal : Map V → Result Text
  -- What was marshalled is not empty and decodes to a map with the same members.
  pub decode-marshal :
      (m : Map V) (raw : Text)
      → marshal m ≡ ok raw
      → (is_empty raw ≡ false)
        × (n : Map V) × (decode raw ≡ ok n)
        × ((k : Text) → lookup k n ≡ lookup k m)

-- gjson.Result.String(), empty for what does not exist
unfoldable pub string_of : Option Text → Text
string_of none = []
string_of (some s) = s

module _ (query : Query) where
  unfoldable pub apply_filters : Text → List WebhookFilter → Bool
  unfolding string_of
  apply_filters body [] = true
  apply_filters body (f ∷ fs) =
      let rest = apply_filters body fs in
      if text_eq (string_of (query body f.path)) f.equals then rest else false

  or_fallback : Text → Option Text → Text
  or_fallback fallback none = fallback
  or_fallback fallback (some s) = if is_empty s then fallback else s

  unfoldable pub resolve_mapping : Text → FieldMapping → Text
  unfolding or_fallback
  resolve_mapping body m = or_fallback m.fallback (query body m.from)

put_label : Task → Text → Text → Task
put_label task key value = record task {
  meta = record task.meta { labels = store key value task.meta.labels };
}

put_annotation : Task → Text → Text → Task
put_annotation task key value = record task {
  meta = record task.meta { annotations = store key value task.meta.annotations };
}

put_prompt : Task → Text → Task
put_prompt task value = record task {
  spec = record task.spec { prompt = record task.spec.prompt { inline = value } };
}

put_name : Task → Text → Task
put_name task value = record task { meta = record task.meta { name = value; generate_name = [] } }

mapping_error : FieldMapping → Result Task → Result Task
mapping_error m (ok task) = ok task
mapping_error m (err e) = err (wrap (codes "mapping %q → %q: %w") (m.from ∷ m.to ∷ []) e)

-- The status of an object that no controller has seen.
abbrev pub empty_status : TaskStatus
empty_status = record {
  phase = unset;
  observed_generation = 0;
  job_name = [];
  start_time = none;
  completion_time = none;
  task_result = none;
  conditions = [];
}

unfoldable pub generate_prefix : TaskTemplate → Text
generate_prefix t =
    if is_empty t.generate_name_prefix then default_generate_name_prefix else t.generate_name_prefix

-- The Task of the template, before the mappings.
unfoldable pub template_task : TaskTemplate → Task
unfolding generate_prefix
template_task t = record {
  meta = record empty_meta { generate_name = generate_prefix t; namespace = t.namespace };
  spec = record {
    agent = t.agent;
    prompt = record { inline = []; secret_ref = none; config_map_ref = none };
    permissions = t.permissions;
    resources = t.resources;
    ttl_seconds_after_finished = t.ttl_seconds_after_finished;
  };
  status = empty_status;
}

require_prompt : Task → Result Task
require_prompt task =
    if is_empty task.spec.prompt.inline
    then elim task.spec.prompt.secret_ref [
      | some r ↦ ok task
      | none ↦ elim task.spec.prompt.config_map_ref [
        | some r ↦ ok task
        | none ↦ err (
            new
              (codes
                "webhook produced a Task with no prompt — add a \"prompt\" mapping or a default")
              [])
      ]
    ]
    else ok task

module _ {V : Type 0} (codec : Codec V) where
  -- The fields of the config that is already there.
  config_fields : Option Text → Result (Map V)
  config_fields none = ok []
  config_fields (some []) = ok []
  config_fields (some (c ∷ raw)) = elim (codec.decode (c ∷ raw)) [
    | ok fields ↦ ok fields
    | err e ↦ err (wrap (codes "template agent.config is not a JSON object: %w") [] e)
  ]

  unfoldable pub set_config_key : AgentRef → Text → Text → Result AgentRef
  unfolding config_fields
  set_config_key agent key value =
      if is_empty key
      then err (new (codes "config mapping needs a key, e.g. \"config.TARGET_REPO\"") [])
      else do
        fields ← config_fields agent.config
        raw ← codec.marshal (store key (codec.of_text value) fields)
        ok (record agent { config = some raw })

  put_config : Task → Text → Text → Result Task
  put_config task key value = do
    agent ← set_config_key task.spec.agent key value
    ok (record task { spec = record task.spec { agent = agent } })

  unfoldable pub apply_mapping : Task → Text → Text → Result Task
  unfolding put_label put_annotation put_config put_prompt put_name
  apply_mapping task to value =
      if text_eq to (codes "prompt")
      then ok (put_prompt task value)
      else if text_eq to (codes "name")
      then ok (put_name task value)
      else if has_prefix to (codes "labels.")
      then ok (put_label task (trim_prefix to (codes "labels.")) value)
      else if has_prefix to (codes "annotations.")
      then ok (put_annotation task (trim_prefix to (codes "annotations.")) value)
      else if has_prefix to (codes "config.")
      then put_config task (trim_prefix to (codes "config.")) value
      else err (new (codes "unknown mapping target %q") (to ∷ []))

  module _ (query : Query) (body : Text) where
    -- One round of the loop: a mapping that resolves to nothing is dropped.
    map_field : Task → FieldMapping → Result Task
    unfolding mapping_error
    map_field task m =
        let value = resolve_mapping query body m in
        if is_empty value then ok task else mapping_error m (apply_mapping task m.to value)

    map_fields : Task → List FieldMapping → Result Task
    unfolding map_field
    map_fields task [] = ok task
    map_fields task (m ∷ ms) = do next ← map_field task m; map_fields next ms

    unfoldable pub build_task : TaskTemplate → Result Task
    unfolding map_fields require_prompt
    build_task t = do task ← map_fields (template_task t) t.mappings; require_prompt task
