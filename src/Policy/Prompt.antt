-- ===== src/Policy/Prompt.antt =====
-- internal/policy/prompt.go: how the prompt of a Task reaches the agent container.
pub mod Delivery
use openconveyor.Prelude.{
  Bool, true, Option, none, some, List, [], ◌∷◌, ◌++◌, Text, codes, is_empty, if◌then◌else◌,
}
use openconveyor.Errors.{Err, new, Result, ok, err}
use openconveyor.Api.{PromptSource, AgentInputs, AgentInputMount}
use openconveyor.Kube.{
  Volume, VolumeSource, from_config_map, from_secret, VolumeMount, ConfigMap, KeySelector,
}
use openconveyor.Policy.Labels.{owned_meta}

-- The volume and mount that the program sets or leaves nil together.
pub record PromptProjection : Type 0 where
  pub volume : Option Volume
  pub mount : Option VolumeMount

abbrev pub prompt_key : Text
prompt_key = codes "prompt"

abbrev pub prompt_volume_name : Text
prompt_volume_name = codes "prompt"

abbrev pub prompt_suffix : Text
prompt_suffix = codes "-prompt"

unfoldable pub inline_prompt_config_map_name : Text → Text
inline_prompt_config_map_name task_name = task_name ++ prompt_suffix

abbrev pub no_prompt : PromptProjection
no_prompt = record { volume = none; mount = none }

project_prompt : Text → VolumeSource → Text → PromptProjection
project_prompt mount_path source sub_path = record {
  volume = some (record { name = prompt_volume_name; source = source });
  mount = some (record {
    name = prompt_volume_name;
    mount_path = mount_path;
    sub_path = sub_path;
    read_only = true;
  });
}

-- The references, when the prompt is not inline.
project_reference : Text → Option KeySelector → Option KeySelector → Result PromptProjection
unfolding project_prompt
project_reference mount_path (some r) secret_ref =
    ok (project_prompt mount_path (from_config_map r.name) r.key)
project_reference mount_path none (some r) =
    ok (project_prompt mount_path (from_secret r.name) r.key)
project_reference mount_path none none =
    err (new (codes "prompt has no source (inline/secretRef/configMapRef)") [])

project_source : Text → Text → PromptSource → Result PromptProjection
unfolding project_reference
project_source task_name mount_path prompt =
    if is_empty prompt.inline
    then project_reference mount_path prompt.config_map_ref prompt.secret_ref
    else ok (
        project_prompt mount_path (from_config_map (inline_prompt_config_map_name task_name))
          prompt_key)

-- The path at which the AgentClass takes the input, or the empty string.
unfoldable pub mount_of : Option AgentInputMount → Text
mount_of none = []
mount_of (some m) = m.mount

unfoldable pub env_of : Option AgentInputMount → Text
env_of none = []
env_of (some m) = m.env

unfoldable pub build_prompt_projection : Text → PromptSource → AgentInputs → Result PromptProjection
unfolding project_source mount_of
build_prompt_projection task_name prompt inputs =
    if is_empty (mount_of inputs.prompt)
    then ok no_prompt
    else project_source task_name (mount_of inputs.prompt) prompt

inline_config_map : Text → Text → Text → ConfigMap
inline_config_map task_name namespace inline = record {
  meta = owned_meta (inline_prompt_config_map_name task_name) namespace task_name;
  contents = (prompt_key, inline) ∷ [];
}

unfoldable pub build_inline_prompt_config_map : Text → Text → PromptSource → Option ConfigMap
unfolding inline_config_map
build_inline_prompt_config_map task_name namespace prompt =
    if is_empty prompt.inline
    then none
    else some (inline_config_map task_name namespace prompt.inline)
