-- ===== src/Examples/Inputs.antt =====
-- The theorems on allowlists, roles, Secrets, prompts and configs, on small inputs.
use openconveyor.Prelude.{
  true, false, not, ◌&&◌, ◌||◌, ◌≡◌, refl, ◌⊎◌, none, some, List, [], ◌∷◌, Text, codes, any,
  is_empty, text_eq, Distinct, sort, lookup, text_le,
}
use openconveyor.Errors.{Err, ok, err, new, permanent}
use openconveyor.Kube.{Role, RoleBinding, from_config_map}
use openconveyor.Policy.Labels.{merge_string_sets}
use openconveyor.Policy.Labels.Merging.{first_occurrences, concat, merge-eq-first_occurrences}
use openconveyor.Policy.Rbac.{build_role, build_role_binding, needs_service_account_token}
use openconveyor.Policy.Rbac.Grants.{Grants, Binds, role_and_token}
use openconveyor.Policy.Prompt.{
  PromptProjection, build_prompt_projection, prompt_volume_name, prompt_key, mount_of, env_of,
  inline_prompt_config_map_name,
}
use openconveyor.Policy.Prompt.Delivery.{Delivers, build_prompt_projection-Delivers}
use openconveyor.Policy.Config.{
  ConfigProjection, build_config_projection, build_agent_config_map, config_volume_name, config_key,
  keys, env_value, is_env_name, raw_config, decode_config_object, agent_config_map_name,
}
use openconveyor.Policy.Config.Variables.{
  is_variable_name, field_is, is_variable, any-build_config_projection,
}
use openconveyor.Policy.Config.Mounting.{Mounts, build_config_projection-Mounts}
use openconveyor.Examples.Instances.{
  small_decoder, two_fields, raw_fields, inputs, plain_inputs, inline_prompt, no_source, rule,
}

abbrev lists : List (List Text)
lists = (codes "b" ∷ codes "a" ∷ []) ∷ (codes "a" ∷ [] ∷ codes "c" ∷ []) ∷ []

merge-eq-first_occurrences_example : merge_string_sets lists ≡ first_occurrences (concat lists)
merge-eq-first_occurrences_example = merge-eq-first_occurrences lists

role_and_token_example :
    ((build_role (codes "t1") (codes "ns") (rule ∷ []) ≡ none)
      × (build_role_binding (codes "t1") (codes "ns") (rule ∷ []) ≡ none)
      × (needs_service_account_token (rule ∷ []) ≡ false)
      × (rule ∷ [] ≡ []))
    ⊎ ((role : Role) × (binding : RoleBinding) × (build_role (codes "t1") (codes "ns") (rule ∷ [])
          ≡ some role)
        × (build_role_binding (codes "t1") (codes "ns") (rule ∷ []) ≡ some binding)
        × (needs_service_account_token (rule ∷ []) ≡ true)
        × Grants (rule ∷ []) role.rules
        × Binds (codes "t1") (codes "ns") role binding)
role_and_token_example = role_and_token (codes "t1") (codes "ns") (rule ∷ [])

abbrev secrets : List Text
secrets = codes "b" ∷ codes "a" ∷ []

secrets-Distinct : Distinct secrets
unfolding text_eq
secrets-Distinct = (refl, (refl, tt))

abbrev projected_prompt : PromptProjection
projected_prompt = record {
  volume =
      some (record { name = prompt_volume_name; source = from_config_map (codes "t1-prompt") });
  mount = some (record {
    name = prompt_volume_name;
    mount_path = codes "/in/prompt";
    sub_path = prompt_key;
    read_only = true;
  });
}

prompt_projected : build_prompt_projection (codes "t1") inline_prompt inputs ≡ ok projected_prompt
unfolding build_prompt_projection inline_prompt_config_map_name
prompt_projected = refl

build_prompt_projection-Delivers_example :
    Delivers (codes "t1") (codes "ns") inline_prompt inputs projected_prompt
build_prompt_projection-Delivers_example =
    build_prompt_projection-Delivers (codes "t1") (codes "ns") inline_prompt inputs projected_prompt
      prompt_projected

abbrev source_error : Err
source_error = new (codes "prompt has no source (inline/secretRef/configMapRef)") []

prompt_refused : build_prompt_projection (codes "t1") no_source inputs ≡ err source_error
unfolding build_prompt_projection
prompt_refused = refl

abbrev projected_config : ConfigProjection
projected_config = record {
  env =
      record { name = codes "REPO"; value = codes "x" }
      ∷ record { name = codes "CONFIG"; value = raw_fields }
      ∷ [];
  volume =
      some (record { name = config_volume_name; source = from_config_map (codes "t1-config") });
  mount = some (record {
    name = config_volume_name;
    mount_path = codes "/in/config.json";
    sub_path = config_key;
    read_only = true;
  });
}

config_projected :
    build_config_projection small_decoder (codes "t1") (some raw_fields) inputs
    ≡ ok projected_config
unfolding build_config_projection decode_config_object env_value is_env_name keys lookup sort
    text_eq agent_config_map_name text_le
config_projected = refl

fields_decoded : small_decoder (raw_config (some raw_fields)) ≡ ok two_fields
unfolding text_eq raw_config
fields_decoded = refl

raw_full : is_empty (raw_config (some raw_fields)) ≡ false
unfolding raw_config
raw_full = refl

any-build_config_projection_example :
    any (is_variable (codes "REPO") (codes "x")) projected_config.env ≡ (
      (is_variable_name (codes "REPO") && field_is (codes "x") (lookup (codes "REPO") two_fields))
      || (not (is_empty (env_of inputs.config))
          && (text_eq (env_of inputs.config) (codes "REPO")
              && text_eq (raw_config (some raw_fields)) (codes "x"))))
any-build_config_projection_example =
    any-build_config_projection small_decoder (codes "t1") (some raw_fields) inputs two_fields
      raw_full fields_decoded projected_config (codes "REPO") (codes "x") config_projected

build_config_projection-Mounts_example :
    Mounts projected_config
      (build_agent_config_map (codes "t1") (codes "ns") (some raw_fields) inputs)
      (mount_of inputs.config)
      (raw_config (some raw_fields))
build_config_projection-Mounts_example =
    build_config_projection-Mounts small_decoder (codes "t1") (codes "ns") (some raw_fields) inputs
      projected_config config_projected

abbrev unreachable : Err
unreachable = permanent (
    new
      (codes
        "spec.agent.config.%s cannot be projected as an env var and the AgentClass declares no config mount/env")
      (codes "deep" ∷ []))

config_refused :
    build_config_projection small_decoder (codes "t1") (some raw_fields) plain_inputs
    ≡ err unreachable
unfolding build_config_projection decode_config_object env_value is_env_name keys lookup sort
    text_eq text_le
config_refused = refl
