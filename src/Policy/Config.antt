-- ===== src/Policy/Config.antt =====
-- internal/policy/config.go: how the agent config reaches the container. The JSON decoder is a
-- parameter: an object as a map of values, each a scalar in its env form or some other value.
pub mod Variables
pub mod Mounting
use openconveyor.Prelude.{
  ℕ, Bool, true, false, not, Option, none, some, List, [], ◌∷◌, ◌++◌, map, Text, codes, is_empty,
  all, Map, lookup, sort, text_order, leb, ◌==◌, ◌&&◌, ◌||◌, if◌then◌else◌,
}
use openconveyor.Errors.{Err, new, wrap, permanent, Result, ok, err, ◌>>=◌}
use openconveyor.Api.{AgentInputs}
use openconveyor.Kube.{Volume, from_config_map, VolumeMount, EnvVar, ConfigMap}
use openconveyor.Policy.Labels.{owned_meta}
use openconveyor.Policy.Prompt.{mount_of, env_of}

abbrev pub config_key : Text
config_key = codes "config.json"

abbrev pub config_volume_name : Text
config_volume_name = codes "config"

abbrev pub config_suffix : Text
config_suffix = codes "-config"

is_name_start : ℕ → Bool
is_name_start c = leb b'A' c && leb c b'Z' || leb b'a' c && leb c b'z' || c == b'_'

is_name_byte : ℕ → Bool
unfolding is_name_start
is_name_byte c = is_name_start c || leb b'0' c && leb c b'9'

-- envNameRe: ^[A-Za-z_][A-Za-z0-9_]*$
unfoldable pub is_env_name : Text → Bool
unfolding is_name_start is_name_byte
is_env_name [] = false
is_env_name (c ∷ s) = is_name_start c && all is_name_byte s

-- A decoded JSON value: `nested` is an object, an array or null.
pub data Json : Type 0 where
  text : Text → Json
  number : (literal : Text) → Json
  bool : Bool → Json
  nested : Json

-- json.Decoder with UseNumber, into map[string]any
abbrev pub Decoder : Type 0
Decoder = Text → Result (Map Json)

pub record ConfigProjection : Type 0 where
  pub env : List EnvVar
  pub volume : Option Volume
  pub mount : Option VolumeMount

unfoldable pub agent_config_map_name : Text → Text
agent_config_map_name task_name = task_name ++ config_suffix

unfoldable pub scalar_string : Json → Option Text
scalar_string (text s) = some s
scalar_string (number n) = some n
scalar_string (bool true) = some (codes "true")
scalar_string (bool false) = some (codes "false")
scalar_string nested = none

unfoldable pub decode_config_object : Decoder → Text → Result (Map Json)
decode_config_object decode raw = elim (decode raw) [
  | ok fields ↦ ok fields
  | err e ↦ err (wrap (codes "must be a JSON object: %w") [] e)
]

unfoldable pub keys : Map Json → List Text
keys [] = []
keys ((k, v) ∷ m) = k ∷ keys m

-- scalarString(fields[k]), and only under a name that an environment variable can have
unfoldable pub env_value : Map Json → Text → Option Text
unfolding scalar_string
env_value fields k =
    if is_env_name k
    then (elim (lookup k fields) [ none ↦ none | some v ↦ scalar_string v ])
    else none

unprojectable : Text → Err
unprojectable k = permanent (
    new
      (codes
        "spec.agent.config.%s cannot be projected as an env var and the AgentClass declares no config mount/env")
      (k ∷ []))

-- The loop over the sorted keys. `reachable` holds if the whole JSON is delivered too.
project_key : Bool → Text → Option Text → Result (List EnvVar) → Result (List EnvVar)
unfolding unprojectable
project_key reachable k (some value) rest = do
  envs ← rest
  ok (record { name = k; value = value } ∷ envs)
project_key true k none rest = rest
project_key false k none rest = err (unprojectable k)

project_keys : Bool → Map Json → List Text → Result (List EnvVar)
unfolding project_key
project_keys reachable fields [] = ok []
project_keys reachable fields (k ∷ ks) =
    project_key reachable k (env_value fields k) (project_keys reachable fields ks)

-- The variable with the whole JSON, if the AgentClass asks for one.
whole_env : Text → Text → Result (List EnvVar)
whole_env [] raw = ok []
whole_env (c ∷ name) raw =
    if is_env_name (c ∷ name)
    then ok (record { name = c ∷ name; value = raw } ∷ [])
    else err (
        permanent (
          new (codes "agentclass inputs.config.env %q is not a valid env var name")
            ((c ∷ name) ∷ [])))

mount_config : Text → Text → List EnvVar → ConfigProjection
mount_config task_name [] envs = record { env = envs; volume = none; mount = none }
mount_config task_name (c ∷ path) envs = record {
  env = envs;
  volume = some (record {
    name = config_volume_name;
    source = from_config_map (agent_config_map_name task_name);
  });
  mount = some (record {
    name = config_volume_name;
    mount_path = c ∷ path;
    sub_path = config_key;
    read_only = true;
  });
}

abbrev pub no_config : ConfigProjection
no_config = record { env = []; volume = none; mount = none }

-- string(config.Raw), empty for a nil config
unfoldable pub raw_config : Option Text → Text
raw_config none = []
raw_config (some raw) = raw

decoded_config : Decoder → Text → Result (Map Json)
unfolding decode_config_object
decoded_config decode raw = elim (decode_config_object decode raw) [
  | ok fields ↦ ok fields
  | err e ↦ err (permanent (wrap (codes "spec.agent.config: %w") [] e))
]

-- The variables of the fields, then the one with the whole JSON, then the volume.
assemble : Text → Text → Result (List EnvVar) → Result (List EnvVar) → Result ConfigProjection
unfolding mount_config
assemble task_name mount fields_env raw_env = do
  envs ← fields_env
  whole ← raw_env
  ok (mount_config task_name mount (envs ++ whole))

project_fields : Text → Text → Text → Text → Map Json → Result ConfigProjection
unfolding assemble project_keys whole_env keys
project_fields task_name mount env raw fields =
    assemble task_name mount
      (project_keys (not (is_empty mount) || not (is_empty env)) fields
        (sort text_order (keys fields)))
      (whole_env env raw)

unfoldable pub build_config_projection :
    Decoder → Text → Option Text → AgentInputs → Result ConfigProjection
unfolding decoded_config project_fields raw_config mount_of env_of
build_config_projection decode task_name config inputs =
    if is_empty (raw_config config) then ok no_config else do
      fields ← decoded_config decode (raw_config config)
      project_fields task_name (mount_of inputs.config) (env_of inputs.config) (raw_config config)
          fields

agent_config_map : Text → Text → Text → ConfigMap
agent_config_map task_name namespace raw = record {
  meta = owned_meta (agent_config_map_name task_name) namespace task_name;
  contents = (config_key, raw) ∷ [];
}

unfoldable pub build_agent_config_map : Text → Text → Option Text → AgentInputs → Option ConfigMap
unfolding raw_config mount_of agent_config_map
build_agent_config_map task_name namespace config inputs =
    if is_empty (raw_config config) || is_empty (mount_of inputs.config)
    then none
    else some (agent_config_map task_name namespace (raw_config config))
