-- ===== src/Policy/Config/Mounting.antt =====
-- The config file of the container, and the ConfigMap that must exist for it.
use openconveyor.Prelude.{
  true, not, ◌||◌, ◌≡◌, refl, Option, none, some, List, [], ◌∷◌, inl, inr, Text, is_empty, Map,
  lookup_text, text_eq, subst, sort, text_order, ◌++◌, if◌then◌else◌, arith, Bool-cases,
}
use openconveyor.Errors.{ok, >>=-eq-ok, ok-injective}
use openconveyor.Api.{AgentInputs}
use openconveyor.Kube.{Volume, from_config_map, VolumeMount, EnvVar, ConfigMap}
use openconveyor.Policy.Labels.{owned_meta}
use openconveyor.Policy.Prompt.{mount_of, env_of}
use openconveyor.Policy.Prompt.Delivery.{Together}
use openconveyor.Policy.Config.{
  Json, Decoder, ConfigProjection, keys, project_keys, whole_env, mount_config, raw_config,
  decoded_config, build_config_projection, build_agent_config_map, agent_config_map, assemble,
  project_fields, config_volume_name,
}

-- Nothing is mounted and no ConfigMap is built, or the file at `path` is the key of the ConfigMap
-- that holds `raw`.
abbrev pub Mounts : ConfigProjection → Option ConfigMap → Text → Text → Type 0
Mounts p none path raw = (p.volume ≡ none) × (p.mount ≡ none)
Mounts p (some cm) path raw =
    (v : Volume) × (m : VolumeMount) × (p.volume ≡ some v)
    × (p.mount ≡ some m)
    × (v.source ≡ from_config_map cm.meta.name)
    × (m.name ≡ v.name)
    × (m.mount_path ≡ path)
    × (m.read_only ≡ true)
    × (lookup_text m.sub_path cm.contents ≡ raw)

mount_config-Mounts :
    (task_name namespace path raw : Text) (envs : List EnvVar)
    → Mounts
        (mount_config task_name path envs)
        (if is_empty path then none else some (agent_config_map task_name namespace raw))
        path
        raw
unfolding mount_config agent_config_map owned_meta lookup_text text_eq
mount_config-Mounts task_name namespace [] raw envs = (refl, refl)
mount_config-Mounts task_name namespace (c ∷ path) raw envs =
    (_, _, refl, refl, refl, refl, refl, refl, refl)

project_fields-Mounts :
    (task_name namespace path env raw : Text) (fields : Map Json) (p : ConfigProjection)
    → project_fields task_name path env raw fields ≡ ok p
    → Mounts p
        (if is_empty path then none else some (agent_config_map task_name namespace raw))
        path
        raw
unfolding project_fields assemble
project_fields-Mounts task_name namespace path env raw fields p h =
    let (envs, projected, rest) =
      >>=-eq-ok
        (project_keys (not (is_empty path) || not (is_empty env)) fields
          (sort text_order (keys fields)))
        _ h in
    let (whole, added, made) = >>=-eq-ok (whole_env env raw) _ rest in
    subst
      (λ q.
        Mounts q (if is_empty path then none else some (agent_config_map task_name namespace raw))
          path raw)
      (ok-injective _ p made) (mount_config-Mounts task_name namespace path raw (envs ++ whole))

-- A successful projection mounts a config file exactly if the controller builds the ConfigMap for
-- it. The file is then read-only, at the path of the AgentClass, and holds the whole raw config.
pub build_config_projection-Mounts :
    (decode : Decoder) (task_name namespace : Text) (config : Option Text) (inputs : AgentInputs)
    (p : ConfigProjection)
    → build_config_projection decode task_name config inputs ≡ ok p
    → Mounts p
        (build_agent_config_map task_name namespace config inputs)
        (mount_of inputs.config)
        (raw_config config)
unfolding build_config_projection build_agent_config_map
build_config_projection-Mounts decode task_name namespace config inputs p h =
    elim (Bool-cases (is_empty (raw_config config))) [
      | inl empty ↦ rw empty (ground arith)
      | inr full ↦
          let (fields, decoded, rest) =
            >>=-eq-ok (decoded_config decode (raw_config config)) _ (rw full at h) in
          rw full (
            project_fields-Mounts task_name namespace (mount_of inputs.config)
              (env_of inputs.config) (raw_config config) fields p rest)
    ]

mount_config-Together :
    (task_name path : Text) (envs : List EnvVar)
    → Together
        (mount_config task_name path envs).volume
        (mount_config task_name path envs).mount
        config_volume_name
unfolding mount_config
mount_config-Together task_name [] envs = inl (refl, refl)
mount_config-Together task_name (c ∷ path) envs = inr (_, _, refl, refl, refl, refl)

pub config_volume_lem :
    (decode : Decoder) (task_name : Text) (config : Option Text) (inputs : AgentInputs)
    (p : ConfigProjection)
    → build_config_projection decode task_name config inputs ≡ ok p
    → Together p.volume p.mount config_volume_name
unfolding build_config_projection project_fields assemble
config_volume_lem decode task_name config inputs p h =
    elim (Bool-cases (is_empty (raw_config config))) [
      | inl empty ↦ inl (ground arith, ground arith)
      | inr full ↦
          let path = mount_of inputs.config in
          let env = env_of inputs.config in
          let (fields, decoded, rest) =
            >>=-eq-ok (decoded_config decode (raw_config config)) _ (rw full at h) in
          let (envs, projected, rest') =
            >>=-eq-ok
              (project_keys (not (is_empty path) || not (is_empty env)) fields
                (sort text_order (keys fields)))
              _ rest in
          let (whole, added, made) = >>=-eq-ok (whole_env env (raw_config config)) _ rest' in
          subst (λ (q : ConfigProjection). Together q.volume q.mount config_volume_name)
            (ok-injective _ p made) (mount_config-Together task_name path (envs ++ whole))
    ]
