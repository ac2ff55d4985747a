-- ===== src/Policy/Prompt/Delivery.antt =====
-- The prompt that reaches the container, and the ConfigMap that must exist for it.
use openconveyor.Prelude.{
  true, false, ◌≡◌, refl, Option, none, some, [], ◌⊎◌, inl, inr, Text, is_empty, arith, Bool-cases,
  lookup_text, text_eq, subst, empty_of,
}
use openconveyor.Errors.{Err, ok, err, is_permanent, ok-injective}
use openconveyor.Api.{PromptSource, AgentInputs}
use openconveyor.Kube.{
  Volume, VolumeSource, from_config_map, from_secret, VolumeMount, ConfigMap, KeySelector,
}
use openconveyor.Policy.Labels.{owned_meta}
use openconveyor.Policy.Prompt.{
  PromptProjection, prompt_volume_name, project_prompt, project_reference, project_source, mount_of,
  build_prompt_projection, build_inline_prompt_config_map, no_prompt, prompt_key, inline_config_map,
  inline_prompt_config_map_name,
}

-- The file of the container shows the key of the source.
abbrev Shows : PromptProjection → Text → VolumeSource → Text → Type 0
Shows p path source key =
    (v : Volume) × (m : VolumeMount) × (p.volume ≡ some v)
    × (p.mount ≡ some m)
    × (v.source ≡ source)
    × (m.name ≡ v.name)
    × (m.mount_path ≡ path)
    × (m.sub_path ≡ key)
    × (m.read_only ≡ true)

project_prompt-Shows :
    (path : Text) (source : VolumeSource) (key : Text)
    → Shows (project_prompt path source key) path source key
unfolding project_prompt
project_prompt-Shows path source key = (_, _, refl, refl, refl, refl, refl, refl, refl)

module _ (task_name namespace : Text) (prompt : PromptSource) (inputs : AgentInputs) where
  -- What a successful projection delivers: nothing if the agent reads no prompt; else the inline
  -- text through the ConfigMap that is built for it, or the key of the referenced ConfigMap, or the
  -- key of the referenced Secret, and then no ConfigMap is built.
  abbrev pub Delivers : PromptProjection → Type 0
  Delivers p =
      ((mount_of inputs.prompt ≡ []) × (p ≡ no_prompt))
      ⊎ (((cm : ConfigMap) × (build_inline_prompt_config_map task_name namespace prompt ≡ some cm)
            × Shows p (mount_of inputs.prompt) (from_config_map cm.meta.name) prompt_key
            × (lookup_text prompt_key cm.contents ≡ prompt.inline))
          ⊎ (((r : KeySelector) × (build_inline_prompt_config_map task_name namespace prompt ≡ none)
                × (prompt.config_map_ref ≡ some r)
                × Shows p (mount_of inputs.prompt) (from_config_map r.name) r.key)
              ⊎ ((r : KeySelector) × (build_inline_prompt_config_map task_name namespace prompt
                    ≡ none)
                  × (prompt.secret_ref ≡ some r)
                  × Shows p (mount_of inputs.prompt) (from_secret r.name) r.key)))

  reference_delivered :
      (p : PromptProjection) (cm sr : Option KeySelector)
      → is_empty prompt.inline ≡ true
      → prompt.config_map_ref ≡ cm
      → prompt.secret_ref ≡ sr
      → project_reference (mount_of inputs.prompt) cm sr ≡ ok p
      → Delivers p
  unfolding project_reference build_inline_prompt_config_map
  reference_delivered p (some r) sr e c s h =
      subst Delivers (ok-injective _ p h)
        (inr (inr (inl (r, rw e refl, c, project_prompt-Shows _ (from_config_map r.name) r.key))))
  reference_delivered p none (some r) e c s h =
      subst Delivers (ok-injective _ p h)
        (inr (inr (inr (r, rw e refl, s, project_prompt-Shows _ (from_secret r.name) r.key))))
  reference_delivered p none none e c s h = cc

  inline_delivered :
      is_empty prompt.inline ≡ false
      → Delivers (
          project_prompt
            (mount_of inputs.prompt)
            (from_config_map (inline_prompt_config_map_name task_name))
            prompt_key)
  unfolding build_inline_prompt_config_map owned_meta lookup_text text_eq
  inline_delivered e = inr (
      inl (
        inline_config_map task_name namespace prompt.inline,
        rw e refl,
        project_prompt-Shows _ _ _,
        refl,
      ))

  -- A successful projection of the prompt delivers the prompt of the Task, from the ConfigMap that
  -- the controller builds or from the reference of the Task, or delivers nothing to an agent that
  -- mounts no prompt.
  pub build_prompt_projection-Delivers :
      (p : PromptProjection) → build_prompt_projection task_name prompt inputs ≡ ok p → Delivers p
  unfolding build_prompt_projection project_source
  build_prompt_projection-Delivers p h = elim (Bool-cases (is_empty (mount_of inputs.prompt))) [
    | inl none_read ↦ inl (empty_of (mount_of inputs.prompt) none_read, ground (arith))
    | inr reads ↦ elim (Bool-cases (is_empty prompt.inline)) [
      | inl referenced ↦
          reference_delivered p prompt.config_map_ref prompt.secret_ref referenced refl refl
            (ground arith)
      | inr inline ↦ subst Delivers (ok-injective _ p (ground arith)) (inline_delivered inline)
    ]
  ]

  -- The projection fails only for a prompt with no source at all, and only when the agent mounts a
  -- prompt; the error is not permanent.
  pub build_prompt_projection-eq-err :
      (e : Err)
      → build_prompt_projection task_name prompt inputs ≡ err e
      → (is_empty (mount_of inputs.prompt) ≡ false)
        × (is_empty prompt.inline ≡ true)
        × (prompt.config_map_ref ≡ none)
        × (prompt.secret_ref ≡ none)
        × (is_permanent e ≡ false)
  unfolding build_prompt_projection project_source project_reference is_permanent
  build_prompt_projection-eq-err e h = ground arith

-- The projection has no volume and no mount, or both under the name of the prompt volume.
abbrev pub Together : Option Volume → Option VolumeMount → Text → Type 0
Together v m name =
    ((v ≡ none) × (m ≡ none))
    ⊎ ((w : Volume) × (n : VolumeMount) × (v ≡ some w)
        × (m ≡ some n)
        × (w.name ≡ name)
        × (n.name ≡ name))

project_reference-Together :
    (path : Text) (cm sr : Option KeySelector) (p : PromptProjection)
    → project_reference path cm sr ≡ ok p
    → Together p.volume p.mount prompt_volume_name
unfolding project_reference project_prompt
project_reference-Together path (some r) sr p h =
    subst (λ (q : PromptProjection). Together q.volume q.mount prompt_volume_name)
      (ok-injective _ p h) (inr (_, _, refl, refl, refl, refl))
project_reference-Together path none (some r) p h =
    subst (λ (q : PromptProjection). Together q.volume q.mount prompt_volume_name)
      (ok-injective _ p h) (inr (_, _, refl, refl, refl, refl))
project_reference-Together path none none p h = cc

pub prompt_volume_lem :
    (task_name : Text) (prompt : PromptSource) (inputs : AgentInputs) (p : PromptProjection)
    → build_prompt_projection task_name prompt inputs ≡ ok p
    → Together p.volume p.mount prompt_volume_name
unfolding build_prompt_projection project_source project_prompt
prompt_volume_lem task_name prompt inputs p h =
    elim (Bool-cases (is_empty (mount_of inputs.prompt))) [
      | inl none_read ↦ inl (ground arith, ground arith)
      | inr reads ↦ elim (Bool-cases (is_empty prompt.inline)) [
        | inl referenced ↦
            project_reference-Together (mount_of inputs.prompt) prompt.config_map_ref
              prompt.secret_ref p (ground arith)
        | inr inline ↦
            subst (λ (q : PromptProjection). Together q.volume q.mount prompt_volume_name)
              (ok-injective
                (project_prompt (mount_of inputs.prompt)
                  (from_config_map (inline_prompt_config_map_name task_name)) prompt_key)
                p (ground arith))
              (inr (_, _, refl, refl, refl, refl))
      ]
    ]
