-- ===== src/Trigger/Mapping/Built.antt =====
-- What a payload can change of a Task, and what it cannot.
use openconveyor.Prelude.{
  false, ◌≡◌, refl, none, List, [], ◌∷◌, ◌⊎◌, inl, inr, Text, codes, text_eq, is_empty, has_prefix,
  trim_prefix, arith, Bool-cases, subst,
}
use openconveyor.Errors.{Result, ok, err, >>=-eq-ok, ok-injective}
use openconveyor.Api.{Task, AgentRef, FieldMapping, TaskTemplate}
use openconveyor.Trigger.Mapping.{
  Query, Codec, set_config_key, config_fields, put_label, put_annotation, put_config, put_prompt,
  put_name, apply_mapping, mapping_error, generate_prefix, template_task, require_prompt, map_field,
  map_fields, build_task, resolve_mapping,
}

-- What the template alone decides, and the name: a given one, or the prefix for a generated one.
pub record KeepsTemplate (t : TaskTemplate) (task : Task) : Type 0 where
  pub permissions : task.spec.permissions ≡ t.permissions
  pub resources : task.spec.resources ≡ t.resources
  pub ttl : task.spec.ttl_seconds_after_finished ≡ t.ttl_seconds_after_finished
  pub agent : task.spec.agent.ref ≡ t.agent.ref
  pub namespace : task.meta.namespace ≡ t.namespace
  pub no_secret : task.spec.prompt.secret_ref ≡ none
  pub no_config_map : task.spec.prompt.config_map_ref ≡ none
  pub named :
      ((task.meta.name ≡ []) × (task.meta.generate_name ≡ generate_prefix t))
      ⊎ ((is_empty task.meta.name ≡ false) × (task.meta.generate_name ≡ []))

module _ {V : Type 0} (codec : Codec V) (t : TaskTemplate) where
  ref-set_config_key :
      (agent next : AgentRef) (key value : Text)
      → set_config_key codec agent key value ≡ ok next
      → next.ref ≡ agent.ref
  unfolding set_config_key
  ref-set_config_key agent next key value h = elim (Bool-cases (is_empty key)) [
    | inl empty ↦ absurd (ground arith)
    | inr full ↦
        let (fields, decoded, rest) =
          >>=-eq-ok (config_fields codec agent.config) _ (rw full at h) in
        let (raw, marshalled, made) = >>=-eq-ok (codec.marshal _) _ rest in
        subst (λ (a : AgentRef). a.ref ≡ agent.ref) (ok-injective _ next made) refl
  ]

  put_config-KeepsTemplate :
      (task next : Task) (key value : Text)
      → KeepsTemplate t task
      → put_config codec task key value ≡ ok next
      → KeepsTemplate t next
  unfolding put_config
  put_config-KeepsTemplate task next key value k h =
      let (agent, set, made) = >>=-eq-ok (set_config_key codec task.spec.agent key value) _ h in
      subst (KeepsTemplate t) (ok-injective _ next made) (record {
        permissions = k.permissions;
        resources = k.resources;
        ttl = k.ttl;
        agent = rw (ref-set_config_key task.spec.agent agent key value set) k.agent;
        namespace = k.namespace;
        no_secret = k.no_secret;
        no_config_map = k.no_config_map;
        named = k.named;
      })

  put_label-KeepsTemplate :
      (task : Task) (key value : Text)
      → KeepsTemplate t task
      → KeepsTemplate t (put_label task key value)
  unfolding put_label
  put_label-KeepsTemplate task key value k = record {
    permissions = k.permissions;
    resources = k.resources;
    ttl = k.ttl;
    agent = k.agent;
    namespace = k.namespace;
    no_secret = k.no_secret;
    no_config_map = k.no_config_map;
    named = k.named;
  }

  put_annotation-KeepsTemplate :
      (task : Task) (key value : Text)
      → KeepsTemplate t task
      → KeepsTemplate t (put_annotation task key value)
  unfolding put_annotation
  put_annotation-KeepsTemplate task key value k = record {
    permissions = k.permissions;
    resources = k.resources;
    ttl = k.ttl;
    agent = k.agent;
    namespace = k.namespace;
    no_secret = k.no_secret;
    no_config_map = k.no_config_map;
    named = k.named;
  }

  put_prompt-KeepsTemplate :
      (task : Task) (value : Text) → KeepsTemplate t task → KeepsTemplate t (put_prompt task value)
  unfolding put_prompt
  put_prompt-KeepsTemplate task value k = record {
    permissions = k.permissions;
    resources = k.resources;
    ttl = k.ttl;
    agent = k.agent;
    namespace = k.namespace;
    no_secret = k.no_secret;
    no_config_map = k.no_config_map;
    named = k.named;
  }

  put_name-KeepsTemplate :
      (task : Task) (value : Text)
      → KeepsTemplate t task
      → is_empty value ≡ false
      → KeepsTemplate t (put_name task value)
  unfolding put_name
  put_name-KeepsTemplate task value k v = record {
    permissions = k.permissions;
    resources = k.resources;
    ttl = k.ttl;
    agent = k.agent;
    namespace = k.namespace;
    no_secret = k.no_secret;
    no_config_map = k.no_config_map;
    named = inr (v, refl);
  }

  apply_mapping-KeepsTemplate :
      (task next : Task) (to value : Text)
      → KeepsTemplate t task
      → is_empty value ≡ false
      → apply_mapping codec task to value ≡ ok next
      → KeepsTemplate t next
  unfolding apply_mapping
  apply_mapping-KeepsTemplate task next to value k v h =
      elim (Bool-cases (text_eq to (codes "prompt"))) [
        | inl e ↦
            subst (KeepsTemplate t) (ok-injective _ next (rw e at h))
              (put_prompt-KeepsTemplate task value k)
        | inr a ↦ elim (Bool-cases (text_eq to (codes "name"))) [
          | inl e ↦
              subst (KeepsTemplate t) (ok-injective _ next (rw (a, e) at h))
                (put_name-KeepsTemplate task value k v)
          | inr b ↦ elim (Bool-cases (has_prefix to (codes "labels."))) [
            | inl e ↦
                subst (KeepsTemplate t) (ok-injective _ next (rw (a, b, e) at h))
                  (put_label-KeepsTemplate task (trim_prefix to (codes "labels.")) value k)
            | inr c ↦ elim (Bool-cases (has_prefix to (codes "annotations."))) [
              | inl e ↦ subst (KeepsTemplate t) (ok-injective _ next (rw (a, b, c, e) at h)) (
                  put_annotation-KeepsTemplate task (trim_prefix to (codes "annotations.")) value k)
              | inr d ↦ elim (Bool-cases (has_prefix to (codes "config."))) [
                | inl e ↦
                    put_config-KeepsTemplate task next (trim_prefix to (codes "config.")) value k
                      (rw (a, b, c, d, e) at h)
                | inr f ↦ absurd (cc (rw (a, b, c, d, f) at h))
              ]
            ]
          ]
        ]
      ]

  template_task-KeepsTemplate : KeepsTemplate t (template_task t)
  unfolding template_task
  template_task-KeepsTemplate = record {
    permissions = refl;
    resources = refl;
    ttl = refl;
    agent = refl;
    namespace = refl;
    no_secret = refl;
    no_config_map = refl;
    named = inl (refl, refl);
  }

  mapping_error-eq-ok :
      (m : FieldMapping) (r : Result Task) (next : Task) → mapping_error m r ≡ ok next → r ≡ ok next
  unfolding mapping_error
  mapping_error-eq-ok m (ok task) next h = h
  mapping_error-eq-ok m (err e) next h = cc

  require_prompt-eq-ok :
      (task built : Task)
      → KeepsTemplate t task
      → require_prompt task ≡ ok built
      → (task ≡ built) × (is_empty task.spec.prompt.inline ≡ false)
  unfolding require_prompt
  require_prompt-eq-ok task built k h = elim (Bool-cases (is_empty task.spec.prompt.inline)) [
    | inl empty ↦ absurd (cc (rw (empty, k.no_secret, k.no_config_map) at h))
    | inr full ↦ (ok-injective task built (rw full at h), full)
  ]

  module _ (query : Query) (body : Text) where
    map_field-KeepsTemplate :
        (task next : Task) (m : FieldMapping)
        → KeepsTemplate t task
        → map_field codec query body task m ≡ ok next
        → KeepsTemplate t next
    unfolding map_field
    map_field-KeepsTemplate task next m k h =
        elim (Bool-cases (is_empty (resolve_mapping query body m))) [
          | inl empty ↦ subst (KeepsTemplate t) (ok-injective task next (rw empty at h)) k
          | inr full ↦
              apply_mapping-KeepsTemplate task next m.to (resolve_mapping query body m) k full
                (mapping_error-eq-ok m _ next (rw full at h))
        ]

    map_fields-KeepsTemplate :
        (ms : List FieldMapping) (task next : Task)
        → KeepsTemplate t task
        → map_fields codec query body task ms ≡ ok next
        → KeepsTemplate t next
    unfolding map_fields
    map_fields-KeepsTemplate [] task next k h = subst (KeepsTemplate t) (ok-injective task next h) k
    map_fields-KeepsTemplate (m ∷ ms) task next k h =
        let (mid, first, rest) = >>=-eq-ok (map_field codec query body task m) _ h in
        map_fields-KeepsTemplate ms mid next (map_field-KeepsTemplate task mid m k first) rest

    -- Whatever the payload, a Task that the adapter builds has the permissions, the resources, the
    -- TTL, the agent and the namespace of its template. It has an inline prompt and no other, and a
    -- name or a prefix for a generated one, never both.
    pub build_task-KeepsTemplate :
        (task : Task)
        → build_task codec query body t ≡ ok task
        → KeepsTemplate t task × (is_empty task.spec.prompt.inline ≡ false)
    unfolding build_task
    build_task-KeepsTemplate task h =
        let (mapped, filled, rest) =
          >>=-eq-ok (map_fields codec query body (template_task t) t.mappings) _ h in
        let kept =
          map_fields-KeepsTemplate t.mappings (template_task t) mapped template_task-KeepsTemplate
            filled in
        let (same, prompted) = require_prompt-eq-ok mapped task kept rest in
        subst (λ (k : Task). KeepsTemplate t k × (is_empty k.spec.prompt.inline ≡ false)) same
          (kept, prompted)
