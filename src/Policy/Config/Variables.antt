-- ===== src/Policy/Config/Variables.antt =====
-- Which environment variables the config of a Task becomes, and when it becomes an error.
use openconveyor.Prelude.{
  Bool, true, false, not, ◌&&◌, ◌||◌, ◌≡◌, refl, Option, none, some, List, [], ◌∷◌, inl, inr, Text,
  text_eq, text_eq_iff, contains, any, any-append, all, ◌⊎◌, subst, any-sort, is_empty, is_some,
  Map, lookup, sort, text_order, arith, ℕ, leb, ◌==◌, codes, Bool-cases, ◌∙◌,
}
use openconveyor.Errors.{Err, Result, ok, err, is_permanent, is_ok, ok-injective, Result-cases}
use openconveyor.Api.{AgentInputs}
use openconveyor.Kube.{EnvVar}
use openconveyor.Policy.Prompt.{mount_of, env_of}
use openconveyor.Policy.Config.{
  Json, text, number, bool, nested, scalar_string, is_name_byte, is_name_start, Decoder,
  ConfigProjection, keys, env_value, is_env_name, unprojectable, project_key, project_keys,
  whole_env, mount_config, raw_config, decode_config_object, decoded_config,
  build_config_projection, assemble, project_fields,
}

-- A variable with that name and value.
abbrev pub is_variable : Text → Text → EnvVar → Bool
is_variable k v e = text_eq e.name k && text_eq e.value v

abbrev pub value_is : Text → Option Text → Bool
value_is v none = false
value_is v (some w) = text_eq w v

abbrev is_digit : ℕ → Bool
is_digit c = leb b'0' c && leb c b'9'

abbrev is_letter : ℕ → Bool
is_letter c = leb b'A' c && leb c b'Z' || leb b'a' c && leb c b'z'

-- Letters, digits and underscores, the first of them no digit.
abbrev pub is_variable_name : Text → Bool
is_variable_name [] = false
is_variable_name (c ∷ s) =
    not (is_digit c) && all (λ b. is_letter b || is_digit b || b == b'_') (c ∷ s)

-- The value of a scalar field, in the text that the variable has.
abbrev pub field_is : Text → Option Json → Bool
field_is v none = false
field_is v (some (text s)) = text_eq s v
field_is v (some (number n)) = text_eq n v
field_is v (some (bool true)) = text_eq (codes "true") v
field_is v (some (bool false)) = text_eq (codes "false") v
field_is v (some nested) = false

all_name_bytes :
    (s : Text) → all is_name_byte s ≡ all (λ b. is_letter b || is_digit b || b == b'_') s
unfolding is_name_byte is_name_start
all_name_bytes [] = refl
all_name_bytes (c ∷ s) = ground (arith, all_name_bytes s)

is_env_name-variable_name : (k : Text) → is_env_name k ≡ is_variable_name k
unfolding is_env_name is_name_start
is_env_name-variable_name [] = refl
is_env_name-variable_name (c ∷ s) = ground (arith, all_name_bytes s)

scalar_string-field_is :
    (v : Text) (o : Option Json)
    → value_is v (elim o [ none ↦ none | some j ↦ scalar_string j ]) ≡ field_is v o
unfolding scalar_string
scalar_string-field_is v none = refl
scalar_string-field_is v (some (text s)) = refl
scalar_string-field_is v (some (number n)) = refl
scalar_string-field_is v (some (bool true)) = refl
scalar_string-field_is v (some (bool false)) = refl
scalar_string-field_is v (some nested) = refl

value_is-env_value :
    (v k : Text) (fields : Map Json)
    → value_is v (env_value fields k) ≡ (is_variable_name k && field_is v (lookup k fields))
unfolding env_value
value_is-env_value v k fields = elim (Bool-cases (is_env_name k)) [
  | inl named ↦ rw named (
      scalar_string-field_is v (lookup k fields)
      ∙ ground (arith, named, is_env_name-variable_name k))
  | inr unnamed ↦ rw unnamed (ground (arith, unnamed, is_env_name-variable_name k))
]

contains-keys : (k : Text) (m : Map Json) → contains k (keys m) ≡ false → lookup k m ≡ none
unfolding keys lookup
contains-keys k [] h = refl
contains-keys k ((j, v) ∷ m) h = ground (arith, contains-keys k m, text_eq_iff k j, text_eq_iff j k)

env_value-not_key : (k : Text) (m : Map Json) → contains k (keys m) ≡ false → env_value m k ≡ none
unfolding env_value
env_value-not_key k m h = ground (arith, contains-keys k m)

any-project_key :
    (k v j : Text) (reachable : Bool) (o : Option Text) (rest : Result (List EnvVar))
    (envs : List EnvVar)
    → project_key reachable j o rest ≡ ok envs
    → (rs : List EnvVar) × (rest ≡ ok rs)
      × (any (is_variable k v) envs ≡ (text_eq j k && value_is v o || any (is_variable k v) rs))
unfolding project_key
any-project_key k v j reachable (some w) (ok rs) envs h = (rs, refl, ground arith)
any-project_key k v j reachable (some w) (err e) envs h = cc
any-project_key k v j true none (ok rs) envs h = (rs, refl, ground arith)
any-project_key k v j true none (err e) envs h = cc
any-project_key k v j false none rest envs h = cc

any-project_keys :
    (k v : Text) (reachable : Bool) (fields : Map Json) (ks : List Text) (envs : List EnvVar)
    → project_keys reachable fields ks ≡ ok envs
    → any (is_variable k v) envs ≡ (contains k ks && value_is v (env_value fields k))
unfolding project_keys
any-project_keys k v reachable fields [] envs h = ground arith
any-project_keys k v reachable fields (j ∷ ks) envs h =
    let (rs, rest, made) =
      any-project_key k v j reachable (env_value fields j) (project_keys reachable fields ks) envs
        h in
    ground (
      arith,
      made,
      any-project_keys k v reachable fields ks rs rest,
      text_eq_iff j k,
      text_eq_iff k j,
    )

is_ok-project_keys :
    (reachable : Bool) (fields : Map Json) (ks : List Text)
    → is_ok (project_keys reachable fields ks)
      ≡ (reachable || all (λ k. is_some (env_value fields k)) ks)
unfolding project_keys project_key
is_ok-project_keys reachable fields [] = ground arith
is_ok-project_keys reachable fields (k ∷ ks) =
    ground (arith, is_ok-project_keys reachable fields ks)

any-whole_env :
    (k v env raw : Text) (envs : List EnvVar)
    → whole_env env raw ≡ ok envs
    → any (is_variable k v) envs ≡ (not (is_empty env) && (text_eq env k && text_eq raw v))
unfolding whole_env
any-whole_env k v [] raw envs h = ground arith
any-whole_env k v (c ∷ name) raw envs h = ground arith

is_ok-whole_env : (env raw : Text) → is_ok (whole_env env raw) ≡ (is_empty env || is_env_name env)
unfolding whole_env
is_ok-whole_env [] raw = refl
is_ok-whole_env (c ∷ name) raw = ground arith

permanent-project_keys :
    (reachable : Bool) (fields : Map Json) (ks : List Text) (e : Err)
    → project_keys reachable fields ks ≡ err e
    → is_permanent e ≡ true
unfolding project_keys project_key unprojectable is_permanent
permanent-project_keys reachable fields [] e h = cc
permanent-project_keys reachable fields (k ∷ ks) e h =
    ground (arith, permanent-project_keys reachable fields ks e)

permanent-whole_env : (env raw : Text) (e : Err) → whole_env env raw ≡ err e → is_permanent e ≡ true
unfolding whole_env is_permanent
permanent-whole_env [] raw e h = cc
permanent-whole_env (c ∷ name) raw e h = ground arith

env-mount_config :
    (task_name path : Text) (envs : List EnvVar) → (mount_config task_name path envs).env ≡ envs
unfolding mount_config
env-mount_config task_name [] envs = refl
env-mount_config task_name (c ∷ path) envs = refl

module _ (task_name mount : Text) where
  permanent-assemble :
      (r r' : Result (List EnvVar)) (e : Err)
      → assemble task_name mount r r' ≡ err e
      → (r ≡ err e) ⊎ (r' ≡ err e)
  unfolding assemble
  permanent-assemble (err x) r' e h = ground arith
  permanent-assemble (ok envs) (err x) e h = ground arith
  permanent-assemble (ok envs) (ok whole) e h = cc

  is_ok-assemble :
      (r r' : Result (List EnvVar)) → is_ok (assemble task_name mount r r') ≡ (is_ok r && is_ok r')
  unfolding assemble
  is_ok-assemble (err x) r' = refl
  is_ok-assemble (ok envs) (err x) = refl
  is_ok-assemble (ok envs) (ok whole) = refl

  any-assemble :
      (r r' : Result (List EnvVar)) (p : ConfigProjection)
      → assemble task_name mount r r' ≡ ok p
      → (envs whole : List EnvVar) × (r ≡ ok envs)
        × (r' ≡ ok whole)
        × ((q : EnvVar → Bool) → any q p.env ≡ (any q envs || any q whole))
  unfolding assemble
  any-assemble (err x) r' p h = cc
  any-assemble (ok envs) (err x) p h = cc
  any-assemble (ok envs) (ok whole) p h = (
    envs,
    whole,
    refl,
    refl,
    λ q.
        subst (λ (c : ConfigProjection). any q c.env ≡ (any q envs || any q whole))
          (ok-injective _ p h) (rw env-mount_config (any-append q envs whole)),
  )

permanent-project_fields :
    (task_name mount env raw : Text) (fields : Map Json) (e : Err)
    → project_fields task_name mount env raw fields ≡ err e
    → is_permanent e ≡ true
unfolding project_fields
permanent-project_fields task_name mount env raw fields e h =
    elim (permanent-assemble task_name mount _ _ e h) [
      | inl failed ↦
          permanent-project_keys (not (is_empty mount) || not (is_empty env)) fields
            (sort text_order (keys fields)) e failed
      | inr failed ↦ permanent-whole_env env raw e failed
    ]

any-project_fields :
    (task_name mount env raw : Text) (fields : Map Json) (p : ConfigProjection) (k v : Text)
    → project_fields task_name mount env raw fields ≡ ok p
    → any (is_variable k v) p.env ≡ (
        value_is v (env_value fields k) || (not (is_empty env) && (text_eq env k && text_eq raw v)))
unfolding project_fields
any-project_fields task_name mount env raw fields p k v h =
    let (envs, whole, projected, added, joined) = any-assemble task_name mount _ _ p h in
    ground (
      arith,
      joined (is_variable k v),
      any-project_keys k v (not (is_empty mount) || not (is_empty env)) fields
          (sort text_order (keys fields)) envs projected,
      any-sort text_order (text_eq k) (keys fields),
      env_value-not_key k fields,
      any-whole_env k v env raw whole added,
    )

decoded_config-ok :
    (decode : Decoder) (raw : Text) (fields : Map Json)
    → decode raw ≡ ok fields
    → decoded_config decode raw ≡ ok fields
unfolding decoded_config decode_config_object
decoded_config-ok decode raw fields h = ground arith

module _ (decode : Decoder) (task_name : Text) (config : Option Text) (inputs : AgentInputs) where
  -- Every failure of the projection is permanent, whatever the decoder says: it fails the Task.
  pub build_config_projection-permanent :
      (e : Err)
      → build_config_projection decode task_name config inputs ≡ err e
      → is_permanent e ≡ true
  unfolding build_config_projection decoded_config is_permanent
  build_config_projection-permanent e h = elim (Result-cases (decode (raw_config config))) [
    | inl (fields, decoded) ↦ ground (
      arith,
      permanent-project_fields task_name (mount_of inputs.config) (env_of inputs.config)
          (raw_config config) fields e,
    )
    | inr (cause, failed) ↦ ground arith
  ]

  module _ (fields : Map Json) (full : is_empty (raw_config config) ≡ false)
      (decoded : decode (raw_config config) ≡ ok fields) where
    -- A config that decodes is projected exactly if each of its fields is a scalar under a valid
    -- variable name, or the AgentClass takes the whole JSON, and the variable that the AgentClass
    -- names for it, if any, is valid.
    pub is_ok-build_config_projection :
        is_ok (build_config_projection decode task_name config inputs) ≡ (
          ((not (is_empty (mount_of inputs.config)) || not (is_empty (env_of inputs.config)))
            || all (λ k. is_some (env_value fields k)) (sort text_order (keys fields)))
          && (is_empty (env_of inputs.config) || is_env_name (env_of inputs.config)))
    unfolding build_config_projection project_fields
    is_ok-build_config_projection = rw (
      full,
      decoded_config-ok decode (raw_config config) fields decoded,
      is_ok-assemble,
      is_ok-project_keys,
      is_ok-whole_env,
    )

    -- The variables of a projected config are exactly those of its scalar fields, under the names that
    -- have letters, digits and underscores only and do not start with a digit, and the one in which the AgentClass takes the whole JSON.
    pub any-build_config_projection :
        (p : ConfigProjection) (k v : Text)
        → build_config_projection decode task_name config inputs ≡ ok p
        → any (is_variable k v) p.env ≡ (
            (is_variable_name k && field_is v (lookup k fields))
            || (not (is_empty (env_of inputs.config))
                && (text_eq (env_of inputs.config) k && text_eq (raw_config config) v)))
    unfolding build_config_projection decoded_config decode_config_object
    any-build_config_projection p k v h = ground (
      arith,
      any-project_fields task_name (mount_of inputs.config) (env_of inputs.config)
          (raw_config config) fields p k v,
      value_is-env_value v k fields,
    )
