-- ===== src/Controller/Build/Volumes.antt =====
-- The volumes and the mounts of a Job fit together.
use openconveyor.Prelude.{
  ℕ, true, false, ◌≡◌, refl, ◌∙◌, sym, ap, Option, ◌⊎◌, inl, inr, List, [], ◌∷◌, ◌++◌, Text,
  text_eq, text_eq_iff, contains, has_prefix, text_eq_refl, any-append, Distinct, arith,
}
use openconveyor.Errors.{ok}
use openconveyor.Api.{Task, ClusterAgentClass}
use openconveyor.Kube.{Volume, VolumeMount, Job, Container}
use openconveyor.Machinery.{Machinery}
use openconveyor.Policy.Secrets.{secret_prefix, build_secret_volumes}
use openconveyor.Policy.Secrets.Mounts.{
  volume_names, mount_names, build_secret_volumes_lem, not_build_secret_volume,
}
use openconveyor.Policy.Prompt.{PromptProjection, prompt_volume_name}
use openconveyor.Policy.Prompt.Delivery.{Together, prompt_volume_lem}
use openconveyor.Policy.Config.{Decoder, ConfigProjection, config_volume_name}
use openconveyor.Policy.Config.Mounting.{config_volume_lem}
use openconveyor.Controller.Build.{build_job, job_volumes, job_mounts, as_list, scratch_volume_name}
use openconveyor.Controller.Build.Hardened.{build_job-eq-ok}

volume_names-append :
    (vs ws : List Volume) → volume_names (vs ++ ws) ≡ volume_names vs ++ volume_names ws
volume_names-append [] ws = refl
volume_names-append (v ∷ vs) ws = ground (arith, volume_names-append vs ws)

mount_names-append :
    (ms ns : List VolumeMount) → mount_names (ms ++ ns) ≡ mount_names ms ++ mount_names ns
mount_names-append [] ns = refl
mount_names-append (m ∷ ms) ns = ground (arith, mount_names-append ms ns)

Distinct-append :
    (xs ys : List Text)
    → Distinct xs
    → Distinct ys
    → ((x : Text) → contains x xs ≡ true → contains x ys ≡ false)
    → Distinct (xs ++ ys)
Distinct-append [] ys d e h = e
Distinct-append (x ∷ xs) ys (n, d) e h = (
  ground (arith, any-append (text_eq x) xs ys, h x, text_eq_refl x),
  Distinct-append xs ys d e (λ y c. h y (ground arith)),
)

-- An optional mount has its volume, and both have this name.
abbrev Adds : Option Volume → Option VolumeMount → Text → Type 0
Adds v m name =
    (mount_names (as_list m) ≡ volume_names (as_list v))
    × ((volume_names (as_list v) ≡ []) ⊎ (volume_names (as_list v) ≡ name ∷ []))

Together-Adds :
    (v : Option Volume) (m : Option VolumeMount) (name : Text) → Together v m name → Adds v m name
Together-Adds v m name (inl (a, b)) = rw (a, b) (refl, inl refl)
Together-Adds v m name (inr (w, n, a, b, c, d)) = rw (a, b, c, d) (refl, inr refl)

-- What an optional name adds to a list of names.
abbrev AtMost : Text → List Text → Type 0
AtMost name ns = (ns ≡ []) ⊎ (ns ≡ name ∷ [])

not_in-AtMost :
    (x name : Text) (ns : List Text)
    → text_eq x name ≡ false
    → AtMost name ns
    → contains x ns ≡ false
not_in-AtMost x name ns h (inl e) = rw e refl
not_in-AtMost x name ns h (inr e) = rw e (ground arith)

in-AtMost :
    (x name : Text) (ns : List Text) → AtMost name ns → contains x ns ≡ true → text_eq x name ≡ true
in-AtMost x name ns (inl e) h = ground arith
in-AtMost x name ns (inr e) h = ground arith

AtMost-Distinct : (name : Text) (ns : List Text) → AtMost name ns → Distinct ns
AtMost-Distinct name ns (inl e) = rw e tt
AtMost-Distinct name ns (inr e) = rw e (refl, tt)

scratch_not_secret : has_prefix scratch_volume_name secret_prefix ≡ false
unfolding has_prefix
scratch_not_secret = refl

prompt_not_secret : has_prefix prompt_volume_name secret_prefix ≡ false
unfolding has_prefix
prompt_not_secret = refl

config_not_secret : has_prefix config_volume_name secret_prefix ≡ false
unfolding has_prefix
config_not_secret = refl

scratch_not_prompt : text_eq scratch_volume_name prompt_volume_name ≡ false
unfolding text_eq
scratch_not_prompt = refl

scratch_not_config : text_eq scratch_volume_name config_volume_name ≡ false
unfolding text_eq
scratch_not_config = refl

prompt_not_config : text_eq prompt_volume_name config_volume_name ≡ false
unfolding text_eq
prompt_not_config = refl

not_secret-AtMost :
    (x name : Text) (ns : List Text) (secrets : List Text)
    → has_prefix name secret_prefix ≡ false
    → AtMost name ns
    → contains x (volume_names (build_secret_volumes secrets).0) ≡ true
    → contains x ns ≡ false
not_secret-AtMost x name ns secrets h (inl e) i = rw e refl
not_secret-AtMost x name ns secrets h (inr e) i =
    rw e (ground (arith, text_eq_iff x name, not_build_secret_volume name secrets h))

-- The names of a Job's volumes: the scratch volume, the Secrets', and at most one for the prompt and
-- one for the config.
all_names-Distinct :
    (secrets : List Text) (ps cs : List Text)
    → Distinct secrets
    → AtMost prompt_volume_name ps
    → AtMost config_volume_name cs
    → Distinct (scratch_volume_name ∷ volume_names (build_secret_volumes secrets).0 ++ ps ++ cs)
all_names-Distinct secrets ps cs d p c =
    let names = volume_names (build_secret_volumes secrets).0 in
    (
      ground (
        arith,
        any-append (text_eq scratch_volume_name) (names ++ ps) cs,
        any-append (text_eq scratch_volume_name) names ps,
        not_build_secret_volume scratch_volume_name secrets scratch_not_secret,
        not_in-AtMost scratch_volume_name prompt_volume_name ps scratch_not_prompt p,
        not_in-AtMost scratch_volume_name config_volume_name cs scratch_not_config c,
      ),
      Distinct-append (names ++ ps) cs
          (Distinct-append names ps (let (a, b, m, e) = build_secret_volumes_lem secrets d in e)
            (AtMost-Distinct prompt_volume_name ps p)
            (λ x h. not_secret-AtMost x prompt_volume_name ps secrets prompt_not_secret p h))
          (AtMost-Distinct config_volume_name cs c)
          (λ x h. ground (
            arith,
            any-append (text_eq x) names ps,
            in-AtMost x prompt_volume_name ps p,
            prompt_not_config,
            text_eq_iff x prompt_volume_name,
            not_in-AtMost x config_volume_name cs,
            not_secret-AtMost x config_volume_name cs secrets config_not_secret c,
          )),
    )

names_of_volumes :
    (secrets : List Text) (prompt : PromptProjection) (config : ConfigProjection)
    → volume_names (job_volumes secrets prompt config)
      ≡ scratch_volume_name ∷ volume_names (build_secret_volumes secrets).0
        ++ volume_names (as_list prompt.volume)
        ++ volume_names (as_list config.volume)
unfolding job_volumes
names_of_volumes secrets prompt config =
    ap (λ l. scratch_volume_name ∷ l)
      (volume_names-append ((build_secret_volumes secrets).0 ++ as_list prompt.volume)
          (as_list config.volume)
        ∙ ap (λ l. l ++ volume_names (as_list config.volume))
            (volume_names-append (build_secret_volumes secrets).0 (as_list prompt.volume)))

names_of_mounts :
    (secrets : List Text) (prompt : PromptProjection) (config : ConfigProjection)
    → mount_names (job_mounts secrets prompt config)
      ≡ scratch_volume_name ∷ mount_names (build_secret_volumes secrets).1
        ++ mount_names (as_list prompt.mount)
        ++ mount_names (as_list config.mount)
unfolding job_mounts
names_of_mounts secrets prompt config =
    ap (λ l. scratch_volume_name ∷ l)
      (mount_names-append ((build_secret_volumes secrets).1 ++ as_list prompt.mount)
          (as_list config.mount)
        ∙ ap (λ l. l ++ mount_names (as_list config.mount))
            (mount_names-append (build_secret_volumes secrets).1 (as_list prompt.mount)))

∷-injective_head : (a b : Container) → a ∷ [] ≡ b ∷ [] → a ≡ b
∷-injective_head a b h = cc

module _ (machinery : Machinery) (decode : Decoder) (task : Task) (agent : ClusterAgentClass)
    (secrets : List Text) (ttl_seconds : ℕ) where
  -- In every Job that buildJob makes for Secrets without repetition, the container mounts each volume
  -- of the pod once, in the order of the volumes, mounts nothing else, and no two volumes share a name.
  pub job_volumes_lem :
      (job : Job) (container : Container)
      → Distinct secrets
      → build_job machinery decode task agent secrets ttl_seconds ≡ ok job
      → job.spec.template.spec.containers ≡ container ∷ []
      → (mount_names container.volume_mounts ≡ volume_names job.spec.template.spec.volumes)
        × Distinct (volume_names job.spec.template.spec.volumes)
  job_volumes_lem job container d h one =
      let (prompt, config, prompted, configured, volumes, (c, single, mounts, env), hardened) =
        build_job-eq-ok machinery decode task agent secrets ttl_seconds job h in
      let (same, ps) =
        Together-Adds prompt.volume prompt.mount prompt_volume_name
          (prompt_volume_lem task.meta.name task.spec.prompt agent.spec.inputs prompt prompted) in
      let (same', cs) = Together-Adds config.volume config.mount config_volume_name (
        config_volume_lem decode task.meta.name task.spec.agent.config agent.spec.inputs config
          configured) in
      let (a, b, m, e) = build_secret_volumes_lem secrets d in
      rw (volumes, names_of_volumes secrets prompt config)
        (
          ap (λ (k : Container). mount_names k.volume_mounts)
                (∷-injective_head container c (sym one ∙ single))
              ∙ ap mount_names mounts
              ∙ names_of_mounts secrets prompt config
              ∙ rw (m, same, same') refl,
          all_names-Distinct secrets (volume_names (as_list prompt.volume))
              (volume_names (as_list config.volume)) d ps cs,
        )
