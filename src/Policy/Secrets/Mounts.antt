-- ===== src/Policy/Secrets/Mounts.antt =====
-- The volumes and mounts of the declared Secrets fit together.
use openconveyor.Prelude.{
  Bool, false, ◌&&◌, ◌≡◌, refl, ◌∙◌, List, [], ◌∷◌, ◌++◌, Text, text_eq, text_eq_iff, contains, any,
  Distinct, sort, text_order, any-sort, sort-Distinct, append_cancel_left, arith, is_empty,
  has_prefix, has_prefix-append,
}
use openconveyor.Kube.{Volume, VolumeSource, from_secret, VolumeMount}
use openconveyor.Policy.Secrets.{
  secret_prefix, secret_volume_name, secret_mount_path, secret_volumes, secret_mounts,
  build_secret_volumes,
}

abbrev pub volume_names : List Volume → List Text
volume_names [] = []
volume_names (v ∷ vs) = v.name ∷ volume_names vs

abbrev pub mount_names : List VolumeMount → List Text
mount_names [] = []
mount_names (m ∷ ms) = m.name ∷ mount_names ms

text_eq-secret_volume_name :
    (a b : Text) → text_eq (secret_volume_name a) (secret_volume_name b) ≡ text_eq a b
unfolding secret_volume_name
text_eq-secret_volume_name a b = ground (
  arith,
  text_eq_iff a b,
  text_eq_iff (secret_prefix ++ a) (secret_prefix ++ b),
  append_cancel_left secret_prefix a b,
)

contains-secret_volumes :
    (s : Text) (names : List Text)
    → contains (secret_volume_name s) (volume_names (secret_volumes names)) ≡ contains s names
unfolding secret_volumes
contains-secret_volumes s [] = refl
contains-secret_volumes s (n ∷ ns) =
    ground (arith, contains-secret_volumes s ns, text_eq-secret_volume_name s n)

secret_volumes-Distinct :
    (names : List Text) → Distinct names → Distinct (volume_names (secret_volumes names))
unfolding secret_volumes
secret_volumes-Distinct [] d = tt
secret_volumes-Distinct (n ∷ ns) (h, d) =
    (contains-secret_volumes n ns ∙ h, secret_volumes-Distinct ns d)

mount_names-secret_mounts :
    (names : List Text) → mount_names (secret_mounts names) ≡ volume_names (secret_volumes names)
unfolding secret_mounts secret_volumes
mount_names-secret_mounts [] = refl
mount_names-secret_mounts (n ∷ ns) = ground (arith, mount_names-secret_mounts ns)

-- The mount of a Secret: read-only, the whole volume, at the path of its name.
abbrev pub is_mount_of : Text → VolumeMount → Bool
is_mount_of s m =
    text_eq m.name (secret_volume_name s)
    && (text_eq m.mount_path (secret_mount_path s) && (is_empty m.sub_path && m.read_only))

-- The volume of a Secret projects that Secret.
abbrev source_is : Text → VolumeSource → Bool
source_is s (from_secret n) = text_eq n s
source_is s _ = false

abbrev pub is_volume_of : Text → Volume → Bool
is_volume_of s v = text_eq v.name (secret_volume_name s) && source_is s v.source

any-secret_mounts :
    (s : Text) (names : List Text) → any (is_mount_of s) (secret_mounts names) ≡ contains s names
unfolding secret_mounts
any-secret_mounts s [] = refl
any-secret_mounts s (n ∷ ns) = ground (
  arith,
  any-secret_mounts s ns,
  text_eq-secret_volume_name n s,
  text_eq_iff n s,
  text_eq_iff s n,
  text_eq_iff (secret_mount_path n) (secret_mount_path s),
)

any-secret_volumes :
    (s : Text) (names : List Text) → any (is_volume_of s) (secret_volumes names) ≡ contains s names
unfolding secret_volumes
any-secret_volumes s [] = refl
any-secret_volumes s (n ∷ ns) = ground (
  arith,
  any-secret_volumes s ns,
  text_eq-secret_volume_name n s,
  text_eq_iff n s,
  text_eq_iff s n,
)

build_secret_volumes-sort :
    (secrets : List Text)
    → build_secret_volumes secrets
      ≡ (secret_volumes (sort text_order secrets), secret_mounts (sort text_order secrets))
unfolding build_secret_volumes secret_volumes secret_mounts sort
build_secret_volumes-sort [] = refl
build_secret_volumes-sort (s ∷ ss) = refl

-- Exactly the declared Secrets are projected, each by a volume of that Secret and by a read-only
-- mount of the whole volume at /run/secrets/<name>. Every mount has its volume, and no two volumes
-- share a name if no Secret is declared twice.
pub build_secret_volumes_lem :
    (secrets : List Text)
    → Distinct secrets
    → ((s : Text) → any (is_volume_of s) (build_secret_volumes secrets).0 ≡ contains s secrets)
      × ((s : Text) → any (is_mount_of s) (build_secret_volumes secrets).1 ≡ contains s secrets)
      × (mount_names (build_secret_volumes secrets).1
          ≡ volume_names (build_secret_volumes secrets).0)
      × Distinct (volume_names (build_secret_volumes secrets).0)
build_secret_volumes_lem secrets d = rw (build_secret_volumes-sort secrets) (
  (λ s. any-secret_volumes s (sort text_order secrets) ∙ any-sort text_order (text_eq s) secrets),
  (λ s. any-secret_mounts s (sort text_order secrets) ∙ any-sort text_order (text_eq s) secrets),
  mount_names-secret_mounts (sort text_order secrets),
  secret_volumes-Distinct (sort text_order secrets) (sort-Distinct secrets d),
)

not_secret_volume :
    (t : Text) (names : List Text)
    → has_prefix t secret_prefix ≡ false
    → contains t (volume_names (secret_volumes names)) ≡ false
unfolding secret_volumes secret_volume_name
not_secret_volume t [] h = refl
not_secret_volume t (n ∷ ns) h = ground (
  arith,
  not_secret_volume t ns h,
  text_eq_iff t (secret_prefix ++ n),
  has_prefix-append secret_prefix n,
)

-- A name without the prefix of the Secrets names none of their volumes.
pub not_build_secret_volume :
    (t : Text) (secrets : List Text)
    → has_prefix t secret_prefix ≡ false
    → contains t (volume_names (build_secret_volumes secrets).0) ≡ false
not_build_secret_volume t secrets h =
    rw build_secret_volumes-sort (not_secret_volume t (sort text_order secrets) h)
