-- ===== src/Policy/Secrets.antt =====
-- internal/policy/secrets.go: one read-only volume and mount for each Secret.
pub mod Mounts
use openconveyor.Prelude.{true, List, [], ◌∷◌, ◌++◌, Text, codes, sort, text_order}
use openconveyor.Kube.{Volume, from_secret, VolumeMount}

abbrev pub secret_mount_root : Text
secret_mount_root = codes "/run/secrets"

abbrev pub secret_prefix : Text
secret_prefix = codes "secret-"

unfoldable pub secret_volume_name : Text → Text
secret_volume_name secret_name = secret_prefix ++ secret_name

-- path.Join(SecretMountRoot, name) for a Secret name, which has no slash and no dots to clean.
unfoldable pub secret_mount_path : Text → Text
secret_mount_path name = secret_mount_root ++ codes "/" ++ name

secret_volumes : List Text → List Volume
unfolding secret_volume_name
secret_volumes [] = []
secret_volumes (name ∷ names) =
    record { name = secret_volume_name name; source = from_secret name } ∷ secret_volumes names

secret_mounts : List Text → List VolumeMount
unfolding secret_volume_name secret_mount_path
secret_mounts [] = []
secret_mounts (name ∷ names) =
    record {
      name = secret_volume_name name;
      mount_path = secret_mount_path name;
      sub_path = [];
      read_only = true;
    }
    ∷ secret_mounts names

unfoldable pub build_secret_volumes : List Text → List Volume × List VolumeMount
unfolding secret_volumes secret_mounts
build_secret_volumes [] = ([], [])
build_secret_volumes (s ∷ ss) =
    let names = sort text_order (s ∷ ss) in (secret_volumes names, secret_mounts names)
