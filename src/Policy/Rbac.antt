-- ===== src/Policy/Rbac.antt =====
-- internal/policy/rbac.go: the Role of a Task, its binding and its ServiceAccount token.
pub mod Grants
use openconveyor.Prelude.{Bool, true, false, Option, none, some, List, [], ◌∷◌, Text, codes}
use openconveyor.Api.{RbacRule}
use openconveyor.Kube.{Role, PolicyRule, RoleBinding}
use openconveyor.Policy.Labels.{owned_meta}

policy_rules : List RbacRule → List PolicyRule
policy_rules [] = []
policy_rules (r ∷ rs) =
    record {
      api_groups = r.api_groups;
      resources = r.resources;
      verbs = r.verbs;
      resource_names = r.resource_names;
    }
    ∷ policy_rules rs

-- `none` is nil: the caller deletes what a previous spec left behind.
unfoldable pub build_role : Text → Text → List RbacRule → Option Role
unfolding policy_rules
build_role task_name namespace [] = none
build_role task_name namespace (r ∷ rs) =
    some (record { meta = owned_meta task_name namespace task_name; rules = policy_rules (r ∷ rs) })

unfoldable pub build_role_binding : Text → Text → List RbacRule → Option RoleBinding
build_role_binding task_name namespace [] = none
build_role_binding task_name namespace (r ∷ rs) = some (record {
  meta = owned_meta task_name namespace task_name;
  subjects = record { kind = codes "ServiceAccount"; name = task_name; namespace = namespace } ∷ [];
  role_ref = record {
    api_group = codes "rbac.authorization.k8s.io";
    kind = codes "Role";
    name = task_name;
  };
})

unfoldable pub needs_service_account_token : List RbacRule → Bool
needs_service_account_token [] = false
needs_service_account_token (r ∷ rs) = true
