-- ===== src/Policy/Rbac/Grants.antt =====
-- The Role, the binding and the token of a Task come and go together.
use openconveyor.Prelude.{
  true, false, ◌≡◌, refl, none, some, List, [], ◌∷◌, Text, codes, ◌⊎◌, inl, inr,
}
use openconveyor.Api.{RbacRule}
use openconveyor.Kube.{Role, PolicyRule, RoleBinding}
use openconveyor.Policy.Labels.{owned_meta}
use openconveyor.Policy.Rbac.{
  policy_rules, build_role, build_role_binding, needs_service_account_token,
}

-- The rule grants what the declared rule says.
abbrev pub Grants : List RbacRule → List PolicyRule → Type 0
Grants [] [] = Unit
Grants (r ∷ rs) (p ∷ ps) =
    ((p.api_groups ≡ r.api_groups)
      × (p.resources ≡ r.resources)
      × (p.verbs ≡ r.verbs)
      × (p.resource_names ≡ r.resource_names))
    × Grants rs ps
Grants _ _ = ⊥

policy_rules-Grants : (rs : List RbacRule) → Grants rs (policy_rules rs)
unfolding policy_rules
policy_rules-Grants [] = tt
policy_rules-Grants (r ∷ rs) = ((refl, refl, refl, refl), policy_rules-Grants rs)

-- What the binding of a Task gives to whom: the Role of the Task to its own ServiceAccount.
abbrev pub Binds : Text → Text → Role → RoleBinding → Type 0
Binds task_name namespace role binding =
    (binding.role_ref ≡ record {
      api_group = codes "rbac.authorization.k8s.io";
      kind = codes "Role";
      name = role.meta.name;
    })
    × (binding.meta.namespace ≡ role.meta.namespace)
    × (role.meta.namespace ≡ namespace)
    × (binding.subjects
        ≡ record { kind = codes "ServiceAccount"; name = task_name; namespace = namespace } ∷ [])

-- A Task without RBAC rules has no Role, no binding and no token. A Task with rules has the token, a
-- Role that grants its rules one by one and nothing more, and a binding of that Role to the
-- ServiceAccount of the Task alone.
pub role_and_token :
    (task_name namespace : Text) (rules : List RbacRule)
    → ((build_role task_name namespace rules ≡ none)
        × (build_role_binding task_name namespace rules ≡ none)
        × (needs_service_account_token rules ≡ false)
        × (rules ≡ []))
      ⊎ ((role : Role) × (binding : RoleBinding) × (build_role task_name namespace rules
            ≡ some role)
          × (build_role_binding task_name namespace rules ≡ some binding)
          × (needs_service_account_token rules ≡ true)
          × Grants rules role.rules
          × Binds task_name namespace role binding)
unfolding build_role build_role_binding needs_service_account_token owned_meta
role_and_token task_name namespace [] = inl (refl, refl, refl, refl)
role_and_token task_name namespace (r ∷ rs) =
    inr (_, _, refl, refl, refl, policy_rules-Grants (r ∷ rs), (refl, refl, refl, refl))
