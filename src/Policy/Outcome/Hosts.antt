-- ===== src/Policy/Outcome/Hosts.antt =====
-- A larger allowlist accepts every host that a smaller one accepts.
use openconveyor.Prelude.{
  true, ◌≡◌, refl, Option, List, [], ◌∷◌, Text, text_eq_iff, text_eq_refl, trim_space, contains,
  arith, Bool-cases, inl, inr,
}
use openconveyor.Net.{Net}
use openconveyor.Policy.Labels.{merge_string_sets}
use openconveyor.Policy.Labels.Merging.{contains-merge}
use openconveyor.Policy.Outcome.{Parsers, host_name, entry_allows, allowed_by, host_allowed}

module _ (parsers : Parsers) (net : Net) where
  allowed_by-contains :
      (host : Text) (ip : Option Text) (e : Text) (es : List Text)
      → entry_allows parsers net host ip (trim_space e) ≡ true
      → contains e es ≡ true
      → allowed_by parsers net host ip es ≡ true
  unfolding allowed_by
  allowed_by-contains host ip e [] h c = cc
  allowed_by-contains host ip e (x ∷ es) h c =
      ground (arith, allowed_by-contains host ip e es h, text_eq_iff e x)

  allowed_by_mono :
      (host : Text) (ip : Option Text) (es fs : List Text)
      → ((e : Text) → contains e es ≡ true → contains e fs ≡ true)
      → allowed_by parsers net host ip es ≡ true
      → allowed_by parsers net host ip fs ≡ true
  unfolding allowed_by
  allowed_by_mono host ip [] fs sub h = cc
  allowed_by_mono host ip (x ∷ es) fs sub h =
      elim (Bool-cases (entry_allows parsers net host ip (trim_space x))) [
        | inl here ↦ allowed_by-contains host ip x fs here (sub x (rw (text_eq_refl x) refl))
        | inr there ↦ allowed_by_mono host ip es fs (λ e c. sub e (ground arith)) (ground arith)
      ]

  -- A host that an allowlist accepts is accepted by every allowlist with all its entries.
  host_allowed_mono :
      (host : Text) (es fs : List Text)
      → ((e : Text) → contains e es ≡ true → contains e fs ≡ true)
      → host_allowed parsers net host es ≡ true
      → host_allowed parsers net host fs ≡ true
  unfolding host_allowed
  host_allowed_mono host es fs sub h =
      allowed_by_mono (host_name parsers host) (net.parse_ip (host_name parsers host)) es fs sub h

  -- The Task's own egress entries never accept a host that the Task's and the agent's together
  -- refuse: the fallback for a missing ClusterAgentClass accepts no more links.
  pub host_allowed-merge :
      (host : Text) (task_egress agent_egress : List Text)
      → host_allowed parsers net host (merge_string_sets (task_egress ∷ [])) ≡ true
      → host_allowed parsers net host (merge_string_sets (task_egress ∷ agent_egress ∷ [])) ≡ true
  host_allowed-merge host task_egress agent_egress = host_allowed_mono host _ _ (λ e c. ground (
    arith,
    contains-merge e (task_egress ∷ []),
    contains-merge e (task_egress ∷ agent_egress ∷ []),
  ))
