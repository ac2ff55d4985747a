-- ===== src/Kube/Policies.antt =====
-- rbacv1 and networkingv1: roles, role bindings and network policies.
use openconveyor.Prelude.{ℕ, Text, Map, List}
use package.openconveyor.Kube.Meta.{ObjectMeta}

pub record PolicyRule : Type 0 where
  pub api_groups : List Text
  pub resources : List Text
  pub verbs : List Text
  pub resource_names : List Text

pub record Role : Type 0 where
  pub meta : ObjectMeta
  pub rules : List PolicyRule

pub record Subject : Type 0 where
  pub kind : Text
  pub name : Text
  pub namespace : Text

pub record RoleRef : Type 0 where
  pub api_group : Text
  pub kind : Text
  pub name : Text

pub record RoleBinding : Type 0 where
  pub meta : ObjectMeta
  pub subjects : List Subject
  pub role_ref : RoleRef

-- networkingv1.NetworkPolicyPeer, in the two forms that the program writes
pub data Peer : Type 0 where
  ip_block : (cidr : Text) → Peer
  pods : (namespace_labels pod_labels : Map Text) → Peer

pub data Protocol : Type 0 where
  tcp udp : Protocol

pub record PolicyPort : Type 0 where
  pub protocol : Protocol
  pub port : ℕ

pub record EgressRule : Type 0 where
  pub to : List Peer
  pub ports : List PolicyPort

pub data PolicyType : Type 0 where
  ingress egress : PolicyType

-- The program never writes an ingress rule; `ingress_rules` counts those of the policy.
pub record NetworkPolicy : Type 0 where
  pub meta : ObjectMeta
  pub pod_selector : Map Text
  pub policy_types : List PolicyType
  pub ingress_rules : ℕ
  pub egress_rules : List EgressRule
