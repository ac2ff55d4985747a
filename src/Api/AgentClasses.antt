-- ===== src/Api/AgentClasses.antt =====
-- api/v1alpha1/clusteragentclass_types.go: how an agent image is run and what it needs.
use openconveyor.Prelude.{Option, Text, List}
use openconveyor.Kube.{ObjectMeta}

pub record AgentInputMount : Type 0 where
  pub mount : Text
  pub env : Text

pub record AgentInputs : Type 0 where
  pub prompt : Option AgentInputMount
  pub config : Option AgentInputMount

pub record AgentRequirements : Type 0 where
  pub egress : List Text
  pub secrets : List Text

pub record AgentClassSpec : Type 0 where
  pub image : Text
  pub image_pull_policy : Text
  pub command : List Text
  pub args : List Text
  pub inputs : AgentInputs
  pub requires : AgentRequirements

pub record ClusterAgentClass : Type 0 where
  pub meta : ObjectMeta
  pub spec : AgentClassSpec
