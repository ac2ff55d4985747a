-- ===== src/Api/TriggerClasses.antt =====
-- api/v1alpha1/clustertriggerclass_types.go: a webhook path, its signature and its Task template.
use openconveyor.Prelude.{ℕ, Option, Text, List}
use openconveyor.Kube.{ObjectMeta, KeySelector}
use package.openconveyor.Api.Tasks.{AgentRef, Permissions, TaskResources}

pub record WebhookSignature : Type 0 where
  pub header : Text
  pub algorithm : Text
  pub prefix : Text
  pub secret_ref : KeySelector

pub record FieldMapping : Type 0 where
  pub from : Text
  pub to : Text
  pub fallback : Text

pub record WebhookFilter : Type 0 where
  pub path : Text
  pub equals : Text

pub record TaskTemplate : Type 0 where
  pub namespace : Text
  pub generate_name_prefix : Text
  pub agent : AgentRef
  pub permissions : Permissions
  pub resources : TaskResources
  pub ttl_seconds_after_finished : Option ℕ
  pub mappings : List FieldMapping

pub record TriggerDedupe : Type 0 where
  pub unique_by : List Text

pub record TriggerClassSpec : Type 0 where
  pub path : Text
  pub signature : WebhookSignature
  pub filters : List WebhookFilter
  pub task : TaskTemplate
  pub dedupe : Option TriggerDedupe

pub record ClusterTriggerClass : Type 0 where
  pub meta : ObjectMeta
  pub spec : TriggerClassSpec
