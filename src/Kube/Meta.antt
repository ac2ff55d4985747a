-- ===== src/Kube/Meta.antt =====
-- metav1: object metadata and status conditions. A time is in nanoseconds since the epoch; the zero
-- time of Go is `none`.
use openconveyor.Prelude.{ℕ, Option, none, Text, Map, []}

abbrev pub Time : Type 0
Time = ℕ

-- The controller owner reference, as far as the program reads it.
pub record Owner : Type 0 where
  pub kind : Text
  pub uid : Text

pub record ObjectMeta : Type 0 where
  pub name : Text
  pub generate_name : Text
  pub namespace : Text
  pub uid : Text
  pub generation : ℕ
  pub labels : Map Text
  pub annotations : Map Text
  pub controller : Option Owner
  pub deletion_timestamp : Option Time

-- metav1.ObjectMeta{}
abbrev pub empty_meta : ObjectMeta
empty_meta = record {
  name = [];
  generate_name = [];
  namespace = [];
  uid = [];
  generation = 0;
  labels = [];
  annotations = [];
  controller = none;
  deletion_timestamp = none;
}

pub data ConditionStatus : Type 0 where
  is_true is_false is_unknown : ConditionStatus

pub record Condition : Type 0 where
  pub kind : Text
  pub status : ConditionStatus
  pub reason : Text
  pub message : Text
  pub observed_generation : ℕ
  pub last_transition : Option Time

-- types.NamespacedName
pub record Key : Type 0 where
  pub namespace : Text
  pub name : Text

-- corev1.SecretKeySelector and corev1.ConfigMapKeySelector
pub record KeySelector : Type 0 where
  pub name : Text
  pub key : Text
