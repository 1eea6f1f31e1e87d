-- ===== src/Kube/Meta.antt =====
-- metav1: object metadata, conditions, and the key of an object.
use kopia_operator.Prelude.{ℕ, String, Option, none, List, []}
use kopia_operator.Prelude.Lists.{Dict}

-- types.NamespacedName
pub record Key : Type 0 where
  pub name : String
  pub namespace : String

pub record OwnerReference : Type 0 where
  pub kind : String
  pub name : String
  pub uid : String
  pub controller : Option String

pub record ObjectMeta : Type 0 where
  pub name : String
  pub namespace : String
  pub uid : String
  pub generation : ℕ
  pub labels : Dict String
  pub annotations : Dict String
  pub finalizers : List String
  pub owner_references : List OwnerReference
  pub deletion_timestamp : Option ℕ

pub data ConditionStatus : Type 0 where
  condition_true condition_false condition_unknown : ConditionStatus

-- The time of the last transition is the API machinery's.
pub record Condition : Type 0 where
  pub type : String
  pub status : ConditionStatus
  pub reason : String
  pub message : String
  pub observed_generation : ℕ

abbrev pub new_meta : String → String → Dict String → ObjectMeta
new_meta name namespace labels = record {
  name = name;
  namespace = namespace;
  uid = "";
  generation = 0;
  labels = labels;
  annotations = [];
  finalizers = [];
  owner_references = [];
  deletion_timestamp = none;
}
