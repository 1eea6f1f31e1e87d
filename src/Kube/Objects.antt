-- ===== src/Kube/Objects.antt =====
-- corev1 and appsv1: the other kinds that the operator reads or writes.
use kopia_operator.Prelude.{String, List}
use kopia_operator.Prelude.Lists.{Dict}
use kopia_operator.Prelude.Int.{ℤ}
use kopia_operator.Kube.Meta.{ObjectMeta}

pub record Pvc : Type 0 where
  pub metadata : ObjectMeta

-- `string_data` is written only; the API server moves it into the data.
pub record Secret : Type 0 where
  pub metadata : ObjectMeta
  pub type : String
  pub contents : Dict String
  pub string_data : Dict String

pub record ConfigMap : Type 0 where
  pub metadata : ObjectMeta
  pub contents : Dict String

pub record ServicePort : Type 0 where
  pub name : String
  pub port : ℤ
  pub target_port : ℤ
  pub protocol : String

-- `rest` stands for the fields that the API server fills in, such as the cluster address.
pub record ServiceSpec : Type 0 where
  pub type : String
  pub selector : Dict String
  pub ports : List ServicePort
  pub rest : Dict String

pub record Service : Type 0 where
  pub metadata : ObjectMeta
  pub spec : ServiceSpec
