-- ===== src/Kube/Pods.antt =====
-- corev1: pods and what their templates hold.
use kopia_operator.Prelude.{String, Bool, Option, List}
use kopia_operator.Prelude.Lists.{Dict}
use kopia_operator.Prelude.Int.{ℤ}
use kopia_operator.Kube.Meta.{ObjectMeta}

pub record Toleration : Type 0 where
  pub key : String
  pub operator : String
  pub value : String
  pub effect : String

-- A key of a secret; `optional` is the flag of that name.
pub record SecretKeySelector : Type 0 where
  pub name : String
  pub key : String
  pub optional : Bool

pub data EnvSource : Type 0 where
  value : String → EnvSource
  secret_key_ref : SecretKeySelector → EnvSource

pub record EnvVar : Type 0 where
  pub name : String
  pub source : EnvSource

-- EnvFromSource with a SecretRef, which is the only kind in use.
pub record EnvFromSource : Type 0 where
  pub secret_ref : String

pub record VolumeMount : Type 0 where
  pub name : String
  pub mount_path : String
  pub sub_path : String
  pub read_only : Bool

pub data VolumeSource : Type 0 where
  persistent_volume_claim : String → VolumeSource
  -- the size limit
  empty_dir : Option ℤ → VolumeSource
  config_map : String → VolumeSource
  -- the secret's name and the mode of its files
  secret : String → ℤ → VolumeSource
  -- server and path
  nfs : String → String → VolumeSource
  -- path and type
  host_path : String → String → VolumeSource
  other_source : VolumeSource

pub record Volume : Type 0 where
  pub name : String
  pub source : VolumeSource

-- The fields that the operator sets on a container's security context.
pub record SecurityContext : Type 0 where
  pub allow_privilege_escalation : Bool
  pub read_only_root_filesystem : Bool
  pub drop : List String
  pub add : List String

pub record Container : Type 0 where
  pub name : String
  pub image : String
  pub command : List String
  pub args : List String
  pub env : List EnvVar
  pub env_from : List EnvFromSource
  pub volume_mounts : List VolumeMount
  pub security_context : SecurityContext

-- One required term with one expression, which is the only affinity in use.
pub record NodeAffinity : Type 0 where
  pub key : String
  pub operator : String
  pub values : List String

-- `rest` stands for the fields that the API server fills in, in the spec, its containers and volumes.
pub record PodSpec : Type 0 where
  pub seccomp_profile : String
  pub affinity : Option NodeAffinity
  pub init_containers : List Container
  pub containers : List Container
  pub volumes : List Volume
  pub restart_policy : String
  pub tolerations : List Toleration
  pub rest : Dict String

-- What the operator reads of a running pod.
pub record ContainerStatus : Type 0 where
  pub name : String
  pub ready : Bool

pub record Pod : Type 0 where
  pub metadata : ObjectMeta
  pub phase : String
  pub node_name : String
  pub volumes : List Volume
  pub tolerations : List Toleration
  pub container_statuses : List ContainerStatus

abbrev pub pod_running : String
pod_running = "Running"
