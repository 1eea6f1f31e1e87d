-- ===== src/Kube/Deployments.antt =====
-- appsv1: deployments, with the fields that the operator sets or reads.
use kopia_operator.Prelude.{String, List}
use kopia_operator.Prelude.Lists.{Dict}
use kopia_operator.Prelude.Int.{ℤ}
use kopia_operator.Kube.Meta.{ObjectMeta}
use kopia_operator.Kube.Pods.{Container, Volume}
use kopia_operator.Api.Repository.{ResourceRequirements}

pub record ContainerPort : Type 0 where
  pub name : String
  pub container_port : ℤ
  pub protocol : String

-- A probe with a TCPSocket action.
pub record Probe : Type 0 where
  pub port : ℤ
  pub initial_delay_seconds : ℤ
  pub period_seconds : ℤ
  pub timeout_seconds : ℤ
  pub failure_threshold : ℤ

-- A container with the fields that only the server's one sets.
pub record ServerContainer : Type 0 where
  pub container : Container
  pub image_pull_policy : String
  pub ports : List ContainerPort
  pub resources : ResourceRequirements
  pub liveness_probe : Probe
  pub readiness_probe : Probe

-- `rest` stands for the fields that the API server fills in, here and in the pod template.
pub record DeploymentSpec : Type 0 where
  pub replicas : ℤ
  pub selector : Dict String
  pub template_labels : Dict String
  pub seccomp_profile : String
  pub containers : List ServerContainer
  pub volumes : List Volume
  pub rest : Dict String

pub record Deployment : Type 0 where
  pub metadata : ObjectMeta
  pub spec : DeploymentSpec
  -- the status
  pub ready_replicas : ℤ
  pub status_replicas : ℤ
