-- ===== src/Platform.antt =====
-- What the operator calls and does not implement: the API server through controller-runtime's client,
-- and helpers of the Kubernetes libraries. All of it is a parameter of the model.
pub mod Laws
pub mod Memory
use kopia_operator.Prelude.{ℕ, String, Bool, Option, none, List, []}
use kopia_operator.Prelude.Lists.{Dict}
use kopia_operator.Exec.{Result, Exec}
use kopia_operator.Kube.Meta.{Key, ObjectMeta, Condition}
use kopia_operator.Kube.Pods.{Pod}
use kopia_operator.Kube.Jobs.{CronJob, CronJobSpec}
use kopia_operator.Kube.Objects.{Pvc, Secret, ConfigMap, Service, ServiceSpec}
use kopia_operator.Kube.Deployments.{Deployment, DeploymentSpec}
use kopia_operator.Api.Backup.{Backup}
use kopia_operator.Api.Repository.{Repository}

-- client.InNamespace, client.MatchingLabels and client.MatchingFields
pub record ListOptions : Type 0 where
  pub namespace : Option String
  pub labels : Dict String
  pub fields : Dict String

abbrev pub everything : ListOptions
everything = record { namespace = none; labels = []; fields = [] }

-- client.Client for one kind of object. A write returns the object that the server answers with.
pub record ObjectClient (S Obj : Type 0) : Type 0 where
  pub get : Key → Exec S Obj
  pub list : ListOptions → Exec S (List Obj)
  pub create : Obj → Exec S Obj
  pub update : Obj → Exec S Obj
  pub update_status : Obj → Exec S Obj
  pub patch : Obj → Exec S Obj
  pub delete : Obj → Exec S (Unit {0})

pub record Platform : Type 1 where
  pub State : Type 0
  pub backups : ObjectClient State Backup
  pub repositories : ObjectClient State Repository
  pub pvcs : ObjectClient State Pvc
  pub pods : ObjectClient State Pod
  pub config_maps : ObjectClient State ConfigMap
  pub cron_jobs : ObjectClient State CronJob
  pub secrets : ObjectClient State Secret
  pub services : ObjectClient State Service
  pub deployments : ObjectClient State Deployment
  -- ctrl.SetControllerReference: the owner's kind and metadata, and the object's metadata
  pub set_controller_reference : String → ObjectMeta → ObjectMeta → Result ObjectMeta
  -- metav1.IsControlledBy(object, owner)
  pub is_controlled_by : ObjectMeta → ObjectMeta → Bool
  -- controllerutil.ContainsFinalizer, AddFinalizer and RemoveFinalizer
  pub contains_finalizer : ObjectMeta → String → Bool
  pub add_finalizer : ObjectMeta → String → ObjectMeta
  pub remove_finalizer : ObjectMeta → String → ObjectMeta
  -- meta.SetStatusCondition
  pub set_status_condition : List Condition → Condition → List Condition
  -- equality.Semantic.DeepEqual
  pub cron_job_spec_equal : CronJobSpec → CronJobSpec → Bool
  pub service_spec_equal : ServiceSpec → ServiceSpec → Bool
  pub deployment_spec_equal : DeploymentSpec → DeploymentSpec → Bool
