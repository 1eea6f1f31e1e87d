-- ===== src/Platform/Laws.antt =====
-- What the operator relies on in the Kubernetes libraries, as hypotheses.
use kopia_operator.Prelude.{
  String, ◌≡◌, true, Option, none, some, List, [], ◌∷◌, ◌==◌, if◌then◌else◌,
}
use kopia_operator.Kube.Meta.{Condition, ConditionStatus}
use kopia_operator.Kube.Jobs.{CronJobSpec}
use kopia_operator.Kube.Objects.{ServiceSpec}
use kopia_operator.Kube.Deployments.{DeploymentSpec}
use kopia_operator.Platform.{Platform}

-- The condition of a type, and its status: meta.FindStatusCondition.
unfoldable pub find_condition : String → List Condition → Option Condition
find_condition type [] = none
find_condition type (c ∷ cs) = if c.type == type then some c else find_condition type cs

abbrev status_in : Option Condition → Option ConditionStatus
status_in none = none
status_in (some c) = some c.status

abbrev pub status_of : String → List Condition → Option ConditionStatus
status_of type cs = status_in (find_condition type cs)

-- "SetStatusCondition sets the corresponding condition in conditions to newCondition."
pub record IsConditionSetter (P : Platform) : Type 0 where
  pub find-set :
      (type : String) (cs : List Condition) (c : Condition)
      → find_condition type (P.set_status_condition cs c)
        ≡ (if c.type == type then some c else find_condition type cs)

-- Semantic.DeepEqual, as far as it matters here: specs that differ in a field are not equal.
pub record IsSemanticEqual (P : Platform) : Type 0 where
  pub same_service : (s t : ServiceSpec) → P.service_spec_equal s t ≡ true → s.rest ≡ t.rest
  pub same_deployment :
      (s t : DeploymentSpec) → P.deployment_spec_equal s t ≡ true → s.rest ≡ t.rest
  pub same_template :
      (s t : CronJobSpec)
      → P.cron_job_spec_equal s t ≡ true
      → s.job_spec.template_spec.rest ≡ t.job_spec.template_spec.rest
