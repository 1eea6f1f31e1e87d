-- ===== src/Platform/Memory.antt =====
-- A cluster in memory, at which the theorems are applied to concrete data. It is one way in which the
-- parameters of the model can be filled, not a model of Kubernetes.
use kopia_operator.Prelude.{
  String, ◌<>◌, ◌≡◌, refl, Bool, true, false, not, ◌&&◌, Option, none, some, List, [], ◌∷◌, ◌++◌,
  arith, ◌==◌, eq_iff, if◌then◌else◌,
}
use kopia_operator.Prelude.Lists.{Dict, lookup, any, all, filter, find}
use kopia_operator.Error.{api, not_found, already_exists}
use kopia_operator.Exec.{Result, ok, err}
use kopia_operator.Kube.Meta.{Key, ObjectMeta, OwnerReference, Condition}
use kopia_operator.Kube.Pods.{Pod}
use kopia_operator.Kube.Jobs.{CronJob}
use kopia_operator.Kube.Objects.{Pvc, Secret, ConfigMap, Service}
use kopia_operator.Kube.Deployments.{Deployment}
use kopia_operator.Api.Backup.{Backup}
use kopia_operator.Api.Repository.{Repository}
use kopia_operator.Platform.{Platform, ObjectClient, ListOptions}
use kopia_operator.Platform.Laws.{find_condition, IsConditionSetter, IsSemanticEqual}

pub record Cluster : Type 0 where
  pub backups : List Backup
  pub repositories : List Repository
  pub pvcs : List Pvc
  pub pods : List Pod
  pub config_maps : List ConfigMap
  pub cron_jobs : List CronJob
  pub secrets : List Secret
  pub services : List Service
  pub deployments : List Deployment

abbrev pub nothing : Cluster
nothing = record {
  backups = [];
  repositories = [];
  pvcs = [];
  pods = [];
  config_maps = [];
  cron_jobs = [];
  secrets = [];
  services = [];
  deployments = [];
}

abbrev pub is_at : Key → ObjectMeta → Bool
is_at k m = m.name == k.name && m.namespace == k.namespace

abbrev at : ObjectMeta → Key
at m = record { name = m.name; namespace = m.namespace }

abbrev in_namespace : Option String → ObjectMeta → Bool
in_namespace none m = true
in_namespace (some n) m = m.namespace == n

abbrev holds : Option String → String → Bool
holds none v = false
holds (some w) v = w == v

-- One kind of object: its metadata, the fields that it is indexed by, and its list in the cluster.
module _ {Obj : Type 0} (meta : Obj → ObjectMeta) (field : String → Obj → Option String)
    (get_all : Cluster → List Obj) (set_all : List Obj → Cluster → Cluster) where
  abbrev found : Key → Option Obj → Result Obj
  found k none = err (api not_found (k.name <> " not found"))
  found k (some o) = ok o

  abbrev here : Key → Cluster → Option Obj
  here k s = find (λ o. is_at k (meta o)) (get_all s)

  abbrev others : Obj → Cluster → List Obj
  others o s = filter (λ x. not (is_at (at (meta o)) (meta x))) (get_all s)

  abbrev replace : Obj → Option Obj → Cluster → Result Obj × Cluster
  replace o none s = (err (api not_found ((meta o).name <> " not found")), s)
  replace o (some _) s = (ok o, set_all (others o s ++ (o ∷ [])) s)

  abbrev add : Obj → Option Obj → Cluster → Result Obj × Cluster
  add o none s = (ok o, set_all (get_all s ++ (o ∷ [])) s)
  add o (some _) s = (err (api already_exists ((meta o).name <> " already exists")), s)

  abbrev drop : Obj → Option Obj → Cluster → Result (Unit {0}) × Cluster
  drop o none s = (err (api not_found ((meta o).name <> " not found")), s)
  drop o (some _) s = (ok tt, set_all (others o s) s)

  abbrev selects : ListOptions → Obj → Bool
  selects options o =
      in_namespace options.namespace (meta o)
      && (all (λ (k, v). holds (lookup k (meta o).labels) v) options.labels
          && all (λ (k, v). holds (field k o) v) options.fields)

  abbrev client : ObjectClient Cluster Obj
  client = record {
    get = λ k s. (found k (here k s), s);
    list = λ options s. (ok (filter (selects options) (get_all s)), s);
    create = λ o s. add o (here (at (meta o)) s) s;
    update = λ o s. replace o (here (at (meta o)) s) s;
    update_status = λ o s. replace o (here (at (meta o)) s) s;
    patch = λ o s. replace o (here (at (meta o)) s) s;
    delete = λ o s. drop o (here (at (meta o)) s) s;
  }

abbrev no_field : {Obj : Type 0} → String → Obj → Option String
no_field k o = none

abbrev backup_field : String → Backup → Option String
backup_field k b =
    if k == ".spec.pvcName"
    then some b.spec.pvc_name
    else if k == ".spec.repository"
    then some b.spec.repository
    else none

-- Replaces the condition of the type, or appends it.
pub set_condition_in : List Condition → Condition → List Condition
set_condition_in [] c = c ∷ []
set_condition_in (x ∷ cs) c = if x.type == c.type then c ∷ cs else x ∷ set_condition_in cs c

abbrev controller_reference : String → ObjectMeta → ObjectMeta → ObjectMeta
controller_reference kind owner m = record m {
  owner_references =
      record { kind = kind; name = owner.name; uid = owner.uid; controller = some "true" } ∷ [];
}

pub dict_equal : Dict String → Dict String → Bool
dict_equal [] [] = true
dict_equal ((k, v) ∷ d) ((j, w) ∷ e) = k == j && (v == w && dict_equal d e)
dict_equal _ _ = false

abbrev pub memory : Platform
memory = record {
  State = Cluster;
  backups =
      client (λ b. b.metadata) backup_field (λ s. s.backups) (λ l s. record s { backups = l });
  repositories =
      client (λ r. r.metadata) no_field (λ s. s.repositories)
        (λ l s. record s { repositories = l });
  pvcs = client (λ p. p.metadata) no_field (λ s. s.pvcs) (λ l s. record s { pvcs = l });
  pods = client (λ p. p.metadata) no_field (λ s. s.pods) (λ l s. record s { pods = l });
  config_maps =
      client (λ c. c.metadata) no_field (λ s. s.config_maps) (λ l s. record s { config_maps = l });
  cron_jobs =
      client (λ c. c.metadata) no_field (λ s. s.cron_jobs) (λ l s. record s { cron_jobs = l });
  secrets = client (λ c. c.metadata) no_field (λ s. s.secrets) (λ l s. record s { secrets = l });
  services = client (λ c. c.metadata) no_field (λ s. s.services) (λ l s. record s { services = l });
  deployments =
      client (λ d. d.metadata) no_field (λ s. s.deployments) (λ l s. record s { deployments = l });
  set_controller_reference = λ kind owner m. ok (controller_reference kind owner m);
  is_controlled_by = λ m owner. any (λ (r : OwnerReference). r.uid == owner.uid) m.owner_references;
  contains_finalizer = λ m f. any (λ x. x == f) m.finalizers;
  add_finalizer = λ m f. record m { finalizers = m.finalizers ++ (f ∷ []) };
  remove_finalizer = λ m f. record m { finalizers = filter (λ x. not (x == f)) m.finalizers };
  set_status_condition = set_condition_in;
  cron_job_spec_equal = λ a b.
      dict_equal a.job_spec.template_spec.rest b.job_spec.template_spec.rest
      && a.schedule == b.schedule;
  service_spec_equal = λ a b. dict_equal a.rest b.rest;
  deployment_spec_equal = λ a b. dict_equal a.rest b.rest;
}

find-set_condition_in :
    (type : String) (cs : List Condition) (c : Condition)
    → find_condition type (set_condition_in cs c)
      ≡ (if c.type == type then some c else find_condition type cs)
unfolding find_condition set_condition_in
find-set_condition_in type [] c = refl
find-set_condition_in type (x ∷ cs) c = ground (
  arith,
  eq_iff x.type c.type,
  eq_iff x.type type,
  eq_iff c.type type,
  find-set_condition_in type cs c,
)

pub memory-IsConditionSetter : IsConditionSetter memory
memory-IsConditionSetter = record { find-set = find-set_condition_in }

dict_equal→path : (d e : Dict String) → dict_equal d e ≡ true → d ≡ e
unfolding dict_equal
dict_equal→path [] [] h = refl
dict_equal→path [] (x ∷ e) h = cc
dict_equal→path (x ∷ d) [] h = cc
dict_equal→path ((k, v) ∷ d) ((j, w) ∷ e) h =
    ground (arith, eq_iff k j, eq_iff v w, dict_equal→path d e)

pub memory-IsSemanticEqual : IsSemanticEqual memory
memory-IsSemanticEqual = record {
  same_service = λ s t. dict_equal→path s.rest t.rest;
  same_deployment = λ s t. dict_equal→path s.rest t.rest;
  same_template = λ s t e.
      dict_equal→path s.job_spec.template_spec.rest t.job_spec.template_spec.rest (ground arith);
}
