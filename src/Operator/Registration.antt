-- ===== src/Operator/Registration.antt =====
-- The SetupWithManager of the three controllers: what wakes each of them.
use kopia_operator.Prelude.{String, Bool, List, [], ◌∷◌}
use kopia_operator.Kube.Meta.{Key, ObjectMeta}
use kopia_operator.Kube.Pods.{Pod}
use kopia_operator.Api.Backup.{Backup}
use kopia_operator.Platform.{Platform}
use kopia_operator.World.{World}
use kopia_operator.BackupController.Watches.{
  pvc_name_field, repository_name_field, index_pvc_name, index_repository_name, on_create,
  on_update, on_delete, on_generic, find_backups_for_field, find_backups_for_pod,
}

-- The kinds of the watched objects.
pub data Watched : Type 0 where
  kopia_backups kopia_repositories persistent_volume_claims pods : Watched
  cron_jobs secrets config_maps deployments services : Watched

-- controller-runtime's predicates that are used.
pub data Filter : Type 0 where
  resource_version_changed : Filter
  label_changed annotation_changed : Filter
  either : Filter → Filter → Filter

-- podRunningPredicate
pub record PodPredicate : Type 0 where
  pub create : Pod → Bool
  pub update : Pod → Pod → Bool
  pub delete : Pod → Bool
  pub generic : Pod → Bool

pub data Watch (P : Platform) : Type 0 where
  -- an event of the object, or of an object that it owns, wakes the controller for it
  reconciles : Watched → Watch P
  owns : Watched → Watch P
  -- an event wakes the controller for what the map function answers
  watches : Watched → (ObjectMeta → World P.State → List Key × World P.State) → Filter → Watch P
  watches_pods : (Pod → World P.State → List Key × World P.State) → PodPredicate → Watch P
  -- for all events of the controller
  filtered : Filter → Watch P

module _ (P : Platform) where
  abbrev pub pod_running_predicate : PodPredicate
  pod_running_predicate = record {
    create = on_create;
    update = on_update;
    delete = on_delete;
    generic = on_generic;
  }

  -- KopiaBackupReconciler: its indexes, and its watches.
  abbrev pub backup_indexes : List (String × (Backup → List String))
  backup_indexes =
      (pvc_name_field, index_pvc_name) ∷ (repository_name_field, index_repository_name) ∷ []

  abbrev pub backup_watches : List (Watch P)
  backup_watches =
      reconciles kopia_backups
      ∷ owns cron_jobs
      ∷ owns secrets
      ∷ owns config_maps
      ∷ watches persistent_volume_claims (find_backups_for_field P pvc_name_field)
          resource_version_changed
      ∷ watches kopia_repositories (find_backups_for_field P repository_name_field)
          resource_version_changed
      ∷ watches_pods (find_backups_for_pod P) pod_running_predicate
      ∷ []

  -- KopiaRepositoryReconciler
  abbrev pub repository_watches : List (Watch P)
  repository_watches = reconciles kopia_repositories ∷ owns deployments ∷ owns services ∷ []

  -- PVCWatcherReconciler
  abbrev pub watcher_watches : List (Watch P)
  watcher_watches =
      reconciles persistent_volume_claims ∷ filtered (either label_changed annotation_changed) ∷ []
