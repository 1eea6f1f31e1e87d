-- ===== src/Examples/Watching.antt =====
-- The theorems on the PVC watcher, the search of repositories and the repository controller, at
-- concrete objects.
use kopia_operator.Prelude.{none, true, ◌≡◌, ◌≢◌, ◌↔◌, refl, not, ◌&&◌, ◌||◌, some, [], ◌∷◌, ◌==◌}
use kopia_operator.Prelude.Lists.{lookup}
use kopia_operator.Error.{is_not_found}
use kopia_operator.Api.Backup.{Backup}
use kopia_operator.Exec.{ok}
use kopia_operator.Kube.Meta.{Key}
use kopia_operator.Platform.{everything}
use kopia_operator.Platform.Memory.{Cluster, nothing, memory, memory-IsConditionSetter}
use kopia_operator.World.{World}
use kopia_operator.Controller.{done}
use kopia_operator.Lookup
use kopia_operator.Lookup.Unique.{Finds, get_kopia_repository_iff}
use kopia_operator.PvcWatcher
use kopia_operator.PvcWatcher.Guards.{forbidden, reconcile_sends}
use kopia_operator.PvcWatcher.Settled.{reconcile_settled}
use kopia_operator.PvcWatcher.Store.{Meets}
use kopia_operator.PvcWatcher.Table.{reconcile_refines}
use kopia_operator.PvcWatcher.Manual.{reconcile_manual}
use kopia_operator.RepositoryController.{body}
use kopia_operator.RepositoryController.Ready.{
  server_is_ready, ready_status, status_when, body-ready,
}
use kopia_operator.Examples.Table.{memory-IsBackupStore}
use kopia_operator.Examples.Data.{with_server, backup, pvc, world, servers}

abbrev request : Key
request = record { name = "data"; namespace = "web" }

abbrev labelled : World Cluster
labelled = world (record nothing { pvcs = pvc ∷ []; repositories = with_server ∷ [] })

reconcile_sends_example :
    forbidden pvc (PvcWatcher.reconcile memory request labelled).1.trace
    ≡ forbidden pvc labelled.trace
reconcile_sends_example = reconcile_sends memory request pvc labelled refl

abbrev manual : World Cluster
manual = world (record nothing { pvcs = pvc ∷ []; backups = backup ∷ [] })

reconcile_manual_example : PvcWatcher.reconcile memory request manual ≡ (ok done, manual)
reconcile_manual_example = reconcile_manual memory request pvc backup manual refl refl refl

get_kopia_repository_iff_example :
    ((Lookup.get_kopia_repository memory "nas" "web" labelled).0 ≡ ok with_server)
    ↔ Finds "nas" with_server
        (memory.repositories.get (record { name = "nas"; namespace = "web" }) labelled.api).0
        (memory.repositories.list everything labelled.api).0
get_kopia_repository_iff_example = get_kopia_repository_iff memory "nas" "web" with_server labelled

body-ready_example :
    ready_status (body memory (some servers) with_server labelled).0.object
    ≡ some (
        status_when (
          not (with_server.spec.password_secret_name == "")
          && (not with_server.spec.server.enabled
              || server_is_ready (some servers) with_server labelled)))
unfolding body
body-ready_example =
    body-ready memory memory-IsConditionSetter (some servers) with_server labelled refl

abbrev auto_created : Backup
auto_created = record backup { status = record backup.status { auto_created = true } }

abbrev settled : World Cluster
settled = world (record nothing {
  pvcs = pvc ∷ [];
  backups = auto_created ∷ [];
  repositories = with_server ∷ [];
})

reconcile_settled_example : PvcWatcher.reconcile memory request settled ≡ (ok done, settled)
unfolding PvcWatcher.get_kopia_repository PvcWatcher.get_schedule_from_pvc lookup
reconcile_settled_example =
    reconcile_settled memory request pvc auto_created with_server settled settled settled.api
      settled.api refl refl refl refl refl refl

reconcile_refines_example :
    Meets memory pvc
      (PvcWatcher.get_kopia_repository memory "nas" "web" labelled).0
      none
      (memory-IsBackupStore.stored labelled.api request)
      (memory-IsBackupStore.stored (PvcWatcher.reconcile memory request labelled).1.api request)
    × ((j : Key)
        → j ≢ request
        → memory-IsBackupStore.stored (PvcWatcher.reconcile memory request labelled).1.api j
          ≡ memory-IsBackupStore.stored labelled.api j)
unfolding PvcWatcher.reconcile PvcWatcher.label_present PvcWatcher.create_backup_for_pvc lookup
    is_not_found
reconcile_refines_example =
    reconcile_refines memory memory-IsBackupStore request pvc labelled done refl refl
