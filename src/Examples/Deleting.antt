-- ===== src/Examples/Deleting.antt =====
-- The theorem on the end of a backup, at a server that is down at first.
use kopia_operator.Prelude.{◌≡◌, refl, true, some, none, [], ◌∷◌}
use kopia_operator.Error.{plain}
use kopia_operator.Exec.{ok, err}
use kopia_operator.Kube.Meta.{Key}
use kopia_operator.Platform.Memory.{Cluster, nothing, memory}
use kopia_operator.World.{World}
use kopia_operator.Controller.{done}
use kopia_operator.Interfaces.{UserManager}
use kopia_operator.Lookup
use kopia_operator.BackupController.Setup.{Reconciler}
use kopia_operator.BackupController.Reconcile.{reconcile}
use kopia_operator.BackupController.Deletion.{
  is_error, IsDeleting, Reads, fails, succeeds, Ends, finalized, without_finalizer,
  reconcile-finalizes,
}
use kopia_operator.Examples.Data.{with_server, deleted_backup, pending_pod, world, servers}

-- A user manager that fails as long as there is no pod.
abbrev users : UserManager (World Cluster)
users = record {
  ensure_user = λ b repo w. (err (plain "down"), w);
  delete_user = λ b repo w. elim w.api.pods [ [] ↦ (err (plain "down"), w) | _ ↦ (ok tt, w) ];
}

abbrev reconciler : Reconciler memory
reconciler = record {
  image = "";
  server_manager = servers;
  user_manager = some users;
  marshal = λ config. ok "{}";
}

abbrev request : Key
request = record { name = "data"; namespace = "web" }

abbrev down : World Cluster
down = world (record nothing { backups = deleted_backup ∷ []; repositories = with_server ∷ [] })

abbrev up : World Cluster
up = record down { api = record down.api { pods = pending_pod ∷ [] } }

abbrev end : Cluster
end = record up.api {
  backups = without_finalizer memory reconciler users request deleted_backup with_server ∷ [];
}

deleting : IsDeleting memory reconciler users request deleted_backup with_server
deleting = record {
  deleted_at = 7;
  deleting = refl;
  has_finalizer = refl;
  has_manager = refl;
  has_user = refl;
  in_server_mode = refl;
}

down-Reads : Reads memory reconciler users request deleted_backup with_server down down
unfolding Lookup.get_kopia_repository
down-Reads = record { state = down.api; backup = refl; repository = refl }

up-Reads : Reads memory reconciler users request deleted_backup with_server up up
unfolding Lookup.get_kopia_repository
up-Reads = record { state = up.api; backup = refl; repository = refl }

reconcile-finalizes_example :
    (is_error (reconcile memory reconciler request down).0.error ≡ true)
    × (reconcile memory reconciler request up ≡ (
      record { result = done; error = none },
      finalized memory reconciler users request deleted_backup with_server up end,
    ))
unfolding Ends
reconcile-finalizes_example =
    reconcile-finalizes memory reconciler users request deleted_backup with_server deleting (
      fails (plain "down") down down up down-Reads refl (
        succeeds up up
          (without_finalizer memory reconciler users request deleted_backup with_server) end
          up-Reads refl refl))
