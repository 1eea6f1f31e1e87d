-- ===== src/Examples/Syncing.antt =====
-- The first sync of a user, and what comes after it, at a cluster in memory.
use kopia_operator.Prelude.{◌≡◌, refl, [], ◌∷◌, true}
use kopia_operator.Prelude.Lists.{lookup}
use kopia_operator.Prelude.Hex.{hex}
use kopia_operator.Exec.{ok}
use kopia_operator.Kube.Objects.{Secret}
use kopia_operator.Kube.Pods.{Pod, pod_running}
use kopia_operator.Platform.Memory.{Cluster, nothing, memory}
use kopia_operator.World.{World, write, patch, core_secret}
use kopia_operator.Naming.{user_secret_name, server_labels}
use kopia_operator.Users.Server.{Host, create_user_on_server, is_serving}
use kopia_operator.Users.Manager.{secret_key, ensure_user}
use kopia_operator.Users.Sync.{digest, marked, ensure_user-syncs_once}
use kopia_operator.Examples.Data.{with_server, backup, credentials, pending_pod, world, host}

-- A container that takes every command.
abbrev answering : Host memory
answering = record host { pod_executor = λ namespace pod container command w. (ok ("", ""), w) }

abbrev serving_pod : Pod
serving_pod = record pending_pod {
  phase = pod_running;
  container_statuses = record { name = "kopia-server"; ready = true } ∷ [];
}

abbrev unsynced : Secret
unsynced = credentials []

abbrev before : World Cluster
before = world (record nothing { secrets = unsynced ∷ []; pods = serving_pod ∷ [] })

ensure_user-syncs_once_example :
    let patched =
      marked memory answering unsynced (digest memory answering "web-data@cluster" "secret") in
    (ensure_user memory answering backup with_server before ≡ (
      ok (user_secret_name "web" "data"),
      (write patch core_secret unsynced.metadata (memory.secrets.patch patched) before).1,
    ))
    × ((v : World Cluster) (t : Cluster)
        → memory.secrets.get (secret_key memory answering backup) v.api ≡ (ok patched, t)
        → ensure_user memory answering backup with_server v
          ≡ (ok (user_secret_name "web" "data"), record v { api = t }))
unfolding create_user_on_server lookup hex user_secret_name server_labels is_serving
ensure_user-syncs_once_example =
    ensure_user-syncs_once memory answering backup with_server before before unsynced
      "web-data@cluster" "secret" before.api refl refl refl refl refl
