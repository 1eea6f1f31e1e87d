-- ===== src/BackupController/Waiting.antt =====
-- A backup of a server that is not up yet: the controller, the user manager and the errors together.
use kopia_operator.Prelude.{String, ◌<>◌, ◌≡◌, refl, false, none, some, List, [], ◌∷◌, arith, ◌==◌}
use kopia_operator.Prelude.Lists.{lookup, find}
use kopia_operator.Error.{is_server_not_ready, wrap, server_not_ready}
use kopia_operator.Exec.{ok, err}
use kopia_operator.Kube.Objects.{Secret}
use kopia_operator.Kube.Pods.{Pod}
use kopia_operator.Api.Backup.{Backup}
use kopia_operator.Api.Repository.{Repository}
use kopia_operator.Platform.{Platform}
use kopia_operator.World.{World}
use kopia_operator.Controller.{get_or_empty}
use kopia_operator.Interfaces.{ServerManager}
use kopia_operator.Users.Server.{
  Host, is_serving, first_serving, choose_pod, server_pods, get_server_pod_name,
  create_user_on_server,
}
use kopia_operator.Users.Manager.{
  user_synced_annotation, credentials_fingerprint, server_error, sync_if_changed, after_sync,
  sync_user_secret, secret_key, ensure_user, with_secret, user_manager,
}
use kopia_operator.BackupController.Credentials.{
  requeue_delay, stop, after_ensure_user, server_credentials,
}

module _ (P : Platform) (H : Host P) where
  open P use {State, pods, secrets}

  -- The message of the error when no pod serves.
  message_of : Repository → List Pod → String
  message_of repo [] =
      "no server pod found for repository "
      <> (repo.metadata.name <> (" in namespace " <> repo.metadata.namespace))
  message_of repo (pod ∷ rest) =
      "kopia-server container not ready yet for repository "
      <> (repo.metadata.name <> (" in namespace " <> repo.metadata.namespace))

  first_serving-none :
      (repo : Repository) (pod : Pod) (found : List Pod)
      → find is_serving found ≡ none
      → first_serving P H repo found ≡ err (server_not_ready (message_of repo (pod ∷ found)))
  unfolding first_serving message_of
  first_serving-none repo pod [] h = refl
  first_serving-none repo pod (x ∷ found) h = ground (arith, first_serving-none repo pod found)

  choose_pod-none :
      (repo : Repository) (found : List Pod)
      → find is_serving found ≡ none
      → choose_pod P H repo found ≡ err (server_not_ready (message_of repo found))
  unfolding choose_pod message_of
  choose_pod-none repo [] h = refl
  choose_pod-none repo (pod ∷ rest) h = first_serving-none repo pod (pod ∷ rest) h

  get_server_pod_name-none :
      (repo : Repository) (w : World State) (found : List Pod) (s : State)
      → pods.list (server_pods P H repo) w.api ≡ (ok found, s)
      → find is_serving found ≡ none
      → get_server_pod_name P H repo w
        ≡ (err (server_not_ready (message_of repo found)), record w { api = s })
  unfolding get_server_pod_name
  get_server_pod_name-none repo w found s listed h = rw (listed, choose_pod-none repo found h)

  create_user_on_server-none :
      (repo : Repository) (user password : String) (w : World State) (found : List Pod) (s : State)
      → pods.list (server_pods P H repo) w.api ≡ (ok found, s)
      → find is_serving found ≡ none
      → create_user_on_server P H repo user password w ≡ (
        err (wrap "failed to find server pod" (server_not_ready (message_of repo found))),
        record w { api = s },
      )
  unfolding create_user_on_server
  create_user_on_server-none repo user password w found s listed h =
      rw (get_server_pod_name-none repo w found s listed h)

  -- With the credentials secret there and not yet synced, and no listed pod of the server serving,
  -- the credentials phase stops the reconcile with no error and a requeue after 30 seconds: it runs no
  -- command, sends no write, and leaves the backup as it is.
  pub server_credentials-waits :
      (servers : ServerManager (World State)) (b : Backup) (repo : Repository) (w : World State)
      (secret : Secret) (user password : String) (found : List Pod) (s t : State)
      → secrets.get (secret_key P H b) w.api ≡ (ok secret, s)
      → lookup "KOPIA_SERVER_USERNAME" secret.contents ≡ some user
      → lookup "KOPIA_SERVER_PASSWORD" secret.contents ≡ some password
      → (get_or_empty user_synced_annotation secret.metadata.annotations
          == credentials_fingerprint P H user password)
        ≡ false
      → pods.list (server_pods P H repo) s ≡ (ok found, t)
      → find is_serving found ≡ none
      → server_credentials P servers (some (user_manager P H)) b repo w
        ≡ (stop (record { result = requeue_delay; error = none; object = b }), record w { api = t })
  unfolding server_credentials after_ensure_user ensure_user with_secret sync_user_secret
      sync_if_changed after_sync server_error is_server_not_ready
  server_credentials-waits servers b repo w secret user password found s t got has_user has_password
        changed listed h =
      rw (
        got,
        has_user,
        has_password,
        changed,
        create_user_on_server-none repo user password (record w { api = s }) found t listed h,
      )
