-- ===== src/Users/Sync.antt =====
-- What EnsureUser leaves on the server and in the credentials secret.
use kopia_operator.Prelude.{ap, String, ◌<>◌, false, eq_refl, ◌≡◌, refl, true, some, ◌==◌}
use kopia_operator.Prelude.Lists.{lookup, insert, lookup-insert}
use kopia_operator.Prelude.Hex.{hex, first}
use kopia_operator.Error.{Error, is_not_found}
use kopia_operator.Exec.{ok, err}
use kopia_operator.Kube.Meta.{ObjectMeta}
use kopia_operator.Kube.Objects.{Secret}
use kopia_operator.Api.Backup.{Backup}
use kopia_operator.Api.Repository.{Repository}
use kopia_operator.Platform.{Platform}
use kopia_operator.World.{World, write, patch, api_write, create, delete, core_secret, emit}
use kopia_operator.Controller.{get_or_empty, or_empty}
use kopia_operator.Naming.{username, user_secret_name}
use kopia_operator.Users.Password.{generate_secure_password}
use kopia_operator.Users.Server.{Host, create_user_on_server}
use kopia_operator.Users.Manager.{
  mark_user_synced, after_sync, user_synced_annotation, credentials_fingerprint, server_error,
  new_secret, after_first_sync, create_user_secret, sync_if_changed, sync_user_secret, with_secret,
  secret_key, ensure_user,
}

module _ (P : Platform) (H : Host P) where
  open P use {State, secrets, set_controller_reference}

  -- 32 hexadecimal digits of the SHA-256 of the user, a zero and the password.
  abbrev pub digest : String → String → String
  digest user password = hex "0123456789abcdef" (first 16 (H.sha256 (user <> ("\0" <> password))))

  abbrev pub marked : Secret → String → Secret
  marked secret fingerprint = record secret {
    metadata = record secret.metadata {
      annotations = insert user_synced_annotation fingerprint secret.metadata.annotations;
    };
  }

  annotation-marked :
      (secret : Secret) (fingerprint : String)
      → get_or_empty user_synced_annotation (marked secret fingerprint).metadata.annotations
        ≡ fingerprint
  annotation-marked secret fingerprint = ap or_empty (
      lookup-insert user_synced_annotation user_synced_annotation fingerprint
        secret.metadata.annotations)

  stays_quiet :
      (b : Backup) (repo : Repository) (w : World State) (secret : Secret) (user password : String)
      (s : State)
      → secrets.get (secret_key P H b) w.api ≡ (ok secret, s)
      → lookup "KOPIA_SERVER_USERNAME" secret.contents ≡ some user
      → lookup "KOPIA_SERVER_PASSWORD" secret.contents ≡ some password
      → get_or_empty user_synced_annotation secret.metadata.annotations ≡ digest user password
      → ensure_user P H b repo w
        ≡ (ok (user_secret_name b.metadata.namespace b.spec.pvc_name), record w { api = s })
  unfolding ensure_user with_secret sync_user_secret sync_if_changed credentials_fingerprint
  stays_quiet b repo w secret user password s got has_user has_password same =
      rw (got, has_user, has_password, same, eq_refl (digest user password))

  -- A credentials secret whose annotation is not the digest of its user and its password, and a server
  -- that takes them: EnsureUser answers the secret's name, and the only write after the command is the
  -- patch that sets the annotation to that digest. Any later call that reads the secret so patched
  -- answers the name after that read: it looks for no pod, runs no command and sends no write.
  pub ensure_user-syncs_once :
      (b : Backup) (repo : Repository) (w w' : World State) (secret : Secret)
      (user password : String) (s : State)
      → secrets.get (secret_key P H b) w.api ≡ (ok secret, s)
      → lookup "KOPIA_SERVER_USERNAME" secret.contents ≡ some user
      → lookup "KOPIA_SERVER_PASSWORD" secret.contents ≡ some password
      → (get_or_empty user_synced_annotation secret.metadata.annotations == digest user password)
        ≡ false
      → create_user_on_server P H repo user password (record w { api = s }) ≡ (ok tt, w')
      → let name = user_secret_name b.metadata.namespace b.spec.pvc_name in
        let patched = marked secret (digest user password) in
        (ensure_user P H b repo w
          ≡ (ok name, (write patch core_secret secret.metadata (secrets.patch patched) w').1))
        × ((v : World State) (t : State)
            → secrets.get (secret_key P H b) v.api ≡ (ok patched, t)
            → ensure_user P H b repo v ≡ (ok name, record v { api = t }))
  unfolding ensure_user with_secret sync_user_secret sync_if_changed credentials_fingerprint
      mark_user_synced after_sync
  ensure_user-syncs_once b repo w w' secret user password s got has_user has_password stale made = (
    rw (got, has_user, has_password, stale, made) (rw stale refl),
    λ v t read.
        stays_quiet b repo v (marked secret (digest user password)) user password t read has_user
          has_password (annotation-marked secret (digest user password)),
  )

  -- A new user whose creation on the server fails: the secret is not there, a password is generated,
  -- the secret is created, and the server refuses or is not ready. EnsureUser then returns the error
  -- as server_error gives it, and the last write that it sends deletes the created secret, whether
  -- that deletion succeeds or not.
  pub ensure_user-rolls_back :
      (b : Backup) (repo : Repository) (w w1 w2 : World State) (missing e : Error)
      (password : String) (metadata : ObjectMeta) (stored : Secret) (s t : State)
      → secrets.get (secret_key P H b) w.api ≡ (err missing, s)
      → is_not_found missing ≡ true
      → generate_secure_password H.rand (record w { api = s }) ≡ (ok password, w1)
      → (let user = username b.metadata.namespace b.spec.pvc_name repo.spec.hostname in
          let name = user_secret_name b.metadata.namespace b.spec.pvc_name in
          let secret = new_secret P H b name user password in
          (set_controller_reference "KopiaBackup" b.metadata secret.metadata ≡ ok metadata)
          × ((secrets.create (record secret { metadata = metadata }) w1.api ≡ (ok stored, t))
              × (create_user_on_server P H repo user password
                    (record (emit
                      (api_write create core_secret metadata.name metadata.namespace)
                      w1) { api = t })
                  ≡ (err e, w2))))
      → (let (answer, w3) = ensure_user P H b repo w in
          (answer ≡ err (server_error P H "failed to create user on Kopia server" e))
          × (w3.trace
              ≡ (emit
                  (api_write delete core_secret stored.metadata.name stored.metadata.namespace)
                  w2).trace)
          × (w3.api ≡ (secrets.delete stored w2.api).1))
  unfolding ensure_user with_secret create_user_secret after_first_sync
  ensure_user-rolls_back b repo w w1 w2 missing e password metadata stored s t got absent drawn
        (owned, (made, failed)) =
      rw (got, absent, drawn, owned, made, failed) (refl, refl, refl)
