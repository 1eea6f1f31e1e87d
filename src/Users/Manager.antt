-- ===== src/Users/Manager.antt =====
-- KopiaUserManager's EnsureUser and DeleteUser.
use Prim.Native.Nat.{ℕ}
use mathlib.Core.List.{List, [], ◌∷◌}
use kopia_operator.Prelude.{String, ◌<>◌, Option, none, some, ◌==◌, if◌then◌else◌}
use kopia_operator.Prelude.Lists.{Dict, lookup, insert}
use kopia_operator.Prelude.Hex.{hex, first}
use kopia_operator.Prelude.Quote.{quote}
use kopia_operator.Error.{Error, plain, wrap, is_not_found, is_server_not_ready}
use kopia_operator.Exec.{
  Result, ok, err, Exec, ◌>>=◌, ◌>>◌, pure, raise, wrapping, wrap_result, attempt,
}
use kopia_operator.Kube.Meta.{Key, new_meta}
use kopia_operator.Kube.Objects.{Secret}
use kopia_operator.Api.Backup.{Backup}
use kopia_operator.Api.Repository.{Repository}
use kopia_operator.Platform.{Platform}
use kopia_operator.World.{World, create, patch, delete, core_secret, call, write}
use kopia_operator.Controller.{get_or_empty}
use kopia_operator.Interfaces.{UserManager}
use kopia_operator.Naming.{username, user_secret_name}
use kopia_operator.Users.Password.{generate_secure_password}
use kopia_operator.Users.Server.{Host, create_user_on_server, delete_user_from_server}

abbrev pub user_synced_annotation : String
user_synced_annotation = "backup.cloudinfra.be/user-synced"

-- hex.EncodeToString
abbrev hex_encode : List ℕ → String
hex_encode = hex "0123456789abcdef"

-- The labels of the credentials secret.
abbrev user_labels : String → Dict String
user_labels backup_name =
    ("app", "kopia-backup")
    ∷ ("kopia-backup", backup_name)
    ∷ ("app.kubernetes.io/name", "kopia-backup")
    ∷ ("app.kubernetes.io/instance", backup_name)
    ∷ ("app.kubernetes.io/managed-by", "kopia-operator")
    ∷ []

module _ (P : Platform) (H : Host P) where
  open P use {State, secrets, pods, set_controller_reference}
  open H use {pod_executor, rand, sha256}

  unfoldable pub credentials_fingerprint : String → String → String
  unfolding hex
  credentials_fingerprint user password =
      hex_encode (first 16 (sha256 (user <> ("\0" <> password))))

  -- A failure of the patch is only logged.
  unfoldable pub mark_user_synced : Secret → String → String → World State → World State
  unfolding credentials_fingerprint
  mark_user_synced secret user password w =
      let fingerprint = credentials_fingerprint user password in
      if get_or_empty user_synced_annotation secret.metadata.annotations == fingerprint
      then w
      else (write patch core_secret secret.metadata
          (secrets.patch (record secret {
            metadata = record secret.metadata {
              annotations = insert user_synced_annotation fingerprint secret.metadata.annotations;
            };
          }))
          w).1

  -- The error of createUserOnServer, as EnsureUser returns it.
  unfoldable pub server_error : String → Error → Error
  server_error message e = if is_server_not_ready e then e else wrap message e

  -- The secret that EnsureUser creates, before the owner reference is set.
  unfoldable pub new_secret : Backup → String → String → String → Secret
  new_secret backup secret_name user password = record {
    metadata = new_meta secret_name backup.metadata.namespace (user_labels backup.metadata.name);
    type = "";
    contents = [];
    string_data = ("KOPIA_SERVER_USERNAME", user) ∷ ("KOPIA_SERVER_PASSWORD", password) ∷ [];
  }

  -- From the answer of createUserOnServer for a new secret: an error rolls the secret back, and the
  -- answer to that deletion is only logged.
  unfoldable pub after_first_sync :
      Secret → String → String → String → Result (Unit {0}) → Exec (World State) String
  unfolding server_error
  after_first_sync secret secret_name user password (ok _) w =
      (ok secret_name, mark_user_synced secret user password w)
  after_first_sync secret secret_name user password (err e) w = (
    err (server_error "failed to create user on Kopia server" e),
    (write delete core_secret secret.metadata (secrets.delete secret) w).1,
  )

  unfoldable pub create_user_secret :
      Backup → Repository → String → String → Exec (World State) String
  unfolding after_first_sync new_secret
  create_user_secret backup repo secret_name user = do
    password ← wrapping "failed to generate password" (generate_secure_password rand)
    let secret = new_secret backup secret_name user password
    metadata ← (λ w. (
      wrap_result "failed to set controller reference on user secret"
          (set_controller_reference "KopiaBackup" backup.metadata secret.metadata),
      w,
    ))
    stored ←
        wrapping "failed to create user credentials secret" (
          write create core_secret metadata
            (secrets.create (record secret { metadata = metadata })))
    answer ← attempt (create_user_on_server P H repo user password)
    after_first_sync stored secret_name user password answer

  unfoldable pub after_sync :
      Secret → String → String → String → Result (Unit {0}) → Exec (World State) String
  unfolding server_error
  after_sync secret secret_name user password (ok _) w =
      (ok secret_name, mark_user_synced secret user password w)
  after_sync secret secret_name user password (err e) w =
      (err (server_error "failed to ensure user on Kopia server" e), w)

  unfoldable pub sync_if_changed :
      Repository → String → Secret → String → String → Exec (World State) String
  unfolding after_sync credentials_fingerprint
  sync_if_changed repo secret_name secret user password =
      if get_or_empty user_synced_annotation secret.metadata.annotations
        == credentials_fingerprint user password
      then pure secret_name
      else do
        answer ← attempt (create_user_on_server P H repo user password)
        after_sync secret secret_name user password answer

  abbrev pub require_key : String → String → Option String → Exec (World State) String
  require_key secret_name key none =
      raise (plain ("secret " <> (quote secret_name <> (" missing required key " <> key))))
  require_key secret_name key (some v) = pure v

  unfoldable pub sync_user_secret : Repository → String → Secret → Exec (World State) String
  unfolding sync_if_changed lookup
  sync_user_secret repo secret_name secret = do
    user ←
        require_key secret_name "KOPIA_SERVER_USERNAME"
          (lookup "KOPIA_SERVER_USERNAME" secret.contents)
    password ←
        require_key secret_name "KOPIA_SERVER_PASSWORD"
          (lookup "KOPIA_SERVER_PASSWORD" secret.contents)
    sync_if_changed repo secret_name secret user password

  unfoldable pub with_secret :
      Backup → Repository → String → String → Result Secret → Exec (World State) String
  unfolding create_user_secret sync_user_secret
  with_secret backup repo secret_name user (ok secret) = sync_user_secret repo secret_name secret
  with_secret backup repo secret_name user (err e) =
      if is_not_found e
      then create_user_secret backup repo secret_name user
      else raise (wrap "failed to get user credentials secret" e)

  abbrev pub secret_key : Backup → Key
  secret_key backup = record {
    name = user_secret_name backup.metadata.namespace backup.spec.pvc_name;
    namespace = backup.metadata.namespace;
  }

  unfoldable pub ensure_user : Backup → Repository → Exec (World State) String
  unfolding with_secret
  ensure_user backup repo = do
    let user = username backup.metadata.namespace backup.spec.pvc_name repo.spec.hostname
    secret ← attempt (call (secrets.get (secret_key backup)))
    with_secret backup repo (secret_key backup).name user secret

  unfoldable pub delete_secret : Result Secret → Exec (World State) (Unit {0})
  delete_secret (ok secret) = write delete core_secret secret.metadata (secrets.delete secret)
  delete_secret (err e) =
      if is_not_found e then pure tt else raise (wrap "failed to get user credentials secret" e)

  unfoldable pub delete_user : Backup → Repository → Exec (World State) (Unit {0})
  unfolding delete_secret delete_user_from_server
  delete_user backup repo = do
    let user = username backup.metadata.namespace backup.spec.pvc_name repo.spec.hostname
    wrapping "failed to delete user from Kopia server" (delete_user_from_server P H repo user)
    secret ← attempt (call (secrets.get (secret_key backup)))
    delete_secret secret

  -- The manager behind its interface.
  abbrev pub user_manager : UserManager (World State)
  user_manager = record { ensure_user = ensure_user; delete_user = delete_user }
